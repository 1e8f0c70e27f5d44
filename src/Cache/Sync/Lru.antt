-- ===== src/Cache/Sync/Lru.antt =====
-- The threshold of the values that may be purged (`kvLazyWriter`, statefun/cache/cache.go).
use foliage_sdk.Common.{
  ℕ, zero, suc, ◌-◌, ◌≤◌, ◌<◌, true, false, some, List, [], ◌∷◌, ◌≡◌, refl, ◌∙◌, arith, inl, inr,
  Bool-cases, if◌then◌else◌, length, All, ltb,
}
use foliage_sdk.Common.Int.{ℤ, pos, negsuc, ltb_ℤ}
use foliage_sdk.Cache.Sync.{insert_time, sort_times, get_elem?, treshold_time}

-- How many of the times are later than `t`.
abbrev pub count_later : ℤ → List ℤ → ℕ
count_later t [] = 0
count_later t (u ∷ times) = if ltb_ℤ t u then suc (count_later t times) else count_later t times

-- The latest first.
abbrev Falling : List ℤ → Type 0
Falling [] = Unit {0}
Falling (t ∷ times) = All (λ u. ltb_ℤ t u ≡ false) times × Falling times

count-insert :
    (t u : ℤ) (times : List ℤ) → count_later t (insert_time u times) ≡ count_later t (u ∷ times)
unfolding insert_time
count-insert t u [] = refl
count-insert t u (v ∷ times) = ground (arith, count-insert t u times)

count-sort : (t : ℤ) (times : List ℤ) → count_later t (sort_times times) ≡ count_later t times
unfolding sort_times
count-sort t [] = refl
count-sort t (u ∷ times) = count-insert t u (sort_times times) ∙ ground (arith, count-sort t times)

length-insert : (u : ℤ) (times : List ℤ) → length (insert_time u times) ≡ suc (length times)
unfolding insert_time
length-insert u [] = refl
length-insert u (v ∷ times) = ground (arith, length-insert u times)

length-sort : (times : List ℤ) → length (sort_times times) ≡ length times
unfolding sort_times
length-sort [] = refl
length-sort (u ∷ times) = omega (arith, length-insert u (sort_times times), length-sort times)

not_later_trans : (a b c : ℤ) → ltb_ℤ a b ≡ false → ltb_ℤ b c ≡ false → ltb_ℤ a c ≡ false
not_later_trans (pos a) (pos b) (pos c) h k = ground arith
not_later_trans (pos a) (pos b) (negsuc c) h k = ground arith
not_later_trans (pos a) (negsuc b) (pos c) h k = ground arith
not_later_trans (pos a) (negsuc b) (negsuc c) h k = ground arith
not_later_trans (negsuc a) (pos b) c h k = cc
not_later_trans (negsuc a) (negsuc b) (pos c) h k = cc
not_later_trans (negsuc a) (negsuc b) (negsuc c) h k = ground arith

later_asym : (a b : ℤ) → ltb_ℤ a b ≡ true → ltb_ℤ b a ≡ false
later_asym (pos a) (pos b) h = ground arith
later_asym (pos a) (negsuc b) h = cc
later_asym (negsuc a) (pos b) h = refl
later_asym (negsuc a) (negsuc b) h = ground arith

All-weaken :
    (a b : ℤ) (times : List ℤ)
    → ltb_ℤ a b ≡ false
    → All (λ u. ltb_ℤ b u ≡ false) times
    → All (λ u. ltb_ℤ a u ≡ false) times
All-weaken a b [] h all = tt
All-weaken a b (u ∷ times) h all = (not_later_trans a b u h all.0, All-weaken a b times h all.1)

All-insert :
    (a u : ℤ) (times : List ℤ)
    → ltb_ℤ a u ≡ false
    → All (λ v. ltb_ℤ a v ≡ false) times
    → All (λ v. ltb_ℤ a v ≡ false) (insert_time u times)
unfolding insert_time
All-insert a u [] h all = (h, tt)
All-insert a u (v ∷ times) h all = ground (arith, All-insert a u times)

insert-Falling : (u : ℤ) (times : List ℤ) → Falling times → Falling (insert_time u times)
unfolding insert_time
insert-Falling u [] f = (tt, tt)
insert-Falling u (v ∷ times) f = elim (Bool-cases (ltb_ℤ u v)) [
  | inl later ↦
      rw later (All-insert v u times (later_asym u v later) f.0, insert-Falling u times f.1)
  | inr not_later ↦ rw not_later ((not_later, All-weaken u v times not_later f.0), f)
]

sort-Falling : (times : List ℤ) → Falling (sort_times times)
unfolding sort_times
sort-Falling [] = tt
sort-Falling (t ∷ times) = insert-Falling t (sort_times times) (sort-Falling times)

none_later : (t : ℤ) (times : List ℤ) → All (λ u. ltb_ℤ t u ≡ false) times → count_later t times ≡ 0
none_later t [] all = refl
none_later t (u ∷ times) all = ground (arith, none_later t times all.1)

later_self : (t : ℤ) → ltb_ℤ t t ≡ false
later_self (pos n) = ground arith
later_self (negsuc n) = ground arith

count-get_elem? :
    (times : List ℤ) (i : ℕ) (t : ℤ)
    → Falling times
    → get_elem? times i ≡ some t
    → count_later t times ≤ i
unfolding get_elem?
count-get_elem? [] i t f h = absurd (cc)
count-get_elem? (u ∷ times) zero t f h = ground (arith, none_later u times f.0, later_self u)
count-get_elem? (u ∷ times) (suc i) t f h = ground (arith, count-get_elem? times i t f.1)

-- Where a threshold is computed, fewer of the times than the configured size are later than it.
count_later-treshold_time :
    (lru_size : ℕ) (times : List ℤ) (t : ℤ)
    → treshold_time lru_size times ≡ some t
    → count_later t times < lru_size
unfolding treshold_time
count_later-treshold_time lru_size times t h = ground (
  arith,
  count-sort t times,
  count-get_elem? (sort_times times) (lru_size - 1) t (sort-Falling times),
  count-get_elem? (sort_times times) (length (sort_times times) - 1) t (sort-Falling times),
)

get_in_range : (times : List ℤ) (i : ℕ) → i < length times → (t : ℤ) × (get_elem? times i ≡ some t)
unfolding get_elem?
get_in_range [] i h = elim h [ ]
get_in_range (u ∷ times) zero h = (u, refl)
get_in_range (u ∷ times) (suc i) h = get_in_range times i (omega arith)

-- With a positive size and at least one value, the index of the threshold is in range.
treshold_time_defined :
    (lru_size : ℕ) (times : List ℤ)
    → 0 < lru_size
    → 0 < length times
    → (t : ℤ) × (treshold_time lru_size times ≡ some t)
unfolding treshold_time
treshold_time_defined lru_size times size some_time =
    elim (Bool-cases (ltb lru_size (length (sort_times times)))) [
      | inl big ↦
          let (t, e) =
            get_in_range (sort_times times) (lru_size - 1) (ground (arith, length-sort times)) in
          (t, ground (arith, length-sort times))
      | inr small ↦
          let (t, e) =
            get_in_range (sort_times times) (length (sort_times times) - 1)
              (ground (arith, length-sort times)) in
          (t, ground (arith, length-sort times))
    ]
