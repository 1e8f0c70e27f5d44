-- ===== src/Jpgql/Search/Entries.antt =====
-- embedded/graph/jpgql/jpgql.go: the entries of the root of a query, and when it replies.
use foliage_sdk.Common.{
  no_case, Bool, true, false, ◌&&◌, none, some, List, [], ◌∷◌, ◌++◌, ◌≡◌, refl, sym, ap, ◌∙◌,
  if◌then◌else◌, arith, rev_onto,
}
use foliage_sdk.Common.Dict.{Dict, load, assign}
use foliage_sdk.Common.Text.{Str, str_eq, str_eq_iff, str_eq_refl}
use foliage_sdk.Jpgql.Search.{Event, finishes}
use foliage_sdk.Jpgql.Search.Aggregate.{all_done, is_result, aggregate}
use foliage_sdk.Jpgql.Search.Pending.{root_after, assigned}

-- No key has two entries.
abbrev pub AreUnique : Dict Bool → Type 0
AreUnique [] = Unit
AreUnique ((k, b) ∷ m) = (load k m ≡ none) × AreUnique m

pub assign-AreUnique : (k : Str) (v : Bool) (m : Dict Bool) → AreUnique m → AreUnique (assign k v m)
unfolding assign load
assign-AreUnique k v [] h = (refl, tt)
assign-AreUnique k v ((j, b) ∷ m) h = by_test (str_eq j k) refl (assign-AreUnique k v m h.1)
  where
    by_test :
        (c : Bool)
        → str_eq j k ≡ c
        → AreUnique (assign k v m)
        → AreUnique (if c then (k, v) ∷ m else (j, b) ∷ assign k v m)
    by_test true t r = (ap (λ i. load i m) (sym ((str_eq_iff j k).0 t)) ∙ h.0, h.1)
    by_test false t r = (assigned k j v m false (flipped t) ∙ h.0, r)
      where
        flipped : str_eq j k ≡ false → str_eq k j ≡ false
        flipped t' = grind (arith, str_eq_iff j k, str_eq_iff k j, t')

-- No entry is pending.
pub all_done-intro :
    (m : Dict Bool)
    → AreUnique m
    → ((k : Str) → load k m ≡ some true → false ≡ true)
    → all_done m ≡ true
unfolding load
all_done-intro [] u h = refl
all_done-intro ((j, true) ∷ m) u h =
    no_case (h j (ap (λ b. if b then some true else load j m) (str_eq_refl j)))
all_done-intro ((j, false) ∷ m) u h = all_done-intro m u.1 (λ k e. h k (later k e))
  where
    later :
        (k : Str) → load k m ≡ some true → (if str_eq j k then some false else load k m) ≡ some true
    later k e = grind (arith, str_eq_iff j k, u.0, e)

-- An entry that is pending was so before, or is the new one.
pub put-pending :
    (j k : Str) (m : Dict Bool) (b : Bool)
    → str_eq j k ≡ false
    → load k (if b then m else assign j true m) ≡ some true
    → load k m ≡ some true
put-pending j k m true t h = h
put-pending j k m false t h = sym (assigned j k true m false t) ∙ h

pub put-AreUnique :
    (j : Str) (m : Dict Bool) (b : Bool)
    → AreUnique m
    → AreUnique (if b then m else assign j true m)
put-AreUnique j m true h = h
put-AreUnique j m false h = assign-AreUnique j true m h

-- The last update is a result, and then nothing is pending: the root replies.
pub aggregate-replies :
    (earlier seen : List Event) (k : Str) (found : List Str)
    → all_done (root_after (finishes k found ∷ rev_onto earlier seen)).pending ≡ true
    → (res : List Str) × (aggregate (earlier ++ (finishes k found ∷ [])) (root_after seen)
        ≡ some res)
unfolding aggregate
aggregate-replies [] seen k found d = (
  (root_after (finishes k found ∷ seen)).results,
  ap (λ b. if b then some (root_after (finishes k found ∷ seen)).results else none) d,
)
aggregate-replies (e ∷ earlier) seen k found d =
    by_test (is_result e && all_done (root_after (e ∷ seen)).pending)
      (aggregate-replies earlier (e ∷ seen) k found d)
  where
    by_test :
        (b : Bool)
        → (res : List Str) × (aggregate (earlier ++ (finishes k found ∷ [])) (root_after (e ∷ seen))
            ≡ some res)
        → (res : List Str) × ((if b
              then some (root_after (e ∷ seen)).results
              else aggregate (earlier ++ (finishes k found ∷ [])) (root_after (e ∷ seen)))
            ≡ some res)
    by_test true r = ((root_after (e ∷ seen)).results, refl)
    by_test false r = r
