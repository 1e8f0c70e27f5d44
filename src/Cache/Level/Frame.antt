-- ===== src/Cache/Level/Frame.antt =====
-- Where a change under the last token of a path is seen, and the levels that are built on
-- the way (statefun/cache/cache.go).
use foliage_sdk.Common.{
  suc, Bool, true, false, Option, none, some, List, [], ◌∷◌, ◌≡◌, ◌≢◌, refl, arith, ◌&&◌, inl, inr,
  Option-cases, Bool-cases, ◌∙◌, sym, if◌then◌else◌, ap,
}
use foliage_sdk.Common.Int.{ℤ}
use foliage_sdk.Common.Text.{Str, str_eq, str_eq_iff}
use foliage_sdk.Cache.Value.{
  Entry, StoreValue, ValueMap, store_value, nil, entry, store, find_child, assign_child, new_level,
  notify_level,
}
use foliage_sdk.Cache.Level.{Clock, at_parent, last_key_value}
use foliage_sdk.Cache.Level.Laws.{Seen, seen_of, view, view_here, view_step, find-assign_child}

-- `q` is a proper prefix of `p`.
unfoldable pub is_level_of : List Str → List Str → Bool
is_level_of [] [] = false
is_level_of [] (t ∷ p) = true
is_level_of (s ∷ q) [] = false
is_level_of (s ∷ q) (t ∷ p) = str_eq s t && is_level_of q p

abbrev pub or_else {ℓ} : {A : Type ℓ} → Option A → Option A → Option A
or_else none b = b
or_else (some a) b = some a

-- The time that a level built at path `q` gets.
unfoldable pub built_at : Clock → List Str → ℤ
built_at clock [] = clock 0
built_at clock (t ∷ []) = clock 0
built_at clock (t ∷ u ∷ q) = built_at (λ i. clock (suc i)) (u ∷ q)

-- `f` changes nothing that is seen but at the child that it is called for.
abbrev pub Local : (Str → StoreValue → StoreValue) → Type 0
Local f = (t : Str) (csv : StoreValue) (q : List Str) → q ≢ (t ∷ []) → view q (f t csv) ≡ view q csv

-- The levels that a walk with `createIfNotexists` to `p` has built at `q`.
abbrev pub built : Clock → List Str → List Str → Option Seen
built clock q p = if is_level_of q p then some (seen_of (new_level (built_at clock q))) else none

-- One step down: what is seen below a node one of whose children was replaced.
pub view_replaced :
    (t x : Str) (q : List Str) (e' e : Entry) (m : ValueMap) (c : StoreValue)
    → view (x ∷ q) (store_value e' (assign_child t c m))
      ≡ (if str_eq t x then view q c else view (x ∷ q) (store_value e m))
view_replaced t x q e' e m c = ground (
  arith,
  view_step x q (store_value e' (assign_child t c m)),
  view_step x q (store_value e m),
  find-assign_child x t c m,
)

view_root : (csv : StoreValue) → view [] csv ≡ some (seen_of (entry csv))
view_root (store_value e m) = view_here e m

-- A new level is seen at its own path, and there is nothing below it.
pub view_level :
    (now : ℤ) (q : List Str)
    → view q (store_value (new_level now) nil)
      ≡ (elim q [ [] ↦ some (seen_of (new_level now)) | _ ↦ none ])
unfolding find_child
view_level now [] = view_here _ _
view_level now (x ∷ q) = view_step x q (store_value (new_level now) nil)

-- What is seen after a change of the child at `t`, where a missing child is built first.
pub view_at_child :
    (create : Bool) (clock : Clock) (f : Str → StoreValue → StoreValue) (t u : Str) (p : List Str)
    (x : Str) (q : List Str) (csv c : StoreValue)
    → find_child t (store csv) ≡ some c
    → view (x ∷ q) (at_parent create clock f (t ∷ u ∷ p) csv) ≡ (
        if str_eq t x
        then view q (at_parent create (λ i. clock (suc i)) f (u ∷ p) c)
        else view (x ∷ q) csv)
unfolding at_parent
view_at_child create clock f t u p x q (store_value e m) c h =
    ground (arith, view_replaced t x q e e m (at_parent create (λ i. clock (suc i)) f (u ∷ p) c))

pub view_built_child :
    (clock : Clock) (f : Str → StoreValue → StoreValue) (t u : Str) (p : List Str) (x : Str)
    (q : List Str) (csv : StoreValue)
    → find_child t (store csv) ≡ none
    → view (x ∷ q) (at_parent true clock f (t ∷ u ∷ p) csv) ≡ (
        if str_eq t x
        then view q
            (at_parent true (λ i. clock (suc i)) f (u ∷ p) (store_value (new_level (clock 0)) nil))
        else view (x ∷ q) csv)
unfolding at_parent
view_built_child clock f t u p x q (store_value e m) h =
    let level = store_value (new_level (clock 0)) nil in
    ground (
      arith,
      view_replaced t x q (notify_level t none e) e (assign_child t level m)
          (at_parent true (λ i. clock (suc i)) f (u ∷ p) level),
      view_replaced t x q e e m level,
    )

pub at_parent_root :
    (create : Bool) (clock : Clock) (f : Str → StoreValue → StoreValue) (p : List Str)
    (csv : StoreValue)
    → Local f
    → view [] (at_parent create clock f p csv) ≡ view [] csv
unfolding at_parent notify_level view last_key_value
at_parent_root create clock f [] csv local = refl
at_parent_root create clock f (t ∷ []) csv local = local t csv [] (λ e. cc)
at_parent_root create clock f (t ∷ u ∷ p) (store_value e m) local = ground arith

tail_ne : {t : Str} {q p : List Str} → (t ∷ q) ≢ (t ∷ p) → q ≢ p
tail_ne {t} h e = h (ap (◌∷◌ t) e)

or_else-none : (o : Option Seen) → or_else o none ≡ o
or_else-none none = refl
or_else-none (some s) = refl

pub ne_below : (t x : Str) (q p : List Str) → (x ∷ q) ≢ (t ∷ p) → str_eq t x ≡ true → q ≢ p
ne_below t x q p h same e = h (cc (e, (str_eq_iff t x).0 same))

not-level_of_one : (t x : Str) (q : List Str) → is_level_of (x ∷ q) (t ∷ []) ≡ false
unfolding is_level_of
not-level_of_one t x [] = ground arith
not-level_of_one t x (y ∷ q) = ground arith

level_of_other :
    (t x : Str) (q p : List Str) → str_eq t x ≡ false → is_level_of (x ∷ q) (t ∷ p) ≡ false
unfolding is_level_of
level_of_other t x q p h = ground (arith, str_eq_iff t x, str_eq_iff x t)

level_of_same :
    (t x : Str) (q p : List Str) → str_eq t x ≡ true → is_level_of (x ∷ q) (t ∷ p) ≡ is_level_of q p
unfolding is_level_of
level_of_same t x q p h = ground (arith, str_eq_iff t x, str_eq_iff x t)

pub view_below :
    (t x : Str) (q : List Str) (csv c : StoreValue)
    → find_child t (store csv) ≡ some c
    → str_eq t x ≡ true
    → view (x ∷ q) csv ≡ view q c
view_below t x q csv c h same = ground (arith, str_eq_iff t x, view_step t q csv)

view_absent :
    (t x : Str) (q : List Str) (csv : StoreValue)
    → find_child t (store csv) ≡ none
    → str_eq t x ≡ true
    → view (x ∷ q) csv ≡ none
view_absent t x q csv h same = ground (arith, str_eq_iff t x, view_step t q csv)

or_else-some : (o b : Option Seen) (s : Seen) → o ≡ some s → or_else o b ≡ o
or_else-some none b s h = cc
or_else-some (some a) b s h = refl

one_level :
    (clock : Clock) (f : Str → StoreValue → StoreValue) (t x : Str) (q : List Str)
    (csv : StoreValue)
    → Local f
    → (x ∷ q) ≢ (t ∷ [])
    → view (x ∷ q) (at_parent true clock f (t ∷ []) csv)
      ≡ or_else (view (x ∷ q) csv) (built clock (x ∷ q) (t ∷ []))
unfolding at_parent
one_level clock f t x q csv local h =
    rw (not-level_of_one t x q) (local t csv (x ∷ q) h ∙ sym (or_else-none (view (x ∷ q) csv)))

-- The path turns off here: nothing below is changed.
turned_off :
    (clock : Clock) (t x : Str) (q p : List Str) (csv : StoreValue)
    → str_eq t x ≡ false
    → or_else (view (x ∷ q) csv) (built clock (x ∷ q) (t ∷ p)) ≡ view (x ∷ q) csv
turned_off clock t x q p csv other =
    rw (level_of_other t x q p other) (or_else-none (view (x ∷ q) csv))

module _ (clock : Clock) (f : Str → StoreValue → StoreValue) (local : Local f) where
  abbrev next_clock : Clock
  next_clock i = clock (suc i)

  found_here :
      (t u x : Str) (p : List Str) (csv c : StoreValue)
      → find_child t (store csv) ≡ some c
      → view (x ∷ []) (at_parent true clock f (t ∷ u ∷ p) csv)
        ≡ or_else (view (x ∷ []) csv) (built clock (x ∷ []) (t ∷ u ∷ p))
  found_here t u x p csv c e = elim (Bool-cases (str_eq t x)) [
    | inr other ↦
        rw (turned_off clock t x [] (u ∷ p) csv other)
          (ground (arith, view_at_child true clock f t u p x [] csv c e))
    | inl same ↦
        rw
          (or_else-some (view (x ∷ []) csv) (built clock (x ∷ []) (t ∷ u ∷ p)) (seen_of (entry c))
            (view_below t x [] csv c e same ∙ view_root c))
          (ground (
            arith,
            view_at_child true clock f t u p x [] csv c e,
            view_below t x [] csv c e same,
            at_parent_root true next_clock f (u ∷ p) c local,
          ))
  ]

  found_below :
      (t u x y : Str) (p q : List Str) (csv c : StoreValue)
      → find_child t (store csv) ≡ some c
      → (str_eq t x ≡ true
          → view (y ∷ q) (at_parent true next_clock f (u ∷ p) c)
            ≡ or_else (view (y ∷ q) c) (built next_clock (y ∷ q) (u ∷ p)))
      → view (x ∷ y ∷ q) (at_parent true clock f (t ∷ u ∷ p) csv)
        ≡ or_else (view (x ∷ y ∷ q) csv) (built clock (x ∷ y ∷ q) (t ∷ u ∷ p))
  unfolding built_at
  found_below t u x y p q csv c e ih = elim (Bool-cases (str_eq t x)) [
    | inr other ↦
        rw (turned_off clock t x (y ∷ q) (u ∷ p) csv other)
          (ground (arith, view_at_child true clock f t u p x (y ∷ q) csv c e))
    | inl same ↦
        rw (level_of_same t x (y ∷ q) (u ∷ p) same, view_below t x (y ∷ q) csv c e same)
          (view_at_child true clock f t u p x (y ∷ q) csv c e ∙ rw same (ih same))
  ]

  built_here :
      (t u x : Str) (p : List Str) (csv : StoreValue)
      → find_child t (store csv) ≡ none
      → view (x ∷ []) (at_parent true clock f (t ∷ u ∷ p) csv)
        ≡ or_else (view (x ∷ []) csv) (built clock (x ∷ []) (t ∷ u ∷ p))
  unfolding built_at is_level_of
  built_here t u x p csv e = elim (Bool-cases (str_eq t x)) [
    | inr other ↦
        rw (turned_off clock t x [] (u ∷ p) csv other)
          (ground (arith, view_built_child clock f t u p x [] csv e))
    | inl same ↦
        rw (level_of_same t x [] (u ∷ p) same, view_absent t x [] csv e same)
          (view_built_child clock f t u p x [] csv e
            ∙ rw same (
                at_parent_root true next_clock f (u ∷ p) (store_value (new_level (clock 0)) nil)
                  local
                ∙ view_here (new_level (clock 0)) nil))
  ]

  built_below :
      (t u x y : Str) (p q : List Str) (csv : StoreValue)
      → find_child t (store csv) ≡ none
      → (str_eq t x ≡ true
          → view
              (y ∷ q)
              (at_parent true next_clock f (u ∷ p) (store_value (new_level (clock 0)) nil))
            ≡ or_else
                (view (y ∷ q) (store_value (new_level (clock 0)) nil))
                (built next_clock (y ∷ q) (u ∷ p)))
      → view (x ∷ y ∷ q) (at_parent true clock f (t ∷ u ∷ p) csv)
        ≡ or_else (view (x ∷ y ∷ q) csv) (built clock (x ∷ y ∷ q) (t ∷ u ∷ p))
  unfolding built_at
  built_below t u x y p q csv e ih = elim (Bool-cases (str_eq t x)) [
    | inr other ↦
        rw (turned_off clock t x (y ∷ q) (u ∷ p) csv other)
          (ground (arith, view_built_child clock f t u p x (y ∷ q) csv e))
    | inl same ↦
        rw (level_of_same t x (y ∷ q) (u ∷ p) same, view_absent t x (y ∷ q) csv e same)
          (view_built_child clock f t u p x (y ∷ q) csv e
            ∙ rw same (ih same ∙ rw (view_level (clock 0) (y ∷ q)) refl))
  ]

-- A walk that creates missing levels changes what is seen only at its path, and at the missing
-- levels above it, which are then seen as new levels.
pub view-at_parent_ne :
    (clock : Clock) (f : Str → StoreValue → StoreValue) (p q : List Str) (csv : StoreValue)
    → Local f
    → p ≢ []
    → q ≢ p
    → view q (at_parent true clock f p csv) ≡ or_else (view q csv) (built clock q p)
view-at_parent_ne clock f [] q csv local ne h = absurd (ne refl)
view-at_parent_ne clock f p [] csv local ne h =
    at_parent_root true clock f p csv local ∙ rw (view_root csv) refl
view-at_parent_ne clock f (t ∷ []) (x ∷ q) csv local ne h = one_level clock f t x q csv local h
view-at_parent_ne clock f (t ∷ u ∷ p) (x ∷ []) csv local ne h =
    elim (Option-cases (find_child t (store csv))) [
      | inl e ↦ built_here clock f local t u x p csv e
      | inr (c, e) ↦ found_here clock f local t u x p csv c e
    ]
view-at_parent_ne clock f (t ∷ u ∷ p) (x ∷ y ∷ q) csv local ne h =
    elim (Option-cases (find_child t (store csv))) [
      | inl e ↦ built_below clock f local t u x y p q csv e (λ same.
          view-at_parent_ne (λ i. clock (suc i)) f (u ∷ p) (y ∷ q)
            (store_value (new_level (clock 0)) nil) local (λ e. cc)
            (ne_below t x (y ∷ q) (u ∷ p) h same))
      | inr (c, e) ↦ found_below clock f local t u x y p q csv c e (λ same.
          view-at_parent_ne (λ i. clock (suc i)) f (u ∷ p) (y ∷ q) c local (λ e. cc)
            (ne_below t x (y ∷ q) (u ∷ p) h same))
    ]
