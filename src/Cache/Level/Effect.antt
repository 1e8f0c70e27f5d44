-- ===== src/Cache/Level/Effect.antt =====
-- What a change under the last token of a path does to what is seen at the path
-- (statefun/cache/cache.go).
use foliage_sdk.Common.{
  suc, true, false, Option, none, List, [], ◌∷◌, ◌≡◌, ◌≢◌, refl, arith, inl, inr, Option-cases,
  Bool-cases, ◌∙◌, sym, ap,
}
use foliage_sdk.Common.Text.{Str, str_eq, str_eq_iff}
use foliage_sdk.Cache.Value.{StoreValue, store_value, nil, store, find_child, new_level}
use foliage_sdk.Cache.Level.{Clock, at_parent}
use foliage_sdk.Cache.Key.Laws.{last_token}
use foliage_sdk.Cache.Level.Laws.{Seen, view, view_step}
use foliage_sdk.Cache.Level.Frame.{
  at_parent_root, view_at_child, ne_below, view_built_child, view_level, Local, view_below,
}

-- What `f` makes of what is seen at the child that it is called for, where the token is not empty.
abbrev pub Acts : (Str → StoreValue → StoreValue) → (Option Seen → Option Seen) → Type 0
Acts f g = (t : Str) (csv : StoreValue) → t ≢ [] → view (t ∷ []) (f t csv) ≡ g (view (t ∷ []) csv)

-- With missing levels created, the change takes effect at the path.
pub view-at_parent_self :
    (clock : Clock) (f : Str → StoreValue → StoreValue) (g : Option Seen → Option Seen) (t : Str)
    (p : List Str) (csv : StoreValue)
    → Acts f g
    → last_token (t ∷ p) ≢ []
    → view (t ∷ p) (at_parent true clock f (t ∷ p) csv) ≡ g (view (t ∷ p) csv)
unfolding at_parent last_token
view-at_parent_self clock f g t [] csv acts last = acts t csv last
view-at_parent_self clock f g t (u ∷ p) csv acts last =
    elim (Option-cases (find_child t (store csv))) [
      | inl e ↦
          let level = store_value (new_level (clock 0)) nil in
          ground (
            arith,
            view_built_child clock f t u p t (u ∷ p) csv e,
            view-at_parent_self (λ i. clock (suc i)) f g u p level acts last,
            view_level (clock 0) (u ∷ p),
            view_step t (u ∷ p) csv,
            str_eq_iff t t,
          )
      | inr (c, e) ↦ ground (
        arith,
        view_at_child true clock f t u p t (u ∷ p) csv c e,
        view-at_parent_self (λ i. clock (suc i)) f g u p c acts last,
        view_step t (u ∷ p) csv,
        str_eq_iff t t,
      )
    ]

missing_unchanged :
    (clock : Clock) (f : Str → StoreValue → StoreValue) (t u : Str) (p : List Str)
    (csv : StoreValue)
    → find_child t (store csv) ≡ none
    → at_parent false clock f (t ∷ u ∷ p) csv ≡ csv
unfolding at_parent
missing_unchanged clock f t u p csv e = ground arith

-- A walk that creates nothing changes at most what is seen at its path.
pub view-at_parent_existing_ne :
    (clock : Clock) (f : Str → StoreValue → StoreValue) (p q : List Str) (csv : StoreValue)
    → Local f
    → q ≢ p
    → view q (at_parent false clock f p csv) ≡ view q csv
unfolding at_parent
view-at_parent_existing_ne clock f [] q csv local h = refl
view-at_parent_existing_ne clock f p [] csv local h = at_parent_root false clock f p csv local
view-at_parent_existing_ne clock f (t ∷ []) (x ∷ q) csv local h = local t csv (x ∷ q) h
view-at_parent_existing_ne clock f (t ∷ u ∷ p) (x ∷ q) csv local h =
    elim (Option-cases (find_child t (store csv))) [
      | inl e ↦ ap (view (x ∷ q)) (missing_unchanged clock f t u p csv e)
      | inr (c, e) ↦ elim (Bool-cases (str_eq t x)) [
        | inr other ↦ view_at_child false clock f t u p x q csv c e ∙ rw other refl
        | inl same ↦
            view_at_child false clock f t u p x q csv c e
            ∙ rw same (
                view-at_parent_existing_ne (λ i. clock (suc i)) f (u ∷ p) q c local
                  (ne_below t x q (u ∷ p) h same)
                ∙ sym (view_below t x q csv c e same))
      ]
    ]

pub view-at_parent_existing_self :
    (clock : Clock) (f : Str → StoreValue → StoreValue) (g : Option Seen → Option Seen) (t : Str)
    (p : List Str) (csv : StoreValue)
    → Acts f g
    → last_token (t ∷ p) ≢ []
    → g none ≡ none
    → view (t ∷ p) (at_parent false clock f (t ∷ p) csv) ≡ g (view (t ∷ p) csv)
unfolding at_parent last_token
view-at_parent_existing_self clock f g t [] csv acts last stays = acts t csv last
view-at_parent_existing_self clock f g t (u ∷ p) csv acts last stays =
    elim (Option-cases (find_child t (store csv))) [
      | inl e ↦
          ap (view (t ∷ u ∷ p)) (missing_unchanged clock f t u p csv e)
          ∙ ground (arith, view_step t (u ∷ p) csv)
      | inr (c, e) ↦ ground (
        arith,
        view_at_child false clock f t u p t (u ∷ p) csv c e,
        view-at_parent_existing_self (λ i. clock (suc i)) f g u p c acts last stays,
        view_step t (u ∷ p) csv,
        str_eq_iff t t,
      )
    ]
