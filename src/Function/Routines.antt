-- ===== src/Function/Routines.antt =====
-- statefun/function_type.go: the list of the goroutines under its changes.
use foliage_sdk.Common.{
  ℕ, suc, Bool, true, false, some, List, [], ◌∷◌, ◌≡◌, refl, length, All, ◌==◌, ==_iff,
  if◌then◌else◌, arith,
}
use foliage_sdk.Function.Handlers.{Routine, find_routine, update_routine, remove_routine}

module _ {M : Type 0} where
  pub find-update_ne :
      (j k : ℕ) (g : Routine M → Routine M) (rs : List (Routine M))
      → ((r : Routine M) → (g r).key ≡ r.key)
      → (j == k) ≡ false
      → find_routine k (update_routine j g rs) ≡ find_routine k rs
  unfolding find_routine update_routine
  find-update_ne j k g [] h ne = refl
  find-update_ne j k g (r ∷ rs) h ne = ground (
    arith,
    find-update_ne j k g rs h ne,
    ==_iff r.key j,
    ==_iff r.key k,
    ==_iff (g r).key k,
    ==_iff j k,
    h r,
  )

  pub find-update_eq :
      (k : ℕ) (g : Routine M → Routine M) (rs : List (Routine M)) (r : Routine M)
      → ((r' : Routine M) → (g r').key ≡ r'.key)
      → find_routine k rs ≡ some r
      → find_routine k (update_routine k g rs) ≡ some (g r)
  unfolding find_routine update_routine
  find-update_eq k g [] r h e = ground arith
  find-update_eq k g (r' ∷ rs) r h e =
      grind (arith, find-update_eq k g rs r h, ==_iff r'.key k, ==_iff (g r').key k, h r', e)

  pub length-update :
      (k : ℕ) (g : Routine M → Routine M) (rs : List (Routine M))
      → length (update_routine k g rs) ≡ length rs
  unfolding update_routine
  length-update k g [] = refl
  length-update k g (r ∷ rs) = omega (arith, length-update k g rs)

  pub length-remove :
      (k : ℕ) (rs : List (Routine M)) (r : Routine M)
      → find_routine k rs ≡ some r
      → length rs ≡ suc (length (remove_routine k rs))
  unfolding find_routine remove_routine
  length-remove k [] r e = ground arith
  length-remove k (r' ∷ rs) r e = grind (arith, length-remove k rs r, e)

  pub find-remove_ne :
      (j k : ℕ) (rs : List (Routine M))
      → (j == k) ≡ false
      → find_routine k (remove_routine j rs) ≡ find_routine k rs
  unfolding find_routine remove_routine
  find-remove_ne j k [] ne = refl
  find-remove_ne j k (r ∷ rs) ne =
      ground (arith, find-remove_ne j k rs ne, ==_iff r.key j, ==_iff r.key k, ==_iff j k)

  pub All-update {κ} :
      (P : Routine M → Type κ) (k : ℕ) (g : Routine M → Routine M) (rs : List (Routine M))
      → ((r : Routine M) → P r → P (g r))
      → All P rs
      → All P (update_routine k g rs)
  unfolding update_routine
  All-update P k g [] h p = tt
  All-update P k g (r ∷ rs) h p = (either (r.key == k), All-update P k g rs h p.1)
    where
      either : (b : Bool) → P (if b then g r else r)
      either true = h r p.0
      either false = p.0

  pub All-remove {κ} :
      (P : Routine M → Type κ) (k : ℕ) (rs : List (Routine M))
      → All P rs
      → All P (remove_routine k rs)
  unfolding remove_routine
  All-remove P k [] p = tt
  All-remove P k (r ∷ rs) p = either (r.key == k) (All-remove P k rs p.1)
    where
      either :
          (b : Bool)
          → All P (remove_routine k rs)
          → All P (if b then rs else r ∷ remove_routine k rs)
      either true q = p.1
      either false q = (p.0, q)
