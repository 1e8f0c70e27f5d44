-- ===== src/Function/Live.antt =====
-- statefun/function_type.go: the channels in the map are open, so no write to a channel and no close of it
-- panics.
use mathlib.Core.Path.{subst}
use foliage_sdk.Common.{
  some_inj, ℕ, suc, ◌<◌, Bool, true, false, Option, none, some, List, [], ◌∷◌, ◌≡◌, refl, sym, ap,
  ◌∙◌, ◌==◌, ==_iff, if◌then◌else◌, Bool-cases, inl, inr, arith,
}
use foliage_sdk.Common.Dict.{Dict, load, assign, delete, load-assign, load-delete}
use foliage_sdk.Common.Text.{Str, str_eq, str_eq_iff}
use foliage_sdk.Function.Handlers.{
  Msg, Routine, Fun, find_routine, update_routine, remove_routine, put_in, new_routine, spawn,
  receive_next, next_message, end_message, handled_of, close,
}
use foliage_sdk.Function.Routines.{find-update_ne, find-update_eq, find-remove_ne}

pub assigned :
    {V : Type 0} (i id : Str) (n : V) (m : Dict V) (b : Bool)
    → str_eq i id ≡ b
    → load id (assign i n m) ≡ (if b then some n else load id m)
assigned i id n m b t = load-assign id i n m ∙ ap (λ b'. if b' then some n else load id m) t

pub deleted :
    {V : Type 0} (i id : Str) (m : Dict V) (b : Bool)
    → str_eq i id ≡ b
    → load id (delete i m) ≡ (if b then none else load id m)
deleted i id m b t = load-delete id i m ∙ ap (λ b'. if b' then none else load id m) t

module _ {M : Type 0} where
  -- A change of a goroutine that keeps its name, its id and its channel open.
  pub record Keeps (g : Routine M → Routine M) : Type 0 where
    pub key_kept : (r : Routine M) → (g r).key ≡ r.key
    pub id_kept : (r : Routine M) → (g r).id ≡ r.id
    pub open_kept : (r : Routine M) → (g r).is_open ≡ r.is_open

  pub put_in-Keeps : (m : Msg M) → Keeps (put_in m)
  put_in-Keeps m = record { key_kept = λ r. refl; id_kept = λ r. refl; open_kept = λ r. refl }

  pub receive_next-Keeps : Keeps receive_next
  unfolding receive_next
  receive_next-Keeps = record {
    key_kept = λ r. key r r.busy r.queue;
    id_kept = λ r. id r r.busy r.queue;
    open_kept = λ r. is_open r r.busy r.queue;
  }
    where
      key :
          (r : Routine M) (b : Option (Msg M)) (q : List (Msg M)) → (next_message r b q).key ≡ r.key
      key r none [] = refl
      key r none (m ∷ q) = refl
      key r (some m) q = refl

      id : (r : Routine M) (b : Option (Msg M)) (q : List (Msg M)) → (next_message r b q).id ≡ r.id
      id r none [] = refl
      id r none (m ∷ q) = refl
      id r (some m) q = refl

      is_open :
          (r : Routine M) (b : Option (Msg M)) (q : List (Msg M))
          → (next_message r b q).is_open ≡ r.is_open
      is_open r none [] = refl
      is_open r none (m ∷ q) = refl
      is_open r (some m) q = refl

  pub end_message-Keeps : Keeps end_message
  unfolding end_message
  end_message-Keeps = record {
    key_kept = λ r. key r r.busy;
    id_kept = λ r. id r r.busy;
    open_kept = λ r. is_open r r.busy;
  }
    where
      key : (r : Routine M) (b : Option (Msg M)) → (handled_of r b).key ≡ r.key
      key r none = refl
      key r (some m) = refl

      id : (r : Routine M) (b : Option (Msg M)) → (handled_of r b).id ≡ r.id
      id r none = refl
      id r (some m) = refl

      is_open : (r : Routine M) (b : Option (Msg M)) → (handled_of r b).is_open ≡ r.is_open
      is_open r none = refl
      is_open r (some m) = refl

  -- The goroutine of a name runs for the id, and its channel is open.
  abbrev pub Runs : ℕ → Str → List (Routine M) → Type 0
  Runs k id rs = (r : Routine M) × (find_routine k rs ≡ some r) × (r.is_open ≡ true) × (r.id ≡ id)

  update-Runs :
      (j k : ℕ) (id : Str) (g : Routine M → Routine M) (rs : List (Routine M))
      → Keeps g
      → Runs k id rs
      → Runs k id (update_routine j g rs)
  update-Runs j k id g rs h (r, e, o, i) = elim (Bool-cases (j == k)) [
    | inl t ↦ (
      g r,
      subst (λ j'. find_routine k (update_routine j' g rs) ≡ some (g r)) (sym ((==_iff j k).0 t))
          (find-update_eq k g rs r h.key_kept e),
      h.open_kept r ∙ o,
      h.id_kept r ∙ i,
    )
    | inr t ↦ (r, find-update_ne j k g rs h.key_kept t ∙ e, o, i)
  ]

  closed_ne :
      (j k : ℕ) (rs : List (Routine M)) (r r' : Routine M)
      → find_routine j rs ≡ some r
      → find_routine k rs ≡ some r'
      → r.is_open ≡ false
      → r'.is_open ≡ true
      → (j == k) ≡ false
  closed_ne j k rs r r' e e' c o = grind (arith, ==_iff j k, e, e', c, o)

  pub remove-Runs :
      (j k : ℕ) (id : Str) (rs : List (Routine M)) (r : Routine M)
      → find_routine j rs ≡ some r
      → r.is_open ≡ false
      → Runs k id rs
      → Runs k id (remove_routine j rs)
  remove-Runs j k id rs r e c (r', e', o, i) =
      (r', find-remove_ne j k rs (closed_ne j k rs r r' e e' c o) ∙ e', o, i)

  -- The goroutine of another id is not closed.
  pub close-Runs :
      (j k : ℕ) (i id : Str) (rs : List (Routine M))
      → Runs j i rs
      → str_eq i id ≡ false
      → Runs k id rs
      → Runs k id (update_routine j close rs)
  close-Runs j k i id rs (r, e, o, i') ne (r', e', o', id') =
      (r', find-update_ne j k close rs (λ x. refl) other ∙ e', o', id')
    where
      other : (j == k) ≡ false
      other = grind (arith, ==_iff j k, str_eq_iff i id, e, e', i', id', ne)

  -- The channel of every id in the map is open, its goroutine runs for the id, and its name is an old one.
  unfoldable pub AreLive : Fun M → Type 0
  AreLive f =
      (id : Str) (k : ℕ) → load id f.channels ≡ some k → (k < f.next_key) × Runs k id f.routines

  pub updated-AreLive :
      (j : ℕ) (g : Routine M → Routine M) (f : Fun M)
      → Keeps g
      → AreLive f
      → AreLive (record f { routines = update_routine j g f.routines })
  unfolding AreLive
  updated-AreLive j g f h a id k e =
      let (n, r) = a id k e in (n, update-Runs j k id g f.routines h r)

  spawned-Runs :
      (k : ℕ) (i id : Str) (n : ℕ) (rs : List (Routine M))
      → k < n
      → Runs k id rs
      → Runs k id (new_routine n i ∷ rs)
  unfolding find_routine
  spawned-Runs k i id n rs l (r, e, o, i') = (r, ground (arith, ==_iff n k, l, e), o, i')

  new_Runs :
      (i id : Str) (k : ℕ) (f : Fun M)
      → str_eq i id ≡ true
      → f.next_key ≡ k
      → (k < suc f.next_key) × Runs k id (new_routine f.next_key i ∷ f.routines)
  unfolding find_routine
  new_Runs i id k f t e = (
    omega (arith, e),
    (new_routine f.next_key i, ground (arith, ==_iff f.next_key k, e), refl, (str_eq_iff i id).0 t),
  )

  pub spawned-AreLive :
      (limit : Option ℕ) (i : Str) (f : Fun M) → AreLive f → AreLive (spawn limit i f)
  unfolding AreLive spawn
  spawned-AreLive limit i f a id k e = elim (Bool-cases (str_eq i id)) [
    | inl t ↦ new_Runs i id k f t (some_inj (sym (assigned i id f.next_key f.channels true t) ∙ e))
    | inr t ↦
        (let (n, r) = a id k (sym (assigned i id f.next_key f.channels false t) ∙ e) in
          (omega (arith, n), spawned-Runs k i id f.next_key f.routines n r))
  ]
