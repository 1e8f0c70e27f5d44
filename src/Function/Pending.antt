-- ===== src/Function/Pending.antt =====
-- statefun/function_type.go: what the goroutine of a channel still has to handle, after each operation.
use mathlib.Core.Path.{subst}
use foliage_sdk.Common.{
  ℕ, ◌==◌, ==_iff, Bool, true, false, Bool-cases, inl, inr, Option, none, some, List, [], ◌∷◌, ◌++◌,
  ◌≡◌, refl, sym, ap, ◌∙◌, if◌then◌else◌,
}
use foliage_sdk.Common.Dict.{load}
use foliage_sdk.Common.Text.{Str}
use foliage_sdk.Function.Handlers.{
  Msg, Routine, Fun, Outcome, next_message, receive_next, handled_of, end_message, close,
  find_routine, update_routine, is_done, end_if_done, end_routine, remove_routine, close_routine,
  collect_channel, collect_id, collect, is_held,
}
use foliage_sdk.Function.Keeps.{on_test}
use foliage_sdk.Function.Live.{end_message-Keeps}
use foliage_sdk.Function.Names.{update-IsAbsent, AreNamed, removed-IsAbsent}
use foliage_sdk.Function.Routines.{find-update_ne, find-update_eq, find-remove_ne}

module _ {M : Type 0} where
  abbrev pub handling : Option (Msg M) → List (Msg M)
  handling none = []
  handling (some m) = m ∷ []

  -- What a goroutine still has: the message that it handles, then those that wait.
  abbrev pub pending_of : Option (Routine M) → List (Msg M)
  pending_of none = []
  pending_of (some r) = handling r.busy ++ r.queue

  abbrev pub pending : ℕ → Fun M → List (Msg M)
  pending k f = pending_of (find_routine k f.routines)

  abbrev pub in_hand : Option (Routine M) → List (Msg M)
  in_hand none = []
  in_hand (some r) = handling r.busy

  abbrev changed : (Routine M → Routine M) → Option (Routine M) → Option (Routine M)
  changed g none = none
  changed g (some r) = some (g r)

  find-update :
      (k : ℕ) (g : Routine M → Routine M) (rs : List (Routine M)) (o : Option (Routine M))
      → ((r : Routine M) → (g r).key ≡ r.key)
      → find_routine k rs ≡ o
      → find_routine k (update_routine k g rs) ≡ changed g o
  find-update k g rs none h e = update-IsAbsent k k g rs h e
  find-update k g rs (some r) h e = find-update_eq k g rs r h e

  -- A change of one goroutine that leaves what it has leaves what every goroutine has.
  pub update-pending :
      (j k : ℕ) (g : Routine M → Routine M) (rs : List (Routine M))
      → ((r : Routine M) → (g r).key ≡ r.key)
      → ((r : Routine M) → pending_of (some (g r)) ≡ pending_of (some r))
      → pending_of (find_routine k (update_routine j g rs)) ≡ pending_of (find_routine k rs)
  update-pending j k g rs h same = elim (Bool-cases (j == k)) [
    | inr ne ↦ ap pending_of (find-update_ne j k g rs h ne)
    | inl eq ↦
        subst
          (λ j'.
            pending_of (find_routine k (update_routine j' g rs)) ≡ pending_of (find_routine k rs))
          (sym ((==_iff j k).0 eq))
          (ap pending_of (find-update k g rs (find_routine k rs) h refl) ∙ kept (find_routine k rs))
  ]
    where
      kept : (o : Option (Routine M)) → pending_of (changed g o) ≡ pending_of o
      kept none = refl
      kept (some r) = same r

  pub receive_next-pending :
      (r : Routine M) → pending_of (some (receive_next r)) ≡ pending_of (some r)
  unfolding receive_next
  receive_next-pending r = by_cases r.busy r.queue
    where
      by_cases :
          (b : Option (Msg M)) (q : List (Msg M))
          → pending_of (some (next_message (record r { busy = b; queue = q }) b q))
            ≡ handling b ++ q
      by_cases none (m ∷ q) = refl
      by_cases none [] = refl
      by_cases (some m) q = refl

  -- The message whose handling ends is the first of what the goroutine has.
  pub end_message-pending :
      (j k : ℕ) (f : Fun M)
      → pending k f
        ≡ (if j == k then in_hand (find_routine k f.routines) else [])
          ++ pending_of (find_routine k (update_routine j end_message f.routines))
  unfolding end_message
  end_message-pending j k f = elim (Bool-cases (j == k)) [
    | inl eq ↦
        subst
          (λ j'.
            pending k f
            ≡ (if j == k then in_hand (find_routine k f.routines) else [])
              ++ pending_of (find_routine k (update_routine j' end_message f.routines)))
          (sym ((==_iff j k).0 eq))
          (rw (eq, find-update k end_message f.routines _ end_message-Keeps.key_kept refl)
            (by_routine (find_routine k f.routines)))
    | inr ne ↦ rw ne (
        ap pending_of
          (sym (find-update_ne j k end_message f.routines end_message-Keeps.key_kept ne)))
  ]
    where
      by_busy :
          (r : Routine M) (b : Option (Msg M))
          → handling b ++ r.queue
            ≡ handling b ++ pending_of (some (handled_of (record r { busy = b }) b))
      by_busy r none = refl
      by_busy r (some m) = refl

      by_routine :
          (o : Option (Routine M)) → pending_of o ≡ in_hand o ++ pending_of (changed end_message o)
      by_routine none = refl
      by_routine (some r) = by_busy r r.busy

  is_done-pending :
      (b : Bool) (o : Option (Msg M)) (q : List (Msg M))
      → is_done b o q ≡ true
      → handling o ++ q ≡ []
  is_done-pending false none [] h = refl
  is_done-pending false none (m ∷ q) h = absurd (cc)
  is_done-pending false (some m) q h = absurd (cc)
  is_done-pending true o q h = absurd (cc)

  -- A goroutine that ends has no message any more.
  pub end_routine-pending :
      (limit : Option ℕ) (j k : ℕ) (f : Fun M)
      → AreNamed f
      → pending k (end_routine limit j f) ≡ pending k f
  unfolding end_routine
  end_routine-pending limit j k f n = by_routine (find_routine j f.routines) refl
    where
      by_name :
          (r : Routine M)
          → find_routine j f.routines ≡ some r
          → pending_of (some r) ≡ []
          → pending_of (find_routine k (remove_routine j f.routines)) ≡ pending k f
      by_name r e nothing = elim (Bool-cases (j == k)) [
        | inl eq ↦
            subst
              (λ i.
                pending_of (find_routine i (remove_routine j f.routines))
                ≡ pending_of (find_routine i f.routines))
              ((==_iff j k).0 eq)
              (ap pending_of (removed-IsAbsent j f.routines n.distinct)
                ∙ sym (ap pending_of e ∙ nothing))
        | inr ne ↦ ap pending_of (find-remove_ne j k f.routines ne)
      ]

      by_routine :
          (o : Option (Routine M))
          → find_routine j f.routines ≡ o
          → pending k (end_if_done limit j o f) ≡ pending k f
      by_routine none e = refl
      by_routine (some r) e =
          on_test (λ (f' : Fun M). pending k f' ≡ pending k f) (is_done r.is_open r.busy r.queue) _
            _ (λ d. by_name r e (is_done-pending r.is_open r.busy r.queue d)) (λ _. refl)

  -- gc takes no message from a channel that it closes.
  pub collect-pending : (k : ℕ) (f : Fun M) → pending k (collect f).1 ≡ pending k f
  unfolding collect
  collect-pending k f = by_chosen f.chosen
    where
      by_routine :
          (id : Str) (j : ℕ) (o : Option (Routine M))
          → pending k (close_routine id j o f).1 ≡ pending k f
      by_routine id j none = refl
      by_routine id j (some r) =
          on_test (λ (x : Outcome × Fun M). pending k x.1 ≡ pending k f) r.is_open _ _
            (λ _. update-pending j k close f.routines (λ x. refl) (λ x. refl)) (λ _. refl)

      by_channel : (id : Str) (o : Option ℕ) → pending k (collect_channel id o f).1 ≡ pending k f
      by_channel id none = refl
      by_channel id (some j) = by_routine id j (find_routine j f.routines)

      by_chosen : (o : Option Str) → pending k (collect_id o f).1 ≡ pending k f
      by_chosen none = refl
      by_chosen (some id) =
          on_test (λ (x : Outcome × Fun M). pending k x.1 ≡ pending k f) (is_held id f.held) _ _
            (λ _. refl) (λ _. by_channel id (load id f.channels))
