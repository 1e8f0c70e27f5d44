-- ===== src/Jpgql/Search/Pending.antt =====
-- embedded/graph/jpgql/jpgql.go: what the root of a query knows of the processes after some updates.
use mathlib.Core.Path.{subst}
use foliage_sdk.Common.{
  no_case, Bool, true, false, ◌&&◌, Option, none, some, List, [], ◌∷◌, ◌≡◌, refl, sym, ap, ◌∙◌, inl,
  inr, if◌then◌else◌, arith, Bool-cases, Among, here, there, Among-append, Among-append_left,
  Among-append_right,
}
use foliage_sdk.Common.Dict.{Dict, load, assign, load-assign}
use foliage_sdk.Common.Text.{Str, str_eq, str_eq_iff, str_eq_refl}
use foliage_sdk.Jpgql.Search.{Task, Event, pends, finishes}
use foliage_sdk.Jpgql.Search.Aggregate.{Root, is_held, all_done, receive, is_result, new_root}

-- The root after the updates, the last one first.
abbrev pub root_after : List Event → Root
root_after [] = new_root
root_after (e ∷ es) = receive e (root_after es)

pub and_right : (a b : Bool) → (a && b) ≡ true → b ≡ true
and_right a b h = ground arith

abbrev pub has_value : Option (List Str) → Bool
has_value none = false
has_value (some l) = true

abbrev pub ends : Task → Bool
ends (id, []) = true
ends (id, c ∷ query) = false

abbrev pub found_in : Event → List Str
found_in (pends k) = []
found_in (finishes k found) = found

-- A result was put in by an update.
pub results-Among :
    (x : Str) (es : List Event)
    → Among x (root_after es).results
    → (k : Str) × ((found : List Str) × (Among (finishes k found) es × Among x found))
unfolding receive
results-Among x [] h = elim h [ ]
results-Among x (pends k ∷ es) h =
    let (j, (found, (a, b))) = results-Among x es h in (j, (found, (there a, b)))
results-Among x (finishes k found ∷ es) h = elim (Among-append x (root_after es).results found h) [
  | inl a ↦ (let (j, (f, (b, c))) = results-Among x es a in (j, (f, (there b, c))))
  | inr a ↦ (k, (found, (here refl, a)))
]

pub Among-results :
    (x k : Str) (found : List Str) (es : List Event)
    → Among (finishes k found) es
    → Among x found
    → Among x (root_after es).results
unfolding receive
Among-results x k found [] a h = elim a [ ]
Among-results x k found (pends j ∷ es) (here e) h = no_case (ap is_result e)
Among-results x k found (pends j ∷ es) (there a) h = Among-results x k found es a h
Among-results x k found (finishes j f ∷ es) (here e) h =
    Among-append_right x (root_after es).results f (subst (λ l. Among x l) (sym (ap found_in e)) h)
Among-results x k found (finishes j f ∷ es) (there a) h =
    Among-append_left x (root_after es).results f (Among-results x k found es a h)

pub assigned :
    (j k : Str) (v : Bool) (m : Dict Bool) (b : Bool)
    → str_eq j k ≡ b
    → load k (assign j v m) ≡ (if b then some v else load k m)
assigned j k v m b t = load-assign k j v m ∙ ap (λ c. if c then some v else load k m) t

assigned-is_held :
    (j k : Str) (v : Bool) (m : Dict Bool)
    → is_held (load k m) ≡ true
    → is_held (load k (assign j v m)) ≡ true
assigned-is_held j k v m h = elim (Bool-cases (str_eq j k)) [
  | inl t ↦ ap is_held (assigned j k v m true t)
  | inr t ↦ ap is_held (assigned j k v m false t) ∙ h
]

put-is_held :
    (j k : Str) (m : Dict Bool) (b : Bool)
    → is_held (load k m) ≡ true
    → is_held (load k (if b then m else assign j true m)) ≡ true
put-is_held j k m true h = h
put-is_held j k m false h = assigned-is_held j k true m h

put-is_held_self :
    (k : Str) (m : Dict Bool) (b : Bool)
    → is_held (load k m) ≡ b
    → is_held (load k (if b then m else assign k true m)) ≡ true
put-is_held_self k m true h = h
put-is_held_self k m false h = ap is_held (assigned k k true m true (str_eq_refl k))

put-not_done :
    (j k : Str) (m : Dict Bool) (b : Bool)
    → load k (if b then m else assign j true m) ≡ some false
    → load k m ≡ some false
put-not_done j k m true h = h
put-not_done j k m false h = elim (Bool-cases (str_eq j k)) [
  | inl t ↦ no_case (ap (λ o. is_done o) (sym h ∙ assigned j k true m true t))
  | inr t ↦ sym (assigned j k true m false t) ∙ h
]
  where
    is_done : Option Bool → Bool
    is_done none = true
    is_done (some c) = c

abbrev pub key_in : Event → Str
key_in (pends k) = k
key_in (finishes k found) = k

-- A process that was made pending has an entry.
pended-is_held :
    (k : Str) (es : List Event)
    → Among (pends k) es
    → is_held (load k (root_after es).pending) ≡ true
unfolding receive
pended-is_held k [] h = elim h [ ]
pended-is_held k (pends j ∷ es) (here e) =
    subst
      (λ i.
        is_held (
          load k (
            if is_held (load i (root_after es).pending)
            then (root_after es).pending
            else assign i true (root_after es).pending))
        ≡ true)
      (sym (ap key_in e)) (put-is_held_self k (root_after es).pending _ refl)
pended-is_held k (pends j ∷ es) (there a) =
    put-is_held j k (root_after es).pending _ (pended-is_held k es a)
pended-is_held k (finishes j f ∷ es) (here e) = no_case (sym (ap is_result e))
pended-is_held k (finishes j f ∷ es) (there a) =
    assigned-is_held j k false (root_after es).pending (pended-is_held k es a)

-- An entry that is not pending is one of a process that has finished.
done-finished :
    (k : Str) (es : List Event)
    → load k (root_after es).pending ≡ some false
    → (found : List Str) × Among (finishes k found) es
unfolding receive load
done-finished k [] h = no_case (ap is_held h)
done-finished k (pends j ∷ es) h =
    let (f, a) = done-finished k es (put-not_done j k (root_after es).pending _ h) in (f, there a)
done-finished k (finishes j f ∷ es) h = elim (Bool-cases (str_eq j k)) [
  | inl t ↦ (f, here (ap (λ i. finishes i f) ((str_eq_iff j k).0 t)))
  | inr t ↦
      (let (g, a) =
          done-finished k es (sym (assigned j k false (root_after es).pending false t) ∙ h) in
        (g, there a))
]

all_done-load :
    (k : Str) (b : Bool) (m : Dict Bool) → all_done m ≡ true → load k m ≡ some b → b ≡ false
unfolding load
all_done-load k b [] h e = ground arith
all_done-load k b ((j, c) ∷ m) h e = grind (arith, all_done-load k b m, h, e)

-- When nothing is pending, a process that was made pending has finished.
pub pended-finished :
    (k : Str) (es : List Event)
    → all_done (root_after es).pending ≡ true
    → Among (pends k) es
    → (found : List Str) × Among (finishes k found) es
pended-finished k es d a = by_entry (load k (root_after es).pending) refl (pended-is_held k es a)
  where
    by_entry :
        (o : Option Bool)
        → load k (root_after es).pending ≡ o
        → is_held o ≡ true
        → (found : List Str) × Among (finishes k found) es
    by_entry none e h = no_case h
    by_entry (some b) e h =
        done-finished k es (e ∙ ap some (all_done-load k b (root_after es).pending d e))
