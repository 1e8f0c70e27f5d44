-- ===== src/Jpgql/Search/Events.antt =====
-- embedded/graph/jpgql/jpgql.go: what the writes of the descendants of a query tell, whatever their order.
use mathlib.Core.Path.{subst}
use mathlib.Core.List.{append-nil, append_assoc}
use foliage_sdk.Common.{
  All-append, ℕ, zero, suc, Bool, true, false, ◌||◌, Option, none, some, List, [], ◌∷◌, ◌++◌, ◌≡◌,
  refl, sym, ap, ◌∙◌, inl, inr, if◌then◌else◌, arith, Bool-cases, All, All-map, Among, here, there,
}
use foliage_sdk.Common.Text.{Str, str_eq, str_eq_iff}
use foliage_sdk.Jpgql.Search.{
  Task, Event, pends, finishes, Descendant, Search, has_key, key_of, started, started_search,
  init_pending_process, keep_working, advance_on, advance, pick, and_others, step_of, search,
  begin_search,
}

-- The objects among the targets of a query that has come to its end.
abbrev pub found_of : List Task → List Str
found_of [] = []
found_of ((id, []) ∷ ts) = id ∷ found_of ts
found_of ((id, c ∷ query) ∷ ts) = found_of ts

no_key : (e : Event) → false ≡ true → Among e []
no_key e h = grind (arith, h)

module _ (expands : Task → Option (List Task)) (hash : Str → Str) (root : Task) where
  -- The objects and queries that the evaluation of the root's query comes to.
  pub data Visits : Task → Type 0 where
    visits_root : Visits root
    visits_next :
        {p : Task} {ts : List Task} {id query : Str} {c : ℕ}
        → Visits p
        → expands p ≡ some ts
        → Among (id, c ∷ query) ts
        → Visits (id, c ∷ query)

  abbrev pub Pended : Task → List Event → Type 0
  Pended p es = Among (pends (key_of expands hash p)) es

  -- The next processes among the targets were made pending.
  abbrev pub ArePended : List Event → List Task → Type 0
  ArePended es [] = Unit
  ArePended es ((id, []) ∷ ts) = ArePended es ts
  ArePended es ((id, c ∷ query) ∷ ts) = Pended (id, c ∷ query) es × ArePended es ts

  -- What one write tells, after the earlier ones.
  abbrev pub IsGood : Event → List Event → Type 0
  IsGood (pends k) es = Unit
  IsGood (finishes k found) es =
      (p : Task) × (Visits p
        × ((key_of expands hash p ≡ k)
            × ((ts : List Task) × ((expands p ≡ some ts)
                  × ((found ≡ found_of ts) × ArePended es ts)))))

  abbrev pub AreGood : List Event → Type 0
  AreGood [] = Unit
  AreGood (e ∷ es) = IsGood e es × AreGood es

  -- A descendant has done a part of its targets.
  abbrev pub IsPartial : List Event → Descendant → Type 0
  IsPartial es d =
      Visits d.task
      × ((done : List Task) × ((expands d.task ≡ some (done ++ d.rest))
            × ((d.found ≡ found_of done) × ArePended es done)))

  ArePended-later :
      (e : Event) (es : List Event) (ts : List Task) → ArePended es ts → ArePended (e ∷ es) ts
  ArePended-later e es [] h = tt
  ArePended-later e es ((id, []) ∷ ts) h = ArePended-later e es ts h
  ArePended-later e es ((id, c ∷ query) ∷ ts) h = (there h.0, ArePended-later e es ts h.1)

  IsPartial-later :
      (e : Event) (es : List Event) (d : Descendant) → IsPartial es d → IsPartial (e ∷ es) d
  IsPartial-later e es d (v, (done, (x, (f, h)))) =
      (v, (done, (x, (f, ArePended-later e es done h))))

  ArePended-append :
      (es : List Event) (ts us : List Task)
      → ArePended es ts
      → ArePended es us
      → ArePended es (ts ++ us)
  ArePended-append es [] us h k = k
  ArePended-append es ((id, []) ∷ ts) us h k = ArePended-append es ts us h k
  ArePended-append es ((id, c ∷ query) ∷ ts) us h k = (h.0, ArePended-append es ts us h.1 k)

  -- The keys that are set are those that were made pending.
  abbrev pub AreKnown : List Str → List Event → Type 0
  AreKnown known es = (k : Str) → has_key k known ≡ true → Among (pends k) es

  pub record IsSound (s : Search) : Type 0 where
    pub good : AreGood s.events
    pub partial : All (IsPartial s.events) s.working
    pub known : AreKnown s.known s.events

  found_of-append : (ts us : List Task) → found_of (ts ++ us) ≡ found_of ts ++ found_of us
  found_of-append [] us = refl
  found_of-append ((id, []) ∷ ts) us = ap (λ l. id ∷ l) (found_of-append ts us)
  found_of-append ((id, c ∷ query) ∷ ts) us = found_of-append ts us

  started-IsPartial :
      (p : Task) (o : Option (List Task)) (es : List Event)
      → expands p ≡ o
      → Visits p
      → All (IsPartial es) (started expands hash p o)
  started-IsPartial p none es e v = tt
  started-IsPartial p (some ts) es e v = ((v, ([], (e, (refl, tt)))), tt)

  started-known :
      (k : Str) (known : List Str) (es : List Event)
      → AreKnown known es
      → AreKnown (k ∷ known) (pends k ∷ es)
  started-known k known es h j e = elim (Bool-cases (str_eq k j)) [
    | inl t ↦ here (ap pends ((str_eq_iff k j).0 t))
    | inr t ↦ there (h j (ap (λ b. b || has_key j known) (sym t) ∙ e))
  ]

  -- A process that is made pending is there afterwards, and the search stays sound.
  pub init_pending-IsSound :
      (p : Task) (s : Search)
      → Visits p
      → IsSound s
      → IsSound (init_pending_process expands hash p s)
        × Pended p (init_pending_process expands hash p s).events
  unfolding init_pending_process
  init_pending-IsSound p s v h = by_test (has_key (key_of expands hash p) s.known) refl
    where
      by_test :
          (b : Bool)
          → has_key (key_of expands hash p) s.known ≡ b
          → IsSound (if b then s else started_search expands hash p s)
            × Pended p (if b then s else started_search expands hash p s).events
      by_test true e = (h, h.known (key_of expands hash p) e)
      by_test false e = (
        record {
          good = (tt, h.good);
          partial =
              All-append _ (started expands hash p (expands p)) s.working
                (started-IsPartial p (expands p) _ refl v)
                (All-map s.working (λ d. IsPartial-later (pends (key_of expands hash p)) s.events d)
                  h.partial);
          known = started-known (key_of expands hash p) s.known s.events h.known;
        },
        here refl,
      )

  init_pending-IsPartial :
      (p : Task) (s : Search) (d : Descendant)
      → IsPartial s.events d
      → IsPartial (init_pending_process expands hash p s).events d
  unfolding init_pending_process
  init_pending-IsPartial p s d h = by_test (has_key (key_of expands hash p) s.known)
    where
      by_test : (b : Bool) → IsPartial (if b then s else started_search expands hash p s).events d
      by_test true = h
      by_test false = IsPartial-later (pends (key_of expands hash p)) s.events d h

  kept-IsSound :
      (d : Descendant) (s : Search)
      → IsPartial s.events d
      → IsSound s
      → IsSound (keep_working expands hash d s)
  kept-IsSound d s p h = record { good = h.good; partial = (p, h.partial); known = h.known }

  -- The next target of a descendant is done.
  IsPartial-next :
      (es : List Event) (d : Descendant) (t : Task) (ts : List Task)
      → d.rest ≡ t ∷ ts
      → ArePended es (t ∷ [])
      → IsPartial es d
      → IsPartial es (record { task = d.task; rest = ts; found = d.found ++ found_of (t ∷ []) })
  IsPartial-next es d t ts r k (v, (done, (x, (f, h)))) = (
    v,
    (
      done ++ (t ∷ []),
      (
        x ∙ ap some (ap (λ l. done ++ l) r ∙ sym (append_assoc done (t ∷ []) ts)),
        (
          ap (λ l. l ++ found_of (t ∷ [])) f ∙ sym (found_of-append done (t ∷ [])),
          ArePended-append es done (t ∷ []) h k,
        ),
      ),
    ),
  )

  Among-next : (done : List Task) (t : Task) (ts : List Task) → Among t (done ++ (t ∷ ts))
  Among-next [] t ts = here refl
  Among-next (x ∷ done) t ts = there (Among-next done t ts)

  pub next-Visits :
      (es : List Event) (d : Descendant) (id query : Str) (c : ℕ) (ts : List Task)
      → d.rest ≡ (id, c ∷ query) ∷ ts
      → IsPartial es d
      → Visits (id, c ∷ query)
  next-Visits es d id query c ts r (v, (done, (x, h))) =
      visits_next v (x ∙ ap some (ap (λ l. done ++ l) r)) (Among-next done (id, c ∷ query) ts)

  advance-IsSound :
      (d : Descendant) (rest : List Task) (s : Search)
      → d.rest ≡ rest
      → IsPartial s.events d
      → IsSound s
      → IsSound (advance_on expands hash d rest s)
  advance-IsSound d [] s r (v, (done, (x, (f, k)))) h = record {
    good = (
      (
        d.task,
        (v, (refl, (done, (x ∙ ap some (ap (λ l. done ++ l) r ∙ append-nil done), (f, k))))),
      ),
      h.good,
    );
    partial = All-map s.working (λ e. IsPartial-later (finishes _ d.found) s.events e) h.partial;
    known = λ k' e. there (h.known k' e);
  }
  advance-IsSound d ((id, []) ∷ ts) s r p h =
      kept-IsSound _ s (IsPartial-next s.events d (id, []) ts r tt p) h
  advance-IsSound d ((id, c ∷ query) ∷ ts) s r p h =
      let (sound, pended) =
        init_pending-IsSound (id, c ∷ query) s (next-Visits s.events d id query c ts r p) h in
      kept-IsSound _ (init_pending_process expands hash (id, c ∷ query) s)
        (subst
          (λ f.
            IsPartial (init_pending_process expands hash (id, c ∷ query) s).events
              (record { task = d.task; rest = ts; found = f }))
          (append-nil d.found)
          (IsPartial-next _ d (id, c ∷ query) ts r (pended, tt)
            (init_pending-IsPartial (id, c ∷ query) s d p)))
        sound

  abbrev pub IsPicked : List Event → Option (Descendant × List Descendant) → Type 0
  IsPicked es none = Unit
  IsPicked es (some (d, others)) = IsPartial es d × All (IsPartial es) others

  others-IsPicked :
      (es : List Event) (d : Descendant) (o : Option (Descendant × List Descendant))
      → IsPartial es d
      → IsPicked es o
      → IsPicked es (and_others expands hash d o)
  others-IsPicked es d none p h = tt
  others-IsPicked es d (some (e, others)) p h = (h.0, (p, h.1))

  pub pick-IsPicked :
      (es : List Event) (n : ℕ) (ds : List Descendant)
      → All (IsPartial es) ds
      → IsPicked es (pick expands hash n ds)
  unfolding pick
  pick-IsPicked es n [] h = tt
  pick-IsPicked es zero (d ∷ ds) h = h
  pick-IsPicked es (suc n) (d ∷ ds) h =
      others-IsPicked es d (pick expands hash n ds) h.0 (pick-IsPicked es n ds h.1)

  pub step-IsSound :
      (o : Option (Descendant × List Descendant)) (s : Search)
      → IsPicked s.events o
      → IsSound s
      → IsSound (step_of expands hash o s)
  unfolding advance
  step-IsSound none s p h = h
  step-IsSound (some (d, others)) s p h =
      advance-IsSound d d.rest (record s { working = others }) refl p.0
        (record { good = h.good; partial = p.1; known = h.known })

  search-IsSound : (order : List ℕ) (s : Search) → IsSound s → IsSound (search expands hash order s)
  unfolding search
  search-IsSound [] s h = h
  search-IsSound (n ∷ order) s h =
      search-IsSound order _ (step-IsSound _ s (pick-IsPicked s.events n s.working h.partial) h)

  -- In every search: what a write tells is so, whatever the order of the descendants' steps.
  pub events_good :
      (order : List ℕ) → AreGood (search expands hash order (begin_search expands hash root)).events
  unfolding begin_search
  events_good order =
      (search-IsSound order _
        (init_pending-IsSound root _ visits_root
          (record { good = tt; partial = tt; known = λ k e. no_key (pends k) e })).0).good
