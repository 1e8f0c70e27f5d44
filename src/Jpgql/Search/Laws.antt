-- ===== src/Jpgql/Search/Laws.antt =====
-- embedded/graph/jpgql/jpgql.go: the root of a query replies with the objects that the query finds.
use mathlib.Core.Path.{subst}
use foliage_sdk.Common.{
  no_case, some_inj, ℕ, Bool, true, false, ◌&&◌, Option, some, List, [], ◌∷◌, ◌++◌, ◌≡◌, refl, sym,
  ap, ◌∙◌, ◌↔◌, if◌then◌else◌, Among, here, there, rev_onto,
}
use foliage_sdk.Common.Dict.{load}
use foliage_sdk.Common.Text.{Str}
use foliage_sdk.Jpgql.Search.{Task, Event, pends, finishes, key_of, search, begin_search}
use foliage_sdk.Jpgql.Search.Aggregate.{all_done, receive, is_result, aggregate, new_root}
use foliage_sdk.Jpgql.Search.Events.{
  found_of, Visits, visits_root, visits_next, Pended, ArePended, IsGood, AreGood, events_good,
}
use foliage_sdk.Jpgql.Search.Begin.{events-BeginsWithRoot}
use foliage_sdk.Jpgql.Search.Pending.{
  root_after, and_right, has_value, ends, results-Among, Among-results, pended-finished,
}

module _ (expands : Task → Option (List Task)) (hash : Str → Str) (root : Task) where
  -- An object at which the query of the root, or what is left of it at a process that it comes to, ends.
  abbrev pub Finds : Str → Type 0
  Finds x =
      (p : Task) × (Visits expands hash root p
        × ((ts : List Task) × ((expands p ≡ some ts) × Among (x, []) ts)))

  pended_later :
      (e : Event) (es : List Event) (ts : List Task)
      → ArePended expands hash root es ts
      → ArePended expands hash root (e ∷ es) ts
  pended_later e es [] h = tt
  pended_later e es ((id, []) ∷ ts) h = pended_later e es ts h
  pended_later e es ((id, c ∷ query) ∷ ts) h = (there h.0, pended_later e es ts h.1)

  later-IsGood :
      (e e' : Event) (es : List Event)
      → IsGood expands hash root e es
      → IsGood expands hash root e (e' ∷ es)
  later-IsGood (pends k) e' es h = tt
  later-IsGood (finishes k found) e' es (p, (v, (i, (ts, (x, (f, h)))))) =
      (p, (v, (i, (ts, (x, (f, pended_later e' es ts h))))))

  -- What a result tells.
  IsGood-result :
      (k : Str) (found : List Str) (es : List Event)
      → AreGood expands hash root es
      → Among (finishes k found) es
      → IsGood expands hash root (finishes k found) es
  IsGood-result k found [] g a = elim a [ ]
  IsGood-result k found (e ∷ es) g (here h) =
      subst (λ e'. IsGood expands hash root e' (e ∷ es)) h (later-IsGood e e es g.0)
  IsGood-result k found (e ∷ es) g (there a) =
      later-IsGood (finishes k found) e es (IsGood-result k found es g.1 a)

  found_of-Among : (x : Str) (ts : List Task) → Among x (found_of ts) → Among (x, []) ts
  found_of-Among x [] h = elim h [ ]
  found_of-Among x ((id, []) ∷ ts) (here e) = here (ap (λ i. (i, [])) e)
  found_of-Among x ((id, []) ∷ ts) (there h) = there (found_of-Among x ts h)
  found_of-Among x ((id, c ∷ query) ∷ ts) h = there (found_of-Among x ts h)

  Among-found_of : (x : Str) (ts : List Task) → Among (x, []) ts → Among x (found_of ts)
  Among-found_of x [] h = elim h [ ]
  Among-found_of x ((id, []) ∷ ts) (here e) = here (ap (λ (t : Task). t.0) e)
  Among-found_of x ((id, []) ∷ ts) (there h) = there (Among-found_of x ts h)
  Among-found_of x ((id, c ∷ query) ∷ ts) (here e) = no_case (ap ends e)
  Among-found_of x ((id, c ∷ query) ∷ ts) (there h) = Among-found_of x ts h

  ArePended-Among :
      (es : List Event) (id query : Str) (c : ℕ) (ts : List Task)
      → ArePended expands hash root es ts
      → Among (id, c ∷ query) ts
      → Pended expands hash root (id, c ∷ query) es
  ArePended-Among es id query c [] h a = elim a [ ]
  ArePended-Among es id query c ((i, []) ∷ ts) h (here e) = no_case (sym (ap ends e))
  ArePended-Among es id query c ((i, []) ∷ ts) h (there a) = ArePended-Among es id query c ts h a
  ArePended-Among es id query c ((i, d ∷ q) ∷ ts) h (here e) =
      subst (λ t. Pended expands hash root t es) e h.0
  ArePended-Among es id query c ((i, d ∷ q) ∷ ts) h (there a) =
      ArePended-Among es id query c ts h.1 a

  -- No two processes that the evaluation comes to share a key.
  abbrev pub AreDistinct : Type 0
  AreDistinct =
      (p q : Task)
      → Visits expands hash root p
      → Visits expands hash root q
      → key_of expands hash p ≡ key_of expands hash q
      → p ≡ q

  -- Nothing is pending: every process that the evaluation comes to has finished.
  visited_finished :
      AreDistinct
      → (es : List Event) → AreGood expands hash root es
      → Pended expands hash root root es
      → all_done (root_after es).pending ≡ true
      → (p : Task) → Visits expands hash root p
      → (found : List Str) × Among (finishes (key_of expands hash p) found) es
  visited_finished inj es g start d p visits_root = pended-finished _ es d start
  visited_finished inj es g start d p
        (visits_next {p = q} {ts = ts} {id = id} {query = query} {c = c} v x a) =
      let (found, b) = visited_finished inj es g start d q v in
      let (q', (v', (i, (ts', (x', (f, h)))))) = IsGood-result _ found es g b in
      pended-finished _ es d (
        ArePended-Among es id query c ts
          (subst (λ l. ArePended expands hash root es l)
            (some_inj (sym x' ∙ ap expands (inj q' q v' v i) ∙ x)) h)
          a)

  -- When nothing is pending, the results are the objects that the query finds.
  results-Finds :
      AreDistinct
      → (es : List Event) → AreGood expands hash root es
      → Pended expands hash root root es
      → all_done (root_after es).pending ≡ true
      → (x : Str) → Among x (root_after es).results ↔ Finds x
  results-Finds inj es g start d x = (sound, complete)
    where
      sound : Among x (root_after es).results → Finds x
      sound h =
          let (k, (found, (a, b))) = results-Among x es h in
          let (p, (v, (i, (ts, (e, (f, _)))))) = IsGood-result k found es g a in
          (p, (v, (ts, (e, found_of-Among x ts (subst (λ l. Among x l) f b)))))

      complete : Finds x → Among x (root_after es).results
      complete (p, (v, (ts, (e, a)))) =
          let (found, b) = visited_finished inj es g start d p v in
          let (q, (v', (i, (ts', (e', (f, _)))))) = IsGood-result _ found es g b in
          Among-results x _ found es b (
            subst (λ l. Among x l) (sym f)
              (Among-found_of x ts' (
                subst (λ l. Among (x, []) l)
                  (some_inj (sym e ∙ ap expands (sym (inj q p v' v i)) ∙ e')) a)))

  good_suffix :
      (later seen : List Event)
      → AreGood expands hash root (rev_onto later seen)
      → AreGood expands hash root seen
  good_suffix [] seen g = g
  good_suffix (e ∷ later) seen g = (good_suffix later (e ∷ seen) g).1

  aggregate-Finds :
      AreDistinct
      → (later seen : List Event) (res : List Str) → AreGood expands hash root (rev_onto later seen)
      → Pended expands hash root root seen
      → aggregate later (root_after seen) ≡ some res
      → (x : Str) → Among x res ↔ Finds x
  unfolding aggregate
  aggregate-Finds inj [] seen res g start e = no_case (ap has_value e)
  aggregate-Finds inj (u ∷ later) seen res g start e =
      by_test (is_result u && all_done (root_after (u ∷ seen)).pending) refl
        (aggregate-Finds inj later (u ∷ seen) res g (there start)) e
    where
      by_test :
          (b : Bool)
          → (is_result u && all_done (root_after (u ∷ seen)).pending) ≡ b
          → (aggregate later (root_after (u ∷ seen)) ≡ some res → (x : Str) → Among x res ↔ Finds x)
          → (if b
              then some (root_after (u ∷ seen)).results
              else aggregate later (root_after (u ∷ seen)))
            ≡ some res
          → (x : Str) → Among x res ↔ Finds x
      by_test true t rec h =
          subst (λ l. (x : Str) → Among x l ↔ Finds x) (some_inj h)
            (results-Finds inj (u ∷ seen) (good_suffix later (u ∷ seen) g) (there start)
              (and_right (is_result u) _ t))
      by_test false t rec h = rec h

  rev_onto-rev_onto :
      (xs ys zs : List Event) → rev_onto (rev_onto xs ys) zs ≡ rev_onto ys (xs ++ zs)
  rev_onto-rev_onto [] ys zs = refl
  rev_onto-rev_onto (x ∷ xs) ys zs = rev_onto-rev_onto xs (x ∷ ys) zs

  rev_onto-last :
      (xs : List Event) (y : Event) (acc : List Event)
      → rev_onto (xs ++ (y ∷ [])) acc ≡ y ∷ rev_onto xs acc
  rev_onto-last [] y acc = refl
  rev_onto-last (x ∷ xs) y acc = rev_onto-last xs y (x ∷ acc)

  -- The updates of a search, in their order, that begin with the process of the root.
  started_aggregate :
      AreDistinct
      → (later : List Event) (res : List Str)
      → AreGood expands hash root (later ++ (pends (key_of expands hash root) ∷ []))
      → aggregate (rev_onto (later ++ (pends (key_of expands hash root) ∷ [])) []) new_root
        ≡ some res
      → (x : Str) → Among x res ↔ Finds x
  unfolding aggregate receive load
  started_aggregate inj later res g e =
      let first = pends (key_of expands hash root) in
      aggregate-Finds inj (rev_onto later []) (first ∷ []) res
        (subst (AreGood expands hash root) (sym (rev_onto-rev_onto later [] (first ∷ []))) g)
        (here refl) (ap (λ l. aggregate l new_root) (sym (rev_onto-last later first [])) ∙ e)

  -- Where no two processes that the evaluation comes to share a key: when the root replies, in whatever
  -- order the descendants did their steps and wrote, the objects of its reply are exactly those that
  -- the query finds: at which the query ends when it is followed link by link from the root's object.
  pub aggregate-search :
      (order : List ℕ) (res : List Str)
      → AreDistinct
      → aggregate
          (rev_onto (search expands hash order (begin_search expands hash root)).events [])
          new_root
        ≡ some res
      → (x : Str) → Among x res ↔ Finds x
  aggregate-search order res inj e =
      let (later, h) = events-BeginsWithRoot expands hash root order in
      started_aggregate inj later res
        (subst (AreGood expands hash root) h (events_good expands hash root order))
        (ap (λ l. aggregate (rev_onto l []) new_root) (sym h) ∙ e)
