-- ===== src/Jpgql/Search/Progress.antt =====
-- embedded/graph/jpgql/jpgql.go: the root of a query replies when every descendant is done.
use mathlib.Core.Path.{subst}
use foliage_sdk.Common.{
  no_case, ℕ, zero, suc, Bool, true, false, Option, none, some, List, [], ◌∷◌, ◌++◌, ◌≡◌, refl, sym,
  ap, ◌∙◌, inl, inr, if◌then◌else◌, Bool-cases, Among, here, there, Among-append_right, rev_onto,
}
use foliage_sdk.Common.Dict.{load, assign}
use foliage_sdk.Common.Text.{Str, str_eq, str_eq_iff}
use foliage_sdk.Jpgql.Search.{
  Task, Event, finishes, Descendant, Search, key_of, has_key, started, started_search,
  init_pending_process, advance_on, advance, pick, and_others, step_of, search, begin_search,
}
use foliage_sdk.Jpgql.Search.Aggregate.{is_held, all_done, receive, aggregate, new_root}
use foliage_sdk.Jpgql.Search.Events.{
  Visits, visits_root, IsPartial, IsSound, next-Visits, init_pending-IsSound, IsPicked,
  pick-IsPicked, step-IsSound,
}
use foliage_sdk.Jpgql.Search.Pending.{root_after, assigned}
use foliage_sdk.Jpgql.Search.Entries.{
  AreUnique, assign-AreUnique, all_done-intro, put-pending, put-AreUnique, aggregate-replies,
}

module _ (expands : Task → Option (List Task)) (hash : Str → Str) (root : Task) where
  -- A descendant is at work on the process with the key.
  abbrev Works : Str → List Descendant → Type 0
  Works k ds = (d : Descendant) × (Among d ds × (key_of expands hash d.task ≡ k))

  -- Every process that is pending is worked on.
  abbrev AreCovered : List Event → List Descendant → Type 0
  AreCovered es ds = (k : Str) → load k (root_after es).pending ≡ some true → Works k ds

  abbrev CanExpand : Type 0
  CanExpand = (p : Task) → Visits expands hash root p → (ts : List Task) × (expands p ≡ some ts)

  -- The same processes, with other descendants after the first one.
  Works-later :
      (k : Str) (d d' : Descendant) (ds ds' : List Descendant)
      → d.task ≡ d'.task
      → ((e : Descendant) → Among e ds → Among e ds')
      → Works k (d ∷ ds)
      → Works k (d' ∷ ds')
  Works-later k d d' ds ds' t f (e, (here h, i)) =
      (d', (here refl, ap (key_of expands hash) (sym t ∙ ap (λ (x : Descendant). x.task) h) ∙ i))
  Works-later k d d' ds ds' t f (e, (there h, i)) = (e, (there (f e h), i))

  Works-started :
      (p : Task) (o : Option (List Task)) (ts : List Task) (k : Str) (d : Descendant)
      (ds : List Descendant)
      → o ≡ some ts
      → key_of expands hash p ≡ k
      → Works k (d ∷ (started expands hash p o ++ ds))
  Works-started p none ts k d ds e i = no_case (ap has_tasks e)
    where
      has_tasks : Option (List Task) → Bool
      has_tasks none = false
      has_tasks (some l) = true
  Works-started p (some us) ts k d ds e i =
      (record { task = p; rest = us; found = [] }, (there (here refl), i))

  abbrev IsCovered : Search → List Descendant → Type 0
  IsCovered s ds = AreUnique (root_after s.events).pending × AreCovered s.events ds

  init_pending-IsCovered :
      (p : Task) (s : Search) (d d' : Descendant)
      → (ts : List Task) × (expands p ≡ some ts)
      → d.task ≡ d'.task
      → IsCovered s (d ∷ s.working)
      → IsCovered
          (init_pending_process expands hash p s)
          (d' ∷ (init_pending_process expands hash p s).working)
  unfolding init_pending_process receive
  init_pending-IsCovered p s d d' (ts, x) t (u, h) =
      by_test (has_key (key_of expands hash p) s.known)
    where
      by_test :
          (b : Bool)
          → IsCovered
              (if b then s else started_search expands hash p s)
              (d' ∷ (if b then s else started_search expands hash p s).working)
      by_test true = (u, λ k e. Works-later k d d' _ _ t (λ w a. a) (h k e))
      by_test false = (
        put-AreUnique (key_of expands hash p) (root_after s.events).pending _ u,
        λ k e. elim (Bool-cases (str_eq (key_of expands hash p) k)) [
          | inl q ↦ Works-started p (expands p) ts k d' s.working x ((str_eq_iff _ _).0 q)
          | inr q ↦
              Works-later k d d' s.working _ t
                (λ w a. Among-append_right w (started expands hash p (expands p)) s.working a)
                (h k (put-pending (key_of expands hash p) k (root_after s.events).pending _ q e))
        ],
      )

  -- The last write is a result when no descendant is at work.
  abbrev Ends : Search → Type 0
  Ends s =
      s.working ≡ []
      → (k : Str) × ((found : List Str) × ((es : List Event) × (s.events ≡ finishes k found ∷ es)))

  works_still : {A : Type 0} (d : Descendant) (ds : List Descendant) → d ∷ ds ≡ [] → A
  works_still d ds e = no_case (sym (ap is_some e))
    where
      is_some : List Descendant → Bool
      is_some [] = false
      is_some (x ∷ xs) = true

  advance-IsCovered :
      (d : Descendant) (rest : List Task) (s : Search)
      → CanExpand
      → d.rest ≡ rest
      → IsPartial expands hash root s.events d
      → IsCovered s (d ∷ s.working)
      → IsCovered (advance_on expands hash d rest s) (advance_on expands hash d rest s).working
        × Ends (advance_on expands hash d rest s)
  unfolding receive
  advance-IsCovered d [] s can r p (u, h) = (
    (
      assign-AreUnique (key_of expands hash d.task) false (root_after s.events).pending u,
      λ k e. elim (Bool-cases (str_eq (key_of expands hash d.task) k)) [
        | inl q ↦
            no_case
              (ap value_of (sym (assigned _ k false (root_after s.events).pending true q) ∙ e))
        | inr q ↦
            others k q (h k (sym (assigned _ k false (root_after s.events).pending false q) ∙ e))
      ],
    ),
    λ e. (key_of expands hash d.task, (d.found, (s.events, refl))),
  )
    where
      value_of : Option Bool → Bool
      value_of none = false
      value_of (some b) = b

      others :
          (k : Str)
          → str_eq (key_of expands hash d.task) k ≡ false
          → Works k (d ∷ s.working)
          → Works k s.working
      others k q (e, (here i, j)) =
          no_case
            (sym q ∙ (str_eq_iff _ k).1 (ap (λ (x : Descendant). key_of expands hash x.task) i ∙ j))
      others k q (e, (there a, j)) = (e, (a, j))
  advance-IsCovered d ((id, []) ∷ ts) s can r p (u, h) =
      ((u, λ k e. Works-later k d _ _ _ refl (λ w a. a) (h k e)), works_still _ _)
  advance-IsCovered d ((id, c ∷ query) ∷ ts) s can r p h = (
    init_pending-IsCovered (id, c ∷ query) s d
        (record { task = d.task; rest = ts; found = d.found })
        (can (id, c ∷ query) (next-Visits expands hash root s.events d id query c ts r p)) refl h,
    works_still _ _,
  )

  -- Those at work are the one that is picked and the others.
  abbrev IsSplit : List Descendant → Option (Descendant × List Descendant) → Type 0
  IsSplit ds none = Unit
  IsSplit ds (some (d, others)) = (e : Descendant) → Among e ds → Among e (d ∷ others)

  others-IsSplit :
      (d : Descendant) (ds : List Descendant) (o : Option (Descendant × List Descendant))
      → IsSplit ds o
      → IsSplit (d ∷ ds) (and_others expands hash d o)
  others-IsSplit d ds none h = tt
  others-IsSplit d ds (some (x, others)) h = swapped
    where
      moved : (e : Descendant) → Among e (x ∷ others) → Among e (x ∷ d ∷ others)
      moved e (here i) = here i
      moved e (there a) = there (there a)

      swapped : (e : Descendant) → Among e (d ∷ ds) → Among e (x ∷ d ∷ others)
      swapped e (here i) = there (here i)
      swapped e (there a) = moved e (h e a)

  pick-IsSplit : (n : ℕ) (ds : List Descendant) → IsSplit ds (pick expands hash n ds)
  unfolding pick
  pick-IsSplit n [] = tt
  pick-IsSplit zero (d ∷ ds) = λ e a. a
  pick-IsSplit (suc n) (d ∷ ds) = others-IsSplit d ds (pick expands hash n ds) (pick-IsSplit n ds)

  abbrev IsLive : Search → Type 0
  IsLive s = IsSound expands hash root s × (IsCovered s s.working × Ends s)

  step-IsLive :
      (o : Option (Descendant × List Descendant)) (s : Search)
      → CanExpand
      → IsPicked expands hash root s.events o
      → IsSplit s.working o
      → IsLive s
      → IsCovered (step_of expands hash o s) (step_of expands hash o s).working
        × Ends (step_of expands hash o s)
  unfolding advance
  step-IsLive none s can p q h = h.1
  step-IsLive (some (d, others)) s can p q (sound, ((u, c), e)) =
      advance-IsCovered d d.rest (record s { working = others }) can refl p.0
        (u, λ k t. (let (w, (a, i)) = c k t in (w, (q w a, i))))

  search-IsLive :
      (order : List ℕ) (s : Search) → CanExpand → IsLive s → IsLive (search expands hash order s)
  unfolding search
  search-IsLive [] s can h = h
  search-IsLive (n ∷ order) s can h =
      let picked = pick-IsPicked expands hash root s.events n s.working h.0.partial in
      search-IsLive order _ can (
        step-IsSound expands hash root _ s picked h.0,
        step-IsLive (pick expands hash n s.working) s can picked (pick-IsSplit n s.working) h,
      )

  -- The root's descendant is at work.
  Works-root :
      (o : Option (List Task)) (ts : List Task) (k : Str)
      → o ≡ some ts
      → key_of expands hash root ≡ k
      → Works k (started expands hash root o ++ [])
  Works-root none ts k e i = no_case (sym (ap is_none e))
    where
      is_none : Option (List Task) → Bool
      is_none none = true
      is_none (some l) = false
  Works-root (some us) ts k e i = (record { task = root; rest = us; found = [] }, (here refl, i))

  Works-nil : {A : Type 0} (k : Str) → Works k [] → A
  Works-nil k (d, (a, i)) = elim a [ ]

  begin-IsLive : CanExpand → IsLive (begin_search expands hash root)
  unfolding begin_search init_pending_process receive load assign
  begin-IsLive can =
      let (ts, x) = can root visits_root in
      (
        (init_pending-IsSound expands hash root root
            (record { known = []; working = []; events = [] }) visits_root
            (record { good = tt; partial = tt; known = λ k e. no_case e })).0,
        (
          (
            (refl, tt),
            λ k e. elim (Bool-cases (str_eq (key_of expands hash root) k)) [
              | inl q ↦ Works-root (expands root) ts k x ((str_eq_iff _ k).0 q)
              | inr q ↦ no_case (ap is_held (ap (λ b. if b then some true else none) (sym q) ∙ e))
            ],
          ),
          λ e.
              Works-nil (key_of expands hash root) (
                subst (Works (key_of expands hash root)) e (Works-root (expands root) ts _ x refl)),
        ),
      )

  rev_onto-snoc :
      (xs : List Event) (y : Event) (acc : List Event)
      → rev_onto xs (acc ++ (y ∷ [])) ≡ rev_onto xs acc ++ (y ∷ [])
  rev_onto-snoc [] y acc = refl
  rev_onto-snoc (x ∷ xs) y acc = rev_onto-snoc xs y (x ∷ acc)

  rev_onto-twice : (xs ys : List Event) → rev_onto (rev_onto xs ys) [] ≡ rev_onto ys xs
  rev_onto-twice [] ys = refl
  rev_onto-twice (x ∷ xs) ys = rev_onto-twice xs (x ∷ ys)

  replies_of :
      (es : List Event)
      → all_done (root_after es).pending ≡ true
      → (k : Str) × ((found : List Str) × ((es' : List Event) × (es ≡ finishes k found ∷ es')))
      → (res : List Str) × (aggregate (rev_onto es []) new_root ≡ some res)
  replies_of es d (k, (found, (es', e))) =
      let (res, h) = aggregate-replies (rev_onto es' []) [] k found (
        ap (λ l. all_done (root_after (finishes k found ∷ l)).pending) (rev_onto-twice es' [])
        ∙ ap (λ l. all_done (root_after l).pending) (sym e)
        ∙ d) in
      (
        res,
        ap (λ l. aggregate (rev_onto l []) new_root) e
            ∙ ap (λ l. aggregate l new_root) (rev_onto-snoc es' (finishes k found) [])
            ∙ h,
      )

  -- Where every query that the evaluation comes to can be evaluated: once every descendant is done, in
  -- whatever order they did their steps, the root has replied.
  pub aggregate-search_replies :
      (order : List ℕ)
      → ((p : Task) → Visits expands hash root p → (ts : List Task) × (expands p ≡ some ts))
      → (search expands hash order (begin_search expands hash root)).working ≡ []
      → (res : List Str) × (aggregate
            (rev_onto (search expands hash order (begin_search expands hash root)).events [])
            new_root
          ≡ some res)
  aggregate-search_replies order can e =
      let s = search expands hash order (begin_search expands hash root) in
      let (sound, ((u, c), ends)) = search-IsLive order _ can (begin-IsLive can) in
      replies_of s.events
        (all_done-intro (root_after s.events).pending u
          (λ k h. Works-nil k (subst (Works k) e (c k h))))
        (ends e)
