-- ===== src/Jpgql/Search/Begin.antt =====
-- embedded/graph/jpgql/jpgql.go: the first write of a search.
use foliage_sdk.Common.{
  ℕ, Bool, true, false, Option, none, some, List, [], ◌∷◌, ◌++◌, ◌≡◌, refl, ap, if◌then◌else◌,
}
use foliage_sdk.Common.Text.{Str}
use foliage_sdk.Jpgql.Search.{
  Task, Event, pends, finishes, Descendant, Search, has_key, key_of, started_search,
  init_pending_process, advance_on, advance, step_of, search, begin_search,
}

module _ (expands : Task → Option (List Task)) (hash : Str → Str) (root : Task) where
  -- The first write is that of the root's process.
  abbrev pub BeginsWithRoot : Search → Type 0
  BeginsWithRoot s =
      (later : List Event) × (s.events ≡ later ++ (pends (key_of expands hash root) ∷ []))

  init_pending-BeginsWithRoot :
      (p : Task) (s : Search)
      → BeginsWithRoot s
      → BeginsWithRoot (init_pending_process expands hash p s)
  unfolding init_pending_process
  init_pending-BeginsWithRoot p s (later, e) = by_test (has_key (key_of expands hash p) s.known)
    where
      by_test : (b : Bool) → BeginsWithRoot (if b then s else started_search expands hash p s)
      by_test true = (later, e)
      by_test false =
          (pends (key_of expands hash p) ∷ later, ap (λ l. pends (key_of expands hash p) ∷ l) e)

  advance-BeginsWithRoot :
      (d : Descendant) (rest : List Task) (s : Search)
      → BeginsWithRoot s
      → BeginsWithRoot (advance_on expands hash d rest s)
  advance-BeginsWithRoot d [] s (later, e) = (
    finishes (key_of expands hash d.task) d.found ∷ later,
    ap (λ l. finishes (key_of expands hash d.task) d.found ∷ l) e,
  )
  advance-BeginsWithRoot d ((id, []) ∷ ts) s h = h
  advance-BeginsWithRoot d ((id, c ∷ query) ∷ ts) s h =
      init_pending-BeginsWithRoot (id, c ∷ query) s h

  step-BeginsWithRoot :
      (o : Option (Descendant × List Descendant)) (s : Search)
      → BeginsWithRoot s
      → BeginsWithRoot (step_of expands hash o s)
  unfolding advance
  step-BeginsWithRoot none s h = h
  step-BeginsWithRoot (some (d, others)) s h =
      advance-BeginsWithRoot d d.rest (record s { working = others }) h

  search-BeginsWithRoot :
      (order : List ℕ) (s : Search)
      → BeginsWithRoot s
      → BeginsWithRoot (search expands hash order s)
  unfolding search
  search-BeginsWithRoot [] s h = h
  search-BeginsWithRoot (n ∷ order) s h = search-BeginsWithRoot order _ (step-BeginsWithRoot _ s h)

  pub events-BeginsWithRoot :
      (order : List ℕ) → BeginsWithRoot (search expands hash order (begin_search expands hash root))
  unfolding begin_search init_pending_process
  events-BeginsWithRoot order = search-BeginsWithRoot order _ ([], refl)
