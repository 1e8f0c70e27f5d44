-- ===== src/Jpgql/Search.antt =====
-- embedded/graph/jpgql/jpgql.go: LLAPIQueryJPGQLDirectCacheResultAggregation. Descendants that evaluate
-- queries side by side, and the root that gathers what they find. The graph does not change during the
-- search, and a call on the objects found is left out.
pub mod Aggregate
pub mod Events
pub mod Begin
pub mod Pending
pub mod Laws
pub mod Entries
pub mod Progress
mod Tests
use foliage_sdk.Common.{
  ℕ, zero, suc, Bool, true, false, not, ◌&&◌, ◌||◌, Option, none, some, List, [], ◌∷◌, ◌++◌, map,
  ◌==◌, if◌then◌else◌,
}
use foliage_sdk.Common.Dict.{Dict}
use foliage_sdk.Common.Text.{Str, codes, str_eq}
use foliage_sdk.Jpgql.Links.{AnyDepthStop}
use foliage_sdk.Jpgql.Query.{QueryParts, Cut, parts, no_dot, panic}

-- An object, and the query that is evaluated at it; the query is empty for an object that is found.
abbrev pub Task : Type 0
Task = Str × Str

-- A write to a key of pending processes, as the root is told of it: one byte, or the objects found.
pub data Event : Type 0 where
  pends : Str → Event
  finishes : Str → List Str → Event

-- A descendant at work: its process, the objects that its query leads to and that it has not looked at
-- yet, and those found.
pub record Descendant : Type 0 where
  pub task : Task
  pub rest : List Task
  pub found : List Str

-- The keys that are set, the descendants at work, and the writes, the last one first.
pub record Search : Type 0 where
  pub known : List Str
  pub working : List Descendant
  pub events : List Event

-- The query for an object that the head of a query leads to.
abbrev pub stop_tail : Str → Option AnyDepthStop → Str
stop_tail tail none = tail
stop_tail tail (some stop) = stop.query_tail

unfoldable pub next_tasks : Str → Option AnyDepthStop → Dict ℕ → List Task
next_tasks tail stop [] = []
next_tasks tail stop ((id, stopped) ∷ found) =
    (id, if stopped == 1 then stop_tail tail stop else tail) ∷ next_tasks tail stop found

-- What the query of a descendant leads to; `none` is a query that cannot be cut or evaluated. The cut of a
-- query and the query for links are those of tools.go.
module _ (cut : Str → Cut) (links : Str → Str → Str → Option AnyDepthStop → Option (Dict ℕ)) where
  abbrev with_found : QueryParts → Option (Dict ℕ) → Option (List Task)
  with_found p none = none
  with_found p (some found) = some (next_tasks p.tail p.any_depth_stop found)

  abbrev with_cut : Str → Cut → Option (List Task)
  with_cut id (parts p) = with_found p (links id p.head_link_type p.head_filter p.any_depth_stop)
  with_cut id no_dot = none
  with_cut id panic = none

  unfoldable pub expand : Task → Option (List Task)
  expand (id, query) = with_cut id (cut query)

abbrev pub has_key : Str → List Str → Bool
has_key k [] = false
has_key k (j ∷ known) = str_eq j k || has_key k known

-- The expansion of a process, and the hash of its object and query.
module _ (expands : Task → Option (List Task)) (hash : Str → Str) where
  -- thisProcessID, pendingProcessID
  abbrev pub key_of : Task → Str
  key_of (id, query) = hash (id ++ (codes "_" ++ query))

  -- A descendant starts on the message; one whose query is invalid ends at once and writes nothing.
  abbrev pub started : Task → Option (List Task) → List Descendant
  started p none = []
  started p (some ts) = record { task = p; rest = ts; found = [] } ∷ []

  abbrev pub started_search : Task → Search → Search
  started_search p s = record {
    known = key_of p ∷ s.known;
    working = started p (expands p) ++ s.working;
    events = pends (key_of p) ∷ s.events;
  }

  -- initPendingProcess, and the message to the new descendant.
  unfoldable pub init_pending_process : Task → Search → Search
  init_pending_process p s = if has_key (key_of p) s.known then s else started_search p s

  abbrev pub keep_working : Descendant → Search → Search
  keep_working d s = record s { working = d ∷ s.working }

  -- The next object of a descendant, or thisPendingDone.
  abbrev pub advance_on : Descendant → List Task → Search → Search
  advance_on d [] s = record s { events = finishes (key_of d.task) d.found ∷ s.events }
  advance_on d ((id, []) ∷ ts) s =
      keep_working (record { task = d.task; rest = ts; found = d.found ++ (id ∷ []) }) s
  advance_on d ((id, c ∷ query) ∷ ts) s =
      keep_working (record { task = d.task; rest = ts; found = d.found })
        (init_pending_process (id, c ∷ query) s)

  unfoldable pub advance : Descendant → Search → Search
  advance d s = advance_on d d.rest s

  abbrev pub and_others :
      Descendant → Option (Descendant × List Descendant) → Option (Descendant × List Descendant)
  and_others d none = none
  and_others d (some (e, others)) = some (e, d ∷ others)

  -- The descendant at a place, and the others.
  unfoldable pub pick : ℕ → List Descendant → Option (Descendant × List Descendant)
  pick n [] = none
  pick zero (d ∷ ds) = some (d, ds)
  pick (suc n) (d ∷ ds) = and_others d (pick n ds)

  abbrev pub step_of : Option (Descendant × List Descendant) → Search → Search
  step_of none s = s
  step_of (some (d, others)) s = advance d (record s { working = others })

  -- One descendant after the other does its next step, in any order.
  unfoldable pub search : List ℕ → Search → Search
  search [] s = s
  search (n ∷ order) s = search order (step_of (pick n s.working) s)

  -- The search that the root starts.
  unfoldable pub begin_search : Task → Search
  begin_search p = init_pending_process p (record { known = []; working = []; events = [] })
