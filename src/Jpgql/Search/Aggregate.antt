-- ===== src/Jpgql/Search/Aggregate.antt =====
-- embedded/graph/jpgql/jpgql.go: the routine of the root of a query that gathers the results.
use foliage_sdk.Common.{
  Bool, true, false, not, ◌&&◌, Option, none, some, List, [], ◌∷◌, ◌++◌, if◌then◌else◌,
}
use foliage_sdk.Common.Dict.{Dict, load, assign}
use foliage_sdk.Common.Text.{Str}
use foliage_sdk.Jpgql.Search.{Event, pends, finishes}

-- pendingMap and resultObjects
pub record Root : Type 0 where
  pub pending : Dict Bool
  pub results : List Str

abbrev pub is_held : Option Bool → Bool
is_held none = false
is_held (some b) = true

-- pendingDone
abbrev pub all_done : Dict Bool → Bool
all_done [] = true
all_done ((k, is_pending) ∷ pending) = not is_pending && all_done pending

-- An update of a key of a pending process.
unfoldable pub receive : Event → Root → Root
receive (pends k) r = record r {
  pending = if is_held (load k r.pending) then r.pending else assign k true r.pending;
}
receive (finishes k found) r = record {
  pending = assign k false r.pending;
  results = r.results ++ found;
}

abbrev pub is_result : Event → Bool
is_result (pends k) = false
is_result (finishes k found) = true

-- The loop: the objects that are replied, or `none` while it waits.
unfoldable pub aggregate : List Event → Root → Option (List Str)
aggregate [] r = none
aggregate (e ∷ events) r =
    let r' = receive e r in
    let later = aggregate events r' in
    if is_result e && all_done r'.pending then some r'.results else later

abbrev pub new_root : Root
new_root = record { pending = []; results = [] }
