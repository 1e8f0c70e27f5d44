-- ===== src/Cache/Sync/Writer.antt =====
-- What `kvLazyWriter` does to a child (statefun/cache/cache.go).
use foliage_sdk.Common.{true, false, Option, some, [], ◌≡◌, arith}
use foliage_sdk.Common.Int.{ℤ, eqb_ℤ, eqb_ℤ_refl}
use foliage_sdk.Common.Text.{Str}
use foliage_sdk.Cache.Record.{final_bytes}
use foliage_sdk.Cache.Value.{Entry, put_entry, try_purge_confirm}
use foliage_sdk.Cache.Sync.{visit_child, put_visited, acknowledge, confirm_update}

-- A value that has to be written and is not touched meanwhile: the writer puts its record, marks
-- it as written, and keeps every other field that is seen. With the confirmation of the bucket it
-- is synchronised.
write_undisturbed :
    (treshold : ℤ) (e : Entry)
    → e.sync_needed ≡ true
    → (put_visited (visit_child treshold e) e ≡ some (final_bytes e))
      × (acknowledge (visit_child treshold e) e ≡ record e { sync_needed = false })
      × ((confirm_update (acknowledge (visit_child treshold e) e)).synced_with_kv ≡ true)
unfolding visit_child put_visited acknowledge confirm_update try_purge_confirm
write_undisturbed treshold e h = (
  ground arith,
  ground (arith, eqb_ℤ_refl e.value_update_time),
  ground (arith, eqb_ℤ_refl e.value_update_time),
)

-- A value that was put again at another time while the writer wrote stays to be written.
write_overtaken :
    (treshold : ℤ) (e : Entry) (value : Option Str) (custom now : ℤ)
    → e.sync_needed ≡ true
    → eqb_ℤ e.value_update_time (put_entry value true custom now e).value_update_time ≡ false
    → (acknowledge (visit_child treshold e) (put_entry value true custom now e)).sync_needed ≡ true
unfolding visit_child acknowledge put_entry
write_overtaken treshold e value custom now h apart = ground arith

-- A value that is put between the two halves of a visit that found nothing to write: the writer
-- puts an empty record into the bucket, which the readers take for a deletion.
pub write_race :
    (treshold : ℤ) (e : Entry) (value : Option Str) (custom now : ℤ)
    → e.sync_needed ≡ false
    → put_visited (visit_child treshold e) (put_entry value true custom now e) ≡ some []
unfolding visit_child put_visited put_entry
write_race treshold e value custom now h = ground arith
