-- ===== src/Mutex/Kv.antt =====
-- The NATS key/value bucket that statefun/kv_mutices.go uses (package nats.go, not in the
-- repository): its calls, and what its documentation says of them.
use foliage_sdk.Common.{ℕ, ◌<◌, ◌≡◌, ◌≢◌}
use foliage_sdk.Common.Text.{Str}

pub data GetReply : Type 0 where
  entry_of : Str → ℕ → GetReply
  not_found : GetReply
  get_error : Str → GetReply

pub data WriteReply : Type 0 where
  written : ℕ → WriteReply
  wrong_sequence : WriteReply
  write_error : Str → WriteReply

-- The first update of a watch, nil where the key has no value.
pub data WatchReply : Type 0 where
  first : Str → WatchReply
  first_nil : WatchReply
  watch_error : WatchReply

pub record Bucket : Type 1 where
  pub State : Type 0
  pub get : Str → State → GetReply
  pub put : Str → Str → State → State × WriteReply
  pub update : Str → Str → ℕ → State → State × WriteReply
  pub watch : Str → State → WatchReply

-- The laws of a bucket that is reachable. A put gives its key the value and some revision. An
-- update that is accepted does so too; one with the revision that the key has is accepted and
-- gives a higher revision, and one with another revision is refused and changes nothing.
pub record IsLinear (kv : Bucket) : Type 0 where
  pub put_written :
      (key value : Str) (b : kv.State)
      → (rev : ℕ) × ((kv.put key value b).1 ≡ written rev)
        × (kv.get key (kv.put key value b).0 ≡ entry_of value rev)
  pub update_written :
      (key value : Str) (rev next : ℕ) (b : kv.State)
      → (kv.update key value rev b).1 ≡ written next
      → kv.get key (kv.update key value rev b).0 ≡ entry_of value next
  pub update_current :
      (key value old : Str) (rev : ℕ) (b : kv.State)
      → kv.get key b ≡ entry_of old rev
      → (next : ℕ) × ((kv.update key value rev b).1 ≡ written next)
        × (kv.get key (kv.update key value rev b).0 ≡ entry_of value next)
        × (rev < next)
  pub update_stale :
      (key value old : Str) (rev other : ℕ) (b : kv.State)
      → kv.get key b ≡ entry_of old rev
      → other ≢ rev
      → kv.update key value other b ≡ (b, wrong_sequence)
