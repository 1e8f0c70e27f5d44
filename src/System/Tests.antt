-- ===== src/System/Tests.antt =====
-- Runs of statefun/system/system.go on small inputs.
use foliage_sdk.Common.{ℕ, suc, some, [], ◌∷◌, ◌++◌, ◌≡◌, refl, true, arith}
use foliage_sdk.Common.Dict.{Dict, load}
use foliage_sdk.Common.Dict
use foliage_sdk.Common.Int.{negsuc}
use foliage_sdk.Common.Text.{codes}
use foliage_sdk.Common.Text
use foliage_sdk.Common.Text.{Str}
use foliage_sdk.System.Bytes.{int64_to_bytes, bytes_to_int64}
use foliage_sdk.System.Bytes.Laws.{bytes_to_int64-int64_to_bytes}
use foliage_sdk.System.Maps.Laws.{Distinct}
use foliage_sdk.System.Channel.{open_channel, look, pull, looking, receiving, next, here, inspect}
use foliage_sdk.System.Channel.Laws.{in_hand, channel_fifo}
use foliage_sdk.System.KeyMutex.{
  KeyState, unlocked, Run, then_step, start, call, create, lock_own, replace, inside, trying,
  created,
}
use foliage_sdk.System.KeyMutex.Laws.{key_mutex_exclusive}

abbrev ones : Dict Str
ones = (codes "a", codes "1") ∷ (codes "b", codes "1") ∷ []

abbrev twos : Dict Str
twos = (codes "b", codes "2") ∷ (codes "c", codes "2") ∷ []

program : Unit {0}
unfolding Text.str_eq Dict.load Dict.assign
program = tt

ones-Distinct : Distinct ones
unfolding program
ones-Distinct = (refl, (refl, tt))

twos-Distinct : Distinct twos
unfolding program
twos-Distinct = (refl, (refl, tt))

bytes_to_int64-int64_to_bytes_example : bytes_to_int64 (int64_to_bytes (negsuc 4)) ≡ negsuc 4
bytes_to_int64-int64_to_bytes_example = bytes_to_int64-int64_to_bytes (negsuc 4) (omega arith)

is_looking : (open_channel ℕ).pusher ≡ looking
unfolding open_channel
is_looking = refl

is_receiving : (open_channel ℕ).puller ≡ receiving
unfolding open_channel
is_receiving = refl

still_looking : (pull ℕ 2 7 (open_channel ℕ)).pusher ≡ looking
unfolding open_channel pull
still_looking = refl

channel_fifo_example :
    (look ℕ [] (open_channel ℕ)).received
    ≡ (look ℕ [] (open_channel ℕ)).delivered
      ++ (in_hand ℕ 2 (look ℕ [] (open_channel ℕ)).pusher ++ (look ℕ [] (open_channel ℕ)).buffer)
unfolding open_channel
channel_fifo_example =
    channel_fifo ℕ 2 (look ℕ [] (open_channel ℕ)) (next here (inspect (open_channel ℕ) is_looking))

abbrev called : KeyState
called = record unlocked { place = replace unlocked.place 1 trying }

abbrev stored_own : KeyState
stored_own = record called {
  entry = some called.fresh;
  fresh = suc called.fresh;
  place = replace called.place 1 (created called.fresh);
}

abbrev in_section : KeyState
in_section = record stored_own {
  locked = replace stored_own.locked 0 true;
  place = replace stored_own.place 1 (inside 0);
}

locks_once : Run unlocked in_section
unfolding unlocked
locks_once =
    then_step 1 (then_step 1 (then_step 1 start (call unlocked refl)) (create called refl refl))
      (lock_own 0 stored_own refl refl)

is_inside : in_section.place 1 ≡ inside 0
unfolding unlocked
is_inside = refl

key_mutex_exclusive_example : ◌≡◌ {A = ℕ} 1 1
key_mutex_exclusive_example = key_mutex_exclusive in_section 1 1 0 0 locks_once is_inside is_inside
