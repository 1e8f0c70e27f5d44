-- ===== src/Function/Runs.antt =====
-- statefun/function_type.go: the events of a function type, and its runs.
use foliage_sdk.Common.{ℕ, Option, List, [], ◌∷◌}
use foliage_sdk.Common.Text.{Str}
use foliage_sdk.Function.Handlers.{
  Msg, Fun, send_msg, update_routine, receive_next, end_message, end_routine, choose, collect,
}

-- What may happen next.
pub data Event (M : Type 0) : Type 0 where
  sends : ℕ → Str → Msg M → Event M
  receives : ℕ → Event M
  ends_message : ℕ → Event M
  ends : ℕ → Event M
  chooses : ℕ → Str → Event M
  collects : Event M

-- The limit, the size of a channel and the lifetime of an id are of the configuration.
module _ {M : Type 0} (limit : Option ℕ) (size lifetime_ms : ℕ) where
  unfoldable pub step : Event M → Fun M → Fun M
  step (sends now id m) f = (send_msg limit size now id m f).1
  step (receives k) f = record f { routines = update_routine k receive_next f.routines }
  step (ends_message k) f = record f { routines = update_routine k end_message f.routines }
  step (ends k) f = end_routine limit k f
  step (chooses now id) f = choose lifetime_ms now id f
  step collects f = (collect f).1

  -- What happens, one event after the other.
  unfoldable pub run : List (Event M) → Fun M → Fun M
  run [] f = f
  run (e ∷ es) f = run es (step e f)

  -- What holds of every step holds of every run.
  pub run-keeps :
      (P : Fun M → Type 0)
      → ((e : Event M) (f : Fun M) → P f → P (step e f))
      → (es : List (Event M)) (f : Fun M) → P f
      → P (run es f)
  unfolding run
  run-keeps P h [] f p = p
  run-keeps P h (e ∷ es) f p = run-keeps P h es (step e f) (h e f p)
