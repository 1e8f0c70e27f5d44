-- ===== src/System/Channel.antt =====
-- `CreateDimSizeChannel` of statefun/system/system.go: two routines, the puller and the pusher,
-- around a buffer under a lock. A step is a section under the lock, or a communication.
pub mod Laws
use foliage_sdk.Common.{
  ℕ, ◌+◌, Bool, true, false, List, [], ◌∷◌, ◌++◌, ltb, length, ◌≡◌, if◌then◌else◌, ◌≢◌,
}

-- The puller is at `<-in`, or before the `select`, or has returned.
pub data Puller : Type 0 where
  receiving : Puller
  notifying : Puller
  returned : Puller

module _ (T : Type 0) where
  -- The pusher is before its lock, between the unlock of an empty buffer and `<-notifier`, at
  -- `<-notifier`, or at `out <- v`, or has returned.
  pub data Pusher : Type 0 where
    looking : Pusher
    leaving : Pusher
    waiting : Pusher
    sending : T → Pusher
    stopped : Pusher

  -- `received` and `delivered` are what went through `in` and `out`; `overflows` counts the calls
  -- of `onBufferOverflow`. The notifier is closed exactly if the puller has returned.
  pub record Channel : Type 0 where
    pub buffer : List T
    pub puller : Puller
    pub pusher : Pusher
    pub received : List T
    pub delivered : List T
    pub overflows : ℕ

  unfoldable pub open_channel : Channel
  open_channel = record {
    buffer = [];
    puller = receiving;
    pusher = looking;
    received = [];
    delivered = [];
    overflows = 0;
  }

  -- What the puller does with a value from `in`.
  unfoldable pub pull : ℕ → T → Channel → Channel
  pull max_buffer_elements v s =
      let buffer = s.buffer ++ (v ∷ []) in
      record s {
        buffer = buffer;
        puller = notifying;
        received = s.received ++ (v ∷ []);
        overflows =
            if ltb max_buffer_elements (length buffer) then s.overflows + 1 else s.overflows;
      }

  -- The section of the pusher under the lock.
  unfoldable pub look : List T → Channel → Channel
  look [] s = record s { pusher = leaving }
  look (v ∷ rest) s = record s { buffer = rest; pusher = sending v }

  -- `max` is `maxBufferElements`.
  pub data Step (max : ℕ) : Channel → Channel → Type 0 where
    receive : (v : T) (s : Channel) → s.puller ≡ receiving → Step max s (pull max v s)
    close : (s : Channel) → s.puller ≡ receiving → Step max s (record s { puller = returned })
    wake :
        (s : Channel)
        → s.puller ≡ notifying
        → s.pusher ≡ waiting
        → Step max s (record s { puller = receiving; pusher = looking })
    miss :
        (s : Channel)
        → s.puller ≡ notifying
        → s.pusher ≢ waiting
        → Step max s (record s { puller = receiving })
    inspect : (s : Channel) → s.pusher ≡ looking → Step max s (look s.buffer s)
    settle : (s : Channel) → s.pusher ≡ leaving → Step max s (record s { pusher = waiting })
    deliver :
        (v : T) (s : Channel)
        → s.pusher ≡ sending v
        → Step max s (record s { pusher = looking; delivered = s.delivered ++ (v ∷ []) })
    stop :
        (s : Channel)
        → s.pusher ≡ waiting
        → s.puller ≡ returned
        → Step max s (record s { pusher = stopped })

  pub data Steps (max : ℕ) (s : Channel) : Channel → Type 0 where
    here : Steps max s s
    next : {t u : Channel} → Steps max s t → Step max t u → Steps max s u
