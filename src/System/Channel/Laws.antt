-- ===== src/System/Channel/Laws.antt =====
-- What goes through the channel of `CreateDimSizeChannel` (statefun/system/system.go).
use foliage_sdk.Common.{ℕ, List, [], ◌∷◌, ◌++◌, ◌≡◌, refl, ap, sym, ◌∙◌}
use mathlib.Core.Path.{subst}
use mathlib.Core.List.{append-nil, append_assoc}
use foliage_sdk.System.Channel.{
  receiving, returned, Pusher, looking, leaving, waiting, sending, stopped, Channel, open_channel,
  pull, look, Step, receive, close, wake, miss, inspect, settle, deliver, stop, Steps, here, next,
}

module _ (T : Type 0) (max : ℕ) where
  -- What the pusher has in its hands.
  abbrev pub in_hand : Pusher T → List T
  in_hand looking = []
  in_hand leaving = []
  in_hand waiting = []
  in_hand (sending v) = v ∷ []
  in_hand stopped = []

  abbrev pub IsFifo : Channel T → Type 0
  IsFifo s = s.received ≡ s.delivered ++ (in_hand s.pusher ++ s.buffer)

  look-IsFifo :
      (b : List T) (s : Channel T)
      → s.pusher ≡ looking
      → s.buffer ≡ b
      → IsFifo s
      → IsFifo (look T b s)
  unfolding look
  look-IsFifo [] s at e h = h ∙ rw at (refl)
  look-IsFifo (v ∷ rest) s at e h = h ∙ rw at (rw e refl)

  Step-IsFifo : {s s' : Channel T} → Step T max s s' → IsFifo s → IsFifo s'
  unfolding pull
  Step-IsFifo (receive v s at) h =
      ap (λ l. l ++ (v ∷ [])) h
      ∙ append_assoc s.delivered (in_hand s.pusher ++ s.buffer) (v ∷ [])
      ∙ ap (λ l. s.delivered ++ l) (append_assoc (in_hand s.pusher) s.buffer (v ∷ []))
  Step-IsFifo (close s at) h = h
  Step-IsFifo (wake s at at') h = h ∙ rw at' refl
  Step-IsFifo (miss s at at') h = h
  Step-IsFifo (inspect s at) h = look-IsFifo s.buffer s at refl h
  Step-IsFifo (settle s at) h = h ∙ rw at refl
  Step-IsFifo (deliver v s at) h = h ∙ rw at (sym (append_assoc s.delivered (v ∷ []) s.buffer))
  Step-IsFifo (stop s at at') h = h ∙ rw at refl

  -- In every state that the two routines can reach, what came in is what went out, then what the
  -- pusher has in its hands, then the buffer: nothing is reordered or doubled.
  pub channel_fifo :
      (s : Channel T)
      → Steps T max (open_channel T) s
      → s.received ≡ s.delivered ++ (in_hand s.pusher ++ s.buffer)
  unfolding open_channel
  channel_fifo s here = refl
  channel_fifo s (next r st) = Step-IsFifo st (channel_fifo _ r)

  -- A value can be lost: it comes in between the look of the pusher into the empty buffer and its
  -- wait, so the signal finds no receiver; when `in` is closed both routines return, and the value
  -- stays in the buffer.
  channel_loses :
      (v : T)
      → (s : Channel T) × Steps T max (open_channel T) s
        × (s.puller ≡ returned)
        × (s.pusher ≡ stopped)
        × (s.received ≡ v ∷ [])
        × (s.delivered ≡ [])
  unfolding open_channel pull look
  channel_loses v =
      let s1 = look T [] (open_channel T) in
      let s2 = pull T max v s1 in
      let s3 : Channel T = record s2 { puller = receiving } in
      let s4 : Channel T = record s3 { pusher = waiting } in
      let s5 : Channel T = record s4 { puller = returned } in
      let r1 = next here (inspect (open_channel T) refl) in
      let r2 = next r1 (receive v s1 refl) in
      let r3 = next r2 (miss s2 refl (λ h. cc)) in
      let r4 = next r3 (settle s3 refl) in
      let r5 = next r4 (close s4 refl) in
      (record s5 { pusher = stopped }, next r5 (stop s5 refl refl), refl, refl, refl, refl)

  -- A round of the pusher that finds a value.
  send_one :
      (v : T) (rest : List T) (s : Channel T)
      → s.pusher ≡ looking
      → s.buffer ≡ v ∷ rest
      → (s' : Channel T) × Steps T max s s'
        × (s'.pusher ≡ looking)
        × (s'.buffer ≡ rest)
        × (s'.received ≡ s.received)
        × (s'.delivered ≡ s.delivered ++ (v ∷ []))
  unfolding look
  send_one v rest s at e =
      let s1 = look T (v ∷ rest) s in
      (
        record s1 { pusher = looking; delivered = s.delivered ++ (v ∷ []) },
        next (next here (subst (λ b. Step T max s (look T b s)) e (inspect s at)))
            (deliver v s1 refl),
        refl,
        refl,
        refl,
        refl,
      )

  Steps-trans : {s t u : Channel T} → Steps T max s t → Steps T max t u → Steps T max s u
  Steps-trans r here = r
  Steps-trans r (next q st) = next (Steps-trans r q) st

  drains :
      (b : List T) (s : Channel T)
      → s.pusher ≡ looking
      → s.buffer ≡ b
      → (s' : Channel T) × Steps T max s s'
        × (s'.buffer ≡ [])
        × (s'.received ≡ s.received)
        × (s'.delivered ≡ s.delivered ++ b)
  drains [] s at e = (s, here, e, refl, sym (append-nil s.delivered))
  drains (v ∷ rest) s at e =
      let (s1, r1, at1, e1, in1, out1) = send_one v rest s at e in
      let (s2, r2, e2, in2, out2) = drains rest s1 at1 e1 in
      (
        s2,
        Steps-trans r1 r2,
        e2,
        in2 ∙ in1,
        out2 ∙ ap (λ l. l ++ rest) out1 ∙ append_assoc s.delivered (v ∷ []) rest,
      )

  -- From a state in which the pusher is about to look, its own steps can empty the buffer: all
  -- that came in up to then has gone out.
  channel_drains :
      (s : Channel T)
      → Steps T max (open_channel T) s
      → s.pusher ≡ looking
      → (s' : Channel T) × Steps T max s s'
        × (s'.buffer ≡ [])
        × (s'.received ≡ s.received)
        × (s'.delivered ≡ s.received)
  channel_drains s r at =
      let (s', q, e, same, out) = drains s.buffer s at refl in
      (s', q, e, same, out ∙ sym (channel_fifo s r ∙ rw at refl))
