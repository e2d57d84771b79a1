-- ===== src/Server/Client.antt =====
-- internal/server/client.go: an attached client, its queue of control messages and its mailbox of
-- one frame, and the goroutine that writes both. The painting of frames is internal/render, which
-- stands here as a parameter. A critical section under the mutex is one step.
pub mod Writing
use ng_mux.Prelude.{
  ℕ, ◌+◌, ◌≡◌, ◌<◌, ◌≤◌, Bool, true, false, not, ◌&&◌, ◌||◌, List, [], ◌∷◌, ◌++◌, Option, none,
  some, if◌then◌else◌, length, ltb, is_some, Bytes,
}
use ng_mux.Prelude.Int.{ℤ, pos}
use ng_mux.Protocol.{Message}

-- What the mailbox uses of internal/render: frames, Paint, which makes the bytes that turn what
-- the first frame shows (nothing, if there is none) into the second, and the passthrough marker.
pub record Render : Type 1 where
  pub Frame : Type 0
  pub blank : Frame
  pub paint : Option Frame → Frame → Bytes
  pub stamp_passthrough : Frame → Frame

abbrev pub ctrl_queue_size : ℕ
ctrl_queue_size = 64

-- client; `ready` is whether the one-place channel frameReady holds a token, and an empty frame is
-- never pending.
pub record Client (Frame : Type 0) : Type 0 where
  pub ctrl : List Message
  pub ready : Bool
  pub closed : Bool
  pub draining : Bool
  pub pending : Option Bytes
  pub busy : Bool
  pub shown : Frame
  pub has_shown : Bool
  pub stale : Bool
  pub sess : Bytes
  pub cols : ℤ
  pub rows : ℤ
  pub passthrough : Bool

module _ {Frame : Type 0} where
  unfoldable pub new_client : Frame → Bytes → Client Frame
  new_client blank session = record {
    ctrl = [];
    ready = false;
    closed = false;
    draining = false;
    pending = none;
    busy = false;
    shown = blank;
    has_shown = false;
    stale = false;
    sess = session;
    cols = pos 0;
    rows = pos 0;
    passthrough = false;
  }

  unfoldable pub set_session : Client Frame → Bytes → Client Frame
  set_session c name = record c { sess = name; has_shown = false }

  unfoldable pub set_size : Client Frame → ℤ → ℤ → Client Frame
  set_size c cols rows = record c { cols = cols; rows = rows }

  unfoldable pub reset : Client Frame → Client Frame
  reset c = record c { has_shown = false }

  unfoldable pub needs_frame : Client Frame → Bool
  needs_frame c = not c.has_shown || c.stale

  unfoldable pub set_passthrough : Client Frame → Bool → Client Frame
  set_passthrough c true =
      if c.passthrough then c else record c { passthrough = true; stale = true }
  set_passthrough c false =
      if c.passthrough then record c { passthrough = false; stale = true } else c

  -- takeFrame
  unfoldable pub take_frame : Client Frame → Client Frame × Option Bytes
  take_frame c = (record c { pending = none; busy = is_some c.pending }, c.pending)

  unfoldable pub frame_written : Client Frame → Client Frame
  frame_written c = record c { busy = false }

  -- trySend
  unfoldable pub try_send : Client Frame → Message → Client Frame × Bool
  try_send c m =
      if ltb (length c.ctrl) ctrl_queue_size
      then (record c { ctrl = c.ctrl ++ m ∷ [] }, true)
      else (c, false)

  unfoldable pub close : Client Frame → Client Frame
  close c = record c { closed = true }

module _ (r : Render) where
  open r use {Frame, paint, stamp_passthrough}

  -- The last frame handed over, if the next one is to be a difference to it.
  unfoldable pub base : Client Frame → Option Frame
  base c = if c.has_shown then some c.shown else none

  unfoldable pub to_show : Client Frame → Frame → Frame
  to_show c frame = if c.passthrough then stamp_passthrough frame else frame

  unfoldable pub post : Client Frame → Bytes → Client Frame
  post c [] = c
  post c (b ∷ d) = record c { pending = some (b ∷ d); ready = true }

  -- offerFrame
  unfoldable pub offer_frame : Client Frame → Frame → Client Frame
  offer_frame c frame =
      if is_some c.pending || c.busy
      then record c { stale = true }
      else post (record c { shown = to_show c frame; has_shown = true; stale = false })
          (paint (base c) (to_show c frame))
