-- ===== src/Server/Client/Writing.antt =====
-- The writer goroutine of internal/server/client.go, with all that the rest of the daemon does to a
-- client, as the steps of a system.
pub mod Frames
use ng_mux.Prelude.{
  Bool, true, false, List, [], ◌∷◌, ◌++◌, Option, none, some, ◌≡◌, if◌then◌else◌, ◌||◌, is_some,
  Bytes,
}
use ng_mux.Protocol.{Message}
use ng_mux.Server.Client.{
  Render, Client, new_client, set_session, reset, set_passthrough, take_frame, frame_written,
  try_send, close, offer_frame, base, to_show,
}

-- Where writeLoop is: at its first select, at its second, behind a token of frameReady, in a write
-- of a frame or of a control message, in flushCtrl, or returned.
pub data Writer : Type 0 where
  selecting polling taking flushing exited : Writer
  writing : Bytes → Writer
  replying : Message → Writer
  flushing_out : Message → Writer

-- Which ready case the second select picks.
pub data Pick : Type 0 where
  by_close by_drain by_ctrl by_frame : Pick

module _ (r : Render) where
  open r use {Frame}

  -- The client with its writer; newest first, what each frame that was painted was painted on; and
  -- what is on the wire.
  pub record System : Type 0 where
    pub client : Client Frame
    pub writer : Writer
    pub painted : List (Option Frame × Frame)
    pub sent : List Bytes
    pub replied : List Message

  abbrev pub initial : Bytes → System
  initial name = record {
    client = new_client r.blank name;
    writer = selecting;
    painted = [];
    sent = [];
    replied = [];
  }

  unfoldable pub offer : System → Frame → System
  offer s frame = record s {
    client = offer_frame r s.client frame;
    painted =
        if is_some s.client.pending || s.client.busy
        then s.painted
        else (base r s.client, to_show r s.client frame) ∷ s.painted;
  }

  -- A control message taken from the queue.
  pub pop_ctrl : (Message → Writer) → Writer → List Message → System → System
  pop_ctrl next otherwise [] s = record s { writer = otherwise }
  pop_ctrl next otherwise (m ∷ ms) s = record s {
    client = record (s.client) { ctrl = ms };
    writer = next m;
  }

  -- The second select; `none` where the case that it picks is not ready.
  pub poll : Pick → System → Option System
  poll by_close s = if s.client.closed then some (record s { writer = exited }) else none
  poll by_drain s = if s.client.draining then some (record s { writer = flushing }) else none
  poll by_ctrl s = elim (s.client.ctrl) [
    | [] ↦ none
    | m ∷ ms ↦ some (record s { client = record (s.client) { ctrl = ms }; writer = replying m })
  ]
  poll by_frame s =
      if s.client.ready
      then some (record s { client = record (s.client) { ready = false }; writer = taking })
      else none

  pub after_take : Option Bytes → Writer
  after_take none = selecting
  after_take (some d) = writing d

  -- One step of writeLoop, with what its select picks and whether its write succeeds.
  unfoldable pub run_step : Writer → Pick → Bool → System → Option System
  run_step selecting pick done s = some (pop_ctrl replying polling s.client.ctrl s)
  run_step polling pick done s = poll pick s
  run_step taking pick done s =
      some (record s { client = (take_frame s.client).0; writer = after_take s.client.pending })
  run_step (writing d) pick true s =
      some
        (record s { client = frame_written s.client; writer = selecting; sent = s.sent ++ d ∷ [] })
  run_step (writing d) pick false s =
      some (record s { client = frame_written (close s.client); writer = exited })
  run_step (replying m) pick true s =
      some (record s { writer = selecting; replied = s.replied ++ m ∷ [] })
  run_step (replying m) pick false s = some (record s { client = close s.client; writer = exited })
  run_step flushing pick done s = some (pop_ctrl flushing_out exited s.client.ctrl s)
  run_step (flushing_out m) pick true s =
      some (record s { writer = flushing; replied = s.replied ++ m ∷ [] })
  run_step (flushing_out m) pick false s =
      some (record s { client = close s.client; writer = exited })
  run_step exited pick done s = none

  -- The broadcaster offers frames, the other goroutines reset, queue and close, and the writer runs
  -- when it can, in any order.
  pub data Step : System → System → Type 0 where
    offers : (s : System) (frame : Frame) → Step s (offer s frame)
    resets : (s : System) → Step s (record s { client = reset s.client })
    switches :
        (s : System) (name : Bytes) → Step s (record s { client = set_session s.client name })
    passes : (s : System) (on : Bool) → Step s (record s { client = set_passthrough s.client on })
    sends : (s : System) (m : Message) → Step s (record s { client = (try_send s.client m).0 })
    closes : (s : System) → Step s (record s { client = close s.client })
    drains : (s : System) → Step s (record s { client = record (s.client) { draining = true } })
    runs :
        (s t : System) (pick : Pick) (done : Bool)
        → run_step s.writer pick done s ≡ some t
        → Step s t

  pub data Reach (name : Bytes) : System → Type 0 where
    start : Reach name (initial name)
    next : {s t : System} → Reach name s → Step s t → Reach name t
