-- ===== src/Server/Client/Writing/Frames.antt =====
-- The frames that reach a client of internal/server/client.go.
use mathlib.Core.List.{append_assoc, append-nil}
use ng_mux.Prelude.{
  Bool, true, false, List, [], ◌∷◌, ◌++◌, Option, none, some, ◌≡◌, ◌⊎◌, inl, inr, refl, ◌||◌,
  is_some, Bytes, arith, Bool-cases, subst,
}
use ng_mux.Protocol.{Message}
use ng_mux.Server.Client.{
  Render, new_client, set_session, reset, set_passthrough, take_frame, frame_written, try_send,
  close, offer_frame, base, to_show, post,
}
use ng_mux.Server.Client.Writing.{
  Writer, selecting, polling, taking, flushing, exited, writing, replying, flushing_out, Pick,
  by_close, by_drain, by_ctrl, by_frame, System, initial, offer, pop_ctrl, poll, after_take,
  run_step, Step, offers, resets, switches, passes, sends, closes, drains, runs, Reach, start, next,
}

-- The frame that the writer is putting on the wire.
abbrev pub in_flight : Writer → List Bytes
in_flight (writing d) = d ∷ []
in_flight _ = []

abbrev pub is_writing : Writer → Bool
is_writing (writing d) = true
is_writing _ = false

abbrev pub one_frame : Option Bytes → List Bytes
one_frame none = []
one_frame (some d) = d ∷ []

abbrev pub non_empty : Bytes → List Bytes
non_empty [] = []
non_empty (b ∷ d) = (b ∷ d) ∷ []

some_injective {ℓ} : {A : Type ℓ} {x y : A} → some x ≡ some y → x ≡ y
some_injective h = ground arith

quiet : (w : Writer) → is_writing w ≡ false → in_flight w ≡ []
quiet (writing d) h = absurd (ground arith)
quiet selecting h = refl
quiet polling h = refl
quiet taking h = refl
quiet flushing h = refl
quiet exited h = refl
quiet (replying m) h = refl
quiet (flushing_out m) h = refl

module _ (r : Render) where
  open r use {Frame, paint}

  abbrev pub newest : List (Option Frame × Frame) → Option Frame
  newest [] = none
  newest ((base, frame) ∷ older) = some frame

  -- Each frame is painted on nothing, or on the one painted just before it.
  abbrev pub Linked : List (Option Frame × Frame) → Type 0
  Linked [] = Unit {0}
  Linked ((base, frame) ∷ older) = ((base ≡ none) ⊎ (base ≡ newest older)) × Linked older

  -- The bytes of what was painted, oldest first; where nothing differs there are none.
  pub stream : List (Option Frame × Frame) → List Bytes
  stream [] = []
  stream ((base, frame) ∷ older) = stream older ++ non_empty (paint base frame)

  pub record InStep (s : System r) : Type 0 where
    pub linked : Linked s.painted
    pub on_shown : (s.client.has_shown ≡ false) ⊎ (newest s.painted ≡ some s.client.shown)
    pub delivered :
        (s.client.closed ≡ true)
        ⊎ (stream s.painted ≡ s.sent ++ (in_flight s.writer ++ one_frame s.client.pending))
    pub busy_writing : s.client.busy ≡ is_writing s.writer
    pub one_at_a_time : (s.client.pending ≡ none) ⊎ (s.client.busy ≡ false)
    pub awake : (s.client.pending ≡ none) ⊎ ((s.client.ready ≡ true) ⊎ (s.writer ≡ taking))

  initial-InStep : (name : Bytes) → InStep (initial r name)
  unfolding stream new_client
  initial-InStep name = record {
    linked = tt;
    on_shown = inl refl;
    delivered = inr refl;
    busy_writing = refl;
    one_at_a_time = inl refl;
    awake = inl refl;
  }

  offered : System r → Frame → Bytes → System r
  offered s frame d = record s {
    client = post r (record (s.client) { shown = frame; has_shown = true; stale = false }) d;
    painted = (base r s.client, frame) ∷ s.painted;
  }

  offered-InStep :
      (s : System r) (frame : Frame) (d : Bytes)
      → paint (base r s.client) frame ≡ d
      → (is_some s.client.pending || s.client.busy) ≡ false
      → InStep s
      → InStep (offered s frame d)
  unfolding offered post base stream
  offered-InStep s frame [] e idle v =
      ground (arith, v.on_shown, v.delivered, append-nil (stream s.painted), quiet s.writer)
  offered-InStep s frame (b ∷ d) e idle v = ground (
    arith,
    v.on_shown,
    v.delivered,
    append_assoc s.sent [] ((b ∷ d) ∷ []),
    append-nil s.sent,
    quiet s.writer,
  )

  skipped-InStep :
      (s : System r) → InStep s → InStep (record s { client = record (s.client) { stale = true } })
  skipped-InStep s v = ground arith

  offer-InStep : (s : System r) (frame : Frame) → InStep s → InStep (offer r s frame)
  unfolding offer offer_frame
  offer-InStep s frame v = elim (Bool-cases (is_some s.client.pending || s.client.busy)) [
    | inl e ↦ rw e (skipped-InStep s v)
    | inr e ↦ rw e (unfold offered in offered-InStep s (to_show r s.client frame) _ refl e v)
  ]

  select-InStep :
      (ctrl : List Message) (s : System r)
      → s.writer ≡ selecting
      → InStep s
      → InStep (pop_ctrl r replying polling ctrl s)
  unfolding pop_ctrl
  select-InStep [] s e v = ground arith
  select-InStep (m ∷ ms) s e v = ground arith

  flush-InStep :
      (ctrl : List Message) (s : System r)
      → s.writer ≡ flushing
      → InStep s
      → InStep (pop_ctrl r flushing_out exited ctrl s)
  unfolding pop_ctrl
  flush-InStep [] s e v = ground arith
  flush-InStep (m ∷ ms) s e v = ground arith

  take-InStep :
      (d : Option Bytes) (s : System r)
      → s.client.pending ≡ d
      → s.writer ≡ taking
      → InStep s
      → InStep (record s {
        client = record (s.client) { pending = none; busy = is_some d };
        writer = after_take r d;
      })
  unfolding after_take
  take-InStep none s p e v = ground arith
  take-InStep (some d) s p e v = ground arith

  poll-InStep :
      (pick : Pick) (s t : System r)
      → s.writer ≡ polling
      → poll r pick s ≡ some t
      → InStep s
      → InStep t
  unfolding poll
  poll-InStep by_close s t e h v = ground arith
  poll-InStep by_drain s t e h v = ground arith
  poll-InStep by_ctrl s t e h v = ground arith
  poll-InStep by_frame s t e h v = ground arith

  run_step-InStep :
      (w : Writer) (pick : Pick) (done : Bool) (s t : System r)
      → s.writer ≡ w
      → run_step r w pick done s ≡ some t
      → InStep s
      → InStep t
  unfolding run_step take_frame
  run_step-InStep selecting pick done s t e h v =
      subst InStep (ground arith) (select-InStep s.client.ctrl s e v)
  run_step-InStep polling pick done s t e h v = poll-InStep pick s t e h v
  run_step-InStep taking pick done s t e h v =
      subst InStep (some_injective h) (take-InStep s.client.pending s refl e v)
  run_step-InStep (writing d) pick true s t e h v =
      unfold frame_written in
      ground (arith, v.delivered, append_assoc s.sent (d ∷ []) (one_frame s.client.pending))
  run_step-InStep (writing d) pick false s t e h v = unfold frame_written close in ground arith
  run_step-InStep (replying m) pick true s t e h v = ground arith
  run_step-InStep (replying m) pick false s t e h v = unfold close in ground arith
  run_step-InStep flushing pick done s t e h v =
      subst InStep (ground arith) (flush-InStep s.client.ctrl s e v)
  run_step-InStep (flushing_out m) pick true s t e h v = ground arith
  run_step-InStep (flushing_out m) pick false s t e h v = unfold close in ground arith
  run_step-InStep exited pick done s t e h v = absurd (ground arith)

  Step-InStep : {s t : System r} → Step r s t → InStep s → InStep t
  Step-InStep (offers s frame) v = offer-InStep s frame v
  Step-InStep (resets s) v = unfold reset in ground arith
  Step-InStep (switches s name) v = unfold set_session in ground arith
  Step-InStep (passes s true) v = unfold set_passthrough in ground arith
  Step-InStep (passes s false) v = unfold set_passthrough in ground arith
  Step-InStep (sends s m) v = unfold try_send in ground arith
  Step-InStep (closes s) v = unfold close in ground arith
  Step-InStep (drains s) v = ground arith
  Step-InStep (runs s t pick done h) v = run_step-InStep s.writer pick done s t refl h v

  -- In every state that the broadcaster, the other goroutines and the writer reach, in any
  -- order: each frame is painted on nothing or on the frame painted just before it, which is the
  -- one that the client is taken to show, unless a full repaint is due; while the connection is
  -- open, what was painted is, in order and with nothing left out, what was written, the frame
  -- being written and the frame in the mailbox; there is never both a frame in the mailbox and
  -- one being written; and a frame in the mailbox has a token waiting, or the writer has just
  -- taken it.
  pub Reach-InStep : {name : Bytes} {s : System r} → Reach r name s → InStep s
  Reach-InStep {name} start = initial-InStep name
  Reach-InStep (next before st) = Step-InStep st (Reach-InStep before)
