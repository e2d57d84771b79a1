-- ===== src/Server/InputQueue/Draining.antt =====
-- The writer goroutine of internal/server/input.go and the signals under way, when they are left to
-- run.
use ng_mux.Prelude.{
  ℕ, ◌+◌, ◌*◌, ◌<◌, ◌≡◌, ◌⊎◌, Bool, true, false, List, [], Bytes, if◌then◌else◌, length,
}
use ng_mux.Server.InputQueue.{
  Queue, Writer, idle, checking, waiting, exited, writing, System, pending,
}
use ng_mux.Server.InputQueue.Delivery.{Inv, chunks_of}

-- A bound on the steps left: two for each chunk, what the writer and a token still take, and three
-- for each signal to come.
rank : Writer → Bool → ℕ
rank idle wake = 0
rank exited wake = 0
rank checking wake = 1 + (if wake then 2 else 0)
rank waiting wake = if wake then 2 else 0
rank (writing c) wake = 2 + (if wake then 2 else 0)

steps_left : System → ℕ
steps_left s = 2 * length s.queue.chunks + rank s.writer s.queue.wake + 3 * s.signalling

-- What a turn leaves alone.
abbrev Keeps : System → System → Type 0
Keeps s t =
    (t.accepted ≡ s.accepted)
    × (t.queue.closed ≡ s.queue.closed)
    × (t.queue.started ≡ s.queue.started)

-- A turn is a step of the goroutine or a signal.
record IsTurn (s t : System) : Type 0 where
  kept : Keeps s t
  shorter : steps_left t < steps_left s
  still : Inv s → Inv t

-- The outcome when nothing can go on.
abbrev Outcome : List Bytes → Queue → System → Type 0
Outcome accepted q t =
    ((q.closed ≡ false) × (chunks_of t.attempts ≡ accepted) × (pending t ≡ 0))
    ⊎ ((q.closed ≡ true) × ((t.writer ≡ exited) ⊎ (q.started ≡ false)) × (t.queue.chunks ≡ []))
