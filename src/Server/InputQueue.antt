-- ===== src/Server/InputQueue.antt =====
-- internal/server/input.go: a pane's input queue and its writer goroutine, as a state and the steps
-- of push, close and the goroutine. A critical section under the mutex is one step, and so is the
-- signal that push and close send after it. Whether a write to the pty succeeds is left open.
pub mod Delivery
pub mod Draining
use ng_mux.Prelude.{
  ℕ, zero, suc, ◌+◌, ◌-◌, ◌^◌, ◌*◌, ◌≡◌, Bool, true, false, ◌||◌, List, [], ◌∷◌, ◌++◌, Option, none,
  some, ltb, if◌then◌else◌, length, Bytes, or_else,
}

-- 16 << 20
abbrev pub max_pending_input : ℕ
max_pending_input = 16 * 2 ^ 20

-- inputQueue; `wake` is whether the one-place channel holds a token.
pub record Queue : Type 0 where
  pub chunks : List Bytes
  pub size : ℕ
  pub wake : Bool
  pub started : Bool
  pub closed : Bool

abbrev pub zero_queue : Queue
zero_queue = record { chunks = []; size = 0; wake = false; started = false; closed = false }

-- Where `run` is: before its loop test, blocked on the channel, in a write, or returned.
pub data Writer : Type 0 where
  idle checking waiting exited : Writer
  writing : Bytes → Writer

-- A chunk handed to the pty, and whether the write succeeded.
abbrev pub Attempt : Type 0
Attempt = Bytes × Bool

-- The queue with its goroutine, the number of callers of push and close between their critical
-- section and their signal, what push accepted so far, and the writes to the pty that returned.
pub record System : Type 0 where
  pub queue : Queue
  pub writer : Writer
  pub signalling : ℕ
  pub accepted : List Bytes
  pub attempts : List Attempt

abbrev pub initial : System
initial = record { queue = zero_queue; writer = idle; signalling = 0; accepted = []; attempts = [] }

abbrev pub total_length : List Bytes → ℕ
total_length [] = 0
total_length (c ∷ cs) = length c + total_length cs

abbrev pub signal : Queue → Queue
signal q = record q { wake = true }

-- The critical section of push, of data that is not empty: what it does to the queue, and whether
-- the data is accepted.
unfoldable pub push_queue : Queue → Bytes → Queue × Bool
push_queue q d =
    if q.closed || ltb max_pending_input (q.size + length d)
    then (q, false)
    else (record q { chunks = q.chunks ++ d ∷ []; size = q.size + length d; started = true }, true)

-- `go q.run` on the first push.
abbrev pub start_writer : Bool → Writer → Writer
start_writer true w = w
start_writer false w = checking

-- push up to its signal, which is still to come when the data is accepted.
unfoldable pub push : System → Bytes → System × Bool
unfolding push_queue
push s [] = (s, true)
push s (b ∷ d) =
    let (q, done) = push_queue s.queue (b ∷ d) in
    if done
    then (
      record s {
        queue = q;
        writer = start_writer s.queue.started s.writer;
        signalling = s.signalling + 1;
        accepted = s.accepted ++ (b ∷ d) ∷ [];
      },
      true,
    )
    else (s, false)

-- The loop test of `run`, with the mutex held.
unfoldable pub check : System → List Bytes → System
check s [] = if s.queue.closed then record s { writer = exited } else record s { writer = waiting }
check s (c ∷ cs) =
    if s.queue.closed
    then record s { writer = exited }
    else record s { queue = record (s.queue) { chunks = cs }; writer = writing c }

-- One step of the goroutine, where a write that returns has succeeded or failed; `none` while it
-- is blocked on the channel, or has not started or has returned.
unfoldable pub run_step : Bool → Writer → System → Option System
unfolding check
run_step done idle s = none
run_step done exited s = none
run_step done checking s = some (check s s.queue.chunks)
run_step done waiting s =
    if s.queue.wake
    then some (record s { queue = record (s.queue) { wake = false }; writer = checking })
    else none
run_step done (writing c) s = some (record s {
  queue = record (s.queue) { size = s.queue.size - length c };
  writer = checking;
  attempts = s.attempts ++ (c, done) ∷ [];
})

-- A caller sends its signal; `none` if there is none that has it still to send.
unfoldable pub signal_step : ℕ → System → Option System
signal_step zero s = none
signal_step (suc n) s = some (record s { queue = signal s.queue; signalling = n })

-- One or the other, the first that can go on.
abbrev pub first_of : Bool → Option System → Option System → Option System
first_of true a b = or_else a b
first_of false a b = or_else b a

-- A turn of the goroutine or, where it is preferred or the goroutine is blocked, of a caller that has
-- to send its signal.
unfoldable pub turn : Bool → Bool → System → Option System
turn prefer done s = first_of prefer (signal_step s.signalling s) (run_step done s.writer s)

-- At most `n` turns, with any choices and any outcomes of the writes, until nothing can go on.
unfoldable pub run_for : (ℕ → Bool) → (ℕ → Bool) → ℕ → System → System
run_for prefer done zero s = s
run_for prefer done (suc n) s = elim (turn (prefer n) (done n) s) [
  | none ↦ s
  | some t ↦ run_for prefer done n t
]

unfoldable pub pending : System → ℕ
pending s = s.queue.size

-- The critical section of close.
unfoldable pub close_queue : Queue → Queue
close_queue q = record q { closed = true; size = q.size - total_length q.chunks; chunks = [] }

-- close up to its signal, which is still to come if the goroutine was started.
unfoldable pub close : System → System
unfolding close_queue
close s = record s {
  queue = close_queue s.queue;
  signalling = if s.queue.started then s.signalling + 1 else s.signalling;
}

-- Any thread may push or close at any time, and send its signal at any time after that, and the
-- goroutine runs when it can.
pub data Step : System → System → Type 0 where
  pushes : (s : System) (d : Bytes) → Step s (push s d).0
  runs : (done : Bool) (s t : System) → run_step done s.writer s ≡ some t → Step s t
  signals : (s t : System) → signal_step s.signalling s ≡ some t → Step s t
  closes : (s : System) → Step s (close s)

pub data Reach : System → Type 0 where
  start : Reach initial
  next : {s t : System} → Reach s → Step s t → Reach t
