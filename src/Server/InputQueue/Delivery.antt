-- ===== src/Server/InputQueue/Delivery.antt =====
-- The invariant of the input queue of internal/server/input.go with its writer goroutine.
use mathlib.Core.List.{append_assoc, map-append}
use ng_mux.Prelude.{
  ℕ, ◌+◌, ◌≤◌, ◌≡◌, ◌⊎◌, inl, inr, refl, ap, subst, ◌∙◌, true, false, List, [], ◌∷◌, ◌++◌, some,
  arith, Bytes, Bool, zero, suc, map,
}
use ng_mux.Server.InputQueue.{
  max_pending_input, Queue, Writer, idle, checking, waiting, exited, writing, System, initial,
  total_length, push, run_step, check, close, Step, pushes, runs, signals, closes, Attempt,
  signal_step, Reach, start, next, pending,
}

-- The chunk that the goroutine is writing.
abbrev pub in_flight : Writer → List Bytes
in_flight (writing c) = c ∷ []
in_flight _ = []

-- The chunks that were handed to the pty, with success or without.
abbrev pub chunks_of : List Attempt → List Bytes
chunks_of ts = map (λ t. t.0) ts

-- The goroutine runs exactly from the first push on.
abbrev pub Launched : Queue → Writer → Type 0
Launched q idle = (q.started ≡ false) × (q.chunks ≡ [])
Launched q _ = q.started ≡ true

-- Work finds the goroutine before its test, or with a token to take or one that a caller is about
-- to send; it returns only on a close.
abbrev pub Awake : Queue → ℕ → Writer → Type 0
Awake q n waiting = ((q.chunks ≡ []) × (q.closed ≡ false)) ⊎ (q.wake ≡ true) ⊎ (1 ≤ n)
Awake q n exited = q.closed ≡ true
Awake q n _ = Unit

pub record Inv (s : System) : Type 0 where
  pub counted : pending s ≡ total_length (in_flight s.writer) + total_length s.queue.chunks
  pub bounded : pending s ≤ max_pending_input
  pub in_order :
      (s.queue.closed ≡ true)
      ⊎ (s.accepted ≡ chunks_of s.attempts ++ (in_flight s.writer ++ s.queue.chunks))
  pub launched : Launched s.queue s.writer
  pub awake : Awake s.queue s.signalling s.writer
  pub emptied : (s.queue.closed ≡ false) ⊎ (s.queue.chunks ≡ [])

total_length-append :
    (xs ys : List Bytes) → total_length (xs ++ ys) ≡ total_length xs + total_length ys
total_length-append [] ys = omega arith
total_length-append (x ∷ xs) ys = omega (arith, total_length-append xs ys)

initial-Inv : Inv initial
unfolding pending
initial-Inv = record {
  counted = refl;
  bounded = omega arith;
  in_order = inr refl;
  launched = (refl, refl);
  awake = tt;
  emptied = inl refl;
}

push_in_order :
    (w : Writer) (written chunks accepted : List Bytes) (d : Bytes)
    → accepted ≡ written ++ (in_flight w ++ chunks)
    → accepted ++ d ∷ [] ≡ written ++ (in_flight w ++ (chunks ++ d ∷ []))
push_in_order w written chunks accepted d e = rw e (
    append_assoc written (in_flight w ++ chunks) (d ∷ [])
    ∙ ap (◌++◌ written) (append_assoc (in_flight w) chunks (d ∷ [])))

push-Inv_at :
    (w : Writer) (s : System) (b : ℕ) (d : Bytes) → s.writer ≡ w → Inv s → Inv (push s (b ∷ d)).0
unfolding push pending
push-Inv_at idle s b d e v = ground (
  arith,
  v.in_order,
  push_in_order idle (chunks_of s.attempts) s.queue.chunks s.accepted (b ∷ d),
  total_length-append s.queue.chunks ((b ∷ d) ∷ []),
)
push-Inv_at w s b d e v = ground (
  arith,
  v.in_order,
  push_in_order w (chunks_of s.attempts) s.queue.chunks s.accepted (b ∷ d),
  total_length-append s.queue.chunks ((b ∷ d) ∷ []),
)

push-Inv : (s : System) (d : Bytes) → Inv s → Inv (push s d).0
push-Inv s [] v = unfold push in v
push-Inv s (b ∷ d) v = push-Inv_at s.writer s b d refl v

close-Inv_at : (w : Writer) (s : System) → s.writer ≡ w → Inv s → Inv (close s)
unfolding close pending
close-Inv_at idle s e v = ground arith
close-Inv_at w s e v = ground arith

check-Inv :
    (cs : List Bytes) (s : System)
    → s.writer ≡ checking
    → s.queue.chunks ≡ cs
    → Inv s
    → Inv (check s cs)
unfolding check pending
check-Inv [] s e h v = ground arith
check-Inv (c ∷ cs) s e h v = ground arith

pub run_step-Inv_at :
    (done : Bool) (w : Writer) (s t : System)
    → s.writer ≡ w
    → run_step done w s ≡ some t
    → Inv s
    → Inv t
unfolding run_step pending
run_step-Inv_at done idle s t e h v = absurd (ground arith)
run_step-Inv_at done exited s t e h v = absurd (ground arith)
run_step-Inv_at done checking s t e h v =
    subst Inv (ground arith) (check-Inv s.queue.chunks s e refl v)
run_step-Inv_at done waiting s t e h v = ground arith
run_step-Inv_at done (writing c) s t e h v = ground (
  arith,
  map-append (λ t. t.0) s.attempts ((c, done) ∷ []),
  append_assoc (chunks_of s.attempts) (c ∷ []) s.queue.chunks,
)

signal_step-Inv_at :
    (w : Writer) (n : ℕ) (s t : System)
    → s.writer ≡ w
    → s.signalling ≡ n
    → signal_step n s ≡ some t
    → Inv s
    → Inv t
unfolding signal_step pending
signal_step-Inv_at w zero s t e k h v = absurd (ground arith)
signal_step-Inv_at idle (suc n) s t e k h v = ground arith
signal_step-Inv_at w (suc n) s t e k h v = ground arith

pub signal_step-Inv : (s t : System) → signal_step s.signalling s ≡ some t → Inv s → Inv t
signal_step-Inv s t h v = signal_step-Inv_at s.writer s.signalling s t refl refl h v

Step-Inv : {s t : System} → Step s t → Inv s → Inv t
Step-Inv (pushes s d) v = push-Inv s d v
Step-Inv (runs done s t h) v = run_step-Inv_at done s.writer s t refl h v
Step-Inv (signals s t h) v = signal_step-Inv s t h v
Step-Inv (closes s) v = close-Inv_at s.writer s refl v

-- In every state that any interleaving of push, close, the signals that they send after their
-- critical sections, and the writer goroutine, whose writes may fail, reaches: the size counts
-- the bytes queued or being written and is at most the cap; unless the queue is closed, what was
-- accepted is what was handed to the pty, with success or without, then the chunk being written,
-- then what is queued, in order; the goroutine runs from the first push on, is never blocked
-- with work unless a wake-up is there or a caller has still to send one, and has returned only
-- after a close, which leaves nothing queued.
pub Reach-Inv : {s : System} → Reach s → Inv s
Reach-Inv start = initial-Inv
Reach-Inv (next r st) = Step-Inv st (Reach-Inv r)
