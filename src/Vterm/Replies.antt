-- ===== src/Vterm/Replies.antt =====
-- internal/vterm/reply_queue.go: the replies of a terminal to its child, queued for a goroutine that
-- writes them to the pty, as a state and the steps of the callers and of the goroutine. What the
-- code does under its mutex is one step, and so is each operation on a channel.
pub mod Delivery
use ng_mux.Prelude.{
  ℕ, ◌+◌, ◌≡◌, Bool, true, false, List, [], ◌∷◌, ◌++◌, Option, none, some, ltb, if◌then◌else◌,
  length, Bytes,
}

abbrev pub reply_queue_cap : ℕ
reply_queue_cap = 32

-- Where `run` is: not started, in its select, in a write to the pty, or returned.
pub data Runner : Type 0 where
  not_started selecting exited : Runner
  delivering : Bytes → Runner

-- replyQueue, with `stopped` for a closed stopCh; the goroutine, and whether a write to the pty has
-- failed; the callers of Write between its critical section and its select. Then what the callers
-- did: how many replies they wrote, those that were queued, and those handed to the pty.
pub record ReplyQueue : Type 0 where
  pub started : Bool
  pub closed : Bool
  pub stopped : Bool
  pub channel : List Bytes
  pub dropped : ℕ
  pub runner : Runner
  pub failed : Bool
  pub senders : List Bytes
  pub writes : ℕ
  pub queued : List Bytes
  pub delivered : List Bytes

abbrev pub new_reply_queue : ReplyQueue
new_reply_queue = record {
  started = false;
  closed = false;
  stopped = false;
  channel = [];
  dropped = 0;
  runner = not_started;
  failed = false;
  senders = [];
  writes = 0;
  queued = [];
  delivered = [];
}

abbrev pub drop : ReplyQueue → ReplyQueue
drop q = record q { dropped = q.dropped + 1 }

-- `go q.run` on the first reply.
abbrev pub start : ReplyQueue → ReplyQueue
start q = if q.started then q else record q { started = true; runner = selecting }

-- The critical section of Write.
unfoldable pub write : ReplyQueue → Bytes → ReplyQueue
write q [] = q
write q (b ∷ p) =
    let counted = record q { writes = q.writes + 1 } in
    if q.closed
    then drop counted
    else (let running = start counted in
        record running { senders = running.senders ++ (b ∷ p) ∷ [] })

-- The select of Write.
unfoldable pub offer : ReplyQueue → Bytes → ReplyQueue
offer q p =
    if ltb (length q.channel) reply_queue_cap
    then record q { channel = q.channel ++ p ∷ []; queued = q.queued ++ p ∷ [] }
    else drop q

-- What the goroutine finds: the stop, a reply, a write that succeeds, or one that fails or panics.
pub data Event : Type 0 where
  sees_stop receives writes_out write_fails : Event

unfoldable pub receive : ReplyQueue → List Bytes → Option ReplyQueue
receive q [] = none
receive q (b ∷ bs) =
    some (record q { channel = bs; runner = delivering b; delivered = q.delivered ++ b ∷ [] })

-- The next step of `run` and deliver, if the event can happen there.
unfoldable pub run_on : Event → Runner → ReplyQueue → Option ReplyQueue
run_on sees_stop selecting q = if q.stopped then some (record q { runner = exited }) else none
run_on receives selecting q = receive q q.channel
run_on writes_out (delivering b) q = some (record q { runner = selecting })
run_on write_fails (delivering b) q = some (record q { runner = exited; failed = true })
run_on _ _ q = none

-- close(q.stopCh), which panics when the channel is closed already.
abbrev pub close_stop : ReplyQueue → Option ReplyQueue
close_stop q = if q.stopped then none else some (record q { stopped = true })

-- Close
unfoldable pub close : ReplyQueue → Option ReplyQueue
close q =
    if q.closed
    then some q
    else (let shut = record q { closed = true } in if q.started then close_stop shut else some shut)

pub data Step : ReplyQueue → ReplyQueue → Type 0 where
  writes : (q : ReplyQueue) (p : Bytes) → Step q (write q p)
  offers :
      (q : ReplyQueue) (before : List Bytes) (p : Bytes) (after : List Bytes)
      → q.senders ≡ before ++ p ∷ after
      → Step q (offer (record q { senders = before ++ after }) p)
  runs : (e : Event) (q r : ReplyQueue) → run_on e q.runner q ≡ some r → Step q r
  closes : (q r : ReplyQueue) → close q ≡ some r → Step q r

pub data Reach : ReplyQueue → Type 0 where
  starts : Reach new_reply_queue
  next : {q r : ReplyQueue} → Reach q → Step q r → Reach r
