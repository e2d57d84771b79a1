-- ===== src/Vterm/Replies/Delivery.antt =====
-- What becomes of the replies of internal/vterm/reply_queue.go.
use mathlib.Core.List.{append_assoc}
use ng_mux.Prelude.{
  ◌+◌, ◌≡◌, ◌≤◌, ◌⊎◌, refl, arith, true, false, List, [], ◌∷◌, ◌++◌, some, length, length-append,
  Bytes, is_some,
}
use ng_mux.Vterm.Replies.{
  ReplyQueue, new_reply_queue, Runner, not_started, selecting, exited, delivering, reply_queue_cap,
  write, offer, Event, receive, run_on, close, Step, Reach, starts, next,
}
use ng_mux.Vterm.Replies

pub record IsInOrder (q : ReplyQueue) : Type 0 where
  pub ordered : q.delivered ++ q.channel ≡ q.queued
  pub room : length q.channel ≤ reply_queue_cap
  pub counted : length q.queued + q.dropped + length q.senders ≡ q.writes
  pub unstarted :
      (q.started ≡ true) ⊎ ((q.runner ≡ not_started) × (q.channel ≡ []) × (q.senders ≡ []))
  pub stopped_once : (q.stopped ≡ false) ⊎ (q.closed ≡ true)
  pub exits : q.runner ≡ exited → (q.stopped ≡ true) ⊎ (q.failed ≡ true)

initial-IsInOrder : IsInOrder new_reply_queue
initial-IsInOrder = ground arith

write-IsInOrder : (q : ReplyQueue) (p : Bytes) → IsInOrder q → IsInOrder (write q p)
unfolding write
write-IsInOrder q [] v = v
write-IsInOrder q (b ∷ p) v = ground (arith, length-append q.senders ((b ∷ p) ∷ []))

offer-IsInOrder :
    (q : ReplyQueue) (before : List Bytes) (p : Bytes) (after : List Bytes)
    → q.senders ≡ before ++ p ∷ after
    → IsInOrder q
    → IsInOrder (offer (record q { senders = before ++ after }) p)
unfolding offer
offer-IsInOrder q before p after e v = ground (
  arith,
  length-append before (p ∷ after),
  length-append before after,
  length-append q.channel (p ∷ []),
  length-append q.queued (p ∷ []),
  append_assoc q.delivered q.channel (p ∷ []),
)

receive-IsInOrder :
    (q r : ReplyQueue) (bs : List Bytes)
    → q.runner ≡ selecting
    → q.channel ≡ bs
    → receive q bs ≡ some r
    → IsInOrder q
    → IsInOrder r
unfolding receive
receive-IsInOrder q r [] i e h v = absurd (ground arith)
receive-IsInOrder q r (b ∷ bs) i e h v = ground (arith, append_assoc q.delivered (b ∷ []) bs)

run_on-IsInOrder_at :
    (e : Event) (w : Runner) (q r : ReplyQueue)
    → q.runner ≡ w
    → run_on e w q ≡ some r
    → IsInOrder q
    → IsInOrder r
unfolding run_on
run_on-IsInOrder_at Replies.sees_stop selecting q r i h v = ground arith
run_on-IsInOrder_at Replies.receives selecting q r i h v =
    receive-IsInOrder q r q.channel i refl h v
run_on-IsInOrder_at Replies.writes_out (delivering b) q r i h v = ground arith
run_on-IsInOrder_at Replies.write_fails (delivering b) q r i h v = ground arith
run_on-IsInOrder_at e w q r i h v = absurd (ground arith)

close-IsInOrder : (q r : ReplyQueue) → close q ≡ some r → IsInOrder q → IsInOrder r
unfolding close
close-IsInOrder q r h v = ground arith

close-returns : (q : ReplyQueue) → IsInOrder q → is_some (close q) ≡ true
unfolding close
close-returns q v = ground arith

Step-IsInOrder : {q r : ReplyQueue} → Step q r → IsInOrder q → IsInOrder r
Step-IsInOrder (Replies.writes q p) v = write-IsInOrder q p v
Step-IsInOrder (Replies.offers q before p after e) v = offer-IsInOrder q before p after e v
Step-IsInOrder (Replies.runs e q r h) v = run_on-IsInOrder_at e q.runner q r refl h v
Step-IsInOrder (Replies.closes q r h) v = close-IsInOrder q r h v

Reach-IsInOrder_alone : {q : ReplyQueue} → Reach q → IsInOrder q
Reach-IsInOrder_alone starts = initial-IsInOrder
Reach-IsInOrder_alone (next r st) = Step-IsInOrder st (Reach-IsInOrder_alone r)

-- In every state that any interleaving of writers of replies, Close and the delivering goroutine
-- reaches: the replies that were queued are those handed to the pty and then those in the
-- channel, in order; the channel has at most 32; each reply written is queued, dropped and
-- counted, or still with its caller; before the first reply there is no goroutine and nothing in
-- the channel; the goroutine has returned only after a stop or a failed write; and Close never
-- closes the stop channel twice.
pub Reach-IsInOrder : {q : ReplyQueue} → Reach q → IsInOrder q × (is_some (close q) ≡ true)
Reach-IsInOrder r = let v = Reach-IsInOrder_alone r in (v, close-returns _ v)
