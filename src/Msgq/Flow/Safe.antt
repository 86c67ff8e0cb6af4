-- ===== src/Msgq/Flow/Safe.antt =====
-- No call on a queue reads or writes outside the extent, a message or a buffer, however the tasks are
-- interleaved. This is about the accesses that a call makes while it holds queue_lock, and the sum of its
-- deadline: the loop of waitToSend, which does not hold it, touches no message, and what it does with
-- qfull_lock is not modelled.
use cross_compile.Base.{ℕ, ◌<◌, ◌≤◌, ◌≡◌, Bool, true, some, List, length}
use cross_compile.Errno.{Wait, RetCode}
use cross_compile.Clock.{Timeval}
use cross_compile.Msgq.Types.{Queues}
use cross_compile.Msgq.Send.{Sending, msg_q_send, send_finish}
use cross_compile.Msgq.Receive.{Receiving, msg_q_receive, receive_woken, receive_after_nap}
use cross_compile.Msgq.Flow.{Event, Flow, still, flows}
use cross_compile.Msgq.Flow.Bounds.{Bounded, Moved-Bounded}
use cross_compile.Msgq.Flow.Refine.{QueueStep-Moved}
use cross_compile.Msgq.Flow.Gives.{
  gives, IsShort, gives-msg_q_send, gives-send_finish, gives-receive_woken, gives-receive_after_nap,
  gives-msg_q_receive,
}

-- A call on a queue, from its start or from a point where it was waiting and has queue_lock again.
pub data Call : Type 0 where
  sending : ℕ → Timeval → List ℕ → ℕ → Wait → Bool → Call
  finishing : ℕ → Sending → Call
  receiving : ℕ → Timeval → List ℕ → ℕ → Wait → Call
  waking : ℕ → RetCode → Receiving → Call
  rising : ℕ → Timeval → Receiving → Call

-- Whether the accesses of the call's next step are inside, and the sum of its deadline does not overflow.
abbrev pub stays_inside : Queues → ℕ → Call → Bool
stays_inside w k (sending me now msg msglen wait urgent) =
    gives (msg_q_send w me now k (some msg) msglen wait urgent)
stays_inside w k (finishing me c) = gives (send_finish w me c)
stays_inside w k (receiving me now buf buflen wait) =
    gives (msg_q_receive w me now k (some buf) buflen wait)
stays_inside w k (waking me rc c) = gives (receive_woken w me rc c)
stays_inside w k (rising me now c) = gives (receive_after_nap w me now c)

-- What a receiver that waits has: a buffer for the longest message.
abbrev pub HasBuffer : ℕ → ℕ → Receiving → Type 0
HasBuffer k size c = (c.queue ≡ k) × (buf : List ℕ) × (c.msgbuf ≡ some buf) × (size ≤ length buf)

-- The message and the buffer are as long as the call says, and a call that waits on queue `k` has
-- passed the tests at its start.
abbrev pub IsProper : ℕ → ℕ → Call → Type 0
IsProper k size (sending me now msg msglen wait urgent) = (msglen ≤ length msg) × IsShort wait
IsProper k size (finishing me c) =
    (c.queue ≡ k)
    × (c.msglen ≤ size)
    × (msg : List ℕ) × (c.msg ≡ some msg)
    × (c.msglen ≤ length msg)
IsProper k size (receiving me now buf buflen wait) = (buflen ≤ length buf) × IsShort wait
IsProper k size (waking me rc c) = HasBuffer k size c
IsProper k size (rising me now c) = HasBuffer k size c

call_stays_inside :
    (w : Queues) (k : ℕ) {size : ℕ} (call : Call)
    → 0 < size
    → Bounded size (w.qcb k)
    → IsProper k size call
    → stays_inside w k call ≡ true
call_stays_inside w k (sending me now msg n wait u) bytes b (avail, short) =
    gives-msg_q_send w bytes me now k msg n wait u b avail short
call_stays_inside w k {size = size} (finishing me c) bytes b (ek, small, msg, em, avail) =
    gives-send_finish w bytes me c msg (coe 1 0 (i. Bounded size (w.qcb (ek i))) b) small em avail
call_stays_inside w k (receiving me now buf n wait) bytes b (avail, short) =
    gives-msg_q_receive w bytes me now k buf n wait b avail short
call_stays_inside w k {size = size} (waking me rc c) bytes b (ek, buf, em, big) =
    gives-receive_woken w bytes me rc c buf (coe 1 0 (i. Bounded size (w.qcb (ek i))) b) em big
call_stays_inside w k {size = size} (rising me now c) bytes b (ek, buf, em, big) =
    gives-receive_after_nap w bytes me now c buf (coe 1 0 (i. Bounded size (w.qcb (ek i))) b) em big

Flow-Bounded :
    {size k : ℕ} {w v : Queues} {es : List Event}
    → Flow k w es v
    → 0 < size
    → Bounded size (w.qcb k)
    → Bounded size (v.qcb k)
Flow-Bounded still bytes b = b
Flow-Bounded (flows step rest) bytes b =
    Flow-Bounded rest bytes (Moved-Bounded bytes b (QueueStep-Moved step))

-- However the calls of the tasks are interleaved, and even where waiting writers overrun the
-- queue, the next step under queue_lock of any call reads and writes the bytes of messages only inside
-- the extent, the caller's message and the caller's buffer, and computes its deadline without an
-- overflow. The messages have bytes, the message and the buffer of the call are as long as it says, a call
-- that waited has passed the tests at its start, and a timed wait is shorter than 214749 ticks.
pub Flow-stays_inside :
    {size k : ℕ} {w v : Queues} {es : List Event} (call : Call)
    → Flow k w es v
    → 0 < size
    → Bounded size (w.qcb k)
    → IsProper k size call
    → stays_inside v k call ≡ true
Flow-stays_inside call f bytes b proper =
    call_stays_inside _ _ call bytes (Flow-Bounded f bytes b) proper
