-- ===== src/Msgq/Flow.antt =====
-- lib/lmsgQLib.c: one queue, from its creation to its end, under the calls of any number of tasks. A
-- step is the part of a call of one task between two points where other tasks can run, so that a
-- sequence of steps is an interleaving of calls. A step has the event that it is for the messages. The
-- callers' messages and buffers are as long as the calls say, and are not NULL.
pub mod Deque
pub mod Moves
pub mod Makes
pub mod Sends
pub mod Receives
pub mod Bounds
pub mod Refine
pub mod Gives
pub mod Safe
use cross_compile.Base.{
  ℕ, ◌≤◌, ◌≡◌, Bool, true, false, some, List, [], ◌∷◌, ◌++◌, leb, if◌then◌else◌, length, take,
  Option,
}
use cross_compile.Errno.{Result, ok, error, Wait, RetCode}
use cross_compile.Clock.{Timeval}
use cross_compile.Msgq.Types.{Slot, Mqueue, Queues}
use cross_compile.Msgq.Ring.Valid.{RingInv, contents}
use cross_compile.Msgq.Send
use cross_compile.Msgq.Send.{Sending, SendAt, send_finish, msg_q_send}
use cross_compile.Msgq.Receive
use cross_compile.Msgq.Receive.{
  Receiving, ReceiveAt, receive_after_nap, receive_woken, msg_q_receive,
}
use cross_compile.Msgq.Delete.{DeleteAt, msg_q_delete, delete_woken}

-- A message went in with an element free for it, or without one; a message came out; or neither.
pub data Event : Type 0 where
  quiet : Event
  sent : Bool → List ℕ → Event
  overran : Bool → List ℕ → Event
  got : List ℕ → Event

abbrev pub overruns : Event → Bool
overruns (overran urgent m) = true
overruns e = false

-- The event of a send that posts at once, if it returns OK.
abbrev pub sent_by : Bool → List ℕ → SendAt → Event
sent_by urgent m (Send.returned (ok u)) = sent urgent m
sent_by urgent m _ = quiet

-- The event of a send that had to wait. The queue is the one that it finds.
abbrev pub posted_by : Mqueue → Bool → List ℕ → Result (Unit {0}) → Event
posted_by q urgent m (ok u) =
    if leb q.msg_count q.msgs_per_queue then sent urgent m else overran urgent m
posted_by q urgent m (error e) = quiet

-- What a receiver has got is at the start of its buffer.
abbrev pub fetched : Result ℕ → Option (List ℕ) → Event
fetched (ok n) (some out) = got (take n out)
fetched _ _ = quiet

abbrev pub got_by : ReceiveAt → Event
got_by (Receive.returned r) = fetched r.msglen r.buffer
got_by _ = quiet

-- The part of a control block that the messages are in.
pub record Core : Type 0 where
  pub extent : List Slot
  pub queue_head : ℕ
  pub queue_tail : ℕ
  pub msg_count : ℕ
  pub msgs_per_queue : ℕ
  pub msg_len : ℕ

abbrev pub core : Mqueue → Core
core q = record {
  extent = q.extent;
  queue_head = q.queue_head;
  queue_tail = q.queue_tail;
  msg_count = q.msg_count;
  msgs_per_queue = q.msgs_per_queue;
  msg_len = q.msg_len;
}

-- A step that some task makes in a call on queue `k`, with its event. A call that has waited knows
-- the message and the buffer that it was made with. `elsewhere` is any other step of the program.
pub data QueueStep (k : ℕ) : Queues → Event → Queues → Type 0 where
  sends :
      {w v : Queues} (me : ℕ) (now : Timeval) (msg : List ℕ) (msglen : ℕ) (wait : Wait)
      (urgent : Bool) (at : SendAt)
      → msglen ≤ length msg
      → msg_q_send w me now k (some msg) msglen wait urgent ≡ some (v, at)
      → QueueStep k w (sent_by urgent (take msglen msg) at) v
  finishes :
      {w v : Queues} (me : ℕ) (c : Sending) (msg : List ℕ) (r : Result (Unit {0}))
      → c.queue ≡ k
      → c.msg ≡ some msg
      → c.msglen ≤ length msg
      → c.msglen ≤ (w.qcb k).msg_len
      → send_finish w me c ≡ some (v, r)
      → QueueStep k w (posted_by (w.qcb k) c.urgent (take c.msglen msg) r) v
  receives :
      {w v : Queues} (me : ℕ) (now : Timeval) (buf : List ℕ) (buflen : ℕ) (wait : Wait)
      (at : ReceiveAt)
      → buflen ≤ length buf
      → msg_q_receive w me now k (some buf) buflen wait ≡ some (v, at)
      → QueueStep k w (got_by at) v
  wakes :
      {w v : Queues} (me : ℕ) (rc : RetCode) (c : Receiving) (buf : List ℕ) (at : ReceiveAt)
      → c.queue ≡ k
      → c.msgbuf ≡ some buf
      → (w.qcb k).msg_len ≤ length buf
      → receive_woken w me rc c ≡ some (v, at)
      → QueueStep k w (got_by at) v
  naps :
      {w v : Queues} (me : ℕ) (now : Timeval) (c : Receiving) (buf : List ℕ) (at : ReceiveAt)
      → c.queue ≡ k
      → c.msgbuf ≡ some buf
      → (w.qcb k).msg_len ≤ length buf
      → receive_after_nap w me now c ≡ some (v, at)
      → QueueStep k w (got_by at) v
  deletes : {w v : Queues} (at : DeleteAt) → msg_q_delete w k ≡ (v, at) → QueueStep k w quiet v
  delete_wakes : {w v : Queues} (at : DeleteAt) → delete_woken w k ≡ (v, at) → QueueStep k w quiet v
  elsewhere : {w v : Queues} → core (v.qcb k) ≡ core (w.qcb k) → QueueStep k w quiet v

pub data Flow (k : ℕ) : Queues → List Event → Queues → Type 0 where
  still : {w : Queues} → Flow k w [] w
  flows :
      {w v x : Queues} {e : Event} {es : List Event}
      → QueueStep k w e v
      → Flow k v es x
      → Flow k w (e ∷ es) x
