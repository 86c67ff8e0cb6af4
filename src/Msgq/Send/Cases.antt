-- ===== src/Msgq/Send/Cases.antt =====
-- What msgQSend does where it does not wait.
use cross_compile.Base.{
  ℕ, ◌+◌, ◌<◌, ◌≤◌, ◌≡◌, Bool, true, false, Option, some, List, [], ◌∷◌, ◌++◌, arith, if◌then◌else◌,
  length, take,
}
use cross_compile.Errno.{
  ok, error, Errno, obj_id_error, invalid_msg_length, obj_unavailable, Wait, no_wait,
}
use cross_compile.Clock.{Timeval}
use cross_compile.Msgq.Types.{Mqueue, Queues, set_qcb, is_killd}
use cross_compile.Msgq.Ring.{urgent_msg_to, send_msg_to}
use cross_compile.Msgq.Ring.Valid.{IsValid, Kept, contents}
use cross_compile.Msgq.Ring.Refine.{send_msg_to_refines, urgent_msg_to_refines}
use cross_compile.Msgq.Registry.{mqueue_find_lock}
use cross_compile.Msgq.Send.{returned, no_length, msg_q_send, wait_to_send, post}

abbrev pub inserted : Bool → List ℕ → List (List ℕ) → List (List ℕ)
inserted true m ms = m ∷ ms
inserted false m ms = ms ++ m ∷ []

-- Room for one message more: a normal message has to leave the extra element free.
abbrev pub Accepts : Mqueue → Bool → Type 0
Accepts q urgent = q.msg_count + (if urgent then 0 else 1) ≤ q.msgs_per_queue

-- Posting puts the message in its place without a fault, and signals the readers.
pub post_refines :
    (q : Mqueue) (msg : List ℕ) (msglen : ℕ) (urgent : Bool)
    → IsValid q
    → q.msg_count ≤ q.msgs_per_queue
    → msglen ≤ q.msg_len
    → msglen ≤ length msg
    → (q' : Mqueue) × (post q (some msg) msglen urgent ≡ some q')
      × IsValid q'
      × (contents q' ≡ inserted urgent (take msglen msg) (contents q))
unfolding post
post_refines q msg n true v room small avail =
    let (q', e, v', c) = urgent_msg_to_refines q msg n v room small avail in
    (record q' { queue_send = q'.queue_send + 1 }, rw e, v', c)
post_refines q msg n false v room small avail =
    let (q', e, v', c, _) = send_msg_to_refines q msg n v room small avail in (q', e, v', c)

pub post-Kept :
    (q : Mqueue) (msg : Option (List ℕ)) (msglen : ℕ) (urgent : Bool) {q' : Mqueue}
    → post q msg msglen urgent ≡ some q'
    → Kept q q' × (is_killd q'.send_type ≡ false) × (q.queue_send < q'.queue_send)
unfolding post send_msg_to urgent_msg_to
post-Kept q msg n true h = ground arith
post-Kept q msg n false h = ground arith

msg_q_send-post :
    (w : Queues) (me : ℕ) (now : Timeval) (queue : ℕ) (msg : Option (List ℕ)) (msglen : ℕ)
    (wait : Wait) (urgent : Bool) {q' : Mqueue}
    → mqueue_find_lock w queue ≡ true
    → msglen ≤ (w.qcb queue).msg_len
    → Accepts (w.qcb queue) urgent
    → no_length (w.qcb queue) ≡ false
    → post (w.qcb queue) msg msglen urgent ≡ some q'
    → msg_q_send w me now queue msg msglen wait urgent ≡ some (set_qcb w queue q', returned (ok tt))
unfolding msg_q_send
msg_q_send-post w me now queue msg n wait true found small room len e = ground arith
msg_q_send-post w me now queue msg n wait false found small room len e = ground arith

-- A message that is not too long is sent at once where there is room for it: a normal message if
-- fewer than msgs_per_queue are there, an urgent one into the extra element too. The call returns OK,
-- the message is the last or, if urgent, the first, the readers are signalled, and no other queue and
-- no task changes.
pub msg_q_send-Accepts :
    (w : Queues) (me : ℕ) (now : Timeval) (queue : ℕ) (msg : List ℕ) (msglen : ℕ) (wait : Wait)
    (urgent : Bool)
    → mqueue_find_lock w queue ≡ true
    → IsValid (w.qcb queue)
    → msglen ≤ (w.qcb queue).msg_len
    → msglen ≤ length msg
    → Accepts (w.qcb queue) urgent
    → no_length (w.qcb queue) ≡ false
    → (q' : Mqueue) × (msg_q_send w me now queue (some msg) msglen wait urgent
        ≡ some (set_qcb w queue q', returned (ok tt)))
      × IsValid q'
      × (contents q' ≡ inserted urgent (take msglen msg) (contents (w.qcb queue)))
      × Kept (w.qcb queue) q'
      × (is_killd q'.send_type ≡ false)
      × ((w.qcb queue).queue_send < q'.queue_send)
msg_q_send-Accepts w me now queue msg n wait urgent found v small avail room len =
    let (q', e, v', c) = post_refines (w.qcb queue) msg n urgent v (ground arith) small avail in
    let (kept, alive, woken) = post-Kept (w.qcb queue) (some msg) n urgent e in
    (
      q',
      msg_q_send-post w me now queue (some msg) n wait urgent found small room len e,
      v',
      c,
      kept,
      alive,
      woken,
    )

-- Why a call that may not wait is refused, and the error that it leaves in errno.
pub data Refusal (w : Queues) (queue msglen : ℕ) (urgent : Bool) : Errno → Type 0 where
  gone : mqueue_find_lock w queue ≡ false → Refusal w queue msglen urgent obj_id_error
  too_long :
      mqueue_find_lock w queue ≡ true
      → (w.qcb queue).msg_len < msglen
      → Refusal w queue msglen urgent invalid_msg_length
  full :
      mqueue_find_lock w queue ≡ true
      → msglen ≤ (w.qcb queue).msg_len
      → (w.qcb queue).msgs_per_queue < (w.qcb queue).msg_count + (if urgent then 0 else 1)
      → no_length (w.qcb queue) ≡ false
      → Refusal w queue msglen urgent obj_unavailable

-- A call with NO_WAIT to a queue that does not exist, with a message that is too long, or without
-- room returns ERROR with the errno of that reason, and changes nothing.
pub msg_q_send_refused :
    (w : Queues) (me : ℕ) (now : Timeval) (queue : ℕ) (msg : Option (List ℕ)) (msglen : ℕ)
    (urgent : Bool) (e : Errno)
    → Refusal w queue msglen urgent e
    → msg_q_send w me now queue msg msglen no_wait urgent ≡ some (w, returned (error e))
unfolding msg_q_send wait_to_send
msg_q_send_refused w me now queue msg n urgent e (gone g) = ground arith
msg_q_send_refused w me now queue msg n urgent e (too_long g long) = ground arith
msg_q_send_refused w me now queue msg n true e (full g fits crowded len) = ground arith
msg_q_send_refused w me now queue msg n false e (full g fits crowded len) = ground arith
