-- ===== src/Msgq/Send.antt =====
-- lib/lmsgQLib.c: msgQSend with waitToSend and waiting_on_q_space. A call runs in steps, from one
-- point where other tasks can run to the next. Each step under queue_lock is atomic for all that
-- take that lock. The loop of waitToSend does not hold it, and reads the queue in a step of its own.
-- `none` is undefined behaviour, as in `Ring`. The mutex qfull_lock, which that loop waits
-- with and unlocks without holding it, is left out: that this is undefined is not a part of the model.
pub mod Cases
pub mod Waiting
use cross_compile.Base.{
  ℕ, ◌+◌, Bool, true, false, not, ◌&&◌, ◌||◌, Option, none, some, List, [], ◌∷◌, ltb, leb, ◌==◌,
  if◌then◌else◌,
}
use cross_compile.Errno.{
  Result, ok, error, Errno, obj_id_error, invalid_msg_length, obj_unavailable, obj_deleted,
  obj_timeout, Wait, no_wait, wait_forever, ticks, RetCode, awake, etimedout, failed,
}
use cross_compile.Clock.{Timeval, Timespec, deadline, usec_left}
use cross_compile.Susp
use cross_compile.Susp.{Tasks, signal_for_my_task}
use cross_compile.Msgq.Types.{Mqueue, Queues, set_qcb, is_killd, is_null, broadcast_send}
use cross_compile.Msgq.Ring.{◌>>=◌, urgent_msg_to, send_msg_to}
use cross_compile.Msgq.Registry.{mqueue_find_lock}

-- What a task has to remember while it waits for space; a NULL timeout is `none`.
pub record Sending : Type 0 where
  pub queue : ℕ
  pub msg : Option (List ℕ)
  pub msglen : ℕ
  pub urgent : Bool
  pub timeout : Option Timespec
  pub retcode : RetCode

-- Where a call stands: about to look for space, in taskDelay(1), in the wait on queue_space, about
-- to take queue_lock again, or at its end.
pub data SendAt : Type 0 where
  looking : Sending → SendAt
  napping : Sending → SendAt
  asleep : Sending → SendAt
  relocking : Sending → SendAt
  returned : Result (Unit {0}) → SendAt

-- What a round of the waiting loop finds: the wait is over, it goes on after a delay, or there is
-- nothing for the task.
pub data Verdict : Type 0 where
  over nap keep : Verdict

-- `msg_count <= msgs_per_queue - 1`, in signed arithmetic, or a zero-length queue with a reader.
abbrev pub has_space : Mqueue → Bool
has_space q =
    leb (q.msg_count + 1) q.msgs_per_queue || (q.msgs_per_queue == 0 && not (is_null q.first_susp))

-- The `while` of waiting_on_q_space.
unfoldable pub space_round : Tasks → Mqueue → ℕ → Verdict
space_round ts q me =
    if has_space q
    then (if signal_for_my_task ts q.first_write_susp q.order me then over else nap)
    else keep

unfoldable pub waiting_on_q_space : Tasks → Mqueue → ℕ → Verdict
unfolding space_round
waiting_on_q_space ts q me = if is_killd q.send_type then over else space_round ts q me

-- A result of 0 ends the wait with `*retcode = 0`; after a 1 the loop of waitToSend ends if the last
-- wait timed out, and waits otherwise.
unfoldable pub send_continue : Sending → Verdict → SendAt
send_continue c over = relocking (record c { retcode = awake })
send_continue c nap = napping c
send_continue c keep = elim c.retcode [ etimedout ↦ relocking c | _ ↦ asleep c ]

unfoldable pub send_look : Queues → ℕ → Sending → SendAt
unfolding waiting_on_q_space send_continue
send_look w me c = send_continue c (waiting_on_q_space w.tasks (w.qcb c.queue) me)

abbrev pub out_of_time : Option Timespec → Timeval → Bool
out_of_time none now = false
out_of_time (some t) now = usec_left t now == 0

-- After taskDelay: the loop is left if the time is over, and otherwise tests for space again.
unfoldable pub send_after_nap : Queues → ℕ → Timeval → Sending → SendAt
unfolding space_round send_continue
send_after_nap w me now c =
    send_continue c
      (if out_of_time c.timeout now then keep else space_round w.tasks (w.qcb c.queue) me)

-- The wait on queue_space returns `rc`, which pthread_cond_wait leaves unused.
unfoldable pub send_woken : RetCode → Sending → SendAt
send_woken rc c = elim c.timeout [ none ↦ looking c | some t ↦ looking (record c { retcode = rc }) ]

-- The message goes in, to the front or to the back, and the readers are signalled.
unfoldable pub post : Mqueue → Option (List ℕ) → ℕ → Bool → Option Mqueue
post q msg msglen true = do q' ← urgent_msg_to q msg msglen; some (broadcast_send q')
post q msg msglen false = send_msg_to q msg msglen

unfoldable pub notify_if_delete_complete : Mqueue → Mqueue
notify_if_delete_complete q =
    if is_null q.first_susp && is_null q.first_write_susp
    then record q { qdlet_cmplt = q.qdlet_cmplt + 1 }
    else q

-- The end of waitToSend, from the second pthread_mutex_lock of queue_lock on.
unfoldable pub send_finish : Queues → ℕ → Sending → Option (Queues × Result (Unit {0}))
send_finish w me c =
    let q = w.qcb c.queue in
    let (ts, writers) = Susp.unlink_susp_task w.tasks q.first_write_susp me in
    let q' = record q { first_write_susp = writers } in
    let w' = record w { tasks = ts } in
    let posted = post q' c.msg c.msglen c.urgent in
    if is_killd q.send_type
    then some (set_qcb w' c.queue (notify_if_delete_complete q'), error obj_deleted)
    else elim c.retcode [
      | etimedout ↦ some (set_qcb w' c.queue q', error obj_timeout)
      | _ ↦ do p ← posted; some (set_qcb w' c.queue p, ok tt)
    ]

-- waitToSend up to the point where it gives queue_lock away.
unfoldable pub wait_to_send : Queues → ℕ → Timeval → Sending → Wait → Option (Queues × SendAt)
wait_to_send w me now c no_wait = some (w, returned (error obj_unavailable))
wait_to_send w me now c wait_forever =
    let (ts, writers) = Susp.link_susp_task w.tasks (w.qcb c.queue).first_write_susp me in
    some (
      set_qcb (record w { tasks = ts }) c.queue
          (record (w.qcb c.queue) { first_write_susp = writers }),
      looking c,
    )
wait_to_send w me now c (ticks n) =
    let (ts, writers) = Susp.link_susp_task w.tasks (w.qcb c.queue).first_write_susp me in
    do
      t ← deadline n now
      some (
        set_qcb (record w { tasks = ts }) c.queue
            (record (w.qcb c.queue) { first_write_susp = writers }),
        looking (record c { timeout = some t }),
      )

-- Whether msgQSend posts at once: the queue has room, or it is full and the message is urgent, or
-- it has no length and a reader waits. The last kind of message goes to the back in any case.
abbrev pub no_length : Mqueue → Bool
no_length q = q.msgs_per_queue == 0 && not (is_null q.first_susp)

unfoldable pub msg_q_send :
    Queues → ℕ → Timeval → ℕ → Option (List ℕ) → ℕ → Wait → Bool → Option (Queues × SendAt)
msg_q_send w me now queue msg msglen wait urgent =
    let q = w.qcb queue in
    let c : Sending = record {
      queue = queue;
      msg = msg;
      msglen = msglen;
      urgent = urgent;
      timeout = none;
      retcode = awake;
    } in
    let sent = λ (p : Mqueue). some (set_qcb w queue p, returned (ok tt)) in
    if not (mqueue_find_lock w queue)
    then some (w, returned (error obj_id_error))
    else if ltb q.msg_len msglen
    then some (w, returned (error invalid_msg_length))
    else if ltb q.msgs_per_queue q.msg_count
    then wait_to_send w me now c wait
    else if q.msg_count == q.msgs_per_queue
    then (if no_length q
        then send_msg_to q msg msglen >>= sent
        else if urgent
        then post q msg msglen true >>= sent
        else wait_to_send w me now c wait)
    else post q msg msglen urgent >>= sent
