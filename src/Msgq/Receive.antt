-- ===== src/Msgq/Receive.antt =====
-- lib/lmsgQLib.c: msgQReceive with waiting_on_q_msg, in steps as in `Send`. A round of the waiting
-- loop holds queue_lock, and gives it away only in taskDelay and in the wait on queue_send.
pub mod Cases
use cross_compile.Base.{
  ℕ, ◌+◌, Bool, true, false, not, ◌&&◌, Option, none, some, List, [], ◌∷◌, ltb, ◌==◌, if◌then◌else◌,
}
use cross_compile.Errno.{
  Errno, Result, ok, error, obj_id_error, invalid_msg_length, obj_unavailable, obj_deleted,
  obj_timeout, Wait, no_wait, wait_forever, ticks, RetCode, awake, etimedout, failed,
}
use cross_compile.Clock.{Timeval, Timespec, immediate, deadline, usec_left}
use cross_compile.Susp
use cross_compile.Susp.{Tasks, signal_for_my_task}
use cross_compile.Msgq.Types.{Mqueue, Queues, set_qcb, is_killd, is_null}
use cross_compile.Msgq.Ring.{◌>>=◌, fetch_msg_from}
use cross_compile.Msgq.Registry.{mqueue_find_lock}
use cross_compile.Msgq.Send.{Verdict, over, nap, keep, out_of_time, notify_if_delete_complete}

-- What a task has to remember while it waits for a message. `impatient` is `max_wait == NO_WAIT`.
pub record Receiving : Type 0 where
  pub queue : ℕ
  pub msgbuf : Option (List ℕ)
  pub impatient : Bool
  pub timeout : Option Timespec
  pub retcode : RetCode

-- The length of the message, or ERROR; and the caller's buffer.
pub record Received : Type 0 where
  pub msglen : Result ℕ
  pub buffer : Option (List ℕ)

pub data ReceiveAt : Type 0 where
  napping : Receiving → ReceiveAt
  asleep : Receiving → ReceiveAt
  returned : Received → ReceiveAt

abbrev pub give_up : Errno → Option (List ℕ) → Received
give_up e buf = record { msglen = error e; buffer = buf }

-- The `while` of waiting_on_q_msg.
unfoldable pub msg_round : Tasks → Mqueue → ℕ → Verdict
msg_round ts q me =
    if ltb 0 q.msg_count
    then (if signal_for_my_task ts q.first_susp q.order me then over else nap)
    else keep

unfoldable pub waiting_on_q_msg : Tasks → Mqueue → ℕ → Verdict
unfolding msg_round
waiting_on_q_msg ts q me = if is_killd q.send_type then over else msg_round ts q me

-- The end of msgQReceive, once the waiting loop is left.
unfoldable pub receive_finish : Queues → ℕ → Receiving → Option (Queues × ReceiveAt)
receive_finish w me c =
    let q = w.qcb c.queue in
    let (ts, readers) = Susp.unlink_susp_task w.tasks q.first_susp me in
    let q' = record q { first_susp = readers } in
    let w' = record w { tasks = ts } in
    let failed_with = λ (e : Errno). returned (give_up e c.msgbuf) in
    if is_killd q.send_type
    then some (set_qcb w' c.queue (notify_if_delete_complete q'), failed_with obj_deleted)
    else elim c.retcode [
      | etimedout ↦ some (
        set_qcb w' c.queue q',
        failed_with (if c.impatient then obj_unavailable else obj_timeout),
      )
      | _ ↦ do
        (p, out, n) ← fetch_msg_from q' c.msgbuf
        some (set_qcb w' c.queue p, returned (record { msglen = ok n; buffer = out }))
    ]

unfoldable pub receive_continue : Queues → ℕ → Receiving → Verdict → Option (Queues × ReceiveAt)
receive_continue w me c over = receive_finish w me (record c { retcode = awake })
receive_continue w me c nap = some (w, napping c)
receive_continue w me c keep = elim c.retcode [
  | etimedout ↦ receive_finish w me c
  | _ ↦ some (w, asleep c)
]

-- A round that begins with waiting_on_q_msg.
unfoldable pub receive_look : Queues → ℕ → Receiving → Option (Queues × ReceiveAt)
unfolding waiting_on_q_msg receive_continue
receive_look w me c = receive_continue w me c (waiting_on_q_msg w.tasks (w.qcb c.queue) me)

-- taskDelay is over, and queue_lock is taken again.
unfoldable pub receive_after_nap : Queues → ℕ → Timeval → Receiving → Option (Queues × ReceiveAt)
unfolding msg_round receive_continue
receive_after_nap w me now c =
    receive_continue w me c
      (if out_of_time c.timeout now then keep else msg_round w.tasks (w.qcb c.queue) me)

-- The wait on queue_send returns `rc`, which pthread_cond_wait leaves unused.
unfoldable pub receive_woken : Queues → ℕ → RetCode → Receiving → Option (Queues × ReceiveAt)
receive_woken w me rc c =
    receive_look w me (elim c.timeout [ none ↦ c | some t ↦ record c { retcode = rc } ])

-- The caller joins the readers; a zero-length queue's writers are told that there is a reader.
unfoldable pub join_readers : Queues → ℕ → ℕ → Queues
join_readers w me queue =
    let q = w.qcb queue in
    let (ts, readers) = Susp.link_susp_task w.tasks q.first_susp me in
    let q' = record q { first_susp = readers } in
    set_qcb (record w { tasks = ts }) queue
      (if q.msgs_per_queue == 0 && not (is_null q.first_write_susp)
        then record q' { queue_space = q.queue_space + 1 }
        else q')

-- The deadline that `max_wait` stands for: none, now, or later.
unfoldable pub timeout_for : Wait → Timeval → Option (Option Timespec)
timeout_for no_wait now = some (some (immediate now))
timeout_for wait_forever now = some none
timeout_for (ticks n) now = do t ← deadline n now; some (some t)

abbrev pub is_no_wait : Wait → Bool
is_no_wait no_wait = true
is_no_wait _ = false

unfoldable pub msg_q_receive :
    Queues → ℕ → Timeval → ℕ → Option (List ℕ) → ℕ → Wait → Option (Queues × ReceiveAt)
unfolding timeout_for
msg_q_receive w me now queue msgbuf buflen max_wait =
    let refused : Errno → Option (Queues × ReceiveAt) =
      λ e. some (w, returned (give_up e msgbuf)) in
    let accepted = timeout_for max_wait now >>= λ t.
    receive_look (join_readers w me queue) me (record {
      queue = queue;
      msgbuf = msgbuf;
      impatient = is_no_wait max_wait;
      timeout = t;
      retcode = awake;
    }) in
    if not (mqueue_find_lock w queue)
    then refused obj_id_error
    else if ltb buflen (w.qcb queue).msg_len
    then refused invalid_msg_length
    else accepted
