-- ===== src/Msgq/Send/Waiting.antt =====
-- What a msgQSend that had to wait does.
use cross_compile.Base.{
  ℕ, ◌+◌, ◌≤◌, ◌≡◌, ◌≢◌, ◌⊎◌, true, false, some, List, arith, if◌then◌else◌, length, take,
  Bool-cases, inl, inr,
}
use cross_compile.Errno.{Result, ok, error, obj_deleted, obj_timeout, awake, etimedout}
use cross_compile.Susp
use cross_compile.Susp.{Tasks, signal_for_my_task}
use cross_compile.Msgq.Types.{Mqueue, Queues, set_qcb, is_killd}
use cross_compile.Msgq.Ring.{send_msg_to, urgent_msg_to}
use cross_compile.Msgq.Ring.Valid.{IsValid, Kept, contents}
use cross_compile.Msgq.Send.{
  Sending, relocking, has_space, send_look, send_finish, post, notify_if_delete_complete,
}
use cross_compile.Msgq.Send.Cases.{inserted, post_refines, post-Kept}

-- The control block, and the tasks, once `me` is off the list of writers.
abbrev pub without_writer : Queues → ℕ → ℕ → Mqueue
without_writer w me queue =
    let q = w.qcb queue in
    record q { first_write_susp = (Susp.unlink_susp_task w.tasks q.first_write_susp me).1 }

abbrev pub left_writers : Queues → ℕ → ℕ → Queues
left_writers w me queue = record w {
  tasks = (Susp.unlink_susp_task w.tasks (w.qcb queue).first_write_susp me).0;
}

-- A round of the waiting loop lets a writer through, without a timeout, only if the queue is killed,
-- or has space that is for this writer.
pub send_look_through :
    (w : Queues) (me : ℕ) (c c' : Sending)
    → send_look w me c ≡ relocking c'
    → c'.retcode ≢ etimedout
    → (is_killd (w.qcb c.queue).send_type ≡ true)
      ⊎ ((has_space (w.qcb c.queue) ≡ true)
          × (signal_for_my_task w.tasks (w.qcb c.queue).first_write_susp (w.qcb c.queue).order me
              ≡ true))
unfolding send_look
send_look_through w me c c' e live = ground arith

send_finish-post :
    (w : Queues) (me : ℕ) (c : Sending) {q' : Mqueue}
    → is_killd (w.qcb c.queue).send_type ≡ false
    → c.retcode ≡ awake
    → post (without_writer w me c.queue) c.msg c.msglen c.urgent ≡ some q'
    → send_finish w me c ≡ some (set_qcb (left_writers w me c.queue) c.queue q', ok tt)
unfolding send_finish
send_finish-post w me c alive rc e = ground arith

-- A writer that comes back to a live queue with an element free sends its message, in its place, and
-- returns OK; it has left the list of writers.
pub send_finish_posts :
    (w : Queues) (me : ℕ) (c : Sending) (msg : List ℕ)
    → c.msg ≡ some msg
    → is_killd (w.qcb c.queue).send_type ≡ false
    → c.retcode ≡ awake
    → IsValid (w.qcb c.queue)
    → (w.qcb c.queue).msg_count ≤ (w.qcb c.queue).msgs_per_queue
    → c.msglen ≤ (w.qcb c.queue).msg_len
    → c.msglen ≤ length msg
    → (q' : Mqueue) × (send_finish w me c
        ≡ some (set_qcb (left_writers w me c.queue) c.queue q', ok tt))
      × IsValid q'
      × (contents q' ≡ inserted c.urgent (take c.msglen msg) (contents (w.qcb c.queue)))
      × Kept (without_writer w me c.queue) q'
send_finish_posts w me c msg em alive rc v room small avail =
    let (q', e, v', ms) =
      post_refines (without_writer w me c.queue) msg c.msglen c.urgent v room small avail in
    (
      q',
      send_finish-post w me c alive rc (rw em e),
      v',
      ms,
      (post-Kept (without_writer w me c.queue) (some msg) c.msglen c.urgent e).0,
    )

-- A writer that comes back to a killed queue returns ERROR with S_objLib_OBJ_DELETED, and tells the
-- deleter if it was the last to wait. One whose wait timed out on a live queue returns ERROR with
-- S_objLib_OBJ_TIMEOUT. Neither sends anything.
pub send_finish_gives_up :
    (w : Queues) (me : ℕ) (c : Sending)
    → (is_killd (w.qcb c.queue).send_type ≡ true) ⊎ (c.retcode ≡ etimedout)
    → send_finish w me c
      ≡ some (
        set_qcb (left_writers w me c.queue) c.queue (
            if is_killd (w.qcb c.queue).send_type
            then notify_if_delete_complete (without_writer w me c.queue)
            else without_writer w me c.queue),
        error (if is_killd (w.qcb c.queue).send_type then obj_deleted else obj_timeout),
      )
unfolding send_finish
send_finish_gives_up w me c why = ground arith

send_finish_counts :
    (w : Queues) (me : ℕ) (c : Sending) {w' : Queues} {r : Result (Unit {0})}
    → is_killd (w.qcb c.queue).send_type ≡ false
    → c.retcode ≡ awake
    → send_finish w me c ≡ some (w', r)
    → (r ≡ ok tt)
      × ((w'.qcb c.queue).msg_count ≡ (w.qcb c.queue).msg_count + 1)
      × ((w'.qcb c.queue).msgs_per_queue ≡ (w.qcb c.queue).msgs_per_queue)
unfolding send_finish post send_msg_to urgent_msg_to
send_finish_counts w me c {w'} {r} alive rc e = elim (Bool-cases c.urgent) [
  | inl u ↦ ground arith
  | inr n ↦ ground arith
]

-- A writer that comes back does not test the room again: if the extra element was filled while
-- it was on its way back to queue_lock, its message goes in all the same, and it returns OK. The
-- count is then larger than the extent, and the queue is not valid.
pub send_finish_overflows :
    (w : Queues) (me : ℕ) (c : Sending) {w' : Queues} {r : Result (Unit {0})}
    → is_killd (w.qcb c.queue).send_type ≡ false
    → c.retcode ≡ awake
    → (w.qcb c.queue).msg_count ≡ (w.qcb c.queue).msgs_per_queue + 1
    → send_finish w me c ≡ some (w', r)
    → (r ≡ ok tt)
      × ((w'.qcb c.queue).msg_count ≡ (w.qcb c.queue).msgs_per_queue + 2)
      × ¬ IsValid (w'.qcb c.queue)
send_finish_overflows w me c {w'} alive rc crowded e =
    let (done, count, limit) = send_finish_counts w me c alive rc e in
    (done, omega arith, λ (v : IsValid (w'.qcb c.queue)). omega (arith, v.count_in))
