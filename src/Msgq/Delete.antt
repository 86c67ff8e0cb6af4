-- ===== src/Msgq/Delete.antt =====
-- lib/lmsgQLib.c: msgQDelete, in two steps. The first marks the queue, and deletes it if no task
-- waits; otherwise the caller waits on qdlet_cmplt until the last waiting task has left. The calls of
-- taskLock and taskUnlock around it change no queue (`Sched` models them).
pub mod Laws
pub mod Drain
use cross_compile.Base.{ℕ, ◌+◌, Bool, true, false, not, ◌&&◌, List, [], ◌∷◌, if◌then◌else◌}
use cross_compile.Errno.{Result, ok, error, obj_id_error}
use cross_compile.Msgq.Types.{SendType, killd, Mqueue, Queues, set_qcb, is_null}
use cross_compile.Msgq.Registry.{mqueue_find_lock, delete_mqueue}

pub data DeleteAt : Type 0 where
  draining : ℕ → DeleteAt
  returned : Result (Unit {0}) → DeleteAt

-- No reader and no writer waits.
abbrev pub is_deserted : Mqueue → Bool
is_deserted q = is_null q.first_susp && is_null q.first_write_susp

unfoldable pub msg_q_delete : Queues → ℕ → Queues × DeleteAt
unfolding mqueue_find_lock delete_mqueue
msg_q_delete w queue =
    let q = record (w.qcb queue) { send_type = killd } in
    if not (mqueue_find_lock w queue)
    then (w, returned (error obj_id_error))
    else if is_deserted q
    then (delete_mqueue (set_qcb w queue q) queue, returned (ok tt))
    else (
      set_qcb w queue (record q { queue_send = q.queue_send + 1; queue_space = q.queue_space + 1 }),
      draining queue,
    )

-- The wait on qdlet_cmplt returns, or its condition is looked at for the first time.
unfoldable pub delete_woken : Queues → ℕ → Queues × DeleteAt
unfolding delete_mqueue
delete_woken w queue =
    if is_deserted (w.qcb queue)
    then (delete_mqueue w queue, returned (ok tt))
    else (w, draining queue)
