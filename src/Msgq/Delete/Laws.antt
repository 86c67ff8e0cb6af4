-- ===== src/Msgq/Delete/Laws.antt =====
-- A queue is deleted only when no task waits for it, and is gone then.
use cross_compile.Base.{
  elem-erase, elem-erase_ne, ℕ, ◌+◌, ◌≡◌, ◌≢◌, Bool, true, false, not, Option, none, some, List,
  arith, if◌then◌else◌,
}
use cross_compile.Errno.{ok, error, obj_id_error, Wait}
use cross_compile.Clock.{Timeval}
use cross_compile.Susp.Pointers.{Distinct}
use cross_compile.Msgq.Types.{Queues, is_killd}
use cross_compile.Msgq.Registry.{mqueue_find_lock, msg_q_num_msgs}
use cross_compile.Msgq.Send
use cross_compile.Msgq.Send.{msg_q_send}
use cross_compile.Msgq.Receive
use cross_compile.Msgq.Receive.{msg_q_receive, give_up}
use cross_compile.Msgq.Delete.{draining, returned, is_deserted, msg_q_delete, delete_woken}

-- msgQDelete of a queue that exists, on a list without duplicates, deletes the queue, and
-- returns, exactly when no task waits for it: then it is off the list. Otherwise it stays on the
-- list, and both kinds of waiting tasks are woken. It is marked as killed in both cases, and
-- another queue is on the list if it was before.
pub msg_q_delete_cases :
    (w : Queues) (queue other : ℕ)
    → mqueue_find_lock w queue ≡ true
    → Distinct w.mqueue_list
    → other ≢ queue
    → (let (w', at) = msg_q_delete w queue in
        (at ≡ (if is_deserted (w.qcb queue) then returned (ok tt) else draining queue))
        × (mqueue_find_lock w' queue ≡ not (is_deserted (w.qcb queue)))
        × (mqueue_find_lock w' other ≡ mqueue_find_lock w other)
        × (is_killd (w'.qcb queue).send_type ≡ true)
        × ((w'.qcb queue).queue_send
            ≡ (w.qcb queue).queue_send + (if is_deserted (w.qcb queue) then 0 else 1))
        × ((w'.qcb queue).queue_space
            ≡ (w.qcb queue).queue_space + (if is_deserted (w.qcb queue) then 0 else 1)))
unfolding msg_q_delete
msg_q_delete_cases w queue other found d ne =
    ground (arith, elem-erase queue w.mqueue_list d, elem-erase_ne other queue w.mqueue_list ne)

pub delete_woken_cases :
    (w : Queues) (queue : ℕ)
    → mqueue_find_lock w queue ≡ true
    → Distinct w.mqueue_list
    → (let (w', at) = delete_woken w queue in
        (at ≡ (if is_deserted (w.qcb queue) then returned (ok tt) else draining queue))
        × (mqueue_find_lock w' queue ≡ not (is_deserted (w.qcb queue))))
unfolding delete_woken mqueue_find_lock
delete_woken_cases w queue found d = ground (arith, elem-erase queue w.mqueue_list d)

-- A queue that is not on the list is refused by every call: sends, receives and deletions return
-- ERROR with S_objLib_OBJ_ID_ERROR, msgQNumMsgs returns ERROR, and nothing changes.
pub deleted_queue_refused :
    (w : Queues) (me : ℕ) (now : Timeval) (queue : ℕ) (msg : Option (List ℕ)) (len : ℕ)
    (wait : Wait) (urgent : Bool)
    → mqueue_find_lock w queue ≡ false
    → (msg_q_send w me now queue msg len wait urgent ≡ some (w, Send.returned (error obj_id_error)))
      × (msg_q_receive w me now queue msg len wait
          ≡ some (w, Receive.returned (give_up obj_id_error msg)))
      × (msg_q_delete w queue ≡ (w, returned (error obj_id_error)))
      × (msg_q_num_msgs w queue ≡ none)
unfolding msg_q_send msg_q_receive msg_q_delete msg_q_num_msgs
deleted_queue_refused w me now queue msg len wait urgent gone = ground arith
