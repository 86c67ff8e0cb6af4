-- ===== src/Msgq/Registry.antt =====
-- lib/lmsgQLib.c: the list of the queues (mqueue_find_lock, link_qcb, unlink_qcb), msgQCreate,
-- delete_mqueue and msgQNumMsgs. What ts_malloc returns is an argument.
use cross_compile.Base.{
  ℕ, ◌%◌, Bool, true, false, Option, none, some, [], ◌∷◌, ◌++◌, ◌==◌, if◌then◌else◌, elem, erase,
}
use cross_compile.Errno.{Result, ok, error, not_enough_memory}
use cross_compile.Msgq.Types.{send, Mqueue, Queues, set_qcb}
use cross_compile.Msgq.Ring.{◌>>=◌, data_extent_for}

-- Whether the queue still exists; if so, the caller holds its queue_lock.
unfoldable pub mqueue_find_lock : Queues → ℕ → Bool
mqueue_find_lock w queue = elem queue w.mqueue_list

unfoldable pub link_qcb : Queues → ℕ → Queues
link_qcb w new_mqueue = record w { mqueue_list = w.mqueue_list ++ new_mqueue ∷ [] }

unfoldable pub unlink_qcb : Queues → ℕ → Queues
unlink_qcb w qid = record w { mqueue_list = erase qid w.mqueue_list }

-- The control block that msgQCreate fills in; `opt & MSG_Q_PRIORITY` is the lowest bit.
unfoldable pub new_queue : ℕ → ℕ → ℕ → Mqueue
new_queue max_msgs msglen opt = record {
  queue_send = 0;
  qdlet_cmplt = 0;
  queue_space = 0;
  queue_head = 0;
  queue_tail = 0;
  send_type = send;
  extent = [];
  first_susp = [];
  first_write_susp = [];
  msg_count = 0;
  msgs_per_queue = max_msgs;
  msg_len = msglen;
  vmsg_len = 0;
  order = if opt % 2 == 1 then 1 else 0;
}

-- `queue` is what ts_malloc returned for the control block (`none` for NULL), and `extent` whether
-- it returned memory for the messages.
unfoldable pub msg_q_create : Queues → Option ℕ → Bool → ℕ → ℕ → ℕ → Option (Queues × Result ℕ)
unfolding new_queue link_qcb
msg_q_create w none extent max_msgs msglen opt = some (w, error not_enough_memory)
msg_q_create w (some queue) false max_msgs msglen opt = some (w, error not_enough_memory)
msg_q_create w (some queue) true max_msgs msglen opt = do
  q ← data_extent_for (new_queue max_msgs msglen opt)
  some (link_qcb (set_qcb w queue q) queue, ok queue)

-- The memory is given back: the control block is no longer looked at.
unfoldable pub delete_mqueue : Queues → ℕ → Queues
unfolding unlink_qcb
delete_mqueue w queue = unlink_qcb w queue

-- The number of messages, or ERROR (errno is left alone).
unfoldable pub msg_q_num_msgs : Queues → ℕ → Option ℕ
unfolding mqueue_find_lock
msg_q_num_msgs w queue = if mqueue_find_lock w queue then some (w.qcb queue).msg_count else none
