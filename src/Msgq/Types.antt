-- ===== src/Msgq/Types.antt =====
-- lib/lmsgQLib.c: the control block of a message queue (v2pt_mqueue_t) and the list of the queues.
-- A pointer into the extent is the number of its element: first_msg_in_queue is 0, and
-- last_msg_in_queue is msgs_per_queue. A condition variable is the number of broadcasts made on it.
-- Counts and lengths are not negative.
use cross_compile.Base.{ℕ, ◌+◌, Bool, true, false, List, [], ◌∷◌, ◌==◌, if◌then◌else◌}
use cross_compile.Susp.{Tasks}

pub data SendType : Type 0 where
  send urgnt killd : SendType

-- q_msg_t, with the msg_len bytes that its msgbuf stands for.
pub record Slot : Type 0 where
  pub msglen : ℕ
  pub msgbuf : List ℕ

abbrev pub no_slot : Slot
no_slot = record { msglen = 0; msgbuf = [] }

pub record Mqueue : Type 0 where
  pub queue_send : ℕ
  pub qdlet_cmplt : ℕ
  pub queue_space : ℕ
  pub queue_head : ℕ
  pub queue_tail : ℕ
  pub send_type : SendType
  pub extent : List Slot
  pub first_susp : List ℕ
  pub first_write_susp : List ℕ
  pub msg_count : ℕ
  pub msgs_per_queue : ℕ
  pub msg_len : ℕ
  pub vmsg_len : ℕ
  pub order : ℕ

-- The tasks, mqueue_list, and the control block that a queue pointer leads to.
pub record Queues : Type 0 where
  pub tasks : Tasks
  pub mqueue_list : List ℕ
  pub qcb : ℕ → Mqueue

abbrev pub set_qcb : Queues → ℕ → Mqueue → Queues
set_qcb w q m = record w { qcb = λ j. if j == q then m else w.qcb j }

abbrev pub is_killd : SendType → Bool
is_killd killd = true
is_killd _ = false

abbrev pub is_null : List ℕ → Bool
is_null [] = true
is_null (x ∷ xs) = false

abbrev pub broadcast_send : Mqueue → Mqueue
broadcast_send q = record q { queue_send = q.queue_send + 1 }
