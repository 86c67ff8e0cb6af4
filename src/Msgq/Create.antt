-- ===== src/Msgq/Create.antt =====
-- What msgQCreate of lib/lmsgQLib.c makes.

use cross_compile.Base.{
  ℕ, ◌+◌, ◌*◌, ◌^◌, ◌<◌, ◌≤◌, ◌≡◌, refl, ap, true, false, none, some, List, [], ◌∷◌, ◌++◌, arith,
  elem, elem-append, get_or, replicate, length-replicate, get_or-replicate,
}
use cross_compile.Errno.{ok, error, not_enough_memory}
use cross_compile.Msgq.Types.{Slot, no_slot, Mqueue, Queues, set_qcb}
use cross_compile.Msgq.Ring.{data_extent_for}
use cross_compile.Msgq.Ring.Valid.{IsValid, contents}
use cross_compile.Msgq.Ring.View.{window}
use cross_compile.Msgq.Registry.{mqueue_find_lock, link_qcb, new_queue, msg_q_create}
use cross_compile.Msgq.Solo.Steps.{AtRest, set_qcb_self}

blank : ℕ → Slot
blank size = record { msglen = 0; msgbuf = replicate size 0 }

-- The control block that data_extent_for completes.
pub made : ℕ → ℕ → ℕ → Mqueue
unfolding blank
made max_msgs msglen opt = record (new_queue max_msgs msglen opt) {
  vmsg_len = 8 + msglen;
  extent = replicate (max_msgs + 1) (blank msglen);
}

made-IsValid : (max_msgs msglen opt : ℕ) → IsValid (made max_msgs msglen opt)
unfolding made new_queue blank
made-IsValid max_msgs msglen opt = record {
  elements = length-replicate (max_msgs + 1) (blank msglen);
  room = λ i h. rw (at i h) (length-replicate {A = ℕ} msglen 0);
  fits = λ i h. rw (at i h) (omega arith);
  head_in = omega arith;
  count_in = omega arith;
  tail_at = ground arith;
}
  where
    at :
        (i : ℕ)
        → i ≤ max_msgs
        → get_or (replicate (max_msgs + 1) (blank msglen)) i no_slot ≡ blank msglen
    at i h = get_or-replicate (max_msgs + 1) i (blank msglen) no_slot (omega arith)

-- It has the limits asked for, and no message.
pub made-limits :
    (max_msgs msglen opt : ℕ)
    → IsValid (made max_msgs msglen opt)
      × ((made max_msgs msglen opt).msgs_per_queue ≡ max_msgs)
      × ((made max_msgs msglen opt).msg_len ≡ msglen)
      × (contents (made max_msgs msglen opt) ≡ [])
unfolding made new_queue window
made-limits max_msgs msglen opt = (made-IsValid max_msgs msglen opt, refl, refl, refl)

-- With memory for it, and an extent of less than two gigabytes, msgQCreate returns a queue that no
-- task waits for and that holds no message, with the limits asked for. Without memory it returns NULL with S_memLib_NOT_ENOUGH_MEMORY and no queue changes.
pub msg_q_create_lem :
    (w : Queues) (queue max_msgs msglen opt : ℕ)
    → (8 + msglen) * (max_msgs + 1) < 2 ^ 31
    → (w' : Queues) × (msg_q_create w (some queue) true max_msgs msglen opt ≡ some (w', ok queue))
      × AtRest max_msgs msglen w' queue
      × (contents (w'.qcb queue) ≡ [])
      × (w'.mqueue_list ≡ w.mqueue_list ++ queue ∷ [])
      × (msg_q_create w (some queue) false max_msgs msglen opt ≡ some (w, error not_enough_memory))
      × (msg_q_create w none true max_msgs msglen opt ≡ some (w, error not_enough_memory))
unfolding msg_q_create data_extent_for made window mqueue_find_lock
msg_q_create_lem w queue max_msgs msglen opt fits =
    let q : Mqueue = made max_msgs msglen opt in
    let w' : Queues = link_qcb (set_qcb w queue q) queue in
    let e : (w'.qcb queue) ≡ q = set_qcb_self w queue q in
    (
      w',
      ground arith,
      record {
        found = linked (w.mqueue_list);
        valid = rw e (made-IsValid max_msgs msglen opt);
        alive = rw e refl;
        readers = rw e refl;
        writers = rw e refl;
        limit_is = rw e refl;
        size_is = rw e refl;
      },
      ap (λ m. contents m) e,
      refl,
      refl,
      refl,
    )
  where
    linked : (l : List ℕ) → elem queue (l ++ queue ∷ []) ≡ true
    linked l = ground (arith, elem-append queue l (queue ∷ []))
