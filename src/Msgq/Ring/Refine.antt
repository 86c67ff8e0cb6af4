-- ===== src/Msgq/Ring/Refine.antt =====
-- A valid queue is a double-ended list of messages: sends go to the back, urgent sends to the front,
-- and a fetch takes the front. No access leaves the extent or the caller's buffer.
use cross_compile.Base.{
  ℕ, ◌+◌, ◌≤◌, ◌≡◌, refl, ap, ◌∙◌, some, List, [], ◌∷◌, ◌++◌, arith, length, get_or, set, take,
  length-set,
}
use native.Mathlib.Numerals.{add-one}
use cross_compile.Msgq.Types.{SendType, no_slot, Mqueue}
use cross_compile.Msgq.Ring.{before, after, urgent_msg_to, send_msg_to}
use cross_compile.Msgq.Ring.View.{window-set_next, window-set_front}
use cross_compile.Msgq.Ring.Valid.{IsValid, contents, room-set, fits-set}
use cross_compile.Msgq.Ring.Copy.{store_at_lem}

-- With an element free, a message no longer than the limit is sent without a fault: it is then the
-- last message, the queue is valid, and the readers have been signalled.
pub send_msg_to_refines :
    (q : Mqueue) (msg : List ℕ) (msglen : ℕ)
    → IsValid q
    → q.msg_count ≤ q.msgs_per_queue
    → msglen ≤ q.msg_len
    → msglen ≤ length msg
    → (q' : Mqueue) × (send_msg_to q (some msg) msglen ≡ some q')
      × IsValid q'
      × (contents q' ≡ contents q ++ take msglen msg ∷ [])
      × (q'.queue_send ≡ q.queue_send + 1)
unfolding send_msg_to
send_msg_to_refines q msg n v free small avail =
    let (s, e, front, ln, lb) = store_at_lem q q.queue_tail n msg avail tail_room in
    (
      record q {
        queue_send = q.queue_send + 1;
        queue_tail = after q q.queue_tail;
        send_type = SendType.send;
        extent = set q.extent q.queue_tail s;
        msg_count = q.msg_count + 1;
      },
      rw e,
      record {
        elements = length-set q.extent q.queue_tail s ∙ v.elements;
        room = room-set q.extent q.queue_tail _ _ s v.room (lb ∙ v.room _ tail_in) v.elements;
        fits = fits-set q.extent q.queue_tail _ _ s v.fits (omega arith) v.elements;
        head_in = v.head_in;
        count_in = omega arith;
        tail_at = ground (arith, v.tail_at, v.head_in);
      },
      rw add-one (
          window-set_next _ q.extent s q.queue_head q.queue_tail q.msg_count v.elements free
            v.head_in v.tail_at
          ∙ ap (λ m. contents q ++ m ∷ []) front),
      refl,
    )
  where
    tail_in : q.queue_tail ≤ q.msgs_per_queue
    tail_in = ground (arith, v.tail_at, v.head_in)

    tail_room : n ≤ length (get_or q.extent q.queue_tail no_slot).msgbuf
    tail_room = omega (arith, v.room q.queue_tail tail_in)

-- With an element free, an urgent message no longer than the limit is sent without a fault: it
-- is then the first message, and the queue is valid.
pub urgent_msg_to_refines :
    (q : Mqueue) (msg : List ℕ) (msglen : ℕ)
    → IsValid q
    → q.msg_count ≤ q.msgs_per_queue
    → msglen ≤ q.msg_len
    → msglen ≤ length msg
    → (q' : Mqueue) × (urgent_msg_to q (some msg) msglen ≡ some q')
      × IsValid q'
      × (contents q' ≡ take msglen msg ∷ contents q)
unfolding urgent_msg_to
urgent_msg_to_refines q msg n v free small avail =
    let (s, e, front, ln, lb) = store_at_lem q head n msg avail head_room in
    (
      record q {
        queue_head = head;
        send_type = SendType.urgnt;
        extent = set q.extent head s;
        msg_count = q.msg_count + 1;
      },
      rw e,
      record {
        elements = length-set q.extent head s ∙ v.elements;
        room = room-set q.extent head _ _ s v.room (lb ∙ v.room _ head_in) v.elements;
        fits = fits-set q.extent head _ _ s v.fits (omega arith) v.elements;
        head_in = head_in;
        count_in = omega arith;
        tail_at = ground (arith, v.tail_at, v.head_in);
      },
      rw add-one (
          window-set_front _ q.extent s q.queue_head head q.msg_count v.elements free v.head_in refl
          ∙ ap (λ m. m ∷ contents q) front),
    )
  where
    head : ℕ
    head = before q q.queue_head

    head_in : head ≤ q.msgs_per_queue
    head_in = ground (arith, v.head_in)

    head_room : n ≤ length (get_or q.extent head no_slot).msgbuf
    head_room = omega (arith, v.room head head_in)
