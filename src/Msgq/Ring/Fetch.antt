-- ===== src/Msgq/Ring/Fetch.antt =====
-- A fetch takes the first message of a valid queue.
use cross_compile.Base.{
  ℕ, ◌+◌, ◌-◌, ◌<◌, ◌≤◌, ◌≡◌, refl, ap, ◌∙◌, sym, Option, some, List, ◌∷◌, arith, leb, length,
  get_or, set, take, drop, length-set, Bool-cases, inl, inr,
}
use mathlib.Core.Path.{ap₂}
use cross_compile.Msgq.Types.{Slot, no_slot, Mqueue, is_null}
use cross_compile.Msgq.Ring.{after, alert_space, fetch_msg_from}
use cross_compile.Msgq.Ring.View.{payload, place, window, window-cons, window-set_first}
use cross_compile.Msgq.Ring.Valid.{IsValid, Kept, contents, room-set, fits-set}
use cross_compile.Msgq.Ring.Copy.{copy_out_lem, clear_first_lem}

-- The alert changes nothing but the condition variable.
alert_space_keeps :
    (q : Mqueue) → IsValid q → IsValid (alert_space q) × (contents (alert_space q) ≡ contents q)
unfolding alert_space
alert_space_keeps q v = elim (Bool-cases (is_null q.first_write_susp)) [
  | inl none_waits ↦ rw none_waits (v, refl)
  | inr writers ↦ elim (Bool-cases (leb (q.msg_count + 1) q.msgs_per_queue)) [
    | inl space ↦ rw (writers, space) (v, refl)
    | inr full ↦ rw (writers, full) (v, refl)
  ]
]

taken : Mqueue → Slot → Mqueue
taken q s = record q {
  queue_head = after q q.queue_head;
  extent = set q.extent q.queue_head s;
  msg_count = q.msg_count - 1;
}

taken-IsValid :
    (q : Mqueue) (s : Slot)
    → IsValid q
    → 0 < q.msg_count
    → s.msglen ≡ 0
    → length s.msgbuf ≡ q.msg_len
    → IsValid (taken q s)
unfolding taken
taken-IsValid q s v some_msg empty len = record {
  elements = length-set q.extent q.queue_head s ∙ v.elements;
  room = room-set q.extent q.queue_head _ _ s v.room len v.elements;
  fits = fits-set q.extent q.queue_head _ _ s v.fits (omega arith) v.elements;
  head_in = ground (arith, v.head_in);
  count_in = omega (arith, v.count_in);
  tail_at = ground (arith, v.tail_at, v.head_in, v.count_in);
}

contents-taken :
    (q : Mqueue) (s : Slot)
    → IsValid q
    → 0 < q.msg_count
    → contents q ≡ payload (get_or q.extent q.queue_head no_slot) ∷ contents (taken q s)
unfolding taken
contents-taken q s v some_msg =
    window-cons _ q.extent q.queue_head q.msg_count some_msg
    ∙ ap (λ r. payload (get_or q.extent q.queue_head no_slot) ∷ r)
        (sym (
            window-set_first _ q.extent s q.queue_head (q.msg_count - 1) (omega (arith, v.count_in))
              v.head_in)
          ∙ ap (λ h. window q.msgs_per_queue (set q.extent q.queue_head s) h (q.msg_count - 1))
              step)
  where
    step : place q.msgs_per_queue q.queue_head 1 ≡ after q q.queue_head
    step = ground (arith, v.head_in)

-- From a valid queue that holds a message, with a buffer for the longest message, the first message
-- is fetched without a fault. It fills the start of the buffer, the rest of the buffer is as before,
-- and the queue is valid and holds the other messages. A queue whose messages have no bytes faults at
-- the last element, and is excluded.
pub fetch_msg_from_refines :
    (q : Mqueue) (buf : List ℕ)
    → IsValid q
    → 0 < q.msg_len
    → q.msg_len ≤ length buf
    → 0 < q.msg_count
    → (q' : Mqueue) × (out : List ℕ) × (n : ℕ) × (fetch_msg_from q (some buf)
        ≡ some (q', some out, n))
      × IsValid q'
      × (contents q ≡ take n out ∷ contents q')
      × (n ≤ q.msg_len)
      × (drop n out ≡ drop n buf)
      × (length out ≡ length buf)
unfolding fetch_msg_from taken
fetch_msg_from_refines q buf v bytes big some_msg =
    let (out, copied, front, back, len) = copy_out_lem first buf held fit in
    let (bs, cleared, len') =
      clear_first_lem q q.queue_head first.msgbuf (inl (omega (arith, v.room _ v.head_in))) in
    let s : Slot = record { msglen = 0; msgbuf = bs } in
    let (v', same) =
      alert_space_keeps (taken q s)
        (taken-IsValid q s v some_msg refl (len' ∙ v.room _ v.head_in)) in
    (
      alert_space (taken q s),
      out,
      first.msglen,
      rw (copied, cleared),
      v',
      contents-taken q s v some_msg ∙ ap₂ ◌∷◌ (sym front) (sym same),
      v.fits _ v.head_in,
      back,
      len,
    )
  where
    first : Slot
    first = get_or q.extent q.queue_head no_slot

    held : first.msglen ≤ length first.msgbuf
    held = omega (arith, v.fits _ v.head_in, v.room _ v.head_in)

    fit : first.msglen ≤ length buf
    fit = omega (arith, v.fits _ v.head_in)

pub fetch_msg_from-Kept :
    (q : Mqueue) (buf : Option (List ℕ)) {q' : Mqueue} {out : Option (List ℕ)} {n : ℕ}
    → fetch_msg_from q buf ≡ some (q', out, n)
    → Kept q q' × (q'.send_type ≡ q.send_type)
unfolding fetch_msg_from alert_space
fetch_msg_from-Kept q buf h = ground arith
