-- ===== src/Msgq/Flow/Bounds.antt =====
-- What keeps the accesses to a queue in bounds, whether or not it is overrun.
use cross_compile.Base.{
  ℕ, ◌+◌, ◌-◌, ◌<◌, ◌≤◌, ◌≡◌, refl, ap, ◌∙◌, sym, Bool, true, false, Option, some, some-injective,
  List, arith, length, get_or, set, length-set, inl, leb, Bool-cases, inr,
}
use cross_compile.Msgq.Types.{SendType, Slot, no_slot, Mqueue, is_null}
use cross_compile.Msgq.Ring.{before, after, send_msg_to, urgent_msg_to, fetch_msg_from, alert_space}
use cross_compile.Msgq.Ring.Valid.{IsValid, room-set, fits-set}
use cross_compile.Msgq.Ring.Copy.{store_at_lem, copy_out_lem, clear_first_lem}
use cross_compile.Msgq.Ring.Fetch.{fetch_msg_from-Kept}
use cross_compile.Msgq.Send.{post}
use cross_compile.Msgq.Send.Cases.{post-Kept}
use cross_compile.Msgq.Flow.{Event, Core, core}
use cross_compile.Msgq.Flow.Moves.{Moved, idle, posts, overfills, fetches}

-- As for a valid queue, but the count may be anything, and the tail is only in the extent.
pub record BoundsInv (extent : List Slot) (head tail last size : ℕ) : Type 0 where
  pub elements : length extent ≡ last + 1
  pub room : (i : ℕ) → i ≤ last → length (get_or extent i no_slot).msgbuf ≡ size
  pub fits : (i : ℕ) → i ≤ last → (get_or extent i no_slot).msglen ≤ size
  pub head_in : head ≤ last
  pub tail_in : tail ≤ last

abbrev pub CoreInBounds : Core → Type 0
CoreInBounds c = BoundsInv c.extent c.queue_head c.queue_tail c.msgs_per_queue c.msg_len

abbrev pub InBounds : Mqueue → Type 0
InBounds q = CoreInBounds (core q)

pub valid-InBounds : (q : Mqueue) → IsValid q → InBounds q
valid-InBounds q v = record {
  elements = v.elements;
  room = v.room;
  fits = v.fits;
  head_in = v.head_in;
  tail_in = ground (arith, v.tail_at, v.head_in);
}

-- An element may be written, and the head and the tail may move, in the extent.
written-InBounds :
    (q : Mqueue) (i head tail : ℕ) (s : Slot)
    → InBounds q
    → length s.msgbuf ≡ q.msg_len
    → s.msglen ≤ q.msg_len
    → head ≤ q.msgs_per_queue
    → tail ≤ q.msgs_per_queue
    → BoundsInv (set q.extent i s) head tail q.msgs_per_queue q.msg_len
written-InBounds q i head tail s v len small h t = record {
  elements = length-set q.extent i s ∙ v.elements;
  room = room-set q.extent i _ _ s v.room len v.elements;
  fits = fits-set q.extent i _ _ s v.fits small v.elements;
  head_in = h;
  tail_in = t;
}

pub post-InBounds :
    (q : Mqueue) (msg : List ℕ) (n : ℕ) (u : Bool)
    → InBounds q
    → n ≤ q.msg_len
    → n ≤ length msg
    → (q' : Mqueue) × (post q (some msg) n u ≡ some q') × InBounds q'
unfolding post urgent_msg_to send_msg_to
post-InBounds q msg n true v small avail =
    let head_in : before q q.queue_head ≤ q.msgs_per_queue = ground (arith, v.head_in) in
    let len = v.room (before q q.queue_head) head_in in
    let (s, e, front, ln, lb) =
      store_at_lem q (before q q.queue_head) n msg avail (omega (arith, len)) in
    (
      record q {
        queue_head = before q q.queue_head;
        send_type = SendType.urgnt;
        extent = set q.extent (before q q.queue_head) s;
        msg_count = q.msg_count + 1;
        queue_send = q.queue_send + 1;
      },
      rw e,
      written-InBounds q _ _ _ s v (lb ∙ len) (omega (arith, ln)) head_in v.tail_in,
    )
post-InBounds q msg n false v small avail =
    let len = v.room q.queue_tail v.tail_in in
    let (s, e, front, ln, lb) = store_at_lem q q.queue_tail n msg avail (omega (arith, len)) in
    (
      record q {
        queue_send = q.queue_send + 1;
        queue_tail = after q q.queue_tail;
        send_type = SendType.send;
        extent = set q.extent q.queue_tail s;
        msg_count = q.msg_count + 1;
      },
      rw e,
      written-InBounds q _ _ _ s v (lb ∙ len) (omega (arith, ln)) v.head_in
          (ground (arith, v.tail_in)),
    )

alert_space-core : (q : Mqueue) → core (alert_space q) ≡ core q
unfolding alert_space
alert_space-core q = elim (Bool-cases (is_null q.first_write_susp)) [
  | inl h ↦ rw h refl
  | inr h ↦ elim (Bool-cases (leb (q.msg_count + 1) q.msgs_per_queue)) [
    | inl s ↦ rw (h, s) refl
    | inr f ↦ rw (h, f) refl
  ]
]

pub fetch-InBounds :
    (q : Mqueue) (buf : List ℕ)
    → InBounds q
    → 0 < q.msg_len
    → q.msg_len ≤ length buf
    → (q' : Mqueue) × (out : Option (List ℕ)) × (n : ℕ) × (fetch_msg_from q (some buf)
        ≡ some (q', out, n))
      × InBounds q'
unfolding fetch_msg_from
fetch-InBounds q buf v bytes big =
    let len = v.room q.queue_head v.head_in in
    let fit = v.fits q.queue_head v.head_in in
    let (out, copied, front, back, same) =
      copy_out_lem (get_or q.extent q.queue_head no_slot) buf (omega arith) (omega arith) in
    let (bs, cleared, len') =
      clear_first_lem q q.queue_head (get_or q.extent q.queue_head no_slot).msgbuf
        (inl (omega arith)) in
    (
      alert_space (fetched_from bs),
      some out,
      (get_or q.extent q.queue_head no_slot).msglen,
      rw (copied, cleared),
      coe 1 0 (i. CoreInBounds (alert_space-core (fetched_from bs) i)) (
          written-InBounds q _ _ _ (record { msglen = 0; msgbuf = bs }) v (len' ∙ len) (omega arith)
            (ground (arith, v.head_in)) v.tail_in),
    )
  where
    fetched_from : List ℕ → Mqueue
    fetched_from bs = record q {
      queue_head = after q q.queue_head;
      extent = set q.extent q.queue_head (record { msglen = 0; msgbuf = bs });
      msg_count = q.msg_count - 1;
    }

abbrev pub Bounded : ℕ → Mqueue → Type 0
Bounded size q = InBounds q × (q.msg_len ≡ size)

pub core-Bounded : {size : ℕ} (p q : Mqueue) → core p ≡ core q → Bounded size q → Bounded size p
core-Bounded p q same (v, l) = (coe 1 0 (i. CoreInBounds (same i)) v, ap (λ c. c.msg_len) same ∙ l)

posted-Bounded :
    {size : ℕ} (p q' : Mqueue) (msg : List ℕ) (n : ℕ) (u : Bool)
    → Bounded size p
    → n ≤ p.msg_len
    → n ≤ length msg
    → post p (some msg) n u ≡ some q'
    → Bounded size q'
posted-Bounded p q' msg n u (v, l) small avail e =
    let (r, er, v') = post-InBounds p msg n u v small avail in
    (
      coe 0 1 (i. InBounds (some-injective _ _ (sym er ∙ e) i)) v',
      (post-Kept p (some msg) n u e).0.size ∙ l,
    )

pub Moved-Bounded :
    {size : ℕ} {q q' : Mqueue} {e : Event}
    → 0 < size
    → Bounded size q
    → Moved q q' e
    → Bounded size q'
Moved-Bounded {q = q} {q' = q'} bytes b (idle same) = core-Bounded q' q same b
Moved-Bounded {q = q} {q' = q'} bytes b (posts p msg n u front same room small avail which e) =
    posted-Bounded p q' msg n front (core-Bounded p q same b) small avail e
Moved-Bounded {q = q} {q' = q'} bytes b (overfills p msg n u same over small avail e) =
    posted-Bounded p q' msg n u (core-Bounded p q same b) small avail e
Moved-Bounded {q = q} {q' = q'} bytes b (fetches p buf out n same some_msg big e) =
    let (v, l) = core-Bounded p q same b in
    let (r, out', n', er, v') = fetch-InBounds p buf v (omega arith) big in
    (
      coe 0 1 (i. InBounds (some-injective _ _ (sym er ∙ e) i).0) v',
      (fetch_msg_from-Kept p (some buf) e).0.size ∙ l,
    )
