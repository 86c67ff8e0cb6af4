-- ===== src/Msgq/Ring/Valid.antt =====
-- The representation invariant of a queue's extent, and the messages that the queue holds.
use native.Mathlib.Decide.{ℕ_discrete}
use cross_compile.Base.{
  refl, [], ℕ, ◌+◌, ◌≤◌, ◌≡◌, arith, List, length, get_or, set, get_or-set_self, get_or-set_ne,
}
use cross_compile.Msgq.Types.{Slot, no_slot, Mqueue}
use cross_compile.Msgq.Ring.View.{window, place, length-window}

-- One element more than msgs_per_queue (`last`); every element has room for the longest message;
-- head and tail lie in the extent, as many elements apart as there are messages.
pub record RingInv (extent : List Slot) (head tail count last size : ℕ) : Type 0 where
  pub elements : length extent ≡ last + 1
  pub room : (i : ℕ) → i ≤ last → length (get_or extent i no_slot).msgbuf ≡ size
  pub fits : (i : ℕ) → i ≤ last → (get_or extent i no_slot).msglen ≤ size
  pub head_in : head ≤ last
  pub count_in : count ≤ last + 1
  pub tail_at : tail ≡ place last head count

abbrev pub IsValid : Mqueue → Type 0
IsValid q = RingInv q.extent q.queue_head q.queue_tail q.msg_count q.msgs_per_queue q.msg_len

-- What the operations on the messages leave alone.
pub record Kept (q q' : Mqueue) : Type 0 where
  pub limit : q'.msgs_per_queue ≡ q.msgs_per_queue
  pub size : q'.msg_len ≡ q.msg_len
  pub readers : q'.first_susp ≡ q.first_susp
  pub writers : q'.first_write_susp ≡ q.first_write_susp
  pub pend_order : q'.order ≡ q.order

-- The messages of a queue, the next to be fetched first.
abbrev pub contents : Mqueue → List (List ℕ)
contents q = window q.msgs_per_queue q.extent q.queue_head q.msg_count

pub length-contents : (q : Mqueue) → length (contents q) ≡ q.msg_count
length-contents q = length-window q.msgs_per_queue q.extent q.queue_head q.msg_count

pub contents-empty : (q : Mqueue) → q.msg_count ≡ 0 → contents q ≡ []
unfolding window
contents-empty q e = rw e refl

-- What an element holds after a write keeps the bounds of all elements.
module _ (slots : List Slot) (t last size : ℕ) (v : Slot) where
  pub room-set :
      ((i : ℕ) → i ≤ last → length (get_or slots i no_slot).msgbuf ≡ size)
      → length v.msgbuf ≡ size
      → length slots ≡ last + 1
      → (i : ℕ) → i ≤ last
      → length (get_or (set slots t v) i no_slot).msgbuf ≡ size
  room-set room hv len i hi = elim (ℕ_discrete t i) [
    | yes e ↦ rw e (rw (get_or-set_self slots i v no_slot (omega arith)) hv)
    | no ne ↦ rw (get_or-set_ne slots t i v no_slot ne) (room i hi)
  ]

  pub fits-set :
      ((i : ℕ) → i ≤ last → (get_or slots i no_slot).msglen ≤ size)
      → v.msglen ≤ size
      → length slots ≡ last + 1
      → (i : ℕ) → i ≤ last
      → (get_or (set slots t v) i no_slot).msglen ≤ size
  fits-set fits hv len i hi = elim (ℕ_discrete t i) [
    | yes e ↦ rw e (rw (get_or-set_self slots i v no_slot (omega arith)) hv)
    | no ne ↦ rw (get_or-set_ne slots t i v no_slot ne) (fits i hi)
  ]
