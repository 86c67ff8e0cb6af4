-- ===== src/Tests/Sample.antt =====
-- A queue for the tests: two messages of at most three bytes, which go round the end of the extent.
use cross_compile.Base.{
  ℕ, zero, suc, ◌<◌, ◌≤◌, ◌≡◌, refl, false, List, [], ◌∷◌, arith, length, get_or,
}
use cross_compile.Msgq.Types.{SendType, Slot, no_slot, Mqueue, Queues}
use cross_compile.Msgq.Ring.Valid.{IsValid}

-- The elements of an extent, one by one.
abbrev Fit : ℕ → List Slot → Type 0
Fit size [] = Unit {0}
Fit size (s ∷ ss) = (length s.msgbuf ≡ size) × (s.msglen ≤ size) × Fit size ss

Fit-room :
    (size : ℕ) (slots : List Slot) (i : ℕ)
    → Fit size slots
    → i < length slots
    → length (get_or slots i no_slot).msgbuf ≡ size
Fit-room size [] i f h = absurd (omega arith)
Fit-room size (s ∷ ss) zero f h = f.0
Fit-room size (s ∷ ss) (suc i) f h = Fit-room size ss i f.2 (omega arith)

Fit-fits :
    (size : ℕ) (slots : List Slot) (i : ℕ)
    → Fit size slots
    → i < length slots
    → (get_or slots i no_slot).msglen ≤ size
Fit-fits size [] i f h = absurd (omega arith)
Fit-fits size (s ∷ ss) zero f h = f.1
Fit-fits size (s ∷ ss) (suc i) f h = Fit-fits size ss i f.2 (omega arith)

abbrev pub slots : List Slot
slots =
    record { msglen = 1; msgbuf = 30 ∷ 0 ∷ 0 ∷ [] }
    ∷ record { msglen = 0; msgbuf = 0 ∷ 0 ∷ 0 ∷ [] }
    ∷ record { msglen = 2; msgbuf = 10 ∷ 20 ∷ 0 ∷ [] }
    ∷ []

slots-Fit : Fit 3 slots
slots-Fit = (refl, omega arith, (refl, omega arith, (refl, omega arith, tt)))

-- The messages 10 20 and 30, in a queue for two messages.
abbrev pub full_queue : Mqueue
full_queue = record {
  queue_send = 0;
  qdlet_cmplt = 0;
  queue_space = 0;
  queue_head = 2;
  queue_tail = 1;
  send_type = SendType.send;
  extent = slots;
  first_susp = [];
  first_write_susp = [];
  msg_count = 2;
  msgs_per_queue = 2;
  msg_len = 3;
  vmsg_len = 11;
  order = 0;
}

pub full_queue-IsValid : IsValid full_queue
full_queue-IsValid = record {
  elements = refl;
  room = λ i h. Fit-room 3 slots i slots-Fit (omega arith);
  fits = λ i h. Fit-fits 3 slots i slots-Fit (omega arith);
  head_in = omega arith;
  count_in = omega arith;
  tail_at = refl;
}

-- The message 30 alone.
abbrev pub half_queue : Mqueue
half_queue = record full_queue { queue_head = 0; msg_count = 1 }

pub half_queue-IsValid : IsValid half_queue
half_queue-IsValid = record {
  elements = refl;
  room = λ i h. Fit-room 3 slots i slots-Fit (omega arith);
  fits = λ i h. Fit-fits 3 slots i slots-Fit (omega arith);
  head_in = omega arith;
  count_in = omega arith;
  tail_at = refl;
}

-- The system with one queue, at 7.
abbrev pub with_queue : Mqueue → Queues
with_queue q = record {
  tasks = record { sched_priority = λ t. 10; pend = λ t. false };
  mqueue_list = 7 ∷ [];
  qcb = λ j. q;
}
