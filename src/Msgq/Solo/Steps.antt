-- ===== src/Msgq/Solo/Steps.antt =====
-- Facts about a queue at rest, which no task waits for.
use cross_compile.Base.{
  ℕ, ◌≡◌, ◌≢◌, refl, ap, ◌∙◌, true, false, some, List, [], ◌∷◌, arith, length, take,
}
use cross_compile.Susp
use cross_compile.Susp.{Tasks, signalled_task, highest, signal_for_my_task}
use cross_compile.Msgq.Types.{Mqueue, Queues, set_qcb, is_killd}
use cross_compile.Clock.{Timeval}
use cross_compile.Msgq.Solo.{Op, call, spec_call}
use cross_compile.Msgq.Ring.Valid.{IsValid, Kept, contents}
use cross_compile.Msgq.Registry.{mqueue_find_lock}
use cross_compile.Msgq.Receive.{join_readers}

pub record AtRest (limit size : ℕ) (w : Queues) (queue : ℕ) : Type 0 where
  pub found : mqueue_find_lock w queue ≡ true
  pub valid : IsValid (w.qcb queue)
  pub alive : is_killd (w.qcb queue).send_type ≡ false
  pub readers : (w.qcb queue).first_susp ≡ []
  pub writers : (w.qcb queue).first_write_susp ≡ []
  pub limit_is : (w.qcb queue).msgs_per_queue ≡ limit
  pub size_is : (w.qcb queue).msg_len ≡ size

pub signal_alone :
    (ts : Tasks) (pend_order me : ℕ) → signal_for_my_task ts (me ∷ []) pend_order me ≡ true
unfolding signal_for_my_task signalled_task highest
signal_alone ts pend_order me = ground arith

pub join_readers_alone :
    (w : Queues) (me queue : ℕ)
    → me ≢ 0
    → (w.qcb queue).first_susp ≡ []
    → (w.qcb queue).first_write_susp ≡ []
    → (join_readers w me queue).qcb queue ≡ record (w.qcb queue) { first_susp = me ∷ [] }
unfolding join_readers Susp.link_susp_task Susp.until
join_readers_alone w me queue task nr nw = ground arith

pub leave_alone : (ts : Tasks) (me : ℕ) → me ≢ 0 → (Susp.unlink_susp_task ts (me ∷ []) me).1 ≡ []
unfolding Susp.unlink_susp_task
leave_alone ts me task = ground arith

pub set_qcb_self : (w : Queues) (q : ℕ) (m : Mqueue) → (set_qcb w q m).qcb q ≡ m
set_qcb_self w q m = ground arith

pub take-length : (xs : List ℕ) → take (length xs) xs ≡ xs
take-length [] = refl
take-length (x ∷ xs) = ap (◌∷◌ x) (take-length xs)

-- What a call has to give: the reply and the messages of the specification, and rest again.
abbrev pub Refines : ℕ → ℕ → Queues → ℕ → Timeval → ℕ → Op → Type 0
Refines limit size w me now queue op =
    (w' : Queues) × (call w me now queue op
      ≡ some (w', (spec_call limit size (contents (w.qcb queue)) op).1))
    × AtRest limit size w' queue
    × (contents (w'.qcb queue) ≡ (spec_call limit size (contents (w.qcb queue)) op).0)

module _ {limit size : ℕ} {w : Queues} {queue : ℕ} (r : AtRest limit size w queue) where
  -- The queue with other contents is at rest too.
  pub after-AtRest :
      (q' : Mqueue)
      → IsValid q'
      → Kept (w.qcb queue) q'
      → is_killd q'.send_type ≡ false
      → AtRest limit size (set_qcb w queue q') queue
  unfolding mqueue_find_lock
  after-AtRest q' v k alive = record {
    found = r.found;
    valid = rw (set_qcb_self w queue q') v;
    alive = rw (set_qcb_self w queue q') alive;
    readers = rw (set_qcb_self w queue q') (k.readers ∙ r.readers);
    writers = rw (set_qcb_self w queue q') (k.writers ∙ r.writers);
    limit_is = rw (set_qcb_self w queue q') (k.limit ∙ r.limit_is);
    size_is = rw (set_qcb_self w queue q') (k.size ∙ r.size_is);
  }
