-- ===== src/Susp/Signal.antt =====
-- Which task a suspension list's signal is for (signal_for_my_task of lib/ltaskLib.c).
use cross_compile.Base.{ℕ, ◌≤◌, ◌≡◌, ◌≢◌, true, List, [], ◌∷◌, arith, elem}
use cross_compile.Susp.{Tasks, highest, signalled_task, signal_for_my_task}

highest-ge :
    (ts : Tasks) (t : ℕ) (list : List ℕ)
    → ts.sched_priority t ≤ ts.sched_priority (highest ts t list)
unfolding highest
highest-ge ts t [] = omega arith
highest-ge ts t (x ∷ xs) = ground (arith, highest-ge ts t xs, highest-ge ts x xs)

highest-max :
    (ts : Tasks) (t u : ℕ) (list : List ℕ)
    → elem u list ≡ true
    → ts.sched_priority u ≤ ts.sched_priority (highest ts t list)
unfolding highest
highest-max ts t u [] h = absurd (cc)
highest-max ts t u (x ∷ xs) h =
    ground
      (arith, highest-max ts t u xs, highest-max ts x u xs, highest-ge ts t xs, highest-ge ts x xs)

highest-elem : (ts : Tasks) (t : ℕ) (list : List ℕ) → elem (highest ts t list) (t ∷ list) ≡ true
unfolding highest
highest-elem ts t [] = ground arith
highest-elem ts t (x ∷ xs) = ground (arith, highest-elem ts t xs, highest-elem ts x xs)

-- In priority order the signal on a list that is not empty is for one of its tasks, and no task of
-- the list has a higher priority.
pub signalled_task_lem :
    (ts : Tasks) (first u : ℕ) (rest : List ℕ) (pend_order : ℕ)
    → pend_order ≢ 0
    → elem u (first ∷ rest) ≡ true
    → (elem (signalled_task ts (first ∷ rest) pend_order) (first ∷ rest) ≡ true)
      × (ts.sched_priority u ≤ ts.sched_priority (signalled_task ts (first ∷ rest) pend_order))
unfolding signalled_task
signalled_task_lem ts first u rest pend_order ordered h =
    ground (arith, highest-elem ts first (first ∷ rest), highest-max ts first u (first ∷ rest))

-- A list signals one task at a time: two callers that are both told to go on are the same task.
pub signal_unique :
    (ts : Tasks) (list : List ℕ) (pend_order me you : ℕ)
    → signal_for_my_task ts list pend_order me ≡ true
    → signal_for_my_task ts list pend_order you ≡ true
    → me ≡ you
unfolding signal_for_my_task
signal_unique ts list pend_order me you p q = ground arith
