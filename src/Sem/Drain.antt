-- ===== src/Sem/Drain.antt =====
-- The waiting tasks leave a semaphore that is being deleted or flushed.
pub mod Order
use cross_compile.Base.{
  ℕ, ◌+◌, ◌≡◌, ◌≢◌, ap, ◌∙◌, Bool, true, false, none, List, [], ◌∷◌, arith, if◌then◌else◌,
}
use cross_compile.Errno.{ok, awake}
use cross_compile.Susp
use cross_compile.Sched.{Thread}
use cross_compile.Sem.Types.{send, Sems}
use cross_compile.Sem.Take.{Taking, take_look}
use cross_compile.Sem.Delete.{returned, delete_woken, flush_woken}
use cross_compile.Sem.Cases.{dismissed_lem}

-- A waiting task, in a wait without a timeout.
abbrev pub task_thread : ℕ → Thread
task_thread t = record { pthread_self = t; my_task = t }

abbrev pub patient : ℕ → Taking
patient k = record { semaphore = k; impatient = false; timeout = none; retcode = awake }

-- The tasks wake up one after the other.
unfoldable pub all_woken : Sems → ℕ → List ℕ → Sems
all_woken w k [] = w
all_woken w k (t ∷ ts) = all_woken (take_look w (task_thread t) (patient k)).0 k ts

abbrev pub Tasked : List ℕ → Type 0
Tasked [] = Unit {0}
Tasked (t ∷ ts) = (t ≢ 0) × Tasked ts

unlink-first :
    (ts : Susp.Tasks) (t : ℕ) (rest : List ℕ)
    → t ≢ 0
    → (Susp.unlink_susp_task ts (t ∷ rest) t).1 ≡ rest
unfolding Susp.unlink_susp_task
unlink-first ts t rest task = ground arith

abbrev none_of : List ℕ → Bool
none_of l = elim l [ [] ↦ true | x ∷ xs ↦ false ]

-- What a round does for the first of the waiting tasks.
first_leaves :
    (w : Sems) (k t : ℕ) (rest : List ℕ)
    → t ≢ 0
    → (w.smcb k).send_type ≢ send
    → (w.smcb k).first_susp ≡ t ∷ rest
    → (let s' = (take_look w (task_thread t) (patient k)).0.smcb k in
        (s'.first_susp ≡ rest)
        × (s'.token_count ≡ (w.smcb k).token_count)
        × (s'.send_type ≡ (if none_of rest then send else (w.smcb k).send_type))
        × (s'.smdel_cplt
            ≡ (if none_of rest then (w.smcb k).smdel_cplt + 1 else (w.smcb k).smdel_cplt)))
first_leaves w k t rest task gone first =
    let (done, tokens, owner, left, type', told) =
      dismissed_lem w (task_thread t) (patient k) gone in
    let left' =
      left
      ∙ ap (λ l. (Susp.unlink_susp_task w.tasks l t).1) first
      ∙ unlink-first w.tasks t rest task in
    (
      left',
      tokens,
      type' ∙ ap (λ (l : List ℕ). if none_of l then send else (w.smcb k).send_type) left',
      told
          ∙ ap
              (λ (l : List ℕ).
                if none_of l then (w.smcb k).smdel_cplt + 1 else (w.smcb k).smdel_cplt)
              left',
    )

-- Once the tasks that wait for a semaphore have been dismissed by semDelete or semFlush, and
-- each of them (all waiting without a timeout) has woken in the order of the list, no task
-- waits, the semaphore is back in service, smdel_cplt has been signalled exactly once, no token
-- has been taken, and the call that dismissed the tasks returns OK.
pub all_woken_lem :
    (w : Sems) (k t : ℕ) (rest : List ℕ) (by : Thread)
    → Tasked (t ∷ rest)
    → (w.smcb k).send_type ≢ send
    → (w.smcb k).first_susp ≡ t ∷ rest
    → (let w' = all_woken w k (t ∷ rest) in
        ((w'.smcb k).first_susp ≡ [])
        × ((w'.smcb k).send_type ≡ send)
        × ((w'.smcb k).smdel_cplt ≡ (w.smcb k).smdel_cplt + 1)
        × ((w'.smcb k).token_count ≡ (w.smcb k).token_count)
        × ((delete_woken w' by k).1 ≡ returned (ok tt))
        × ((flush_woken w' by k).1 ≡ returned (ok tt)))
unfolding all_woken delete_woken flush_woken
all_woken_lem w k t [] by tasks gone first =
    let l = first_leaves w k t [] tasks.0 gone first in ground arith
all_woken_lem w k t (u ∷ rest) by tasks gone first =
    let (first', tokens, type', told) = first_leaves w k t (u ∷ rest) tasks.0 gone first in
    let l =
      all_woken_lem (take_look w (task_thread t) (patient k)).0 k u rest by tasks.1
        (λ e. gone (ground arith)) first' in
    ground arith
