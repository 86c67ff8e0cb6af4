-- ===== src/Sem/Drain/Order.antt =====
-- semDelete and semFlush to their end, with the waiting tasks leaving in any order.
use mathlib.Core.Path.{ap₂}
use cross_compile.Base.{
  ℕ, ◌+◌, ◌≡◌, ◌≢◌, refl, ap, ◌∙◌, Bool, true, false, List, [], ◌∷◌, arith, elem, erase, length,
  replicate, if◌then◌else◌, Distinct, elem-erase,
}
use cross_compile.Errno.{Result, ok, error, obj_id_error, RetCode}
use cross_compile.Susp
use cross_compile.Sched.{Thread}
use cross_compile.Sem.Types.{SendType, send, flush, killd, Sems, is_mutex}
use cross_compile.Sem.Registry.{sem_find_lock}
use cross_compile.Sem.Take.{Taking, TakeAt, take_look, take_woken, woken_with, take_finish}
use cross_compile.Sem.Counting.{woken_with-fields}
use cross_compile.Sem.Take
use cross_compile.Sem.Delete.{draining, returned, sem_delete, sem_flush, delete_woken, flush_woken}

-- A task in semTake that sleeps in the wait on sem_send, from which the broadcast wakes it, and what
-- the wait returns. (A task in taskDelay is not woken, and is not one of these.)
pub record Waiter : Type 0 where
  pub thread : Thread
  pub wait_returns : RetCode
  pub call : Taking

-- The tasks wake, one after the other; where their next rounds leave the calls.
unfoldable pub wake_all : Sems → List Waiter → Sems × List TakeAt
wake_all w [] = (w, [])
wake_all w (x ∷ xs) =
    let (w', at) = take_woken w x.thread x.wait_returns x.call in
    let (w'', ats) = wake_all w' xs in (w'', at ∷ ats)

-- The tasks of a list, all asleep on sem_send of semaphore `k`, in any order.
pub data AnyOrder (k : ℕ) : List Waiter → List ℕ → Type 0 where
  all_left : AnyOrder k [] []
  next :
      {xs : List Waiter} {waiting : List ℕ} (t : Thread) (rc : RetCode) (c : Taking)
      → t.my_task ≢ 0
      → c.semaphore ≡ k
      → elem t.my_task waiting ≡ true
      → AnyOrder k xs (erase t.my_task waiting)
      → AnyOrder k (record { thread = t; wait_returns = rc; call = c } ∷ xs) waiting

-- What the tasks are told.
abbrev pub answer : SendType → Result (Unit {0})
answer killd = error obj_id_error
answer kind = ok tt

-- Semaphore `k` dismisses these tasks.
pub record Dismissing (k : ℕ) (kind : SendType) (waiting : List ℕ) (w : Sems) : Type 0 where
  pub kind_is : (w.smcb k).send_type ≡ kind
  pub not_send : kind ≢ send
  pub tasks_are : (w.smcb k).first_susp ≡ waiting

abbrev pub no_more : List ℕ → Bool
no_more [] = true
no_more (x ∷ xs) = false

-- One task has left.
abbrev Left : ℕ → SendType → List ℕ → Sems → Sems → Type 0
Left k kind rest w w' =
    ((w'.smcb k).first_susp ≡ rest)
    × ((w'.smcb k).send_type ≡ (if no_more rest then send else kind))
    × ((w'.smcb k).smdel_cplt ≡ (w.smcb k).smdel_cplt + (if no_more rest then 1 else 0))
    × ((w'.smcb k).token_count ≡ (w.smcb k).token_count)
    × (w'.sem_list ≡ w.sem_list)

one_leaves :
    (w : Sems) (t : Thread) (c : Taking) (kind : SendType) (waiting : List ℕ)
    → Dismissing c.semaphore kind waiting w
    → t.my_task ≢ 0
    → elem t.my_task waiting ≡ true
    → ((take_look w t c).1 ≡ Take.returned (answer kind))
      × Left c.semaphore kind (erase t.my_task waiting) w (take_look w t c).0
unfolding take_look take_finish Susp.unlink_susp_task
one_leaves w t c kind waiting d task there = ground arith

some_left :
    {k : ℕ} {x : Waiter} {xs : List Waiter} {waiting : List ℕ}
    → AnyOrder k (x ∷ xs) waiting
    → no_more waiting ≡ false
some_left {waiting = []} (next t rc c task q there o) = absurd (ground arith)
some_left {waiting = y ∷ ys} (next t rc c task q there o) = refl

none_left : {k : ℕ} {waiting : List ℕ} → AnyOrder k [] waiting → waiting ≡ []
none_left all_left = refl

-- All have left.
abbrev Gone : ℕ → SendType → Sems → List Waiter → Type 0
Gone k kind w xs =
    ((wake_all w xs).1 ≡ replicate (length xs) (Take.returned (answer kind)))
    × Left k kind [] w (wake_all w xs).0

module _ (k : ℕ) (kind : SendType) (other : kind ≢ send) where
  one-Left :
      (w : Sems) (t : Thread) (rc : RetCode) (c : Taking) (waiting : List ℕ)
      → c.semaphore ≡ k
      → Dismissing k kind waiting w
      → t.my_task ≢ 0
      → elem t.my_task waiting ≡ true
      → ((take_woken w t rc c).1 ≡ Take.returned (answer kind))
        × Left k kind (erase t.my_task waiting) w (take_woken w t rc c).0
  unfolding take_woken
  one-Left w t rc c waiting q d task there =
      let c' = woken_with rc c in
      let q' : c'.semaphore ≡ k = (woken_with-fields rc c).0 ∙ q in
      let (at, left) =
        one_leaves w t c' kind waiting (coe 1 0 (i. Dismissing (q' i) kind waiting w) d) task
          there in
      (at, coe 0 1 (i. Left (q' i) kind (erase t.my_task waiting) w (take_look w t c').0) left)

  all-Gone :
      (w : Sems) (x : Waiter) (xs : List Waiter) (waiting : List ℕ)
      → AnyOrder k (x ∷ xs) waiting
      → Dismissing k kind waiting w
      → Gone k kind w (x ∷ xs)
  unfolding wake_all
  all-Gone w x [] waiting (next t rc c task q there o) d =
      let (at, left) = one-Left w t rc c waiting q d task there in
      (ap (λ a. a ∷ []) at, coe 0 1 (i. Left k kind (none_left o i) w (take_woken w t rc c).0) left)
  all-Gone w x (y ∷ ys) waiting (next t rc c task q there o) d =
      let (at, (tasks, kind', told, tokens, list)) = one-Left w t rc c waiting q d task there in
      let more : no_more (erase t.my_task waiting) ≡ false = some_left o in
      let d' : Dismissing k kind (erase t.my_task waiting) (take_woken w t rc c).0 = record {
        kind_is = kind' ∙ ap (λ b. if b then send else kind) more;
        not_send = other;
        tasks_are = tasks;
      } in
      let (ats, (tasks', kind'', told', tokens', list')) =
        all-Gone (take_woken w t rc c).0 y ys (erase t.my_task waiting) o d' in
      let quiet = told ∙ ap (λ b. (w.smcb k).smdel_cplt + (if b then 1 else 0)) more in
      (
        ap₂ ◌∷◌ at ats,
        (tasks', kind'', omega (arith, told', quiet), tokens' ∙ tokens, list' ∙ list),
      )

-- What semDelete and semFlush make of a semaphore that tasks wait for.
sem_delete-Dismissing :
    (w : Sems) (by : Thread) (k : ℕ)
    → sem_find_lock w k ≡ true
    → no_more (w.smcb k).first_susp ≡ false
    → (let (w', at) = sem_delete w by k in
        (at ≡ draining k)
        × Dismissing k killd (w.smcb k).first_susp w'
        × ((w'.smcb k).smdel_cplt ≡ (w.smcb k).smdel_cplt)
        × ((w'.smcb k).token_count ≡ (w.smcb k).token_count)
        × (w'.sem_list ≡ w.sem_list))
unfolding sem_delete
sem_delete-Dismissing w by k found waits = ground arith

sem_flush-Dismissing :
    (w : Sems) (by : Thread) (k : ℕ)
    → sem_find_lock w k ≡ true
    → is_mutex (w.smcb k).flags ≡ false
    → no_more (w.smcb k).first_susp ≡ false
    → (let (w', at) = sem_flush w by k in
        (at ≡ draining k)
        × Dismissing k flush (w.smcb k).first_susp w'
        × ((w'.smcb k).smdel_cplt ≡ (w.smcb k).smdel_cplt)
        × ((w'.smcb k).token_count ≡ (w.smcb k).token_count)
        × (w'.sem_list ≡ w.sem_list))
unfolding sem_flush
sem_flush-Dismissing w by k found plain waits = ground arith

-- The sums of two stages.
then-Left :
    (k : ℕ) (kind : SendType) (w w1 w2 : Sems)
    → (w1.smcb k).smdel_cplt ≡ (w.smcb k).smdel_cplt
    → (w1.smcb k).token_count ≡ (w.smcb k).token_count
    → w1.sem_list ≡ w.sem_list
    → Left k kind [] w1 w2
    → Left k kind [] w w2
then-Left k kind w w1 w2 told tokens list (tasks', kind', told', tokens', list') =
    (tasks', kind', omega (arith, told', told), tokens' ∙ tokens, list' ∙ list)

-- semDelete of a semaphore that tasks wait for, on a list without duplicates, while all of these sleep in
-- the wait on sem_send and none is in taskDelay: the call waits. The tasks then wake in any order,
-- whatever their waits return, and each returns ERROR with S_objLib_OBJ_ID_ERROR. Then no task waits, no token has been taken, and smdel_cplt has been signalled
-- exactly once. When semDelete wakes it returns OK, with the semaphore off the list.
pub sem_delete_drains :
    (w : Sems) (by : Thread) (k : ℕ) (x : Waiter) (xs : List Waiter)
    → sem_find_lock w k ≡ true
    → Distinct w.sem_list
    → AnyOrder k (x ∷ xs) (w.smcb k).first_susp
    → (let (w1, at) = sem_delete w by k in
        let (w2, ats) = wake_all w1 (x ∷ xs) in
        let (w3, at') = delete_woken w2 by k in
        (at ≡ draining k)
        × (ats ≡ replicate (length (x ∷ xs)) (Take.returned (error obj_id_error)))
        × ((w2.smcb k).first_susp ≡ [])
        × ((w2.smcb k).token_count ≡ (w.smcb k).token_count)
        × ((w2.smcb k).smdel_cplt ≡ (w.smcb k).smdel_cplt + 1)
        × (at' ≡ returned (ok tt))
        × (sem_find_lock w3 k ≡ false))
unfolding delete_woken sem_find_lock
sem_delete_drains w by k x xs found distinct o =
    let (at, d, quiet, same, list) = sem_delete-Dismissing w by k found (some_left o) in
    let w1 : Sems = (sem_delete w by k).0 in
    let (ats, l) = all-Gone k killd (ground arith) w1 x xs (w.smcb k).first_susp o d in
    let (tasks, kind, told, tokens, list') =
      then-Left k killd w w1 (wake_all w1 (x ∷ xs)).0 quiet same list l in
    let off = elem-erase k w.sem_list distinct in
    (at, ats, tasks, tokens, told, ground (arith, tasks), ground (arith, tasks, list', off))

-- semFlush of a semaphore that is no mutex and that tasks wait for, while all of these sleep in the
-- wait on sem_send and none is in taskDelay: the call waits. The tasks then wake in any order, whatever
-- their waits return, and each returns OK. Then no task waits, no token has
-- been taken, the semaphore is back in service, and smdel_cplt has been signalled exactly once. When
-- semFlush wakes it returns OK, with the semaphore on the list.
pub sem_flush_drains :
    (w : Sems) (by : Thread) (k : ℕ) (x : Waiter) (xs : List Waiter)
    → sem_find_lock w k ≡ true
    → is_mutex (w.smcb k).flags ≡ false
    → AnyOrder k (x ∷ xs) (w.smcb k).first_susp
    → (let (w1, at) = sem_flush w by k in
        let (w2, ats) = wake_all w1 (x ∷ xs) in
        let (w3, at') = flush_woken w2 by k in
        (at ≡ draining k)
        × (ats ≡ replicate (length (x ∷ xs)) (Take.returned (ok tt)))
        × ((w2.smcb k).first_susp ≡ [])
        × ((w2.smcb k).token_count ≡ (w.smcb k).token_count)
        × ((w2.smcb k).send_type ≡ send)
        × ((w2.smcb k).smdel_cplt ≡ (w.smcb k).smdel_cplt + 1)
        × (at' ≡ returned (ok tt))
        × (sem_find_lock w3 k ≡ true))
unfolding flush_woken sem_find_lock
sem_flush_drains w by k x xs found plain o =
    let (at, d, quiet, same, list) = sem_flush-Dismissing w by k found plain (some_left o) in
    let w1 : Sems = (sem_flush w by k).0 in
    let (ats, l) = all-Gone k flush (ground arith) w1 x xs (w.smcb k).first_susp o d in
    let (tasks, kind, told, tokens, list') =
      then-Left k flush w w1 (wake_all w1 (x ∷ xs)).0 quiet same list l in
    (at, ats, tasks, tokens, kind, told, ground (arith, tasks), ground (arith, tasks, list', found))
