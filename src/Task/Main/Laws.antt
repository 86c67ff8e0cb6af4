-- ===== src/Task/Main/Laws.antt =====
-- The two ways in which a program starts.
use cross_compile.Base.{
  ℕ, ◌-◌, ◌%◌, ◌^◌, ◌≡◌, ◌≢◌, refl, sym, ap, ◌∙◌, true, false, some, List, [], ◌∷◌, ◌++◌, arith,
  ◌==◌, ==_refl, ==_false,
}
use cross_compile.Sched.{task_lock, task_unlock}
use cross_compile.Task.Types.{World, is_dead, locked, readied}
use cross_compile.Task.Table.{new_tcb, new_sems}
use cross_compile.Task.Start.{task_activate}
use cross_compile.Task.Start.Laws.{task_activate-dead}
use cross_compile.Task.Start.Spawn.{task_for_last}
use cross_compile.Task.Locking.{locked_first, unlocked_level}
use cross_compile.Task.Kernel.{v2lin_init}
use cross_compile.Task.Kernel.Init.{
  put, put_lem, excp_up, excp_lem, excp_up_free, v2lin_init_lem, IsReady,
}
use cross_compile.Task.Main.{main_start, root_task_start}

-- The two tasks of the system are listed and READY, with the threads and the entry point, the root task
-- at the highest priority and the exception task at the one below, and the scheduler is free.
abbrev pub Up : ℕ → World → ℕ → ℕ → ℕ → ℕ → ℕ → Type 0
Up max_priority v root_task excp_task thread id exception_task =
    (v.task_list ≡ root_task ∷ excp_task ∷ [])
    × (v.sems.sched.locker ≡ 0)
    × ((v.tcb root_task).pthrid ≡ thread)
    × IsReady v root_task
    × (v.sems.tasks.sched_priority root_task ≡ max_priority)
    × ((v.tcb excp_task).pthrid ≡ id)
    × IsReady v excp_task
    × ((v.tcb excp_task).entry_point ≡ exception_task)
    × (v.sems.tasks.sched_priority excp_task ≡ max_priority - 1)

first_lem :
    (w : World) (self task : ℕ) (name : List ℕ) (entry priority id : ℕ)
    → task % 2 ^ 32 ≢ 0
    → task ≢ 0
    → w.task_list ≡ []
    → (let v = put w task name entry priority in
        (task_activate v self (v.tcb task).taskid (some id)).0
        ≡ excp_up w self task name entry priority id)
unfolding new_tcb new_sems
first_lem w self task name entry priority id low real list =
    let v = put w task name entry priority in
    let it : (v.tcb task).taskid ≡ task % 2 ^ 32 = rw (==_refl task) refl in
    let list' : v.task_list ≡ [] ++ task ∷ [] = rw list refl in
    let found =
      task_for_last v self (v.tcb task).taskid task [] list' tt refl (λ q. low (sym it ∙ q)) in
    let dead : is_dead v task ≡ true = ground arith in
    ap (λ r. r.0) (task_activate-dead v self (v.tcb task).taskid task id found real dead)

up_level :
    (w : World) (self task : ℕ) (name : List ℕ) (entry priority id : ℕ)
    → w.sems.sched.locker ≡ 0
    → w.sems.sched.task_lock_level ≡ 0
    → (excp_up w self task name entry priority id).sems.sched.task_lock_level ≡ 0
unfolding new_sems
up_level w self task name entry priority id free level =
    let v = put w task name entry priority in
    let (own, one) = locked_first v self (ground arith) (ground arith) in
    unlocked_level (readied (locked v self) task id) self own one

main_steps :
    (w : World) (self rt excp_task : ℕ) (root_name excp_name : List ℕ)
    (root_task exception_task thread id : ℕ)
    → rt % 2 ^ 32 ≢ 0
    → excp_task % 2 ^ 32 ≢ 0
    → rt % 2 ^ 32 ≢ excp_task % 2 ^ 32
    → w.task_list ≡ []
    → (let v = excp_up w self rt root_name root_task w.sems.sched.max_priority thread in
        root_task_start
          (main_start w self rt root_name root_task (some thread))
          thread
          excp_task
          excp_name
          exception_task
          (some id)
        ≡ excp_up v thread excp_task excp_name exception_task (v.sems.sched.max_priority - 1) id)
unfolding main_start root_task_start new_tcb
main_steps w self rt excp_task root_name excp_name root_task exception_task thread id low low' ids
      empty =
    let max_priority = w.sems.sched.max_priority in
    let real : rt ≢ 0 = λ q. low (ap (λ x. x % 2 ^ 32) q) in
    let real' : excp_task ≢ 0 = λ q. low' (ap (λ x. x % 2 ^ 32) q) in
    let v = excp_up w self rt root_name root_task max_priority thread in
    let first : main_start w self rt root_name root_task (some thread) ≡ v =
      ap (λ u. (task_activate u self (u.tcb rt).taskid (some thread)).0)
        (put_lem w rt root_name root_task max_priority real)
      ∙ first_lem w self rt root_name root_task max_priority thread low real empty in
    let it : (v.tcb rt).taskid ≡ rt % 2 ^ 32 = rw (==_refl rt) refl in
    ap (λ u. root_task_start u thread excp_task excp_name exception_task (some id)) first
    ∙ ap (λ u. (task_activate u thread (u.tcb excp_task).taskid (some id)).0)
        (put_lem v excp_task excp_name exception_task (v.sems.sched.max_priority - 1) real')
    ∙ excp_lem v thread rt excp_task excp_name exception_task (v.sems.sched.max_priority - 1) id
        low' real' (λ q. ids (ap (λ x. x % 2 ^ 32) q)) (λ q. ids (sym it ∙ q)) (rw empty refl)

up_max :
    (w : World) (self task : ℕ) (name : List ℕ) (entry priority id : ℕ)
    → (excp_up w self task name entry priority id).sems.sched.max_priority
      ≡ w.sems.sched.max_priority
unfolding new_sems task_lock task_unlock
up_max w self task name entry priority id = ground arith

main_lem :
    (w : World) (self rt excp_task : ℕ) (root_name excp_name : List ℕ)
    (root_task exception_task thread id : ℕ)
    → rt % 2 ^ 32 ≢ 0
    → excp_task % 2 ^ 32 ≢ 0
    → rt % 2 ^ 32 ≢ excp_task % 2 ^ 32
    → w.task_list ≡ []
    → w.sems.sched.locker ≡ 0
    → w.sems.sched.task_lock_level ≡ 0
    → Up w.sems.sched.max_priority
        (root_task_start
          (main_start w self rt root_name root_task (some thread))
          thread
          excp_task
          excp_name
          exception_task
          (some id))
        rt
        excp_task
        thread
        id
        exception_task
unfolding new_tcb new_sems
main_lem w self rt excp_task root_name excp_name root_task exception_task thread id low low' ids
      empty free level =
    let max_priority = w.sems.sched.max_priority in
    let v = excp_up w self rt root_name root_task max_priority thread in
    let apart : (rt == excp_task) ≡ false =
      ==_false rt excp_task (λ q. ids (ap (λ x. x % 2 ^ 32) q)) in
    let free' = excp_up_free w self rt root_name root_task max_priority thread free level in
    let level' = up_level w self rt root_name root_task max_priority thread free level in
    let same = up_max w self rt root_name root_task max_priority thread in
    rw
      (main_steps w self rt excp_task root_name excp_name root_task exception_task thread id low
        low' ids empty)
      (
        rw empty refl,
        excp_up_free v thread excp_task excp_name exception_task (v.sems.sched.max_priority - 1) id
            free' level',
        rw (apart, ==_refl rt) refl,
        (ground arith, ground arith, ground arith),
        rw (apart, ==_refl rt) refl,
        rw (==_refl excp_task) refl,
        (ground arith, ground arith, ground arith),
        rw (==_refl excp_task) refl,
        rw (==_refl excp_task) (ap (λ m. m - 1) same),
      )

-- A program starts by v2lin_init, or by main and then the root task on the thread made for it, while
-- there are no tasks and the scheduler is free, with a thread for each taskActivate that makes one,
-- and with two blocks whose addresses differ in their 32 low bits, which are not 0. In both cases
-- the list is then the root task and the exception task, and the scheduler is free. Both tasks are
-- READY, the root task at the highest priority, on the calling thread or the one made for it, the
-- exception task at the priority below, on its own thread and at its entry point.
pub startup_lem :
    (w : World) (self rt excp_task : ℕ) (root_name excp_name : List ℕ)
    (root_task exception_task thread id : ℕ)
    → rt % 2 ^ 32 ≢ 0
    → excp_task % 2 ^ 32 ≢ 0
    → rt % 2 ^ 32 ≢ excp_task % 2 ^ 32
    → w.task_list ≡ []
    → w.sems.sched.locker ≡ 0
    → w.sems.sched.task_lock_level ≡ 0
    → (let by_init = v2lin_init w self rt excp_task root_name excp_name exception_task (some id) in
        let main = main_start w self rt root_name root_task (some thread) in
        let by_main = root_task_start main thread excp_task excp_name exception_task (some id) in
        let max_priority = w.sems.sched.max_priority in
        Up max_priority by_init rt excp_task self id exception_task
        × Up max_priority by_main rt excp_task thread id exception_task)
startup_lem w self rt excp_task root_name excp_name root_task exception_task thread id low low' ids
      empty free level =
    (
      v2lin_init_lem w self rt excp_task root_name excp_name exception_task id low low' ids empty
          free level,
      main_lem w self rt excp_task root_name excp_name root_task exception_task thread id low low'
          ids empty free level,
    )
