-- ===== src/Task/Kernel/Init.antt =====
-- What v2lin_init makes.
use cross_compile.Base.{
  ℕ, ◌-◌, ◌%◌, ◌^◌, ◌≡◌, ◌≢◌, refl, sym, ap, ◌∙◌, true, false, none, some, List, [], ◌∷◌, ◌++◌,
  arith, ◌==◌, ==_refl, ==_false,
}
use cross_compile.Base.Int.{pos}
use cross_compile.Priority.{translate_priority}
use cross_compile.Task.Locking.{locked_first, unlocked_last, unlocked_level}
use cross_compile.Task.Types.{World, set_tcb, locked, unlocked, readied, is_dead}
use cross_compile.Task.Table.{new_tcb, new_sems, task_init}
use cross_compile.Task.Start.{task_activate}
use cross_compile.Task.Start.Laws.{task_init-ok, task_activate-dead, task_activate_ready}
use cross_compile.Task.Start.Spawn.{task_for_last}
use cross_compile.Task.Kernel.{system_task, with_priority, v2lin_init}

-- A system task that was put in, with a priority.
abbrev pub put : World → ℕ → List ℕ → ℕ → ℕ → World
put w task name entry priority =
    with_priority
      (record (set_tcb w task (new_tcb w task (system_task name entry) true)) {
        sems =
            new_sems w.sems task
              (translate_priority (pos 0) w.min_priority w.sems.sched.max_priority).0;
        task_list = w.task_list ++ task ∷ [];
      })
      task priority

in_range : (min max : ℕ) → (translate_priority (pos 0) min max).1 ≡ none
unfolding translate_priority
in_range min max = refl

pub put_lem :
    (w : World) (task : ℕ) (name : List ℕ) (entry priority : ℕ)
    → task ≢ 0
    → with_priority (task_init w task (system_task name entry) true).0 task priority
      ≡ put w task name entry priority
put_lem w task name entry priority real =
    ap (λ r. with_priority r.0 task priority)
      (task_init-ok w task (system_task name entry) true refl real
        (in_range w.min_priority w.sems.sched.max_priority))

-- The two steps of v2lin_init, the second on what the first left.
abbrev pub root_up : World → ℕ → ℕ → List ℕ → ℕ → World
root_up w self root_task name max_priority =
    unlocked (locked (readied (put w root_task name 0 max_priority) root_task self) self) self

abbrev pub excp_up : World → ℕ → ℕ → List ℕ → ℕ → ℕ → ℕ → World
excp_up w self excp_task name entry priority id =
    unlocked (readied (locked (put w excp_task name entry priority) self) excp_task id) self

root_lem :
    (w : World) (self root_task : ℕ) (name : List ℕ) (max_priority : ℕ)
    → root_task % 2 ^ 32 ≢ 0
    → w.task_list ≡ []
    → (let w2 = readied (put w root_task name 0 max_priority) root_task self in
        (task_activate w2 self (w2.tcb root_task).taskid none).0
        ≡ root_up w self root_task name max_priority)
unfolding new_tcb
root_lem w self root_task name max_priority low empty =
    let w2 = readied (put w root_task name 0 max_priority) root_task self in
    let it : (w2.tcb root_task).taskid ≡ root_task % 2 ^ 32 = rw (==_refl root_task) refl in
    let list : w2.task_list ≡ [] ++ root_task ∷ [] = rw empty refl in
    let found =
      task_for_last w2 self (w2.tcb root_task).taskid root_task [] list tt refl
        (λ q. low (sym it ∙ q)) in
    let ready : is_dead w2 root_task ≡ false = rw (==_refl root_task) refl in
    ap (λ r. r.0)
      (task_activate_ready w2 self (w2.tcb root_task).taskid root_task none found
        (λ q. low (ap (λ x. x % 2 ^ 32) q)) ready)

pub excp_lem :
    (w : World) (self root_task excp_task : ℕ) (name : List ℕ) (entry priority id : ℕ)
    → excp_task % 2 ^ 32 ≢ 0
    → excp_task ≢ 0
    → root_task ≢ excp_task
    → (w.tcb root_task).taskid ≢ excp_task % 2 ^ 32
    → w.task_list ≡ root_task ∷ []
    → (let w5 = put w excp_task name entry priority in
        (task_activate w5 self (w5.tcb excp_task).taskid (some id)).0
        ≡ excp_up w self excp_task name entry priority id)
unfolding new_tcb new_sems
excp_lem w self root_task excp_task name entry priority id low real apart ids list =
    let w5 = put w excp_task name entry priority in
    let it : (w5.tcb excp_task).taskid ≡ excp_task % 2 ^ 32 = rw (==_refl excp_task) refl in
    let list' : w5.task_list ≡ (root_task ∷ []) ++ excp_task ∷ [] = rw list refl in
    let before : ((w5.tcb root_task).taskid == (w5.tcb excp_task).taskid) ≡ false =
      ground (arith, it) in
    let found =
      task_for_last w5 self (w5.tcb excp_task).taskid excp_task (root_task ∷ []) list' (before, tt)
        refl (λ q. low (sym it ∙ q)) in
    let dead : is_dead w5 excp_task ≡ true = ground arith in
    ap (λ r. r.0)
      (task_activate-dead w5 self (w5.tcb excp_task).taskid excp_task id found real dead)

-- The scheduler as each step leaves it, if it was free.
root_up_free :
    (w : World) (self root_task : ℕ) (name : List ℕ) (max_priority : ℕ)
    → w.sems.sched.locker ≡ 0
    → w.sems.sched.task_lock_level ≡ 0
    → ((root_up w self root_task name max_priority).sems.sched.locker ≡ 0)
      × ((root_up w self root_task name max_priority).sems.sched.task_lock_level ≡ 0)
unfolding new_sems
root_up_free w self root_task name max_priority free level =
    let w2 = readied (put w root_task name 0 max_priority) root_task self in
    let (own, one) = locked_first w2 self (ground arith) (ground arith) in
    (unlocked_last (locked w2 self) self own one, unlocked_level (locked w2 self) self own one)

pub excp_up_free :
    (w : World) (self excp_task : ℕ) (name : List ℕ) (entry priority id : ℕ)
    → w.sems.sched.locker ≡ 0
    → w.sems.sched.task_lock_level ≡ 0
    → (excp_up w self excp_task name entry priority id).sems.sched.locker ≡ 0
unfolding new_sems
excp_up_free w self excp_task name entry priority id free level =
    let w5 = put w excp_task name entry priority in
    let (own, one) = locked_first w5 self (ground arith) (ground arith) in
    unlocked_last (readied (locked w5 self) excp_task id) self own one

v2lin_init_steps :
    (w : World) (self root_task excp_task : ℕ) (root_name excp_name : List ℕ)
    (exception_task id : ℕ)
    → root_task % 2 ^ 32 ≢ 0
    → excp_task % 2 ^ 32 ≢ 0
    → root_task % 2 ^ 32 ≢ excp_task % 2 ^ 32
    → w.task_list ≡ []
    → (let max_priority = w.sems.sched.max_priority in
        v2lin_init w self root_task excp_task root_name excp_name exception_task (some id)
        ≡ excp_up
            (root_up w self root_task root_name max_priority)
            self
            excp_task
            excp_name
            exception_task
            (max_priority - 1)
            id)
unfolding v2lin_init new_tcb
v2lin_init_steps w self root_task excp_task root_name excp_name exception_task id low low' ids
      empty =
    let max_priority = w.sems.sched.max_priority in
    let first : World → World = λ v.
      let w2 = readied v root_task self in
      (task_activate w2 self (w2.tcb root_task).taskid none).0 in
    let activated : World → World =
      λ v. (task_activate v self (v.tcb excp_task).taskid (some id)).0 in
    let second : World → World = λ v. activated (
      with_priority (task_init v excp_task (system_task excp_name exception_task) true).0 excp_task
        (max_priority - 1)) in
    let w3 = root_up w self root_task root_name max_priority in
    let real : root_task ≢ 0 = λ q. low (ap (λ x. x % 2 ^ 32) q) in
    let real' : excp_task ≢ 0 = λ q. low' (ap (λ x. x % 2 ^ 32) q) in
    let up : first (
          with_priority (task_init w root_task (system_task root_name 0) true).0 root_task
            max_priority)
        ≡ w3 =
      ap first (put_lem w root_task root_name 0 max_priority real)
      ∙ root_lem w self root_task root_name max_priority low empty in
    let it : (w3.tcb root_task).taskid ≡ root_task % 2 ^ 32 = rw (==_refl root_task) refl in
    ap second up
    ∙ ap activated (put_lem w3 excp_task excp_name exception_task (max_priority - 1) real')
    ∙ excp_lem w3 self root_task excp_task excp_name exception_task (max_priority - 1) id low' real'
        (λ q. ids (ap (λ x. x % 2 ^ 32) q)) (λ q. ids (sym it ∙ q)) (rw empty refl)

-- `state == READY`: none of the bits PEND, DELAY and DEAD is set.
abbrev pub IsReady : World → ℕ → Type 0
IsReady w t =
    ((w.tcb t).dead ≡ false) × ((w.tcb t).delaying ≡ false) × (w.sems.tasks.pend t ≡ false)

-- v2lin_init, while there are no tasks and the scheduler is free, with a thread for the exception task,
-- for two blocks whose addresses differ in their 32 low bits, which are not 0: the list is the two
-- tasks, and the scheduler is free. The root task is READY on the calling thread, with the highest
-- priority, and the exception task is READY on its own, at its entry point, with the one below.
pub v2lin_init_lem :
    (w : World) (self root_task excp_task : ℕ) (root_name excp_name : List ℕ)
    (exception_task id : ℕ)
    → root_task % 2 ^ 32 ≢ 0
    → excp_task % 2 ^ 32 ≢ 0
    → root_task % 2 ^ 32 ≢ excp_task % 2 ^ 32
    → w.task_list ≡ []
    → w.sems.sched.locker ≡ 0
    → w.sems.sched.task_lock_level ≡ 0
    → (let v = v2lin_init w self root_task excp_task root_name excp_name exception_task (some id) in
        let max_priority = w.sems.sched.max_priority in
        (v.task_list ≡ root_task ∷ excp_task ∷ [])
        × (v.sems.sched.locker ≡ 0)
        × ((v.tcb root_task).pthrid ≡ self)
        × IsReady v root_task
        × (v.sems.tasks.sched_priority root_task ≡ max_priority)
        × ((v.tcb excp_task).pthrid ≡ id)
        × IsReady v excp_task
        × ((v.tcb excp_task).entry_point ≡ exception_task)
        × (v.sems.tasks.sched_priority excp_task ≡ max_priority - 1))
unfolding new_tcb new_sems
v2lin_init_lem w self root_task excp_task root_name excp_name exception_task id low low' ids empty
      free level =
    let max_priority = w.sems.sched.max_priority in
    let w3 = root_up w self root_task root_name max_priority in
    let apart : (root_task == excp_task) ≡ false =
      ==_false root_task excp_task (λ q. ids (ap (λ x. x % 2 ^ 32) q)) in
    let (free', level') = root_up_free w self root_task root_name max_priority free level in
    rw
      (v2lin_init_steps w self root_task excp_task root_name excp_name exception_task id low low'
        ids empty)
      (
        rw empty refl,
        excp_up_free w3 self excp_task excp_name exception_task (max_priority - 1) id free' level',
        rw (apart, ==_refl root_task) refl,
        (ground arith, ground arith, ground arith),
        rw (apart, ==_refl root_task) refl,
        rw (==_refl excp_task) refl,
        (ground arith, ground arith, ground arith),
        rw (==_refl excp_task) refl,
        rw (==_refl excp_task) refl,
      )
