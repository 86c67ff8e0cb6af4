-- ===== src/Task/Lookup.antt =====
-- lib/ltaskLib.c: the calls that look a task up, taskPriorityGet, taskPrioritySet, taskDelay,
-- taskSuspend and taskResume. A call that locks the scheduler and unlocks it again without a change in
-- between, and has it no longer than that, is a function of the state.
pub mod Laws
use cross_compile.Base.{
  ℕ, zero, suc, ◌+◌, Bool, true, false, not, ◌&&◌, ◌||◌, Option, none, some, List, [], ◌∷◌, ltb,
  ◌==◌, if◌then◌else◌, map, take,
}
use cross_compile.Base.Int.{ℤ}
use cross_compile.Errno.{Errno, Result, ok, error, obj_id_error, enosys}
use cross_compile.Priority.{translate_priority}
use cross_compile.Sched.{set_priority}
use cross_compile.Task.Types.{
  Tcb, World, set_tcb, first_with, my_task, task_for, locked, unlocked, with_sched,
}

-- `list[]`, of at most `max_ids` entries.
unfoldable pub task_id_list_get : World → ℕ → List ℕ
task_id_list_get w max_ids = take max_ids (map (λ t. (w.tcb t).taskid) w.task_list)

-- 0 for a thread that is no task.
unfoldable pub task_id_self : World → ℕ → ℕ
task_id_self w self = if my_task w self == 0 then 0 else (w.tcb (my_task w self)).taskid

unfoldable pub task_id_verify : World → ℕ → ℕ → Result (Unit {0})
task_id_verify w self tid = if task_for w self tid == 0 then error obj_id_error else ok tt

unfoldable pub task_tcb : World → ℕ → ℕ → ℕ
task_tcb w self tid = task_for w self tid

-- No bit of `state` is set.
unfoldable pub task_is_ready : World → ℕ → ℕ → Bool
task_is_ready w self tid =
    let t = task_for w self tid in
    not (t == 0) && not (w.sems.tasks.pend t || (w.tcb t).delaying || (w.tcb t).dead)

-- The name, or "NULLTASK" (`none` in place of a task); a task may have no name.
unfoldable pub task_name : World → ℕ → ℕ → Option (Option (List ℕ))
task_name w self tid =
    let t = task_for w self tid in if t == 0 then none else some (w.tcb t).taskname

-- Equality of names, as strcmp finds it.
unfoldable pub same_name : List ℕ → List ℕ → Bool
same_name [] [] = true
same_name [] (y ∷ ys) = false
same_name (x ∷ xs) [] = false
same_name (x ∷ xs) (y ∷ ys) = x == y && same_name xs ys

-- The loop of taskNameToId: `none` on the outside is strcmp on the name of a task that has none, and
-- on the inside ERROR.
unfoldable pub named_in : World → List ℕ → List ℕ → Option (Option ℕ)
unfolding same_name
named_in w name [] = some none
named_in w name (t ∷ ts) = elim (w.tcb t).taskname [
  | none ↦ none
  | some n ↦ if same_name name n then some (some (w.tcb t).taskid) else named_in w name ts
]

unfoldable pub task_name_to_id : World → Option (List ℕ) → Option (Option ℕ)
unfolding named_in
task_name_to_id w none = some none
task_name_to_id w (some name) = named_in w name w.task_list

unfoldable pub task_priority_get : World → ℕ → ℕ → Result ℤ
task_priority_get w self tid =
    let t = task_for w self tid in if t == 0 then error obj_id_error else ok (w.tcb t).vxw_priority

-- A priority out of range is set, and reported.
unfoldable pub task_priority_set : World → ℕ → ℕ → ℤ → World × Result (Unit {0})
task_priority_set w self tid pri =
    let v = locked w self in
    let t = task_for v self tid in
    let (priority, e) = translate_priority pri v.min_priority v.sems.sched.max_priority in
    let tasks = record v.sems.tasks {
      sched_priority = λ j. if j == t then priority else v.sems.tasks.sched_priority j;
    } in
    let set = record (set_tcb v t (record (v.tcb t) { vxw_priority = pri })) {
      sems = record v.sems { tasks = tasks };
    } in
    let applied =
      if not (tid == 0) && not (t == my_task v self)
      then with_sched set (set_priority set.sems.sched t priority)
      else set in
    let r : Result (Unit {0}) = elim e [ none ↦ ok tt | some c ↦ error c ] in
    if t == 0 then (unlocked v self, error obj_id_error) else (unlocked applied self, r)

-- taskDelay marks the calling task while it sleeps, if it is one.
abbrev pub set_delay : World → ℕ → Bool → World
set_delay w t b = if t == 0 then w else set_tcb w t (record (w.tcb t) { delaying = b })

unfoldable pub task_delay : World → ℕ → World
task_delay w self = set_delay w (my_task w self) true

-- The end of the sleep, for the task that fell asleep.
unfoldable pub task_delay_over : World → ℕ → World
task_delay_over w task = set_delay w task false

-- Not implemented: errno is ENOSYS, which the first two return as well, and the third returns 0.
abbrev pub task_suspend : World → ℕ → World × Errno
task_suspend w tid = (w, enosys)

abbrev pub task_resume : World → ℕ → World × Errno
task_resume w tid = (w, enosys)

abbrev pub task_is_suspended : World → ℕ → Bool
task_is_suspended w tid = false
