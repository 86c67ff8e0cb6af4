-- ===== src/Task/Delete.antt =====
-- lib/ltaskLib.c: taskDelete, taskDeleteForce, task_pend_delete, notify_task_delete, taskSafe and
-- taskUnsafe, in steps. A call that locks the scheduler is a step from the point where taskLock has
-- returned; a call that waits on a condition variable goes on in a step of its own.
pub mod Laws
pub mod Pending
use cross_compile.Base.{
  ℕ, ◌+◌, Bool, true, false, not, ◌&&◌, Option, none, some, List, [], ◌∷◌, ltb, ◌==◌, if◌then◌else◌,
}
use cross_compile.Errno.{Errno, Result, ok, error, obj_deleted, obj_unavailable}
use cross_compile.Susp
use cross_compile.Sched.{Sched, task_safe, task_unsafe}
use cross_compile.Sem.Types.{Sems}
use cross_compile.Task.Types.{
  Tcb, World, set_tcb, my_task, task_for, locked, unlocked, with_sched, stop_waiting,
}
use cross_compile.Task.Table
use cross_compile.Task.Start.{task_wrapper_cleanup}

-- What a task has to remember: the task to delete, the caller's own, and whether taskDelete made the
-- call of taskDeleteForce.
pub record Deleting : Type 0 where
  pub target : ℕ
  pub self_task : ℕ
  pub nested : Bool

-- In the wait of notify_task_delete on delete_bcplt, in that of task_pend_delete on t_deletable, or
-- at the end.
pub data DeleteAt : Type 0 where
  notifying : Deleting → DeleteAt
  pending : Deleting → DeleteAt
  returned : Result (Unit {0}) → DeleteAt

abbrev pub nobody : List ℕ → Bool
nobody [] = true
nobody (x ∷ xs) = false

-- The part of notify_task_delete before its wait.
unfoldable pub notify_task_delete : World → ℕ → World
notify_task_delete w task =
    let c = w.tcb task in
    if nobody c.first_susp then w else set_tcb w task (record c { t_deletable = c.t_deletable + 1 })

-- pthread_cancel and pthread_join of the task's thread, which runs its cleanup, for a task that has a
-- thread; what these do with the pthrid 0 of a task that was never activated is not modelled.
abbrev pub kill_thread : World → ℕ → World
kill_thread w t = with_sched w (task_wrapper_cleanup w.sems.sched (w.tcb t).pthrid)

-- taskDeleteForce after notify_task_delete, and what taskDelete does after it. task_delete_unlock
-- unlocks the scheduler once more.
unfoldable pub force_finish : World → ℕ → Deleting → World × DeleteAt
force_finish w self c =
    let v =
      if c.target == c.self_task
      then unlocked (Table.task_delete w c.target) self
      else Table.task_delete (kill_thread w c.target) c.target in
    let u = unlocked v self in (if c.nested then unlocked u self else u, returned (ok tt))

-- A look at the condition of the wait in notify_task_delete.
unfoldable pub notify_woken : World → ℕ → Deleting → World × DeleteAt
unfolding force_finish
notify_woken w self c =
    if nobody (w.tcb c.target).first_susp then force_finish w self c else (w, notifying c)

-- taskDeleteForce with the scheduler locked; `nested` as in `Deleting`.
unfoldable pub delete_force : World → ℕ → ℕ → ℕ → Bool → World × DeleteAt
unfolding notify_task_delete notify_woken
delete_force w self tid self_task nested =
    let t = task_for w self tid in
    let gone = unlocked w self in
    if t == 0
    then (if nested then unlocked gone self else gone, returned (error obj_deleted))
    else notify_woken (notify_task_delete w t) self
        (record { target = t; self_task = self_task; nested = nested })

unfoldable pub task_delete_force : World → ℕ → ℕ → World × DeleteAt
unfolding delete_force
task_delete_force w self tid = delete_force (locked w self) self tid (my_task w self) false

-- The end of task_wrapper, when the function of the task has returned.
unfoldable pub task_wrapper_end : World → ℕ → ℕ → World × DeleteAt
task_wrapper_end w self task =
    task_delete_force (with_sched w (task_wrapper_cleanup w.sems.sched self)) self
      (w.tcb task).taskid

-- task_pend_delete up to its wait.
unfoldable pub task_pend_delete : World → ℕ → Deleting → World × DeleteAt
task_pend_delete w self c =
    let (ts, waiting) = Susp.link_susp_task w.sems.tasks (w.tcb c.target).first_susp c.self_task in
    let v = record (set_tcb w c.target (record (w.tcb c.target) { first_susp = waiting })) {
      sems = record w.sems { tasks = ts };
    } in
    (unlocked v self, pending c)

unfoldable pub task_delete : World → ℕ → ℕ → World × DeleteAt
unfolding delete_force task_pend_delete
task_delete w self tid =
    let self_task = my_task w self in
    let v = locked w self in
    let t = task_for v self tid in
    let c : Deleting = record { target = t; self_task = self_task; nested = true } in
    if t == 0
    then (unlocked v self, returned (error obj_deleted))
    else if ltb 0 (v.sems.delete_safe_count t)
    then (if t == self_task
        then (unlocked v self, returned (error obj_unavailable))
        else task_pend_delete v self c)
    else delete_force (locked v self) self tid self_task true

-- The wait on t_deletable returns, or its condition is looked at for the first time. The end of
-- task_pend_delete takes the caller off the list of the semaphore that it waits for, if there is one, and
-- not off the list of the task. The caller is a task: another thread has no `waiting` to read.
unfoldable pub pend_woken : World → ℕ → Deleting → World × DeleteAt
unfolding stop_waiting
pend_woken w self c =
    let v = locked w self in
    let u = record v { sems = stop_waiting v.sems c.self_task } in
    let told =
      if nobody (u.tcb c.target).first_susp
      then set_tcb u c.target
          (record (u.tcb c.target) { delete_bcplt = (u.tcb c.target).delete_bcplt + 1 })
      else u in
    if ltb 0 (w.sems.delete_safe_count c.target)
    then (w, pending c)
    else (unlocked told self, returned (ok tt))

abbrev pub set_count : World → ℕ → ℕ → World
set_count w t n = record w {
  sems = record w.sems {
    delete_safe_count = λ j. if j == t then n else w.sems.delete_safe_count j;
  };
}

-- taskSafe of a task.
unfoldable pub task_safe_call : World → ℕ → World
task_safe_call w self =
    let v = locked w self in
    let t = my_task v self in unlocked (set_count v t (task_safe (v.sems.delete_safe_count t))) self

-- taskUnsafe of a task stands in the wait of notify_task_delete, or has returned.
pub data UnsafeAt : Type 0 where
  notifying_self : ℕ → UnsafeAt
  done : UnsafeAt

unfoldable pub unsafe_woken : World → ℕ → UnsafeAt
unsafe_woken w t = if nobody (w.tcb t).first_susp then done else notifying_self t

unfoldable pub task_unsafe_call : World → ℕ → World × UnsafeAt
unfolding notify_task_delete
task_unsafe_call w self =
    let v = locked w self in
    let t = my_task v self in
    let n = v.sems.delete_safe_count t in
    let u = unlocked (set_count v t (task_unsafe n)) self in
    if n == 1 then (notify_task_delete u t, unsafe_woken (notify_task_delete u t) t) else (u, done)
