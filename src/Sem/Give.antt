-- ===== src/Sem/Give.antt =====
-- lib/lsemLib.c: semGive. Its taskLock, and that of taskUnsafe, return at once or wait until the
-- scheduler is free: the step is taken when they return.
use cross_compile.Base.{ℕ, ◌+◌, ◌-◌, not, ◌&&◌, ltb, ◌==◌, if◌then◌else◌}
use cross_compile.Errno.{Result, ok, error, obj_id_error, invalid_operation}
use cross_compile.Susp.{Tasks}
use cross_compile.Sched.{Thread, Sched, task_lock, task_unlock, task_unsafe}
use cross_compile.Sem.Types.{
  Semaphore, Sems, set_smcb, is_mutex, delete_safe, inversion_safe, nobody_waits,
}
use cross_compile.Sem.Registry.{sem_find_lock}

-- `taskLock(); taskUnlock();`
abbrev pub lock_unlock : Sched → Tasks → Thread → Sched
lock_unlock s ts t = task_unlock (task_lock s t).0 ts t

-- taskUnsafe for a SEM_DELETE_SAFE mutex, and the way back to the original priority for a
-- SEM_INVERSION_SAFE one.
unfoldable pub relinquish : Sems → Thread → ℕ → Sems
relinquish w t flags =
    let w' =
      if delete_safe flags
      then record w {
        sched = lock_unlock w.sched w.tasks t;
        delete_safe_count = λ j.
            if j == t.my_task then task_unsafe (w.delete_safe_count j) else w.delete_safe_count j;
      }
      else w in
    if inversion_safe flags then record w' { sched = lock_unlock w'.sched w'.tasks t } else w'

-- The token goes back, unless the owner of a mutex has to give it again.
unfoldable pub give_token : Semaphore → Semaphore
give_token s =
    let lower = record s { recursion_level = s.recursion_level - 1 } in
    if ltb 0 s.recursion_level
    then (if s.recursion_level == 1
        then record lower { token_count = s.token_count + 1; current_owner = 0 }
        else lower)
    else record s { token_count = s.token_count + 1 }

abbrev pub broadcast_waiting : Semaphore → Semaphore
broadcast_waiting s = if nobody_waits s then s else record s { sem_send = s.sem_send + 1 }

unfoldable pub sem_give : Sems → Thread → ℕ → Sems × Result (Unit {0})
unfolding relinquish
sem_give w t semaphore =
    let s = w.smcb semaphore in
    let w' = if s.recursion_level == 1 then relinquish w t s.flags else w in
    if not (sem_find_lock w semaphore)
    then (w, error obj_id_error)
    else if is_mutex s.flags && not (s.current_owner == t.my_task)
    then (w, error invalid_operation)
    else (set_smcb w' semaphore (broadcast_waiting (give_token s)), ok tt)
