-- ===== src/Sem/Delete.antt =====
-- lib/lsemLib.c: semDelete and semFlush, each in two steps, from the point where taskLock has
-- returned. If tasks wait, the caller wakes them and waits on smdel_cplt until the last has left.
-- semFlush keeps sem_lock if no task waits.
use cross_compile.Base.{true, ℕ, ◌+◌, not, if◌then◌else◌}
use cross_compile.Errno.{Result, ok, error, obj_id_error, invalid_operation}
use cross_compile.Sched.{Thread, task_lock, task_unlock}
use cross_compile.Sem.Types.{SendType, flush, killd, Sems, set_smcb, is_mutex, nobody_waits}
use cross_compile.Sem.Registry.{sem_find_lock, unlink_smcb}

pub data DismissAt : Type 0 where
  draining : ℕ → DismissAt
  returned : Result (Unit {0}) → DismissAt

-- The waiting tasks are woken for `kind`.
abbrev pub dismiss : Sems → ℕ → SendType → Sems
dismiss w semaphore kind =
    let s = w.smcb semaphore in
    set_smcb w semaphore (record s { send_type = kind; sem_send = s.sem_send + 1 })

abbrev pub with_lock : Sems → Thread → Sems
with_lock w t = record w { sched = (task_lock w.sched t).0 }

abbrev pub unlocked : Sems → Thread → Sems
unlocked w t = record w { sched = task_unlock w.sched w.tasks t }

-- The memory is given back: the control block is no longer looked at.
unfoldable pub sem_delete : Sems → Thread → ℕ → Sems × DismissAt
unfolding unlink_smcb
sem_delete w t semaphore =
    let held = with_lock w t in
    if not (sem_find_lock w semaphore)
    then (w, returned (error obj_id_error))
    else if nobody_waits (w.smcb semaphore)
    then (unlocked (unlink_smcb held semaphore) t, returned (ok tt))
    else (dismiss held semaphore killd, draining semaphore)

unfoldable pub delete_woken : Sems → Thread → ℕ → Sems × DismissAt
unfolding unlink_smcb
delete_woken w t semaphore =
    if nobody_waits (w.smcb semaphore)
    then (unlocked (unlink_smcb w semaphore) t, returned (ok tt))
    else (w, draining semaphore)

unfoldable pub sem_flush : Sems → Thread → ℕ → Sems × DismissAt
sem_flush w t semaphore =
    let held = with_lock w t in
    if not (sem_find_lock w semaphore)
    then (w, returned (error obj_id_error))
    else if is_mutex (w.smcb semaphore).flags
    then (w, returned (error invalid_operation))
    else if nobody_waits (w.smcb semaphore)
    then (
      unlocked (set_smcb held semaphore (record (w.smcb semaphore) { sem_lock = true })) t,
      returned (ok tt),
    )
    else (dismiss held semaphore flush, draining semaphore)

unfoldable pub flush_woken : Sems → Thread → ℕ → Sems × DismissAt
flush_woken w t semaphore =
    if nobody_waits (w.smcb semaphore)
    then (unlocked w t, returned (ok tt))
    else (w, draining semaphore)
