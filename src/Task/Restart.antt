-- ===== src/Task/Restart.antt =====
-- lib/ltaskLib.c: taskRestart; lib/lwdLib.c: selfRestart and self_starter. A task that restarts itself
-- starts a watchdog timer, and its thread ends; the timer's function makes the new thread.
pub mod Tick
pub mod Laws
use cross_compile.Base.{ℕ, Bool, true, false, Option, none, some, ◌==◌, if◌then◌else◌}
use cross_compile.Base.Int.{ℤ, pos}
use cross_compile.Errno.{Result, ok, error, obj_id_error, not_enough_memory}
use cross_compile.Wdog.{Timers, Handler, wd_create, wd_start, wd_delete}
use cross_compile.Task.Types.{
  World, my_task, task_for, locked, unlocked, with_sched, readied, stop_waiting,
}
use cross_compile.Task.Start.{task_wrapper_cleanup}
use cross_compile.Task.Delete.{kill_thread}

-- What the functions of the timers change besides the timers.
pub record Os : Type 0 where
  pub world : World
  pub restart_wdog : ℕ

abbrev pub thread_or_null : Option ℕ → ℕ
thread_or_null none = 0
thread_or_null (some id) = id

-- `self` is the thread of the exception task, and `thread` the one that pthread_create makes. A
-- failure is not looked at.
unfoldable pub self_starter : ℕ → Option ℕ → ℕ → Timers × Os → Timers × Os
unfolding task_for
self_starter self thread taskid (w, s) =
    let w' = (wd_delete w s.restart_wdog).0 in
    let task = task_for s.world self taskid in
    if task == 0
    then (w', s)
    else (w', record s { world = readied s.world task (thread_or_null thread) })

-- The function pointers of the program: `starter` is self_starter, and `others` tells of the rest.
abbrev pub functions : ℕ → ℕ → Option ℕ → Handler Os → Handler Os
functions starter self thread others f parm v =
    if f == starter then self_starter self thread parm v else others f parm v

-- `block` is what ts_malloc returns.
unfoldable pub self_restart : ℕ → Timers × Os → ℕ → Option ℕ → Timers × Os
unfolding wd_create wd_start
self_restart starter (w, s) task none = (w, record s { restart_wdog = 0 })
self_restart starter (w, s) task (some block) =
    let w' = (wd_create w (some block)).0 in
    (
      (wd_start w' block (pos 1) starter (s.world.tcb task).taskid).0,
      record s { restart_wdog = block },
    )

-- taskRestart has ended with its thread, or has returned.
pub data RestartAt : Type 0 where
  exited : RestartAt
  came_back : Result (Unit {0}) → RestartAt

-- The branch for another task.
unfoldable pub restart_other : World → ℕ → ℕ → Option ℕ → World × RestartAt
restart_other w self t thread =
    let r : Result (Unit {0}) = elim thread [ none ↦ error not_enough_memory | some id ↦ ok tt ] in
    (unlocked (readied (kill_thread w t) t (thread_or_null thread)) self, came_back r)

-- The end of the calling thread.
abbrev pub exit_thread : World → ℕ → World
exit_thread w self = with_sched w (task_wrapper_cleanup w.sems.sched self)

-- The error goes past taskUnlock.
unfoldable pub task_restart :
    ℕ → Timers × Os → ℕ → ℕ → Option ℕ → Option ℕ → (Timers × Os) × RestartAt
unfolding task_for my_task stop_waiting self_restart restart_other
task_restart starter (w, s) self tid block thread =
    let v = locked s.world self in
    let t = task_for v self tid in
    let u = record v { sems = stop_waiting v.sems t } in
    let other = restart_other u self t thread in
    let (w', s') = self_restart starter (w, record s { world = u }) t block in
    if t == 0
    then ((w, record s { world = v }), came_back (error obj_id_error))
    else if t == my_task v self
    then ((w', record s' { world = exit_thread s'.world self }), exited)
    else ((w, record s { world = other.0 }), other.1)
