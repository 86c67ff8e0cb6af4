-- ===== src/Task/Restart/Laws.antt =====
-- What taskRestart does, for another task, for the caller, and for no task at all.
use cross_compile.Base.{
  ℕ, ◌+◌, ◌<◌, ◌≡◌, ◌≢◌, sym, ap, ◌∙◌, ◌⊎◌, false, Option, some, List, [], ◌∷◌, ◌++◌, arith, elem,
  length, Distinct, ==_refl, ==_false,
}
use cross_compile.Errno.{ok, error, obj_id_error}
use cross_compile.Susp.{Tasks}
use cross_compile.Sched.Laws.{Event, happen_all, Others, happen_all-Others}
use cross_compile.Wdog.{Timers, Handler, process_timer_list}
use cross_compile.Task.Locking.{
  stop_waiting-sched, stop_waiting-waiting, stop_waiting_lem, task_lock_free, locked_first,
  unlocked_last,
}
use cross_compile.Task.Types.{World, locked, readied, my_task, task_for, stop_waiting}
use cross_compile.Task.Start.{task_wrapper_cleanup}
use cross_compile.Task.Delete.{kill_thread}
use cross_compile.Task.Restart.{
  Os, exited, came_back, functions, self_restart, restart_other, task_restart, thread_or_null,
}
use cross_compile.Task.Restart.Tick.{restarts_next_tick, NoneDue, started}

task_restart_self :
    (starter : ℕ) (w : Timers) (s : Os) (self tid block : ℕ) (thread : Option ℕ)
    → my_task s.world self ≢ 0
    → task_for s.world self tid ≡ my_task s.world self
    → (let r = task_restart starter (w, s) self tid (some block) thread in
        (r.1 ≡ exited)
        × (r.0.0 ≡ started w block starter (s.world.tcb (my_task s.world self)).taskid)
        × (r.0.1.restart_wdog ≡ block)
        × (r.0.1.world.task_list ≡ s.world.task_list)
        × (r.0.1.world.tcb ≡ s.world.tcb))
unfolding task_restart self_restart task_for my_task
task_restart_self starter w s self tid block thread task mine =
    let same = ==_refl (my_task s.world self) in
    let found = ==_false (my_task s.world self) 0 task in ground arith

restart_other_free :
    (w : World) (self t : ℕ) (thread : Option ℕ)
    → w.sems.sched.locker ≡ self
    → w.sems.sched.task_lock_level ≡ 1
    → (w.tcb t).pthrid ≢ self
    → (restart_other w self t thread).0.sems.sched.locker ≡ 0
unfolding restart_other task_wrapper_cleanup
restart_other_free w self t thread own one ne =
    let kept : task_wrapper_cleanup w.sems.sched (w.tcb t).pthrid ≡ w.sems.sched = ground arith in
    unlocked_last (readied (kill_thread w t) t (thread_or_null thread)) self
      (ap (λ c. c.locker) kept ∙ own) (ap (λ c. c.task_lock_level) kept ∙ one)

task_restart_lets_go :
    (starter : ℕ) (w : Timers) (s : Os) (self tid block : ℕ) (thread : Option ℕ)
    → my_task s.world self ≢ 0
    → task_for s.world self tid ≡ my_task s.world self
    → (s.world.sems.sched.locker ≡ 0) ⊎ (s.world.sems.sched.locker ≡ self)
    → (task_restart starter (w, s) self tid (some block) thread).0.1.world.sems.sched.locker ≡ 0
unfolding task_restart self_restart task_for my_task task_wrapper_cleanup
task_restart_lets_go starter w s self tid block thread task mine free =
    let same = ==_refl (my_task s.world self) in
    let found = ==_false (my_task s.world self) 0 task in
    let held = task_lock_free s.world self free in
    let kept = stop_waiting-sched (locked s.world self).sems (my_task s.world self) in ground arith

-- A task restarts itself, with the identifier 0 or its own, while no other thread has the
-- scheduler locked and there is memory for a timer: its thread ends, and the scheduler is
-- unlocked. If self_starter is not NULL, the task is found by its identifier, the new timer and
-- those of the list are different and not NULL, and no timer of the list is due, then at the next
-- tick of the exception task, with enough fuel, the task is READY on a new thread with the entry
-- point and the arguments that it had, and the lists of the tasks and of the timers are as they
-- were before the restart.
pub self_restart_starts_over :
    (starter exc id : ℕ) (others : Handler Os) (w : Timers) (s : Os) (self tid block fuel : ℕ)
    (thread : Option ℕ)
    → starter ≢ 0
    → my_task s.world self ≢ 0
    → task_for s.world self tid ≡ my_task s.world self
    → task_for s.world exc (s.world.tcb (my_task s.world self)).taskid ≡ my_task s.world self
    → (s.world.sems.sched.locker ≡ 0) ⊎ (s.world.sems.sched.locker ≡ self)
    → Distinct (w.wdog_list ++ block ∷ [])
    → elem 0 (w.wdog_list ++ block ∷ []) ≡ false
    → NoneDue w w.wdog_list
    → length w.wdog_list + 1 < fuel
    → (let t = my_task s.world self in
        let r = task_restart starter (w, s) self tid (some block) thread in
        (r.1 ≡ exited)
        × (r.0.1.world.sems.sched.locker ≡ 0)
        × ((v : Timers × Os) × (process_timer_list (functions starter exc (some id) others) fuel r.0
              ≡ some v)
            × (v.0.wdog_list ≡ w.wdog_list)
            × (v.1.world.task_list ≡ s.world.task_list)
            × (v.1.world.tcb t
                ≡ record (s.world.tcb t) { pthrid = id; delaying = false; dead = false })
            × (v.1.world.sems.tasks.pend t ≡ false)))
unfolding task_for my_task
self_restart_starts_over starter exc id others w s self tid block fuel thread func task mine found
      free d nn n h =
    let v = (task_restart starter (w, s) self tid (some block) thread).0 in
    let t = my_task s.world self in
    let (exit, timers, wd, list, tcb) =
      task_restart_self starter w s self tid block thread task mine in
    let found' : task_for v.1.world exc (v.1.world.tcb t).taskid ≡ t = rw (list, tcb) found in
    let timers' : v.0 ≡ started w block starter (v.1.world.tcb t).taskid = rw tcb timers in
    let (r, done, gone, world) =
      restarts_next_tick starter exc id fuel others w v.0 v.1 t block func task found' timers' wd d
        nn n h in
    (
      exit,
      task_restart_lets_go starter w s self tid block thread task mine free,
      (
        r,
        done,
        gone,
        ap (λ u. u.task_list) world ∙ list,
        ap (λ u. u.tcb t) world ∙ ground (arith, tcb),
        ap (λ u. u.sems.tasks.pend t) world ∙ ground arith,
      ),
    )

-- taskRestart with an identifier that is not found, while no other thread has the scheduler
-- locked, reports S_objLib_OBJ_ID_ERROR and returns with the scheduler locked: whatever taskLock
-- and taskUnlock the other threads try then, the caller still has the lock.
pub task_restart_unknown :
    (starter : ℕ) (w : Timers) (s : Os) (self tid : ℕ) (block thread : Option ℕ) (ts : Tasks)
    (es : List Event)
    → self ≢ 0
    → task_for s.world self tid ≡ 0
    → (s.world.sems.sched.locker ≡ 0) ⊎ (s.world.sems.sched.locker ≡ self)
    → Others self es
    → (let r = task_restart starter (w, s) self tid block thread in
        (r.1 ≡ came_back (error obj_id_error))
        × (r.0.0 ≡ w)
        × (r.0.1.world.sems.sched.locker ≡ self)
        × (happen_all ts r.0.1.world.sems.sched es ≡ r.0.1.world.sems.sched))
unfolding task_restart task_for my_task
task_restart_unknown starter w s self tid block thread ts es thread_id unknown free others =
    let r = task_restart starter (w, s) self tid block thread in
    let held : r.0.1.world.sems.sched.locker ≡ self =
      let l = task_lock_free s.world self free in ground arith in
    (
      ground arith,
      ground arith,
      held,
      happen_all-Others ts r.0.1.world.sems.sched es (λ z. thread_id (sym held ∙ z))
          (rw held others),
    )

-- taskRestart of another task, from a thread that does not have the scheduler locked: the task is
-- READY on a new thread with its entry point and arguments, the scheduler is unlocked, the timers are
-- untouched, and the task waits for no semaphore; but its pointer to the semaphore that it waited for
-- stays.
pub task_restart_other :
    (starter : ℕ) (w : Timers) (s : Os) (self tid id t k : ℕ) (block : Option ℕ)
    → task_for s.world self tid ≡ t
    → t ≢ 0
    → t ≢ my_task s.world self
    → (s.world.tcb t).pthrid ≢ self
    → s.world.sems.sched.locker ≡ 0
    → s.world.sems.sched.task_lock_level ≡ 0
    → s.world.sems.waiting t ≡ k
    → k ≢ 0
    → Distinct (s.world.sems.smcb k).first_susp
    → (let r = task_restart starter (w, s) self tid block (some id) in
        (r.1 ≡ came_back (ok tt))
        × (r.0.0 ≡ w)
        × (r.0.1.world.tcb t
            ≡ record (s.world.tcb t) { pthrid = id; delaying = false; dead = false })
        × (r.0.1.world.sems.sched.locker ≡ 0)
        × (elem t (r.0.1.world.sems.smcb k).first_susp ≡ false)
        × (r.0.1.world.sems.waiting t ≡ k))
unfolding task_restart restart_other task_for my_task
task_restart_other starter w s self tid id t k block found task other thread free level waits sem
      d =
    let v = locked s.world self in
    let u = record v { sems = stop_waiting v.sems t } in
    let (own, one) = locked_first s.world self free level in
    let same = stop_waiting-sched v.sems t in
    let here : (restart_other u self t (some id)).0.sems.sched.locker ≡ 0 =
      restart_other_free u self t (some id) (ap (λ c. c.locker) same ∙ own)
        (ap (λ c. c.task_lock_level) same ∙ one) thread in
    let (out, stays) = stop_waiting_lem v.sems t k waits task sem d in
    ground (arith, here, out, stays, stop_waiting-waiting v.sems t, restart_other)
