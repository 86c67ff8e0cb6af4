-- ===== src/Task/Valid/Steps.antt =====
-- The steps of the calls on tasks, and what they leave as it is.
use cross_compile.Base.{inl, refl, ℕ, ◌≡◌, ◌≢◌, Bool, true, false, Option, some, List, arith, elem}
use cross_compile.Base.Int.{ℤ}
use cross_compile.Errno.{ok}
use cross_compile.Sem.Types.{Sems}
use cross_compile.Wdog.{Timers}
use cross_compile.Task.Types.{World, task_for}
use cross_compile.Task.Start.{task_activate}
use cross_compile.Task.Lookup.{
  task_priority_set, set_delay, task_id_verify, task_tcb, task_name, task_priority_get,
}
use cross_compile.Task.Delete
use cross_compile.Task.Delete.{
  Deleting, task_wrapper_end, notify_woken, task_delete_force, pend_woken, task_safe_call,
  task_unsafe_call,
}
use cross_compile.Task.Restart.{Os, task_restart, self_starter}
use cross_compile.Task.Kernel.{kernel_time_slice}
use cross_compile.Task.Valid.{Valid, ids, Keeps, task_for-Valid}
use cross_compile.Task.Valid.Calls.{
  task_activate-Keeps, task_safe_call-Keeps, task_unsafe_call-Keeps, task_restart-Keeps,
  self_starter-Keeps, task_priority_set-Keeps, kernel_time_slice-Keeps, set_delay-Keeps,
}
use cross_compile.Task.Valid.Deletions.{
  notify_woken-Keeps, task_delete_force-Keeps, task_delete-Keeps, pend_woken-Keeps,
  task_wrapper_end-Keeps,
}

-- A step of one call, but for taskInit and taskSpawn (see `Spawner`). `elsewhere` is a step of a call
-- on semaphores, whatever it does to its state.
pub data TaskStep : World → World → Type 0 where
  activates :
      {w : World} (self tid : ℕ) (thread : Option ℕ)
      → TaskStep w (task_activate w self tid thread).0
  deletes_force : {w : World} (self tid : ℕ) → TaskStep w (task_delete_force w self tid).0
  deletes : {w : World} (self tid : ℕ) → TaskStep w (Delete.task_delete w self tid).0
  ends : {w : World} (self task : ℕ) → TaskStep w (task_wrapper_end w self task).0
  notifies : {w : World} (self : ℕ) (c : Deleting) → TaskStep w (notify_woken w self c).0
  pends : {w : World} (self : ℕ) (c : Deleting) → TaskStep w (pend_woken w self c).0
  protects : {w : World} (self : ℕ) → TaskStep w (task_safe_call w self)
  unprotects : {w : World} (self : ℕ) → TaskStep w (task_unsafe_call w self).0
  restarts :
      {w : World} (starter restart_wdog : ℕ) (timers : Timers) (self tid : ℕ)
      (block thread : Option ℕ)
      → TaskStep w
          (task_restart starter
            (timers, record { world = w; restart_wdog = restart_wdog })
            self
            tid
            block
            thread).0.1.world
  starts_over :
      {w : World} (restart_wdog : ℕ) (timers : Timers) (self : ℕ) (thread : Option ℕ) (taskid : ℕ)
      → TaskStep w
          (self_starter self thread taskid
            (timers, record { world = w; restart_wdog = restart_wdog })).1.world
  sets_priority :
      {w : World} (self tid : ℕ) (pri : ℤ) → TaskStep w (task_priority_set w self tid pri).0
  slices :
      {w v : World} (self ticks_per_quantum : ℕ)
      → kernel_time_slice w self ticks_per_quantum ≡ some v
      → TaskStep w v
  sleeps : {w : World} (t : ℕ) (b : Bool) → TaskStep w (set_delay w t b)
  elsewhere : {w : World} (s : Sems) → TaskStep w (record w { sems = s })

pub TaskStep-Keeps : {w v : World} → TaskStep w v → Keeps w v
TaskStep-Keeps {w = w} {v = v} (activates self tid thread) = task_activate-Keeps w self tid thread
TaskStep-Keeps {w = w} {v = v} (deletes_force self tid) = task_delete_force-Keeps w self tid
TaskStep-Keeps {w = w} {v = v} (ends self task) = task_wrapper_end-Keeps w self task
TaskStep-Keeps {w = w} {v = v} (deletes self tid) = task_delete-Keeps w self tid
TaskStep-Keeps {w = w} {v = v} (notifies self c) = notify_woken-Keeps w self c
TaskStep-Keeps {w = w} {v = v} (pends self c) = pend_woken-Keeps w self c
TaskStep-Keeps {w = w} {v = v} (protects self) = task_safe_call-Keeps w self
TaskStep-Keeps {w = w} {v = v} (unprotects self) = task_unsafe_call-Keeps w self
TaskStep-Keeps {w = w} {v = v} (restarts starter restart_wdog timers self tid block thread) =
    let s : Os = record { world = w; restart_wdog = restart_wdog } in
    (task_restart-Keeps starter timers s self tid block thread)
TaskStep-Keeps {w = w} {v = v} (starts_over restart_wdog timers self thread taskid) =
    let s : Os = record { world = w; restart_wdog = restart_wdog } in
    (self_starter-Keeps self thread taskid timers s)
TaskStep-Keeps {w = w} {v = v} (sets_priority self tid pri) = task_priority_set-Keeps w self tid pri
TaskStep-Keeps {w = w} {v = v} (slices self ticks_per_quantum e) =
    kernel_time_slice-Keeps w v self ticks_per_quantum e
TaskStep-Keeps {w = w} {v = v} (sleeps t b) = set_delay-Keeps w t b
TaskStep-Keeps (elsewhere s) = (λ j. refl, inl refl)

-- What the lookups of a task by its identifier give, for any thread.
abbrev pub Found : World → ℕ → ℕ → Type 0
Found w self t =
    (task_for w self (ids w t) ≡ t)
    × (task_id_verify w self (ids w t) ≡ ok tt)
    × (task_tcb w self (ids w t) ≡ t)
    × (task_name w self (ids w t) ≡ some (w.tcb t).taskname)
    × (task_priority_get w self (ids w t) ≡ ok (w.tcb t).vxw_priority)

task_for-Found : (w : World) (self t : ℕ) → t ≢ 0 → task_for w self (ids w t) ≡ t → Found w self t
unfolding task_id_verify task_tcb task_name task_priority_get
task_for-Found w self t real found =
    (found, ground (arith, found), found, ground (arith, found), ground (arith, found))

listed_real : (t : ℕ) (l : List ℕ) → elem t l ≡ true → elem 0 l ≡ false → t ≢ 0
listed_real t l there n q = ground (arith, q)

-- A listed task is found by its identifier, unless that is 0.
pub Valid-Found :
    (w : World) (self t : ℕ) → Valid w → elem t w.task_list ≡ true → ids w t ≢ 0 → Found w self t
Valid-Found w self t valid there ne =
    task_for-Found w self t (listed_real t w.task_list there valid.1)
      (task_for-Valid w self t valid there ne)
