-- ===== src/Task/Start.antt =====
-- lib/ltaskLib.c: taskActivate, taskSpawn, and task_wrapper_cleanup, which a thread that ends runs.
-- `thread` is the thread that pthread_create makes, `none` if it fails. A call that locks the scheduler
-- is a step from the point where taskLock has returned.
pub mod Laws
pub mod Spawn
pub mod Race
use cross_compile.Base.{
  ℕ, Bool, true, false, not, Option, none, some, List, [], ◌∷◌, ◌==◌, if◌then◌else◌,
}
use cross_compile.Errno.{Errno, Result, ok, error, obj_id_error, not_enough_memory}
use cross_compile.Sched.{Sched}
use cross_compile.Task.Types.{Tcb, World, set_tcb, task_for, locked, unlocked, is_dead, readied}
use cross_compile.Task.Table.{Spawning, new_tid, task_init, task_delete}

-- taskActivate between taskLock and taskUnlock, for the task that task_for found.
unfoldable pub activate : World → ℕ → Option ℕ → World × Result (Unit {0})
activate w task thread =
    let started : World × Result (Unit {0}) = elim thread [
      | none ↦ (task_delete (readied w task 0) task, error not_enough_memory)
      | some id ↦ (readied w task id, ok tt)
    ] in
    if task == 0 then (w, error obj_id_error) else if is_dead w task then started else (w, ok tt)

unfoldable pub task_activate : World → ℕ → ℕ → Option ℕ → World × Result (Unit {0})
unfolding activate
task_activate w self tid thread =
    let v = locked w self in
    let (v', r) = activate v (task_for v self tid) thread in (unlocked v' self, r)

-- taskSpawn, in steps, since it holds no lock in between: it reads an identifier from the list (new_tid),
-- calls taskInit, stores the identifier in the block, and calls taskActivate. `default_name` is
-- sprintf("t%d").
unfoldable pub spawn_init :
    World → (ℕ → List ℕ) → Spawning → ℕ → Bool → ℕ → World × Result (Unit {0})
spawn_init w default_name a task named tid =
    let name : List ℕ = elim a.name [ none ↦ default_name tid | some n ↦ n ] in
    task_init w task (record a { name = some name }) named

-- The store, which a taskInit that failed is not followed by.
unfoldable pub spawn_store : World → ℕ → ℕ → Result (Unit {0}) → World
spawn_store w task tid (ok x) =
    set_tcb w task (record (w.tcb task) { taskid = tid; static_task = false })
spawn_store w task tid (error c) = w

-- taskActivate, and the result: the identifier, or `none` for ERROR, which errno is set to as well.
unfoldable pub spawn_activate : World → ℕ → ℕ → Option ℕ → World × Option ℕ
spawn_activate w self tid thread =
    let (u, r) = task_activate w self tid thread in (u, elim r [ ok x ↦ some tid | error c ↦ none ])

-- The steps of a taskSpawn that no other call comes in between of. `block` is what ts_malloc returns;
-- without memory memset is called on NULL, which is undefined and `none` on the outside.
unfoldable pub task_spawn :
    World → ℕ → (ℕ → List ℕ) → Spawning → Option ℕ → Bool → Option ℕ → Option (World × Option ℕ)
unfolding spawn_init spawn_store spawn_activate
task_spawn w self default_name a none named thread = none
task_spawn w self default_name a (some task) named thread =
    let tid = new_tid w in
    let (v, e) = spawn_init w default_name a task named tid in
    some (spawn_activate (spawn_store v task tid e) self tid thread)

-- A thread that ends has the scheduler's lock taken from it. Nothing is broadcast on
-- taskLock_change, and no priority is restored.
unfoldable pub task_wrapper_cleanup : Sched → ℕ → Sched
task_wrapper_cleanup s self =
    if s.locker == self then record s { task_lock_level = 0; locker = 0 } else s
