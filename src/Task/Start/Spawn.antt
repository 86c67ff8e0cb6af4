-- ===== src/Task/Start/Spawn.antt =====
-- What taskSpawn makes, as the other calls see it.
use cross_compile.Base.{
  ℕ, ◌≤◌, ◌≡◌, ◌≢◌, refl, ap, ◌∙◌, Bool, true, false, Option, none, some, List, [], ◌∷◌, ◌++◌,
  arith, ◌==◌, elem, ==_refl, ==_false,
}
use cross_compile.Errno.{Result, ok, error}
use cross_compile.Priority.{translate_priority}
use cross_compile.Task.Locking.{locked_first, unlocked_last}
use cross_compile.Task.Types.{World, Tcb, set_tcb, locked, unlocked, readied, is_dead, task_for}
use cross_compile.Task.Table.{Spawning, new_tid, new_tcb, new_sems}
use cross_compile.Task.Start.{task_activate, task_spawn}
use cross_compile.Task.Lookup.{task_is_ready, task_priority_get}
use cross_compile.Task.Start.Laws.{
  NoneWith, first_with_last, new_tid_fresh, task_init-ok, task_activate-dead,
}

NoneWith-set :
    (w : World) (n task : ℕ) (c : Tcb) (l : List ℕ)
    → elem task l ≡ false
    → NoneWith (λ t. (w.tcb t).taskid == n) l
    → NoneWith (λ t. ((set_tcb w task c).tcb t).taskid == n) l
NoneWith-set w n task c [] out h = tt
NoneWith-set w n task c (x ∷ l) out (e, h) =
    (ground arith, NoneWith-set w n task c l (ground arith) h)

pub task_for_last :
    (w : World) (self n task : ℕ) (l : List ℕ)
    → w.task_list ≡ l ++ task ∷ []
    → NoneWith (λ t. (w.tcb t).taskid == n) l
    → (w.tcb task).taskid ≡ n
    → n ≢ 0
    → task_for w self n ≡ task
unfolding task_for
task_for_last w self n task l list none_before it ne =
    let last =
      first_with_last (λ t. (w.tcb t).taskid == n) l task none_before (rw it (==_refl n)) in
    rw (==_false n 0 ne, list) last

-- The name that taskSpawn gives.
abbrev pub spawn_name : (ℕ → List ℕ) → Spawning → ℕ → List ℕ
spawn_name default_name a tid = elim a.name [ none ↦ default_name tid | some n ↦ n ]

-- The tasks as taskInit leaves them in taskSpawn, and as they are when it calls taskActivate.
abbrev pub initialised : World → (ℕ → List ℕ) → Spawning → ℕ → Bool → World
initialised w default_name a task named =
    let a' = record a { name = some (spawn_name default_name a (new_tid w)) } in
    let p = (translate_priority a.pri w.min_priority w.sems.sched.max_priority).0 in
    record (set_tcb w task (new_tcb w task a' named)) {
      sems = new_sems w.sems task p;
      task_list = w.task_list ++ task ∷ [];
    }

abbrev pub spawned : World → (ℕ → List ℕ) → Spawning → ℕ → Bool → World
spawned w default_name a task named =
    let v = initialised w default_name a task named in
    set_tcb v task (record (v.tcb task) { taskid = new_tid w; static_task = false })

module _ (w : World) (default_name : ℕ → List ℕ) (a : Spawning) (task : ℕ) (named : Bool) where
  spawned-tcb :
      (spawned w default_name a task named).tcb task
      ≡ record (new_tcb w task
          (record a { name = some (spawn_name default_name a (new_tid w)) })
          named) { taskid = new_tid w; static_task = false }
  spawned-tcb = rw (==_refl task) refl

  -- The entry that taskSpawn leaves.
  abbrev pub running : ℕ → Tcb
  running id =
      let v = spawned w default_name a task named in
      record (v.tcb task) { pthrid = id; delaying = false; dead = false }

  spawned_fresh :
      elem task w.task_list ≡ false
      → new_tid w ≢ 65536
      → NoneWith
          (λ t. ((spawned w default_name a task named).tcb t).taskid == new_tid w)
          w.task_list
  spawned_fresh out ne =
      let (low, high, fresh) = new_tid_fresh w ne in
      let new =
        new_tcb w task (record a { name = some (spawn_name default_name a (new_tid w)) }) named in
      let v = initialised w default_name a task named in
      let c = record (v.tcb task) { taskid = new_tid w; static_task = false } in
      NoneWith-set v (new_tid w) task c w.task_list out
        (NoneWith-set w (new_tid w) task new w.task_list out fresh)

  task_spawn-activate :
      (self id : ℕ) (v : World)
      → a.opts ≡ 0
      → (translate_priority a.pri w.min_priority w.sems.sched.max_priority).1 ≡ none
      → task ≢ 0
      → task_activate (spawned w default_name a task named) self (new_tid w) (some id) ≡ (v, ok tt)
      → task_spawn w self default_name a (some task) named (some id) ≡ some (v, some (new_tid w))
  unfolding task_spawn
  task_spawn-activate self id v opts e real done =
      let a' : Spawning = record a { name = some (spawn_name default_name a (new_tid w)) } in
      let finished : World × Result (Unit {0}) → Option (World × Option ℕ) =
        λ r. some (r.0, elim r.1 [ ok x ↦ some (new_tid w) | error c ↦ none ]) in
      let started : World × Result (Unit {0}) → Option (World × Option ℕ) = λ r. finished (
        task_activate
          (elim r.1 [
            | ok x ↦
                set_tcb r.0 task (record (r.0.tcb task) { taskid = new_tid w; static_task = false })
            | error c ↦ r.0
          ])
          self (new_tid w) (some id)) in
      let init = task_init-ok w task a' named opts real e in ap started init ∙ ap finished done

  -- taskSpawn without options, with a priority in range, with memory and a thread, while no thread has
  -- the scheduler locked and no task of the list has the highest identifier, and with no other call
  -- between its steps: the task is added at the
  -- end of the list, under a new identifier from 1 to 65535, by which any thread finds it. It is READY on
  -- its thread, with the priority, the entry point and the arguments asked for, and the scheduler is
  -- unlocked. Of no other task does a field of the record `Tcb` change, nor the Linux priority, the PEND
  -- bit, the semaphore waited for or the count of taskSafe.
  pub task_spawn_round_trip :
      (self id other t : ℕ)
      → a.opts ≡ 0
      → (translate_priority a.pri w.min_priority w.sems.sched.max_priority).1 ≡ none
      → task ≢ 0
      → elem task w.task_list ≡ false
      → new_tid w ≢ 65536
      → w.sems.sched.locker ≡ 0
      → w.sems.sched.task_lock_level ≡ 0
      → t ≢ task
      → (v : World) × (task_spawn w self default_name a (some task) named (some id)
          ≡ some (v, some (new_tid w)))
        × (1 ≤ new_tid w)
        × (new_tid w ≤ 65535)
        × (v.task_list ≡ w.task_list ++ task ∷ [])
        × (task_for v other (new_tid w) ≡ task)
        × (task_is_ready v other (new_tid w) ≡ true)
        × (task_priority_get v other (new_tid w) ≡ ok a.pri)
        × ((v.tcb task).pthrid ≡ id)
        × ((v.tcb task).entry_point ≡ a.entry)
        × ((v.tcb task).parms ≡ a.args)
        × (v.sems.sched.locker ≡ 0)
        × (v.tcb t ≡ w.tcb t)
        × (v.sems.tasks.sched_priority t ≡ w.sems.tasks.sched_priority t)
        × (v.sems.tasks.pend t ≡ w.sems.tasks.pend t)
        × (v.sems.waiting t ≡ w.sems.waiting t)
        × (v.sems.delete_safe_count t ≡ w.sems.delete_safe_count t)
  unfolding task_is_ready task_priority_get new_sems new_tcb
  task_spawn_round_trip self id other t opts e real out ne free level apart =
      let (low, high, fresh) = new_tid_fresh w ne in
      let nonzero : new_tid w ≢ 0 = λ q. ground (arith, low, q) in
      let u = spawned w default_name a task named in
      let n = spawned_fresh out ne in
      let it : (u.tcb task).taskid ≡ new_tid w = rw spawned-tcb refl in
      let found = task_for_last u self (new_tid w) task w.task_list refl n it nonzero in
      let dead : is_dead u task ≡ true = ground arith in
      let done = task_activate-dead u self (new_tid w) task id found real dead in
      let r = readied (locked u self) task id in
      let v = unlocked r self in
      let (own, one) = locked_first u self (ground arith) (ground arith) in
      let n' = NoneWith-set (locked u self) (new_tid w) task (running id) w.task_list out n in
      let it' : (v.tcb task).taskid ≡ new_tid w = rw (==_refl task) refl in
      let found' = task_for_last v other (new_tid w) task w.task_list refl n' it' nonzero in
      let same : v.tcb task ≡ running id = rw (==_refl task) refl in
      (
        v,
        task_spawn-activate self id v opts e real done,
        low,
        omega (arith, high),
        refl,
        found',
        ground (arith, found', same, spawned-tcb),
        ground (arith, found', same, spawned-tcb),
        ground (arith, found', same, spawned-tcb),
        ground (arith, found', same, spawned-tcb),
        ground (arith, found', same, spawned-tcb),
        unlocked_last r self own one,
        ground (arith, found', same, spawned-tcb),
        ground arith,
        ground arith,
        ground arith,
        ground arith,
      )
