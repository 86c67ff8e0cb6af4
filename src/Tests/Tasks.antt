-- ===== src/Tests/Tasks.antt =====
-- Tasks at concrete inputs.
use cross_compile.Base.{
  ℕ, suc, ◌+◌, ◌≤◌, ◌≡◌, ◌≢◌, refl, inl, inr, true, false, not, ◌&&◌, none, some, [], ◌∷◌, arith,
  ◌==◌, if◌then◌else◌, elem,
}
use cross_compile.Base.Int.{pos}
use cross_compile.Errno.{ok, error, obj_id_error}
use cross_compile.Priority.{translate_priority}
use cross_compile.Sched.{Thread}
use cross_compile.Sched.Laws.{happen_all, lock, unlock}
use cross_compile.Susp.{Tasks}
use cross_compile.Sem.Types.{Sems}
use cross_compile.Wdog.{Timers, Handler, process_timer_list}
use cross_compile.Task.Types.{World, fifo, rr, my_task, task_for, first_with, is_dead}
use cross_compile.Task.Table.{Spawning, new_tid, above_all, task_init}
use cross_compile.Task.Start.{task_spawn, spawn_init, spawn_store, spawn_activate}
use cross_compile.Task.Lookup.{
  task_is_ready, task_priority_get, task_name_to_id, named_in, same_name,
}
use cross_compile.Task.Delete
use cross_compile.Task.Delete.{
  Deleting, returned, pending, nobody, task_delete_force, pend_woken, set_count, unsafe_woken,
  notifying_self,
}
use cross_compile.Task.Restart.{Os, exited, came_back, functions, task_restart}
use cross_compile.Task.Kernel.{kernel_time_slice, round_robin_is_enabled, v2lin_init}
use cross_compile.Task.Start.Spawn.{task_spawn_round_trip}
use cross_compile.Task.Delete.Laws.{task_delete_force_lem}
use cross_compile.Task.Delete.Pending.{pend_all, protected_delete_lem}
use cross_compile.Task.Valid.{Valid, ids}
use cross_compile.Task.Valid.Deletions.{task_delete_force-Keeps}
use cross_compile.Task.Valid.Steps.{deletes_force, Found}
use cross_compile.Task.Valid.Spawner.{numbers, others, here, more, CallSteps-Found}
use cross_compile.Task.Start.Race.{interleaved_spawns}
use cross_compile.Task.Restart.Laws.{self_restart_starts_over, task_restart_unknown}
use cross_compile.Task.Kernel.Laws.{AllThreads, kernel_time_slice_lem}
use cross_compile.Task.Main.{main_start, root_task_start}
use cross_compile.Task.Main.Laws.{Up, startup_lem}
use cross_compile.Tests.Semaphores.{free_scheduler, free_mutex}

-- The tasks 1, 2 and 3, with the threads 101, 102 and 103. Task 2 is inside taskSafe, and task 3 waits
-- for the semaphore 9.
abbrev tasks : Tasks
tasks = record { sched_priority = λ t. t + 10; pend = λ t. t == 3 }

abbrev sems : Sems
sems = record {
  tasks = tasks;
  sched = record free_scheduler { max_priority = 99 };
  delete_safe_count = λ t. if t == 2 then 1 else 0;
  waiting = λ t. if t == 3 then 9 else 0;
  sem_list = 9 ∷ [];
  smcb = λ k. record free_mutex { first_susp = 3 ∷ [] };
}

abbrev three_tasks : World
three_tasks = record {
  sems = sems;
  task_list = 1 ∷ 2 ∷ 3 ∷ [];
  tcb = λ t. record {
    taskid = t;
    taskname = some (t ∷ []);
    pthrid = t + 100;
    sched_policy = fifo;
    entry_point = t + 500;
    parms = t ∷ [];
    static_task = false;
    delaying = false;
    dead = false;
    vxw_priority = pos 50;
    first_susp = [];
    t_deletable = 0;
    delete_bcplt = 0;
  };
  round_robin_enabled = false;
  min_priority = 1;
}

two : task_for three_tasks 101 2 ≡ 2
unfolding task_for first_with
two = refl

three : task_for three_tasks 101 3 ≡ 3
unfolding task_for first_with
three = refl

none_such : task_for three_tasks 101 77 ≡ 0
unfolding task_for first_with
none_such = refl

me : my_task three_tasks 101 ≡ 1
unfolding my_task first_with
me = refl

-- The next identifier after 3 is 4.
next_id : new_tid three_tasks ≡ 4
unfolding new_tid above_all
next_id = refl

named : task_name_to_id three_tasks (some (2 ∷ [])) ≡ some (some 2)
unfolding task_name_to_id named_in same_name
named = refl

in_range : (translate_priority (pos 7) 1 99).1 ≡ none
unfolding translate_priority
in_range = refl

abbrev worker : Spawning
worker = record { name = none; pri = pos 7; opts = 0; entry = 600; args = 1 ∷ 2 ∷ [] }

abbrev two_thread : Thread
two_thread = record { pthread_self = 102; my_task = 2 }

not_me : 3 ≢ my_task three_tasks 101
not_me e = absurd (omega (arith, me, e))

not_me_two : 2 ≢ my_task three_tasks 101
not_me_two e = absurd (omega (arith, me, e))

not_last : new_tid three_tasks ≢ 65536
not_last e = absurd (omega (arith, next_id, e))

not_null : {t n : ℕ} → n ≡ suc t → n ≢ 0
not_null e q = absurd (omega arith)

task_spawn_round_trip_example :
    (v : World) × (task_spawn three_tasks 101 (λ n. n ∷ []) worker (some 4) true (some 104)
      ≡ some (v, some (new_tid three_tasks)))
    × (1 ≤ new_tid three_tasks)
    × (new_tid three_tasks ≤ 65535)
    × (v.task_list ≡ 1 ∷ 2 ∷ 3 ∷ 4 ∷ [])
    × (task_for v 102 (new_tid three_tasks) ≡ 4)
    × (task_is_ready v 102 (new_tid three_tasks) ≡ true)
    × (task_priority_get v 102 (new_tid three_tasks) ≡ ok (pos 7))
    × ((v.tcb 4).pthrid ≡ 104)
    × ((v.tcb 4).entry_point ≡ 600)
    × ((v.tcb 4).parms ≡ 1 ∷ 2 ∷ [])
    × (v.sems.sched.locker ≡ 0)
    × (v.tcb 2 ≡ three_tasks.tcb 2)
    × (v.sems.tasks.sched_priority 2 ≡ 12)
    × (v.sems.tasks.pend 2 ≡ false)
    × (v.sems.waiting 2 ≡ 0)
    × (v.sems.delete_safe_count 2 ≡ 1)
task_spawn_round_trip_example =
    task_spawn_round_trip three_tasks (λ n. n ∷ []) worker 4 true 101 104 102 2 refl in_range
      (omega arith) refl not_last refl refl (omega arith)

-- Task 1 deletes task 3, which waits for the semaphore.
task_delete_force_lem_example :
    (let (v, at) = task_delete_force three_tasks 101 3 in
      (at ≡ returned (ok tt))
      × (elem 3 v.task_list ≡ false)
      × (elem 2 v.task_list ≡ true)
      × ((not (9 == 0) && elem 3 (v.sems.smcb 9).first_susp) ≡ false)
      × (v.sems.sched.locker ≡ 0))
task_delete_force_lem_example =
    task_delete_force_lem three_tasks 101 3 3 2 (omega arith) three (omega arith) refl refl refl
      (inr (not_me, omega arith)) (refl, (refl, (refl, tt))) (refl, tt) (omega arith)

abbrev after_delete : World
after_delete = (task_delete_force three_tasks 101 3).0

in_order : Valid three_tasks
in_order = ((refl, (refl, (refl, tt))), refl, ((refl, (refl, tt)), ((refl, tt), (tt, tt))))

same_id : ids after_delete 2 ≡ 2
same_id = (task_delete_force-Keeps three_tasks 101 3).0 2

-- A thread has read an identifier for taskSpawn, and then task 1 deletes task 3.
CallSteps-Found_example : Valid after_delete × Found after_delete 102 2
CallSteps-Found_example =
    CallSteps-Found {w = three_tasks} 102 2
      (more (numbers not_last) (more (others (deletes_force 101 3)) here)) in_order
      task_delete_force_lem_example.2 (not_null same_id)

-- Two threads are in taskSpawn, for the blocks 4 and 5.
interleaved_spawns_example :
    (let tid = new_tid three_tasks in
      let (w1, e1) = spawn_init three_tasks (λ n. n ∷ []) worker 4 true tid in
      let (w2, e2) = spawn_init w1 (λ n. n ∷ []) worker 5 true tid in
      let w4 = spawn_store (spawn_store w2 4 tid e1) 5 tid e2 in
      let (w5, r1) = spawn_activate w4 101 tid (some 104) in
      let (w6, r2) = spawn_activate w5 102 tid (some 105) in
      (r1 ≡ some tid)
      × (r2 ≡ some tid)
      × (w6.task_list ≡ 1 ∷ 2 ∷ 3 ∷ 4 ∷ 5 ∷ [])
      × ((w6.tcb 4).taskid ≡ tid)
      × ((w6.tcb 5).taskid ≡ tid)
      × (task_for w6 103 tid ≡ 4)
      × ((w6.tcb 4).pthrid ≡ 104)
      × ((w6.tcb 5).pthrid ≡ 0)
      × (is_dead w6 5 ≡ true))
interleaved_spawns_example =
    interleaved_spawns three_tasks (λ n. n ∷ []) worker worker 4 5 true true 101 102 103 104
      (some 105) (refl, in_range) (refl, in_range) (omega arith) (omega arith) (omega arith) refl
      refl not_last

-- Task 1 deletes task 2, which is inside taskSafe.
abbrev waits_for_two : Deleting
waits_for_two = record { target = 2; self_task = 1; nested = true }

protected_delete_lem_example :
    (let c : Deleting = record { target = 2; self_task = my_task three_tasks 101; nested = true } in
      let later = pend_all (Delete.task_delete three_tasks 101 2).0 ((101, waits_for_two) ∷ []) in
      let left = pend_woken (set_count later 2 0) 101 c in
      ((Delete.task_delete three_tasks 101 2).1 ≡ pending c)
      × (later.task_list ≡ 1 ∷ 2 ∷ 3 ∷ [])
      × (left.1 ≡ returned (ok tt))
      × (left.0.task_list ≡ 1 ∷ 2 ∷ 3 ∷ [])
      × (unsafe_woken left.0 2 ≡ notifying_self 2))
protected_delete_lem_example =
    protected_delete_lem three_tasks 101 2 2 ((101, waits_for_two) ∷ []) two (omega arith)
      (not_null me) not_me_two (omega arith)

-- Task 1 restarts itself; self_starter is at 900, and the exception task has the thread 109.
abbrev os : Os
os = record { world = three_tasks; restart_wdog = 0 }

abbrev no_timers : Timers
no_timers = record {
  wdog_list = [];
  wdog = λ k. record { ticks_remaining = 0; timeout_func = 0; timeout_parm = 0 };
}

abbrev no_function : Handler Os
no_function f parm v = v

mine : task_for three_tasks 101 0 ≡ my_task three_tasks 101
unfolding task_for
mine = refl

restartable :
    task_for three_tasks 109 (three_tasks.tcb (my_task three_tasks 101)).taskid
    ≡ my_task three_tasks 101
unfolding task_for my_task first_with
restartable = refl

self_restart_starts_over_example :
    (let t = my_task three_tasks 101 in
      let r = task_restart 900 (no_timers, os) 101 0 (some 8) none in
      (r.1 ≡ exited)
      × (r.0.1.world.sems.sched.locker ≡ 0)
      × ((v : Timers × Os) × (process_timer_list (functions 900 109 (some 111) no_function) 2 r.0
            ≡ some v)
          × (v.0.wdog_list ≡ [])
          × (v.1.world.task_list ≡ 1 ∷ 2 ∷ 3 ∷ [])
          × (v.1.world.tcb t
              ≡ record (three_tasks.tcb t) { pthrid = 111; delaying = false; dead = false })
          × (v.1.world.sems.tasks.pend t ≡ false)))
self_restart_starts_over_example =
    self_restart_starts_over 900 109 111 no_function no_timers os 101 0 8 2 none (omega arith)
      (not_null me) mine restartable (inl refl) (refl, tt) refl tt (omega arith)

task_restart_unknown_example :
    (let r = task_restart 900 (no_timers, os) 101 77 none none in
      (r.1 ≡ came_back (error obj_id_error))
      × (r.0.0 ≡ no_timers)
      × (r.0.1.world.sems.sched.locker ≡ 101)
      × (happen_all tasks r.0.1.world.sems.sched (lock two_thread ∷ unlock two_thread ∷ [])
          ≡ r.0.1.world.sems.sched))
task_restart_unknown_example =
    task_restart_unknown 900 no_timers os 101 77 none none tasks
      (lock two_thread ∷ unlock two_thread ∷ []) (omega arith) none_such (inl refl)
      (omega arith, (omega arith, tt))

threaded : AllThreads three_tasks (1 ∷ 2 ∷ 3 ∷ [])
threaded = (λ q. absurd (omega arith), (λ q. absurd (omega arith), (λ q. absurd (omega arith), tt)))

kernel_time_slice_lem_example :
    (v : World) × (kernel_time_slice three_tasks 101 5 ≡ some v)
    × (round_robin_is_enabled v ≡ true)
    × (v.task_list ≡ 1 ∷ 2 ∷ 3 ∷ [])
    × (v.tcb 2 ≡ record (three_tasks.tcb 2) { sched_policy = rr })
    × (v.sems ≡ record sems { sched = v.sems.sched })
    × (v.sems.sched.attr_priority 3 ≡ sems.sched.attr_priority 3)
    × (((task_init v 4 worker true).0.tcb 4).sched_policy ≡ rr)
kernel_time_slice_lem_example =
    kernel_time_slice_lem three_tasks 101 5 2 3 4 worker true threaded not_me refl (omega arith)

abbrev no_tasks : World
no_tasks = record three_tasks { task_list = [] }

startup_lem_example :
    (let by_init = v2lin_init no_tasks 101 1000 2000 (1 ∷ []) (2 ∷ []) 800 (some 102) in
      let main = main_start no_tasks 101 1000 (1 ∷ []) 700 (some 103) in
      let by_main = root_task_start main 103 2000 (2 ∷ []) 800 (some 102) in
      Up 99 by_init 1000 2000 101 102 800 × Up 99 by_main 1000 2000 103 102 800)
startup_lem_example =
    startup_lem no_tasks 101 1000 2000 (1 ∷ []) (2 ∷ []) 700 800 103 102 (omega arith) (omega arith)
      (omega arith) refl refl refl
