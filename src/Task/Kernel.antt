-- ===== src/Task/Kernel.antt =====
-- lib/lkernelLib.c: round-robin scheduling, the exception task, and v2lin_init.
pub mod Laws
pub mod Init
use cross_compile.Base.{
  ℕ, ◌-◌, Bool, true, false, not, Option, none, some, List, [], ◌∷◌, ◌==◌, if◌then◌else◌,
}
use cross_compile.Base.Int.{pos}
use cross_compile.Sched.{set_priority}
use cross_compile.Wdog.{Timers, Handler, process_timer_list}
use cross_compile.Task.Types.{
  World, Tcb, Policy, set_tcb, my_task, locked, unlocked, with_sched, readied,
}
use cross_compile.Task.Table.{Spawning, policy_of, task_init}
use cross_compile.Task.Start.{task_activate}
use cross_compile.Task.Lookup.{task_delay}
use cross_compile.Task.Restart.{Os}
use cross_compile.Msgq.Ring.{◌>>=◌}

abbrev pub disable_round_robin : World → World
disable_round_robin w = record w { round_robin_enabled = false }

abbrev pub enable_round_robin : World → World
enable_round_robin w = record w { round_robin_enabled = true }

abbrev pub round_robin_is_enabled : World → Bool
round_robin_is_enabled w = w.round_robin_enabled

-- The loop of kernelTimeSlice. pthread_setschedparam of a task that has no thread yet, whose pthrid is 0,
-- is undefined.
unfoldable pub set_policies : World → Policy → List ℕ → Option World
set_policies w policy [] = some w
set_policies w policy (task ∷ rest) =
    let others =
      set_policies (set_tcb w task (record (w.tcb task) { sched_policy = policy })) policy rest in
    if (w.tcb task).pthrid == 0 then none else others

unfoldable pub kernel_time_slice : World → ℕ → ℕ → Option World
unfolding set_policies
kernel_time_slice w self ticks_per_quantum =
    let on = not (ticks_per_quantum == 0) in
    let v = record (locked w self) { round_robin_enabled = on } in
    do u ← set_policies v (policy_of on) v.task_list; some (unlocked u self)

-- A turn of the loop of exception_task, up to the sleep.
unfoldable pub exception_turn : Handler Os → ℕ → ℕ → Timers × Os → Option (Timers × Os)
unfolding process_timer_list task_delay
exception_turn handler fuel self v = elim (process_timer_list handler fuel v) [
  | none ↦ none
  | some (w, s) ↦ some (w, record s { world = task_delay s.world self })
]

-- The system tasks are put in by their names and entry points.
abbrev pub system_task : List ℕ → ℕ → Spawning
system_task name entry = record {
  name = some name;
  pri = pos 0;
  opts = 0;
  entry = entry;
  args = 0 ∷ 0 ∷ 0 ∷ 0 ∷ 0 ∷ 0 ∷ 0 ∷ 0 ∷ 0 ∷ 0 ∷ [];
}

-- The priority of a task and the one in its `attr`.
abbrev pub with_priority : World → ℕ → ℕ → World
with_priority w t priority = record w {
  sems = record w.sems {
    tasks = record w.sems.tasks {
      sched_priority = λ j. if j == t then priority else w.sems.tasks.sched_priority j;
    };
    sched = set_priority w.sems.sched t priority;
  };
}

-- `thread` is the thread that the second taskActivate makes. There is memory for the names.
unfoldable pub v2lin_init : World → ℕ → ℕ → ℕ → List ℕ → List ℕ → ℕ → Option ℕ → World
unfolding task_init task_activate
v2lin_init w self root_task excp_task root_name excp_name exception_task thread =
    let max_priority = w.sems.sched.max_priority in
    let w1 = (task_init w root_task (system_task root_name 0) true).0 in
    let w2 = readied (with_priority w1 root_task max_priority) root_task self in
    let w3 = (task_activate w2 self (w2.tcb root_task).taskid none).0 in
    let w4 = (task_init w3 excp_task (system_task excp_name exception_task) true).0 in
    let w5 = with_priority w4 excp_task (max_priority - 1) in
    (task_activate w5 self (w5.tcb excp_task).taskid thread).0
