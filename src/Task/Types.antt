-- ===== src/Task/Types.antt =====
-- lib/ltaskLib.c: the control block of a task (task_t) and the list of the tasks. A task identifier
-- is an int, by its 32 bits. Of a control block, the Linux priority and the PEND bit of `state` stand in
-- `Tasks` (`Susp`), the priority in `attr` in `Sched`, and delete_safe_count and `waiting` in `Sems`.
-- The bits SUSPEND, TIMEOUT and INH_PRI of `state` are never set. No thread has the number 0.
use cross_compile.Base.{ℕ, Bool, false, not, ◌&&◌, Option, List, [], ◌∷◌, ◌==◌, if◌then◌else◌}
use cross_compile.Base.Int.{ℤ}
use cross_compile.Susp
use cross_compile.Susp.{Tasks}
use cross_compile.Sched.{Thread, Sched, task_lock, task_unlock}
use cross_compile.Sem.Types.{Sems, set_smcb}

-- The policy in `attr`.
pub data Policy : Type 0 where
  fifo rr : Policy

-- A condition variable is the number of broadcasts on it; `delaying` and `dead` are the bits DELAY and
-- DEAD of `state`.
pub record Tcb : Type 0 where
  pub taskid : ℕ
  pub taskname : Option (List ℕ)
  pub pthrid : ℕ
  pub sched_policy : Policy
  pub entry_point : ℕ
  pub parms : List ℕ
  pub static_task : Bool
  pub delaying : Bool
  pub dead : Bool
  pub vxw_priority : ℤ
  pub first_susp : List ℕ
  pub t_deletable : ℕ
  pub delete_bcplt : ℕ

-- `min_priority` is what sched_get_priority_min returns; the bounds are those of both policies.
pub record World : Type 0 where
  pub sems : Sems
  pub task_list : List ℕ
  pub tcb : ℕ → Tcb
  pub round_robin_enabled : Bool
  pub min_priority : ℕ

abbrev pub set_tcb : World → ℕ → Tcb → World
set_tcb w t c = record w { tcb = λ j. if j == t then c else w.tcb j }

-- The first task of a list that passes a test, or NULL.
unfoldable pub first_with : (ℕ → Bool) → List ℕ → ℕ
first_with test [] = 0
first_with test (t ∷ ts) = if test t then t else first_with test ts

-- `self` is pthread_self().
unfoldable pub my_task : World → ℕ → ℕ
my_task w self = first_with (λ t. (w.tcb t).pthrid == self) w.task_list

unfoldable pub task_for : World → ℕ → ℕ → ℕ
unfolding my_task
task_for w self taskid =
    if taskid == 0 then my_task w self else first_with (λ t. (w.tcb t).taskid == taskid) w.task_list

abbrev pub thread_of : World → ℕ → Thread
thread_of w self = record { pthread_self = self; my_task = my_task w self }

abbrev pub with_sched : World → Sched → World
with_sched w s = record w { sems = record w.sems { sched = s } }

-- taskLock, at the point where it returns, and taskUnlock.
abbrev pub locked : World → ℕ → World
locked w self = with_sched w (task_lock w.sems.sched (thread_of w self)).0

abbrev pub unlocked : World → ℕ → World
unlocked w self = with_sched w (task_unlock w.sems.sched w.sems.tasks (thread_of w self))

-- `state == DEAD`.
abbrev pub is_dead : World → ℕ → Bool
is_dead w t = (w.tcb t).dead && not (w.tcb t).delaying && not (w.sems.tasks.pend t)

-- `state = READY`, with a thread.
abbrev pub readied : World → ℕ → ℕ → World
readied w t thread =
    record (set_tcb w t (record (w.tcb t) { pthrid = thread; delaying = false; dead = false })) {
      sems = record w.sems { tasks = Susp.set_pend w.sems.tasks t false };
    }

-- `if (task->waiting) unlink_susp_task(&task->waiting->first_susp, task);`
unfoldable pub stop_waiting : Sems → ℕ → Sems
stop_waiting s t =
    let k = s.waiting t in
    let (ts, rest) = Susp.unlink_susp_task s.tasks (s.smcb k).first_susp t in
    if k == 0
    then s
    else set_smcb (record s { tasks = ts }) k (record (s.smcb k) { first_susp = rest })
