-- ===== src/Task/Table.antt =====
-- lib/ltaskLib.c: new_tid, taskInit and task_delete, which change the list of the tasks. What
-- ts_malloc returns for a copy of the name is an argument.
use cross_compile.Base.{
  ℕ, ◌+◌, ◌^◌, ◌%◌, Bool, true, false, not, ◌&&◌, Option, none, some, List, [], ◌∷◌, ◌++◌, ltb, leb,
  ◌==◌, if◌then◌else◌, erase,
}
use cross_compile.Base.Int.{ℤ}
use cross_compile.Errno.{Result, ok, error, enosys, obj_id_error}
use cross_compile.Priority.{translate_priority}
use cross_compile.Susp
use cross_compile.Sched.{set_priority}
use cross_compile.Sem.Types.{Sems}
use cross_compile.Task.Types.{Policy, fifo, rr, Tcb, World, set_tcb, stop_waiting}

-- The loop of new_tid.
unfoldable pub above_all : World → ℕ → List ℕ → ℕ
above_all w new_taskid [] = new_taskid
above_all w new_taskid (t ∷ ts) =
    above_all w
      (if ltb (w.tcb t).taskid 65536 && leb new_taskid (w.tcb t).taskid
        then (w.tcb t).taskid + 1
        else new_taskid)
      ts

unfoldable pub new_tid : World → ℕ
unfolding above_all
new_tid w = above_all w 1 w.task_list

-- The arguments of taskInit and taskSpawn; the stack is not used.
pub record Spawning : Type 0 where
  pub name : Option (List ℕ)
  pub pri : ℤ
  pub opts : ℕ
  pub entry : ℕ
  pub args : List ℕ

abbrev pub policy_of : Bool → Policy
policy_of true = rr
policy_of false = fifo

-- The control block that taskInit fills in, after memset.
unfoldable pub new_tcb : World → ℕ → Spawning → Bool → Tcb
new_tcb w task a named = record {
  taskid = task % 2 ^ 32;
  taskname = if named then a.name else none;
  pthrid = 0;
  sched_policy = policy_of w.round_robin_enabled;
  entry_point = a.entry;
  parms = a.args;
  static_task = true;
  delaying = false;
  dead = true;
  vxw_priority = a.pri;
  first_susp = [];
  t_deletable = 0;
  delete_bcplt = 0;
}

-- The fields of the same block that stand elsewhere.
unfoldable pub new_sems : Sems → ℕ → ℕ → Sems
new_sems s task priority = record s {
  tasks = record (Susp.set_pend s.tasks task false) {
    sched_priority = λ j. if j == task then priority else s.tasks.sched_priority j;
  };
  sched = set_priority s.sched task priority;
  delete_safe_count = λ j. if j == task then 0 else s.delete_safe_count j;
  waiting = λ j. if j == task then 0 else s.waiting j;
}

-- `named` is whether there is memory for the name. With options, ENOSYS is returned in place of
-- ERROR. A priority out of range is reported at the end: the block is filled in, but not linked.
unfoldable pub task_init : World → ℕ → Spawning → Bool → World × Result (Unit {0})
unfolding new_tcb new_sems
task_init w task a named =
    let (priority, e) = translate_priority a.pri w.min_priority w.sems.sched.max_priority in
    let w' = record (set_tcb w task (new_tcb w task a named)) {
      sems = new_sems w.sems task priority;
    } in
    let linked = record w' { task_list = w.task_list ++ task ∷ [] } in
    let done : World × Result (Unit {0}) = elim e [
      | none ↦ (linked, ok tt)
      | some c ↦ (w', error c)
    ] in
    if not (a.opts == 0)
    then (w, error enosys)
    else if task == 0
    then (w, error obj_id_error)
    else done

-- The memory of a task that is not static is given back: its block is no longer looked at.
unfoldable pub task_delete : World → ℕ → World
unfolding stop_waiting
task_delete w task = record w {
  sems = stop_waiting w.sems task;
  task_list = erase task w.task_list;
}
