-- ===== src/Task/Main.antt =====
-- lib/main_impl.c: main and the root task, up to the calls of the user's functions.
pub mod Laws
use cross_compile.Base.{ℕ, ◌-◌, true, Option, List}
use cross_compile.Task.Types.{World}
use cross_compile.Task.Table.{task_init}
use cross_compile.Task.Start.{task_activate}
use cross_compile.Task.Kernel.{system_task, with_priority}

-- main, in the process's first thread, which is no task. There is memory for the name, and `thread` is
-- the thread that taskActivate makes.
unfoldable pub main_start : World → ℕ → ℕ → List ℕ → ℕ → Option ℕ → World
unfolding task_init task_activate
main_start w self rt name root_task thread =
    let max_priority = w.sems.sched.max_priority in
    let v = with_priority (task_init w rt (system_task name root_task) true).0 rt max_priority in
    (task_activate v self (v.tcb rt).taskid thread).0

-- root_task, before it calls user_sysinit.
unfoldable pub root_task_start : World → ℕ → ℕ → List ℕ → ℕ → Option ℕ → World
unfolding task_init task_activate
root_task_start w self excp_task name exception_task thread =
    let max_priority = w.sems.sched.max_priority in
    let v =
      with_priority (task_init w excp_task (system_task name exception_task) true).0 excp_task
        (max_priority - 1) in
    (task_activate v self (v.tcb excp_task).taskid thread).0
