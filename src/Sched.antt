-- ===== src/Sched.antt =====
-- lib/ltaskLib.c: taskLock and taskUnlock, which raise the caller to the highest priority while it
-- has the scheduler locked, and taskSafe and taskUnsafe. A thread is a number above 0. The field
-- waiting_m of a task is only shown to the user, and is left out.
pub mod Laws
use cross_compile.Base.{
  ℕ, ◌+◌, ◌-◌, ◌^◌, ◌%◌, Bool, true, false, not, ◌||◌, ltb, leb, ◌==◌, if◌then◌else◌,
}
use cross_compile.Susp.{Tasks}

-- pthread_self() and my_task() of a caller, the latter NULL for a thread that is no task.
pub record Thread : Type 0 where
  pub pthread_self : ℕ
  pub my_task : ℕ

-- `attr_priority` is the priority in `attr` of a task, which pthread_setschedparam makes its
-- thread's as well; `max_priority` is what sched_get_priority_max returns.
pub record Sched : Type 0 where
  pub locker : ℕ
  pub task_lock_level : ℕ
  pub task_lock_change : ℕ
  pub attr_priority : ℕ → ℕ
  pub max_priority : ℕ

-- pthread_attr_setschedparam and pthread_setschedparam of a task, if there is one.
abbrev pub set_priority : Sched → ℕ → ℕ → Sched
set_priority s task priority =
    if task == 0
    then s
    else record s { attr_priority = λ j. if j == task then priority else s.attr_priority j }

-- `taskLock_level` is an unsigned long, which is kept from going round.
abbrev pub next_level : ℕ → ℕ
next_level n = let level = (n + 1) % 2 ^ 64 in if level == 0 then 2 ^ 64 - 1 else level

-- A turn of the loop of taskLock, with what follows the loop if the caller got the lock. Otherwise
-- the caller waits on taskLock_change, and then takes another turn.
unfoldable pub task_lock : Sched → Thread → Sched × Bool
task_lock s t =
    if s.locker == 0 || s.locker == t.pthread_self
    then (
      set_priority
          (record s {
            locker = t.pthread_self;
            task_lock_level = next_level s.task_lock_level;
            task_lock_change = s.task_lock_change + 1;
          })
          t.my_task s.max_priority,
      true,
    )
    else (s, false)

-- The part of taskUnlock at the outermost level.
abbrev pub let_go : Sched → Tasks → Thread → Sched
let_go s ts t = record (set_priority s t.my_task (ts.sched_priority t.my_task)) {
  locker = 0;
  task_lock_change = s.task_lock_change + 1;
}

unfoldable pub task_unlock : Sched → Tasks → Thread → Sched
task_unlock s ts t =
    let lowered = record s {
      task_lock_level =
          if ltb 0 s.task_lock_level then s.task_lock_level - 1 else s.task_lock_level;
    } in
    if s.locker == t.pthread_self
    then (if ltb lowered.task_lock_level 1 then let_go lowered ts t else lowered)
    else s

-- `delete_safe_count` of the calling task, an int that is kept from overflowing.
unfoldable pub task_safe : ℕ → ℕ
task_safe count = if leb (2 ^ 31) (count + 1) then count else count + 1

unfoldable pub task_unsafe : ℕ → ℕ
task_unsafe count = if ltb 0 count then count - 1 else count
