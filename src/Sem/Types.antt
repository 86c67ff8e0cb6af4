-- ===== src/Sem/Types.antt =====
-- lib/lsemLib.c: the control block of a semaphore (v2lsem_t) and the list of the semaphores. A
-- condition variable is the number of broadcasts made on it, and counts are not negative. `sem_lock`
-- is whether a call that is over has kept the mutex: no step on the semaphore can start then.
use cross_compile.Base.{
  ℕ, not, ◌&&◌, ◌/◌, ◌%◌, Bool, true, false, List, [], ◌∷◌, ◌==◌, if◌then◌else◌,
}
use cross_compile.Susp.{Tasks}
use cross_compile.Sched.{Sched}

pub data SendType : Type 0 where
  send flush killd : SendType

pub record Semaphore : Type 0 where
  pub sem_lock : Bool
  pub sem_send : ℕ
  pub flags : ℕ
  pub smdel_cplt : ℕ
  pub token_count : ℕ
  pub send_type : SendType
  pub recursion_level : ℕ
  pub current_owner : ℕ
  pub first_susp : List ℕ

-- The tasks, the scheduler's lock, `delete_safe_count` and `waiting` of each task (the semaphore that
-- the task is in semTake for), sem_list, and the control block that a semaphore pointer leads to.
pub record Sems : Type 0 where
  pub tasks : Tasks
  pub sched : Sched
  pub delete_safe_count : ℕ → ℕ
  pub waiting : ℕ → ℕ
  pub sem_list : List ℕ
  pub smcb : ℕ → Semaphore

abbrev pub set_smcb : Sems → ℕ → Semaphore → Sems
set_smcb w s m = record w { smcb = λ j. if j == s then m else w.smcb j }

-- `if (our_task) our_task->waiting = …`
abbrev pub set_waiting : Sems → ℕ → ℕ → Sems
set_waiting w task s = record w {
  waiting = λ j. if j == task && not (task == 0) then s else w.waiting j;
}

-- The bits of `flags` and of `opt`.
unfoldable pub is_mutex : ℕ → Bool
is_mutex flags = flags / 16 % 16 == 1

abbrev pub priority_bit : ℕ → ℕ
priority_bit flags = flags % 2

unfoldable pub delete_safe : ℕ → Bool
delete_safe flags = flags / 4 % 2 == 1

unfoldable pub inversion_safe : ℕ → Bool
inversion_safe flags = flags / 8 % 2 == 1

-- KILLD or FLUSH.
abbrev pub is_dismissed : SendType → Bool
is_dismissed send = false
is_dismissed _ = true

abbrev pub nobody_waits : Semaphore → Bool
nobody_waits s = elim s.first_susp [ [] ↦ true | x ∷ xs ↦ false ]
