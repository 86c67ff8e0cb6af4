-- ===== src/Tests/Semaphores.antt =====
-- Semaphores and the scheduler's lock at concrete inputs.
use cross_compile.Base.{◌+◌, ◌≡◌, refl, inr, true, false, some, [], ◌∷◌, arith}
use cross_compile.Errno.{error, obj_timeout, etimedout}
use cross_compile.Clock.{Timeval, immediate}
use cross_compile.Susp
use cross_compile.Susp.{Tasks}
use cross_compile.Sched.{Thread, Sched}
use cross_compile.Sched.Laws.{
  lock, unlock, happen_all, happen_all-Others, lock_times, unlock_times, nested_locks,
}
use cross_compile.Sem.Types.{send, Semaphore, Sems, is_mutex}
use cross_compile.Sem.Registry.{sem_find_lock}
use cross_compile.Sem.Give.{sem_give}
use cross_compile.Sem.Take.{Taking, returned, take_look}
use cross_compile.Sem.Mutex.{AsMutex, here, more, gives, Steps-AsMutex}
use cross_compile.Sem.Exclusion.{Owned, Steps-Owned}
use cross_compile.Sem.Cases.{timed_out_lem}
use cross_compile.Sem.Nested.{Free, take_times, give_times, mutex_round_trip}

abbrev pub noon : Timeval
noon = record { tv_sec = 43200; tv_usec = 0 }

abbrev pub free_scheduler : Sched
free_scheduler = record {
  locker = 0;
  task_lock_level = 0;
  task_lock_change = 0;
  attr_priority = λ t. 10;
  max_priority = 99;
}

abbrev pub both_tasks : Tasks
both_tasks = record { sched_priority = λ t. 10 + t; pend = λ t. false }

abbrev pub four : Thread
four = record { pthread_self = 104; my_task = 4 }

abbrev pub five : Thread
five = record { pthread_self = 105; my_task = 5 }

-- Task 5 has the scheduler locked.
abbrev locked_scheduler : Sched
locked_scheduler = record free_scheduler { locker = 105; task_lock_level = 1 }

happen_all-Others_example :
    happen_all both_tasks locked_scheduler (lock four ∷ unlock four ∷ []) ≡ locked_scheduler
happen_all-Others_example =
    happen_all-Others both_tasks locked_scheduler (lock four ∷ unlock four ∷ []) (omega arith)
      (omega arith, (omega arith, tt))

nested_locks_example :
    (let locked = lock_times 3 free_scheduler four in
      let unlocked = unlock_times 3 locked both_tasks four in
      (locked.locker ≡ 104)
      × (locked.task_lock_level ≡ 3)
      × (unlocked.locker ≡ 0)
      × (unlocked.task_lock_level ≡ 0)
      × (unlocked.attr_priority 4 ≡ 14))
nested_locks_example =
    nested_locks 2 free_scheduler both_tasks four refl refl (omega arith) (omega arith)

-- A free mutex, at 9.
abbrev pub free_mutex : Semaphore
free_mutex = record {
  sem_lock = false;
  sem_send = 0;
  flags = 16;
  smdel_cplt = 0;
  token_count = 1;
  send_type = send;
  recursion_level = 0;
  current_owner = 0;
  first_susp = [];
}

abbrev pub with_sem : Semaphore → Sems
with_sem s = record {
  tasks = both_tasks;
  sched = free_scheduler;
  delete_safe_count = λ t. 0;
  waiting = λ t. 0;
  sem_list = 9 ∷ [];
  smcb = λ j. s;
}

-- Task 4 owns the mutex, and task 5 waits for it.
abbrev pub owned_mutex : Semaphore
owned_mutex = record free_mutex {
  token_count = 0;
  recursion_level = 1;
  current_owner = 4;
  first_susp = 5 ∷ [];
}

found : (s : Semaphore) → sem_find_lock (with_sem s) 9 ≡ true
unfolding sem_find_lock
found s = refl

mutex_kind : is_mutex 16 ≡ true
unfolding is_mutex
mutex_kind = refl

abbrev given : Sems
given = (sem_give (with_sem owned_mutex) four 9).0

Steps-AsMutex_example : AsMutex (given.smcb 9)
Steps-AsMutex_example =
    Steps-AsMutex 9
      (more (gives {w = with_sem owned_mutex} four 9 (omega arith) (omega arith)) here)
      (mutex_kind, refl, inr (omega arith, refl, omega arith))

Steps-Owned_example : Owned 4 1 ((sem_give (with_sem owned_mutex) five 9).0.smcb 9)
Steps-Owned_example =
    Steps-Owned 9 (more (gives {w = with_sem owned_mutex} five 9 (omega arith) (omega arith)) here)
      (mutex_kind, refl, refl, refl, refl)

mutex_round_trip_example :
    (w' : Sems) × (take_times 3 (with_sem free_mutex) four noon 9 ≡ some w')
    × ((w'.smcb 9).current_owner ≡ 4)
    × ((w'.smcb 9).recursion_level ≡ 3)
    × Free 9 (give_times 3 w' four 9)
mutex_round_trip_example =
    mutex_round_trip 2 (with_sem free_mutex) four noon 9
      (found free_mutex, mutex_kind, refl, refl, refl) refl refl (omega arith)

-- Task 5 waits for the mutex of task 4, and its time is over.
abbrev tired : Taking
tired = record {
  semaphore = 9;
  impatient = false;
  timeout = some (immediate noon);
  retcode = etimedout;
}

timed_out_lem_example :
    (let (w', at) = take_look (with_sem owned_mutex) five tired in
      (at ≡ returned (error obj_timeout))
      × ((w'.smcb 9).token_count ≡ 0)
      × ((w'.smcb 9).current_owner ≡ 4)
      × ((w'.smcb 9).recursion_level ≡ 1)
      × ((w'.smcb 9).first_susp ≡ (Susp.unlink_susp_task both_tasks (5 ∷ []) 5).1))
timed_out_lem_example = timed_out_lem (with_sem owned_mutex) five tired refl refl refl
