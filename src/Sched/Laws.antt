-- ===== src/Sched/Laws.antt =====
-- taskLock excludes other threads and nests.
use cross_compile.Base.{
  ℕ, zero, suc, ◌+◌, ◌^◌, ◌<◌, ◌≡◌, ◌≢◌, refl, ◌⊎◌, inl, inr, List, [], ◌∷◌, arith,
}
use cross_compile.Susp.{Tasks}
use cross_compile.Sched.{Thread, Sched, task_lock, task_unlock}

-- A turn of taskLock, or a taskUnlock, by some thread.
pub data Event : Type 0 where
  lock unlock : Thread → Event

abbrev pub by : Event → ℕ
by (lock t) = t.pthread_self
by (unlock t) = t.pthread_self

unfoldable pub happen : Tasks → Sched → Event → Sched
unfolding task_lock task_unlock
happen ts s (lock t) = (task_lock s t).0
happen ts s (unlock t) = task_unlock s ts t

unfoldable pub happen_all : Tasks → Sched → List Event → Sched
unfolding happen
happen_all ts s [] = s
happen_all ts s (e ∷ es) = happen_all ts (happen ts s e) es

abbrev pub Others : ℕ → List Event → Type 0
Others self [] = Unit {0}
Others self (e ∷ es) = (by e ≢ self) × Others self es

happen-others :
    (ts : Tasks) (s : Sched) (e : Event) → s.locker ≢ 0 → by e ≢ s.locker → happen ts s e ≡ s
unfolding happen
happen-others ts s (lock t) held ne = ground arith
happen-others ts s (unlock t) held ne = ground arith

-- While a thread has the scheduler locked, whatever turns of taskLock and whatever calls of
-- taskUnlock other threads make, nothing changes: the lock stays with its holder, at its level, and
-- no priority moves.
pub happen_all-Others :
    (ts : Tasks) (s : Sched) (es : List Event)
    → s.locker ≢ 0
    → Others s.locker es
    → happen_all ts s es ≡ s
unfolding happen_all
happen_all-Others ts s [] held o = refl
happen_all-Others ts s (e ∷ es) held o =
    rw (happen-others ts s e held o.0) (happen_all-Others ts s es held o.1)

-- `n` calls of taskLock, and `n` of taskUnlock.
unfoldable pub lock_times : ℕ → Sched → Thread → Sched
lock_times zero s t = s
lock_times (suc n) s t = lock_times n (task_lock s t).0 t

unfoldable pub unlock_times : ℕ → Sched → Tasks → Thread → Sched
unlock_times zero s ts t = s
unlock_times (suc n) s ts t = unlock_times n (task_unlock s ts t) ts t

task_lock-own :
    (s : Sched) (t : Thread)
    → (s.locker ≡ 0) ⊎ (s.locker ≡ t.pthread_self)
    → s.task_lock_level + 1 < 2 ^ 64
    → ((task_lock s t).0.locker ≡ t.pthread_self)
      × ((task_lock s t).0.task_lock_level ≡ s.task_lock_level + 1)
unfolding task_lock
task_lock-own s t free h = elim free [ inl e ↦ ground arith | inr e ↦ ground arith ]

lock_times_lem :
    (n : ℕ) (s : Sched) (t : Thread)
    → s.locker ≡ t.pthread_self
    → s.task_lock_level + n < 2 ^ 64
    → ((lock_times n s t).locker ≡ t.pthread_self)
      × ((lock_times n s t).task_lock_level ≡ s.task_lock_level + n)
unfolding lock_times
lock_times_lem zero s t mine h = (mine, omega arith)
lock_times_lem (suc n) s t mine h =
    let (own, level) = task_lock-own s t (inr mine) (omega arith) in
    let (held, deep) = lock_times_lem n (task_lock s t).0 t own (omega arith) in (held, omega arith)

task_unlock-last :
    (s : Sched) (ts : Tasks) (t : Thread)
    → s.locker ≡ t.pthread_self
    → s.task_lock_level ≡ 1
    → t.my_task ≢ 0
    → ((task_unlock s ts t).locker ≡ 0)
      × ((task_unlock s ts t).task_lock_level ≡ 0)
      × ((task_unlock s ts t).attr_priority t.my_task ≡ ts.sched_priority t.my_task)
unfolding task_unlock
task_unlock-last s ts t mine h task = ground arith

task_unlock-inner :
    (n : ℕ) (s : Sched) (ts : Tasks) (t : Thread)
    → s.locker ≡ t.pthread_self
    → s.task_lock_level ≡ suc (suc n)
    → ((task_unlock s ts t).locker ≡ t.pthread_self)
      × ((task_unlock s ts t).task_lock_level ≡ suc n)
unfolding task_unlock
task_unlock-inner n s ts t mine h = ground arith

unlock_times_lem :
    (n : ℕ) (s : Sched) (ts : Tasks) (t : Thread)
    → s.locker ≡ t.pthread_self
    → s.task_lock_level ≡ suc n
    → t.my_task ≢ 0
    → ((unlock_times (suc n) s ts t).locker ≡ 0)
      × ((unlock_times (suc n) s ts t).task_lock_level ≡ 0)
      × ((unlock_times (suc n) s ts t).attr_priority t.my_task ≡ ts.sched_priority t.my_task)
unfolding unlock_times
unlock_times_lem zero s ts t mine h task = task_unlock-last s ts t mine h task
unlock_times_lem (suc n) s ts t mine h task =
    let (own, level) = task_unlock-inner n s ts t mine h in
    unlock_times_lem n (task_unlock s ts t) ts t own level task

-- A task that locks the free scheduler a number of times (fewer than an unsigned long holds) has it
-- locked, and after as many calls of taskUnlock the scheduler is free again, at level 0, and the
-- task is back at its own priority.
pub nested_locks :
    (n : ℕ) (s : Sched) (ts : Tasks) (t : Thread)
    → s.locker ≡ 0
    → s.task_lock_level ≡ 0
    → t.my_task ≢ 0
    → suc n < 2 ^ 64
    → (let locked = lock_times (suc n) s t in
        let unlocked = unlock_times (suc n) locked ts t in
        (locked.locker ≡ t.pthread_self)
        × (locked.task_lock_level ≡ suc n)
        × (unlocked.locker ≡ 0)
        × (unlocked.task_lock_level ≡ 0)
        × (unlocked.attr_priority t.my_task ≡ ts.sched_priority t.my_task))
unfolding lock_times
nested_locks n s ts t free level task h =
    let (own, one) = task_lock-own s t (inl free) (omega arith) in
    let (held, deep) = lock_times_lem n (task_lock s t).0 t own (omega arith) in
    let (free', level', back) =
      unlock_times_lem n (lock_times n (task_lock s t).0 t) ts t held (omega arith) task in
    (held, omega arith, free', level', back)
