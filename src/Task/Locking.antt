-- ===== src/Task/Locking.antt =====
-- The scheduler's lock and the lists of the semaphores, in the calls on tasks.
use cross_compile.Base.{
  ℕ, ◌≡◌, ◌≢◌, ◌⊎◌, inl, inr, false, arith, ◌==◌, if◌then◌else◌, elem, Distinct, elem-erase,
}
use cross_compile.Susp.{unlink_susp_task}
use cross_compile.Sched.{Sched, task_lock, task_unlock}
use cross_compile.Sem.Types.{Sems}
use cross_compile.Task.Types.{World, locked, unlocked, my_task, stop_waiting}

pub stop_waiting-sched : (s : Sems) (t : ℕ) → (stop_waiting s t).sched ≡ s.sched
unfolding stop_waiting
stop_waiting-sched s t = ground arith

pub task_lock_free :
    (w : World) (self : ℕ)
    → (w.sems.sched.locker ≡ 0) ⊎ (w.sems.sched.locker ≡ self)
    → (locked w self).sems.sched.locker ≡ self
unfolding task_lock
task_lock_free w self free = elim free [ inl e ↦ ground arith | inr e ↦ ground arith ]

-- The lock taken by a thread from nobody.
pub locked_first :
    (w : World) (self : ℕ)
    → w.sems.sched.locker ≡ 0
    → w.sems.sched.task_lock_level ≡ 0
    → ((locked w self).sems.sched.locker ≡ self) × ((locked w self).sems.sched.task_lock_level ≡ 1)
unfolding task_lock
locked_first w self free level = ground arith

pub unlocked_not_own :
    (w : World) (self : ℕ)
    → w.sems.sched.locker ≢ self
    → (unlocked w self).sems.sched ≡ w.sems.sched
unfolding task_unlock
unlocked_not_own w self ne = ground arith

pub unlocked_last :
    (w : World) (self : ℕ)
    → w.sems.sched.locker ≡ self
    → w.sems.sched.task_lock_level ≡ 1
    → (unlocked w self).sems.sched.locker ≡ 0
unfolding task_unlock
unlocked_last w self own one = ground arith

pub unlocked_level :
    (w : World) (self : ℕ)
    → w.sems.sched.locker ≡ self
    → w.sems.sched.task_lock_level ≡ 1
    → (unlocked w self).sems.sched.task_lock_level ≡ 0
unfolding task_unlock
unlocked_level w self own one = ground arith

-- The outermost taskUnlock takes the caller back to its own priority.
pub unlocked_attr :
    (w : World) (self t m : ℕ)
    → w.sems.sched.locker ≡ self
    → w.sems.sched.task_lock_level ≡ 1
    → my_task w self ≡ m
    → t ≢ 0
    → (unlocked w self).sems.sched.attr_priority t
      ≡ (if t == m then w.sems.tasks.sched_priority t else w.sems.sched.attr_priority t)
unfolding task_unlock
unlocked_attr w self t m own one mine real = ground arith

pub stop_waiting-waiting : (s : Sems) (t : ℕ) → (stop_waiting s t).waiting ≡ s.waiting
unfolding stop_waiting
stop_waiting-waiting s t = ground arith

pub stop_waiting-with_sched :
    (s : Sems) (c : Sched) (t : ℕ)
    → (stop_waiting (record s { sched = c }) t).smcb ≡ (stop_waiting s t).smcb
unfolding stop_waiting
stop_waiting-with_sched s c t = ground arith

pub stop_waiting_lem :
    (s : Sems) (t k : ℕ)
    → s.waiting t ≡ k
    → t ≢ 0
    → k ≢ 0
    → Distinct (s.smcb k).first_susp
    → (elem t ((stop_waiting s t).smcb k).first_susp ≡ false) × ((stop_waiting s t).waiting t ≡ k)
unfolding stop_waiting unlink_susp_task
stop_waiting_lem s t k waits task sem d = ground (arith, elem-erase t (s.smcb k).first_susp d)
