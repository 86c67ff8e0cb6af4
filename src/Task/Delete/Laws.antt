-- ===== src/Task/Delete/Laws.antt =====
-- taskDeleteForce of a task that nobody waits to see deleted.
use cross_compile.Base.{
  ℕ, ◌≡◌, ◌≢◌, refl, sym, ap, ◌∙◌, ◌⊎◌, inl, inr, Bool, true, false, not, ◌&&◌, arith, ◌==◌, elem,
  erase, elem-erase, elem-erase_ne, Distinct, ==_refl, ==_false, Bool-cases,
}
use cross_compile.Errno.{ok}
use cross_compile.Task.Types.{World, locked, unlocked, my_task, task_for, stop_waiting}
use cross_compile.Task.Table
use cross_compile.Task.Start.{task_wrapper_cleanup}
use cross_compile.Task.Locking.{
  stop_waiting-sched, stop_waiting_lem, stop_waiting-with_sched, unlocked_not_own, locked_first,
  unlocked_last,
}
use cross_compile.Task.Delete.{
  returned, nobody, notify_task_delete, kill_thread, force_finish, notify_woken, delete_force,
  task_delete_force,
}

delete_force-nobody :
    (w : World) (self tid t self_task : ℕ) (nested : Bool)
    → task_for w self tid ≡ t
    → t ≢ 0
    → nobody (w.tcb t).first_susp ≡ true
    → delete_force w self tid self_task nested
      ≡ force_finish w self (record { target = t; self_task = self_task; nested = nested })
unfolding delete_force notify_task_delete notify_woken
delete_force-nobody w self tid t self_task nested found real empty =
    rw (found, ==_false t 0 real, empty, empty) refl

-- Off the list, the control blocks as they were, off the semaphores' lists as stop_waiting does it,
-- and the scheduler unlocked.
abbrev pub Removed : World → ℕ → World → Type 0
Removed w t v =
    (v.task_list ≡ erase t w.task_list)
    × (v.tcb ≡ w.tcb)
    × (v.sems.smcb ≡ (stop_waiting w.sems t).smcb)
    × (v.sems.sched.locker ≡ 0)

force_finish_other :
    (w : World) (self t self_task : ℕ)
    → t ≢ self_task
    → w.sems.sched.locker ≡ self
    → w.sems.sched.task_lock_level ≡ 1
    → (w.tcb t).pthrid ≢ self
    → (let r = force_finish w self (record { target = t; self_task = self_task; nested = false }) in
        (r.1 ≡ returned (ok tt)) × Removed w t r.0)
unfolding force_finish Table.task_delete task_wrapper_cleanup
force_finish_other w self t self_task other own one thread =
    let kept : task_wrapper_cleanup w.sems.sched (w.tcb t).pthrid ≡ w.sems.sched = ground arith in
    let v = Table.task_delete (kill_thread w t) t in
    let same = stop_waiting-sched (kill_thread w t).sems t ∙ kept in
    let free =
      unlocked_last v self (ap (λ c. c.locker) same ∙ own)
        (ap (λ c. c.task_lock_level) same ∙ one) in
    let sems =
      stop_waiting-with_sched w.sems (task_wrapper_cleanup w.sems.sched (w.tcb t).pthrid) t in
    rw (==_false t self_task other) (refl, (refl, refl, sems, free))

force_finish_self :
    (w : World) (self t self_task : ℕ)
    → self ≢ 0
    → (t == self_task) ≡ true
    → w.sems.sched.locker ≡ self
    → w.sems.sched.task_lock_level ≡ 1
    → (let r = force_finish w self (record { target = t; self_task = self_task; nested = false }) in
        (r.1 ≡ returned (ok tt)) × Removed w t r.0)
unfolding force_finish Table.task_delete
force_finish_self w self t self_task real e own one =
    let v = Table.task_delete w t in
    let same = stop_waiting-sched w.sems t in
    let free =
      unlocked_last v self (ap (λ c. c.locker) same ∙ own)
        (ap (λ c. c.task_lock_level) same ∙ one) in
    let again = unlocked_not_own (unlocked v self) self (λ q. real (sym q ∙ free)) in
    rw e (refl, (refl, refl, refl, ap (λ c. c.locker) again ∙ free))

task_delete_force-Removed :
    (w : World) (self tid t : ℕ)
    → self ≢ 0
    → task_for w self tid ≡ t
    → t ≢ 0
    → nobody (w.tcb t).first_susp ≡ true
    → w.sems.sched.locker ≡ 0
    → w.sems.sched.task_lock_level ≡ 0
    → (t ≡ my_task w self) ⊎ ((t ≢ my_task w self) × ((w.tcb t).pthrid ≢ self))
    → ((task_delete_force w self tid).1 ≡ returned (ok tt))
      × Removed (locked w self) t (task_delete_force w self tid).0
unfolding task_delete_force task_for my_task
task_delete_force-Removed w self tid t me found real empty free level who =
    let v = locked w self in
    let (own, one) = locked_first w self free level in
    let start = delete_force-nobody v self tid t (my_task w self) false found real empty in
    elim who [
      | inl e ↦
          rw start (
            force_finish_self v self t (my_task w self) me (rw e (==_refl (my_task w self))) own
              one)
      | inr (ne, thread) ↦ rw start (force_finish_other v self t (my_task w self) ne own one thread)
    ]

-- taskDeleteForce of a task that nobody waits to see deleted, by the task itself or by a thread
-- that is not the task's, while nobody has the scheduler locked and no list holds a task twice: it
-- returns OK, the task alone is off the list of the tasks, the task is off the list of the
-- semaphore that it waited for, if it waited, and the scheduler is unlocked.
pub task_delete_force_lem :
    (w : World) (self tid t other : ℕ)
    → self ≢ 0
    → task_for w self tid ≡ t
    → t ≢ 0
    → nobody (w.tcb t).first_susp ≡ true
    → w.sems.sched.locker ≡ 0
    → w.sems.sched.task_lock_level ≡ 0
    → (t ≡ my_task w self) ⊎ ((t ≢ my_task w self) × ((w.tcb t).pthrid ≢ self))
    → Distinct w.task_list
    → Distinct (w.sems.smcb (w.sems.waiting t)).first_susp
    → other ≢ t
    → (let (v, at) = task_delete_force w self tid in
        let k = w.sems.waiting t in
        (at ≡ returned (ok tt))
        × (elem t v.task_list ≡ false)
        × (elem other v.task_list ≡ elem other w.task_list)
        × ((not (k == 0) && elem t (v.sems.smcb k).first_susp) ≡ false)
        × (v.sems.sched.locker ≡ 0))
task_delete_force_lem w self tid t other me found real empty free level who d d' apart =
    let (at, (list, tcb, smcb, unlocked')) =
      task_delete_force-Removed w self tid t me found real empty free level who in
    let k = w.sems.waiting t in
    (
      at,
      ap (elem t) list ∙ elem-erase t w.task_list d,
      ap (elem other) list ∙ elem-erase_ne other t w.task_list apart,
      elim (Bool-cases (k == 0)) [
        | inl e ↦ ground arith
        | inr e ↦
            let out = stop_waiting_lem (locked w self).sems t k refl real (λ q. ground arith) d' in
            rw smcb (ground (arith, out))
      ],
      unlocked',
    )
