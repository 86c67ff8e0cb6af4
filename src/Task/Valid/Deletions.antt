-- ===== src/Task/Valid/Deletions.antt =====
-- The calls that delete tasks keep the list in order.
use cross_compile.Base.{ℕ, ◌≡◌, refl, inl, inr, Bool, true, false, arith, ◌==◌, ltb, if◌then◌else◌}
use cross_compile.Task.Types.{with_sched, World, locked, unlocked, my_task, task_for}
use cross_compile.Task.Table.{policy_of, Spawning, task_init, new_tcb}
use cross_compile.Task.Table
use cross_compile.Task.Start.{task_wrapper_cleanup}
use cross_compile.Task.Delete
use cross_compile.Task.Delete.{
  task_wrapper_end, Deleting, nobody, set_count, kill_thread, notify_task_delete, force_finish,
  notify_woken, delete_force, task_delete_force, task_pend_delete, pend_woken, task_safe_call,
  task_unsafe_call,
}
use cross_compile.Task.Valid.{Keeps, ids}
use cross_compile.Task.Valid.Keeping.{world-Keeps, either-Keeps, either_result-Keeps, after-Keeps}

force_finish-Keeps : (w : World) (self : ℕ) (c : Deleting) → Keeps w (force_finish w self c).0
unfolding force_finish Table.task_delete
force_finish-Keeps w self c =
    let v =
      if c.target == c.self_task
      then unlocked (Table.task_delete w c.target) self
      else Table.task_delete (kill_thread w c.target) c.target in
    let k : Keeps w v =
      either-Keeps w (λ v. v) (c.target == c.self_task) _ _ (λ j. refl, inr (c.target, refl))
        (λ j. refl, inr (c.target, refl)) in
    either-Keeps w (λ v. v) c.nested _ _ k k

pub notify_woken-Keeps : (w : World) (self : ℕ) (c : Deleting) → Keeps w (notify_woken w self c).0
unfolding notify_woken
notify_woken-Keeps w self c =
    either_result-Keeps w (nobody (w.tcb c.target).first_susp) _ _ (force_finish-Keeps w self c)
      (world-Keeps w)

pub notify_task_delete-ids : (w : World) (t j : ℕ) → ids (notify_task_delete w t) j ≡ ids w j
unfolding notify_task_delete
notify_task_delete-ids w t j = ground arith

pub notify_task_delete-list : (w : World) (t : ℕ) → (notify_task_delete w t).task_list ≡ w.task_list
unfolding notify_task_delete
notify_task_delete-list w t = ground arith

delete_force-Keeps :
    (w : World) (self tid self_task : ℕ) (nested : Bool)
    → Keeps w (delete_force w self tid self_task nested).0
unfolding delete_force
delete_force-Keeps w self tid self_task nested =
    let t = task_for w self tid in
    let c : Deleting = record { target = t; self_task = self_task; nested = nested } in
    either_result-Keeps w (t == 0) _ _
      (either-Keeps w (λ v. v) nested _ _ (world-Keeps w) (world-Keeps w))
      (after-Keeps w (notify_task_delete w t) (notify_woken (notify_task_delete w t) self c).0
        (notify_task_delete-ids w t) (notify_task_delete-list w t)
        (notify_woken-Keeps (notify_task_delete w t) self c))

pub task_delete_force-Keeps : (w : World) (self tid : ℕ) → Keeps w (task_delete_force w self tid).0
unfolding task_delete_force
task_delete_force-Keeps w self tid =
    delete_force-Keeps (locked w self) self tid (my_task w self) false

pub task_wrapper_end-Keeps : (w : World) (self task : ℕ) → Keeps w (task_wrapper_end w self task).0
unfolding task_wrapper_end
task_wrapper_end-Keeps w self task =
    task_delete_force-Keeps (with_sched w (task_wrapper_cleanup w.sems.sched self)) self
      (w.tcb task).taskid

task_pend_delete-Keeps :
    (w : World) (self : ℕ) (c : Deleting) → Keeps w (task_pend_delete w self c).0
unfolding task_pend_delete
task_pend_delete-Keeps w self c = (λ j. ground arith, inl refl)

pub task_delete-Keeps : (w : World) (self tid : ℕ) → Keeps w (Delete.task_delete w self tid).0
unfolding Delete.task_delete
task_delete-Keeps w self tid =
    let v = locked w self in
    let t = task_for v self tid in
    let self_task = my_task w self in
    let c : Deleting = record { target = t; self_task = self_task; nested = true } in
    either_result-Keeps w (t == 0) _ _ (world-Keeps w) (
      either_result-Keeps w (ltb 0 (v.sems.delete_safe_count t)) _ _
        (either_result-Keeps w (t == self_task) _ _ (world-Keeps w)
          (task_pend_delete-Keeps v self c))
        (delete_force-Keeps (locked v self) self tid self_task true))

pub pend_woken-Keeps : (w : World) (self : ℕ) (c : Deleting) → Keeps w (pend_woken w self c).0
unfolding pend_woken
pend_woken-Keeps w self c =
    either_result-Keeps w (ltb 0 (w.sems.delete_safe_count c.target)) _ _ (world-Keeps w)
      (either-Keeps w (λ v. v) _ _ _ (λ j. ground arith, inl refl) (world-Keeps w))
