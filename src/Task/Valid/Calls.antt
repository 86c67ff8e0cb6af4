-- ===== src/Task/Valid/Calls.antt =====
-- The other calls on tasks keep the list in order.
use cross_compile.Base.{
  Option-cases, ℕ, ◌≡◌, refl, ap, ◌∙◌, inl, inr, Bool, not, Option, none, some, List, [], ◌∷◌,
  arith, ◌==◌,
}
use cross_compile.Base.Int.{ℤ}
use cross_compile.Wdog.{Timers}
use cross_compile.Sched.{task_unsafe}
use cross_compile.Task.Types.{
  World, Policy, is_dead, set_tcb, locked, unlocked, my_task, task_for, stop_waiting,
}
use cross_compile.Task.Table.{policy_of, Spawning, task_init, new_tcb}
use cross_compile.Task.Table
use cross_compile.Task.Start.{activate, task_activate}
use cross_compile.Task.Lookup.{task_priority_set, set_delay}
use cross_compile.Task.Delete.{set_count, task_safe_call, task_unsafe_call}
use cross_compile.Task.Restart.{
  RestartAt, thread_or_null, Os, task_restart, restart_other, self_restart, self_starter,
}
use cross_compile.Task.Kernel.{set_policies, kernel_time_slice}
use cross_compile.Task.Valid.{Keeps, ids}
use cross_compile.Task.Valid.Keeping.{world-Keeps, either-Keeps, either_result-Keeps, readied-ids}
use cross_compile.Task.Valid.Deletions.{notify_task_delete-ids, notify_task_delete-list}

activate-Keeps : (w : World) (t : ℕ) (thread : Option ℕ) → Keeps w (activate w t thread).0
unfolding activate Table.task_delete
activate-Keeps w t none = either_result-Keeps w (t == 0) _ _ (world-Keeps w) (
    either_result-Keeps w (is_dead w t) _ _ (λ j. readied-ids w t 0 j, inr (t, refl))
      (world-Keeps w))
activate-Keeps w t (some id) =
    either_result-Keeps w (t == 0) _ _ (world-Keeps w) (
      either_result-Keeps w (is_dead w t) _ _ (λ j. readied-ids w t id j, inl refl) (world-Keeps w))

pub task_activate-Keeps :
    (w : World) (self tid : ℕ) (thread : Option ℕ) → Keeps w (task_activate w self tid thread).0
unfolding task_activate
task_activate-Keeps w self tid thread =
    activate-Keeps (locked w self) (task_for (locked w self) self tid) thread

pub task_safe_call-Keeps : (w : World) (self : ℕ) → Keeps w (task_safe_call w self)
unfolding task_safe_call
task_safe_call-Keeps w self = world-Keeps w

pub task_unsafe_call-Keeps : (w : World) (self : ℕ) → Keeps w (task_unsafe_call w self).0
unfolding task_unsafe_call
task_unsafe_call-Keeps w self =
    let v = locked w self in
    let t = my_task v self in
    let u = unlocked (set_count v t (task_unsafe (v.sems.delete_safe_count t))) self in
    either_result-Keeps w (v.sems.delete_safe_count t == 1) _ _
      (λ j. notify_task_delete-ids u t j, inl (notify_task_delete-list u t)) (world-Keeps w)

self_restart-world :
    (starter : ℕ) (w : Timers) (s : Os) (t : ℕ) (block : Option ℕ)
    → (self_restart starter (w, s) t block).1.world ≡ s.world
unfolding self_restart
self_restart-world starter w s t none = refl
self_restart-world starter w s t (some b) = refl

pub task_restart-Keeps :
    (starter : ℕ) (w : Timers) (s : Os) (self tid : ℕ) (block thread : Option ℕ)
    → Keeps s.world (task_restart starter (w, s) self tid block thread).0.1.world
unfolding task_restart restart_other
task_restart-Keeps starter w s self tid block thread =
    let v = locked s.world self in
    let t = task_for v self tid in
    let u = record v { sems = stop_waiting v.sems t } in
    let e = self_restart-world starter w (record s { world = u }) t block in
    either-Keeps {A = (Timers × Os) × RestartAt} s.world (λ r. r.0.1.world) (t == 0) _ _
      (world-Keeps s.world)
      (either-Keeps {A = (Timers × Os) × RestartAt} s.world (λ r. r.0.1.world) (t == my_task v self)
        _ _ (λ j. ap (λ x. ids x j) e, inl (ap (λ x. x.task_list) e))
        (λ j. readied-ids u t (thread_or_null thread) j, inl refl))

pub self_starter-Keeps :
    (self : ℕ) (thread : Option ℕ) (taskid : ℕ) (w : Timers) (s : Os)
    → Keeps s.world (self_starter self thread taskid (w, s)).1.world
unfolding self_starter
self_starter-Keeps self thread taskid w s =
    let task = task_for s.world self taskid in
    either-Keeps {A = Timers × Os} s.world (λ r. r.1.world) (task == 0) _ _ (world-Keeps s.world)
      (λ j. readied-ids s.world task (thread_or_null thread) j, inl refl)

pub task_priority_set-Keeps :
    (w : World) (self tid : ℕ) (pri : ℤ) → Keeps w (task_priority_set w self tid pri).0
unfolding task_priority_set
task_priority_set-Keeps w self tid pri =
    either_result-Keeps w (task_for (locked w self) self tid == 0) _ _ (world-Keeps w)
      (either-Keeps w (λ v. v) _ _ _ (λ j. ground arith, inl refl) (λ j. ground arith, inl refl))

-- The loop of kernelTimeSlice only changes policies.
set_policies-Keeps :
    (w v : World) (policy : Policy) (l : List ℕ)
    → set_policies w policy l ≡ some v
    → ((j : ℕ) → ids v j ≡ ids w j) × (v.task_list ≡ w.task_list)
unfolding set_policies
set_policies-Keeps w v policy [] e = (λ j. ground (arith, e), ground (arith, e))
set_policies-Keeps w v policy (t ∷ l) e =
    let u = set_tcb w t (record (w.tcb t) { sched_policy = policy }) in
    let (same, list) = set_policies-Keeps u v policy l (ground (arith, e)) in
    (λ j. same j ∙ ground arith, list)

pub kernel_time_slice-Keeps :
    (w v : World) (self ticks_per_quantum : ℕ)
    → kernel_time_slice w self ticks_per_quantum ≡ some v
    → Keeps w v
unfolding kernel_time_slice
kernel_time_slice-Keeps w v self ticks_per_quantum e =
    let on = not (ticks_per_quantum == 0) in
    let u = record (locked w self) { round_robin_enabled = on } in
    elim (Option-cases (set_policies u (policy_of on) w.task_list)) [
      | inl q ↦ absurd (ground (arith, e, q))
      | inr (x, q) ↦
          let (same, list) = set_policies-Keeps u x (policy_of on) w.task_list q in
          (λ j. ground (arith, e, q, same j), inl (ground (arith, e, q, list)))
    ]

pub set_delay-Keeps : (w : World) (t : ℕ) (b : Bool) → Keeps w (set_delay w t b)
set_delay-Keeps w t b =
    either-Keeps w (λ v. v) (t == 0) _ _ (world-Keeps w) (λ j. ground arith, inl refl)
