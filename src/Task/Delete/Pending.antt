-- ===== src/Task/Delete/Pending.antt =====
-- taskDelete of a task that has protected itself with taskSafe.
use cross_compile.Base.{
  ℕ, ◌<◌, ◌≡◌, ◌≢◌, refl, ap, ◌∙◌, true, false, List, [], ◌∷◌, ◌++◌, arith, ==_refl,
}
use cross_compile.Errno.{ok}
use cross_compile.Susp.{link_susp_task, until}
use cross_compile.Task.Types.{World, my_task, task_for}
use cross_compile.Task.Delete.{
  Deleting, pending, returned, nobody, task_pend_delete, task_delete, pend_woken, set_count,
  notifying_self, unsafe_woken,
}

nobody-append : (l : List ℕ) (t : ℕ) → nobody (l ++ t ∷ []) ≡ false
nobody-append [] t = refl
nobody-append (x ∷ l) t = refl

pend_woken_keeps :
    (w : World) (self : ℕ) (c : Deleting) (t : ℕ)
    → (((pend_woken w self c).0.tcb t).first_susp ≡ (w.tcb t).first_susp)
      × ((pend_woken w self c).0.task_list ≡ w.task_list)
unfolding pend_woken
pend_woken_keeps w self c t = ground arith

-- Looks at the wait of task_pend_delete, by the threads of the callers.
unfoldable pub pend_all : World → List (ℕ × Deleting) → World
pend_all w [] = w
pend_all w ((self, c) ∷ es) = pend_all (pend_woken w self c).0 es

pend_all_keeps :
    (w : World) (es : List (ℕ × Deleting)) (t : ℕ)
    → (((pend_all w es).tcb t).first_susp ≡ (w.tcb t).first_susp)
      × ((pend_all w es).task_list ≡ w.task_list)
unfolding pend_all
pend_all_keeps w [] t = (refl, refl)
pend_all_keeps w ((self, c) ∷ es) t =
    let (a, b) = pend_woken_keeps w self c t in
    let (a', b') = pend_all_keeps (pend_woken w self c).0 es t in (a' ∙ a, b' ∙ b)

task_delete-pending :
    (w : World) (self tid t : ℕ)
    → task_for w self tid ≡ t
    → t ≢ 0
    → my_task w self ≢ 0
    → t ≢ my_task w self
    → 0 < w.sems.delete_safe_count t
    → (let c : Deleting = record { target = t; self_task = my_task w self; nested = true } in
        ((task_delete w self tid).1 ≡ pending c)
        × ((task_delete w self tid).0.task_list ≡ w.task_list)
        × (nobody ((task_delete w self tid).0.tcb t).first_susp ≡ false))
unfolding task_delete task_pend_delete link_susp_task task_for my_task
task_delete-pending w self tid t found real caller other safe =
    ground (
      arith,
      nobody-append (until (my_task w self) (w.tcb t).first_susp) (my_task w self),
      ==_refl t,
    )

pend_woken-ok :
    (w : World) (self : ℕ) (c : Deleting)
    → w.sems.delete_safe_count c.target ≡ 0
    → (pend_woken w self c).1 ≡ returned (ok tt)
unfolding pend_woken
pend_woken-ok w self c safe = ground arith

-- taskDelete, by a task, of another task inside taskSafe: whatever looks at the wait of
-- task_pend_delete are taken, by whichever threads, the task stays on the list. When it has left
-- the protection, taskDelete reports OK, and the task is on the list still; and somebody is still
-- on the list of those that wait for it, so that the taskUnsafe of the task goes on waiting.
pub protected_delete_lem :
    (w : World) (self tid t : ℕ) (es : List (ℕ × Deleting))
    → task_for w self tid ≡ t
    → t ≢ 0
    → my_task w self ≢ 0
    → t ≢ my_task w self
    → 0 < w.sems.delete_safe_count t
    → (let c : Deleting = record { target = t; self_task = my_task w self; nested = true } in
        let later = pend_all (task_delete w self tid).0 es in
        let left = pend_woken (set_count later t 0) self c in
        ((task_delete w self tid).1 ≡ pending c)
        × (later.task_list ≡ w.task_list)
        × (left.1 ≡ returned (ok tt))
        × (left.0.task_list ≡ w.task_list)
        × (unsafe_woken left.0 t ≡ notifying_self t))
unfolding unsafe_woken
protected_delete_lem w self tid t es found real caller other safe =
    let c : Deleting = record { target = t; self_task = my_task w self; nested = true } in
    let v = (task_delete w self tid).0 in
    let later = pend_all v es in
    let (at, list, some_wait) = task_delete-pending w self tid t found real caller other safe in
    let (susp, list') = pend_all_keeps v es t in
    let (susp', list'') = pend_woken_keeps (set_count later t 0) self c t in
    let wait : nobody ((pend_woken (set_count later t 0) self c).0.tcb t).first_susp ≡ false =
      ap nobody (susp' ∙ susp) ∙ some_wait in
    (
      at,
      list' ∙ list,
      pend_woken-ok (set_count later t 0) self c (ground (arith, ==_refl t)),
      list'' ∙ list' ∙ list,
      ground (arith, wait),
    )
