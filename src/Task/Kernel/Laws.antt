-- ===== src/Task/Kernel/Laws.antt =====
-- The scheduling policy of the tasks, and the tasks of the system.
use cross_compile.Base.{
  ℕ, ◌≡◌, ◌≢◌, inl, inr, some, ==_false, Option-cases, refl, ap, ◌∙◌, Bool, not, List, [], ◌∷◌,
  arith, ◌==◌, if◌then◌else◌, elem,
}
use cross_compile.Priority.{translate_priority}
use cross_compile.Task.Types.{World, Policy, set_tcb, locked, unlocked, my_task, first_with}
use cross_compile.Sem.Types.{Sems}
use cross_compile.Sched.{task_lock, task_unlock}
use cross_compile.Task.Table.{Spawning, policy_of, new_tcb, task_init}
use cross_compile.Task.Kernel.{set_policies, kernel_time_slice, round_robin_is_enabled}

-- Every task of a list has a thread.
abbrev pub AllThreads : World → List ℕ → Type 0
AllThreads w [] = Unit {0}
AllThreads w (t ∷ l) = ((w.tcb t).pthrid ≢ 0) × AllThreads w l

AllThreads-policy :
    (w : World) (policy : Policy) (x : ℕ) (l : List ℕ)
    → AllThreads w l
    → AllThreads (set_tcb w x (record (w.tcb x) { sched_policy = policy })) l
AllThreads-policy w policy x [] h = tt
AllThreads-policy w policy x (t ∷ l) (one, h) =
    ((λ q. one (ground (arith, q))), AllThreads-policy w policy x l h)

-- What the loop of kernelTimeSlice leaves.
abbrev Policed : World → Policy → List ℕ → World → Type 0
Policed w policy l u =
    ((t : ℕ) → u.tcb t ≡ (if elem t l then record (w.tcb t) { sched_policy = policy } else w.tcb t))
    × (u ≡ record w { tcb = u.tcb })

Policed-more :
    (w u : World) (policy : Policy) (x : ℕ) (l : List ℕ)
    → Policed (set_tcb w x (record (w.tcb x) { sched_policy = policy })) policy l u
    → Policed w policy (x ∷ l) u
Policed-more w u policy x l (tcb, rest) = ((λ t. ground (arith, tcb t)), rest)

-- The loop comes to its end.
abbrev Loops : World → Policy → List ℕ → Type 0
Loops w policy l = (u : World) × (set_policies w policy l ≡ some u) × Policed w policy l u

Loops-more :
    (w : World) (policy : Policy) (x : ℕ) (l : List ℕ)
    → (w.tcb x).pthrid ≢ 0
    → Loops (set_tcb w x (record (w.tcb x) { sched_policy = policy })) policy l
    → Loops w policy (x ∷ l)
unfolding set_policies
Loops-more w policy x l one (u, e, p) =
    (u, rw (==_false (w.tcb x).pthrid 0 one) e, Policed-more w u policy x l p)

set_policies_lem : (w : World) (policy : Policy) (l : List ℕ) → AllThreads w l → Loops w policy l
unfolding set_policies
set_policies_lem w policy [] h = (w, refl, ((λ t. refl), refl))
set_policies_lem w policy (x ∷ l) (one, h) =
    let v = set_tcb w x (record (w.tcb x) { sched_policy = policy }) in
    Loops-more w policy x l one (set_policies_lem v policy l (AllThreads-policy w policy x l h))

Policed-my_task :
    (w u : World) (policy : Policy) (l : List ℕ) (self : ℕ)
    → Policed w policy l u
    → my_task u self ≡ my_task w self
unfolding my_task first_with
Policed-my_task w u policy l self (tcb, rest) =
    ap (λ l'. first_with (λ t. (u.tcb t).pthrid == self) l') (ap (λ v. v.task_list) rest)
    ∙ same_first w.task_list
  where
    same_first :
        (l' : List ℕ)
        → first_with (λ t. (u.tcb t).pthrid == self) l'
          ≡ first_with (λ t. (w.tcb t).pthrid == self) l'
    same_first [] = refl
    same_first (x ∷ l') = ground (arith, tcb x, same_first l')

task_init-tcb :
    (w : World) (task : ℕ) (a : Spawning) (named : Bool)
    → a.opts ≡ 0
    → task ≢ 0
    → (task_init w task a named).0.tcb task ≡ new_tcb w task a named
unfolding task_init
task_init-tcb w task a named opts real =
    let e = (translate_priority a.pri w.min_priority w.sems.sched.max_priority).1 in
    elim (Option-cases e) [ inl q ↦ ground arith | inr (c, q) ↦ ground arith ]

-- taskLock, the loop and taskUnlock leave the priorities in the `attr` of the other tasks.
attr_left :
    (w u : World) (self other : ℕ) (on : Bool)
    → u.sems ≡ (locked w self).sems
    → my_task u self ≡ my_task w self
    → other ≢ my_task w self
    → (unlocked u self).sems.sched.attr_priority other ≡ w.sems.sched.attr_priority other
unfolding task_lock task_unlock
attr_left w u self other on same mine apart = ground (arith, same, mine)

-- kernelTimeSlice, while every task of the list has a thread: round robin is then on exactly if the
-- quantum is not 0. Every task of the list has the policy that fits; no other field of its block, of
-- the block of another task, or of a semaphore changes, nor does the priority in the `attr` of
-- another task than the caller, whose own taskLock and taskUnlock set. A task that is initialised later,
-- without options and in a block that is not NULL, gets the policy as well.
pub kernel_time_slice_lem :
    (w : World) (self ticks_per_quantum t other new : ℕ) (a : Spawning) (named : Bool)
    → AllThreads w w.task_list
    → other ≢ my_task w self
    → a.opts ≡ 0
    → new ≢ 0
    → (let policy = policy_of (not (ticks_per_quantum == 0)) in
        (v : World) × (kernel_time_slice w self ticks_per_quantum ≡ some v)
        × (round_robin_is_enabled v ≡ not (ticks_per_quantum == 0))
        × (v.task_list ≡ w.task_list)
        × (v.tcb t
            ≡ (if elem t w.task_list then record (w.tcb t) { sched_policy = policy } else w.tcb t))
        × (v.sems ≡ record w.sems { sched = v.sems.sched })
        × (v.sems.sched.attr_priority other ≡ w.sems.sched.attr_priority other)
        × (((task_init v new a named).0.tcb new).sched_policy ≡ policy))
unfolding kernel_time_slice task_init new_tcb my_task
kernel_time_slice_lem w self ticks_per_quantum t other new a named threads apart opts real =
    let on = not (ticks_per_quantum == 0) in
    let begun = record (locked w self) { round_robin_enabled = on } in
    let (u, e, (tcb, rest)) = set_policies_lem begun (policy_of on) w.task_list threads in
    let v = unlocked u self in
    let sems : u.sems ≡ (locked w self).sems = ap (λ x. x.sems) rest in
    let mine = Policed-my_task begun u (policy_of on) w.task_list self (tcb, rest) in
    let robin : u.round_robin_enabled ≡ on = ap (λ x. x.round_robin_enabled) rest in
    (
      v,
      rw e refl,
      robin,
      ap (λ x. x.task_list) rest,
      tcb t,
      ap {A = Sems} (λ s. record s { sched = v.sems.sched }) sems,
      attr_left w u self other on sems mine apart,
      ap (λ c. c.sched_policy) (task_init-tcb v new a named opts real) ∙ ap policy_of robin,
    )
