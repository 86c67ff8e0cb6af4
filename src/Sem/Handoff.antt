-- ===== src/Sem/Handoff.antt =====
-- A token on its way from semGive of one task to a waiting semTake of another.
use mathlib.Core.Path.{ap₂}
use cross_compile.Base.{ℕ, ◌+◌, ◌≡◌, ◌⊎◌, ap, ◌∙◌, true, false, arith, if◌then◌else◌}
use cross_compile.Errno.{ok, RetCode}
use cross_compile.Susp
use cross_compile.Susp.{signal_for_my_task}
use cross_compile.Sched.{Thread}
use cross_compile.Sem.Types.{Semaphore, Sems, send, is_mutex, nobody_waits, priority_bit}
use cross_compile.Sem.Registry.{sem_find_lock}
use cross_compile.Sem.Give.{sem_give, give_token}
use cross_compile.Sem.Counting.{woken_with-fields}
use cross_compile.Sem.Take.{Taking, TakeAt, returned, take_look, take_woken, woken_with}

-- The giver has the last level of a mutex, or gives a binary or counting semaphore.
abbrev pub MayGive : Thread → Semaphore → Type 0
MayGive t s =
    ((is_mutex s.flags ≡ true) × (s.current_owner ≡ t.my_task) × (s.recursion_level ≡ 1))
    ⊎ ((is_mutex s.flags ≡ false) × (s.recursion_level ≡ 0))

given_token :
    (w : Sems) (t : Thread) (k : ℕ)
    → sem_find_lock w k ≡ true
    → MayGive t (w.smcb k)
    → (w.smcb k).token_count ≡ 0
    → nobody_waits (w.smcb k) ≡ false
    → (let (w', r) = sem_give w t k in
        let s' = w'.smcb k in
        (r ≡ ok tt)
        × (w'.tasks ≡ w.tasks)
        × (s'.token_count ≡ 1)
        × (s'.recursion_level ≡ 0)
        × (s'.first_susp ≡ (w.smcb k).first_susp)
        × (s'.flags ≡ (w.smcb k).flags)
        × (s'.send_type ≡ (w.smcb k).send_type)
        × (s'.sem_send ≡ (w.smcb k).sem_send + 1))
unfolding sem_give give_token
given_token w t k found may empty waits = ground arith

-- The next task in semTake: what makes it the one to get the token, and what it gets.
abbrev IsNext : Sems → ℕ → Thread → Type 0
IsNext w k t =
    ((w.smcb k).send_type ≡ send)
    × ((w.smcb k).token_count ≡ 1)
    × ((w.smcb k).recursion_level ≡ 0)
    × (signal_for_my_task w.tasks (w.smcb k).first_susp (priority_bit (w.smcb k).flags) t.my_task
        ≡ true)

abbrev Gets : Sems → ℕ → Thread → Sems × TakeAt → Type 0
Gets w k t r =
    (r.1 ≡ returned (ok tt))
    × ((r.0.smcb k).token_count ≡ 0)
    × ((r.0.smcb k).current_owner ≡ t.my_task)
    × ((r.0.smcb k).recursion_level ≡ (if is_mutex (w.smcb k).flags then 1 else 0))
    × ((r.0.smcb k).first_susp ≡ (Susp.unlink_susp_task w.tasks (w.smcb k).first_susp t.my_task).1)

take_look-Gets :
    (w : Sems) (t : Thread) (c : Taking)
    → IsNext w c.semaphore t
    → Gets w c.semaphore t (take_look w t c)
unfolding take_look
take_look-Gets w t c next = ground arith

take_woken-Gets :
    (w : Sems) (t : Thread) (rc : RetCode) (c : Taking)
    → IsNext w c.semaphore t
    → Gets w c.semaphore t (take_woken w t rc c)
unfolding take_woken
take_woken-Gets w t rc c next =
    let (same, alike) = woken_with-fields rc c in
    coe 0 1 (i. Gets w (same i) t (take_look w t (woken_with rc c)))
      (take_look-Gets w t (woken_with rc c) (coe 1 0 (i. IsNext w (same i) t) next))

-- A token reaches a task that waits. A semaphore in service has no token, and `taker` waits for it,
-- the one that signal_for_my_task chooses; the caller of semGive is the owner of the mutex, at its last
-- level, or the semaphore is no mutex. semGive returns OK and wakes the waiting tasks. When the taker
-- wakes, whatever its wait has returned, it returns OK with the token: it is the owner, at level one
-- of a mutex, no token is left for another task, and it is off the list.
pub token_passed :
    (w : Sems) (giver taker : Thread) (rc : RetCode) (c : Taking)
    → sem_find_lock w c.semaphore ≡ true
    → MayGive giver (w.smcb c.semaphore)
    → (w.smcb c.semaphore).send_type ≡ send
    → (w.smcb c.semaphore).token_count ≡ 0
    → nobody_waits (w.smcb c.semaphore) ≡ false
    → signal_for_my_task w.tasks
        (w.smcb c.semaphore).first_susp
        (priority_bit (w.smcb c.semaphore).flags)
        taker.my_task
      ≡ true
    → (let (w1, r) = sem_give w giver c.semaphore in
        let (w2, at) = take_woken w1 taker rc c in
        let s = w.smcb c.semaphore in
        let s' = w2.smcb c.semaphore in
        (r ≡ ok tt)
        × ((w1.smcb c.semaphore).sem_send ≡ s.sem_send + 1)
        × (at ≡ returned (ok tt))
        × (s'.token_count ≡ 0)
        × (s'.current_owner ≡ taker.my_task)
        × (s'.recursion_level ≡ (if is_mutex s.flags then 1 else 0))
        × (s'.first_susp ≡ (Susp.unlink_susp_task w.tasks s.first_susp taker.my_task).1))
token_passed w giver taker rc c found may live empty waits mine =
    let (done, tasks, one, level, first, flags, type', told) =
      given_token w giver c.semaphore found may empty waits in
    let w1 : Sems = (sem_give w giver c.semaphore).0 in
    let next : IsNext w1 c.semaphore taker =
      (type' ∙ live, one, level, rw (tasks, first, flags) mine) in
    let (at, spent, owner, depth, left) = take_woken-Gets w1 taker rc c next in
    (
      done,
      told,
      at,
      spent,
      owner,
      depth ∙ ap (λ f. if is_mutex f then 1 else 0) flags,
      left ∙ ap₂ (λ ts l. (Susp.unlink_susp_task ts l taker.my_task).1) tasks first,
    )
