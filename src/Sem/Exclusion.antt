-- ===== src/Sem/Exclusion.antt =====
-- While a task owns a mutex, no other task gets in its way.
use cross_compile.Base.{ℕ, ◌≡◌, ◌≢◌, Bool, true, some, arith}
use cross_compile.Errno.{Wait}
use cross_compile.Clock.{Timeval}
use cross_compile.Sched.{Thread}
use cross_compile.Sem.Types.{set_waiting, SendType, Semaphore, Sems, is_mutex}
use cross_compile.Sem.Give.{sem_give}
use cross_compile.Sem.Take.{
  Taking, TakeAt, take_look, take_after_nap, take_woken, woken_with, join_waiting, wait_for_token,
  sem_take,
}
use cross_compile.Sem.Mutex.{
  Step, takes, naps, wakes, gives, Steps, here, more, join_waiting-fields, wait_for_token-started,
}

-- A mutex that `o` owns, at a depth.
abbrev pub Owned : ℕ → ℕ → Semaphore → Type 0
Owned o depth s =
    (is_mutex s.flags ≡ true)
    × (s.send_type ≡ SendType.send)
    × (s.current_owner ≡ o)
    × (s.token_count ≡ 0)
    × (s.recursion_level ≡ depth)

sem_give-Owned :
    {o depth : ℕ} (w : Sems) (t : Thread) (k j : ℕ)
    → t.my_task ≢ o
    → Owned o depth (w.smcb j)
    → Owned o depth ((sem_give w t k).0.smcb j)
unfolding sem_give
sem_give-Owned w t k j other m = ground arith

take_look-Owned :
    {o depth : ℕ} (w : Sems) (t : Thread) (c : Taking) (j : ℕ)
    → Owned o depth (w.smcb j)
    → Owned o depth ((take_look w t c).0.smcb j)
unfolding take_look
take_look-Owned w t c j m = ground arith

take_after_nap-Owned :
    {o depth : ℕ} (w : Sems) (t : Thread) (now : Timeval) (c : Taking) (j : ℕ)
    → Owned o depth (w.smcb j)
    → Owned o depth ((take_after_nap w t now c).0.smcb j)
unfolding take_after_nap
take_after_nap-Owned w t now c j m = ground arith

join_waiting-Owned :
    {o depth : ℕ} (w : Sems) (t : Thread) (k j : ℕ) (impatient : Bool)
    → Owned o depth (w.smcb j)
    → Owned o depth ((join_waiting w t k impatient).smcb j)
join_waiting-Owned w t k j impatient m = ground (arith, join_waiting-fields w t k j impatient)

wait_for_token-Owned :
    {o depth : ℕ} (w : Sems) (t : Thread) (now : Timeval) (k j : ℕ) (wait : Wait)
    {r : Sems × TakeAt}
    → Owned o depth (w.smcb j)
    → wait_for_token w t now k wait ≡ some r
    → Owned o depth (r.0.smcb j)
wait_for_token-Owned {o} {depth} w t now k j wait m e =
    let (impatient, c, e') = wait_for_token-started w t now k wait e in
    coe 0 1 (i. Owned o depth ((e' i).0.smcb j)) (
      take_look-Owned (join_waiting w t k impatient) t c j (join_waiting-Owned w t k j impatient m))

sem_take-Owned :
    {o depth : ℕ} (w : Sems) (t : Thread) (now : Timeval) (k j : ℕ) (wait : Wait) {w' : Sems}
    {at : TakeAt}
    → t.my_task ≢ o
    → Owned o depth (w.smcb j)
    → sem_take w t now k wait ≡ some (w', at)
    → Owned o depth (w'.smcb j)
unfolding sem_take
sem_take-Owned w t now k j wait {w' = w'} {at = at} other m e =
    ground (arith, wait_for_token-Owned (set_waiting w t.my_task k) t now k j wait {r = (w', at)} m)

Step-Owned :
    {o depth : ℕ} {w v : Sems} (j : ℕ)
    → Step o w v
    → Owned o depth (w.smcb j)
    → Owned o depth (v.smcb j)
unfolding take_woken
Step-Owned {w = w} j (takes t now k wait at task other e) m =
    sem_take-Owned w t now k j wait other m e
Step-Owned {w = w} j (naps t now c task other) m = take_after_nap-Owned w t now c j m
Step-Owned {w = w} j (wakes t rc c task other) m = take_look-Owned w t (woken_with rc c) j m
Step-Owned {w = w} j (gives t k task other) m = sem_give-Owned w t k j other m

-- While task `o` owns a mutex in service, whatever steps other tasks make in semTake and semGive
-- of any semaphore, in any order, `o` still owns it, at the same depth, and there is no token to
-- take.
pub Steps-Owned :
    {o depth : ℕ} {w v : Sems} (j : ℕ)
    → Steps o w v
    → Owned o depth (w.smcb j)
    → Owned o depth (v.smcb j)
Steps-Owned j here m = m
Steps-Owned j (more s ss) m = Steps-Owned j ss (Step-Owned j s m)
