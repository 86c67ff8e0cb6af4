-- ===== src/Sem/Mutex.antt =====
-- Mutual exclusion by mutex semaphores.
use cross_compile.Base.{
  ℕ, ◌<◌, ◌≡◌, ◌≢◌, ◌⊎◌, Bool, true, false, Option, none, some, some-injective, arith,
}
use cross_compile.Errno.{Wait, no_wait, wait_forever, ticks, RetCode, awake}
use cross_compile.Clock.{Timeval, Timespec, deadline}
use cross_compile.Sched.{Thread}
use cross_compile.Msgq.Ring.{◌>>=◌}
use cross_compile.Sem.Types.{set_waiting, send, Semaphore, Sems, is_mutex}
use cross_compile.Sem.Give.{sem_give, give_token}
use cross_compile.Sem.Take.{
  Taking, TakeAt, take_look, take_finish, take_after_nap, take_woken, woken_with, join_waiting,
  wait_for_token, sem_take,
}

-- A mutex that no call deletes is free, with its one token, or owned, with its token gone.
abbrev pub AsMutex : Semaphore → Type 0
AsMutex s =
    (is_mutex s.flags ≡ true)
    × (s.send_type ≡ send)
    × (((s.current_owner ≡ 0) × (s.token_count ≡ 1) × (s.recursion_level ≡ 0))
        ⊎ ((s.current_owner ≢ 0) × (s.token_count ≡ 0) × (0 < s.recursion_level)))

sem_give-AsMutex :
    (w : Sems) (t : Thread) (k j : ℕ)
    → t.my_task ≢ 0
    → AsMutex (w.smcb j)
    → AsMutex ((sem_give w t k).0.smcb j)
unfolding sem_give give_token
sem_give-AsMutex w t k j task m = ground arith

take_finish-AsMutex :
    (w : Sems) (t : Thread) (c : Taking) (j : ℕ)
    → t.my_task ≢ 0
    → c.retcode ≢ awake
    → AsMutex (w.smcb j)
    → AsMutex ((take_finish w t c).0.smcb j)
unfolding take_finish
take_finish-AsMutex w t c j task rc m = ground arith

take_look-AsMutex :
    (w : Sems) (t : Thread) (c : Taking) (j : ℕ)
    → t.my_task ≢ 0
    → AsMutex (w.smcb j)
    → AsMutex ((take_look w t c).0.smcb j)
unfolding take_look
take_look-AsMutex w t c j task m = ground arith

take_after_nap-AsMutex :
    (w : Sems) (t : Thread) (now : Timeval) (c : Taking) (j : ℕ)
    → t.my_task ≢ 0
    → AsMutex (w.smcb j)
    → AsMutex ((take_after_nap w t now c).0.smcb j)
unfolding take_after_nap
take_after_nap-AsMutex w t now c j task m = ground arith

take_woken-AsMutex :
    (w : Sems) (t : Thread) (rc : RetCode) (c : Taking) (j : ℕ)
    → t.my_task ≢ 0
    → AsMutex (w.smcb j)
    → AsMutex ((take_woken w t rc c).0.smcb j)
unfolding take_woken
take_woken-AsMutex w t rc c j task m = take_look-AsMutex w t (woken_with rc c) j task m

pub join_waiting-fields :
    (w : Sems) (t : Thread) (k j : ℕ) (impatient : Bool)
    → (((join_waiting w t k impatient).smcb j).flags ≡ (w.smcb j).flags)
      × (((join_waiting w t k impatient).smcb j).send_type ≡ (w.smcb j).send_type)
      × (((join_waiting w t k impatient).smcb j).token_count ≡ (w.smcb j).token_count)
      × (((join_waiting w t k impatient).smcb j).recursion_level ≡ (w.smcb j).recursion_level)
      × (((join_waiting w t k impatient).smcb j).current_owner ≡ (w.smcb j).current_owner)
unfolding join_waiting
join_waiting-fields w t k j impatient = ground arith

join_waiting-AsMutex :
    (w : Sems) (t : Thread) (k j : ℕ) (impatient : Bool)
    → AsMutex (w.smcb j)
    → AsMutex ((join_waiting w t k impatient).smcb j)
join_waiting-AsMutex w t k j impatient m = ground (arith, join_waiting-fields w t k j impatient)

started-AsMutex :
    (w : Sems) (t : Thread) (k j : ℕ) (impatient : Bool) (c : Taking)
    → t.my_task ≢ 0
    → AsMutex (w.smcb j)
    → AsMutex ((take_look (join_waiting w t k impatient) t c).0.smcb j)
started-AsMutex w t k j impatient c task m =
    take_look-AsMutex (join_waiting w t k impatient) t c j task
      (join_waiting-AsMutex w t k j impatient m)

bound :
    (d : Option Timespec) (f : Timespec → Sems × TakeAt) {r : Sems × TakeAt}
    → (d >>= λ x. some (f x)) ≡ some r
    → (x : Timespec) × (f x ≡ r)
bound none f e = absurd (ground arith)
bound (some x) f e = (x, ground arith)

pub wait_for_token-started :
    (w : Sems) (t : Thread) (now : Timeval) (k : ℕ) (wait : Wait) {r : Sems × TakeAt}
    → wait_for_token w t now k wait ≡ some r
    → (impatient : Bool) × (c : Taking) × (take_look (join_waiting w t k impatient) t c ≡ r)
unfolding wait_for_token
wait_for_token-started w t now k no_wait e = (true, _, some-injective _ _ e)
wait_for_token-started w t now k wait_forever e = (false, _, some-injective _ _ e)
wait_for_token-started w t now k (ticks n) e =
    let (d, e') = bound (deadline n now) _ e in (false, _, e')

wait_for_token-AsMutex :
    (w : Sems) (t : Thread) (now : Timeval) (k j : ℕ) (wait : Wait) {r : Sems × TakeAt}
    → t.my_task ≢ 0
    → AsMutex (w.smcb j)
    → wait_for_token w t now k wait ≡ some r
    → AsMutex (r.0.smcb j)
wait_for_token-AsMutex w t now k j wait task m e =
    let (impatient, c, e') = wait_for_token-started w t now k wait e in
    coe 0 1 (i. AsMutex ((e' i).0.smcb j)) (started-AsMutex w t k j impatient c task m)

sem_take-AsMutex :
    (w : Sems) (t : Thread) (now : Timeval) (k j : ℕ) (wait : Wait) {w' : Sems} {at : TakeAt}
    → t.my_task ≢ 0
    → AsMutex (w.smcb j)
    → sem_take w t now k wait ≡ some (w', at)
    → AsMutex (w'.smcb j)
unfolding sem_take
sem_take-AsMutex w t now k j wait {w' = w'} {at = at} task m e =
    ground (
      arith,
      wait_for_token-AsMutex (set_waiting w t.my_task k) t now k j wait {r = (w', at)} task m,
    )

-- A step that a task other than `o` makes in semTake or semGive, of any semaphore. For 0 it is any
-- task.
pub data Step (o : ℕ) : Sems → Sems → Type 0 where
  takes :
      {w w' : Sems} (t : Thread) (now : Timeval) (k : ℕ) (wait : Wait) (at : TakeAt)
      → t.my_task ≢ 0
      → t.my_task ≢ o
      → sem_take w t now k wait ≡ some (w', at)
      → Step o w w'
  naps :
      {w : Sems} (t : Thread) (now : Timeval) (c : Taking)
      → t.my_task ≢ 0
      → t.my_task ≢ o
      → Step o w (take_after_nap w t now c).0
  wakes :
      {w : Sems} (t : Thread) (rc : RetCode) (c : Taking)
      → t.my_task ≢ 0
      → t.my_task ≢ o
      → Step o w (take_woken w t rc c).0
  gives :
      {w : Sems} (t : Thread) (k : ℕ) → t.my_task ≢ 0 → t.my_task ≢ o → Step o w (sem_give w t k).0

pub data Steps (o : ℕ) : Sems → Sems → Type 0 where
  here : {w : Sems} → Steps o w w
  more : {w v u : Sems} → Step o w v → Steps o v u → Steps o w u

pub Step-AsMutex :
    {o : ℕ} {w v : Sems} (j : ℕ) → Step o w v → AsMutex (w.smcb j) → AsMutex (v.smcb j)
Step-AsMutex {w = w} j (takes t now k wait at task other e) m =
    sem_take-AsMutex w t now k j wait task m e
Step-AsMutex {w = w} j (naps t now c task other) m = take_after_nap-AsMutex w t now c j task m
Step-AsMutex {w = w} j (wakes t rc c task other) m = take_woken-AsMutex w t rc c j task m
Step-AsMutex {w = w} j (gives t k task other) m = sem_give-AsMutex w t k j task m

-- Whatever steps tasks make in semTake and semGive of any semaphore, in whatever order, a mutex
-- in service stays free with one token, or owned with none.
pub Steps-AsMutex : {w v : Sems} (j : ℕ) → Steps 0 w v → AsMutex (w.smcb j) → AsMutex (v.smcb j)
Steps-AsMutex j here m = m
Steps-AsMutex j (more s ss) m = Steps-AsMutex j ss (Step-AsMutex j s m)
