-- ===== src/Sem/Fifo.antt =====
-- The order in which the tasks that wait for a FIFO semaphore get its tokens.
use cross_compile.Base.{ℕ, ◌+◌, ◌<◌, ◌≤◌, ◌≡◌, ◌≢◌, Bool, some, List, [], ◌∷◌, arith, head_or_null}
use cross_compile.Errno.{Wait, ok}
use cross_compile.Clock.{Timeval}
use cross_compile.Susp
use cross_compile.Susp.{Tasks, signal_for_my_task, signalled_task}
use cross_compile.Sched.{Thread}
use cross_compile.Sem.Types.{set_waiting, send, Semaphore, Sems, priority_bit}
use cross_compile.Sem.Give.{sem_give, give_token}
use cross_compile.Sem.Take.{
  Taking, TakeAt, returned, take_look, take_finish, take_after_nap, take_woken, woken_with,
  join_waiting, wait_for_token, sem_take,
}
use cross_compile.Sem.Mutex.{
  wait_for_token-started, Step, Steps, takes, naps, wakes, gives, here, more,
}

-- Task `o` is the first of those that wait for a FIFO semaphore in service.
abbrev pub IsFirst : ℕ → Semaphore → Type 0
IsFirst o s = (s.send_type ≡ send) × (priority_bit s.flags ≡ 0) × (head_or_null s.first_susp ≡ o)

head-link :
    (ts : Tasks) (list : List ℕ) (t o : ℕ)
    → o ≢ 0
    → t ≢ o
    → head_or_null list ≡ o
    → head_or_null (Susp.link_susp_task ts list t).1 ≡ o
unfolding Susp.link_susp_task Susp.until
head-link ts [] t o real ne h = absurd (real (ground arith))
head-link ts (x ∷ xs) t o real ne h = ground arith

head-unlink :
    (ts : Tasks) (list : List ℕ) (t o : ℕ)
    → o ≢ 0
    → t ≢ o
    → head_or_null list ≡ o
    → head_or_null (Susp.unlink_susp_task ts list t).1 ≡ o
unfolding Susp.unlink_susp_task
head-unlink ts [] t o real ne h = absurd (real (ground arith))
head-unlink ts (x ∷ xs) t o real ne h = ground arith

-- The task stays the first, and no token is taken.
abbrev Waits : ℕ → Semaphore → Semaphore → Type 0
Waits o s s' = IsFirst o s' × (s.token_count ≤ s'.token_count)

sem_give-Waits :
    (w : Sems) (t : Thread) (k j o : ℕ)
    → IsFirst o (w.smcb j)
    → Waits o (w.smcb j) ((sem_give w t k).0.smcb j)
unfolding sem_give give_token
sem_give-Waits w t k j o f = ground arith

module _ (w : Sems) (t : Thread) (j o : ℕ) (real : o ≢ 0) (ne : t.my_task ≢ o) where
  take_look-Waits :
      (c : Taking) → IsFirst o (w.smcb j) → Waits o (w.smcb j) ((take_look w t c).0.smcb j)
  unfolding take_look take_finish signal_for_my_task
  take_look-Waits c f =
      ground (arith, head-unlink w.tasks (w.smcb j).first_susp t.my_task o real ne)

  take_after_nap-Waits :
      (now : Timeval) (c : Taking)
      → IsFirst o (w.smcb j)
      → Waits o (w.smcb j) ((take_after_nap w t now c).0.smcb j)
  unfolding take_after_nap take_finish signal_for_my_task
  take_after_nap-Waits now c f =
      ground (arith, head-unlink w.tasks (w.smcb j).first_susp t.my_task o real ne)

  join_waiting-Waits :
      (k : ℕ) (impatient : Bool)
      → IsFirst o (w.smcb j)
      → Waits o (w.smcb j) ((join_waiting w t k impatient).smcb j)
  unfolding join_waiting
  join_waiting-Waits k impatient f =
      ground (arith, head-link w.tasks (w.smcb j).first_susp t.my_task o real ne)

started-Waits :
    (w : Sems) (t : Thread) (k j o : ℕ) (impatient : Bool) (c : Taking)
    → o ≢ 0
    → t.my_task ≢ o
    → IsFirst o (w.smcb j)
    → Waits o (w.smcb j) ((take_look (join_waiting w t k impatient) t c).0.smcb j)
started-Waits w t k j o impatient c real ne f =
    let (f', le) = join_waiting-Waits w t j o real ne k impatient f in
    let (f'', le') = take_look-Waits (join_waiting w t k impatient) t j o real ne c f' in
    (f'', omega arith)

wait_for_token-Waits :
    (w : Sems) (t : Thread) (now : Timeval) (k j o : ℕ) (wait : Wait) {r : Sems × TakeAt}
    → o ≢ 0
    → t.my_task ≢ o
    → IsFirst o (w.smcb j)
    → wait_for_token w t now k wait ≡ some r
    → Waits o (w.smcb j) (r.0.smcb j)
wait_for_token-Waits w t now k j o wait real ne f e =
    let (impatient, c, e') = wait_for_token-started w t now k wait e in
    coe 0 1 (i. Waits o (w.smcb j) ((e' i).0.smcb j))
      (started-Waits w t k j o impatient c real ne f)

sem_take-Waits :
    (w : Sems) (t : Thread) (now : Timeval) (k j o : ℕ) (wait : Wait) {w' : Sems} {at : TakeAt}
    → o ≢ 0
    → t.my_task ≢ o
    → IsFirst o (w.smcb j)
    → sem_take w t now k wait ≡ some (w', at)
    → Waits o (w.smcb j) (w'.smcb j)
unfolding sem_take
sem_take-Waits w t now k j o wait {w' = w'} {at = at} real ne f e = ground (
  arith,
  wait_for_token-Waits (set_waiting w t.my_task k) t now k j o wait {r = (w', at)} real ne f,
)

Step-Waits :
    {o : ℕ} {w v : Sems} (j : ℕ)
    → Step o w v
    → o ≢ 0
    → IsFirst o (w.smcb j)
    → Waits o (w.smcb j) (v.smcb j)
unfolding take_woken
Step-Waits {o = o} {w = w} j (takes t now k wait at task other e) real f =
    sem_take-Waits w t now k j o wait real other f e
Step-Waits {o = o} {w = w} j (naps t now c task other) real f =
    take_after_nap-Waits w t j o real other now c f
Step-Waits {o = o} {w = w} j (wakes t rc c task other) real f =
    take_look-Waits w t j o real other (woken_with rc c) f
Step-Waits {o = o} {w = w} j (gives t k task other) real f = sem_give-Waits w t k j o f

Steps-Waits :
    {o : ℕ} {w v : Sems} (j : ℕ)
    → Steps o w v
    → o ≢ 0
    → IsFirst o (w.smcb j)
    → Waits o (w.smcb j) (v.smcb j)
Steps-Waits j here real f = (f, omega arith)
Steps-Waits j (more step rest) real f =
    let (f', le) = Step-Waits j step real f in
    let (f'', le') = Steps-Waits j rest real f' in (f'', omega arith)

look_first :
    (w : Sems) (t : Thread) (c : Taking)
    → IsFirst t.my_task (w.smcb c.semaphore)
    → 0 < (w.smcb c.semaphore).token_count
    → (let (w', at) = take_look w t c in
        (at ≡ returned (ok tt))
        × ((w'.smcb c.semaphore).token_count + 1 ≡ (w.smcb c.semaphore).token_count))
unfolding take_look take_finish signal_for_my_task
look_first w t c f token = ground arith

-- No task overtakes another at a FIFO semaphore. Let a task be the first of those that wait for it, with
-- a token there. Whatever steps other tasks then make in semTake and semGive of any semaphore, in
-- whatever order, the task stays the first and none of the tokens is taken, so that in its next round
-- it returns OK with a token. Calls of semDelete and semFlush are left out.
pub served_in_order :
    {w v : Sems} (t : Thread) (c : Taking)
    → Steps t.my_task w v
    → t.my_task ≢ 0
    → IsFirst t.my_task (w.smcb c.semaphore)
    → 0 < (w.smcb c.semaphore).token_count
    → IsFirst t.my_task (v.smcb c.semaphore)
      × ((w.smcb c.semaphore).token_count ≤ (v.smcb c.semaphore).token_count)
      × ((take_look v t c).1 ≡ returned (ok tt))
      × (((take_look v t c).0.smcb c.semaphore).token_count + 1 ≡ (v.smcb c.semaphore).token_count)
served_in_order {v = v} t c steps real first token =
    let (first', le) = Steps-Waits c.semaphore steps real first in
    let (done, spent) = look_first v t c first' (omega arith) in (first', le, done, spent)
