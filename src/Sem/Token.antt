-- ===== src/Sem/Token.antt =====
-- Taking a token that is there.
use cross_compile.Base.{
  ℕ, ◌+◌, ◌-◌, ◌<◌, ◌≡◌, ◌≢◌, ap, ◌∙◌, Bool, true, Option, some, [], ◌∷◌, arith, if◌then◌else◌,
  elem,
}
use cross_compile.Errno.{ok, Wait, no_wait, wait_forever, ticks, awake}
use cross_compile.Clock.{Timeval, Timespec}
use cross_compile.Msgq.Receive.{timeout_for, is_no_wait}
use cross_compile.Sem.Mutex.{join_waiting-fields}
use cross_compile.Susp
use cross_compile.Susp.{signal_for_my_task}
use cross_compile.Sched.{Thread}
use cross_compile.Sem.Types.{set_waiting, send, Semaphore, Sems, is_mutex}
use cross_compile.Sem.Registry.{sem_find_lock}
use cross_compile.Sem.Take.{Taking, returned, take_look, sem_take, wait_for_token, join_waiting}

started : ℕ → Wait → Option Timespec → Taking
started k wait d = record {
  semaphore = k;
  impatient = is_no_wait wait;
  timeout = d;
  retcode = awake;
}

wait_for_token-starts :
    (w : Sems) (t : Thread) (now : Timeval) (k : ℕ) (wait : Wait) (d : Option Timespec)
    → timeout_for wait now ≡ some d
    → wait_for_token w t now k wait
      ≡ some (take_look (join_waiting w t k (is_no_wait wait)) t (started k wait d))
unfolding wait_for_token timeout_for started
wait_for_token-starts w t now k no_wait d e = ground arith
wait_for_token-starts w t now k wait_forever d e = ground arith
wait_for_token-starts w t now k (ticks n) d e = ground arith

sem_take-starts :
    (w : Sems) (t : Thread) (now : Timeval) (k : ℕ) (wait : Wait)
    → sem_find_lock w k ≡ true
    → (w.smcb k).current_owner ≢ t.my_task
    → sem_take w t now k wait ≡ wait_for_token (set_waiting w t.my_task k) t now k wait
unfolding sem_take
sem_take-starts w t now k wait found other = ground arith

join_waiting-first :
    (w : Sems) (t : Thread) (k : ℕ) (impatient : Bool)
    → t.my_task ≢ 0
    → (w.smcb k).first_susp ≡ []
    → (((join_waiting w t k impatient).smcb k).first_susp ≡ t.my_task ∷ [])
      × ((join_waiting w t k impatient).sem_list ≡ w.sem_list)
unfolding join_waiting Susp.link_susp_task Susp.until
join_waiting-first w t k impatient task empty = ground arith

-- What a semaphore becomes when the only task that waits, `me`, takes a token.
abbrev pub Taken : ℕ → Semaphore → Semaphore → Type 0
Taken me s s' =
    (s'.token_count ≡ s.token_count - 1)
    × (s'.first_susp ≡ [])
    × (s'.current_owner ≡ me)
    × (s'.send_type ≡ send)
    × (s'.flags ≡ s.flags)
    × (s'.recursion_level ≡ (if is_mutex s.flags then s.recursion_level + 1 else s.recursion_level))

take_look-first :
    (w : Sems) (t : Thread) (c : Taking)
    → t.my_task ≢ 0
    → (w.smcb c.semaphore).send_type ≡ send
    → 0 < (w.smcb c.semaphore).token_count
    → (w.smcb c.semaphore).first_susp ≡ t.my_task ∷ []
    → ((take_look w t c).1 ≡ returned (ok tt))
      × Taken t.my_task (w.smcb c.semaphore) ((take_look w t c).0.smcb c.semaphore)
      × ((take_look w t c).0.sem_list ≡ w.sem_list)
unfolding take_look signal_for_my_task Susp.unlink_susp_task Susp.highest
take_look-first w t c task live token first = ground arith

Taken-like :
    {me : ℕ} (s v s' : Semaphore)
    → v.flags ≡ s.flags
    → v.token_count ≡ s.token_count
    → v.recursion_level ≡ s.recursion_level
    → Taken me v s'
    → Taken me s s'
Taken-like s v s' f c r h = ground arith

-- semTake of a semaphore that has a token, and that no task waits for, by a task that does not own
-- it: unless the computation of the deadline overflows, it returns OK at once with a token, and no
-- task waits. The caller is the owner, and a mutex is a level deeper. The semaphore still exists.
pub sem_take_token :
    (w : Sems) (t : Thread) (now : Timeval) (k : ℕ) (wait : Wait) (d : Option Timespec)
    → timeout_for wait now ≡ some d
    → sem_find_lock w k ≡ true
    → t.my_task ≢ 0
    → (w.smcb k).send_type ≡ send
    → 0 < (w.smcb k).token_count
    → (w.smcb k).first_susp ≡ []
    → (w.smcb k).current_owner ≢ t.my_task
    → (w' : Sems) × (sem_take w t now k wait ≡ some (w', returned (ok tt)))
      × Taken t.my_task (w.smcb k) (w'.smcb k)
      × (sem_find_lock w' k ≡ true)
unfolding sem_find_lock started
sem_take_token w t now k wait d e found task live token empty other =
    let u : Sems = set_waiting w t.my_task k in
    let v : Sems = join_waiting u t k (is_no_wait wait) in
    let fields = join_waiting-fields u t k k (is_no_wait wait) in
    let (first, listed) = join_waiting-first u t k (is_no_wait wait) task empty in
    let (done, taken, kept) =
      take_look-first v t (started k wait d) task (fields.1 ∙ live) (omega (arith, fields.2))
        first in
    (
      (take_look v t (started k wait d)).0,
      sem_take-starts w t now k wait found other
          ∙ wait_for_token-starts u t now k wait d e
          ∙ ap (λ at. some ((take_look v t (started k wait d)).0, at)) done,
      Taken-like (w.smcb k) (v.smcb k) ((take_look v t (started k wait d)).0.smcb k) fields.0
          fields.2 fields.3 taken,
      ap (λ l. elem k l) (kept ∙ listed) ∙ found,
    )
