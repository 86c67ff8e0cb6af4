-- ===== src/Sem/Counting.antt =====
-- The tokens of a binary or counting semaphore under the calls of any number of tasks.
use cross_compile.Base.{
  ℕ, suc, ◌+◌, ◌≡◌, ◌≢◌, ◌⊎◌, refl, ap, ◌∙◌, false, Option, some, List, [], ◌∷◌, arith, inl, inr,
  Option-cases, Bool-cases, none,
}
use cross_compile.Errno.{Result, ok, error, Wait, no_wait, wait_forever, ticks, RetCode}
use cross_compile.Clock.{Timeval, deadline}
use cross_compile.Sched.{Thread}
use cross_compile.Sem.Registry.{sem_find_lock}
use cross_compile.Sem.Types.{Semaphore, Sems, send, is_mutex, set_waiting}
use cross_compile.Sem.Give.{sem_give, give_token}
use cross_compile.Sem.Take.{
  Taking, TakeAt, returned, take_look, take_after_nap, take_woken, woken_with, join_waiting,
  wait_for_token, sem_take,
}
use cross_compile.Sem.Mutex.{join_waiting-fields}

-- A token was given, or taken, or neither.
pub data TokenEvent : Type 0 where
  neither given taken : TokenEvent

abbrev pub taken_by : TakeAt → TokenEvent
taken_by (returned (ok u)) = taken
taken_by at = neither

abbrev pub given_by : Result (Unit {0}) → TokenEvent
given_by (ok u) = given
given_by (error e) = neither

abbrev pub gives_of : List TokenEvent → ℕ
gives_of [] = 0
gives_of (given ∷ es) = suc (gives_of es)
gives_of (e ∷ es) = gives_of es

abbrev pub takes_of : List TokenEvent → ℕ
takes_of [] = 0
takes_of (taken ∷ es) = suc (takes_of es)
takes_of (e ∷ es) = takes_of es

-- A binary or counting semaphore that is neither deleted nor flushed.
pub record InService (s : Semaphore) : Type 0 where
  pub plain : is_mutex s.flags ≡ false
  pub sending : s.send_type ≡ send
  pub level : s.recursion_level ≡ 0

-- A step that some task makes in semTake or semGive of semaphore `k`, with its event. Calls of
-- semTake may wait. `elsewhere` is any other step of the program, but for one of semFlush or semDelete.
pub data TokenStep (k : ℕ) : Sems → TokenEvent → Sems → Type 0 where
  takes :
      {w v : Sems} (t : Thread) (now : Timeval) (wait : Wait) (at : TakeAt)
      → wait ≢ no_wait
      → sem_take w t now k wait ≡ some (v, at)
      → TokenStep k w (taken_by at) v
  naps :
      {w v : Sems} (t : Thread) (now : Timeval) (c : Taking) (at : TakeAt)
      → c.semaphore ≡ k
      → c.impatient ≡ false
      → take_after_nap w t now c ≡ (v, at)
      → TokenStep k w (taken_by at) v
  wakes :
      {w v : Sems} (t : Thread) (rc : RetCode) (c : Taking) (at : TakeAt)
      → c.semaphore ≡ k
      → c.impatient ≡ false
      → take_woken w t rc c ≡ (v, at)
      → TokenStep k w (taken_by at) v
  gives :
      {w v : Sems} (t : Thread) (r : Result (Unit {0}))
      → sem_give w t k ≡ (v, r)
      → TokenStep k w (given_by r) v
  elsewhere :
      {w v : Sems}
      → (v.smcb k).token_count ≡ (w.smcb k).token_count
      → (v.smcb k).flags ≡ (w.smcb k).flags
      → (v.smcb k).send_type ≡ (w.smcb k).send_type
      → (v.smcb k).recursion_level ≡ (w.smcb k).recursion_level
      → TokenStep k w neither v

pub data TokenSteps (k : ℕ) : Sems → List TokenEvent → Sems → Type 0 where
  here : {w : Sems} → TokenSteps k w [] w
  more :
      {w v u : Sems} {e : TokenEvent} {es : List TokenEvent}
      → TokenStep k w e v
      → TokenSteps k v es u
      → TokenSteps k w (e ∷ es) u

-- What is there and what was given is what is left and what was taken.
abbrev pub Balanced : ℕ → Sems → List TokenEvent → Sems → Type 0
Balanced k w es v =
    InService (v.smcb k)
    × ((w.smcb k).token_count + gives_of es ≡ (v.smcb k).token_count + takes_of es)

-- One step.
abbrev Counted : ℕ → Sems → TokenEvent → Sems → Type 0
Counted k w e v = Balanced k w (e ∷ []) v

sem_give-Counted :
    (w : Sems) (t : Thread) (k : ℕ)
    → InService (w.smcb k)
    → Counted k w (given_by (sem_give w t k).1) (sem_give w t k).0
unfolding sem_give give_token
sem_give-Counted w t k s = ground arith

take_look-Counted :
    (w : Sems) (t : Thread) (c : Taking)
    → c.impatient ≡ false
    → InService (w.smcb c.semaphore)
    → Counted c.semaphore w (taken_by (take_look w t c).1) (take_look w t c).0
unfolding take_look
take_look-Counted w t c patient s = ground arith

take_after_nap-Counted :
    (w : Sems) (t : Thread) (now : Timeval) (c : Taking)
    → c.impatient ≡ false
    → InService (w.smcb c.semaphore)
    → Counted c.semaphore w (taken_by (take_after_nap w t now c).1) (take_after_nap w t now c).0
unfolding take_after_nap
take_after_nap-Counted w t now c patient s = ground arith

woken_with-cases :
    (rc : RetCode) (c : Taking)
    → (woken_with rc c ≡ c) ⊎ (woken_with rc c ≡ record c { retcode = rc })
woken_with-cases rc c = elim (Option-cases c.timeout) [
  | inl h ↦ inl (ap (λ o. elim o [ none ↦ c | some d ↦ record c { retcode = rc } ]) h)
  | inr (d, h) ↦ inr (ap (λ o. elim o [ none ↦ c | some d ↦ record c { retcode = rc } ]) h)
]

pub woken_with-fields :
    (rc : RetCode) (c : Taking)
    → ((woken_with rc c).semaphore ≡ c.semaphore) × ((woken_with rc c).impatient ≡ c.impatient)
woken_with-fields rc c = elim (woken_with-cases rc c) [
  | inl h ↦ (ap (λ x. x.semaphore) h, ap (λ x. x.impatient) h)
  | inr h ↦ (ap (λ x. x.semaphore) h, ap (λ x. x.impatient) h)
]

take_woken-Counted :
    (w : Sems) (t : Thread) (rc : RetCode) (c : Taking)
    → c.impatient ≡ false
    → InService (w.smcb c.semaphore)
    → Counted c.semaphore w (taken_by (take_woken w t rc c).1) (take_woken w t rc c).0
unfolding take_woken
take_woken-Counted w t rc c patient s =
    let (same, alike) = woken_with-fields rc c in
    coe 0 1
      (i.
        Counted (same i) w (taken_by (take_look w t (woken_with rc c)).1)
          (take_look w t (woken_with rc c)).0)
      (take_look-Counted w t (woken_with rc c) (alike ∙ patient)
        (coe 1 0 (i. InService (w.smcb (same i))) s))

-- The caller joins the waiting tasks first.
join_waiting-InService :
    (w : Sems) (t : Thread) (k : ℕ)
    → InService (w.smcb k)
    → InService ((join_waiting w t k false).smcb k)
join_waiting-InService w t k s =
    let (flags, sending, tokens, level, owner) = join_waiting-fields w t k k false in
    record {
      plain = ap is_mutex flags ∙ s.plain;
      sending = sending ∙ s.sending;
      level = level ∙ s.level;
    }

started-Counted :
    (w : Sems) (t : Thread) (c : Taking)
    → c.impatient ≡ false
    → InService (w.smcb c.semaphore)
    → Counted c.semaphore w
        (taken_by (take_look (join_waiting w t c.semaphore false) t c).1)
        (take_look (join_waiting w t c.semaphore false) t c).0
started-Counted w t c patient s =
    let (flags, sending, tokens, level, owner) =
      join_waiting-fields w t c.semaphore c.semaphore false in
    let (s', balance) =
      take_look-Counted (join_waiting w t c.semaphore false) t c patient
        (join_waiting-InService w t c.semaphore s) in
    (s', omega (arith, balance, tokens))

-- What a call that gives `o` makes of the tokens.
abbrev Counts : ℕ → Sems → Option (Sems × TakeAt) → Type 0
Counts k w none = Unit
Counts k w (some r) = Counted k w (taken_by r.1) r.0

wait_for_token-Counts :
    (w : Sems) (t : Thread) (now : Timeval) (k : ℕ) (wait : Wait)
    → wait ≢ no_wait
    → InService (w.smcb k)
    → Counts k w (wait_for_token w t now k wait)
unfolding wait_for_token
wait_for_token-Counts w t now k no_wait may s = absurd (may refl)
wait_for_token-Counts w t now k wait_forever may s = started-Counted w t _ refl s
wait_for_token-Counts w t now k (ticks n) may s = elim (Option-cases (deadline n now)) [
  | inl h ↦ rw h tt
  | inr (d, h) ↦ rw h (started-Counted w t _ refl s)
]

sem_take-Counts :
    (w : Sems) (t : Thread) (now : Timeval) (k : ℕ) (wait : Wait)
    → wait ≢ no_wait
    → InService (w.smcb k)
    → Counts k w (sem_take w t now k wait)
unfolding sem_take
sem_take-Counts w t now k wait may s = elim (Bool-cases (sem_find_lock w k)) [
  | inl found ↦
      rw (found, s.plain) (wait_for_token-Counts (set_waiting w t.my_task k) t now k wait may s)
  | inr gone ↦ rw gone (s, refl)
]

TokenStep-Counted :
    {k : ℕ} {w v : Sems} {e : TokenEvent}
    → TokenStep k w e v
    → InService (w.smcb k)
    → Counted k w e v
TokenStep-Counted {k = k} {w = w} (takes t now wait at may e) s =
    coe 0 1 (i. Counts k w (e i)) (sem_take-Counts w t now k wait may s)
TokenStep-Counted {k = k} {w = w} {v = v} (naps t now c at ek patient e) s =
    coe 0 1 (i. Counted (ek i) w (taken_by (e i).1) (e i).0)
      (take_after_nap-Counted w t now c patient (coe 1 0 (i. InService (w.smcb (ek i))) s))
TokenStep-Counted {k = k} {w = w} {v = v} (wakes t rc c at ek patient e) s =
    coe 0 1 (i. Counted (ek i) w (taken_by (e i).1) (e i).0)
      (take_woken-Counted w t rc c patient (coe 1 0 (i. InService (w.smcb (ek i))) s))
TokenStep-Counted {k = k} {w = w} (gives t r e) s =
    coe 0 1 (i. Counted k w (given_by (e i).1) (e i).0) (sem_give-Counted w t k s)
TokenStep-Counted (elsewhere tokens flags sending level) s = (
  record {
    plain = ap is_mutex flags ∙ s.plain;
    sending = sending ∙ s.sending;
    level = level ∙ s.level;
  },
  omega (arith, tokens),
)

balance-cons :
    (a b c : ℕ) (e : TokenEvent) (es : List TokenEvent)
    → a + gives_of (e ∷ []) ≡ b + takes_of (e ∷ [])
    → b + gives_of es ≡ c + takes_of es
    → a + gives_of (e ∷ es) ≡ c + takes_of (e ∷ es)
balance-cons a b c neither es h h' = omega arith
balance-cons a b c given es h h' = omega arith
balance-cons a b c taken es h h' = omega arith

-- Whatever tasks call semTake (with a wait) and semGive on a binary or counting semaphore, in whatever
-- order their steps come, while it is neither flushed nor deleted: the tokens at first and those given
-- are the tokens at last and those taken. So no call of semTake returns OK without a token of its own,
-- and no token is lost.
pub TokenSteps-Balanced :
    {k : ℕ} {w v : Sems} {es : List TokenEvent}
    → TokenSteps k w es v
    → InService (w.smcb k)
    → Balanced k w es v
TokenSteps-Balanced here s = (s, refl)
TokenSteps-Balanced (more {e = e} {es = es} step rest) s =
    let (s', h) = TokenStep-Counted step s in
    let (s'', h') = TokenSteps-Balanced rest s' in (s'', balance-cons _ _ _ e es h h')
