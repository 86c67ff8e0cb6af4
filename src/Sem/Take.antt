-- ===== src/Sem/Take.antt =====
-- lib/lsemLib.c: semTake, with wait_for_token, waiting_on_sem and priority_inversion, in steps: a
-- call gives sem_lock away in taskDelay and in the wait on sem_send, and nowhere else. The taskLock
-- inside it is as in `Give`.
use cross_compile.Base.{
  ℕ, ◌+◌, ◌-◌, Bool, true, false, not, ◌&&◌, Option, none, some, ltb, ◌==◌, if◌then◌else◌,
}
use cross_compile.Errno.{
  Result, ok, error, obj_id_error, obj_unavailable, obj_timeout, Wait, no_wait, wait_forever, ticks,
  RetCode, awake, etimedout, failed,
}
use cross_compile.Clock.{Timeval, Timespec, immediate, deadline, time_expired}
use cross_compile.Susp
use cross_compile.Susp.{Tasks, signal_for_my_task}
use cross_compile.Sched.{Thread, Sched, set_priority, task_lock, task_unlock, task_safe}
use cross_compile.Msgq.Send.{Verdict, over, nap, keep}
use cross_compile.Msgq.Ring.{◌>>=◌}
use cross_compile.Sem.Types.{
  send, killd, Semaphore, Sems, set_smcb, set_waiting, is_mutex, priority_bit, delete_safe,
  inversion_safe, is_dismissed, nobody_waits,
}
use cross_compile.Sem.Registry.{sem_find_lock}
use cross_compile.Sem.Give.{lock_unlock}

-- What a task has to remember while it waits. `impatient` is `max_wait == NO_WAIT`.
pub record Taking : Type 0 where
  pub semaphore : ℕ
  pub impatient : Bool
  pub timeout : Option Timespec
  pub retcode : RetCode

pub data TakeAt : Type 0 where
  napping : Taking → TakeAt
  asleep : Taking → TakeAt
  returned : Result (Unit {0}) → TakeAt

-- The `while` of waiting_on_sem; `over` takes a token.
unfoldable pub token_round : Tasks → Semaphore → ℕ → Verdict
token_round ts s me =
    if ltb 0 s.token_count
    then (if signal_for_my_task ts s.first_susp (priority_bit s.flags) me then over else nap)
    else keep

-- What the loops of wait_for_token leave in `error`.
unfoldable pub verdict_of : Taking → Result (Unit {0})
verdict_of c = elim c.retcode [
  | awake ↦ ok tt
  | etimedout ↦ if c.impatient then ok tt else error obj_timeout
  | failed ↦ if c.impatient then error obj_unavailable else ok tt
]

-- The task was woken by semDelete or semFlush; the last one to go tells the caller of these.
unfoldable pub dismissed : Semaphore → Result (Unit {0}) → Semaphore × Result (Unit {0})
dismissed s e = (
  if nobody_waits s then record s { smdel_cplt = s.smdel_cplt + 1; send_type = send } else s,
  elim s.send_type [ killd ↦ error obj_id_error | _ ↦ e ],
)

-- A token has been received.
unfoldable pub own : Sems → Thread → ℕ → Semaphore → Sems
own w t semaphore s =
    let w' = set_smcb w semaphore (record s { current_owner = t.my_task }) in
    let recursed =
      set_smcb w semaphore
        (record s { current_owner = t.my_task; recursion_level = s.recursion_level + 1 }) in
    let made_safe = record recursed {
      sched = lock_unlock w.sched w.tasks t;
      delete_safe_count =
          λ j. if j == t.my_task then task_safe (w.delete_safe_count j) else w.delete_safe_count j;
    } in
    if is_mutex s.flags then (if delete_safe s.flags then made_safe else recursed) else w'

-- The end of wait_for_token, once its loop is left, and of semTake.
unfoldable pub take_finish : Sems → Thread → Taking → Sems × TakeAt
unfolding dismissed own verdict_of
take_finish w t c =
    let (ts, waiting) = Susp.unlink_susp_task w.tasks (w.smcb c.semaphore).first_susp t.my_task in
    let s = record (w.smcb c.semaphore) { first_susp = waiting } in
    let w' = record w { tasks = ts } in
    let (gone, e) = dismissed s (verdict_of c) in
    let left = λ (v : Sems). set_waiting v t.my_task 0 in
    if is_dismissed s.send_type
    then (left (set_smcb w' c.semaphore gone), returned e)
    else elim c.retcode [
      | awake ↦ (left (own w' t c.semaphore s), returned (verdict_of c))
      | _ ↦ (left (set_smcb w' c.semaphore s), returned (verdict_of c))
    ]

abbrev pub spend : Sems → ℕ → Sems
spend w semaphore =
    set_smcb w semaphore
      (record (w.smcb semaphore) { token_count = (w.smcb semaphore).token_count - 1 })

unfoldable pub take_continue : Sems → Thread → Taking → Verdict → Sems × TakeAt
unfolding take_finish
take_continue w t c over = take_finish (spend w c.semaphore) t (record c { retcode = awake })
take_continue w t c nap = (w, napping c)
take_continue w t c keep = elim c.retcode [ etimedout ↦ take_finish w t c | _ ↦ (w, asleep c) ]

-- A round of the loop, which begins with waiting_on_sem.
unfoldable pub take_look : Sems → Thread → Taking → Sems × TakeAt
unfolding token_round take_continue
take_look w t c =
    let s = w.smcb c.semaphore in
    if is_dismissed s.send_type
    then take_finish w t (record c { retcode = awake })
    else take_continue w t c (token_round w.tasks s t.my_task)

abbrev pub expired : Option Timespec → Timeval → Bool
expired none now = false
expired (some t) now = time_expired t now

-- taskDelay is over, and sem_lock is taken again.
unfoldable pub take_after_nap : Sems → Thread → Timeval → Taking → Sems × TakeAt
unfolding token_round take_continue
take_after_nap w t now c =
    take_continue w t c
      (if expired c.timeout now then keep else token_round w.tasks (w.smcb c.semaphore) t.my_task)

-- The wait on sem_send returns `rc`, which pthread_cond_wait leaves unused.
abbrev pub woken_with : RetCode → Taking → Taking
woken_with rc c = elim c.timeout [ none ↦ c | some d ↦ record c { retcode = rc } ]

unfoldable pub take_woken : Sems → Thread → RetCode → Taking → Sems × TakeAt
take_woken w t rc c = take_look w t (woken_with rc c)

-- The owner of the mutex is raised to the caller's priority.
unfoldable pub priority_inversion : Sched → Tasks → ℕ → Thread → Sched
priority_inversion s ts owner t =
    let held = (task_lock s t).0 in
    let raised =
      if ltb (ts.sched_priority owner) (ts.sched_priority t.my_task)
      then set_priority held owner (ts.sched_priority t.my_task)
      else held in
    task_unlock raised ts t

-- The caller joins the waiting tasks, and a call that may wait looks after the owner's priority.
unfoldable pub join_waiting : Sems → Thread → ℕ → Bool → Sems
unfolding priority_inversion
join_waiting w t semaphore impatient =
    let s = w.smcb semaphore in
    let (ts, waiting) = Susp.link_susp_task w.tasks s.first_susp t.my_task in
    let w' = set_smcb (record w { tasks = ts }) semaphore (record s { first_susp = waiting }) in
    if not impatient && inversion_safe s.flags && not (s.current_owner == 0)
    then record w' { sched = priority_inversion w.sched w.tasks s.current_owner t }
    else w'

-- wait_for_token up to the point where it gives sem_lock away.
unfoldable pub wait_for_token : Sems → Thread → Timeval → ℕ → Wait → Option (Sems × TakeAt)
wait_for_token w t now semaphore wait =
    let c : Bool → Option Timespec → Taking =
      λ b d. record { semaphore = semaphore; impatient = b; timeout = d; retcode = awake } in
    elim wait [
      | no_wait ↦
          some (take_look (join_waiting w t semaphore true) t (c true (some (immediate now))))
      | wait_forever ↦ some (take_look (join_waiting w t semaphore false) t (c false none))
      | ticks n ↦ do
        d ← deadline n now
        some (take_look (join_waiting w t semaphore false) t (c false (some d)))
    ]

unfoldable pub sem_take : Sems → Thread → Timeval → ℕ → Wait → Option (Sems × TakeAt)
sem_take w t now semaphore wait =
    let s = w.smcb semaphore in
    let waited = wait_for_token (set_waiting w t.my_task semaphore) t now semaphore wait in
    if not (sem_find_lock w semaphore)
    then some (w, returned (error obj_id_error))
    else if is_mutex s.flags && s.current_owner == t.my_task
    then some (
      set_waiting (set_smcb w semaphore (record s { recursion_level = s.recursion_level + 1 }))
          t.my_task 0,
      returned (ok tt),
    )
    else waited
