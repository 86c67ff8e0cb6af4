-- ===== src/Sem/Cases.antt =====
-- What the calls on semaphores do, branch by branch.
use cross_compile.Base.{
  ℕ, ◌+◌, ◌-◌, ◌≡◌, ◌≢◌, true, not, ◌&&◌, ◌||◌, arith, ltb, ◌==◌, if◌then◌else◌,
}
use cross_compile.Errno.{ok, error, obj_id_error, obj_timeout, invalid_operation, etimedout}
use cross_compile.Susp
use cross_compile.Susp.{signal_for_my_task}
use cross_compile.Sched.{Thread}
use cross_compile.Sem.Types.{send, flush, killd, Sems, is_mutex, nobody_waits}
use cross_compile.Sem.Registry.{sem_find_lock}
use cross_compile.Sem.Give.{sem_give, give_token}
use cross_compile.Sem.Take.{Taking, returned, take_look}
use cross_compile.Sem.Delete
use cross_compile.Sem.Delete.{sem_delete, sem_flush, draining}

-- semGive of a semaphore that exists. For a mutex of another task it returns ERROR with
-- S_semLib_INVALID_OPERATION, and its fields are as before. An owner that took the mutex more
-- than once only goes back by a level; at level 1 there is a token more, and no owner; at level
-- 0 (which is that of all other semaphores) there is a token more. The waiting tasks are woken
-- in each of the three, if there are any, and the list of waiting tasks stays.
pub sem_give_cases :
    (w : Sems) (t : Thread) (k : ℕ)
    → sem_find_lock w k ≡ true
    → (let s = w.smcb k in
        let (w', r) = sem_give w t k in
        let s' = w'.smcb k in
        let refused = is_mutex s.flags && not (s.current_owner == t.my_task) in
        (r ≡ (if refused then error invalid_operation else ok tt))
        × (s'.first_susp ≡ s.first_susp)
        × (s'.token_count ≡ (
            if refused
            then s.token_count
            else if ltb 1 s.recursion_level
            then s.token_count
            else s.token_count + 1))
        × (s'.recursion_level ≡ (if refused then s.recursion_level else s.recursion_level - 1))
        × (s'.current_owner ≡ (
            if refused
            then s.current_owner
            else if s.recursion_level == 1
            then 0
            else s.current_owner))
        × (s'.sem_send ≡ (
            if refused then s.sem_send else if nobody_waits s then s.sem_send else s.sem_send + 1)))
unfolding sem_give give_token
sem_give_cases w t k found = ground arith

-- A task of which the wait timed out, at a semaphore in service that has no token, leaves the
-- list, and the tokens, the owner and the level are as before. After a wait with a limit it
-- returns ERROR with S_objLib_OBJ_TIMEOUT; with NO_WAIT it returns OK, though it has not got a
-- token.
pub timed_out_lem :
    (w : Sems) (t : Thread) (c : Taking)
    → (w.smcb c.semaphore).send_type ≡ send
    → (w.smcb c.semaphore).token_count ≡ 0
    → c.retcode ≡ etimedout
    → (let (w', at) = take_look w t c in
        (at ≡ returned (if c.impatient then ok tt else error obj_timeout))
        × ((w'.smcb c.semaphore).token_count ≡ 0)
        × ((w'.smcb c.semaphore).current_owner ≡ (w.smcb c.semaphore).current_owner)
        × ((w'.smcb c.semaphore).recursion_level ≡ (w.smcb c.semaphore).recursion_level)
        × ((w'.smcb c.semaphore).first_susp
            ≡ (Susp.unlink_susp_task w.tasks (w.smcb c.semaphore).first_susp t.my_task).1))
unfolding take_look
timed_out_lem w t c live none_left rc = ground arith

-- A waiting task that looks at a semaphore which is being deleted returns ERROR with
-- S_objLib_OBJ_ID_ERROR, and at one that is being flushed it returns OK. It takes no token, leaves the
-- list, and as the last to leave it puts the semaphore back in service and signals smdel_cplt.
pub dismissed_lem :
    (w : Sems) (t : Thread) (c : Taking)
    → (w.smcb c.semaphore).send_type ≢ send
    → (let s = w.smcb c.semaphore in
        let (w', at) = take_look w t c in
        let s' = w'.smcb c.semaphore in
        (at ≡ returned (elim s.send_type [ killd ↦ error obj_id_error | _ ↦ ok tt ]))
        × (s'.token_count ≡ s.token_count)
        × (s'.current_owner ≡ s.current_owner)
        × (s'.first_susp ≡ (Susp.unlink_susp_task w.tasks s.first_susp t.my_task).1)
        × (s'.send_type ≡ (if nobody_waits s' then send else s.send_type))
        × (s'.smdel_cplt ≡ (if nobody_waits s' then s.smdel_cplt + 1 else s.smdel_cplt)))
unfolding take_look
dismissed_lem w t c gone = ground arith

-- semDelete and semFlush of a semaphore that exists: they return at once exactly when no task waits.
-- semFlush refuses a mutex. Otherwise the waiting tasks are woken, to be told of the deletion or of
-- the flush, and none is taken off the list by the caller. semFlush keeps sem_lock exactly when it
-- returns OK at once.
pub dismiss_cases :
    (w : Sems) (t : Thread) (k : ℕ)
    → sem_find_lock w k ≡ true
    → (let s = w.smcb k in
        ((sem_delete w t k).1 ≡ (if nobody_waits s then Delete.returned (ok tt) else draining k))
        × ((sem_flush w t k).1 ≡ (
            if is_mutex s.flags
            then Delete.returned (error invalid_operation)
            else if nobody_waits s
            then Delete.returned (ok tt)
            else draining k))
        × (((sem_delete w t k).0.smcb k).send_type
            ≡ (if nobody_waits s then s.send_type else killd))
        × (((sem_flush w t k).0.smcb k).send_type
            ≡ (if is_mutex s.flags || nobody_waits s then s.send_type else flush))
        × (((sem_delete w t k).0.smcb k).first_susp ≡ s.first_susp)
        × (((sem_flush w t k).0.smcb k).first_susp ≡ s.first_susp)
        × (((sem_flush w t k).0.smcb k).sem_lock ≡ (
            if is_mutex s.flags then s.sem_lock else if nobody_waits s then true else s.sem_lock)))
unfolding sem_delete sem_flush
dismiss_cases w t k found = ground arith
