-- ===== src/Tests/Dismissal.antt =====
-- semDelete and semFlush with tasks that wait, at concrete inputs.
use cross_compile.Base.{◌≡◌, refl, true, false, [], ◌∷◌, arith}
use cross_compile.Errno.{ok, error, obj_id_error, awake, etimedout}
use cross_compile.Sem.Types.{send, is_mutex}
use cross_compile.Sem.Registry.{sem_find_lock}
use cross_compile.Sem.Take
use cross_compile.Sem.Delete
use cross_compile.Sem.Delete.{sem_delete, sem_flush, flush_woken}
use cross_compile.Sem.Drain.Order.{
  Waiter, wake_all, AnyOrder, all_left, next, sem_delete_drains, sem_flush_drains,
}
use cross_compile.Tests.Semaphores.{four, five, with_sem}
use cross_compile.Tests.Handoff.{taking, queue_of_two}

-- Tasks 5 and 4 leave a semaphore when it is deleted, and when it is flushed.
found_two : sem_find_lock (with_sem queue_of_two) 9 ≡ true
unfolding sem_find_lock
found_two = refl

counter_kind : is_mutex 32 ≡ false
unfolding is_mutex
counter_kind = refl

abbrev five_waits : Waiter
five_waits = record { thread = five; wait_returns = awake; call = taking }

abbrev four_waits : Waiter
four_waits = record { thread = four; wait_returns = etimedout; call = taking }

five_then_four : AnyOrder 9 (five_waits ∷ four_waits ∷ []) (4 ∷ 5 ∷ [])
five_then_four =
    next five awake taking (omega arith) refl refl
      (next four etimedout taking (omega arith) refl refl all_left)

sem_delete_drains_example :
    (let (w1, at) = sem_delete (with_sem queue_of_two) five 9 in
      let (w2, ats) = wake_all w1 (five_waits ∷ four_waits ∷ []) in
      let (w3, at') = Delete.delete_woken w2 five 9 in
      (at ≡ Delete.draining 9)
      × (ats ≡ Take.returned (error obj_id_error) ∷ Take.returned (error obj_id_error) ∷ [])
      × ((w2.smcb 9).first_susp ≡ [])
      × ((w2.smcb 9).token_count ≡ 1)
      × ((w2.smcb 9).smdel_cplt ≡ 1)
      × (at' ≡ Delete.returned (ok tt))
      × (sem_find_lock w3 9 ≡ false))
sem_delete_drains_example =
    sem_delete_drains (with_sem queue_of_two) five 9 five_waits (four_waits ∷ []) found_two
      (refl, tt) five_then_four

sem_flush_drains_example :
    (let (w1, at) = sem_flush (with_sem queue_of_two) five 9 in
      let (w2, ats) = wake_all w1 (five_waits ∷ four_waits ∷ []) in
      let (w3, at') = flush_woken w2 five 9 in
      (at ≡ Delete.draining 9)
      × (ats ≡ Take.returned (ok tt) ∷ Take.returned (ok tt) ∷ [])
      × ((w2.smcb 9).first_susp ≡ [])
      × ((w2.smcb 9).token_count ≡ 1)
      × ((w2.smcb 9).send_type ≡ send)
      × ((w2.smcb 9).smdel_cplt ≡ 1)
      × (at' ≡ Delete.returned (ok tt))
      × (sem_find_lock w3 9 ≡ true))
sem_flush_drains_example =
    sem_flush_drains (with_sem queue_of_two) five 9 five_waits (four_waits ∷ []) found_two
      counter_kind five_then_four
