-- ===== src/Tests/Handoff.antt =====
-- Tasks that wait get what another task gives, or leave what it deletes, at concrete inputs.
use cross_compile.Base.{
  ℕ, ◌+◌, ◌<◌, ◌≤◌, ◌≡◌, refl, true, false, none, some, List, [], ◌∷◌, arith, take, inl, ◌++◌,
}
use cross_compile.Errno.{ok, no_wait, awake}
use cross_compile.Susp
use cross_compile.Susp.{signal_for_my_task}
use cross_compile.Msgq.Types.{Mqueue, Queues}
use cross_compile.Msgq.Ring.Valid.{IsValid, contents}
use cross_compile.Msgq.Registry.{mqueue_find_lock}
use cross_compile.Msgq.Send
use cross_compile.Msgq.Send.{Sending, relocking, msg_q_send, send_look, send_finish}
use cross_compile.Msgq.Receive.{Receiving, receive_look, receive_woken}
use cross_compile.Msgq.Handoff.{handed, handed_over}
use cross_compile.Msgq.Handoff.Space.{space_passed}
use cross_compile.Msgq.Delete.{returned}
use cross_compile.Sem.Types.{send, Semaphore, Sems, is_mutex}
use cross_compile.Sem.Mutex.{here, more, wakes}
use cross_compile.Sem.Fifo.{IsFirst, served_in_order}
use cross_compile.Sem.Give.{sem_give}
use cross_compile.Sem.Registry.{sem_find_lock}
use cross_compile.Sem.Take
use cross_compile.Sem.Take.{Taking, take_look, take_woken}
use cross_compile.Sem.Handoff.{token_passed}
use cross_compile.Tests.Sample.{full_queue, full_queue-IsValid, with_queue}
use cross_compile.Tests.Semaphores.{noon, four, five, both_tasks, with_sem, owned_mutex}

-- Task 5 waits to receive from an empty queue.
abbrev empty_queue : Mqueue
empty_queue = record full_queue { queue_tail = 2; msg_count = 0; first_susp = 5 ∷ [] }

abbrev world : Queues
world = with_queue empty_queue

empty_queue-IsValid : IsValid empty_queue
empty_queue-IsValid = record {
  elements = refl;
  room = full_queue-IsValid.room;
  fits = full_queue-IsValid.fits;
  head_in = omega arith;
  count_in = omega arith;
  tail_at = refl;
}

abbrev receiving : Receiving
receiving = record {
  queue = 7;
  msgbuf = some (9 ∷ 9 ∷ 9 ∷ []);
  impatient = false;
  timeout = none;
  retcode = awake;
}

found_queue : (q : Mqueue) → mqueue_find_lock (with_queue q) 7 ≡ true
unfolding mqueue_find_lock
found_queue q = refl

five_is_next : signal_for_my_task world.tasks (5 ∷ []) 0 5 ≡ true
unfolding signal_for_my_task
five_is_next = refl

handed_over_example :
    (w1 w2 : Queues) × (out : List ℕ) × (msg_q_send world 4 noon 7
        (some (1 ∷ 2 ∷ []))
        2
        no_wait
        false
      ≡ some (w1, Send.returned (ok tt)))
    × (0 < (w1.qcb 7).queue_send)
    × (receive_woken w1 5 awake receiving ≡ some (w2, handed 2 out))
    × (take 2 out ≡ 1 ∷ 2 ∷ [])
    × (contents (w2.qcb 7) ≡ [])
handed_over_example =
    handed_over world 4 5 noon (1 ∷ 2 ∷ []) 2 no_wait false awake receiving (9 ∷ 9 ∷ 9 ∷ [])
      (found_queue empty_queue) empty_queue-IsValid (omega arith) (omega arith) refl five_is_next
      refl (omega arith) (omega arith) (omega arith)

-- Tasks 5 and 6 wait to receive, and task 4 to send.
abbrev busy : Queues
busy = with_queue (record full_queue { first_susp = 5 ∷ 6 ∷ []; first_write_susp = 4 ∷ [] })

abbrev sending : Sending
sending = record {
  queue = 7;
  msg = some (1 ∷ []);
  msglen = 1;
  urgent = false;
  timeout = none;
  retcode = awake;
}

busy-IsValid : IsValid (busy.qcb 7)
busy-IsValid = record {
  elements = refl;
  room = full_queue-IsValid.room;
  fits = full_queue-IsValid.fits;
  head_in = omega arith;
  count_in = omega arith;
  tail_at = refl;
}

five_reads : signal_for_my_task busy.tasks (5 ∷ 6 ∷ []) 0 5 ≡ true
unfolding signal_for_my_task
five_reads = refl

four_writes : signal_for_my_task busy.tasks (4 ∷ []) 0 4 ≡ true
unfolding signal_for_my_task
four_writes = refl

-- Task 5 takes the message 10 20, so that task 4 can send.
space_passed_example :
    (w1 w2 : Queues) × (out : List ℕ) × (n : ℕ) × (rest : List (List ℕ)) × (receive_look busy 5
        receiving
      ≡ some (w1, handed n out))
    × (contents (busy.qcb 7) ≡ take n out ∷ rest)
    × ((w1.qcb 7).queue_space ≡ 1)
    × (send_look w1 4 sending ≡ relocking sending)
    × (send_finish w1 4 sending ≡ some (w2, ok tt))
    × (contents (w2.qcb 7) ≡ rest ++ (1 ∷ []) ∷ [])
space_passed_example =
    space_passed busy 5 4 sending (1 ∷ []) (9 ∷ 9 ∷ 9 ∷ []) false none awake refl busy-IsValid
      (omega arith) (omega arith) refl five_reads four_writes refl (omega arith) refl (omega arith)
      (omega arith)

-- Task 4 gives the mutex that task 5 waits for.
abbrev pub taking : Taking
taking = record { semaphore = 9; impatient = false; timeout = none; retcode = awake }

found_sem : sem_find_lock (with_sem owned_mutex) 9 ≡ true
unfolding sem_find_lock
found_sem = refl

mutex_kind : is_mutex 16 ≡ true
unfolding is_mutex
mutex_kind = refl

five_takes : signal_for_my_task both_tasks (5 ∷ []) 0 5 ≡ true
unfolding signal_for_my_task
five_takes = refl

token_passed_example :
    (let (w1, r) = sem_give (with_sem owned_mutex) four 9 in
      let (w2, at) = take_woken w1 five awake taking in
      (r ≡ ok tt)
      × ((w1.smcb 9).sem_send ≡ 1)
      × (at ≡ Take.returned (ok tt))
      × ((w2.smcb 9).token_count ≡ 0)
      × ((w2.smcb 9).current_owner ≡ 5)
      × ((w2.smcb 9).recursion_level ≡ 1)
      × ((w2.smcb 9).first_susp ≡ []))
unfolding Susp.unlink_susp_task is_mutex
token_passed_example =
    token_passed (with_sem owned_mutex) four five awake taking found_sem
      (inl (mutex_kind, refl, refl)) refl refl refl five_takes

-- Task 4 is before task 5 at a semaphore with one token; task 5 looks first.
abbrev pub queue_of_two : Semaphore
queue_of_two = record {
  sem_lock = false;
  sem_send = 0;
  flags = 32;
  smdel_cplt = 0;
  token_count = 1;
  send_type = send;
  recursion_level = 0;
  current_owner = 0;
  first_susp = 4 ∷ 5 ∷ [];
}

abbrev after_five : Sems
after_five = (take_woken (with_sem queue_of_two) five awake taking).0

served_in_order_example :
    IsFirst 4 (after_five.smcb 9)
    × (1 ≤ (after_five.smcb 9).token_count)
    × ((take_look after_five four taking).1 ≡ Take.returned (ok tt))
    × (((take_look after_five four taking).0.smcb 9).token_count + 1
        ≡ (after_five.smcb 9).token_count)
served_in_order_example =
    served_in_order four taking
      (more (wakes {w = with_sem queue_of_two} five awake taking (omega arith) (omega arith)) here)
      (omega arith) (refl, refl, refl) (omega arith)
