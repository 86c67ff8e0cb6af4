-- ===== src/Tests/Flow.antt =====
-- Several tasks on one queue, at concrete inputs.
use cross_compile.Base.{◌≡◌, refl, true, false, Option, none, some, [], ◌∷◌, arith}
use cross_compile.Errno.{ok, no_wait, awake}
use cross_compile.Clock.{Timeval}
use cross_compile.Susp
use cross_compile.Msgq.Types.{Queues}
use cross_compile.Msgq.Ring
use cross_compile.Msgq.Ring.View.{window}
use cross_compile.Msgq.Ring.Valid.{contents}
use cross_compile.Msgq.Registry.{mqueue_find_lock}
use cross_compile.Msgq.Send
use cross_compile.Msgq.Send.{Sending, msg_q_send, send_finish}
use cross_compile.Msgq.Receive
use cross_compile.Msgq.Receive.{msg_q_receive}
use cross_compile.Msgq.Flow.{sent, got, overran, sends, finishes, receives, Flow, still, flows}
use cross_compile.Msgq.Flow.Deque.{Deques}
use cross_compile.Msgq.Flow.Moves.{Sound}
use cross_compile.Msgq.Flow.Refine.{Flow-Deques, Flow-order}
use cross_compile.Msgq.Flow.Bounds.{Bounded, valid-InBounds}
use cross_compile.Msgq.Flow.Safe.{finishing, stays_inside, Flow-stays_inside}
use cross_compile.Tests.Sample.{
  half_queue, half_queue-IsValid, full_queue, full_queue-IsValid, with_queue,
}

abbrev noon : Timeval
noon = record { tv_sec = 43200; tv_usec = 0 }

abbrev world : Queues
world = with_queue half_queue

abbrev packed : Queues
packed = with_queue full_queue

abbrev left_by : {A : Type 0} → Option (Queues × A) → Queues
left_by none = world
left_by (some r) = r.0

-- Task 4 sends, task 5 receives the message that was there, and task 4 sends again.
abbrev w1 : Queues
w1 = left_by (msg_q_send world 4 noon 7 (some (5 ∷ 6 ∷ [])) 2 no_wait false)

abbrev w2 : Queues
w2 = left_by (msg_q_receive w1 5 noon 7 (some (9 ∷ 9 ∷ 9 ∷ [])) 3 no_wait)

abbrev w3 : Queues
w3 = left_by (msg_q_send w2 4 noon 7 (some (8 ∷ [])) 1 no_wait false)

three_calls : Flow 7 world (sent false (5 ∷ 6 ∷ []) ∷ got (30 ∷ []) ∷ sent false (8 ∷ []) ∷ []) w3
unfolding msg_q_send mqueue_find_lock Send.post Ring.send_msg_to Ring.copy_bytes msg_q_receive
    Receive.timeout_for Receive.join_readers Receive.receive_look Receive.receive_finish
    Susp.link_susp_task Susp.until Susp.unlink_susp_task Susp.signal_for_my_task Ring.fetch_msg_from
    Ring.copy_out Ring.clear_first Ring.alert_space
three_calls =
    flows (sends 4 noon (5 ∷ 6 ∷ []) 2 no_wait false (Send.returned (ok tt)) (omega arith) refl) (
      flows
        (receives 5 noon (9 ∷ 9 ∷ 9 ∷ []) 3 no_wait
          (Receive.returned (record { msglen = ok 1; buffer = some (30 ∷ 9 ∷ 9 ∷ []) }))
          (omega arith) refl)
        (flows (sends 4 noon (8 ∷ []) 1 no_wait false (Send.returned (ok tt)) (omega arith) refl)
          still))

half_queue-Sound : Sound 2 3 half_queue
half_queue-Sound = record { valid = half_queue-IsValid; limit_is = refl; size_is = refl }

Flow-Deques_example :
    Sound 2 3 (w3.qcb 7)
    × Deques 2 3
        ((30 ∷ []) ∷ [])
        (sent false (5 ∷ 6 ∷ []) ∷ got (30 ∷ []) ∷ sent false (8 ∷ []) ∷ [])
        (contents (w3.qcb 7))
unfolding window
Flow-Deques_example = Flow-Deques three_calls (omega arith) half_queue-Sound refl

Flow-order_example : (30 ∷ []) ∷ (5 ∷ 6 ∷ []) ∷ (8 ∷ []) ∷ [] ≡ (30 ∷ []) ∷ contents (w3.qcb 7)
unfolding window
Flow-order_example = Flow-order three_calls (omega arith) half_queue-Sound refl refl

-- Task 4 was let through, but tasks 6 and 8 fill the queue first, its extra element included. Task 4
-- overruns it, and so does task 9.
abbrev waiter : Sending
waiter = record {
  queue = 7;
  msg = some (1 ∷ []);
  msglen = 1;
  urgent = false;
  timeout = none;
  retcode = awake;
}

abbrev v1 : Queues
v1 = left_by (msg_q_send packed 8 noon 7 (some (3 ∷ [])) 1 no_wait true)

abbrev v2 : Queues
v2 = left_by (send_finish v1 4 waiter)

overrun : Flow 7 packed (sent true (3 ∷ []) ∷ overran false (1 ∷ []) ∷ []) v2
unfolding msg_q_send mqueue_find_lock Send.post Ring.send_msg_to Ring.urgent_msg_to Ring.copy_bytes
    send_finish Susp.unlink_susp_task
overrun =
    flows (sends 8 noon (3 ∷ []) 1 no_wait true (Send.returned (ok tt)) (omega arith) refl)
      (flows (finishes 4 waiter (1 ∷ []) (ok tt) refl refl (omega arith) (omega arith) refl) still)

full_queue-Bounded : Bounded 3 full_queue
full_queue-Bounded = (valid-InBounds full_queue full_queue-IsValid, refl)

Flow-stays_inside_example : stays_inside v2 7 (finishing 9 waiter) ≡ true
Flow-stays_inside_example =
    Flow-stays_inside (finishing 9 waiter) overrun (omega arith) full_queue-Bounded
      (refl, omega arith, 1 ∷ [], refl, omega arith)
