-- ===== src/Tests/Overflow.antt =====
-- A run in which a sender that was let through finds the queue full, its extra element included.
use cross_compile.Base.{ℕ, ◌≡◌, refl, true, false, Option, none, some, [], ◌∷◌}
use cross_compile.Errno.{no_wait, wait_forever}
use cross_compile.Clock.{Timeval}
use cross_compile.Susp
use cross_compile.Msgq.Ring
use cross_compile.Msgq.Ring.{◌>>=◌}
use cross_compile.Msgq.Registry.{mqueue_find_lock}
use cross_compile.Msgq.Send
use cross_compile.Msgq.Send.{
  Sending, SendAt, looking, relocking, msg_q_send, send_look, send_finish,
}
use cross_compile.Msgq.Receive
use cross_compile.Msgq.Receive.{msg_q_receive}
use cross_compile.Tests.Sample.{full_queue, with_queue}

abbrev noon : Timeval
noon = record { tv_sec = 43200; tv_usec = 0 }

abbrev waiter : SendAt → Option Sending
waiter (looking c) = some c
waiter (relocking c) = some c
waiter _ = none

-- Task 4 waits at the full queue, and task 5 takes a message. Task 4 is let through, but before it
-- has queue_lock task 6 sends, and task 8 sends an urgent message.
overflow_run : Option ℕ
overflow_run = do
  (w1, at) ← msg_q_send (with_queue full_queue) 4 noon 7 (some (1 ∷ [])) 1 wait_forever false
  c ← waiter at
  (w2, taken) ← msg_q_receive w1 5 noon 7 none 3 no_wait
  c' ← waiter (send_look w2 4 c)
  (w3, first) ← msg_q_send w2 6 noon 7 (some (2 ∷ [])) 1 no_wait false
  (w4, second) ← msg_q_send w3 8 noon 7 (some (3 ∷ [])) 1 no_wait true
  (w5, r) ← send_finish w4 4 c'
  some (w5.qcb 7).msg_count

overflow_run-end : overflow_run ≡ some 4
unfolding overflow_run msg_q_send mqueue_find_lock Send.wait_to_send Susp.link_susp_task Susp.until
    msg_q_receive Receive.timeout_for Receive.join_readers Receive.receive_look
    Receive.receive_finish Susp.unlink_susp_task Susp.signal_for_my_task Ring.fetch_msg_from
    Ring.copy_out Ring.copy_bytes Ring.clear_first Ring.alert_space send_look send_finish Send.post
    Ring.send_msg_to Ring.urgent_msg_to
overflow_run-end = refl
