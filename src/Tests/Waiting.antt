-- ===== src/Tests/Waiting.antt =====
-- Calls on message queues that wait, at concrete inputs.
use cross_compile.Base.{◌≡◌, refl, true, false, none, some, [], ◌∷◌, arith}
use cross_compile.Errno.{not_enough_memory, Result, ok, error, awake}
use cross_compile.Clock.{Timeval}
use cross_compile.Susp.{signal_for_my_task}
use cross_compile.Msgq.Types.{SendType, Mqueue, Queues}
use cross_compile.Msgq.Ring
use cross_compile.Msgq.Ring.Valid.{IsValid, contents}
use cross_compile.Msgq.Registry.{msg_q_create}
use cross_compile.Msgq.Create.{msg_q_create_lem}
use cross_compile.Msgq.Send
use cross_compile.Msgq.Send.{
  Sending, relocking, has_space, send_look, send_finish, msg_q_send, notify_if_delete_complete,
}
use cross_compile.Msgq.Send.Waiting.{send_finish_overflows}
use cross_compile.Msgq.Solo.Steps.{AtRest}
use cross_compile.Tests.Sample.{full_queue, half_queue, half_queue-IsValid, with_queue}

abbrev noon : Timeval
noon = record { tv_sec = 43200; tv_usec = 0 }

abbrev sending : Sending
sending = record {
  queue = 7;
  msg = some (5 ∷ 6 ∷ []);
  msglen = 2;
  urgent = false;
  timeout = none;
  retcode = awake;
}

-- Task 4 waits to send to the queue.
abbrev with_writer : Mqueue → Queues
with_writer q = with_queue (record q { first_write_susp = 4 ∷ [] })

signal_for_writer : signal_for_my_task (with_writer half_queue).tasks (4 ∷ []) 0 4 ≡ true
unfolding signal_for_my_task
signal_for_writer = refl

look_through : send_look (with_writer half_queue) 4 sending ≡ relocking sending
unfolding send_look signal_for_my_task
look_through = refl

half-IsValid : IsValid (record half_queue { first_write_susp = 4 ∷ [] })
half-IsValid = record {
  elements = refl;
  room = half_queue-IsValid.room;
  fits = half_queue-IsValid.fits;
  head_in = omega arith;
  count_in = omega arith;
  tail_at = refl;
}

abbrev killed : Queues
killed = with_writer (record half_queue { send_type = SendType.killd })

-- The extra element is in use as well: an urgent message took it.
abbrev crowded : Queues
crowded = with_writer (record full_queue { msg_count = 3; queue_tail = 2 })

crowded_after : Queues × Result (Unit {0})
crowded_after = elim (send_finish crowded 4 sending) [ some r ↦ r | none ↦ (crowded, ok tt) ]

crowded_end : send_finish crowded 4 sending ≡ some crowded_after
unfolding crowded_after send_finish Send.post Ring.send_msg_to
crowded_end = refl

send_finish_overflows_example :
    (crowded_after.1 ≡ ok tt)
    × ((crowded_after.0.qcb 7).msg_count ≡ 4)
    × ¬ IsValid (crowded_after.0.qcb 7)
send_finish_overflows_example = send_finish_overflows crowded 4 sending refl refl refl crowded_end

msg_q_create_lem_example :
    (w' : Queues) × (msg_q_create crowded (some 8) true 5 16 1 ≡ some (w', ok 8))
    × AtRest 5 16 w' 8
    × (contents (w'.qcb 8) ≡ [])
    × (w'.mqueue_list ≡ 7 ∷ 8 ∷ [])
    × (msg_q_create crowded (some 8) false 5 16 1 ≡ some (crowded, error not_enough_memory))
    × (msg_q_create crowded none true 5 16 1 ≡ some (crowded, error not_enough_memory))
msg_q_create_lem_example = msg_q_create_lem crowded 8 5 16 1 (omega arith)
