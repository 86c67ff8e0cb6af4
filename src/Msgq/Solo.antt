-- ===== src/Msgq/Solo.antt =====
-- lib/lmsgQLib.c as one task sees it that never waits: a queue with NO_WAIT calls only, against a
-- bounded double-ended list of messages.
pub mod Steps
pub mod Put
pub mod Get
pub mod Refine
use cross_compile.Base.{
  ℕ, ◌+◌, Bool, true, false, Option, none, some, List, [], ◌∷◌, ltb, if◌then◌else◌, length, take,
  replicate,
}
use cross_compile.Errno.{
  Errno, invalid_msg_length, obj_unavailable, Result, ok, error, Wait, no_wait, etimedout,
}
use cross_compile.Clock.{Timeval}
use cross_compile.Msgq.Types.{Queues}
use cross_compile.Msgq.Ring.{◌>>=◌}
use cross_compile.Msgq.Send
use cross_compile.Msgq.Send.{SendAt, msg_q_send}
use cross_compile.Msgq.Send.Cases.{inserted}
use cross_compile.Msgq.Receive
use cross_compile.Msgq.Receive.{Received, ReceiveAt, receive_woken, msg_q_receive}

pub data Op : Type 0 where
  put : (msg : List ℕ) (urgent : Bool) → Op
  get : (buflen : ℕ) → Op

pub data Reply : Type 0 where
  sent : Reply
  refused : Errno → Reply
  message : List ℕ → Reply
  blocked : Reply

abbrev pub send_reply : SendAt → Reply
send_reply (SendAt.returned (ok _)) = sent
send_reply (SendAt.returned (error e)) = refused e
send_reply _ = blocked

abbrev pub message_reply : Result ℕ → Option (List ℕ) → Reply
message_reply (error e) buffer = refused e
message_reply (ok n) none = message []
message_reply (ok n) (some out) = message (take n out)

abbrev pub receive_reply : ReceiveAt → Reply
receive_reply (ReceiveAt.returned r) = message_reply r.msglen r.buffer
receive_reply _ = blocked

-- A wait with an immediate timeout, of which no one else wakes the task, times out.
abbrev pub time_out : ℕ → Queues × ReceiveAt → Option (Queues × ReceiveAt)
time_out me (w, ReceiveAt.asleep c) = receive_woken w me etimedout c
time_out me (w, at) = some (w, at)

-- The calls of one task, in order, with what each returns. The messages go in and out by buffers of
-- their own.
pub call : Queues → ℕ → Timeval → ℕ → Op → Option (Queues × Reply)
call w me now queue (put msg urgent) = do
  (w', at) ← msg_q_send w me now queue (some msg) (length msg) no_wait urgent
  some (w', send_reply at)
call w me now queue (get buflen) = do
  first ← msg_q_receive w me now queue (some (replicate buflen 0)) buflen no_wait
  (w', at) ← time_out me first
  some (w', receive_reply at)

pub run : Queues → ℕ → Timeval → ℕ → List Op → Option (List Reply)
run w me now queue [] = some []
run w me now queue (op ∷ ops) = do
  (w', reply) ← call w me now queue op
  rest ← run w' me now queue ops
  some (reply ∷ rest)

-- The specification: at most `limit` messages, and one more if it is urgent, of at most `size` bytes.
module _ (limit size : ℕ) where
  unfoldable pub spec_call : List (List ℕ) → Op → List (List ℕ) × Reply
  spec_call ms (put msg urgent) =
      if ltb size (length msg)
      then (ms, refused invalid_msg_length)
      else if ltb limit (length ms + (if urgent then 0 else 1))
      then (ms, refused obj_unavailable)
      else (inserted urgent msg ms, sent)
  spec_call [] (get buflen) =
      ([], refused (if ltb buflen size then invalid_msg_length else obj_unavailable))
  spec_call (m ∷ ms) (get buflen) =
      if ltb buflen size then (m ∷ ms, refused invalid_msg_length) else (ms, message m)

  unfoldable pub spec_run : List (List ℕ) → List Op → List Reply
  spec_run ms [] = []
  spec_run ms (op ∷ ops) = let (ms', reply) = spec_call ms op in reply ∷ spec_run ms' ops
