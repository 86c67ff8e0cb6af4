-- ===== src/Msgq/Delete/Drain.antt =====
-- The tasks that wait for a queue leave it once it is being deleted, and the deletion comes to its end.
use cross_compile.Base.{
  ℕ, ◌+◌, ◌≡◌, ◌≢◌, true, Option, none, some, List, [], ◌∷◌, elem, erase, length, replicate,
  if◌then◌else◌, ◌&&◌,
}
use cross_compile.Errno.{Result, ok, error, Errno, obj_deleted, RetCode}
use cross_compile.Susp
use cross_compile.Msgq.Types.{Queues, set_qcb, is_killd, is_null}
use cross_compile.Msgq.Send.{
  Sending, SendAt, looking, relocking, send_woken, send_look, send_finish,
  notify_if_delete_complete,
}
use cross_compile.Msgq.Receive
use cross_compile.Msgq.Receive.{Receiving, ReceiveAt, receive_woken}
use cross_compile.Msgq.Receive.Cases.{without_reader, left_readers}
use cross_compile.Msgq.Send.Waiting.{without_writer, left_writers}
use cross_compile.Msgq.Ring.{◌>>=◌}
use cross_compile.Msgq.Delete.{returned}

-- A task that sleeps in the wait of msgQReceive on queue_send or of msgQSend on queue_space, from which
-- the broadcast of msgQDelete wakes it, and what the wait returns. (A task in taskDelay is not woken,
-- and is not one of these.)
pub data Leaver : Type 0 where
  reader : ℕ → RetCode → Receiving → Leaver
  writer : ℕ → RetCode → Sending → Leaver

abbrev pub error_of : {A : Type 0} → Result A → Option Errno
error_of (ok a) = none
error_of (error e) = some e

abbrev pub receive_error : ReceiveAt → Option Errno
receive_error (Receive.returned r) = error_of r.msglen
receive_error at = none

-- The writer takes queue_lock again if its loop is over.
abbrev pub relock : Queues → ℕ → SendAt → Option (Queues × Result (Unit {0}))
relock w me (relocking c) = send_finish w me c
relock w me at = none

-- The writer's look at the queue, when its wait is over.
abbrev pub look_again : Queues → ℕ → SendAt → SendAt
look_again w me (looking c) = send_look w me c
look_again w me at = at

-- The task wakes: its next round, to the end of its call, with the errno that it leaves.
unfoldable pub leave : Queues → Leaver → Option (Queues × Option Errno)
leave w (reader me rc c) = do (w', at) ← receive_woken w me rc c; some (w', receive_error at)
leave w (writer me rc c) = do
  (w', r) ← relock w me (look_again w me (send_woken rc c))
  some (w', error_of r)

unfoldable pub leave_all : Queues → List Leaver → Option (Queues × List (Option Errno))
unfolding leave
leave_all w [] = some (w, [])
leave_all w (l ∷ ls) = do (w', e) ← leave w l; (w'', es) ← leave_all w' ls; some (w'', e ∷ es)

-- The tasks of two lists, all asleep until queue `k` can be read or be written, in any order.
pub data AnyOrder (k : ℕ) : List Leaver → List ℕ → List ℕ → Type 0 where
  all_left : AnyOrder k [] [] []
  next_reader :
      {ls : List Leaver} {rs ws : List ℕ} (me : ℕ) (rc : RetCode) (c : Receiving)
      → me ≢ 0
      → c.queue ≡ k
      → elem me rs ≡ true
      → AnyOrder k ls (erase me rs) ws
      → AnyOrder k (reader me rc c ∷ ls) rs ws
  next_writer :
      {ls : List Leaver} {rs ws : List ℕ} (me : ℕ) (rc : RetCode) (c : Sending)
      → me ≢ 0
      → c.queue ≡ k
      → elem me ws ≡ true
      → AnyOrder k ls rs (erase me ws)
      → AnyOrder k (writer me rc c ∷ ls) rs ws

-- Queue `k` is marked as killed, and these tasks wait for it.
pub record Draining (k : ℕ) (rs ws : List ℕ) (w : Queues) : Type 0 where
  pub dead : is_killd (w.qcb k).send_type ≡ true
  pub readers : (w.qcb k).first_susp ≡ rs
  pub writers : (w.qcb k).first_write_susp ≡ ws

-- What is left once a task has gone.
abbrev Left : ℕ → List ℕ → List ℕ → Queues → Queues → Type 0
Left k rs ws w w' =
    Draining k rs ws w'
    × ((w'.qcb k).qdlet_cmplt ≡ (w.qcb k).qdlet_cmplt + (if is_null rs && is_null ws then 1 else 0))
    × (w'.mqueue_list ≡ w.mqueue_list)

module _ (w : Queues) (me : ℕ) (rs ws : List ℕ) (task : me ≢ 0) where
  read_by : Receiving → Queues
  read_by c =
      set_qcb (left_readers w me c.queue) c.queue
        (notify_if_delete_complete (without_reader w me c.queue))

  written_by : Sending → Queues
  written_by c =
      set_qcb (left_writers w me c.queue) c.queue
        (notify_if_delete_complete (without_writer w me c.queue))

abbrev no_leavers : List Leaver → ℕ
no_leavers [] = 1
no_leavers (l ∷ ls) = 0

-- All have left.
abbrev Gone : ℕ → Queues → List Leaver → Type 0
Gone k w ls =
    (w' : Queues) × (leave_all w ls ≡ some (w', replicate (length ls) (some obj_deleted)))
    × Draining k [] [] w'
    × ((w'.qcb k).qdlet_cmplt + no_leavers ls ≡ (w.qcb k).qdlet_cmplt + 1)
    × (w'.mqueue_list ≡ w.mqueue_list)
