-- ===== src/Msgq/Flow/Receives.antt =====
-- Every step of msgQReceive and of msgQDelete takes one message or leaves the messages alone.
use cross_compile.Base.{
  ℕ, ◌<◌, ◌≤◌, ◌≡◌, ◌⊎◌, refl, ap, ◌∙◌, sym, true, Option, some, List, arith, length, inl, inr,
  Bool-cases, Option-cases, ltb, not,
}
use cross_compile.Errno.{RetCode, etimedout, Wait}
use cross_compile.Clock.{Timeval}
use cross_compile.Susp.{Tasks}
use cross_compile.Msgq.Types.{Mqueue, Queues, is_killd}
use cross_compile.Msgq.Ring.{fetch_msg_from}
use cross_compile.Msgq.Registry.{mqueue_find_lock}
use cross_compile.Msgq.Send.{Verdict, over, nap, keep, notify_if_delete_complete}
use cross_compile.Msgq.Receive.{
  Receiving, ReceiveAt, msg_round, waiting_on_q_msg, receive_finish, receive_continue, receive_look,
  receive_after_nap, receive_woken, join_readers, timeout_for, msg_q_receive,
}
use cross_compile.Msgq.Receive.Cases.{without_reader, left_readers}
use cross_compile.Msgq.Delete.{msg_q_delete, delete_woken}
use cross_compile.Msgq.Flow.{quiet, got_by}
use cross_compile.Msgq.Flow.Moves.{Moved, idle, fetches}
use cross_compile.Msgq.Flow.Makes.{Makes, either, retcode_either, set-Moved, Makes-from_same}

receive_finish-Makes :
    (w : Queues) (me : ℕ) (c : Receiving) (buf : List ℕ)
    → c.msgbuf ≡ some buf
    → (w.qcb c.queue).msg_len ≤ length buf
    → (is_killd (w.qcb c.queue).send_type ≡ true)
      ⊎ ((c.retcode ≡ etimedout) ⊎ (0 < (w.qcb c.queue).msg_count))
    → Makes c.queue w got_by (receive_finish w me c)
unfolding receive_finish notify_if_delete_complete
receive_finish-Makes w me c buf em big why =
    either M (is_killd (w.qcb c.queue).send_type) (λ _. idle (ground arith))
      (λ alive.
        retcode_either M c.retcode (λ _. idle (ground arith))
          (λ live. elim (Option-cases (fetch_msg_from (without_reader w me c.queue) c.msgbuf)) [
            | inl h ↦ rw h tt
            | inr ((q', out, n), h) ↦ rw h (
                set-Moved c.queue w (left_readers w me c.queue) q' _ (
                  fetches (without_reader w me c.queue) buf out n refl
                    (ground (arith, why, alive, live)) big
                    (ap (λ m. fetch_msg_from (without_reader w me c.queue) m) (sym em) ∙ h)))
          ]))
  where
    M : Option (Queues × ReceiveAt) → Type 0
    M = Makes c.queue w got_by

receive_continue-Makes :
    (w : Queues) (me : ℕ) (c : Receiving) (buf : List ℕ) (found : Verdict)
    → c.msgbuf ≡ some buf
    → (w.qcb c.queue).msg_len ≤ length buf
    → (found ≡ over → (is_killd (w.qcb c.queue).send_type ≡ true) ⊎ (0 < (w.qcb c.queue).msg_count))
    → Makes c.queue w got_by (receive_continue w me c found)
unfolding receive_continue
receive_continue-Makes w me c buf over em big why =
    receive_finish-Makes w me _ buf em big (elim (why refl) [ inl k ↦ inl k | inr h ↦ inr (inr h) ])
receive_continue-Makes w me c buf nap em big why = idle refl
receive_continue-Makes w me c buf keep em big why =
    retcode_either (Makes c.queue w got_by) c.retcode
      (λ late. receive_finish-Makes w me c buf em big (inr (inl late))) (λ _. idle refl)

waiting-over :
    (ts : Tasks) (q : Mqueue) (me : ℕ)
    → waiting_on_q_msg ts q me ≡ over
    → (is_killd q.send_type ≡ true) ⊎ (0 < q.msg_count)
unfolding waiting_on_q_msg msg_round
waiting-over ts q me h = elim (Bool-cases (is_killd q.send_type)) [
  | inl k ↦ inl k
  | inr alive ↦ inr (ground arith)
]

receive_look-Makes :
    (w : Queues) (me : ℕ) (c : Receiving) (buf : List ℕ)
    → c.msgbuf ≡ some buf
    → (w.qcb c.queue).msg_len ≤ length buf
    → Makes c.queue w got_by (receive_look w me c)
unfolding receive_look
receive_look-Makes w me c buf em big =
    receive_continue-Makes w me c buf _ em big (waiting-over (w.tasks) (w.qcb c.queue) me)

pub receive_after_nap-Makes :
    (w : Queues) (me : ℕ) (now : Timeval) (c : Receiving) (buf : List ℕ)
    → c.msgbuf ≡ some buf
    → (w.qcb c.queue).msg_len ≤ length buf
    → Makes c.queue w got_by (receive_after_nap w me now c)
unfolding receive_after_nap msg_round
receive_after_nap-Makes w me now c buf em big =
    receive_continue-Makes w me c buf _ em big (λ h. inr (ground arith))

pub receive_woken-Makes :
    (w : Queues) (me : ℕ) (rc : RetCode) (c : Receiving) (buf : List ℕ)
    → c.msgbuf ≡ some buf
    → (w.qcb c.queue).msg_len ≤ length buf
    → Makes c.queue w got_by (receive_woken w me rc c)
unfolding receive_woken
receive_woken-Makes w me rc c buf em big = elim (Option-cases c.timeout) [
  | inl h ↦ rw h (receive_look-Makes w me c buf em big)
  | inr (t, h) ↦ rw h (receive_look-Makes w me (record c { retcode = rc }) buf em big)
]

pub msg_q_receive-Makes :
    (w : Queues) (me : ℕ) (now : Timeval) (k : ℕ) (buf : List ℕ) (n : ℕ) (wait : Wait)
    → n ≤ length buf
    → Makes k w got_by (msg_q_receive w me now k (some buf) n wait)
unfolding msg_q_receive join_readers
msg_q_receive-Makes w me now k buf n wait avail =
    either M (not (mqueue_find_lock w k)) (λ _. idle refl)
      (λ _.
        either M (ltb n (w.qcb k).msg_len) (λ _. idle refl)
          (λ big. elim (Option-cases (timeout_for wait now)) [
            | inl h ↦ rw h tt
            | inr (t, h) ↦ rw h (
                Makes-from_same k w (join_readers w me k) got_by _ (ground arith)
                  (receive_look-Makes (join_readers w me k) me _ buf refl (ground arith)))
          ]))
  where
    M : Option (Queues × ReceiveAt) → Type 0
    M = Makes k w got_by

pub msg_q_delete-Moved : (w : Queues) (k : ℕ) → Moved (w.qcb k) ((msg_q_delete w k).0.qcb k) quiet
unfolding msg_q_delete
msg_q_delete-Moved w k = idle (ground arith)

pub delete_woken-Moved : (w : Queues) (k : ℕ) → Moved (w.qcb k) ((delete_woken w k).0.qcb k) quiet
unfolding delete_woken
delete_woken-Moved w k = idle (ground arith)
