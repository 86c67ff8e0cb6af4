-- ===== src/Msgq/Flow/Sends.antt =====
-- Every step of msgQSend posts a message or leaves the messages alone.
use cross_compile.Base.{
  ℕ, ◌≤◌, ◌≡◌, refl, ap, ◌∙◌, sym, Bool, true, false, Option, none, some, List, arith, length, take,
  inl, inr, Option-cases, ltb, leb, ◌==◌, not,
}
use cross_compile.Errno.{Result, ok, Wait, no_wait, wait_forever, ticks}
use cross_compile.Clock.{Timeval, deadline}
use cross_compile.Msgq.Types.{Mqueue, Queues, set_qcb, is_killd}
use cross_compile.Msgq.Ring.{◌>>=◌}
use cross_compile.Msgq.Registry.{mqueue_find_lock}
use cross_compile.Msgq.Send
use cross_compile.Msgq.Send.{
  Sending, SendAt, post, wait_to_send, send_finish, msg_q_send, no_length,
  notify_if_delete_complete,
}
use cross_compile.Msgq.Send.Waiting.{without_writer, left_writers}
use cross_compile.Msgq.Flow.{sent, core, sent_by, posted_by}
use cross_compile.Msgq.Flow.Moves.{Moved, idle, posts, overfills}
use cross_compile.Msgq.Flow.Makes.{Makes, either, retcode_either, set-Moved}

module _ (k : ℕ) (w : Queues) where
  sent-Makes :
      (msg : List ℕ) (n : ℕ) (u : Bool) (o : Option Mqueue)
      → ((q' : Mqueue) → o ≡ some q' → Moved (w.qcb k) q' (sent u (take n msg)))
      → Makes k w (sent_by u (take n msg)) (o >>= λ p. some (set_qcb w k p, Send.returned (ok tt)))
  sent-Makes msg n u none f = tt
  sent-Makes msg n u (some p) f = set-Moved k w w p _ (f p refl)

  wait_to_send-Makes :
      (me : ℕ) (now : Timeval) (c : Sending) (wait : Wait) (u : Bool) (m : List ℕ)
      → c.queue ≡ k
      → Makes k w (sent_by u m) (wait_to_send w me now c wait)
  unfolding wait_to_send
  wait_to_send-Makes me now c no_wait u m e = idle refl
  wait_to_send-Makes me now c wait_forever u m e = idle (ground arith)
  wait_to_send-Makes me now c (ticks n) u m e = elim (Option-cases (deadline n now)) [
    | inl h ↦ rw h tt
    | inr (t, h) ↦ rw h (idle (ground arith))
  ]

  pub msg_q_send-Makes :
      (me : ℕ) (now : Timeval) (msg : List ℕ) (n : ℕ) (wait : Wait) (u : Bool)
      → n ≤ length msg
      → Makes k w (sent_by u (take n msg)) (msg_q_send w me now k (some msg) n wait u)
  unfolding msg_q_send post
  msg_q_send-Makes me now msg n wait u avail =
      either M (not (mqueue_find_lock w k)) (λ _. idle refl)
        (λ _.
          either M (ltb (w.qcb k).msg_len n) (λ _. idle refl)
            (λ fits.
              either M (ltb (w.qcb k).msgs_per_queue (w.qcb k).msg_count)
                (λ _. wait_to_send-Makes me now _ wait u (take n msg) refl)
                (λ room.
                  either M ((w.qcb k).msg_count == (w.qcb k).msgs_per_queue)
                    (λ limit.
                      either M (no_length (w.qcb k))
                        (λ len. sent-Makes msg n u _ (λ q' e.
                          posts (w.qcb k) msg n u false refl (ground arith) (ground arith) avail
                            (inr (ground (arith, len))) e))
                        (λ _.
                          either M u
                            (λ urg. sent-Makes msg n u _ (λ q' e.
                              posts (w.qcb k) msg n u true refl (ground arith) (ground arith) avail
                                (inl (sym urg)) e))
                            (λ _. wait_to_send-Makes me now _ wait u (take n msg) refl)))
                    (λ _. sent-Makes msg n u _ (λ q' e.
                      posts (w.qcb k) msg n u u refl (ground arith) (ground arith) avail (inl refl)
                        e)))))
    where
      M : Option (Queues × SendAt) → Type 0
      M = Makes k w (sent_by u (take n msg))

posted-Moved :
    (q p q' : Mqueue) (msg : List ℕ) (n : ℕ) (u : Bool)
    → core p ≡ core q
    → n ≤ length msg
    → n ≤ p.msg_len
    → post p (some msg) n u ≡ some q'
    → Moved q q' (posted_by q u (take n msg) (ok tt))
posted-Moved q p q' msg n u same avail small e =
    either (λ v. Moved q q' v) (leb q.msg_count q.msgs_per_queue)
      (λ room. posts p msg n u u same (ground (arith, count, limit)) small avail (inl refl) e)
      (λ over. overfills p msg n u same (ground (arith, count, limit)) small avail e)
  where
    count : p.msg_count ≡ q.msg_count
    count = ap (λ c. c.msg_count) same

    limit : p.msgs_per_queue ≡ q.msgs_per_queue
    limit = ap (λ c. c.msgs_per_queue) same

pub send_finish-Makes :
    (w : Queues) (me : ℕ) (c : Sending) (msg : List ℕ)
    → c.msg ≡ some msg
    → c.msglen ≤ length msg
    → c.msglen ≤ (w.qcb c.queue).msg_len
    → Makes c.queue w (posted_by (w.qcb c.queue) c.urgent (take c.msglen msg)) (send_finish w me c)
unfolding send_finish notify_if_delete_complete
send_finish-Makes w me c msg em avail small =
    either M (is_killd (w.qcb c.queue).send_type) (λ _. idle (ground arith))
      (λ _.
        retcode_either M c.retcode (λ _. idle (ground arith))
          (λ _. elim (Option-cases (post (without_writer w me c.queue) c.msg c.msglen c.urgent)) [
            | inl h ↦ rw h tt
            | inr (q', h) ↦ rw h (
                set-Moved c.queue w (left_writers w me c.queue) q' _ (
                  posted-Moved (w.qcb c.queue) _ q' msg c.msglen c.urgent refl avail small (
                    ap (λ m. post (without_writer w me c.queue) m c.msglen c.urgent) (sym em) ∙ h)))
          ]))
  where
    M : Option (Queues × Result (Unit {0})) → Type 0
    M = Makes c.queue w (posted_by (w.qcb c.queue) c.urgent (take c.msglen msg))
