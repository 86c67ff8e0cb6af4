-- ===== src/Msgq/Flow/Gives.antt =====
-- The calls on a queue that is in bounds leave nothing undefined.
use cross_compile.Base.{
  ℕ, ◌<◌, ◌≤◌, ◌≡◌, refl, ap, Bool, true, false, Option, none, some, List, arith, length, not, ltb,
  ◌==◌, Option-cases, inl, inr,
}
use cross_compile.Errno.{ok, Result, Wait, no_wait, wait_forever, ticks, RetCode}
use cross_compile.Clock.{Timeval, deadline}
use cross_compile.Msgq.Types.{Queues, is_killd, set_qcb}
use cross_compile.Msgq.Ring.{◌>>=◌}
use cross_compile.Msgq.Registry.{mqueue_find_lock}
use cross_compile.Msgq.Send
use cross_compile.Msgq.Send.{
  Sending, SendAt, no_length, msg_q_send, send_finish, wait_to_send, post, Verdict, over, nap, keep,
}
use cross_compile.Msgq.Send.Waiting.{without_writer}
use cross_compile.Msgq.Receive.{
  Receiving, ReceiveAt, msg_q_receive, receive_woken, receive_after_nap, receive_look,
  receive_continue, receive_finish, join_readers, timeout_for,
}
use cross_compile.Msgq.Receive.Cases.{without_reader}
use cross_compile.Msgq.Flow.{core}
use cross_compile.Msgq.Flow.Makes.{either, retcode_either}
use cross_compile.Msgq.Flow.Bounds.{Bounded, core-Bounded, post-InBounds, fetch-InBounds}

abbrev pub gives : {A : Type 0} → Option A → Bool
gives none = false
gives (some a) = true

abbrev pub Gives : (A : Type 0) → Option A → Type 0
Gives A o = gives o ≡ true

-- The wait is short enough for a deadline in an int.
abbrev pub IsShort : Wait → Type 0
IsShort (ticks n) = n < 214749
IsShort wait = Unit

gives-wait_to_send :
    (w : Queues) (me : ℕ) (now : Timeval) (c : Sending) (wait : Wait)
    → IsShort wait
    → gives (wait_to_send w me now c wait) ≡ true
unfolding wait_to_send deadline
gives-wait_to_send w me now c no_wait short = refl
gives-wait_to_send w me now c wait_forever short = refl
gives-wait_to_send w me now c (ticks n) short = ground arith

gives-timeout_for :
    (now : Timeval) (wait : Wait) → IsShort wait → gives (timeout_for wait now) ≡ true
unfolding timeout_for deadline
gives-timeout_for now no_wait short = refl
gives-timeout_for now wait_forever short = refl
gives-timeout_for now (ticks n) short = ground arith

module _ (w : Queues) {size : ℕ} (bytes : 0 < size) where
  pub gives-msg_q_send :
      (me : ℕ) (now : Timeval) (k : ℕ) (msg : List ℕ) (n : ℕ) (wait : Wait) (u : Bool)
      → Bounded size (w.qcb k)
      → n ≤ length msg
      → IsShort wait
      → gives (msg_q_send w me now k (some msg) n wait u) ≡ true
  unfolding msg_q_send post
  gives-msg_q_send me now k msg n wait u (v, l) avail short =
      either (Gives (Queues × SendAt)) (not (mqueue_find_lock w k)) (λ _. refl)
        (λ _.
          either (Gives (Queues × SendAt)) (ltb (w.qcb k).msg_len n) (λ _. refl)
            (λ fits.
              either (Gives (Queues × SendAt)) (ltb (w.qcb k).msgs_per_queue (w.qcb k).msg_count)
                (λ _. gives-wait_to_send w me now _ wait short)
                (λ _.
                  either (Gives (Queues × SendAt)) ((w.qcb k).msg_count == (w.qcb k).msgs_per_queue)
                    (λ _.
                      either (Gives (Queues × SendAt)) (no_length (w.qcb k))
                        (λ _. posting false (ground arith))
                        (λ _.
                          either (Gives (Queues × SendAt)) u (λ _. posting true (ground arith))
                            (λ _. gives-wait_to_send w me now _ wait short)))
                    (λ _. posting u (ground arith)))))
    where
      posting :
          (b : Bool)
          → n ≤ (w.qcb k).msg_len
          → gives {A = Queues × SendAt}
              (post (w.qcb k) (some msg) n b >>= λ p. some (set_qcb w k p, Send.returned (ok tt)))
            ≡ true
      posting b small =
          let (q', e, v') = post-InBounds (w.qcb k) msg n b v small avail in
          ap
            (λ o.
              gives {A = Queues × SendAt} (o >>= λ p. some (set_qcb w k p, Send.returned (ok tt))))
            e

  pub gives-send_finish :
      (me : ℕ) (c : Sending) (msg : List ℕ)
      → Bounded size (w.qcb c.queue)
      → c.msglen ≤ size
      → c.msg ≡ some msg
      → c.msglen ≤ length msg
      → gives (send_finish w me c) ≡ true
  unfolding send_finish
  gives-send_finish me c msg (v, l) small em avail =
      let (q', e, v') =
        post-InBounds (without_writer w me c.queue) msg c.msglen c.urgent v (omega (arith, l))
          avail in
      either (Gives (Queues × Result (Unit {0}))) (is_killd (w.qcb c.queue).send_type) (λ _. refl)
        (λ _.
          retcode_either (Gives (Queues × Result (Unit {0}))) c.retcode (λ _. refl)
            (λ _. rw (em, e) refl))

  gives-receive_finish :
      (me : ℕ) (c : Receiving) (buf : List ℕ)
      → Bounded size (w.qcb c.queue)
      → c.msgbuf ≡ some buf
      → size ≤ length buf
      → gives (receive_finish w me c) ≡ true
  unfolding receive_finish
  gives-receive_finish me c buf (v, l) em big =
      let (q', out, n, e, v') =
        fetch-InBounds (without_reader w me c.queue) buf v (omega (arith, l)) (omega (arith, l)) in
      either (Gives (Queues × ReceiveAt)) (is_killd (w.qcb c.queue).send_type) (λ _. refl)
        (λ _.
          retcode_either (Gives (Queues × ReceiveAt)) c.retcode (λ _. refl) (λ _. rw (em, e) refl))

  gives-receive_continue :
      (me : ℕ) (c : Receiving) (buf : List ℕ) (found : Verdict)
      → Bounded size (w.qcb c.queue)
      → c.msgbuf ≡ some buf
      → size ≤ length buf
      → gives (receive_continue w me c found) ≡ true
  unfolding receive_continue
  gives-receive_continue me c buf over b em big = gives-receive_finish me _ buf b em big
  gives-receive_continue me c buf nap b em big = refl
  gives-receive_continue me c buf keep b em big =
      retcode_either (Gives (Queues × ReceiveAt)) c.retcode
        (λ _. gives-receive_finish me c buf b em big) (λ _. refl)

  pub gives-receive_woken :
      (me : ℕ) (rc : RetCode) (c : Receiving) (buf : List ℕ)
      → Bounded size (w.qcb c.queue)
      → c.msgbuf ≡ some buf
      → size ≤ length buf
      → gives (receive_woken w me rc c) ≡ true
  unfolding receive_woken receive_look
  gives-receive_woken me rc c buf b em big = elim (Option-cases c.timeout) [
    | inl h ↦ rw h (gives-receive_continue me c buf _ b em big)
    | inr (t, h) ↦ rw h (gives-receive_continue me (record c { retcode = rc }) buf _ b em big)
  ]

  pub gives-receive_after_nap :
      (me : ℕ) (now : Timeval) (c : Receiving) (buf : List ℕ)
      → Bounded size (w.qcb c.queue)
      → c.msgbuf ≡ some buf
      → size ≤ length buf
      → gives (receive_after_nap w me now c) ≡ true
  unfolding receive_after_nap
  gives-receive_after_nap me now c buf b em big = gives-receive_continue me c buf _ b em big

join_readers-core : (w : Queues) (me k : ℕ) → core ((join_readers w me k).qcb k) ≡ core (w.qcb k)
unfolding join_readers
join_readers-core w me k = ground arith

joined-Bounded :
    {size : ℕ} (w : Queues) (me k : ℕ)
    → Bounded size (w.qcb k)
    → Bounded size ((join_readers w me k).qcb k)
joined-Bounded w me k b =
    core-Bounded ((join_readers w me k).qcb k) (w.qcb k) (join_readers-core w me k) b

module _ (w : Queues) {size : ℕ} (bytes : 0 < size) where
  pub gives-msg_q_receive :
      (me : ℕ) (now : Timeval) (k : ℕ) (buf : List ℕ) (n : ℕ) (wait : Wait)
      → Bounded size (w.qcb k)
      → n ≤ length buf
      → IsShort wait
      → gives (msg_q_receive w me now k (some buf) n wait) ≡ true
  unfolding msg_q_receive receive_look
  gives-msg_q_receive me now k buf n wait b avail short =
      either (Gives (Queues × ReceiveAt)) (not (mqueue_find_lock w k)) (λ _. refl)
        (λ _.
          either (Gives (Queues × ReceiveAt)) (ltb n (w.qcb k).msg_len) (λ _. refl)
            (λ big. elim (Option-cases (timeout_for wait now)) [
              | inl h ↦ absurd (ground (arith, gives-timeout_for now wait short))
              | inr (t, h) ↦ rw h (
                  gives-receive_continue (join_readers w me k) bytes me _ buf _
                    (joined-Bounded w me k b) refl (ground (arith, b.1)))
            ]))
