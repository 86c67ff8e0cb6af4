-- ===== src/Msgq/Handoff.antt =====
-- A message on its way from msgQSend of one task to a waiting msgQReceive of another.
pub mod Space
use cross_compile.Base.{
  ℕ, zero, suc, ◌<◌, ◌≤◌, ◌≡◌, refl, ap, ◌∙◌, sym, Bool, true, false, some, List, [], ◌∷◌, arith,
  length, take, Option-cases, inl, inr,
}
use cross_compile.Errno.{ok, RetCode, Wait}
use cross_compile.Clock.{Timeval}
use cross_compile.Susp.{signal_for_my_task}
use cross_compile.Msgq.Types.{Queues, set_qcb, is_killd}
use cross_compile.Msgq.Ring.Valid.{IsValid, contents, length-contents, contents-empty}
use cross_compile.Msgq.Registry.{mqueue_find_lock}
use cross_compile.Msgq.Send
use cross_compile.Msgq.Send.{msg_q_send, no_length}
use cross_compile.Msgq.Send.Cases.{inserted, msg_q_send-Accepts}
use cross_compile.Msgq.Receive
use cross_compile.Msgq.Receive.{Receiving, Received, ReceiveAt, receive_look, receive_woken}
use cross_compile.Msgq.Receive.Cases.{receive_look_takes, left_readers}
use cross_compile.Msgq.Solo.Steps.{set_qcb_self}

length-take_all : (n : ℕ) (xs : List ℕ) → n ≤ length xs → length (take n xs) ≡ n
length-take_all zero xs h = refl
length-take_all (suc n) [] h = absurd (omega arith)
length-take_all (suc n) (x ∷ xs) h = ap suc (length-take_all n xs (omega arith))

-- A list of one message, seen from its ends.
alone :
    (m m' : List ℕ) (ms rest : List (List ℕ)) (urgent : Bool)
    → ms ≡ inserted urgent m []
    → ms ≡ m' ∷ rest
    → (m' ≡ m) × (rest ≡ [])
alone m m' ms rest urgent e e' = ground arith

length-inserted : (urgent : Bool) (m : List ℕ) → length (inserted urgent m []) ≡ 1
length-inserted true m = omega arith
length-inserted false m = omega arith

abbrev pub handed : ℕ → List ℕ → ReceiveAt
handed n out = Receive.returned (record { msglen = ok n; buffer = some out })

module _ (w : Queues) (r : ℕ) (buf : List ℕ) where
  -- The signalled reader of a queue that holds one message gets it.
  look-one :
      (c : Receiving) (m : List ℕ) (n : ℕ) (urgent : Bool)
      → c.msgbuf ≡ some buf
      → is_killd (w.qcb c.queue).send_type ≡ false
      → signal_for_my_task w.tasks (w.qcb c.queue).first_susp (w.qcb c.queue).order r ≡ true
      → IsValid (w.qcb c.queue)
      → 0 < (w.qcb c.queue).msg_len
      → (w.qcb c.queue).msg_len ≤ length buf
      → length m ≡ n
      → contents (w.qcb c.queue) ≡ inserted urgent m []
      → (w' : Queues) × (out : List ℕ) × (receive_look w r c ≡ some (w', handed n out))
        × (take n out ≡ m)
        × (contents (w'.qcb c.queue) ≡ [])
  look-one c m n urgent em alive mine v bytes big len one =
      let (q', out, k, e, v', ms, kept, same, le, _, whole) =
        receive_look_takes w r c buf em alive mine v bytes big (
          omega
            (arith, length-contents (w.qcb c.queue), ap length one, length-inserted urgent m)) in
      let (got, none_left) =
        alone m (take k out) (contents (w.qcb c.queue)) (contents q') urgent one ms in
      let k_is : k ≡ n = sym (length-take_all k out (omega (arith, whole))) ∙ ap length got ∙ len in
      (
        set_qcb (left_readers w r c.queue) c.queue q',
        out,
        e ∙ ap (λ j. some (set_qcb (left_readers w r c.queue) c.queue q', handed j out)) k_is,
        ap (λ j. take j out) (sym k_is) ∙ got,
        ap (λ q. contents q) (set_qcb_self (left_readers w r c.queue) c.queue q') ∙ none_left,
      )

  -- Whatever the wait that it was in has returned.
  woken-one :
      (c : Receiving) (rc : RetCode) (m : List ℕ) (n : ℕ) (urgent : Bool)
      → c.msgbuf ≡ some buf
      → is_killd (w.qcb c.queue).send_type ≡ false
      → signal_for_my_task w.tasks (w.qcb c.queue).first_susp (w.qcb c.queue).order r ≡ true
      → IsValid (w.qcb c.queue)
      → 0 < (w.qcb c.queue).msg_len
      → (w.qcb c.queue).msg_len ≤ length buf
      → length m ≡ n
      → contents (w.qcb c.queue) ≡ inserted urgent m []
      → (w' : Queues) × (out : List ℕ) × (receive_woken w r rc c ≡ some (w', handed n out))
        × (take n out ≡ m)
        × (contents (w'.qcb c.queue) ≡ [])
  unfolding receive_woken
  woken-one c rc m n urgent em alive mine v bytes big len one = elim (Option-cases c.timeout) [
    | inl h ↦ rw h (look-one c m n urgent em alive mine v bytes big len one)
    | inr (t, h) ↦
        rw h (look-one (record c { retcode = rc }) m n urgent em alive mine v bytes big len one)
  ]

-- A message reaches a task that waits. The queue exists, is valid, holds nothing, and has room for
-- messages of some bytes; `reader` waits for it, the one that signal_for_my_task chooses, with a
-- buffer that is long enough. A task sends a message that is not too long: it returns OK at once,
-- having signalled the readers. When the reader wakes it returns the length of that message, with its
-- bytes at the start of the buffer, and the queue is empty again.
pub handed_over :
    (w : Queues) (sender reader : ℕ) (now : Timeval) (msg : List ℕ) (n : ℕ) (wait : Wait)
    (urgent : Bool) (rc : RetCode) (c : Receiving) (buf : List ℕ)
    → mqueue_find_lock w c.queue ≡ true
    → IsValid (w.qcb c.queue)
    → 0 < (w.qcb c.queue).msg_len
    → 0 < (w.qcb c.queue).msgs_per_queue
    → (w.qcb c.queue).msg_count ≡ 0
    → signal_for_my_task w.tasks (w.qcb c.queue).first_susp (w.qcb c.queue).order reader ≡ true
    → c.msgbuf ≡ some buf
    → (w.qcb c.queue).msg_len ≤ length buf
    → n ≤ (w.qcb c.queue).msg_len
    → n ≤ length msg
    → (w1 w2 : Queues) × (out : List ℕ) × (msg_q_send w sender now c.queue (some msg) n wait urgent
        ≡ some (w1, Send.returned (ok tt)))
      × ((w.qcb c.queue).queue_send < (w1.qcb c.queue).queue_send)
      × (receive_woken w1 reader rc c ≡ some (w2, handed n out))
      × (take n out ≡ take n msg)
      × (contents (w2.qcb c.queue) ≡ [])
handed_over w sender reader now msg n wait urgent rc c buf found v bytes room empty mine em big
      small avail =
    let (q', e, v', ms, kept, alive, told) =
      msg_q_send-Accepts w sender now c.queue msg n wait urgent found v small avail (ground arith)
        (ground arith) in
    let w1 : Queues = set_qcb w c.queue q' in
    let at : w1.qcb c.queue ≡ q' = set_qcb_self w c.queue q' in
    let (w2, out, got, bytes_are, left) =
      woken-one w1 reader buf c rc (take n msg) n urgent em (rw at alive)
        (rw (at, kept.readers, kept.pend_order) mine) (rw at v') (rw (at, kept.size) bytes)
        (rw (at, kept.size) big) (length-take_all n msg avail)
        (rw at (ms ∙ ap (inserted urgent (take n msg)) (contents-empty (w.qcb c.queue) empty))) in
    (w1, w2, out, e, rw at told, got, bytes_are, left)
