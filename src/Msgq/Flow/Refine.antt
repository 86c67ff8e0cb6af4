-- ===== src/Msgq/Flow/Refine.antt =====
-- A queue that many tasks use is a list with two ends.
use cross_compile.Base.{
  ℕ, ◌<◌, ◌≤◌, ◌≡◌, length, take, refl, ap, ◌∙◌, sym, true, false, List, [], ◌∷◌, ◌++◌, arith,
}
use mathlib.Core.List.{append_assoc}
use cross_compile.Msgq.Types.{Queues}
use cross_compile.Msgq.Ring.Valid.{contents}
use cross_compile.Msgq.Flow.{
  Event, quiet, sent, overran, got, overruns, QueueStep, sends, finishes, receives, wakes, naps,
  deletes, delete_wakes, elsewhere, Flow, still, flows, sent_by, posted_by, got_by,
}
use cross_compile.Msgq.Flow.Deque.{
  Deque, Deques, ends, follows, rests, puts, takes, any_overruns, any_urgent, is_urgent, sent_ones,
  got_ones,
}
use cross_compile.Msgq.Flow.Moves.{Moved, idle, Sound, Moved-Deque}
use cross_compile.Msgq.Flow.Makes.{result-Moved}
use cross_compile.Msgq.Flow.Sends.{msg_q_send-Makes, send_finish-Makes}
use cross_compile.Msgq.Flow.Receives.{
  receive_after_nap-Makes, receive_woken-Makes, msg_q_receive-Makes, msg_q_delete-Moved,
  delete_woken-Moved,
}

pub QueueStep-Moved :
    {k : ℕ} {w v : Queues} {e : Event} → QueueStep k w e v → Moved (w.qcb k) (v.qcb k) e
QueueStep-Moved {k = k} {w = w} (sends me now msg n wait u at avail e) =
    result-Moved k w (sent_by u _) (msg_q_send-Makes k w me now msg n wait u avail) e
QueueStep-Moved {k = k} {w = w} {v = v} (finishes me c msg r ek em avail small e) =
    coe 0 1
      (i.
        Moved (w.qcb (ek i)) (v.qcb (ek i))
          (posted_by (w.qcb (ek i)) c.urgent (take c.msglen msg) r))
      (result-Moved c.queue w (posted_by (w.qcb c.queue) c.urgent (take c.msglen msg))
        (send_finish-Makes w me c msg em avail
          (coe 1 0 (i. c.msglen ≤ (w.qcb (ek i)).msg_len) small))
        e)
QueueStep-Moved {k = k} {w = w} (receives me now buf n wait at avail e) =
    result-Moved k w got_by (msg_q_receive-Makes w me now k buf n wait avail) e
QueueStep-Moved {k = k} {w = w} {v = v} (wakes me rc c buf at ek em big e) =
    coe 0 1 (i. Moved (w.qcb (ek i)) (v.qcb (ek i)) (got_by at)) (
      result-Moved c.queue w got_by
        (receive_woken-Makes w me rc c buf em
          (coe 1 0 (i. (w.qcb (ek i)).msg_len ≤ length buf) big))
        e)
QueueStep-Moved {k = k} {w = w} {v = v} (naps me now c buf at ek em big e) =
    coe 0 1 (i. Moved (w.qcb (ek i)) (v.qcb (ek i)) (got_by at)) (
      result-Moved c.queue w got_by
        (receive_after_nap-Makes w me now c buf em
          (coe 1 0 (i. (w.qcb (ek i)).msg_len ≤ length buf) big))
        e)
QueueStep-Moved {k = k} {w = w} (deletes at e) =
    coe 0 1 (i. Moved (w.qcb k) ((e i).0.qcb k) quiet) (msg_q_delete-Moved w k)
QueueStep-Moved {k = k} {w = w} (delete_wakes at e) =
    coe 0 1 (i. Moved (w.qcb k) ((e i).0.qcb k) quiet) (delete_woken-Moved w k)
QueueStep-Moved (elsewhere same) = idle same

-- However the calls of the tasks are interleaved, a queue whose messages may have bytes stays valid and
-- keeps its limits, and no message is lost, doubled or changed: the events are those of a list of at
-- most msgs_per_queue + 1 messages of at most msg_len bytes. A normal message becomes the last and an
-- urgent one the first, and a receiver gets the first. The condition is that no message is posted
-- by a writer that had to wait when the extra element is in use too.
pub Flow-Deques :
    {limit size k : ℕ} {w v : Queues} {es : List Event}
    → Flow k w es v
    → 0 < size
    → Sound limit size (w.qcb k)
    → any_overruns es ≡ false
    → Sound limit size (v.qcb k) × Deques limit size (contents (w.qcb k)) es (contents (v.qcb k))
Flow-Deques still bytes s fine = (s, ends)
Flow-Deques (flows {e = e} {es = es} step rest) bytes s fine =
    let (s', d) = Moved-Deque bytes s (QueueStep-Moved step) (ground arith) in
    let (s'', ds) = Flow-Deques rest bytes s' (ground arith) in (s'', follows d ds)

Deque-order :
    {limit size : ℕ} {ms ms' : List (List ℕ)} (e : Event) (es : List Event) {outs : List (List ℕ)}
    → Deque limit size ms e ms'
    → overruns e ≡ false
    → is_urgent e ≡ false
    → ms' ++ sent_ones es ≡ outs
    → ms ++ sent_ones (e ∷ es) ≡ got_ones (e ∷ []) ++ outs
Deque-order quiet es (rests same) fine calm h = ap (λ l. l ++ sent_ones es) (sym same) ∙ h
Deque-order (sent true m) es d fine calm h = absurd (ground arith)
Deque-order {ms = ms} (sent false m) es (puts _ _ room small same) fine calm h =
    sym (append_assoc ms (m ∷ []) (sent_ones es)) ∙ ap (λ l. l ++ sent_ones es) (sym same) ∙ h
Deque-order (overran u m) es d fine calm h = absurd (ground arith)
Deque-order (got m) es (takes _ same) fine calm h = ap (λ l. l ++ sent_ones es) same ∙ ap (◌∷◌ m) h

append-nil : (ms : List (List ℕ)) → ms ++ [] ≡ ms
append-nil [] = refl
append-nil (m ∷ ms) = ap (◌∷◌ m) (append-nil ms)

got_ones-cons :
    (e : Event) (es : List Event) (ms : List (List ℕ))
    → got_ones (e ∷ []) ++ (got_ones es ++ ms) ≡ got_ones (e ∷ es) ++ ms
got_ones-cons quiet es ms = refl
got_ones-cons (sent u m) es ms = refl
got_ones-cons (overran u m) es ms = refl
got_ones-cons (got m) es ms = refl

Deques-order :
    {limit size : ℕ} {ms ms' : List (List ℕ)} {es : List Event}
    → Deques limit size ms es ms'
    → any_overruns es ≡ false
    → any_urgent es ≡ false
    → ms ++ sent_ones es ≡ got_ones es ++ ms'
Deques-order {ms = ms} ends fine calm = append-nil ms
Deques-order {ms' = ms'} (follows {e = e} {es = es} d ds) fine calm =
    Deque-order e es d (ground arith) (ground arith) (Deques-order ds (ground arith) (ground arith))
    ∙ got_ones-cons e es ms'

-- With normal messages only, messages are received in the order in which they were sent, by whatever
-- tasks: the messages that were there, followed by those sent, are those received followed by those
-- that are left. The conditions are those of the refinement.
pub Flow-order :
    {limit size k : ℕ} {w v : Queues} {es : List Event}
    → Flow k w es v
    → 0 < size
    → Sound limit size (w.qcb k)
    → any_overruns es ≡ false
    → any_urgent es ≡ false
    → contents (w.qcb k) ++ sent_ones es ≡ got_ones es ++ contents (v.qcb k)
Flow-order f bytes s fine calm = Deques-order (Flow-Deques f bytes s fine).1 fine calm
