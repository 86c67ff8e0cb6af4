-- ===== src/Msgq/Handoff/Space.antt =====
-- The space that msgQReceive of one task makes, on its way to a waiting msgQSend of another.

use cross_compile.Base.{
  ℕ, ◌+◌, ◌<◌, ◌≤◌, ◌≡◌, refl, ap, ◌∙◌, sym, Bool, true, false, Option, some, List, [], ◌∷◌, arith,
  length, take, if◌then◌else◌, ltb, head_or_null,
}
use cross_compile.Errno.{ok, RetCode, awake}
use cross_compile.Clock.{Timespec}
use cross_compile.Susp
use cross_compile.Susp.{Tasks, signal_for_my_task, highest}
use cross_compile.Msgq.Types.{Mqueue, Queues, set_qcb, is_killd, is_null}
use cross_compile.Msgq.Ring.{fetch_msg_from, alert_space}
use cross_compile.Msgq.Ring.Valid.{IsValid, contents}
use cross_compile.Msgq.Ring.Fetch.{fetch_msg_from_refines, fetch_msg_from-Kept}
use cross_compile.Msgq.Send.{Sending, relocking, send_look, send_finish, has_space}
use cross_compile.Msgq.Send.Cases.{inserted}
use cross_compile.Msgq.Send.Waiting.{send_finish_posts, left_writers}
use cross_compile.Msgq.Receive.{Receiving, receive_look}
use cross_compile.Msgq.Receive.Cases.{receive_look-fetch, without_reader, left_readers}
use cross_compile.Msgq.Handoff.{handed}
use cross_compile.Msgq.Solo.Steps.{set_qcb_self}

-- The choice of the signalled task depends on the priorities only.
highest-like :
    (ts ts' : Tasks) (t : ℕ) (list : List ℕ)
    → ts'.sched_priority ≡ ts.sched_priority
    → highest ts' t list ≡ highest ts t list
unfolding highest
highest-like ts ts' t [] e = refl
highest-like ts ts' t (x ∷ xs) e =
    highest-like ts ts' (if ltb (ts'.sched_priority t) (ts'.sched_priority x) then x else t) xs e
    ∙ ap (λ p. highest ts (if ltb (p t) (p x) then x else t) xs) e

signal-like :
    (ts ts' : Tasks) (list : List ℕ) (pend_order me : ℕ)
    → ts'.sched_priority ≡ ts.sched_priority
    → signal_for_my_task ts' list pend_order me ≡ signal_for_my_task ts list pend_order me
unfolding signal_for_my_task Susp.signalled_task
signal-like ts ts' list pend_order me e =
    ground (arith, highest-like ts ts' (head_or_null list) list e)

unlink-priorities :
    (ts : Tasks) (list : List ℕ) (t : ℕ)
    → (Susp.unlink_susp_task ts list t).0.sched_priority ≡ ts.sched_priority
unfolding Susp.unlink_susp_task
unlink-priorities ts list t = ground arith

-- The writer that is let through, in its next round.
look_through :
    (w : Queues) (me : ℕ) (c : Sending)
    → is_killd (w.qcb c.queue).send_type ≡ false
    → has_space (w.qcb c.queue) ≡ true
    → signal_for_my_task w.tasks (w.qcb c.queue).first_write_susp (w.qcb c.queue).order me ≡ true
    → send_look w me c ≡ relocking (record c { retcode = awake })
unfolding send_look
look_through w me c alive space mine = ground arith

-- The fetch from a queue that writers wait for, and that has space then, wakes the writers.
fetch-space :
    (q : Mqueue) (buf : Option (List ℕ)) {q' : Mqueue} {out : Option (List ℕ)} {n : ℕ}
    → fetch_msg_from q buf ≡ some (q', out, n)
    → is_null q.first_write_susp ≡ false
    → 0 < q.msg_count
    → q.msg_count ≤ q.msgs_per_queue
    → (q'.queue_space ≡ q.queue_space + 1) × (q'.msg_count + 1 ≡ q.msg_count)
unfolding fetch_msg_from alert_space
fetch-space q buf e waits some_msg room = ground arith

-- Space reaches a task that waits to send. The queue is valid and in service, holds as many messages
-- as it may, and its messages may have bytes. `reader` waits for it and is chosen by
-- signal_for_my_task among the readers, as `writer` is among the writers, with a message that is not
-- too long. In its next round the reader returns the first message, and the writers are woken. In its
-- next round the writer leaves its loop, and when it has queue_lock again it returns OK: its message is
-- then at its place among the others.
pub space_passed :
    (w : Queues) (reader writer : ℕ) (c : Sending) (msg buf : List ℕ) (impatient : Bool)
    (timeout : Option Timespec) (rc : RetCode)
    → is_killd (w.qcb c.queue).send_type ≡ false
    → IsValid (w.qcb c.queue)
    → 0 < (w.qcb c.queue).msg_len
    → 0 < (w.qcb c.queue).msgs_per_queue
    → (w.qcb c.queue).msg_count ≡ (w.qcb c.queue).msgs_per_queue
    → signal_for_my_task w.tasks (w.qcb c.queue).first_susp (w.qcb c.queue).order reader ≡ true
    → signal_for_my_task w.tasks (w.qcb c.queue).first_write_susp (w.qcb c.queue).order writer
      ≡ true
    → is_null (w.qcb c.queue).first_write_susp ≡ false
    → (w.qcb c.queue).msg_len ≤ length buf
    → c.msg ≡ some msg
    → c.msglen ≤ (w.qcb c.queue).msg_len
    → c.msglen ≤ length msg
    → (w1 w2 : Queues) × (out : List ℕ) × (n : ℕ) × (rest : List (List ℕ)) × (receive_look w reader
          (record {
            queue = c.queue;
            msgbuf = some buf;
            impatient = impatient;
            timeout = timeout;
            retcode = rc;
          })
        ≡ some (w1, handed n out))
      × (contents (w.qcb c.queue) ≡ take n out ∷ rest)
      × ((w1.qcb c.queue).queue_space ≡ (w.qcb c.queue).queue_space + 1)
      × (send_look w1 writer c ≡ relocking (record c { retcode = awake }))
      × (send_finish w1 writer (record c { retcode = awake }) ≡ some (w2, ok tt))
      × (contents (w2.qcb c.queue) ≡ inserted c.urgent (take c.msglen msg) rest)
space_passed w reader writer c msg buf impatient timeout rc alive v bytes room full next_r next_w
      waits big em small avail =
    let cr : Receiving = record {
      queue = c.queue;
      msgbuf = some buf;
      impatient = impatient;
      timeout = timeout;
      retcode = rc;
    } in
    let p : Mqueue = without_reader w reader c.queue in
    let (q', out, n, e, v', ms, le, _, _) =
      fetch_msg_from_refines p buf v bytes big (omega arith) in
    let (kept, same) = fetch_msg_from-Kept p (some buf) e in
    let (told, fewer) = fetch-space p (some buf) e waits (omega arith) (omega arith) in
    let w1 : Queues = set_qcb (left_readers w reader c.queue) c.queue q' in
    let at : w1.qcb c.queue ≡ q' = set_qcb_self (left_readers w reader c.queue) c.queue q' in
    let alive' : is_killd (w1.qcb c.queue).send_type ≡ false = rw (at, same) alive in
    let count : (w1.qcb c.queue).msg_count + 1 ≡ (w1.qcb c.queue).msgs_per_queue =
      rw at (fewer ∙ full ∙ sym kept.limit) in
    let mine =
      signal-like w.tasks w1.tasks (w.qcb c.queue).first_write_susp (w.qcb c.queue).order writer
        (unlink-priorities w.tasks (w.qcb c.queue).first_susp reader)
      ∙ next_w in
    let (q2, e2, v2, ms2, kept2) =
      send_finish_posts w1 writer (record c { retcode = awake }) msg em alive' refl (rw at v')
        (omega (arith, count)) (rw (at, kept.size) small) avail in
    (
      w1,
      set_qcb (left_writers w1 writer c.queue) c.queue q2,
      out,
      n,
      contents q',
      receive_look-fetch w reader cr alive (omega arith) next_r e,
      ms,
      ap (λ q. q.queue_space) at ∙ told,
      look_through w1 writer c alive' (ground (arith, count))
          (rw (at, kept.writers, kept.pend_order) mine),
      e2,
      ap (λ q. contents q) (set_qcb_self (left_writers w1 writer c.queue) c.queue q2)
          ∙ ms2
          ∙ ap (λ q. inserted c.urgent (take c.msglen msg) (contents q)) at,
    )
