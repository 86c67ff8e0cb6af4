-- ===== src/Msgq/Solo/Get.antt =====
-- A receive of one task that does not wait does what the specification says.
use mathlib.Core.Path.{subst}
use native.Mathlib.Decide.{dec_lt}
use cross_compile.Base.{
  ℕ, ◌<◌, ◌≤◌, ◌≡◌, ◌≢◌, refl, ap, sym, ◌∙◌, true, false, some, List, [], ◌∷◌, arith, length, take,
  replicate, length-replicate,
}
use cross_compile.Errno.{invalid_msg_length, obj_unavailable, no_wait, awake, etimedout}
use cross_compile.Clock.{Timeval, immediate}
use cross_compile.Susp.{signal_for_my_task}
use cross_compile.Msgq.Types.{Mqueue, Queues, set_qcb, is_killd}
use cross_compile.Msgq.Ring.Valid.{IsValid, Kept, contents, length-contents}
use cross_compile.Msgq.Registry.{mqueue_find_lock}
use cross_compile.Msgq.Receive.{
  Receiving, returned, give_up, join_readers, receive_look, receive_woken, msg_q_receive,
}
use cross_compile.Msgq.Receive.Cases.{
  without_reader, left_readers, receive_look_takes, receive_look_waits, receive_look_times_out,
}
use cross_compile.Msgq.Solo.{get, refused, message, call, spec_call}
use cross_compile.Msgq.Solo.Steps.{
  AtRest, Refines, set_qcb_self, join_readers_alone, leave_alone, signal_alone,
}

-- What the task remembers of its call.
abbrev asked : ℕ → List ℕ → Timeval → Receiving
asked queue buf now = record {
  queue = queue;
  msgbuf = some buf;
  impatient = true;
  timeout = some (immediate now);
  retcode = awake;
}

msg_q_receive-look :
    (w : Queues) (me : ℕ) (now : Timeval) (queue : ℕ) (buf : List ℕ) (buflen : ℕ)
    → mqueue_find_lock w queue ≡ true
    → (w.qcb queue).msg_len ≤ buflen
    → msg_q_receive w me now queue (some buf) buflen no_wait
      ≡ receive_look (join_readers w me queue) me (asked queue buf now)
unfolding msg_q_receive
msg_q_receive-look w me now queue buf buflen found fits = ground arith

msg_q_receive_short :
    (w : Queues) (me : ℕ) (now : Timeval) (queue : ℕ) (buf : List ℕ) (buflen : ℕ)
    → mqueue_find_lock w queue ≡ true
    → buflen < (w.qcb queue).msg_len
    → msg_q_receive w me now queue (some buf) buflen no_wait
      ≡ some (w, returned (give_up invalid_msg_length (some buf)))
unfolding msg_q_receive
msg_q_receive_short w me now queue buf buflen found short = ground arith

module _ (limit size buflen : ℕ) where
  spec-short :
      (ms : List (List ℕ))
      → buflen < size
      → spec_call limit size ms (get buflen) ≡ (ms, refused invalid_msg_length)
  unfolding spec_call
  spec-short [] short = ground arith
  spec-short (m ∷ ms) short = ground arith

  spec-none :
      (ms : List (List ℕ))
      → size ≤ buflen
      → length ms ≡ 0
      → spec_call limit size ms (get buflen) ≡ (ms, refused obj_unavailable)
  unfolding spec_call
  spec-none [] big empty = ground arith
  spec-none (m ∷ ms) big empty = absurd (omega arith)

  spec-first :
      (m : List ℕ) (ms : List (List ℕ))
      → size ≤ buflen
      → spec_call limit size (m ∷ ms) (get buflen) ≡ (ms, message m)
  unfolding spec_call
  spec-first m ms big = ground arith

module _ {limit size : ℕ} {w : Queues} {queue : ℕ} (r : AtRest limit size w queue) (me : ℕ)
    (task : me ≢ 0) (now : Timeval) where
  joined : Queues
  joined = join_readers w me queue

  here : (joined.qcb queue) ≡ record (w.qcb queue) { first_susp = me ∷ [] }
  unfolding joined
  here = join_readers_alone w me queue task r.readers r.writers

  gone : Mqueue
  unfolding joined
  gone = without_reader joined me queue

  gone-Kept : Kept (w.qcb queue) gone
  unfolding gone
  gone-Kept = record {
    limit = ap (λ q. q.msgs_per_queue) here;
    size = ap (λ q. q.msg_len) here;
    readers = rw here (leave_alone joined.tasks me task ∙ sym r.readers);
    writers = ap (λ q. q.first_write_susp) here;
    pend_order = ap (λ q. q.order) here;
  }

  -- The queue at rest with the reader gone again, and maybe with other contents.
  rest_again :
      (q' : Mqueue)
      → IsValid q'
      → Kept gone q'
      → is_killd q'.send_type ≡ false
      → AtRest limit size (set_qcb (left_readers joined me queue) queue q') queue
  unfolding mqueue_find_lock join_readers joined
  rest_again q' v k alive =
      let v0 = set_qcb_self (left_readers joined me queue) queue q' in
      record {
        found = ground (arith, r.found);
        valid = rw v0 v;
        alive = rw v0 alive;
        readers = rw v0 (k.readers ∙ gone-Kept.readers ∙ r.readers);
        writers = rw v0 (k.writers ∙ gone-Kept.writers ∙ r.writers);
        limit_is = rw v0 (k.limit ∙ gone-Kept.limit ∙ r.limit_is);
        size_is = rw v0 (k.size ∙ gone-Kept.size ∙ r.size_is);
      }

  get-short : (buflen : ℕ) → buflen < size → Refines limit size w me now queue (get buflen)
  unfolding call
  get-short buflen short =
      let e =
        msg_q_receive_short w me now queue (replicate buflen 0) buflen r.found
          (omega (arith, r.size_is)) in
      let spec = spec-short limit size buflen (contents (w.qcb queue)) short in
      (w, rw (e, spec), r, rw spec)

  alive_joined : is_killd (joined.qcb queue).send_type ≡ false
  alive_joined = rw here r.alive

  IsValid-gone : IsValid gone
  unfolding gone
  IsValid-gone = subst (λ q. IsValid q) (sym here) r.valid

  contents_joined : contents (joined.qcb queue) ≡ contents (w.qcb queue)
  contents_joined = ap (λ q. contents q) here

  count_joined : (joined.qcb queue).msg_count ≡ (w.qcb queue).msg_count
  count_joined = ap (λ q. q.msg_count) here

  size_joined : (joined.qcb queue).msg_len ≡ size
  size_joined = ap (λ q. q.msg_len) here ∙ r.size_is

  mine :
      signal_for_my_task joined.tasks (joined.qcb queue).first_susp (joined.qcb queue).order me
      ≡ true
  mine = rw here (signal_alone joined.tasks (w.qcb queue).order me)

  -- Nothing there: the wait times out at once.
  get-none :
      (buflen : ℕ)
      → size ≤ buflen
      → (w.qcb queue).msg_count ≡ 0
      → Refines limit size w me now queue (get buflen)
  unfolding call receive_woken gone
  get-none buflen big empty =
      let buf : List ℕ = replicate buflen 0 in
      let look = msg_q_receive-look w me now queue buf buflen r.found (omega (arith, r.size_is)) in
      let nothing : (joined.qcb queue).msg_count ≡ 0 = count_joined ∙ empty in
      let waits = receive_look_waits joined me (asked queue buf now) alive_joined nothing refl in
      let out =
        receive_look_times_out joined me (record (asked queue buf now) { retcode = etimedout })
          alive_joined nothing refl in
      let spec =
        spec-none limit size buflen (contents (w.qcb queue)) big
          (length-contents (w.qcb queue) ∙ empty) in
      let w' : Queues = set_qcb (left_readers joined me queue) queue gone in
      (
        w',
        rw (look, waits, out, spec),
        rest_again gone IsValid-gone
            (record {
              limit = refl;
              size = refl;
              readers = refl;
              writers = refl;
              pend_order = refl;
            })
            alive_joined,
        rw spec (
            ap (λ q. contents q) (set_qcb_self (left_readers joined me queue) queue gone)
            ∙ contents_joined),
      )

  -- The first message is handed out.
  get-first :
      (buflen : ℕ)
      → 0 < size
      → size ≤ buflen
      → 0 < (w.qcb queue).msg_count
      → Refines limit size w me now queue (get buflen)
  unfolding call gone joined
  get-first buflen bytes big some_msg =
      let buf : List ℕ = replicate buflen 0 in
      let look = msg_q_receive-look w me now queue buf buflen r.found (omega (arith, r.size_is)) in
      let (q', out, n, e, v', ms, kept, same, le, _, _) =
        receive_look_takes joined me (asked queue buf now) buf refl alive_joined mine IsValid-gone
          (omega (arith, size_joined))
          (omega (arith, size_joined, length-replicate {A = ℕ} buflen 0))
          (omega (arith, count_joined)) in
      let spec =
        ap (λ ms'. spec_call limit size ms' (get buflen)) (sym contents_joined ∙ ms)
        ∙ spec-first limit size buflen (take n out) (contents q') big in
      (
        set_qcb (left_readers joined me queue) queue q',
        rw (look, e, spec),
        rest_again q' v' kept (rw same alive_joined),
        rw spec (ap (λ q. contents q) (set_qcb_self (left_readers joined me queue) queue q')),
      )

  pub get-Refines : (buflen : ℕ) → 0 < size → Refines limit size w me now queue (get buflen)
  get-Refines buflen bytes = elim (dec_lt buflen size) [
    | yes short ↦ get-short buflen short
    | no big ↦ elim (dec_lt 0 (w.qcb queue).msg_count) [
      | yes some_msg ↦ get-first buflen bytes (omega arith) some_msg
      | no empty ↦ get-none buflen (omega arith) (omega arith)
    ]
  ]
