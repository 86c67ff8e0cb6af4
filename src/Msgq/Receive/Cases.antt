-- ===== src/Msgq/Receive/Cases.antt =====
-- What msgQReceive does in the round that ends it.
use cross_compile.Base.{
  ℕ, ◌<◌, ◌≤◌, ◌≡◌, true, false, Option, some, List, ◌∷◌, arith, if◌then◌else◌, length, take, drop,
}
use cross_compile.Errno.{ok, obj_unavailable, obj_timeout, awake, etimedout}
use cross_compile.Susp
use cross_compile.Susp.{Tasks, signal_for_my_task}
use cross_compile.Msgq.Types.{Mqueue, Queues, set_qcb, is_killd}
use cross_compile.Msgq.Ring.{fetch_msg_from}
use cross_compile.Msgq.Ring.Valid.{IsValid, Kept, contents}
use cross_compile.Msgq.Ring.Fetch.{fetch_msg_from_refines, fetch_msg_from-Kept}
use cross_compile.Msgq.Receive.{Receiving, asleep, returned, give_up, receive_finish, receive_look}

-- The control block once `me` is off the list of readers.
abbrev pub without_reader : Queues → ℕ → ℕ → Mqueue
without_reader w me queue =
    let q = w.qcb queue in
    record q { first_susp = (Susp.unlink_susp_task w.tasks q.first_susp me).1 }

abbrev pub left_readers : Queues → ℕ → ℕ → Queues
left_readers w me queue = record w {
  tasks = (Susp.unlink_susp_task w.tasks (w.qcb queue).first_susp me).0;
}

pub receive_look-fetch :
    (w : Queues) (me : ℕ) (c : Receiving) {q' : Mqueue} {out : Option (List ℕ)} {n : ℕ}
    → is_killd (w.qcb c.queue).send_type ≡ false
    → 0 < (w.qcb c.queue).msg_count
    → signal_for_my_task w.tasks (w.qcb c.queue).first_susp (w.qcb c.queue).order me ≡ true
    → fetch_msg_from (without_reader w me c.queue) c.msgbuf ≡ some (q', out, n)
    → receive_look w me c
      ≡ some (
        set_qcb (left_readers w me c.queue) c.queue q',
        returned (record { msglen = ok n; buffer = out }),
      )
unfolding receive_look receive_finish
receive_look-fetch w me c alive some_msg mine e = ground arith

-- A reader that looks at a live queue, with a message there that is for it, gets the first message
-- and returns. Its buffer then starts with the message and is otherwise as before, the queue holds the
-- other messages, and the reader has left the list of readers.
pub receive_look_takes :
    (w : Queues) (me : ℕ) (c : Receiving) (buf : List ℕ)
    → c.msgbuf ≡ some buf
    → is_killd (w.qcb c.queue).send_type ≡ false
    → signal_for_my_task w.tasks (w.qcb c.queue).first_susp (w.qcb c.queue).order me ≡ true
    → IsValid (w.qcb c.queue)
    → 0 < (w.qcb c.queue).msg_len
    → (w.qcb c.queue).msg_len ≤ length buf
    → 0 < (w.qcb c.queue).msg_count
    → (q' : Mqueue) × (out : List ℕ) × (n : ℕ) × (receive_look w me c
        ≡ some (
          set_qcb (left_readers w me c.queue) c.queue q',
          returned (record { msglen = ok n; buffer = some out }),
        ))
      × IsValid q'
      × (contents (w.qcb c.queue) ≡ take n out ∷ contents q')
      × Kept (without_reader w me c.queue) q'
      × (q'.send_type ≡ (w.qcb c.queue).send_type)
      × (n ≤ (w.qcb c.queue).msg_len)
      × (drop n out ≡ drop n buf)
      × (length out ≡ length buf)
receive_look_takes w me c buf eb alive mine v bytes big some_msg =
    let (q', out, n, e, v', ms, le, rest, len) =
      fetch_msg_from_refines (without_reader w me c.queue) buf v bytes big some_msg in
    let (kept, same) = fetch_msg_from-Kept (without_reader w me c.queue) (some buf) e in
    (
      q',
      out,
      n,
      receive_look-fetch w me c alive some_msg mine (rw eb e),
      v',
      ms,
      kept,
      same,
      le,
      rest,
      len,
    )

-- A reader of a live queue that holds no message goes on waiting, unless its last wait timed out.
pub receive_look_waits :
    (w : Queues) (me : ℕ) (c : Receiving)
    → is_killd (w.qcb c.queue).send_type ≡ false
    → (w.qcb c.queue).msg_count ≡ 0
    → c.retcode ≡ awake
    → receive_look w me c ≡ some (w, asleep c)
unfolding receive_look
receive_look_waits w me c alive empty rc = ground arith

-- A reader of a live queue without messages, whose last wait timed out, leaves the list of readers
-- and returns ERROR: S_objLib_OBJ_UNAVAILABLE for NO_WAIT, and S_objLib_OBJ_TIMEOUT otherwise.
pub receive_look_times_out :
    (w : Queues) (me : ℕ) (c : Receiving)
    → is_killd (w.qcb c.queue).send_type ≡ false
    → (w.qcb c.queue).msg_count ≡ 0
    → c.retcode ≡ etimedout
    → receive_look w me c
      ≡ some (
        set_qcb (left_readers w me c.queue) c.queue (without_reader w me c.queue),
        returned (give_up (if c.impatient then obj_unavailable else obj_timeout) c.msgbuf),
      )
unfolding receive_look receive_finish
receive_look_times_out w me c alive empty rc = ground arith
