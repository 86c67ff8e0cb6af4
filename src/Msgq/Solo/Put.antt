-- ===== src/Msgq/Solo/Put.antt =====
-- A send of one task that does not wait does what the specification says.
use cross_compile.Base.{
  ℕ, ◌+◌, ◌≤◌, ◌≡◌, ap, ◌∙◌, Bool, some, List, arith, ltb, if◌then◌else◌, length, Bool-cases, inl,
  inr,
}
use cross_compile.Errno.{Errno, invalid_msg_length, obj_unavailable, no_wait}
use cross_compile.Clock.{Timeval}
use cross_compile.Msgq.Types.{Queues, set_qcb}
use cross_compile.Msgq.Ring.Valid.{contents, length-contents}
use cross_compile.Msgq.Send.Cases.{
  inserted, Accepts, Refusal, too_long, full, msg_q_send-Accepts, msg_q_send_refused,
}
use cross_compile.Msgq.Solo.{put, sent, refused, call, spec_call}
use cross_compile.Msgq.Solo.Steps.{AtRest, Refines, set_qcb_self, after-AtRest, take-length}

module _ {limit size : ℕ} {w : Queues} {queue : ℕ} (r : AtRest limit size w queue) where
  put-refused :
      (me : ℕ) (now : Timeval) (msg : List ℕ) (urgent : Bool) (e : Errno)
      → Refusal w queue (length msg) urgent e
      → spec_call limit size (contents (w.qcb queue)) (put msg urgent)
        ≡ (contents (w.qcb queue), refused e)
      → Refines limit size w me now queue (put msg urgent)
  unfolding call
  put-refused me now msg urgent e why spec = (
    w,
    rw (msg_q_send_refused w me now queue (some msg) (length msg) urgent e why, spec),
    r,
    rw spec,
  )

  put-accepted :
      (me : ℕ) (now : Timeval) (msg : List ℕ) (urgent : Bool)
      → length msg ≤ size
      → Accepts (w.qcb queue) urgent
      → spec_call limit size (contents (w.qcb queue)) (put msg urgent)
        ≡ (inserted urgent msg (contents (w.qcb queue)), sent)
      → Refines limit size w me now queue (put msg urgent)
  unfolding call
  put-accepted me now msg urgent fits room spec =
      let (q', e, v', c, kept, alive, _) =
        msg_q_send-Accepts w me now queue msg (length msg) no_wait urgent r.found r.valid
          (omega arith) (omega arith) room (ground arith) in
      (
        set_qcb w queue q',
        rw (e, spec),
        after-AtRest r q' v' kept alive,
        rw spec (
            rw (set_qcb_self w queue q')
              (c ∙ ap (λ m. inserted urgent m (contents (w.qcb queue))) (take-length msg))),
      )

  pub put-Refines :
      (me : ℕ) (now : Timeval) (msg : List ℕ) (urgent : Bool)
      → Refines limit size w me now queue (put msg urgent)
  unfolding spec_call
  put-Refines me now msg urgent = elim (Bool-cases (ltb size (length msg))) [
    | inl long ↦
        put-refused me now msg urgent invalid_msg_length (too_long r.found (ground arith))
          (ground arith)
    | inr fits ↦
        elim (Bool-cases
          (ltb limit (length (contents (w.qcb queue)) + (if urgent then 0 else 1)))) [
            | inl crowded ↦
                put-refused me now msg urgent obj_unavailable
                  (full r.found (ground arith) (ground (arith, length-contents (w.qcb queue)))
                    (ground arith))
                  (ground arith)
            | inr room ↦
                put-accepted me now msg urgent (ground arith)
                  (ground (arith, length-contents (w.qcb queue))) (ground arith)
          ]
  ]
