-- ===== src/Msgq/Solo/Refine.antt =====
-- A queue of one task that does not wait implements a bounded double-ended list of messages.
use cross_compile.Base.{ℕ, ◌<◌, ◌≡◌, ◌≢◌, refl, some, List, [], ◌∷◌}
use cross_compile.Clock.{Timeval}
use cross_compile.Msgq.Types.{Queues}
use cross_compile.Msgq.Ring.Valid.{contents}
use cross_compile.Msgq.Solo.{Op, put, get, run, spec_run}
use cross_compile.Msgq.Solo.Steps.{AtRest, Refines}
use cross_compile.Msgq.Solo.Put.{put-Refines}
use cross_compile.Msgq.Solo.Get.{get-Refines}

call-Refines :
    {limit size : ℕ} {w : Queues} {queue : ℕ}
    → AtRest limit size w queue
    → 0 < size
    → (me : ℕ) → me ≢ 0
    → (now : Timeval) (op : Op) → Refines limit size w me now queue op
call-Refines r bytes me task now (put msg urgent) = put-Refines r me now msg urgent
call-Refines r bytes me task now (get buflen) = get-Refines r me task now buflen bytes

-- On a queue at rest whose messages may have bytes, any sequence of sends and receives with NO_WAIT
-- of one task runs to its end without a fault or a block. Each call returns what the specification
-- returns: a normal message goes to the back if fewer than msgs_per_queue are there, an urgent one to
-- the front if at most msgs_per_queue are there, a receive takes the front, and a call that cannot be
-- served returns the right error.
pub run_refines :
    {limit size : ℕ} (ops : List Op) {w : Queues} {queue : ℕ}
    → AtRest limit size w queue
    → 0 < size
    → (me : ℕ) → me ≢ 0
    → (now : Timeval)
    → run w me now queue ops ≡ some (spec_run limit size (contents (w.qcb queue)) ops)
unfolding run spec_run
run_refines [] r bytes me task now = refl
run_refines (op ∷ ops) r bytes me task now =
    let (w', e, r', c) = call-Refines r bytes me task now op in
    rw (e, run_refines ops r' bytes me task now, c)
