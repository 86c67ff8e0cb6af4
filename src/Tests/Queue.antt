-- ===== src/Tests/Queue.antt =====
-- The calls on message queues at concrete inputs.
use cross_compile.Base.{◌≡◌, refl, true, false, some, [], ◌∷◌, arith}
use cross_compile.Errno.{invalid_msg_length, obj_unavailable}
use cross_compile.Clock.{Timeval}
use cross_compile.Msgq.Types.{Queues}
use cross_compile.Msgq.Ring.View.{window}
use cross_compile.Msgq.Registry.{mqueue_find_lock}
use cross_compile.Msgq.Solo
use cross_compile.Msgq.Solo.{Op, put, get, Reply, sent, refused, message, run}
use cross_compile.Msgq.Solo.Steps.{AtRest}
use cross_compile.Msgq.Solo.Refine.{run_refines}
use cross_compile.Tests.Sample.{full_queue, full_queue-IsValid, with_queue}

abbrev noon : Timeval
noon = record { tv_sec = 43200; tv_usec = 0 }

abbrev packed : Queues
packed = with_queue full_queue

full_queue-AtRest : AtRest 2 3 packed 7
unfolding mqueue_find_lock
full_queue-AtRest = record {
  found = refl;
  valid = full_queue-IsValid;
  alive = refl;
  readers = refl;
  writers = refl;
  limit_is = refl;
  size_is = refl;
}

-- The queue is full: a normal message is refused, an urgent one taken, and the next one refused.
run_refines_example :
    run packed 4 noon 7
      (put (1 ∷ []) false ∷ put (2 ∷ []) true ∷ put (3 ∷ []) true ∷ get 3 ∷ get 2 ∷ get 8 ∷ [])
    ≡ some (
        refused obj_unavailable
        ∷ sent
        ∷ refused obj_unavailable
        ∷ message (2 ∷ [])
        ∷ refused invalid_msg_length
        ∷ message (10 ∷ 20 ∷ [])
        ∷ [])
unfolding Solo.spec_run Solo.spec_call window
run_refines_example =
    run_refines
      (put (1 ∷ []) false ∷ put (2 ∷ []) true ∷ put (3 ∷ []) true ∷ get 3 ∷ get 2 ∷ get 8 ∷ [])
      full_queue-AtRest (omega arith) 4 (omega arith) noon
