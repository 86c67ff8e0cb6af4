-- ===== src/Tests/Ring.antt =====
-- The circular extent at concrete inputs.
use cross_compile.Base.{◌≡◌, refl, some, [], ◌∷◌}
use cross_compile.Msgq.Ring.{copy_bytes, copy_out, clear_first, alert_space, fetch_msg_from}
use cross_compile.Msgq.Ring.View.{window}
use cross_compile.Msgq.Ring.Valid.{contents}
use cross_compile.Tests.Sample.{full_queue}

contents_of_full : contents full_queue ≡ (10 ∷ 20 ∷ []) ∷ (30 ∷ []) ∷ []
unfolding window
contents_of_full = refl

-- The urgent message goes into the extra element.
fetch_from_full :
    fetch_msg_from full_queue (some (9 ∷ 9 ∷ 9 ∷ 9 ∷ []))
    ≡ some (
      record full_queue {
        queue_head = 0;
        msg_count = 1;
        extent =
            record { msglen = 1; msgbuf = 30 ∷ 0 ∷ 0 ∷ [] }
            ∷ record { msglen = 0; msgbuf = 0 ∷ 0 ∷ 0 ∷ [] }
            ∷ record { msglen = 0; msgbuf = 0 ∷ 20 ∷ 0 ∷ [] }
            ∷ [];
      },
      some (10 ∷ 20 ∷ 9 ∷ 9 ∷ []),
      2,
    )
unfolding fetch_msg_from copy_out copy_bytes clear_first alert_space
fetch_from_full = refl
