-- ===== src/Tests/Numbers.antt =====
-- Deadlines and priorities at concrete inputs.
use cross_compile.Base.{◌+◌, ◌*◌, ◌≤◌, ◌<◌, ◌⊎◌, ◌≡◌, refl, true, false, none, some, arith, ◌==◌}
use mathlib.Core.Logic.{◌↔◌}
use cross_compile.Base.Int.{pos, negsuc}
use cross_compile.Errno.{illegal_priority}
use cross_compile.Clock.{Timeval, Timespec, deadline, time_expired, usec_left}
use cross_compile.Clock.Deadline.{nanos, micros, deadline_cases}
use cross_compile.Clock.Expiry.{expiry_lem}
use cross_compile.Priority.{fits_int, translate_priority}
use cross_compile.Priority.Order.{translate_priority_bounds, translate_priority_order}

abbrev noon : Timeval
noon = record { tv_sec = 43200; tv_usec = 990000 }

abbrev soon : Timespec
soon = record { tv_sec = 43201; tv_nsec = 20000000 }

-- Three ticks from 43200.99 s on.
deadline_at_noon : deadline 3 noon ≡ some soon
unfolding deadline
deadline_at_noon = refl

-- One tick: the nanoseconds are not carried over.
deadline_not_carried : deadline 1 noon ≡ some (record { tv_sec = 43200; tv_nsec = 1000000000 })
unfolding deadline
deadline_not_carried = refl

deadline_cases_example :
    ((214749 ≤ 3) × (deadline 3 noon ≡ none))
    ⊎ ((3 < 214749)
        × ((t : Timespec) × (deadline 3 noon ≡ some t)
            × (nanos t ≡ micros noon * 1000 + 3 * 10000000)
            × (t.tv_nsec ≡ 20000000)))
deadline_cases_example = deadline_cases 3 noon (omega arith)

expiry_lem_example :
    ((time_expired soon noon ≡ true) ↔ (nanos soon ≤ micros noon * 1000))
    × ((usec_left soon noon == 0) ≡ time_expired soon noon)
expiry_lem_example = expiry_lem soon noon (omega arith) (omega arith) (omega arith)

priorities :
    (translate_priority (pos 100) 1 99 ≡ (59, none))
    × (translate_priority (pos 2) 1 99 ≡ (97, none))
    × (translate_priority (pos 0) 1 99 ≡ (1, none))
    × (translate_priority (pos 300) 1 99 ≡ (1, some illegal_priority))
unfolding translate_priority
priorities = (refl, refl, refl, refl)

fitting : fits_int (negsuc 4) 99 ≡ true
unfolding fits_int
fitting = refl

too_big : fits_int (negsuc 2147483647) 99 ≡ false
unfolding fits_int
too_big = refl

translate_priority_bounds_example :
    (1 ≤ (translate_priority (negsuc 4) 1 99).0)
    × ((translate_priority (negsuc 4) 1 99).0 + 2 ≤ 99)
    × ((translate_priority (negsuc 4) 1 99).1 ≡ some illegal_priority)
translate_priority_bounds_example = translate_priority_bounds (negsuc 4) 1 99 (omega arith) fitting

translate_priority_order_example :
    ((256 < 99 * 3) × ((translate_priority (pos 200) 1 99).0 ≤ (translate_priority (pos 2) 1 99).0))
    ⊎ ((99 * 3 ≤ 256) × ((translate_priority (pos 2) 1 99).0 ≡ 1))
translate_priority_order_example =
    translate_priority_order 2 200 1 99 (omega arith) (omega arith) (omega arith)
