-- ===== src/Clock/Expiry.antt =====
-- The two tests for an expired deadline agree.
use mathlib.Core.Logic.{◌↔◌}
use cross_compile.Base.{◌*◌, ◌%◌, ◌<◌, ◌≤◌, ◌≡◌, true, arith, ◌==◌}
use cross_compile.Clock.{Timeval, Timespec, time_expired, usec_left}
use cross_compile.Clock.Deadline.{nanos, micros}

-- `time_expired` holds exactly when the deadline, in nanoseconds since the epoch, is not later
-- than the time of day, for a deadline and a time in normal form.
time_expired_iff :
    (timeout : Timespec) (now : Timeval)
    → timeout.tv_nsec < 1000000000
    → now.tv_usec < 1000000
    → (time_expired timeout now ≡ true) ↔ (nanos timeout ≤ micros now * 1000)
unfolding time_expired
time_expired_iff timeout now hn hu = ground arith

-- The message queues find no time left exactly when `time_expired` holds, for a deadline in
-- whole microseconds and a time, both in normal form.
usec_left-time_expired :
    (timeout : Timespec) (now : Timeval)
    → timeout.tv_nsec < 1000000000
    → timeout.tv_nsec % 1000 ≡ 0
    → now.tv_usec < 1000000
    → (usec_left timeout now == 0) ≡ time_expired timeout now
unfolding usec_left time_expired
usec_left-time_expired timeout now hn hm hu = ground arith

-- For a deadline in whole microseconds and a time of day, both in normal form: `time_expired` holds
-- exactly when the deadline, in nanoseconds since the epoch, is not later than the time, and exactly
-- then the message queues find no time left.
pub expiry_lem :
    (timeout : Timespec) (now : Timeval)
    → timeout.tv_nsec < 1000000000
    → timeout.tv_nsec % 1000 ≡ 0
    → now.tv_usec < 1000000
    → ((time_expired timeout now ≡ true) ↔ (nanos timeout ≤ micros now * 1000))
      × ((usec_left timeout now == 0) ≡ time_expired timeout now)
expiry_lem timeout now hn hm hu =
    (time_expired_iff timeout now hn hu, usec_left-time_expired timeout now hn hm hu)
