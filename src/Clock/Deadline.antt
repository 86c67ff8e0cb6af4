-- ===== src/Clock/Deadline.antt =====
-- What the deadline of a timed wait stands for.

use cross_compile.Base.{
  ℕ, ◌+◌, ◌*◌, ◌/◌, ◌%◌, ◌<◌, ◌≤◌, ◌≡◌, none, some, ◌⊎◌, inl, inr, arith, ◌==◌, if◌then◌else◌,
}
use native.Mathlib.Decide.{dec_lt}
use cross_compile.Clock.{Timeval, Timespec, deadline}

abbrev pub nanos : Timespec → ℕ
nanos t = t.tv_sec * 1000000000 + t.tv_nsec

abbrev pub micros : Timeval → ℕ
micros t = t.tv_sec * 1000000 + t.tv_usec

-- A wait of fewer than 214749 ticks has a deadline, which is `wait` ticks of ten milliseconds from
-- now. Its nanoseconds are less than a second unless the microseconds of both add up to one second
-- exactly: then they are a whole second, which is no valid timespec.
deadline_lem :
    (wait : ℕ) (now : Timeval)
    → wait < 214749
    → now.tv_usec < 1000000
    → (t : Timespec) × (deadline wait now ≡ some t)
      × (nanos t ≡ micros now * 1000 + wait * 10000000)
      × (t.tv_nsec ≡ (
          if wait * 10000 + now.tv_usec == 1000000
          then 1000000000
          else (wait * 10000 + now.tv_usec) % 1000000 * 1000))
unfolding deadline
deadline_lem wait now hw hn = elim (dec_lt 1000000 (wait * 10000 + now.tv_usec)) [
  | yes h ↦ (
    record {
      tv_sec = now.tv_sec + (wait * 10 * 1000 + now.tv_usec) / 1000000;
      tv_nsec = (wait * 10 * 1000 + now.tv_usec) % 1000000 * 1000;
    },
    ground arith,
    omega arith,
    ground arith,
  )
  | no h ↦ (
    record { tv_sec = now.tv_sec; tv_nsec = (wait * 10 * 1000 + now.tv_usec) * 1000 },
    ground arith,
    omega arith,
    ground arith,
  )
]

-- From 214749 ticks on (some 36 minutes) the product of ints overflows.
deadline_overflow : (wait : ℕ) (now : Timeval) → 214749 ≤ wait → deadline wait now ≡ none
unfolding deadline
deadline_overflow wait now h = ground arith

-- A wait of 214749 ticks (some 36 minutes) or more has no deadline: the product of ints overflows. The
-- deadline of a shorter one is `wait` ticks of ten milliseconds from now. Its nanoseconds are less
-- than a second unless the microseconds of both add up to one second exactly: then they are a whole
-- second, which is no valid timespec.
pub deadline_cases :
    (wait : ℕ) (now : Timeval)
    → now.tv_usec < 1000000
    → ((214749 ≤ wait) × (deadline wait now ≡ none))
      ⊎ ((wait < 214749)
          × ((t : Timespec) × (deadline wait now ≡ some t)
              × (nanos t ≡ micros now * 1000 + wait * 10000000)
              × (t.tv_nsec ≡ (
                  if wait * 10000 + now.tv_usec == 1000000
                  then 1000000000
                  else (wait * 10000 + now.tv_usec) % 1000000 * 1000))))
deadline_cases wait now hn = elim (dec_lt wait 214749) [
  | yes h ↦ inr (h, deadline_lem wait now h hn)
  | no h ↦ inl (omega arith, deadline_overflow wait now (omega arith))
]
