-- ===== src/Clock.antt =====
-- Deadlines of the timed waits: their computation in wait_for_token of lib/lsemLib.c and in
-- waitToSend and msgQReceive of lib/lmsgQLib.c, time_expired of lib/lsemLib.c, and the time that is
-- left as waiting_on_q_space and waiting_on_q_msg of lib/lmsgQLib.c compute it. The time of day is an
-- argument. `none` stands for a signed overflow, which is undefined in C.
pub mod Deadline
pub mod Expiry
use cross_compile.Base.{
  ℕ, ◌+◌, ◌-◌, ◌*◌, ◌/◌, ◌%◌, ◌^◌, Bool, true, false, Option, none, some, ltb, leb, ◌==◌,
  if◌then◌else◌,
}

pub record Timeval : Type 0 where
  pub tv_sec : ℕ
  pub tv_usec : ℕ

pub record Timespec : Type 0 where
  pub tv_sec : ℕ
  pub tv_nsec : ℕ

-- V2PT_TICK: milliseconds in a tick.
abbrev pub tick_ms : ℕ
tick_ms = 10

-- The deadline of a call with NO_WAIT.
unfoldable pub immediate : Timeval → Timespec
immediate now = record { tv_sec = now.tv_sec; tv_nsec = now.tv_usec * 1000 }

-- `usec` is a long, and `wait * V2PT_TICK * 1000` a product of ints.
unfoldable pub deadline : ℕ → Timeval → Option Timespec
deadline wait now =
    let product = wait * tick_ms * 1000 in
    let usec = product + now.tv_usec in
    if leb (2 ^ 31) product
    then none
    else if ltb 1000000 usec
    then some (record { tv_sec = now.tv_sec + usec / 1000000; tv_nsec = usec % 1000000 * 1000 })
    else some (record { tv_sec = now.tv_sec; tv_nsec = usec * 1000 })

unfoldable pub time_expired : Timespec → Timeval → Bool
time_expired timeout now =
    if ltb timeout.tv_sec now.tv_sec
    then true
    else if ltb now.tv_sec timeout.tv_sec
    then false
    else leb timeout.tv_nsec (now.tv_usec * 1000)

-- The microseconds left. A signed `tv_sec - 1 < now.tv_sec` is `tv_sec < now.tv_sec + 1`.
unfoldable pub usec_left : Timespec → Timeval → ℕ
usec_left timeout now =
    if ltb (now.tv_usec * 1000) timeout.tv_nsec
    then (if ltb timeout.tv_sec now.tv_sec
        then 0
        else (timeout.tv_nsec - now.tv_usec * 1000) / 1000
          + (timeout.tv_sec - now.tv_sec) * 1000000)
    else (if ltb timeout.tv_sec (now.tv_sec + 1)
        then 0
        else (timeout.tv_nsec + 1000000000 - now.tv_usec * 1000) / 1000
          + (timeout.tv_sec - 1 - now.tv_sec) * 1000000)
