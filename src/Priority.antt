-- ===== src/Priority.antt =====
-- lib/ltaskLib.c: translate_priority. `min` and `max` are what sched_get_priority_min and
-- sched_get_priority_max return for the policy. The arithmetic is that of unbounded numbers, which C's
-- is as long as neither the difference nor the product overflows an int; `fits_int` is that condition.
pub mod Order
use cross_compile.Base.{
  ℕ, ◌+◌, ◌-◌, ◌*◌, ◌/◌, ◌%◌, ◌^◌, ◌&&◌, Bool, Option, none, some, ltb, leb, ◌==◌, if◌then◌else◌,
}
use cross_compile.Base.Int.{ℤ, pos, negsuc}
use cross_compile.Errno.{Errno, illegal_priority}

-- MIN_V2PT_PRIORITY, the lowest of the VxWorks priorities; the highest is 0.
abbrev pub min_v2pt : ℕ
min_v2pt = 255

clip : ℕ → ℕ → ℕ
clip min p = if ltb p min then min else p

-- `above` is `MIN_V2PT_PRIORITY - v2pthread_priority`, not negative.
telescope : ℕ → ℕ → ℕ → ℕ
unfolding clip
telescope above min max = clip min (above * max / (min_v2pt + 1) % (max - 1))

-- The same for a difference of `- below`: `/` and `%` of C round towards zero.
telescope_neg : ℕ → ℕ → ℕ → ℕ
unfolding clip
telescope_neg below min max =
    if below * max / (min_v2pt + 1) % (max - 1) == 0 then clip min 0 else min

-- `MIN_V2PT_PRIORITY - v2pthread_priority` and its product with `max_priority` are ints.
unfoldable pub fits_int : ℤ → ℕ → Bool
fits_int (pos p) max =
    if leb p min_v2pt
    then ltb ((min_v2pt - p) * max) (2 ^ 31)
    else leb ((p - min_v2pt) * max) (2 ^ 31)
fits_int (negsuc n) max = ltb (min_v2pt + n + 1) (2 ^ 31) && ltb ((min_v2pt + n + 1) * max) (2 ^ 31)

-- The result, and what `*errp` is set to.
unfoldable pub translate_priority : ℤ → ℕ → ℕ → ℕ × Option Errno
unfolding telescope telescope_neg
translate_priority (pos p) min max =
    if leb p min_v2pt
    then (telescope (min_v2pt - p) min max, none)
    else (telescope_neg (p - min_v2pt) min max, some illegal_priority)
translate_priority (negsuc n) min max =
    (telescope (min_v2pt + n + 1) min max, some illegal_priority)
