-- ===== src/Priority/Order.antt =====
-- The range and the order of the translated priorities.
use native.Mathlib.Decide.{dec_lt}
use cross_compile.Base.{
  ◌⊎◌, inl, inr, ℕ, ◌+◌, ◌-◌, ◌*◌, ◌/◌, ◌%◌, ◌<◌, ◌≤◌, ◌≡◌, ap, Bool, true, false, none, some,
  arith, leb, if◌then◌else◌,
}
use cross_compile.Base.Int.{ℤ, pos, negsuc}
use cross_compile.Errno.{illegal_priority}
use native.Mathlib.Nat.{mod-lt, mod-eq_of_lt, mod_self}
use cross_compile.Priority.{fits_int, translate_priority, telescope, clip}

abbrev pub in_range : ℤ → Bool
in_range (pos p) = leb p 255
in_range (negsuc n) = false

telescope_bounds :
    (above min max : ℕ)
    → min + 2 ≤ max
    → (min ≤ telescope above min max) × (telescope above min max + 2 ≤ max)
unfolding telescope
telescope_bounds above min max h =
    ground (arith, mod-lt (above * max / 256) {m = max - 1} (omega arith))

-- For an argument in range or not for which the arithmetic of translate_priority does not overflow
-- an int, the result lies between the lowest priority of the policy and its highest but two, and an
-- error is reported exactly for an argument outside 0..255.
pub translate_priority_bounds :
    (p : ℤ) (min max : ℕ)
    → min + 2 ≤ max
    → fits_int p max ≡ true
    → (min ≤ (translate_priority p min max).0)
      × ((translate_priority p min max).0 + 2 ≤ max)
      × ((translate_priority p min max).1 ≡ (if in_range p then none else some illegal_priority))
unfolding translate_priority
translate_priority_bounds (pos p) min max h fits =
    ground (arith, telescope_bounds (255 - p) min max h)
translate_priority_bounds (negsuc n) min max h fits =
    ground (arith, telescope_bounds (255 + n + 1) min max h)

-- The product that the code divides, and what it lacks of `256 * max`.
above_sum : (k p max : ℕ) → p + k ≡ 255 → k * max + max * (p + 1) ≡ 256 * max
above_sum k p max e = omega (arith, ap (λ t. t * max) e)

above_mono : (j k max : ℕ) → j ≤ k → j * max / 256 ≤ k * max / 256
above_mono j k max h = div_le _ _ (grind arith)
  where
    div_le : (a b : ℕ) → a ≤ b → a / 256 ≤ b / 256
    div_le a b le = omega arith

mul_mono : (c a b : ℕ) → a ≤ b → c * a ≤ c * b
mul_mono c a b h = grind arith

-- The remainder does nothing short of the top.
scaled_small :
    (k p max : ℕ) → p + k ≡ 255 → 256 < max * (p + 1) → k * max / 256 % (max - 1) ≡ k * max / 256
scaled_small k p max e top = mod-eq_of_lt (omega (arith, above_sum k p max e))

-- Short of the top, a priority with a smaller number is never translated to a lower one.
translate_priority_mono :
    (p q min max : ℕ)
    → min + 2 ≤ max
    → 256 < max * (p + 1)
    → p ≤ q
    → q ≤ 255
    → (translate_priority (pos q) min max).0 ≤ (translate_priority (pos p) min max).0
unfolding translate_priority telescope clip
translate_priority_mono p q min max h top le hi = ground (
  arith,
  scaled_small (255 - p) p max (omega arith) top,
  scaled_small (255 - q) q max (omega arith) top_q,
  above_mono (255 - q) (255 - p) max (omega arith),
)
  where
    top_q : 256 < max * (q + 1)
    top_q = omega (arith, mul_mono max (p + 1) (q + 1) (omega arith))

-- At the top the quotient is `max - 1`, and the remainder makes it 0.
scaled_top :
    (p max : ℕ)
    → 2 ≤ max
    → max * (p + 1) ≤ 256
    → (p ≤ 127) × ((255 - p) * max / 256 % (max - 1) ≡ 0)
scaled_top p max h top = (small, rw quotient (mod_self (max - 1)))
  where
    floor : 2 * (p + 1) ≤ max * (p + 1)
    floor = grind arith

    small : p ≤ 127
    small = omega (arith, floor)

    quotient : (255 - p) * max / 256 ≡ max - 1
    quotient = omega (arith, floor, above_sum (255 - p) p max (omega (arith, small)))

-- At the top the order is lost: every priority `p` with `max * (p + 1) <= 256`, the highest
-- priority 0 among them, is translated to the lowest of all.
translate_priority_top :
    (p min max : ℕ)
    → min + 2 ≤ max
    → max * (p + 1) ≤ 256
    → (translate_priority (pos p) min max).0 ≡ min
unfolding translate_priority telescope clip
translate_priority_top p min max h top = ground (arith, scaled_top p max (omega arith) top)

-- Of two priorities in range, that with the smaller number is not translated to a lower one, unless
-- it is at the top: every priority `p` with `max * (p + 1) <= 256`, the highest priority 0 among them,
-- is translated to the lowest of all.
pub translate_priority_order :
    (p q min max : ℕ)
    → min + 2 ≤ max
    → p ≤ q
    → q ≤ 255
    → ((256 < max * (p + 1))
        × ((translate_priority (pos q) min max).0 ≤ (translate_priority (pos p) min max).0))
      ⊎ ((max * (p + 1) ≤ 256) × ((translate_priority (pos p) min max).0 ≡ min))
translate_priority_order p q min max h le hi = elim (dec_lt 256 (max * (p + 1))) [
  | yes top ↦ inl (top, translate_priority_mono p q min max h top le hi)
  | no top ↦ inr (omega (arith, top), translate_priority_top p min max h (omega (arith, top)))
]
