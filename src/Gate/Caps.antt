-- ===== src/Gate/Caps.antt =====
-- The numbers that a cap may be (packages/core/src/adapters/local-gate.ts): a JavaScript number read
-- from the environment or from a claim is finite, Infinity or NaN, and NaN compares false with all.
use creance.Prelude.{Bool, true, false, if◌then◌else◌}
use creance.Prelude.Int.{ℤ, pos, ◌-ℤ◌, ltb_ℤ}

pub data Amount : Type 0 where
  finite : ℤ → Amount
  infinite : Amount
  not_a_number : Amount

-- `x > a`
abbrev pub exceeds : ℤ → Amount → Bool
exceeds x (finite a) = ltb_ℤ a x
exceeds x infinite = false
exceeds x not_a_number = false

-- `x < a`
abbrev pub is_below : ℤ → Amount → Bool
is_below x (finite a) = ltb_ℤ x a
is_below x infinite = true
is_below x not_a_number = false

-- `a - x`
abbrev pub minus : Amount → ℤ → Amount
minus (finite a) x = finite (a -ℤ x)
minus infinite x = infinite
minus not_a_number x = not_a_number

-- `Math.max(0, a)`
abbrev pub max_zero : Amount → Amount
max_zero (finite a) = finite (if ltb_ℤ a (pos 0) then pos 0 else a)
max_zero infinite = infinite
max_zero not_a_number = not_a_number

-- `Number.isFinite(a)`
abbrev pub is_finite : Amount → Bool
is_finite (finite a) = true
is_finite infinite = false
is_finite not_a_number = false
