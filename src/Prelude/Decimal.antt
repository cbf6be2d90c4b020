-- ===== src/Prelude/Decimal.antt =====
-- Python's `round` and the quotients of the library's numbers, which are counted in millionths.
use sigenergy_optimizer.Prelude.Tests.{ltb, ◌==◌, if◌then◌else◌}
use sigenergy_optimizer.Prelude.Int.{ℤ, pos, pos_part, neg_part, sub_ℕ, ◌-ℤ◌, ltb_ℤ}
use Prim.Native.Nat.{ℕ, ◌+◌, ◌*◌, ◌/◌, ◌%◌}
use mathlib.Core.Bool.{◌&&◌, ◌||◌}

-- The nearest multiple of a unit, and the even one of two.
abbrev pub round_ℕ : ℕ → ℕ → ℕ
round_ℕ unit n =
    let q = n / unit in
    let double = 2 * (n % unit) in
    (if ltb double unit || double == unit && q % 2 == 0 then q else q + 1) * unit

-- `round(a, 0)`, `round(a, 3)` and `round(a, 4)`, by the unit of the last digit that stays.
unfoldable pub round_ℤ : ℕ → ℤ → ℤ
round_ℤ unit a =
    if ltb_ℤ a (pos 0)
    then pos 0 -ℤ pos (round_ℕ unit (neg_part a))
    else pos (round_ℕ unit (pos_part a))

infixl 70 ◌*ℤ◌
-- The product; that of two numbers counted in millionths is counted in their squares.
unfoldable pub ◌*ℤ◌ : ℤ → ℤ → ℤ
a *ℤ b =
    sub_ℕ (pos_part a * pos_part b + neg_part a * neg_part b)
      (pos_part a * neg_part b + neg_part a * pos_part b)

-- `a * n / d`, towards zero.
unfoldable pub portion : ℤ → ℕ → ℕ → ℤ
portion a n d =
    if ltb_ℤ a (pos 0) then pos 0 -ℤ pos (neg_part a * n / d) else pos (pos_part a * n / d)

-- `min` and `max` of two arguments.
abbrev pub min_ℤ : ℤ → ℤ → ℤ
min_ℤ a b = if ltb_ℤ b a then b else a

abbrev pub max_ℤ : ℤ → ℤ → ℤ
max_ℤ a b = if ltb_ℤ a b then b else a
