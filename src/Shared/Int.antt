-- ===== src/Shared/Int.antt =====
-- Integers, and numbers with a fractional part as exact fractions.
use Prim.Native.Nat.{ℕ, zero, suc, ◌-◌, ◌*◌, ◌/◌}
use mathlib.Core.Bool.{Bool, true, false}
use bullmq.Shared.Tests.{ltb, leb, if◌then◌else◌}

-- `negsuc n` is -(n + 1).
pub data ℤ : Type 0 where
  pos : ℕ → ℤ
  negsuc : ℕ → ℤ

abbrev pub is_minus_one : ℤ → Bool
is_minus_one (pos n) = false
is_minus_one (negsuc n) = elim n [ zero ↦ true | suc m ↦ false ]

-- Whether a number is 0, which a test in the source takes for false.
abbrev pub is_zero : ℤ → Bool
is_zero (pos n) = elim n [ zero ↦ true | suc m ↦ false ]
is_zero (negsuc n) = false

-- a - b.
abbrev pub sub_ℕ : ℕ → ℕ → ℤ
sub_ℕ a b = if leb b a then pos (a - b) else negsuc (b - a - 1)

-- `Math.floor((a - b) / d)`, for a positive `d`.
abbrev pub floor_div : ℕ → ℕ → ℕ → ℤ
floor_div a b d = if leb b a then pos ((a - b) / d) else negsuc ((b - a - 1) / d)

-- A finite number of the source, `numerator / denominator`, below 0 if `negative`.
pub record Fraction : Type 0 where
  pub negative : Bool
  pub numerator : ℕ
  pub denominator : ℕ

-- `q > 0`, and `q < 0`, where 0 has no sign.
abbrev pub is_positive : Fraction → Bool
is_positive q = if q.negative then false else ltb 0 q.numerator

abbrev pub is_negative : Fraction → Bool
is_negative q = if q.negative then ltb 0 q.numerator else false

-- `q > n`.
abbrev pub exceeds : Fraction → ℕ → Bool
exceeds q n = if q.negative then false else ltb (n * q.denominator) q.numerator
