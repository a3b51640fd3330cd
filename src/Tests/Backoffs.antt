-- ===== src/Tests/Backoffs.antt =====
-- Delays of src/classes/backoffs.ts.
use bullmq.Shared.{
  ◌≡◌, refl, inr, false, Option, none, some, Fraction, ℤ, pos, returns, throws, arith,
}
use bullmq.Backoffs.{BackoffOptions, calculate, unknown_strategy, not_a_function, custom_throws}
use bullmq.Backoffs.Bounds.{Within, least, base, calculate_bounds}

abbrev three_quarters : Fraction
three_quarters = record { negative = false; numerator = 3; denominator = 4 }

abbrev half : Fraction
half = record { negative = false; numerator = 1; denominator = 2 }

abbrev doubling : BackoffOptions
doubling = record { type = "exponential"; delay = some 1000; jitter = some half }

abbrev named : BackoffOptions
named = record { type = "mine"; delay = none; jitter = none }

third_attempt : calculate three_quarters (some doubling) 3 none ≡ returns (some (pos 3500))
unfolding calculate
third_attempt = refl

unknown_name : calculate half (some named) 1 none ≡ throws (unknown_strategy "mine")
unfolding calculate
unknown_name = refl

-- An inherited name does not reach the custom strategy, which throws on any other name.
inherited_name :
    calculate half
      (some (record named { type = "toString" }))
      1
      (some (λ n. throws (custom_throws "no")))
    ≡ throws (not_a_function "toString")
unfolding calculate
inherited_name = refl

custom_name :
    calculate half (some named) 1 (some (λ n. throws (custom_throws "no")))
    ≡ throws (custom_throws "no")
unfolding calculate
custom_name = refl

calculate_bounds_example :
    (answer : Option ℤ) × (calculate three_quarters (some doubling) 3 none ≡ returns answer)
    × Within (least half (base "exponential" 3 1000)) (base "exponential" 3 1000) answer
calculate_bounds_example =
    calculate_bounds three_quarters doubling 1000 3 none (omega arith)
      (record { sign = refl; defined = omega arith; at_most = omega arith }) refl (inr refl)
