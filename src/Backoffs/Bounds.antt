-- ===== src/Backoffs/Bounds.antt =====
-- The bounds of the delays of src/classes/backoffs.ts, for every value of `Math.random()`.
use native.Mathlib.Nat.{
  div-le_of_le-mul, le-div_iff_mul-le, mul-le-mul_left, mul-le-mul_right, div-mul-le_self, mul_comm,
}
use bullmq.Shared.{
  ℕ, ◌+◌, ◌-◌, ◌*◌, ◌/◌, ◌≤◌, ◌<◌, ◌===◌, if◌then◌else◌, ◌≡◌, refl, ap, ◌⊎◌, inl, inr, false,
  Option, some, String, ℤ, pos, floor_div, Fraction, is_positive, returns, arith, Bool-cases,
}
use bullmq.Backoffs.{
  BackoffOptions, Strategy, jittered, fixed, doubled, exponential, or_zero, lookup_strategy,
  calculate,
}

-- The numerator of the delay, with the subtraction carried out.
numerator_lem : (a c jn jd : ℕ) → jn ≤ jd → a * jn + c * jd - c * jn ≡ a * jn + c * (jd - jn)
numerator_lem a c jn jd h =
    let e : jd ≡ jn + (jd - jn) = omega arith in omega (arith, ap (λ (t : ℕ). c * t) e)

-- A number in [0, 1].
pub record IsUnit (q : Fraction) : Type 0 where
  pub sign : q.negative ≡ false
  pub defined : 0 < q.denominator
  pub at_most : q.numerator ≤ q.denominator

-- A value of `Math.random()`.
pub record IsRandom (q : Fraction) : Type 0 where
  pub below : q.numerator < q.denominator

-- `Math.floor(d * (1 - jitter))`.
abbrev pub least : Fraction → ℕ → ℕ
least jitter d = d * (jitter.denominator - jitter.numerator) / jitter.denominator

quotient_le :
    (rn rd d jn jd : ℕ)
    → rn < rd
    → jn ≤ jd
    → (rn * d * jn + rd * d * jd - rd * d * jn) / (rd * jd) ≤ d
quotient_le rn rd d jn jd h k = div-le_of_le-mul (rd * jd) (
    omega (
      arith,
      mul-le-mul_right jn (mul-le-mul_right d (lt_le rn rd h)),
      numerator_lem (rn * d) (rd * d) jn jd k,
    ))
  where
    lt_le : (x y : ℕ) → x < y → x ≤ y
    lt_le x y p = omega arith

mul-pos : (a b : ℕ) → 0 < a → 0 < b → 0 < a * b
mul-pos a b h k = grind arith

le_quotient :
    (rn rd d jn jd : ℕ)
    → 0 < rd
    → 0 < jd
    → jn ≤ jd
    → d * (jd - jn) / jd ≤ (rn * d * jn + rd * d * jd - rd * d * jn) / (rd * jd)
le_quotient rn rd d jn jd h p k =
    let x = d * (jd - jn) / jd in
    (le-div_iff_mul-le (mul-pos rd jd h p)).1 (
      omega (
        arith,
        mul-le-mul_left rd (div-mul-le_self (d * (jd - jn)) jd),
        numerator_lem (rn * d) (rd * d) jn jd k,
      ))

-- A delay is between `least` and its base.
abbrev pub Within : ℕ → ℕ → Option ℤ → Type 0
Within low high o = (w : ℕ) × (o ≡ some (pos w)) × (low ≤ w) × (w ≤ high)

floor_div-pos : (a b d : ℕ) → b ≤ a → floor_div a b d ≡ pos ((a - b) / d)
floor_div-pos a b d h = ground arith

jittered-Within :
    (random jitter : Fraction) (d : ℕ)
    → IsRandom random
    → IsUnit jitter
    → Within (least jitter d) d (some (jittered random jitter d))
unfolding jittered
jittered-Within random jitter d r j =
    let rn = random.numerator in
    let rd = random.denominator in
    let jn = jitter.numerator in
    let jd = jitter.denominator in
    let low = mul-le-mul_left (rd * d) j.at_most in
    (
      (rn * d * jn + rd * d * jd - rd * d * jn) / (rd * jd),
      ap some (floor_div-pos _ _ (rd * jd) (omega (arith, low))),
      le_quotient rn rd d jn jd (omega (arith, r.below)) j.defined j.at_most,
      quotient_le rn rd d jn jd r.below j.at_most,
    )

least-le : (jitter : Fraction) (d : ℕ) → IsUnit jitter → least jitter d ≤ d
least-le jitter d j = div-le_of_le-mul jitter.denominator (
    omega (
      arith,
      mul_comm d jitter.denominator,
      mul-le-mul_left d (minus_le jitter.denominator jitter.numerator),
    ))
  where
    minus_le : (a b : ℕ) → a - b ≤ a
    minus_le a b = omega arith

-- The base of the delay after `n` attempts: the delay itself, or its double for each attempt.
abbrev pub base : String → ℕ → ℕ → ℕ
base t n d = if t === "fixed" then d else doubled n d

fixed-Within :
    (random jitter : Fraction) (d n : ℕ)
    → IsRandom random
    → IsUnit jitter
    → Within (least jitter d) d (fixed random d jitter n)
unfolding fixed
fixed-Within random jitter d n r j = elim (Bool-cases (is_positive jitter)) [
  | inl e ↦ rw e (jittered-Within random jitter d r j)
  | inr e ↦ rw e (d, refl, least-le jitter d j, omega arith)
]

exponential-Within :
    (random jitter : Fraction) (d n : ℕ)
    → IsRandom random
    → IsUnit jitter
    → Within (least jitter (doubled n d)) (doubled n d) (exponential random d jitter n)
unfolding exponential
exponential-Within random jitter d n r j =
    let m = doubled n d in
    elim (Bool-cases (is_positive jitter)) [
      | inl e ↦ rw e (jittered-Within random jitter m r j)
      | inr e ↦ rw e (m, refl, least-le jitter m j, omega arith)
    ]

-- The two built-in strategies, for a delay `d`, a jitter in [0, 1] and any value of
-- `Math.random()`: `calculate` does not throw, whatever custom strategy there is, and its answer
-- lies between `Math.floor(base * (1 - jitter))` and `base`, where `base` is `d` for `fixed` and
-- `Math.round(2 ** (n - 1) * d)` after `n` attempts for `exponential`.
pub calculate_bounds :
    (random : Fraction) (b : BackoffOptions) (d n : ℕ) (custom : Option Strategy)
    → IsRandom random
    → IsUnit (or_zero b.jitter)
    → b.delay ≡ some d
    → (b.type ≡ "fixed") ⊎ (b.type ≡ "exponential")
    → (answer : Option ℤ) × (calculate random (some b) n custom ≡ returns answer)
      × Within (least (or_zero b.jitter) (base b.type n d)) (base b.type n d) answer
unfolding calculate lookup_strategy
calculate_bounds random b d n custom r j delay (inl e) =
    rw (delay, e)
      (fixed random d (or_zero b.jitter) n, refl, fixed-Within random (or_zero b.jitter) d n r j)
calculate_bounds random b d n custom r j delay (inr e) =
    rw (delay, e)
      (
        exponential random d (or_zero b.jitter) n,
        refl,
        exponential-Within random (or_zero b.jitter) d n r j,
      )
