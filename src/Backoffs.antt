-- ===== src/Backoffs.antt =====
-- The delays between the attempts of a job, src/classes/backoffs.ts.
pub mod Bounds
use bullmq.Shared.{
  ℕ, zero, suc, ◌+◌, ◌-◌, ◌*◌, ◌/◌, ◌^◌, ◌==◌, ◌===◌, ◌||◌, if◌then◌else◌, Bool, true, false,
  Option, none, some, String, ℤ, pos, floor_div, Fraction, is_positive, Outcome, returns, throws,
}

pub record BackoffOptions : Type 0 where
  pub type : String
  pub delay : Option ℕ
  pub jitter : Option Fraction

-- `number | BackoffOptions`, and `undefined` as `none` around it.
pub data Backoff : Type 0 where
  millis : ℕ → Backoff
  options : BackoffOptions → Backoff

-- What ends the choice of a delay: a type that has no strategy, the call of something that is no
-- function, or an error that a custom strategy throws or rejects with.
pub data StrategyError : Type 0 where
  unknown_strategy not_a_function : String → StrategyError
  custom_throws : String → StrategyError

-- A built-in strategy answers with a delay, `none` standing for `undefined` and `NaN`. `random` is
-- what `Math.random()` gives, below 1.
abbrev Builtin : Type 0
Builtin = (attempts_made : ℕ) → Option ℤ

-- A strategy may throw. A custom one stands here for its calls with one error and one job.
abbrev pub Strategy : Type 0
Strategy = (attempts_made : ℕ) → Outcome StrategyError (Option ℤ)

-- The delay with jitter: `Math.floor(Math.random() * d * jitter + d * (1 - jitter))`.
unfoldable pub jittered : Fraction → Fraction → ℕ → ℤ
jittered random jitter d =
    floor_div
      (random.numerator * d * jitter.numerator + random.denominator * d * jitter.denominator)
      (random.denominator * d * jitter.numerator) (random.denominator * jitter.denominator)

unfoldable pub fixed : Fraction → ℕ → Fraction → Builtin
unfolding jittered
fixed random delay jitter attempts_made =
    if is_positive jitter then some (jittered random jitter delay) else some (pos delay)

-- `Math.round(Math.pow(2, attemptsMade - 1) * delay)`: for no attempt, half the delay, rounded.
unfoldable pub doubled : ℕ → ℕ → ℕ
doubled zero delay = (delay + 1) / 2
doubled (suc n) delay = 2 ^ n * delay

unfoldable pub exponential : Fraction → ℕ → Fraction → Builtin
unfolding jittered doubled
exponential random delay jitter attempts_made =
    let max_delay = doubled attempts_made delay in
    if is_positive jitter then some (jittered random jitter max_delay) else some (pos max_delay)

abbrev pub no_jitter : Fraction
no_jitter = record { negative = false; numerator = 0; denominator = 1 }

-- `jitter = 0` as a default parameter.
abbrev pub or_zero : Option Fraction → Fraction
or_zero none = no_jitter
or_zero (some j) = j

-- A built-in strategy at a delay that may be missing: arithmetic with `undefined` gives `NaN`.
abbrev pub at_delay : (ℕ → Builtin) → Option ℕ → Strategy
at_delay f none n = returns none
at_delay f (some d) n = returns (f d n)

unfoldable pub normalize : Option Backoff → Option BackoffOptions
normalize none = none
normalize (some (millis n)) = some (record { type = "fixed"; delay = some n; jitter = none })
normalize (some (options o)) = some o

-- The names that `in` finds in every object.
unfoldable pub is_inherited : String → Bool
is_inherited t =
    t === "constructor"
    || t === "hasOwnProperty"
    || t === "isPrototypeOf"
    || t === "propertyIsEnumerable"
    || t === "toLocaleString"
    || t === "toString"
    || t === "valueOf"
    || t === "__proto__"
    || t === "__defineGetter__"
    || t === "__defineSetter__"
    || t === "__lookupGetter__"
    || t === "__lookupSetter__"

abbrev or_unknown : String → Option Strategy → Outcome StrategyError Strategy
or_unknown t none = throws (unknown_strategy t)
or_unknown t (some s) = returns s

-- An inherited name is called in place of a strategy: either that call or the call of what it
-- returns is a `TypeError`, since none of them returns a function. Both are thrown here.
unfoldable pub lookup_strategy :
    Fraction → BackoffOptions → Option Strategy → Outcome StrategyError Strategy
unfolding fixed exponential is_inherited
lookup_strategy random b custom =
    if b.type === "fixed"
    then returns (at_delay (λ d. fixed random d (or_zero b.jitter)) b.delay)
    else if b.type === "exponential"
    then returns (at_delay (λ d. exponential random d (or_zero b.jitter)) b.delay)
    else if is_inherited b.type
    then throws (not_a_function b.type)
    else or_unknown b.type custom

unfoldable pub calculate :
    Fraction → Option BackoffOptions → ℕ → Option Strategy → Outcome StrategyError (Option ℤ)
unfolding lookup_strategy
calculate random none attempts_made custom = returns none
calculate random (some b) attempts_made custom = elim (lookup_strategy random b custom) [
  | returns strategy ↦ strategy attempts_made
  | throws e ↦ throws e
]
