-- ===== src/Worker/Retrying/Answers.antt =====
-- How `retryIfFailed` of src/classes/worker.ts ends, by the answers of the operation.
use bullmq.Shared.{
  ℕ, zero, suc, ◌+◌, ◌<◌, if◌then◌else◌, Bool, true, false, Option, none, some, Outcome,
  Outcome-cases, Bool-cases, inl, inr, subst, ◌⊎◌, returns, throws, ◌≡◌, refl, ap, arith,
}
use bullmq.Worker.Retrying.{
  RetryOptions, Flags, Ended, gives, swallows, rethrows, Retried, is_last, delays_after, counted,
  retry_if_failed,
}

-- The call number `k`, counted from 0, is before the last of as many as the limit says. A limit
-- that is absent or 0 is none.
abbrev pub IsBeforeLimit : Option ℕ → ℕ → Type 0
IsBeforeLimit limit k = (n : ℕ) → limit ≡ some n → (n ≡ 0) ⊎ (suc k < n)

at_limit-is_last : (limit : Option ℕ) (k : ℕ) → limit ≡ some (suc k) → is_last limit k ≡ true
at_limit-is_last limit k e = rw e (ground arith)

before_limit-is_last : (limit : Option ℕ) (k : ℕ) → IsBeforeLimit limit k → is_last limit k ≡ false
before_limit-is_last none k h = refl
before_limit-is_last (some zero) k h = refl
before_limit-is_last (some (suc m)) k h = elim (h (suc m) refl) [
  | inl e ↦ absurd (omega arith)
  | inr lt ↦ ground arith
]

module _ {ℓ κ μ} {E : Type ℓ} {A : Type κ} {S : Type μ} (is_not_connection : E → Bool)
    (fn : S → Outcome E A × S) where
  -- The state after some calls of the operation, and what the next one answers.
  abbrev pub after : ℕ → S → S
  after zero s = s
  after (suc k) s = after k (fn s).1

  abbrev pub answer : ℕ → S → Outcome E A
  answer k s = (fn (after k s)).0

  -- An answer that is an error of the connection.
  abbrev pub is_transient : Outcome E A → Bool
  is_transient (returns a) = false
  is_transient (throws e) = if is_not_connection e then false else true

  -- How the call ends on an answer that is not retried.
  abbrev pub end_of : Bool → Outcome E A → Ended E A
  end_of only_emit (returns a) = gives a
  end_of only_emit (throws e) =
      if is_not_connection e then if only_emit then swallows else rethrows e else rethrows e

  module _ (flags : S → Flags) (opts : RetryOptions) where
    -- The call ends with the answer of its call number `k`.
    abbrev EndsAfter : ℕ → S → Retried E A S → Type (ℓ ⊔ κ ⊔ μ)
    EndsAfter k s r =
        (r.ended ≡ end_of opts.only_emit_error (answer k s))
        × (r.calls ≡ suc k)
        × (r.state ≡ after (suc k) s)

    last_lem :
        (fuel retry : ℕ) (s : S)
        → (is_transient (answer 0 s) ≡ false) ⊎ (is_last opts.max_retries retry ≡ true)
        → EndsAfter 0 s (retry_if_failed is_not_connection flags (suc fuel) retry fn opts s)
    unfolding retry_if_failed
    last_lem fuel retry s h = elim (Outcome-cases (fn s).0) [
      | inl (a, e) ↦ rw (e, retry_if_failed) (refl, refl, refl)
      | inr (x, e) ↦ elim (Bool-cases (is_not_connection x)) [
        | inl permanent ↦ rw (e, permanent, retry_if_failed) (refl, refl, refl)
        | inr transient ↦ elim h [
          | inl permanent ↦ absurd (ground (arith, permanent, e, transient))
          | inr last ↦ rw (e, transient, last, retry_if_failed) (refl, refl, refl)
        ]
      ]
    ]

    more_lem :
        (fuel retry : ℕ) (s : S)
        → is_transient (answer 0 s) ≡ true
        → is_last opts.max_retries retry ≡ false
        → retry_if_failed is_not_connection flags (suc fuel) retry fn opts s
          ≡ counted
              (delays_after opts (flags (fn s).1))
              (retry_if_failed is_not_connection flags fuel (retry + 1) fn opts (fn s).1)
    unfolding retry_if_failed
    more_lem fuel retry s h left = elim (Outcome-cases (fn s).0) [
      | inl (a, e) ↦ absurd (ground (arith, h, e))
      | inr (x, e) ↦ elim (Bool-cases (is_not_connection x)) [
        | inl permanent ↦ absurd (ground (arith, h, e, permanent))
        | inr transient ↦ rw (e, transient, left, retry_if_failed) refl
      ]
    ]

    retry_ends :
        (k fuel retry : ℕ) (s : S)
        → ((j : ℕ) → j < k → is_transient (answer j s) ≡ true)
        → ((j : ℕ) → j < k → is_last opts.max_retries (retry + j) ≡ false)
        → (is_transient (answer k s) ≡ false) ⊎ (is_last opts.max_retries (retry + k) ≡ true)
        → k < fuel
        → EndsAfter k s (retry_if_failed is_not_connection flags fuel retry fn opts s)
    retry_ends k zero retry s hs ls h lt = absurd (omega arith)
    retry_ends zero (suc fuel) retry s hs ls h lt = last_lem fuel retry s (
        subst (λ n. (is_transient (answer 0 s) ≡ false) ⊎ (is_last opts.max_retries n ≡ true))
          (omega arith) h)
    retry_ends (suc k) (suc fuel) retry s hs ls h lt =
        rw
          (more_lem fuel retry s (hs 0 (omega arith)) (
            subst (λ n. is_last opts.max_retries n ≡ false) {x = retry + 0} (omega arith)
              (ls 0 (omega arith))))
          (let rest =
              retry_ends k fuel (retry + 1) (fn s).1 (λ j p. hs (suc j) (omega arith))
                (λ j p.
                  subst (λ n. is_last opts.max_retries n ≡ false) (omega arith)
                    (ls (suc j) (omega arith)))
                (subst
                  (λ n.
                    (is_transient (answer (suc k) s) ≡ false) ⊎ (is_last opts.max_retries n ≡ true))
                  {x = retry + suc k} (omega arith) h)
                (omega arith) in
            (rest.0, ap suc rest.1, rest.2))

    -- The call ends with the first answer that is no error of the connection, and no later than
    -- with answer number `maxRetries`, errors of the connection included: if every answer before
    -- number `k`, counted from 0, is such an error, `k + 1` calls are within `maxRetries`, where a
    -- limit that is absent or 0 is none, and answer number `k` is no such error or `maxRetries` is
    -- `k + 1`, then the operation is called `k + 1` times, one call on the state that the one
    -- before has left, and the value, the error or, if errors are only emitted, the swallowed error
    -- of the last answer is the end, for any fuel above `k`.
    pub retry_if_failed_ends :
        (k fuel : ℕ) (s : S)
        → ((j : ℕ) → j < k → is_transient (answer j s) ≡ true)
        → ((j : ℕ) → j < k → IsBeforeLimit opts.max_retries j)
        → (is_transient (answer k s) ≡ false) ⊎ (opts.max_retries ≡ some (suc k))
        → k < fuel
        → let r = retry_if_failed is_not_connection flags fuel 0 fn opts s in
          (r.ended ≡ end_of opts.only_emit_error (answer k s))
          × (r.calls ≡ suc k)
          × (r.state ≡ after (suc k) s)
    retry_if_failed_ends k fuel s hs ls h lt =
        retry_ends k fuel 0 s hs
          (λ j p.
            subst (λ n. is_last opts.max_retries n ≡ false) (omega arith)
              (before_limit-is_last opts.max_retries j (ls j p)))
          (subst (λ n. (is_transient (answer k s) ≡ false) ⊎ (is_last opts.max_retries n ≡ true))
            (omega arith)
            (elim h [ inl e ↦ inl e | inr e ↦ inr (at_limit-is_last opts.max_retries k e) ]))
          lt
