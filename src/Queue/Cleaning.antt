-- ===== src/Queue/Cleaning.antt =====
-- How many jobs `clean` of src/classes/queue.ts deletes.
use bullmq.Shared.{
  ℕ, zero, suc, ◌+◌, ◌≤◌, ◌<◌, ◌≡◌, refl, min, ltb, true, [], some, String, length, length-append,
  arith, Bool-cases, inl, inr, ◌⊎◌, ap, sym, subst, leb, if◌then◌else◌, ◌∙◌, ◌-◌,
}
use bullmq.Queue.{
  Cleaned, CleanCall, clean_loop, clean, with_ids, normalized, max_count, max_count_per_call,
}

-- A call deletes at most as many jobs as it is asked for.
abbrev pub IsLimited : {S : Type 0} → CleanCall S → Type 0
IsLimited {S} call = (n : ℕ) (s : S) → length (call n s).0 ≤ n

-- The loop keeps to a bound, if the numbers of deleted jobs that it comes through with full calls
-- do.
loop-ends :
    {S : Type 0} (fuel : ℕ) (call : CleanCall S) (type : String) (limit per_call bound : ℕ)
    (Seen : ℕ → Type 0) (c : Cleaned S)
    → IsLimited call
    → 0 < per_call
    → ((n : ℕ) → Seen n → n ≤ bound)
    → ((n : ℕ) → Seen n → n < limit → Seen (n + per_call))
    → Seen (length c.ids)
    → suc (limit - length c.ids) ≤ fuel
    → (d : Cleaned S) × (clean_loop fuel call type (some limit) per_call (length c.ids) c ≡ some d)
      × (length d.ids ≤ bound)
unfolding clean_loop
loop-ends zero call type limit per_call bound Seen c h p b n e f = absurd (omega arith)
loop-ends (suc fuel) call type limit per_call bound Seen c h p b n e f =
    let ids = (call per_call c.backend).0 in
    let c' = with_ids ids type (call per_call c.backend).1 c in
    let m : length c'.ids ≡ length c.ids + length ids = length-append c.ids ids in
    elim (Bool-cases (ltb (length c.ids) limit)) [
      | inr k ↦ (c, rw (k, clean_loop) refl, b (length c.ids) e)
      | inl k ↦
          let next = n (length c.ids) e (ground arith) in
          elim (Bool-cases (ltb (length ids) per_call)) [
            | inl l ↦ (
              c',
              rw (k, l, clean_loop) refl,
              ground (arith, m, b (length c.ids + per_call) next),
            )
            | inr l ↦
                let full : length c'.ids ≡ length c.ids + per_call =
                  ground (arith, m, h per_call c.backend) in
                let (d, q, r) =
                  loop-ends fuel call type limit per_call bound Seen c' h p b n
                    (subst Seen (sym full) next) (ground (arith, full)) in
                (
                  d,
                  rw (k, l, clean_loop)
                      (subst (λ x. clean_loop fuel call type (some limit) per_call x c' ≡ some d) m
                        q),
                  r,
                )
          ]
    ]

-- The most that `clean` deletes.
abbrev pub most : ℕ → ℕ
most limit = if leb limit 10000 then limit else limit + 9999

start : {S : Type 0} → S → Cleaned S
start s = record { ids = []; events = []; backend = s }

limited :
    {S : Type 0} (fuel : ℕ) (call : CleanCall S) (limit : ℕ) (type : String) (s : S)
    → 0 < limit
    → clean_loop fuel call (normalized type) (some limit) (min 10000 limit) 0 (start s)
      ≡ clean fuel call limit type s
unfolding clean start
limited fuel call limit type s p =
    let e : some limit ≡ max_count limit = ground arith in
    ap (λ m. clean_loop fuel call (normalized type) m (max_count_per_call m) 0 (start s)) e

-- The numbers of deleted jobs that full calls come through.
small_seen :
    (limit : ℕ)
    → limit ≤ 10000
    → (n : ℕ) → (n ≡ 0) ⊎ (n ≡ limit)
    → n < limit
    → (n + min 10000 limit ≡ 0) ⊎ (n + min 10000 limit ≡ limit)
small_seen limit h n (inl e) l = inr (omega arith)
small_seen limit h n (inr e) l = absurd (omega arith)

small_bound : (limit n : ℕ) → leb limit 10000 ≡ true → (n ≡ 0) ⊎ (n ≡ limit) → n ≤ most limit
small_bound limit n h (inl e) = ground arith
small_bound limit n h (inr e) = ground arith

-- `clean` with a limit above 0 ends after at most as many calls as the limit and one more. It
-- deletes no more jobs than a limit of at most 10,000, and with a larger limit fewer than 10,000
-- jobs beyond it, if each call deletes at most as many as it is asked for.
pub clean-bounds :
    {S : Type 0} (call : CleanCall S) (limit : ℕ) (type : String) (s : S)
    → IsLimited call
    → 0 < limit
    → (d : Cleaned S) × (clean (suc limit) call limit type s ≡ some d) × (length d.ids ≤ most limit)
unfolding start
clean-bounds call limit type s h p = elim (Bool-cases (leb limit 10000)) [
  | inl e ↦
      let (d, q, r) =
        loop-ends (suc limit) call (normalized type) limit (min 10000 limit) (most limit)
          (λ n. (n ≡ 0) ⊎ (n ≡ limit)) (start s) h (omega arith) (λ n. small_bound limit n e)
          (small_seen limit (ground arith)) (inl refl) (omega arith) in
      (d, sym (limited (suc limit) call limit type s p) ∙ q, r)
  | inr e ↦
      let (d, q, r) =
        loop-ends (suc limit) call (normalized type) limit (min 10000 limit) (most limit)
          (λ n. n < limit + 10000) (start s) h (omega arith) (λ n l. ground arith)
          (λ n l m. omega arith) (omega arith) (omega arith) in
      (d, sym (limited (suc limit) call limit type s p) ∙ q, r)
]
