-- ===== src/JobScheduler/LegacyKeys.antt =====
-- Which keys src/classes/job-scheduler.ts takes for those of legacy repeatable jobs. A key is the
-- list of its codes.
pub mod Places
pub mod Grammar
use bullmq.Shared.{
  ℕ, zero, suc, ◌-◌, ◌==◌, ltb, leb, if◌then◌else◌, not, ◌&&◌, Bool, true, false, List, [], ◌∷◌,
  Option, none, some, String, ◌<>◌, length, get_elem?,
}

abbrev pub next_index : Option ℕ → Option ℕ
next_index none = none
next_index (some i) = some (suc i)

-- `key.indexOf(char, from)`, where none stands for -1.
unfoldable pub index_of : ℕ → ℕ → List ℕ → Option ℕ
index_of c from [] = none
index_of c zero (x ∷ xs) =
    let rest = index_of c zero xs in if x == c then some 0 else next_index rest
index_of c (suc from) (x ∷ xs) = next_index (index_of c from xs)

abbrev pub is_digit : ℕ → Bool
is_digit c = not (ltb c 48) && not (ltb 57 c)

-- The loop for n indices from i on. Past the end, `charCodeAt` gives NaN, which passes.
unfoldable pub digits_from : ℕ → ℕ → List ℕ → Bool
digits_from zero i key = true
digits_from (suc n) i key = elim (get_elem? key i) [
  | none ↦ digits_from n (suc i) key
  | some c ↦ is_digit c && digits_from n (suc i) key
]

unfoldable pub is_numeric_segment : List ℕ → ℕ → ℕ → Bool
unfolding digits_from
is_numeric_segment key from to = if leb to from then false else digits_from (to - from) from key

-- The checks that follow once the second, the third and the fourth colon are found.
unfoldable pub has_suffix_shape : List ℕ → ℕ → ℕ → ℕ → Bool
unfolding is_numeric_segment index_of
has_suffix_shape key second third fourth =
    if ltb (suc second) third && not (is_numeric_segment key (suc second) third)
    then false
    else if leb (length key) (suc fourth)
    then false
    else elim (index_of b' ' (suc fourth) key) [
      | some i ↦ true
      | none ↦ is_numeric_segment key (suc fourth) (length key)
    ]

unfoldable pub has_legacy_repeatable_key_shape : List ℕ → Bool
unfolding has_suffix_shape index_of
has_legacy_repeatable_key_shape key = elim (index_of b':' 0 key) [
  | none ↦ false
  | some first ↦ elim (index_of b':' (suc first) key) [
    | none ↦ false
    | some second ↦ elim (index_of b':' (suc second) key) [
      | none ↦ false
      | some third ↦ elim (index_of b':' (suc third) key) [
        | none ↦ false
        | some fourth ↦ has_suffix_shape key second third fourth
      ]
    ]
  ]
]

-- The message of `getLegacyRepeatableJobError`.
unfoldable pub legacy_repeatable_job_message : String → String
legacy_repeatable_job_message key =
    "Legacy repeatable job metadata is not supported in BullMQ v6 (key: \"" <> key
    <> "\"). Migrate legacy repeatable jobs to Job Schedulers before upgrading. See "
    <> "https://docs.bullmq.io/guide/migrations/migrate-from-v5-to-v6"
