-- ===== src/Tests/QueueGetters.antt =====
-- Counts and ids of src/classes/queue-getters.ts.
use bullmq.Shared.{
  ℕ, ◌===◌, if◌then◌else◌, ◌≡◌, ◌≢◌, refl, Bool, false, List, [], ◌∷◌, map, Option, none, some,
  String, has, IsDistinct,
}
use bullmq.QueueGetters.{get_job_count_by_types, sanitize_job_types}
use bullmq.QueueGetters.Totals.{sum, get_job_count_by_types_lem}

abbrev count : String → ℕ
count t = if t === "failed" then 2 else if t === "wait" then 3 else if t === "waiting" then 3 else 0

abbrev counting : List String → List (Option ℕ)
counting ts = map (λ t. some (count t)) ts

-- A type that is named twice is counted once, but "wait" and its alias "waiting" are both counted.
alias_counts_twice : get_job_count_by_types counting ("wait" ∷ "waiting" ∷ "wait" ∷ []) ≡ 6
unfolding get_job_count_by_types bullmq.Shared.put
alias_counts_twice = refl

abbrev ts : List String
ts = "failed" ∷ "wait" ∷ "failed" ∷ []

get_job_count_by_types_lem_example :
    (get_job_count_by_types counting ts ≡ sum (map count (sanitize_job_types ts)))
    × IsDistinct (sanitize_job_types ts)
    × (ts ≢ [] → (t : String) → has (sanitize_job_types ts) t ≡ has ts t)
get_job_count_by_types_lem_example = get_job_count_by_types_lem counting count ts (λ types. refl)

abbrev answering : List String → Bool → List (Option (List String))
answering types asc = some ("1" ∷ "2" ∷ []) ∷ none ∷ some ("2" ∷ "3" ∷ []) ∷ []
