-- ===== src/QueueGetters.antt =====
-- The counts and ids of jobs in src/classes/queue-getters.ts. A count that the backend does not
-- give is `none`.
pub mod Totals
pub mod Ranges
use bullmq.Shared.{
  ℕ, ◌+◌, ◌===◌, ◌||◌, Bool, if◌then◌else◌, List, [], ◌∷◌, ◌++◌, Option, none, some, String, Dict,
  put, has, reverse,
}

-- Adding to a `Set`, and the entries of a `Set` of a list.
unfoldable pub insert : String → List String → List String
insert s seen = if has seen s then seen else seen ++ s ∷ []

abbrev pub insert_all : List String → List String → List String
insert_all [] seen = seen
insert_all (s ∷ ss) seen = insert_all ss (insert s seen)

unfoldable pub sanitize_job_types : List String → List String
unfolding insert
sanitize_job_types [] =
    "active" ∷ "completed" ∷ "delayed" ∷ "failed" ∷ "prioritized" ∷ "waiting" ∷ "waiting-children"
    ∷ []
sanitize_job_types (t ∷ ts) = insert_all (t ∷ ts) []

-- `res || 0`.
abbrev pub or_zero : Option ℕ → ℕ
or_zero none = 0
or_zero (some n) = n

-- The loop over the answers: an answer without a type is the key "undefined".
unfoldable pub set_counts : List (Option ℕ) → List String → Dict ℕ → Dict ℕ
set_counts [] ts m = m
set_counts (r ∷ rs) [] m = set_counts rs [] (put "undefined" (or_zero r) m)
set_counts (r ∷ rs) (t ∷ ts) m = set_counts rs ts (put t (or_zero r) m)

-- `backend` is `getCounts` of the backend.
unfoldable pub get_job_counts : (List String → List (Option ℕ)) → List String → Dict ℕ
unfolding sanitize_job_types set_counts
get_job_counts backend types =
    let current = sanitize_job_types types in set_counts (backend current) current []

unfoldable pub sum_values : Dict ℕ → ℕ
sum_values [] = 0
sum_values ((t, n) ∷ m) = n + sum_values m

unfoldable pub get_job_count_by_types : (List String → List (Option ℕ)) → List String → ℕ
unfolding get_job_counts sum_values
get_job_count_by_types backend types = sum_values (get_job_counts backend types)

pub data Command : Type 0 where
  zrange lrange : Command

-- The command of a type in `commandByType`, without the counting ones; a type may have none.
unfoldable pub command_by_type : String → Option Command
command_by_type t =
    if t === "completed"
      || t === "failed"
      || t === "delayed"
      || t === "prioritized"
      || t === "repeat"
      || t === "waiting-children"
    then some zrange
    else if t === "active" || t === "wait" || t === "waiting"
    then some lrange
    else none

-- `multiCommands`.
unfoldable pub multi_commands : List String → List Command
unfolding command_by_type
multi_commands [] = []
multi_commands (t ∷ ts) = elim (command_by_type t) [
  | none ↦ multi_commands ts
  | some c ↦ c ∷ multi_commands ts
]

abbrev pub or_nil : Option (List String) → List String
or_nil none = []
or_nil (some l) = l

abbrev pub reversed : Bool → Command → List String → List String
reversed asc zrange l = l
reversed asc lrange l = if asc then reverse l else l

-- The loop over the answers, an answer past the commands being taken as it is.
unfoldable pub merge : Bool → List (Option (List String)) → List Command → List String → List String
merge asc [] cs results = results
merge asc (r ∷ rs) [] results = merge asc rs [] (results ++ or_nil r)
merge asc (r ∷ rs) (c ∷ cs) results = merge asc rs cs (results ++ reversed asc c (or_nil r))

-- `backend` is `getRanges` of the backend.
unfoldable pub get_ranges :
    (List String → Bool → List (Option (List String))) → List String → Bool → List String
unfolding multi_commands merge insert
get_ranges backend types asc =
    insert_all (merge asc (backend types asc) (multi_commands types) []) []

-- The ids that `getJobs` collects from the answers of the Redis backend: the loop for one answer,
-- and the loop over the answers, on the `Set` and the list.
unfoldable pub collect : List String → List String × List String → List String × List String
unfolding insert
collect [] s = s
collect (i ∷ is) (seen, ids) =
    let rest = collect is (insert i seen, ids ++ i ∷ []) in
    let same = collect is (seen, ids) in if has seen i then same else rest

unfoldable pub collect_all :
    List (Option (List String)) → List String × List String → List String × List String
unfolding collect
collect_all [] s = s
collect_all (r ∷ rs) s = collect_all rs (collect (or_nil r) s)

unfoldable pub get_job_ids : List (Option (List String)) → List String
unfolding collect_all
get_job_ids answers = (collect_all answers ([], [])).1
