-- ===== src/Queue.antt =====
-- The class `Queue` of src/classes/queue.ts: the methods that call the backend until it has nothing
-- left to do.
pub mod Cleaning
use bullmq.Shared.{
  ℕ, zero, suc, ◌+◌, min, ltb, ◌==◌, if◌then◌else◌, Bool, true, false, List, [], ◌∷◌, ◌++◌, Option,
  none, some, String, ◌===◌, length, Outcome, returns, throws, throw_if, ◌>>◌,
}

-- The events that the queue emits.
pub data Event : Type 0 where
  paused : Event
  cleaned : List String → String → Event

-- `do { cursor = await call() } while (cursor)`, on fuel: the state of the backend afterwards.
unfoldable pub until_done : {S : Type 0} → ℕ → (S → ℕ × S) → S → Option S
until_done zero call s = none
until_done (suc fuel) call s =
    let (cursor, s') = call s in
    let rest = until_done fuel call s' in if cursor == 0 then some s' else rest

-- `obliterate`, after the queue has been paused.
unfoldable pub obliterate : {S : Type 0} → ℕ → (S → S) → (S → ℕ × S) → S → List Event × Option S
unfolding until_done
obliterate fuel pause call s = (paused ∷ [], until_done fuel call (pause s))

unfoldable pub retry_jobs : {S : Type 0} → ℕ → (S → ℕ × S) → S → Option S
unfolding until_done
retry_jobs fuel call s = until_done fuel call s

unfoldable pub promote_jobs : {S : Type 0} → ℕ → (S → ℕ × S) → S → Option S
unfolding until_done
promote_jobs fuel call s = until_done fuel call s

-- The ids of the jobs that are deleted, the events, and the backend afterwards.
pub record Cleaned (S : Type 0) : Type 0 where
  pub ids : List String
  pub events : List Event
  pub backend : S

-- What `cleanJobsByState` of the backend deletes, given a limit.
abbrev pub CleanCall : Type 0 → Type 0
CleanCall S = ℕ → S → List String × S

-- `deletedCount < maxCount`, where none is `Infinity`.
abbrev pub is_below : ℕ → Option ℕ → Bool
is_below n none = true
is_below n (some limit) = ltb n limit

-- After a call that has deleted some.
abbrev pub with_ids : {S : Type 0} → List String → String → S → Cleaned S → Cleaned S
with_ids ids type s c = record {
  ids = c.ids ++ ids;
  events = c.events ++ cleaned ids type ∷ [];
  backend = s;
}

-- The loop of `clean`, with at most `per_call` jobs in a call. It runs on fuel.
unfoldable pub clean_loop :
    {S : Type 0} → ℕ → CleanCall S → String → Option ℕ → ℕ → ℕ → Cleaned S → Option (Cleaned S)
clean_loop zero call type max per_call deleted c = none
clean_loop (suc fuel) call type max per_call deleted c =
    let (ids, s) = call per_call c.backend in
    let c' = with_ids ids type s c in
    let rest = clean_loop fuel call type max per_call (deleted + length ids) c' in
    if is_below deleted max then if ltb (length ids) per_call then some c' else rest else some c

abbrev pub max_count : ℕ → Option ℕ
max_count limit = if limit == 0 then none else some limit

abbrev pub max_count_per_call : Option ℕ → ℕ
max_count_per_call none = 10000
max_count_per_call (some limit) = min 10000 limit

abbrev normalized : String → String
normalized type = if type === "waiting" then "wait" else type

unfoldable pub clean : {S : Type 0} → ℕ → CleanCall S → ℕ → String → S → Option (Cleaned S)
unfolding clean_loop
clean fuel call limit type s =
    let max = max_count limit in
    clean_loop fuel call (normalized type) max (max_count_per_call max) 0
      (record { ids = []; events = []; backend = s })
