-- ===== src/Redis/Pausing.antt =====
-- `pauseArgs` and `pause` of src/classes/redis-queue-backend.ts.
use bullmq.Shared.{
  ℕ, zero, suc, ◌<◌, ◌≡◌, refl, Bool, true, false, if◌then◌else◌, List, All, [], ◌∷◌, ◌++◌, map,
  Option, none, some, String, ℤ, pos, negsuc, arith,
}
use bullmq.Errors.{to_key}

-- The call of the script, with its keys.
unfoldable pub pause_args : String → String → Bool → Bool → List String
unfolding to_key
pause_args prefix name pause emit_event =
    map (to_key prefix name) (
      (if pause then "wait" else "paused")
      ∷ (if pause then "paused" else "wait")
      ∷ "meta"
      ∷ "prioritized"
      ∷ "events"
      ∷ "delayed"
      ∷ "marker"
      ∷ [])
    ++ (if pause then "paused" else "resumed") ∷ (if emit_event then "1" else "0") ∷ []

-- What follows a call.
abbrev after :
    {S : Type 0}
    → List String
    → ℤ × S
    → (S → Option (List (List String) × S))
    → Option (List (List String) × S)
after args (pos zero, s) k = some (args ∷ [], s)
after args (negsuc n, s) k = some (args ∷ [], s)
after args (pos (suc n), s) k = elim (k s) [
  | none ↦ none
  | some (calls, s') ↦ some (args ∷ calls, s')
]

module _ {S : Type 0} (exec : List String → S → ℤ × S) (prefix name : String) where
  -- The loop of resuming, which ends with an answer that is not above 0: the calls that were made,
  -- or none where the fuel runs out.
  unfoldable pub resume_loop : ℕ → Bool → S → Option (List (List String) × S)
  unfolding pause_args
  resume_loop zero emit_event s = none
  resume_loop (suc fuel) emit_event s =
      let args = pause_args prefix name false emit_event in
      after args (exec args s) (λ s'. resume_loop fuel false s')

  -- A run of the loop.
  Ends : Bool → Option (List (List String) × S) → Type 0
  Ends emit_event r =
      (calls : List (List String)) × (s' : S) × (r
        ≡ some (pause_args prefix name false emit_event ∷ calls, s'))
      × All (λ c. c ≡ pause_args prefix name false false) calls

  after-Ends :
      (emit_event : Bool) (answer : ℤ × S) (k : S → Option (List (List String) × S))
      → ((n : ℕ) (s' : S) → answer ≡ (pos (suc n), s') → Ends false (k s'))
      → Ends emit_event (after (pause_args prefix name false emit_event) answer k)
  unfolding Ends
  after-Ends emit_event (pos zero, s) k h = ([], s, refl, tt)
  after-Ends emit_event (negsuc n, s) k h = ([], s, refl, tt)
  after-Ends emit_event (pos (suc n), s) k h =
      let (calls, s', e, a) = h n s refl in
      (pause_args prefix name false false ∷ calls, s', rw (e, after) refl, (refl, a))

  loop-Ends :
      (rank : S → ℕ)
      → ((args : List String) (s s' : S) (n : ℕ)
          → exec args s ≡ (pos (suc n), s')
          → rank s' < rank s)
      → (fuel : ℕ) (emit_event : Bool) (s : S) → rank s < fuel
      → Ends emit_event (resume_loop fuel emit_event s)
  unfolding resume_loop
  loop-Ends rank h zero emit_event s f = absurd (omega arith)
  loop-Ends rank h (suc fuel) emit_event s f =
      after-Ends emit_event _ _
        (λ n s' e. loop-Ends rank h fuel false s' (omega (arith, h _ s s' n e)))

  unfoldable pub pause : ℕ → Bool → S → Option (List (List String) × S)
  unfolding resume_loop
  pause fuel true s =
      let args = pause_args prefix name true true in some (args ∷ [], (exec args s).1)
  pause fuel false s = resume_loop fuel true s

  -- If each answer above 0 leaves less to do, resuming ends, and only its first call asks for an
  -- event.
  pub resuming_emits_once :
      (rank : S → ℕ)
      → ((args : List String) (s s' : S) (n : ℕ)
          → exec args s ≡ (pos (suc n), s')
          → rank s' < rank s)
      → (fuel : ℕ) (s : S) → rank s < fuel
      → (calls : List (List String)) × (s' : S) × (pause fuel false s
          ≡ some (pause_args prefix name false true ∷ calls, s'))
        × All (λ c. c ≡ pause_args prefix name false false) calls
  unfolding pause Ends
  resuming_emits_once rank h fuel s f = loop-Ends rank h fuel true s f
