-- ===== src/JobScheduler/Stored/Sweeping.antt =====
-- Which schedulers `getJobSchedulers` of src/classes/job-scheduler.ts lists, and which it removes.
use bullmq.Shared.{
  ◌≡◌, refl, sym, ◌∙◌, ap, ◌⊎◌, inl, inr, if◌then◌else◌, Bool, true, false, not, List, [], ◌∷◌,
  ◌++◌, map, keep, append-nil, Option, none, some, String, codes, Dict, get, Outcome, returns,
  throws,
}
use bullmq.JobScheduler.LegacyKeys.{has_legacy_repeatable_key_shape, legacy_repeatable_job_message}
use bullmq.JobScheduler.Stored.{
  JobSchedulerJson, Parser, scheduler_json, template_of, non_empty, transform_scheduler_data,
  removal, collect, get_job_schedulers,
}

-- The keys of a list of keys and times.
abbrev pub keys_of : List String → List String
keys_of [] = []
keys_of (key ∷ []) = key ∷ []
keys_of (key ∷ next ∷ rest) = key ∷ keys_of rest

abbrev pub has_fields : Dict String → Bool
has_fields [] = false
has_fields (field ∷ fields) = true

module _ {N V D : Type 0} (p : Parser N V D) where
  abbrev names : List (JobSchedulerJson N V D) → List String
  names js = map (λ j. j.key) js

  -- What one key adds to the list and to the removals, when the whole call returns.
  abbrev Part :
      String
      → Bool
      → List String
      → Outcome String (List (JobSchedulerJson N V D))
      → List (JobSchedulerJson N V D)
      → Type 0
  Part key there removed rest js =
      ((there ≡ false) × (removed ≡ key ∷ []) × (rest ≡ returns js))
      ⊎ ((tail : List (JobSchedulerJson N V D)) × (there ≡ true)
          × (removed ≡ [])
          × (rest ≡ returns tail)
          × (names js ≡ key ∷ names tail))

  -- What there can be for a key: nothing, a scheduler, or an error.
  data Kind : String → Bool → Outcome String (Option (JobSchedulerJson N V D)) → Type 0 where
    missing : {key : String} → Kind key false (returns none)
    found :
        {key : String} (j : JobSchedulerJson N V D) → j.key ≡ key → Kind key true (returns (some j))
    failed : {key : String} {there : Bool} (e : String) → Kind key there (throws e)

  transform_scheduler_data-Kind :
      (key : String) (fields : Dict String) (next : Option N)
      → Kind key (has_fields fields) (transform_scheduler_data p key fields next)
  unfolding transform_scheduler_data scheduler_json
  transform_scheduler_data-Kind key [] next =
      elim (has_legacy_repeatable_key_shape (codes key))
        as (λ b.
          Kind key false (if b then throws (legacy_repeatable_job_message key) else returns none)) [
            | true ↦ failed (legacy_repeatable_job_message key)
            | false ↦ missing
          ]
  transform_scheduler_data-Kind key (field ∷ fields) next =
      elim (template_of p (non_empty (get "data" (field ∷ fields)))
          (non_empty (get "opts" (field ∷ fields))))
        as (λ t. Kind key true (elim t [
          | throws e ↦ throws e
          | returns template ↦ returns (some (scheduler_json p key (field ∷ fields) next template))
        ])) [
          | throws e ↦ failed e
          | returns t ↦ found (scheduler_json p key (field ∷ fields) next t) refl
        ]

  collect-Part :
      {key : String} {there : Bool} {one : Outcome String (Option (JobSchedulerJson N V D))}
      (rest : Outcome String (List (JobSchedulerJson N V D))) (js : List (JobSchedulerJson N V D))
      → Kind key there one
      → collect p one rest ≡ returns js
      → Part key there (removal p key one) rest js
  collect-Part rest js missing h = inl (refl, refl, h)
  collect-Part (returns tail) js (found j k) h =
      let all : j ∷ tail ≡ js = cc in
      inr (tail, refl, refl, refl, sym (ap names all) ∙ ap (λ i. i ∷ names tail) k)
  collect-Part (throws e) js (found j k) h = absurd (cc)
  collect-Part rest js (failed e) h = absurd (cc)

  Part-keep :
      (key : String) (there : Bool) (removed others kept dropped : List String)
      (rest : Outcome String (List (JobSchedulerJson N V D))) (js : List (JobSchedulerJson N V D))
      → Part key there removed rest js
      → ((tail : List (JobSchedulerJson N V D))
          → rest ≡ returns tail
          → (names tail ≡ kept) × (others ≡ dropped))
      → (names js ≡ (if there then key ∷ kept else kept))
        × (removed ++ others ≡ (if not there then key ∷ dropped else dropped))
  Part-keep key there removed others kept dropped rest js (inl (absent, gone, r)) k =
      let same = k js r in (rw absent same.0, rw (absent, gone) (ap (λ l. key ∷ l) same.1))
  Part-keep key there removed others kept dropped rest js (inr (tail, there_is, gone, r, n)) k =
      let same = k tail r in
      (rw there_is (n ∙ ap (λ l. key ∷ l) same.0), rw (there_is, gone) same.1)

  -- If `getJobSchedulers` returns, then each listed key is either that of a scheduler in the answer
  -- or removed, in order: the answer has the keys with something stored for them, the removals are
  -- the others.
  pub get_job_schedulers-keep :
      (stored : String → Dict String) (result : List String) (js : List (JobSchedulerJson N V D))
      → (get_job_schedulers p stored result).0 ≡ returns js
      → (names js ≡ keep (λ key. has_fields (stored key)) (keys_of result))
        × ((get_job_schedulers p stored result).1
            ≡ keep (λ key. not (has_fields (stored key))) (keys_of result))
  unfolding get_job_schedulers
  get_job_schedulers-keep stored [] js h =
      (ap (λ o. elim o [ returns l ↦ names l | throws e ↦ [] ]) (sym h), refl)
  get_job_schedulers-keep stored (key ∷ []) js h =
      let one = transform_scheduler_data p key (stored key) (some (p.parse_int none)) in
      let both =
        Part-keep key (has_fields (stored key)) (removal p key one) [] [] [] (returns []) js
          (collect-Part (returns []) js
            (transform_scheduler_data-Kind key (stored key) (some (p.parse_int none))) h)
          (λ tail r. (ap (λ o. elim o [ returns l ↦ names l | throws e ↦ [] ]) (sym r), refl)) in
      (both.0, sym (append-nil (removal p key one)) ∙ both.1)
  get_job_schedulers-keep stored (key ∷ next ∷ rest) js h =
      let one = transform_scheduler_data p key (stored key) (some (p.parse_int (some next))) in
      let others = get_job_schedulers p stored rest in
      Part-keep key (has_fields (stored key)) (removal p key one) others.1
        (keep (λ k. has_fields (stored k)) (keys_of rest))
        (keep (λ k. not (has_fields (stored k))) (keys_of rest)) others.0 js
        (collect-Part others.0 js
          (transform_scheduler_data-Kind key (stored key) (some (p.parse_int (some next)))) h)
        (get_job_schedulers-keep stored rest)
