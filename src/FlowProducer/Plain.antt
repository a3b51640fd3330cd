-- ===== src/FlowProducer/Plain.antt =====
-- Which flows `validateFlowJobs` of src/classes/flow-producer.ts lets through.
use bullmq.Shared.{
  ◌≡◌, refl, ◌↔◌, Option, none, some, String, Outcome, returns, throws, throw_if, ◌>>◌,
}
use bullmq.FlowProducer.{
  FlowJob, Flows, flow, none_left, followed, Refused, deduplication_with_children, is_deduplicated,
  validate_flow_job, validate_flow_jobs,
}

-- No job of the trees that has children has deduplication options.
unfoldable mutual
  pub IsPlain : FlowJob → Type 0
  IsPlain (flow n none_left) = Unit
  IsPlain (flow n (followed f fs)) = (n.opts.deduplication ≡ none) × (IsPlain f × ArePlain fs)

  pub ArePlain : Flows → Type 0
  ArePlain none_left = Unit
  ArePlain (followed f fs) = IsPlain f × ArePlain fs

throw_if_iff :
    (o : Option (Option String)) (k : Outcome Refused (Unit {0}))
    → ((throw_if (is_deduplicated o) deduplication_with_children >> k) ≡ returns tt)
      ↔ ((o ≡ none) × (k ≡ returns tt))
throw_if_iff none k = (λ h. (refl, h), λ h. h.1)
throw_if_iff (some id) k = (λ h. absurd (cc), λ h. absurd (cc))

>>-iff :
    (m k : Outcome Refused (Unit {0}))
    → ((m >> k) ≡ returns tt) ↔ ((m ≡ returns tt) × (k ≡ returns tt))
>>-iff (returns tt) k = (λ h. (refl, h), λ h. h.1)
>>-iff (throws e) k = (λ h. absurd (cc), λ h. absurd (cc))

mutual
  unfolding validate_flow_job IsPlain

  job-IsPlain : (f : FlowJob) → (validate_flow_job f ≡ returns tt) ↔ IsPlain f
  job-IsPlain (flow n none_left) = (λ h. tt, λ h. refl)
  job-IsPlain (flow n (followed f fs)) =
      let (a, b) = throw_if_iff n.opts.deduplication (validate_flow_jobs (followed f fs)) in
      let (c, d) = jobs-ArePlain (followed f fs) in
      (λ h. let (x, y) = a h in (x, c y), λ h. b (h.0, d h.1))

  jobs-ArePlain : (fs : Flows) → (validate_flow_jobs fs ≡ returns tt) ↔ ArePlain fs
  jobs-ArePlain none_left = (λ h. tt, λ h. refl)
  jobs-ArePlain (followed f fs) =
      let (a, b) = >>-iff (validate_flow_job f) (validate_flow_jobs fs) in
      let (c, d) = job-IsPlain f in
      let (e, g) = jobs-ArePlain fs in (λ h. let (x, y) = a h in (c x, e y), λ h. b (d h.0, g h.1))

-- The flows are let through exactly when no job of their trees that has children, at any depth, has
-- deduplication options.
pub validate_flow_jobs-ArePlain : (fs : Flows) → (validate_flow_jobs fs ≡ returns tt) ↔ ArePlain fs
validate_flow_jobs-ArePlain fs = jobs-ArePlain fs
