-- ===== src/Redis/Adding/Refused.antt =====
-- When `addJob` of src/classes/redis-queue-backend.ts throws.
use bullmq.Shared.{
  ◌≡◌, ap, sym, subst, ◌↔◌, false, String, pos, negsuc, returns, Dict, arith, Bool-cases, inl, inr,
}
use bullmq.Job.{Job}
use bullmq.FlowProducer.Answers.{Answer, text, number}
use bullmq.Redis.Adding.{Call, ParentKeyOpts, Reading, call_of, result_of, add_job}

-- An answer that is not below 0 as `<` reads it: a text counts as the number that it spells.
abbrev pub IsKept : Reading → Answer → Type 0
IsKept r (text id) = r.reads_below_zero id ≡ false
IsKept r (number (pos n)) = Unit
IsKept r (number (negsuc n)) = ⊥

result_of-IsKept :
    (r : Reading) (b a : Answer) → (result_of r b ≡ returns a) ↔ ((b ≡ a) × IsKept r a)
unfolding result_of
result_of-IsKept r (number (pos n)) a =
    (λ h. (cc, subst (IsKept r) {x = number (pos n)} (cc) tt), λ h. cc)
result_of-IsKept r (number (negsuc n)) a =
    (λ h. absurd (cc), λ h. absurd (subst (IsKept r) {y = number (negsuc n)} (cc) h.1))
result_of-IsKept r (text id) a = elim (Bool-cases (r.reads_below_zero id)) [
  | inl e ↦ (
    λ h. absurd (ground arith),
    λ h.
        let k : r.reads_below_zero id ≡ false = subst (IsKept r) (sym h.0) h.1 in
        absurd (ground arith),
  )
  | inr e ↦ (
    λ h. let q : text id ≡ a = ground arith in (q, subst (IsKept r) q e),
    λ h. rw (e, result_of) (ap returns h.0),
  )
]

-- `addJob` returns an answer exactly when the script gave it and it is not below 0. So it throws
-- on the id of a job that was added, if that id spells a number below 0.
pub add_job-IsKept :
    (r : Reading) (exec : Call → Answer) (job : Job) (id : String) (p : ParentKeyOpts)
    (keys : Dict String) (a : Answer)
    → (add_job r exec job id p keys ≡ returns a) ↔ ((exec (call_of job id p keys) ≡ a) × IsKept r a)
unfolding add_job
add_job-IsKept r exec job id p keys a = result_of-IsKept r (exec (call_of job id p keys)) a
