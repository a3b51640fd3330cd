-- ===== src/FlowProducer/Answers.antt =====
-- What `add` and `addBulk` of src/classes/flow-producer.ts do with the backend's answers for the
-- entries of a flow.
use bullmq.Shared.{
  List, [], ◌∷◌, Option, none, some, String, ◌<>◌, ℤ, pos, negsuc, Outcome, returns, throws,
}
use bullmq.Job.{Job}
use bullmq.Errors.{case_of, parent_job_not_exist, parent_job_cannot_be_replaced}

-- What the backend answers for an entry: an error or not, and an id or a number.
pub data Answer : Type 0 where
  text : String → Answer
  number : ℤ → Answer

pub record Result : Type 0 where
  pub err : Option String
  pub job_id : Answer

-- The loop of `addBulk` over the answers.
unfoldable pub set_id : Option Result → Job → Job
set_id none job = job
set_id (some r) job = elim r.err [
  | some e ↦ job
  | none ↦ elim r.job_id [ text id ↦ record job { id = some id } | number n ↦ job ]
]

unfoldable pub set_ids : List Result → List Job → List Job
unfolding set_id
set_ids results [] = []
set_ids [] (j ∷ js) = set_id none j ∷ set_ids [] js
set_ids (r ∷ rs) (j ∷ js) = set_id (some r) j ∷ set_ids rs js

-- `toFlowError`, with the code and the message.
pub record FlowError : Type 0 where
  pub message : String
  pub code : Option ℤ

-- What `add` does with the answer for the root, where `describe` is the text of a code.
unfoldable pub to_flow_error : (ℤ → String) → ℤ → String → FlowError
unfolding case_of
to_flow_error describe code parent_key = record {
  message = elim (case_of code) [
    | some parent_job_not_exist ↦ "Missing key for parent job " <> parent_key <> ". addJob"
    | some parent_job_cannot_be_replaced ↦
        "The parent job " <> parent_key <> " cannot be replaced. addJob"
    | _ ↦ "Unknown code " <> describe code <> " error for addJob"
  ];
  code = some code;
}

-- `parent_key` is its text, "undefined" for none.
unfoldable pub take_answer : (ℤ → String) → String → Option Result → Job → Outcome FlowError Job
unfolding to_flow_error
take_answer describe parent_key none job = returns job
take_answer describe parent_key (some r) job = elim r.err [
  | some e ↦ throws (record { message = e; code = none })
  | none ↦ elim r.job_id [
    | text id ↦ returns (record job { id = some id })
    | number n ↦ elim n [
      | pos k ↦ returns job
      | negsuc k ↦ throws (to_flow_error describe (negsuc k) parent_key)
    ]
  ]
]
