-- ===== src/Tests/Redis.antt =====
-- Runs of the models of src/classes/redis-queue-backend.ts.
use bullmq.Shared.{
  ℕ, zero, suc, ◌<◌, ◌≡◌, refl, ap, ◌↔◌, ◌===◌, false, List, [], ◌∷◌, ◌++◌, none, some, String,
  Dict, codes, pos, ℤ, returns, arith, keys,
}
use bullmq.Errors.{Arguments, get_keys}
use bullmq.FlowProducer.Answers.{Answer, text}
use bullmq.Redis.NodeKeys.{parse_node_key, parse_node_key-of_key}
use bullmq.Redis.Options.{Value, plain, telemetry, decoded, opts_as_json, opts_from_json}
use bullmq.Redis.Options.RoundTrip.{opts_from_json-opts_as_json}
use bullmq.Redis.Adding.{Call, ParentKeyOpts, Reading, call_of, add_job}
use bullmq.Redis.Adding.Refused.{IsKept, add_job-IsKept}
use bullmq.Tests.FlowProducer.{stored}

parse_node_key-of_key_example :
    parse_node_key (codes "my:bull" ++ b':' ∷ (codes "q" ++ b':' ∷ codes "7"))
    ≡ record { prefix = codes "my:bull"; queue_name = codes "q"; id = codes "7" }
parse_node_key-of_key_example =
    parse_node_key-of_key (codes "my:bull") (codes "q") (codes "7") refl refl

abbrev options : Dict (Value ℕ)
options =
    ("attempts", plain 3) ∷ ("keepLogs", plain 7) ∷ ("telemetry", telemetry (some 1) (some 2)) ∷ []

opts_from_json-opts_as_json_example : opts_from_json [] (opts_as_json [] options) ≡ options
unfolding decoded keys
opts_from_json-opts_as_json_example =
    opts_from_json-opts_as_json options
      ((refl, refl, refl, refl), ((refl, refl, refl, refl), ((refl, refl, refl, refl), tt)))
      (refl, (refl, (refl, tt)))

abbrev no_arguments : Arguments
no_arguments = record {
  code = pos 0;
  code_text = "-1.5";
  job_id = "undefined";
  parent_key = "undefined";
  command = "addJob";
  state = "undefined";
}

-- The id "-1.5" spells a number below 0.
abbrev reading : Reading
reading = record {
  reads_below_zero = λ t. t === "-1.5";
  arguments = λ n. no_arguments;
  arguments_of_text = λ t. no_arguments;
}

abbrev no_parent : ParentKeyOpts
no_parent = record {
  parent_key = none;
  add_to_waiting_children = false;
  parent_dependencies_key = none;
}

-- The script answers with the id that it was given.
abbrev exec : Call → Answer
exec c = text c.args.job_id

add_job-IsKept_example :
    (add_job reading exec stored "-1.5" no_parent (get_keys "bull" "q") ≡ returns (text "-1.5")) ↔ (
      (exec (call_of stored "-1.5" no_parent (get_keys "bull" "q")) ≡ text "-1.5")
      × IsKept reading (text "-1.5"))
add_job-IsKept_example =
    add_job-IsKept reading exec stored "-1.5" no_parent (get_keys "bull" "q") (text "-1.5")

-- A server that moves one job with each call, and says how many are left.
abbrev moves : List String → ℕ → ℤ × ℕ
moves args zero = (pos 0, 0)
moves args (suc n) = (pos n, n)

moves_less : (args : List String) (s s' n : ℕ) → moves args s ≡ (pos (suc n), s') → s' < s
moves_less args zero s' n h = absurd (cc)
moves_less args (suc s) s' n h = omega (arith, ap (λ (p : ℤ × ℕ). p.1) h)
