-- ===== src/Redis/Options.antt =====
-- `optsAsJSON` and `optsFromJSON` of src/classes/redis-queue-backend.ts and src/classes/job.ts,
-- with the maps of src/utils/index.ts. Options are the own properties of an object, none of which
-- has the name of an inherited one; the texts that the runtime makes of them are left out.
pub mod Names
pub mod RoundTrip
use bullmq.Shared.{
  ◌===◌, if◌then◌else◌, Bool, true, false, List, [], ◌∷◌, Option, none, some, String, Dict, get,
  put,
}

-- The value of an option. `telemetry` is an object with `metadata` and `omitContext`, each of which
-- may be undefined.
pub data Value (V : Type 0) : Type 0 where
  undefined : Value V
  plain : V → Value V
  telemetry : Option V → Option V → Value V

abbrev pub opts_decode_map : Dict String
opts_decode_map =
    ("de", "deduplication")
    ∷ ("fpof", "failParentOnFailure")
    ∷ ("cpof", "continueParentOnFailure")
    ∷ ("idof", "ignoreDependencyOnFailure")
    ∷ ("kl", "keepLogs")
    ∷ ("rdof", "removeDependencyOnFailure")
    ∷ []

-- `invertObject`.
unfoldable pub invert_object : Dict String → Dict String → Dict String
unfolding put
invert_object result [] = result
invert_object result ((key, value) ∷ m) = invert_object (put value key result) m

-- `optsDecode[attributeName]` and `optsEncode[attributeName]`.
unfoldable pub decoded : String → Option String
unfolding get
decoded name = get name opts_decode_map

unfoldable pub encoded : String → Option String
unfolding get invert_object
encoded name = get name (invert_object [] opts_decode_map)

module _ {V : Type 0} where
  abbrev set_if : String → Option V → Dict (Value V) → Dict (Value V)
  set_if key none options = options
  set_if key (some v) options = put key (plain v) options

  abbrev pub telemetry_as_json : Value V → Dict (Value V) → Dict (Value V)
  telemetry_as_json undefined options = options
  telemetry_as_json (plain v) options = options
  telemetry_as_json (telemetry metadata omit_context) options =
      set_if "omc" omit_context (set_if "tm" metadata options)

  abbrev pub defined_as_json : String → Value V → Dict (Value V) → Dict (Value V)
  defined_as_json name value options = elim (encoded name) [
    | some key ↦ put key value options
    | none ↦
        if name === "telemetry" then telemetry_as_json value options else put name value options
  ]

  -- One turn of the loop of `optsAsJSON`, and the loop.
  unfoldable pub opt_as_json : String → Value V → Dict (Value V) → Dict (Value V)
  unfolding put
  opt_as_json name undefined options = options
  opt_as_json name (plain v) options = defined_as_json name (plain v) options
  opt_as_json name (telemetry m o) options = defined_as_json name (telemetry m o) options

  unfoldable pub opts_as_json : Dict (Value V) → Dict (Value V) → Dict (Value V)
  unfolding opt_as_json
  opts_as_json options [] = options
  opts_as_json options ((name, value) ∷ rest) = opts_as_json (opt_as_json name value options) rest

  -- `{ ...options.telemetry, metadata: value }`, and the same of `omitContext`.
  abbrev pub as_option : Value V → Option V
  as_option undefined = none
  as_option (plain v) = some v
  as_option (telemetry m o) = none

  abbrev pub with_metadata : Option (Value V) → Value V → Value V
  with_metadata none value = telemetry (as_option value) none
  with_metadata (some undefined) value = telemetry (as_option value) none
  with_metadata (some (plain v)) value = telemetry (as_option value) none
  with_metadata (some (telemetry m o)) value = telemetry (as_option value) o

  abbrev pub with_omit_context : Option (Value V) → Value V → Value V
  with_omit_context none value = telemetry none (as_option value)
  with_omit_context (some undefined) value = telemetry none (as_option value)
  with_omit_context (some (plain v)) value = telemetry none (as_option value)
  with_omit_context (some (telemetry m o)) value = telemetry m (as_option value)

  -- One turn of the loop of `optsFromJSON`, and the loop.
  unfoldable pub opt_from_json : String → Value V → Dict (Value V) → Dict (Value V)
  unfolding decoded get put
  opt_from_json name value options = elim (decoded name) [
    | some long ↦ put long value options
    | none ↦
        if name === "tm"
        then put "telemetry" (with_metadata (get "telemetry" options) value) options
        else if name === "omc"
        then put "telemetry" (with_omit_context (get "telemetry" options) value) options
        else put name value options
  ]

  unfoldable pub opts_from_json : Dict (Value V) → Dict (Value V) → Dict (Value V)
  unfolding opt_from_json
  opts_from_json options [] = options
  opts_from_json options ((name, value) ∷ rest) =
      opts_from_json (opt_from_json name value options) rest
