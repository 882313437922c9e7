-- ===== src/State/Persistence.antt =====
-- internal/state/persistence.go: the parts that the stored State, Outputs and Events share.
-- What `encoding/json`, `strconv` and `time` do with a document, a number and a time is a parameter.
pub mod Encoded
pub mod Documents
pub mod Events
pub mod Parts
pub mod Restored
pub mod Recorded
pub mod Registered
pub mod Decoded
use fanloop.Base.{
  ℕ, Bool, true, false, not, ◌&&◌, Option, none, some, List, [], ◌∷◌, map, String, ◌==◌,
  if◌then◌else◌, is_empty, Result, ok, err, ◌>>=◌, ◌>>◌, refuse_if, codes, all, nat_eq, Dict,
  lookup, ◌||◌, is_none,
}
use fanloop.Json.{RawMessage}
use fanloop.Json.Value.{ParseFloat, JsonValue, from_json, marshal}
use fanloop.Workflow.{OutputType}
use fanloop.Storage.{
  EnumTable, to_string, from_string, evidence_source, output_type, registry_profile,
}
use fanloop.Storage.Messages
use fanloop.Storage.Messages.{WorkflowRef, some_text, get_or_empty}
use fanloop.State.{Evidence, OutputValue, RegisteredOutput, Requirement, Release, TraceBinding}
use fanloop.State.Checks.{StateError}
use fanloop.State.Spellings.{source_spelling, source_of, type_spelling, type_of}

pub data PersistenceError : Type 0 where
  not_valid : StateError → PersistenceError
  schema_unsupported : PersistenceError
  message_invalid unknown_name time_invalid json_invalid value_invalid : PersistenceError
  value_missing payload_mismatch union_invalid envelope_invalid registry_invalid : PersistenceError

-- Both directions of `encoding/json` for one type of message: `json.Marshal` or `MarshalIndent`, and
-- `Decoder.Decode` with DisallowUnknownFields, which also gives the text that it has not read.
pub record Format (A : Type 0) : Type 0 where
  pub write : A → Option String
  pub read : String → Option (A × String)

-- `value.Format(time.RFC3339Nano)` and `time.Parse`, and ParseFloat.
pub record Codec : Type 0 where
  pub states : Format Messages.FlowState
  pub registries : Format Messages.OutputRegistry
  pub events : Format Messages.Event
  pub format_time : ℕ → String
  pub parse_time : String → Option ℕ
  pub parse_float : ParseFloat

-- An error passed on in the caller's type of errors.
unfoldable pub wrap {ℓ} : {E F : Type 0} {A : Type ℓ} → (E → F) → Result E A → Result F A
wrap f (ok a) = ok a
wrap f (err e) = err (f e)

-- A library call that returns an error.
unfoldable pub or_error {ℓ} : {A : Type ℓ} → PersistenceError → Option A → Result PersistenceError A
or_error e none = err e
or_error e (some a) = ok a

-- A loop that converts each element into a slice.
unfoldable pub convert_each :
    {A B : Type 0} → (A → Result PersistenceError B) → List A → Result PersistenceError (List B)
convert_each convert [] = ok []
convert_each convert (x ∷ xs) = do y ← convert x; ys ← convert_each convert xs; ok (y ∷ ys)

unfoldable pub named : EnumTable → String → Result PersistenceError ℕ
unfolding or_error
named table s = or_error unknown_name (from_string table s)

-- What `io.EOF` of the second Decode stands for: white space is left, and no value.
unfoldable pub is_json_space : String → Bool
is_json_space s = all (λ c. nat_eq c 9 || nat_eq c 10 || nat_eq c 13 || nat_eq c 32) (codes s)

-- `decodeStorageJSON`
unfoldable pub decode_storage_json : {A : Type 0} → Format A → String → Result PersistenceError A
unfolding or_error is_json_space
decode_storage_json format content = do
  (value, rest) ← or_error json_invalid (format.read content)
  refuse_if (not (is_json_space rest)) json_invalid
  ok value

-- `requirementToIDL`, `requirementFromIDL`
unfoldable pub requirement_to_idl : Requirement → Messages.Requirement
requirement_to_idl v = record { title = v.title; source_url = some_text v.source_url }

unfoldable pub requirement_from_idl : Option Messages.Requirement → Requirement
requirement_from_idl none = record { title = ""; source_url = "" }
requirement_from_idl (some v) = record { title = v.title; source_url = get_or_empty v.source_url }

unfoldable pub workflow_ref_to_idl : String → WorkflowRef
workflow_ref_to_idl id = record { id = id }

unfoldable pub workflow_ref_from_idl : Option WorkflowRef → String
workflow_ref_from_idl none = ""
workflow_ref_from_idl (some v) = v.id

unfoldable pub release_to_idl : Release → Messages.Release
unfolding workflow_ref_to_idl
release_to_idl v = record { version = v.version; workflow = some (workflow_ref_to_idl v.workflow) }

unfoldable pub release_from_idl : Option Messages.Release → Release
unfolding workflow_ref_from_idl
release_from_idl none = record { version = ""; workflow = "" }
release_from_idl (some v) = record {
  version = v.version;
  workflow = workflow_ref_from_idl v.workflow;
}

-- The body of the loop of `evidenceToIDL`.
unfoldable pub evidence_item_to_idl : Evidence → Result PersistenceError (Option Messages.Evidence)
unfolding named
evidence_item_to_idl v = do
  source ← named evidence_source (source_spelling v.source)
  ok (some (record { source = source; content = v.content; ref = some_text v.ref }))

-- The body of the loop of `evidenceFromIDL`.
unfoldable pub evidence_item_from_idl : Option Messages.Evidence → Result PersistenceError Evidence
evidence_item_from_idl none = err value_missing
evidence_item_from_idl (some v) = ok (record {
  source = source_of (to_string evidence_source v.source);
  content = v.content;
  ref = get_or_empty v.ref;
})

unfoldable pub evidence_to_idl :
    List Evidence → Result PersistenceError (List (Option Messages.Evidence))
unfolding convert_each evidence_item_to_idl
evidence_to_idl values = convert_each evidence_item_to_idl values

unfoldable pub evidence_from_idl :
    List (Option Messages.Evidence) → Result PersistenceError (List Evidence)
unfolding convert_each evidence_item_from_idl
evidence_from_idl values = convert_each evidence_item_from_idl values

module _ (codec : Codec) where
  unfoldable pub output_value_to_idl : OutputValue → Result PersistenceError Messages.OutputValue
  unfolding named or_error
  output_value_to_idl v = do
    type ← named output_type (type_spelling v.type)
    value ← or_error value_invalid (from_json codec.parse_float v.value)
    ok (record { type = type; value = some value })

  unfoldable pub output_value_from_idl :
      Option Messages.OutputValue → Result PersistenceError OutputValue
  unfolding or_error
  output_value_from_idl none = err value_missing
  output_value_from_idl (some v) = do
    value ← or_error value_missing v.value
    content ← or_error value_invalid (marshal value)
    type ← or_error unknown_name (type_of (to_string output_type v.type))
    ok (record { type = type; value = content })

  -- The bodies of the loops of `OutputsToStorageIDL` and `OutputsFromStorageIDL`.
  unfoldable pub output_to_idl :
      String × RegisteredOutput
      → Result PersistenceError (String × Option Messages.RegisteredOutput)
  output_to_idl (key, v) = do
    output ← output_value_to_idl (record { type = v.type; value = v.value })
    ok (
      key,
      some (record {
        type = output.type;
        value = output.value;
        producer_step_id = v.producer_step_id;
      }),
    )

  unfoldable pub output_from_idl :
      String × Option Messages.RegisteredOutput
      → Result PersistenceError (String × RegisteredOutput)
  output_from_idl (key, none) = err value_missing
  output_from_idl (key, some v) = do
    output ← output_value_from_idl (some (record { type = v.type; value = v.value }))
    ok (
      key,
      record { type = output.type; value = output.value; producer_step_id = v.producer_step_id },
    )

  unfoldable pub outputs_to_storage_idl :
      Dict RegisteredOutput → Result PersistenceError (Dict (Option Messages.RegisteredOutput))
  unfolding convert_each output_to_idl
  outputs_to_storage_idl values = convert_each output_to_idl values

  unfoldable pub outputs_from_storage_idl :
      Dict (Option Messages.RegisteredOutput) → Result PersistenceError (Dict RegisteredOutput)
  unfolding convert_each output_from_idl
  outputs_from_storage_idl values = convert_each output_from_idl values
