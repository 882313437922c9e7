-- ===== src/State/Persistence/Documents.antt =====
-- internal/state/persistence.go and output.go: the stored State and the Output Registry.
use Prim.Native.Nat.{◌%◌}
use Prim.Native.String.{◌++◌}
use fanloop.Base.{
  ℕ, not, ◌||◌, Option, none, some, List, [], String, ◌==◌, nat_eq, is_none, all, Result, ok, ◌>>=◌,
  ◌>>◌, refuse_if, Dict,
}
use fanloop.Storage.{to_string, step_status, registry_profile}
use fanloop.Storage.Messages
use fanloop.Storage.Messages.{FlowState, Integrations, some_text, get_or_empty}
use fanloop.Storage.Valid.{flow_state_valid, output_registry_valid}
use fanloop.State.{State, StepStatus, unset, TraceBinding, RegisteredOutput, state_schema_version}
use fanloop.State.Checks.{Env, validate, valid_entry}
use fanloop.State.Spellings.{status_spelling, status_of}
use fanloop.State.Persistence.{
  Codec, PersistenceError, not_valid, schema_unsupported, message_invalid, json_invalid,
  time_invalid, registry_invalid, wrap, or_error, named, decode_storage_json, requirement_to_idl,
  requirement_from_idl, workflow_ref_to_idl, workflow_ref_from_idl, release_to_idl,
  release_from_idl, evidence_to_idl, evidence_from_idl, outputs_to_storage_idl,
  outputs_from_storage_idl,
}

-- `int32(n)`, by its bits.
unfoldable pub int32 : ℕ → ℕ
int32 n = n % 0x100000000

-- `marshalIndented`
unfoldable pub marshal_indented :
    {A : Type 0} → (A → Option String) → A → Result PersistenceError String
unfolding or_error
marshal_indented write value = do
  content ← or_error json_invalid (write value)
  ok (content ++ "\n")

-- The conversion of `Integrations.Trace`, and back.
unfoldable pub binding_to_idl :
    Option TraceBinding → Result PersistenceError (Option Messages.TraceBinding)
unfolding named
binding_to_idl none = ok none
binding_to_idl (some b) = do
  registry ← named registry_profile b.registry
  ok (
      some (record {
        document_url = b.document_url;
        registry = registry;
        cli_log_document_url = some_text b.cli_log_document_url;
      }))

unfoldable pub binding_from_idl : Option Integrations → Option TraceBinding
binding_from_idl none = none
binding_from_idl (some i) = elim i.trace [
  | none ↦ none
  | some b ↦ some (record {
    document_url = b.document_url;
    registry = to_string registry_profile b.registry;
    cli_log_document_url = get_or_empty b.cli_log_document_url;
  })
]

-- The pair that `flowStateToIDL` sets where there is a current step.
unfoldable pub cursor_to_idl :
    Option String → StepStatus → Result PersistenceError (Option String × Option ℕ)
unfolding named
cursor_to_idl none status = ok (none, none)
cursor_to_idl (some id) status = do
  code ← named step_status (status_spelling status)
  ok (some id, some code)

unfoldable pub status_from_idl : Option ℕ → StepStatus
status_from_idl none = unset
status_from_idl (some code) = status_of (to_string step_status code)

-- `cloneRegisteredOutputs`: a map that is not nil.
unfoldable pub clone_registered_outputs :
    Option (Dict RegisteredOutput) → Option (Dict RegisteredOutput)
clone_registered_outputs none = some []
clone_registered_outputs (some m) = some m

-- The Output Registry of `output.go`; none is the nil map.
pub record OutputRegistry : Type 0 where
  pub schema_version : ℕ
  pub workflow : String
  pub outputs : Option (Dict RegisteredOutput)

abbrev pub output_schema_version : ℕ
output_schema_version = 4

unfoldable pub new_output_registry : State → OutputRegistry
unfolding clone_registered_outputs
new_output_registry s = record {
  schema_version = output_schema_version;
  workflow = s.release.workflow;
  outputs = clone_registered_outputs s.outputs;
}

abbrev pub registered : Option (Dict RegisteredOutput) → Dict RegisteredOutput
registered none = []
registered (some m) = m

-- `flowStateFromIDL`, but for the times.
unfoldable pub state_at : FlowState → ℕ → ℕ → Result PersistenceError State
state_at v created_at updated_at = do
  evidence ← evidence_from_idl v.current_evidence
  ok (record {
    schema_version = v.schema_version;
    requirement = requirement_from_idl v.requirement;
    release = release_from_idl v.release;
    current_step_id = v.current_step_id;
    current_step_status = status_from_idl v.current_step_status;
    current_step_summary = get_or_empty v.current_step_summary;
    current_evidence = evidence;
    outputs = none;
    skipped_step_ids = v.skipped_step_ids;
    trace = binding_from_idl v.integrations;
    last_event_id = v.last_event_id;
    created_at = created_at;
    updated_at = updated_at;
  })

module _ (env : Env) (codec : Codec) where
  -- The message of `flowStateToIDL`, given its converted parts.
  abbrev pub flow_message :
      State
      → Option String × Option ℕ
      → List (Option Messages.Evidence)
      → Option Messages.TraceBinding
      → FlowState
  flow_message s cursor evidence trace = record {
    schema_version = int32 s.schema_version;
    requirement = some (requirement_to_idl s.requirement);
    release = some (release_to_idl s.release);
    current_step_id = cursor.0;
    current_step_status = cursor.1;
    current_step_summary = some_text s.current_step_summary;
    current_evidence = evidence;
    integrations = some (record { trace = trace });
    last_event_id = s.last_event_id;
    created_at = codec.format_time s.created_at;
    updated_at = codec.format_time s.updated_at;
    skipped_step_ids = s.skipped_step_ids;
  }

  unfoldable pub flow_state_to_idl : State → Result PersistenceError FlowState
  flow_state_to_idl s = do
    cursor ← cursor_to_idl s.current_step_id s.current_step_status
    evidence ← evidence_to_idl s.current_evidence
    trace ← binding_to_idl s.trace
    ok (flow_message s cursor evidence trace)

  unfoldable pub flow_state_from_idl : FlowState → Result PersistenceError State
  unfolding or_error
  flow_state_from_idl v = do
    created_at ← or_error time_invalid (codec.parse_time v.created_at)
    updated_at ← or_error time_invalid (codec.parse_time v.updated_at)
    state_at v created_at updated_at

  unfoldable pub to_storage_idl : State → Result PersistenceError FlowState
  to_storage_idl s = do
    wrap not_valid (validate env s)
    stored ← flow_state_to_idl s
    refuse_if (not (flow_state_valid stored)) message_invalid
    ok stored

  unfoldable pub from_storage_idl :
      FlowState → Option (Dict RegisteredOutput) → Result PersistenceError State
  from_storage_idl stored outputs = do
    refuse_if (not (nat_eq stored.schema_version state_schema_version)) schema_unsupported
    refuse_if (not (flow_state_valid stored)) message_invalid
    value ← flow_state_from_idl stored
    let s = record value { outputs = clone_registered_outputs outputs }
    wrap not_valid (validate env s)
    ok s

  unfoldable pub encode : State → Result PersistenceError String
  encode s = do stored ← to_storage_idl s; marshal_indented codec.states.write stored

  unfoldable pub decode : String → Option (Dict RegisteredOutput) → Result PersistenceError State
  decode content outputs = do
    stored ← decode_storage_json codec.states content
    from_storage_idl stored outputs

  -- `OutputRegistry.Validate`
  unfoldable pub output_registry_validate : OutputRegistry → Result PersistenceError (Unit {0})
  unfolding valid_entry
  output_registry_validate v = do
    refuse_if
        (not (nat_eq v.schema_version output_schema_version)
          || v.workflow == ""
          || is_none v.outputs)
        registry_invalid
    refuse_if (not (all (valid_entry env.parse) (registered v.outputs))) registry_invalid

  unfoldable pub registry_to_idl : OutputRegistry → Result PersistenceError Messages.OutputRegistry
  registry_to_idl v = do
    output_registry_validate v
    outputs ← outputs_to_storage_idl codec (registered v.outputs)
    let stored : Messages.OutputRegistry = record {
      schema_version = int32 v.schema_version;
      workflow = some (workflow_ref_to_idl v.workflow);
      outputs = outputs;
    }
    refuse_if (not (output_registry_valid stored)) message_invalid
    ok stored

  unfoldable pub encode_output_registry : OutputRegistry → Result PersistenceError String
  encode_output_registry v = do
    stored ← registry_to_idl v
    marshal_indented codec.registries.write stored

  unfoldable pub registry_from_idl :
      Messages.OutputRegistry → Result PersistenceError OutputRegistry
  registry_from_idl stored = do
    refuse_if (not (nat_eq stored.schema_version output_schema_version)) schema_unsupported
    refuse_if (not (output_registry_valid stored)) message_invalid
    outputs ← outputs_from_storage_idl codec stored.outputs
    let value : OutputRegistry = record {
      schema_version = stored.schema_version;
      workflow = workflow_ref_from_idl stored.workflow;
      outputs = some outputs;
    }
    output_registry_validate value
    ok value

  unfoldable pub decode_output_registry : String → Result PersistenceError OutputRegistry
  decode_output_registry content = do
    stored ← decode_storage_json codec.registries content
    registry_from_idl stored
