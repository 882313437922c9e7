-- ===== src/Flow/Init/Accepted/Encoded.antt =====
-- internal/flow/runtime.go with internal/state/persistence.go: what `Init` makes can be encoded.
use fanloop.Base.{
  ◌≡◌, refl, inl, inr, true, false, ◌==◌, nat_eq, Option-cases, none, some, [], String, arith, ok,
}
use Prim.Native.String.{◌++◌}
use fanloop.Workflow.{Workflow, first_step_id}
use fanloop.Storage.Messages
use fanloop.Storage.Messages.{empty_payload, count_set_fields, some_text}
use fanloop.Storage.Valid.{is_specified, event_valid, integrations_valid, output_registry_valid}
use fanloop.Storage.{step_status, event_kind}
use fanloop.State.{valid_step_status}
use fanloop.State.Checks.{Env, validate, valid_cursor}
use fanloop.State.Payloads.{
  validate_event_payload, validate_payload, is_entry_status, expected_command,
}
use fanloop.State.Results.{entry_step_status}
use fanloop.State.Spellings.{kind_spelling, replace_dot}
use fanloop.State.Persistence.{
  Codec, named, wrap, or_error, workflow_ref_to_idl, convert_each, outputs_to_storage_idl,
}
use fanloop.State.Persistence.Documents.{
  binding_to_idl, encode, int32, marshal_indented, new_output_registry, clone_registered_outputs,
  output_registry_validate, registry_to_idl, encode_output_registry,
}
use fanloop.State.Persistence.Events.{
  Cases, initialized_to_idl, payload_to_idl, validate_event_envelope, encode_event,
}
use fanloop.State.Persistence.Encoded.{
  IsWriting, status-named, IsSound, validate-IsSound, encode-valid, encode_event-valid,
}
use fanloop.Flow.Report.{Stamp}
use fanloop.Flow.Init.{RequestRequirement, initial_state, initial_event}
use fanloop.Flow.Init.Accepted.{begun}

entry_step_status-entry :
    (w : Workflow)
    → (is_entry_status (entry_step_status w) ≡ true)
      × (valid_step_status (entry_step_status w) ≡ true)
unfolding entry_step_status is_entry_status valid_step_status
entry_step_status-entry w = elim (Option-cases w.step_start) [
  | inl missing ↦ (rw (entry_step_status, missing) refl, rw (entry_step_status, missing) refl)
  | inr (control, there) ↦ (rw (entry_step_status, there) refl, rw (entry_step_status, there) refl)
]

module _ (env : Env) (codec : Codec) (cases : Cases) (writing : IsWriting codec) (stamp : Stamp)
    (version workflow first : String) (w : Workflow) (r : RequestRequirement)
    (enters : first_step_id w ≡ some first)
    (valid : validate env (begun env.parse stamp version workflow first w r enters) ≡ ok tt) where
  sound : IsSound (begun env.parse stamp version workflow first w r enters)
  sound = validate-IsSound env (begun env.parse stamp version workflow first w r enters) valid

  pub stamped : (stamp.event_id == "" ≡ false) × (nat_eq stamp.now 0 ≡ false)
  unfolding initial_state validate
  stamped = (ground (arith, valid), ground (arith, valid))

  named_workflow : workflow == "" ≡ false
  unfolding initial_state
  named_workflow = sound.workflow

  named_first : first == "" ≡ false
  unfolding initial_state valid_cursor
  named_first = ground (arith, sound.cursor)

  pub state-encoded :
      (content : String) × (encode env codec
          (begun env.parse stamp version workflow first w r enters)
        ≡ ok content)
  unfolding initial_state binding_to_idl integrations_valid
  state-encoded =
      encode-valid env codec writing (begun env.parse stamp version workflow first w r enters) none
        valid refl refl

  pub registry-encoded :
      (content : String) × (encode_output_registry env codec
          (new_output_registry (begun env.parse stamp version workflow first w r enters))
        ≡ ok content)
  unfolding initial_state new_output_registry clone_registered_outputs encode_output_registry
      registry_to_idl output_registry_validate outputs_to_storage_idl convert_each
      output_registry_valid marshal_indented or_error int32 workflow_ref_to_idl
  registry-encoded =
      let m : Messages.OutputRegistry = record {
        schema_version = 4;
        workflow = some (record { id = workflow });
        outputs = [];
      } in
      let (content, written) = writing.registries m refl in
      (content ++ "\n", rw (encode_output_registry, registry_to_idl, named_workflow, written) refl)

  pub event-encoded :
      (content : String) × (encode_event env codec cases
          (initial_event stamp workflow first (entry_step_status w))
        ≡ ok content)
  unfolding initial_event validate_event_envelope validate_event_payload validate_payload
      expected_command wrap kind_spelling payload_to_idl initialized_to_idl replace_dot named
      or_error count_set_fields event_valid int32 workflow_ref_to_idl is_specified
      fanloop.Storage.from_string fanloop.Storage.to_string
  event-encoded =
      let (entry, known) = entry_step_status-entry w in
      let (code, found, specified) = status-named (entry_step_status w) known in
      let (id_named, dated) = stamped in
      let e = initial_event stamp workflow first (entry_step_status w) in
      let payload : Messages.EventPayload = record empty_payload {
        flow_initialized = some (record { step_id = first; step_status = code });
      } in
      encode_event-valid env codec writing cases e payload 1
        (rw (validate_event_envelope, id_named, dated, named_workflow, named_first, entry) refl)
        (rw (payload_to_idl, initialized_to_idl, found) refl) refl refl refl
        (rw (event_valid, id_named, writing.times stamp.now, named_workflow, named_first, specified)
          refl)
