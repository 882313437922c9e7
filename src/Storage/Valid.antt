-- ===== src/Storage/Valid.antt =====
-- internal/idl/storageidl/storage_validator.go: the IsValid rules of the messages.
use fanloop.Base.{
  ℕ, Bool, true, false, not, ◌&&◌, Option, none, some, ◌==◌, leb, ltb, nat_eq, is_empty,
}
use fanloop.Storage.{
  EnumTable, to_string, step_status, registry_profile, event_kind, result_effect,
  transition_direction, trace_sync_outcome,
}
use fanloop.Storage.Messages.{
  WorkflowRef, Requirement, Release, TraceBinding, Integrations, FlowState, OutputRegistry,
  Transition, OutputChanges, FlowInitializedPayload, FlowProgressedPayload, FlowResultPayload,
  TraceDocumentBoundPayload, TraceSyncStartedPayload, TraceSyncedPayload, EventPayload, Event,
}

-- The rules defined_only and not_in of an enum whose value 0 is `unspecified`.
unfoldable pub is_specified : EnumTable → ℕ → Bool
unfolding to_string
is_specified table v = not (to_string table v == "<UNSET>") && not (nat_eq v 0)

-- `v >= 1` on an int32, by its bits.
at_least_one : ℕ → Bool
at_least_one v = leb 1 v && ltb v 0x80000000

-- A pointer with the rule not_nil, and one without.
abbrev required {ℓ} : {A : Type ℓ} → (A → Bool) → Option A → Bool
required valid none = false
required valid (some a) = valid a

abbrev pub optional {ℓ} : {A : Type ℓ} → (A → Bool) → Option A → Bool
optional valid none = true
optional valid (some a) = valid a

workflow_ref_valid : WorkflowRef → Bool
workflow_ref_valid p = not (p.id == "")

requirement_valid : Requirement → Bool
requirement_valid p = not (p.title == "")

release_valid : Release → Bool
unfolding workflow_ref_valid
release_valid p = not (p.version == "") && required workflow_ref_valid p.workflow

trace_binding_valid : TraceBinding → Bool
unfolding is_specified
trace_binding_valid p = not (p.document_url == "") && is_specified registry_profile p.registry

unfoldable pub integrations_valid : Integrations → Bool
unfolding trace_binding_valid
integrations_valid p = optional trace_binding_valid p.trace

unfoldable pub flow_state_valid : FlowState → Bool
unfolding at_least_one requirement_valid release_valid is_specified integrations_valid
flow_state_valid p =
    at_least_one p.schema_version
    && required requirement_valid p.requirement
    && required release_valid p.release
    && optional (is_specified step_status) p.current_step_status
    && required integrations_valid p.integrations
    && not (p.last_event_id == "")
    && not (p.created_at == "")
    && not (p.updated_at == "")

unfoldable pub output_registry_valid : OutputRegistry → Bool
unfolding at_least_one workflow_ref_valid
output_registry_valid p = at_least_one p.schema_version && required workflow_ref_valid p.workflow

transition_valid : Transition → Bool
unfolding is_specified
transition_valid p = is_specified transition_direction p.direction && not (p.from_step_id == "")

output_changes_valid : OutputChanges → Bool
output_changes_valid p = true

flow_initialized_valid : FlowInitializedPayload → Bool
unfolding is_specified
flow_initialized_valid p = not (p.step_id == "") && is_specified step_status p.step_status

flow_progressed_valid : FlowProgressedPayload → Bool
unfolding is_specified
flow_progressed_valid p =
    not (p.from_step_id == "")
    && is_specified step_status p.from_step_status
    && is_specified step_status p.to_step_status
    && not (p.summary == "")

flow_result_valid : FlowResultPayload → Bool
unfolding is_specified transition_valid output_changes_valid
flow_result_valid p =
    not (is_empty p.condition_results)
    && not (p.summary == "")
    && is_specified result_effect p.effect
    && required transition_valid p.transition
    && required output_changes_valid p.output_changes

trace_document_bound_valid : TraceDocumentBoundPayload → Bool
unfolding is_specified
trace_document_bound_valid p =
    not (p.document_url == "")
    && optional (is_specified registry_profile) p.previous_registry
    && is_specified registry_profile p.registry

trace_sync_started_valid : TraceSyncStartedPayload → Bool
trace_sync_started_valid p = not (is_empty p.targets)

trace_synced_valid : TraceSyncedPayload → Bool
unfolding is_specified
trace_synced_valid p = is_specified trace_sync_outcome p.outcome && not (is_empty p.targets)

event_payload_valid : EventPayload → Bool
unfolding flow_initialized_valid flow_progressed_valid flow_result_valid trace_document_bound_valid
    trace_sync_started_valid trace_synced_valid
event_payload_valid p =
    optional flow_initialized_valid p.flow_initialized
    && optional flow_progressed_valid p.flow_progressed
    && optional flow_result_valid p.flow_result
    && optional trace_document_bound_valid p.trace_document_bound
    && optional trace_sync_started_valid p.trace_sync_started
    && optional trace_synced_valid p.trace_synced

unfoldable pub event_valid : Event → Bool
unfolding at_least_one is_specified workflow_ref_valid event_payload_valid
event_valid p =
    at_least_one p.schema_version
    && not (p.event_id == "")
    && not (p.occurred_at == "")
    && is_specified event_kind p.kind
    && not (p.command == "")
    && required workflow_ref_valid p.workflow
    && required event_payload_valid p.payload
