-- ===== src/State/Payloads.antt =====
-- internal/state/model.go: ValidateEventPayload, the checks of an Event on its own.
use fanloop.Base.{
  Bool, true, false, not, ◌&&◌, ◌||◌, Option, none, some, List, [], ◌∷◌, map, String, ◌==◌, Result,
  ok, err, ◌>>=◌, ◌>>◌, refuse_if, fold_each, is_empty, all, is_blank, contains,
}
use fanloop.Trace.{is_profile}
use fanloop.Workflow.Output.{UrlParser}
use fanloop.State.{
  StepStatus, ready, in_progress, fixing, blocked, awaiting_confirmation, ConditionResult,
  FlowResultPayload, TraceDocumentBoundPayload, TraceTargetResult, TraceSyncOutcome, other_outcome,
  flow_initialized, flow_progress, flow_result, trace_document_bound, trace_sync_started,
  trace_synced, other_payload, Event, EventKind, initialized, progressed, result, document_bound,
  sync_started, synced, other_kind, advanced, looped, completed, started, jumped, other_effect,
  TransitionDirection, flow, loop, start, jump, valid_step_status, valid_evidence,
  has_human_evidence, unique_non_empty,
}
use fanloop.State.TraceUrl.{valid_trace_document_url}
use fanloop.State.Checks.{
  Env, StateError, invalid_trace_binding, payload_type, unknown_kind, wrong_command, no_cause,
  invalid_initialized, invalid_progress, invalid_result_facts, invalid_condition_result,
  invalid_transition, invalid_effect, invalid_targets, invalid_sync_result, valid_output_value,
  valid_binding,
}

-- The command of each kind of Event; none for a kind that the source does not know.
unfoldable pub expected_command : EventKind → Option String
expected_command initialized = some "flow.init"
expected_command progressed = some "flow.report.progress"
expected_command result = some "flow.report.result"
expected_command document_bound = some "trace.bind"
expected_command sync_started = some "trace.sync"
expected_command synced = some "trace.sync"
expected_command (other_kind s) = none

-- The first `switch`: the payload has the type that the kind requires.
unfoldable pub payload_fits : Event → Bool
payload_fits e = elim e.kind [
  | initialized ↦ elim e.payload [ flow_initialized p ↦ true | _ ↦ false ]
  | progressed ↦ elim e.payload [ flow_progress p ↦ true | _ ↦ false ]
  | result ↦ elim e.payload [ flow_result p ↦ true | _ ↦ false ]
  | document_bound ↦ elim e.payload [ trace_document_bound p ↦ true | _ ↦ false ]
  | sync_started ↦ elim e.payload [ trace_sync_started p ↦ true | _ ↦ false ]
  | synced ↦ elim e.payload [ trace_synced p ↦ true | _ ↦ false ]
  | other_kind s ↦ false
]

is_initialized : EventKind → Bool
is_initialized initialized = true
is_initialized _ = false

unfoldable pub is_report_status : StepStatus → Bool
is_report_status in_progress = true
is_report_status fixing = true
is_report_status blocked = true
is_report_status _ = false

unfoldable pub is_entry_status : StepStatus → Bool
is_entry_status ready = true
is_entry_status awaiting_confirmation = true
is_entry_status _ = false

unfoldable pub is_flow : TransitionDirection → Bool
is_flow flow = true
is_flow _ = false

unfoldable pub is_loop : TransitionDirection → Bool
is_loop loop = true
is_loop _ = false

unfoldable pub is_start : TransitionDirection → Bool
is_start start = true
is_start _ = false

unfoldable pub is_jump : TransitionDirection → Bool
is_jump jump = true
is_jump _ = false

unfoldable pub visit_condition_result :
    UrlParser → List String → ConditionResult → Result StateError (List String)
unfolding valid_output_value
visit_condition_result parse seen r = do
  refuse_if
      (r.condition_id == ""
        || contains r.condition_id seen
        || not (valid_output_value parse r.output.type r.output.value))
      invalid_condition_result
  ok (r.condition_id ∷ seen)

-- The `switch` on the effect.
unfoldable pub validate_effect : FlowResultPayload → Result StateError (Unit {0})
unfolding is_flow is_loop is_start is_jump
validate_effect p = elim p.effect [
  | advanced ↦
      refuse_if (not (is_flow p.transition.direction) || p.transition.to_step_id == "")
        invalid_transition
  | looped ↦
      refuse_if (not (is_loop p.transition.direction) || p.transition.to_step_id == "")
        invalid_transition
  | completed ↦
      refuse_if (not (is_flow p.transition.direction) || not (p.transition.to_step_id == ""))
        invalid_transition
  | started ↦
      refuse_if
        (not (is_start p.transition.direction)
          || not (p.transition.to_step_id == p.transition.from_step_id)
          || not (has_human_evidence p.evidence)
          || not (is_empty p.output_changes.accepted)
          || not (is_empty p.output_changes.invalidated))
        invalid_transition
  | jumped ↦
      refuse_if
        (not (is_jump p.transition.direction)
          || p.transition.to_step_id == ""
          || not (has_human_evidence p.evidence)
          || not (is_empty p.output_changes.accepted))
        invalid_transition
  | other_effect s ↦ err invalid_effect
]

-- `validateResultPayload`
unfoldable pub validate_result_payload :
    UrlParser → FlowResultPayload → Result StateError (Unit {0})
unfolding visit_condition_result validate_effect
validate_result_payload parse p = do
  refuse_if
      (is_empty p.condition_results
        || is_blank p.summary
        || not (valid_evidence p.evidence)
        || p.transition.from_step_id == ""
        || not (unique_non_empty p.output_changes.accepted)
        || not (unique_non_empty p.output_changes.invalidated))
      invalid_result_facts
  seen ← fold_each (visit_condition_result parse) [] p.condition_results
  validate_effect p

abbrev target_names : List String
target_names = "trace_document" ∷ "cli_log_document" ∷ "registry" ∷ []

names_from : List String → List String → Bool
names_from seen [] = not (is_empty seen)
names_from seen (v ∷ vs) =
    contains v target_names && not (contains v seen) && names_from (v ∷ seen) vs

unfoldable pub valid_trace_target_names : List String → Bool
unfolding names_from
valid_trace_target_names values = names_from [] values

-- The codes that `ErrorCodeFromString` knows, but for "unspecified".
abbrev error_codes : List String
error_codes =
    "INVALID_ARGUMENT" ∷ "INVALID_INPUT_JSON" ∷ "ROOT_REQUIRED" ∷ "WORKFLOW_REQUIRED"
    ∷ "ALREADY_INITIALIZED" ∷ "NOT_INITIALIZED" ∷ "STATE_CORRUPT" ∷ "STATE_SCHEMA_UNSUPPORTED"
    ∷ "STATE_CONFLICT" ∷ "STEP_NOT_CURRENT" ∷ "REPORT_NOT_ALLOWED" ∷ "WORKFLOW_NOT_FOUND"
    ∷ "WORKFLOW_MISMATCH" ∷ "WORKFLOW_INVALID" ∷ "LOCAL_COMMIT_FAILED" ∷ "INTERNAL"
    ∷ "CONDITION_NOT_ALLOWED" ∷ "CONDITION_CONFLICT" ∷ "OUTPUT_INVALID" ∷ "ROUTE_NOT_MATCHED"
    ∷ "ROUTE_AMBIGUOUS" ∷ "ROUTE_NOT_ALLOWED" ∷ "PROTECTED_DOCUMENT" ∷ "UPSTREAM_AUTH_FAILED"
    ∷ "NETWORK_FAILED" ∷ "TRACE_UPDATE_FAILED" ∷ "REGISTRY_UPDATE_FAILED"
    ∷ "CONFIGURATION_FETCH_FAILED" ∷ []

unfoldable pub valid_target : TraceTargetResult → Bool
valid_target t = elim t.error [
  | none ↦ t.status == "succeeded" || t.status == "skipped"
  | some e ↦ t.status == "failed" && contains e.code error_codes && not (is_blank e.message)
]

unfoldable pub valid_trace_target_results : List TraceTargetResult → Bool
unfolding valid_target
valid_trace_target_results values =
    all valid_target values && valid_trace_target_names (map (λ t. t.name) values)

unfoldable pub is_outcome : TraceSyncOutcome → Bool
is_outcome (other_outcome s) = false
is_outcome _ = true

unfoldable pub valid_bound : Env → String → TraceDocumentBoundPayload → Bool
unfolding valid_binding
valid_bound env workflow_id p =
    valid_binding env p.document_url p.registry p.cli_log_document_url workflow_id
    && (p.previous_document_url == "" || valid_trace_document_url env.parse p.previous_document_url)
    && (p.previous_registry == "" || is_profile env.config p.previous_registry)
    && (p.previous_cli_log_document_url == ""
        || valid_trace_document_url env.parse p.previous_cli_log_document_url)

-- The second `switch`, on the payload.
unfoldable pub validate_payload : Env → Event → Result StateError (Unit {0})
unfolding validate_result_payload valid_bound is_outcome is_report_status is_entry_status
validate_payload env e = elim e.payload [
  | flow_initialized p ↦
      refuse_if (p.step_id == "" || not (is_entry_status p.step_status)) invalid_initialized
  | flow_progress p ↦
      refuse_if
        (p.from_step_id == ""
          || not (valid_step_status p.from_step_status)
          || not (is_report_status p.to_step_status)
          || is_blank p.summary
          || not (valid_evidence p.evidence))
        invalid_progress
  | flow_result p ↦ validate_result_payload env.parse p
  | trace_document_bound p ↦ refuse_if (not (valid_bound env e.workflow p)) invalid_trace_binding
  | trace_sync_started targets ↦ refuse_if (not (valid_trace_target_names targets)) invalid_targets
  | trace_synced p ↦
      refuse_if (not (is_outcome p.outcome) || not (valid_trace_target_results p.targets))
        invalid_sync_result
  | other_payload ↦ ok tt
]

-- `ValidateEventPayload`
unfoldable pub validate_event_payload : Env → Event → Result StateError (Unit {0})
unfolding payload_fits is_initialized validate_payload
validate_event_payload env e = elim (expected_command e.kind) [
  | none ↦ err unknown_kind
  | some command ↦ do
    refuse_if (not (payload_fits e)) payload_type
    refuse_if (not (e.command == command)) wrong_command
    refuse_if (not (is_initialized e.kind) && e.caused_by_event_id == "") no_cause
    validate_payload env e
]
