-- ===== src/State/Persistence/Events.antt =====
-- internal/state/persistence.go: the stored Events. `other_payload` holds nil as well, which
-- ValidateEventPayload refuses too.
use fanloop.Base.{
  ℕ, not, ◌||◌, Option, none, some, String, ◌==◌, if◌then◌else◌, nat_eq, is_none, Result, ok, err,
  ◌>>=◌, ◌>>◌, refuse_if,
}
use fanloop.Storage.{
  to_string, step_status, registry_profile, event_kind, result_effect, transition_direction,
  trace_sync_outcome, trace_target, trace_target_status, trace_target_error_code,
}
use fanloop.Storage.Messages
use fanloop.Storage.Messages.{some_text, get_or_empty, empty_payload, count_set_fields}
use fanloop.Storage.Valid.{event_valid}
use fanloop.State.{
  ConditionResult, FlowInitializedPayload, FlowProgressPayload, FlowResultPayload,
  TraceDocumentBoundPayload, TraceTargetError, TraceTargetResult, TraceSyncedPayload, Payload,
  flow_initialized, flow_progress, flow_result, trace_document_bound, trace_sync_started,
  trace_synced, EventKind, initialized, progressed, result, document_bound, sync_started, synced,
  other_kind, Event, state_schema_version,
}
use fanloop.State.Checks.{Env}
use fanloop.State.Payloads.{validate_event_payload}
use fanloop.State.Spellings.{
  status_spelling, status_of, effect_spelling, effect_of, direction_spelling, direction_of,
  outcome_spelling, outcome_of, kind_spelling, kind_of, replace_dot, replace_underscore,
}
use fanloop.State.Persistence.{
  Codec, PersistenceError, not_valid, schema_unsupported, message_invalid, json_invalid,
  time_invalid, payload_mismatch, union_invalid, envelope_invalid, value_missing, wrap, or_error,
  convert_each, named, decode_storage_json, workflow_ref_to_idl, workflow_ref_from_idl,
  evidence_to_idl, evidence_from_idl, output_value_to_idl, output_value_from_idl,
}
use fanloop.State.Persistence.Documents.{int32}

-- `strings.ToLower` and `strings.ToUpper`
pub record Cases : Type 0 where
  pub to_lower : String → String
  pub to_upper : String → String

-- A name where the text is not empty.
unfoldable pub named_or_none : String → Result PersistenceError (Option ℕ)
unfolding named
named_or_none s = if s == "" then ok none else named registry_profile s >>= λ code. ok (some code)

unfoldable pub initialized_to_idl :
    FlowInitializedPayload → Result PersistenceError Messages.FlowInitializedPayload
initialized_to_idl p = do
  status ← named step_status (status_spelling p.step_status)
  ok (record { step_id = p.step_id; step_status = status })

unfoldable pub initialized_from_idl : Messages.FlowInitializedPayload → FlowInitializedPayload
initialized_from_idl m = record {
  step_id = m.step_id;
  step_status = status_of (to_string step_status m.step_status);
}

unfoldable pub progressed_to_idl :
    FlowProgressPayload → Result PersistenceError Messages.FlowProgressedPayload
progressed_to_idl p = do
  from_status ← named step_status (status_spelling p.from_step_status)
  to_status ← named step_status (status_spelling p.to_step_status)
  evidence ← evidence_to_idl p.evidence
  ok (record {
    from_step_id = p.from_step_id;
    from_step_status = from_status;
    to_step_status = to_status;
    summary = p.summary;
    evidence = evidence;
  })

unfoldable pub progressed_from_idl :
    Messages.FlowProgressedPayload → Result PersistenceError FlowProgressPayload
progressed_from_idl m = do
  evidence ← evidence_from_idl m.evidence
  ok (record {
    from_step_id = m.from_step_id;
    from_step_status = status_of (to_string step_status m.from_step_status);
    to_step_status = status_of (to_string step_status m.to_step_status);
    summary = m.summary;
    evidence = evidence;
  })

unfoldable pub bound_to_idl :
    TraceDocumentBoundPayload → Result PersistenceError Messages.TraceDocumentBoundPayload
bound_to_idl p = do
  registry ← named registry_profile p.registry
  previous ← named_or_none p.previous_registry
  ok (record {
    previous_document_url = some_text p.previous_document_url;
    document_url = p.document_url;
    previous_registry = previous;
    registry = registry;
    previous_cli_log_document_url = some_text p.previous_cli_log_document_url;
    cli_log_document_url = some_text p.cli_log_document_url;
  })

abbrev pub name_or_empty : Option ℕ → String
name_or_empty none = ""
name_or_empty (some code) = to_string registry_profile code

unfoldable pub bound_from_idl : Messages.TraceDocumentBoundPayload → TraceDocumentBoundPayload
bound_from_idl m = record {
  previous_document_url = get_or_empty m.previous_document_url;
  document_url = m.document_url;
  previous_registry = name_or_empty m.previous_registry;
  registry = to_string registry_profile m.registry;
  previous_cli_log_document_url = get_or_empty m.previous_cli_log_document_url;
  cli_log_document_url = get_or_empty m.cli_log_document_url;
}

module _ (codec : Codec) where
  -- The bodies of the loops over `ConditionResults`.
  unfoldable pub condition_result_to_idl :
      ConditionResult → Result PersistenceError (Option Messages.ConditionResult)
  condition_result_to_idl r = do
    output ← output_value_to_idl codec r.output
    ok (some (record { condition_id = r.condition_id; output = some output }))

  unfoldable pub condition_result_from_idl :
      Option Messages.ConditionResult → Result PersistenceError ConditionResult
  condition_result_from_idl none = err value_missing
  condition_result_from_idl (some m) = do
    refuse_if (is_none m.output) value_missing
    output ← output_value_from_idl codec m.output
    ok (record { condition_id = m.condition_id; output = output })

  unfoldable pub flow_result_to_idl :
      FlowResultPayload → Result PersistenceError Messages.FlowResultPayload
  flow_result_to_idl p = do
    results ← convert_each condition_result_to_idl p.condition_results
    evidence ← evidence_to_idl p.evidence
    effect ← named result_effect (effect_spelling p.effect)
    direction ← named transition_direction (direction_spelling p.transition.direction)
    ok (record {
      condition_results = results;
      evidence = evidence;
      summary = p.summary;
      effect = effect;
      transition = some (record {
        direction = direction;
        from_step_id = p.transition.from_step_id;
        to_step_id = some_text p.transition.to_step_id;
      });
      output_changes = some (record {
        accepted = p.output_changes.accepted;
        invalidated = p.output_changes.invalidated;
      });
    })

  unfoldable pub flow_result_from_idl :
      Messages.FlowResultPayload → Result PersistenceError FlowResultPayload
  unfolding or_error
  flow_result_from_idl m = do
    results ← convert_each condition_result_from_idl m.condition_results
    evidence ← evidence_from_idl m.evidence
    transition ← or_error value_missing m.transition
    changes ← or_error value_missing m.output_changes
    ok (record {
      condition_results = results;
      evidence = evidence;
      summary = m.summary;
      effect = effect_of (to_string result_effect m.effect);
      transition = record {
        direction = direction_of (to_string transition_direction transition.direction);
        from_step_id = transition.from_step_id;
        to_step_id = get_or_empty transition.to_step_id;
      };
      output_changes = record { accepted = changes.accepted; invalidated = changes.invalidated };
    })

module _ (cases : Cases) where
  unfoldable pub target_error_to_idl :
      Option TraceTargetError → Result PersistenceError (Option Messages.TraceTargetError)
  target_error_to_idl none = ok none
  target_error_to_idl (some e) = do
    code ← named trace_target_error_code (cases.to_lower e.code)
    ok (some (record { code = code; message = e.message; retryable = e.retryable }))

  unfoldable pub target_error_from_idl : Option Messages.TraceTargetError → Option TraceTargetError
  target_error_from_idl none = none
  target_error_from_idl (some m) = some (record {
    code = cases.to_upper (to_string trace_target_error_code m.code);
    message = m.message;
    retryable = m.retryable;
  })

  -- The bodies of the loops over the targets.
  unfoldable pub target_to_idl :
      TraceTargetResult → Result PersistenceError (Option Messages.TraceTargetResult)
  target_to_idl t = do
    target ← named trace_target t.name
    status ← named trace_target_status t.status
    error ← target_error_to_idl t.error
    ok (
        some
          (record { target = target; status = status; reason = some_text t.reason; error = error }))

  unfoldable pub target_from_idl :
      Option Messages.TraceTargetResult → Result PersistenceError TraceTargetResult
  target_from_idl none = err value_missing
  target_from_idl (some m) = ok (record {
    name = to_string trace_target m.target;
    status = to_string trace_target_status m.status;
    reason = get_or_empty m.reason;
    error = target_error_from_idl m.error;
  })

  unfoldable pub trace_synced_to_idl :
      TraceSyncedPayload → Result PersistenceError Messages.TraceSyncedPayload
  trace_synced_to_idl p = do
    outcome ← named trace_sync_outcome (outcome_spelling p.outcome)
    targets ← convert_each target_to_idl p.targets
    ok (record { outcome = outcome; targets = targets })

  unfoldable pub trace_synced_from_idl :
      Messages.TraceSyncedPayload → Result PersistenceError TraceSyncedPayload
  trace_synced_from_idl m = do
    targets ← convert_each target_from_idl m.targets
    ok (record { outcome = outcome_of (to_string trace_sync_outcome m.outcome); targets = targets })

-- The body of the loop over the started targets.
unfoldable pub target_name_from_idl : ℕ → Result PersistenceError String
target_name_from_idl code = ok (to_string trace_target code)

module _ (codec : Codec) (cases : Cases) where
  -- The conversions of the payloads, each as the one member of the union.
  unfoldable pub payload_to_idl :
      EventKind → Payload → Result PersistenceError Messages.EventPayload
  payload_to_idl initialized (flow_initialized p) =
      initialized_to_idl p >>= λ m. ok (record empty_payload { flow_initialized = some m })
  payload_to_idl progressed (flow_progress p) =
      progressed_to_idl p >>= λ m. ok (record empty_payload { flow_progressed = some m })
  payload_to_idl result (flow_result p) =
      flow_result_to_idl codec p >>= λ m. ok (record empty_payload { flow_result = some m })
  payload_to_idl document_bound (trace_document_bound p) =
      bound_to_idl p >>= λ m. ok (record empty_payload { trace_document_bound = some m })
  payload_to_idl sync_started (trace_sync_started targets) =
      convert_each (named trace_target) targets >>= λ codes.
      ok (record empty_payload { trace_sync_started = some (record { targets = codes }) })
  payload_to_idl synced (trace_synced p) =
      trace_synced_to_idl cases p >>= λ m. ok (record empty_payload { trace_synced = some m })
  payload_to_idl kind payload = err payload_mismatch

  unfoldable pub payload_from_idl :
      EventKind → Messages.EventPayload → Result PersistenceError Payload
  unfolding or_error
  payload_from_idl initialized m = or_error payload_mismatch m.flow_initialized >>= λ p.
      ok (flow_initialized (initialized_from_idl p))
  payload_from_idl progressed m = or_error payload_mismatch m.flow_progressed >>= λ p.
      progressed_from_idl p >>= λ v. ok (flow_progress v)
  payload_from_idl result m = or_error payload_mismatch m.flow_result >>= λ p.
      flow_result_from_idl codec p >>= λ v. ok (flow_result v)
  payload_from_idl document_bound m = or_error payload_mismatch m.trace_document_bound >>= λ p.
      ok (trace_document_bound (bound_from_idl p))
  payload_from_idl sync_started m = or_error payload_mismatch m.trace_sync_started >>= λ p.
      convert_each target_name_from_idl p.targets >>= λ names. ok (trace_sync_started names)
  payload_from_idl synced m = or_error payload_mismatch m.trace_synced >>= λ p.
      trace_synced_from_idl cases p >>= λ v. ok (trace_synced v)
  payload_from_idl (other_kind s) m = err payload_mismatch

module _ (env : Env) (codec : Codec) (cases : Cases) where
  unfoldable pub validate_event_envelope : Event → Result PersistenceError (Unit {0})
  unfolding wrap
  validate_event_envelope e = do
    refuse_if
        (not (nat_eq e.schema_version state_schema_version)
          || e.id == ""
          || nat_eq e.occurred_at 0
          || kind_spelling e.kind == ""
          || e.command == ""
          || e.workflow == "")
        envelope_invalid
    wrap not_valid (validate_event_payload env e)

  -- The message of an Event, given its converted parts.
  abbrev pub event_message : Event → ℕ → Messages.EventPayload → Messages.Event
  event_message e kind payload = record {
    schema_version = int32 e.schema_version;
    event_id = e.id;
    occurred_at = codec.format_time e.occurred_at;
    kind = kind;
    command = e.command;
    workflow = some (workflow_ref_to_idl e.workflow);
    caused_by_event_id = some_text e.caused_by_event_id;
    payload = some payload;
  }

  unfoldable pub event_to_idl : Event → Result PersistenceError Messages.Event
  event_to_idl e = do
    validate_event_envelope e
    payload ← payload_to_idl codec cases e.kind e.payload
    kind ← named event_kind (replace_dot (kind_spelling e.kind))
    refuse_if (not (nat_eq (count_set_fields payload) 1)) union_invalid
    refuse_if (not (event_valid (event_message e kind payload))) message_invalid
    ok (event_message e kind payload)

  unfoldable pub encode_event : Event → Result PersistenceError String
  unfolding or_error
  encode_event e = do stored ← event_to_idl e; or_error json_invalid (codec.events.write stored)

  unfoldable pub event_from_idl : Messages.Event → Result PersistenceError Event
  unfolding or_error
  event_from_idl m = do
    refuse_if (not (nat_eq m.schema_version state_schema_version)) schema_unsupported
    refuse_if (not (event_valid m)) message_invalid
    stored ← or_error union_invalid m.payload
    refuse_if (not (nat_eq (count_set_fields stored) 1)) union_invalid
    occurred_at ← or_error time_invalid (codec.parse_time m.occurred_at)
    let kind = kind_of (replace_underscore (to_string event_kind m.kind))
    payload ← payload_from_idl codec cases kind stored
    let e : Event = record {
      schema_version = m.schema_version;
      id = m.event_id;
      occurred_at = occurred_at;
      kind = kind;
      command = m.command;
      workflow = workflow_ref_from_idl m.workflow;
      caused_by_event_id = get_or_empty m.caused_by_event_id;
      payload = payload;
    }
    validate_event_envelope e
    ok e

  unfoldable pub decode_event : String → Result PersistenceError Event
  decode_event content = do stored ← decode_storage_json codec.events content; event_from_idl stored
