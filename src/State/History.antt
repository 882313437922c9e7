-- ===== src/State/History.antt =====
-- internal/state/model.go: Event.validateAgainst and ValidateHistory, the replay of the Events from
-- the empty State up to the stored one.
pub mod Noted
pub mod Cursor
pub mod Extended
use fanloop.Base.{
  Bool, true, false, not, ◌&&◌, ◌||◌, Option, none, some, List, [], ◌∷◌, String, ◌==◌, ltb, nat_eq,
  if◌then◌else◌, is_some, is_none, Result, ok, err, ◌>>=◌, ◌>>◌, refuse_if, fold_each, is_ok,
  length, is_empty, all, contains, Dict, lookup, keys,
}
use fanloop.Base.Sorting.{sort_strings}
use fanloop.Workflow.{Workflow, find_step, first_step_id}
use fanloop.Workflow.Output.{UrlParser}
use fanloop.State.{
  State, StepStatus, unset, in_progress, awaiting_confirmation, TraceBinding, RegisteredOutput,
  StepState, ResultEffect, FlowInitializedPayload, FlowProgressPayload, FlowResultPayload,
  TraceDocumentBoundPayload, flow_initialized, flow_progress, flow_result, trace_document_bound,
  Payload, Event, EventKind, initialized, progressed, result, document_bound, sync_started, synced,
  other_kind, advanced, looped, completed, started, jumped, other_effect, other_direction,
  status_eq, texts_eq, evidence_lists_eq, entries, state_ref, step_state_pointer,
  same_historical_cursor, equal_optional_step_state, equal_registered_output,
}
use fanloop.State.Results.{
  entry_step_status, result_target_status, invalidated_outputs, result_accepted_outputs,
  apply_flow_result, validate_result_against, validate_historical_result_against,
}

pub data HistoryError : Type 0 where
  empty_history duplicate_or_foreign out_of_order wrong_cause : HistoryError
  bad_initialization unknown_progress_step bad_result : HistoryError
  reinitialized broken_progress broken_result status_not_allowed : HistoryError
  bad_accepted bad_invalidated flow_invalidates not_applied broken_binding : HistoryError
  tail_mismatch binding_mismatch last_event_mismatch : HistoryError

-- `payload, _ := EventPayloadAs[T](event)`: the zero value for a payload of another type.
abbrev pub as_initialized : Payload → FlowInitializedPayload
as_initialized (flow_initialized p) = p
as_initialized _ = record { step_id = ""; step_status = unset }

abbrev pub as_progress : Payload → FlowProgressPayload
as_progress (flow_progress p) = p
as_progress _ = record {
  from_step_id = "";
  from_step_status = unset;
  to_step_status = unset;
  summary = "";
  evidence = [];
}

abbrev pub as_result : Payload → FlowResultPayload
as_result (flow_result p) = p
as_result _ = record {
  condition_results = [];
  evidence = [];
  summary = "";
  effect = other_effect "";
  transition = record { direction = other_direction ""; from_step_id = ""; to_step_id = "" };
  output_changes = record { accepted = []; invalidated = [] };
}

abbrev pub as_bound : Payload → TraceDocumentBoundPayload
as_bound (trace_document_bound p) = p
as_bound _ = record {
  previous_document_url = "";
  document_url = "";
  previous_registry = "";
  registry = "";
  previous_cli_log_document_url = "";
  cli_log_document_url = "";
}

abbrev is_first : Option String → String → Bool
is_first none id = false
is_first (some first) id = id == first

-- `Event.validateAgainst`, for its flag `route`: whether a Result must follow the bundle's routes.
unfoldable pub validate_event_against :
    UrlParser → Workflow → Bool → Event → Result HistoryError (Unit {0})
validate_event_against parse w route e = elim e.kind [
  | initialized ↦
      let p = as_initialized e.payload in
      refuse_if
        (not (is_first (first_step_id w) p.step_id)
          || (route && not (status_eq p.step_status (entry_step_status w))))
        bad_initialization
  | progressed ↦
      refuse_if (is_none (find_step w (as_progress e.payload).from_step_id)) unknown_progress_step
  | result ↦
      let p = as_result e.payload in
      refuse_if
        (not (
          if route
          then is_ok (validate_result_against parse w p)
          else is_ok (validate_historical_result_against parse w p)))
        bad_result
  | _ ↦ ok tt
]

-- The variables of the loop of `ValidateHistory`; `previous` is `events[index-1]`.
pub record Replay : Type 0 where
  pub state : State
  pub pending : ResultEffect
  pub document_url : String
  pub registry : String
  pub cli_log_url : String
  pub seen : List String
  pub previous : Option Event

abbrev zero_state : State
zero_state = record {
  schema_version = 0;
  requirement = record { title = ""; source_url = "" };
  release = record { version = ""; workflow = "" };
  current_step_id = none;
  current_step_status = unset;
  current_step_summary = "";
  current_evidence = [];
  outputs = some [];
  skipped_step_ids = [];
  trace = none;
  last_event_id = "";
  created_at = 0;
  updated_at = 0;
}

abbrev pub replay_start : Replay
replay_start = record {
  state = zero_state;
  pending = other_effect "";
  document_url = "";
  registry = "";
  cli_log_url = "";
  seen = [];
  previous = none;
}

abbrev pub cursor_of : State → Option StepState
cursor_of s = step_state_pointer (state_ref s)

abbrev pub cursor_status_is : StepStatus → Option StepState → Bool
cursor_status_is status none = false
cursor_status_is status (some c) = status_eq c.status status

-- `case EventFlowInitialized`
unfoldable pub replay_initialized : Replay → Event → Result HistoryError Replay
replay_initialized r e = do
  refuse_if (is_some r.previous || is_some r.state.current_step_id) reinitialized
  let p = as_initialized e.payload
  ok (record r {
    state = record (r.state) {
      current_step_id = some p.step_id;
      current_step_status = p.step_status;
      current_step_summary = "workflow initialized";
    };
  })

-- `case EventFlowProgressed`
unfoldable pub replay_progressed : Replay → Event → Result HistoryError Replay
replay_progressed r e = do
  let p = as_progress e.payload
  let cursor = cursor_of r.state
  refuse_if
      (not (same_historical_cursor cursor p.from_step_id p.from_step_status)
        || cursor_status_is awaiting_confirmation cursor)
      broken_progress
  ok (record r {
    state = record (r.state) {
      current_step_id = some p.from_step_id;
      current_step_status = p.to_step_status;
      current_step_summary = p.summary;
      current_evidence = p.evidence;
    };
    pending = other_effect "";
  })

-- Whether a Result with this effect may be reported in this status.
effect_allowed : ResultEffect → StepStatus → Bool
effect_allowed started status = status_eq status awaiting_confirmation
effect_allowed jumped status = true
effect_allowed effect status = not (status_eq status awaiting_confirmation)

-- `cursor == nil || cursor.StepID != from`, then the status of the cursor.
check_result_cursor : Option StepState → FlowResultPayload → Result HistoryError (Unit {0})
unfolding effect_allowed
check_result_cursor none p = err broken_result
check_result_cursor (some c) p = do
  refuse_if (not (c.step_id == p.transition.from_step_id)) broken_result
  refuse_if (not (status_eq c.status unset) && not (effect_allowed p.effect c.status))
      status_not_allowed

same_keys : List String → Result (fanloop.State.Results.ResultError) (List String) → Bool
same_keys listed (ok want) = texts_eq want (sort_strings listed)
same_keys listed (err e) = false

check_invalidated :
    UrlParser → Workflow → State → FlowResultPayload → Result HistoryError (Unit {0})
unfolding same_keys
check_invalidated parse w s p =
    let want =
      refuse_if
        (not (
          same_keys p.output_changes.invalidated
            (invalidated_outputs w p.transition.to_step_id (entries s))))
        bad_invalidated in
    elim p.effect [
      | looped ↦ want
      | jumped ↦ want
      | _ ↦ refuse_if (not (is_empty p.output_changes.invalidated)) flow_invalidates
    ]

-- The status given to `ApplyFlowResult` while replaying.
replay_status : Workflow → ResultEffect → StepStatus
replay_status w started = result_target_status w started
replay_status w _ = unset

-- `case EventFlowResult`
unfoldable pub replay_result : UrlParser → Workflow → Replay → Event → Result HistoryError Replay
unfolding check_result_cursor check_invalidated replay_status
replay_result parse w r e = do
  let p = as_result e.payload
  check_result_cursor (cursor_of r.state) p
  refuse_if
      (not (
        same_keys p.output_changes.accepted
          (result_accepted_outputs parse w p >>= λ accepted. ok (sort_strings (keys accepted)))))
      bad_accepted
  check_invalidated parse w r.state p
  elim (apply_flow_result parse w r.state p (replay_status w p.effect)) [
    | err failure ↦ err not_applied
    | ok next ↦ ok (record r { state = next; pending = p.effect })
  ]

-- `case EventTraceDocumentBound`
unfoldable pub replay_bound : Replay → Event → Result HistoryError Replay
replay_bound r e = do
  let p = as_bound e.payload
  refuse_if
      (not (p.previous_document_url == r.document_url)
        || not (p.previous_registry == r.registry)
        || not (p.previous_cli_log_document_url == r.cli_log_url))
      broken_binding
  ok (record r {
    document_url = p.document_url;
    registry = p.registry;
    cli_log_url = p.cli_log_document_url;
  })

-- The `switch` on the kind of the Event.
replay_kind : UrlParser → Workflow → Replay → Event → Result HistoryError Replay
replay_kind parse w r e = elim e.kind [
  | initialized ↦ replay_initialized r e
  | progressed ↦ replay_progressed r e
  | result ↦ replay_result parse w r e
  | document_bound ↦ replay_bound r e
  | _ ↦ ok r
]

-- The tests on the chain of Events: the time, and the cause.
follows : Option Event → Event → Result HistoryError (Unit {0})
follows none e = refuse_if (not (e.caused_by_event_id == "")) wrong_cause
follows (some previous) e = do
  refuse_if (ltb e.occurred_at previous.occurred_at) out_of_order
  refuse_if (not (e.caused_by_event_id == previous.id)) wrong_cause

-- One round of the loop, for the Workflow that the current State is bound to.
unfoldable pub replay_event :
    UrlParser → Workflow → String → Replay → Event → Result HistoryError Replay
unfolding replay_kind follows
replay_event parse w bound r e = do
  refuse_if (contains e.id r.seen || not (e.workflow == bound)) duplicate_or_foreign
  follows r.previous e
  validate_event_against parse w false e
  r' ← replay_kind parse w r e
  ok (record r' { seen = e.id ∷ r'.seen; previous = some e })

unfoldable pub replay :
    UrlParser → Workflow → String → Replay → List Event → Result HistoryError Replay
replay parse w bound r events = fold_each (replay_event parse w bound) r events

-- The status of the cursor after the loop, where the last Result left it open.
unfoldable pub settle : Workflow → Replay → State
settle w r =
    if is_some r.state.current_step_id && status_eq r.state.current_step_status unset
    then record (r.state) { current_step_status = result_target_status w r.pending }
    else r.state

outputs_within : Dict RegisteredOutput → Dict RegisteredOutput → Bool
outputs_within a b =
    all
      (λ e. elim (lookup e.0 b) [
        | none ↦ false
        | some output ↦ equal_registered_output (e.1) output
      ])
      a

-- `maps.EqualFunc`
outputs_eq : Dict RegisteredOutput → Dict RegisteredOutput → Bool
unfolding outputs_within
outputs_eq a b = nat_eq (length a) (length b) && outputs_within a b

unfoldable pub tail_matches : State → State → Bool
unfolding outputs_eq
tail_matches replayed current =
    equal_optional_step_state (cursor_of replayed) (cursor_of current)
    && replayed.current_step_summary == current.current_step_summary
    && evidence_lists_eq replayed.current_evidence current.current_evidence
    && outputs_eq (entries replayed) (entries current)
    && texts_eq replayed.skipped_step_ids current.skipped_step_ids

binding_matches : Replay → Option TraceBinding → Bool
binding_matches r none = r.document_url == "" && r.registry == "" && r.cli_log_url == ""
binding_matches r (some b) =
    b.document_url == r.document_url
    && b.registry == r.registry
    && b.cli_log_document_url == r.cli_log_url

unfoldable pub is_last : Option Event → String → Bool
is_last none id = false
is_last (some e) id = id == e.id

-- `ValidateHistory`
unfoldable pub validate_history :
    UrlParser → Workflow → List Event → State → Result HistoryError (Unit {0})
unfolding binding_matches is_last
validate_history parse w events current = do
  refuse_if (is_empty events) empty_history
  r ← replay parse w current.release.workflow replay_start events
  refuse_if (not (tail_matches (settle w r) current)) tail_mismatch
  refuse_if (not (binding_matches r current.trace)) binding_mismatch
  refuse_if (not (is_last r.previous current.last_event_id)) last_event_mismatch
