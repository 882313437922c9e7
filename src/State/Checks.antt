-- ===== src/State/Checks.antt =====
-- internal/state/model.go: State.Validate, State.ValidateAgainst.
use fanloop.Base.{
  ℕ, ◌+◌, Bool, true, false, not, ◌&&◌, ◌||◌, Option, none, some, List, [], ◌∷◌, String, ◌==◌, ltb,
  nat_eq, same_bool, is_some, is_none, Result, ok, err, ◌>>◌, refuse_if, for_each, is_ok, is_empty,
  all, is_blank, contains,
}
use fanloop.Json.{RawMessage}
use fanloop.Trace.{TraceConfig, resolve, disabled}
use fanloop.Workflow.{
  OutputType, OutputDefinition, string, enum_value, Workflow, find_step, step_position,
}
use fanloop.Workflow.Output.{UrlParser, validate_output, validate_registered_output}
use fanloop.State.{
  State, unset, ready, awaiting_confirmation, TraceBinding, RegisteredOutput, state_schema_version,
  status_eq, valid_step_status, valid_evidence, unique_non_empty, entries,
}
use fanloop.State.TraceUrl.{valid_trace_document_url, same_trace_document_url}

pub data StateError : Type 0 where
  schema_unsupported invalid_header invalid_evidence invalid_trace_binding : StateError
  completed_with_facts invalid_step_facts invalid_output invalid_skipped : StateError
  unknown_current_step status_mismatch undeclared_output unknown_producer : StateError
  skipped_producer unknown_skipped unordered_skipped : StateError
  payload_type unknown_kind wrong_command no_cause : StateError
  invalid_initialized invalid_progress invalid_result_facts invalid_condition_result : StateError
  invalid_transition invalid_effect invalid_targets invalid_sync_result : StateError

-- What the checks use of the outside: `url.Parse` and the Trace registries.
pub record Env : Type 0 where
  pub parse : UrlParser
  pub config : TraceConfig

abbrev plain_definition : OutputType → OutputDefinition
plain_definition type = record {
  key = "value";
  type = type;
  source = "";
  description = "";
  values = [];
  minimum = none;
  maximum = none;
  min_items = none;
  max_items = none;
}

-- `validateOutputValue`: an enum is checked as a string.
unfoldable pub valid_output_value : UrlParser → OutputType → RawMessage → Bool
valid_output_value parse enum_value value =
    is_ok (validate_output parse (plain_definition string) value)
valid_output_value parse type value = is_ok (validate_output parse (plain_definition type) value)

-- The condition on the two document URLs of a binding and its Registry.
unfoldable pub valid_binding : Env → String → String → String → String → Bool
valid_binding env document_url registry cli_log_url workflow_id =
    elim (resolve env.config registry workflow_id) [
      | none ↦ false
      | some r ↦
          valid_trace_document_url env.parse document_url
          && (cli_log_url == "" || valid_trace_document_url env.parse cli_log_url)
          && not (same_trace_document_url env.parse document_url cli_log_url)
          && (disabled r || same_bool r.require_cli_log_document (not (cli_log_url == "")))
    ]

valid_trace : Env → String → Option TraceBinding → Bool
unfolding valid_binding
valid_trace env workflow_id none = true
valid_trace env workflow_id (some b) =
    valid_binding env b.document_url b.registry b.cli_log_document_url workflow_id

unfoldable pub valid_cursor : State → Result StateError (Unit {0})
valid_cursor s = elim s.current_step_id [
  | none ↦
      refuse_if
        (not (status_eq s.current_step_status unset)
          || not (s.current_step_summary == "")
          || not (is_empty s.current_evidence))
        completed_with_facts
  | some id ↦
      refuse_if (id == "" || not (valid_step_status s.current_step_status)) invalid_step_facts
]

unfoldable pub valid_entry : UrlParser → String × RegisteredOutput → Bool
unfolding valid_output_value
valid_entry parse (key, output) =
    not (key == "")
    && not (output.producer_step_id == "")
    && valid_output_value parse output.type output.value

-- `State.Validate`
unfoldable pub validate : Env → State → Result StateError (Unit {0})
unfolding valid_trace valid_cursor valid_entry
validate env s = do
  refuse_if (not (nat_eq s.schema_version state_schema_version) && not (nat_eq s.schema_version 0))
      schema_unsupported
  refuse_if (not (nat_eq s.schema_version state_schema_version)) invalid_header
  refuse_if
      (is_blank s.requirement.title
        || s.release.version == ""
        || s.release.workflow == ""
        || is_none s.outputs
        || s.last_event_id == ""
        || nat_eq s.created_at 0
        || nat_eq s.updated_at 0)
      invalid_header
  refuse_if (not (valid_evidence s.current_evidence)) invalid_evidence
  refuse_if (not (valid_trace env s.release.workflow s.trace)) invalid_trace_binding
  valid_cursor s
  refuse_if (not (all (valid_entry env.parse) (entries s))) invalid_output
  refuse_if (not (unique_non_empty s.skipped_step_ids)) invalid_skipped

-- The current step is a step of the bundle, in a status that the bundle's controls allow.
unfoldable pub validate_cursor_against : Workflow → State → Result StateError (Unit {0})
validate_cursor_against w s = elim s.current_step_id [
  | none ↦ ok tt
  | some id ↦ do
    refuse_if (is_none (find_step w id)) unknown_current_step
    refuse_if
        ((status_eq s.current_step_status awaiting_confirmation && is_none w.step_start)
          || (status_eq s.current_step_status ready && is_some w.step_start))
        status_mismatch
]

unfoldable pub validate_output_against :
    UrlParser → Workflow → List String → String × RegisteredOutput → Result StateError (Unit {0})
validate_output_against parse w skipped_ids (key, output) = do
  refuse_if (not (is_ok (validate_registered_output parse key output.type output.value w)))
      undeclared_output
  refuse_if (is_none (find_step w output.producer_step_id)) unknown_producer
  refuse_if (contains output.producer_step_id skipped_ids) skipped_producer

-- The last loop: `above` is the least position that the next skipped step may have.
unfoldable pub validate_skipped : Workflow → ℕ → List String → Result StateError (Unit {0})
validate_skipped w above [] = ok tt
validate_skipped w above (id ∷ ids) = elim (step_position w id) [
  | none ↦ err unknown_skipped
  | some position ↦
      refuse_if (ltb position above) unordered_skipped >> validate_skipped w (position + 1) ids
]

-- `State.ValidateAgainst`
unfoldable pub validate_against : UrlParser → Workflow → State → Result StateError (Unit {0})
validate_against parse w s = do
  validate_cursor_against w s
  for_each (validate_output_against parse w s.skipped_step_ids) (entries s)
  validate_skipped w 0 s.skipped_step_ids
