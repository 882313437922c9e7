-- ===== src/Examples/Histories.antt =====
-- The theorem on the history, run on the first progress report of a run of the bundle.
use fanloop.Base.{
  ◌≡◌, refl, ok, [], ◌∷◌, ◌++◌, none, some, false, contains, fold_each, for_each, lookup, is_blank,
  is_space,
}
use fanloop.Workflow.{find_step, first_step_id}
use fanloop.State.{
  State, ready, Event, initialized, flow_initialized, equal_optional_step_state, step_state_pointer,
  state_ref, status_eq, evidence_lists_eq, entries, texts_eq, valid_evidence, valid_step_status,
  unique_non_empty,
}
use fanloop.State.Checks.{
  Env, validate, validate_against, validate_cursor_against, validate_skipped,
  validate_output_against,
}
use fanloop.State.History.{
  validate_history, replay, replay_event, validate_event_against, replay_initialized, tail_matches,
  settle,
}
use fanloop.Flow.{
  FlowProgressRequest, report_blocked, validate_progress_request, validate_evidence,
  require_current_step, durable_evidence, durable_progress_status,
}
use fanloop.Flow.Report.{Outcome, Stamp, validate_next, progress, progress_state, progress_event}
use fanloop.Flow.Report.Progressed.{validate_history-progress}
use fanloop.Examples.{bundle}
use fanloop.Examples.Reports.{state_at}

abbrev pub env : Env
env = record { parse = λ s. none; config = record { registries = []; getenv = λ s. "" } }

abbrev pub first_event : Event
first_event = record {
  schema_version = 16;
  id = "e1";
  occurred_at = 1;
  kind = initialized;
  command = "flow.init";
  workflow = "small";
  caused_by_event_id = "";
  payload = flow_initialized (record { step_id = "plan"; step_status = ready });
}

abbrev pub started_state : State
started_state = record (state_at "plan" []) {
  current_step_status = ready;
  current_step_summary = "workflow initialized";
}

abbrev pub stuck : FlowProgressRequest
stuck = record { step_id = "plan"; status = report_blocked; summary = "no access"; evidence = [] }

abbrev pub stamp : Stamp
stamp = record { now = 2; event_id = "e2" }

abbrev pub stuck_outcome : Outcome
stuck_outcome = record {
  state = record (progress_state 2 started_state stuck []) { last_event_id = "e2" };
  event = some (progress_event stamp started_state stuck []);
}

pub first_accepted : validate_history env.parse bundle (first_event ∷ []) started_state ≡ ok tt
unfolding validate_history replay replay_event validate_event_against replay_initialized
    tail_matches settle fold_each contains first_step_id equal_optional_step_state
    step_state_pointer state_ref status_eq evidence_lists_eq entries texts_eq
first_accepted = refl

pub stuck_reported : progress env stamp bundle started_state (some stuck) false ≡ ok stuck_outcome
unfolding progress validate_next progress_state progress_event validate_progress_request
    validate_evidence require_current_step durable_evidence durable_progress_status validate
    validate_against validate_cursor_against validate_skipped validate_output_against status_eq
    is_blank is_space valid_evidence valid_step_status entries unique_non_empty find_step for_each
    contains lookup state_ref
stuck_reported = refl

validate_history-progress_example :
    (e : Event) × (stuck_outcome.event ≡ some e)
    × (validate_history env.parse bundle ((first_event ∷ []) ++ e ∷ []) stuck_outcome.state ≡ ok tt)
validate_history-progress_example =
    validate_history-progress env stamp bundle started_state (first_event ∷ []) (some stuck)
      stuck_outcome first_accepted ((refl, refl), tt) stuck_reported
