-- ===== src/Flow/Report.antt =====
-- internal/flow/runtime.go: `Progress` and `Result`, from the loaded State to the State and Event
-- that are committed. Loading and committing are those of the store.
pub mod Checked
pub mod Conditions
pub mod Routes
pub mod Accepted
pub mod Progressed
pub mod Rehearsed
use fanloop.Base.{
  ℕ, Bool, not, Option, none, some, List, String, if◌then◌else◌, Result, ok, err, ◌>>=◌, ◌>>◌,
  refuse_if, is_ok, keys,
}
use fanloop.Base.Sorting.{sort_strings}
use fanloop.Workflow.{Workflow}
use fanloop.State.{
  State, awaiting_confirmation, status_eq, FlowResultPayload, flow_progress, flow_result, Event,
  progressed, result, state_ref,
}
use fanloop.State.Checks.{Env, validate, validate_against}
use fanloop.State.Results.{result_target_status, apply_flow_result}
use fanloop.Flow.{
  ErrorCode, report_not_allowed, internal, FlowProgressRequest, FlowResultRequest, RequestEvidence,
  CheckedRequest, validate_progress_request, validate_result_request, durable_progress_status,
  durable_evidence, require_current_step,
}
use fanloop.Flow.Evaluate.{Outside, ResultEvaluation, evaluate_result}

-- What a report hands to the store: none on a dry run.
pub record Outcome : Type 0 where
  pub state : State
  pub event : Option Event

-- `runtime.Clock` and `runtime.EventID`, called once each.
pub record Stamp : Type 0 where
  pub now : ℕ
  pub event_id : String

-- `validateAndCommit` up to the commit.
unfoldable pub validate_next : Env → Workflow → State → Result ErrorCode (Unit {0})
validate_next env w next = do
  refuse_if (not (is_ok (validate env next))) internal
  refuse_if (not (is_ok (validate_against env.parse w next))) internal

-- The State after a progress report, but for its last Event.
unfoldable pub progress_state : ℕ → State → FlowProgressRequest → List RequestEvidence → State
progress_state now s q evidence = record s {
  current_step_status = durable_progress_status q.status;
  current_step_summary = q.summary;
  current_evidence = durable_evidence evidence;
  updated_at = now;
}

unfoldable pub progress_event : Stamp → State → FlowProgressRequest → List RequestEvidence → Event
progress_event stamp s q evidence = record {
  schema_version = 16;
  id = stamp.event_id;
  occurred_at = stamp.now;
  kind = progressed;
  command = "flow.report.progress";
  workflow = s.release.workflow;
  caused_by_event_id = s.last_event_id;
  payload = flow_progress (record {
    from_step_id = (state_ref s).step_id;
    from_step_status = (state_ref s).status;
    to_step_status = durable_progress_status q.status;
    summary = q.summary;
    evidence = durable_evidence evidence;
  });
}

-- `Runtime.Progress`
unfoldable pub progress :
    Env → Stamp → Workflow → State → Option FlowProgressRequest → Bool → Result ErrorCode Outcome
progress env stamp w s request dry_run = do
  (q, evidence) ← validate_progress_request env.parse request
  require_current_step s q.step_id
  refuse_if (status_eq s.current_step_status awaiting_confirmation) report_not_allowed
  let next = progress_state stamp.now s q evidence
  let committed = record next { last_event_id = stamp.event_id }
  if dry_run
      then ok (record { state = next; event = none })
      else validate_next env w committed
        >> ok (record { state = committed; event = some (progress_event stamp s q evidence) })

-- The payload that `Runtime.Result` builds from an evaluation.
unfoldable pub result_payload : CheckedRequest → ResultEvaluation → FlowResultPayload
result_payload q e = record {
  condition_results = e.condition_results;
  evidence = durable_evidence q.evidence;
  summary = q.summary;
  effect = e.effect;
  transition = e.transition;
  output_changes = record {
    accepted = sort_strings (keys e.accepted);
    invalidated = e.invalidated;
  };
}

unfoldable pub result_event : Stamp → State → FlowResultPayload → Event
result_event stamp s p = record {
  schema_version = 16;
  id = stamp.event_id;
  occurred_at = stamp.now;
  kind = result;
  command = "flow.report.result";
  workflow = s.release.workflow;
  caused_by_event_id = s.last_event_id;
  payload = flow_result p;
}

or_internal {ℓ} : {E : Type 0} {A : Type ℓ} → Result E A → Result ErrorCode A
or_internal (ok a) = ok a
or_internal (err e) = err internal

-- `Runtime.Result`
unfoldable pub report_result :
    Env
    → Outside
    → Stamp
    → Workflow
    → State
    → Option FlowResultRequest
    → Bool
    → Result ErrorCode Outcome
unfolding or_internal
report_result env out stamp w s request dry_run = do
  q ← validate_result_request env.parse request
  require_current_step s q.step_id
  evaluation ← evaluate_result out w s q
  let p = result_payload q evaluation
  applied ← or_internal (apply_flow_result env.parse w s p (result_target_status w p.effect))
  let next = record applied { updated_at = stamp.now }
  let committed = record next { last_event_id = stamp.event_id }
  if dry_run
      then ok (record { state = next; event = none })
      else validate_next env w committed
        >> ok (record { state = committed; event = some (result_event stamp s p) })
