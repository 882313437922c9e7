-- ===== src/Flow/Report/Rehearsed.antt =====
-- internal/flow/runtime.go: a dry run against the report that commits.
use fanloop.Base.{◌≡◌, refl, inl, inr, true, false, Option, none, arith, is_some, ok, Result-cases}
use fanloop.Workflow.{Workflow}
use fanloop.State.{State}
use fanloop.State.Checks.{Env}
use fanloop.State.Results.{apply_flow_result, result_target_status}
use fanloop.Flow.{FlowResultRequest, validate_result_request, require_current_step}
use fanloop.Flow.Evaluate.{Outside, evaluate_result}
use fanloop.Flow.Report.{Outcome, Stamp, report_result, result_payload, or_internal}

-- If a report of a Result is committed, then a dry run of it at the same time succeeds, hands nothing
-- to the store, and its State is the committed one but for the id of the last Event.
pub report_result-dry_run :
    (env : Env) (out : Outside) (stamp : Stamp) (w : Workflow) (s : State)
    (request : Option FlowResultRequest) (done : Outcome)
    → report_result env out stamp w s request false ≡ ok done
    → (dry : Outcome) × (report_result env out stamp w s request true ≡ ok dry)
      × (dry.event ≡ none)
      × (done.state ≡ record (dry.state) { last_event_id = stamp.event_id })
      × (is_some done.event ≡ true)
unfolding report_result or_internal
report_result-dry_run env out stamp w s request done h =
    elim (Result-cases (validate_result_request env.parse request)) [
      | inl (q, valid) ↦ elim (Result-cases (evaluate_result out w s q)) [
        | inl (e, evaluated) ↦
            let p = result_payload q e in
            elim (Result-cases
              (apply_flow_result env.parse w s p (result_target_status w p.effect))) [
                | inl (next, applied) ↦
                    let dry : Outcome = record {
                      state = record next { updated_at = stamp.now };
                      event = none;
                    } in
                    let here : require_current_step s q.step_id ≡ ok tt =
                      ground (arith, valid, h) in
                    (
                      dry,
                      rw (valid, here, evaluated, applied) refl,
                      refl,
                      ground (arith, valid, here, evaluated, applied, h),
                      ground (arith, valid, here, evaluated, applied, h),
                    )
                | inr (c, failed) ↦ absurd (ground (arith, valid, evaluated, failed, h))
              ]
        | inr (c, failed) ↦ absurd (ground (arith, valid, failed, h))
      ]
      | inr (c, failed) ↦ absurd (ground (arith, failed, h))
    ]
