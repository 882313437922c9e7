-- ===== src/Examples/Rehearsals.antt =====
-- The theorem on dry runs, run on the report of Examples/Reports.antt that goes on.
use fanloop.Base.{
  ◌≡◌, refl, ok, [], ◌∷◌, none, some, true, false, is_some, fold_each, for_each, lookup, lookup_or,
  contains, insert, is_blank, is_space, text_le, delete,
}
use fanloop.Base.Sorting.{sort_strings}
use fanloop.Json.{document, text, decode_text, unmarshal_text}
use fanloop.Workflow.{
  string, find_step, condition, relevant_condition_ids, matches, type_code, add,
  collect_condition_ids,
}
use fanloop.Workflow.Output.{validate_output, validate_registered_output}
use fanloop.State.{
  ready, status_eq, entries, valid_evidence, valid_step_status, unique_non_empty, state_ref,
}
use fanloop.State.Checks.{
  validate, validate_against, validate_cursor_against, validate_skipped, validate_output_against,
  valid_output_value,
}
use fanloop.State.Results.{
  apply_flow_result, result_accepted_outputs, registered_historical_outputs, merge_outputs,
  result_target_status, entry_step_status,
}
use fanloop.Flow.{
  FlowResultRequest, validate_result_request, validate_route, validate_evidence,
  validate_conditions, count_set_fields, require_current_step, durable_evidence,
  durable_output_type,
}
use fanloop.Flow.Evaluate.{
  evaluate_result, evaluate_business, evaluate_condition, evaluate_flow, select_flow_routes,
  single_match, flow_selected,
}
use fanloop.Flow.Report.{Outcome, report_result, result_payload, result_event, validate_next}
use fanloop.Flow.Report.Rehearsed.{report_result-dry_run}
use fanloop.Examples.{bundle}
use fanloop.Examples.Reports.{no_urls, state_at, design, go_on_request}
use fanloop.Examples.Verdicts.{go_on_evaluation}
use fanloop.Examples.Histories.{env, stamp}

abbrev sent_request : FlowResultRequest
sent_request = record {
  step_id = "plan";
  condition_results =
      some (record {
        condition_id = "planned";
        output = some (record {
          type = string;
          value = some (record { fields_set = 1; raw = document (text "design") });
        });
      })
      ∷ [];
  evidence = [];
  summary = "planned";
  route = some go_on_request.route;
}

abbrev arrived : Outcome
arrived = record {
  state = record (state_at "build" (("plan", design) ∷ [])) {
    current_step_status = ready;
    current_step_summary = "planned";
    last_event_id = "e2";
    updated_at = 2;
  };
  event =
      some
        (result_event stamp (state_at "plan" []) (result_payload go_on_request go_on_evaluation));
}

sent :
    report_result env no_urls stamp bundle (state_at "plan" []) (some sent_request) false
    ≡ ok arrived
unfolding report_result result_payload result_event validate_next evaluate_result evaluate_business
    evaluate_condition evaluate_flow select_flow_routes single_match flow_selected
    validate_result_request validate_route validate_evidence validate_conditions count_set_fields
    require_current_step durable_evidence durable_output_type apply_flow_result
    result_accepted_outputs registered_historical_outputs merge_outputs result_target_status
    entry_step_status validate validate_against validate_cursor_against validate_skipped
    validate_output_against valid_output_value status_eq entries valid_evidence valid_step_status
    unique_non_empty state_ref validate_output validate_registered_output find_step condition
    relevant_condition_ids matches type_code add collect_condition_ids decode_text unmarshal_text
    sort_strings fold_each for_each lookup lookup_or contains insert is_blank is_space text_le
    delete
sent = refl

report_result-dry_run_example :
    (dry : Outcome) × (report_result env no_urls stamp bundle
        (state_at "plan" [])
        (some sent_request)
        true
      ≡ ok dry)
    × (dry.event ≡ none)
    × (arrived.state ≡ record (dry.state) { last_event_id = stamp.event_id })
    × (is_some arrived.event ≡ true)
report_result-dry_run_example =
    report_result-dry_run env no_urls stamp bundle (state_at "plan" []) (some sent_request) arrived
      sent
