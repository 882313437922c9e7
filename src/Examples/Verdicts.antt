-- ===== src/Examples/Verdicts.antt =====
-- The theorems on Results, run on the reports of Examples/Reports.antt.
use fanloop.Base.{
  ◌≡◌, ◌≢◌, refl, ok, err, [], ◌∷◌, true, none, if◌then◌else◌, lookup, contains, insert, fold_each,
  lookup_or, delete, text_le, is_blank, is_space, Dict,
}
use fanloop.Base.Sorting.{sort_strings}
use fanloop.Json.{decode_bool, document, text, leb_ℤ, unmarshal_text}
use fanloop.Json
use fanloop.Workflow.{
  string, boolean, find_step, condition, relevant_condition_ids, matches, type_code, add,
  collect_condition_ids,
}
use fanloop.State.{
  advanced, looped, flow, loop, fixing, State, FlowResultPayload, RegisteredOutput, entries,
  status_eq,
}
use fanloop.State.Results.{
  validate_result_against, apply_flow_result, result_accepted_outputs,
  registered_historical_outputs, merge_outputs,
}
use fanloop.State.Results.Outputs.{lookup-apply_flow_result}
use fanloop.Flow.{route_ambiguous, count_set_fields, durable_output_type}
use fanloop.Flow.Evaluate.{
  Evaluating, ResultEvaluation, evaluate_result, evaluate_business, evaluate_condition,
  evaluate_flow, select_flow_routes, single_match, flow_selected,
}
use fanloop.Flow.Evaluate.Unambiguous.{evaluate_result-ne-ambiguous}
use fanloop.Flow.Report.{result_payload}
use fanloop.Flow.Report.Accepted.{validate_result_against-evaluate_result}
use fanloop.Workflow.Output.{validate_output}
use fanloop.Examples.{bundle}
use fanloop.Examples.Bundles.{bundle_loaded}
use fanloop.Examples.Reports.{no_urls, state_at, go_on_request, design}

evaluate_result-ne-ambiguous_example :
    evaluate_result no_urls bundle (state_at "plan" []) go_on_request ≢ err route_ambiguous
unfolding count_set_fields
evaluate_result-ne-ambiguous_example =
    evaluate_result-ne-ambiguous no_urls bundle (state_at "plan" []) go_on_request 5 3 4 2
      bundle_loaded refl

-- The run goes on to `build`, with the design as an Output.
abbrev pub go_on_evaluation : ResultEvaluation
go_on_evaluation = record {
  condition_results =
      record {
        condition_id = "planned";
        output = record { type = string; value = document (text "design") };
      }
      ∷ [];
  accepted = ("plan", design) ∷ [];
  invalidated = [];
  effect = advanced;
  transition = record { direction = flow; from_step_id = "plan"; to_step_id = "build" };
}

go_on_evaluated :
    evaluate_result no_urls bundle (state_at "plan" []) go_on_request ≡ ok go_on_evaluation
unfolding evaluate_result evaluate_business evaluate_condition evaluate_flow select_flow_routes
    single_match flow_selected fold_each lookup contains insert condition relevant_condition_ids
    matches type_code status_eq durable_output_type validate_output sort_strings text_le is_blank
    is_space add collect_condition_ids unmarshal_text lookup_or
go_on_evaluated = refl

validate_result_against-evaluate_result_example :
    validate_result_against no_urls.parse bundle (result_payload go_on_request go_on_evaluation)
    ≡ ok tt
unfolding find_step count_set_fields
validate_result_against-evaluate_result_example =
    validate_result_against-evaluate_result no_urls bundle (state_at "plan" []) go_on_request
      go_on_evaluation refl refl go_on_evaluated

-- The run goes back to `plan`, whose Output is stale.
abbrev go_back_payload : FlowResultPayload
go_back_payload = record {
  condition_results =
      record {
        condition_id = "broken";
        output = record { type = boolean; value = document (fanloop.Json.Json.boolean true) };
      }
      ∷ [];
  evidence = [];
  summary = "broken";
  effect = looped;
  transition = record { direction = loop; from_step_id = "build"; to_step_id = "plan" };
  output_changes = record { accepted = "failure" ∷ []; invalidated = "plan" ∷ [] };
}

abbrev failure : Dict RegisteredOutput
failure =
    (
      "failure",
      record {
        type = boolean;
        value = document (fanloop.Json.Json.boolean true);
        producer_step_id = "build";
      },
    )
    ∷ []

abbrev sent_back : State
sent_back = record (state_at "plan" failure) {
  current_step_status = fixing;
  current_step_summary = "broken";
}

failure_accepted : result_accepted_outputs no_urls.parse bundle go_back_payload ≡ ok failure
unfolding result_accepted_outputs registered_historical_outputs find_step fold_each condition lookup
    insert validate_output type_code decode_bool
failure_accepted = refl

go_back_applied :
    apply_flow_result no_urls.parse bundle
      (state_at "build" (("plan", design) ∷ []))
      go_back_payload
      fixing
    ≡ ok sent_back
unfolding apply_flow_result result_accepted_outputs registered_historical_outputs find_step
    fold_each condition lookup insert validate_output type_code merge_outputs entries decode_bool
    delete
go_back_applied = refl

lookup-apply_flow_result_example : lookup "plan" (entries sent_back) ≡ (
    if contains "plan" ("plan" ∷ [])
    then none
    else lookup "plan" (entries (state_at "build" (("plan", design) ∷ []))))
unfolding contains
lookup-apply_flow_result_example =
    lookup-apply_flow_result no_urls.parse bundle (state_at "build" (("plan", design) ∷ []))
      go_back_payload fixing failure sent_back "plan" failure_accepted go_back_applied refl

abbrev tracked : Evaluating
tracked = record {
  condition_ids = "planned" ∷ [];
  exclusive = "verdict" ∷ [];
  accepted = go_on_evaluation.accepted;
  durable = go_on_evaluation.condition_results;
}
