-- ===== src/Flow/Evaluate/Unambiguous.antt =====
-- internal/flow/result.go on a bundle that internal/workflow/validate.go has accepted: the static
-- ambiguity check covers every set of Conditions that a report can carry.
use fanloop.Base.{
  ℕ, ◌≤◌, ◌≡◌, ◌≢◌, inl, inr, Option, none, some, List, [], ◌∷◌, String, arith, ok, err, fold_each,
  Result-cases, length,
}
use fanloop.Json.{RawMessage}
use fanloop.Workflow.{
  OutputType, ConditionDefinition, Workflow, condition, relevant_condition_ids, flows_at, loops_at,
}
use fanloop.Workflow.Parts.{Tree}
use fanloop.Workflow.Validate.{validate_bundle}
use fanloop.Workflow.Validate.Routes.{AreRoutes, validate_bundle-AreRoutes}
use fanloop.State.{State}
use fanloop.Flow.{route_ambiguous, Reported, CheckedRequest, durable_output_type}
use fanloop.Flow.Evaluate.{
  Outside, Evaluating, evaluate_condition, select_flow_routes, select_loop_routes, evaluate_flow,
  evaluate_loop, back_of, check_source, accept_reported, accept_typed, accept_found,
  evaluate_common_control, select_control, evaluate_control, common_invalidated,
  or_workflow_invalid, evaluate_business, evaluate_result,
}
use fanloop.Flow.Evaluate.Tracked.{start_evaluating, evaluate_condition-IsTracked}
use fanloop.Flow.Evaluate.Single.{
  IsSingleRoute, single_match-ne-ambiguous, flows_single, loops_single,
}

module _ (out : Outside) (w : Workflow) (current : State) (q : CheckedRequest) where
  check_source-ne-ambiguous :
      (c : ConditionDefinition) (raw : RawMessage)
      → check_source out current q c raw ≢ err route_ambiguous
  unfolding check_source
  check_source-ne-ambiguous c raw e = ground arith

  accept_reported-ne-ambiguous :
      (c : ConditionDefinition) (type : OutputType) (s : Evaluating) (r : Reported)
      → accept_reported out current q c type s r ≢ err route_ambiguous
  unfolding accept_reported
  accept_reported-ne-ambiguous c type s r e = ground (arith, check_source-ne-ambiguous c r.raw)

  accept_typed-ne-ambiguous :
      (c : ConditionDefinition) (s : Evaluating) (r : Reported) (o : Option OutputType)
      → accept_typed out current q c s r o ≢ err route_ambiguous
  unfolding accept_typed
  accept_typed-ne-ambiguous c s r none e = cc e
  accept_typed-ne-ambiguous c s r (some type) e = accept_reported-ne-ambiguous c type s r e

  accept_found-ne-ambiguous :
      (relevant : List String) (s : Evaluating) (r : Reported) (o : Option ConditionDefinition)
      → accept_found out current q relevant s r o ≢ err route_ambiguous
  unfolding accept_found
  accept_found-ne-ambiguous relevant s r none e = cc e
  accept_found-ne-ambiguous relevant s r (some c) e =
      ground (arith, accept_typed-ne-ambiguous c s r (durable_output_type r.type))

  evaluate_condition-ne-ambiguous :
      (relevant : List String) (s : Evaluating) (r : Reported)
      → evaluate_condition out w current q relevant s r ≢ err route_ambiguous
  unfolding evaluate_condition
  evaluate_condition-ne-ambiguous relevant s r e =
      ground (arith, accept_found-ne-ambiguous relevant s r (condition w r.condition_id))

  evaluate_all-ne-ambiguous :
      (relevant : List String) (s : Evaluating) (rs : List Reported)
      → fold_each (evaluate_condition out w current q relevant) s rs ≢ err route_ambiguous
  unfolding fold_each
  evaluate_all-ne-ambiguous relevant s [] e = cc e
  evaluate_all-ne-ambiguous relevant s (r ∷ rs) e =
      elim (Result-cases (evaluate_condition out w current q relevant s r)) [
        | inl (t, good) ↦ evaluate_all-ne-ambiguous relevant t rs (ground (arith, good))
        | inr (c, bad) ↦ evaluate_condition-ne-ambiguous relevant s r (ground (arith, bad))
      ]

  evaluate_common_control-ne-ambiguous :
      evaluate_common_control out w current q ≢ err route_ambiguous
  unfolding evaluate_common_control select_control evaluate_control common_invalidated
      or_workflow_invalid
  evaluate_common_control-ne-ambiguous e = ground arith

  evaluate_flow-ne-ambiguous :
      (s : Evaluating)
      → length (select_flow_routes (flows_at w q.step_id) q.route s.condition_ids).1 ≤ 1
      → evaluate_flow w q s ≢ err route_ambiguous
  unfolding evaluate_flow
  evaluate_flow-ne-ambiguous s h e =
      let (available, found) = select_flow_routes (flows_at w q.step_id) q.route s.condition_ids in
      ground (arith, single_match-ne-ambiguous available found h)

  evaluate_loop-ne-ambiguous :
      (s : Evaluating)
      → length (select_loop_routes (loops_at w q.step_id) (back_of q.route) s.condition_ids).1 ≤ 1
      → evaluate_loop w current q s ≢ err route_ambiguous
  unfolding evaluate_loop or_workflow_invalid
  evaluate_loop-ne-ambiguous s h e =
      let (available, found) =
        select_loop_routes (loops_at w q.step_id) (back_of q.route) s.condition_ids in
      ground (arith, single_match-ne-ambiguous available found h)

  evaluate_business-ne-ambiguous :
      (t : Tree)
      → AreRoutes w t
      → IsSingleRoute q.route
      → evaluate_business out w current q ≢ err route_ambiguous
  unfolding evaluate_business
  evaluate_business-ne-ambiguous t routes single e =
      let relevant = relevant_condition_ids w q.step_id in
      elim (Result-cases
        (fold_each (evaluate_condition out w current q relevant) start_evaluating q.results)) [
          | inl (s, good) ↦
              let consistent =
                (evaluate_condition-IsTracked out w current q relevant s good).consistent in
              let one_flow =
                flows_single w t q.step_id s.condition_ids consistent q.route single
                  (routes.flow q.step_id) in
              let one_loop =
                loops_single w t q.step_id s.condition_ids consistent (back_of q.route)
                  (routes.loop q.step_id) in
              ground (
                arith,
                good,
                evaluate_flow-ne-ambiguous s one_flow,
                evaluate_loop-ne-ambiguous s one_loop,
              )
          | inr (c, bad) ↦
              ground (arith, bad, evaluate_all-ne-ambiguous relevant start_evaluating q.results)
        ]

  -- For a bundle that ValidateBundle accepts and a request with a single Route, the result is never
  -- ROUTE_AMBIGUOUS: the static ambiguity check covers every report.
  pub evaluate_result-ne-ambiguous :
      (flow_files loop_files prompt_files condition_files : ℕ)
      → validate_bundle w flow_files loop_files prompt_files condition_files ≡ ok tt
      → IsSingleRoute q.route
      → evaluate_result out w current q ≢ err route_ambiguous
  unfolding evaluate_result
  evaluate_result-ne-ambiguous a b c d loaded single e =
      let (t, used, defined, routes) = validate_bundle-AreRoutes w a b c d loaded in
      ground (
        arith,
        evaluate_common_control-ne-ambiguous,
        evaluate_business-ne-ambiguous t routes single,
      )
