-- ===== src/Flow/Evaluate.antt =====
-- internal/flow/result.go: `evaluateResult` and `evaluateCommonControl`. The effect and transition
-- of the response are those of the durable Result under other names, and stand here once.
pub mod Rounds
pub mod Tracked
pub mod Single
pub mod Unambiguous
use fanloop.Base.{
  ℕ, zero, suc, ◌+◌, ◌-◌, ◌≤◌, ◌<◌, ◌≡◌, refl, sym, ap, ◌∙◌, subst, ◌≢◌, ◌↔◌, ◌⊎◌, inl, inr, Bool,
  true, false, not, ◌&&◌, ◌||◌, Option, none, some, List, [], ◌∷◌, ◌++◌, map, String, arith, ◌==◌,
  eq_iff, eq_refl, ltb, leb, nat_eq, if◌then◌else◌, same_bool, Bool-cases, and-eq-true, is_some,
  is_none, Option-cases, Result, ok, err, ◌>>=◌, ◌>>◌, refuse_if, for_each, fold_each, is_ok,
  Result-cases, >>=-eq-ok, >>-eq-ok, refuse_if-eq-ok, length, get_elem?, take, drop, is_empty, any,
  all, keep, All, length-append, keep_ext, codes, is_space, is_blank, text_le, contains,
  contains-cons, Dict, lookup, lookup_or, insert, delete, keys, lookup-insert, lookup-delete,
  lookup_or-insert, lookup_or-nil,
}
use fanloop.Json.{RawMessage, document, malformed, unmarshal_text}
use fanloop.Workflow.{
  OutputType, type_code, When, FlowRoute, LoopRoute, CommonControlRoute, ConditionDefinition,
  Workflow, matches, condition, find_step, relevant_condition_ids, flows_at, loops_at,
}
use fanloop.Workflow.Output.{
  UrlParser, validate_output, source_trace_document_url, source_verify_evidence_outcome,
}
use fanloop.State.{
  State, awaiting_confirmation, status_eq, EvidenceSource, file, ConditionResult, RegisteredOutput,
  ResultEffect, advanced, looped, completed, started, jumped, Transition, flow, loop, start, jump,
  entries,
}
use fanloop.State.Results.{invalidated_outputs}
use fanloop.Flow.{
  ErrorCode, report_not_allowed, condition_conflict, condition_not_allowed, output_invalid,
  route_not_allowed, route_not_matched, route_ambiguous, workflow_invalid, RequestEvidence,
  RouteSelection, Reported, CheckedRequest, has_human_request, durable_output_type,
}

-- The outside of an evaluation: `url.Parse`, and `verify.ManifestOutcome`, none for its error.
pub record Outside : Type 0 where
  pub parse : UrlParser
  pub manifest_outcome : String → Option String

pub record ResultEvaluation : Type 0 where
  pub condition_results : List ConditionResult
  pub accepted : Dict RegisteredOutput
  pub invalidated : List String
  pub effect : ResultEffect
  pub transition : Transition

-- The last part of a path that is not empty, as `filepath.Base` finds it; [] if there is none.
last_part : List ℕ → List ℕ → List ℕ → List ℕ
last_part best current [] = if is_empty current then best else current
last_part best current (c ∷ cs) =
    let cut = last_part (if is_empty current then best else current) [] cs in
    let longer = last_part best (current ++ c ∷ []) cs in if nat_eq c b'/' then cut else longer

codes_eq : List ℕ → List ℕ → Bool
codes_eq [] [] = true
codes_eq (c ∷ cs) (d ∷ ds) = nat_eq c d && codes_eq cs ds
codes_eq _ _ = false

abbrev is_file : EvidenceSource → Bool
is_file file = true
is_file _ = false

abbrev ref_text : Option String → String
ref_text none = ""
ref_text (some s) = s

is_manifest : RequestEvidence → Bool
unfolding last_part codes_eq
is_manifest e =
    is_file e.source && codes_eq (last_part [] [] (codes (ref_text e.ref))) (codes "manifest.json")

-- `verifyEvidenceOutcomeMatches`: exactly one manifest, and its outcome is the claimed one.
unfoldable pub verify_evidence_outcome_matches :
    (String → Option String) → List RequestEvidence → String → Bool
unfolding is_manifest
verify_evidence_outcome_matches outcome_of evidence claimed = elim (keep is_manifest evidence) [
  | [] ↦ false
  | e ∷ es ↦ elim es [
    | [] ↦ elim (outcome_of (ref_text e.ref)) [ none ↦ false | some outcome ↦ outcome == claimed ]
    | d ∷ ds ↦ false
  ]
]

abbrev is_malformed : RawMessage → Bool
is_malformed (document j) = false
is_malformed malformed = true

-- `json.Unmarshal(raw, &text) != nil || text != want`
abbrev pub text_differs : RawMessage → String → Bool
text_differs raw want = elim (unmarshal_text raw) [ none ↦ true | some s ↦ not (s == want) ]

-- The two tests on an authoritative source of an Output.
check_source :
    Outside
    → State
    → CheckedRequest
    → ConditionDefinition
    → RawMessage
    → Result ErrorCode (Unit {0})
check_source out current q c raw = do
  refuse_if
      (c.output.source == source_trace_document_url && elim current.trace [
        | none ↦ true
        | some binding ↦ text_differs raw binding.document_url
      ])
      output_invalid
  refuse_if
      (c.output.source == source_verify_evidence_outcome && elim (unmarshal_text raw) [
        | none ↦ true
        | some claimed ↦
            not (verify_evidence_outcome_matches out.manifest_outcome q.evidence claimed)
      ])
      output_invalid

-- The variables of the loop over the ConditionResults.
pub record Evaluating : Type 0 where
  pub condition_ids : List String
  pub exclusive : List String
  pub accepted : Dict RegisteredOutput
  pub durable : List ConditionResult

abbrev pub differs : OutputType → OutputType → Bool
differs a b = not (nat_eq (type_code a) (type_code b))

-- The part of a round after the Condition and its type are known.
accept_reported :
    Outside
    → State
    → CheckedRequest
    → ConditionDefinition
    → OutputType
    → Evaluating
    → Reported
    → Result ErrorCode Evaluating
unfolding check_source type_code
accept_reported out current q c type s r = do
  refuse_if (differs type c.output.type) output_invalid
  refuse_if (is_malformed r.raw || not (is_ok (validate_output out.parse c.output r.raw)))
      output_invalid
  check_source out current q c r.raw
  refuse_if (is_some (lookup c.output.key s.accepted)) condition_conflict
  ok (record {
    condition_ids = s.condition_ids ++ r.condition_id ∷ [];
    exclusive = (if c.exclusive_group == "" then s.exclusive else c.exclusive_group ∷ s.exclusive);
    accepted =
        insert c.output.key (record { type = type; value = r.raw; producer_step_id = q.step_id })
          s.accepted;
    durable =
        s.durable
        ++ record { condition_id = r.condition_id; output = record { type = type; value = r.raw } }
          ∷ [];
  })

accept_typed :
    Outside
    → State
    → CheckedRequest
    → ConditionDefinition
    → Evaluating
    → Reported
    → Option OutputType
    → Result ErrorCode Evaluating
unfolding accept_reported
accept_typed out current q c s r none = err output_invalid
accept_typed out current q c s r (some type) = accept_reported out current q c type s r

accept_found :
    Outside
    → State
    → CheckedRequest
    → List String
    → Evaluating
    → Reported
    → Option ConditionDefinition
    → Result ErrorCode Evaluating
unfolding accept_typed
accept_found out current q relevant s r none = err condition_not_allowed
accept_found out current q relevant s r (some c) = do
  refuse_if (not (contains r.condition_id relevant)) condition_not_allowed
  refuse_if (not (c.exclusive_group == "") && contains c.exclusive_group s.exclusive)
      condition_conflict
  accept_typed out current q c s r (durable_output_type r.type)

-- One round of the loop over the ConditionResults.
unfoldable pub evaluate_condition :
    Outside
    → Workflow
    → State
    → CheckedRequest
    → List String
    → Evaluating
    → Reported
    → Result ErrorCode Evaluating
unfolding accept_found
evaluate_condition out w current q relevant s r = do
  refuse_if (contains r.condition_id s.condition_ids) condition_conflict
  accept_found out current q relevant s r (condition w r.condition_id)

-- `selectedRoute` in `matchingFlowRoutes`
unfoldable pub flow_selected : RouteSelection → FlowRoute → Bool
flow_selected selection route =
    (is_some selection.terminal && route.terminal) || elim selection.next_step_id [
      | none ↦ false
      | some next ↦ not route.terminal && route.next_step_id == next
    ]

-- `matchingFlowRoutes` of result.go: whether a route is selected, and those that match.
unfoldable pub select_flow_routes :
    List FlowRoute → RouteSelection → List String → Bool × List FlowRoute
unfolding flow_selected
select_flow_routes routes selection conditions = (
  any (flow_selected selection) routes,
  keep (λ r. flow_selected selection r && matches r.when conditions) routes,
)

unfoldable pub select_loop_routes : List LoopRoute → String → List String → Bool × List LoopRoute
select_loop_routes routes back_step_id conditions = (
  any (λ r. r.back_step_id == back_step_id) routes,
  keep (λ r. r.back_step_id == back_step_id && matches r.when conditions) routes,
)

-- `!available`, `len(matches) == 0` and `len(matches) > 1`, else the only match.
unfoldable pub single_match {ℓ} : {A : Type ℓ} → Bool → List A → Result ErrorCode A
single_match false routes = err route_not_allowed
single_match true [] = err route_not_matched
single_match true (route ∷ []) = ok route
single_match true (route ∷ r ∷ rs) = err route_ambiguous

abbrev pub evaluation_of : Evaluating → List String → ResultEffect → Transition → ResultEvaluation
evaluation_of s invalidated effect transition = record {
  condition_results = s.durable;
  accepted = s.accepted;
  invalidated = invalidated;
  effect = effect;
  transition = transition;
}

unfoldable pub evaluate_flow :
    Workflow → CheckedRequest → Evaluating → Result ErrorCode ResultEvaluation
evaluate_flow w q s = do
  let (available, found) = select_flow_routes (flows_at w q.step_id) q.route s.condition_ids
  route ← single_match available found
  ok (
      if route.terminal
      then evaluation_of s [] completed
          (record { direction = flow; from_step_id = q.step_id; to_step_id = "" })
      else evaluation_of s [] advanced
          (record { direction = flow; from_step_id = q.step_id; to_step_id = route.next_step_id }))

-- `GetBackStepId`
abbrev pub back_of : RouteSelection → String
back_of r = elim r.back_step_id [ none ↦ "" | some id ↦ id ]

unfoldable pub or_workflow_invalid {ℓ} : {E : Type 0} {A : Type ℓ} → Result E A → Result ErrorCode A
or_workflow_invalid (ok a) = ok a
or_workflow_invalid (err e) = err workflow_invalid

unfoldable pub evaluate_loop :
    Workflow → State → CheckedRequest → Evaluating → Result ErrorCode ResultEvaluation
unfolding or_workflow_invalid
evaluate_loop w current q s = do
  let target = back_of q.route
  let (available, found) = select_loop_routes (loops_at w q.step_id) target s.condition_ids
  route ← single_match available found
  invalidated ← or_workflow_invalid (invalidated_outputs w target (entries current))
  ok (
      evaluation_of s invalidated looped
        (record { direction = loop; from_step_id = q.step_id; to_step_id = target }))

-- `evaluateResult` where the route is none of the common controls.
unfoldable pub evaluate_business :
    Outside → Workflow → State → CheckedRequest → Result ErrorCode ResultEvaluation
unfolding evaluate_flow evaluate_loop
evaluate_business out w current q = do
  refuse_if (status_eq current.current_step_status awaiting_confirmation) report_not_allowed
  s ←
      fold_each (evaluate_condition out w current q (relevant_condition_ids w q.step_id))
        (record { condition_ids = []; exclusive = []; accepted = []; durable = [] }) q.results
  if is_some q.route.next_step_id || is_some q.route.terminal
      then evaluate_flow w q s
      else evaluate_loop w current q s

-- The control, effect, transition and target that `evaluateCommonControl` selects.
pub record Control : Type 0 where
  pub control : CommonControlRoute
  pub effect : ResultEffect
  pub transition : Transition

abbrev pub jump_of : RouteSelection → String
jump_of r = elim r.jump_step_id [ none ↦ "" | some id ↦ id ]

unfoldable pub select_control : Workflow → State → CheckedRequest → Result ErrorCode Control
select_control w current q =
    if is_some q.route.start_current_step
    then elim w.step_start [
      | none ↦ err route_not_allowed
      | some control ↦
          refuse_if (not (status_eq current.current_step_status awaiting_confirmation))
            route_not_allowed
          >> ok (record {
            control = control;
            effect = started;
            transition = record {
              direction = start;
              from_step_id = q.step_id;
              to_step_id = q.step_id;
            };
          })
    ]
    else elim w.jump [
      | none ↦ err route_not_allowed
      | some control ↦ ok (record {
        control = control;
        effect = jumped;
        transition = record {
          direction = jump;
          from_step_id = q.step_id;
          to_step_id = jump_of q.route;
        };
      })
    ]

unfoldable pub common_invalidated : Workflow → State → Control → Result ErrorCode (List String)
unfolding or_workflow_invalid
common_invalidated w current k = elim k.effect [
  | jumped ↦ or_workflow_invalid (invalidated_outputs w k.transition.to_step_id (entries current))
  | _ ↦ ok []
]

-- What follows once the only ConditionResult and its definition are known.
unfoldable pub evaluate_control :
    Outside
    → Workflow
    → State
    → CheckedRequest
    → Control
    → ConditionDefinition
    → Reported
    → Result ErrorCode ResultEvaluation
unfolding common_invalidated type_code
evaluate_control out w current q k c r = do
  refuse_if (not (matches k.control.when (r.condition_id ∷ []))) condition_not_allowed
  elim (durable_output_type r.type) [
    | none ↦ err output_invalid
    | some type ↦ do
      refuse_if
          (differs type c.output.type
            || is_malformed r.raw
            || not (is_ok (validate_output out.parse c.output r.raw)))
          output_invalid
      refuse_if (not (has_human_request q.evidence)) report_not_allowed
      refuse_if (is_some q.route.jump_step_id && text_differs r.raw k.transition.to_step_id)
          output_invalid
      invalidated ← common_invalidated w current k
      ok (record {
        condition_results =
            record { condition_id = r.condition_id; output = record { type = type; value = r.raw } }
            ∷ [];
        accepted = [];
        invalidated = invalidated;
        effect = k.effect;
        transition = k.transition;
      })
  ]

unfoldable pub only_result : List Reported → Option Reported
only_result (r ∷ []) = some r
only_result _ = none

-- `evaluateCommonControl`
unfoldable pub evaluate_common_control :
    Outside → Workflow → State → CheckedRequest → Result ErrorCode ResultEvaluation
unfolding select_control evaluate_control only_result
evaluate_common_control out w current q = do
  k ← select_control w current q
  refuse_if (is_none (find_step w k.transition.to_step_id)) route_not_allowed
  elim (only_result q.results) [
    | none ↦ err condition_not_allowed
    | some r ↦ elim (lookup r.condition_id w.common_conditions) [
      | none ↦ err condition_not_allowed
      | some c ↦ evaluate_control out w current q k c r
    ]
  ]

-- `evaluateResult`
unfoldable pub evaluate_result :
    Outside → Workflow → State → CheckedRequest → Result ErrorCode ResultEvaluation
evaluate_result out w current q =
    if is_some q.route.start_current_step || is_some q.route.jump_step_id
    then evaluate_common_control out w current q
    else evaluate_business out w current q
