-- ===== src/State/Results.antt =====
-- internal/state/model.go: what a Result does to the State, and the check of a Result against the
-- bundle that it claims to follow.
pub mod Outputs
use fanloop.Base.{
  ℕ, ◌-◌, Bool, true, false, not, ◌&&◌, ◌||◌, Option, none, some, List, [], ◌∷◌, map, String, ◌==◌,
  ltb, leb, nat_eq, if◌then◌else◌, same_bool, is_some, is_none, Result, ok, err, ◌>>=◌, ◌>>◌,
  refuse_if, fold_each, is_ok, take, drop, is_empty, keep, contains, Dict, lookup, insert, delete,
  keys,
}
use fanloop.Base.Sorting.{sort_strings}
use fanloop.Json.{unmarshal_text}
use fanloop.Workflow.{
  CommonControlRoute, FlowRoute, LoopRoute, Workflow, type_code, matches, condition, find_step,
  step_position, ordered_step_ids, relevant_condition_ids, flows_at, loops_at,
}
use fanloop.Workflow.Output.{UrlParser, validate_output}
use fanloop.State.{
  State, StepStatus, unset, ready, in_progress, fixing, awaiting_confirmation, ConditionResult,
  RegisteredOutput, FlowResultPayload, ResultEffect, advanced, looped, completed, started, jumped,
  flow, loop, TransitionDirection, entries, texts_eq,
}

pub data ResultError : Type 0 where
  unknown_step unknown_condition exclusive_conflict invalid_output duplicate_output : ResultError
  accepted_mismatch unknown_target unknown_producer : ResultError
  no_control bad_common_condition start_moves target_mismatch unknown_jump_target : ResultError
  not_one_flow not_terminal_route not_route_target no_flow not_one_loop : ResultError

-- `EntryStepStatus`
unfoldable pub entry_step_status : Workflow → StepStatus
entry_step_status w = elim w.step_start [ none ↦ ready | some control ↦ awaiting_confirmation ]

-- `ResultTargetStatus`
unfoldable pub result_target_status : Workflow → ResultEffect → StepStatus
unfolding entry_step_status
result_target_status w started = in_progress
result_target_status w looped = fixing
result_target_status w completed = unset
result_target_status w _ = entry_step_status w

-- The position of `FindStep`; the callers below read it only for known steps.
position_or_zero : Workflow → String → ℕ
position_or_zero w id = elim (step_position w id) [ none ↦ 0 | some position ↦ position ]

-- The set that `JumpedSkippedSteps` builds, as a test on step ids.
jumped_set : Workflow → List String → String → String → String → Bool
unfolding position_or_zero
jumped_set w current source target id =
    let ordered = ordered_step_ids w in
    let from = position_or_zero w source in
    let to = position_or_zero w target in
    if ltb from to
    then contains id current || contains id (take (to - from) (drop from ordered))
    else contains id current && not (contains id (drop to ordered))

-- `JumpedSkippedSteps`
unfoldable pub jumped_skipped_steps : Workflow → List String → String → String → List String
unfolding jumped_set
jumped_skipped_steps w current source target =
    keep (jumped_set w current source target) (ordered_step_ids w)

abbrev same_type : RegisteredOutput → RegisteredOutput → Bool
same_type a b = nat_eq (type_code a.type) (type_code b.type)

abbrev is_invalid {ℓ} : {E : Type 0} {A : Type ℓ} → Result E A → Bool
is_invalid r = not (is_ok r)

module _ (parse : UrlParser) (w : Workflow) (step_id : String) where
  -- One round of the loop of `registeredHistoricalOutputs`.
  accept_historical :
      Dict RegisteredOutput → ConditionResult → Result ResultError (Dict RegisteredOutput)
  unfolding type_code
  accept_historical accepted r = elim (condition w r.condition_id) [
    | none ↦ err unknown_condition
    | some c ↦ do
      refuse_if
          (not (nat_eq (type_code r.output.type) (type_code c.output.type))
            || is_invalid (validate_output parse c.output r.output.value))
          invalid_output
      refuse_if (is_some (lookup c.output.key accepted)) duplicate_output
      ok (
          insert c.output.key
            (record { type = r.output.type; value = r.output.value; producer_step_id = step_id })
            accepted)
  ]

  unfoldable pub registered_historical_outputs :
      List ConditionResult → Result ResultError (Dict RegisteredOutput)
  unfolding accept_historical
  registered_historical_outputs results = do
    refuse_if (is_none (find_step w step_id)) unknown_step
    fold_each accept_historical [] results

  -- The variables of the loop of `registeredOutputs`.
  pub record Accepting : Type 0 where
    pub accepted : Dict RegisteredOutput
    pub exclusive : List String

  -- One round of that loop.
  unfoldable pub accept_output :
      List String → Accepting → ConditionResult → Result ResultError Accepting
  unfolding type_code
  accept_output relevant s r = elim (condition w r.condition_id) [
    | none ↦ err unknown_condition
    | some c ↦ do
      refuse_if (not (contains r.condition_id relevant)) unknown_condition
      refuse_if (not (c.exclusive_group == "") && contains c.exclusive_group s.exclusive)
          exclusive_conflict
      refuse_if
          (not (nat_eq (type_code r.output.type) (type_code c.output.type))
            || is_invalid (validate_output parse c.output r.output.value))
          invalid_output
      refuse_if (is_some (lookup c.output.key s.accepted)) duplicate_output
      ok (record {
        accepted =
            insert c.output.key
              (record { type = c.output.type; value = r.output.value; producer_step_id = step_id })
              s.accepted;
        exclusive =
            (if c.exclusive_group == "" then s.exclusive else c.exclusive_group ∷ s.exclusive);
      })
  ]

  unfoldable pub registered_outputs :
      List ConditionResult → Result ResultError (Dict RegisteredOutput)
  registered_outputs results = do
    refuse_if (is_none (find_step w step_id)) unknown_step
    s ←
        fold_each (accept_output (relevant_condition_ids w step_id))
          (record { accepted = []; exclusive = [] }) results
    ok s.accepted

-- The loop of `InvalidatedOutputs`, before the keys are sorted.
stale_keys : Workflow → ℕ → Dict RegisteredOutput → Result ResultError (List String)
stale_keys w target [] = ok []
stale_keys w target ((key, output) ∷ outputs) = elim (step_position w output.producer_step_id) [
  | none ↦ err unknown_producer
  | some producer ↦
      stale_keys w target outputs >>= λ rest. ok (if leb target producer then key ∷ rest else rest)
]

unfoldable pub invalidated_outputs :
    Workflow → String → Dict RegisteredOutput → Result ResultError (List String)
unfolding stale_keys
invalidated_outputs w target outputs = elim (step_position w target) [
  | none ↦ err unknown_target
  | some position ↦ stale_keys w position outputs >>= λ found. ok (sort_strings found)
]

-- `delete` of every key, then the accepted Outputs written over what is left.
delete_all : List String → Dict RegisteredOutput → Dict RegisteredOutput
delete_all [] m = m
delete_all (key ∷ ks) m = delete_all ks (delete key m)

insert_all : Dict RegisteredOutput → Dict RegisteredOutput → Dict RegisteredOutput
insert_all [] m = m
insert_all ((key, output) ∷ accepted) m = insert_all accepted (insert key output m)

unfoldable pub result_accepted_outputs :
    UrlParser → Workflow → FlowResultPayload → Result ResultError (Dict RegisteredOutput)
result_accepted_outputs parse w p = elim p.effect [
  | started ↦ ok []
  | jumped ↦ ok []
  | _ ↦ registered_historical_outputs parse w p.transition.from_step_id p.condition_results
]

-- The outputs and the skipped steps after a Result.
unfoldable pub merge_outputs : Dict RegisteredOutput → FlowResultPayload → State → State
unfolding delete_all insert_all
merge_outputs accepted p s = record s {
  outputs = some (insert_all accepted (delete_all p.output_changes.invalidated (entries s)));
}

skip_steps : Workflow → FlowResultPayload → State → State
skip_steps w p s = elim p.effect [
  | jumped ↦ record s {
    skipped_step_ids =
        jumped_skipped_steps w s.skipped_step_ids p.transition.from_step_id p.transition.to_step_id;
  }
  | _ ↦ s
]

move_cursor : FlowResultPayload → StepStatus → State → State
move_cursor p entry_status s = elim p.effect [
  | completed ↦ record s {
    current_step_id = none;
    current_step_status = unset;
    current_step_summary = "";
    current_evidence = [];
  }
  | _ ↦ record s {
    current_step_id = some p.transition.to_step_id;
    current_step_status = entry_status;
    current_step_summary = p.summary;
    current_evidence = p.evidence;
  }
]

-- `ApplyFlowResult`
unfoldable pub apply_flow_result :
    UrlParser → Workflow → State → FlowResultPayload → StepStatus → Result ResultError State
unfolding skip_steps move_cursor
apply_flow_result parse w s p entry_status = do
  accepted ← result_accepted_outputs parse w p
  ok (move_cursor p entry_status (skip_steps w p (merge_outputs accepted p s)))

-- `matchingFlowRoutes` and `matchingLoopRoutes`
unfoldable pub matching_flow_routes : List FlowRoute → List String → String → Bool → List FlowRoute
matching_flow_routes routes conditions target terminal =
    keep
      (λ r.
        same_bool r.terminal terminal
        && (terminal || r.next_step_id == target)
        && matches r.when conditions)
      routes

unfoldable pub matching_loop_routes : List LoopRoute → List String → String → List LoopRoute
matching_loop_routes routes conditions target =
    keep (λ r. r.back_step_id == target && matches r.when conditions) routes

abbrev pub condition_ids : List ConditionResult → List String
condition_ids results = map (λ r. r.condition_id) results

-- `validateResultConditionsAgainst`: the ids of the reported Conditions.
unfoldable pub validate_result_conditions :
    UrlParser → Workflow → FlowResultPayload → Result ResultError (List String)
validate_result_conditions parse w p = do
  accepted ← registered_outputs parse w p.transition.from_step_id p.condition_results
  refuse_if (not (texts_eq (sort_strings (keys accepted)) (sort_strings p.output_changes.accepted)))
      accepted_mismatch
  ok (condition_ids p.condition_results)

abbrev is_completed : ResultEffect → Bool
is_completed completed = true
is_completed _ = false

abbrev is_advanced : ResultEffect → Bool
is_advanced advanced = true
is_advanced _ = false

abbrev is_looped : ResultEffect → Bool
is_looped looped = true
is_looped _ = false

-- What follows once exactly one Flow route is selected.
unfoldable pub check_flow_route : FlowResultPayload → FlowRoute → Result ResultError (Unit {0})
check_flow_route p route =
    if route.terminal
    then refuse_if (not (is_completed p.effect) || not (p.transition.to_step_id == ""))
        not_terminal_route
    else refuse_if
        (not (is_advanced p.effect) || not (p.transition.to_step_id == route.next_step_id))
        not_route_target

-- `len(flowMatches) != 1 || len(invalidated) > 0`, then `flowMatches[0]`.
unfoldable pub check_flow_matches :
    FlowResultPayload → List FlowRoute → Result ResultError (Unit {0})
unfolding check_flow_route
check_flow_matches p (route ∷ []) = do
  refuse_if (not (is_empty p.output_changes.invalidated)) not_one_flow
  check_flow_route p route
check_flow_matches p _ = err not_one_flow

unfoldable pub check_loop_matches : List LoopRoute → Result ResultError (Unit {0})
check_loop_matches (route ∷ []) = ok tt
check_loop_matches _ = err not_one_loop

unfoldable pub validate_business_route :
    Workflow → FlowResultPayload → List String → TransitionDirection → Result ResultError (Unit {0})
unfolding check_flow_matches check_loop_matches
validate_business_route w p conditions flow = check_flow_matches p (
    matching_flow_routes (flows_at w p.transition.from_step_id) conditions p.transition.to_step_id
      (is_completed p.effect))
validate_business_route w p conditions loop = do
  refuse_if (not (is_looped p.effect)) no_flow
  check_loop_matches (
      matching_loop_routes (loops_at w p.transition.from_step_id) conditions
        p.transition.to_step_id)
validate_business_route w p conditions _ = err no_flow

-- The jump target must be the text that the Condition reports, and a known step.
unfoldable pub validate_jump_target :
    Workflow → FlowResultPayload → ConditionResult → Result ResultError (Unit {0})
validate_jump_target w p r = elim (unmarshal_text r.output.value) [
  | none ↦ err target_mismatch
  | some target ↦ do
    refuse_if (not (target == p.transition.to_step_id)) target_mismatch
    refuse_if (is_none (find_step w target)) unknown_jump_target
]

-- The branch of `validateResultAgainst` for the common controls, its single ConditionResult given.
unfoldable pub validate_common :
    UrlParser
    → Workflow
    → FlowResultPayload
    → CommonControlRoute
    → ConditionResult
    → Result ResultError (Unit {0})
unfolding type_code
validate_common parse w p control r = do
  refuse_if (not (matches control.when (r.condition_id ∷ []))) no_control
  elim (lookup r.condition_id w.common_conditions) [
    | none ↦ err bad_common_condition
    | some c ↦
        refuse_if
          (not (nat_eq (type_code r.output.type) (type_code c.output.type))
            || is_invalid (validate_output parse c.output r.output.value)
            || not (is_empty p.output_changes.accepted))
          bad_common_condition
  ]

unfoldable pub single_result :
    UrlParser
    → Workflow
    → FlowResultPayload
    → Option CommonControlRoute
    → List ConditionResult
    → Result ResultError ConditionResult
unfolding validate_common
single_result parse w p (some control) (r ∷ []) = validate_common parse w p control r >>= λ u. ok r
single_result parse w p _ _ = err no_control

-- `validateResultAgainst`
unfoldable pub validate_result_against :
    UrlParser → Workflow → FlowResultPayload → Result ResultError (Unit {0})
unfolding single_result validate_jump_target validate_business_route
validate_result_against parse w p = elim p.effect [
  | started ↦ do
    r ← single_result parse w p w.step_start p.condition_results
    refuse_if (not (p.transition.from_step_id == p.transition.to_step_id)) start_moves
  | jumped ↦ do r ← single_result parse w p w.jump p.condition_results; validate_jump_target w p r
  | _ ↦ do
    conditions ← validate_result_conditions parse w p
    validate_business_route w p conditions p.transition.direction
]

-- `validateHistoricalResultAgainst`
unfoldable pub validate_historical_result_against :
    UrlParser → Workflow → FlowResultPayload → Result ResultError (Unit {0})
validate_historical_result_against parse w p = do
  refuse_if (is_none (find_step w p.transition.from_step_id)) unknown_step
  refuse_if (not (is_completed p.effect) && is_none (find_step w p.transition.to_step_id))
      unknown_target
  elim p.effect [
    | started ↦ ok tt
    | jumped ↦ ok tt
    | _ ↦ do
      accepted ← registered_historical_outputs parse w p.transition.from_step_id p.condition_results
      refuse_if
          (not (texts_eq (sort_strings (keys accepted)) (sort_strings p.output_changes.accepted)))
          accepted_mismatch
  ]
