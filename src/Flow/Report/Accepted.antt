-- ===== src/Flow/Report/Accepted.antt =====
-- internal/flow/result.go against internal/state/model.go: the common controls, and the theorem on all
-- Results.
use fanloop.Base.{
  ◌≡◌, refl, sym, ap, ◌∙◌, ◌⊎◌, inl, inr, true, false, ◌&&◌, ◌||◌, some, List, [], ◌∷◌, String,
  arith, eq_iff, eq_refl, nat_eq, if◌then◌else◌, Bool-cases, is_some, is_none, Option-cases, ok,
  ◌>>=◌, refuse_if, fold_each, is_ok, Result-cases, >>=-eq-ok, >>-eq-ok, lookup,
}
use fanloop.Base.Sorting.{sort_strings}
use fanloop.Json.{unmarshal_text}
use fanloop.Workflow.{
  OutputType, type_code, CommonControlRoute, ConditionDefinition, Workflow, matches, find_step,
  relevant_condition_ids,
}
use fanloop.Workflow.Output.{UrlParser, validate_output}
use fanloop.State.{
  FlowResultPayload, awaiting_confirmation, status_eq, State, ConditionResult, advanced, looped,
  completed, started, jumped, start,
}
use fanloop.State.Results.{
  single_result, validate_common, validate_jump_target, validate_result_against,
  validate_result_conditions, validate_business_route,
}
use fanloop.Flow
use fanloop.Flow.{ErrorCode, report_not_allowed, Reported, CheckedRequest}
use fanloop.Flow.Evaluate.{
  Outside, Evaluating, ResultEvaluation, Control, text_differs, select_control, common_invalidated,
  evaluate_control, only_result, evaluate_common_control, evaluate_condition, evaluate_flow,
  evaluate_loop, evaluate_business, evaluate_result,
}
use fanloop.Flow.Evaluate.Tracked.{start_evaluating}
use fanloop.Flow.Evaluate.Single.{IsSingleRoute}
use fanloop.Flow.Report.{result_payload}
use fanloop.Flow.Report.Conditions.{Agrees, evaluated-Agrees, validate_result_conditions-evaluated}
use fanloop.Flow.Report.Routes.{IsRouted, evaluate_flow-IsRouted, evaluate_loop-IsRouted}

module _ (parse : UrlParser) (w : Workflow) (p : FlowResultPayload) where
  jump_passes :
      (control : CommonControlRoute) (r : ConditionResult) (target : String)
      → p.effect ≡ jumped
      → w.jump ≡ some control
      → single_result parse w p (some control) p.condition_results ≡ ok r
      → unmarshal_text r.output.value ≡ some target
      → target ≡ p.transition.to_step_id
      → is_none (find_step w target) ≡ false
      → validate_result_against parse w p ≡ ok tt
  unfolding validate_result_against validate_jump_target
  jump_passes control r target effect known single found same there =
      ground (arith, eq_iff target p.transition.to_step_id)

  business_passes :
      (ids : List String)
      → (p.effect ≡ advanced) ⊎ ((p.effect ≡ completed) ⊎ (p.effect ≡ looped))
      → validate_result_conditions parse w p ≡ ok ids
      → validate_business_route w p ids p.transition.direction ≡ ok tt
      → validate_result_against parse w p ≡ ok tt
  unfolding validate_result_against
  business_passes ids effect conditions route = ground arith

module _ (out : Outside) (w : Workflow) (current : State) (q : CheckedRequest) where
  -- The control that is selected: the start of the current step, or a jump.
  data IsSelected (k : Control) : Type 0 where
    starts :
        w.step_start ≡ some k.control
        → k.effect ≡ started
        → k.transition
          ≡ record { direction = start; from_step_id = q.step_id; to_step_id = q.step_id }
        → IsSelected k
    jumps :
        is_some q.route.start_current_step ≡ false
        → w.jump ≡ some k.control
        → k.effect ≡ jumped
        → IsSelected k

  select_control-IsSelected : (k : Control) → select_control w current q ≡ ok k → IsSelected k
  unfolding select_control
  select_control-IsSelected k h = elim (Bool-cases (is_some q.route.start_current_step)) [
    | inl set ↦ elim (Option-cases w.step_start) [
      | inl missing ↦ absurd (ground (arith, set, missing, h))
      | inr (control, known) ↦
          starts (ground (arith, set, known, h)) (ground (arith, set, known, h))
            (ground (arith, set, known, h))
    ]
    | inr unset ↦ elim (Option-cases w.jump) [
      | inl missing ↦ absurd (ground (arith, unset, missing, h))
      | inr (control, known) ↦
          jumps unset (ground (arith, unset, known, h)) (ground (arith, unset, known, h))
    ]
  ]

  -- What `evaluateCommonControl` has checked once it returns.
  record IsControl (k : Control) (c : ConditionDefinition) (r : Reported) (e : ResultEvaluation)
      : Type 0 where
    type : OutputType
    invalidated : List String
    matched : matches k.control.when (r.condition_id ∷ []) ≡ true
    same : nat_eq (type_code type) (type_code c.output.type) ≡ true
    valid : is_ok (validate_output out.parse c.output r.raw) ≡ true
    target : (is_some q.route.jump_step_id && text_differs r.raw k.transition.to_step_id) ≡ false
    made : e ≡ record {
      condition_results =
          record { condition_id = r.condition_id; output = record { type = type; value = r.raw } }
          ∷ [];
      accepted = [];
      invalidated = invalidated;
      effect = k.effect;
      transition = k.transition;
    }

  evaluate_control-IsControl :
      (k : Control) (c : ConditionDefinition) (r : Reported) (e : ResultEvaluation)
      → evaluate_control out w current q k c r ≡ ok e
      → IsControl k c r e
  unfolding evaluate_control
  evaluate_control-IsControl k c r e h =
      elim (Option-cases (fanloop.Flow.durable_output_type r.type)) [
        | inl missing ↦ absurd (ground (arith, missing, h))
        | inr (type, known) ↦ elim (Result-cases (common_invalidated w current k)) [
          | inl (invalidated, found) ↦ record {
            type = type;
            invalidated = invalidated;
            matched = ground (arith, known, found, h);
            same = ground (arith, known, found, h);
            valid = ground (arith, known, found, h);
            target = ground (arith, known, found, h);
            made = ground (arith, known, found, h);
          }
          | inr (c', failed) ↦ absurd (ground (arith, known, failed, h))
        ]
      ]

  -- The State package finds the same control.
  single_result-IsControl :
      (k : Control) (c : ConditionDefinition) (r : Reported) (e : ResultEvaluation)
      (h : IsControl k c r e)
      → lookup r.condition_id w.common_conditions ≡ some c
      → single_result out.parse w (result_payload q e) (some k.control) e.condition_results
        ≡ ok (record {
          condition_id = r.condition_id;
          output = record { type = h.type; value = r.raw };
        })
  unfolding single_result validate_common result_payload sort_strings
  single_result-IsControl k c r e h known =
      rw h.made (ground (arith, h.matched, h.same, h.valid, known))

  started_accepted :
      (k : Control) (c : ConditionDefinition) (r : Reported) (e : ResultEvaluation)
      → IsControl k c r e
      → lookup r.condition_id w.common_conditions ≡ some c
      → w.step_start ≡ some k.control
      → k.effect ≡ started
      → k.transition
        ≡ record { direction = start; from_step_id = q.step_id; to_step_id = q.step_id }
      → validate_result_against out.parse w (result_payload q e) ≡ ok tt
  unfolding validate_result_against result_payload
  started_accepted k c r e h known control effect transition =
      let effect' : e.effect ≡ started = rw h.made effect in
      let transition' = ap (λ x. x.transition) h.made ∙ transition in
      let single = single_result-IsControl k c r e h known in
      rw (effect', control, single, transition', eq_refl q.step_id) refl

  jumped_accepted :
      (k : Control) (c : ConditionDefinition) (r : Reported) (e : ResultEvaluation)
      → IsControl k c r e
      → lookup r.condition_id w.common_conditions ≡ some c
      → w.jump ≡ some k.control
      → k.effect ≡ jumped
      → is_some q.route.jump_step_id ≡ true
      → is_none (find_step w k.transition.to_step_id) ≡ false
      → validate_result_against out.parse w (result_payload q e) ≡ ok tt
  unfolding result_payload
  jumped_accepted k c r e h known control effect jumping target_known =
      let effect' : e.effect ≡ jumped = rw h.made effect in
      let to_same : e.transition.to_step_id ≡ k.transition.to_step_id = rw h.made refl in
      let single = single_result-IsControl k c r e h known in
      elim (Option-cases (unmarshal_text r.raw)) [
        | inl no_text ↦ absurd (ground (arith, h.target, jumping, no_text))
        | inr (target, found) ↦
            let same : target ≡ k.transition.to_step_id =
              ground (arith, h.target, jumping, found, eq_iff target k.transition.to_step_id) in
            jump_passes out.parse w (result_payload q e) k.control _ target effect' control single
              found (same ∙ sym to_same) (rw same target_known)
      ]

  chosen :
      (e : ResultEvaluation)
      → evaluate_common_control out w current q ≡ ok e
      → (k : Control) × (select_control w current q ≡ ok k)
  unfolding evaluate_common_control
  chosen e h = elim (Result-cases (select_control w current q)) [
    | inl found ↦ found
    | inr (c, failed) ↦ absurd (ground (arith, failed, h))
  ]

  common_accepted :
      (e : ResultEvaluation)
      → (is_some q.route.start_current_step || is_some q.route.jump_step_id) ≡ true
      → evaluate_common_control out w current q ≡ ok e
      → validate_result_against out.parse w (result_payload q e) ≡ ok tt
  unfolding evaluate_common_control
  common_accepted e is_control h =
      let (k, selected) = chosen e h in
      let there : is_none (find_step w k.transition.to_step_id) ≡ false =
        ground (arith, selected, h) in
      elim (Option-cases (only_result q.results)) [
        | inl none_given ↦ absurd (ground (arith, selected, there, none_given, h))
        | inr (r, given) ↦ elim (Option-cases (lookup r.condition_id w.common_conditions)) [
          | inl missing ↦ absurd (ground (arith, selected, there, given, missing, h))
          | inr (c, found) ↦
              let checked =
                evaluate_control-IsControl k c r e
                  (ground (arith, selected, there, given, found, h)) in
              elim (select_control-IsSelected k selected) [
                | starts control effect transition ↦
                    started_accepted k c r e checked found control effect transition
                | jumps unset control effect ↦
                    jumped_accepted k c r e checked found control effect
                      (ground (arith, is_control, unset)) there
              ]
        ]
      ]

  business_accepted :
      (s : Evaluating) (e : ResultEvaluation)
      → is_none (find_step w q.step_id) ≡ false
      → Agrees out w current q (relevant_condition_ids w q.step_id) s
      → IsRouted w q s e
      → validate_result_against out.parse w (result_payload q e) ≡ ok tt
  unfolding result_payload
  business_accepted s e known agrees h =
      business_passes out.parse w (result_payload q e) s.condition_ids h.effect
        (validate_result_conditions-evaluated out w current q s e known agrees h.results h.accepted
          h.from)
        h.found

  evaluate_business_accepted :
      (e : ResultEvaluation)
      → is_none (find_step w q.step_id) ≡ false
      → IsSingleRoute q.route
      → evaluate_business out w current q ≡ ok e
      → validate_result_against out.parse w (result_payload q e) ≡ ok tt
  unfolding evaluate_business
  evaluate_business_accepted e known single h =
      let relevant = relevant_condition_ids w q.step_id in
      let results =
        fold_each (evaluate_condition out w current q relevant) start_evaluating q.results in
      let route = λ (s : Evaluating).
        if is_some q.route.next_step_id || is_some q.route.terminal
        then evaluate_flow w q s
        else evaluate_loop w current q s in
      let (free, h1) =
        >>-eq-ok
          (refuse_if (status_eq current.current_step_status awaiting_confirmation)
            report_not_allowed)
          (results >>= route) h in
      let (s, folded, h2) = >>=-eq-ok results route h1 in
      let agrees = evaluated-Agrees out w current q relevant s folded in
      elim (Bool-cases (is_some q.route.next_step_id || is_some q.route.terminal)) [
        | inl is_flow ↦
            business_accepted s e known agrees
              (evaluate_flow-IsRouted w q s e single is_flow (rw is_flow at h2))
        | inr is_loop ↦
            business_accepted s e known agrees
              (evaluate_loop-IsRouted w q s current e (rw is_loop at h2))
      ]

  -- What evaluateResult returns for a request with a single Route at a known step, the State
  -- package's check of a Result against the bundle accepts as the payload of the Event.
  pub validate_result_against-evaluate_result :
      (e : ResultEvaluation)
      → is_none (find_step w q.step_id) ≡ false
      → IsSingleRoute q.route
      → evaluate_result out w current q ≡ ok e
      → validate_result_against out.parse w (result_payload q e) ≡ ok tt
  unfolding evaluate_result
  validate_result_against-evaluate_result e known single h =
      elim (Bool-cases (is_some q.route.start_current_step || is_some q.route.jump_step_id)) [
        | inl is_control ↦ common_accepted e is_control (rw is_control at h)
        | inr is_business ↦ evaluate_business_accepted e known single (rw is_business at h)
      ]
