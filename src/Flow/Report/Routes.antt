-- ===== src/Flow/Report/Routes.antt =====
-- internal/flow/result.go against internal/state/model.go: the Route that the runtime selects is the
-- one that the State package finds for the payload.
use fanloop.Base.{
  ◌≡◌, refl, sym, ◌∙◌, subst, ◌⊎◌, inl, inr, Bool, true, false, ◌&&◌, ◌||◌, none, some, List, [],
  ◌∷◌, String, arith, eq_iff, eq_refl, if◌then◌else◌, and-eq-true, is_some, Option-cases, ok, ◌>>=◌,
  >>=-eq-ok, ok-injective, keep, keep_ext,
}
use fanloop.Workflow.{FlowRoute, Workflow, matches, flows_at, loops_at}
use fanloop.State.{State, advanced, looped, completed, flow, loop, entries}
use fanloop.State.Results.{
  matching_flow_routes, matching_loop_routes, check_flow_matches, check_loop_matches,
  check_flow_route, validate_business_route, invalidated_outputs,
}
use fanloop.Flow.{RouteSelection, CheckedRequest, count_set_fields, one_if}
use fanloop.Flow.Evaluate.{
  Evaluating, ResultEvaluation, evaluation_of, flow_selected, select_flow_routes,
  select_loop_routes, single_match, evaluate_flow, evaluate_loop, back_of, or_workflow_invalid,
}
use fanloop.Flow.Evaluate.Single.{IsSingleRoute}
use fanloop.Flow.Report.{result_payload}

single_match-eq-ok {ℓ} :
    {A : Type ℓ} (available : Bool) (routes : List A) {route : A}
    → single_match available routes ≡ ok route
    → routes ≡ route ∷ []
unfolding single_match
single_match-eq-ok false routes h = absurd (cc h)
single_match-eq-ok true [] h = absurd (cc h)
single_match-eq-ok true (route ∷ []) h = cc h
single_match-eq-ok true (route ∷ r ∷ rs) h = absurd (cc h)

keep-head {ℓ} : {A : Type ℓ} (p : A → Bool) (xs : List A) (x : A) → keep p xs ≡ x ∷ [] → p x ≡ true
keep-head p [] x h = absurd (cc h)
keep-head p (y ∷ ys) x h = ground (arith, h, keep-head p ys x)

-- What the route field of a request for a Flow can be.
data IsFlowSelection (s : RouteSelection) : Type 0 where
  to_next : (next : String) → s.next_step_id ≡ some next → s.terminal ≡ none → IsFlowSelection s
  to_end : (b : Bool) → s.next_step_id ≡ none → s.terminal ≡ some b → IsFlowSelection s

flow_selection :
    (s : RouteSelection)
    → IsSingleRoute s
    → (is_some s.next_step_id || is_some s.terminal) ≡ true
    → IsFlowSelection s
unfolding count_set_fields one_if
flow_selection s single h = elim (Option-cases s.next_step_id) [
  | inl none_next ↦ elim (Option-cases s.terminal) [
    | inl none_end ↦ absurd (ground (arith, none_next, none_end))
    | inr (b, set) ↦ to_end b none_next set
  ]
  | inr (next, set) ↦ elim (Option-cases s.terminal) [
    | inl none_end ↦ to_next next set none_end
    | inr (b, also) ↦ absurd (ground (arith, set, also))
  ]
]

-- The evaluation of a Flow: one matching route, and the effect that it has.
evaluate_flow-eq-ok :
    (w : Workflow) (q : CheckedRequest) (s : Evaluating) (e : ResultEvaluation)
    → evaluate_flow w q s ≡ ok e
    → (route : FlowRoute) × ((select_flow_routes (flows_at w q.step_id) q.route s.condition_ids).1
        ≡ route ∷ [])
      × (e ≡ (
          if route.terminal
          then evaluation_of s [] completed
              (record { direction = flow; from_step_id = q.step_id; to_step_id = "" })
          else evaluation_of s [] advanced (record {
            direction = flow;
            from_step_id = q.step_id;
            to_step_id = route.next_step_id;
          })))
unfolding evaluate_flow
evaluate_flow-eq-ok w q s e h =
    let (available, found) = select_flow_routes (flows_at w q.step_id) q.route s.condition_ids in
    let (route, single, made) = >>=-eq-ok (single_match available found) _ h in
    (route, single_match-eq-ok available found single, sym (ok-injective made))

-- Where the runtime selects one Flow route, the State package finds that one.
terminal_found :
    (routes : List FlowRoute) (s : RouteSelection) (ids : List String) (b : Bool)
    → s.next_step_id ≡ none
    → s.terminal ≡ some b
    → (select_flow_routes routes s ids).1 ≡ matching_flow_routes routes ids "" true
unfolding select_flow_routes matching_flow_routes flow_selected
terminal_found routes s ids b unset set = keep_ext _ _ routes (λ r. rw (unset, set) (ground arith))

next_found :
    (routes : List FlowRoute) (s : RouteSelection) (ids : List String) (next : String)
    → s.next_step_id ≡ some next
    → s.terminal ≡ none
    → (select_flow_routes routes s ids).1 ≡ matching_flow_routes routes ids next false
unfolding select_flow_routes matching_flow_routes flow_selected
next_found routes s ids next set unset = keep_ext _ _ routes (λ r. rw (unset, set) (ground arith))

selected_shape :
    (routes : List FlowRoute) (s : RouteSelection) (ids : List String) (route : FlowRoute)
    → (select_flow_routes routes s ids).1 ≡ route ∷ []
    → flow_selected s route ≡ true
unfolding select_flow_routes
selected_shape routes s ids route h =
    (and-eq-true (flow_selected s route) (matches route.when ids)
      (keep-head (λ r. flow_selected s r && matches r.when ids) routes route h)).0

-- What the evaluation of a Route leaves to the State package: the Conditions as reported, and a
-- Route that it finds too.
pub record IsRouted (w : Workflow) (q : CheckedRequest) (s : Evaluating) (e : ResultEvaluation)
    : Type 0 where
  pub results : e.condition_results ≡ s.durable
  pub accepted : e.accepted ≡ s.accepted
  pub from : e.transition.from_step_id ≡ q.step_id
  pub effect : (e.effect ≡ advanced) ⊎ ((e.effect ≡ completed) ⊎ (e.effect ≡ looped))
  pub found :
      validate_business_route w (result_payload q e) s.condition_ids e.transition.direction ≡ ok tt

module _ (w : Workflow) (q : CheckedRequest) (s : Evaluating) where
  ended-IsRouted :
      (route : FlowRoute)
      → route.terminal ≡ true
      → matching_flow_routes (flows_at w q.step_id) s.condition_ids "" true ≡ route ∷ []
      → IsRouted w q s (
          evaluation_of s [] completed
            (record { direction = flow; from_step_id = q.step_id; to_step_id = "" }))
  unfolding validate_business_route check_flow_matches check_flow_route result_payload
  ended-IsRouted route ends found = record {
    results = refl;
    accepted = refl;
    from = refl;
    effect = inr (inl refl);
    found = rw (found, ends) refl;
  }

  moved-IsRouted :
      (route : FlowRoute)
      → route.terminal ≡ false
      → matching_flow_routes (flows_at w q.step_id) s.condition_ids route.next_step_id false
        ≡ route ∷ []
      → IsRouted w q s (
          evaluation_of s [] advanced (record {
            direction = flow;
            from_step_id = q.step_id;
            to_step_id = route.next_step_id;
          }))
  unfolding validate_business_route check_flow_matches check_flow_route result_payload
  moved-IsRouted route goes_on found = record {
    results = refl;
    accepted = refl;
    from = refl;
    effect = inl refl;
    found = rw (found, goes_on, eq_refl route.next_step_id) refl;
  }

  pub evaluate_flow-IsRouted :
      (e : ResultEvaluation)
      → IsSingleRoute q.route
      → (is_some q.route.next_step_id || is_some q.route.terminal) ≡ true
      → evaluate_flow w q s ≡ ok e
      → IsRouted w q s e
  unfolding flow_selected
  evaluate_flow-IsRouted e single is_flow h =
      let routes = flows_at w q.step_id in
      let (route, one, made) = evaluate_flow-eq-ok w q s e h in
      let shape = selected_shape routes q.route s.condition_ids route one in
      elim (flow_selection q.route single is_flow) [
        | to_end b unset set ↦
            let ends : route.terminal ≡ true = ground (arith, shape, unset, set) in
            subst (IsRouted w q s) (sym (made ∙ rw ends refl)) (
              ended-IsRouted route ends
                (sym (terminal_found routes q.route s.condition_ids b unset set) ∙ one))
        | to_next next set unset ↦
            let goes_on : route.terminal ≡ false = ground (arith, shape, unset, set) in
            let leads : route.next_step_id ≡ next =
              ground (arith, shape, unset, set, eq_iff route.next_step_id next) in
            subst (IsRouted w q s) (sym (made ∙ rw goes_on refl)) (
              moved-IsRouted route goes_on
                (rw leads (sym (next_found routes q.route s.condition_ids next set unset) ∙ one)))
      ]

  pub evaluate_loop-IsRouted :
      (current : State) (e : ResultEvaluation)
      → evaluate_loop w current q s ≡ ok e
      → IsRouted w q s e
  unfolding evaluate_loop select_loop_routes matching_loop_routes validate_business_route
      check_loop_matches result_payload
  evaluate_loop-IsRouted current e h =
      let target = back_of q.route in
      let (available, found) = select_loop_routes (loops_at w q.step_id) target s.condition_ids in
      let (route, single, h1) =
        >>=-eq-ok (single_match available found)
          (λ route.
            or_workflow_invalid (invalidated_outputs w target (entries current)) >>= λ invalidated.
            ok (
              evaluation_of s invalidated looped
                (record { direction = loop; from_step_id = q.step_id; to_step_id = target })))
          h in
      let (invalidated, known, made) =
        >>=-eq-ok (or_workflow_invalid (invalidated_outputs w target (entries current)))
          (λ invalidated. ok (
            evaluation_of s invalidated looped
              (record { direction = loop; from_step_id = q.step_id; to_step_id = target })))
          h1 in
      subst (IsRouted w q s) (ok-injective made) (record {
        results = refl;
        accepted = refl;
        from = refl;
        effect = inr (inr refl);
        found = rw (single_match-eq-ok available found single) refl;
      })
