-- ===== src/Flow/Evaluate/Single.antt =====
-- internal/flow/result.go on a bundle that internal/workflow/validate.go has accepted: at most one
-- Route of a step is selected and matches.
use fanloop.Base.{
  ◌≤◌, ◌≡◌, sym, ◌∙◌, ◌≢◌, inl, inr, Bool, true, false, ◌&&◌, some, List, [], ◌∷◌, String, arith,
  ◌==◌, eq_iff, Bool-cases, and-eq-true, is_some, Option-cases, err, length,
}
use fanloop.Workflow.{FlowRoute, LoopRoute, Workflow, matches, flows_at, loops_at}
use fanloop.Workflow.Parts.{Tree}
use fanloop.Workflow.Validate.{flows_clash, loops_clash}
use fanloop.Workflow.Validate.Ambiguity.{IsConsistent, keep_at_most_one, whens_overlap_of_matches}
use fanloop.Workflow.Validate.Routes.{IsFlowRoute, IsLoopRoute, IsFlow, IsLoop}
use fanloop.Flow.{route_ambiguous, RouteSelection, count_set_fields, one_if}
use fanloop.Flow.Evaluate.{flow_selected, select_flow_routes, select_loop_routes, single_match}

-- Exactly one field of the request's Route is set, as `validateResultRequest` has checked.
abbrev pub IsSingleRoute : RouteSelection → Type 0
IsSingleRoute r = count_set_fields r ≡ 1

pub single_match-ne-ambiguous {ℓ} :
    {A : Type ℓ} (available : Bool) (routes : List A)
    → length routes ≤ 1
    → single_match available routes ≢ err route_ambiguous
unfolding single_match
single_match-ne-ambiguous false routes h e = cc e
single_match-ne-ambiguous true [] h e = cc e
single_match-ne-ambiguous true (route ∷ []) h e = cc e
single_match-ne-ambiguous true (route ∷ r ∷ rs) h e = omega arith

flow_selected_terminal :
    (s : RouteSelection) (r : FlowRoute)
    → IsSingleRoute s
    → is_some s.terminal ≡ true
    → flow_selected s r ≡ true
    → r.terminal ≡ true
unfolding flow_selected count_set_fields one_if
flow_selected_terminal s r single set h = ground arith

flow_selected_next :
    (s : RouteSelection) (r : FlowRoute)
    → is_some s.terminal ≡ false
    → flow_selected s r ≡ true
    → (next : String) × (s.next_step_id ≡ some next)
      × (r.terminal ≡ false)
      × (r.next_step_id ≡ next)
unfolding flow_selected
flow_selected_next s r unset h = elim (Option-cases s.next_step_id) [
  | inl none_set ↦ absurd (ground (arith, none_set))
  | inr (next, set) ↦
      (next, set, ground (arith, set), ground (arith, set, eq_iff r.next_step_id next))
]

-- Two routes of a step that one request selects have one target.
same_target :
    (t : Tree) (step_id : String) (s : RouteSelection) (a b : FlowRoute)
    → IsSingleRoute s
    → IsFlowRoute t step_id a
    → IsFlowRoute t step_id b
    → flow_selected s a ≡ true
    → flow_selected s b ≡ true
    → (a.terminal ≡ b.terminal) × (a.next_step_id ≡ b.next_step_id)
same_target t step_id s a b single at bt h k = elim (Bool-cases (is_some s.terminal)) [
  | inl set ↦
      let ends_a = flow_selected_terminal s a single set h in
      let ends_b = flow_selected_terminal s b single set k in
      let shape_a = at.shape in
      let shape_b = bt.shape in
      (ends_a ∙ sym ends_b, ground (arith, eq_iff a.next_step_id "", eq_iff b.next_step_id ""))
  | inr unset ↦
      let (next, set_a, goes_a, leads_a) = flow_selected_next s a unset h in
      let (next', set_b, goes_b, leads_b) = flow_selected_next s b unset k in
      (goes_a ∙ sym goes_b, cc)
]

module _ (w : Workflow) (t : Tree) (step_id : String) (set : List String)
    (consistent : IsConsistent w.conditions set) where
  flows_meet :
      (s : RouteSelection)
      → IsSingleRoute s
      → (a b : FlowRoute) → IsFlowRoute t step_id a
      → IsFlowRoute t step_id b
      → (flow_selected s a && matches a.when set) ≡ true
      → (flow_selected s b && matches b.when set) ≡ true
      → flows_clash w.conditions a b ≡ true
  unfolding flows_clash
  flows_meet s single a b at bt h k =
      let (selected_a, match_a) = and-eq-true _ _ h in
      let (selected_b, match_b) = and-eq-true _ _ k in
      let (same, leads) = same_target t step_id s a b single at bt selected_a selected_b in
      let overlap =
        whens_overlap_of_matches w.conditions set consistent a.when b.when match_a match_b in
      ground (arith, eq_iff a.next_step_id b.next_step_id)

  pub flows_single :
      (s : RouteSelection)
      → IsSingleRoute s
      → IsFlow w t step_id (flows_at w step_id)
      → length (select_flow_routes (flows_at w step_id) s set).1 ≤ 1
  unfolding select_flow_routes
  flows_single s single h =
      keep_at_most_one (flows_clash w.conditions) (IsFlowRoute t step_id)
        (λ r. flow_selected s r && matches r.when set) (flows_meet s single) (flows_at w step_id)
        h.all_routes h.distinct

  loops_meet :
      (target : String) (a b : LoopRoute)
      → IsLoopRoute t step_id a
      → IsLoopRoute t step_id b
      → (a.back_step_id == target && matches a.when set) ≡ true
      → (b.back_step_id == target && matches b.when set) ≡ true
      → loops_clash w.conditions a b ≡ true
  unfolding loops_clash
  loops_meet target a b at bt h k =
      let (selected_a, match_a) = and-eq-true _ _ h in
      let (selected_b, match_b) = and-eq-true _ _ k in
      let overlap =
        whens_overlap_of_matches w.conditions set consistent a.when b.when match_a match_b in
      ground (
        arith,
        eq_iff a.back_step_id target,
        eq_iff b.back_step_id target,
        eq_iff a.back_step_id b.back_step_id,
      )

  pub loops_single :
      (target : String)
      → IsLoop w t step_id (loops_at w step_id)
      → length (select_loop_routes (loops_at w step_id) target set).1 ≤ 1
  unfolding select_loop_routes
  loops_single target h =
      keep_at_most_one (loops_clash w.conditions) (IsLoopRoute t step_id)
        (λ r. r.back_step_id == target && matches r.when set) (loops_meet target)
        (loops_at w step_id) h.all_routes h.distinct
