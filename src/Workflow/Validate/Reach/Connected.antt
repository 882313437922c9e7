-- ===== src/Workflow/Validate/Reach/Connected.antt =====
-- ValidateBundle of internal/workflow/validate.go: every step of a loaded bundle is reachable.
use fanloop.Base.{
  ℕ, ◌≡◌, sym, ap, ◌∙◌, subst, inl, inr, true, Option, some, none, List, [], ◌∷◌, String, arith,
  eq_iff, eq_refl, ◌==◌, Bool-cases, ok, not, nat_eq, for_each, fold_each, >>-eq-ok, guard-eq-ok,
  ok-injective, >>=-eq-ok, length, All, All-map, contains,
}
use mathlib.Core.List.{Memᴰ}
use fanloop.Workflow.{Workflow, flows_at, first_step_id, ordered_step_ids}
use fanloop.Workflow.Parts.{Tree, validate_workflow_tree, validate_skills, flow_count, loop_count}
use fanloop.Workflow.Validate.{
  Used, nothing_used, check_prompt, visit_condition, visit_common_condition, validate_controls,
  validate_definitions, validate_bundle,
}
use fanloop.Workflow.Validate.Listed.{validate_workflow_tree-listed}
use fanloop.Workflow.Validate.Routes.{AreRoutes, IsFlowRoute, validate_bundle-AreRoutes}
use fanloop.Workflow.Validate.Reach.{Reaches, start, flow, Exit}
use fanloop.Workflow.Validate.Reach.Found.{validate_flow_reachability-IsConnected}
use fanloop.Workflow.Validate.Reach.Distinct.{contains-distinct}

All-mem : {A : Type 0} (P : A → Type 0) (xs : List A) (x : A) → All P xs → Memᴰ x xs → P x
All-mem P [] x all there = elim there [ ]
All-mem P (y ∷ xs) x all (Memᴰ.head same) = subst P (sym same) all.0
All-mem P (y ∷ xs) x all (Memᴰ.tail later) = All-mem P xs x all.1 later

All-contains :
    (P : String → Type 0) (xs : List String) (x : String) → All P xs → contains x xs ≡ true → P x
unfolding contains
All-contains P [] x all h = absurd (cc h)
All-contains P (y ∷ xs) x all h = elim (Bool-cases (y == x)) [
  | inl same ↦ subst P ((eq_iff y x).0 same) all.0
  | inr other ↦ All-contains P xs x all.1 (ground (arith, other, h))
]

validate_definitions-tree :
    (w : Workflow) (t : Tree) (u : Used)
    → validate_definitions w ≡ ok (t, u)
    → validate_workflow_tree w ≡ ok t
unfolding validate_definitions
validate_definitions-tree w t u h =
    let (tree, made, h1) = >>=-eq-ok (validate_workflow_tree w) _ h in
    let (flows, h2) =
      guard-eq-ok (not (nat_eq (length w.flows) (length tree.step_ids))) flow_count _ h1 in
    let (loops, h3) =
      guard-eq-ok (not (nat_eq (length w.loops) (length tree.step_ids))) loop_count _ h2 in
    let (prompts, h4) = >>-eq-ok (for_each check_prompt w.prompts) _ h3 in
    let (skills, h5) = >>-eq-ok (validate_skills w.common_skills) _ h4 in
    let (u1, conditions, h6) =
      >>=-eq-ok (fold_each (visit_condition w) nothing_used w.conditions) _ h5 in
    let (u2, commons, h7) =
      >>=-eq-ok (fold_each (visit_common_condition w) u1 w.common_conditions) _ h6 in
    let (u3, controls, last) = >>=-eq-ok (validate_controls w u2 w.step_start w.jump) _ h7 in
    made ∙ ap ok (ap (λ (p : Tree × Used). p.0) (ok-injective last))

first_of : List String → Option String
first_of [] = none
first_of (id ∷ ids) = some id

first_of-listed :
    (ids : List String) (first : String) → first_of ids ≡ some first → contains first ids ≡ true
unfolding first_of contains
first_of-listed [] first h = absurd (cc h)
first_of-listed (id ∷ ids) first h = ground (arith, h, eq_refl first)

first_step_id-listed :
    (w : Workflow) (first : String)
    → first_step_id w ≡ some first
    → contains first (ordered_step_ids w) ≡ true
unfolding first_step_id first_of
first_step_id-listed w first h = first_of-listed (ordered_step_ids w) first h

module _ (w : Workflow) (first : String) (enters : first_step_id w ≡ some first) (t : Tree)
    (tree : validate_workflow_tree w ≡ ok t) (routes : AreRoutes w t) where
  Reaches-listed : (id : String) → Reaches w first id → contains id (ordered_step_ids w) ≡ true
  Reaches-listed id (start same) = rw same (first_step_id-listed w first enters)
  Reaches-listed id (flow source route reached listed goes_on leads) =
      let route_ok : IsFlowRoute t source route =
        All-mem (IsFlowRoute t source) (flows_at w source) route (routes.flow source).all_routes
          listed in
      subst (λ i. contains i (ordered_step_ids w) ≡ true) leads
        (validate_workflow_tree-listed w t route.next_step_id tree (route_ok.forward goes_on).0)

-- In a bundle that ValidateBundle accepts, and whose first step is `first`, every step that it lists is
-- reachable from `first` along Flow routes that are not terminal, and one of the reachable steps has
-- a terminal route.
pub validate_bundle-Reaches :
    (w : Workflow) (a b c d : ℕ) (first : String)
    → validate_bundle w a b c d ≡ ok tt
    → first_step_id w ≡ some first
    → ((id : String) → contains id (ordered_step_ids w) ≡ true → Reaches w first id) × Exit w first
validate_bundle-Reaches w a b c d first h enters =
    let (t, u, defined, routes) = validate_bundle-AreRoutes w a b c d h in
    let tree = validate_definitions-tree w t u defined in
    let found = validate_flow_reachability-IsConnected w first enters routes.connected in
    (
      λ id listed. All-contains (Reaches w first) found.visited id found.reached (
          contains-distinct found.visited (ordered_step_ids w) id found.distinct
            (All-map (Reaches w first) (λ x. contains x (ordered_step_ids w) ≡ true) found.visited
              (Reaches-listed w first enters t tree routes) found.reached)
            found.counted listed),
      found.exit,
    )
