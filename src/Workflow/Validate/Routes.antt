-- ===== src/Workflow/Validate/Routes.antt =====
-- Which Routes a loaded bundle offers: what ValidateBundle of internal/workflow/validate.go
-- establishes of each of them.
use fanloop.Base.{
  ℕ, ◌≤◌, ◌<◌, ◌≡◌, subst, inl, inr, true, false, not, List, [], ◌∷◌, String, arith, ◌==◌, eq_iff,
  same_bool, Bool-cases, ok, ◌>>=◌, ◌>>◌, fold_each, >>=-eq-ok, >>-eq-ok, guard-eq-ok,
  checked-eq-ok, fold_each-All, All, contains, Dict, lookup, lookup_or,
}
use fanloop.Workflow.{FlowRoute, LoopRoute, Workflow, flows_at, loops_at}
use fanloop.Workflow.Parts.{Tree}
use fanloop.Workflow.Validate.{
  Used, flows_clash, loops_clash, validate_flow_ambiguity, validate_loop_ambiguity,
  visit_flow_route, visit_flow, visit_loop_route, visit_loop, position_of,
  validate_flow_reachability, validate_definitions, validate_routes, check_unused,
  validate_contents, validate_bundle,
}
use fanloop.Workflow.Validate.Ambiguity.{
  NoClash, validate_flow_ambiguity-NoClash, validate_loop_ambiguity-NoClash,
}

-- A Flow route is terminal exactly when it names no next step, and leads to a later step.
pub record IsFlowRoute (t : Tree) (step_id : String) (r : FlowRoute) : Type 0 where
  pub shape : same_bool r.terminal (not (r.next_step_id == "")) ≡ false
  pub forward :
      r.terminal ≡ false
      → (contains r.next_step_id t.step_ids ≡ true)
        × (position_of t step_id < position_of t r.next_step_id)

-- A Loop route leads to a step that is not later.
pub record IsLoopRoute (t : Tree) (step_id : String) (r : LoopRoute) : Type 0 where
  pub known : contains r.back_step_id t.step_ids ≡ true
  pub backward : position_of t r.back_step_id ≤ position_of t step_id

module _ (w : Workflow) (t : Tree) where
  visit_flow_route-IsFlowRoute :
      (step_id : String) (u : Used) (r : FlowRoute) (u' : Used)
      → visit_flow_route w t step_id u r ≡ ok u'
      → IsFlowRoute t step_id r
  unfolding visit_flow_route
  visit_flow_route-IsFlowRoute step_id u r u' h = record {
    shape = ground arith;
    forward = λ goes_on. ground arith;
  }

  visit_loop_route-IsLoopRoute :
      (step_id : String) (u : Used) (r : LoopRoute) (u' : Used)
      → visit_loop_route w t step_id u r ≡ ok u'
      → IsLoopRoute t step_id r
  unfolding visit_loop_route
  visit_loop_route-IsLoopRoute step_id u r u' h = record {
    known = ground arith;
    backward = ground arith;
  }

  -- What the loop over the Flows establishes of one entry.
  pub record IsFlow (step_id : String) (routes : List FlowRoute) : Type 0 where
    pub all_routes : All (IsFlowRoute t step_id) routes
    pub distinct : NoClash (flows_clash w.conditions) routes

  pub record IsLoop (step_id : String) (routes : List LoopRoute) : Type 0 where
    pub all_routes : All (IsLoopRoute t step_id) routes
    pub distinct : NoClash (loops_clash w.conditions) routes

  visit_flow-IsFlow :
      (u : Used) (e : String × List FlowRoute) (u' : Used)
      → visit_flow w t u e ≡ ok u'
      → IsFlow e.0 e.1
  unfolding visit_flow
  visit_flow-IsFlow u (step_id, routes) u' h =
      let checked =
        checked-eq-ok (fold_each (visit_flow_route w t step_id) u routes)
          (validate_flow_ambiguity w.conditions routes) (guard-eq-ok _ _ _ h).1 in
      record {
        all_routes =
            fold_each-All (IsFlowRoute t step_id) (visit_flow_route w t step_id)
              (visit_flow_route-IsFlowRoute step_id) u routes u' checked.0;
        distinct = validate_flow_ambiguity-NoClash w.conditions routes checked.1;
      }

  visit_loop-IsLoop :
      (u : Used) (e : String × List LoopRoute) (u' : Used)
      → visit_loop w t u e ≡ ok u'
      → IsLoop e.0 e.1
  unfolding visit_loop
  visit_loop-IsLoop u (step_id, routes) u' h =
      let checked =
        checked-eq-ok (fold_each (visit_loop_route w t step_id) u routes)
          (validate_loop_ambiguity w.conditions routes) (guard-eq-ok _ _ _ h).1 in
      record {
        all_routes =
            fold_each-All (IsLoopRoute t step_id) (visit_loop_route w t step_id)
              (visit_loop_route-IsLoopRoute step_id) u routes u' checked.0;
        distinct = validate_loop_ambiguity-NoClash w.conditions routes checked.1;
      }

  find-IsFlow :
      (step_id : String) (flows : Dict (List FlowRoute))
      → All (λ e. IsFlow e.0 e.1) flows
      → IsFlow step_id (lookup_or [] step_id flows)
  unfolding lookup_or lookup
  find-IsFlow step_id [] h = record { all_routes = tt; distinct = tt }
  find-IsFlow step_id ((j, routes) ∷ flows) h = elim (Bool-cases (j == step_id)) [
    | inl same ↦
        rw (same, lookup, lookup_or) (subst (λ k. IsFlow k routes) ((eq_iff j step_id).0 same) h.0)
    | inr other ↦ subst (IsFlow step_id) (ground (arith, other)) (find-IsFlow step_id flows h.1)
  ]

  find-IsLoop :
      (step_id : String) (loops : Dict (List LoopRoute))
      → All (λ e. IsLoop e.0 e.1) loops
      → IsLoop step_id (lookup_or [] step_id loops)
  unfolding lookup_or lookup
  find-IsLoop step_id [] h = record { all_routes = tt; distinct = tt }
  find-IsLoop step_id ((j, routes) ∷ loops) h = elim (Bool-cases (j == step_id)) [
    | inl same ↦
        rw (same, lookup, lookup_or) (subst (λ k. IsLoop k routes) ((eq_iff j step_id).0 same) h.0)
    | inr other ↦ subst (IsLoop step_id) (ground (arith, other)) (find-IsLoop step_id loops h.1)
  ]

  pub record AreRoutes : Type 0 where
    pub flow : (step_id : String) → IsFlow step_id (flows_at w step_id)
    pub loop : (step_id : String) → IsLoop step_id (loops_at w step_id)
    pub connected : validate_flow_reachability w ≡ ok tt

  pub validate_routes-AreRoutes : (u used : Used) → validate_routes w t u ≡ ok used → AreRoutes
  unfolding validate_routes
  validate_routes-AreRoutes u used h =
      let (u', flows, h1) =
        >>=-eq-ok (fold_each (visit_flow w t) u w.flows)
          (λ u'. validate_flow_reachability w >> fold_each (visit_loop w t) u' w.loops) h in
      let (connected, loops) = >>-eq-ok _ _ h1 in
      let all_flows =
        fold_each-All (λ e. IsFlow e.0 e.1) (visit_flow w t) visit_flow-IsFlow u w.flows u' flows in
      let all_loops =
        fold_each-All (λ e. IsLoop e.0 e.1) (visit_loop w t) visit_loop-IsLoop u' w.loops used
          loops in
      record {
        flow = λ step_id. find-IsFlow step_id w.flows all_flows;
        loop = λ step_id. find-IsLoop step_id w.loops all_loops;
        connected = connected;
      }

validate_contents-AreRoutes :
    (w : Workflow)
    → validate_contents w ≡ ok tt
    → (t : Tree) × (u : Used) × (validate_definitions w ≡ ok (t, u)) × AreRoutes w t
unfolding validate_contents
validate_contents-AreRoutes w h =
    let (tu, defined, h') =
      >>=-eq-ok (validate_definitions w)
        (λ tu. validate_routes w tu.0 tu.1 >>= λ used. check_unused w used) h in
    let (used, routed, _) =
      >>=-eq-ok (validate_routes w tu.0 tu.1) (λ used. check_unused w used) h' in
    (tu.0, tu.1, defined, validate_routes-AreRoutes w tu.0 tu.1 used routed)

-- If ValidateBundle accepts a bundle, then for the tree that it builds: each Flow route of a step is
-- either terminal with no next step or leads to a known step that is strictly later, each Loop route
-- leads to a known step that is not later, no two Flow routes and no two Loop routes of a step that
-- have one target overlap, and validateFlowReachability has accepted the bundle.
pub validate_bundle-AreRoutes :
    (w : Workflow) (a b c d : ℕ)
    → validate_bundle w a b c d ≡ ok tt
    → (t : Tree) × (u : Used) × (validate_definitions w ≡ ok (t, u)) × AreRoutes w t
unfolding validate_bundle
validate_bundle-AreRoutes w a b c d h = validate_contents-AreRoutes w (ground arith)
