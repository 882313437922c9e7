-- ===== src/Workflow/Validate.antt =====
-- internal/workflow/validate.go, the checks across a whole bundle: ambiguity, reachability and
-- ValidateBundle. A `range` over a map goes through its entries in their listed order.
pub mod Listed
pub mod Ambiguity
pub mod Routes
pub mod Reach
use fanloop.Base.{
  ℕ, zero, suc, ◌+◌, ◌-◌, ◌≤◌, ◌<◌, ◌≡◌, refl, sym, ap, ◌∙◌, subst, ◌≢◌, ◌↔◌, ◌⊎◌, inl, inr, Bool,
  true, false, not, ◌&&◌, ◌||◌, Option, none, some, List, [], ◌∷◌, ◌++◌, map, String, arith, ◌==◌,
  eq_iff, eq_refl, ltb, leb, nat_eq, if◌then◌else◌, same_bool, Bool-cases, and-eq-true, is_some,
  is_none, Option-cases, Result, ok, err, ◌>>=◌, ◌>>◌, refuse_if, for_each, fold_each, is_ok,
  Result-cases, >>=-eq-ok, >>-eq-ok, refuse_if-eq-ok, length, get_elem?, take, drop, is_empty, any,
  all, keep, All, length-append, keep_ext, codes, is_space, is_blank, text_le, contains,
  contains-cons, Dict, lookup, lookup_or, insert, delete, keys, lookup-insert, lookup-delete,
}
use fanloop.Workflow.{
  PromptRef, When, FlowRoute, LoopRoute, CommonControlRoute, OutputType, ConditionDefinition,
  PromptDefinition, Workflow, type_code, add, flows_at, ordered_step_ids, first_step_id,
}
use fanloop.Workflow.Parts.{
  BundleError, Check, Tree, validate_workflow_tree, is_workflow_id, validate_prompt,
  validate_skills, validate_prompt_ref, validate_condition, validate_when, group_of,
  bad_schema_version, bad_bundle_versions, bad_workflow_id, flow_count, loop_count,
  output_type_conflict, duplicate_condition, bad_common_group, reused_output_key, control_pair,
  controls_missing, commons_missing, control_not_single, same_control, flow_without_route,
  loop_without_route, next_or_terminal, bad_next_step, bad_back_step, ambiguous_flow,
  ambiguous_loop, no_steps, no_terminal, unreachable_step, unused_condition,
  unused_common_condition, unused_prompt,
}

-- The loop of `groupsCompatible`, over both groups in a row.
compatible_from : Dict ConditionDefinition → Dict String → List String → Bool
compatible_from conditions groups [] = true
compatible_from conditions groups (id ∷ ids) =
    let group = group_of conditions id in
    let previous = lookup_or "" group groups in
    let skipped = compatible_from conditions groups ids in
    let noted = compatible_from conditions (insert group id groups) ids in
    if group == ""
    then skipped
    else if not (previous == "") && not (previous == id)
    then false
    else noted

unfoldable pub groups_compatible : Dict ConditionDefinition → List String → List String → Bool
unfolding compatible_from
groups_compatible conditions left right = compatible_from conditions [] (left ++ right)

unfoldable pub whens_overlap : Dict ConditionDefinition → When → When → Bool
whens_overlap conditions left right =
    any (λ l. any (λ r. groups_compatible conditions l r) right.any_of) left.any_of

unfoldable pub flows_clash : Dict ConditionDefinition → FlowRoute → FlowRoute → Bool
flows_clash conditions l r =
    same_bool l.terminal r.terminal
    && l.next_step_id == r.next_step_id
    && whens_overlap conditions l.when r.when

-- `validateFlowAmbiguity`: no pair of routes with one target overlaps.
unfoldable pub validate_flow_ambiguity : Dict ConditionDefinition → List FlowRoute → Check
validate_flow_ambiguity conditions [] = ok tt
validate_flow_ambiguity conditions (route ∷ routes) =
    refuse_if (any (flows_clash conditions route) routes) ambiguous_flow
    >> validate_flow_ambiguity conditions routes

unfoldable pub loops_clash : Dict ConditionDefinition → LoopRoute → LoopRoute → Bool
loops_clash conditions l r =
    l.back_step_id == r.back_step_id && whens_overlap conditions l.when r.when

unfoldable pub validate_loop_ambiguity : Dict ConditionDefinition → List LoopRoute → Check
validate_loop_ambiguity conditions [] = ok tt
validate_loop_ambiguity conditions (route ∷ routes) =
    refuse_if (any (loops_clash conditions route) routes) ambiguous_loop
    >> validate_loop_ambiguity conditions routes

-- The variables of the search in `validateFlowReachability`.
pub record Search : Type 0 where
  pub visited : List String
  pub queue : List String
  pub terminal : Bool

unfoldable pub follow : Search → List FlowRoute → Search
follow s [] = s
follow s (route ∷ routes) =
    follow
      (if route.terminal
        then record s { terminal = true }
        else record s { queue = s.queue ++ route.next_step_id ∷ [] })
      routes

-- The `for len(queue) > 0` loop, on fuel; none means that the fuel ran out.
unfoldable pub explore : ℕ → Workflow → Search → Option Search
explore zero w s = elim s.queue [ [] ↦ some s | id ∷ queue ↦ none ]
explore (suc fuel) w s = elim s.queue [
  | [] ↦ some s
  | id ∷ queue ↦
      let skipped = explore fuel w (record s { queue = queue }) in
      let visited =
        explore fuel w
          (follow (record s { visited = id ∷ s.visited; queue = queue }) (flows_at w id)) in
      if contains id s.visited then skipped else visited
]

-- How many routes a map of flows has.
unfoldable pub route_total : Dict (List FlowRoute) → ℕ
route_total [] = 0
route_total ((id, routes) ∷ flows) = length routes + route_total flows

-- Each round takes one id from the queue: the first, or one that some route put there.
abbrev pub explore_fuel : Workflow → ℕ
explore_fuel w = 1 + route_total w.flows

judge_reach : Workflow → Option Search → Check
judge_reach w none = err unreachable_step
judge_reach w (some s) = do
  refuse_if (not s.terminal) no_terminal
  refuse_if (not (nat_eq (length s.visited) (length (ordered_step_ids w)))) unreachable_step

unfoldable pub validate_flow_reachability : Workflow → Check
unfolding judge_reach
validate_flow_reachability w = elim (first_step_id w) [
  | none ↦ err no_steps
  | some first ↦
      judge_reach w
        (explore (explore_fuel w) w (record { visited = []; queue = first ∷ []; terminal = false }))
]

-- The sets that ValidateBundle fills.
pub record Used : Type 0 where
  pub prompts : List String
  pub conditions : List String
  pub commons : List String
  pub output_types : Dict OutputType
  pub common_group : String

abbrev same_type : OutputType → OutputType → Bool
same_type a b = nat_eq (type_code a) (type_code b)

type_differs : Option OutputType → OutputType → Bool
unfolding type_code
type_differs none type = false
type_differs (some previous) type = not (same_type previous type)

unfoldable pub visit_condition :
    Workflow → Used → String × ConditionDefinition → Result BundleError Used
unfolding type_differs
visit_condition w u (id, c) = do
  prompts ← validate_condition id c w.prompts u.prompts
  refuse_if (type_differs (lookup c.output.key u.output_types) c.output.type) output_type_conflict
  ok (record u {
    prompts = prompts;
    output_types = insert c.output.key c.output.type u.output_types;
  })

unfoldable pub visit_common_condition :
    Workflow → Used → String × ConditionDefinition → Result BundleError Used
visit_common_condition w u (id, c) = do
  refuse_if (is_some (lookup id w.conditions)) duplicate_condition
  prompts ← validate_condition id c w.prompts u.prompts
  refuse_if
      (c.exclusive_group == ""
        || (not (u.common_group == "") && not (c.exclusive_group == u.common_group)))
      bad_common_group
  refuse_if (is_some (lookup c.output.key u.output_types)) reused_output_key
  ok (record u {
    prompts = prompts;
    output_types = insert c.output.key c.output.type u.output_types;
    common_group = c.exclusive_group;
  })

-- `control.When.AnyOf[0][0]`, where there is exactly one.
single_condition : When → Option String
single_condition when = elim when.any_of [
  | [] ↦ none
  | group ∷ groups ↦ elim groups [
    | [] ↦ elim group [ [] ↦ none | id ∷ ids ↦ elim ids [ [] ↦ some id | j ∷ js ↦ none ] ]
    | g ∷ gs ↦ none
  ]
]

visit_control : Workflow → Used → CommonControlRoute → Result BundleError (Used × String)
unfolding single_condition
visit_control w u control = do
  prompts ← validate_prompt_ref control.prompt_ref w.prompts u.prompts
  commons ← validate_when control.when w.common_conditions u.commons
  elim (single_condition control.when) [
    | none ↦ err control_not_single
    | some id ↦ ok (record u { prompts = prompts; commons = commons }, id)
  ]

validate_controls :
    Workflow
    → Used
    → Option CommonControlRoute
    → Option CommonControlRoute
    → Result BundleError Used
unfolding visit_control
validate_controls w u none none = do
  refuse_if (not (is_empty w.common_skills) || not (is_empty w.common_conditions)) controls_missing
  ok u
validate_controls w u (some start) (some jump) = do
  refuse_if (is_empty w.common_skills || is_empty w.common_conditions) commons_missing
  (u', started) ← visit_control w u start
  (u'', jumped) ← visit_control w u' jump
  refuse_if (started == jumped) same_control
  ok u''
validate_controls w u _ _ = err control_pair

-- `positions[id]`
abbrev pub position_of : Tree → String → ℕ
position_of t id = lookup_or 0 id t.positions

unfoldable pub visit_flow_route :
    Workflow → Tree → String → Used → FlowRoute → Result BundleError Used
visit_flow_route w t step_id u route = do
  prompts ← validate_prompt_ref route.prompt_ref w.prompts u.prompts
  conditions ← validate_when route.when w.conditions u.conditions
  refuse_if (same_bool route.terminal (not (route.next_step_id == ""))) next_or_terminal
  refuse_if
      (not (route.next_step_id == "")
        && (not (contains route.next_step_id t.step_ids)
            || leb (position_of t route.next_step_id) (position_of t step_id)))
      bad_next_step
  ok (record u { prompts = prompts; conditions = conditions })

unfoldable pub visit_flow :
    Workflow → Tree → Used → String × List FlowRoute → Result BundleError Used
visit_flow w t u (step_id, routes) = do
  refuse_if (not (contains step_id t.step_ids) || is_empty routes) flow_without_route
  u' ← fold_each (visit_flow_route w t step_id) u routes
  validate_flow_ambiguity w.conditions routes
  ok u'

unfoldable pub visit_loop_route :
    Workflow → Tree → String → Used → LoopRoute → Result BundleError Used
visit_loop_route w t step_id u route = do
  prompts ← validate_prompt_ref route.prompt_ref w.prompts u.prompts
  conditions ← validate_when route.when w.conditions u.conditions
  refuse_if
      (not (contains route.back_step_id t.step_ids)
        || ltb (position_of t step_id) (position_of t route.back_step_id))
      bad_back_step
  ok (record u { prompts = prompts; conditions = conditions })

unfoldable pub visit_loop :
    Workflow → Tree → Used → String × List LoopRoute → Result BundleError Used
visit_loop w t u (step_id, routes) = do
  refuse_if (not (contains step_id t.step_ids) || is_empty routes) loop_without_route
  u' ← fold_each (visit_loop_route w t step_id) u routes
  validate_loop_ambiguity w.conditions routes
  ok u'

abbrev unused : List String → List String → Bool
unused ids used = not (all (λ id. contains id used) ids)

abbrev nothing_used : Used
nothing_used = record {
  prompts = [];
  conditions = [];
  commons = [];
  output_types = [];
  common_group = "";
}

check_prompt : String × PromptDefinition → Check
check_prompt (id, prompt) = validate_prompt id prompt

-- ValidateBundle up to the Routes: the tree and the maps of prompts and conditions.
unfoldable pub validate_definitions : Workflow → Result BundleError (Tree × Used)
unfolding check_prompt validate_controls
validate_definitions w = do
  tree ← validate_workflow_tree w
  refuse_if (not (nat_eq (length w.flows) (length tree.step_ids))) flow_count
  refuse_if (not (nat_eq (length w.loops) (length tree.step_ids))) loop_count
  for_each check_prompt w.prompts
  validate_skills w.common_skills
  u ← fold_each (visit_condition w) nothing_used w.conditions
  u' ← fold_each (visit_common_condition w) u w.common_conditions
  u'' ← validate_controls w u' w.step_start w.jump
  ok (tree, u'')

unfoldable pub validate_routes : Workflow → Tree → Used → Result BundleError Used
validate_routes w tree u = do
  u' ← fold_each (visit_flow w tree) u w.flows
  validate_flow_reachability w
  fold_each (visit_loop w tree) u' w.loops

-- The three loops at the end: what is declared is referenced.
check_unused : Workflow → Used → Check
check_unused w used = do
  refuse_if (unused (keys w.conditions) used.conditions) unused_condition
  refuse_if (unused (keys w.common_conditions) used.commons) unused_common_condition
  refuse_if (unused (keys w.prompts) used.prompts) unused_prompt

-- ValidateBundle past the tests on versions and the Workflow's id.
unfoldable pub validate_contents : Workflow → Check
unfolding check_unused
validate_contents w = validate_definitions w >>= λ defined.
    validate_routes w defined.0 defined.1 >>= λ used. check_unused w used

unfoldable pub validate_bundle : Workflow → ℕ → ℕ → ℕ → ℕ → Check
validate_bundle w flow_schema condition_schema loop_schema prompt_schema = do
  refuse_if (not (nat_eq w.schema_version 7)) bad_schema_version
  refuse_if
      (not (nat_eq flow_schema 5)
        || not (nat_eq condition_schema 3)
        || not (nat_eq loop_schema 4)
        || not (nat_eq prompt_schema 2))
      bad_bundle_versions
  refuse_if (not (is_workflow_id w.id)) bad_workflow_id
  validate_contents w
