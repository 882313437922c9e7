-- ===== src/Examples/Bundles.antt =====
-- The theorems on bundles, run on the bundle of Examples.antt.
use fanloop.Base.{
  String, ℕ, ◌≡◌, refl, ok, [], ◌∷◌, some, true, false, is_some, arith, eq_iff, fold_each, is_blank,
  contains, for_each, insert, lookup, lookup_or, is_space, text_le,
}
use fanloop.Base.Sorting.{sort_strings}
use fanloop.Workflow.{
  matches, StepContext, step_position, find_step, add, type_code, first_step_id, ordered_step_ids,
}
use fanloop.Workflow.Parts.{
  Tree, is_workflow_id, validate_workflow_tree, visit_stage, is_config_id, visit_job, visit_step,
  validate_step, validate_prompt, validate_skills, group_of, validate_condition,
  validate_output_definition, validate_prompt_ref, validate_when, visit_group, visit_id,
  visit_skill,
}
use fanloop.Workflow.Validate.{
  Used, explore_fuel, validate_bundle, validate_contents, validate_definitions, validate_routes,
  visit_flow, visit_loop, visit_flow_route, visit_loop_route, visit_condition,
  visit_common_condition, validate_flow_reachability, explore, flows_clash, follow,
  groups_compatible, loops_clash, route_total, validate_flow_ambiguity, validate_loop_ambiguity,
  whens_overlap,
}
use fanloop.Workflow.Positions.{index_from, find_step-position}
use fanloop.Workflow.Validate.Ambiguity.{IsConsistent, whens_overlap_of_matches}
use fanloop.Workflow.Validate.Reach.{explore_total, Reaches, Exit}
use fanloop.Workflow.Validate.Reach.Connected.{validate_bundle-Reaches}
use fanloop.Workflow.Validate.Routes.{AreRoutes, validate_bundle-AreRoutes}
use fanloop.Trace.{Registry, lark, apply_runtime_overrides, disabled, apply_runtime_overrides_keeps}
use fanloop.Examples.{bundle, on}

pub bundle_loaded : validate_bundle bundle 5 3 4 2 ≡ ok tt
unfolding validate_bundle validate_contents validate_definitions validate_routes visit_flow
    visit_loop visit_flow_route visit_loop_route visit_condition visit_common_condition
    validate_flow_reachability explore flows_clash follow groups_compatible loops_clash route_total
    validate_flow_ambiguity validate_loop_ambiguity whens_overlap is_workflow_id
    validate_workflow_tree visit_stage is_config_id visit_job visit_step validate_step
    validate_prompt validate_skills group_of validate_condition validate_output_definition
    validate_prompt_ref validate_when visit_group visit_id visit_skill add type_code first_step_id
    ordered_step_ids sort_strings fold_each is_blank contains for_each insert lookup lookup_or
    is_space text_le
bundle_loaded = refl

validate_bundle-AreRoutes_example :
    (t : Tree) × (u : Used) × (validate_definitions bundle ≡ ok (t, u)) × AreRoutes bundle t
validate_bundle-AreRoutes_example = validate_bundle-AreRoutes bundle 5 3 4 2 bundle_loaded

first_step : first_step_id bundle ≡ some "plan"
unfolding first_step_id ordered_step_ids
first_step = refl

validate_bundle-Reaches_example :
    ((id : String) → contains id (ordered_step_ids bundle) ≡ true → Reaches bundle "plan" id)
    × Exit bundle "plan"
validate_bundle-Reaches_example =
    validate_bundle-Reaches bundle 5 3 4 2 "plan" bundle_loaded first_step

explore_total_example :
    is_some (
      explore
        (explore_fuel bundle)
        bundle
        (record { visited = []; queue = "plan" ∷ []; terminal = false }))
    ≡ true
explore_total_example = explore_total bundle "plan"

find_step-position_example :
    (step_position bundle "build" ≡ index_from 0 "build" (ordered_step_ids bundle))
    × ((context : StepContext) (position : ℕ)
        → find_step bundle "build" ≡ some (context, position)
        → context.step.id ≡ "build")
find_step-position_example = find_step-position bundle "build"

-- `planned` and `built` have no group in common.
both-IsConsistent : IsConsistent bundle.conditions ("planned" ∷ [])
unfolding contains
both-IsConsistent a b h k named same = ground (arith, eq_iff "planned" a, eq_iff "planned" b)

whens_overlap_of_matches_example :
    whens_overlap bundle.conditions (on ("planned" ∷ [])) (on ("planned" ∷ [])) ≡ true
unfolding matches contains
whens_overlap_of_matches_example =
    whens_overlap_of_matches bundle.conditions ("planned" ∷ []) both-IsConsistent
      (on ("planned" ∷ [])) (on ("planned" ∷ [])) refl refl

abbrev registry : Registry
registry = record {
  profile = "production";
  provider = lark;
  url = "https://example.invalid/base";
  base_token = "token";
  table_id = "table";
  view_id = "view";
  require_cli_log_document = true;
  fields = record {
    trace_key = "a";
    title = "b";
    owner = "c";
    location = "d";
    status = "e";
    loop_count = "f";
    source_url = "g";
    source_output = "";
    source_document_only = false;
    trace_url = "h";
    updated_at = "i";
    origin = "j";
    cli_log_url = "k";
    outputs = [];
  };
}

apply_runtime_overrides_keeps_example :
    (disabled (apply_runtime_overrides (λ name. "env") registry) ≡ disabled registry)
    × ((apply_runtime_overrides (λ name. "env") registry).require_cli_log_document
        ≡ registry.require_cli_log_document)
    × ((apply_runtime_overrides (λ name. "env") registry).fields ≡ registry.fields)
apply_runtime_overrides_keeps_example = apply_runtime_overrides_keeps (λ name. "env") registry
