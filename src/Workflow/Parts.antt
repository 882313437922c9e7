-- ===== src/Workflow/Parts.antt =====
-- internal/workflow/validate.go, the checks of one Prompt, Skill, Condition, `when` and Output
-- definition, and the Workflow tree. An error says which check failed; its text is left out.
use fanloop.Base.{
  ℕ, ◌+◌, Bool, true, false, not, ◌&&◌, ◌||◌, Option, none, some, List, [], ◌∷◌, String, ◌==◌, leb,
  nat_eq, if◌then◌else◌, is_some, is_none, Result, ok, err, ◌>>=◌, ◌>>◌, refuse_if, fold_each,
  is_empty, all, codes, is_blank, contains, Dict, lookup, lookup_or, insert,
}
use fanloop.Base.Sorting.{sort_strings}
use fanloop.Json.{ℤ, pos}
use fanloop.Workflow.{
  agent, human, other_executor, Step, Job, Stage, PromptRef, When, OutputType, unspecified, unknown,
  integer, url_list, enum_value, OutputDefinition, ConditionDefinition, SkillBinding,
  PromptDefinition, Workflow, type_code, add,
}
use fanloop.Workflow.Output.{allowed_output_source, given, less}

pub data BundleError : Type 0 where
  bad_schema_version bad_bundle_versions bad_workflow_id no_stages : BundleError
  bad_stage bad_job bad_step bad_executor : BundleError
  flow_count loop_count : BundleError
  bad_prompt bad_skill bad_prompt_ref unknown_prompt : BundleError
  bad_condition_id bad_group bad_output_key bad_output_type bad_output_source : BundleError
  values_with_non_enum bad_enum_values no_enum_values bounds_with_non_integer
        minimum_above_maximum :
      BundleError
  items_with_non_list negative_items min_items_above_max_items : BundleError
  empty_when empty_group unknown_condition exclusive_conditions duplicate_group : BundleError
  output_type_conflict duplicate_condition bad_common_group reused_output_key : BundleError
  control_pair controls_missing commons_missing control_not_single same_control : BundleError
  flow_without_route loop_without_route next_or_terminal bad_next_step bad_back_step : BundleError
  ambiguous_flow ambiguous_loop no_steps no_terminal unreachable_step : BundleError
  unused_condition unused_common_condition unused_prompt : BundleError

abbrev pub Check : Type 0
Check = Result BundleError (Unit {0})

is_lower : ℕ → Bool
is_lower c = leb b'a' c && leb c b'z'

-- `[a-z0-9x]` for one more character x.
is_id_char : ℕ → ℕ → Bool
unfolding is_lower
is_id_char extra c = is_lower c || (leb b'0' c && leb c b'9') || nat_eq c extra

-- `^[a-z][a-z0-9x]*$`
matches_id : ℕ → List ℕ → Bool
unfolding is_id_char
matches_id extra [] = false
matches_id extra (c ∷ cs) = is_lower c && all (is_id_char extra) cs

unfoldable pub is_config_id : String → Bool
unfolding matches_id
is_config_id s = matches_id b'_' (codes s)

unfoldable pub is_workflow_id : String → Bool
unfolding matches_id
is_workflow_id s = matches_id b'-' (codes s)

-- `strings.Contains` of a text of two characters.
has_pair : ℕ → ℕ → List ℕ → Bool
has_pair a b [] = false
has_pair a b (c ∷ []) = false
has_pair a b (c ∷ d ∷ cs) = (nat_eq a c && nat_eq b d) || has_pair a b (d ∷ cs)

unfoldable pub validate_step : Step → List String → Check
validate_step step seen = do
  refuse_if (not (is_config_id step.id) || is_blank step.name || contains step.id seen) bad_step
  elim step.executor [ agent ↦ ok tt | human ↦ ok tt | other_executor n ↦ err bad_executor ]

-- The maps and the counter that `validateWorkflowTree` fills.
pub record Tree : Type 0 where
  pub stage_ids : List String
  pub job_ids : List String
  pub step_ids : List String
  pub positions : Dict ℕ
  pub position : ℕ

unfoldable pub visit_step : Tree → Step → Result BundleError Tree
visit_step t step = do
  validate_step step t.step_ids
  ok (record t {
    step_ids = add step.id t.step_ids;
    positions = insert step.id t.position t.positions;
    position = t.position + 1;
  })

unfoldable pub visit_job : Tree → Job → Result BundleError Tree
visit_job t job = do
  refuse_if
      (not (is_config_id job.id)
        || is_blank job.name
        || contains job.id t.job_ids
        || is_empty job.steps)
      bad_job
  fold_each visit_step (record t { job_ids = add job.id t.job_ids }) job.steps

unfoldable pub visit_stage : Tree → Stage → Result BundleError Tree
visit_stage t stage = do
  refuse_if
      (not (is_config_id stage.id)
        || is_blank stage.name
        || contains stage.id t.stage_ids
        || is_empty stage.jobs)
      bad_stage
  fold_each visit_job (record t { stage_ids = add stage.id t.stage_ids }) stage.jobs

abbrev pub empty_tree : Tree
empty_tree = record { stage_ids = []; job_ids = []; step_ids = []; positions = []; position = 0 }

unfoldable pub validate_workflow_tree : Workflow → Result BundleError Tree
validate_workflow_tree w = do
  refuse_if (is_empty w.stages) no_stages
  fold_each visit_stage empty_tree w.stages

unfoldable pub visit_skill : List String → SkillBinding → Result BundleError (List String)
visit_skill seen skill = do
  refuse_if
      (is_blank skill.id
        || is_blank skill.prompt
        || is_none skill.optional
        || contains skill.id seen)
      bad_skill
  ok (add skill.id seen)

unfoldable pub validate_skills : List SkillBinding → Check
validate_skills skills = do seen ← fold_each visit_skill [] skills; ok tt

unfoldable pub validate_prompt : String → PromptDefinition → Check
unfolding has_pair
validate_prompt id prompt = do
  refuse_if
      (not (is_config_id id)
        || is_blank prompt.prompt
        || has_pair b'{' b'{' (codes prompt.prompt)
        || has_pair b'$' b'{' (codes prompt.prompt))
      bad_prompt
  validate_skills prompt.skills

abbrev pub prompt_file : String
prompt_file = "prompt.yaml"

-- Returns `used` with the Prompt marked.
unfoldable pub validate_prompt_ref :
    PromptRef → Dict PromptDefinition → List String → Result BundleError (List String)
validate_prompt_ref ref prompts used = do
  refuse_if (not (ref.file == prompt_file) || not (is_config_id ref.prompt_id)) bad_prompt_ref
  refuse_if (is_none (lookup ref.prompt_id prompts)) unknown_prompt
  ok (add ref.prompt_id used)

visit_value : List String → String → Result BundleError (List String)
visit_value seen value = do
  refuse_if (is_blank value || contains value seen) bad_enum_values
  ok (add value seen)

abbrev both_above : Option ℤ → Option ℤ → Bool
both_above low high = given low (λ a. given high (λ b. less b a))

is_listed : OutputType → Bool
is_listed unspecified = false
is_listed (unknown n) = false
is_listed _ = true

abbrev is_type : OutputType → OutputType → Bool
is_type a b = nat_eq (type_code a) (type_code b)

-- The loop over the values of an enum.
validate_enum_values : Bool → List String → Check
unfolding visit_value
validate_enum_values false values = ok tt
validate_enum_values true values = do
  seen ← fold_each visit_value [] values
  refuse_if (is_empty seen) no_enum_values

validate_values : OutputDefinition → Check
unfolding validate_enum_values type_code
validate_values d = do
  refuse_if (not (is_type d.type enum_value) && not (is_empty d.values)) values_with_non_enum
  validate_enum_values (is_type d.type enum_value) d.values

validate_bounds : OutputDefinition → Check
unfolding type_code
validate_bounds d = do
  refuse_if ((is_some d.minimum || is_some d.maximum) && not (is_type d.type integer))
      bounds_with_non_integer
  refuse_if (both_above d.minimum d.maximum) minimum_above_maximum
  refuse_if ((is_some d.min_items || is_some d.max_items) && not (is_type d.type url_list))
      items_with_non_list
  refuse_if (given d.min_items (λ m. less m (pos 0)) || given d.max_items (λ m. less m (pos 0)))
      negative_items
  refuse_if (both_above d.min_items d.max_items) min_items_above_max_items

unfoldable pub validate_output_definition : OutputDefinition → Check
unfolding validate_values validate_bounds is_listed
validate_output_definition d = do
  refuse_if (not (is_listed d.type)) bad_output_type
  refuse_if (not (d.source == "") && not (allowed_output_source d)) bad_output_source
  validate_values d
  validate_bounds d

-- Returns `usedPrompts`.
unfoldable pub validate_condition :
    String
    → ConditionDefinition
    → Dict PromptDefinition
    → List String
    → Result BundleError (List String)
validate_condition id condition prompts used = do
  refuse_if (not (is_config_id id)) bad_condition_id
  refuse_if (not (condition.exclusive_group == "") && not (is_config_id condition.exclusive_group))
      bad_group
  used' ← validate_prompt_ref condition.prompt_ref prompts used
  refuse_if (not (is_config_id condition.output.key)) bad_output_key
  validate_output_definition condition.output
  ok used'

-- The zero value of Go's `Condition` has the group "".
unfoldable pub group_of : Dict ConditionDefinition → String → String
group_of conditions id = elim (lookup id conditions) [ none ↦ "" | some c ↦ c.exclusive_group ]

-- The variables of the loop over one AND group.
pub record GroupScan : Type 0 where
  pub seen_ids : List String
  pub groups : Dict String
  pub used : List String

unfoldable pub visit_id :
    Dict ConditionDefinition → GroupScan → String → Result BundleError GroupScan
visit_id conditions s id = do
  refuse_if (is_none (lookup id conditions) || contains id s.seen_ids) unknown_condition
  let group = group_of conditions id
  let previous = lookup_or "" group s.groups
  refuse_if (not (group == "") && (not (previous == "") && not (previous == id)))
      exclusive_conditions
  ok (record {
    seen_ids = add id s.seen_ids;
    groups = (if group == "" then s.groups else insert group id s.groups);
    used = add id s.used;
  })

join : List String → String
join [] = ""
join (x ∷ []) = x
join (x ∷ y ∷ xs) = Prim.Native.String.◌++◌ x (Prim.Native.String.◌++◌ "\0" (join (y ∷ xs)))

unfoldable pub visit_group :
    Dict ConditionDefinition
    → List String × List String
    → List String
    → Result BundleError (List String × List String)
unfolding join
visit_group conditions (seen_groups, used) group = do
  refuse_if (is_empty group) empty_group
  s ← fold_each (visit_id conditions) (record { seen_ids = []; groups = []; used = used }) group
  let key = join (sort_strings group)
  refuse_if (contains key seen_groups) duplicate_group
  ok (add key seen_groups, s.used)

-- Returns `used` with the Conditions of the `when` marked.
unfoldable pub validate_when :
    When → Dict ConditionDefinition → List String → Result BundleError (List String)
validate_when when conditions used = do
  refuse_if (is_empty when.any_of) empty_when
  (seen_groups, used') ← fold_each (visit_group conditions) ([], used) when.any_of
  ok used'
