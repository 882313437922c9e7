-- ===== src/Examples.antt =====
-- A small bundle of two steps: `plan` leads on to `build` or back to itself, `build` ends the run or
-- leads back. The theorems are run on it in the modules below.
pub mod Bundles
pub mod Reports
pub mod Verdicts
pub mod Histories
pub mod Rehearsals
pub mod Records
pub mod Payloads
pub mod Commits
pub mod Rebinds
pub mod Starts
pub mod Deliveries
pub mod Registries
use fanloop.Base.{Bool, true, false, Option, none, some, List, [], ◌∷◌, String}
use fanloop.Workflow.{
  Step, Job, Stage, agent, human, PromptRef, When, FlowRoute, LoopRoute, CommonControlRoute,
  OutputDefinition, OutputType, string, boolean, ConditionDefinition, SkillBinding,
  PromptDefinition, Workflow,
}
use fanloop.Workflow.Parts.{prompt_file}

abbrev pub prompt : PromptRef
prompt = record { file = prompt_file; prompt_id = "guide" }

abbrev pub on : List String → When
on ids = record { any_of = ids ∷ [] }

abbrev pub output : String → OutputType → OutputDefinition
output key type = record {
  key = key;
  type = type;
  source = "";
  description = "";
  values = [];
  minimum = none;
  maximum = none;
  min_items = none;
  max_items = none;
}

abbrev pub given_condition : String → OutputType → String → ConditionDefinition
given_condition key type group = record {
  prompt_ref = prompt;
  output = output key type;
  exclusive_group = group;
}

abbrev pub go_on : String → String → FlowRoute
go_on id next = record {
  prompt_ref = prompt;
  when = on (id ∷ []);
  next_step_id = next;
  terminal = false;
}

abbrev pub finish : String → FlowRoute
finish id = record { prompt_ref = prompt; when = on (id ∷ []); next_step_id = ""; terminal = true }

abbrev pub go_back : String → String → LoopRoute
go_back id back = record { prompt_ref = prompt; when = on (id ∷ []); back_step_id = back }

abbrev pub plan_step : Step
plan_step = record { id = "plan"; name = "Plan"; executor = agent }

abbrev pub build_step : Step
build_step = record { id = "build"; name = "Build"; executor = human }

abbrev pub delivery : Stage
delivery = record {
  id = "delivery";
  name = "Delivery";
  jobs = record { id = "feature"; name = "Feature"; steps = plan_step ∷ build_step ∷ [] } ∷ [];
}

abbrev pub bundle : Workflow
bundle = record {
  schema_version = 7;
  id = "small";
  stages = delivery ∷ [];
  flows = ("plan", go_on "planned" "build" ∷ []) ∷ ("build", finish "built" ∷ []) ∷ [];
  conditions =
      ("planned", given_condition "plan" string "verdict")
      ∷ ("unclear", given_condition "doubt" string "verdict")
      ∷ ("built", given_condition "artifact" string "")
      ∷ ("broken", given_condition "failure" boolean "")
      ∷ [];
  loops =
      ("plan", go_back "unclear" "plan" ∷ [])
      ∷ ("build", go_back "broken" "plan" ∷ go_back "built" "build" ∷ [])
      ∷ [];
  prompts = ("guide", record { prompt = "Work"; skills = [] }) ∷ [];
  common_skills = [];
  common_conditions = [];
  step_start = none;
  jump = none;
}
