-- ===== src/Workflow.antt =====
-- internal/workflow/model.go: the resolved Workflow bundle and its queries.
-- A Go pointer field is an `Option`; a map is a `Dict`; a `map[string]bool` is the list of its
-- true keys.
pub mod Output
pub mod Parts
pub mod Positions
pub mod Validate
use fanloop.Base.{
  ℕ, ◌+◌, Bool, Option, none, some, List, [], ◌∷◌, ◌++◌, map, String, Dict, lookup, lookup_or,
  contains, any, all, if◌then◌else◌, ◌==◌,
}
use fanloop.Base.Sorting.{sort_strings}
use fanloop.Json.{ℤ}

pub data StepExecutor : Type 0 where
  agent human : StepExecutor
  other_executor : ℕ → StepExecutor

pub record Step : Type 0 where
  pub id : String
  pub name : String
  pub executor : StepExecutor

pub record Job : Type 0 where
  pub id : String
  pub name : String
  pub steps : List Step

pub record Stage : Type 0 where
  pub id : String
  pub name : String
  pub jobs : List Job

pub record PromptRef : Type 0 where
  pub file : String
  pub prompt_id : String

pub record When : Type 0 where
  pub any_of : List (List String)

pub record FlowRoute : Type 0 where
  pub prompt_ref : PromptRef
  pub when : When
  pub next_step_id : String
  pub terminal : Bool

pub record LoopRoute : Type 0 where
  pub prompt_ref : PromptRef
  pub when : When
  pub back_step_id : String

pub record CommonControlRoute : Type 0 where
  pub prompt_ref : PromptRef
  pub when : When

pub data OutputType : Type 0 where
  unspecified string boolean integer path url url_list enum_value object : OutputType
  unknown : ℕ → OutputType

pub record OutputDefinition : Type 0 where
  pub key : String
  pub type : OutputType
  pub source : String
  pub description : String
  pub values : List String
  pub minimum : Option ℤ
  pub maximum : Option ℤ
  pub min_items : Option ℤ
  pub max_items : Option ℤ

pub record ConditionDefinition : Type 0 where
  pub prompt_ref : PromptRef
  pub output : OutputDefinition
  pub exclusive_group : String

pub record SkillBinding : Type 0 where
  pub id : String
  pub prompt : String
  pub optional : Option Bool

pub record PromptDefinition : Type 0 where
  pub prompt : String
  pub skills : List SkillBinding

pub record Workflow : Type 0 where
  pub schema_version : ℕ
  pub id : String
  pub stages : List Stage
  pub flows : Dict (List FlowRoute)
  pub conditions : Dict ConditionDefinition
  pub loops : Dict (List LoopRoute)
  pub prompts : Dict PromptDefinition
  pub common_skills : List SkillBinding
  pub common_conditions : Dict ConditionDefinition
  pub step_start : Option CommonControlRoute
  pub jump : Option CommonControlRoute

pub record ContextRef : Type 0 where
  pub id : String
  pub name : String

pub record StepContext : Type 0 where
  pub stage : ContextRef
  pub job : ContextRef
  pub step : Step

-- The number of an output type in the generated enumeration; Go compares these.
unfoldable pub type_code : OutputType → ℕ
type_code unspecified = 0
type_code string = 1
type_code boolean = 2
type_code integer = 3
type_code path = 4
type_code url = 5
type_code url_list = 6
type_code enum_value = 7
type_code object = 8
type_code (unknown n) = n + 9

-- `When.Matches`: the conditions contain every id of some group.
unfoldable pub matches : When → List String → Bool
matches when conditions = any (λ group. all (λ id. contains id conditions) group) when.any_of

steps_of_jobs : List Job → List Step
steps_of_jobs [] = []
steps_of_jobs (job ∷ jobs) = job.steps ++ steps_of_jobs jobs

steps_of_stages : List Stage → List Step
unfolding steps_of_jobs
steps_of_stages [] = []
steps_of_stages (stage ∷ stages) = steps_of_jobs stage.jobs ++ steps_of_stages stages

unfoldable pub ordered_step_ids : Workflow → List String
unfolding steps_of_stages
ordered_step_ids w = map (λ s. s.id) (steps_of_stages w.stages)

-- The nested loops of `FindStep`: `at n` goes on with the position counter at n.
pub data Search : Type 0 where
  at : ℕ → Search
  hit : StepContext → ℕ → Search

find_in_steps : String → Stage → Job → ℕ → List Step → Search
find_in_steps id stage job position [] = at position
find_in_steps id stage job position (step ∷ steps) =
    if step.id == id
    then hit
        (record {
          stage = record { id = stage.id; name = stage.name };
          job = record { id = job.id; name = job.name };
          step = step;
        })
        position
    else find_in_steps id stage job (position + 1) steps

find_in_jobs : String → Stage → ℕ → List Job → Search
unfolding find_in_steps
find_in_jobs id stage position [] = at position
find_in_jobs id stage position (job ∷ jobs) = elim (find_in_steps id stage job position job.steps) [
  | at next ↦ find_in_jobs id stage next jobs
  | hit context found ↦ hit context found
]

find_in_stages : String → ℕ → List Stage → Search
unfolding find_in_jobs
find_in_stages id position [] = at position
find_in_stages id position (stage ∷ stages) = elim (find_in_jobs id stage position stage.jobs) [
  | at next ↦ find_in_stages id next stages
  | hit context found ↦ hit context found
]

found_step : Search → Option (StepContext × ℕ)
found_step (at position) = none
found_step (hit context position) = some (context, position)

unfoldable pub find_step : Workflow → String → Option (StepContext × ℕ)
unfolding find_in_stages found_step
find_step w id = found_step (find_in_stages id 0 w.stages)

-- The second result of `FindStep`, and whether there is one.
abbrev pub step_position : Workflow → String → Option ℕ
step_position w id = elim (find_step w id) [
  | none ↦ none
  | some (context, position) ↦ some position
]

unfoldable pub first_step_id : Workflow → Option String
unfolding ordered_step_ids
first_step_id w = elim (ordered_step_ids w) [ [] ↦ none | id ∷ ids ↦ some id ]

unfoldable pub condition : Workflow → String → Option ConditionDefinition
condition w id = lookup id w.conditions

abbrev pub flows_at : Workflow → String → List FlowRoute
flows_at w step_id = lookup_or [] step_id w.flows

abbrev pub loops_at : Workflow → String → List LoopRoute
loops_at w step_id = lookup_or [] step_id w.loops

-- `set[id] = true`
unfoldable pub add : String → List String → List String
unfolding contains
add id set = if contains id set then set else id ∷ set

add_all : List String → List String → List String
unfolding add
add_all [] seen = seen
add_all (id ∷ ids) seen = add_all ids (add id seen)

unfoldable pub collect_condition_ids : List (List String) → List String → List String
unfolding add_all
collect_condition_ids [] seen = seen
collect_condition_ids (group ∷ groups) seen = collect_condition_ids groups (add_all group seen)

collect_flows : List FlowRoute → List String → List String
unfolding collect_condition_ids
collect_flows [] seen = seen
collect_flows (route ∷ routes) seen =
    collect_flows routes (collect_condition_ids route.when.any_of seen)

collect_loops : List LoopRoute → List String → List String
unfolding collect_condition_ids
collect_loops [] seen = seen
collect_loops (route ∷ routes) seen =
    collect_loops routes (collect_condition_ids route.when.any_of seen)

unfoldable pub relevant_condition_ids : Workflow → String → List String
unfolding collect_flows collect_loops sort_strings lookup
relevant_condition_ids w step_id =
    sort_strings (collect_loops (loops_at w step_id) (collect_flows (flows_at w step_id) []))
