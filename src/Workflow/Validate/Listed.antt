-- ===== src/Workflow/Validate/Listed.antt =====
-- validateWorkflowTree of internal/workflow/validate.go against OrderedStepIDs: the step ids that it
-- notes are ids that the bundle lists.
use fanloop.Base.{
  ◌≡◌, ap, true, ◌||◌, List, [], ◌∷◌, ◌++◌, map, String, arith, contains, contains-append, ok,
  >>=-eq-ok, >>-eq-ok, guard-eq-ok, ok-injective, fold_each, is_empty,
}
use mathlib.Core.List.{map-append}
use fanloop.Workflow.{
  Step, Job, Stage, Workflow, add, steps_of_jobs, steps_of_stages, ordered_step_ids,
}
use fanloop.Workflow.Parts.{
  Tree, visit_step, visit_job, visit_stage, empty_tree, validate_workflow_tree, validate_step,
}

abbrev ids_of : List Step → List String
ids_of steps = map (λ s. s.id) steps

-- The ids of the later tree are those of the earlier one and of the steps.
abbrev Within : Tree → List Step → Tree → Type 0
Within t steps t' =
    (id : String)
    → contains id t'.step_ids ≡ true
    → (contains id t.step_ids || contains id (ids_of steps)) ≡ true

Within-append :
    (t t' t'' : Tree) (xs ys : List Step)
    → Within t xs t'
    → Within t' ys t''
    → Within t (xs ++ ys) t''
Within-append t t' t'' xs ys first later id found =
    rw (map-append (λ (s : Step). s.id) xs ys, contains-append id (ids_of xs) (ids_of ys))
      (ground (arith, later id found, first id))

visit_step-Within :
    (t : Tree) (step : Step) (t' : Tree) → visit_step t step ≡ ok t' → Within t (step ∷ []) t'
unfolding visit_step add contains
visit_step-Within t step t' h id found =
    let (valid, last) = >>-eq-ok (validate_step step t.step_ids) _ h in
    let same : add step.id t.step_ids ≡ t'.step_ids =
      ap (λ (t : Tree). t.step_ids) (ok-injective last) in
    ground (arith, same, found)

steps-Within :
    (t : Tree) (steps : List Step) (t' : Tree)
    → fold_each visit_step t steps ≡ ok t'
    → Within t steps t'
unfolding fold_each contains
steps-Within t [] t' h =
    λ id found. let same : t ≡ t' = ok-injective h in rw same (ground (arith, found))
steps-Within t (step ∷ steps) t' h =
    let (next, first, rest) = >>=-eq-ok (visit_step t step) (λ t. fold_each visit_step t steps) h in
    Within-append t next t' (step ∷ []) steps (visit_step-Within t step next first)
      (steps-Within next steps t' rest)

visit_job-Within :
    (t : Tree) (job : Job) (t' : Tree) → visit_job t job ≡ ok t' → Within t job.steps t'
unfolding visit_job
visit_job-Within t job t' h =
    let (fresh, rest) = guard-eq-ok _ fanloop.Workflow.Parts.bad_job _ h in
    steps-Within (record t { job_ids = add job.id t.job_ids }) job.steps t' rest

jobs-Within :
    (t : Tree) (jobs : List Job) (t' : Tree)
    → fold_each visit_job t jobs ≡ ok t'
    → Within t (steps_of_jobs jobs) t'
unfolding fold_each steps_of_jobs contains
jobs-Within t [] t' h =
    λ id found. let same : t ≡ t' = ok-injective h in rw same (ground (arith, found))
jobs-Within t (job ∷ jobs) t' h =
    let (next, first, rest) = >>=-eq-ok (visit_job t job) (λ t. fold_each visit_job t jobs) h in
    Within-append t next t' job.steps (steps_of_jobs jobs) (visit_job-Within t job next first)
      (jobs-Within next jobs t' rest)

visit_stage-Within :
    (t : Tree) (stage : Stage) (t' : Tree)
    → visit_stage t stage ≡ ok t'
    → Within t (steps_of_jobs stage.jobs) t'
unfolding visit_stage
visit_stage-Within t stage t' h =
    let (fresh, rest) = guard-eq-ok _ fanloop.Workflow.Parts.bad_stage _ h in
    jobs-Within (record t { stage_ids = add stage.id t.stage_ids }) stage.jobs t' rest

stages-Within :
    (t : Tree) (stages : List Stage) (t' : Tree)
    → fold_each visit_stage t stages ≡ ok t'
    → Within t (steps_of_stages stages) t'
unfolding fold_each steps_of_stages contains
stages-Within t [] t' h =
    λ id found. let same : t ≡ t' = ok-injective h in rw same (ground (arith, found))
stages-Within t (stage ∷ stages) t' h =
    let (next, first, rest) =
      >>=-eq-ok (visit_stage t stage) (λ t. fold_each visit_stage t stages) h in
    Within-append t next t' (steps_of_jobs stage.jobs) (steps_of_stages stages)
      (visit_stage-Within t stage next first) (stages-Within next stages t' rest)

pub validate_workflow_tree-listed :
    (w : Workflow) (t : Tree) (id : String)
    → validate_workflow_tree w ≡ ok t
    → contains id t.step_ids ≡ true
    → contains id (ordered_step_ids w) ≡ true
unfolding validate_workflow_tree ordered_step_ids contains
validate_workflow_tree-listed w t id h found =
    let (some_stage, rest) = guard-eq-ok (is_empty w.stages) fanloop.Workflow.Parts.no_stages _ h in
    ground (arith, stages-Within empty_tree w.stages t rest id found)
