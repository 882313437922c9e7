-- ===== src/Workflow/Positions.antt =====
-- FindStep and OrderedStepIDs of internal/workflow/model.go agree on where a step stands.
use fanloop.Base.{
  ℕ, suc, ◌+◌, ◌≡◌, refl, sym, ap, inl, inr, Option, none, some, List, [], ◌∷◌, ◌++◌, map, String,
  arith, ◌==◌, eq_iff, if◌then◌else◌, Bool-cases, length, length-append,
}
use mathlib.Core.List.{map-append}
use fanloop.Workflow.{
  Step, Job, Stage, StepContext, Workflow, Search, at, hit, find_in_steps, find_in_jobs,
  find_in_stages, found_step, find_step, step_position, steps_of_jobs, steps_of_stages,
  ordered_step_ids,
}

-- The index of the first occurrence of a text, counted from n.
abbrev pub index_from : ℕ → String → List String → Option ℕ
index_from n a [] = none
index_from n a (x ∷ xs) = if x == a then some n else index_from (n + 1) a xs

-- A result of the search from position n over steps with these ids.
abbrev Agrees : String → ℕ → List String → Search → Type 0
Agrees id n ids (at m) = (index_from n id ids ≡ none) × (m ≡ n + length ids)
Agrees id n ids (hit context i) = (index_from n id ids ≡ some i) × (context.step.id ≡ id)

index_from-append :
    (n : ℕ) (a : String) (xs ys : List String)
    → index_from n a (xs ++ ys) ≡ elim (index_from n a xs) as (λ o. Option ℕ) [
      | none ↦ index_from (n + length xs) a ys
      | some i ↦ some i
    ]
index_from-append n a [] ys = ap (λ k. index_from k a ys) (omega arith)
index_from-append n a (x ∷ xs) ys =
    let e : n + 1 + length xs ≡ n + suc (length xs) = omega arith in
    ground (arith, index_from-append (n + 1) a xs ys, ap (λ k. index_from k a ys) e)

Agrees-later :
    (id : String) (n m : ℕ) (xs ys : List String) (s : Search)
    → Agrees id n xs (at m)
    → Agrees id m ys s
    → Agrees id n (xs ++ ys) s
Agrees-later id n m xs ys (at k) (missed, there) (h, e) = (
  rw (index_from-append n id xs ys, missed) (rw (← there) h),
  omega (arith, there, e, length-append xs ys),
)
Agrees-later id n m xs ys (hit c i) (missed, there) (h, e) =
    (rw (index_from-append n id xs ys, missed) (rw (← there) h), e)

Agrees-earlier :
    (id : String) (n i : ℕ) (c : StepContext) (xs ys : List String)
    → Agrees id n xs (hit c i)
    → Agrees id n (xs ++ ys) (hit c i)
Agrees-earlier id n i c xs ys (found, e) = (rw (index_from-append n id xs ys, found) refl, e)

find_in_steps-Agrees :
    (id : String) (stage : Stage) (job : Job) (n : ℕ) (steps : List Step)
    → Agrees id n (map (λ s. s.id) steps) (find_in_steps id stage job n steps)
unfolding find_in_steps
find_in_steps-Agrees id stage job n [] = (refl, omega arith)
find_in_steps-Agrees id stage job n (step ∷ steps) = elim (Bool-cases (step.id == id)) [
  | inl same ↦ rw same (rw same refl, (eq_iff step.id id).0 same)
  | inr other ↦ rw other (
      Agrees-later id n (n + 1) (step.id ∷ []) (map (λ s. s.id) steps)
        (find_in_steps id stage job (n + 1) steps) (rw other refl, omega arith)
        (find_in_steps-Agrees id stage job (n + 1) steps))
]

find_in_jobs-Agrees :
    (id : String) (stage : Stage) (n : ℕ) (jobs : List Job)
    → Agrees id n (map (λ s. s.id) (steps_of_jobs jobs)) (find_in_jobs id stage n jobs)
unfolding find_in_jobs steps_of_jobs
find_in_jobs-Agrees id stage n [] = (refl, omega arith)
find_in_jobs-Agrees id stage n (job ∷ jobs) = rw (map-append _ job.steps (steps_of_jobs jobs)) (
    go (find_in_steps id stage job n job.steps) (find_in_steps-Agrees id stage job n job.steps)
      (λ m. find_in_jobs-Agrees id stage m jobs))
  where
    go :
        (s : Search)
        → Agrees id n (map (λ s. s.id) job.steps) s
        → ((m : ℕ)
            → Agrees id m (map (λ s. s.id) (steps_of_jobs jobs)) (find_in_jobs id stage m jobs))
        → Agrees id n (map (λ s. s.id) job.steps ++ map (λ s. s.id) (steps_of_jobs jobs)) (elim s [
          | at next ↦ find_in_jobs id stage next jobs
          | hit context found ↦ hit context found
        ])
    go (at m) a rest = Agrees-later id n m _ _ _ a (rest m)
    go (hit c i) a rest = Agrees-earlier id n i c _ _ a

find_in_stages-Agrees :
    (id : String) (n : ℕ) (stages : List Stage)
    → Agrees id n (map (λ s. s.id) (steps_of_stages stages)) (find_in_stages id n stages)
unfolding find_in_stages steps_of_stages
find_in_stages-Agrees id n [] = (refl, omega arith)
find_in_stages-Agrees id n (stage ∷ stages) =
    rw (map-append _ (steps_of_jobs stage.jobs) (steps_of_stages stages)) (
      go (find_in_jobs id stage n stage.jobs) (find_in_jobs-Agrees id stage n stage.jobs)
        (λ m. find_in_stages-Agrees id m stages))
  where
    go :
        (s : Search)
        → Agrees id n (map (λ s. s.id) (steps_of_jobs stage.jobs)) s
        → ((m : ℕ)
            → Agrees id m (map (λ s. s.id) (steps_of_stages stages)) (find_in_stages id m stages))
        → Agrees id n
            (map (λ s. s.id) (steps_of_jobs stage.jobs) ++ map (λ s. s.id) (steps_of_stages stages))
            (elim s [
              | at next ↦ find_in_stages id next stages
              | hit context found ↦ hit context found
            ])
    go (at m) a rest = Agrees-later id n m _ _ _ a (rest m)
    go (hit c i) a rest = Agrees-earlier id n i c _ _ a

-- FindStep returns the position of the first step with the given id in OrderedStepIDs, and fails
-- exactly when there is none; the step that it returns has the given id.
pub find_step-position :
    (w : Workflow) (id : String)
    → (step_position w id ≡ index_from 0 id (ordered_step_ids w))
      × ((context : StepContext) (position : ℕ)
          → find_step w id ≡ some (context, position)
          → context.step.id ≡ id)
unfolding find_step ordered_step_ids
find_step-position w id = go (find_in_stages id 0 w.stages) (find_in_stages-Agrees id 0 w.stages)
  where
    go :
        (s : Search)
        → Agrees id 0 (map (λ s. s.id) (steps_of_stages w.stages)) s
        → ((elim (found_step s) as (λ o. Option ℕ) [
          | none ↦ none
          | some (context, position) ↦ some position
        ])
            ≡ index_from 0 id (map (λ s. s.id) (steps_of_stages w.stages)))
          × ((context : StepContext) (position : ℕ)
              → found_step s ≡ some (context, position)
              → context.step.id ≡ id)
    go (at m) a = (sym a.0, λ c p e. cc)
    go (hit c i) a = (sym a.0, λ c' p e. cc)
