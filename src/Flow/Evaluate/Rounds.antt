-- ===== src/Flow/Evaluate/Rounds.antt =====
-- internal/flow/result.go: what one accepted round of the loop over the ConditionResults of
-- `evaluateResult` establishes.
use fanloop.Base.{
  ◌≡◌, refl, true, false, not, ◌&&◌, Option, none, some, List, [], ◌∷◌, ◌++◌, String, arith, ◌==◌,
  nat_eq, if◌then◌else◌, is_some, ok, is_ok, guard-eq-ok, contains, lookup, insert,
}
use fanloop.Workflow.{OutputType, type_code, ConditionDefinition, Workflow, condition}
use fanloop.Workflow.Output.{validate_output}
use fanloop.State.{State, ConditionResult}
use fanloop.Flow.{Reported, CheckedRequest, durable_output_type}
use fanloop.Flow.Evaluate.{
  Outside, Evaluating, accept_reported, accept_typed, accept_found, evaluate_condition,
}

module _ (out : Outside) (w : Workflow) (current : State) (q : CheckedRequest)
    (relevant : List String) where
  abbrev pub durable_result : Reported → OutputType → ConditionResult
  durable_result r type = record {
    condition_id = r.condition_id;
    output = record { type = type; value = r.raw };
  }

  pub record Round (s : Evaluating) (r : Reported) (t : Evaluating) : Type 0 where
    pub definition : ConditionDefinition
    pub type : OutputType
    pub known : condition w r.condition_id ≡ some definition
    pub unreported : contains r.condition_id s.condition_ids ≡ false
    pub available : contains r.condition_id relevant ≡ true
    pub exclusive_free :
        (not (definition.exclusive_group == "") && contains definition.exclusive_group s.exclusive)
        ≡ false
    pub durable_type : durable_output_type r.type ≡ some type
    pub same_type : nat_eq (type_code type) (type_code definition.output.type) ≡ true
    pub valid : is_ok (validate_output out.parse definition.output r.raw) ≡ true
    pub new_key : is_some (lookup definition.output.key s.accepted) ≡ false
    pub condition_ids : t.condition_ids ≡ s.condition_ids ++ r.condition_id ∷ []
    pub exclusive : t.exclusive ≡ (
        if definition.exclusive_group == ""
        then s.exclusive
        else definition.exclusive_group ∷ s.exclusive)
    pub accepted :
        t.accepted
        ≡ insert definition.output.key
            (record { type = type; value = r.raw; producer_step_id = q.step_id })
            s.accepted
    pub durable : t.durable ≡ s.durable ++ durable_result r type ∷ []

  accept_found-some :
      (s : Evaluating) (r : Reported) (o : Option ConditionDefinition) {t : Evaluating}
      → accept_found out current q relevant s r o ≡ ok t
      → (c : ConditionDefinition) × (o ≡ some c)
        × (contains r.condition_id relevant ≡ true)
        × ((not (c.exclusive_group == "") && contains c.exclusive_group s.exclusive) ≡ false)
        × (accept_typed out current q c s r (durable_output_type r.type) ≡ ok t)
  unfolding accept_found
  accept_found-some s r none h = absurd (cc h)
  accept_found-some s r (some c) h = (c, refl, ground arith, ground arith, ground arith)

  accept_typed-some :
      (c : ConditionDefinition) (s : Evaluating) (r : Reported) (o : Option OutputType)
      {t : Evaluating}
      → accept_typed out current q c s r o ≡ ok t
      → (type : OutputType) × (o ≡ some type) × (accept_reported out current q c type s r ≡ ok t)
  unfolding accept_typed
  accept_typed-some c s r none h = absurd (cc h)
  accept_typed-some c s r (some type) h = (type, refl, h)

  accept_reported-eq-ok :
      (c : ConditionDefinition) (type : OutputType) (s : Evaluating) (r : Reported) {t : Evaluating}
      → accept_reported out current q c type s r ≡ ok t
      → (nat_eq (type_code type) (type_code c.output.type) ≡ true)
        × (is_ok (validate_output out.parse c.output r.raw) ≡ true)
        × (is_some (lookup c.output.key s.accepted) ≡ false)
        × (t ≡ record {
          condition_ids = s.condition_ids ++ r.condition_id ∷ [];
          exclusive =
              (if c.exclusive_group == "" then s.exclusive else c.exclusive_group ∷ s.exclusive);
          accepted =
              insert c.output.key
                (record { type = type; value = r.raw; producer_step_id = q.step_id })
                s.accepted;
          durable = s.durable ++ durable_result r type ∷ [];
        })
  unfolding accept_reported
  accept_reported-eq-ok c type s r h = (ground arith, ground arith, ground arith, ground arith)

  -- Every round of the loop that returns no error is such a round.
  pub evaluate_condition-Round :
      (s : Evaluating) (r : Reported) (t : Evaluating)
      → evaluate_condition out w current q relevant s r ≡ ok t
      → Round s r t
  unfolding evaluate_condition
  evaluate_condition-Round s r t h =
      let (unreported, h1) = guard-eq-ok _ _ _ h in
      let (c, known, available, free, h2) = accept_found-some s r (condition w r.condition_id) h1 in
      let (type, typed, h3) = accept_typed-some c s r (durable_output_type r.type) h2 in
      let (same, valid, new_key, made) = accept_reported-eq-ok c type s r h3 in
      record {
        definition = c;
        type = type;
        known = known;
        unreported = unreported;
        available = available;
        exclusive_free = free;
        durable_type = typed;
        same_type = same;
        valid = valid;
        new_key = new_key;
        condition_ids = ground (arith, made);
        exclusive = ground (arith, made);
        accepted = ground (arith, made);
        durable = ground (arith, made);
      }
