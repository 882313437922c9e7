-- ===== src/Flow/Report/Conditions.antt =====
-- internal/flow/result.go against internal/state/model.go: the Result that the runtime evaluates is
-- one that the State package accepts. Here: the Conditions that are reported.
use fanloop.Base.{
  ℕ, ◌-◌, ◌≡◌, refl, sym, ap, ◌∙◌, true, false, List, [], ◌∷◌, ◌++◌, String, arith, eq_refl, nat_eq,
  if◌then◌else◌, is_none, ok, fold_each, fold_each_inv, fold_each-append, keys,
}
use fanloop.Base.Sorting.{sort_strings, sort_strings_idem}
use fanloop.Workflow.{
  OutputType, unspecified, string, boolean, integer, path, url, url_list, enum_value, object,
  unknown, type_code, Workflow, relevant_condition_ids, find_step,
}
use fanloop.State.{State, ConditionResult, texts_eq}
use fanloop.State.Results.{
  Accepting, accept_output, registered_outputs, condition_ids, validate_result_conditions,
}
use fanloop.Flow.{Reported, CheckedRequest}
use fanloop.Flow.Evaluate.{Outside, Evaluating, ResultEvaluation, evaluate_condition}
use fanloop.Flow.Evaluate.Rounds.{Round, evaluate_condition-Round, durable_result}
use fanloop.Flow.Evaluate.Tracked.{start_evaluating}
use fanloop.Flow.Report.{result_payload}

abbrev type_of_code : ℕ → OutputType
type_of_code n =
    if nat_eq n 0
    then unspecified
    else if nat_eq n 1
    then string
    else if nat_eq n 2
    then boolean
    else if nat_eq n 3
    then integer
    else if nat_eq n 4
    then path
    else if nat_eq n 5
    then url
    else if nat_eq n 6
    then url_list
    else if nat_eq n 7
    then enum_value
    else if nat_eq n 8
    then object
    else unknown (n - 9)

type_of_code-type_code : (a : OutputType) → type_of_code (type_code a) ≡ a
unfolding type_code
type_of_code-type_code unspecified = refl
type_of_code-type_code string = refl
type_of_code-type_code boolean = refl
type_of_code-type_code integer = refl
type_of_code-type_code path = refl
type_of_code-type_code url = refl
type_of_code-type_code url_list = refl
type_of_code-type_code enum_value = refl
type_of_code-type_code object = refl
type_of_code-type_code (unknown n) = ground arith

-- The generated enumeration tells the types apart.
type_code-injective : (a b : OutputType) → type_code a ≡ type_code b → a ≡ b
type_code-injective a b h =
    sym (type_of_code-type_code a) ∙ ap type_of_code h ∙ type_of_code-type_code b

texts_eq_refl : (xs : List String) → texts_eq xs xs ≡ true
unfolding texts_eq
texts_eq_refl [] = refl
texts_eq_refl (x ∷ xs) = ground (arith, eq_refl x, texts_eq_refl xs)

condition_ids-append :
    (xs ys : List ConditionResult) → condition_ids (xs ++ ys) ≡ condition_ids xs ++ condition_ids ys
condition_ids-append [] ys = refl
condition_ids-append (x ∷ xs) ys = ap (λ ids. x.condition_id ∷ ids) (condition_ids-append xs ys)

module _ (out : Outside) (w : Workflow) (current : State) (q : CheckedRequest) where
  abbrev accepting : Evaluating → Accepting out.parse w q.step_id
  accepting s = record { accepted = s.accepted; exclusive = s.exclusive }

  -- A round of the runtime's loop is a round of the loop of `registeredOutputs`.
  accept_output-Round :
      (relevant : List String) {s t : Evaluating} {r : Reported}
      (round : Round out w current q relevant s r t)
      → accept_output out.parse w q.step_id relevant
          (accepting s)
          (durable_result out w current q relevant r round.type)
        ≡ ok (accepting t)
  unfolding accept_output
  accept_output-Round relevant {s} {t} {r} round =
      let same =
        type_code-injective round.type round.definition.output.type
          (ground (arith, round.same_type)) in
      ground (
        arith, same, round.known, round.available, round.exclusive_free, round.same_type,
        round.valid, round.new_key, round.accepted, round.exclusive,
      )

  -- What the two loops have in common: they accept the same, with the ids in the same order.
  pub record Agrees (relevant : List String) (s : Evaluating) : Type 0 where
    pub accepts :
        fold_each
          (accept_output out.parse w q.step_id relevant)
          (record { accepted = []; exclusive = [] })
          s.durable
        ≡ ok (accepting s)
    pub same_ids : condition_ids s.durable ≡ s.condition_ids

  Round-Agrees :
      (relevant : List String) (s : Evaluating) (r : Reported) (t : Evaluating)
      → Agrees relevant s
      → evaluate_condition out w current q relevant s r ≡ ok t
      → Agrees relevant t
  unfolding fold_each
  Round-Agrees relevant s r t h e =
      let round = evaluate_condition-Round out w current q relevant s r t e in
      let step = accept_output out.parse w q.step_id relevant in
      let new = durable_result out w current q relevant r round.type ∷ [] in
      let accepted = accept_output-Round relevant round in
      record {
        accepts = rw round.durable (
            fold_each-append step (record { accepted = []; exclusive = [] }) s.durable new
            ∙ rw (h.accepts, accepted) refl);
        same_ids =
            rw (round.durable, round.condition_ids)
              (condition_ids-append s.durable new
                ∙ ap (λ ids. ids ++ r.condition_id ∷ []) h.same_ids);
      }

  pub evaluated-Agrees :
      (relevant : List String) (s : Evaluating)
      → fold_each (evaluate_condition out w current q relevant) start_evaluating q.results ≡ ok s
      → Agrees relevant s
  unfolding fold_each
  evaluated-Agrees relevant s e =
      fold_each_inv (Agrees relevant) (evaluate_condition out w current q relevant)
        (Round-Agrees relevant) start_evaluating q.results s
        (record { accepts = refl; same_ids = refl }) e

  -- The State package finds the same Conditions in the payload.
  pub validate_result_conditions-evaluated :
      (s : Evaluating) (e : ResultEvaluation)
      → is_none (find_step w q.step_id) ≡ false
      → Agrees (relevant_condition_ids w q.step_id) s
      → e.condition_results ≡ s.durable
      → e.accepted ≡ s.accepted
      → e.transition.from_step_id ≡ q.step_id
      → validate_result_conditions out.parse w (result_payload q e) ≡ ok s.condition_ids
  unfolding validate_result_conditions registered_outputs result_payload
  validate_result_conditions-evaluated s e known h results accepted from =
      rw
        (
          results,
          accepted,
          from,
          known,
          h.accepts,
          sort_strings_idem (keys s.accepted),
          texts_eq_refl (sort_strings (keys s.accepted)),
        )
        (ap ok h.same_ids)
