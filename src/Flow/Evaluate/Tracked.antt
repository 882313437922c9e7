-- ===== src/Flow/Evaluate/Tracked.antt =====
-- internal/flow/result.go: what the loop of `evaluateResult` over the ConditionResults keeps.
use fanloop.Base.{
  ◌≡◌, sym, ap, ◌∙◌, subst, ◌≢◌, ◌⊎◌, inl, inr, true, false, List, [], ◌∷◌, ◌++◌, String, arith,
  eq_iff, eq_refl, ok, fold_each, fold_each_inv, contains, contains-append,
}
use fanloop.Workflow.{Workflow, condition}
use fanloop.Workflow.Parts.{group_of}
use fanloop.Workflow.Validate.Ambiguity.{IsConsistent}
use fanloop.State.{State}
use fanloop.Flow.{Reported, CheckedRequest}
use fanloop.Flow.Evaluate.{Outside, Evaluating, evaluate_condition}
use fanloop.Flow.Evaluate.Rounds.{Round, evaluate_condition-Round}

-- The invariant of the loop over the ConditionResults: what is reported is consistent, and its
-- groups are noted.
pub record IsTracked (w : Workflow) (s : Evaluating) : Type 0 where
  pub consistent : IsConsistent w.conditions s.condition_ids
  pub noted :
      (a : String)
      → contains a s.condition_ids ≡ true
      → group_of w.conditions a ≢ ""
      → contains (group_of w.conditions a) s.exclusive ≡ true

abbrev pub start_evaluating : Evaluating
start_evaluating = record { condition_ids = []; exclusive = []; accepted = []; durable = [] }

start-IsTracked : (w : Workflow) → IsTracked w start_evaluating
unfolding contains
start-IsTracked w = record { consistent = λ a b h. absurd (cc h); noted = λ a h. absurd (cc h) }

contains-snoc :
    (a x : String) (xs : List String)
    → contains a (xs ++ x ∷ []) ≡ true
    → (contains a xs ≡ true) ⊎ (x ≡ a)
unfolding contains
contains-snoc a x xs h = ground (arith, contains-append a xs (x ∷ []), eq_iff x a)

module _ (out : Outside) (w : Workflow) (current : State) (q : CheckedRequest)
    (relevant : List String) where
  Round-group :
      {s t : Evaluating} {r : Reported} (round : Round out w current q relevant s r t)
      → group_of w.conditions r.condition_id ≡ round.definition.exclusive_group
  unfolding group_of condition
  Round-group round = ground (arith, round.known)

  -- A new Condition's group is not noted yet, and is noted then.
  Round-exclusive :
      {s t : Evaluating} {r : Reported}
      → Round out w current q relevant s r t
      → group_of w.conditions r.condition_id ≢ ""
      → (contains (group_of w.conditions r.condition_id) s.exclusive ≡ false)
        × (t.exclusive ≡ group_of w.conditions r.condition_id ∷ s.exclusive)
  Round-exclusive {s} {t} {r} round named =
      let group = group_of w.conditions r.condition_id in
      ground (
        arith,
        Round-group round,
        round.exclusive_free,
        round.exclusive,
        eq_iff round.definition.exclusive_group "",
      )

  Round-new :
      {s t : Evaluating} {r : Reported} (a b : String)
      → IsTracked w s
      → Round out w current q relevant s r t
      → contains a s.condition_ids ≡ true
      → r.condition_id ≡ b
      → group_of w.conditions a ≢ ""
      → group_of w.conditions a ≡ group_of w.conditions b
      → ⊥
  Round-new a b h round old new named same =
      let free =
        (Round-exclusive round (λ e. named (same ∙ sym (ap (group_of w.conditions) new) ∙ e))).0 in
      let noted = h.noted a old named in cc (free, noted, same, ap (group_of w.conditions) new)

  Round-IsConsistent :
      (s : Evaluating) (r : Reported) (t : Evaluating)
      → IsTracked w s
      → Round out w current q relevant s r t
      → IsConsistent w.conditions t.condition_ids
  Round-IsConsistent s r t h round a b in_a in_b named same =
      let split = λ (c : String) (i : contains c t.condition_ids ≡ true).
        contains-snoc c r.condition_id s.condition_ids
          (subst (λ ids. contains c ids ≡ true) round.condition_ids i) in
      elim (split a in_a) [
        | inl old_a ↦ elim (split b in_b) [
          | inl old_b ↦ h.consistent a b old_a old_b named same
          | inr new_b ↦ absurd (Round-new a b h round old_a new_b named same)
        ]
        | inr new_a ↦ elim (split b in_b) [
          | inl old_b ↦
              absurd (Round-new b a h round old_b new_a (λ e. named (same ∙ e)) (sym same))
          | inr new_b ↦ sym new_a ∙ new_b
        ]
      ]

  Round-noted :
      (s : Evaluating) (r : Reported) (t : Evaluating)
      → IsTracked w s
      → Round out w current q relevant s r t
      → (a : String) → contains a t.condition_ids ≡ true
      → group_of w.conditions a ≢ ""
      → contains (group_of w.conditions a) t.exclusive ≡ true
  unfolding contains
  Round-noted s r t h round a in_a named =
      elim (contains-snoc a r.condition_id s.condition_ids
        (subst (λ ids. contains a ids ≡ true) round.condition_ids in_a)) [
          | inl old ↦ let noted = h.noted a old named in rw round.exclusive (ground (arith, noted))
          | inr new ↦
              let extended =
                (Round-exclusive round (λ e. named (sym (ap (group_of w.conditions) new) ∙ e))).1 in
              rw (extended, new) (ground (arith, eq_refl (group_of w.conditions a)))
        ]

  Round-IsTracked :
      (s : Evaluating) (r : Reported) (t : Evaluating)
      → IsTracked w s
      → evaluate_condition out w current q relevant s r ≡ ok t
      → IsTracked w t
  Round-IsTracked s r t h e =
      let round = evaluate_condition-Round out w current q relevant s r t e in
      record { consistent = Round-IsConsistent s r t h round; noted = Round-noted s r t h round }

  pub evaluate_condition-IsTracked :
      (t : Evaluating)
      → fold_each (evaluate_condition out w current q relevant) start_evaluating q.results ≡ ok t
      → IsTracked w t
  evaluate_condition-IsTracked t e =
      fold_each_inv (IsTracked w) (evaluate_condition out w current q relevant) Round-IsTracked
        start_evaluating q.results t (start-IsTracked w) e
