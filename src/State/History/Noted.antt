-- ===== src/State/History/Noted.antt =====
-- internal/state/model.go, the loop of ValidateHistory: the ids and the times of the Events that it has
-- seen.
use fanloop.Base.{
  ℕ, ◌≡◌, subst, inl, inr, false, some, List, [], ◌∷◌, String, arith, ◌==◌, ltb, ok, fold_each,
  Result-cases, >>=-eq-ok, ok-injective, All, contains,
}
use fanloop.Workflow.{Workflow}
use fanloop.Workflow.Output.{UrlParser}
use fanloop.State.{
  TraceBinding, State, StepStatus, unset, awaiting_confirmation, StepState, FlowProgressPayload,
  flow_progress, Evidence, Event, EventKind, progressed, initialized, result, document_bound,
  other_effect, status_eq, status_code, status_text, texts_eq, evidence_lists_eq, evidence_eq,
  source_text, entries, state_ref, step_state_pointer, same_historical_cursor,
  equal_optional_step_state,
}
use fanloop.State.Results.{apply_flow_result}
use fanloop.State.History
use fanloop.State.History.{
  Replay, HistoryError, replay_start, replay_event, replay_kind, replay, replay_initialized,
  replay_progressed, replay_result, replay_bound, follows, validate_event_against, settle,
  tail_matches, cursor_of, cursor_status_is, outputs_eq, binding_matches, is_last, validate_history,
  replay_status,
}

module _ (parse : UrlParser) (w : Workflow) where
  replay_result-seen :
      (r : Replay) (e : Event) (t : Replay) → replay_result parse w r e ≡ ok t → t.seen ≡ r.seen
  unfolding replay_result
  replay_result-seen r e t h =
      elim (Result-cases (
        apply_flow_result parse w r.state (fanloop.State.History.as_result e.payload)
          (replay_status w (fanloop.State.History.as_result e.payload).effect))) [
            | inl (next, applied) ↦ ground (arith, applied, h)
            | inr (c, failed) ↦ absurd (ground (arith, failed, h))
          ]

  replay_kind-seen :
      (r : Replay) (e : Event) (t : Replay) → replay_kind parse w r e ≡ ok t → t.seen ≡ r.seen
  unfolding replay_kind replay_initialized replay_progressed replay_bound
  replay_kind-seen r e t h = ground (arith, replay_result-seen r e t)

  -- What a round notes of its Event.
  pub replay_event-notes :
      (bound : String) (r : Replay) (e : Event) (t : Replay)
      → replay_event parse w bound r e ≡ ok t
      → (t.seen ≡ e.id ∷ r.seen) × (t.previous ≡ some e)
  unfolding replay_event
  replay_event-notes bound r e t h = elim (Result-cases (replay_kind parse w r e)) [
    | inl (next, done) ↦
        (ground (arith, done, replay_kind-seen r e next done, h), ground (arith, done, h))
    | inr (c, failed) ↦ absurd (ground (arith, failed, h))
  ]

  -- The Events so far have other ids than the new one and are not later.
  abbrev pub IsEarlier : String → ℕ → Event → Type 0
  IsEarlier id now e = (e.id == id ≡ false) × (ltb now e.occurred_at ≡ false)

  -- What the loop keeps of that.
  pub record IsOpen (id : String) (now : ℕ) (r : Replay) : Type 0 where
    pub fresh : contains id r.seen ≡ false
    pub in_order : (e : Event) → r.previous ≡ some e → ltb now e.occurred_at ≡ false

  pub replay-IsOpen :
      (id : String) (now : ℕ) (bound : String) (r : Replay) (events : List Event) (t : Replay)
      → All (IsEarlier id now) events
      → IsOpen id now r
      → replay parse w bound r events ≡ ok t
      → IsOpen id now t
  unfolding replay fold_each contains
  replay-IsOpen id now bound r [] t earlier free h = subst (IsOpen id now) (ok-injective h) free
  replay-IsOpen id now bound r (e ∷ events) t earlier free h =
      let (next, first, rest) =
        >>=-eq-ok (replay_event parse w bound r e)
          (λ s. fold_each (replay_event parse w bound) s events) h in
      let (seen, previous) = replay_event-notes bound r e next first in
      let open_next : IsOpen id now next = record {
        fresh = rw seen (ground (arith, earlier.0.0, free.fresh));
        in_order = λ x same.
            let is_x : e ≡ x = cc (previous, same) in
            subst (λ (y : Event). ltb now y.occurred_at ≡ false) is_x earlier.0.1;
      } in
      replay-IsOpen id now bound next events t earlier.1 open_next rest
