-- ===== src/State/History/Cursor.antt =====
-- internal/state/model.go, ValidateHistory: the cursor of the replayed State against the current one.
use fanloop.Base.{
  ◌≡◌, refl, sym, ap, ◌∙◌, inl, inr, true, false, ◌&&◌, none, some, String, arith, ◌==◌, eq_iff,
  eq_refl, if◌then◌else◌, Bool-cases, is_some, Option-cases,
}
use fanloop.Workflow.{Workflow}
use fanloop.State.{
  State, StepStatus, unset, awaiting_confirmation, status_eq, status_text, entries, state_ref,
  step_state_pointer, same_historical_cursor, equal_optional_step_state,
}
use fanloop.State.History.{Replay, settle, cursor_of, cursor_status_is}

status_eq-awaiting :
    (a b : StepStatus)
    → status_eq a b ≡ true
    → status_eq b awaiting_confirmation ≡ false
    → status_eq a awaiting_confirmation ≡ false
unfolding status_eq
status_eq-awaiting a b same live = ground (arith, eq_iff (status_text a) (status_text b))

cursor_of-none : (s : State) → s.current_step_id ≡ none → cursor_of s ≡ none
unfolding step_state_pointer state_ref status_eq
cursor_of-none s missing = rw missing refl

pub cursor_of-some :
    (s : State) (id : String)
    → s.current_step_id ≡ some id
    → cursor_of s ≡ (
        if id == "" && status_eq s.current_step_status unset
        then none
        else some (record { step_id = id; status = s.current_step_status }))
unfolding step_state_pointer state_ref
cursor_of-some s id there = rw there refl

-- Two States with equal cursors are at one step, in one status.
same_cursor :
    (x s : State) (id : String)
    → equal_optional_step_state (cursor_of x) (cursor_of s) ≡ true
    → s.current_step_id ≡ some id
    → id == "" ≡ false
    → (x.current_step_id ≡ some id) × (status_eq x.current_step_status s.current_step_status ≡ true)
unfolding equal_optional_step_state
same_cursor x s id same current named =
    let at_s = cursor_of-some s id current in
    elim (Option-cases x.current_step_id) [
      | inl missing ↦
          let at_x = cursor_of-none x missing in absurd (ground (arith, same, at_s, at_x, named))
      | inr (j, there) ↦
          let at_x = cursor_of-some x j there in
          let is_id : j ≡ id = ground (arith, same, at_s, at_x, named, eq_iff j id) in
          (there ∙ ap some is_id, ground (arith, same, at_s, at_x, named))
    ]

pub settle-keeps :
    (w : Workflow) (r : Replay)
    → ((settle w r).current_step_id ≡ r.state.current_step_id)
      × (entries (settle w r) ≡ entries r.state)
      × ((settle w r).skipped_step_ids ≡ r.state.skipped_step_ids)
unfolding settle entries
settle-keeps w r =
    elim (Bool-cases
      (is_some r.state.current_step_id && status_eq r.state.current_step_status unset)) [
        | inl pending ↦ rw pending (refl, refl, refl)
        | inr settled ↦ rw settled (refl, refl, refl)
      ]

-- The replayed cursor allows the progress that the current one allows.
pub cursor_allows :
    (w : Workflow) (r : Replay) (s : State) (id : String)
    → equal_optional_step_state (cursor_of (settle w r)) (cursor_of s) ≡ true
    → s.current_step_id ≡ some id
    → id == "" ≡ false
    → status_eq s.current_step_status awaiting_confirmation ≡ false
    → (same_historical_cursor (cursor_of r.state) id s.current_step_status ≡ true)
      × (cursor_status_is awaiting_confirmation (cursor_of r.state) ≡ false)
unfolding settle same_historical_cursor status_eq
cursor_allows w r s id same current named live =
    let (there, status) = same_cursor (settle w r) s id same current named in
    let here : r.state.current_step_id ≡ some id = sym (settle-keeps w r).0 ∙ there in
    let at_r = cursor_of-some r.state id here in
    elim (Bool-cases (status_eq r.state.current_step_status unset)) [
      | inl pending ↦ (
        rw (at_r, named) (ground (arith, eq_refl id, pending)),
        rw (at_r, named) (status_eq-awaiting r.state.current_step_status unset pending refl),
      )
      | inr settled ↦
          let equal : status_eq r.state.current_step_status s.current_step_status ≡ true =
            ground (arith, status, here, settled) in
          (
            rw (at_r, named) (ground (arith, eq_refl id, equal)),
            rw (at_r, named)
                (status_eq-awaiting r.state.current_step_status s.current_step_status equal live),
          )
    ]
