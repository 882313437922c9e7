-- ===== src/State/History/Extended.antt =====
-- internal/state/model.go, ValidateHistory: what one more progress Event does to a history that is
-- accepted.
use fanloop.Base.{
  ℕ, ◌≡◌, refl, ap, ◌∙◌, subst, inl, inr, true, false, not, ◌||◌, Option, none, some, List, [], ◌∷◌,
  ◌++◌, String, arith, ◌==◌, eq_iff, eq_refl, is_none, Option-cases, ok, fold_each, Result-cases,
  fold_each-append, is_empty, All, contains,
}
use fanloop.Workflow.{Workflow, find_step}
use fanloop.Workflow.Output.{UrlParser}
use fanloop.State.{
  TraceBinding, State, StepStatus, unset, awaiting_confirmation, FlowProgressPayload, flow_progress,
  Evidence, Event, progressed, other_effect, status_eq, status_text, texts_eq, evidence_lists_eq,
  evidence_eq, source_text, entries, equal_optional_step_state,
}
use fanloop.State.History.{
  Replay, replay_start, replay_event, replay_kind, replay, replay_progressed, follows,
  validate_event_against, settle, tail_matches, cursor_of, outputs_eq, binding_matches, is_last,
  validate_history,
}
use fanloop.State.History.Noted.{IsEarlier, IsOpen, replay-IsOpen}
use fanloop.State.History.Cursor.{cursor_of-some, settle-keeps, cursor_allows}

module _ (parse : UrlParser) (w : Workflow) where
  validate_history-eq-ok :
      (events : List Event) (s : State)
      → validate_history parse w events s ≡ ok tt
      → (r : Replay) × (replay parse w s.release.workflow replay_start events ≡ ok r)
        × (tail_matches (settle w r) s ≡ true)
        × (binding_matches r s.trace ≡ true)
        × (is_last r.previous s.last_event_id ≡ true)
  unfolding validate_history
  validate_history-eq-ok events s h =
      elim (Result-cases (replay parse w s.release.workflow replay_start events)) [
        | inl (r, done) ↦
            (r, done, ground (arith, done, h), ground (arith, done, h), ground (arith, done, h))
        | inr (c, failed) ↦ absurd (ground (arith, failed, h))
      ]

evidence_eq_refl : (x : Evidence) → evidence_eq x x ≡ true
unfolding evidence_eq
evidence_eq_refl x =
    ground (arith, eq_refl x.content, eq_refl x.ref, eq_refl (source_text x.source))

evidence_lists_eq_refl : (xs : List Evidence) → evidence_lists_eq xs xs ≡ true
unfolding evidence_lists_eq
evidence_lists_eq_refl [] = refl
evidence_lists_eq_refl (x ∷ xs) = ground (arith, evidence_eq_refl x, evidence_lists_eq_refl xs)

status_eq_refl : (a : StepStatus) → status_eq a a ≡ true
unfolding status_eq
status_eq_refl a = ground (arith, eq_refl (status_text a))

-- What makes an Event the progress from a State to the next: it stands at the step with this id.
pub record IsProgress (w : Workflow) (s : State) (id : String) (e : Event) (p : FlowProgressPayload)
    (next : State) : Type 0 where
  pub kind : e.kind ≡ progressed
  pub payload : e.payload ≡ flow_progress p
  pub workflow : e.workflow ≡ s.release.workflow
  pub cause : e.caused_by_event_id ≡ s.last_event_id
  pub current : s.current_step_id ≡ some id
  pub named : id == "" ≡ false
  pub known : is_none (find_step w id) ≡ false
  pub live : status_eq s.current_step_status awaiting_confirmation ≡ false
  pub from : p.from_step_id ≡ id
  pub from_status : p.from_step_status ≡ s.current_step_status
  pub to_status : status_eq p.to_step_status unset ≡ false
  pub moved :
      (next.current_step_id ≡ some id)
      × (next.current_step_status ≡ p.to_step_status)
      × (next.current_step_summary ≡ p.summary)
      × (next.current_evidence ≡ p.evidence)
  pub kept :
      (next.outputs ≡ s.outputs)
      × (next.skipped_step_ids ≡ s.skipped_step_ids)
      × (next.trace ≡ s.trace)
      × (next.release ≡ s.release)
  pub last : next.last_event_id ≡ e.id

-- The replay after the Event.
abbrev after : Replay → Event → FlowProgressPayload → Replay
after r e p = record r {
  state = record (r.state) {
    current_step_id = some p.from_step_id;
    current_step_status = p.to_step_status;
    current_step_summary = p.summary;
    current_evidence = p.evidence;
  };
  pending = other_effect "";
  seen = e.id ∷ r.seen;
  previous = some e;
}

module _ (parse : UrlParser) (w : Workflow) (r : Replay) (s : State) (id : String) (e : Event)
    (p : FlowProgressPayload) (next : State) (progress : IsProgress w s id e p next)
    (free : IsOpen parse w e.id e.occurred_at r) (last : is_last r.previous s.last_event_id ≡ true)
    (tail : tail_matches (settle w r) s ≡ true) where
  follows-progress : follows r.previous e ≡ ok tt
  unfolding follows is_last
  follows-progress = elim (Option-cases r.previous) [
    | inl missing ↦ absurd (ground (arith, missing, last))
    | inr (previous, there) ↦ ground (
      arith,
      there,
      last,
      progress.cause,
      free.in_order previous there,
      eq_iff s.last_event_id previous.id,
      eq_iff e.caused_by_event_id previous.id,
    )
  ]

  replay_kind-progress :
      replay_kind parse w r e ≡ ok (record (after r e p) { seen = r.seen; previous = r.previous })
  unfolding replay_kind replay_progressed tail_matches
  replay_kind-progress =
      let (same, quiet) =
        cursor_allows w r s id (ground (arith, tail)) progress.current progress.named
          progress.live in
      rw (progress.kind, progress.payload, progress.from, progress.from_status, same, quiet) refl

  validate_event_against-progress : validate_event_against parse w false e ≡ ok tt
  unfolding validate_event_against
  validate_event_against-progress =
      rw (progress.kind, progress.payload, progress.from, progress.known) refl

  replay_event-progress : replay_event parse w s.release.workflow r e ≡ ok (after r e p)
  unfolding replay_event
  replay_event-progress =
      let guard : (contains e.id r.seen || not (e.workflow == s.release.workflow)) ≡ false =
        ground (arith, free.fresh, progress.workflow, eq_iff e.workflow s.release.workflow) in
      rw (guard, follows-progress, validate_event_against-progress, replay_kind-progress) refl

  cursor-progress :
      equal_optional_step_state (cursor_of (after r e p).state) (cursor_of next) ≡ true
  unfolding equal_optional_step_state
  cursor-progress =
      let at_next = cursor_of-some next id progress.moved.0 in
      let at_after = cursor_of-some (after r e p).state id (ap some progress.from) in
      rw (at_after, at_next, progress.named, progress.moved.1)
        (ground (arith, eq_refl id, status_eq_refl p.to_step_status))

  outputs-progress : outputs_eq (entries (after r e p).state) (entries next) ≡ true
  unfolding tail_matches entries
  outputs-progress =
      let before : outputs_eq (entries (settle w r)) (entries s) ≡ true = ground (arith, tail) in
      let same : entries next ≡ entries s = rw progress.kept.0 refl in
      rw same (subst (λ m. outputs_eq m (entries s) ≡ true) (settle-keeps w r).1 before)

  skipped-progress : texts_eq (after r e p).state.skipped_step_ids next.skipped_step_ids ≡ true
  unfolding tail_matches
  skipped-progress =
      let before : texts_eq (settle w r).skipped_step_ids s.skipped_step_ids ≡ true =
        ground (arith, tail) in
      rw progress.kept.1
        (subst (λ ids. texts_eq ids s.skipped_step_ids ≡ true) (settle-keeps w r).2 before)

  settled-progress : settle w (after r e p) ≡ (after r e p).state
  unfolding settle
  settled-progress = rw progress.to_status refl

  tail-progress : tail_matches (settle w (after r e p)) next ≡ true
  unfolding tail_matches
  tail-progress =
      let summary : p.summary == next.current_step_summary ≡ true =
        rw progress.moved.2 (eq_refl p.summary) in
      let evidence : evidence_lists_eq p.evidence next.current_evidence ≡ true =
        rw progress.moved.3 (evidence_lists_eq_refl p.evidence) in
      rw settled-progress
        (ground (arith, cursor-progress, summary, evidence, outputs-progress, skipped-progress))

start-IsOpen :
    (parse : UrlParser) (w : Workflow) (id : String) (now : ℕ) → IsOpen parse w id now replay_start
unfolding contains
start-IsOpen parse w id now = record { fresh = refl; in_order = λ x f. absurd (cc f) }

is_empty-snoc : (events : List Event) (e : Event) → is_empty (events ++ e ∷ []) ≡ false
is_empty-snoc [] e = refl
is_empty-snoc (x ∷ events) e = refl

binding_matches-after :
    (r : Replay) (e : Event) (p : FlowProgressPayload) (binding : Option TraceBinding)
    → binding_matches (after r e p) binding ≡ binding_matches r binding
unfolding binding_matches
binding_matches-after r e p none = refl
binding_matches-after r e p (some b) = refl

-- A history that ValidateHistory accepts for a State stays accepted, for the next State, when the
-- Event of a progress is appended that has a new id and is not earlier.
pub validate_history-IsProgress :
    (parse : UrlParser) (w : Workflow) (events : List Event) (s : State) (id : String) (e : Event)
    (p : FlowProgressPayload) (next : State)
    → validate_history parse w events s ≡ ok tt
    → All (IsEarlier parse w e.id e.occurred_at) events
    → IsProgress w s id e p next
    → validate_history parse w (events ++ e ∷ []) next ≡ ok tt
unfolding validate_history replay fold_each is_last
validate_history-IsProgress parse w events s id e p next h earlier progress =
    let (r, replayed, tail, bound, last) = validate_history-eq-ok parse w events s h in
    let free =
      replay-IsOpen parse w e.id e.occurred_at s.release.workflow replay_start events r earlier
        (start-IsOpen parse w e.id e.occurred_at) replayed in
    let step = replay_event-progress parse w r s id e p next progress free last tail in
    let tail' = tail-progress parse w r s id e p next progress free last tail in
    let extended : replay parse w next.release.workflow replay_start (events ++ e ∷ [])
        ≡ ok (after r e p) =
      rw progress.kept.3 (
        fold_each-append (replay_event parse w s.release.workflow) replay_start events (e ∷ [])
        ∙ rw (replayed, step) refl) in
    let bound' : binding_matches (after r e p) next.trace ≡ true =
      binding_matches-after r e p next.trace ∙ rw progress.kept.2 bound in
    let last' : is_last (some e) next.last_event_id ≡ true = rw progress.last (eq_refl e.id) in
    rw (is_empty-snoc events e, extended, tail', bound', last') refl
