-- ===== src/Flow/Report/Progressed.antt =====
-- internal/flow/runtime.go against internal/state/model.go: a progress report extends the history.
pub mod Encoded
pub mod Committed
use fanloop.Base.{
  ◌≡◌, refl, sym, ap, subst, inl, inr, false, Option, none, some, List, [], ◌∷◌, ◌++◌, String,
  arith, ◌==◌, eq_iff, is_none, Option-cases, ok, Result-cases, All,
}
use fanloop.Workflow.{Workflow, find_step}
use fanloop.State.{
  State, unset, awaiting_confirmation, status_eq, state_ref, FlowProgressPayload, Event,
}
use fanloop.State.Checks.{Env, validate_against, validate_cursor_against}
use fanloop.State.History.{validate_history}
use fanloop.State.History.Noted.{IsEarlier}
use fanloop.State.History.Extended.{IsProgress, validate_history-IsProgress}
use fanloop.Flow.{
  RequestEvidence, FlowProgressRequest, ProgressStatus, validate_progress_request,
  require_current_step, durable_progress_status, durable_evidence, validate_evidence,
}
use fanloop.Flow.Report.{Outcome, Stamp, validate_next, progress_state, progress_event, progress}

durable_progress_status-ne-unset :
    (status : ProgressStatus) → status_eq (durable_progress_status status) unset ≡ false
unfolding durable_progress_status status_eq
durable_progress_status-ne-unset status = ground arith

module _ (env : Env) (stamp : Stamp) (w : Workflow) (s : State) where
  abbrev committed : FlowProgressRequest → List RequestEvidence → State
  committed q evidence = record (progress_state stamp.now s q evidence) {
    last_event_id = stamp.event_id;
  }

  -- What `Progress` has checked once it commits.
  record IsReported (request : Option FlowProgressRequest) (out : Outcome) : Type 0 where
    q : FlowProgressRequest
    evidence : List RequestEvidence
    valid : validate_progress_request env.parse request ≡ ok (q, evidence)
    current : require_current_step s q.step_id ≡ ok tt
    live : status_eq s.current_step_status awaiting_confirmation ≡ false
    next : validate_next env w (committed q evidence) ≡ ok tt
    made :
        out
        ≡ record { state = committed q evidence; event = some (progress_event stamp s q evidence) }

  progress-IsReported :
      (request : Option FlowProgressRequest) (out : Outcome)
      → progress env stamp w s request false ≡ ok out
      → IsReported request out
  unfolding progress
  progress-IsReported request out h =
      elim (Result-cases (validate_progress_request env.parse request)) [
        | inl ((q, evidence), valid) ↦ record {
          q = q;
          evidence = evidence;
          valid = valid;
          current = ground (arith, valid, h);
          live = ground (arith, valid, h);
          next = ground (arith, valid, h);
          made = ground (arith, valid, h);
        }
        | inr (c, failed) ↦ absurd (ground (arith, failed, h))
      ]

  named_request :
      (request : Option FlowProgressRequest) (q : FlowProgressRequest)
      (evidence : List RequestEvidence)
      → validate_progress_request env.parse request ≡ ok (q, evidence)
      → q.step_id == "" ≡ false
  unfolding validate_progress_request
  named_request none q evidence h = absurd (cc h)
  named_request (some r) q evidence h =
      elim (Result-cases (validate_evidence env.parse r.evidence)) [
        | inl (checked, good) ↦ ground (arith, good, h)
        | inr (c, failed) ↦ absurd (ground (arith, failed, h))
      ]

  required :
      (step_id : String) → require_current_step s step_id ≡ ok tt → s.current_step_id ≡ some step_id
  unfolding require_current_step
  required step_id h = elim (Option-cases s.current_step_id) [
    | inl missing ↦ absurd (ground (arith, missing, h))
    | inr (id, there) ↦ ground (arith, there, h, eq_iff step_id id)
  ]

  known_step :
      (next : State) (id : String)
      → validate_next env w next ≡ ok tt
      → next.current_step_id ≡ some id
      → is_none (find_step w id) ≡ false
  unfolding validate_next validate_against validate_cursor_against
  known_step next id h there = ground arith

  -- A committed progress report extends a history that ValidateHistory accepts for the State to one
  -- that it accepts for the next State, if the Event's id is new and its time not earlier.
  pub validate_history-progress :
      (events : List Event) (request : Option FlowProgressRequest) (out : Outcome)
      → validate_history env.parse w events s ≡ ok tt
      → All (IsEarlier env.parse w stamp.event_id stamp.now) events
      → progress env stamp w s request false ≡ ok out
      → (e : Event) × (out.event ≡ some e)
        × (validate_history env.parse w (events ++ e ∷ []) out.state ≡ ok tt)
  unfolding progress_event progress_state state_ref
  validate_history-progress events request out h earlier reported =
      let report = progress-IsReported request out reported in
      let q = report.q in
      let here = required q.step_id report.current in
      let e = progress_event stamp s q report.evidence in
      let p : FlowProgressPayload = record {
        from_step_id = (state_ref s).step_id;
        from_step_status = (state_ref s).status;
        to_step_status = durable_progress_status q.status;
        summary = q.summary;
        evidence = durable_evidence report.evidence;
      } in
      let step : IsProgress w s q.step_id e p (committed q report.evidence) = record {
        kind = refl;
        payload = refl;
        workflow = refl;
        cause = refl;
        current = here;
        named = named_request request q report.evidence report.valid;
        known = known_step (committed q report.evidence) q.step_id report.next here;
        live = report.live;
        from = rw here refl;
        from_status = rw here refl;
        to_status = durable_progress_status-ne-unset q.status;
        moved = (here, refl, refl, refl);
        kept = (refl, refl, refl, refl);
        last = refl;
      } in
      (
        e,
        ap (λ o. o.event) report.made,
        subst (λ o. validate_history env.parse w (events ++ e ∷ []) o.state ≡ ok tt)
            (sym report.made)
            (validate_history-IsProgress env.parse w events s q.step_id e p
              (committed q report.evidence) h earlier step),
      )
