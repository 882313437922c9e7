-- ===== src/Flow/Report/Progressed/Committed.antt =====
-- internal/flow/runtime.go with internal/store/store.go: a progress report is committed.
use mathlib.Core.List.{◌++◌ as ◌+++◌}
use fanloop.Base.{
  is_blank, String, arith, none, inl, inr, Result-cases, ◌≡◌, refl, sym, ap, ◌∙◌, subst, false,
  true, Option, some, List, [], ◌∷◌, ◌==◌, ok, All, is_none, ok-injective,
}
use fanloop.Workflow.{Workflow, find_step}
use fanloop.State.{State, Event, state_ref}
use fanloop.State.History.{validate_event_against, validate_history}
use fanloop.State.History.Noted.{IsEarlier}
use fanloop.State.Persistence.Documents.{new_output_registry, encode, encode_output_registry}
use fanloop.State.Persistence.Encoded.{IsWriting}
use fanloop.Flow.{validate_progress_request, validate_evidence}
use fanloop.Flow.Report.Progressed.Encoded.{stamped, state-encoded, registry-kept, event-encoded}
use fanloop.Store.{World, Device, Services}
use fanloop.Store.Reading.{read_events, load_bound}
use fanloop.Store.Commit.{check_previous, encode_lines, commit}
use fanloop.Store.Faults.{IsQuietFrom}
use fanloop.Store.Committed.{
  AreReadable, IsReadBack, decode_event-encoded, encode_lines-append, commit-fitting,
}
use fanloop.Store.Continued.{load_bound-IsBound, check_previous-IsBound}
use fanloop.Flow.{FlowProgressRequest, RequestEvidence}
use fanloop.Flow.Report.{Outcome, Stamp, progress_state, progress_event, progress}
use fanloop.Flow.Report.Checked.{validate_next-eq-ok}
use fanloop.Flow.Report.Progressed.{
  committed, progress-IsReported, required, known_step, validate_history-progress,
}

-- The State, its Outputs and the Events, which the store has written before, can be encoded.
pub record IsStored (services : Services) (s : State) (events : List Event) : Type 0 where
  pub state : String
  pub state_made : encode services.env services.codec s ≡ ok state
  pub output : String
  pub output_made :
      encode_output_registry services.env services.codec (new_output_registry s) ≡ ok output
  pub text : String
  pub text_made : encode_lines services events ≡ ok text

module _ (device : Device) (services : Services) (stamp : Stamp) (w : Workflow) (s : State) where
  event-enters :
      (q : FlowProgressRequest) (evidence : List RequestEvidence)
      → s.current_step_id ≡ some q.step_id
      → is_none (find_step w q.step_id) ≡ false
      → validate_event_against services.env.parse w true (progress_event stamp s q evidence) ≡ ok tt
  unfolding validate_event_against progress_event state_ref
  event-enters q evidence here known = rw (validate_event_against, here, known) refl

  asked :
      (request : Option FlowProgressRequest) (q : FlowProgressRequest)
      (evidence : List RequestEvidence)
      → validate_progress_request services.env.parse request ≡ ok (q, evidence)
      → (request ≡ some q) × (q.summary == "" ≡ false)
  unfolding validate_progress_request
  asked none q evidence h = absurd (cc h)
  asked (some r) q evidence h =
      elim (Result-cases (validate_evidence services.env.parse r.evidence)) [
        | inl (checked, good) ↦ (ground (arith, good, h), ground (arith, good, h))
        | inr (c, failed) ↦ absurd (ground (arith, failed, h))
      ]

  -- What the runtime makes of a progress report on the State that LoadBound returns, the store
  -- commits, if its summary is not blank, no call of the operating system fails, every file that is
  -- there can be read, the State, its Outputs and the Events that are stored can be encoded, the
  -- libraries write every message with no JsonValue in it and every time and read the new Event and
  -- its time as they were written, the Event id is new, and the time is not before any Event's.
  pub commit-progress :
      (store : World) (events : List Event) (request : Option FlowProgressRequest) (out : Outcome)
      → IsQuietFrom device store.clock
      → AreReadable store.files
      → load_bound services store.files ≡ ok (s, w)
      → read_events services store.files ≡ ok events
      → IsStored services s events
      → progress services.env stamp w s request false ≡ ok out
      → ((q : FlowProgressRequest) → request ≡ some q → is_blank q.summary ≡ false)
      → All (IsEarlier services.env.parse w stamp.event_id stamp.now) events
      → IsWriting services.codec
      → ((e : Event) → out.event ≡ some e → IsReadBack services e)
      → (e : Event) × (out.event ≡ some e) × ((commit device services out.state e store).0 ≡ ok tt)
  unfolding progress_event progress_state fanloop.State.Persistence.Recorded.IsRestorable
  commit-progress store events request out quiet readable bound read stored reported full earlier
        writing back =
      let held = load_bound-IsBound services store.files s w bound in
      let listed : held.events ≡ events = ok-injective (sym held.events_read ∙ read) in
      let report = progress-IsReported services.env stamp w s request out reported in
      let q = report.q in
      let here = required services.env stamp w s q.step_id report.current in
      let e = progress_event stamp s q report.evidence in
      let next = committed services.env stamp w s q report.evidence in
      let made = ap (λ o. o.event) report.made in
      let state_made = ap (λ o. o.state) report.made in
      let (valid, fits) = validate_next-eq-ok services.env w next report.next in
      let (x, there, extended) =
        validate_history-progress services.env stamp w s events request out
          (subst (λ (es : List Event). validate_history services.env.parse w es s ≡ ok tt) listed
            held.history)
          earlier reported in
      let same : x ≡ e = cc (there, made) in
      let (is_request, given) = asked request q report.evidence report.valid in
      let (named, dated) =
        stamped services.env services.codec services.cases writing stamp w s stored.state
          stored.state_made q report.evidence here valid in
      let (state, next_made) =
        state-encoded services.env services.codec services.cases writing stamp w s stored.state
          stored.state_made q report.evidence here valid in
      let kept =
        registry-kept services.env services.codec services.cases writing stamp w s stored.state
          stored.state_made q report.evidence here valid in
      let (content, content_made) =
        event-encoded services.env services.codec services.cases writing stamp w s stored.state
          stored.state_made q report.evidence here valid (full q is_request) given in
      let (text, text_made) =
        encode_lines-append services events e stored.text content stored.text_made content_made in
      (
        e,
        made,
        subst (λ (o : State). (commit device services o e store).0 ≡ ok tt) (sym state_made)
            (commit-fitting device services next e store events w quiet readable read
              (record {
                valid = valid;
                bound = held.bound;
                fits = fits;
                last = refl;
                workflow = refl;
                named = named;
                dated = dated;
                enters =
                    event-enters q report.evidence here
                      (known_step services.env stamp w s next q.step_id report.next here);
                previous =
                    subst (λ (es : List Event). check_previous services store.files es ≡ ok tt)
                      listed (check_previous-IsBound services store.files s w held);
                history =
                    subst
                      (λ (o : State).
                        validate_history services.env.parse w (events +++ e ∷ []) o ≡ ok tt)
                      state_made
                      (subst
                        (λ (y : Event).
                          validate_history services.env.parse w (events +++ y ∷ []) out.state
                          ≡ ok tt)
                        same extended);
              })
              (record {
                state = state;
                state_made = next_made;
                output = stored.output;
                output_made =
                    ap (encode_output_registry services.env services.codec) kept
                    ∙ stored.output_made;
                content = content;
                content_made = content_made;
                decoded = e;
                read = decode_event-encoded services e content (back e made) tt content_made;
                text = text;
                text_made = text_made;
              })),
      )
