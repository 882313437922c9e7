-- ===== src/Flow/Init/Accepted.antt =====
-- internal/flow/runtime.go against internal/state/model.go: the store accepts what `Init` commits.
pub mod Encoded
pub mod Committed
use fanloop.Base.{
  ◌≡◌, refl, sym, ap, ◌∙◌, inl, inr, Bool, true, false, Option, some, [], ◌∷◌, String, arith,
  eq_refl, Option-cases, ok, err, Bool-cases, >>=-eq-ok, >>-eq-ok, ok-injective, ◌>>◌, contains,
  fold_each,
}
use fanloop.Workflow.{Workflow, first_step_id}
use fanloop.Workflow.Output.{UrlParser}
use fanloop.State.{
  State, Event, StepStatus, unset, status_eq, equal_optional_step_state, evidence_lists_eq,
  texts_eq, entries,
}
use fanloop.State.Checks.{Env}
use fanloop.State.Results.{entry_step_status}
use fanloop.State.History.{
  validate_event_against, validate_history, replay, replay_event, replay_initialized, tail_matches,
  settle, cursor_of, Replay, replay_start,
}
use fanloop.State.History.Cursor.{cursor_of-some}
use fanloop.Flow.{already_initialized, workflow_invalid}
use fanloop.Flow.Report.{Outcome, Stamp, validate_next}
use fanloop.Flow.Init.{
  RequestRequirement, FlowInitRequest, validate_init_request, initial_state, initial_event, init,
}

-- What the store asks of a first Event: the Event enters the bundle, and its history is the State's.
abbrev pub IsBegun : UrlParser → Workflow → State → Event → Type 0
IsBegun parse w s e =
    (validate_event_against parse w true e ≡ ok tt)
    × (validate_history parse w (e ∷ []) s ≡ ok tt)
    × (s.last_event_id ≡ e.id)
    × (e.workflow ≡ s.release.workflow)

entry_step_status-cases :
    (w : Workflow)
    → (status_eq (entry_step_status w) unset ≡ false)
      × (status_eq (entry_step_status w) (entry_step_status w) ≡ true)
unfolding entry_step_status status_eq
entry_step_status-cases w = elim (Option-cases w.step_start) [
  | inl missing ↦ (rw (entry_step_status, missing) refl, rw (entry_step_status, missing) refl)
  | inr (control, there) ↦ (rw (entry_step_status, there) refl, rw (entry_step_status, there) refl)
]

module _ (parse : UrlParser) (stamp : Stamp) (version workflow first : String) (w : Workflow)
    (r : RequestRequirement) (enters : first_step_id w ≡ some first) where
  abbrev status : StepStatus
  status = entry_step_status w

  abbrev begun : State
  begun = record (initial_state stamp.now version workflow first status r) {
    last_event_id = stamp.event_id;
  }

  event-enters :
      (route : Bool)
      → validate_event_against parse w route (initial_event stamp workflow first status) ≡ ok tt
  unfolding validate_event_against initial_event
  event-enters route =
      let (live, same) = entry_step_status-cases w in ground (arith, enters, same, eq_refl first)

  abbrev after : Replay
  after = record replay_start {
    state = record (replay_start.state) {
      current_step_id = some first;
      current_step_status = status;
      current_step_summary = "workflow initialized";
    };
    seen = stamp.event_id ∷ [];
    previous = some (initial_event stamp workflow first status);
  }

  replay_event-begun :
      replay_event parse w workflow replay_start (initial_event stamp workflow first status)
      ≡ ok after
  unfolding replay_event replay_initialized contains initial_event
  replay_event-begun =
      let entered = event-enters false in rw (replay_event, eq_refl workflow, entered) refl

  settled-begun : settle w after ≡ after.state
  unfolding settle
  settled-begun = let (live, same) = entry_step_status-cases w in rw live refl

  cursor-begun : equal_optional_step_state (cursor_of after.state) (cursor_of begun) ≡ true
  unfolding equal_optional_step_state initial_state
  cursor-begun =
      let (live, same) = entry_step_status-cases w in
      rw (cursor_of-some after.state first refl, cursor_of-some begun first refl)
        (ground (arith, live, same, eq_refl first))

  tail-begun : tail_matches (settle w after) begun ≡ true
  unfolding tail_matches initial_state evidence_lists_eq texts_eq entries
  tail-begun = rw settled-begun (rw cursor-begun refl)

  history-begun :
      validate_history parse w (initial_event stamp workflow first status ∷ []) begun ≡ ok tt
  unfolding validate_history replay fold_each initial_state initial_event
  history-begun = rw (validate_history, replay_event-begun, tail-begun, eq_refl stamp.event_id) refl

-- `Init` where its request, the store and the Workflow allow it.
init-reached :
    (env : Env) (stamp : Stamp) (version name workflow first : String) (w : Workflow)
    (load : String → Option (String × Workflow)) (request : Option FlowInitRequest)
    (r : RequestRequirement) (enters : first_step_id w ≡ some first)
    → validate_init_request env.parse request ≡ ok (name, r)
    → load name ≡ some (workflow, w)
    → init env stamp version false load request false
      ≡ validate_next env w (begun env.parse stamp version workflow first w r enters)
        >> ok (record {
          state = begun env.parse stamp version workflow first w r enters;
          event = some (initial_event stamp workflow first (entry_step_status w));
        })
unfolding init
init-reached env stamp version name workflow first w load request r enters checked loaded =
    rw (init, checked, loaded, enters) refl

module _ (env : Env) (stamp : Stamp) (version : String) (exists : Bool)
    (load : String → Option (String × Workflow)) (request : Option FlowInitRequest)
    (out : Outcome) where
  -- What `Init` has checked once it commits.
  record IsStarted : Type 0 where
    name : String
    workflow : String
    first : String
    w : Workflow
    r : RequestRequirement
    fresh : exists ≡ false
    loaded : load name ≡ some (workflow, w)
    enters : first_step_id w ≡ some first
    valid : validate_next env w (begun env.parse stamp version workflow first w r enters) ≡ ok tt
    made :
        record {
          state = begun env.parse stamp version workflow first w r enters;
          event = some (initial_event stamp workflow first (entry_step_status w));
        }
        ≡ out

  init-IsStarted : init env stamp version exists load request false ≡ ok out → IsStarted
  unfolding init
  init-IsStarted h =
      let ((name, requirement), checked, h1) =
        >>=-eq-ok (validate_init_request env.parse request) _ h in
      elim (Bool-cases exists) [
        | inl there ↦
            let answer : init env stamp version exists load request false
                ≡ err already_initialized =
              rw (init, checked, there) refl in
            absurd (ground (arith, answer, h))
        | inr fresh ↦ elim (Option-cases (load name)) [
          | inl missing ↦
              let answer : init env stamp version exists load request false ≡ err workflow_invalid =
                rw (init, checked, fresh, missing) refl in
              absurd (ground (arith, answer, h))
          | inr ((workflow, w), loaded) ↦ elim (Option-cases (first_step_id w)) [
            | inl missing ↦
                let answer : init env stamp version exists load request false
                    ≡ err workflow_invalid =
                  rw (init, checked, fresh, loaded, missing) refl in
                absurd (ground (arith, answer, h))
            | inr (first, enters) ↦
                let committed = begun env.parse stamp version workflow first w requirement enters in
                let event = initial_event stamp workflow first (entry_step_status w) in
                let made =
                  init-reached env stamp version name workflow first w load request requirement
                    enters checked loaded in
                let (valid, last) = >>-eq-ok (validate_next env w committed) _ (
                  sym made
                  ∙ sym (ap (λ e. init env stamp version e load request false) fresh)
                  ∙ h) in
                record {
                  name = name;
                  workflow = workflow;
                  first = first;
                  w = w;
                  r = requirement;
                  fresh = fresh;
                  loaded = loaded;
                  enters = enters;
                  valid = valid;
                  made = ok-injective last;
                }
          ]
        ]
      ]
