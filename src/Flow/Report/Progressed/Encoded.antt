-- ===== src/Flow/Report/Progressed/Encoded.antt =====
-- internal/flow/runtime.go with internal/state/persistence.go: what a progress report makes can be
-- encoded.
use fanloop.Base.{◌≡◌, refl, true, false, ◌==◌, nat_eq, some, List, String, arith, ok, is_blank}
use fanloop.Workflow.{Workflow}
use fanloop.Storage.Messages
use fanloop.Storage.Messages.{empty_payload, count_set_fields}
use fanloop.Storage.Valid.{is_specified, event_valid}
use fanloop.Storage.{step_status, event_kind}
use fanloop.State.{State, state_ref, valid_step_status, valid_evidence}
use fanloop.State.Checks.{Env, validate, valid_cursor}
use fanloop.State.Payloads.{
  validate_event_payload, validate_payload, is_report_status, expected_command,
}
use fanloop.State.Spellings.{kind_spelling, replace_dot}
use fanloop.State.Persistence.{Codec, named, wrap, or_error, workflow_ref_to_idl}
use fanloop.State.Persistence.Documents.{encode, int32, new_output_registry}
use fanloop.State.Persistence.Events.{
  Cases, progressed_to_idl, payload_to_idl, validate_event_envelope, encode_event,
}
use fanloop.State.Persistence.Encoded.{
  IsWriting, status-named, evidence_to_idl-valid, validate-IsSound, encode-valid, encode-parts,
  encode_event-valid,
}
use fanloop.Flow.{
  FlowProgressRequest, ProgressStatus, RequestEvidence, durable_progress_status, durable_evidence,
}
use fanloop.Flow.Report.{Stamp, progress_state, progress_event}
use fanloop.Flow.Report.Progressed.{committed}

durable_progress_status-report :
    (status : ProgressStatus)
    → (is_report_status (durable_progress_status status) ≡ true)
      × (valid_step_status (durable_progress_status status) ≡ true)
unfolding durable_progress_status is_report_status valid_step_status
durable_progress_status-report status = (ground arith, ground arith)

module _ (env : Env) (codec : Codec) (cases : Cases) (writing : IsWriting codec) (stamp : Stamp)
    (w : Workflow) (s : State) (stored : String) (held : encode env codec s ≡ ok stored)
    (q : FlowProgressRequest) (evidence : List RequestEvidence)
    (here : s.current_step_id ≡ some q.step_id)
    (valid : validate env (committed env stamp w s q evidence) ≡ ok tt) where
  abbrev next : State
  next = committed env stamp w s q evidence

  pub stamped : (stamp.event_id == "" ≡ false) × (nat_eq stamp.now 0 ≡ false)
  unfolding progress_state validate
  stamped = (ground (arith, valid), ground (arith, valid))

  pub state-encoded : (content : String) × (encode env codec next ≡ ok content)
  unfolding progress_state
  state-encoded =
      let (trace, before, bound, good) = encode-parts env codec writing s stored held in
      encode-valid env codec writing next trace valid bound good

  -- The Outputs are those of the State before.
  pub registry-kept : new_output_registry next ≡ new_output_registry s
  unfolding progress_state new_output_registry
  registry-kept = refl

  -- What is known of the State before and of the one after.
  facts :
      (q.step_id == "" ≡ false)
      × (valid_step_status s.current_step_status ≡ true)
      × (s.last_event_id == "" ≡ false)
      × (s.release.workflow == "" ≡ false)
      × (valid_evidence (durable_evidence evidence) ≡ true)
  unfolding progress_state valid_cursor
  facts =
      let (trace, before, bound, good) = encode-parts env codec writing s stored held in
      let old = validate-IsSound env s before in
      let new = validate-IsSound env next valid in
      (
        ground (arith, here, old.cursor),
        ground (arith, here, old.cursor),
        old.last,
        old.workflow,
        new.evidence,
      )

  pub event-encoded :
      is_blank q.summary ≡ false
      → q.summary == "" ≡ false
      → (content : String) × (encode_event env codec cases (progress_event stamp s q evidence)
          ≡ ok content)
  unfolding progress_event state_ref validate_event_envelope validate_event_payload validate_payload
      expected_command wrap kind_spelling payload_to_idl progressed_to_idl replace_dot named
      or_error count_set_fields event_valid int32 workflow_ref_to_idl is_specified
      fanloop.Storage.from_string fanloop.Storage.to_string
  event-encoded full given =
      let (step_named, known, caused, workflow, fine) = facts in
      let (report, moved) = durable_progress_status-report q.status in
      let (id_named, dated) = stamped in
      let (from_code, from_found, from_good) = status-named s.current_step_status known in
      let (to_code, to_found, to_good) = status-named (durable_progress_status q.status) moved in
      let (values, values_made) = evidence_to_idl-valid (durable_evidence evidence) fine in
      let e = progress_event stamp s q evidence in
      let payload : Messages.EventPayload = record empty_payload {
        flow_progressed = some (record {
          from_step_id = q.step_id;
          from_step_status = from_code;
          to_step_status = to_code;
          summary = q.summary;
          evidence = values;
        });
      } in
      encode_event-valid env codec writing cases e payload 2
        (rw
          (
            validate_event_envelope, here, id_named, dated, workflow, caused, step_named, known,
            report, full, fine,
          )
          refl)
        (rw (payload_to_idl, progressed_to_idl, here, from_found, to_found, values_made) refl) refl
        refl refl
        (rw
          (
            event_valid,
            id_named,
            writing.times stamp.now,
            workflow,
            step_named,
            from_good,
            to_good,
            given,
          )
          refl)
