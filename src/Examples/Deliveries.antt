-- ===== src/Examples/Deliveries.antt =====
-- The theorems on what the store commits, run on the start of a requirement and on the first report of
-- a run of the bundle.
use fanloop.Base.{
  is_blank, ok-injective, sym, ◌∙◌, ◌≡◌, refl, sym, ap, ◌∙◌, subst, false, ok, some, none, [], ◌∷◌,
  List, String, arith, Option,
}
use fanloop.State.{State, Event}
use fanloop.State.Persistence.Documents.{
  new_output_registry, to_storage_idl, registry_to_idl, encode, encode_output_registry,
}
use fanloop.State.Persistence.Events.{encode_event, event_to_idl}
use fanloop.Store.{Entry, absent, unreadable, regular, Files}
use fanloop.Store.Reading.{load_workflow, load_bound, or_code, found_or, knows_current_step}
use fanloop.Store.Commit.{encode_lines, commit}
use fanloop.Store.Committed.{AreReadable, IsReadBack}
use fanloop.Flow.Report.{progress_event}
use fanloop.Flow.Report.Progressed.Committed.{IsStored, commit-progress}
use fanloop.Flow.{FlowProgressRequest}
use fanloop.State.Persistence.Decoded.{IsReadable, ReadsBack}
use fanloop.Examples.Records.{
  codec-IsWriting, stored_report, stored_report-ReadsBack, time-IsReadable, event_reads_back,
}
use fanloop.Workflow.{Workflow}
use fanloop.Store.Reading.{read_events, read_pin, exists}
use fanloop.Flow.Report.{Outcome, Stamp, validate_next}
use fanloop.Flow.Init.{init, validate_init_request, initial_state, initial_event}
use fanloop.Flow.Init.Accepted.Committed.{commit-init}
use fanloop.Examples.Records
use fanloop.Examples.Commits
use fanloop.Examples.Commits.{services, empty_directory, state_valid}
use fanloop.Examples.Starts.{asked}
use fanloop.Examples.{bundle}
use fanloop.Examples.Histories.{
  env, stamp, first_event, started_state, first_accepted, stuck, stuck_outcome, stuck_reported,
}
use fanloop.Examples.Records.{codec, cases, event_encoded, one_letter}
use fanloop.Examples.Commits.{calm, quiet, state_fits, first_decoded}
use fanloop.Examples.Rebinds.{
  pinned_services, stored_files, requirement, state_loaded, events_loaded, old_pin,
}

readable : AreReadable stored_files
readable fanloop.Store.state_file same = cc same
readable fanloop.Store.output_file same = cc same
readable fanloop.Store.events_file same = cc same
readable fanloop.Store.pin_file same = cc same
readable fanloop.Store.trace_file same = cc same
readable fanloop.Store.config_file same = cc same
readable fanloop.Store.audit_file same = cc same

held : load_bound pinned_services stored_files ≡ ok (started_state, bundle)
unfolding load_bound load_workflow or_code found_or knows_current_step fanloop.Workflow.find_step
held =
    rw (load_bound, state_loaded, load_workflow, old_pin, state_fits, events_loaded, first_accepted)
      refl

abbrev reported : Event
reported = progress_event stamp started_state stuck []

report_stored : event_to_idl env codec cases reported ≡ ok stored_report
unfolding event_to_idl progress_event fanloop.State.Persistence.named
    fanloop.State.Persistence.or_error fanloop.State.Persistence.convert_each
    fanloop.State.Persistence.workflow_ref_to_idl fanloop.State.Persistence.evidence_to_idl
    fanloop.State.Persistence.evidence_item_to_idl
    fanloop.State.Persistence.Events.validate_event_envelope
    fanloop.State.Persistence.Events.payload_to_idl
    fanloop.State.Persistence.Events.progressed_to_idl fanloop.State.Persistence.Documents.int32
    fanloop.State.valid_evidence fanloop.State.valid_step_status fanloop.State.state_ref
    fanloop.State.status_eq fanloop.State.Payloads.validate_event_payload
    fanloop.State.Payloads.expected_command fanloop.Base.is_blank fanloop.Base.is_space
    fanloop.Storage.from_string fanloop.Storage.to_string fanloop.State.Spellings.status_spelling
    fanloop.State.Spellings.kind_spelling fanloop.State.Spellings.replace_dot
    fanloop.Storage.Messages.count_set_fields fanloop.Storage.Valid.event_valid
    fanloop.Storage.Valid.is_specified fanloop.Flow.durable_evidence
    fanloop.Flow.durable_progress_status
report_stored = refl

first_lines : encode_lines pinned_services (first_event ∷ []) ≡ ok "S\n"
unfolding encode_lines or_code
first_lines = rw (encode_lines, event_encoded) refl

stored : IsStored pinned_services started_state (first_event ∷ [])
stored = record {
  state = "S\n";
  state_made = Records.state_encoded;
  output = "S\n";
  output_made = Commits.registry_encoded;
  text = "S\n";
  text_made = first_lines;
}

reported-IsReadBack : IsReadBack pinned_services reported
unfolding IsReadable progress_event
reported-IsReadBack = (
  refl,
  λ message made.
      subst (ReadsBack codec.events) (ok-injective (sym report_stored ∙ made))
        stored_report-ReadsBack,
)

given_summary : (q : FlowProgressRequest) → some stuck ≡ some q → is_blank q.summary ≡ false
unfolding is_blank fanloop.Base.is_space
given_summary q same =
    let here : stuck ≡ q = cc same in
    subst (λ (r : FlowProgressRequest). is_blank r.summary ≡ false) here refl

commit-progress_example :
    (e : Event) × (stuck_outcome.event ≡ some e)
    × ((commit calm pinned_services stuck_outcome.state e requirement).0 ≡ ok tt)
commit-progress_example =
    commit-progress calm pinned_services stamp bundle started_state requirement (first_event ∷ [])
      (some stuck) stuck_outcome quiet readable held events_loaded stored stuck_reported
      given_summary ((refl, refl), tt) codec-IsWriting
      (λ e made.
        let same : reported ≡ e = cc made in
        subst (IsReadBack pinned_services) same reported-IsReadBack)

abbrev started_outcome : Outcome
started_outcome = record { state = started_state; event = some first_event }

abbrev first_stamp : Stamp
first_stamp = record { now = 1; event_id = "e1" }

nothing_there : AreReadable empty_directory.files
nothing_there file same = cc same

no_events : read_events services empty_directory.files ≡ ok []
unfolding read_events
no_events = refl

abbrev first_load : String → Option (String × Workflow)
first_load name = some (name, bundle)

store_loads :
    (name workflow : String) (w : Workflow)
    → first_load name ≡ some (workflow, w)
    → load_workflow services empty_directory.files workflow ≡ ok w
unfolding load_workflow found_or read_pin
store_loads name workflow w same = let here : bundle ≡ w = cc same in ap ok here

starts :
    init env first_stamp "1" (exists empty_directory.files) first_load (some asked) false
    ≡ ok started_outcome
unfolding init validate_init_request fanloop.Workflow.first_step_id validate_next exists
    fanloop.State.Results.entry_step_status initial_state initial_event
starts = rw (init, validate_next, state_valid, state_fits) refl

first_event-IsReadBack : IsReadBack services first_event
first_event-IsReadBack = (time-IsReadable, event_reads_back)

commit-init_example :
    (e : Event) × (started_outcome.event ≡ some e)
    × ((commit calm services started_state e empty_directory).0 ≡ ok tt)
commit-init_example =
    commit-init calm services first_stamp "1" first_load (some asked) started_outcome
      empty_directory quiet nothing_there no_events store_loads starts codec-IsWriting
      (λ e made.
        let same : first_event ≡ e = cc made in
        subst (IsReadBack services) same first_event-IsReadBack)
