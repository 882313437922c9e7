-- ===== src/Examples/Commits.antt =====
-- The theorems on the Store, run on the first Commit of a requirement: the Event that begins a run of
-- the bundle, into a directory with no file.
use Prim.Native.String.{◌++◌}
use fanloop.Base.{
  ℕ, ◌+◌, ◌<◌, ◌≡◌, ◌≢◌, refl, sym, ap, ◌∙◌, subst, ok, err, [], ◌∷◌, List, none, some, Option,
  false, true, String, Bool, ok-injective, All, arith, nat_eq, is_some, ◌==◌,
}
use fanloop.Workflow.{Workflow}
use fanloop.State.{State, Event}
use fanloop.State.Checks.{validate, validate_against}
use fanloop.State.History.{validate_event_against}
use fanloop.State.Persistence.Documents.{
  OutputRegistry, new_output_registry, registry_to_idl, encode, encode_output_registry,
  clone_registered_outputs,
}
use fanloop.State.Persistence.Events.{decode_event}
use fanloop.State.Persistence.Decoded.{ReadsBack}
use fanloop.State.Persistence.Recorded.{decode_event-restorable}
use fanloop.Store.{
  File, state_file, output_file, events_file, trace_file, absent, regular, World, Device,
  local_commit_failed, Services, put,
}
use fanloop.Store.Files.{
  attempt, fill_temporary, atomic_write, atomic_write_mode, entry_snapshot, snapshot, snapshot_all,
  write_all, write_or_restore,
}
use fanloop.Store.Reading.{
  or_code, found_or, exists, has_newline, read_events, read_pin, load_workflow, load_bound,
}
use fanloop.Store.Commit.{
  attempts, check_previous, validate_commit, encode_lines, contents_of, prepare_commit,
  with_exclusive_lock, commit_locked, commit,
}
use fanloop.Store.Faults.{HasOneFault, IsQuietFrom}
use fanloop.Store.Restored.{commit-restored}
use fanloop.Store.Lines.{IsDurable}
use fanloop.Store.Written.{atomic_write_mode-lost}
use fanloop.Store.Reloaded.{IsDurableState, load_bound-commit}
use fanloop.Examples.{bundle}
use fanloop.Examples.Histories.{env, first_event, started_state, first_accepted}
use fanloop.Examples.Records.{
  codec, cases, one_letter, one_letter-ReadsBack, stored_registry, state_reads_back,
  event_reads_back, time-IsReadable, state_encoded, event_encoded,
}

abbrev pub services : Services
services = record {
  env = env;
  codec = codec;
  cases = cases;
  loader = record {
    load = λ id. some bundle;
    source_root = λ s. none;
    load_from = λ root id. none;
  };
  header_version = λ content. some 16;
  is_clean_path = λ s. true;
  render_events = λ s w events. "trace";
  render_trace_config = λ s events. none;
}

abbrev pub empty_directory : World
empty_directory = record { files = λ file. absent; clock = 0 }

abbrev written_files : List (File × String)
written_files =
    (output_file, "S\n") ∷ (events_file, "S\n") ∷ (trace_file, "trace") ∷ (state_file, "S\n") ∷ []

pub state_valid : validate env started_state ≡ ok tt
unfolding validate fanloop.Base.is_blank fanloop.State.valid_evidence
    fanloop.State.valid_step_status fanloop.State.entries fanloop.State.unique_non_empty
state_valid = refl

pub registry_stored :
    registry_to_idl env codec (new_output_registry started_state) ≡ ok stored_registry
unfolding registry_to_idl fanloop.State.Persistence.Documents.output_registry_validate
    new_output_registry fanloop.State.Persistence.outputs_to_storage_idl
    fanloop.Storage.Valid.output_registry_valid fanloop.State.Persistence.Documents.int32
    fanloop.State.Persistence.workflow_ref_to_idl
registry_stored = refl

pub registry_encoded :
    encode_output_registry env codec (new_output_registry started_state) ≡ ok "S\n"
unfolding encode_output_registry fanloop.State.Persistence.Documents.marshal_indented one_letter
registry_encoded = rw (encode_output_registry, registry_stored) refl

pub first_decoded : decode_event env codec cases "S" ≡ ok first_event
unfolding fanloop.State.Persistence.Recorded.IsRestorable fanloop.State.Persistence.is_json_space
first_decoded =
    decode_event-restorable env codec cases first_event "S" "" time-IsReadable tt event_reads_back
      refl event_encoded

pub state_fits : validate_against env.parse bundle started_state ≡ ok tt
unfolding validate_against fanloop.State.Checks.validate_cursor_against fanloop.Workflow.find_step
    fanloop.State.status_eq fanloop.Base.for_each fanloop.State.entries
    fanloop.State.Checks.validate_skipped
state_fits = refl

event_fits : validate_event_against env.parse bundle true first_event ≡ ok tt
unfolding validate_event_against fanloop.Workflow.first_step_id fanloop.State.status_eq
    fanloop.State.Results.entry_step_status
event_fits = refl

prepared :
    prepare_commit services empty_directory.files started_state first_event ≡ ok written_files
unfolding prepare_commit read_events validate_commit load_workflow read_pin or_code found_or
    check_previous exists encode_lines contents_of
prepared =
    rw
      (
        prepare_commit, validate_commit, state_valid, event_encoded, first_decoded, state_fits,
        event_fits, first_accepted, state_encoded, registry_encoded,
      )
      refl

-- Every call succeeds.
abbrev pub calm : Device
calm = record { fails = λ n. false; partial = λ n s. "" }

-- The rename of the second file fails.
abbrev full_disk : Device
full_disk = record { fails = λ n. nat_eq n 16; partial = λ n s. "" }

committed_calmly : (commit calm services started_state first_event empty_directory).0 ≡ ok tt
unfolding commit with_exclusive_lock attempts attempt commit_locked snapshot_all snapshot
    entry_snapshot write_or_restore write_all atomic_write atomic_write_mode fill_temporary put
committed_calmly = rw (commit, with_exclusive_lock, commit_locked, prepared) refl

commit_failed :
    (commit full_disk services started_state first_event empty_directory).0
    ≡ err local_commit_failed
unfolding commit with_exclusive_lock attempts attempt commit_locked snapshot_all snapshot
    entry_snapshot write_or_restore write_all atomic_write atomic_write_mode fill_temporary put
commit_failed = rw (commit, with_exclusive_lock, commit_locked, prepared) refl

one_fault : HasOneFault full_disk
unfolding HasOneFault
one_fault = λ n m bad later. ground (arith, bad, later)

commit-restored_example :
    (commit full_disk services started_state first_event empty_directory).1.files output_file
    ≡ absent
commit-restored_example =
    commit-restored full_disk services started_state first_event empty_directory local_commit_failed
      output_file one_fault commit_failed

pub started_state-IsDurableState : IsDurableState services started_state
unfolding new_output_registry clone_registered_outputs
started_state-IsDurableState = record {
  created = time-IsReadable;
  updated = time-IsReadable;
  message = state_reads_back;
  header = λ content made. refl;
  outputs = tt;
  registry = λ stored h.
      subst (ReadsBack codec.registries) (ok-injective (sym registry_stored ∙ h))
        (one_letter-ReadsBack stored_registry);
}

one_line : (has_newline "S" ≡ false) × (fanloop.Base.is_blank ("S" ++ "\n") ≡ false)
unfolding has_newline fanloop.Base.is_blank
one_line = (refl, refl)

pub quiet : IsQuietFrom calm 0
unfolding IsQuietFrom
quiet = λ m later. refl

no_events : read_events services empty_directory.files ≡ ok []
unfolding read_events
no_events = refl

first_event-IsDurable : IsDurable services first_event
unfolding fanloop.State.Persistence.Recorded.IsRestorable
first_event-IsDurable = record {
  readable = time-IsReadable;
  restorable = tt;
  message = event_reads_back;
  line = λ content h.
      subst (λ c. (has_newline c ≡ false) × (fanloop.Base.is_blank (c ++ "\n") ≡ false))
        (ok-injective (sym event_encoded ∙ h)) one_line;
}

load_bound-commit_example :
    (definition : Workflow) × (load_bound services
        (commit calm services started_state first_event empty_directory).1.files
      ≡ ok (started_state, definition))
    × (read_events services (commit calm services started_state first_event empty_directory).1.files
        ≡ ok (first_event ∷ []))
load_bound-commit_example =
    load_bound-commit calm services started_state first_event empty_directory [] quiet no_events
      started_state-IsDurableState (first_event-IsDurable, tt) committed_calmly

-- A disk that is full when the content is written, and not a call later.
abbrev lossy : Device
lossy = record { fails = λ n. nat_eq n 2; partial = λ n s. "" }

atomic_write_mode-lost_example :
    ((atomic_write_mode lossy state_file "S\n" 0o600 empty_directory).0 ≡ ok tt)
    × ((atomic_write_mode lossy state_file "S\n" 0o600 empty_directory).1.files state_file
        ≡ regular (record { content = ""; mode = 0o600 }))
atomic_write_mode-lost_example =
    atomic_write_mode-lost lossy state_file "S\n" 0o600 empty_directory refl
      (λ n other. ground (arith, other))
