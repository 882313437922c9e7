-- ===== src/Examples/Rebinds.antt =====
-- The theorems on a rebinding, run on a requirement whose first Event is committed and whose
-- configuration is pinned.
use fanloop.Base.{
  ℕ, ◌+◌, ◌<◌, ◌≡◌, refl, sym, ap, ◌∙◌, subst, ok, err, [], ◌∷◌, List, none, some, Option, false,
  true, String, Bool, arith, nat_eq, ok-injective,
}
use fanloop.Workflow.{Workflow}
use fanloop.State.{State, Event}
use fanloop.State.Persistence.Documents.{
  OutputRegistry, registry_to_idl, decode_output_registry, new_output_registry,
}
use fanloop.State.Persistence.Registered.{decode_output_registry-canonical}
use fanloop.Store.{
  File, state_file, output_file, events_file, pin_file, audit_file, Entry, absent, regular, Files,
  World, Device, local_commit_failed, Services, put,
}
use fanloop.Store.Files.{
  attempt, fill_temporary, atomic_write, atomic_write_mode, entry_snapshot, snapshot, private_mode,
}
use fanloop.Store.Reading.{
  or_code, found_or, has_newline, load, load_entry, load_content, load_outputs, read_events,
  read_pin, load_bound, lines, decode_lines,
}
use fanloop.Store.Commit.{attempts, with_exclusive_lock}
use fanloop.Store.Faults.{HasOneFault}
use fanloop.Store.Rebind.{
  RebindServices, check_rebind, audit_lines, prepare_rebind, snapshots, write_rebind, rebind_locked,
  rebind_configuration,
}
use fanloop.Store.Rebind.Rebound.{rebind_configuration-restored}
use fanloop.Store.Rebind.Loaded.{load_bound-rebind_configuration}
use fanloop.Examples.{bundle}
use fanloop.Examples.Histories.{env, first_event, started_state, first_accepted}
use fanloop.Examples.Records.{codec, state_decoded, event_decoded}
use fanloop.Examples.Commits.{
  services, state_fits, registry_encoded, calm, quiet, started_state-IsDurableState,
}

-- Every directory is a configuration, and holds the bundle.
abbrev pub pinned_services : Services
pinned_services = record services {
  loader = record {
    load = λ id. some bundle;
    source_root = some;
    load_from = λ root id. some bundle;
  };
}

abbrev tools : RebindServices
tools = record {
  clean = λ s. s;
  base = λ s. s;
  trim_space = λ s. s;
  write_audit = λ audit. some "A";
  transaction_id = "t1";
}

abbrev file_of : String → Entry
file_of content = regular (record { content = content; mode = private_mode })

abbrev pub stored_files : Files
stored_files state_file = file_of "S\n"
stored_files output_file = file_of "S\n"
stored_files events_file = file_of "S\n"
stored_files pin_file = file_of "/old\n"
stored_files _ = absent

abbrev pub requirement : World
requirement = record { files = stored_files; clock = 0 }

registry_decoded : decode_output_registry env codec "S\n" ≡ ok (new_output_registry started_state)
unfolding new_output_registry fanloop.State.Persistence.Documents.clone_registered_outputs
registry_decoded =
    decode_output_registry-canonical env codec (new_output_registry started_state) "S\n"
      started_state-IsDurableState.outputs started_state-IsDurableState.registry registry_encoded

pub state_loaded : load pinned_services stored_files ≡ ok started_state
unfolding load load_entry load_content load_outputs or_code found_or new_output_registry
state_loaded = rw (load, load_content, load_outputs, registry_decoded, state_decoded) refl

pub events_loaded : read_events pinned_services stored_files ≡ ok (first_event ∷ [])
unfolding read_events lines decode_lines or_code fanloop.Base.is_blank
events_loaded = rw (read_events, decode_lines, event_decoded) refl

pub old_pin : read_pin pinned_services stored_files ≡ ok (some "/old")
unfolding read_pin has_newline fanloop.Store.Reading.trim_newline
old_pin = refl

checked :
    (device : Device) → check_rebind device pinned_services tools "/new" stored_files ≡ ok "/old"
unfolding check_rebind found_or or_code
checked device =
    rw (check_rebind, state_loaded, old_pin, state_fits, events_loaded, first_accepted) refl

prepared :
    (device : Device)
    → prepare_rebind device pinned_services tools "/new" "/new" "now" "moved" stored_files
      ≡ ok ("/old", ("A\n", "A\n"))
unfolding prepare_rebind audit_lines found_or
prepared device = rw (prepare_rebind, checked device) refl

rebound_locked :
    (rebind_locked calm pinned_services tools "/new" "/new" "now" "moved"
      (record requirement { clock = 4 })).0
    ≡ ok "/old"
unfolding rebind_locked attempts attempt snapshots snapshot entry_snapshot write_rebind atomic_write
    atomic_write_mode fill_temporary put
rebound_locked = rw (rebind_locked, prepared calm) refl

rebound :
    (rebind_configuration calm pinned_services tools "/new" "moved" "now" requirement).0 ≡ ok "/old"
unfolding rebind_configuration with_exclusive_lock attempts attempt
rebound = rebound_locked

load_bound-rebind_configuration_example :
    (current : State) × (loaded : Workflow) × (load pinned_services stored_files ≡ ok current)
    × (read_pin pinned_services
          (rebind_configuration calm pinned_services tools "/new" "moved" "now" requirement).1.files
        ≡ ok (some "/new"))
    × (load_bound pinned_services
          (rebind_configuration calm pinned_services tools "/new" "moved" "now" requirement).1.files
        ≡ ok (current, loaded))
unfolding has_newline
load_bound-rebind_configuration_example =
    load_bound-rebind_configuration calm pinned_services tools "/new" "moved" "now" "/old"
      requirement quiet refl refl refl rebound

-- The rename of the pin fails.
abbrev broken_pin : Device
broken_pin = record { fails = λ n. nat_eq n 14; partial = λ n s. "" }

rebind_failed_locked :
    (rebind_locked broken_pin pinned_services tools "/new" "/new" "now" "moved"
      (record requirement { clock = 4 })).0
    ≡ err local_commit_failed
unfolding rebind_locked attempts attempt snapshots snapshot entry_snapshot write_rebind atomic_write
    atomic_write_mode fill_temporary put
rebind_failed_locked = rw (rebind_locked, prepared broken_pin) refl

rebind_failed :
    (rebind_configuration broken_pin pinned_services tools "/new" "moved" "now" requirement).0
    ≡ err local_commit_failed
unfolding rebind_configuration with_exclusive_lock attempts attempt
rebind_failed = rebind_failed_locked

one_fault : HasOneFault broken_pin
unfolding HasOneFault
one_fault = λ n m bad later. ground (arith, bad, later)

rebind_configuration-restored_example :
    (rebind_configuration broken_pin pinned_services tools "/new" "moved" "now" requirement).1.files
      audit_file
    ≡ absent
rebind_configuration-restored_example =
    rebind_configuration-restored broken_pin one_fault pinned_services tools "/new" "moved" "now"
      requirement local_commit_failed audit_file rebind_failed
