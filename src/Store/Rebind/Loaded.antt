-- ===== src/Store/Rebind/Loaded.antt =====
-- internal/store/store.go, RebindConfiguration: LoadBound after a rebinding that succeeds.
use Prim.Native.Char.{code}
use Prim.Native.String.{◌++◌}
use Prim.Native.String.append
use fanloop.Base.{
  ◌+◌, ◌≡◌, refl, sym, ap, ◌∙◌, subst, inl, inr, true, false, Option, none, some, String, arith,
  ◌==◌, nat_eq, Bool-cases, Option-cases, ok, err, Result-cases, >>=-eq-ok, >>-eq-ok, ok-injective,
  List,
}
use fanloop.Workflow.{Workflow}
use fanloop.State.{State, Event}
use fanloop.State.Checks.{validate_against}
use fanloop.State.History.{validate_history}
use fanloop.Store.{
  File, state_file, output_file, events_file, pin_file, audit_file, same_file, file_code, Stored,
  Entry, absent, unreadable, regular, Files, World, Device, StoreError, state_corrupt,
  workflow_mismatch, invalid_argument, workflow_invalid, Services, put,
}
use fanloop.Store.Files.{atomic_write, atomic_write_mode, private_mode}
use fanloop.Store.Reading.{
  or_code, found_or, trim_newline, has_newline, load, load_entry, load_content, load_outputs,
  read_events, read_pin, load_workflow, load_bound,
}
use fanloop.Store.Commit.{attempts, with_exclusive_lock}
use fanloop.Store.Faults.{IsQuietFrom, atomic_write_mode-quiet, attempts-files}
use fanloop.Store.Lines.{or_code-eq-ok}
use fanloop.Store.Written.{attempts-quiet}
use fanloop.Store.Reloaded.{knows_current_step-eq-true}
use fanloop.Store.Rebind.{
  RebindServices, write_rebind, content_of, snapshots, check_rebind, prepare_rebind, rebind_locked,
  rebind_configuration,
}

-- A text with no newline is what is left when the newline behind it is trimmed.
trim_newline-append : (s : String) → has_newline s ≡ false → trim_newline (s ++ "\n") ≡ s
unfolding trim_newline has_newline
trim_newline-append String.[] h = ap trim_newline (append.nil "\n")
trim_newline-append (String.◌∷◌ c s) h =
    let plain : nat_eq (code c) 10 ≡ false = ground (arith, h) in
    let later : has_newline s ≡ false = ground (arith, h) in
    ap trim_newline (append.cons c s "\n") ∙ rw (plain, trim_newline-append s later) refl

module _ (services : Services) (files later : Files)
    (state_same : later state_file ≡ files state_file)
    (output_same : later output_file ≡ files output_file)
    (events_same : later events_file ≡ files events_file) where
  load_outputs-same : load_outputs services later ≡ load_outputs services files
  unfolding load_outputs
  load_outputs-same = rw (load_outputs, output_same) refl

  load_entry-same :
      (entry : Entry) → load_entry services later entry ≡ load_entry services files entry
  unfolding load_entry load_content
  load_entry-same absent = refl
  load_entry-same unreadable = refl
  load_entry-same (regular stored) = rw (load_content, load_outputs-same) refl

  load-same : load services later ≡ load services files
  unfolding load
  load-same = ap (load_entry services later) state_same ∙ load_entry-same (files state_file)

  read_events-same : read_events services later ≡ read_events services files
  unfolding read_events
  read_events-same = rw (read_events, events_same) refl

read_pin-written :
    (services : Services) (later : Files) (source : String)
    → later pin_file ≡ regular (record { content = source ++ "\n"; mode = private_mode })
    → has_newline source ≡ false
    → source == "" ≡ false
    → services.is_clean_path source ≡ true
    → read_pin services later ≡ ok (some source)
unfolding read_pin
read_pin-written services later source there single full clean =
    rw (read_pin, there, trim_newline-append source single, single, full, clean) refl

-- What a rebinding has checked under the lock.
record IsAccepted (services : Services) (root : String) (files : Files) : Type 0 where
  current : State
  read : load services files ≡ ok current
  loaded : Workflow
  found : services.loader.load_from root current.release.workflow ≡ some loaded
  fits : validate_against services.env.parse loaded current ≡ ok tt
  events : List Event
  events_read : read_events services files ≡ ok events
  history : validate_history services.env.parse loaded events current ≡ ok tt

found_or-eq-ok {ℓ} :
    {A : Type ℓ} (code : StoreError) (o : Option A) (a : A) → found_or code o ≡ ok a → o ≡ some a
unfolding found_or
found_or-eq-ok code none a h = cc
found_or-eq-ok code (some b) a h = ap some (ok-injective h)

check_rebind-IsAccepted :
    (device : Device) (services : Services) (tools : RebindServices) (root : String) (files : Files)
    (previous : String)
    → check_rebind device services tools root files ≡ ok previous
    → IsAccepted services root files
unfolding check_rebind
check_rebind-IsAccepted device services tools root files previous h =
    let (current, read, h1) = >>=-eq-ok (load services files) _ h in
    let (pin, pin_read, h2) = >>=-eq-ok (read_pin services files) _ h1 in
    let (old, there, h3) = >>=-eq-ok (found_or state_corrupt pin) _ h2 in
    let (loaded, found, h4) =
      >>=-eq-ok
        (found_or workflow_mismatch (services.loader.load_from root current.release.workflow)) _
        h3 in
    let (fits, h5) =
      >>-eq-ok (or_code workflow_mismatch (validate_against services.env.parse loaded current)) _
        h4 in
    let (events, events_read, h6) = >>=-eq-ok (read_events services files) _ h5 in
    let (history, last) =
      >>-eq-ok
        (or_code workflow_mismatch (validate_history services.env.parse loaded events current)) _
        h6 in
    record {
      current = current;
      read = read;
      loaded = loaded;
      found = found_or-eq-ok workflow_mismatch _ loaded found;
      fits = or_code-eq-ok workflow_mismatch _ tt fits;
      events = events;
      events_read = events_read;
      history = or_code-eq-ok workflow_mismatch _ tt history;
    }

load_bound-accepted :
    (services : Services) (root source : String) (files later : Files)
    (accepted : IsAccepted services root files)
    → later state_file ≡ files state_file
    → later output_file ≡ files output_file
    → later events_file ≡ files events_file
    → read_pin services later ≡ ok (some source)
    → services.loader.source_root source ≡ some root
    → load_bound services later ≡ ok (accepted.current, accepted.loaded)
unfolding load_bound load_workflow or_code found_or
load_bound-accepted services root source files later accepted state output events pin known =
    rw
      (
        load-same services files later state output events,
        accepted.read,
        load_workflow,
        pin,
        known,
        accepted.found,
        knows_current_step-eq-true services accepted.loaded accepted.current accepted.fits,
        accepted.fits,
        read_events-same services files later state output events,
        accepted.events_read,
        accepted.history,
      )
      refl

module _ (device : Device) (services : Services) (tools : RebindServices) where
  -- The World after a write in which no call fails.
  abbrev written : File → String → World → World
  written file content w =
      put file (regular (record { content = content; mode = private_mode }))
        (record w { clock = w.clock + 1 + 1 + 1 + 1 + 1 })

  -- The three writes, where no call fails.
  write_rebind-quiet :
      (before_pin before_audit : Option Stored) (source : String) (lines : String × String)
      (w : World)
      → IsQuietFrom device w.clock
      → ((write_rebind device services tools before_pin before_audit source lines w).0 ≡ ok tt)
        × ((write_rebind device services tools before_pin before_audit source lines w).1.files
              pin_file
            ≡ regular (record { content = source ++ "\n"; mode = private_mode }))
        × ((file : File)
            → same_file audit_file file ≡ false
            → same_file pin_file file ≡ false
            → (write_rebind device services tools before_pin before_audit source lines w).1.files
                file
              ≡ w.files file)
  unfolding write_rebind atomic_write put IsQuietFrom file_code
  write_rebind-quiet before_pin before_audit source lines w quiet =
      let audit = content_of device services tools before_audit ++ lines.0 in
      let pin = source ++ "\n" in
      let first = atomic_write_mode device audit_file audit private_mode w in
      let second = atomic_write_mode device pin_file pin private_mode first.1 in
      let third = atomic_write_mode device audit_file (audit ++ lines.1) private_mode second.1 in
      let w1 = written audit_file audit w in
      let w2 = written pin_file pin w1 in
      let one = atomic_write_mode-quiet device audit_file audit private_mode w quiet in
      let two : second ≡ (ok tt, w2) =
        ap (λ r. atomic_write_mode device pin_file pin private_mode r.1) one
        ∙ atomic_write_mode-quiet device pin_file pin private_mode w1
            (λ m later. quiet m (omega (arith, later))) in
      let three : third ≡ (ok tt, written audit_file (audit ++ lines.1) w2) =
        ap (λ r. atomic_write_mode device audit_file (audit ++ lines.1) private_mode r.1) two
        ∙ atomic_write_mode-quiet device audit_file (audit ++ lines.1) private_mode w2
            (λ m later. quiet m (omega (arith, later))) in
      let reached : write_rebind device services tools before_pin before_audit source lines w
          ≡ (ok tt, third.1) =
        rw (write_rebind, ap (λ r. r.0) one, ap (λ r. r.0) two, ap (λ r. r.0) three) refl in
      let last = ap (λ r. r.1.files) reached ∙ ap (λ r. r.1.files) three in
      (
        ap (λ r. r.0) reached,
        ap (λ files. files pin_file) last,
        λ file not_audit not_pin.
            ap (λ files. files file) last ∙ rw (written, not_audit, not_pin) refl,
      )

  rebind_locked-loaded :
      (root source rebound_at reason previous : String) (w : World)
      → IsQuietFrom device w.clock
      → (rebind_locked device services tools root source rebound_at reason w).0 ≡ ok previous
      → IsAccepted services root w.files
        × ((rebind_locked device services tools root source rebound_at reason w).1.files pin_file
            ≡ regular (record { content = source ++ "\n"; mode = private_mode }))
        × ((file : File)
            → same_file audit_file file ≡ false
            → same_file pin_file file ≡ false
            → (rebind_locked device services tools root source rebound_at reason w).1.files file
              ≡ w.files file)
  unfolding rebind_locked prepare_rebind IsQuietFrom
  rebind_locked-loaded root source rebound_at reason previous w quiet h =
      elim (Result-cases
        (prepare_rebind device services tools root source rebound_at reason w.files)) [
          | inr (c, refused) ↦
              let answer : (rebind_locked device services tools root source rebound_at reason w).0
                  ≡ err c =
                rw (rebind_locked, refused) refl in
              absurd (ground (arith, answer, h))
          | inl (checked, prepared) ↦
              let made = attempts device 1 w in
              let (started, later) = attempts-quiet device 1 w quiet in
              let kept = attempts-files device 1 w in
              let (old, accepted, rest) =
                >>=-eq-ok (check_rebind device services tools root w.files) _ prepared in
              elim (Result-cases (snapshots device services tools made.0 made.1)) [
                | inr (c, failed) ↦
                    let answer : (rebind_locked device services tools root source rebound_at reason
                          w).0
                        ≡ err c =
                      rw (rebind_locked, prepared, failed) refl in
                    absurd (ground (arith, answer, h))
                | inl (before, taken) ↦
                    let (done, pin, others) =
                      write_rebind-quiet before.0 before.1 source checked.1 made.1
                        (λ m after. quiet m (omega (arith, after, later))) in
                    (
                      check_rebind-IsAccepted device services tools root w.files old accepted,
                      rw (rebind_locked, prepared, taken) pin,
                      λ file not_audit not_pin.
                          rw (rebind_locked, prepared, taken)
                            (others file not_audit not_pin ∙ ap (λ files. files file) kept),
                    )
              ]
        ]

  -- After a rebinding that succeeds, the pin names the new configuration, and LoadBound still gives
  -- the State of before, now with the Workflow of the new configuration, if no call of the
  -- operating system fails and `filepath.Clean` made the source one absolute path.
  pub load_bound-rebind_configuration :
      (source reason rebound_at previous : String) (w : World)
      → IsQuietFrom device w.clock
      → has_newline (tools.clean source) ≡ false
      → tools.clean source == "" ≡ false
      → services.is_clean_path (tools.clean source) ≡ true
      → (rebind_configuration device services tools source reason rebound_at w).0 ≡ ok previous
      → (current : State) × (loaded : Workflow) × (load services w.files ≡ ok current)
        × (read_pin services
              (rebind_configuration device services tools source reason rebound_at w).1.files
            ≡ ok (some (tools.clean source)))
        × (load_bound services
              (rebind_configuration device services tools source reason rebound_at w).1.files
            ≡ ok (current, loaded))
  unfolding rebind_configuration with_exclusive_lock IsQuietFrom file_code
  load_bound-rebind_configuration source reason rebound_at previous w quiet one_line full clean h =
      let path = tools.clean source in
      let trimmed = tools.trim_space reason in
      let w1 = (attempts device 4 w).1 in
      let (locked, after) = attempts-quiet device 4 w quiet in
      let kept = attempts-files device 4 w in
      elim (Bool-cases (trimmed == "")) [
        | inl blank ↦
            let answer : (rebind_configuration device services tools source reason rebound_at w).0
                ≡ err invalid_argument =
              rw (rebind_configuration, blank) refl in
            absurd (ground (arith, answer, h))
        | inr given ↦ elim (Option-cases (services.loader.source_root path)) [
          | inl missing ↦
              let answer : (rebind_configuration device services tools source reason rebound_at w).0
                  ≡ err workflow_invalid =
                rw (rebind_configuration, given, missing) refl in
              absurd (ground (arith, answer, h))
          | inr (root, known) ↦
              let reached : rebind_configuration device services tools source reason rebound_at w
                  ≡ rebind_locked device services tools root path rebound_at trimmed w1 =
                rw (rebind_configuration, given, known, with_exclusive_lock, locked) refl in
              let (accepted, pin, others) =
                rebind_locked-loaded root path rebound_at trimmed previous w1
                  (λ m later. quiet m (omega (arith, after, later)))
                  (sym (ap (λ r. r.0) reached) ∙ h) in
              let later =
                (rebind_locked device services tools root path rebound_at trimmed w1).1.files in
              let pinned = read_pin-written services later path pin one_line full clean in
              let bound =
                load_bound-accepted services root path w1.files later accepted
                  (others state_file refl refl) (others output_file refl refl)
                  (others events_file refl refl) pinned known in
              (
                accepted.current,
                accepted.loaded,
                subst (λ files. load services files ≡ ok accepted.current) kept accepted.read,
                ap (λ r. read_pin services r.1.files) reached ∙ pinned,
                ap (λ r. load_bound services r.1.files) reached ∙ bound,
              )
        ]
      ]
