-- ===== src/Store/Committed.antt =====
-- internal/store/store.go, Commit: where nothing stands in its way, a Commit succeeds.
use mathlib.Core.List.{◌++◌ as ◌+++◌}
use Prim.Native.String.{◌++◌}
use text.Mathlib.TextLemmas.{append-nil}
use fanloop.Base.{
  >>=-eq-ok, ◌≡◌, ◌≢◌, refl, sym, ap, ◌∙◌, subst, true, false, Option, some, none, List, [], ◌∷◌,
  map, String, arith, ◌==◌, eq_refl, nat_eq, ok,
}
use fanloop.Workflow.{Workflow}
use fanloop.State.{State, Event}
use fanloop.State.Checks.{validate, validate_against}
use fanloop.State.History.{validate_event_against, validate_history}
use fanloop.State.Persistence.Documents.{new_output_registry, encode, encode_output_registry}
use fanloop.Storage.Messages
use fanloop.State.Persistence.{is_json_space}
use fanloop.State.Persistence.Events.{event_to_idl, encode_event, decode_event}
use fanloop.State.Persistence.Decoded.{IsReadable, ReadsBack}
use fanloop.State.Persistence.Recorded.{IsRestorable, decode_event-restorable}
use fanloop.Store.{
  File, Entry, absent, unreadable, regular, Stored, Files, World, Device, StoreError,
  local_commit_failed, Services,
}
use fanloop.Store.Files.{entry_snapshot, snapshot, snapshot_all}
use fanloop.Store.Reading.{or_code, read_events, load_workflow}
use fanloop.Store.Commit.{
  attempts, check_previous, validate_commit, encode_lines, contents_of, prepare_commit,
  with_exclusive_lock, commit_locked, commit,
}
use fanloop.Store.Faults.{IsQuietFrom, attempts-files}
use fanloop.Store.Written.{attempts-quiet, write_all-quiet, write_or_restore-ok}

-- Every file that is there can be read.
abbrev pub AreReadable : Files → Type 0
AreReadable files = (file : File) → files file ≢ unreadable

entry_snapshot-readable :
    (entry : Entry)
    → entry ≢ unreadable
    → (before : Option Stored) × (entry_snapshot entry ≡ ok before)
unfolding entry_snapshot
entry_snapshot-readable absent there = (none, refl)
entry_snapshot-readable unreadable there = absurd (there refl)
entry_snapshot-readable (regular stored) there = (some stored, refl)

snapshot_all-readable :
    (w : World) (files : List File)
    → AreReadable w.files
    → (before : List (File × Option Stored)) × (snapshot_all w files ≡ ok before)
unfolding snapshot_all snapshot
snapshot_all-readable w [] readable = ([], refl)
snapshot_all-readable w (file ∷ files) readable =
    let (one, taken) = entry_snapshot-readable (w.files file) (readable file) in
    let (rest, others) = snapshot_all-readable w files readable in
    ((file, one) ∷ rest, rw (snapshot_all, snapshot, taken, others) refl)

-- What a Commit writes, and what it finds when it reads the Event back.
pub record IsWritable (services : Services) (before : List Event) (next : State) (event : Event)
    : Type 0 where
  pub state : String
  pub state_made : encode services.env services.codec next ≡ ok state
  pub output : String
  pub output_made :
      encode_output_registry services.env services.codec (new_output_registry next) ≡ ok output
  pub content : String
  pub content_made : encode_event services.env services.codec services.cases event ≡ ok content
  pub decoded : Event
  pub read : decode_event services.env services.codec services.cases content ≡ ok decoded
  pub text : String
  pub text_made : encode_lines services (before +++ event ∷ []) ≡ ok text

-- The libraries read the time and the message of an Event as they were written.
abbrev pub IsReadBack : Services → Event → Type 0
IsReadBack services e =
    IsReadable services.codec e.occurred_at
    × ((stored : Messages.Event)
        → event_to_idl services.env services.codec services.cases e ≡ ok stored
        → ReadsBack services.codec.events stored)

no_space : is_json_space "" ≡ true
unfolding is_json_space
no_space = refl

pub decode_event-encoded :
    (services : Services) (e : Event) (content : String)
    → IsReadBack services e
    → IsRestorable services.codec services.cases e.payload
    → encode_event services.env services.codec services.cases e ≡ ok content
    → decode_event services.env services.codec services.cases content ≡ ok e
decode_event-encoded services e content (readable, back) restorable made =
    subst (λ t. decode_event services.env services.codec services.cases t ≡ ok e)
      (append-nil content)
      (decode_event-restorable services.env services.codec services.cases e content "" readable
        restorable back no_space made)

pub encode_lines-append :
    (services : Services) (before : List Event) (e : Event) (text content : String)
    → encode_lines services before ≡ ok text
    → encode_event services.env services.codec services.cases e ≡ ok content
    → (all : String) × (encode_lines services (before +++ e ∷ []) ≡ ok all)
unfolding encode_lines or_code
encode_lines-append services [] e text content h made =
    (content ++ "\n" ++ "", rw (encode_lines, made) refl)
encode_lines-append services (x ∷ before) e text content h made =
    let (line, first, h1) =
      >>=-eq-ok
        (or_code local_commit_failed (encode_event services.env services.codec services.cases x)) _
        h in
    let (rest, others, last) = >>=-eq-ok (encode_lines services before) _ h1 in
    let (all, later) = encode_lines-append services before e rest content others made in
    (line ++ "\n" ++ all, rw (encode_lines, first, later) refl)

-- What validateCommit asks of the State and the Event.
pub record IsFitting (services : Services) (files : Files) (before : List Event) (next : State)
    (event : Event) (definition : Workflow) : Type 0 where
  pub valid : validate services.env next ≡ ok tt
  pub bound : load_workflow services files next.release.workflow ≡ ok definition
  pub fits : validate_against services.env.parse definition next ≡ ok tt
  pub last : next.last_event_id ≡ event.id
  pub workflow : event.workflow ≡ next.release.workflow
  pub named : event.id == "" ≡ false
  pub dated : nat_eq event.occurred_at 0 ≡ false
  pub enters : validate_event_against services.env.parse definition true event ≡ ok tt
  pub previous : check_previous services files before ≡ ok tt
  pub history : validate_history services.env.parse definition (before +++ event ∷ []) next ≡ ok tt

module _ (device : Device) (services : Services) (next : State) (event : Event) where
  commit_locked-prepared :
      (w : World) (contents : List (File × String))
      → IsQuietFrom device w.clock
      → AreReadable w.files
      → prepare_commit services w.files next event ≡ ok contents
      → (commit_locked device services next event w).0 ≡ ok tt
  unfolding commit_locked IsQuietFrom
  commit_locked-prepared w contents quiet readable prepared =
      let w1 = (attempts device 3 w).1 in
      let (made, later) = attempts-quiet device 3 w quiet in
      let kept = attempts-files device 3 w in
      let (before, taken) =
        snapshot_all-readable w1 (map (λ c. c.0) contents)
          (subst AreReadable (sym kept) readable) in
      let calm : IsQuietFrom device w1.clock = λ m after. quiet m (omega (arith, after, later)) in
      rw (commit_locked, prepared, made, taken)
        (ap (λ r. r.0)
          (write_or_restore-ok device before contents w1
            (write_all-quiet device contents w1 fanloop.Store.state_file calm).0))

  commit-prepared :
      (w : World) (contents : List (File × String))
      → IsQuietFrom device w.clock
      → AreReadable w.files
      → prepare_commit services w.files next event ≡ ok contents
      → (commit device services next event w).0 ≡ ok tt
  unfolding commit with_exclusive_lock IsQuietFrom
  commit-prepared w contents quiet readable prepared =
      let w1 = (attempts device 4 w).1 in
      let (locked, later) = attempts-quiet device 4 w quiet in
      let kept = attempts-files device 4 w in
      rw (commit, with_exclusive_lock, locked)
        (commit_locked-prepared w1 contents (λ m after. quiet m (omega (arith, after, later)))
          (subst AreReadable (sym kept) readable)
          (ap (λ files. prepare_commit services files next event) kept ∙ prepared))

  prepare_commit-fitting :
      (files : Files) (before : List Event) (definition : Workflow)
      → read_events services files ≡ ok before
      → IsFitting services files before next event definition
      → IsWritable services before next event
      → (contents : List (File × String)) × (prepare_commit services files next event ≡ ok contents)
  unfolding prepare_commit validate_commit or_code
  prepare_commit-fitting files before definition read fitting writable =
      let same : next.last_event_id == event.id ≡ true = rw fitting.last (eq_refl event.id) in
      let workflow : event.workflow == next.release.workflow ≡ true =
        rw fitting.workflow (eq_refl next.release.workflow) in
      (
        contents_of services writable.state writable.output writable.text next definition
            (before +++ event ∷ []),
        rw
            (
              prepare_commit, read, validate_commit, fitting.valid, writable.content_made,
              writable.read, fitting.bound, fitting.fits, same, workflow, fitting.named,
              fitting.dated, fitting.enters, fitting.previous, fitting.history, writable.state_made,
              writable.output_made, writable.text_made,
            )
            refl,
      )

  -- A Commit that fits succeeds, if no call of the operating system fails.
  pub commit-fitting :
      (w : World) (before : List Event) (definition : Workflow)
      → IsQuietFrom device w.clock
      → AreReadable w.files
      → read_events services w.files ≡ ok before
      → IsFitting services w.files before next event definition
      → IsWritable services before next event
      → (commit device services next event w).0 ≡ ok tt
  commit-fitting w before definition quiet readable read fitting writable =
      let (contents, prepared) =
        prepare_commit-fitting w.files before definition read fitting writable in
      commit-prepared w contents quiet readable prepared
