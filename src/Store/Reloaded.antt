-- ===== src/Store/Reloaded.antt =====
-- internal/store/store.go: LoadBound and Events after a Commit.
use mathlib.Core.List.{◌++◌ as ◌+++◌}
use fanloop.Base.{
  ◌≡◌, refl, sym, ap, ◌∙◌, subst, inl, inr, true, false, Option, none, some, List, [], ◌∷◌, String,
  arith, eq_refl, Option-cases, is_none, ok, All, >>=-eq-ok, >>-eq-ok, guard-eq-ok, ok-injective,
}
use fanloop.Workflow.{Workflow}
use fanloop.Storage.Messages
use fanloop.State.{State, Event}
use fanloop.State.Checks.{validate, validate_against, validate_cursor_against}
use fanloop.State.History.{validate_event_against, validate_history}
use fanloop.State.Persistence.Documents.{
  registered, new_output_registry, to_storage_idl, registry_to_idl, encode, encode_output_registry,
  clone_registered_outputs,
}
use fanloop.State.Persistence.Events.{encode_event, decode_event}
use fanloop.State.Persistence.Decoded.{ReadsBack, IsReadable, decode-encode}
use fanloop.State.Persistence.Restored.{IsCanonical}
use fanloop.State.Persistence.Registered.{decode_output_registry-canonical}
use fanloop.Store.{
  File, state_file, output_file, events_file, pin_file, file_code, Files, World, Device,
  state_corrupt, local_commit_failed, Services,
}
use fanloop.Store.Reading.{
  or_code, found_or, load, load_entry, load_content, load_outputs, read_events, read_pin,
  load_workflow, knows_current_step, load_bound,
}
use fanloop.Store.Commit.{
  validate_commit, check_previous, encode_lines, contents_of, prepare_commit, commit,
}
use fanloop.Store.Faults.{IsQuietFrom}
use fanloop.Store.Lines.{IsDurable, or_code-eq-ok, decode_lines-encode_lines}
use fanloop.Store.Written.{last_content, entry_after, private_file, commit-written}

-- What the libraries guarantee of a State and its Output Registry: what is written reads as it was.
pub record IsDurableState (services : Services) (s : State) : Type 0 where
  pub created : IsReadable services.codec s.created_at
  pub updated : IsReadable services.codec s.updated_at
  pub message :
      (stored : Messages.FlowState)
      → to_storage_idl services.env services.codec s ≡ ok stored
      → ReadsBack services.codec.states stored
  pub header :
      (content : String)
      → encode services.env services.codec s ≡ ok content
      → services.header_version content ≡ some 16
  pub outputs :
      All
        (λ entry. IsCanonical services.codec entry.1.value)
        (registered (clone_registered_outputs s.outputs))
  pub registry :
      (stored : Messages.OutputRegistry)
      → registry_to_idl services.env services.codec (new_output_registry s) ≡ ok stored
      → ReadsBack services.codec.registries stored

module _ (services : Services) (next : State) (event : Event) where
  -- What validateCommit has checked.
  record IsChecked (files : Files) (before : List Event) : Type 0 where
    valid : validate services.env next ≡ ok tt
    definition : Workflow
    bound : load_workflow services files next.release.workflow ≡ ok definition
    fits : validate_against services.env.parse definition next ≡ ok tt
    history : validate_history services.env.parse definition (before +++ event ∷ []) next ≡ ok tt

  validate_commit-IsChecked :
      (files : Files) (before : List Event)
      → validate_commit services files before next event ≡ ok tt
      → IsChecked files before
  unfolding validate_commit
  validate_commit-IsChecked files before h =
      let (valid, h1) = >>-eq-ok (or_code state_corrupt (validate services.env next)) _ h in
      let (content, encoded, h2) =
        >>=-eq-ok
          (or_code state_corrupt (encode_event services.env services.codec services.cases event)) _
          h1 in
      let (decoded, read, h3) =
        >>=-eq-ok
          (or_code state_corrupt (decode_event services.env services.codec services.cases content))
          _ h2 in
      let (definition, bound, h4) =
        >>=-eq-ok (or_code state_corrupt (load_workflow services files next.release.workflow)) _
          h3 in
      let (fits, h5) =
        >>-eq-ok (or_code state_corrupt (validate_against services.env.parse definition next)) _
          h4 in
      let (same, h6) = guard-eq-ok _ state_corrupt _ h5 in
      let (entered, h7) =
        >>-eq-ok
          (or_code state_corrupt (validate_event_against services.env.parse definition true event))
          _ h6 in
      let (previous, history) = >>-eq-ok (check_previous services files before) _ h7 in
      record {
        valid = or_code-eq-ok state_corrupt _ tt valid;
        definition = definition;
        bound = or_code-eq-ok state_corrupt _ definition bound;
        fits = or_code-eq-ok state_corrupt _ tt fits;
        history = or_code-eq-ok state_corrupt _ tt history;
      }

  record IsPrepared (files : Files) (contents : List (File × String)) : Type 0 where
    before : List Event
    read : read_events services files ≡ ok before
    checked : IsChecked files before
    state : String
    state_made : encode services.env services.codec next ≡ ok state
    output : String
    output_made :
        encode_output_registry services.env services.codec (new_output_registry next) ≡ ok output
    text : String
    text_made : encode_lines services (before +++ event ∷ []) ≡ ok text
    loaded : Workflow
    made : contents_of services state output text next loaded (before +++ event ∷ []) ≡ contents

  prepare_commit-IsPrepared :
      (files : Files) (contents : List (File × String))
      → prepare_commit services files next event ≡ ok contents
      → IsPrepared files contents
  unfolding prepare_commit
  prepare_commit-IsPrepared files contents h =
      let (before, read, h1) = >>=-eq-ok (read_events services files) _ h in
      let (checked, h2) = >>-eq-ok (validate_commit services files before next event) _ h1 in
      let (loaded, found, h3) =
        >>=-eq-ok (or_code state_corrupt (load_workflow services files next.release.workflow)) _
          h2 in
      let (state, state_made, h4) =
        >>=-eq-ok (or_code local_commit_failed (encode services.env services.codec next)) _ h3 in
      let (output, output_made, h5) =
        >>=-eq-ok
          (or_code local_commit_failed
            (encode_output_registry services.env services.codec (new_output_registry next)))
          _ h4 in
      let (text, text_made, last) =
        >>=-eq-ok (encode_lines services (before +++ event ∷ [])) _ h5 in
      record {
        before = before;
        read = read;
        checked = validate_commit-IsChecked files before checked;
        state = state;
        state_made = or_code-eq-ok local_commit_failed _ state state_made;
        output = output;
        output_made = or_code-eq-ok local_commit_failed _ output output_made;
        text = text;
        text_made = text_made;
        loaded = loaded;
        made = ok-injective last;
      }

-- The last write of each of the files that LoadBound reads.
contents-found :
    (services : Services) (state output text : String) (next : State) (loaded : Workflow)
    (events : List Event)
    → (last_content state_file (contents_of services state output text next loaded events)
        ≡ some state)
      × (last_content output_file (contents_of services state output text next loaded events)
          ≡ some output)
      × (last_content events_file (contents_of services state output text next loaded events)
          ≡ some text)
      × (last_content pin_file (contents_of services state output text next loaded events) ≡ none)
unfolding contents_of last_content file_code
contents-found services state output text next loaded events =
    elim (Option-cases (services.render_trace_config next events)) [
      | inl missing ↦ (rw missing refl, rw missing refl, rw missing refl, rw missing refl)
      | inr (config, found) ↦ (rw found refl, rw found refl, rw found refl, rw found refl)
    ]

read_pin-same :
    (services : Services) (files later : Files)
    → later pin_file ≡ files pin_file
    → read_pin services later ≡ read_pin services files
unfolding read_pin
read_pin-same services files later same = rw (read_pin, same) refl

load_workflow-same :
    (services : Services) (files later : Files) (id : String)
    → later pin_file ≡ files pin_file
    → load_workflow services later id ≡ load_workflow services files id
unfolding load_workflow
load_workflow-same services files later id same = rw (read_pin-same services files later same) refl

pub knows_current_step-eq-true :
    (services : Services) (definition : Workflow) (s : State)
    → validate_against services.env.parse definition s ≡ ok tt
    → knows_current_step services definition s ≡ true
unfolding validate_against validate_cursor_against knows_current_step
knows_current_step-eq-true services definition s h = ground arith

present : (s : State) → is_none s.outputs ≡ false → clone_registered_outputs s.outputs ≡ s.outputs
unfolding clone_registered_outputs
present s h = elim (Option-cases s.outputs) [
  | inl missing ↦ absurd (ground (arith, missing, h))
  | inr (m, there) ↦ rw there refl
]

outputs_there :
    (services : Services) (s : State) → validate services.env s ≡ ok tt → is_none s.outputs ≡ false
unfolding validate
outputs_there services s h = ground arith

module _ (services : Services) (next : State) (later : Files) (state output : String)
    (state_there : later state_file ≡ private_file state)
    (output_there : later output_file ≡ private_file output)
    (durable : IsDurableState services next) (valid : validate services.env next ≡ ok tt)
    (state_made : encode services.env services.codec next ≡ ok state)
    (output_made : encode_output_registry services.env services.codec (new_output_registry next)
      ≡ ok output) where
  load_outputs-committed : load_outputs services later ≡ ok (new_output_registry next)
  unfolding load_outputs new_output_registry or_code
  load_outputs-committed =
      rw
        (
          load_outputs,
          output_there,
          decode_output_registry-canonical services.env services.codec (new_output_registry next)
              output durable.outputs durable.registry output_made,
        )
        refl

  load-committed : load services later ≡ ok next
  unfolding load load_entry load_content new_output_registry found_or
  load-committed =
      let same = present next (outputs_there services next valid) in
      let decoded =
        decode-encode services.env services.codec next state durable.created durable.updated
          durable.message state_made in
      rw
        (
          load,
          state_there,
          load_content,
          durable.header state state_made,
          load_outputs-committed,
          same,
          decoded,
          eq_refl next.release.workflow,
        )
        refl

read_events-committed :
    (services : Services) (events : List Event) (later : Files) (text : String)
    → later events_file ≡ private_file text
    → All (IsDurable services) events
    → encode_lines services events ≡ ok text
    → read_events services later ≡ ok events
unfolding read_events
read_events-committed services events later text there durable made =
    rw (read_events, there, decode_lines-encode_lines services events text durable made) refl

module _ (device : Device) (services : Services) (next : State) (event : Event) where
  committed :
      (w : World) (contents : List (File × String)) (file : File) (entry : Option String)
      → ((other : File)
          → (commit device services next event w).1.files other
            ≡ entry_after (last_content other contents) (w.files other))
      → last_content file contents ≡ entry
      → (commit device services next event w).1.files file ≡ entry_after entry (w.files file)
  committed w contents file entry held found =
      held file ∙ ap (λ o. entry_after o (w.files file)) found

  -- After a Commit that succeeds, LoadBound gives the committed State and its Workflow, and Events
  -- the stored Events with the new one behind them, if no call of the operating system fails and
  -- the libraries read the State, its Outputs and the Events as they were written.
  pub load_bound-commit :
      (w : World) (before : List Event)
      → IsQuietFrom device w.clock
      → read_events services w.files ≡ ok before
      → IsDurableState services next
      → All (IsDurable services) (before +++ event ∷ [])
      → (commit device services next event w).0 ≡ ok tt
      → (definition : Workflow) × (load_bound services (commit device services next event w).1.files
          ≡ ok (next, definition))
        × (read_events services (commit device services next event w).1.files
            ≡ ok (before +++ event ∷ []))
  unfolding load_bound or_code entry_after
  load_bound-commit w before quiet read durable lasting h =
      let (contents, prepared, held) = commit-written device services next event w quiet h in
      let facts = prepare_commit-IsPrepared services next event w.files contents prepared in
      let later = (commit device services next event w).1.files in
      let same : facts.before ≡ before = ok-injective (sym facts.read ∙ read) in
      let checked = facts.checked in
      let (state, output, text, pin) =
        contents-found services facts.state facts.output facts.text next facts.loaded
          (facts.before +++ event ∷ []) in
      let at : (file : File) (entry : Option String)
          → last_content file (
              contents_of services facts.state facts.output facts.text next facts.loaded
                (facts.before +++ event ∷ []))
            ≡ entry
          → later file ≡ entry_after entry (w.files file) =
        λ file entry found.
          committed w contents file entry held (ap (last_content file) (sym facts.made) ∙ found) in
      let loaded =
        load-committed services next later facts.state facts.output (at state_file _ state)
          (at output_file _ output) durable checked.valid facts.state_made facts.output_made in
      let events : read_events services later ≡ ok (facts.before +++ event ∷ []) =
        read_events-committed services (facts.before +++ event ∷ []) later facts.text
          (at events_file _ text)
          (subst (λ b. All (IsDurable services) (b +++ event ∷ [])) (sym same) lasting)
          facts.text_made in
      let bound =
        load_workflow-same services w.files later next.release.workflow (at pin_file _ pin)
        ∙ checked.bound in
      (
        checked.definition,
        rw
            (
              loaded,
              bound,
              knows_current_step-eq-true services checked.definition next checked.fits,
              checked.fits,
              events,
              checked.history,
            )
            refl,
        subst (λ b. read_events services later ≡ ok (b +++ event ∷ [])) same events,
      )
