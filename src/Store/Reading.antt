-- ===== src/Store/Reading.antt =====
-- internal/store/store.go: Exists, Load, loadOutputs, LoadBound, Events, LoadWorkflow, readPin.
use Prim.Native.Char.{code}
use fanloop.Base.{
  Bool, true, false, not, ◌&&◌, ◌||◌, Option, none, some, List, [], ◌∷◌, String, ◌==◌, nat_eq,
  if◌then◌else◌, is_none, is_blank, Result, ok, err, ◌>>=◌, ◌>>◌, refuse_if,
}
use fanloop.Workflow.{Workflow, find_step}
use fanloop.State.{State, Event, state_schema_version}
use fanloop.State.Checks.{validate_against}
use fanloop.State.History.{validate_history}
use fanloop.State.Persistence.{PersistenceError, schema_unsupported}
use fanloop.State.Persistence.Documents.{OutputRegistry, decode, decode_output_registry}
use fanloop.State.Persistence.Events.{decode_event}
use fanloop.Store.{
  state_file, output_file, events_file, pin_file, Entry, absent, unreadable, regular, Files,
  StoreError, not_initialized, state_corrupt, state_schema_unsupported, workflow_mismatch, Services,
}

-- A call whose error the Store reports under a code of its own.
unfoldable pub or_code {ℓ} :
    {E : Type 0} {A : Type ℓ} → StoreError → Result E A → Result StoreError A
or_code code (ok a) = ok a
or_code code (err e) = err code

unfoldable pub found_or {ℓ} : {A : Type ℓ} → StoreError → Option A → Result StoreError A
found_or code none = err code
found_or code (some a) = ok a

-- `Exists`
unfoldable pub exists : Files → Bool
exists files = elim (files state_file) [ absent ↦ false | unreadable ↦ true | regular s ↦ true ]

-- The texts that `ReadBytes('\n')` returns up to the end of the file.
unfoldable pub lines : String → List String
lines String.[] = []
lines (String.◌∷◌ c s) =
    let rest = lines s in
    if nat_eq (code c) 10
    then String.◌∷◌ c "" ∷ rest
    else elim rest [ [] ↦ String.◌∷◌ c "" ∷ [] | l ∷ ls ↦ String.◌∷◌ c l ∷ ls ]

-- `strings.TrimSuffix(s, "\n")`
unfoldable pub trim_newline : String → String
trim_newline String.[] = ""
trim_newline (String.◌∷◌ c s) =
    let rest = trim_newline s in if nat_eq (code c) 10 && s == "" then "" else String.◌∷◌ c rest

unfoldable pub has_newline : String → Bool
has_newline String.[] = false
has_newline (String.◌∷◌ c s) = nat_eq (code c) 10 || has_newline s

-- The answer of Load to an error of `state.Decode`.
unfoldable pub decode_code : PersistenceError → StoreError
decode_code schema_unsupported = state_schema_unsupported
decode_code _ = state_corrupt

module _ (services : Services) where
  unfoldable pub load_outputs : Files → Result StoreError OutputRegistry
  load_outputs files = elim (files output_file) [
    | absent ↦ err state_corrupt
    | unreadable ↦ err state_corrupt
    | regular stored ↦
        or_code state_corrupt (decode_output_registry services.env services.codec stored.content)
  ]

  -- `Load`, once the State file is read.
  unfoldable pub load_content : Files → String → Result StoreError State
  load_content files content = do
    version ← found_or state_corrupt (services.header_version content)
    refuse_if (nat_eq version 0) state_corrupt
    refuse_if (not (nat_eq version state_schema_version)) state_schema_unsupported
    registry ← load_outputs files
    value ← elim (decode services.env services.codec content registry.outputs) [
      | ok s ↦ ok s
      | err e ↦ err (decode_code e)
    ]
    refuse_if (not (registry.workflow == value.release.workflow)) state_corrupt
    ok value

  unfoldable pub load_entry : Files → Entry → Result StoreError State
  load_entry files absent = err not_initialized
  load_entry files unreadable = err state_corrupt
  load_entry files (regular stored) = load_content files stored.content

  -- `Load`
  unfoldable pub load : Files → Result StoreError State
  load files = load_entry files (files state_file)

  unfoldable pub decode_lines : List String → Result StoreError (List Event)
  decode_lines [] = ok []
  decode_lines (line ∷ rest) = if is_blank line then decode_lines rest else (do
    event ← or_code state_corrupt (decode_event services.env services.codec services.cases line)
    events ← decode_lines rest
    ok (event ∷ events))

  -- `Events`
  unfoldable pub read_events : Files → Result StoreError (List Event)
  read_events files = elim (files events_file) [
    | absent ↦ ok []
    | unreadable ↦ err state_corrupt
    | regular stored ↦ decode_lines (lines stored.content)
  ]

  -- `readPin`; none is a requirement with no pin.
  unfoldable pub read_pin : Files → Result StoreError (Option String)
  read_pin files = elim (files pin_file) [
    | absent ↦ ok none
    | unreadable ↦ err state_corrupt
    | regular stored ↦ do
      let source = trim_newline (stored.content)
      refuse_if (has_newline source || source == "" || not (services.is_clean_path source))
          state_corrupt
      ok (some source)
  ]

  -- `LoadWorkflow`; its callers give the error their own code.
  unfoldable pub load_workflow : Files → String → Result StoreError Workflow
  load_workflow files id = do
    pin ← read_pin files
    elim pin [
      | none ↦ found_or state_corrupt (services.loader.load id)
      | some source ↦ do
        root ← found_or state_corrupt (services.loader.source_root source)
        found_or state_corrupt (services.loader.load_from root id)
    ]

  -- Whether the current step is a step of the bundle.
  unfoldable pub knows_current_step : Workflow → State → Bool
  knows_current_step definition s = elim s.current_step_id [
    | none ↦ true
    | some id ↦ not (is_none (find_step definition id))
  ]

  unfoldable pub load_bound : Files → Result StoreError (State × Workflow)
  load_bound files = do
    current ← load files
    loaded ← or_code workflow_mismatch (load_workflow files current.release.workflow)
    refuse_if (not (knows_current_step loaded current)) workflow_mismatch
    or_code state_corrupt (validate_against services.env.parse loaded current)
    events ← read_events files
    or_code state_corrupt (validate_history services.env.parse loaded events current)
    ok (current, loaded)
