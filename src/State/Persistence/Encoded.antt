-- ===== src/State/Persistence/Encoded.antt =====
-- internal/state/persistence.go: Encode succeeds on every State that Validate accepts, where the libraries
-- write every message that holds no JsonValue.
use Prim.Native.String.{◌++◌}
use fanloop.Base.{
  ℕ, ◌≡◌, refl, sym, ap, inl, inr, Bool, true, false, not, Option, none, some, List, [], ◌∷◌,
  String, ◌==◌, arith, eq_iff, nat_eq, Bool-cases, Option-cases, is_blank, Result-cases, ok,
  >>=-eq-ok, >>-eq-ok, guard-eq-ok, ok-injective,
}
use fanloop.Storage.{step_status, evidence_source, event_kind}
use fanloop.Storage.Messages
use fanloop.Storage.Messages.{count_set_fields, some_text}
use fanloop.Storage.Valid.{
  optional, is_specified, integrations_valid, flow_state_valid, event_valid,
}
use fanloop.State.{
  State, Event, Evidence, StepStatus, unset, ready, in_progress, fixing, blocked,
  awaiting_confirmation, other_status, EvidenceSource, human, system, ai, file, other_source,
  is_listed_source, valid_evidence, valid_step_status,
}
use fanloop.State.Checks.{Env, validate, valid_cursor}
use fanloop.State.Spellings.{status_spelling, source_spelling, kind_spelling, replace_dot}
use fanloop.State.Persistence.{
  Codec, wrap, or_error, convert_each, named, evidence_item_to_idl, evidence_to_idl,
  requirement_to_idl, release_to_idl, workflow_ref_to_idl, not_valid, message_invalid,
}
use fanloop.State.Persistence.Documents.{
  marshal_indented, binding_to_idl, cursor_to_idl, flow_message, flow_state_to_idl, to_storage_idl,
  encode,
}
use fanloop.State.Persistence.Events.{
  Cases, payload_to_idl, validate_event_envelope, event_message, event_to_idl, encode_event,
}
use fanloop.State.Persistence.Decoded.{int32-state, wrap-eq-ok}

-- `json.Marshal` makes a document of every message that holds no JsonValue, which has a MarshalJSON of
-- its own, and `time.Format` a text of every time.
pub record IsWriting (codec : Codec) : Type 0 where
  pub states : (m : Messages.FlowState) → (text : String) × (codec.states.write m ≡ some text)
  pub registries :
      (m : Messages.OutputRegistry)
      → m.outputs ≡ []
      → (text : String) × (codec.registries.write m ≡ some text)
  pub events :
      (m : Messages.Event) (payload : Messages.EventPayload)
      → m.payload ≡ some payload
      → payload.flow_result ≡ none
      → (text : String) × (codec.events.write m ≡ some text)
  pub times : (t : ℕ) → codec.format_time t == "" ≡ false

pub status-named :
    (s : StepStatus)
    → valid_step_status s ≡ true
    → (code : ℕ) × (named step_status (status_spelling s) ≡ ok code)
      × (is_specified step_status code ≡ true)
unfolding named status_spelling valid_step_status or_error fanloop.Storage.from_string is_specified
    fanloop.Storage.to_string
status-named unset valid = absurd (cc valid)
status-named ready valid = (1, refl, refl)
status-named in_progress valid = (2, refl, refl)
status-named fixing valid = (3, refl, refl)
status-named blocked valid = (4, refl, refl)
status-named awaiting_confirmation valid = (6, refl, refl)
status-named (other_status s) valid = absurd (cc valid)

source-named :
    (s : EvidenceSource)
    → is_listed_source s ≡ true
    → (code : ℕ) × (named evidence_source (source_spelling s) ≡ ok code)
unfolding named source_spelling is_listed_source or_error fanloop.Storage.from_string
source-named human valid = (1, refl)
source-named system valid = (2, refl)
source-named ai valid = (3, refl)
source-named file valid = (4, refl)
source-named EvidenceSource.url valid = (5, refl)
source-named (other_source s) valid = absurd (cc valid)

pub evidence_to_idl-valid :
    (values : List Evidence)
    → valid_evidence values ≡ true
    → (m : List (Option Messages.Evidence)) × (evidence_to_idl values ≡ ok m)
unfolding evidence_to_idl valid_evidence evidence_item_to_idl convert_each
evidence_to_idl-valid [] valid = ([], refl)
evidence_to_idl-valid (v ∷ values) valid =
    let (code, found) = source-named v.source (ground (arith, valid)) in
    let (rest, others) = evidence_to_idl-valid values (ground (arith, valid)) in
    (
      some (record { source = code; content = v.content; ref = some_text v.ref }) ∷ rest,
      rw (evidence_to_idl, convert_each, evidence_item_to_idl, found, others) refl,
    )

is_blank-empty : (s : String) → is_blank s ≡ false → s == "" ≡ false
unfolding is_blank
is_blank-empty s full = elim (Bool-cases (s == "")) [
  | inr other ↦ other
  | inl same ↦
      let here : s ≡ "" = (eq_iff s "").0 same in
      let empty : is_blank s ≡ true = rw here refl in absurd (cc (empty, full))
]

-- What Validate has checked of the parts of a State that are stored.
pub record IsSound (s : State) : Type 0 where
  pub version : s.schema_version ≡ 16
  pub title : s.requirement.title == "" ≡ false
  pub release : s.release.version == "" ≡ false
  pub workflow : s.release.workflow == "" ≡ false
  pub last : s.last_event_id == "" ≡ false
  pub evidence : valid_evidence s.current_evidence ≡ true
  pub cursor : valid_cursor s ≡ ok tt

checked_cursor : (env : Env) (s : State) → validate env s ≡ ok tt → valid_cursor s ≡ ok tt
unfolding validate
checked_cursor env s h = elim (Result-cases (valid_cursor s)) [
  | inl (u, valid) ↦ valid
  | inr (e, failed) ↦ absurd (ground (arith, failed, h))
]

cursor_to_idl-valid :
    (s : State)
    → valid_cursor s ≡ ok tt
    → (c : Option String × Option ℕ) × (cursor_to_idl s.current_step_id s.current_step_status
        ≡ ok c)
      × (optional (is_specified step_status) c.1 ≡ true)
unfolding valid_cursor cursor_to_idl
cursor_to_idl-valid s valid = elim (Option-cases s.current_step_id) [
  | inl missing ↦ ((none, none), rw (missing, cursor_to_idl) refl, refl)
  | inr (id, there) ↦
      let (code, found, good) = status-named s.current_step_status (ground (arith, there, valid)) in
      ((some id, some code), rw (there, cursor_to_idl, found) refl, good)
]

pub validate-IsSound : (env : Env) (s : State) → validate env s ≡ ok tt → IsSound s
unfolding validate
validate-IsSound env s h = record {
  version = ground arith;
  title = is_blank-empty s.requirement.title (ground arith);
  release = ground arith;
  workflow = ground arith;
  last = ground arith;
  evidence = ground arith;
  cursor = checked_cursor env s h;
}

passed : (b : Bool) → not b ≡ false → b ≡ true
passed true h = refl
passed false h = absurd (cc h)

flow_state_valid-integrations :
    (m : Messages.FlowState) (i : Messages.Integrations)
    → flow_state_valid m ≡ true
    → m.integrations ≡ some i
    → integrations_valid i ≡ true
unfolding flow_state_valid
flow_state_valid-integrations m i h there = ground (arith, h, there)

module _ (env : Env) (codec : Codec) (writing : IsWriting codec) where
  flow_message-valid :
      (s : State) (cursor : Option String × Option ℕ) (evidence : List (Option Messages.Evidence))
      (trace : Option Messages.TraceBinding)
      → IsSound s
      → optional (is_specified step_status) cursor.1 ≡ true
      → integrations_valid (record { trace = trace }) ≡ true
      → flow_state_valid (flow_message env codec s cursor evidence trace) ≡ true
  unfolding flow_state_valid requirement_to_idl release_to_idl workflow_ref_to_idl
  flow_message-valid s cursor evidence trace sound specified good =
      rw
        (
          int32-state s.schema_version sound.version,
          sound.version,
          sound.title,
          sound.release,
          sound.workflow,
          specified,
          good,
          sound.last,
          writing.times s.created_at,
          writing.times s.updated_at,
        )
        refl

  -- Encode succeeds on a State that Validate accepts, if its Trace binding can be converted.
  pub encode-valid :
      (s : State) (trace : Option Messages.TraceBinding)
      → validate env s ≡ ok tt
      → binding_to_idl s.trace ≡ ok trace
      → integrations_valid (record { trace = trace }) ≡ true
      → (content : String) × (encode env codec s ≡ ok content)
  unfolding flow_state_to_idl to_storage_idl encode wrap or_error marshal_indented
  encode-valid s trace valid bound good =
      let sound = validate-IsSound env s valid in
      let (cursor, cursor_made, specified) = cursor_to_idl-valid s sound.cursor in
      let (evidence, evidence_made) = evidence_to_idl-valid s.current_evidence sound.evidence in
      let m = flow_message env codec s cursor evidence trace in
      let right = flow_message-valid s cursor evidence trace sound specified good in
      let (content, written) = writing.states m in
      (
        content ++ "\n",
        rw
            (
              encode, to_storage_idl, flow_state_to_idl, valid, cursor_made, evidence_made, bound,
              right, written,
            )
            refl,
      )

  -- EncodeEvent succeeds on an Event that ValidateEventPayload accepts, if its payload can be converted
  -- and is no Result.
  pub encode_event-valid :
      (cases : Cases) (e : Event) (payload : Messages.EventPayload) (code : ℕ)
      → validate_event_envelope env codec cases e ≡ ok tt
      → payload_to_idl codec cases e.kind e.payload ≡ ok payload
      → named event_kind (replace_dot (kind_spelling e.kind)) ≡ ok code
      → nat_eq (count_set_fields payload) 1 ≡ true
      → payload.flow_result ≡ none
      → event_valid (event_message env codec cases e code payload) ≡ true
      → (content : String) × (encode_event env codec cases e ≡ ok content)
  unfolding encode_event event_to_idl or_error
  encode_event-valid cases e payload code checked made kind single other good =
      let (content, written) =
        writing.events (event_message env codec cases e code payload) payload refl other in
      (content, rw (encode_event, event_to_idl, checked, made, kind, single, good, written) refl)

  -- What Encode has converted of a State that it encodes.
  pub encode-parts :
      (s : State) (content : String)
      → encode env codec s ≡ ok content
      → (trace : Option Messages.TraceBinding) × (validate env s ≡ ok tt)
        × (binding_to_idl s.trace ≡ ok trace)
        × (integrations_valid (record { trace = trace }) ≡ true)
  unfolding encode to_storage_idl flow_state_to_idl
  encode-parts s content h =
      let (stored, stored_made, marshalled) = >>=-eq-ok (to_storage_idl env codec s) _ h in
      let (checked, h1) = >>-eq-ok (wrap not_valid (validate env s)) _ stored_made in
      let (m, converted, h2) = >>=-eq-ok (flow_state_to_idl env codec s) _ h1 in
      let (right, last) = guard-eq-ok (not (flow_state_valid m)) message_invalid _ h2 in
      let (cursor, cursor_made, h3) =
        >>=-eq-ok (cursor_to_idl s.current_step_id s.current_step_status) _ converted in
      let (evidence, evidence_made, h4) = >>=-eq-ok (evidence_to_idl s.current_evidence) _ h3 in
      let (trace, bound, h5) = >>=-eq-ok (binding_to_idl s.trace) _ h4 in
      let same : flow_message env codec s cursor evidence trace ≡ m = ok-injective h5 in
      (
        trace,
        wrap-eq-ok not_valid (validate env s) tt checked,
        bound,
        flow_state_valid-integrations m (record { trace = trace })
            (passed (flow_state_valid m) right)
            (ap (λ (v : Messages.FlowState). v.integrations) (sym same)),
      )
