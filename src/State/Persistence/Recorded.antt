-- ===== src/State/Persistence/Recorded.antt =====
-- internal/state/persistence.go: an Event that EncodeEvent has written is what DecodeEvent reads, and
-- an Output Registry that EncodeOutputRegistry has written is what DecodeOutputRegistry reads.
use Prim.Native.String.{◌++◌}
use fanloop.Base.{
  All-map, ℕ, ◌≡◌, refl, sym, ◌∙◌, subst, true, not, String, arith, nat_eq, All, ok, >>=-eq-ok,
  >>-eq-ok, guard-eq-ok, ok-injective,
}
use fanloop.Workflow.Output.{UrlParser}
use fanloop.Storage.{trace_target, event_kind, event_kind-distinct}
use fanloop.Storage.Messages
use fanloop.Json.Value.Canonical.{IsPlainMessage}
use fanloop.Storage.Messages.{count_set_fields}
use fanloop.Storage.Valid.{event_valid}
use fanloop.State.{
  ConditionResult, Payload, flow_initialized, flow_progress, flow_result, trace_document_bound,
  trace_sync_started, trace_synced, other_payload, EventKind, initialized, progressed, result,
  document_bound, sync_started, synced, Event, valid_step_status, valid_evidence,
  state_schema_version,
}
use fanloop.State.Checks.{Env}
use fanloop.State.Payloads.{
  validate_event_payload, validate_payload, validate_result_payload, expected_command,
  is_entry_status, is_report_status, is_outcome,
}
use fanloop.State.Spellings.{
  kind_spelling, replace_dot, is_listed_kind, is_listed_outcome, kind_of-replace_underscore,
}
use fanloop.State.Persistence.{
  Codec, not_valid, union_invalid, envelope_invalid, workflow_ref_from_idl, workflow_ref_to_idl,
  message_invalid, json_invalid, wrap, or_error, named, convert_each, is_json_space,
}
use fanloop.State.Persistence.Events.{
  Cases, payload_to_idl, payload_from_idl, initialized_to_idl, progressed_to_idl,
  flow_result_to_idl, bound_to_idl, trace_synced_to_idl, validate_event_envelope, event_message,
  event_to_idl, encode_event, event_from_idl, decode_event,
}
use fanloop.State.Persistence.Documents.{int32}
use fanloop.State.Persistence.Parts.{get_or_empty-some_text, or_error-eq-ok, to_string-named}
use fanloop.State.Persistence.Decoded.{
  ReadsBack, IsReadable, decode_storage_json-written, wrap-eq-ok, int32-state,
}
use fanloop.State.Persistence.Restored.{
  IsCanonical, IsPlainMessage-IsCanonical, HasReadableCode, initialized-back, progressed-back,
  bound-back, targets-back, trace_synced-back, flow_result-back,
}

-- What is left as it was of a payload: its JSON values and its error codes.
unfoldable pub IsRestorable : Codec → Cases → Payload → Type 0
IsRestorable codec cases (flow_result p) =
    All (λ r. IsCanonical codec r.output.value) p.condition_results
IsRestorable codec cases (trace_synced p) = All (HasReadableCode cases) p.targets
IsRestorable codec cases _ = Unit

-- A payload whose JSON values are plain, and whose error codes `strings.ToLower` gives back.
unfoldable pub IsPlainPayload : Codec → Cases → Payload → Type 0
IsPlainPayload codec cases (flow_result p) =
    All (λ r. IsPlainMessage codec.parse_float r.output.value) p.condition_results
IsPlainPayload codec cases (trace_synced p) = All (HasReadableCode cases) p.targets
IsPlainPayload codec cases _ = Unit

IsPlainPayload-IsRestorable :
    (codec : Codec) (cases : Cases) (payload : Payload)
    → IsPlainPayload codec cases payload
    → IsRestorable codec cases payload
unfolding IsPlainPayload IsRestorable
IsPlainPayload-IsRestorable codec cases (flow_result p) plain =
    All-map (λ (r : ConditionResult). IsPlainMessage codec.parse_float r.output.value)
      (λ r. IsCanonical codec r.output.value) p.condition_results
      (λ r. IsPlainMessage-IsCanonical codec r.output.value) plain
IsPlainPayload-IsRestorable codec cases (trace_synced p) plain = plain
IsPlainPayload-IsRestorable codec cases (flow_initialized p) plain = tt
IsPlainPayload-IsRestorable codec cases (flow_progress p) plain = tt
IsPlainPayload-IsRestorable codec cases (trace_document_bound p) plain = tt
IsPlainPayload-IsRestorable codec cases (trace_sync_started p) plain = tt
IsPlainPayload-IsRestorable codec cases other_payload plain = tt

-- What ValidateEventPayload has checked of the names in a payload.
abbrev IsNamed : UrlParser → Payload → Type 0
IsNamed parse (flow_initialized p) = is_entry_status p.step_status ≡ true
IsNamed parse (flow_progress p) =
    (valid_step_status p.from_step_status ≡ true)
    × (is_report_status p.to_step_status ≡ true)
    × (valid_evidence p.evidence ≡ true)
IsNamed parse (flow_result p) = validate_result_payload parse p ≡ ok tt
IsNamed parse (trace_synced p) = is_listed_outcome p.outcome ≡ true
IsNamed parse _ = Unit

validate_payload-IsNamed :
    (env : Env) (e : Event) (payload : Payload)
    → e.payload ≡ payload
    → validate_payload env e ≡ ok tt
    → IsNamed env.parse payload
unfolding validate_payload is_outcome is_listed_outcome
validate_payload-IsNamed env e (flow_initialized p) same h = ground (arith, same, h)
validate_payload-IsNamed env e (flow_progress p) same h =
    (ground (arith, same, h), ground (arith, same, h), ground (arith, same, h))
validate_payload-IsNamed env e (flow_result p) same h = ground (arith, same, h)
validate_payload-IsNamed env e (trace_document_bound p) same h = tt
validate_payload-IsNamed env e (trace_sync_started p) same h = tt
validate_payload-IsNamed env e (trace_synced p) same h = ground (arith, same, h)
validate_payload-IsNamed env e other_payload same h = tt

payload-back :
    (parse : UrlParser) (codec : Codec) (cases : Cases) (kind : EventKind) (payload : Payload)
    (m : Messages.EventPayload)
    → IsNamed parse payload
    → IsRestorable codec cases payload
    → payload_to_idl codec cases kind payload ≡ ok m
    → payload_from_idl codec cases kind m ≡ ok payload
unfolding payload_to_idl payload_from_idl or_error IsRestorable
payload-back parse codec cases initialized (flow_initialized p) m known good h =
    let (stored, made, last) = >>=-eq-ok (initialized_to_idl p) _ h in
    rw (sym (ok-injective last), initialized-back p stored known made) refl
payload-back parse codec cases progressed (flow_progress p) m known good h =
    let (stored, made, last) = >>=-eq-ok (progressed_to_idl p) _ h in
    rw (sym (ok-injective last), progressed-back p stored known.0 known.1 known.2 made) refl
payload-back parse codec cases result (flow_result p) m known good h =
    let (stored, made, last) = >>=-eq-ok (flow_result_to_idl codec p) _ h in
    rw (sym (ok-injective last), flow_result-back codec parse p stored known good made) refl
payload-back parse codec cases document_bound (trace_document_bound p) m known good h =
    let (stored, made, last) = >>=-eq-ok (bound_to_idl p) _ h in
    rw (sym (ok-injective last), bound-back p stored made) refl
payload-back parse codec cases sync_started (trace_sync_started targets) m known good h =
    let (stored, made, last) = >>=-eq-ok (convert_each (named trace_target) targets) _ h in
    rw (sym (ok-injective last), targets-back targets stored made) refl
payload-back parse codec cases synced (trace_synced p) m known good h =
    let (stored, made, last) = >>=-eq-ok (trace_synced_to_idl cases p) _ h in
    rw (sym (ok-injective last), trace_synced-back cases p stored known good made) refl
payload-back parse codec cases kind payload m known good h = cc

module _ (env : Env) (codec : Codec) (cases : Cases) (e : Event) where
  -- What EncodeEvent has done once it has the message of an Event.
  record IsConverted (stored : Messages.Event) : Type 0 where
    payload : Messages.EventPayload
    code : ℕ
    checked : validate_event_envelope env codec cases e ≡ ok tt
    payload_made : payload_to_idl codec cases e.kind e.payload ≡ ok payload
    kind_made : named event_kind (replace_dot (kind_spelling e.kind)) ≡ ok code
    single : nat_eq (count_set_fields payload) 1 ≡ true
    valid : event_valid (event_message env codec cases e code payload) ≡ true
    made : event_message env codec cases e code payload ≡ stored

  event_to_idl-IsConverted :
      (stored : Messages.Event) → event_to_idl env codec cases e ≡ ok stored → IsConverted stored
  unfolding event_to_idl
  event_to_idl-IsConverted stored h =
      let (checked, h1) = >>-eq-ok (validate_event_envelope env codec cases e) _ h in
      let (payload, payload_made, h2) =
        >>=-eq-ok (payload_to_idl codec cases e.kind e.payload) _ h1 in
      let (code, kind_made, h3) =
        >>=-eq-ok (named event_kind (replace_dot (kind_spelling e.kind))) _ h2 in
      let (single, h4) =
        guard-eq-ok (not (nat_eq (count_set_fields payload) 1)) union_invalid _ h3 in
      let (valid, h5) =
        guard-eq-ok (not (event_valid (event_message env codec cases e code payload)))
          message_invalid _ h4 in
      record {
        payload = payload;
        code = code;
        checked = checked;
        payload_made = payload_made;
        kind_made = kind_made;
        single = ground (arith, single);
        valid = ground (arith, valid);
        made = ok-injective h5;
      }

  envelope_parts :
      validate_event_envelope env codec cases e ≡ ok tt
      → (e.schema_version ≡ 16) × (validate_event_payload env e ≡ ok tt)
  unfolding validate_event_envelope
  envelope_parts h =
      let (guard, rest) =
        guard-eq-ok _ envelope_invalid (wrap not_valid (validate_event_payload env e)) h in
      (ground (arith, guard), wrap-eq-ok not_valid (validate_event_payload env e) tt rest)

  payload_parts :
      validate_event_payload env e ≡ ok tt
      → (is_listed_kind e.kind ≡ true) × (validate_payload env e ≡ ok tt)
  unfolding validate_event_payload expected_command is_listed_kind
  payload_parts h = (ground arith, ground arith)

  event_from_idl-stored :
      (stored : Messages.Event)
      → IsReadable codec e.occurred_at
      → IsRestorable codec cases e.payload
      → event_to_idl env codec cases e ≡ ok stored
      → event_from_idl env codec cases stored ≡ ok e
  unfolding event_from_idl IsReadable or_error workflow_ref_from_idl workflow_ref_to_idl
  event_from_idl-stored stored readable good h =
      let facts = event_to_idl-IsConverted stored h in
      let (version, valid) = envelope_parts facts.checked in
      let (listed, payload_valid) = payload_parts valid in
      let same = int32-state e.schema_version version in
      let current : nat_eq (int32 e.schema_version) state_schema_version ≡ true =
        subst (λ v. nat_eq v state_schema_version ≡ true) (sym (same ∙ version)) refl in
      let spelled =
        to_string-named event_kind (replace_dot (kind_spelling e.kind)) facts.code
          event_kind-distinct facts.kind_made in
      let back =
        payload-back env.parse codec cases e.kind e.payload facts.payload
          (validate_payload-IsNamed env e e.payload refl payload_valid) good facts.payload_made in
      subst (λ m. event_from_idl env codec cases m ≡ ok e) facts.made
        (rw
          (
            current,
            facts.valid,
            facts.single,
            readable,
            spelled,
            kind_of-replace_underscore e.kind listed,
            back,
            get_or_empty-some_text e.caused_by_event_id,
            same,
            facts.checked,
          )
          refl)

  pub decode_event-restorable :
      (content space : String)
      → IsReadable codec e.occurred_at
      → IsRestorable codec cases e.payload
      → ((stored : Messages.Event)
          → event_to_idl env codec cases e ≡ ok stored
          → ReadsBack codec.events stored)
      → is_json_space space ≡ true
      → encode_event env codec cases e ≡ ok content
      → decode_event env codec cases (content ++ space) ≡ ok e
  unfolding encode_event decode_event
  decode_event-restorable content space readable good back blank h =
      let (stored, converted, marshalled) = >>=-eq-ok (event_to_idl env codec cases e) _ h in
      let written = or_error-eq-ok json_invalid (codec.events.write stored) content marshalled in
      let read =
        decode_storage_json-written codec.events stored content space (back stored converted)
          written blank in
      rw (read, event_from_idl-stored stored readable good converted) refl

  -- DecodeEvent gives back the Event that EncodeEvent has written, white space behind it included,
  -- if its JSON values list the keys of each object once and in order, and if the library calls read
  -- its time, its error codes, its numbers that are no int64 and its message as they were written.
  pub decode_event-encode_event :
      (content space : String)
      → IsReadable codec e.occurred_at
      → IsPlainPayload codec cases e.payload
      → ((stored : Messages.Event)
          → event_to_idl env codec cases e ≡ ok stored
          → ReadsBack codec.events stored)
      → is_json_space space ≡ true
      → encode_event env codec cases e ≡ ok content
      → decode_event env codec cases (content ++ space) ≡ ok e
  decode_event-encode_event content space readable plain back blank h =
      decode_event-restorable content space readable
        (IsPlainPayload-IsRestorable codec cases e.payload plain) back blank h
