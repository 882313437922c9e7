-- ===== src/Examples/Records.antt =====
-- The theorems on stored documents, run on the first State of a run of the bundle, on the Event that
-- begins it and on a Registry with one Output. The libraries of the examples write every document and
-- every time as one letter.
use Prim.Native.String.{◌++◌}
use Prim.Native.String.append
use Prim.Native.Char.{code}
use fanloop.Base.{
  ℕ, Bool-cases, inl, inr, nat_eq, ◌==◌, if◌then◌else◌, ◌≡◌, refl, sym, ap, ◌∙◌, subst, ok, err, [],
  ◌∷◌, none, some, Option, false, true, Result, String, ok-injective, All, arith,
}
use fanloop.Json.{Json, text, document, RawMessage}
use fanloop.Json.Value.{string_value, from_json, marshal}
use fanloop.Workflow.{string}
use fanloop.Storage.{to_string, from_string}
use fanloop.Storage.Messages
use fanloop.Storage.Messages.{empty_payload}
use fanloop.State.{State, ready, Event, initialized, flow_initialized, RegisteredOutput}
use fanloop.State.Persistence.{Codec, Format, PersistenceError}
use fanloop.State.Persistence.Documents.{
  OutputRegistry, to_storage_idl, registry_to_idl, encode, decode, encode_output_registry,
  decode_output_registry,
}
use fanloop.State.Persistence.Events.{Cases, event_to_idl, encode_event, decode_event}
use fanloop.State.Persistence.Decoded.{ReadsBack, IsReadable, newline_blank, decode-encode}
use fanloop.State.Persistence.Encoded.{IsWriting}
use fanloop.State.Persistence.Recorded.{decode_event-restorable}
use fanloop.Json.Value.Canonical.{IsPlainMessage}
use fanloop.State.Persistence.Registered.{decode_output_registry-encode_output_registry}
use fanloop.Examples.Histories.{env, first_event, started_state}
use fanloop.Examples.Reports.{design}

after_first : {A : Type 0} → A → String → Option (A × String)
after_first a String.[] = none
after_first a (String.◌∷◌ c s) = some (a, s)

-- It knows one document.
unfoldable pub one_letter : {A : Type 0} → A → Format A
unfolding after_first
one_letter a = record { write = λ other. some "S"; read = after_first a }

pub one_letter-ReadsBack : {A : Type 0} (a : A) → ReadsBack (one_letter a) a
unfolding ReadsBack one_letter after_first
one_letter-ReadsBack a = λ content space written blank.
    let here : content ≡ "S" = ground (arith, written) in
    subst (λ t. after_first a (t ++ space) ≡ some (a, space)) (sym here)
      (ap (after_first a) (append.cons "S" String.[] space)
        ∙ ap (λ t. some (a, t)) (append.nil space))

abbrev pub stored_state : Messages.FlowState
stored_state = record {
  schema_version = 16;
  requirement = some (record { title = "Demo"; source_url = none });
  release = some (record { version = "1"; workflow = some (record { id = "small" }) });
  current_step_id = some "plan";
  current_step_status = some 1;
  current_step_summary = some "workflow initialized";
  current_evidence = [];
  integrations = some (record { trace = none });
  last_event_id = "e1";
  created_at = "T";
  updated_at = "T";
  skipped_step_ids = [];
}

abbrev pub stored_event : Messages.Event
stored_event = record {
  schema_version = 16;
  event_id = "e1";
  occurred_at = "T";
  kind = 1;
  command = "flow.init";
  workflow = some (record { id = "small" });
  caused_by_event_id = none;
  payload = some (record empty_payload {
    flow_initialized = some (record { step_id = "plan"; step_status = 1 });
  });
}

abbrev pub stored_registry : Messages.OutputRegistry
stored_registry = record {
  schema_version = 4;
  workflow = some (record { id = "small" });
  outputs = [];
}

-- The Event of the first report of the run.
abbrev pub stored_report : Messages.Event
stored_report = record {
  schema_version = 16;
  event_id = "e2";
  occurred_at = "U";
  kind = 2;
  command = "flow.report.progress";
  workflow = some (record { id = "small" });
  caused_by_event_id = some "e1";
  payload = some (record empty_payload {
    flow_progressed = some (record {
      from_step_id = "plan";
      from_step_status = 1;
      to_step_status = 4;
      summary = "no access";
      evidence = [];
    });
  });
}

abbrev event_document : Messages.Event → String
event_document m = if m.event_id == "e2" then "R" else "S"

abbrev event_message : String → Option (Messages.Event × String)
event_message String.[] = none
event_message (String.◌∷◌ c s) =
    some (if nat_eq (code c) 82 then stored_report else stored_event, s)

-- It knows the documents of the first two Events.
abbrev two_events : Format Messages.Event
two_events = record { write = λ m. some (event_document m); read = event_message }

known_event-ReadsBack :
    (m : Messages.Event)
    → ((space : String) → event_message (event_document m ++ space) ≡ some (m, space))
    → ReadsBack two_events m
unfolding ReadsBack
known_event-ReadsBack m reads = λ content space written blank.
    let here : event_document m ≡ content = cc written in
    subst (λ t. event_message (t ++ space) ≡ some (m, space)) here (reads space)

pub stored_event-ReadsBack : ReadsBack two_events stored_event
stored_event-ReadsBack = known_event-ReadsBack stored_event (λ space.
    ap event_message (append.cons "S" String.[] space)
    ∙ ap (λ t. some (stored_event, t)) (append.nil space))

pub stored_report-ReadsBack : ReadsBack two_events stored_report
stored_report-ReadsBack = known_event-ReadsBack stored_report (λ space.
    ap event_message (append.cons "R" String.[] space)
    ∙ ap (λ t. some (stored_report, t)) (append.nil space))

abbrev codec_of : Messages.OutputRegistry → Codec
codec_of registry = record {
  states = one_letter stored_state;
  registries = one_letter registry;
  events = two_events;
  format_time = λ t. if nat_eq t 2 then "U" else "T";
  parse_time = λ s. some (if s == "U" then 2 else 1);
  parse_float = λ j. none;
}

abbrev pub codec : Codec
codec = codec_of stored_registry

abbrev pub cases : Cases
cases = record { to_lower = λ s. s; to_upper = λ s. s }

pub state_stored : to_storage_idl env codec started_state ≡ ok stored_state
unfolding to_storage_idl fanloop.State.Persistence.wrap fanloop.State.Checks.validate
    fanloop.Base.is_blank fanloop.State.valid_evidence fanloop.State.valid_step_status
    fanloop.State.entries fanloop.State.unique_non_empty
    fanloop.State.Persistence.Documents.flow_state_to_idl
    fanloop.State.Persistence.Documents.cursor_to_idl from_string
    fanloop.State.Spellings.status_spelling fanloop.State.Persistence.evidence_to_idl
    fanloop.State.Persistence.Documents.binding_to_idl fanloop.Storage.Valid.flow_state_valid
    fanloop.State.Persistence.Documents.int32 fanloop.State.Persistence.requirement_to_idl
    fanloop.Base.is_space fanloop.State.Checks.valid_cursor fanloop.State.Persistence.convert_each
    fanloop.State.Persistence.named fanloop.State.Persistence.or_error
    fanloop.State.Persistence.release_to_idl fanloop.State.Persistence.workflow_ref_to_idl
    fanloop.Storage.Valid.is_specified to_string fanloop.State.status_eq
    fanloop.State.Persistence.evidence_item_to_idl
state_stored = refl

pub event_stored : event_to_idl env codec cases first_event ≡ ok stored_event
unfolding event_to_idl fanloop.State.Persistence.Events.validate_event_envelope
    fanloop.State.Spellings.kind_spelling fanloop.State.Payloads.validate_event_payload
    fanloop.State.Payloads.expected_command fanloop.State.Persistence.Events.payload_to_idl
    fanloop.State.Persistence.Events.initialized_to_idl fanloop.State.Persistence.named from_string
    fanloop.State.Spellings.status_spelling fanloop.State.Spellings.replace_dot
    fanloop.Storage.Messages.count_set_fields fanloop.Storage.Valid.event_valid
    fanloop.State.Persistence.Documents.int32 fanloop.State.Persistence.workflow_ref_to_idl
event_stored = refl

pub state_reads_back :
    (stored : Messages.FlowState)
    → to_storage_idl env codec started_state ≡ ok stored
    → ReadsBack codec.states stored
state_reads_back stored h =
    subst (ReadsBack codec.states) (ok-injective (sym state_stored ∙ h))
      (one_letter-ReadsBack stored_state)

pub event_reads_back :
    (stored : Messages.Event)
    → event_to_idl env codec cases first_event ≡ ok stored
    → ReadsBack codec.events stored
event_reads_back stored h =
    subst (ReadsBack codec.events) (ok-injective (sym event_stored ∙ h)) stored_event-ReadsBack

pub time-IsReadable : IsReadable codec 1
unfolding IsReadable
time-IsReadable = refl

pub codec-IsWriting : IsWriting codec
unfolding one_letter
codec-IsWriting = record {
  states = λ m. ("S", refl);
  registries = λ m bare. ("S", refl);
  events = λ m payload made bare. (event_document m, refl);
  times =
      λ t. elim (Bool-cases (nat_eq t 2)) [ inl late ↦ rw late refl | inr early ↦ rw early refl ];
}

pub state_encoded : encode env codec started_state ≡ ok "S\n"
unfolding encode fanloop.State.Persistence.Documents.marshal_indented one_letter
state_encoded = rw (encode, state_stored) refl

pub event_encoded : encode_event env codec cases first_event ≡ ok "S"
unfolding encode_event one_letter fanloop.State.Persistence.or_error
event_encoded = rw (encode_event, event_stored) refl

pub state_decoded : decode env codec "S\n" started_state.outputs ≡ ok started_state
state_decoded =
    decode-encode env codec started_state "S\n" time-IsReadable time-IsReadable state_reads_back
      state_encoded

pub event_decoded : decode_event env codec cases ("S" ++ "\n") ≡ ok first_event
unfolding fanloop.State.Persistence.Recorded.IsRestorable
event_decoded =
    decode_event-restorable env codec cases first_event "S" "\n" time-IsReadable tt event_reads_back
      newline_blank event_encoded

decode-encode_example : decode env codec "S\n" started_state.outputs ≡ ok started_state
decode-encode_example =
    decode-encode env codec started_state "S\n" time-IsReadable time-IsReadable state_reads_back
      state_encoded

abbrev one_output : OutputRegistry
one_output = record {
  schema_version = 4;
  workflow = "small";
  outputs = some (("planned", design) ∷ []);
}

abbrev stored_output : Messages.OutputRegistry
stored_output = record {
  schema_version = 4;
  workflow = some (record { id = "small" });
  outputs =
      (
        "planned",
        some (record { type = 1; value = some (string_value "design"); producer_step_id = "plan" }),
      )
      ∷ [];
}

output_stored : registry_to_idl env (codec_of stored_output) one_output ≡ ok stored_output
unfolding registry_to_idl fanloop.State.Persistence.Documents.output_registry_validate
    fanloop.Workflow.Output.validate_output fanloop.Json.decode_text fanloop.Base.is_blank
    fanloop.State.Persistence.outputs_to_storage_idl fanloop.State.Persistence.output_value_to_idl
    from_string fanloop.State.Spellings.type_spelling from_json
    fanloop.Storage.Valid.output_registry_valid fanloop.State.Persistence.Documents.int32
    fanloop.State.Persistence.workflow_ref_to_idl
output_stored = refl

output_encoded : encode_output_registry env (codec_of stored_output) one_output ≡ ok "S\n"
unfolding encode_output_registry fanloop.State.Persistence.Documents.marshal_indented one_letter
output_encoded = rw (encode_output_registry, output_stored) refl

design-IsPlainMessage : IsPlainMessage (codec_of stored_output).parse_float design.value
unfolding fanloop.Json.Value.Canonical.IsPlainMessage fanloop.Json.Value.Canonical.IsPlain
design-IsPlainMessage = tt

decode_output_registry-encode_output_registry_example :
    decode_output_registry env (codec_of stored_output) "S\n" ≡ ok one_output
decode_output_registry-encode_output_registry_example =
    decode_output_registry-encode_output_registry env (codec_of stored_output) one_output "S\n"
      (design-IsPlainMessage, tt)
      (λ stored h.
        subst (ReadsBack (one_letter stored_output)) (ok-injective (sym output_stored ∙ h))
          (one_letter-ReadsBack stored_output))
      output_encoded
