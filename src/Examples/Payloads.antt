-- ===== src/Examples/Payloads.antt =====
-- The theorem on stored Events, run on a Result that holds a JSON object.
use Prim.Native.String.{◌++◌}
use fanloop.Base.{◌≡◌, refl, sym, ◌∙◌, subst, ok, [], ◌∷◌, none, some, true, false, ok-injective}
use fanloop.Json.{Json, document, object, member, end, array, cons, nil, integer, pos}
use fanloop.Json.Value.{
  object_value, next_field, no_fields, list_value, next_value, no_values, bool_value, integer_value,
}
use fanloop.Storage.Messages
use fanloop.Storage.Messages.{empty_payload}
use fanloop.State.{Event, result, flow_result, FlowResultPayload, advanced, flow}
use fanloop.State.Persistence.{Codec}
use fanloop.State.Persistence.Events.{event_to_idl, encode_event, decode_event}
use fanloop.State.Persistence.Decoded.{ReadsBack, newline_blank}
use fanloop.State.Persistence.Recorded.{decode_event-encode_event}
use fanloop.Examples.Histories.{env}
use fanloop.Examples.Records.{codec, cases, one_letter, one_letter-ReadsBack}

-- `{"on": [true], "tries": 3}`
abbrev facts : Json
facts =
    object
      (member "on" (array (cons (Json.boolean true) nil)) (member "tries" (integer (pos 3)) end))

abbrev reported_event : Event
reported_event = record {
  schema_version = 16;
  id = "e3";
  occurred_at = 1;
  kind = result;
  command = "flow.report.result";
  workflow = "small";
  caused_by_event_id = "e2";
  payload = flow_result (record {
    condition_results =
        record {
          condition_id = "planned";
          output = record { type = fanloop.Workflow.OutputType.object; value = document facts };
        }
        ∷ [];
    evidence = [];
    summary = "planned";
    effect = advanced;
    transition = record { direction = flow; from_step_id = "plan"; to_step_id = "build" };
    output_changes = record { accepted = "planned" ∷ []; invalidated = [] };
  });
}

abbrev stored_result : Messages.Event
stored_result = record {
  schema_version = 16;
  event_id = "e3";
  occurred_at = "T";
  kind = 3;
  command = "flow.report.result";
  workflow = some (record { id = "small" });
  caused_by_event_id = some "e2";
  payload = some (record empty_payload {
    flow_result = some (record {
      condition_results =
          some (record {
            condition_id = "planned";
            output = some (record {
              type = 8;
              value = some (
                  object_value (
                    next_field "on" (list_value (next_value (bool_value true) no_values))
                      (next_field "tries" (integer_value (pos 3)) no_fields)));
            });
          })
          ∷ [];
      evidence = [];
      summary = "planned";
      effect = 1;
      transition =
          some (record { direction = 1; from_step_id = "plan"; to_step_id = some "build" });
      output_changes = some (record { accepted = "planned" ∷ []; invalidated = [] });
    });
  });
}

abbrev result_codec : Codec
result_codec = record codec { events = one_letter stored_result }

result_stored : event_to_idl env result_codec cases reported_event ≡ ok stored_result
unfolding event_to_idl fanloop.State.Persistence.Events.validate_event_envelope
    fanloop.State.Persistence.Events.payload_to_idl
    fanloop.State.Persistence.Events.flow_result_to_idl
    fanloop.State.Persistence.Events.condition_result_to_idl fanloop.State.Persistence.convert_each
    fanloop.State.Persistence.output_value_to_idl fanloop.State.Persistence.evidence_to_idl
    fanloop.State.Persistence.evidence_item_to_idl fanloop.State.Persistence.named
    fanloop.State.Persistence.or_error fanloop.State.Persistence.workflow_ref_to_idl
    fanloop.State.Persistence.wrap fanloop.State.Persistence.Documents.int32
    fanloop.State.Payloads.validate_event_payload fanloop.State.Payloads.expected_command
    fanloop.State.Payloads.validate_result_payload fanloop.State.Payloads.validate_effect
    fanloop.State.Payloads.visit_condition_result fanloop.State.Spellings.kind_spelling
    fanloop.State.Spellings.effect_spelling fanloop.State.Spellings.direction_spelling
    fanloop.State.Spellings.type_spelling fanloop.State.Spellings.replace_dot fanloop.Base.text_le
    fanloop.Base.is_blank fanloop.Base.is_space fanloop.Base.contains fanloop.Base.fold_each
    fanloop.State.valid_evidence fanloop.State.unique_non_empty
    fanloop.State.Checks.valid_output_value fanloop.Workflow.Output.validate_output
    fanloop.Json.decode_object fanloop.Json.Value.from_json fanloop.Storage.from_string
    fanloop.Storage.to_string fanloop.Storage.Messages.count_set_fields
    fanloop.Storage.Valid.event_valid fanloop.Storage.Valid.is_specified
result_stored = refl

result_encoded : encode_event env result_codec cases reported_event ≡ ok "S"
unfolding encode_event one_letter fanloop.State.Persistence.or_error
result_encoded = rw (encode_event, result_stored) refl

decode_event-encode_event_example :
    decode_event env result_codec cases ("S" ++ "\n") ≡ ok reported_event
unfolding fanloop.State.Persistence.Recorded.IsPlainPayload
    fanloop.Json.Value.Canonical.IsPlainMessage fanloop.Json.Value.Canonical.IsPlain
    fanloop.State.Persistence.Decoded.IsReadable fanloop.Base.text_le
decode_event-encode_event_example =
    decode_event-encode_event env result_codec cases reported_event "S" "\n" refl
      (((tt, tt), refl, (λ large. cc large, refl, tt)), tt)
      (λ stored h.
        subst (ReadsBack result_codec.events) (ok-injective (sym result_stored ∙ h))
          (one_letter-ReadsBack stored_result))
      newline_blank result_encoded
