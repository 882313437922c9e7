-- ===== src/State/Persistence/Restored.antt =====
-- internal/state/persistence.go: the payloads of stored Events and the Outputs come back as they
-- were.
use fanloop.Base.{
  ℕ, ◌≡◌, refl, sym, ap, inl, inr, true, false, Option, none, some, List, [], ◌∷◌, String, arith,
  ◌==◌, eq_iff, Bool-cases, All, ok, fold_each, Result-cases, >>=-eq-ok, ok-injective, Dict,
}
use fanloop.Json.{RawMessage}
use fanloop.Json.Value.{JsonValue, from_json, marshal}
use fanloop.Json.Value.Canonical.{IsPlainMessage, marshal-from_json}
use fanloop.Workflow.{
  OutputType, unspecified, string, boolean, integer, path, url, url_list, enum_value, object,
  unknown,
}
use fanloop.Workflow.Output.{UrlParser}
use fanloop.Storage.{
  to_string, from_string, output_type, registry_profile, step_status, result_effect,
  transition_direction, trace_sync_outcome, trace_target, trace_target_status,
  trace_target_error_code, output_type-distinct, registry_profile-distinct, step_status-distinct,
  result_effect-distinct, transition_direction-distinct, trace_sync_outcome-distinct,
  trace_target-distinct, trace_target_status-distinct, trace_target_error_code-distinct,
}
use fanloop.Storage.Messages
use fanloop.State.{
  RegisteredOutput, OutputValue, ConditionResult, FlowInitializedPayload, FlowProgressPayload,
  FlowResultPayload, TraceDocumentBoundPayload, TraceTargetError, TraceTargetResult,
  TraceSyncedPayload, valid_evidence, valid_step_status, StepStatus,
}
use fanloop.State.Payloads.{
  validate_result_payload, validate_effect, visit_condition_result, is_flow, is_loop, is_start,
  is_jump, is_entry_status, is_report_status,
}
use fanloop.State.Spellings.{
  status_spelling, status_of, effect_spelling, direction_spelling, outcome_spelling, type_spelling,
  status_of-status_spelling, effect_of-effect_spelling, direction_of-direction_spelling,
  outcome_of-outcome_spelling, type_of-type_spelling, is_listed_effect, is_listed_direction,
  is_listed_outcome,
}
use fanloop.State.Persistence.{
  Codec, or_error, convert_each, named, evidence_to_idl, output_value_to_idl, output_value_from_idl,
  output_to_idl, output_from_idl, outputs_to_storage_idl, outputs_from_storage_idl,
}
use fanloop.State.Persistence.Events.{
  Cases, initialized_to_idl, initialized_from_idl, progressed_to_idl, progressed_from_idl,
  bound_to_idl, bound_from_idl, named_or_none, name_or_empty, condition_result_to_idl,
  condition_result_from_idl, flow_result_to_idl, flow_result_from_idl, target_error_to_idl,
  target_error_from_idl, target_to_idl, target_from_idl, trace_synced_to_idl, trace_synced_from_idl,
  target_name_from_idl,
}
use fanloop.State.Persistence.Parts.{
  get_or_empty-some_text, or_error-eq-ok, to_string-named, convert_each-back, evidence-back,
}

-- A raw value that the conversion to a JsonValue and back leaves as it is.
unfoldable pub IsCanonical : Codec → RawMessage → Type 0
IsCanonical codec raw =
    (value : JsonValue) → from_json codec.parse_float raw ≡ some value → marshal value ≡ some raw

-- FromJSON and MarshalJSON leave every plain value as it is.
pub IsPlainMessage-IsCanonical :
    (codec : Codec) (raw : RawMessage)
    → IsPlainMessage codec.parse_float raw
    → IsCanonical codec raw
unfolding IsCanonical
IsPlainMessage-IsCanonical codec raw plain =
    λ value made. marshal-from_json codec.parse_float raw value plain made

named_status :
    (a : StepStatus) (code : ℕ)
    → valid_step_status a ≡ true
    → named step_status (status_spelling a) ≡ ok code
    → status_of (to_string step_status code) ≡ a
named_status a code good found =
    rw (to_string-named step_status (status_spelling a) code step_status-distinct found)
      (status_of-status_spelling a good)

pub initialized-back :
    (p : FlowInitializedPayload) (m : Messages.FlowInitializedPayload)
    → is_entry_status p.step_status ≡ true
    → initialized_to_idl p ≡ ok m
    → initialized_from_idl m ≡ p
unfolding initialized_to_idl initialized_from_idl is_entry_status valid_step_status
initialized-back p m good h =
    let (code, found, made) = >>=-eq-ok (named step_status (status_spelling p.step_status)) _ h in
    rw (sym (ok-injective made), named_status p.step_status code (ground arith) found) refl

pub progressed-back :
    (p : FlowProgressPayload) (m : Messages.FlowProgressedPayload)
    → valid_step_status p.from_step_status ≡ true
    → is_report_status p.to_step_status ≡ true
    → valid_evidence p.evidence ≡ true
    → progressed_to_idl p ≡ ok m
    → progressed_from_idl m ≡ ok p
unfolding progressed_to_idl progressed_from_idl is_report_status valid_step_status
progressed-back p m from to evidence h =
    let (code, found, h1) =
      >>=-eq-ok (named step_status (status_spelling p.from_step_status)) _ h in
    let (code', found', h2) =
      >>=-eq-ok (named step_status (status_spelling p.to_step_status)) _ h1 in
    let (stored, made, last) = >>=-eq-ok (evidence_to_idl p.evidence) _ h2 in
    rw
      (
        sym (ok-injective last),
        evidence-back p.evidence stored evidence made,
        named_status p.from_step_status code from found,
        named_status p.to_step_status code' (ground arith) found',
      )
      refl

name_or_empty-back : (s : String) (m : Option ℕ) → named_or_none s ≡ ok m → name_or_empty m ≡ s
unfolding named_or_none
name_or_empty-back s m h = elim (Bool-cases (s == "")) [
  | inl empty ↦ ground (arith, empty, h, eq_iff s "")
  | inr full ↦ elim (Result-cases (named registry_profile s)) [
    | inl (code, found) ↦ ground (
      arith,
      full,
      found,
      h,
      to_string-named registry_profile s code registry_profile-distinct found,
    )
    | inr (e, failed) ↦ absurd (ground (arith, full, failed, h))
  ]
]

pub bound-back :
    (p : TraceDocumentBoundPayload) (m : Messages.TraceDocumentBoundPayload)
    → bound_to_idl p ≡ ok m
    → bound_from_idl m ≡ p
unfolding bound_to_idl bound_from_idl
bound-back p m h =
    let (code, found, h1) = >>=-eq-ok (named registry_profile p.registry) _ h in
    let (previous, found', last) = >>=-eq-ok (named_or_none p.previous_registry) _ h1 in
    rw
      (
        sym (ok-injective last),
        name_or_empty-back p.previous_registry previous found',
        to_string-named registry_profile p.registry code registry_profile-distinct found,
        get_or_empty-some_text p.previous_document_url,
        get_or_empty-some_text p.previous_cli_log_document_url,
        get_or_empty-some_text p.cli_log_document_url,
      )
      refl

All-of {ℓ κ} : {A : Type ℓ} (P : A → Type κ) → ((x : A) → P x) → (xs : List A) → All P xs
All-of P f [] = tt
All-of P f (x ∷ xs) = (f x, All-of P f xs)

pub targets-back :
    (targets : List String) (codes : List ℕ)
    → convert_each (named trace_target) targets ≡ ok codes
    → convert_each target_name_from_idl codes ≡ ok targets
unfolding target_name_from_idl
targets-back targets codes h =
    convert_each-back (λ s. s ≡ s) (named trace_target) target_name_from_idl
      (λ s code same found. ap ok (to_string-named trace_target s code trace_target-distinct found))
      targets codes (All-of (λ s. s ≡ s) (λ s. refl) targets) h

-- The codes of the errors in a list of targets.
unfoldable pub HasReadableCode : Cases → TraceTargetResult → Type 0
HasReadableCode cases t =
    (e : TraceTargetError) → t.error ≡ some e → cases.to_upper (cases.to_lower e.code) ≡ e.code

module _ (cases : Cases) where
  target_error-back :
      (error : Option TraceTargetError) (m : Option Messages.TraceTargetError)
      → ((e : TraceTargetError) → error ≡ some e → cases.to_upper (cases.to_lower e.code) ≡ e.code)
      → target_error_to_idl cases error ≡ ok m
      → target_error_from_idl cases m ≡ error
  unfolding target_error_to_idl target_error_from_idl
  target_error-back none m good h = rw (sym (ok-injective h)) refl
  target_error-back (some e) m good h =
      let (code, found, made) =
        >>=-eq-ok (named trace_target_error_code (cases.to_lower e.code)) _ h in
      rw
        (
          sym (ok-injective made),
          to_string-named trace_target_error_code (cases.to_lower e.code) code
              trace_target_error_code-distinct found,
          good e refl,
        )
        refl

  target-back :
      (t : TraceTargetResult) (m : Option Messages.TraceTargetResult)
      → HasReadableCode cases t
      → target_to_idl cases t ≡ ok m
      → target_from_idl cases m ≡ ok t
  unfolding target_to_idl target_from_idl HasReadableCode
  target-back t m good h =
      let (code, found, h1) = >>=-eq-ok (named trace_target t.name) _ h in
      let (status, found', h2) = >>=-eq-ok (named trace_target_status t.status) _ h1 in
      let (error, made, last) = >>=-eq-ok (target_error_to_idl cases t.error) _ h2 in
      rw
        (
          sym (ok-injective last),
          to_string-named trace_target t.name code trace_target-distinct found,
          to_string-named trace_target_status t.status status trace_target_status-distinct found',
          get_or_empty-some_text t.reason,
          target_error-back t.error error good made,
        )
        refl

  pub trace_synced-back :
      (p : TraceSyncedPayload) (m : Messages.TraceSyncedPayload)
      → is_listed_outcome p.outcome ≡ true
      → All (HasReadableCode cases) p.targets
      → trace_synced_to_idl cases p ≡ ok m
      → trace_synced_from_idl cases m ≡ ok p
  unfolding trace_synced_to_idl trace_synced_from_idl
  trace_synced-back p m listed good h =
      let (code, found, h1) =
        >>=-eq-ok (named trace_sync_outcome (outcome_spelling p.outcome)) _ h in
      let (stored, made, last) = >>=-eq-ok (convert_each (target_to_idl cases) p.targets) _ h1 in
      let back =
        convert_each-back (HasReadableCode cases) (target_to_idl cases) (target_from_idl cases)
          target-back p.targets stored good made in
      rw
        (
          sym (ok-injective last),
          back,
          to_string-named trace_sync_outcome (outcome_spelling p.outcome) code
              trace_sync_outcome-distinct found,
          outcome_of-outcome_spelling p.outcome listed,
        )
        refl

type_spelling_named :
    (a : OutputType) (code : ℕ)
    → named output_type (type_spelling a) ≡ ok code
    → type_spelling a == "<UNSET>" ≡ false
unfolding type_spelling named or_error from_string
type_spelling_named unspecified code h = refl
type_spelling_named string code h = refl
type_spelling_named boolean code h = refl
type_spelling_named integer code h = refl
type_spelling_named path code h = refl
type_spelling_named url code h = refl
type_spelling_named url_list code h = refl
type_spelling_named enum_value code h = refl
type_spelling_named object code h = refl
type_spelling_named (unknown n) code h = cc

module _ (codec : Codec) where
  pub output_value-back :
      (v : OutputValue) (m : Messages.OutputValue)
      → IsCanonical codec v.value
      → output_value_to_idl codec v ≡ ok m
      → output_value_from_idl codec (some m) ≡ ok v
  unfolding output_value_to_idl output_value_from_idl IsCanonical or_error
  output_value-back v m canonical h =
      let (code, found, h1) = >>=-eq-ok (named output_type (type_spelling v.type)) _ h in
      let (value, converted, last) =
        >>=-eq-ok (or_error _ (from_json codec.parse_float v.value)) _ h1 in
      let written = canonical value (or_error-eq-ok _ _ value converted) in
      let spelled =
        to_string-named output_type (type_spelling v.type) code output_type-distinct found in
      rw
        (
          sym (ok-injective last),
          written,
          spelled,
          type_of-type_spelling v.type (type_spelling_named v.type code found),
        )
        refl

  condition_result-back :
      (r : ConditionResult) (m : Option Messages.ConditionResult)
      → IsCanonical codec r.output.value
      → condition_result_to_idl codec r ≡ ok m
      → condition_result_from_idl codec m ≡ ok r
  unfolding condition_result_to_idl condition_result_from_idl
  condition_result-back r m canonical h =
      let (stored, converted, last) = >>=-eq-ok (output_value_to_idl codec r.output) _ h in
      rw (sym (ok-injective last), output_value-back r.output stored canonical converted) refl

  -- The names of a Result that ValidateEventPayload accepts.
  effect_listed :
      (p : FlowResultPayload)
      → validate_effect p ≡ ok tt
      → (is_listed_effect p.effect ≡ true) × (is_listed_direction p.transition.direction ≡ true)
  unfolding validate_effect is_listed_effect is_listed_direction is_flow is_loop is_start is_jump
  effect_listed p h = (ground arith, ground arith)

  result_payload_parts :
      (parse : UrlParser) (p : FlowResultPayload)
      → validate_result_payload parse p ≡ ok tt
      → (valid_evidence p.evidence ≡ true) × (validate_effect p ≡ ok tt)
  unfolding validate_result_payload
  result_payload_parts parse p h =
      elim (Result-cases (fold_each (visit_condition_result parse) [] p.condition_results)) [
        | inl (seen, visited) ↦ (ground (arith, visited, h), ground (arith, visited, h))
        | inr (e, failed) ↦ absurd (ground (arith, failed, h))
      ]

  pub flow_result-back :
      (parse : UrlParser) (p : FlowResultPayload) (m : Messages.FlowResultPayload)
      → validate_result_payload parse p ≡ ok tt
      → All (λ r. IsCanonical codec r.output.value) p.condition_results
      → flow_result_to_idl codec p ≡ ok m
      → flow_result_from_idl codec m ≡ ok p
  unfolding flow_result_to_idl flow_result_from_idl or_error
  flow_result-back parse p m valid canonical h =
      let (evidence, effect) = result_payload_parts parse p valid in
      let (effect_ok, direction_ok) = effect_listed p effect in
      let (results, results_made, h1) =
        >>=-eq-ok (convert_each (condition_result_to_idl codec) p.condition_results) _ h in
      let (stored, made, h2) = >>=-eq-ok (evidence_to_idl p.evidence) _ h1 in
      let (code, found, h3) = >>=-eq-ok (named result_effect (effect_spelling p.effect)) _ h2 in
      let (code', found', last) =
        >>=-eq-ok (named transition_direction (direction_spelling p.transition.direction)) _ h3 in
      let back =
        convert_each-back (λ r. IsCanonical codec r.output.value) (condition_result_to_idl codec)
          (condition_result_from_idl codec) condition_result-back p.condition_results results
          canonical results_made in
      rw
        (
          sym (ok-injective last),
          back,
          evidence-back p.evidence stored evidence made,
          to_string-named result_effect (effect_spelling p.effect) code result_effect-distinct
              found,
          to_string-named transition_direction (direction_spelling p.transition.direction) code'
              transition_direction-distinct found',
          effect_of-effect_spelling p.effect effect_ok,
          direction_of-direction_spelling p.transition.direction direction_ok,
          get_or_empty-some_text p.transition.to_step_id,
        )
        refl

  output-back :
      (entry : String × RegisteredOutput) (m : String × Option Messages.RegisteredOutput)
      → IsCanonical codec entry.1.value
      → output_to_idl codec entry ≡ ok m
      → output_from_idl codec m ≡ ok entry
  unfolding output_to_idl output_from_idl
  output-back (key, v) m canonical h =
      let value : OutputValue = record { type = v.type; value = v.value } in
      let (stored, converted, last) = >>=-eq-ok (output_value_to_idl codec value) _ h in
      rw (sym (ok-injective last), output_value-back value stored canonical converted) refl

  pub outputs-back :
      (m : Dict RegisteredOutput) (stored : Dict (Option Messages.RegisteredOutput))
      → All (λ entry. IsCanonical codec entry.1.value) m
      → outputs_to_storage_idl codec m ≡ ok stored
      → outputs_from_storage_idl codec stored ≡ ok m
  unfolding outputs_to_storage_idl outputs_from_storage_idl
  outputs-back m stored canonical h =
      convert_each-back (λ entry. IsCanonical codec entry.1.value) (output_to_idl codec)
        (output_from_idl codec) output-back m stored canonical h
