-- ===== src/State/Persistence/Decoded.antt =====
-- internal/state/persistence.go: a State that Encode has written is what Decode reads.
use Prim.Native.String.{◌++◌}
use fanloop.Base.{
  ℕ, ◌≡◌, refl, sym, ap, ◌∙◌, subst, true, false, not, Option, none, some, List, String, arith,
  nat_eq, is_none, Result, ok, err, >>=-eq-ok, >>-eq-ok, guard-eq-ok, ok-injective, Dict,
}
use fanloop.Storage.Messages
use fanloop.Storage.Messages.{FlowState, some_text, get_or_empty}
use fanloop.Storage.Valid.{flow_state_valid}
use fanloop.State.{State, RegisteredOutput, state_schema_version, valid_evidence}
use fanloop.State.Checks.{Env, validate, valid_cursor}
use fanloop.State.Persistence.{
  Codec, Format, not_valid, message_invalid, json_invalid, wrap, or_error, decode_storage_json,
  is_json_space, evidence_to_idl, evidence_from_idl,
}
use fanloop.State.Persistence.Documents.{
  int32, marshal_indented, binding_to_idl, cursor_to_idl, clone_registered_outputs, state_at,
  flow_message, flow_state_to_idl, flow_state_from_idl, status_from_idl, binding_from_idl,
  to_storage_idl, from_storage_idl, encode, decode,
}
use fanloop.State.Persistence.Parts.{
  get_or_empty-some_text, or_error-eq-ok, requirement-back, release-back, evidence-back,
  binding-back, cursor-back,
}

-- `encoding/json` reads what it has written for this message, up to the white space behind it.
unfoldable pub ReadsBack : {A : Type 0} → Format A → A → Type 0
ReadsBack format a =
    (content space : String)
    → format.write a ≡ some content
    → is_json_space space ≡ true
    → format.read (content ++ space) ≡ some (a, space)

-- `time.Parse` reads the text that `Format` writes for this time.
unfoldable pub IsReadable : Codec → ℕ → Type 0
IsReadable codec time = codec.parse_time (codec.format_time time) ≡ some time

pub wrap-eq-ok {ℓ} :
    {E F : Type 0} {A : Type ℓ} (f : E → F) (r : Result E A) (a : A) → wrap f r ≡ ok a → r ≡ ok a
unfolding wrap
wrap-eq-ok f (ok b) a h = ap ok (ok-injective h)
wrap-eq-ok f (err e) a h = cc

pub decode_storage_json-written :
    {A : Type 0} (format : Format A) (a : A) (content space : String)
    → ReadsBack format a
    → format.write a ≡ some content
    → is_json_space space ≡ true
    → decode_storage_json format (content ++ space) ≡ ok a
unfolding decode_storage_json or_error ReadsBack
decode_storage_json-written format a content space back written blank =
    rw (back content space written blank, blank) refl

module _ (env : Env) (codec : Codec) (s : State) where
  -- What State.Validate has checked.
  record IsValidated : Type 0 where
    version : s.schema_version ≡ 16
    evidence : valid_evidence s.current_evidence ≡ true
    cursor : valid_cursor s ≡ ok tt
    outputs : is_none s.outputs ≡ false

  validate-IsValidated : validate env s ≡ ok tt → IsValidated
  unfolding validate
  validate-IsValidated h = record {
    version = ground arith;
    evidence = ground arith;
    cursor = ground arith;
    outputs = ground arith;
  }

  flow_state_to_idl-eq-ok :
      (stored : FlowState)
      → flow_state_to_idl env codec s ≡ ok stored
      → (cursor : Option String × Option ℕ) × (evidence : List (Option Messages.Evidence))
        × (trace : Option Messages.TraceBinding) × (cursor_to_idl s.current_step_id
              s.current_step_status
            ≡ ok cursor)
        × (evidence_to_idl s.current_evidence ≡ ok evidence)
        × (binding_to_idl s.trace ≡ ok trace)
        × (flow_message env codec s cursor evidence trace ≡ stored)
  unfolding flow_state_to_idl
  flow_state_to_idl-eq-ok stored h =
      let (cursor, cursor_made, h1) =
        >>=-eq-ok (cursor_to_idl s.current_step_id s.current_step_status) _ h in
      let (evidence, evidence_made, h2) = >>=-eq-ok (evidence_to_idl s.current_evidence) _ h1 in
      let (trace, trace_made, h3) = >>=-eq-ok (binding_to_idl s.trace) _ h2 in
      (cursor, evidence, trace, cursor_made, evidence_made, trace_made, ok-injective h3)

  flow_message-back :
      (cursor : Option String × Option ℕ) (evidence : List (Option Messages.Evidence))
      (trace : Option Messages.TraceBinding)
      → IsReadable codec s.created_at
      → IsReadable codec s.updated_at
      → (cursor.0 ≡ s.current_step_id) × (status_from_idl cursor.1 ≡ s.current_step_status)
      → evidence_from_idl evidence ≡ ok s.current_evidence
      → binding_from_idl (some (record { trace = trace })) ≡ s.trace
      → flow_state_from_idl env codec (flow_message env codec s cursor evidence trace)
        ≡ ok (record s { schema_version = int32 s.schema_version; outputs = none })
  unfolding flow_state_from_idl IsReadable or_error state_at
  flow_message-back cursor evidence trace created updated (id, status) evidence_back trace_back =
      rw
        (
          created,
          updated,
          evidence_back,
          requirement-back s.requirement,
          release-back s.release,
          get_or_empty-some_text s.current_step_summary,
          id,
          status,
          trace_back,
        )
        refl

  flow_message_version :
      (cursor : Option String × Option ℕ) (evidence : List (Option Messages.Evidence))
      (trace : Option Messages.TraceBinding)
      → (flow_message env codec s cursor evidence trace).schema_version ≡ int32 s.schema_version
  flow_message_version cursor evidence trace = refl

  flow_state-back :
      (stored : FlowState)
      → IsValidated
      → IsReadable codec s.created_at
      → IsReadable codec s.updated_at
      → flow_state_to_idl env codec s ≡ ok stored
      → (stored.schema_version ≡ int32 s.schema_version)
        × (flow_state_from_idl env codec stored
            ≡ ok (record s { schema_version = int32 s.schema_version; outputs = none }))
  flow_state-back stored valid created updated h =
      let (cursor, evidence, trace, cursor_made, evidence_made, trace_made, made) =
        flow_state_to_idl-eq-ok stored h in
      let back =
        flow_message-back cursor evidence trace created updated
          (cursor-back s cursor valid.cursor cursor_made)
          (evidence-back s.current_evidence evidence valid.evidence evidence_made)
          (binding-back s.trace trace trace_made) in
      (
        ap (λ m. m.schema_version) (sym made),
        subst
            (λ m.
              flow_state_from_idl env codec m
              ≡ ok (record s { schema_version = int32 s.schema_version; outputs = none }))
            made back,
      )

  to_storage_idl-eq-ok :
      (stored : FlowState)
      → to_storage_idl env codec s ≡ ok stored
      → (validate env s ≡ ok tt)
        × (flow_state_to_idl env codec s ≡ ok stored)
        × (flow_state_valid stored ≡ true)
  unfolding to_storage_idl
  to_storage_idl-eq-ok stored h =
      let (checked, rest) = >>-eq-ok (wrap not_valid (validate env s)) _ h in
      let (m, made, more) = >>=-eq-ok (flow_state_to_idl env codec s) _ rest in
      let (valid, same) = guard-eq-ok (not (flow_state_valid m)) message_invalid (ok m) more in
      let here = ok-injective same in
      (
        wrap-eq-ok not_valid (validate env s) tt checked,
        made ∙ same,
        subst (λ n. flow_state_valid n ≡ true) here (ground (arith, valid)),
      )

  unchanged :
      (version : ℕ) (outputs : Option (Dict RegisteredOutput))
      → version ≡ s.schema_version
      → outputs ≡ s.outputs
      → record s { schema_version = version; outputs = outputs } ≡ s
  unchanged version outputs e f = rw (e, f) refl

clone-present :
    (outputs : Option (Dict RegisteredOutput))
    → is_none outputs ≡ false
    → clone_registered_outputs outputs ≡ outputs
unfolding clone_registered_outputs
clone-present none h = cc
clone-present (some m) h = refl

pub int32-state : (n : ℕ) → n ≡ 16 → int32 n ≡ n
unfolding int32
int32-state n e = rw e refl

pub marshal_indented-eq-ok :
    {A : Type 0} (format : Format A) (a : A) (content : String)
    → marshal_indented format.write a ≡ ok content
    → (c : String) × (format.write a ≡ some c) × (c ++ "\n" ≡ content)
unfolding marshal_indented
marshal_indented-eq-ok format a content h =
    let (c, written, made) = >>=-eq-ok (or_error json_invalid (format.write a)) _ h in
    (c, or_error-eq-ok json_invalid (format.write a) c written, ok-injective made)

pub newline_blank : is_json_space "\n" ≡ true
unfolding is_json_space
newline_blank = refl

module _ (env : Env) (codec : Codec) (s : State) where
  from_storage_idl-stored :
      (stored : FlowState)
      → IsReadable codec s.created_at
      → IsReadable codec s.updated_at
      → to_storage_idl env codec s ≡ ok stored
      → from_storage_idl env codec stored s.outputs ≡ ok s
  unfolding from_storage_idl wrap
  from_storage_idl-stored stored created updated h =
      let (checked, converted, good) = to_storage_idl-eq-ok env codec s stored h in
      let valid = validate-IsValidated env codec s checked in
      let (version, back) = flow_state-back env codec s stored valid created updated converted in
      let same = int32-state s.schema_version valid.version in
      let whole =
        unchanged env codec s (int32 s.schema_version) (clone_registered_outputs s.outputs) same
          (clone-present s.outputs valid.outputs) in
      let current : nat_eq stored.schema_version state_schema_version ≡ true =
        subst (λ v. nat_eq v state_schema_version ≡ true) (sym (version ∙ same ∙ valid.version))
          refl in
      rw (current, good, back, whole, checked) refl

  -- Decode gives back the State that Encode has written, with its Outputs taken from the State, if
  -- `time.Parse` reads the two times of the State as they were written and `encoding/json` reads
  -- the message of the State as it was written.
  pub decode-encode :
      (content : String)
      → IsReadable codec s.created_at
      → IsReadable codec s.updated_at
      → ((stored : FlowState)
          → to_storage_idl env codec s ≡ ok stored
          → ReadsBack codec.states stored)
      → encode env codec s ≡ ok content
      → decode env codec content s.outputs ≡ ok s
  unfolding encode decode
  decode-encode content created updated back h =
      let (stored, converted, marshalled) = >>=-eq-ok (to_storage_idl env codec s) _ h in
      let (c, written, made) = marshal_indented-eq-ok codec.states stored content marshalled in
      let read =
        decode_storage_json-written codec.states stored c "\n" (back stored converted) written
          newline_blank in
      let read' = subst (λ t. decode_storage_json codec.states t ≡ ok stored) made read in
      rw (read', from_storage_idl-stored stored created updated converted) refl
