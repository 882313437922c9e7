-- ===== src/State/Persistence/Registered.antt =====
-- internal/state/persistence.go and output.go: an Output Registry that EncodeOutputRegistry has
-- written is what DecodeOutputRegistry reads.
use fanloop.Base.{
  All-map, ℕ, ◌≡◌, refl, sym, ◌∙◌, subst, true, false, not, Option, none, some, String, arith,
  nat_eq, is_none, All, ok, >>=-eq-ok, >>-eq-ok, guard-eq-ok, ok-injective, Dict,
}
use fanloop.Storage.Messages
use fanloop.Storage.Valid.{output_registry_valid}
use fanloop.State.{RegisteredOutput}
use fanloop.State.Checks.{Env}
use fanloop.State.Persistence.{
  Codec, message_invalid, outputs_to_storage_idl, workflow_ref_to_idl, workflow_ref_from_idl,
  decode_storage_json,
}
use fanloop.State.Persistence.Documents.{
  OutputRegistry, int32, registered, output_schema_version, output_registry_validate,
  registry_to_idl, encode_output_registry, registry_from_idl, decode_output_registry,
}
use fanloop.State.Persistence.Decoded.{
  ReadsBack, decode_storage_json-written, marshal_indented-eq-ok, newline_blank,
}
use fanloop.State.Persistence.Restored.{IsCanonical, IsPlainMessage-IsCanonical, outputs-back}
use fanloop.Json.Value.Canonical.{IsPlainMessage}

int32-registry : (n : ℕ) → n ≡ 4 → int32 n ≡ n
unfolding int32
int32-registry n e = rw e refl

registered-present :
    (outputs : Option (Dict RegisteredOutput))
    → is_none outputs ≡ false
    → some (registered outputs) ≡ outputs
registered-present none h = cc
registered-present (some m) h = refl

module _ (env : Env) (codec : Codec) (v : OutputRegistry) where
  abbrev message : Dict (Option Messages.RegisteredOutput) → Messages.OutputRegistry
  message outputs = record {
    schema_version = int32 v.schema_version;
    workflow = some (workflow_ref_to_idl v.workflow);
    outputs = outputs;
  }

  registry_to_idl-eq-ok :
      (stored : Messages.OutputRegistry)
      → registry_to_idl env codec v ≡ ok stored
      → (output_registry_validate env codec v ≡ ok tt)
        × (outputs : Dict (Option Messages.RegisteredOutput)) × (outputs_to_storage_idl codec
              (registered v.outputs)
            ≡ ok outputs)
        × (output_registry_valid (message outputs) ≡ true)
        × (message outputs ≡ stored)
  unfolding registry_to_idl
  registry_to_idl-eq-ok stored h =
      let (checked, h1) = >>-eq-ok (output_registry_validate env codec v) _ h in
      let (outputs, made, h2) =
        >>=-eq-ok (outputs_to_storage_idl codec (registered v.outputs)) _ h1 in
      let (valid, h3) =
        guard-eq-ok (not (output_registry_valid (message outputs))) message_invalid _ h2 in
      (checked, outputs, made, ground (arith, valid), ok-injective h3)

  header :
      output_registry_validate env codec v ≡ ok tt
      → (v.schema_version ≡ 4) × (is_none v.outputs ≡ false)
  unfolding output_registry_validate
  header h = (ground arith, ground arith)

  unchanged :
      (version : ℕ) (outputs : Option (Dict RegisteredOutput))
      → version ≡ v.schema_version
      → outputs ≡ v.outputs
      → record v { schema_version = version; outputs = outputs } ≡ v
  unchanged version outputs e f = rw (e, f) refl

  registry_from_idl-stored :
      (stored : Messages.OutputRegistry)
      → All (λ entry. IsCanonical codec entry.1.value) (registered v.outputs)
      → registry_to_idl env codec v ≡ ok stored
      → registry_from_idl env codec stored ≡ ok v
  unfolding registry_from_idl workflow_ref_from_idl workflow_ref_to_idl
  registry_from_idl-stored stored canonical h =
      let (checked, outputs, converted, valid, made) = registry_to_idl-eq-ok stored h in
      let (version, present) = header checked in
      let same = int32-registry v.schema_version version in
      let current : nat_eq (int32 v.schema_version) output_schema_version ≡ true =
        subst (λ n. nat_eq n output_schema_version ≡ true) (sym (same ∙ version)) refl in
      let whole =
        unchanged (int32 v.schema_version) (some (registered v.outputs)) same
          (registered-present v.outputs present) in
      subst (λ m. registry_from_idl env codec m ≡ ok v) made
        (rw
          (
            current,
            valid,
            outputs-back codec (registered v.outputs) outputs canonical converted,
            whole,
            checked,
          )
          refl)

  pub decode_output_registry-canonical :
      (content : String)
      → All (λ entry. IsCanonical codec entry.1.value) (registered v.outputs)
      → ((stored : Messages.OutputRegistry)
          → registry_to_idl env codec v ≡ ok stored
          → ReadsBack codec.registries stored)
      → encode_output_registry env codec v ≡ ok content
      → decode_output_registry env codec content ≡ ok v
  unfolding encode_output_registry decode_output_registry
  decode_output_registry-canonical content canonical back h =
      let (stored, converted, marshalled) = >>=-eq-ok (registry_to_idl env codec v) _ h in
      let (c, written, made) = marshal_indented-eq-ok codec.registries stored content marshalled in
      let read =
        decode_storage_json-written codec.registries stored c "\n" (back stored converted) written
          newline_blank in
      let read' = subst (λ t. decode_storage_json codec.registries t ≡ ok stored) made read in
      rw (read', registry_from_idl-stored stored canonical converted) refl

  -- An Output Registry that EncodeOutputRegistry has written is what DecodeOutputRegistry reads, if
  -- its JSON values list the keys of each object once and in order, and if the library calls read its
  -- numbers that are no int64 and its message as they were written.
  pub decode_output_registry-encode_output_registry :
      (content : String)
      → All (λ entry. IsPlainMessage codec.parse_float entry.1.value) (registered v.outputs)
      → ((stored : Messages.OutputRegistry)
          → registry_to_idl env codec v ≡ ok stored
          → ReadsBack codec.registries stored)
      → encode_output_registry env codec v ≡ ok content
      → decode_output_registry env codec content ≡ ok v
  decode_output_registry-encode_output_registry content plain back h =
      decode_output_registry-canonical content
        (All-map
          (λ (entry : String × RegisteredOutput). IsPlainMessage codec.parse_float entry.1.value)
          (λ entry. IsCanonical codec entry.1.value) (registered v.outputs)
          (λ entry. IsPlainMessage-IsCanonical codec entry.1.value) plain)
        back h
