-- ===== src/Trace/Registries.antt =====
-- internal/traceconfig/registry.go: decodeRegistries and validateRegistry, on the document that the
-- YAML decoder has made of registry.yaml.
pub mod Resolved
use Prim.Native.Char.{code}
use fanloop.Base.{
  ℕ, Bool, true, false, not, ◌&&◌, ◌||◌, Option, none, some, List, [], ◌∷◌, String, ◌==◌, leb,
  nat_eq, length, any, if◌then◌else◌, Result, ok, err, ◌>>=◌, ◌>>◌, refuse_if, fold_each, Dict,
  lookup, insert, contains, is_blank, is_empty,
}
use fanloop.Trace.{
  Provider, lark, no_provider, other_provider, RegistryFields, Registry, registry_production,
}

pub data RegistryError : Type 0 where
  unsupported_schema profiles_required profile_missing invalid_workflow_id : RegistryError
  none_configures_lark unknown_provider value_required log_url_mismatch : RegistryError
  invalid_source_output mapped_twice invalid_output_mapping : RegistryError

pub record ProfileDocument : Type 0 where
  pub default : Registry
  pub workflows : Dict Registry

pub record RegistryDocument : Type 0 where
  pub schema_version : ℕ
  pub profiles : Dict ProfileDocument

is_lower : ℕ → Bool
is_lower c = leb 97 c && leb c 122

is_id_code : ℕ → Bool
unfolding is_lower
is_id_code c = is_lower c || leb 48 c && leb c 57 || nat_eq c 95 || nat_eq c 45

is_id_text : String → Bool
unfolding is_id_code
is_id_text String.[] = true
is_id_text (String.◌∷◌ c s) = is_id_code (code c) && is_id_text s

-- `configIDPattern` of this package, `^[a-z][a-z0-9_-]*$`; that of internal/workflow has no `-`.
unfoldable pub is_config_id : String → Bool
unfolding is_lower is_id_text
is_config_id String.[] = false
is_config_id (String.◌∷◌ c s) = is_lower (code c) && is_id_text s

abbrev required_values : Registry → List String
required_values r =
    let f = r.fields in
    r.url ∷ r.base_token ∷ r.table_id ∷ r.view_id ∷ f.trace_key ∷ f.title ∷ f.owner ∷ f.location
    ∷ f.status ∷ f.loop_count ∷ f.source_url ∷ f.trace_url ∷ f.updated_at ∷ f.origin ∷ []

abbrev mapped_fields : RegistryFields → List String
mapped_fields f =
    f.trace_key ∷ f.title ∷ f.owner ∷ f.location ∷ f.status ∷ f.loop_count ∷ f.source_url
    ∷ f.trace_url ∷ f.updated_at ∷ f.origin ∷ f.cli_log_url ∷ []

-- A round of the loop over the mapped fields; the names so far are carried.
unfoldable note_field : List String → String → Result RegistryError (List String)
note_field names value =
    if value == ""
    then ok names
    else (refuse_if (contains value names) mapped_twice >> ok (value ∷ names))

unfoldable note_output : List String → String × String → Result RegistryError (List String)
note_output names (key, field) = do
  refuse_if (not (is_config_id key) || is_blank field) invalid_output_mapping
  refuse_if (contains field names) mapped_twice
  ok (field ∷ names)

unfoldable configures_lark : Registry → Bool
configures_lark r =
    not (r.url == "")
    || not (r.base_token == "")
    || not (r.table_id == "")
    || not (r.view_id == "")
    || r.require_cli_log_document
    || not (r.fields.trace_key == "")
    || not (is_empty r.fields.outputs)

-- The checks of a Registry of the provider `lark`.
unfoldable validate_lark : Registry → Result RegistryError (Unit {0})
unfolding note_field note_output
validate_lark r = do
  refuse_if (any is_blank (required_values r)) value_required
  refuse_if
      (if r.require_cli_log_document
        then is_blank r.fields.cli_log_url
        else not (is_blank r.fields.cli_log_url))
      log_url_mismatch
  refuse_if (not (r.fields.source_output == "") && not (is_config_id r.fields.source_output))
      invalid_source_output
  names ← fold_each note_field [] (mapped_fields (r.fields))
  all ← fold_each note_output names (r.fields.outputs)
  ok tt

-- `validateRegistry`
unfoldable pub validate_registry : Registry → Result RegistryError (Unit {0})
unfolding configures_lark validate_lark
validate_registry r = elim r.provider [
  | lark ↦ validate_lark r
  | no_provider ↦ refuse_if (configures_lark r) none_configures_lark
  | other_provider s ↦ err unknown_provider
]

-- A round of the loop over the Workflows of a profile.
unfoldable pub add_workflow :
    String → Dict Registry → String × Registry → Result RegistryError (Dict Registry)
add_workflow profile endpoints (workflow_id, registry) = do
  refuse_if (not (is_config_id workflow_id)) invalid_workflow_id
  let named = record registry { profile = profile }
  validate_registry named
  ok (insert workflow_id named endpoints)

unfoldable pub decode_profile : String → ProfileDocument → Result RegistryError (Dict Registry)
decode_profile profile configured = do
  let default = record (configured.default) { profile = profile }
  validate_registry default
  fold_each (add_workflow profile) (insert "" default []) (configured.workflows)

-- A round of the loop over the two profiles.
unfoldable pub add_profile :
    RegistryDocument → Dict (Dict Registry) → String → Result RegistryError (Dict (Dict Registry))
add_profile document table profile = elim (lookup profile document.profiles) [
  | none ↦ err profile_missing
  | some configured ↦ do
    endpoints ← decode_profile profile configured
    ok (insert profile endpoints table)
]

-- `decodeRegistries`
unfoldable pub decode_registries : RegistryDocument → Result RegistryError (Dict (Dict Registry))
decode_registries document = do
  refuse_if (not (nat_eq document.schema_version 1)) unsupported_schema
  refuse_if (not (nat_eq (length document.profiles) 2)) profiles_required
  fold_each (add_profile document) [] (registry_production ∷ "test" ∷ [])
