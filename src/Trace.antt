-- ===== src/Trace.antt =====
-- internal/traceconfig/registry.go: which Registry a Trace binding resolves to.
-- The decoded registry.yaml is a parameter, and so is the environment of the process.
pub mod Registries
use fanloop.Base.{
  ◌≡◌, Bool, true, false, Option, none, some, String, arith, ◌==◌, if◌then◌else◌, is_some, Dict,
  lookup,
}

pub data Provider : Type 0 where
  lark no_provider : Provider
  other_provider : String → Provider

pub record RegistryFields : Type 0 where
  pub trace_key : String
  pub title : String
  pub owner : String
  pub location : String
  pub status : String
  pub loop_count : String
  pub source_url : String
  pub source_output : String
  pub source_document_only : Bool
  pub trace_url : String
  pub updated_at : String
  pub origin : String
  pub cli_log_url : String
  pub outputs : Dict String

pub record Registry : Type 0 where
  pub profile : String
  pub provider : Provider
  pub url : String
  pub base_token : String
  pub table_id : String
  pub view_id : String
  pub require_cli_log_document : Bool
  pub fields : RegistryFields

-- The table `registries`, and `os.Getenv` with white space trimmed.
pub record TraceConfig : Type 0 where
  pub registries : Dict (Dict Registry)
  pub getenv : String → String

override : String → String → String
override value current = if value == "" then current else value

override_lark : (String → String) → Registry → Registry
unfolding override
override_lark getenv r = record r {
  url = override (getenv "FANLOOP_TRACE_REGISTRY_URL") r.url;
  base_token = override (getenv "FANLOOP_TRACE_REGISTRY_BASE_TOKEN") r.base_token;
  table_id = override (getenv "FANLOOP_TRACE_REGISTRY_TABLE_ID") r.table_id;
  view_id = override (getenv "FANLOOP_TRACE_REGISTRY_VIEW_ID") r.view_id;
}

unfoldable pub apply_runtime_overrides : (String → String) → Registry → Registry
unfolding override_lark
apply_runtime_overrides getenv r = elim r.provider [
  | lark ↦ override_lark getenv r
  | no_provider ↦ r
  | other_provider s ↦ r
]

abbrev pub registry_production : String
registry_production = "production"

unfoldable pub resolve : TraceConfig → String → String → Option Registry
resolve config profile workflow_id =
    let named = if profile == "" then registry_production else profile in
    elim (lookup named config.registries) [
      | none ↦ none
      | some endpoints ↦ elim (lookup workflow_id endpoints) [
        | some registry ↦ some (apply_runtime_overrides config.getenv registry)
        | none ↦ elim (lookup "" endpoints) [
          | none ↦ none
          | some registry ↦ some (apply_runtime_overrides config.getenv registry)
        ]
      ]
    ]

unfoldable pub disabled : Registry → Bool
disabled r = elim r.provider [ lark ↦ false | no_provider ↦ true | other_provider s ↦ false ]

-- `traceconfig.Valid`
unfoldable pub is_profile : TraceConfig → String → Bool
is_profile config profile = is_some (lookup profile config.registries)

-- The profile decides the Registry with no regard to the operator's overrides: where a Registry is
-- resolved, whether it is disabled and whether it requires a CLI log document are as committed.
pub apply_runtime_overrides_keeps :
    (getenv : String → String) (r : Registry)
    → (disabled (apply_runtime_overrides getenv r) ≡ disabled r)
      × ((apply_runtime_overrides getenv r).require_cli_log_document ≡ r.require_cli_log_document)
      × ((apply_runtime_overrides getenv r).fields ≡ r.fields)
unfolding apply_runtime_overrides disabled
apply_runtime_overrides_keeps getenv r = ground arith
