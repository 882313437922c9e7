-- ===== src/Examples/Registries.antt =====
-- The theorem on the Trace registries, run on a document that writes Traces for one Workflow only.
use fanloop.Base.{
  ◌≡◌, refl, inl, inr, Dict, ok, some, none, [], ◌∷◌, String, true, false, if◌then◌else◌, ◌==◌,
}
use fanloop.Trace.{
  Provider, lark, no_provider, RegistryFields, Registry, TraceConfig, registry_production, resolve,
  apply_runtime_overrides,
}
use fanloop.Trace.Registries.{RegistryDocument, validate_registry, decode_registries}
use fanloop.Trace.Registries.Resolved.{resolve-decode_registries}

abbrev no_fields : RegistryFields
no_fields = record {
  trace_key = "";
  title = "";
  owner = "";
  location = "";
  status = "";
  loop_count = "";
  source_url = "";
  source_output = "";
  source_document_only = false;
  trace_url = "";
  updated_at = "";
  origin = "";
  cli_log_url = "";
  outputs = [];
}

abbrev silent : String → Registry
silent profile = record {
  profile = profile;
  provider = no_provider;
  url = "";
  base_token = "";
  table_id = "";
  view_id = "";
  require_cli_log_document = false;
  fields = no_fields;
}

abbrev written : String → Registry
written profile = record {
  profile = profile;
  provider = lark;
  url = "u";
  base_token = "b";
  table_id = "t";
  view_id = "v";
  require_cli_log_document = false;
  fields = record no_fields {
    trace_key = "key";
    title = "title";
    owner = "owner";
    location = "location";
    status = "status";
    loop_count = "loops";
    source_url = "source";
    trace_url = "trace";
    updated_at = "updated";
    origin = "origin";
    outputs = ("design", "plan") ∷ [];
  };
}

abbrev registry_document : RegistryDocument
registry_document = record {
  schema_version = 1;
  profiles =
      (registry_production, record { default = silent ""; workflows = ("small", written "") ∷ [] })
      ∷ ("test", record { default = silent ""; workflows = [] })
      ∷ [];
}

abbrev trace_config : TraceConfig
trace_config = record {
  registries =
      (
        registry_production,
        ("", silent registry_production) ∷ ("small", written registry_production) ∷ [],
      )
      ∷ ("test", ("", silent "test") ∷ [])
      ∷ [];
  getenv = λ name. "";
}

written_valid : validate_registry (written registry_production) ≡ ok tt
unfolding validate_registry fanloop.Base.is_blank fanloop.Base.is_space fanloop.Base.fold_each
    fanloop.Base.contains fanloop.Trace.Registries.is_config_id
written_valid = refl

registries_decoded : decode_registries registry_document ≡ ok trace_config.registries
unfolding decode_registries fanloop.Trace.Registries.add_profile
    fanloop.Trace.Registries.decode_profile fanloop.Trace.Registries.add_workflow
    fanloop.Base.fold_each fanloop.Base.lookup fanloop.Base.insert validate_registry
    fanloop.Trace.Registries.is_config_id fanloop.Base.is_blank fanloop.Base.is_space
    fanloop.Base.contains
registries_decoded = refl

resolve-decode_registries_example :
    (r : Registry) × (validate_registry r ≡ ok tt)
    × (r.profile ≡ registry_production)
    × (resolve trace_config "" "small" ≡ some (apply_runtime_overrides trace_config.getenv r))
resolve-decode_registries_example =
    resolve-decode_registries registry_document trace_config "" "small" registries_decoded
      (inl refl)
