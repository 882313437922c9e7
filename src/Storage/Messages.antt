-- ===== src/Storage/Messages.antt =====
-- internal/idl/storageidl/storage.go: the messages of the stored State, Outputs and Events.
-- An enum is its number, a Go pointer an `Option`; an int32 is its bits.
use fanloop.Base.{
  ℕ, ◌+◌, Bool, true, false, Option, none, some, List, String, Dict, is_some, if◌then◌else◌, ◌==◌,
}
use fanloop.Json.Value.{JsonValue}

pub record WorkflowRef : Type 0 where
  pub id : String

pub record Requirement : Type 0 where
  pub title : String
  pub source_url : Option String

pub record Release : Type 0 where
  pub version : String
  pub workflow : Option WorkflowRef

pub record Evidence : Type 0 where
  pub source : ℕ
  pub content : String
  pub ref : Option String

pub record OutputValue : Type 0 where
  pub type : ℕ
  pub value : Option JsonValue

pub record ConditionResult : Type 0 where
  pub condition_id : String
  pub output : Option OutputValue

pub record RegisteredOutput : Type 0 where
  pub type : ℕ
  pub value : Option JsonValue
  pub producer_step_id : String

pub record TraceBinding : Type 0 where
  pub document_url : String
  pub registry : ℕ
  pub cli_log_document_url : Option String

pub record Integrations : Type 0 where
  pub trace : Option TraceBinding

pub record FlowState : Type 0 where
  pub schema_version : ℕ
  pub requirement : Option Requirement
  pub release : Option Release
  pub current_step_id : Option String
  pub current_step_status : Option ℕ
  pub current_step_summary : Option String
  pub current_evidence : List (Option Evidence)
  pub integrations : Option Integrations
  pub last_event_id : String
  pub created_at : String
  pub updated_at : String
  pub skipped_step_ids : List String

pub record OutputRegistry : Type 0 where
  pub schema_version : ℕ
  pub workflow : Option WorkflowRef
  pub outputs : Dict (Option RegisteredOutput)

pub record OutputChanges : Type 0 where
  pub accepted : List String
  pub invalidated : List String

pub record Transition : Type 0 where
  pub direction : ℕ
  pub from_step_id : String
  pub to_step_id : Option String

pub record FlowInitializedPayload : Type 0 where
  pub step_id : String
  pub step_status : ℕ

pub record FlowProgressedPayload : Type 0 where
  pub from_step_id : String
  pub from_step_status : ℕ
  pub to_step_status : ℕ
  pub summary : String
  pub evidence : List (Option Evidence)

pub record FlowResultPayload : Type 0 where
  pub condition_results : List (Option ConditionResult)
  pub evidence : List (Option Evidence)
  pub summary : String
  pub effect : ℕ
  pub transition : Option Transition
  pub output_changes : Option OutputChanges

pub record TraceDocumentBoundPayload : Type 0 where
  pub previous_document_url : Option String
  pub document_url : String
  pub previous_registry : Option ℕ
  pub registry : ℕ
  pub previous_cli_log_document_url : Option String
  pub cli_log_document_url : Option String

pub record TraceSyncStartedPayload : Type 0 where
  pub targets : List ℕ

pub record TraceTargetError : Type 0 where
  pub code : ℕ
  pub message : String
  pub retryable : Bool

pub record TraceTargetResult : Type 0 where
  pub target : ℕ
  pub status : ℕ
  pub reason : Option String
  pub error : Option TraceTargetError

pub record TraceSyncedPayload : Type 0 where
  pub outcome : ℕ
  pub targets : List (Option TraceTargetResult)

pub record EventPayload : Type 0 where
  pub flow_initialized : Option FlowInitializedPayload
  pub flow_progressed : Option FlowProgressedPayload
  pub flow_result : Option FlowResultPayload
  pub trace_document_bound : Option TraceDocumentBoundPayload
  pub trace_sync_started : Option TraceSyncStartedPayload
  pub trace_synced : Option TraceSyncedPayload

pub record Event : Type 0 where
  pub schema_version : ℕ
  pub event_id : String
  pub occurred_at : String
  pub kind : ℕ
  pub command : String
  pub workflow : Option WorkflowRef
  pub caused_by_event_id : Option String
  pub payload : Option EventPayload

abbrev one_if : Bool → ℕ
one_if true = 1
one_if false = 0

-- `CountSetFieldsEventPayload`
unfoldable pub count_set_fields : EventPayload → ℕ
count_set_fields p =
    one_if (is_some p.flow_initialized)
    + one_if (is_some p.flow_progressed)
    + one_if (is_some p.flow_result)
    + one_if (is_some p.trace_document_bound)
    + one_if (is_some p.trace_sync_started)
    + one_if (is_some p.trace_synced)

abbrev pub empty_payload : EventPayload
empty_payload = record {
  flow_initialized = none;
  flow_progressed = none;
  flow_result = none;
  trace_document_bound = none;
  trace_sync_started = none;
  trace_synced = none;
}

-- `GetRef` and its like: "" for a pointer that is nil.
abbrev pub get_or_empty : Option String → String
get_or_empty none = ""
get_or_empty (some s) = s

-- `if value != "" { pointer = stringPointer(value) }`
abbrev pub some_text : String → Option String
some_text s = if s == "" then none else some s
