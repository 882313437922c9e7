-- ===== src/State.antt =====
-- internal/state/model.go: the State of a requirement, the Events of its history and their payloads.
-- A time is the number of nanoseconds since the zero time. `other` constructors stand for the
-- spellings that the source has no constant for; `unset` is the empty text.
pub mod TraceUrl
pub mod Checks
pub mod Payloads
pub mod History
pub mod Results
pub mod Spellings
pub mod Persistence
use fanloop.Base.{
  ℕ, zero, suc, ◌+◌, ◌-◌, ◌≤◌, ◌<◌, ◌≡◌, refl, sym, ap, ◌∙◌, subst, ◌≢◌, ◌↔◌, ◌⊎◌, inl, inr, Bool,
  true, false, not, ◌&&◌, ◌||◌, Option, none, some, List, [], ◌∷◌, ◌++◌, map, String, arith, ◌==◌,
  eq_iff, eq_refl, ltb, leb, nat_eq, if◌then◌else◌, same_bool, Bool-cases, and-eq-true, is_some,
  is_none, Option-cases, Result, ok, err, ◌>>=◌, ◌>>◌, refuse_if, for_each, fold_each, is_ok,
  Result-cases, >>=-eq-ok, >>-eq-ok, refuse_if-eq-ok, length, get_elem?, take, drop, is_empty, any,
  all, keep, All, length-append, keep_ext, codes, is_space, is_blank, text_le, contains,
  contains-cons, Dict, lookup, lookup_or, insert, delete, keys, lookup-insert, lookup-delete,
  lookup_or-insert, lookup_or-nil,
}
use fanloop.Json.{RawMessage, same_json, document, malformed}
use fanloop.Workflow.{OutputType, type_code}

pub data StepStatus : Type 0 where
  unset ready in_progress fixing blocked awaiting_confirmation : StepStatus
  other_status : String → StepStatus

pub data EvidenceSource : Type 0 where
  human system ai file url : EvidenceSource
  other_source : String → EvidenceSource

pub record Evidence : Type 0 where
  pub source : EvidenceSource
  pub content : String
  pub ref : String

pub record OutputValue : Type 0 where
  pub type : OutputType
  pub value : RawMessage

pub record RegisteredOutput : Type 0 where
  pub type : OutputType
  pub value : RawMessage
  pub producer_step_id : String

pub record ConditionResult : Type 0 where
  pub condition_id : String
  pub output : OutputValue

pub data ResultEffect : Type 0 where
  advanced looped completed started jumped : ResultEffect
  other_effect : String → ResultEffect

pub data TransitionDirection : Type 0 where
  flow loop start jump : TransitionDirection
  other_direction : String → TransitionDirection

pub record Transition : Type 0 where
  pub direction : TransitionDirection
  pub from_step_id : String
  pub to_step_id : String

pub record OutputChanges : Type 0 where
  pub accepted : List String
  pub invalidated : List String

pub record Requirement : Type 0 where
  pub title : String
  pub source_url : String

pub record Release : Type 0 where
  pub version : String
  pub workflow : String

pub record TraceBinding : Type 0 where
  pub document_url : String
  pub registry : String
  pub cli_log_document_url : String

pub record State : Type 0 where
  pub schema_version : ℕ
  pub requirement : Requirement
  pub release : Release
  pub current_step_id : Option String
  pub current_step_status : StepStatus
  pub current_step_summary : String
  pub current_evidence : List Evidence
  -- none is the nil map
  pub outputs : Option (Dict RegisteredOutput)
  pub skipped_step_ids : List String
  pub trace : Option TraceBinding
  pub last_event_id : String
  pub created_at : ℕ
  pub updated_at : ℕ

pub record StepState : Type 0 where
  pub step_id : String
  pub status : StepStatus

pub record FlowInitializedPayload : Type 0 where
  pub step_id : String
  pub step_status : StepStatus

pub record FlowProgressPayload : Type 0 where
  pub from_step_id : String
  pub from_step_status : StepStatus
  pub to_step_status : StepStatus
  pub summary : String
  pub evidence : List Evidence

pub record FlowResultPayload : Type 0 where
  pub condition_results : List ConditionResult
  pub evidence : List Evidence
  pub summary : String
  pub effect : ResultEffect
  pub transition : Transition
  pub output_changes : OutputChanges

pub record TraceDocumentBoundPayload : Type 0 where
  pub previous_document_url : String
  pub document_url : String
  pub previous_registry : String
  pub registry : String
  pub previous_cli_log_document_url : String
  pub cli_log_document_url : String

pub record TraceTargetError : Type 0 where
  pub code : String
  pub message : String
  pub retryable : Bool

pub record TraceTargetResult : Type 0 where
  pub name : String
  pub status : String
  pub reason : String
  pub error : Option TraceTargetError

pub data TraceSyncOutcome : Type 0 where
  succeeded partial skipped : TraceSyncOutcome
  other_outcome : String → TraceSyncOutcome

pub record TraceSyncedPayload : Type 0 where
  pub outcome : TraceSyncOutcome
  pub targets : List TraceTargetResult

-- The values that `Event.Payload` holds.
pub data Payload : Type 0 where
  flow_initialized : FlowInitializedPayload → Payload
  flow_progress : FlowProgressPayload → Payload
  flow_result : FlowResultPayload → Payload
  trace_document_bound : TraceDocumentBoundPayload → Payload
  trace_sync_started : List String → Payload
  trace_synced : TraceSyncedPayload → Payload
  other_payload : Payload

pub data EventKind : Type 0 where
  initialized progressed result document_bound sync_started synced : EventKind
  other_kind : String → EventKind

pub record Event : Type 0 where
  pub schema_version : ℕ
  pub id : String
  pub occurred_at : ℕ
  pub kind : EventKind
  pub command : String
  pub workflow : String
  pub caused_by_event_id : String
  pub payload : Payload

abbrev pub state_schema_version : ℕ
state_schema_version = 16

status_code : StepStatus → ℕ
status_code unset = 0
status_code ready = 1
status_code in_progress = 2
status_code fixing = 3
status_code blocked = 4
status_code awaiting_confirmation = 5
status_code (other_status s) = 6

status_text : StepStatus → String
status_text (other_status s) = s
status_text _ = ""

-- `==` on statuses.
unfoldable pub status_eq : StepStatus → StepStatus → Bool
unfolding status_code status_text
status_eq a b = nat_eq (status_code a) (status_code b) && status_text a == status_text b

source_code : EvidenceSource → ℕ
source_code human = 0
source_code system = 1
source_code ai = 2
source_code file = 3
source_code url = 4
source_code (other_source s) = 5

source_text : EvidenceSource → String
source_text (other_source s) = s
source_text _ = ""

evidence_eq : Evidence → Evidence → Bool
unfolding source_code source_text
evidence_eq a b =
    (nat_eq (source_code a.source) (source_code b.source)
      && source_text a.source == source_text b.source)
    && a.content == b.content
    && a.ref == b.ref

-- `slices.Equal` on Evidence.
unfoldable pub evidence_lists_eq : List Evidence → List Evidence → Bool
unfolding evidence_eq
evidence_lists_eq [] [] = true
evidence_lists_eq (a ∷ as') (b ∷ bs) = evidence_eq a b && evidence_lists_eq as' bs
evidence_lists_eq _ _ = false

-- `slices.Equal` on texts.
unfoldable pub texts_eq : List String → List String → Bool
texts_eq [] [] = true
texts_eq (a ∷ as') (b ∷ bs) = a == b && texts_eq as' bs
texts_eq _ _ = false

unfoldable pub valid_step_status : StepStatus → Bool
valid_step_status unset = false
valid_step_status (other_status s) = false
valid_step_status _ = true

unfoldable pub is_listed_source : EvidenceSource → Bool
is_listed_source (other_source s) = false
is_listed_source _ = true

unfoldable pub valid_evidence : List Evidence → Bool
unfolding is_listed_source
valid_evidence values = all (λ e. is_listed_source e.source && not (is_blank e.content)) values

abbrev is_human : EvidenceSource → Bool
is_human human = true
is_human _ = false

unfoldable pub has_human_evidence : List Evidence → Bool
has_human_evidence values = any (λ e. is_human e.source) values

unique_from : List String → List String → Bool
unique_from seen [] = true
unique_from seen (v ∷ vs) = not (v == "" || contains v seen) && unique_from (v ∷ seen) vs

unfoldable pub unique_non_empty : List String → Bool
unfolding unique_from
unique_non_empty values = unique_from [] values

-- `range value.Outputs`, where nil has no entry.
unfoldable pub entries : State → Dict RegisteredOutput
entries s = elim s.outputs [ none ↦ [] | some m ↦ m ]

-- `StateRef`
unfoldable pub state_ref : State → StepState
state_ref s = elim s.current_step_id [
  | none ↦ record { step_id = ""; status = unset }
  | some id ↦ record { step_id = id; status = s.current_step_status }
]

-- `stepStatePointer`
unfoldable pub step_state_pointer : StepState → Option StepState
step_state_pointer v = if v.step_id == "" && status_eq v.status unset then none else some v

unfoldable pub same_historical_cursor : Option StepState → String → StepStatus → Bool
same_historical_cursor none step_id status = false
same_historical_cursor (some c) step_id status =
    c.step_id == step_id && (status_eq c.status unset || status_eq c.status status)

unfoldable pub equal_optional_step_state : Option StepState → Option StepState → Bool
equal_optional_step_state none none = true
equal_optional_step_state (some a) (some b) = a.step_id == b.step_id && status_eq a.status b.status
equal_optional_step_state _ _ = false

-- `equalJSON`: equal after compaction; malformed content equals nothing.
unfoldable pub equal_json : RawMessage → RawMessage → Bool
equal_json (document a) (document b) = same_json a b
equal_json _ _ = false

unfoldable pub equal_registered_output : RegisteredOutput → RegisteredOutput → Bool
unfolding type_code
equal_registered_output a b =
    nat_eq (type_code a.type) (type_code b.type)
    && a.producer_step_id == b.producer_step_id
    && equal_json a.value b.value
