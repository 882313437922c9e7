-- ===== src/Storage.antt =====
-- internal/idl/storageidl/storage.go: the enums of the stored documents. A Go enum is an int64, and
-- its `String` and `FromString` are two switches over the same pairs: an enum is the table of them.
pub mod Messages
pub mod Valid
use fanloop.Base.{
  ℕ, ◌≡◌, refl, sym, ap, subst, inl, inr, Bool, true, false, not, ◌&&◌, ◌||◌, Option, none, some,
  List, [], ◌∷◌, String, arith, ◌==◌, eq_iff, nat_eq, if◌then◌else◌, Bool-cases,
}

abbrev pub EnumTable : Type 0
EnumTable = List (ℕ × String)

-- `String()`
unfoldable pub to_string : EnumTable → ℕ → String
to_string [] v = "<UNSET>"
to_string ((code, name) ∷ t) v = if nat_eq code v then name else to_string t v

-- `FromString`
unfoldable pub from_string : EnumTable → String → Option ℕ
from_string [] s = none
from_string ((code, name) ∷ t) s = if name == s then some code else from_string t s

abbrev pub step_status : EnumTable
step_status =
    (0, "unspecified")
    ∷ (1, "ready")
    ∷ (2, "in_progress")
    ∷ (3, "fixing")
    ∷ (4, "blocked")
    ∷ (6, "awaiting_confirmation")
    ∷ []

abbrev pub evidence_source : EnumTable
evidence_source =
    (0, "unspecified") ∷ (1, "human") ∷ (2, "system") ∷ (3, "ai") ∷ (4, "file") ∷ (5, "url") ∷ []

abbrev pub output_type : EnumTable
output_type =
    (0, "unspecified")
    ∷ (1, "string")
    ∷ (2, "boolean")
    ∷ (3, "integer")
    ∷ (4, "path")
    ∷ (5, "url")
    ∷ (6, "url_list")
    ∷ (7, "enum_value")
    ∷ (8, "object")
    ∷ []

abbrev pub registry_profile : EnumTable
registry_profile = (0, "unspecified") ∷ (1, "production") ∷ (2, "test") ∷ []

abbrev pub event_kind : EnumTable
event_kind =
    (0, "unspecified")
    ∷ (1, "flow_initialized")
    ∷ (2, "flow_progressed")
    ∷ (3, "flow_result")
    ∷ (4, "trace_document_bound")
    ∷ (5, "trace_sync_started")
    ∷ (6, "trace_synced")
    ∷ []

abbrev pub result_effect : EnumTable
result_effect =
    (0, "unspecified")
    ∷ (1, "advanced")
    ∷ (2, "looped")
    ∷ (3, "completed")
    ∷ (4, "started")
    ∷ (5, "jumped")
    ∷ []

abbrev pub transition_direction : EnumTable
transition_direction =
    (0, "unspecified") ∷ (1, "flow") ∷ (2, "loop") ∷ (3, "start") ∷ (4, "jump") ∷ []

abbrev pub trace_sync_outcome : EnumTable
trace_sync_outcome = (0, "unspecified") ∷ (1, "succeeded") ∷ (2, "partial") ∷ (3, "skipped") ∷ []

abbrev pub trace_target : EnumTable
trace_target =
    (0, "unspecified") ∷ (1, "trace_document") ∷ (2, "registry") ∷ (3, "cli_log_document") ∷ []

abbrev pub trace_target_status : EnumTable
trace_target_status = (0, "unspecified") ∷ (1, "succeeded") ∷ (2, "failed") ∷ (3, "skipped") ∷ []

abbrev pub trace_target_error_code : EnumTable
trace_target_error_code =
    (0, "unspecified")
    ∷ (1, "trace_update_failed")
    ∷ (2, "registry_update_failed")
    ∷ (3, "network_failed")
    ∷ (4, "upstream_auth_failed")
    ∷ []

has_code : ℕ → EnumTable → Bool
has_code v [] = false
has_code v ((code, name) ∷ t) = nat_eq code v || has_code v t

-- No two constants of the enum are the same number.
unfoldable pub has_distinct_codes : EnumTable → Bool
unfolding has_code
has_distinct_codes [] = true
has_distinct_codes ((code, name) ∷ t) = not (has_code code t) && has_distinct_codes t

has_code-from_string :
    (t : EnumTable) (s : String) (v : ℕ) → from_string t s ≡ some v → has_code v t ≡ true
unfolding from_string has_code
has_code-from_string [] s v h = cc
has_code-from_string ((code, name) ∷ t) s v h = ground (arith, has_code-from_string t s v)

-- The text that FromString has read is the one that String writes.
pub to_string-from_string :
    (t : EnumTable) (s : String) (v : ℕ)
    → has_distinct_codes t ≡ true
    → from_string t s ≡ some v
    → to_string t v ≡ s
unfolding from_string to_string has_distinct_codes
to_string-from_string [] s v distinct h = cc
to_string-from_string ((code, name) ∷ t) s v distinct h =
    ground
      (arith, eq_iff name s, to_string-from_string t s v, has_code-from_string t s v, distinct, h)

-- The constants of every enum are different numbers.
pub step_status-distinct : has_distinct_codes step_status ≡ true
unfolding has_distinct_codes has_code
step_status-distinct = refl

pub evidence_source-distinct : has_distinct_codes evidence_source ≡ true
unfolding has_distinct_codes has_code
evidence_source-distinct = refl

pub output_type-distinct : has_distinct_codes output_type ≡ true
unfolding has_distinct_codes has_code
output_type-distinct = refl

pub registry_profile-distinct : has_distinct_codes registry_profile ≡ true
unfolding has_distinct_codes has_code
registry_profile-distinct = refl

pub event_kind-distinct : has_distinct_codes event_kind ≡ true
unfolding has_distinct_codes has_code
event_kind-distinct = refl

pub result_effect-distinct : has_distinct_codes result_effect ≡ true
unfolding has_distinct_codes has_code
result_effect-distinct = refl

pub transition_direction-distinct : has_distinct_codes transition_direction ≡ true
unfolding has_distinct_codes has_code
transition_direction-distinct = refl

pub trace_sync_outcome-distinct : has_distinct_codes trace_sync_outcome ≡ true
unfolding has_distinct_codes has_code
trace_sync_outcome-distinct = refl

pub trace_target-distinct : has_distinct_codes trace_target ≡ true
unfolding has_distinct_codes has_code
trace_target-distinct = refl

pub trace_target_status-distinct : has_distinct_codes trace_target_status ≡ true
unfolding has_distinct_codes has_code
trace_target_status-distinct = refl

pub trace_target_error_code-distinct : has_distinct_codes trace_target_error_code ≡ true
unfolding has_distinct_codes has_code
trace_target_error_code-distinct = refl
