-- ===== src/State/Spellings.antt =====
-- internal/state/model.go: the texts of its string types, to and from the constructors that stand
-- for their constants; internal/idl/yamlidl/yaml.go: the names of the Output types.
use fanloop.Base.{
  ◌≡◌, refl, Bool, true, false, Option, none, some, String, ◌==◌, nat_eq, if◌then◌else◌,
}
use Prim.Native.Char.{code}
use fanloop.Workflow.{
  OutputType, unspecified, string, boolean, integer, path, url_list, enum_value, object, unknown,
}
use fanloop.State.{
  StepStatus, unset, ready, in_progress, fixing, blocked, awaiting_confirmation, other_status,
  EvidenceSource, human, system, ai, file, other_source, ResultEffect, advanced, looped, completed,
  started, jumped, other_effect, TransitionDirection, flow, loop, start, jump, other_direction,
  TraceSyncOutcome, succeeded, partial, skipped, other_outcome, EventKind, initialized, progressed,
  result, document_bound, sync_started, synced, other_kind, valid_step_status, is_listed_source,
}

-- `string(status)` and `StepStatus(s)`
unfoldable pub status_spelling : StepStatus → String
status_spelling unset = ""
status_spelling ready = "ready"
status_spelling in_progress = "in_progress"
status_spelling fixing = "fixing"
status_spelling blocked = "blocked"
status_spelling awaiting_confirmation = "awaiting_confirmation"
status_spelling (other_status s) = s

unfoldable pub status_of : String → StepStatus
status_of s =
    if s == ""
    then unset
    else if s == "ready"
    then ready
    else if s == "in_progress"
    then in_progress
    else if s == "fixing"
    then fixing
    else if s == "blocked"
    then blocked
    else if s == "awaiting_confirmation"
    then awaiting_confirmation
    else other_status s

unfoldable pub source_spelling : EvidenceSource → String
source_spelling human = "human"
source_spelling system = "system"
source_spelling ai = "ai"
source_spelling file = "file"
source_spelling EvidenceSource.url = "url"
source_spelling (other_source s) = s

unfoldable pub source_of : String → EvidenceSource
source_of s =
    if s == "human"
    then human
    else if s == "system"
    then system
    else if s == "ai"
    then ai
    else if s == "file"
    then file
    else if s == "url"
    then EvidenceSource.url
    else other_source s

unfoldable pub effect_spelling : ResultEffect → String
effect_spelling advanced = "advanced"
effect_spelling looped = "looped"
effect_spelling completed = "completed"
effect_spelling started = "started"
effect_spelling jumped = "jumped"
effect_spelling (other_effect s) = s

unfoldable pub effect_of : String → ResultEffect
effect_of s =
    if s == "advanced"
    then advanced
    else if s == "looped"
    then looped
    else if s == "completed"
    then completed
    else if s == "started"
    then started
    else if s == "jumped"
    then jumped
    else other_effect s

unfoldable pub direction_spelling : TransitionDirection → String
direction_spelling flow = "flow"
direction_spelling loop = "loop"
direction_spelling start = "start"
direction_spelling jump = "jump"
direction_spelling (other_direction s) = s

unfoldable pub direction_of : String → TransitionDirection
direction_of s =
    if s == "flow"
    then flow
    else if s == "loop"
    then loop
    else if s == "start"
    then start
    else if s == "jump"
    then jump
    else other_direction s

unfoldable pub outcome_spelling : TraceSyncOutcome → String
outcome_spelling succeeded = "succeeded"
outcome_spelling partial = "partial"
outcome_spelling skipped = "skipped"
outcome_spelling (other_outcome s) = s

unfoldable pub outcome_of : String → TraceSyncOutcome
outcome_of s =
    if s == "succeeded"
    then succeeded
    else if s == "partial"
    then partial
    else if s == "skipped"
    then skipped
    else other_outcome s

unfoldable pub kind_spelling : EventKind → String
kind_spelling initialized = "flow.initialized"
kind_spelling progressed = "flow.progressed"
kind_spelling result = "flow.result"
kind_spelling document_bound = "trace.document_bound"
kind_spelling sync_started = "trace.sync_started"
kind_spelling synced = "trace.synced"
kind_spelling (other_kind s) = s

unfoldable pub kind_of : String → EventKind
kind_of s =
    if s == "flow.initialized"
    then initialized
    else if s == "flow.progressed"
    then progressed
    else if s == "flow.result"
    then result
    else if s == "trace.document_bound"
    then document_bound
    else if s == "trace.sync_started"
    then sync_started
    else if s == "trace.synced"
    then synced
    else other_kind s

-- `strings.Replace(s, ".", "_", 1)` and `strings.Replace(s, "_", ".", 1)`
unfoldable pub replace_dot : String → String
replace_dot String.[] = ""
replace_dot (String.◌∷◌ c s) =
    let rest = replace_dot s in if nat_eq (code c) 0x2E then String.◌∷◌ "_" s else String.◌∷◌ c rest

unfoldable pub replace_underscore : String → String
replace_underscore String.[] = ""
replace_underscore (String.◌∷◌ c s) =
    let rest = replace_underscore s in
    if nat_eq (code c) 0x5F then String.◌∷◌ "." s else String.◌∷◌ c rest

-- `OutputType.String` and `OutputTypeFromString` of the Workflow
unfoldable pub type_spelling : OutputType → String
type_spelling unspecified = "unspecified"
type_spelling string = "string"
type_spelling boolean = "boolean"
type_spelling integer = "integer"
type_spelling path = "path"
type_spelling OutputType.url = "url"
type_spelling url_list = "url_list"
type_spelling enum_value = "enum_value"
type_spelling object = "object"
type_spelling (unknown n) = "<UNSET>"

unfoldable pub type_of : String → Option OutputType
type_of s =
    if s == "unspecified"
    then some unspecified
    else if s == "string"
    then some string
    else if s == "boolean"
    then some boolean
    else if s == "integer"
    then some integer
    else if s == "path"
    then some path
    else if s == "url"
    then some OutputType.url
    else if s == "url_list"
    then some url_list
    else if s == "enum_value"
    then some enum_value
    else if s == "object"
    then some object
    else none

pub status_of-status_spelling :
    (a : StepStatus) → valid_step_status a ≡ true → status_of (status_spelling a) ≡ a
unfolding status_of status_spelling valid_step_status
status_of-status_spelling unset h = cc
status_of-status_spelling ready h = refl
status_of-status_spelling in_progress h = refl
status_of-status_spelling fixing h = refl
status_of-status_spelling blocked h = refl
status_of-status_spelling awaiting_confirmation h = refl
status_of-status_spelling (other_status s) h = cc

pub source_of-source_spelling :
    (a : EvidenceSource) → is_listed_source a ≡ true → source_of (source_spelling a) ≡ a
unfolding source_of source_spelling is_listed_source
source_of-source_spelling human h = refl
source_of-source_spelling system h = refl
source_of-source_spelling ai h = refl
source_of-source_spelling file h = refl
source_of-source_spelling EvidenceSource.url h = refl
source_of-source_spelling (other_source s) h = cc

-- It is one of the constants.
unfoldable pub is_listed_effect : ResultEffect → Bool
is_listed_effect (other_effect s) = false
is_listed_effect _ = true

pub effect_of-effect_spelling :
    (a : ResultEffect) → is_listed_effect a ≡ true → effect_of (effect_spelling a) ≡ a
unfolding effect_of effect_spelling is_listed_effect
effect_of-effect_spelling advanced h = refl
effect_of-effect_spelling looped h = refl
effect_of-effect_spelling completed h = refl
effect_of-effect_spelling started h = refl
effect_of-effect_spelling jumped h = refl
effect_of-effect_spelling (other_effect s) h = cc

-- It is one of the constants.
unfoldable pub is_listed_direction : TransitionDirection → Bool
is_listed_direction (other_direction s) = false
is_listed_direction _ = true

pub direction_of-direction_spelling :
    (a : TransitionDirection)
    → is_listed_direction a ≡ true
    → direction_of (direction_spelling a) ≡ a
unfolding direction_of direction_spelling is_listed_direction
direction_of-direction_spelling flow h = refl
direction_of-direction_spelling loop h = refl
direction_of-direction_spelling start h = refl
direction_of-direction_spelling jump h = refl
direction_of-direction_spelling (other_direction s) h = cc

-- It is one of the constants.
unfoldable pub is_listed_outcome : TraceSyncOutcome → Bool
is_listed_outcome (other_outcome s) = false
is_listed_outcome _ = true

pub outcome_of-outcome_spelling :
    (a : TraceSyncOutcome) → is_listed_outcome a ≡ true → outcome_of (outcome_spelling a) ≡ a
unfolding outcome_of outcome_spelling is_listed_outcome
outcome_of-outcome_spelling succeeded h = refl
outcome_of-outcome_spelling partial h = refl
outcome_of-outcome_spelling skipped h = refl
outcome_of-outcome_spelling (other_outcome s) h = cc

pub type_of-type_spelling :
    (a : OutputType) → type_spelling a == "<UNSET>" ≡ false → type_of (type_spelling a) ≡ some a
unfolding type_of type_spelling
type_of-type_spelling unspecified h = refl
type_of-type_spelling string h = refl
type_of-type_spelling boolean h = refl
type_of-type_spelling integer h = refl
type_of-type_spelling path h = refl
type_of-type_spelling OutputType.url h = refl
type_of-type_spelling url_list h = refl
type_of-type_spelling enum_value h = refl
type_of-type_spelling object h = refl
type_of-type_spelling (unknown n) h = cc

-- It is one of the constants.
unfoldable pub is_listed_kind : EventKind → Bool
is_listed_kind (other_kind s) = false
is_listed_kind _ = true

-- The name of a kind of Event, made into that of its enum and back.
pub kind_of-replace_underscore :
    (a : EventKind)
    → is_listed_kind a ≡ true
    → kind_of (replace_underscore (replace_dot (kind_spelling a))) ≡ a
unfolding kind_of replace_underscore replace_dot kind_spelling is_listed_kind
kind_of-replace_underscore initialized h = refl
kind_of-replace_underscore progressed h = refl
kind_of-replace_underscore result h = refl
kind_of-replace_underscore document_bound h = refl
kind_of-replace_underscore sync_started h = refl
kind_of-replace_underscore synced h = refl
kind_of-replace_underscore (other_kind s) h = cc
