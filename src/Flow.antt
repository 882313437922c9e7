-- ===== src/Flow.antt =====
-- internal/flow/runtime.go and result.go: the requests of the CLI and their validation.
-- A request field that is a pointer is an `Option`. The generated enumerations of requests share
-- the data types of the State; a source or type that the generated code does not define is one
-- of their `other` constructors, or `unspecified` or `unknown`.
pub mod Evaluate
pub mod Report
pub mod Init
use fanloop.Base.{
  ℕ, zero, suc, ◌+◌, ◌-◌, ◌≤◌, ◌<◌, ◌≡◌, refl, sym, ap, ◌∙◌, subst, ◌≢◌, ◌↔◌, ◌⊎◌, inl, inr, Bool,
  true, false, not, ◌&&◌, ◌||◌, Option, none, some, List, [], ◌∷◌, ◌++◌, map, String, arith, ◌==◌,
  eq_iff, eq_refl, ltb, leb, nat_eq, if◌then◌else◌, same_bool, Bool-cases, and-eq-true, is_some,
  is_none, Option-cases, Result, ok, err, ◌>>=◌, ◌>>◌, refuse_if, for_each, fold_each, is_ok,
  Result-cases, >>=-eq-ok, >>-eq-ok, refuse_if-eq-ok, length, get_elem?, take, drop, is_empty, any,
  all, keep, All, length-append, keep_ext, codes, is_space, is_blank, text_le, contains,
  contains-cons, Dict, lookup, lookup_or, insert, delete, keys, lookup-insert, lookup-delete,
  lookup_or-insert, lookup_or-nil,
}
use fanloop.Json.{RawMessage}
use fanloop.Workflow.{OutputType, unspecified, unknown}
use fanloop.Workflow.Output.{UrlParser, valid_output_url}
use fanloop.State.{
  EvidenceSource, human, system, ai, file, url, other_source, Evidence, StepStatus, in_progress,
  fixing, blocked, State,
}

-- The codes of `erroridl.PublicError` that these files return; the messages are left out.
pub data ErrorCode : Type 0 where
  invalid_argument report_not_allowed step_not_current condition_conflict : ErrorCode
  condition_not_allowed output_invalid route_not_allowed route_not_matched : ErrorCode
  route_ambiguous workflow_invalid already_initialized internal : ErrorCode

pub record RequestEvidence : Type 0 where
  pub source : EvidenceSource
  pub content : String
  pub ref : Option String

-- A `JsonValue`: how many of its fields are set, and what `json.Marshal` makes of it, `malformed`
-- where that returns an error.
pub record RequestValue : Type 0 where
  pub fields_set : ℕ
  pub raw : RawMessage

pub record RequestOutput : Type 0 where
  pub type : OutputType
  pub value : Option RequestValue

pub record RequestCondition : Type 0 where
  pub condition_id : String
  pub output : Option RequestOutput

pub record RouteSelection : Type 0 where
  pub next_step_id : Option String
  pub back_step_id : Option String
  pub terminal : Option Bool
  pub start_current_step : Option Bool
  pub jump_step_id : Option String

pub record FlowResultRequest : Type 0 where
  pub step_id : String
  pub condition_results : List (Option RequestCondition)
  pub evidence : List (Option RequestEvidence)
  pub summary : String
  pub route : Option RouteSelection

pub data ProgressStatus : Type 0 where
  report_in_progress report_fixing report_blocked : ProgressStatus
  other_progress : ℕ → ProgressStatus

pub record FlowProgressRequest : Type 0 where
  pub step_id : String
  pub status : ProgressStatus
  pub summary : String
  pub evidence : List (Option RequestEvidence)

-- A ConditionResult of a request that passed `validateResultRequest`, its pointers followed.
pub record Reported : Type 0 where
  pub condition_id : String
  pub type : OutputType
  pub raw : RawMessage

-- Such a request.
pub record CheckedRequest : Type 0 where
  pub step_id : String
  pub results : List Reported
  pub evidence : List RequestEvidence
  pub summary : String
  pub route : RouteSelection

abbrev is_listed_source : EvidenceSource → Bool
is_listed_source (other_source s) = false
is_listed_source _ = true

abbrev is_url : EvidenceSource → Bool
is_url url = true
is_url _ = false

-- One round of `validateEvidence`; `validHTTPURL` is the same test as `validOutputURL`.
check_evidence : UrlParser → Option RequestEvidence → Result ErrorCode RequestEvidence
check_evidence parse none = err invalid_argument
check_evidence parse (some e) = do
  refuse_if (not (is_listed_source e.source) || e.content == "") invalid_argument
  refuse_if (is_url e.source && not (valid_output_url parse e.content)) invalid_argument
  ok e

unfoldable pub validate_evidence :
    UrlParser → List (Option RequestEvidence) → Result ErrorCode (List RequestEvidence)
unfolding check_evidence
validate_evidence parse [] = ok []
validate_evidence parse (item ∷ items) = do
  e ← check_evidence parse item
  rest ← validate_evidence parse items
  ok (e ∷ rest)

one_if : Bool → ℕ
one_if true = 1
one_if false = 0

-- `CountSetFieldsRouteSelection`
unfoldable pub count_set_fields : RouteSelection → ℕ
unfolding one_if
count_set_fields r =
    one_if (is_some r.next_step_id)
    + one_if (is_some r.back_step_id)
    + one_if (is_some r.terminal)
    + one_if (is_some r.start_current_step)
    + one_if (is_some r.jump_step_id)

abbrev is_set_empty : Option String → Bool
is_set_empty none = false
is_set_empty (some s) = s == ""

abbrev is_set_false : Option Bool → Bool
is_set_false none = false
is_set_false (some b) = not b

-- `RouteSelection.IsValid`, then the tests of `validateResultRequest` on the route.
unfoldable pub validate_route : RouteSelection → Result ErrorCode (Unit {0})
validate_route r = do
  refuse_if
      (is_set_empty r.next_step_id || is_set_empty r.back_step_id || is_set_empty r.jump_step_id)
      invalid_argument
  refuse_if (not (nat_eq (count_set_fields r) 1)) invalid_argument
  refuse_if (is_set_false r.terminal) invalid_argument
  refuse_if (is_set_false r.start_current_step) invalid_argument

check_value : String → OutputType → Option RequestValue → Result ErrorCode Reported
check_value id type none = err invalid_argument
check_value id type (some v) = do
  refuse_if (not (nat_eq v.fields_set 1)) invalid_argument
  ok (record { condition_id = id; type = type; raw = v.raw })

check_output : String → Option RequestOutput → Result ErrorCode Reported
unfolding check_value
check_output id none = err invalid_argument
check_output id (some o) = check_value id o.type o.value

-- One round of the last loop of `validateResultRequest`.
check_condition : Option RequestCondition → Result ErrorCode Reported
unfolding check_output
check_condition none = err invalid_argument
check_condition (some c) = check_output c.condition_id c.output

unfoldable pub validate_conditions :
    List (Option RequestCondition) → Result ErrorCode (List Reported)
unfolding check_condition
validate_conditions [] = ok []
validate_conditions (item ∷ items) = do
  r ← check_condition item
  rest ← validate_conditions items
  ok (r ∷ rest)

validate_fields : UrlParser → FlowResultRequest → RouteSelection → Result ErrorCode CheckedRequest
validate_fields parse q route = do
  validate_route route
  evidence ← validate_evidence parse q.evidence
  results ← validate_conditions q.condition_results
  ok (record {
    step_id = q.step_id;
    results = results;
    evidence = evidence;
    summary = q.summary;
    route = route;
  })

-- `validateResultRequest`
unfoldable pub validate_result_request :
    UrlParser → Option FlowResultRequest → Result ErrorCode CheckedRequest
unfolding validate_fields
validate_result_request parse none = err invalid_argument
validate_result_request parse (some q) = do
  refuse_if (q.step_id == "" || is_empty q.condition_results || q.summary == "") invalid_argument
  elim q.route [ none ↦ err invalid_argument | some route ↦ validate_fields parse q route ]

-- `durableProgressStatus`
unfoldable pub durable_progress_status : ProgressStatus → StepStatus
durable_progress_status report_fixing = fixing
durable_progress_status report_blocked = blocked
durable_progress_status _ = in_progress

is_progress : ProgressStatus → Bool
is_progress (other_progress n) = false
is_progress _ = true

-- `validateProgressRequest`: the request and its evidence.
unfoldable pub validate_progress_request :
    UrlParser
    → Option FlowProgressRequest
    → Result ErrorCode (FlowProgressRequest × List RequestEvidence)
unfolding is_progress
validate_progress_request parse none = err invalid_argument
validate_progress_request parse (some q) = do
  refuse_if (q.step_id == "" || not (is_progress q.status) || q.summary == "") invalid_argument
  evidence ← validate_evidence parse q.evidence
  ok (q, evidence)

durable_source : EvidenceSource → EvidenceSource
durable_source human = human
durable_source system = system
durable_source ai = ai
durable_source file = file
durable_source _ = url

abbrev ref_or_empty : Option String → String
ref_or_empty none = ""
ref_or_empty (some s) = s

-- `durableEvidence`
unfoldable pub durable_evidence : List RequestEvidence → List Evidence
unfolding durable_source
durable_evidence values =
    map
      (λ e. record {
        source = durable_source e.source;
        content = e.content;
        ref = ref_or_empty e.ref;
      })
      values

abbrev is_human : EvidenceSource → Bool
is_human human = true
is_human _ = false

unfoldable pub has_human_request : List RequestEvidence → Bool
has_human_request values = any (λ e. is_human e.source) values

-- `requireCurrentStep`
unfoldable pub require_current_step : State → String → Result ErrorCode (Unit {0})
require_current_step s step_id = elim s.current_step_id [
  | none ↦ err report_not_allowed
  | some id ↦ refuse_if (not (step_id == id)) step_not_current
]

-- `durableOutputType`
unfoldable pub durable_output_type : OutputType → Option OutputType
durable_output_type unspecified = none
durable_output_type (unknown n) = none
durable_output_type type = some type
