-- ===== src/Flow/Init.antt =====
-- internal/flow/runtime.go: `Init`, from the loaded Workflow to the State and Event that are
-- committed. The refresh of the program and of the configuration goes before, and is a parameter.
pub mod Accepted
use fanloop.Base.{
  ℕ, Bool, true, false, not, ◌&&◌, ◌||◌, Option, none, some, String, ◌==◌, if◌then◌else◌, Result,
  ok, err, ◌>>=◌, ◌>>◌, refuse_if, [],
}
use fanloop.Workflow.{Workflow, first_step_id}
use fanloop.Workflow.Output.{UrlParser, valid_output_url}
use fanloop.State.{State, Event, initialized, flow_initialized, StepStatus, state_schema_version}
use fanloop.State.Checks.{Env}
use fanloop.State.Results.{entry_step_status}
use fanloop.Flow.{ErrorCode, invalid_argument, workflow_invalid, already_initialized}
use fanloop.Flow.Report.{Outcome, Stamp, validate_next}

pub record RequestRequirement : Type 0 where
  pub title : String
  pub source_url : Option String

pub record FlowInitRequest : Type 0 where
  pub workflow : String
  pub requirement : Option RequestRequirement

-- `request.Requirement.SourceUrl != nil && !validHTTPURL(...)`
bad_source : UrlParser → Option String → Bool
bad_source parse none = false
bad_source parse (some source) = not (valid_output_url parse source)

abbrev source_or_empty : Option String → String
source_or_empty none = ""
source_or_empty (some source) = source

-- The checks of the request, IsValid included; the Requirement is then there.
unfoldable pub validate_init_request :
    UrlParser → Option FlowInitRequest → Result ErrorCode (String × RequestRequirement)
unfolding bad_source
validate_init_request parse none = err invalid_argument
validate_init_request parse (some q) = elim q.requirement [
  | none ↦ err invalid_argument
  | some r ↦ do
    refuse_if (q.workflow == "" || r.title == "") invalid_argument
    refuse_if (bad_source parse r.source_url) invalid_argument
    ok (q.workflow, r)
]

-- The State that `Init` builds, but for its last Event.
unfoldable pub initial_state :
    ℕ → String → String → String → StepStatus → RequestRequirement → State
initial_state now version workflow first status r = record {
  schema_version = state_schema_version;
  requirement = record { title = r.title; source_url = source_or_empty r.source_url };
  release = record { version = version; workflow = workflow };
  current_step_id = some first;
  current_step_status = status;
  current_step_summary = "workflow initialized";
  current_evidence = [];
  outputs = some [];
  skipped_step_ids = [];
  trace = none;
  last_event_id = "";
  created_at = now;
  updated_at = now;
}

unfoldable pub initial_event : Stamp → String → String → StepStatus → Event
initial_event stamp workflow first status = record {
  schema_version = state_schema_version;
  id = stamp.event_id;
  occurred_at = stamp.now;
  kind = initialized;
  command = "flow.init";
  workflow = workflow;
  caused_by_event_id = "";
  payload = flow_initialized (record { step_id = first; step_status = status });
}

-- `Runtime.Init`, given whether the requirement exists, the release version of the program, and the
-- Workflow that is loaded for the request with the id of its reference.
unfoldable pub init :
    Env
    → Stamp
    → String
    → Bool
    → (String → Option (String × Workflow))
    → Option FlowInitRequest
    → Bool
    → Result ErrorCode Outcome
init env stamp version exists load request dry_run = do
  (name, requirement) ← validate_init_request env.parse request
  refuse_if exists already_initialized
  elim (load name) [
    | none ↦ err workflow_invalid
    | some loaded ↦ elim (first_step_id (loaded.1)) [
      | none ↦ err workflow_invalid
      | some first ↦
          let status = entry_step_status (loaded.1) in
          let next = initial_state (stamp.now) version (loaded.0) first status requirement in
          let committed = record next { last_event_id = stamp.event_id } in
          if dry_run
          then ok (record { state = next; event = none })
          else validate_next env (loaded.1) committed
            >> ok (record {
              state = committed;
              event = some (initial_event stamp (loaded.0) first status);
            })
    ]
  ]
