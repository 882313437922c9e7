-- ===== src/Examples/Reports.antt =====
-- A State of the bundle of Examples.antt, with the reports on it that the theorems are run on.
use fanloop.Base.{true, none, some, List, [], ◌∷◌, String}
use fanloop.Json.{text, RawMessage, document}
use fanloop.Json
use fanloop.Workflow.{string, boolean}
use fanloop.State.{State, in_progress, RegisteredOutput, state_schema_version}
use fanloop.Flow.{RouteSelection, CheckedRequest}
use fanloop.Flow.Evaluate.{Outside}

abbrev pub no_urls : Outside
no_urls = record { parse = λ s. none; manifest_outcome = λ s. none }

abbrev pub state_at : String → List (String × RegisteredOutput) → State
state_at step_id outputs = record {
  schema_version = state_schema_version;
  requirement = record { title = "Demo"; source_url = "" };
  release = record { version = "1"; workflow = "small" };
  current_step_id = some step_id;
  current_step_status = in_progress;
  current_step_summary = "at work";
  current_evidence = [];
  outputs = some outputs;
  skipped_step_ids = [];
  trace = none;
  last_event_id = "e1";
  created_at = 1;
  updated_at = 1;
}

abbrev pub design : RegisteredOutput
design = record { type = string; value = document (text "design"); producer_step_id = "plan" }

abbrev pub no_route : RouteSelection
no_route = record {
  next_step_id = none;
  back_step_id = none;
  terminal = none;
  start_current_step = none;
  jump_step_id = none;
}

-- `plan` is done, and the run goes on to `build`.
abbrev pub go_on_request : CheckedRequest
go_on_request = record {
  step_id = "plan";
  results = record { condition_id = "planned"; type = string; raw = document (text "design") } ∷ [];
  evidence = [];
  summary = "planned";
  route = record no_route { next_step_id = some "build" };
}

-- `build` found the plan broken, and the run goes back to it.
abbrev pub go_back_request : CheckedRequest
go_back_request = record {
  step_id = "build";
  results =
      record {
        condition_id = "broken";
        type = boolean;
        raw = document (fanloop.Json.Json.boolean true);
      }
      ∷ [];
  evidence = [];
  summary = "broken";
  route = record no_route { back_step_id = some "plan" };
}
