-- ===== src/Examples/Starts.antt =====
-- The theorem on the start of a requirement, run on a request for the bundle.
use fanloop.Base.{[], none, some}
use fanloop.Workflow.{Workflow}
use fanloop.Flow.Report.{Outcome}
use fanloop.Flow.Init.{FlowInitRequest, initial_state, initial_event}
use fanloop.Examples.Histories.{stamp}

abbrev pub asked : FlowInitRequest
asked = record {
  workflow = "small";
  requirement = some (record { title = "Demo"; source_url = none });
}

abbrev begun : Outcome
begun = record {
  state =
      record (initial_state 2 "1" "small" "plan" fanloop.State.ready
        (record { title = "Demo"; source_url = none })) { last_event_id = "e2" };
  event = some (initial_event stamp "small" "plan" fanloop.State.ready);
}
