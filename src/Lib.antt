-- ===== src/Lib.antt =====
-- The core of fanloop: Workflow bundles, the State of a requirement that follows one, and the reports
-- that move it.
--
-- A bundle lists Steps in order, and at each Step the Flow routes that lead on, or end the run, and the
-- Loop routes that lead back. A route has a `when` clause on Conditions. An agent reports a Result: the
-- Conditions that hold, each with an Output, and the Route that it selects. The runtime checks the
-- Result against the bundle, applies it to the State and commits the State with an Event. When a State
-- is read back, its Events are replayed from the empty State and must lead to it.
--
-- Which file models which part:
-- Base.antt, Base/*      Go's `(value, error)`, maps as association lists, texts, sorting.
-- Json.antt              JSON values as encoding/json decodes them into Go types.
-- Workflow.antt          internal/workflow/model.go: Matches, FindStep, OrderedStepIDs,
--                        RelevantConditionIDs.
-- Workflow/Output        ValidateOutput and ValidateRegisteredOutput.
-- Workflow/Parts         the checks of one part of a bundle, internal/workflow/validate.go.
-- Workflow/Validate      ValidateBundle, the ambiguity checks, validateFlowReachability.
-- Trace.antt, Trace/*    internal/traceconfig/registry.go: Resolve and the overrides; decodeRegistries and
--                        validateRegistry in Trace/Registries.
-- State.antt, State/*    internal/state/model.go: Validate and ValidateAgainst in Checks,
--                        ValidateEventPayload in Payloads, the effect and the checks of a Result in
--                        Results, ValidateHistory in History, document URLs in TraceUrl.
-- Flow.antt              internal/flow: the requests and their validation.
-- Flow/Evaluate          internal/flow/result.go: evaluateResult, evaluateCommonControl.
-- Flow/Report, Flow/Init internal/flow/runtime.go: Progress, Result and Init up to the commit.
-- Storage.antt, Storage/* internal/idl/storageidl: the stored messages, enums and IsValid rules.
-- State/Spellings        the texts of the State's string types.
-- State/Persistence      internal/state/persistence.go: Encode and Decode of the State in Documents,
--                        with the Output Registry, and of the Events in Events.
-- Json/Value             internal/idl/commonidl/json_value.go: FromAny and MarshalJSON.
-- Store.antt, Store/*    internal/store/store.go: writes, snapshots and restores in Files, Load and
--                        LoadBound in Reading, Commit in Commit, RebindConfiguration in Rebind.
-- Examples.antt, Examples/*  a bundle of two steps, reports on it, commits and a rebinding, a
--                        table of registries.
-- The other files under these hold the proofs.
--
-- A pointer is an option, a map an association list, and a set of keys the list of the keys. A range
-- over a map goes through the entries in their listed order. An error keeps which check failed, and
-- loses its text. Times are natural numbers, and zero is the zero time. What is not in these packages
-- is a parameter: url.Parse, the environment, verify.ManifestOutcome, the clock and the event ids.
-- JSON arrives decoded; a body that is no JSON is `malformed`. A stored document is a text; what
-- encoding/json makes of a message is a parameter, and so are the texts of times and float64 literals.
--
-- The Store works on a World, its files and the count of the calls made to the operating system. A
-- Device says which calls fail, and what a failed Write has written; a file may also be there and not be
-- readable. Directories, temporary files and the lock file are not among the files: a call on them only
-- succeeds or fails. The rendering of Trace documents and the loading of Workflows are parameters.
--
-- The search of validateFlowReachability is the only loop on fuel. Each of its rounds takes one id from
-- the queue, which is the first step or was put there by a route, and a step's routes are followed
-- once: one round more than there are routes is enough.
--
-- Not modelled: the YAML decoding of bundles, the projection of responses and their validation, what
-- follows a commit, the refresh of the program, and Trace documents; they are input and output,
-- generated code, or calls of other programs.
pub mod Base
pub mod Json
pub mod Workflow
pub mod Trace
pub mod State
pub mod Storage
pub mod Store
pub mod Flow
pub mod Examples
