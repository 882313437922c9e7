-- ===== src/Flow/Init/Accepted/Committed.antt =====
-- internal/flow/runtime.go with internal/store/store.go: what `Init` makes is committed.
use fanloop.Base.{◌≡◌, refl, sym, ap, subst, true, false, Option, some, [], String, ok}
use fanloop.Workflow.{Workflow}
use fanloop.State.{Event}
use fanloop.State.Results.{entry_step_status}
use fanloop.Store.{World, Device, Files, Services}
use fanloop.Store.Reading.{exists, read_events, load_workflow}
use fanloop.Store.Commit.{check_previous, encode_lines, commit}
use fanloop.Store.Faults.{IsQuietFrom}
use fanloop.Store.Committed.{
  AreReadable, IsReadBack, decode_event-encoded, encode_lines-append, commit-fitting,
}
use fanloop.Flow.Report.{Outcome, Stamp}
use fanloop.Flow.Report.Checked.{validate_next-eq-ok}
use fanloop.Flow.Init.{FlowInitRequest, initial_state, initial_event, init}
use fanloop.State.Persistence.Encoded.{IsWriting}
use fanloop.Flow.Init.Accepted.Encoded.{stamped, state-encoded, registry-encoded, event-encoded}
use fanloop.Flow.Init.Accepted.{begun, event-enters, history-begun, init-IsStarted}

check_previous-fresh :
    (services : Services) (files : Files)
    → exists files ≡ false
    → check_previous services files [] ≡ ok tt
unfolding check_previous
check_previous-fresh services files fresh = rw (check_previous, fresh) refl

no_lines : (services : Services) → encode_lines services [] ≡ ok ""
unfolding encode_lines
no_lines services = refl

-- What `Init` makes of a request in a directory with no Events, the store commits, if no call of the
-- operating system fails, every file that is there can be read, the store loads the Workflow that
-- `Init` has loaded, the libraries write every message with no JsonValue in it and every time, and
-- they read the Event and its time as they were written.
pub commit-init :
    (device : Device) (services : Services) (stamp : Stamp) (version : String)
    (load : String → Option (String × Workflow)) (request : Option FlowInitRequest) (out : Outcome)
    (store : World)
    → IsQuietFrom device store.clock
    → AreReadable store.files
    → read_events services store.files ≡ ok []
    → ((name workflow : String) (w : Workflow)
        → load name ≡ some (workflow, w)
        → load_workflow services store.files workflow ≡ ok w)
    → init services.env stamp version (exists store.files) load request false ≡ ok out
    → IsWriting services.codec
    → ((e : Event) → out.event ≡ some e → IsReadBack services e)
    → (e : Event) × (out.event ≡ some e) × ((commit device services out.state e store).0 ≡ ok tt)
unfolding initial_event initial_state fanloop.State.Persistence.Recorded.IsRestorable
commit-init device services stamp version load request out store quiet readable read bound h writing
      back =
    let started =
      init-IsStarted services.env stamp version (exists store.files) load request out h in
    let w = started.w in
    let first = started.first in
    let workflow = started.workflow in
    let e = initial_event stamp workflow first (entry_step_status w) in
    let next = begun services.env.parse stamp version workflow first w started.r started.enters in
    let (valid, fits) = validate_next-eq-ok services.env w next started.valid in
    let made : out.event ≡ some e = ap (λ (o : Outcome). o.event) (sym started.made) in
    let (named, dated) =
      stamped services.env services.codec services.cases writing stamp version workflow first w
        started.r started.enters valid in
    let (state, state_made) =
      state-encoded services.env services.codec services.cases writing stamp version workflow first
        w started.r started.enters valid in
    let (output, output_made) =
      registry-encoded services.env services.codec services.cases writing stamp version workflow
        first w started.r started.enters valid in
    let (content, content_made) =
      event-encoded services.env services.codec services.cases writing stamp version workflow first
        w started.r started.enters valid in
    let (text, text_made) =
      encode_lines-append services [] e "" content (no_lines services) content_made in
    (
      e,
      made,
      subst (λ (o : Outcome). (commit device services o.state e store).0 ≡ ok tt) started.made
          (commit-fitting device services next e store [] w quiet readable read
            (record {
              valid = valid;
              bound = bound started.name workflow w started.loaded;
              fits = fits;
              last = refl;
              workflow = refl;
              named = named;
              dated = dated;
              enters =
                  event-enters services.env.parse stamp version workflow first w started.r
                    started.enters true;
              previous = check_previous-fresh services store.files started.fresh;
              history =
                  history-begun services.env.parse stamp version workflow first w started.r
                    started.enters;
            })
            (record {
              state = state;
              state_made = state_made;
              output = output;
              output_made = output_made;
              content = content;
              content_made = content_made;
              decoded = e;
              read = decode_event-encoded services e content (back e made) tt content_made;
              text = text;
              text_made = text_made;
            })),
    )
