-- ===== src/Store/Continued.antt =====
-- internal/store/store.go: what LoadBound has checked is what a Commit asks of the files.
use fanloop.Base.{
  ◌≡◌, refl, sym, ap, ◌∙◌, subst, Bool, true, some, List, [], ◌∷◌, String, arith, ◌==◌, eq_iff,
  eq_refl, ok, >>=-eq-ok, >>-eq-ok, guard-eq-ok, ok-injective, fold_each,
}
use fanloop.Workflow.{Workflow}
use fanloop.Workflow.Output.{UrlParser}
use fanloop.State.{State, Event}
use fanloop.State.Checks.{validate_against}
use fanloop.State.History.{Replay, replay_start, replay, replay_event, is_last, validate_history}
use fanloop.State.History.Noted.{replay_event-notes}
use fanloop.Store.{
  state_file, Entry, absent, unreadable, regular, Files, state_corrupt, workflow_mismatch, Services,
}
use fanloop.Store.Reading.{
  or_code, exists, load, load_entry, read_events, load_workflow, load_bound,
}
use fanloop.Store.Commit.{last_id, is_id, check_previous}
use fanloop.Store.Lines.{or_code-eq-ok}

-- The parts of a State that LoadBound returns.
pub record IsBound (services : Services) (files : Files) (s : State) (w : Workflow) : Type 0 where
  pub read : load services files ≡ ok s
  pub bound : load_workflow services files s.release.workflow ≡ ok w
  pub events : List Event
  pub events_read : read_events services files ≡ ok events
  pub history : validate_history services.env.parse w events s ≡ ok tt

pub load_bound-IsBound :
    (services : Services) (files : Files) (s : State) (w : Workflow)
    → load_bound services files ≡ ok (s, w)
    → IsBound services files s w
unfolding load_bound
load_bound-IsBound services files s w h =
    let (current, read, h1) = >>=-eq-ok (load services files) _ h in
    let (loaded, bound, h2) =
      >>=-eq-ok (or_code workflow_mismatch (load_workflow services files current.release.workflow))
        _ h1 in
    let (known, h3) = guard-eq-ok _ workflow_mismatch _ h2 in
    let (fits, h4) =
      >>-eq-ok (or_code state_corrupt (validate_against services.env.parse loaded current)) _ h3 in
    let (events, events_read, h5) = >>=-eq-ok (read_events services files) _ h4 in
    let (history, last) =
      >>-eq-ok (or_code state_corrupt (validate_history services.env.parse loaded events current)) _
        h5 in
    let same = ok-injective last in
    subst (λ (p : State × Workflow). IsBound services files p.0 p.1) same
      (record {
        read = read;
        bound = or_code-eq-ok workflow_mismatch _ loaded bound;
        events = events;
        events_read = events_read;
        history = or_code-eq-ok state_corrupt _ tt history;
      })

-- After the loop, `previous` is the last Event.
replay-last_id :
    (parse : UrlParser) (w : Workflow) (bound : String) (r t : Replay) (e : Event)
    (events : List Event)
    → replay parse w bound r (e ∷ events) ≡ ok t
    → (x : Event) × (t.previous ≡ some x) × (last_id (e ∷ events) ≡ some x.id)
unfolding replay fold_each last_id
replay-last_id parse w bound r t e [] h =
    let (next, first, rest) =
      >>=-eq-ok (replay_event parse w bound r e) (λ s. fold_each (replay_event parse w bound) s [])
        h in
    let (seen, previous) = replay_event-notes parse w bound r e next first in
    (e, ap (λ (x : Replay). x.previous) (sym (ok-injective rest)) ∙ previous, refl)
replay-last_id parse w bound r t e (e' ∷ events) h =
    let (next, first, rest) =
      >>=-eq-ok (replay_event parse w bound r e)
        (λ s. fold_each (replay_event parse w bound) s (e' ∷ events)) h in
    replay-last_id parse w bound next t e' events rest

pub validate_history-is_id :
    (parse : UrlParser) (w : Workflow) (events : List Event) (s : State)
    → validate_history parse w events s ≡ ok tt
    → is_id (last_id events) s.last_event_id ≡ true
unfolding validate_history is_id is_last
validate_history-is_id parse w [] s h = absurd (cc h)
validate_history-is_id parse w (e ∷ events) s h =
    let (t, replayed, h1) =
      >>=-eq-ok (replay parse w s.release.workflow replay_start (e ∷ events)) _ h in
    let (x, previous, last) =
      replay-last_id parse w s.release.workflow replay_start t e events replayed in
    let same : s.last_event_id == x.id ≡ true = ground (arith, h1, previous) in
    let here : s.last_event_id ≡ x.id = ground (arith, same, eq_iff s.last_event_id x.id) in
    rw (last, here) (eq_refl x.id)

has_entry : Entry → Bool
unfolding exists
has_entry entry = exists (λ file. entry)

load_entry-exists :
    (services : Services) (files : Files) (entry : Entry) (s : State)
    → load_entry services files entry ≡ ok s
    → has_entry entry ≡ true
unfolding load_entry has_entry exists
load_entry-exists services files absent s h = absurd (cc h)
load_entry-exists services files unreadable s h = refl
load_entry-exists services files (regular stored) s h = refl

load-exists :
    (services : Services) (files : Files) (s : State)
    → load services files ≡ ok s
    → exists files ≡ true
unfolding load exists has_entry
load-exists services files s h = load_entry-exists services files (files state_file) s h

-- The State and the history that LoadBound accepts belong together for the next Commit.
pub check_previous-IsBound :
    (services : Services) (files : Files) (s : State) (w : Workflow)
    (held : IsBound services files s w)
    → check_previous services files held.events ≡ ok tt
unfolding check_previous
check_previous-IsBound services files s w held =
    rw
      (
        check_previous,
        load-exists services files s held.read,
        held.read,
        validate_history-is_id services.env.parse w held.events s held.history,
      )
      refl
