-- ===== src/Store/Commit.antt =====
-- internal/store/store.go: validateCommit, commitLocked, Commit, WithLockedState,
-- withExclusiveLock, RebuildProjection.
use Prim.Native.String.{◌++◌}
use fanloop.Base.{
  ℕ, zero, suc, Bool, true, false, not, ◌||◌, Option, none, some, List, [], ◌∷◌, map, String, ◌==◌,
  nat_eq, if◌then◌else◌, Result, ok, err, ◌>>=◌, ◌>>◌, refuse_if, length,
}
use mathlib.Core.List.{◌++◌ as ◌+++◌}
use fanloop.Workflow.{Workflow}
use fanloop.State.{State, Event}
use fanloop.State.Checks.{validate, validate_against}
use fanloop.State.History.{validate_event_against, validate_history}
use fanloop.State.Persistence.Documents.{encode, encode_output_registry, new_output_registry}
use fanloop.State.Persistence.Events.{encode_event, decode_event}
use fanloop.Store.{
  File, state_file, output_file, events_file, trace_file, config_file, Files, World, Device,
  StoreError, state_corrupt, local_commit_failed, Services,
}
use fanloop.Store.Files.{attempt, atomic_write, snapshot_all, write_or_restore}
use fanloop.Store.Reading.{or_code, exists, load, read_events, load_workflow, load_bound}

unfoldable pub last_id : List Event → Option String
last_id [] = none
last_id (e ∷ []) = some e.id
last_id (e ∷ es) = last_id es

unfoldable pub is_id : Option String → String → Bool
is_id none id = false
is_id (some last) id = id == last

module _ (services : Services) where
  -- The stored State and the stored history belong together.
  unfoldable pub check_previous : Files → List Event → Result StoreError (Unit {0})
  unfolding last_id is_id
  check_previous files events =
      if exists files
      then (do
        previous ← load services files
        refuse_if (not (is_id (last_id events) previous.last_event_id)) state_corrupt)
      else refuse_if (not (nat_eq (length events) 0)) state_corrupt

  unfoldable pub validate_commit : Files → List Event → State → Event → Result StoreError (Unit {0})
  validate_commit files events next event = do
    or_code state_corrupt (validate services.env next)
    content ← or_code state_corrupt (encode_event services.env services.codec services.cases event)
    decoded ←
        or_code state_corrupt (decode_event services.env services.codec services.cases content)
    loaded ← or_code state_corrupt (load_workflow services files next.release.workflow)
    or_code state_corrupt (validate_against services.env.parse loaded next)
    refuse_if
        (not (next.last_event_id == event.id)
          || not (event.workflow == next.release.workflow)
          || event.id == ""
          || nat_eq event.occurred_at 0)
        state_corrupt
    or_code state_corrupt (validate_event_against services.env.parse loaded true event)
    check_previous files events
    or_code state_corrupt (validate_history services.env.parse loaded (events +++ event ∷ []) next)

  unfoldable pub encode_lines : List Event → Result StoreError String
  encode_lines [] = ok ""
  encode_lines (e ∷ es) = do
    content ←
        or_code local_commit_failed (encode_event services.env services.codec services.cases e)
    rest ← encode_lines es
    ok (content ++ "\n" ++ rest)

  -- The paths that a commit writes, in the order of the writes, with their contents.
  unfoldable pub contents_of :
      String → String → String → State → Workflow → List Event → List (File × String)
  contents_of state output lines next loaded events =
      let trace = services.render_events next loaded events in
      let last = (events_file, lines) ∷ (trace_file, trace) ∷ (state_file, state) ∷ [] in
      (output_file, output) ∷ elim (services.render_trace_config next events) [
        | none ↦ last
        | some config ↦ (config_file, config) ∷ last
      ]

  -- `commitLocked` up to the first write: everything that it writes.
  unfoldable pub prepare_commit : Files → State → Event → Result StoreError (List (File × String))
  prepare_commit files next event = do
    before ← read_events services files
    validate_commit files before next event
    let events = before +++ event ∷ []
    loaded ← or_code state_corrupt (load_workflow services files next.release.workflow)
    state ← or_code local_commit_failed (encode services.env services.codec next)
    output ←
        or_code local_commit_failed
          (encode_output_registry services.env services.codec (new_output_registry next))
    lines ← encode_lines events
    ok (contents_of state output lines next loaded events)

  -- What `RebuildProjection` renders.
  unfoldable pub bound_history : Files → Result StoreError ((State × Workflow) × List Event)
  bound_history files = do
    bound ← load_bound services files
    events ← read_events services files
    ok (bound, events)

module _ (device : Device) where
  -- Calls of the operating system, the first failure of which is returned.
  unfoldable pub attempts : ℕ → World → Result StoreError (Unit {0}) × World
  unfolding attempt
  attempts zero w = (ok tt, w)
  attempts (suc n) w =
      let (done, w1) = attempt device w in
      let later = attempts n w1 in if done then later else (err local_commit_failed, w1)

  -- `withExclusiveLock`: MkdirAll, Open, Stat and Flock. Its argument runs alone.
  unfoldable pub with_exclusive_lock {ℓ} :
      {A : Type ℓ} → (World → Result StoreError A × World) → World → Result StoreError A × World
  with_exclusive_lock operation w =
      let (locked, w1) = attempts 4 w in elim locked [ ok u ↦ operation w1 | err e ↦ (err e, w1) ]

  module _ (services : Services) where
    unfoldable pub commit_locked : State → Event → World → Result StoreError (Unit {0}) × World
    commit_locked next event w = elim (prepare_commit services (w.files) next event) [
      | err e ↦ (err e, w)
      | ok contents ↦
          let (made, w1) = attempts 3 w in
          elim made [
            | err e ↦ (err e, w1)
            | ok u ↦ elim (snapshot_all w1 (map (λ c. c.0) contents)) [
              | err e ↦ (err e, w1)
              | ok before ↦ write_or_restore device before contents w1
            ]
          ]
    ]

    unfoldable pub commit : State → Event → World → Result StoreError (Unit {0}) × World
    commit next event w = with_exclusive_lock (commit_locked next event) w

    unfoldable pub with_locked_state :
        (State → World → Result StoreError (Unit {0}) × World)
        → World
        → Result StoreError (Unit {0}) × World
    with_locked_state operation w =
        with_exclusive_lock
          (λ w1. elim (load_bound services (w1.files)) [
            | err e ↦ (err e, w1)
            | ok bound ↦ operation (bound.0) w1
          ])
          w

    unfoldable pub rebuild_projection : Bool → World → Result StoreError (String × ℕ) × World
    rebuild_projection dry_run w = elim (bound_history services (w.files)) [
      | err e ↦ (err e, w)
      | ok loaded ↦
          let events = loaded.1 in
          let content = services.render_events (loaded.0.0) (loaded.0.1) events in
          let (written, w1) = atomic_write device trace_file content w in
          if dry_run then (ok (content, length events), w) else elim written [
            | err e ↦ (err local_commit_failed, w1)
            | ok u ↦ (ok (content, length events), w1)
          ]
    ]
