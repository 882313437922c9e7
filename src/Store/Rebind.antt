-- ===== src/Store/Rebind.antt =====
-- internal/store/store.go: PinConfiguration and RebindConfiguration.
pub mod Rebound
pub mod Loaded
use Prim.Native.String.{◌++◌}
use fanloop.Base.{
  ℕ, Bool, true, false, not, Option, none, some, List, [], ◌∷◌, String, ◌==◌, is_none,
  if◌then◌else◌, Result, ok, err, ◌>>=◌, ◌>>◌, refuse_if,
}
use fanloop.Workflow.{Workflow}
use fanloop.State.Checks.{validate_against}
use fanloop.State.History.{validate_history}
use fanloop.Store.{
  File, pin_file, audit_file, Stored, Files, World, Device, StoreError, state_corrupt,
  workflow_mismatch, local_commit_failed, invalid_argument, workflow_invalid, Services,
}
use fanloop.Store.Files.{atomic_write, atomic_write_mode, private_mode, snapshot, restore}
use fanloop.Store.Reading.{or_code, found_or, load, read_events, read_pin}
use fanloop.Store.Commit.{attempts, with_exclusive_lock}

-- `configurationRebindAudit`
pub record RebindAudit : Type 0 where
  pub schema_version : ℕ
  pub transaction_id : String
  pub phase : String
  pub previous_snapshot : String
  pub new_snapshot : String
  pub rebound_at : String
  pub reason : String

-- What a rebinding uses of the libraries: `filepath.Clean` and `Base`, `strings.TrimSpace`,
-- `json.Marshal` of the audit, and the event id that it draws.
pub record RebindServices : Type 0 where
  pub clean : String → String
  pub base : String → String
  pub trim_space : String → String
  pub write_audit : RebindAudit → Option String
  pub transaction_id : String

module _ (device : Device) (services : Services) (tools : RebindServices) where
  -- `PinConfiguration`
  unfoldable pub pin_configuration : String → World → Result StoreError (Unit {0}) × World
  pin_configuration source w =
      let clean = tools.clean source in
      let (made, w1) = attempts device 1 w in
      if is_none (services.loader.source_root clean) then (err workflow_invalid, w) else elim made [
        | err e ↦ (err e, w1)
        | ok u ↦ atomic_write_mode device pin_file (clean ++ "\n") private_mode w1
      ]

  unfoldable pub audit_of : String → String → String → String → String → RebindAudit
  audit_of phase previous source rebound_at reason = record {
    schema_version = 1;
    transaction_id = tools.transaction_id;
    phase = phase;
    previous_snapshot = tools.base previous;
    new_snapshot = tools.base source;
    rebound_at = rebound_at;
    reason = reason;
  }

  -- The checks under the lock: the pin that is replaced, if the target Workflow accepts the State
  -- and its history.
  unfoldable pub check_rebind : String → Files → Result StoreError String
  check_rebind root files = do
    current ← load services files
    pin ← read_pin services files
    previous ← found_or state_corrupt pin
    loaded ← found_or workflow_mismatch (services.loader.load_from root current.release.workflow)
    or_code workflow_mismatch (validate_against services.env.parse loaded current)
    events ← read_events services files
    or_code workflow_mismatch (validate_history services.env.parse loaded events current)
    ok previous

  -- The two lines of the audit, each with its newline.
  unfoldable pub audit_lines :
      String → String → String → String → Result StoreError (String × String)
  audit_lines previous source rebound_at reason = do
    prepared ←
        found_or local_commit_failed
          (tools.write_audit (audit_of "prepared" previous source rebound_at reason))
    committed ←
        found_or local_commit_failed
          (tools.write_audit (audit_of "committed" previous source rebound_at reason))
    ok (prepared ++ "\n", committed ++ "\n")

  abbrev content_of : Option Stored → String
  content_of none = ""
  content_of (some stored) = stored.content

  -- The three writes: the audit, the pin, the audit again, with what is restored where one fails.
  unfoldable pub write_rebind :
      Option Stored
      → Option Stored
      → String
      → String × String
      → World
      → Result StoreError (Unit {0}) × World
  write_rebind before_pin before_audit source lines w =
      let audit = content_of before_audit ++ lines.0 in
      let (first, w1) = atomic_write device audit_file audit w in
      let (second, w2) = atomic_write_mode device pin_file (source ++ "\n") private_mode w1 in
      let (third, w3) = atomic_write device audit_file (audit ++ lines.1) w2 in
      elim first [
        | err e ↦ (err local_commit_failed, w1)
        | ok u ↦ elim second [
          | err e ↦ (
            err local_commit_failed,
            restore device pin_file before_pin (restore device audit_file before_audit w2),
          )
          | ok v ↦ elim third [
            | err e ↦ (
              err local_commit_failed,
              restore device audit_file before_audit (restore device pin_file before_pin w3),
            )
            | ok x ↦ (ok tt, w3)
          ]
        ]
      ]

  unfoldable pub snapshots :
      Result StoreError (Unit {0}) → World → Result StoreError (Option Stored × Option Stored)
  snapshots made w = do
    made
    before_pin ← snapshot w pin_file
    before_audit ← snapshot w audit_file
    ok (before_pin, before_audit)

  -- What is known before the first call that changes a file: the previous pin and the audit lines.
  unfoldable pub prepare_rebind :
      String → String → String → String → Files → Result StoreError (String × (String × String))
  prepare_rebind root source rebound_at reason files = do
    previous ← check_rebind root files
    lines ← audit_lines previous source rebound_at reason
    ok (previous, lines)

  abbrev answer_with {ℓ} : {A : Type ℓ} → A → Result StoreError (Unit {0}) → Result StoreError A
  answer_with a (ok u) = ok a
  answer_with a (err e) = err e

  -- What runs under the lock; the previous pin is returned.
  unfoldable pub rebind_locked :
      String → String → String → String → World → Result StoreError String × World
  rebind_locked root source rebound_at reason w =
      elim (prepare_rebind root source rebound_at reason w.files) [
        | err e ↦ (err e, w)
        | ok checked ↦
            let (made, w1) = attempts device 1 w in
            elim (snapshots made w1) [
              | err e ↦ (err e, w1)
              | ok before ↦
                  let (answer, w2) = write_rebind (before.0) (before.1) source (checked.1) w1 in
                  (answer_with (checked.0) answer, w2)
            ]
      ]

  -- `RebindConfiguration`
  unfoldable pub rebind_configuration :
      String → String → String → World → Result StoreError String × World
  rebind_configuration source reason rebound_at w =
      let clean = tools.clean source in
      let trimmed = tools.trim_space reason in
      if trimmed == ""
      then (err invalid_argument, w)
      else elim (services.loader.source_root clean) [
        | none ↦ (err workflow_invalid, w)
        | some root ↦ with_exclusive_lock device (rebind_locked root clean rebound_at trimmed) w
      ]
