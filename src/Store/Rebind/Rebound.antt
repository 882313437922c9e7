-- ===== src/Store/Rebind/Rebound.antt =====
-- internal/store/store.go, RebindConfiguration: what a rebinding that fails leaves in the files.
use Prim.Native.String.{◌++◌}
use fanloop.Base.{
  ℕ, ◌<◌, ◌≡◌, refl, sym, ap, ◌∙◌, inl, inr, true, false, Option, List, [], ◌∷◌, map, String, arith,
  Bool-cases, Option-cases, ◌==◌, Result, ok, err, Result-cases, >>=-eq-ok, >>-eq-ok, ok-injective,
}
use fanloop.Store.{
  File, pin_file, audit_file, same_file, Stored, World, Device, StoreError, Services,
}
use fanloop.Store.Files.{atomic_write, atomic_write_mode, private_mode, snapshot, restore_all}
use fanloop.Store.Commit.{attempts, with_exclusive_lock}
use fanloop.Store.Faults.{
  HasOneFault, entry_of, entry_snapshot-entry_of, IsSnapshot, listed, restore_all-quiet,
  atomic_write_mode-fails, atomic_write_mode-others, attempts-files,
}
use fanloop.Store.Restored.{quiet_after}
use fanloop.Store.Rebind.{
  RebindServices, write_rebind, content_of, snapshots, prepare_rebind, rebind_locked,
  rebind_configuration,
}

module _ (device : Device) (single : HasOneFault device) (services : Services)
    (tools : RebindServices) where
  -- A file that is neither the pin nor the audit is not written before the restores; the two are
  -- restored.
  restored :
      (w w' : World) (before : List (File × Option Stored)) (n : ℕ) (file : File)
      → IsSnapshot device w.files before
      → device.fails n ≡ true
      → n < w'.clock
      → (listed device file (map (λ b. b.0) before) ≡ false → w'.files file ≡ w.files file)
      → (restore_all device before w').files file ≡ w.files file
  restored w w' before n file held bad earlier kept =
      restore_all-quiet device w.files before w' file held
        (quiet_after device single n w'.clock bad earlier)
        (elim (Bool-cases (listed device file (map (λ b. b.0) before))) [
          | inl found ↦ inl found
          | inr other ↦ inr (kept other)
        ])

  write_rebind-restored :
      (before_pin before_audit : Option Stored) (source : String) (lines : String × String)
      (w : World) (e : StoreError) (file : File)
      → w.files pin_file ≡ entry_of before_pin
      → w.files audit_file ≡ entry_of before_audit
      → (write_rebind device services tools before_pin before_audit source lines w).0 ≡ err e
      → (write_rebind device services tools before_pin before_audit source lines w).1.files file
        ≡ w.files file
  unfolding write_rebind atomic_write restore_all
  write_rebind-restored before_pin before_audit source lines w e file pin_held audit_held h =
      let audit = content_of device services tools before_audit ++ lines.0 in
      let first = atomic_write_mode device audit_file audit private_mode w in
      let second = atomic_write_mode device pin_file (source ++ "\n") private_mode first.1 in
      let third = atomic_write_mode device audit_file (audit ++ lines.1) private_mode second.1 in
      let to_first : same_file audit_file file ≡ false → first.1.files file ≡ w.files file =
        atomic_write_mode-others device audit_file file audit private_mode w in
      elim (Result-cases first.0) [
        | inr (c, failed) ↦
            let (same, n, bad, earlier) =
              atomic_write_mode-fails device audit_file audit private_mode w c failed in
            rw (write_rebind, failed) (ap (λ files. files file) same)
        | inl (u, one) ↦ elim (Result-cases second.0) [
          | inr (c, failed) ↦
              let (same, n, bad, earlier) =
                atomic_write_mode-fails device pin_file (source ++ "\n") private_mode first.1 c
                  failed in
              rw (write_rebind, one, failed)
                (restored w second.1 ((audit_file, before_audit) ∷ (pin_file, before_pin) ∷ []) n
                  file (audit_held, (pin_held, tt)) bad earlier
                  (λ other. ap (λ files. files file) same ∙ to_first (ground (arith, other))))
          | inl (v, two) ↦ elim (Result-cases third.0) [
            | inr (c, failed) ↦
                let (same, n, bad, earlier) =
                  atomic_write_mode-fails device audit_file (audit ++ lines.1) private_mode second.1
                    c failed in
                rw (write_rebind, one, two, failed)
                  (restored w third.1 ((pin_file, before_pin) ∷ (audit_file, before_audit) ∷ []) n
                    file (pin_held, (audit_held, tt)) bad earlier
                    (λ other.
                      ap (λ files. files file) same
                      ∙ atomic_write_mode-others device pin_file file (source ++ "\n") private_mode
                          first.1 (ground (arith, other))
                      ∙ to_first (ground (arith, other))))
            | inl (x, three) ↦
                let answer : (write_rebind device services tools before_pin before_audit source
                      lines w).0
                    ≡ ok tt =
                  rw (write_rebind, one, two, three) refl in
                absurd (ground (arith, answer, h))
          ]
        ]
      ]

  snapshots-eq-ok :
      (made : Result StoreError (Unit {0})) (w : World) (before : Option Stored × Option Stored)
      → snapshots device services tools made w ≡ ok before
      → (w.files pin_file ≡ entry_of before.0) × (w.files audit_file ≡ entry_of before.1)
  unfolding snapshots snapshot
  snapshots-eq-ok made w before h =
      let (done, h1) = >>-eq-ok made _ h in
      let (pin, pin_taken, h2) = >>=-eq-ok (snapshot w pin_file) _ h1 in
      let (audit, audit_taken, last) = >>=-eq-ok (snapshot w audit_file) _ h2 in
      let same = ok-injective last in
      (
        entry_snapshot-entry_of (w.files pin_file) pin pin_taken ∙ ap (λ b. entry_of b.0) same,
        entry_snapshot-entry_of (w.files audit_file) audit audit_taken
            ∙ ap (λ b. entry_of b.1) same,
      )

  rebind_locked-restored :
      (root source rebound_at reason : String) (w : World) (e : StoreError) (file : File)
      → (rebind_locked device services tools root source rebound_at reason w).0 ≡ err e
      → (rebind_locked device services tools root source rebound_at reason w).1.files file
        ≡ w.files file
  unfolding rebind_locked
  rebind_locked-restored root source rebound_at reason w e file h =
      elim (Result-cases
        (prepare_rebind device services tools root source rebound_at reason w.files)) [
          | inr (c, refused) ↦ rw (rebind_locked, refused) refl
          | inl (checked, prepared) ↦
              let made = attempts device 1 w in
              let kept = ap (λ files. files file) (attempts-files device 1 w) in
              elim (Result-cases (snapshots device services tools made.0 made.1)) [
                | inr (c, failed) ↦ rw (rebind_locked, prepared, failed) kept
                | inl (before, taken) ↦
                    let (pin, audit) = snapshots-eq-ok made.0 made.1 before taken in
                    let written =
                      write_rebind device services tools before.0 before.1 source checked.1
                        made.1 in
                    elim (Result-cases written.0) [
                      | inr (c, failed) ↦
                          rw (rebind_locked, prepared, taken)
                            (write_rebind-restored before.0 before.1 source checked.1 made.1 c file
                                pin audit failed
                              ∙ kept)
                      | inl (u, done) ↦
                          let answer : (rebind_locked device services tools root source rebound_at
                                reason w).0
                              ≡ ok checked.0 =
                            rw (rebind_locked, prepared, taken, done) refl in
                          absurd (ground (arith, answer, h))
                    ]
              ]
        ]

  -- A rebinding that returns an error leaves every file as it was, the pin and the audit included,
  -- if at most one call of the operating system fails.
  pub rebind_configuration-restored :
      (source reason rebound_at : String) (w : World) (e : StoreError) (file : File)
      → (rebind_configuration device services tools source reason rebound_at w).0 ≡ err e
      → (rebind_configuration device services tools source reason rebound_at w).1.files file
        ≡ w.files file
  unfolding rebind_configuration with_exclusive_lock
  rebind_configuration-restored source reason rebound_at w e file h =
      let clean = tools.clean source in
      let trimmed = tools.trim_space reason in
      let w1 = (attempts device 4 w).1 in
      let kept = ap (λ files. files file) (attempts-files device 4 w) in
      elim (Bool-cases (trimmed == "")) [
        | inl blank ↦ rw (rebind_configuration, blank) refl
        | inr full ↦ elim (Option-cases (services.loader.source_root clean)) [
          | inl missing ↦ rw (rebind_configuration, full, missing) refl
          | inr (root, found) ↦ elim (Result-cases (attempts device 4 w).0) [
            | inr (c, failed) ↦
                rw (rebind_configuration, full, found, with_exclusive_lock, failed) kept
            | inl (u, locked) ↦
                let reached : rebind_configuration device services tools source reason rebound_at w
                    ≡ rebind_locked device services tools root clean rebound_at trimmed w1 =
                  rw (rebind_configuration, full, found, with_exclusive_lock, locked) refl in
                ap (λ r. r.1.files file) reached
                ∙ rebind_locked-restored root clean rebound_at trimmed w1 e file
                    (sym (ap (λ r. r.0) reached) ∙ h)
                ∙ kept
          ]
        ]
      ]
