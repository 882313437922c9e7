-- ===== src/Store/Restored.antt =====
-- internal/store/store.go, Commit: what a commit that fails leaves in the files.
use fanloop.Base.{
  ℕ, ◌<◌, ◌≡◌, refl, sym, ap, ◌∙◌, subst, ◌⊎◌, inl, inr, true, Option, List, [], ◌∷◌, map, String,
  arith, Bool-cases, ok, err, Result-cases, >>=-eq-ok, ok-injective,
}
use fanloop.State.{State, Event}
use fanloop.Store.{File, Stored, World, Device, StoreError, Services}
use fanloop.Store.Files.{snapshot, snapshot_all, write_all, write_or_restore}
use fanloop.Store.Commit.{attempts, with_exclusive_lock, prepare_commit, commit_locked, commit}
use fanloop.Store.Faults.{
  HasOneFault, IsQuietFrom, entry_snapshot-entry_of, IsSnapshot, listed, names, restore_all-quiet,
  write_all-others, write_all-fails, attempts-files,
}

snapshot_all-IsSnapshot :
    (device : Device) (w : World) (files : List File) (before : List (File × Option Stored))
    → snapshot_all w files ≡ ok before
    → (IsSnapshot device w.files before) × (map (λ b. b.0) before ≡ files)
unfolding snapshot_all snapshot
snapshot_all-IsSnapshot device w [] before h =
    (subst (IsSnapshot device w.files) (ok-injective h) tt, rw (sym (ok-injective h)) refl)
snapshot_all-IsSnapshot device w (file ∷ files) before h =
    let (stored, first, h1) = >>=-eq-ok (snapshot w file) _ h in
    let (rest, others, last) = >>=-eq-ok (snapshot_all w files) _ h1 in
    let (held, same) = snapshot_all-IsSnapshot device w files rest others in
    (
      subst (IsSnapshot device w.files) (ok-injective last)
          (entry_snapshot-entry_of (w.files file) stored first, held),
      rw (sym (ok-injective last), same) refl,
    )

module _ (device : Device) (single : HasOneFault device) where
  pub quiet_after : (n clock : ℕ) → device.fails n ≡ true → n < clock → IsQuietFrom device clock
  unfolding IsQuietFrom HasOneFault
  quiet_after n clock bad before m later = single n m bad (omega (arith, before, later))

  write_or_restore-restored :
      (contents : List (File × String)) (before : List (File × Option Stored)) (w : World)
      (e : StoreError) (file : File)
      → snapshot_all w (names device contents) ≡ ok before
      → (write_or_restore device before contents w).0 ≡ err e
      → (write_or_restore device before contents w).1.files file ≡ w.files file
  unfolding write_or_restore
  write_or_restore-restored contents before w e file taken h =
      elim (Result-cases (write_all device contents w).0) [
        | inl (u, done) ↦
            let answer : (write_or_restore device before contents w).0 ≡ ok tt =
              rw (write_or_restore, done) refl in
            absurd (ground (arith, answer, h))
        | inr (c, failed) ↦
            let (n, bad, earlier) = write_all-fails device contents w c failed in
            let w1 = (write_all device contents w).1 in
            let (held, paths) =
              snapshot_all-IsSnapshot device w (names device contents) before taken in
            let here : (listed device file (map (λ b. b.0) before) ≡ true)
                ⊎ (w1.files file ≡ w.files file) =
              elim (Bool-cases (listed device file (names device contents))) [
                | inl found ↦ inl (rw paths found)
                | inr other ↦ inr (write_all-others device contents w file other)
              ] in
            rw (write_or_restore, failed)
              (restore_all-quiet device w.files before w1 file held
                (quiet_after n w1.clock bad earlier) here)
      ]

module _ (device : Device) (services : Services) (next : State) (event : Event) where
  commit_locked-restored :
      (w : World) (e : StoreError) (file : File)
      → HasOneFault device
      → (commit_locked device services next event w).0 ≡ err e
      → (commit_locked device services next event w).1.files file ≡ w.files file
  unfolding commit_locked
  commit_locked-restored w e file single h =
      elim (Result-cases (prepare_commit services w.files next event)) [
        | inr (c, refused) ↦ rw (commit_locked, refused) refl
        | inl (contents, prepared) ↦
            let w1 = (attempts device 3 w).1 in
            let kept = ap (λ files. files file) (attempts-files device 3 w) in
            elim (Result-cases (attempts device 3 w).0) [
              | inr (c, failed) ↦ rw (commit_locked, prepared, failed) kept
              | inl (u, made) ↦ elim (Result-cases (snapshot_all w1 (names device contents))) [
                | inr (c, failed) ↦ rw (commit_locked, prepared, made, failed) kept
                | inl (before, taken) ↦
                    let reached : commit_locked device services next event w
                        ≡ write_or_restore device before contents w1 =
                      rw (commit_locked, prepared, made, taken) refl in
                    ap (λ r. r.1.files file) reached
                    ∙ write_or_restore-restored device single contents before w1 e file taken
                        (sym (ap (λ r. r.0) reached) ∙ h)
                    ∙ kept
              ]
            ]
      ]

  -- A commit that returns an error leaves every file as it was, content and permission bits, if at
  -- most one call of the operating system fails.
  pub commit-restored :
      (w : World) (e : StoreError) (file : File)
      → HasOneFault device
      → (commit device services next event w).0 ≡ err e
      → (commit device services next event w).1.files file ≡ w.files file
  unfolding commit with_exclusive_lock
  commit-restored w e file single h =
      let w1 = (attempts device 4 w).1 in
      let kept = ap (λ files. files file) (attempts-files device 4 w) in
      elim (Result-cases (attempts device 4 w).0) [
        | inr (c, failed) ↦ rw (commit, with_exclusive_lock, failed) kept
        | inl (u, locked) ↦
            let reached : commit device services next event w
                ≡ commit_locked device services next event w1 =
              rw (commit, with_exclusive_lock, locked) refl in
            ap (λ r. r.1.files file) reached
            ∙ commit_locked-restored w1 e file single (sym (ap (λ r. r.0) reached) ∙ h)
            ∙ kept
      ]
