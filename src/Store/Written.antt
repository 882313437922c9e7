-- ===== src/Store/Written.antt =====
-- internal/store/store.go, Commit: what a commit that succeeds leaves in the files, and the write
-- whose error is lost.
use fanloop.Base.{
  ℕ, zero, suc, ◌+◌, ◌≤◌, ◌≡◌, refl, sym, ap, ◌∙◌, subst, ◌≢◌, inl, inr, true, false, Option, none,
  some, List, [], ◌∷◌, map, String, arith, if◌then◌else◌, Bool-cases, Option-cases, ok, err,
  Result-cases,
}
use fanloop.State.{State, Event}
use fanloop.Store.{File, same_file, file_code, Stored, Entry, regular, World, Device, Services, put}
use fanloop.Store.Files.{
  attempt, fill_temporary, atomic_write_mode, private_mode, snapshot_all, write_all,
  write_or_restore,
}
use fanloop.Store.Commit.{attempts, with_exclusive_lock, prepare_commit, commit_locked, commit}
use fanloop.Store.Faults.{IsQuietFrom, atomic_write_mode-quiet, write_all-cons-ok, attempts-files}

-- Where Chmod succeeds and Write fails, and no other call does, atomicWriteMode returns no error,
-- and the file holds, with the mode that was asked for, what the failed Write has written, whatever
-- the content was.
pub atomic_write_mode-lost :
    (device : Device) (file : File) (content : String) (mode : ℕ) (w : World)
    → device.fails (w.clock + 1 + 1) ≡ true
    → ((n : ℕ) → n ≢ w.clock + 1 + 1 → device.fails n ≡ false)
    → ((atomic_write_mode device file content mode w).0 ≡ ok tt)
      × ((atomic_write_mode device file content mode w).1.files file
          ≡ regular (record { content = device.partial (w.clock + 1 + 1) content; mode = mode }))
unfolding atomic_write_mode fill_temporary attempt put file_code
atomic_write_mode-lost device file content mode w bad fine =
    let f0 = fine w.clock (omega arith) in
    let f1 = fine (w.clock + 1) (omega arith) in
    let f3 = fine (w.clock + 1 + 1 + 1) (omega arith) in
    let f4 = fine (w.clock + 1 + 1 + 1 + 1) (omega arith) in
    let same : same_file file file ≡ true = ground arith in
    (rw (f0, f1, bad, f3, f4) refl, rw (f0, f1, bad, f3, f4, same) refl)

-- The content that the last write of a file in the list has.
unfoldable pub last_content : File → List (File × String) → Option String
last_content file [] = none
last_content file ((head, content) ∷ rest) = elim (last_content file rest) [
  | some later ↦ some later
  | none ↦ if same_file head file then some content else none
]

abbrev pub private_file : String → Entry
private_file content = regular (record { content = content; mode = private_mode })

unfoldable pub entry_after : Option String → Entry → Entry
entry_after none old = old
entry_after (some content) old = private_file content

entry_after-put :
    (head file : File) (content : String) (rest : List (File × String)) (w : World) (old : Entry)
    → old ≡ (if same_file head file then private_file content else w.files file)
    → entry_after (last_content file rest) old
      ≡ entry_after (last_content file ((head, content) ∷ rest)) (w.files file)
unfolding last_content entry_after
entry_after-put head file content rest w old same = elim (Option-cases (last_content file rest)) [
  | inr (later, found) ↦ rw found refl
  | inl missing ↦ elim (Bool-cases (same_file head file)) [
    | inl here ↦ rw (missing, same, here) refl
    | inr other ↦ rw (missing, same, other) refl
  ]
]

module _ (device : Device) where
  pub write_all-quiet :
      (contents : List (File × String)) (w : World) (file : File)
      → IsQuietFrom device w.clock
      → ((write_all device contents w).0 ≡ ok tt)
        × ((write_all device contents w).1.files file
            ≡ entry_after (last_content file contents) (w.files file))
  unfolding write_all last_content entry_after IsQuietFrom put
  write_all-quiet [] w file quiet = (refl, refl)
  write_all-quiet ((head, content) ∷ rest) w file quiet =
      let done = atomic_write_mode-quiet device head content private_mode w quiet in
      let next = write_all-cons-ok device head content rest w (ap (λ r. r.0) done) in
      let w1 : World =
        put head (private_file content) (record w { clock = w.clock + 1 + 1 + 1 + 1 + 1 }) in
      let there : write_all device ((head, content) ∷ rest) w ≡ write_all device rest w1 =
        next ∙ ap (λ r. write_all device rest r.1) done in
      let (answer, held) =
        write_all-quiet rest w1 file (λ m later. quiet m (omega (arith, later))) in
      (
        ap (λ r. r.0) there ∙ answer,
        ap (λ r. r.1.files file) there
            ∙ held
            ∙ entry_after-put head file content rest w (w1.files file) refl,
      )

pub write_or_restore-ok :
    (device : Device) (before : List (File × Option Stored)) (contents : List (File × String))
    (w : World)
    → (write_all device contents w).0 ≡ ok tt
    → write_or_restore device before contents w ≡ (ok tt, (write_all device contents w).1)
unfolding write_or_restore
write_or_restore-ok device before contents w done = rw (write_or_restore, done) refl

pub attempts-quiet :
    (device : Device) (n : ℕ) (w : World)
    → IsQuietFrom device w.clock
    → ((attempts device n w).0 ≡ ok tt) × (w.clock ≤ (attempts device n w).1.clock)
unfolding attempts attempt IsQuietFrom
attempts-quiet device zero w quiet = (refl, omega arith)
attempts-quiet device (suc n) w quiet =
    let calm = quiet w.clock (omega arith) in
    let (answer, later) =
      attempts-quiet device n (record w { clock = w.clock + 1 })
        (λ m after. quiet m (omega (arith, after))) in
    (rw calm answer, rw calm (omega (arith, later)))

module _ (device : Device) (services : Services) (next : State) (event : Event) where
  commit_locked-written :
      (w : World)
      → IsQuietFrom device w.clock
      → (commit_locked device services next event w).0 ≡ ok tt
      → (contents : List (File × String)) × (prepare_commit services w.files next event
          ≡ ok contents)
        × ((file : File)
            → (commit_locked device services next event w).1.files file
              ≡ entry_after (last_content file contents) (w.files file))
  unfolding commit_locked IsQuietFrom
  commit_locked-written w quiet h =
      elim (Result-cases (prepare_commit services w.files next event)) [
        | inr (c, refused) ↦ absurd (ground (arith, refused, h))
        | inl (contents, prepared) ↦
            let w1 = (attempts device 3 w).1 in
            let (made, later) = attempts-quiet device 3 w quiet in
            let kept = attempts-files device 3 w in
            elim (Result-cases (snapshot_all w1 (map (λ c. c.0) contents))) [
              | inr (c, failed) ↦
                  let answer : (commit_locked device services next event w).0 ≡ err c =
                    rw (commit_locked, prepared, made, failed) refl in
                  absurd (ground (arith, answer, h))
              | inl (before, taken) ↦
                  let reached : commit_locked device services next event w
                      ≡ write_or_restore device before contents w1 =
                    rw (commit_locked, prepared, made, taken) refl in
                  (
                    contents,
                    prepared,
                    λ file.
                        let (answer, held) =
                          write_all-quiet device contents w1 file
                            (λ m after. quiet m (omega (arith, after, later))) in
                        ap (λ r. r.1.files file) reached
                        ∙ ap (λ r. r.1.files file)
                            (write_or_restore-ok device before contents w1 answer)
                        ∙ held
                        ∙ ap (λ files. entry_after (last_content file contents) (files file)) kept,
                  )
            ]
      ]

  -- A commit that succeeds, where no call fails, has written what prepare_commit made.
  pub commit-written :
      (w : World)
      → IsQuietFrom device w.clock
      → (commit device services next event w).0 ≡ ok tt
      → (contents : List (File × String)) × (prepare_commit services w.files next event
          ≡ ok contents)
        × ((file : File)
            → (commit device services next event w).1.files file
              ≡ entry_after (last_content file contents) (w.files file))
  unfolding commit with_exclusive_lock IsQuietFrom
  commit-written w quiet h =
      let w1 = (attempts device 4 w).1 in
      let (locked, later) = attempts-quiet device 4 w quiet in
      let kept = attempts-files device 4 w in
      let reached : commit device services next event w
          ≡ commit_locked device services next event w1 =
        rw (commit, with_exclusive_lock, locked) refl in
      let (contents, prepared, held) =
        commit_locked-written w1 (λ m after. quiet m (omega (arith, after, later)))
          (sym (ap (λ r. r.0) reached) ∙ h) in
      (
        contents,
        subst (λ files. prepare_commit services files next event ≡ ok contents) kept prepared,
        λ file.
            ap (λ r. r.1.files file) reached
            ∙ held file
            ∙ ap (λ files. entry_after (last_content file contents) (files file)) kept,
      )
