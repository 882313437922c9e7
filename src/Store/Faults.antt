-- ===== src/Store/Faults.antt =====
-- internal/store/store.go: what the writes and the restores do where calls of the operating system
-- fail.
use fanloop.Base.{
  ℕ, zero, suc, ◌+◌, ◌≤◌, ◌<◌, ◌≡◌, refl, sym, ap, ◌∙◌, subst, ◌⊎◌, inl, inr, Bool, true, false,
  Option, none, some, List, [], ◌∷◌, map, String, arith, if◌then◌else◌, Bool-cases, All, ok, err,
  Result-cases, ok-injective, any,
}
use fanloop.Store.{
  File, state_file, output_file, events_file, trace_file, config_file, pin_file, audit_file,
  file_code, same_file, Stored, Entry, absent, unreadable, regular, World, Device, StoreError, put,
}
use fanloop.Store.Files.{
  attempt, fill_temporary, atomic_write_mode, atomic_write, private_mode, entry_snapshot, restore,
  restore_all, write_all,
}
use fanloop.Store.Commit.{attempts}

pub same_file-eq : (a b : File) → same_file a b ≡ true → a ≡ b
unfolding file_code
same_file-eq state_file state_file h = refl
same_file-eq output_file output_file h = refl
same_file-eq events_file events_file h = refl
same_file-eq trace_file trace_file h = refl
same_file-eq config_file config_file h = refl
same_file-eq pin_file pin_file h = refl
same_file-eq audit_file audit_file h = refl
same_file-eq a b h = cc

-- At most one call of the operating system fails.
unfoldable pub HasOneFault : Device → Type 0
HasOneFault device = (n m : ℕ) → device.fails n ≡ true → n < m → device.fails m ≡ false

-- No call fails from this one on.
unfoldable pub IsQuietFrom : Device → ℕ → Type 0
IsQuietFrom device n = (m : ℕ) → n ≤ m → device.fails m ≡ false

pub entry_of : Option Stored → Entry
entry_of none = absent
entry_of (some stored) = regular stored

module _ (device : Device) where
  pub atomic_write_mode-quiet :
      (file : File) (content : String) (mode : ℕ) (w : World)
      → IsQuietFrom device w.clock
      → atomic_write_mode device file content mode w ≡ (
        ok tt,
        put file
            (regular (record { content = content; mode = mode }))
            (record w { clock = w.clock + 1 + 1 + 1 + 1 + 1 }),
      )
  unfolding atomic_write_mode fill_temporary attempt put IsQuietFrom
  atomic_write_mode-quiet file content mode w quiet =
      rw
        (
          quiet w.clock (omega arith),
          quiet (w.clock + 1) (omega arith),
          quiet (w.clock + 1 + 1) (omega arith),
          quiet (w.clock + 1 + 1 + 1) (omega arith),
          quiet (w.clock + 1 + 1 + 1 + 1) (omega arith),
        )
        refl

  restore-quiet :
      (file : File) (before : Option Stored) (w : World)
      → IsQuietFrom device w.clock
      → ((other : File)
          → (restore device file before w).files other
            ≡ (if same_file file other then entry_of before else w.files other))
        × (w.clock ≤ (restore device file before w).clock)
  unfolding restore attempt put entry_of IsQuietFrom
  restore-quiet file none w quiet =
      let calm = quiet w.clock (omega arith) in (λ other. rw calm refl, rw calm (omega arith))
  restore-quiet file (some stored) w quiet =
      let done = atomic_write_mode-quiet file stored.content stored.mode w quiet in
      (λ other. rw (restore, done, put) refl, rw (restore, done, put) (omega arith))

  -- Each of the snapshots is what the files held.
  abbrev pub IsSnapshot : (File → Entry) → List (File × Option Stored) → Type 0
  IsSnapshot files before = All (λ b. files b.0 ≡ entry_of b.1) before

  abbrev pub listed : File → List File → Bool
  listed file files = any (λ f. same_file f file) files

  rest_listed :
      (head file : File) (files : List File)
      → same_file head file ≡ false
      → listed file (head ∷ files) ≡ true
      → listed file files ≡ true
  rest_listed head file files other found = ground (arith, other, found)

  pub restore_all-quiet :
      (files : File → Entry) (before : List (File × Option Stored)) (w : World) (file : File)
      → IsSnapshot files before
      → IsQuietFrom device w.clock
      → (listed file (map (λ b. b.0) before) ≡ true) ⊎ (w.files file ≡ files file)
      → (restore_all device before w).files file ≡ files file
  unfolding restore_all IsQuietFrom
  restore_all-quiet files [] w file snapshots quiet (inl found) = cc
  restore_all-quiet files [] w file snapshots quiet (inr same) = same
  restore_all-quiet files ((head, stored) ∷ before) w file snapshots quiet here =
      let (now, later) = restore-quiet head stored w quiet in
      let next = restore device head stored w in
      restore_all-quiet files before next file snapshots.1
        (λ m le. quiet m (omega (arith, later, le)))
        (elim (Bool-cases (same_file head file)) [
          | inl same ↦
              inr (now file ∙ rw same (sym snapshots.0 ∙ ap files (same_file-eq head file same)))
          | inr other ↦ elim here [
            | inl found ↦ inl (rest_listed head file (map (λ b. b.0) before) other found)
            | inr kept ↦ inr (now file ∙ rw other kept)
          ]
        ])

  fill_temporary-files :
      (content : String) (mode : ℕ) (w : World)
      → (fill_temporary device content mode w).1.files ≡ w.files
  unfolding fill_temporary attempt
  fill_temporary-files content mode w = elim (Bool-cases (device.fails w.clock)) [
    | inl failed ↦ rw failed refl
    | inr fine ↦ rw fine refl
  ]

  -- A write that fails changes no file, and one of its calls has failed.
  pub atomic_write_mode-fails :
      (file : File) (content : String) (mode : ℕ) (w : World) (e : StoreError)
      → (atomic_write_mode device file content mode w).0 ≡ err e
      → ((atomic_write_mode device file content mode w).1.files ≡ w.files)
        × (n : ℕ) × (device.fails n ≡ true)
        × (n < (atomic_write_mode device file content mode w).1.clock)
  unfolding atomic_write_mode attempt
  atomic_write_mode-fails file content mode w e h =
      let w1 : World = record w { clock = w.clock + 1 } in
      let after = (fill_temporary device content mode w1).1 in
      let same = fill_temporary-files content mode w1 in
      elim (Bool-cases (device.fails w.clock)) [
        | inl failed ↦ (rw failed refl, w.clock, failed, rw failed (omega arith))
        | inr created ↦ elim (Bool-cases (device.fails after.clock)) [
          | inl failed ↦
              (rw (created, failed) same, after.clock, failed, rw (created, failed) (omega arith))
          | inr closed ↦ elim (Bool-cases (device.fails (after.clock + 1))) [
            | inl failed ↦ (
              rw (created, closed, failed) same,
              after.clock + 1,
              failed,
              rw (created, closed, failed) (omega arith),
            )
            | inr renamed ↦
                let done : (atomic_write_mode device file content mode w).0 ≡ ok tt =
                  rw (created, closed, renamed) refl in
                absurd (ground (arith, done, h))
          ]
        ]
      ]

  -- A write changes no other file.
  pub atomic_write_mode-others :
      (file other : File) (content : String) (mode : ℕ) (w : World)
      → same_file file other ≡ false
      → (atomic_write_mode device file content mode w).1.files other ≡ w.files other
  unfolding atomic_write_mode attempt put
  atomic_write_mode-others file other content mode w distinct =
      let w1 : World = record w { clock = w.clock + 1 } in
      let after = (fill_temporary device content mode w1).1 in
      let same = ap (λ files. files other) (fill_temporary-files content mode w1) in
      elim (Bool-cases (device.fails w.clock)) [
        | inl failed ↦ rw failed refl
        | inr created ↦ elim (Bool-cases (device.fails after.clock)) [
          | inl failed ↦ rw (created, failed) same
          | inr closed ↦ elim (Bool-cases (device.fails (after.clock + 1))) [
            | inl failed ↦ rw (created, closed, failed) same
            | inr renamed ↦ rw (created, closed, renamed, distinct) same
          ]
        ]
      ]

  abbrev pub names : List (File × String) → List File
  names contents = map (λ c. c.0) contents

  pub write_all-cons-ok :
      (file : File) (content : String) (rest : List (File × String)) (w : World)
      → (atomic_write_mode device file content private_mode w).0 ≡ ok tt
      → write_all device ((file, content) ∷ rest) w
        ≡ write_all device rest (atomic_write_mode device file content private_mode w).1
  unfolding write_all atomic_write
  write_all-cons-ok file content rest w done = rw (write_all, done) refl

  write_all-cons-err :
      (file : File) (content : String) (rest : List (File × String)) (w : World) (e : StoreError)
      → (atomic_write_mode device file content private_mode w).0 ≡ err e
      → write_all device ((file, content) ∷ rest) w
        ≡ (err e, (atomic_write_mode device file content private_mode w).1)
  unfolding write_all atomic_write
  write_all-cons-err file content rest w e failed = rw (write_all, failed) refl

  pub write_all-others :
      (contents : List (File × String)) (w : World) (file : File)
      → listed file (names contents) ≡ false
      → (write_all device contents w).1.files file ≡ w.files file
  unfolding write_all
  write_all-others [] w file none_listed = refl
  write_all-others ((head, content) ∷ rest) w file none_listed =
      let head_other : same_file head file ≡ false = ground (arith, none_listed) in
      let rest_other : listed file (names rest) ≡ false = ground (arith, none_listed) in
      let w1 = (atomic_write_mode device head content private_mode w).1 in
      let first = atomic_write_mode-others head file content private_mode w head_other in
      elim (Result-cases (atomic_write_mode device head content private_mode w).0) [
        | inl (u, done) ↦
            ap (λ r. r.1.files file) (write_all-cons-ok head content rest w done)
            ∙ write_all-others rest w1 file rest_other
            ∙ first
        | inr (e, failed) ↦
            ap (λ r. r.1.files file) (write_all-cons-err head content rest w e failed) ∙ first
      ]

  -- Where a sequence of writes fails, a call has failed before it ended.
  pub write_all-fails :
      (contents : List (File × String)) (w : World) (e : StoreError)
      → (write_all device contents w).0 ≡ err e
      → (n : ℕ) × (device.fails n ≡ true) × (n < (write_all device contents w).1.clock)
  unfolding write_all
  write_all-fails [] w e h = absurd (cc h)
  write_all-fails ((head, content) ∷ rest) w e h =
      let w1 = (atomic_write_mode device head content private_mode w).1 in
      elim (Result-cases (atomic_write_mode device head content private_mode w).0) [
        | inl (u, done) ↦
            let next = write_all-cons-ok head content rest w done in
            let (n, bad, before) = write_all-fails rest w1 e (sym (ap (λ r. r.0) next) ∙ h) in
            (n, bad, subst (λ r. n < r.1.clock) (sym next) before)
        | inr (c, failed) ↦
            let next = write_all-cons-err head content rest w c failed in
            let (same, n, bad, before) =
              atomic_write_mode-fails head content private_mode w c failed in
            (n, bad, subst (λ r. n < r.1.clock) (sym next) before)
      ]

pub entry_snapshot-entry_of :
    (entry : Entry) (stored : Option Stored)
    → entry_snapshot entry ≡ ok stored
    → entry ≡ entry_of stored
unfolding entry_snapshot entry_of
entry_snapshot-entry_of absent stored h = rw (sym (ok-injective h)) refl
entry_snapshot-entry_of unreadable stored h = cc
entry_snapshot-entry_of (regular s) stored h = rw (sym (ok-injective h)) refl

pub attempts-files : (device : Device) (n : ℕ) (w : World) → (attempts device n w).1.files ≡ w.files
unfolding attempts attempt
attempts-files device zero w = refl
attempts-files device (suc n) w = elim (Bool-cases (device.fails w.clock)) [
  | inl failed ↦ rw failed refl
  | inr fine ↦ rw fine (attempts-files device n (record w { clock = w.clock + 1 }))
]
