-- ===== src/Store/Files.antt =====
-- internal/store/store.go: fileSnapshot, atomicWriteMode, and the sequences of writes.
use fanloop.Base.{
  ℕ, ◌+◌, Bool, not, Option, none, some, List, [], ◌∷◌, String, if◌then◌else◌, Result, ok, err,
  ◌>>=◌,
}
use fanloop.Store.{
  File, Stored, Entry, absent, unreadable, regular, World, Device, StoreError, local_commit_failed,
  put,
}

-- A call of the operating system that may fail: whether it succeeds.
unfoldable pub attempt : Device → World → Bool × World
attempt device w = (not (device.fails w.clock), record w { clock = w.clock + 1 })

abbrev pub private_mode : ℕ
private_mode = 0o600

-- What the temporary file holds: `err` of the Chmod and of the Write is a variable of its own, so
-- that neither error is returned.
unfoldable pub fill_temporary : Device → String → ℕ → World → Stored × World
unfolding attempt
fill_temporary device content mode w =
    let (changed, w1) = attempt device w in
    let (written, w2) = attempt device w1 in
    if changed
    then (
      record {
        content = if written then content else device.partial (w1.clock) content;
        mode = mode;
      },
      w2,
    )
    else (record { content = ""; mode = private_mode }, w1)

-- `atomicWriteMode`
unfoldable pub atomic_write_mode :
    Device → File → String → ℕ → World → Result StoreError (Unit {0}) × World
unfolding put
atomic_write_mode device file content mode w =
    let (created, w1) = attempt device w in
    let (temporary, w2) = fill_temporary device content mode w1 in
    let (closed, w3) = attempt device w2 in
    let (renamed, w4) = attempt device w3 in
    if not created
    then (err local_commit_failed, w1)
    else if not closed
    then (err local_commit_failed, w3)
    else if not renamed
    then (err local_commit_failed, w4)
    else (ok tt, put file (regular temporary) w4)

-- `atomicWrite`
unfoldable pub atomic_write : Device → File → String → World → Result StoreError (Unit {0}) × World
atomic_write device file content w = atomic_write_mode device file content private_mode w

unfoldable pub entry_snapshot : Entry → Result StoreError (Option Stored)
entry_snapshot absent = ok none
entry_snapshot unreadable = err local_commit_failed
entry_snapshot (regular stored) = ok (some stored)

-- `snapshot`: none is a file that does not exist.
unfoldable pub snapshot : World → File → Result StoreError (Option Stored)
unfolding entry_snapshot
snapshot w file = entry_snapshot (w.files file)

-- `fileSnapshot.restore`; its callers drop the error.
unfoldable pub restore : Device → File → Option Stored → World → World
unfolding attempt put
restore device file none w =
    let (removed, w1) = attempt device w in if removed then put file absent w1 else w1
restore device file (some stored) w = (atomic_write_mode device file stored.content stored.mode w).1

unfoldable pub restore_all : Device → List (File × Option Stored) → World → World
restore_all device [] w = w
restore_all device ((file, before) ∷ rest) w =
    restore_all device rest (restore device file before w)

-- `snapshot` of each of the paths.
unfoldable pub snapshot_all : World → List File → Result StoreError (List (File × Option Stored))
snapshot_all w [] = ok []
snapshot_all w (file ∷ files) = do
  before ← snapshot w file
  rest ← snapshot_all w files
  ok ((file, before) ∷ rest)

-- The loop over the paths, up to the first write that fails.
unfoldable pub write_all :
    Device → List (File × String) → World → Result StoreError (Unit {0}) × World
write_all device [] w = (ok tt, w)
write_all device ((file, content) ∷ rest) w =
    let (answer, w1) = atomic_write device file content w in
    elim answer [ ok u ↦ write_all device rest w1 | err e ↦ (err e, w1) ]

-- The loop with the restores of its failing branch. The order of the restores, which the source
-- takes from a map, is that of the writes.
unfoldable pub write_or_restore :
    Device
    → List (File × Option Stored)
    → List (File × String)
    → World
    → Result StoreError (Unit {0}) × World
write_or_restore device before contents w =
    let (answer, w1) = write_all device contents w in
    elim answer [
      | ok u ↦ (ok tt, w1)
      | err e ↦ (err local_commit_failed, restore_all device before w1)
    ]
