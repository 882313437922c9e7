-- ===== src/Store.antt =====
-- internal/store/store.go: the files under .fanloop, with what the operating system does to them.
-- The directories, the rendering of the projections and the loading of Workflows are parameters.
pub mod Files
pub mod Reading
pub mod Commit
pub mod Faults
pub mod Restored
pub mod Lines
pub mod Written
pub mod Reloaded
pub mod Rebind
pub mod Committed
pub mod Continued
use fanloop.Base.{
  ℕ, ◌+◌, ◌≡◌, refl, Bool, true, false, not, Option, none, some, List, [], ◌∷◌, String, nat_eq,
  arith, if◌then◌else◌, eq_iff,
}
use fanloop.Workflow.{Workflow}
use fanloop.State.{State, Event}
use fanloop.State.Checks.{Env}
use fanloop.State.Persistence.{Codec}
use fanloop.State.Persistence.Events.{Cases}

-- The files that a Store names.
pub data File : Type 0 where
  state_file output_file events_file trace_file config_file pin_file audit_file : File

unfoldable pub file_code : File → ℕ
file_code state_file = 0
file_code output_file = 1
file_code events_file = 2
file_code trace_file = 3
file_code config_file = 4
file_code pin_file = 5
file_code audit_file = 6

abbrev pub same_file : File → File → Bool
same_file a b = nat_eq (file_code a) (file_code b)

-- Content and permission bits of a regular file.
pub record Stored : Type 0 where
  pub content : String
  pub mode : ℕ

-- `unreadable` is there for `os.Stat`, but reading it fails.
pub data Entry : Type 0 where
  absent unreadable : Entry
  regular : Stored → Entry

abbrev pub Files : Type 0
Files = File → Entry

-- The files, and the number of calls of the operating system that may fail and have been made.
pub record World : Type 0 where
  pub files : Files
  pub clock : ℕ

-- Which calls fail, by their number, and what a `Write` that fails has written.
pub record Device : Type 0 where
  pub fails : ℕ → Bool
  pub partial : ℕ → String → String

-- The codes of `erroridl` that the Store answers with.
pub data StoreError : Type 0 where
  not_initialized state_corrupt state_schema_unsupported workflow_mismatch : StoreError
  local_commit_failed invalid_argument workflow_invalid : StoreError

-- `workflow.Load`, `workflow.SourceRoot` and `workflow.LoadFrom`.
pub record Loader : Type 0 where
  pub load : String → Option Workflow
  pub source_root : String → Option String
  pub load_from : String → String → Option Workflow

-- What the Store uses of the other packages. `header_version` is `json.Unmarshal` into a struct that
-- has the one field `schema_version`; `is_clean_path` says that `filepath.IsAbs` and `filepath.Clean`
-- leave a path as it is.
pub record Services : Type 0 where
  pub env : Env
  pub codec : Codec
  pub cases : Cases
  pub loader : Loader
  pub header_version : String → Option ℕ
  pub is_clean_path : String → Bool
  pub render_events : State → Workflow → List Event → String
  pub render_trace_config : State → List Event → Option String

unfoldable pub put : File → Entry → World → World
put file entry w = record w {
  files = λ other. if same_file file other then entry else w.files other;
}
