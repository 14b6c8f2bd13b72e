-- ===== src/Persist.antt =====
-- plugin.go: `persistStates`, the calls of the operating system it makes, and the files that they
-- leave. The operating system and the JSON printer are parameters.
pub mod Chain
pub mod Atomic
pub mod Callers
pub mod Reloaded
pub mod Saved
use cpa_codex_turn_state_plu.Base.{
  ℕ, Bool, true, false, not, ◌||◌, Option, none, some, List, [], ◌∷◌, ◌++◌, if◌then◌else◌, Text,
  text_beq, text_eq, str,
}
use cpa_codex_turn_state_plu.Base.Int.{ℤ, pos}
use cpa_codex_turn_state_plu.Base.Dict.{Dict, insert, erase, lookup}
use cpa_codex_turn_state_plu.Text.{trim}
use cpa_codex_turn_state_plu.State.{StoredState}

-- A file with its permissions, and the files by their path. `durable` is the content that a crash of
-- the machine leaves of it, which is what the last `Sync` found; names are changed at once and in order.
pub record File : Type 0 where
  pub content : Text
  pub mode : ℕ
  pub durable : Text

abbrev pub Disk : Type 0
Disk = Dict Text File

-- The errors, in the order of the code.
pub data PersistError : Type 0 where
  empty_path mkdir_failed encode_failed temp_failed : PersistError
  chmod_failed write_failed sync_failed close_failed rename_failed : PersistError

-- `persistedFile`
pub record PersistedFile : Type 0 where
  pub version : ℤ
  pub credentials : Dict Text StoredState

abbrev pub persisted_file : Dict Text StoredState → PersistedFile
persisted_file states = record { version = pos 2; credentials = states }

-- What the calls answer: whether they succeed, the path of the temporary file, and for a `Write`
-- that fails, what it had written. `encode` is `json.MarshalIndent`.
pub record Calls : Type 0 where
  pub clean : Text → Text
  pub encode : PersistedFile → Option Text
  pub made : Bool
  pub temp : Option Text
  pub chmods : Bool
  pub partial : Option Text
  pub syncs : Bool
  pub closes : Bool
  pub renames : Bool
  pub removes : Bool

-- `0o600`
abbrev pub private_mode : ℕ
private_mode = 384

-- `append(raw, '\n')`
abbrev pub line_feed : Text
line_feed = 10 ∷ []

-- A call on the disk: its error, and the disk after it.
abbrev pub FileCall : Type 0
FileCall = Disk → Option PersistError × Disk

-- How a chain of calls ends, and the disks that it passes, the first one first.
pub record Run : Type 0 where
  pub failure : Option PersistError
  pub last : Disk
  pub passed : List Disk

-- A chain of calls, each with the return of its error.
unfoldable pub run_calls : List FileCall → Disk → Run
run_calls [] disk = record { failure = none; last = disk; passed = [] }
run_calls (call ∷ rest) disk =
    let done = call disk in
    let after = run_calls rest done.1 in
    elim done.0 [
      | some e ↦ record { failure = some e; last = done.1; passed = disk ∷ [] }
      | none ↦ record { failure = after.failure; last = after.last; passed = disk ∷ after.passed }
    ]

-- `os.CreateTemp`, which gives an empty file of mode 0600
unfoldable pub created : Text → Disk → Disk
created temp disk = insert temp (record { content = []; mode = private_mode; durable = [] }) disk

-- The file after `Chmod(0o600)`.
unfoldable pub protect : Text → Disk → Disk
protect temp disk = elim (lookup temp disk) [
  | none ↦ disk
  | some f ↦ insert temp (record f { mode = private_mode }) disk
]

unfoldable pub chmod_temp : Calls → Text → FileCall
chmod_temp os temp disk = if os.chmods then (none, protect temp disk) else (some chmod_failed, disk)

-- What the file holds after `Write`.
unfoldable pub put : Text → Text → Disk → Disk
put temp raw disk = elim (lookup temp disk) [
  | none ↦ disk
  | some f ↦ insert temp (record f { content = raw }) disk
]

unfoldable pub write_temp : Calls → Text → Text → FileCall
write_temp os temp raw disk = elim os.partial [
  | none ↦ (none, put temp raw disk)
  | some part ↦ (some write_failed, put temp part disk)
]

-- The file after `Sync`.
unfoldable pub flush : Text → Disk → Disk
flush temp disk = elim (lookup temp disk) [
  | none ↦ disk
  | some f ↦ insert temp (record f { durable = f.content }) disk
]

unfoldable pub sync_temp : Calls → Text → FileCall
sync_temp os temp disk = if os.syncs then (none, flush temp disk) else (some sync_failed, disk)

unfoldable pub close_temp : Calls → FileCall
close_temp os disk = if os.closes then (none, disk) else (some close_failed, disk)

-- `os.Rename`, which replaces the target at once
unfoldable pub moved : Text → Text → Disk → Disk
moved temp target disk = elim (lookup temp disk) [
  | none ↦ disk
  | some f ↦ insert target f (erase temp disk)
]

unfoldable pub rename_temp : Calls → Text → Text → FileCall
rename_temp os temp target disk =
    if os.renames then (none, moved temp target disk) else (some rename_failed, disk)

-- The calls after the temporary file was created.
unfoldable pub temp_calls : Calls → Text → Text → Text → List FileCall
temp_calls os temp target raw =
    chmod_temp os temp
    ∷ write_temp os temp raw
    ∷ sync_temp os temp
    ∷ close_temp os
    ∷ rename_temp os temp target
    ∷ []

-- The deferred `os.Remove`, after an error.
unfoldable pub with_cleanup : Calls → Text → Run → Run
with_cleanup os temp run = elim run.failure [
  | none ↦ run
  | some e ↦ record {
    failure = some e;
    last = if os.removes then erase temp run.last else run.last;
    passed = run.passed ++ run.last ∷ [];
  }
]

abbrev pub stopped : PersistError → Disk → Run
stopped e disk = record { failure = some e; last = disk; passed = [] }

unfoldable pub replace_file : Calls → Text → Text → Text → Disk → Run
unfolding with_cleanup run_calls temp_calls created
replace_file os temp target raw disk =
    let run =
      with_cleanup os temp (run_calls (temp_calls os temp target raw) (created temp disk)) in
    record run { passed = disk ∷ run.passed }

-- `persistStates`
unfoldable pub persist_states : Calls → Text → Dict Text StoredState → Disk → Run
unfolding replace_file
persist_states os path states disk =
    let target = os.clean (trim path) in
    if text_beq target (str ".") || text_beq target []
    then stopped empty_path disk
    else if not os.made
    then stopped mkdir_failed disk
    else elim (os.encode (persisted_file states)) [
      | none ↦ stopped encode_failed disk
      | some raw ↦ elim os.temp [
        | none ↦ stopped temp_failed disk
        | some temp ↦ replace_file os temp target (raw ++ line_feed) disk
      ]
    ]
