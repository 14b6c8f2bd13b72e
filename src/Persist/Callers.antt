-- ===== src/Persist/Callers.antt =====
-- plugin.go: `persistCurrent`, the end of `complete` and the part of `loadPersisted` that reads the
-- file; probe.go: the end of `ensureProbe`; management.go: the end of `clearAction`. Other sections
-- may run between the section that promoted a state and the write, so the state stands apart.
use cpa_codex_turn_state_plu.Base.{
  ℕ, Bool, true, false, not, ◌&&◌, Option, none, some, [], ltb, if◌then◌else◌, Text, text_beq,
  text_eq, str,
}
use cpa_codex_turn_state_plu.Base.Dict.{insert, lookup}
use cpa_codex_turn_state_plu.Text.{trim, byte_length}
use cpa_codex_turn_state_plu.State.{RuntimeState}
use cpa_codex_turn_state_plu.Lifecycle.Persisted.{StateFile, missing, oversized, persist_current}
use cpa_codex_turn_state_plu.Persist.{Disk, PersistError, Calls, Run, persist_states}

-- `maxStateFileBytes`
abbrev pub max_state_file_bytes : ℕ
max_state_file_bytes = 16_777_216

-- Opening, reading and decoding the file, where it can be read: `decode` is `json.Unmarshal`.
unfoldable pub read_state_file : (Text → Text) → (Text → StateFile) → Text → Disk → StateFile
read_state_file clean decode path disk = elim (lookup (clean (trim path)) disk) [
  | none ↦ missing
  | some file ↦
      if ltb max_state_file_bytes (byte_length file.content) then oversized else decode file.content
]

-- `persistCurrent`: nothing is written for a path that is no longer configured.
unfoldable pub save : Calls → RuntimeState → Text → Disk → Run
save os s path disk = elim (persist_current s path) [
  | none ↦ record { failure = none; last = disk; passed = [] }
  | some states ↦ persist_states os path states disk
]

-- The end of `complete`: its error, and the disk.
unfoldable pub save_promoted :
    Calls → RuntimeState → Text → Bool → Disk → Option PersistError × Disk
unfolding save
save_promoted os s path promoted disk =
    if promoted && not (text_beq (trim path) [])
    then (let run = save os s path disk in (run.failure, run.last))
    else (none, disk)

-- `state.probeResults[key] = "persist_failed"`
unfoldable pub note_persist_failed : RuntimeState → Text → RuntimeState
note_persist_failed s key = record s {
  probe_results = insert key (str "persist_failed") s.probe_results;
}

-- The end of `ensureProbe`.
unfoldable pub save_probed : Calls → RuntimeState → Text → Text → Bool → Disk → RuntimeState × Disk
unfolding save note_persist_failed
save_probed os s path key promoted disk =
    if promoted && not (text_beq path [])
    then (let run = save os s path disk in
        elim run.failure [ some e ↦ (note_persist_failed s key, run.last) | none ↦ (s, run.last) ])
    else (s, disk)

-- The end of `clearAction`: `persisted` and `failed` of its result, and the disk.
unfoldable pub save_cleared : Calls → RuntimeState → Text → Disk → Bool × Option PersistError × Disk
unfolding save
save_cleared os s path disk =
    if text_beq path []
    then (false, none, disk)
    else (let run = save os s path disk in
        elim run.failure [ some e ↦ (false, some e, run.last) | none ↦ (true, none, run.last) ])
