-- ===== src/Lifecycle/Persisted.antt =====
-- plugin.go: `loadPersisted` and `persistCurrent`. Reading, writing and decoding the file are
-- outside; the model starts from what the read gave.
use cpa_codex_turn_state_plu.Base.{
  not, ◌||◌, Option, none, some, [], ◌∷◌, if◌then◌else◌, Text, text_beq, text_eq, Result, ok, err,
}
use cpa_codex_turn_state_plu.Base.Int.{ℤ, pos, int_beq}
use cpa_codex_turn_state_plu.Base.Dict.{Dict, insert}
use cpa_codex_turn_state_plu.Text.{trim}
use cpa_codex_turn_state_plu.Fernet.{parse_turn_state}
use cpa_codex_turn_state_plu.State.{RuntimeState, StoredState}

-- A state file: absent, not readable, above 16 MiB, not JSON, or a version with the values by key.
pub data StateFile : Type 0 where
  missing unreadable oversized malformed : StateFile
  contents : ℤ → Dict Text Text → StateFile

pub data LoadError : Type 0 where
  read_failed exceeds_limit decode_failed unsupported_version : LoadError

-- The times and block counts come from the values, not from the file.
unfoldable pub reload : ℤ → Dict Text Text → Dict Text StoredState → Dict Text StoredState
reload max [] out = out
reload max ((key, value) ∷ rest) out = reload max rest (
    if text_beq key [] || not (text_beq key (trim key))
    then out
    else (elim (parse_turn_state value max) [
      | err _ ↦ out
      | ok info ↦
          insert key (record { value = value; issued_at = info.issued_at; blocks = info.blocks })
            out
    ]))

unfoldable pub read_contents : StateFile → ℤ → Result LoadError (Dict Text StoredState)
unfolding reload
read_contents missing max = ok []
read_contents unreadable max = err read_failed
read_contents oversized max = err exceeds_limit
read_contents malformed max = err decode_failed
read_contents (contents version values) max =
    if int_beq version (pos 1)
    then ok []
    else if not (int_beq version (pos 2))
    then err unsupported_version
    else ok (reload max values [])

-- `loadPersisted`
unfoldable pub load_persisted : Text → StateFile → ℤ → Result LoadError (Dict Text StoredState)
unfolding read_contents
load_persisted path file max = if text_beq (trim path) [] then ok [] else read_contents file max

-- `persistCurrent`: what is written, unless the configured path has changed.
unfoldable pub persist_current : RuntimeState → Text → Option (Dict Text StoredState)
persist_current s path = if text_beq path s.config.state_file then some s.current else none
