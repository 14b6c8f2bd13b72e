-- ===== src/System/Sound.antt =====
-- The invariant of the runtime state.
use cpa_codex_turn_state_plu.Base.{◌≤◌, ◌≡◌, true, some, List, length, Text, text_eq, ok}
use cpa_codex_turn_state_plu.Base.Int.{ℤ}
use cpa_codex_turn_state_plu.Base.Dict.{Dict, Each}
use cpa_codex_turn_state_plu.Config.{PluginConfig, CredentialConfig}
use cpa_codex_turn_state_plu.Fernet.{FernetInfo, parse_turn_state}
use cpa_codex_turn_state_plu.Policy.{credential_for, normal_block_count}
use cpa_codex_turn_state_plu.Keys.{split_state_key}
use cpa_codex_turn_state_plu.State.{
  RuntimeState, StoredState, RequestBinding, StateCandidate, HistoryEntry,
}
use cpa_codex_turn_state_plu.History.{history_limit}

-- The time and the block count of a state are those of its value, and the credential of its key is
-- configured and accepts this count.
pub record IsGenuine (cfg : PluginConfig) (key : Text) (st : StoredState) : Type 0 where
  pub policy : CredentialConfig
  pub configured : credential_for cfg (split_state_key key).0 ≡ some policy
  pub normal : normal_block_count policy st.blocks ≡ true
  pub limit : ℤ
  pub info : FernetInfo
  pub parses : parse_turn_state st.value limit ≡ ok info
  pub issued : st.issued_at ≡ info.issued_at
  pub counted : st.blocks ≡ info.blocks

-- A binding's key is one of its credential's.
abbrev pub IsNamed : Text → RequestBinding → Type 0
IsNamed id b = (split_state_key b.key).0 ≡ b.auth_id

abbrev pub IsStaged : PluginConfig → Text → StateCandidate → Type 0
IsStaged cfg id c = IsGenuine cfg c.key c.state

-- The invariant, over the fields that it reads.
pub record SoundParts (cfg : PluginConfig) (current : Dict Text StoredState)
    (candidates : Dict Text StateCandidate) (requests : Dict Text RequestBinding)
    (history : List HistoryEntry) : Type 0 where
  pub genuine : Each (IsGenuine cfg) current
  pub staged : Each (IsStaged cfg) candidates
  pub named : Each IsNamed requests
  pub bounded : length history ≤ history_limit

-- Every cached and every staged state is genuine, bindings keep to their credential, and the timeline
-- is bounded.
abbrev pub IsSound : RuntimeState → Type 0
IsSound s = SoundParts s.config s.current s.candidates s.requests s.history
