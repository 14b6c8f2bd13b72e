-- ===== src/Lifecycle.antt =====
-- plugin.go: `configure`, `setAccepting` and `shutdown`, and refresh.go: `startBackgroundLocked` and
-- `stopBackground`. The request, the YAML document and the state file stand decoded.
pub mod Persisted
use cpa_codex_turn_state_plu.Base.{
  ℕ, ◌+◌, Bool, true, false, not, ◌&&◌, ◌||◌, Option, none, some, List, [], ◌∷◌, ltb, nat_beq,
  if◌then◌else◌, Text, text_beq, text_eq, str, any, Result, ok, err, ◌>>=◌,
}
use cpa_codex_turn_state_plu.Base.Int.{ℤ, pos, less_than, more_than, int_beq}
use cpa_codex_turn_state_plu.Base.Dict.{Dict, lookup, insert}
use cpa_codex_turn_state_plu.Environment.{Environment}
use cpa_codex_turn_state_plu.Text.{trim}
use cpa_codex_turn_state_plu.Config.{
  PluginConfig, CredentialConfig, zero_config, enabled_by_default,
}
use cpa_codex_turn_state_plu.Config.Probe.{ProbeError, normalize_probe}
use cpa_codex_turn_state_plu.Fernet.{FernetInfo, ParseError, parse_turn_state}
use cpa_codex_turn_state_plu.Policy.{
  PolicyError, normalize_credential, credential_for, normal_block_count, matches_models,
}
use cpa_codex_turn_state_plu.Keys.{state_key, split_state_key}
use cpa_codex_turn_state_plu.State.{
  RuntimeState, StoredState, ProbeContext, live, absent, cancelled, stored_at,
}
use cpa_codex_turn_state_plu.Request.{improves}
use Persisted.{StateFile, LoadError, load_persisted}

pub data ConfigError : Type 0 where
  schema_too_old bad_yaml max_state_bytes_range defaults_state bad_credential_id : ConfigError
  seed_model seed_blocks : ConfigError
  bad_probe : ProbeError → ConfigError
  bad_policy : PolicyError → ConfigError
  bad_seed : ParseError → ConfigError
  bad_file : LoadError → ConfigError

-- The configuration document: empty, not decodable, or decoded over the presets.
pub data Document : Type 0 where
  no_document undecodable : Document
  document : PluginConfig → Document

-- The presets of `configure`.
abbrev pub default_max_bytes : ℕ
default_max_bytes = 4096

abbrev pub plugin_schema : ℕ
plugin_schema = 4

abbrev pub preset : PluginConfig
preset = record zero_config { enabled = true; max_state_bytes = pos default_max_bytes }

read_document : Document → Result ConfigError PluginConfig
read_document no_document = ok preset
read_document undecodable = err bad_yaml
read_document (document cfg) = ok cfg

check_max_bytes : PluginConfig → Result ConfigError PluginConfig
check_max_bytes cfg =
    let max =
      if int_beq cfg.max_state_bytes (pos 0) then pos default_max_bytes else cfg.max_state_bytes in
    if less_than max 256 || more_than max 16384
    then err max_state_bytes_range
    else ok (record cfg { max_state_bytes = max })

check_probe_config : Environment → PluginConfig → Result ConfigError PluginConfig
check_probe_config env cfg = elim (normalize_probe env cfg.probe) [
  | err e ↦ err (bad_probe e)
  | ok probe ↦ ok (record cfg { probe = probe })
]

unfoldable pub normalized : CredentialConfig → Result ConfigError CredentialConfig
normalized c = elim (normalize_credential c) [ err e ↦ err (bad_policy e) | ok d ↦ ok d ]

unfoldable pub check_default_state :
    PluginConfig → CredentialConfig → Result ConfigError PluginConfig
check_default_state cfg d =
    if not (text_beq (trim d.state) [])
    then err defaults_state
    else ok (record cfg { defaults = some d })

unfoldable pub check_defaults : PluginConfig → Result ConfigError PluginConfig
unfolding normalized check_default_state
check_defaults cfg = elim cfg.defaults [
  | none ↦ ok cfg
  | some d ↦ normalized d >>= check_default_state cfg
]

-- The accumulators of the loop over the credentials.
pub record Seeded : Type 0 where
  pub credentials : Dict Text CredentialConfig
  pub current : Dict Text StoredState

unfoldable pub add_seed : Text → CredentialConfig → Seeded → FernetInfo → Result ConfigError Seeded
add_seed auth_id c acc info =
    if not (normal_block_count c info.blocks)
    then err seed_blocks
    else ok (record acc {
      current =
          insert (state_key auth_id c.state_model)
            (record { value = trim c.state; issued_at = info.issued_at; blocks = info.blocks })
            acc.current;
    })

-- The seed state of a credential, if it has one.
unfoldable pub seed : ℤ → Text → CredentialConfig → Seeded → Result ConfigError Seeded
unfolding add_seed
seed max auth_id c acc =
    if text_beq (trim c.state) []
    then ok acc
    else if text_beq c.state_model [] || any (nat_beq b'*') c.state_model
    then err seed_model
    else (elim (parse_turn_state c.state max) [
      | err e ↦ err (bad_seed e)
      | ok info ↦ add_seed auth_id c acc info
    ])

-- One round of the loop.
unfoldable pub add_credential : ℤ → Text → CredentialConfig → Seeded → Result ConfigError Seeded
unfolding normalized
add_credential max raw c acc =
    if text_beq (trim raw) [] || not (text_beq (trim raw) raw)
    then err bad_credential_id
    else normalized c >>= λ n.
        seed max raw n (record acc { credentials = insert raw n acc.credentials })

unfoldable pub add_credentials : ℤ → Dict Text CredentialConfig → Seeded → Result ConfigError Seeded
add_credentials max [] acc = ok acc
add_credentials max ((raw, c) ∷ rest) acc =
    add_credential max raw c acc >>= add_credentials max rest

-- A state that a credential of the configuration accepts under its key.
unfoldable pub is_admitted : PluginConfig → Text → StoredState → Bool
is_admitted cfg key st = elim (credential_for cfg (split_state_key key).0) [
  | none ↦ false
  | some policy ↦
      not (text_beq (split_state_key key).1 [])
      && matches_models policy.models ((split_state_key key).1 ∷ [])
      && normal_block_count policy st.blocks
]

-- The persisted states that are admitted and newer than the seeds.
unfoldable pub merge_persisted :
    PluginConfig → Dict Text StoredState → Dict Text StoredState → Dict Text StoredState
merge_persisted cfg [] current = current
merge_persisted cfg ((key, st) ∷ rest) current =
    merge_persisted cfg rest
      (if is_admitted cfg key st && improves current key st then insert key st current else current)

-- The states in memory that the new configuration admits and that are newer.
unfoldable pub preserve :
    PluginConfig → Dict Text StoredState → Dict Text StoredState → Dict Text StoredState
preserve cfg [] current = current
preserve cfg ((key, st) ∷ rest) current = preserve cfg rest (
    if is_admitted cfg key st && ltb (stored_at key current).issued_at st.issued_at
    then insert key st current
    else current)

-- `startBackgroundLocked`: whether a worker runs.
unfoldable pub starts_worker : PluginConfig → Bool
starts_worker cfg =
    cfg.enabled && cfg.probe.enabled && enabled_by_default cfg.probe.background_refresh

-- The part of `configure` that holds the lock.
unfoldable pub install : RuntimeState → PluginConfig → Dict Text StoredState → RuntimeState
install s cfg current = record s {
  accepting = cfg.enabled;
  config = cfg;
  current = preserve cfg s.current current;
  requests = [];
  candidates = [];
  probe_ctx = live;
  generation = s.generation + 1;
  probing = [];
  last_probe = [];
  probe_results = [];
  has_worker = starts_worker cfg;
  wake = false;
  refresh_requests = [];
  probe_reasons = [];
  blocked_until = [];
  account_blocked_until = [];
  proxy_blocked_until = [];
  force_inject = [];
}

-- The configuration without its credentials, checked.
unfoldable pub check_config : Environment → Document → Result ConfigError PluginConfig
unfolding read_document check_max_bytes check_probe_config check_defaults
check_config env doc = do
  read ← read_document doc
  sized ← check_max_bytes read
  probed ← check_probe_config env sized
  check_defaults probed

unfoldable pub loaded : PluginConfig → StateFile → Result ConfigError (Dict Text StoredState)
loaded cfg file = elim (load_persisted cfg.state_file file cfg.max_state_bytes) [
  | err e ↦ err (bad_file e)
  | ok d ↦ ok d
]

-- The state file, merged into the seeds.
unfoldable pub with_seeds :
    PluginConfig → StateFile → Seeded → Result ConfigError (PluginConfig × Dict Text StoredState)
unfolding loaded
with_seeds cfg file seeded =
    let full : PluginConfig = record cfg { credentials = seeded.credentials } in
    loaded full file >>= λ persisted. ok (full, merge_persisted full persisted seeded.current)

-- The loop over the credentials, and the state file.
unfoldable pub with_config :
    StateFile → PluginConfig → Result ConfigError (PluginConfig × Dict Text StoredState)
unfolding with_seeds
with_config file cfg =
    add_credentials cfg.max_state_bytes cfg.credentials
      (record { credentials = cfg.credentials; current = [] })
    >>= with_seeds cfg file

-- The checked configuration and the states that it starts with.
unfoldable pub prepare :
    Environment → Document → StateFile → Result ConfigError (PluginConfig × Dict Text StoredState)
unfolding with_config
prepare env doc file = check_config env doc >>= with_config file

-- `configure`: after an error the state is as before.
unfoldable pub configure :
    Environment → RuntimeState → ℕ → Document → StateFile → Result ConfigError RuntimeState
unfolding prepare
configure env s schema doc file =
    if ltb schema plugin_schema
    then err schema_too_old
    else prepare env doc file >>= λ p. ok (install s p.0 p.1)

-- `probeCancel()`, if there is one
abbrev cancel : ProbeContext → ProbeContext
cancel absent = absent
cancel live = cancelled
cancel cancelled = cancelled

-- `setAccepting`, with the worker joined
unfoldable pub set_accepting : RuntimeState → Bool → RuntimeState
set_accepting s true = record s { accepting = true }
set_accepting s false = record s {
  accepting = false;
  probe_ctx = cancel s.probe_ctx;
  has_worker = false;
}

-- `shutdown`
unfoldable pub shutdown : RuntimeState → RuntimeState
unfolding set_accepting
shutdown s =
    let stopped = set_accepting s false in
    record stopped { generation = stopped.generation + 1; requests = []; candidates = [] }
