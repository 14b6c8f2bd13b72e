-- ===== src/Management/Status/Summary.antt =====
-- management.go: the other parts of `statusPayload`: the configured credentials, the timeline, the
-- settings of the probe, and `proxySource`.
use cpa_codex_turn_state_plu.Base.{
  ℕ, Bool, true, false, not, Option, none, some, List, [], ◌∷◌, map, reverse, ltb, if◌then◌else◌,
  length, Text, text_beq, text_eq, str, get_or,
}
use cpa_codex_turn_state_plu.Base.Int.{ℤ}
use cpa_codex_turn_state_plu.Base.Dict.{Dict, lookup}
use cpa_codex_turn_state_plu.Base.Sets.{include}
use cpa_codex_turn_state_plu.Environment.{Environment}
use cpa_codex_turn_state_plu.Text.{trim, text_ltb, sort_by, join}
use cpa_codex_turn_state_plu.Config.{
  PluginConfig, CredentialConfig, ProbeConfig, ProxyEndpoint, zero_credential, enabled_by_default,
}
use cpa_codex_turn_state_plu.Policy.{credential_for, auto_update_enabled}
use cpa_codex_turn_state_plu.Keys.{account_digest}
use cpa_codex_turn_state_plu.State.{AccountInfo, HistoryEntry}
use cpa_codex_turn_state_plu.Management.Status.Entry.{no_account}

pub record ConfiguredView : Type 0 where
  pub account : Text
  pub email : Text
  pub auth_index : Text
  pub plan : Text
  pub normal_blocks : ℤ
  pub accepted_blocks : List ℤ
  pub models : List Text
  pub state_model : Text
  pub auto_update : Bool
  pub seeded : Bool
  pub disabled : Bool
  pub has_state : Bool
  pub entry_count : ℕ

-- A credential of the configuration, with the number of its entries.
unfoldable pub configured_view :
    Environment
    → PluginConfig
    → Dict Text AccountInfo
    → Dict Text ℕ
    → Text × CredentialConfig
    → ConfiguredView
configured_view env cfg accounts counts (raw, credential) =
    let auth_id = trim raw in
    let policy = get_or (credential_for cfg auth_id) zero_credential in
    let info = get_or (lookup (account_digest env auth_id) accounts) no_account in
    let count = get_or (lookup auth_id counts) 0 in
    record {
      account = account_digest env auth_id;
      email = info.email;
      auth_index = info.auth_index;
      plan = policy.plan;
      normal_blocks = policy.normal_blocks;
      accepted_blocks = policy.accepted_blocks;
      models = policy.models;
      state_model = policy.state_model;
      auto_update = auto_update_enabled cfg policy;
      seeded = not (text_beq (trim credential.state) []);
      disabled = info.disabled;
      has_state = ltb 0 count;
      entry_count = count;
    }

unfoldable pub configured_views :
    Environment → PluginConfig → Dict Text AccountInfo → Dict Text ℕ → List ConfiguredView
unfolding configured_view
configured_views env cfg accounts counts =
    sort_by (λ a b. text_ltb a.account b.account)
      (map (configured_view env cfg accounts counts) cfg.credentials)

pub record HistoryView : Type 0 where
  pub entry : HistoryEntry
  pub email : Text

-- The timeline, the newest entry first.
unfoldable pub history_views : Dict Text AccountInfo → List HistoryEntry → List HistoryView
history_views accounts history =
    map (λ h. record { entry = h; email = (get_or (lookup h.account accounts) no_account).email })
      (reverse history)

-- Where the URL of an endpoint comes from.
unfoldable pub add_source : ProxyEndpoint → List Text → List Text
add_source entry sources =
    if not (text_beq (trim entry.url_file) [])
    then include (str "file") sources
    else if not (text_beq (trim entry.url_env) [])
    then include (str "env") sources
    else if not (text_beq (trim entry.url) [])
    then include (str "inline") sources
    else sources

unfoldable pub add_sources : List ProxyEndpoint → List Text → List Text
unfolding add_source
add_sources [] sources = sources
add_sources (entry ∷ rest) sources = add_sources rest (add_source entry sources)

-- `proxySource`
unfoldable pub proxy_source : ProbeConfig → Text
unfolding add_sources
proxy_source cfg =
    let pool = add_sources cfg.proxy_pool [] in
    let sources : List Text = elim cfg.first_proxy [
      | none ↦ pool
      | some _ ↦ include (str "first_proxy") pool
    ] in
    join (sort_by text_ltb sources) (str "+")

pub record ProbeConfigView : Type 0 where
  pub enabled : Bool
  pub background_refresh : Bool
  pub refresh_on_errors : Bool
  pub inject_expired : Bool
  pub timeout_seconds : ℤ
  pub retry_seconds : ℤ
  pub refresh_before_seconds : ℤ
  pub max_attempts : ℤ
  pub quota_backoff_seconds : ℤ
  pub proxy_pool_size : ℕ
  pub first_proxy : Bool
  pub proxy_source : Text
  pub live_probes : ℕ
  pub accepting : Bool

unfoldable pub probe_config_view : PluginConfig → ℕ → Bool → ProbeConfigView
unfolding proxy_source
probe_config_view cfg live_probes accepting = record {
  enabled = cfg.probe.enabled;
  background_refresh = enabled_by_default cfg.probe.background_refresh;
  refresh_on_errors = enabled_by_default cfg.probe.refresh_on_errors;
  inject_expired = cfg.inject_expired;
  timeout_seconds = cfg.probe.timeout_seconds;
  retry_seconds = cfg.probe.retry_seconds;
  refresh_before_seconds = cfg.probe.refresh_before_seconds;
  max_attempts = cfg.probe.max_attempts;
  quota_backoff_seconds = cfg.probe.quota_backoff_seconds;
  proxy_pool_size = length cfg.probe.proxy_pool;
  first_proxy = (elim cfg.probe.first_proxy [ none ↦ false | some _ ↦ true ]);
  proxy_source = proxy_source cfg.probe;
  live_probes = live_probes;
  accepting = accepting;
}

pub record DefaultsView : Type 0 where
  pub plan : Text
  pub normal_blocks : ℤ
  pub accepted_blocks : List ℤ
  pub models : List Text
  pub auto_update : Bool

unfoldable pub defaults_view : PluginConfig → Option DefaultsView
defaults_view cfg = elim cfg.defaults [
  | none ↦ none
  | some d ↦ some (record {
    plan = d.plan;
    normal_blocks = d.normal_blocks;
    accepted_blocks = d.accepted_blocks;
    models = d.models;
    auto_update = auto_update_enabled cfg d;
  })
]
