-- ===== src/Config.antt =====
-- The configuration types of plugin.go, probe.go and transport.go. An `int` field may hold any
-- integer until the configuration is normalised. A `*bool` is an option.
pub mod Endpoint
pub mod Probe
pub mod Limits
use cpa_codex_turn_state_plu.Base.{Bool, true, false, Option, none, some, List, [], Text, str}
use cpa_codex_turn_state_plu.Base.Int.{ℤ, pos}
use cpa_codex_turn_state_plu.Base.Dict.{Dict}

pub record ProxyEndpoint : Type 0 where
  pub url : Text
  pub url_file : Text
  pub url_env : Text
  pub connect_host : Text

pub record ProbeConfig : Type 0 where
  pub enabled : Bool
  pub first_proxy : Option ProxyEndpoint
  pub proxy_pool : List ProxyEndpoint
  pub timeout_seconds : ℤ
  pub retry_seconds : ℤ
  pub refresh_before_seconds : ℤ
  pub max_attempts : ℤ
  pub background_refresh : Option Bool
  pub refresh_on_errors : Option Bool
  pub probe_on_errors_only : Option Bool
  pub quota_backoff_seconds : ℤ

pub record CredentialConfig : Type 0 where
  pub plan : Text
  pub normal_blocks : ℤ
  pub accepted_blocks : List ℤ
  pub state : Text
  pub state_model : Text
  pub models : List Text
  pub auto_update : Option Bool

pub record PluginConfig : Type 0 where
  pub enabled : Bool
  pub priority : ℤ
  pub auto_update : Option Bool
  pub inject_expired : Bool
  pub inject_on_errors_only : Option Bool
  pub state_file : Text
  pub max_state_bytes : ℤ
  pub defaults : Option CredentialConfig
  pub credentials : Dict Text CredentialConfig
  pub probe : ProbeConfig

-- `enabledByDefault`
abbrev pub enabled_by_default : Option Bool → Bool
enabled_by_default none = true
enabled_by_default (some b) = b

-- The zero values.
abbrev pub zero_probe : ProbeConfig
zero_probe = record {
  enabled = false;
  first_proxy = none;
  proxy_pool = [];
  timeout_seconds = pos 0;
  retry_seconds = pos 0;
  refresh_before_seconds = pos 0;
  max_attempts = pos 0;
  background_refresh = none;
  refresh_on_errors = none;
  probe_on_errors_only = none;
  quota_backoff_seconds = pos 0;
}

abbrev pub zero_credential : CredentialConfig
zero_credential = record {
  plan = [];
  normal_blocks = pos 0;
  accepted_blocks = [];
  state = [];
  state_model = [];
  models = [];
  auto_update = none;
}

abbrev pub zero_config : PluginConfig
zero_config = record {
  enabled = false;
  priority = pos 0;
  auto_update = none;
  inject_expired = false;
  inject_on_errors_only = none;
  state_file = [];
  max_state_bytes = pos 0;
  defaults = none;
  credentials = [];
  probe = zero_probe;
}
