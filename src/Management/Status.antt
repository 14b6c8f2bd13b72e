-- ===== src/Management/Status.antt =====
-- management.go: `statusPayload`, the view of the state that the panel shows. Nothing else happens
-- between its sections here: the state that the snapshots are of is the one of the last fields too.
pub mod Entry
pub mod Rows
pub mod Summary
pub mod Counted
pub mod Listed
pub mod Private
pub mod Agreed
use cpa_codex_turn_state_plu.Base.{
  ℕ, Bool, true, false, Option, List, if◌then◌else◌, length, Text, str,
}
use cpa_codex_turn_state_plu.Base.Int.{ℤ}
use cpa_codex_turn_state_plu.Base.Dict.{Dict}
use cpa_codex_turn_state_plu.Clock.{Time}
use cpa_codex_turn_state_plu.Environment.{Environment}
use cpa_codex_turn_state_plu.State.{RuntimeState, AccountInfo}
use Entry.{EntryView, seeded_keys, snapshots}
use Rows.{StatusCounters, Tally, no_tally, tally_all}
use Summary.{
  ConfiguredView, HistoryView, ProbeConfigView, DefaultsView, configured_views, history_views,
  probe_config_view, defaults_view,
}

pub record StatusView : Type 0 where
  pub plugin : Text
  pub version : Text
  pub schema : ℕ
  pub now : Time
  pub state_ttl_seconds : ℕ
  pub probe_enabled : Bool
  pub background_refresh : Bool
  pub refresh_before_seconds : ℤ
  pub probe : ProbeConfigView
  pub defaults : Option DefaultsView
  pub counters : StatusCounters
  -- `counters.Accounts` and `counters.Models`
  pub account_count : ℕ
  pub model_count : ℕ
  pub entries : List EntryView
  pub configured : List ConfiguredView
  pub history : List HistoryView
  pub accounts_resolved : Bool

-- `pluginName`
abbrev pub plugin_name : Text
plugin_name = str "cpa-codex-turn-state"

-- `pluginVersion`
abbrev pub plugin_version : Text
plugin_version = str "0.4.8"

-- The view, after the loop over the snapshots.
unfoldable pub status_view :
    Environment → RuntimeState → Time → Dict Text AccountInfo → Bool → Tally → StatusView
status_view env s now accounts resolved rows =
    let cfg = s.config in
    record {
      plugin = plugin_name;
      version = plugin_version;
      schema = 1;
      now = now;
      state_ttl_seconds = 3600;
      probe_enabled = cfg.probe.enabled;
      background_refresh = s.has_worker;
      refresh_before_seconds = cfg.probe.refresh_before_seconds;
      probe = probe_config_view cfg (length s.probing) s.accepting;
      defaults = defaults_view cfg;
      counters = rows.counters;
      account_count = (if resolved then length rows.visible_accounts else length accounts);
      model_count = length rows.model_set;
      entries = rows.entries;
      configured = configured_views env cfg accounts rows.configured_auths;
      history = history_views accounts s.history;
      accounts_resolved = resolved;
    }

-- `statusPayload`, with the answer of `accountsByHash`.
unfoldable pub status_payload :
    Environment → RuntimeState → Time → Dict Text AccountInfo → Bool → StatusView
unfolding status_view
status_payload env s now accounts resolved = status_view env s now accounts resolved (
    tally_all env s.config now (seeded_keys s.config.credentials) accounts resolved
      (snapshots s now) no_tally)
