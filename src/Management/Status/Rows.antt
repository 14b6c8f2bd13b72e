-- ===== src/Management/Status/Rows.antt =====
-- management.go: the loop of `statusPayload` over the snapshots, with its counters and sets.
use cpa_codex_turn_state_plu.Base.{
  ℕ, ◌+◌, Bool, true, false, not, ◌&&◌, List, [], ◌∷◌, ◌++◌, if◌then◌else◌, Text, text_beq, text_eq,
  str, get_or,
}
use cpa_codex_turn_state_plu.Base.Dict.{Dict, insert, lookup}
use cpa_codex_turn_state_plu.Base.Sets.{include}
use cpa_codex_turn_state_plu.Clock.{Time}
use cpa_codex_turn_state_plu.Environment.{Environment}
use cpa_codex_turn_state_plu.Config.{PluginConfig}
use cpa_codex_turn_state_plu.Keys.{split_state_key}
use cpa_codex_turn_state_plu.State.{AccountInfo}
use cpa_codex_turn_state_plu.Management.Status.Entry.{EntryView, Snapshot, is_hidden, entry_view}

pub record StatusCounters : Type 0 where
  pub total : ℕ
  pub valid : ℕ
  pub probing : ℕ
  pub pending : ℕ
  pub quota_back : ℕ
  pub incompatible : ℕ
  pub failed : ℕ
  pub empty : ℕ

abbrev pub no_counters : StatusCounters
no_counters = record {
  total = 0;
  valid = 0;
  probing = 0;
  pending = 0;
  quota_back = 0;
  incompatible = 0;
  failed = 0;
  empty = 0;
}

-- What the loop fills: `entries`, `configuredAuths`, `modelSet`, `visibleAccounts` and the counters.
pub record Tally : Type 0 where
  pub entries : List EntryView
  pub configured_auths : Dict Text ℕ
  pub model_set : List Text
  pub visible_accounts : List Text
  pub counters : StatusCounters

abbrev pub no_tally : Tally
no_tally = record {
  entries = [];
  configured_auths = [];
  model_set = [];
  visible_accounts = [];
  counters = no_counters;
}

-- `if test { counter++ }`
abbrev pub up : Bool → ℕ → ℕ
up true n = n + 1
up false n = n

unfoldable pub count_entry : EntryView → Snapshot → StatusCounters → StatusCounters
count_entry e item c = record {
  total = c.total + 1;
  valid = up e.valid c.valid;
  probing = up item.probing c.probing;
  pending = up (not (text_beq item.refresh_pending [])) c.pending;
  quota_back = up e.quota_backoff c.quota_back;
  incompatible = up (not e.compatible) c.incompatible;
  empty = up (text_beq item.current.value []) c.empty;
  failed =
      up (not (text_beq item.probe_result []) && not (text_beq item.probe_result (str "ok")))
        c.failed;
}

-- The body of the loop for an entry that is shown.
unfoldable pub tally_entry : EntryView → Text → Snapshot → Tally → Tally
unfolding count_entry
tally_entry e auth_id item t = record {
  entries = t.entries ++ e ∷ [];
  model_set = if not (text_beq e.model []) then include e.model t.model_set else t.model_set;
  configured_auths =
      if e.managed
      then insert auth_id (get_or (lookup auth_id t.configured_auths) 0 + 1) t.configured_auths
      else t.configured_auths;
  counters = count_entry e item t.counters;
  visible_accounts = include e.account t.visible_accounts;
}

module _ (env : Environment) (cfg : PluginConfig) (now : Time) (seeded : List Text)
    (accounts : Dict Text AccountInfo) (resolved : Bool) where
  unfoldable pub tally_all : List Snapshot → Tally → Tally
  unfolding tally_entry
  tally_all [] t = t
  tally_all (item ∷ rest) t = tally_all rest (
      if is_hidden env accounts resolved item
      then t
      else tally_entry (entry_view env cfg now seeded accounts item) (split_state_key item.key).0
          item t)
