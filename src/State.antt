-- ===== src/State.antt =====
-- plugin.go: `runtimeState` and the records it holds. A field that the lock protects is a field of
-- the record; a handler is a function of the state for each section that holds the lock.
use cpa_codex_turn_state_plu.Base.{ℕ, Bool, false, Option, none, List, [], Text, get_or}
use cpa_codex_turn_state_plu.Base.Int.{ℤ}
use cpa_codex_turn_state_plu.Base.Dict.{Dict, lookup}
use cpa_codex_turn_state_plu.Base.{Eq, text_eq}
use cpa_codex_turn_state_plu.Clock.{Time}
use cpa_codex_turn_state_plu.Config.{PluginConfig, zero_config}

pub record StoredState : Type 0 where
  pub value : Text
  pub issued_at : Time
  pub blocks : ℕ

pub record RequestBinding : Type 0 where
  pub auth_id : Text
  pub key : Text
  pub stream_buffer : Text

pub record StateCandidate : Type 0 where
  pub auth_id : Text
  pub key : Text
  pub state : StoredState

pub record HistoryEntry : Type 0 where
  pub at : Time
  pub account : Text
  pub model : Text
  pub event : Text
  pub outcome : Text
  pub reason : Text
  pub detail : Text

-- The fields of `accountInfo` that decide something.
pub record AccountInfo : Type 0 where
  pub hash : Text
  pub email : Text
  pub account : Text
  pub auth_index : Text
  pub provider : Text
  pub label : Text
  pub plan : Text
  pub status : Text
  pub status_message : Text
  pub disabled : Bool
  pub unavailable : Bool
  pub priority : ℤ
  pub success : ℤ
  pub failed : ℤ

pub record AccountCache : Type 0 where
  pub fetched_at : Time
  pub inflight : Bool
  pub by_hash : Option (Dict Text AccountInfo)

-- `probeCtx`: nil, running or cancelled.
pub data ProbeContext : Type 0 where
  absent live cancelled : ProbeContext

pub record RuntimeState : Type 0 where
  pub accepting : Bool
  pub config : PluginConfig
  pub current : Dict Text StoredState
  pub requests : Dict Text RequestBinding
  pub candidates : Dict Text StateCandidate
  pub probe_ctx : ProbeContext
  pub generation : ℕ
  pub probing : Dict Text Bool
  pub last_probe : Dict Text Time
  pub probe_results : Dict Text Text
  pub history : List HistoryEntry
  pub accounts : AccountCache
  pub pool_cursor : ℕ
  -- `workerDone != nil`
  pub has_worker : Bool
  -- whether the channel `wake`, of capacity one, holds a value
  pub wake : Bool
  pub refresh_requests : Dict Text Text
  pub probe_reasons : Dict Text Text
  pub blocked_until : Dict Text Time
  pub account_blocked_until : Dict Text Time
  pub proxy_blocked_until : Dict ℕ Time
  pub force_inject : Dict Text Bool

-- `newRuntimeState`
abbrev pub new_runtime_state : RuntimeState
new_runtime_state = record {
  accepting = false;
  config = zero_config;
  current = [];
  requests = [];
  candidates = [];
  probe_ctx = absent;
  generation = 0;
  probing = [];
  last_probe = [];
  probe_results = [];
  history = [];
  accounts = record { fetched_at = 0; inflight = false; by_hash = none };
  pool_cursor = 0;
  has_worker = false;
  wake = false;
  refresh_requests = [];
  probe_reasons = [];
  blocked_until = [];
  account_blocked_until = [];
  proxy_blocked_until = [];
  force_inject = [];
}

-- Reads of a map with the zero value for a missing key.
module _ {ℓ} {K : Type ℓ} ⦃e : Eq K⦄ where
  abbrev pub text_at : K → Dict K Text → Text
  text_at k d = get_or (lookup k d) []

  abbrev pub time_at : K → Dict K Time → Time
  time_at k d = get_or (lookup k d) 0

  abbrev pub flag_at : K → Dict K Bool → Bool
  flag_at k d = get_or (lookup k d) false

abbrev pub zero_stored : StoredState
zero_stored = record { value = []; issued_at = 0; blocks = 0 }

abbrev pub stored_at : Text → Dict Text StoredState → StoredState
stored_at k d = get_or (lookup k d) zero_stored
