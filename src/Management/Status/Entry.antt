-- ===== src/Management/Status/Entry.antt =====
-- management.go: `entryView` and the part of `statusPayload` that takes the snapshots and makes an
-- entry of each.
use cpa_codex_turn_state_plu.Base.{
  ℕ, zero, suc, ◌+◌, ◌-◌, ◌/◌, Bool, true, false, not, ◌&&◌, ◌||◌, Option, none, some, List, [],
  ◌∷◌, map, ltb, if◌then◌else◌, Text, text_beq, text_eq, str, get_or,
}
use cpa_codex_turn_state_plu.Base.Int.{ℤ, pos, negsuc}
use cpa_codex_turn_state_plu.Base.Dict.{Dict, keys, lookup}
use cpa_codex_turn_state_plu.Base.Sets.{member, include, include_all, keys_where}
use cpa_codex_turn_state_plu.Clock.{Time, second}
use cpa_codex_turn_state_plu.Environment.{Environment}
use cpa_codex_turn_state_plu.Text.{trim, equal_fold, text_ltb, sort_by, byte_length}
use cpa_codex_turn_state_plu.Config.{PluginConfig, CredentialConfig, zero_credential}
use cpa_codex_turn_state_plu.Policy.{
  credential_for, auto_update_enabled, matches_models, normal_block_count,
}
use cpa_codex_turn_state_plu.Keys.{state_key, split_state_key, account_digest, entry_handle}
use cpa_codex_turn_state_plu.State.{
  RuntimeState, StoredState, AccountInfo, stored_at, text_at, time_at, flag_at,
}
use cpa_codex_turn_state_plu.Refresh.{turn_state_ttl, next_refresh}
use cpa_codex_turn_state_plu.Request.{clock_tolerance}

pub record EntryView : Type 0 where
  pub handle : Text
  pub account : Text
  pub model : Text
  pub email : Text
  pub auth_index : Text
  pub auth_disabled : Bool
  pub auth_unavailable : Bool
  pub managed : Bool
  pub auto_update : Bool
  pub in_scope_model : Bool
  pub plan : Text
  pub expected_blocks : ℤ
  pub accepted_blocks : List ℤ
  pub state_length : ℕ
  pub blocks : ℕ
  pub compatible : Bool
  pub valid : Bool
  pub issued_at : Time
  pub expires_at : Time
  pub seconds_to_expiry : ℕ
  pub last_probe : Text
  pub last_probe_at : Time
  pub last_probe_reason : Text
  pub probing : Bool
  pub refresh_pending : Text
  pub next_refresh_at : Time
  pub seconds_to_refresh : ℤ
  pub blocked_until : Option Time
  pub quota_backoff : Bool
  pub seeded_from_config : Bool
  pub last_probe_succeeded : Bool

-- `snapshot`, without `hasCurrent`, which nothing reads.
pub record Snapshot : Type 0 where
  pub key : Text
  pub current : StoredState
  pub probe_result : Text
  pub last_probe_at : Time
  pub probe_reason : Text
  pub refresh_pending : Text
  pub probing : Bool
  pub next_refresh : Time
  pub blocked_until : Time

-- The set `keys`.
unfoldable pub shown_keys : RuntimeState → Time → List Text
shown_keys s now = include_all (keys s.current) (
    include_all (keys s.probe_results) (
      include_all (keys s.refresh_requests) (
        include_all (keys s.probing)
          (include_all (keys_where (λ _ until. ltb now until) s.blocked_until) []))))

-- The set `seeded`.
unfoldable pub seeded_keys : Dict Text CredentialConfig → List Text
seeded_keys [] = []
seeded_keys ((raw, c) ∷ rest) =
    let later = seeded_keys rest in
    if not (text_beq (trim c.state) []) && not (text_beq (trim c.state_model) [])
    then include (state_key (trim raw) c.state_model) later
    else later

unfoldable pub snapshot : RuntimeState → Time → Text → Snapshot
snapshot s now key = record {
  key = key;
  current = stored_at key s.current;
  probe_result = text_at key s.probe_results;
  last_probe_at = time_at key s.last_probe;
  probe_reason = text_at key s.probe_reasons;
  refresh_pending = text_at key s.refresh_requests;
  probing = flag_at key s.probing;
  next_refresh = next_refresh s now key;
  blocked_until = time_at key s.blocked_until;
}

-- The snapshots, sorted by key.
unfoldable pub snapshots : RuntimeState → Time → List Snapshot
unfolding shown_keys snapshot
snapshots s now = map (snapshot s now) (sort_by text_ltb (shown_keys s now))

-- With the accounts known, an entry of an unknown account or of the free plan is left out.
unfoldable pub is_hidden : Environment → Dict Text AccountInfo → Bool → Snapshot → Bool
is_hidden env accounts resolved item = elim resolved [
  | false ↦ false
  | true ↦ elim (lookup (account_digest env (split_state_key item.key).0) accounts) [
    | none ↦ true
    | some info ↦ equal_fold info.plan (str "free")
  ]
]

-- `int64(a.Sub(b).Seconds())`: cut towards zero.
unfoldable pub seconds_until : Time → Time → ℤ
seconds_until a b = if ltb a b then minus ((b - a) / second) else pos ((a - b) / second)
  where
    minus : ℕ → ℤ
    minus zero = pos zero
    minus (suc n) = negsuc n

-- `valid` and `compatible`
unfoldable pub shows_valid : Time → StoredState → Bool
shows_valid now st =
    not (text_beq st.value [])
    && not (ltb (now + clock_tolerance) st.issued_at)
    && ltb now (st.issued_at + turn_state_ttl)

unfoldable pub shows_compatible : CredentialConfig → StoredState → Bool
shows_compatible policy st = text_beq st.value [] || normal_block_count policy st.blocks

abbrev pub no_account : AccountInfo
no_account = record {
  hash = [];
  email = [];
  account = [];
  auth_index = [];
  provider = [];
  label = [];
  plan = [];
  status = [];
  status_message = [];
  disabled = false;
  unavailable = false;
  priority = pos 0;
  success = pos 0;
  failed = pos 0;
}

abbrev is_managed : Option CredentialConfig → Bool
is_managed none = false
is_managed (some c) = true

-- The view of an entry. A state that has expired has no seconds left.
unfoldable pub entry_view :
    Environment → PluginConfig → Time → List Text → Dict Text AccountInfo → Snapshot → EntryView
unfolding seconds_until shows_valid shows_compatible
entry_view env cfg now seeded accounts item =
    let auth_id = (split_state_key item.key).0 in
    let model = (split_state_key item.key).1 in
    let found = credential_for cfg auth_id in
    let policy = get_or found zero_credential in
    let info = get_or (lookup (account_digest env auth_id) accounts) no_account in
    let expires_at = item.current.issued_at + turn_state_ttl in
    let blocked = ltb now item.blocked_until in
    record {
      handle = entry_handle env item.key;
      account = account_digest env auth_id;
      model = model;
      email = info.email;
      auth_index = info.auth_index;
      auth_disabled = info.disabled;
      auth_unavailable = info.unavailable;
      managed = is_managed found;
      auto_update = is_managed found && auto_update_enabled cfg policy;
      in_scope_model = matches_models policy.models (model ∷ []);
      plan = policy.plan;
      expected_blocks = policy.normal_blocks;
      accepted_blocks = policy.accepted_blocks;
      state_length = byte_length item.current.value;
      blocks = item.current.blocks;
      compatible = shows_compatible policy item.current;
      valid = shows_valid now item.current;
      issued_at = item.current.issued_at;
      expires_at = expires_at;
      seconds_to_expiry = (expires_at - now) / second;
      last_probe = item.probe_result;
      last_probe_at = item.last_probe_at;
      last_probe_reason = item.probe_reason;
      probing = item.probing;
      refresh_pending = item.refresh_pending;
      next_refresh_at = item.next_refresh;
      seconds_to_refresh = seconds_until item.next_refresh now;
      blocked_until = if blocked then some item.blocked_until else none;
      quota_backoff = blocked;
      seeded_from_config = member item.key seeded;
      last_probe_succeeded = text_beq item.probe_result (str "ok");
    }
