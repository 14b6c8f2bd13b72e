-- ===== src/Management/Accounts.antt =====
-- management.go: `accountsByHash`, in the two sections that hold the lock of its cache, with the
-- host's listing in between.
pub mod Served
use cpa_codex_turn_state_plu.Base.{
  ℕ, ◌+◌, Bool, true, false, not, ◌&&◌, Option, none, some, List, [], ◌∷◌, ltb, nat_beq,
  if◌then◌else◌, Text, text_beq, text_eq, Result, ok, err,
}
use cpa_codex_turn_state_plu.Base.Int.{ℤ}
use cpa_codex_turn_state_plu.Base.Dict.{Dict, insert}
use cpa_codex_turn_state_plu.Clock.{Time}
use cpa_codex_turn_state_plu.Environment.{Environment}
use cpa_codex_turn_state_plu.Text.{trim}
use cpa_codex_turn_state_plu.Keys.{account_digest}
use cpa_codex_turn_state_plu.State.{RuntimeState, AccountInfo, AccountCache}
use cpa_codex_turn_state_plu.Request.{account_cache_ttl}
use cpa_codex_turn_state_plu.Probe.Auth.{inferred_account_plan}

-- An entry of `host.auth.list`, as far as it is shown.
pub record ListedAccount : Type 0 where
  pub id : Text
  pub auth_index : Text
  pub name : Text
  pub provider : Text
  pub label : Text
  pub account_type : Text
  pub status : Text
  pub email : Text
  pub account : Text
  pub disabled : Bool
  pub unavailable : Bool
  pub priority : ℤ
  pub success : ℤ
  pub failed : ℤ
  pub status_message : Text

or_text : Text → Text → Text
or_text a b = if text_beq a [] then b else a

unfoldable pub account_info : Environment → ListedAccount → AccountInfo
unfolding or_text
account_info env e = record {
  hash = account_digest env e.id;
  email = or_text (trim e.email) (trim e.account);
  account = trim e.account;
  auth_index = trim e.auth_index;
  provider = trim e.provider;
  label = or_text (trim e.label) (trim e.name);
  plan = inferred_account_plan e.name e.account_type;
  status = trim e.status;
  status_message = trim e.status_message;
  disabled = e.disabled;
  unavailable = e.unavailable;
  priority = e.priority;
  success = e.success;
  failed = e.failed;
}

-- The loop over the listing.
unfoldable pub index_accounts :
    Environment → List ListedAccount → Dict Text AccountInfo → Dict Text AccountInfo
index_accounts env [] index = index
index_accounts env (e ∷ es) index = index_accounts env es (
    if text_beq (trim e.id) []
    then index
    else insert (account_digest env e.id) (account_info env e) index)

-- The outcome of the first section: an answer, or the cache while the host is asked.
pub data Begun : Type 0 where
  settled : Option (Dict Text AccountInfo) → Bool → Begun
  fetching : AccountCache → Begun

abbrev pub is_present : Option (Dict Text AccountInfo) → Bool
is_present none = false
is_present (some d) = true

unfoldable pub begin_accounts : AccountCache → Time → Begun
begin_accounts cache now =
    if not (nat_beq cache.fetched_at 0) && ltb now (cache.fetched_at + account_cache_ttl)
    then settled cache.by_hash true
    else if cache.inflight
    then settled cache.by_hash (is_present cache.by_hash)
    else fetching (record cache { inflight = true })

abbrev pub or_index : Option (Dict Text AccountInfo) → Dict Text AccountInfo
or_index none = []
or_index (some d) = d

-- The second section. An error of the host, or a host without callbacks, leaves the listing empty.
unfoldable pub finish_accounts :
    Environment
    → AccountCache
    → Time
    → Result Text (List ListedAccount)
    → AccountCache × Dict Text AccountInfo × Bool
unfolding index_accounts
finish_accounts env cache now (err e) =
    (record cache { inflight = false }, or_index cache.by_hash, false)
finish_accounts env cache now (ok es) =
    let index = index_accounts env es [] in
    (record cache { inflight = false; by_hash = some index; fetched_at = now }, index, true)

-- The cache is a field of the state, with a lock of its own.
abbrev pub with_accounts : RuntimeState → AccountCache → RuntimeState
with_accounts s cache = record s { accounts = cache }
