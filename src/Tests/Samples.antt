-- ===== src/Tests/Samples.antt =====
-- A host, a configuration, and the states that the plugin reaches with them.
use cpa_codex_turn_state_plu.Refresh.{may_queue}
use cpa_codex_turn_state_plu.Base64.RoundTrip.{AreBytes}
use cpa_codex_turn_state_plu.Json.{parse, string}
use cpa_codex_turn_state_plu.Request.{
  Completion, complete, settle, promote, may_promote, improves, InterceptRequest, answer, inject,
  injected, is_injectable, bind_request, request_policy,
}
use cpa_codex_turn_state_plu.Probe.{ProbeJob, claim, begin_probe, probe_policy, holds_back}
use cpa_codex_turn_state_plu.System.Steps.{
  Reach, Running, on, next, loaded, configure_step, launched, launch_step, running,
}
use cpa_codex_turn_state_plu.System.Configured.{IsDocument}
use cpa_codex_turn_state_plu.System.Seeds.{IsMap}
use cpa_codex_turn_state_plu.Lifecycle.{
  check_config, configure, add_credentials, add_credential, seed, install, is_admitted, prepare,
  preserve, merge_persisted, starts_worker, plugin_schema, ConfigError, document,
}
use cpa_codex_turn_state_plu.Config.Probe.{with_defaults, normalize_probe}
use cpa_codex_turn_state_plu.Text.{
  equal_fold, contains_any, contains, atoi, trim, byte_length, sort_by, replace_all, has_prefix,
  strip_prefix, strip_star, text_ltb, to_lower, drop_while, drop_while_end,
}
use cpa_codex_turn_state_plu.Config.Endpoint.{resolve}
use cpa_codex_turn_state_plu.Policy.{
  auto_update_enabled, is_free_plan, normalize_credential, normal_block_count, canonical_models,
  credential_for, matches_models,
}
use cpa_codex_turn_state_plu.Base64.{encode, decode}
use cpa_codex_turn_state_plu.Fernet.{parse_turn_state, decode_base64_url}
use cpa_codex_turn_state_plu.Base.Dict.{insert, lookup}
use cpa_codex_turn_state_plu.Keys.{split_state_key, state_key}
use cpa_codex_turn_state_plu.Json.Pair.{decode_pair, encode_pair}
use cpa_codex_turn_state_plu.Json.Strings.{escape_onto}
use cpa_codex_turn_state_plu.Base.{
  length, ◌≤◌, ok-injective, subst, sym, ◌∙◌, ℕ, zero, suc, ◌+◌, ◌≡◌, refl, true, false, none, some,
  List, [], ◌∷◌, Text, text_eq, str, arith, Result, ok, err,
}
use cpa_codex_turn_state_plu.Base.Int.{pos}
use cpa_codex_turn_state_plu.Environment.{Environment}
use cpa_codex_turn_state_plu.Fernet.Complete.{token}
use cpa_codex_turn_state_plu.Config.{
  PluginConfig, CredentialConfig, ProbeConfig, zero_probe, zero_credential, zero_config,
}
use cpa_codex_turn_state_plu.Clock.{Time, unix}
use cpa_codex_turn_state_plu.State.{text_at, RuntimeState, StoredState, new_runtime_state}
use cpa_codex_turn_state_plu.Lifecycle.Persisted.{load_persisted, missing}

abbrev pub copies : ℕ → ℕ → List ℕ
copies zero x = []
copies (suc n) x = x ∷ copies n x

-- A host without files, where every URL is that of one HTTP proxy.
abbrev pub host : Environment
host = record {
  read_file = λ _. none;
  getenv = λ _. [];
  session = some (str "0a0b0c0d");
  parse_url = λ _. some (record {
    scheme = str "http";
    hostname = str "proxy";
    port = str "8080";
    path = [];
    raw_query = [];
    fragment = [];
    user = none;
  });
  sha256 = λ _. copies 32 7;
}

-- A state of ten blocks of the year 2026.
abbrev pub issue_seconds : ℕ
issue_seconds = 1_780_000_000

abbrev pub body : List ℕ
body = copies 208 1

abbrev pub seed_value : Text
seed_value = encode (token issue_seconds body)

abbrev pub policy : CredentialConfig
policy = record zero_credential { plan = str "pro"; state = seed_value; state_model = str "gpt-5" }

abbrev pub one_proxy : ProbeConfig
one_proxy = record zero_probe {
  enabled = true;
  proxy_pool =
      record { url = str "http://proxy:8080"; url_file = []; url_env = []; connect_host = [] } ∷ [];
  probe_on_errors_only = some false;
}

abbrev pub settings : PluginConfig
settings = record zero_config {
  enabled = true;
  inject_on_errors_only = some false;
  credentials = (str "acct", policy) ∷ [];
  probe = one_proxy;
}

-- The state after the plugin is configured.
abbrev pub configured : Result ConfigError RuntimeState
configured = configure host new_runtime_state plugin_schema (document settings) missing

-- The value of a result, with a value for an error.
abbrev pub value_of : Result ConfigError RuntimeState → RuntimeState
value_of (ok s) = s
value_of (err e) = new_runtime_state

abbrev pub started : RuntimeState
started = value_of configured

pub configured_ok : configured ≡ ok started
unfolding configure check_config normalize_probe contains_any resolve contains atoi add_credentials
    add_credential trim normalize_credential seed encode parse_turn_state byte_length decode
    normal_block_count sort_by insert lookup decode_base64_url install is_admitted prepare preserve
    merge_persisted starts_worker canonical_models credential_for matches_models replace_all
    has_prefix strip_prefix strip_star text_ltb to_lower drop_while drop_while_end state_key
    encode_pair escape_onto load_persisted equal_fold
configured_ok = refl

abbrev pub checked : Result ConfigError PluginConfig
checked = check_config host (document settings)

abbrev pub config_of : Result ConfigError PluginConfig → PluginConfig
config_of (ok cfg) = cfg
config_of (err e) = zero_config

checked_ok : checked ≡ ok (config_of checked)
unfolding configure check_config normalize_probe contains_any resolve contains atoi add_credentials
    add_credential trim normalize_credential seed encode parse_turn_state byte_length decode
    normal_block_count sort_by insert lookup decode_base64_url install is_admitted prepare preserve
    merge_persisted starts_worker canonical_models credential_for matches_models replace_all
    has_prefix strip_prefix strip_star text_ltb to_lower drop_while drop_while_end state_key
    encode_pair escape_onto load_persisted equal_fold
checked_ok = refl

checked-IsMap : IsMap (config_of checked).credentials
unfolding configure check_config normalize_probe contains_any resolve contains atoi add_credentials
    add_credential trim normalize_credential seed encode parse_turn_state byte_length decode
    normal_block_count sort_by insert lookup decode_base64_url install is_admitted prepare preserve
    merge_persisted starts_worker canonical_models credential_for matches_models replace_all
    has_prefix strip_prefix strip_star text_ltb to_lower drop_while drop_while_end state_key
    encode_pair escape_onto load_persisted equal_fold
checked-IsMap = (refl, tt)

pub settings-IsDocument : IsDocument host (document settings)
settings-IsDocument cfg h =
    subst (λ c. IsMap c.credentials)
      (ok-injective {E = ConfigError} (config_of checked) cfg (sym checked_ok ∙ h)) checked-IsMap

pub reached : Reach host (on started [])
reached =
    next loaded
      (configure_step plugin_schema (document settings) missing settings-IsDocument configured_ok)

-- A minute after the state was issued, and close to its expiry.
abbrev pub soon : Time
soon = unix (issue_seconds + 60)

abbrev pub late : Time
late = unix (issue_seconds + 3500)

abbrev pub acct : Text
acct = str "acct"

abbrev pub gpt : Text
gpt = str "gpt-5"

-- The probe that starts close to the expiry.
abbrev pub claimed : RuntimeState × ProbeJob
claimed = claim started late acct gpt policy

begun : begin_probe started late acct gpt ≡ some claimed
unfolding begin_probe probe_policy holds_back claim auto_update_enabled is_free_plan configure
    check_config normalize_probe contains_any resolve contains atoi add_credentials add_credential
    trim normalize_credential seed encode parse_turn_state byte_length decode normal_block_count
    sort_by insert lookup decode_base64_url install is_admitted prepare preserve merge_persisted
    starts_worker canonical_models credential_for matches_models replace_all has_prefix strip_prefix
    strip_star text_ltb to_lower drop_while drop_while_end state_key encode_pair escape_onto
    load_persisted equal_fold
begun = refl

pub launch : Running host (on started []) (on claimed.0 (launched claimed.1 ∷ []))
launch = launch_step late acct gpt begun

pub flying : Reach host (on claimed.0 (launched claimed.1 ∷ []))
flying = next reached (running launch)

-- The same configuration, installed while the probe is in flight.
abbrev pub reconfigured : Result ConfigError RuntimeState
reconfigured = configure host claimed.0 plugin_schema (document settings) missing

pub reconfigured_ok : reconfigured ≡ ok (value_of reconfigured)
unfolding claim configure check_config normalize_probe contains_any resolve contains atoi
    add_credentials add_credential trim normalize_credential seed encode parse_turn_state
    byte_length decode normal_block_count sort_by insert lookup decode_base64_url install
    is_admitted prepare preserve merge_persisted starts_worker canonical_models credential_for
    matches_models replace_all has_prefix strip_prefix strip_star text_ltb to_lower drop_while
    drop_while_end state_key encode_pair escape_onto load_persisted equal_fold
reconfigured_ok = refl

-- A request for the account and the model of the seed.
abbrev pub request : InterceptRequest
request = record {
  request_id = str "r1";
  to_format = str "codex";
  model = gpt;
  requested_model = gpt;
  metadata = (str "selected_auth_id", string acct) ∷ [];
}

pub answered_ok : (answer started soon request acct gpt).1 ≡ injected seed_value
unfolding answer inject is_injectable bind_request request_policy auto_update_enabled is_free_plan
    configure check_config normalize_probe contains_any resolve contains atoi add_credentials
    add_credential trim normalize_credential seed encode parse_turn_state byte_length decode
    normal_block_count sort_by insert lookup decode_base64_url install is_admitted prepare preserve
    merge_persisted starts_worker canonical_models credential_for matches_models replace_all
    has_prefix strip_prefix strip_star text_ltb to_lower drop_while drop_while_end state_key
    encode_pair escape_onto load_persisted equal_fold
answered_ok = refl

pub parsed_ok :
    parse_turn_state seed_value (pos 4096)
    ≡ ok (record { issued_at = unix issue_seconds; cipher_bytes = 160; blocks = 10 })
unfolding parse_turn_state encode trim byte_length decode
parsed_ok = refl

pub body-AreBytes : AreBytes body
body-AreBytes = copies-AreBytes 208
  where
    copies-AreBytes : (n : ℕ) → AreBytes (copies n 1)
    copies-AreBytes zero = tt
    copies-AreBytes (suc n) = (omega arith, copies-AreBytes n)

pub body_fits : length (encode (token issue_seconds body)) ≤ 4096
unfolding encode
body_fits = omega arith

-- A state of the same account and model, a minute newer, and the plugin that holds it in memory.
abbrev pub newer : StoredState
newer = record { value = seed_value; issued_at = unix (issue_seconds + 60); blocks = 10 }

abbrev pub holding : RuntimeState
holding = record new_runtime_state { current = (state_key acct gpt, newer) ∷ [] }

abbrev pub kept : Result ConfigError RuntimeState
kept = configure host holding plugin_schema (document settings) missing

pub kept_ok : kept ≡ ok (value_of kept)
unfolding configure check_config normalize_probe contains_any resolve contains atoi add_credentials
    add_credential trim normalize_credential seed encode parse_turn_state byte_length decode
    normal_block_count sort_by insert lookup decode_base64_url install is_admitted prepare preserve
    merge_persisted starts_worker canonical_models credential_for matches_models replace_all
    has_prefix strip_prefix strip_star text_ltb to_lower drop_while drop_while_end state_key
    encode_pair escape_onto load_persisted equal_fold
kept_ok = refl

pub kept_admitted : is_admitted (value_of kept).config (state_key acct gpt) newer ≡ true
unfolding split_state_key decode_pair parse configure check_config normalize_probe contains_any
    resolve contains atoi add_credentials add_credential trim normalize_credential seed encode
    parse_turn_state byte_length decode normal_block_count sort_by insert lookup decode_base64_url
    install is_admitted prepare preserve merge_persisted starts_worker canonical_models
    credential_for matches_models replace_all has_prefix strip_prefix strip_star text_ltb to_lower
    drop_while drop_while_end state_key encode_pair escape_onto load_persisted equal_fold
kept_admitted = refl

pub kept_there : lookup (state_key acct gpt) holding.current ≡ some newer
unfolding lookup state_key trim encode_pair escape_onto
kept_there = refl

-- A plugin with a staged candidate, and the completion of its request.
abbrev pub waiting : RuntimeState
waiting = record new_runtime_state {
  accepting = true;
  candidates = (str "r1", record { auth_id = acct; key = state_key acct gpt; state = newer }) ∷ [];
}

abbrev pub done : Completion
done = record {
  request_id = str "r1";
  outcome = str "succeeded";
  status_code = pos 200;
  error = [];
}

pub promoted_ok : (complete waiting soon done).1 ≡ true
unfolding complete settle promote may_promote improves lookup
promoted_ok = refl

-- A plugin with a queued refresh.
abbrev pub queued : RuntimeState
queued = record started { refresh_requests = (state_key acct gpt, str "rate_limit") ∷ [] }

pub queued_there : ¬ (text_at (state_key acct gpt) queued.refresh_requests ≡ [])
unfolding lookup state_key trim encode_pair escape_onto
queued_there h = cc

pub queued_free : may_queue started (state_key acct gpt) (str "overload") ≡ true
unfolding may_queue auto_update_enabled split_state_key decode_pair parse configure check_config
    normalize_probe contains_any resolve contains atoi add_credentials add_credential trim
    normalize_credential seed encode parse_turn_state byte_length decode normal_block_count sort_by
    insert lookup decode_base64_url install is_admitted prepare preserve merge_persisted
    starts_worker canonical_models credential_for matches_models replace_all has_prefix strip_prefix
    strip_star text_ltb to_lower drop_while drop_while_end state_key encode_pair escape_onto
    load_persisted equal_fold
queued_free = refl

abbrev pub limited : ProbeConfig
limited = with_defaults one_proxy

pub limited_ok : normalize_probe host one_proxy ≡ ok limited
unfolding configure check_config normalize_probe contains_any resolve contains atoi add_credentials
    add_credential trim normalize_credential seed encode parse_turn_state byte_length decode
    normal_block_count sort_by insert lookup decode_base64_url install is_admitted prepare preserve
    merge_persisted starts_worker canonical_models credential_for matches_models replace_all
    has_prefix strip_prefix strip_star text_ltb to_lower drop_while drop_while_end state_key
    encode_pair escape_onto load_persisted equal_fold
limited_ok = refl

-- A credential with block counts out of order and twice, and what it is normalised to.
abbrev pub listed : CredentialConfig
listed = record zero_credential { accepted_blocks = pos 12 ∷ pos 10 ∷ pos 12 ∷ [] }

abbrev pub sorted : CredentialConfig
sorted = record zero_credential { accepted_blocks = pos 10 ∷ pos 12 ∷ [] }

pub listed_ok : normalize_credential listed ≡ ok sorted
unfolding normalize_credential canonical_models sort_by trim to_lower
listed_ok = refl

-- A request that was bound and has a candidate, before its retry.
abbrev pub retried : RuntimeState
retried = record waiting {
  requests =
      (str "r1", record { auth_id = acct; key = state_key acct gpt; stream_buffer = [] }) ∷ [];
}
