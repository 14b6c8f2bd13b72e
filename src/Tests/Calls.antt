-- ===== src/Tests/Calls.antt =====
-- The theorems on the probe's answer and on the calls of the host at concrete inputs.
use cpa_codex_turn_state_plu.State.{RuntimeState}
use cpa_codex_turn_state_plu.Dispatch.{Call, after_auth, manage, stop, before_auth}
use cpa_codex_turn_state_plu.Json.Strings.{scan, combine}
use cpa_codex_turn_state_plu.Text.{
  join, has_prefix, trim_prefix, equal_fold, trim, contains, to_upper,
}
use cpa_codex_turn_state_plu.Json.{parse}
use cpa_codex_turn_state_plu.Abi.{plugin_call}
use cpa_codex_turn_state_plu.Abi.Replied.{IsReplied, plugin_call-IsReplied}
use cpa_codex_turn_state_plu.Base.{
  ◌≡◌, refl, true, false, none, some, List, [], ◌∷◌, Text, str, ok, arith, ℕ, Result, err, text_beq,
  if◌then◌else◌,
}
use cpa_codex_turn_state_plu.Probe.Answer.{
  Exchange, answered, fetch_probe, probe_completed, check_event,
}
use cpa_codex_turn_state_plu.Probe.Answer.Events.{
  IsAnswer, fetch_probe-IsAnswer, events, outcome, probe_completed-outcome,
}
use cpa_codex_turn_state_plu.Base.Int.{pos}
use cpa_codex_turn_state_plu.Keys.{account_digest}
use cpa_codex_turn_state_plu.State.{AccountCache}
use cpa_codex_turn_state_plu.Request.{auth_is_free}
use cpa_codex_turn_state_plu.Management.Accounts.{
  ListedAccount, settled, fetching, begin_accounts, finish_accounts,
}
use cpa_codex_turn_state_plu.Management.Accounts.Served.{
  finish_accounts-serves, is_free_entry, last_listed,
}
use cpa_codex_turn_state_plu.Probe.Auth.{
  ProbeAuth, HostAuth, selected_probe_auth, inferred_account_plan,
}
use cpa_codex_turn_state_plu.Probe.Auth.Eligible.{IsEligible, selected_probe_auth-IsEligible}
use cpa_codex_turn_state_plu.Management.Routes.{
  ManagementRequest, Readers, Beside, handle_management, method_of, management_route_path,
}
use cpa_codex_turn_state_plu.Management.Routes.Guarded.{
  KeepsAllButAccounts, handle_management-still,
}
use cpa_codex_turn_state_plu.Tests.Samples.{host, started, soon, acct, request}

-- A stream with one event, closed by an empty line.
abbrev stream : List Text
stream =
    str "data: {\"type\":\"response.completed\",\"response\":{\"status\":\"completed\"}}" ∷ [] ∷ []

abbrev answer : Exchange
answer = answered (record {
  status_code = 200;
  turn_state = str " state ";
  failure = none;
  lines = stream;
  broken = false;
})

fetched_ok : fetch_probe answer ≡ (str "state", str "ok")
unfolding fetch_probe check_event parse join has_prefix trim_prefix scan equal_fold combine trim
fetched_ok = refl

fetch_probe-IsAnswer_example : IsAnswer answer (str "state")
fetch_probe-IsAnswer_example = fetch_probe-IsAnswer answer (str "state") fetched_ok

probe_completed-outcome_example : probe_completed true stream ≡ outcome true (events stream)
probe_completed-outcome_example = probe_completed-outcome true stream

abbrev token : ProbeAuth
token = record {
  access_token = str "t";
  account_id = [];
  kind = str "codex";
  base_url = [];
  disabled = false;
}

abbrev auths : HostAuth
auths = record {
  listing = ok (
      record {
        id = acct;
        index = str "0";
        provider = str "codex";
        name = str "codex-a-plus.json";
        account_type = [];
        disabled = false;
        base_url = [];
      }
      ∷ []);
  get = λ _. ok token;
}

selected_ok : selected_probe_auth (some auths) acct ≡ ok token
unfolding selected_probe_auth equal_fold inferred_account_plan contains trim
selected_ok = refl

selected_probe_auth-IsEligible_example : IsEligible auths acct token
selected_probe_auth-IsEligible_example = selected_probe_auth-IsEligible auths acct token selected_ok

-- A browser that posts to a page, and the panel that clears.
abbrev readers : Readers
readers = record { decode = λ t. some t; read_refresh = λ _. none; read_clear = λ _. none }

abbrev posted : ManagementRequest
posted = record {
  method = str "POST";
  method_lower = [];
  path = str "/v0/resource/plugins/cpa-codex-turn-state/clear";
  path_lower = [];
  body = [];
  body_lower = [];
}

-- The probe leaves the state alone, and the host lists no account.
abbrev beside : Beside
beside = record { probe = λ s _ _. s; listing = ok [] }

handle_management-still_example :
    KeepsAllButAccounts started (handle_management host readers beside started soon posted).0
unfolding management_route_path method_of to_upper trim has_prefix
handle_management-still_example =
    handle_management-still host readers beside started soon posted refl

-- A cache that was never filled, and a listing with one free account.
abbrev empty_cache : AccountCache
empty_cache = record { fetched_at = 0; inflight = false; by_hash = none }

abbrev listed : ListedAccount
listed = record {
  id = acct;
  auth_index = str "0";
  name = str "codex-a-free.json";
  provider = str "codex";
  label = [];
  account_type = [];
  status = [];
  email = [];
  account = [];
  disabled = false;
  unavailable = false;
  priority = pos 0;
  success = pos 0;
  failed = pos 0;
  status_message = [];
}

asked_ok : begin_accounts empty_cache soon ≡ fetching (record empty_cache { inflight = true })
unfolding begin_accounts
asked_ok = refl

finish_accounts-serves_example :
    (let r = finish_accounts host empty_cache soon (ok (listed ∷ [])) in
      (begin_accounts r.0 soon ≡ settled (some r.1) true)
      × (auth_is_free host r.0 soon acct
          ≡ is_free_entry (last_listed host (account_digest host acct) (listed ∷ []) none)))
finish_accounts-serves_example =
    finish_accounts-serves host empty_cache soon soon (listed ∷ []) acct (omega arith) (omega arith)

-- A handler of one method.
abbrev handler : Text → List ℕ → Result Text Text
handler name bytes =
    if text_beq name (str "plugin.quiesce") then ok (str "{\"ok\":true}") else err (str "no")

plugin_call-IsReplied_example :
    IsReplied
      (λ name. handler name [])
      []
      (plugin_call (λ _. true) handler true (some (str "plugin.quiesce")) none)
      (some (str "plugin.quiesce"))
plugin_call-IsReplied_example =
    plugin_call-IsReplied (λ _. true) (λ _. refl) handler (some (str "plugin.quiesce")) none

-- A request, a refresh of everything and the end of the request, after the plugin was quiesced.
abbrev quieted : RuntimeState
quieted = record started { accepting = false }

abbrev asked : ManagementRequest
asked = record posted { path = str "/v0/management/codex-turn-state/refresh" }

abbrev calls : List Call
calls = after_auth soon soon request ∷ manage soon asked ∷ stop ∷ before_auth ∷ []
