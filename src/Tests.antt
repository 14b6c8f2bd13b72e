-- ===== src/Tests.antt =====
-- The theorems at concrete inputs: a configured plugin, a request, a probe in flight, a completion.
mod Samples
mod Panel
mod Dialogues
mod Calls
mod Codec
mod Disk
mod Page
use cpa_codex_turn_state_plu.Base.{
  ℕ, ◌+◌, ◌*◌, ◌^◌, ◌≤◌, ◌≡◌, ◌↔◌, refl, Bool, true, false, not, Option, none, some, List, [], ◌∷◌,
  length, Text, text_eq, text_beq, str, arith, Result, ok, err,
}
use cpa_codex_turn_state_plu.Base.Int.{ℤ, pos}
use cpa_codex_turn_state_plu.Base.Dict.{lookup}
use cpa_codex_turn_state_plu.Base64.{encode, decode}
use cpa_codex_turn_state_plu.Base64.RoundTrip.{AreBytes}
use cpa_codex_turn_state_plu.Clock.{Time, unix}
use cpa_codex_turn_state_plu.Text.{trim, byte_length}
use cpa_codex_turn_state_plu.Fernet.{FernetInfo, parse_turn_state}
use cpa_codex_turn_state_plu.Fernet.Bounds.{IsPlausible, parse-IsPlausible}
use cpa_codex_turn_state_plu.Fernet.Complete.{token, parse-encode}
use cpa_codex_turn_state_plu.Config.{ProbeConfig, zero_probe}
use cpa_codex_turn_state_plu.Config.Probe.{ProbeError, with_defaults, normalize_probe}
use cpa_codex_turn_state_plu.Config.Limits.{IsLimited, normalize_probe-IsLimited}
use cpa_codex_turn_state_plu.Keys.{state_key, split_state_key, split_state_key-state_key}
use cpa_codex_turn_state_plu.State.{
  RuntimeState, StoredState, new_runtime_state, text_at, stored_at,
}
use cpa_codex_turn_state_plu.Refresh.{next_refresh, may_queue, queue_refresh}
use cpa_codex_turn_state_plu.Refresh.Schedule.{holds_back-next_refresh}
use cpa_codex_turn_state_plu.Request.{Completion, answer, untouched, capture_candidate, complete}
use cpa_codex_turn_state_plu.Probe.{
  holds_back, ProbeJob, begin_probe, attempt, run_probe, finish_probe, Round,
}
use cpa_codex_turn_state_plu.Base.{All}
use cpa_codex_turn_state_plu.Base.Int.{is_neg}
use cpa_codex_turn_state_plu.Policy.Ranges.{IsCount}
use cpa_codex_turn_state_plu.Request.{intercept_after}
use cpa_codex_turn_state_plu.Request.Retry.{intercept_after-candidates}
use cpa_codex_turn_state_plu.Probe.Rounds.{Ends, run_probe-IsWithin}
use cpa_codex_turn_state_plu.Lifecycle.{plugin_schema, document, configure, is_admitted}
use cpa_codex_turn_state_plu.Lifecycle.Persisted.{missing}
use cpa_codex_turn_state_plu.System.Advance.{Advance}
use cpa_codex_turn_state_plu.System.Steps.{on, launched}
use cpa_codex_turn_state_plu.System.Reachable.{IsConsistent, Reach-IsConsistent}
use cpa_codex_turn_state_plu.System.SingleFlight.{IsSingle, Reach-IsSingle}
use cpa_codex_turn_state_plu.System.Outcomes.{IsPermitted, answer-IsPermitted, Running-Advance}
use cpa_codex_turn_state_plu.System.Stale.{KeepsAllButBackoff, finish_probe-configure}
use cpa_codex_turn_state_plu.System.Steps.{stay, followed, accepting_step}
use cpa_codex_turn_state_plu.Clock.{Time}
use cpa_codex_turn_state_plu.State.{StoredState}
use cpa_codex_turn_state_plu.Lifecycle.{set_accepting}
use cpa_codex_turn_state_plu.System.Promotions.{IsPromotion, complete-IsPromotion, stopped_quiet}
use cpa_codex_turn_state_plu.System.Kept.{configure-keeps}
use Samples.{
  listed, sorted, listed_ok, retried, host, issue_seconds, copies, body, seed_value, policy,
  one_proxy, settings, value_of, started, reached, soon, late, acct, gpt, claimed, launch, flying,
  reconfigured, reconfigured_ok, request, answered_ok, parsed_ok, newer, holding, kept, kept_ok,
  kept_admitted, kept_there, waiting, done, promoted_ok, queued, queued_there, queued_free, limited,
  limited_ok, body-AreBytes, body_fits,
}

answer-IsPermitted_example : IsPermitted started soon request acct gpt seed_value
answer-IsPermitted_example =
    answer-IsPermitted host soon request acct gpt seed_value reached answered_ok

Reach-IsConsistent_example : IsConsistent (on claimed.0 (launched claimed.1 ∷ []))
Reach-IsConsistent_example = Reach-IsConsistent host flying

Reach-IsSingle_example : IsSingle (on claimed.0 (launched claimed.1 ∷ []))
Reach-IsSingle_example = Reach-IsSingle host flying

-- The probe of a configuration that was replaced, while the plugin was quiesced again.
finish_probe-configure_example :
    (let now_there = set_accepting (value_of reconfigured) false in
      ((now : Time) (outcome : Text) (candidate : Option StoredState)
        → finish_probe host now_there claimed.1 now outcome candidate ≡ (now_there, false))
      × ((index : ℕ) (at : Time) (value status : Text)
          → KeepsAllButBackoff now_there (attempt now_there claimed.1 index at value status).0))
finish_probe-configure_example =
    finish_probe-configure host claimed.0 [] [] [] (launched claimed.1) plugin_schema
      (document settings) missing flying reconfigured_ok (followed (accepting_step false) stay)

Running-Advance_example : Advance started claimed.0
Running-Advance_example = Running-Advance host launch

complete-IsPromotion_example : IsPromotion waiting (complete waiting soon done).0 soon done
complete-IsPromotion_example = complete-IsPromotion waiting soon done promoted_ok

stopped_quiet_example :
    (answer new_runtime_state soon request acct gpt ≡ (new_runtime_state, untouched))
    × (begin_probe new_runtime_state soon acct gpt ≡ none)
    × (capture_candidate new_runtime_state soon (str "r1") [] ≡ new_runtime_state)
    × ((complete new_runtime_state soon done).0.current ≡ [])
    × ((finish_probe host new_runtime_state claimed.1 soon (str "ok") (some newer)).0.current ≡ [])
stopped_quiet_example =
    stopped_quiet host new_runtime_state soon request acct gpt (str "r1") [] done claimed.1
      (str "ok") (some newer) refl

configure-keeps_example :
    newer.issued_at ≤ (stored_at (state_key acct gpt) (value_of kept).current).issued_at
configure-keeps_example =
    configure-keeps host holding plugin_schema (document settings) missing (state_key acct gpt)
      newer kept_ok kept_there kept_admitted

holds_back-next_refresh_example :
    (holds_back new_runtime_state soon acct (str "k") ≡ false)
    ↔ (next_refresh new_runtime_state soon (str "k") ≤ soon)
unfolding lookup
holds_back-next_refresh_example =
    holds_back-next_refresh new_runtime_state soon acct (str "k") (omega arith) (omega arith)

-- Each round in time, with an answer that fails at the proxy.
abbrev failing : ℕ → Round
failing n = record {
  in_time = true;
  at = late;
  after = late;
  fetch = λ _. ([], str "connect_failed");
}

-- A probe with a pool of one entry, the fourth one since the plugin was loaded.
abbrev pooled : ProbeJob
pooled = record {
  auth_id = acct;
  model = gpt;
  key = str "k";
  config = record settings { probe = limited };
  policy = policy;
  generation = 0;
  started = soon;
  start = 3;
  reason = str "missing_state";
}

pooled_low : pooled.start + length pooled.config.probe.proxy_pool ≤ 2 ^ 63
unfolding with_defaults
pooled_low = omega arith

run_probe-IsWithin_example : Ends pooled (run_probe started pooled true failing)
run_probe-IsWithin_example = run_probe-IsWithin started pooled true failing pooled_low

normalize_probe-IsLimited_example : IsLimited limited
normalize_probe-IsLimited_example = normalize_probe-IsLimited host one_proxy limited_ok

parse-encode_example :
    parse_turn_state seed_value (pos 4096)
    ≡ ok (record { issued_at = unix issue_seconds; cipher_bytes = 160; blocks = 10 })
parse-encode_example =
    parse-encode issue_seconds 10 4096 body (omega arith) (omega arith) (omega arith) refl
      body-AreBytes body_fits

parse-IsPlausible_example :
    IsPlausible (record { issued_at = unix issue_seconds; cipher_bytes = 160; blocks = 10 })
parse-IsPlausible_example = parse-IsPlausible seed_value (pos 4096) parsed_ok

split_state_key-state_key_example :
    split_state_key (state_key acct (str " gpt-5 ")) ≡ (acct, trim (str " gpt-5 "))
split_state_key-state_key_example = split_state_key-state_key acct (str " gpt-5 ")

padded : state_key acct (str " gpt-5 ") ≡ state_key acct gpt
unfolding state_key trim
padded = refl

intercept_after-candidates_example :
    lookup (str "r1") (intercept_after host (λ s _ _. s) retried soon soon request).0.candidates
    ≡ none
intercept_after-candidates_example =
    intercept_after-candidates host (λ s _ _. s) retried soon soon request (λ s auth_id model h. h)
