-- ===== src/Probe.antt =====
-- probe.go: `ensureProbe`, in the sections that hold the lock: the guards and the claim, the rounds
-- through the proxy pool, and the bookkeeping at the end.
pub mod Rounds
pub mod Answer
pub mod Query
pub mod Auth
use cpa_codex_turn_state_plu.Base.{
  ℕ, zero, suc, ◌+◌, ◌-◌, ◌*◌, ◌%◌, ◌^◌, Bool, true, false, not, ◌&&◌, ◌||◌, Option, none, some,
  List, [], ◌∷◌, ◌++◌, ltb, leb, nat_beq, nat_eq, if◌then◌else◌, length, any, and_then, Text,
  text_beq, text_eq, str,
}
use cpa_codex_turn_state_plu.Base.Int.{ℤ, more_than, to_nat}
use cpa_codex_turn_state_plu.Base.Dict.{lookup, insert, erase}
use cpa_codex_turn_state_plu.Clock.{Time, seconds, minute}
use cpa_codex_turn_state_plu.Environment.{Environment}
use cpa_codex_turn_state_plu.Text.{contains, byte_length, of_nat}
use cpa_codex_turn_state_plu.Config.{
  CredentialConfig, PluginConfig, ProbeConfig, enabled_by_default,
}
use cpa_codex_turn_state_plu.Policy.{
  credential_for, auto_update_enabled, is_free_plan, matches_models,
}
use cpa_codex_turn_state_plu.Keys.{state_key, account_digest}
use cpa_codex_turn_state_plu.State.{
  RuntimeState, StoredState, ProbeContext, live, absent, cancelled, HistoryEntry, text_at, time_at,
  flag_at, stored_at,
}
use cpa_codex_turn_state_plu.Refresh.{turn_state_ttl}
use cpa_codex_turn_state_plu.Request.{clock_tolerance, usable_state}
use cpa_codex_turn_state_plu.History.{append_history}

-- What a probe carries from its first section to its last.
pub record ProbeJob : Type 0 where
  pub auth_id : Text
  pub model : Text
  pub key : Text
  pub config : PluginConfig
  pub policy : CredentialConfig
  pub generation : ℕ
  pub started : Time
  pub start : ℕ
  pub reason : Text

abbrev pub probe_slots : ℕ
probe_slots = 4

abbrev pub is_live : ProbeContext → Bool
is_live live = true
is_live absent = false
is_live cancelled = false

-- The policy under which the key may be probed at all, if a slot is free.
unfoldable pub probe_policy : RuntimeState → Text → Text → Option CredentialConfig
probe_policy s auth_id model = and_then (credential_for s.config auth_id) λ policy.
    if not (
      s.accepting
      && s.config.probe.enabled
      && is_live s.probe_ctx
      && not (is_free_plan policy.plan)
      && auto_update_enabled s.config policy
      && matches_models policy.models (model ∷ [])
      && not (flag_at (state_key auth_id model) s.probing)
      && ltb (length s.probing) probe_slots)
    then none
    else some policy

-- The cached state is good for longer than the refresh margin.
unfoldable pub is_fresh : RuntimeState → Time → Text → Bool
is_fresh s now key =
    let current = stored_at key s.current in
    not (text_beq current.value [])
    && not (ltb (now + clock_tolerance) current.issued_at)
    && ltb now
        (current.issued_at + (turn_state_ttl - seconds s.config.probe.refresh_before_seconds))

unfoldable pub cools_down : RuntimeState → Time → Text → Bool
cools_down s now key = elim (lookup key s.last_probe) [
  | none ↦ false
  | some last ↦ ltb now (last + seconds s.config.probe.retry_seconds)
]

-- The early returns behind the policy: nothing to do, or too soon.
unfoldable pub holds_back : RuntimeState → Time → Text → Text → Bool
unfolding is_fresh cools_down
holds_back s now auth_id key =
    let quiet = text_beq (text_at key s.refresh_requests) [] in
    enabled_by_default s.config.probe.probe_on_errors_only && quiet
    || quiet && is_fresh s now key
    || ltb now (time_at key s.blocked_until)
    || ltb now (time_at auth_id s.account_blocked_until)
    || cools_down s now key

unfoldable pub probe_reason : RuntimeState → Text → Text
probe_reason s key =
    let reason = text_at key s.refresh_requests in
    if not (text_beq reason [])
    then reason
    else if not (text_beq (stored_at key s.current).value [])
    then str "before_expiry"
    else str "missing_state"

-- The claim: the bookkeeping of a probe that starts.
unfoldable pub claim :
    RuntimeState → Time → Text → Text → CredentialConfig → RuntimeState × ProbeJob
unfolding probe_reason
claim s now auth_id model policy =
    let key = state_key auth_id model in
    (
      record s {
        last_probe = insert key now s.last_probe;
        probe_reasons = insert key (probe_reason s key) s.probe_reasons;
        probing = insert key true s.probing;
        pool_cursor = (s.pool_cursor + 1) % 2 ^ 64;
      },
      record {
        auth_id = auth_id;
        model = model;
        key = key;
        config = s.config;
        policy = policy;
        generation = s.generation;
        started = now;
        start = s.pool_cursor;
        reason = probe_reason s key;
      },
    )

-- `ensureProbe` up to its first unlock; no value stands for an early return.
unfoldable pub begin_probe : RuntimeState → Time → Text → Text → Option (RuntimeState × ProbeJob)
unfolding claim
begin_probe s now auth_id model = and_then (probe_policy s auth_id model) λ policy.
    if holds_back s now auth_id (state_key auth_id model)
    then none
    else some (claim s now auth_id model policy)

-- `accountLevelProbeFailure`
unfoldable pub account_level_probe_failure : Text → Bool
account_level_probe_failure status = any (contains status) (
    str "upstream_http_401"
    ∷ str "upstream_http_403"
    ∷ str "upstream_http_429"
    ∷ str "usage_limit_reached"
    ∷ str "rate_limit_exceeded"
    ∷ str "insufficient_quota"
    ∷ str "invalid_api_key"
    ∷ [])

-- `probeAccountBackoff`
unfoldable pub probe_account_backoff : Text → ℤ → ℕ
probe_account_backoff status quota_seconds =
    if contains status (str "usage_limit_reached")
      || contains status (str "rate_limit_exceeded")
      || contains status (str "insufficient_quota")
    then seconds quota_seconds
    else minute

-- `proxyLevelProbeFailure`
unfoldable pub proxy_level_probe_failure : Text → Bool
proxy_level_probe_failure status =
    text_beq status (str "network_error")
    || any (contains status) (str "proxy" ∷ str "connect" ∷ str "tls" ∷ [])

-- The index of an entry, (int(start) + offset) % poolSize: the cursor becomes a signed number, the sum
-- wraps, and the remainder takes its sign. No value stands for a negative index, at which the access
-- to the pool panics.
unfoldable pub pool_index : ℕ → ℕ → ℕ → Option ℕ
pool_index start offset size =
    let sum = (start + offset) % 2 ^ 64 in
    if ltb sum (2 ^ 63)
    then some (sum % size)
    else if nat_beq ((2 ^ 64 - sum) % size) 0
    then some 0
    else none

-- What one round meets: whether the deadline has not passed, the clock at the test of the entry, the
-- answer of the fetch through the entry of that index, and the clock after it.
pub record Round : Type 0 where
  pub in_time : Bool
  pub at : Time
  pub after : Time
  pub fetch : ℕ → Text × Text

pub record Attempted : Type 0 where
  pub state : RuntimeState
  pub candidate : Option StoredState
  pub outcome : Text
  -- the entries that were asked, in order
  pub asked : List ℕ

pub data Verdict : Type 0 where
  finish : Option StoredState → Verdict
  go_on : Verdict

-- One attempt: the state, the outcome, and whether the loop goes on.
unfoldable pub attempt :
    RuntimeState → ProbeJob → ℕ → Time → Text → Text → RuntimeState × Text × Verdict
attempt s job index at value status =
    if not (text_beq status (str "ok"))
    then (if account_level_probe_failure status
        then (
          record s {
            account_blocked_until =
                insert job.auth_id
                  (at + probe_account_backoff status job.config.probe.quota_backoff_seconds)
                  s.account_blocked_until;
          },
          status,
          finish none,
        )
        else if proxy_level_probe_failure status
        then (
          record s {
            proxy_blocked_until =
                insert index (at + seconds job.config.probe.retry_seconds) s.proxy_blocked_until;
          },
          status,
          go_on,
        )
        else (s, status, go_on))
    else (let freed = record s { proxy_blocked_until = erase index s.proxy_blocked_until } in
        elim (usable_state job.config job.policy job.started value) [
          | none ↦ (freed, str "state_rejected", go_on)
          | some st ↦ (freed, str "ok", finish (some st))
        ])

-- The loop over the pool. `left` counts the offsets that remain; no value stands for a panic, which
-- nothing recovers.
unfoldable pub rounds : ProbeJob → (ℕ → Round) → ℕ → ℕ → ℕ → Attempted → Option Attempted
unfolding attempt pool_index
rounds job env zero offset attempts a = some a
rounds job env (suc left) offset attempts a =
    let round = env offset in
    let skip = rounds job env left (offset + 1) attempts a in
    let entered : Option Attempted =
      elim (pool_index job.start offset (length job.config.probe.proxy_pool)) [
        | none ↦ none
        | some index ↦
            let answered = round.fetch index in
            let (s, outcome, verdict) =
              attempt a.state job index round.after answered.0 answered.1 in
            let asked = a.asked ++ index ∷ [] in
            let next : Option Attempted = elim verdict [
              | finish st ↦
                  some (record { state = s; candidate = st; outcome = outcome; asked = asked })
              | go_on ↦
                  rounds job env left (offset + 1) (attempts + 1)
                    (record { state = s; candidate = none; outcome = outcome; asked = asked })
            ] in
            if ltb round.at (time_at index a.state.proxy_blocked_until) then skip else next
      ] in
    if not (more_than job.config.probe.max_attempts attempts) || not round.in_time
    then some a
    else entered

-- The middle of `ensureProbe`: without a credential no round is run.
unfoldable pub run_probe : RuntimeState → ProbeJob → Bool → (ℕ → Round) → Option Attempted
run_probe s job has_auth env =
    if has_auth
    then rounds job env (length job.config.probe.proxy_pool) 0 0
        (record { state = s; candidate = none; outcome = str "probe_failed"; asked = [] })
    else some (record { state = s; candidate = none; outcome = str "auth_unavailable"; asked = [] })

unfoldable pub probe_entry : Environment → ProbeJob → Time → Text → HistoryEntry
probe_entry env job now outcome = record {
  at = now;
  account = account_digest env job.auth_id;
  model = job.model;
  event = str "probe";
  outcome = outcome;
  reason = job.reason;
  detail = [];
}

unfoldable pub promote_entry : Environment → ProbeJob → Time → StoredState → HistoryEntry
promote_entry env job now st = record {
  at = now;
  account = account_digest env job.auth_id;
  model = job.model;
  event = str "promote";
  outcome = str "ok";
  reason = job.reason;
  detail = str "blocks=" ++ (of_nat st.blocks ++ (str " length=" ++ of_nat (byte_length st.value)));
}

-- The result of the probe, and the backoff of a key whose quota is exhausted.
unfoldable pub note_result : RuntimeState → ProbeJob → Time → Text → RuntimeState
note_result s job now outcome =
    let noted = record s {
      probing = erase job.key s.probing;
      probe_results = insert job.key outcome s.probe_results;
    } in
    if contains outcome (str "usage_limit_reached") || contains outcome (str "insufficient_quota")
    then record noted {
      blocked_until =
          insert job.key (now + seconds job.config.probe.quota_backoff_seconds) noted.blocked_until;
    }
    else noted

-- Whether the candidate replaces what the key holds.
unfoldable pub is_promoted : RuntimeState → Text → Time → StoredState → Bool
is_promoted s key now st =
    s.accepting
    && not (text_beq st.value [])
    && ltb (stored_at key s.current).issued_at st.issued_at
    && ltb now (st.issued_at + turn_state_ttl)

unfoldable pub promote_probed :
    Environment → RuntimeState → ProbeJob → Time → Text → StoredState → RuntimeState
promote_probed env s job now outcome st =
    let stored = record s {
      current = insert job.key st s.current;
      refresh_requests = erase job.key s.refresh_requests;
      blocked_until = erase job.key s.blocked_until;
    } in
    let logged = append_history stored (probe_entry env job now outcome) in
    append_history
      (record logged {
        account_blocked_until = erase job.auth_id logged.account_blocked_until;
        force_inject = insert job.key true logged.force_inject;
      })
      (promote_entry env job now st)

unfoldable pub close_probe :
    Environment → RuntimeState → ProbeJob → Time → Text → Option StoredState → RuntimeState × Bool
unfolding promote_probed
close_probe env s job now outcome none = (append_history s (probe_entry env job now outcome), false)
close_probe env s job now outcome (some st) =
    if is_promoted s job.key now st
    then (promote_probed env s job now outcome st, true)
    else (append_history s (probe_entry env job now outcome), false)

-- The last section of `ensureProbe`. A probe of an older generation leaves no trace.
unfoldable pub finish_probe :
    Environment → RuntimeState → ProbeJob → Time → Text → Option StoredState → RuntimeState × Bool
unfolding close_probe note_result
finish_probe env s job now outcome candidate =
    if not (nat_beq job.generation s.generation)
    then (s, false)
    else close_probe env (note_result s job now outcome) job now outcome candidate
