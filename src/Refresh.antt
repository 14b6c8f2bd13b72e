-- ===== src/Refresh.antt =====
-- refresh.go: when a key is due for a probe, how a failure is classified, and how it queues an early
-- refresh. `now` is the clock's reading in the section that holds the lock.
pub mod Event
pub mod Stream
pub mod Schedule
pub mod Worker
pub mod Loop
use cpa_codex_turn_state_plu.Base.{
  ℕ, ◌+◌, ◌-◌, ◌*◌, Bool, true, false, not, ◌&&◌, ◌||◌, Option, none, some, List, [], ◌∷◌, ltb,
  if◌then◌else◌, text_eq, Text, text_beq, str, any,
}
use cpa_codex_turn_state_plu.Base.Int.{ℤ, pos, int_beq}
use cpa_codex_turn_state_plu.Base.Dict.{lookup, insert}
use cpa_codex_turn_state_plu.Clock.{Time, second, seconds}
use cpa_codex_turn_state_plu.Text.{contains, to_lower}
use cpa_codex_turn_state_plu.Config.{CredentialConfig, PluginConfig, enabled_by_default}
use cpa_codex_turn_state_plu.Policy.{credential_for, auto_update_enabled, matches_models}
use cpa_codex_turn_state_plu.Keys.{split_state_key}
use cpa_codex_turn_state_plu.State.{RuntimeState, text_at, time_at, stored_at}

-- fernet.go: `turnStateTTL`, one hour
abbrev pub turn_state_ttl : ℕ
turn_state_ttl = 3_600_000_000_000

-- 365 * 24 * time.Hour
abbrev pub year : ℕ
year = 31_536_000_000_000_000

abbrev later : Time → Time → Time
later due t = if ltb due t then t else due

-- The due time before cooldown and backoff.
unfoldable pub first_due : RuntimeState → Time → Text → Time
first_due s now key =
    let current = stored_at key s.current in
    if not (text_beq current.value []) && text_beq (text_at key s.refresh_requests) []
    then current.issued_at + (turn_state_ttl - seconds s.config.probe.refresh_before_seconds)
    else now

unfoldable pub after_cooldown : RuntimeState → Text → Time → Time
after_cooldown s key due = elim (lookup key s.last_probe) [
  | none ↦ due
  | some last ↦ later due (last + seconds s.config.probe.retry_seconds)
]

-- `nextRefreshLocked`
unfoldable pub next_refresh : RuntimeState → Time → Text → Time
unfolding first_due after_cooldown
next_refresh s now key =
    if enabled_by_default s.config.probe.probe_on_errors_only
      && text_beq (text_at key s.refresh_requests) []
    then now + year
    else later (after_cooldown s key (first_due s now key)) (time_at key s.blocked_until)

-- The policy that `queueRefreshLocked` asks for: a credential with updates, and the model in scope.
unfoldable pub refreshes : PluginConfig → Text → Text → Bool
refreshes cfg auth_id model = elim (credential_for cfg auth_id) [
  | none ↦ false
  | some policy ↦ auto_update_enabled cfg policy && matches_models policy.models (model ∷ [])
]

-- Whether `queueRefreshLocked` gets past its guards.
unfoldable pub may_queue : RuntimeState → Text → Text → Bool
unfolding refreshes
may_queue s key reason =
    s.accepting
    && s.config.probe.enabled
    && enabled_by_default s.config.probe.refresh_on_errors
    && not (text_beq key [])
    && not (text_beq reason [])
    && refreshes s.config (split_state_key key).0 (split_state_key key).1

-- `queueRefreshLocked`. The channel `wake` holds one value at most.
unfoldable pub queue_refresh : RuntimeState → Text → Text → RuntimeState
queue_refresh s key reason =
    if may_queue s key reason
    then record s {
      refresh_requests =
          if text_beq (text_at key s.refresh_requests) []
          then insert key reason s.refresh_requests
          else s.refresh_requests;
      wake = true;
    }
    else s

quota_words : List Text
quota_words =
    str "rate_limit"
    ∷ str "usage_limit_reached"
    ∷ str "insufficient_quota"
    ∷ str "too many requests"
    ∷ []

-- `failureRefreshReason`
unfoldable pub failure_refresh_reason : ℤ → Text → Text
unfolding quota_words
failure_refresh_reason status message =
    let lower = to_lower message in
    if int_beq status (pos 429)
    then str "rate_limit"
    else if int_beq status (pos 502) || int_beq status (pos 503) || int_beq status (pos 504)
    then str "upstream_unavailable"
    else if contains lower (str "overload")
    then str "overload"
    else if any (contains lower) quota_words
    then str "rate_limit"
    else []
