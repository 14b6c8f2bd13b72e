-- ===== src/Management/Refresh.antt =====
-- management.go: `refreshAction`. The body of the request stands decoded.
pub mod Queued
use cpa_codex_turn_state_plu.Base.{
  ℕ, ◌+◌, Bool, true, false, not, ◌&&◌, ◌||◌, Option, none, some, List, [], ◌∷◌, ◌++◌, map, ltb,
  nat_beq, if◌then◌else◌, length, Text, text_beq, text_eq, str, Result, ok, err,
}
use cpa_codex_turn_state_plu.Base.Dict.{Dict, keys, lookup, insert}
use cpa_codex_turn_state_plu.Base.Sets.{include_all}
use cpa_codex_turn_state_plu.Clock.{Time, seconds}
use cpa_codex_turn_state_plu.Environment.{Environment}
use cpa_codex_turn_state_plu.Text.{of_nat}
use cpa_codex_turn_state_plu.Config.{CredentialConfig, PluginConfig}
use cpa_codex_turn_state_plu.Policy.{credential_for, auto_update_enabled, matches_models}
use cpa_codex_turn_state_plu.Keys.{split_state_key}
use cpa_codex_turn_state_plu.State.{RuntimeState, HistoryEntry, text_at, time_at, flag_at}
use cpa_codex_turn_state_plu.History.{append_history}
use cpa_codex_turn_state_plu.Management.Selection.{Selection, selection, selects, Target, target}

pub record RefreshRequest : Type 0 where
  pub all : Bool
  pub accounts : List Text
  pub models : List Text
  pub handles : List Text

pub data RefreshError : Type 0 where
  invalid_body quiesced probe_disabled : RefreshError

-- What becomes of a candidate.
pub data Ruling : Type 0 where
  passed_over : Ruling
  skipped : Text → Ruling
  queued : Ruling

-- The cases of the `switch` behind the selection.
unfoldable pub judge : RuntimeState → Time → Text → CredentialConfig → Ruling
judge s now key policy =
    if text_beq (text_at key s.probe_results) (str "auth_unavailable")
    then skipped (str "unprobeable")
    else if not (auto_update_enabled s.config policy)
    then skipped (str "out_of_scope")
    else if not (matches_models policy.models ((split_state_key key).1 ∷ []))
    then skipped (str "out_of_scope")
    else if flag_at key s.probing
    then skipped (str "in_flight")
    else if ltb now (time_at key s.blocked_until)
    then skipped (str "quota_backoff")
    else if ltb now (time_at key s.last_probe + seconds s.config.probe.retry_seconds)
    then skipped (str "cooldown")
    else queued

-- A key whose credential has no policy, or that is not selected, is passed over.
unfoldable pub judged :
    Environment → RuntimeState → Time → Bool → Selection → Text → Option CredentialConfig → Ruling
unfolding judge
judged env s now all sel key none = passed_over
judged env s now all sel key (some policy) =
    if not all && not (selects env sel key) then passed_over else judge s now key policy

-- One round of the loop, as far as it reads the state.
unfoldable pub ruling : Environment → RuntimeState → Time → Bool → Selection → Text → Ruling
unfolding judged
ruling env s now all sel key =
    if text_beq (split_state_key key).0 [] || text_beq (split_state_key key).1 []
    then passed_over
    else judged env s now all sel key (credential_for s.config (split_state_key key).0)

-- The keys with a state, a result or a probe.
unfoldable pub known_keys : RuntimeState → List Text
known_keys s =
    include_all (keys s.current)
      (include_all (keys s.probe_results) (include_all (keys s.probing) []))

pub record RefreshResult : Type 0 where
  pub queued_keys : List Text
  pub skipped_targets : List Target

-- The results that one ruling adds.
unfoldable pub noted : Environment → Text → Ruling → RefreshResult → RefreshResult
noted env key passed_over r = r
noted env key (skipped reason) r = record r {
  skipped_targets = target env key reason ∷ r.skipped_targets;
}
noted env key queued r = record r { queued_keys = key ∷ r.queued_keys }

-- The loop over the candidates.
unfoldable pub review :
    Environment → RuntimeState → Time → Bool → Selection → List Text → RefreshResult
unfolding noted
review env s now all sel [] = record { queued_keys = []; skipped_targets = [] }
review env s now all sel (key ∷ rest) =
    noted env key (ruling env s now all sel key) (review env s now all sel rest)

-- The writes of the loop.
unfoldable pub mark_manual : List Text → RuntimeState → RuntimeState
mark_manual [] s = s
mark_manual (key ∷ rest) s =
    let marked = mark_manual rest s in
    record marked {
      refresh_requests = insert key (str "manual") marked.refresh_requests;
      probe_reasons = insert key (str "manual") marked.probe_reasons;
    }

unfoldable pub manual_entry : Time → ℕ → HistoryEntry
manual_entry now n = record {
  at = now;
  account = [];
  model = [];
  event = str "manual_refresh";
  outcome = [];
  reason = str "manual";
  detail = str "排队 " ++ (of_nat n ++ str " 个条目");
}

-- The section that holds the lock, and the wake of the worker.
unfoldable pub refresh_section :
    Environment → RuntimeState → Time → Bool → Selection → RuntimeState × RefreshResult
unfolding review mark_manual manual_entry
refresh_section env s now all sel =
    let result = review env s now all sel (known_keys s) in
    let marked = mark_manual result.queued_keys s in
    let logged =
      if nat_beq (length result.queued_keys) 0
      then marked
      else append_history marked (manual_entry now (length result.queued_keys)) in
    (record logged { wake = logged.wake || logged.has_worker }, result)

-- `refreshAction` up to its goroutine; no request stands for a body that is not JSON.
unfoldable pub refresh_action :
    Environment
    → RuntimeState
    → Time
    → Option RefreshRequest
    → Result RefreshError (RuntimeState × RefreshResult)
unfolding refresh_section
refresh_action env s now none = err invalid_body
refresh_action env s now (some req) =
    if not s.accepting
    then err quiesced
    else if not s.config.probe.enabled
    then err probe_disabled
    else ok (refresh_section env s now req.all (selection req.accounts req.models req.handles))

-- The goroutine that probes the queued keys if there is no worker: `probe` is what `ensureProbe` and
-- whatever runs beside it make of the state.
unfoldable pub start_queued :
    (RuntimeState → Text → Text → RuntimeState) → List Text → RuntimeState → RuntimeState
start_queued probe [] s = s
start_queued probe (key ∷ rest) s =
    let (auth_id, model) = split_state_key key in
    let next = if text_beq auth_id [] || text_beq model [] then s else probe s auth_id model in
    start_queued probe rest next
