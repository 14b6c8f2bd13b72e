-- ===== src/Management/Clear.antt =====
-- management.go: `clearAction`. The body of the request stands decoded.
pub mod Exact
use cpa_codex_turn_state_plu.Base.{
  ℕ, ◌+◌, Bool, true, false, not, ◌&&◌, ◌||◌, Option, none, some, List, [], ◌∷◌, ◌++◌, map, ltb,
  nat_beq, if◌then◌else◌, length, Text, text_beq, text_eq, str, Result, ok, err, ◌>>=◌,
}
use cpa_codex_turn_state_plu.Base.Dict.{Dict, keys, lookup}
use cpa_codex_turn_state_plu.Base.Sets.{keys_where, erase_all}
use cpa_codex_turn_state_plu.Clock.{Time}
use cpa_codex_turn_state_plu.Environment.{Environment}
use cpa_codex_turn_state_plu.Text.{trim, to_lower, of_nat}
use cpa_codex_turn_state_plu.Config.{PluginConfig}
use cpa_codex_turn_state_plu.Policy.{credential_for, matches_models, normal_block_count}
use cpa_codex_turn_state_plu.Keys.{split_state_key}
use cpa_codex_turn_state_plu.State.{RuntimeState, StoredState, HistoryEntry}
use cpa_codex_turn_state_plu.Refresh.{turn_state_ttl}
use cpa_codex_turn_state_plu.Request.{clock_tolerance}
use cpa_codex_turn_state_plu.History.{append_history}
use cpa_codex_turn_state_plu.Management.Selection.{
  Selection, selection, is_selective, selects, Target, target,
}

pub data Scope : Type 0 where
  invalid expired everything : Scope

pub record ClearRequest : Type 0 where
  pub scope : Text
  pub all : Bool
  pub accounts : List Text
  pub models : List Text
  pub handles : List Text

pub data ClearError : Type 0 where
  invalid_body bad_scope not_confirmed : ClearError

pub record ClearResult : Type 0 where
  pub removed : List Target
  pub remaining : ℕ

-- The word of the request, in lower case and trimmed; none is "invalid".
unfoldable pub read_scope : Text → Result ClearError Scope
read_scope word =
    let w = to_lower (trim word) in
    if text_beq w [] || text_beq w (str "invalid")
    then ok invalid
    else if text_beq w (str "expired")
    then ok expired
    else if text_beq w (str "all")
    then ok everything
    else err bad_scope

abbrev pub scope_word : Scope → Text
scope_word invalid = str "invalid"
scope_word expired = str "expired"
scope_word everything = str "all"

-- To clear everything takes a confirmation.
unfoldable pub confirmed : ClearRequest → Scope → Result ClearError Scope
confirmed req everything = if req.all then ok everything else err not_confirmed
confirmed req invalid = ok invalid
confirmed req expired = ok expired

unfoldable pub is_expired : Time → StoredState → Bool
is_expired now st = text_beq st.value [] || not (ltb now (st.issued_at + turn_state_ttl))

unfoldable pub is_valid : Time → StoredState → Bool
is_valid now st =
    not (text_beq st.value [])
    && not (ltb (now + clock_tolerance) st.issued_at)
    && ltb now (st.issued_at + turn_state_ttl)

-- The state fits the policy of its credential.
unfoldable pub is_compatible : PluginConfig → Text → StoredState → Bool
is_compatible cfg key st = elim (credential_for cfg (split_state_key key).0) [
  | none ↦ false
  | some policy ↦
      matches_models policy.models ((split_state_key key).1 ∷ [])
      && normal_block_count policy st.blocks
]

-- The `switch` on the scope.
unfoldable pub falls_in : Scope → PluginConfig → Time → Text → StoredState → Bool
falls_in invalid cfg now key st = not (is_valid now st && is_compatible cfg key st)
falls_in expired cfg now key st = is_expired now st
falls_in everything cfg now key st = true

-- The entry is named, if the request names any, and falls in the scope.
unfoldable pub is_doomed :
    Environment → PluginConfig → Time → Scope → Selection → Text → StoredState → Bool
is_doomed env cfg now scope sel key st =
    not (text_beq (split_state_key key).0 [] || text_beq (split_state_key key).1 [])
    && (not (is_selective sel) || selects env sel key)
    && falls_in scope cfg now key st

-- The bookkeeping of a key without a state, if the request names it or names none.
unfoldable pub is_left_over : Environment → Dict Text StoredState → Selection → Text → Text → Bool
is_left_over env current sel key outcome = elim (lookup key current) [
  | some _ ↦ false
  | none ↦ not (is_selective sel) || selects env sel key
]

unfoldable pub clear_entry : Time → Scope → ℕ → HistoryEntry
clear_entry now scope n = record {
  at = now;
  account = [];
  model = [];
  event = str "clear";
  outcome = [];
  reason = scope_word scope;
  detail = str "清理 " ++ (of_nat n ++ str " 个条目");
}

-- The two loops.
unfoldable pub sweep :
    Environment → RuntimeState → Time → Scope → Selection → RuntimeState × List Text
sweep env s now scope sel =
    let removed = keys_where (is_doomed env s.config now scope sel) s.current in
    let current = erase_all removed s.current in
    let forgotten = keys_where (is_left_over env current sel) s.probe_results in
    (
      record s {
        current = current;
        refresh_requests = erase_all forgotten (erase_all removed s.refresh_requests);
        probe_results = erase_all forgotten s.probe_results;
        probe_reasons = erase_all forgotten s.probe_reasons;
        last_probe = erase_all forgotten s.last_probe;
        blocked_until = erase_all forgotten s.blocked_until;
      },
      removed,
    )

-- The section that holds the lock.
unfoldable pub clear_section :
    Environment → RuntimeState → Time → Selection → Scope → RuntimeState × ClearResult
unfolding sweep clear_entry
clear_section env s now sel scope =
    let swept = sweep env s now scope sel in
    let logged =
      if nat_beq (length swept.1) 0
      then swept.0
      else append_history swept.0 (clear_entry now scope (length swept.1)) in
    (
      logged,
      record {
        removed = map (λ key. target env key []) swept.1;
        remaining = length logged.current;
      },
    )

-- `clearAction` up to the write of the file; no request stands for a body that is not JSON.
unfoldable pub clear_action :
    Environment
    → RuntimeState
    → Time
    → Option ClearRequest
    → Result ClearError (RuntimeState × ClearResult)
unfolding clear_section read_scope confirmed
clear_action env s now none = err invalid_body
clear_action env s now (some req) = read_scope req.scope >>= confirmed req >>= λ scope.
    ok (clear_section env s now (selection req.accounts req.models req.handles) scope)
