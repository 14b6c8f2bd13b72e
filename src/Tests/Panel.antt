-- ===== src/Tests/Panel.antt =====
-- The theorems on the panel's actions and the worker at concrete inputs.
use cpa_codex_turn_state_plu.Refresh.Worker.Probed.{IsProbed, refresh_due-IsProbed}
use cpa_codex_turn_state_plu.Refresh.Worker.{refresh_due}
use cpa_codex_turn_state_plu.Request.{drop_previous}
use cpa_codex_turn_state_plu.Policy.{
  credential_for, matches_models, normal_block_count, auto_update_enabled,
}
use cpa_codex_turn_state_plu.Base64.{encode}
use cpa_codex_turn_state_plu.Base.{
  ◌≡◌, ◌≤◌, ◌∷◌, str, text_beq, arith, refl, true, false, not, ◌&&◌, ◌||◌, some, [], ltb, Text,
  text_eq, Result, ok, err,
}
use cpa_codex_turn_state_plu.Base.Dict.{lookup, keys}
use cpa_codex_turn_state_plu.Base.Sets.{member, include_all}
use cpa_codex_turn_state_plu.Text.{to_lower, trim}
use cpa_codex_turn_state_plu.Keys.{state_key, split_state_key}
use cpa_codex_turn_state_plu.State.{RuntimeState, new_runtime_state}
use cpa_codex_turn_state_plu.Refresh.{next_refresh}
use cpa_codex_turn_state_plu.Refresh.Worker.{due_jobs}
use cpa_codex_turn_state_plu.Refresh.Worker.Due.{job_keys, due_jobs-exact}
use cpa_codex_turn_state_plu.Management.Clear.{
  ClearRequest, ClearResult, ClearError, clear_action, read_scope, invalid, is_valid, is_compatible,
}
use cpa_codex_turn_state_plu.Management.Clear.Exact.{IsCarriedOut, clear_action-IsCarriedOut}
use cpa_codex_turn_state_plu.Management.Refresh.{
  RefreshRequest, RefreshResult, RefreshError, refresh_action, known_keys, ruling,
}
use cpa_codex_turn_state_plu.Management.Refresh.Queued.{IsTakenUp, refresh_action-IsTakenUp}
use cpa_codex_turn_state_plu.Tests.Samples.{host, settings, newer, soon, acct, gpt, holding, queued}

abbrev key : Text
key = state_key acct gpt

abbrev tidy : ClearRequest
tidy = record { scope = []; all = false; accounts = []; models = []; handles = [] }

abbrev cleared_of : Result ClearError (RuntimeState × ClearResult) → RuntimeState × ClearResult
cleared_of (ok r) = r
cleared_of (err e) = (new_runtime_state, record { removed = []; remaining = 0 })

abbrev cleared : Result ClearError (RuntimeState × ClearResult)
cleared = clear_action host holding soon (some tidy)

cleared_ok : cleared ≡ ok (cleared_of cleared)
unfolding clear_action to_lower trim
cleared_ok = refl

clear_action-IsCarriedOut_example : IsCarriedOut host holding (cleared_of cleared).0 soon tidy key
unfolding lookup
clear_action-IsCarriedOut_example =
    clear_action-IsCarriedOut host holding soon tidy key (refl, tt) cleared_ok

-- A plugin that runs with a state in its hour.
abbrev alive : RuntimeState
alive = record holding { accepting = true; config = settings }

abbrev spared : Result ClearError (RuntimeState × ClearResult)
spared = clear_action host alive soon (some tidy)

spared_ok : spared ≡ ok (cleared_of spared)
unfolding clear_action to_lower trim
spared_ok = refl

alive_there : lookup key alive.current ≡ some newer
unfolding lookup state_key trim
alive_there = refl

newer_valid : is_valid soon newer ≡ true
unfolding is_valid encode
newer_valid = refl

newer_fits : is_compatible alive.config key newer ≡ true
unfolding is_compatible credential_for lookup split_state_key state_key trim matches_models
    normal_block_count to_lower
newer_fits = refl

unnamed : read_scope tidy.scope ≡ ok invalid
unfolding read_scope to_lower trim
unnamed = refl

abbrev everything : RefreshRequest
everything = record { all = true; accounts = []; models = []; handles = [] }

abbrev refreshed_of :
    Result RefreshError (RuntimeState × RefreshResult) → RuntimeState × RefreshResult
refreshed_of (ok r) = r
refreshed_of (err e) = (new_runtime_state, record { queued_keys = []; skipped_targets = [] })

abbrev refreshed : Result RefreshError (RuntimeState × RefreshResult)
refreshed = refresh_action host alive soon (some everything)

refreshed_ok : refreshed ≡ ok (refreshed_of refreshed)
unfolding refresh_action
refreshed_ok = refl

refreshed_queued : member key (refreshed_of refreshed).1.queued_keys ≡ true
unfolding refresh_action known_keys include_all ruling split_state_key state_key trim credential_for
    lookup auto_update_enabled matches_models
refreshed_queued = refl

refresh_action-IsTakenUp_example :
    IsTakenUp host alive (refreshed_of refreshed).0 soon everything key
refresh_action-IsTakenUp_example =
    refresh_action-IsTakenUp host alive soon everything key refreshed_ok refreshed_queued

due_jobs-exact_example : member key (job_keys (due_jobs queued soon)) ≡ (
    (member key (keys queued.current) || member key (keys queued.refresh_requests))
    && not (ltb soon (next_refresh queued soon key)))
due_jobs-exact_example = due_jobs-exact queued soon key

-- The round that comes to the queued refresh; the probe forgets a request.
abbrev asked_for : RuntimeState
asked_for = record new_runtime_state {
  refresh_requests = (state_key acct gpt, str "rate_limit") ∷ [];
}

queued_due : next_refresh asked_for soon (state_key acct gpt) ≤ soon
unfolding next_refresh state_key trim lookup
queued_due = omega arith

named_well : (text_beq acct [] ≡ false) × (text_beq (trim gpt) [] ≡ false)
unfolding trim
named_well = (refl, refl)

queued_watched :
    (member (state_key acct gpt) (keys asked_for.current)
      || member (state_key acct gpt) (keys asked_for.refresh_requests))
    ≡ true
unfolding state_key trim
queued_watched = ground arith

refresh_due-IsProbed_example :
    IsProbed
      (λ s id _. drop_previous s id)
      asked_for
      (refresh_due (λ s id _. drop_previous s id) (λ _. true) asked_for soon)
      soon
      acct
      gpt
refresh_due-IsProbed_example =
    refresh_due-IsProbed (λ s id _. drop_previous s id) (λ _. true) asked_for soon acct gpt
      (λ _. refl) named_well.0 named_well.1 queued_watched queued_due
