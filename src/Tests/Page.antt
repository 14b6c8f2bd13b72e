-- ===== src/Tests/Page.antt =====
-- The theorems on the view of the panel at concrete inputs.
use cpa_codex_turn_state_plu.Base.{◌≡◌, refl, false, not, ◌&&◌, [], ◌∷◌, text_eq}
use cpa_codex_turn_state_plu.Base.Dict.{lookup}
use cpa_codex_turn_state_plu.Base.Sets.{IsDistinct}
use cpa_codex_turn_state_plu.Keys.{state_key}
use cpa_codex_turn_state_plu.State.{RuntimeState}
use cpa_codex_turn_state_plu.Management.Clear.{invalid, falls_in}
use cpa_codex_turn_state_plu.Management.Status.{status_payload}
use cpa_codex_turn_state_plu.Management.Status.Entry.{entry_view, snapshot}
use cpa_codex_turn_state_plu.Management.Status.Counted.{AreCounted, status_payload-AreCounted}
use cpa_codex_turn_state_plu.Management.Status.Listed.{IsListing, status_payload-IsListing}
use cpa_codex_turn_state_plu.Management.Status.Private.{without_values, status_payload-masked}
use cpa_codex_turn_state_plu.Management.Status.Agreed.{falls_in-entry_view}
use cpa_codex_turn_state_plu.Tests.Samples.{
  host, acct, gpt, soon, late, queued, holding, newer, kept_there,
}

status_payload-AreCounted_example :
    (let v = status_payload host queued soon [] false in AreCounted v.entries v.counters)
status_payload-AreCounted_example = status_payload-AreCounted host queued soon [] false

-- A queued refresh in a backoff that has not ended.
abbrev backing : RuntimeState
backing = record queued { blocked_until = (state_key acct gpt, late) ∷ [] }

backing-IsDistinct : IsDistinct backing.blocked_until
unfolding lookup
backing-IsDistinct = (refl, tt)

status_payload-IsListing_example :
    IsListing host backing soon [] false (status_payload host backing soon [] false).entries
status_payload-IsListing_example =
    status_payload-IsListing host backing soon [] false backing-IsDistinct

status_payload-masked_example :
    status_payload host (without_values queued) soon [] false
    ≡ status_payload host queued soon [] false
status_payload-masked_example = status_payload-masked host queued soon [] false

falls_in-entry_view_example :
    (let e =
        entry_view host holding.config soon [] [] (snapshot holding soon (state_key acct gpt)) in
      falls_in invalid holding.config soon (state_key acct gpt) newer
      ≡ not (e.valid && e.managed && e.in_scope_model && e.compatible))
falls_in-entry_view_example =
    falls_in-entry_view host holding soon [] [] (state_key acct gpt) newer kept_there
