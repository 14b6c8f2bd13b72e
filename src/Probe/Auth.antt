-- ===== src/Probe/Auth.antt =====
-- probe.go: `selectedProbeAuth`, and management.go: `inferredAccountPlan`. The answers of the host are
-- arguments.
pub mod Eligible
use cpa_codex_turn_state_plu.Base.{
  ℕ, ◌≡◌, refl, sym, ap, ◌∙◌, inl, inr, Bool, true, false, not, ◌&&◌, ◌||◌, Bool-cases, Option,
  none, some, List, [], ◌∷◌, ◌++◌, if◌then◌else◌, Text, text_beq, text_beq_iff, str, Result, ok,
  err, ◌>>=◌, >>=-eq-ok, guard-ok, ok-injective, err_not_ok, arith,
}
use cpa_codex_turn_state_plu.Base.Sets.{member}
use cpa_codex_turn_state_plu.Text.{trim, to_lower, contains, equal_fold}

-- An entry of the host's listing.
pub record AuthEntry : Type 0 where
  pub id : Text
  pub index : Text
  pub provider : Text
  pub name : Text
  pub account_type : Text
  pub disabled : Bool
  pub base_url : Text

pub record ProbeAuth : Type 0 where
  pub access_token : Text
  pub account_id : Text
  pub kind : Text
  pub base_url : Text
  pub disabled : Bool

pub data AuthError : Type 0 where
  no_host not_eligible free_excluded unavailable not_found : AuthError
  host_failed : Text → AuthError

-- `host.auth.list` and `host.auth.get`, with their errors.
pub record HostAuth : Type 0 where
  pub listing : Result Text (List AuthEntry)
  pub get : Text → Result Text ProbeAuth

-- The first plan whose word follows a dash, an underscore or a blank.
first_plan : Text → List Text → Text
first_plan value [] = []
first_plan value (plan ∷ plans) =
    let later = first_plan value plans in
    if contains value (b'-' ∷ plan) || contains value (b'_' ∷ plan) || contains value (b' ' ∷ plan)
    then plan
    else later

-- `inferredAccountPlan`
unfoldable pub inferred_account_plan : Text → Text → Text
unfolding first_plan
inferred_account_plan name account_type =
    first_plan (to_lower (trim (name ++ b' ' ∷ account_type)))
      (str "free" ∷ str "plus" ∷ str "team" ∷ str "pro" ∷ [])

-- The credential that the host returned, if the probe may use it.
unfoldable pub check_auth : ProbeAuth → Result AuthError ProbeAuth
check_auth auth =
    if not (text_beq auth.kind (str "codex"))
      || auth.disabled
      || not (text_beq auth.base_url [])
      || text_beq auth.access_token []
    then err unavailable
    else ok auth

-- An error of the host.
abbrev pub of_host {ℓ} : {A : Type ℓ} → Result Text A → Result AuthError A
of_host (err e) = err (host_failed e)
of_host (ok a) = ok a

-- The checks on the entry of the credential, and the call for its token.
unfoldable pub fetch_auth : HostAuth → AuthEntry → Result AuthError ProbeAuth
unfolding check_auth
fetch_auth host entry =
    if entry.disabled
      || not (text_beq entry.provider (str "codex"))
      || not (text_beq entry.base_url [])
    then err not_eligible
    else if equal_fold (inferred_account_plan entry.name entry.account_type) (str "free")
    then err free_excluded
    else of_host (host.get entry.index) >>= check_auth

-- The loop over the entries.
unfoldable pub find_auth : HostAuth → Text → List AuthEntry → Result AuthError ProbeAuth
unfolding fetch_auth
find_auth host auth_id [] = err not_found
find_auth host auth_id (entry ∷ rest) =
    let later = find_auth host auth_id rest in
    if not (text_beq entry.id auth_id) then later else fetch_auth host entry

-- `selectedProbeAuth`
unfoldable pub selected_probe_auth : Option HostAuth → Text → Result AuthError ProbeAuth
unfolding find_auth
selected_probe_auth none auth_id = err no_host
selected_probe_auth (some host) auth_id = of_host host.listing >>= find_auth host auth_id
