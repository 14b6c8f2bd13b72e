-- ===== src/Probe/Auth/Eligible.antt =====
-- Which credential a probe may use.
use cpa_codex_turn_state_plu.Base.{
  ◌≡◌, refl, sym, ap, subst, ◌∙◌, inl, inr, false, not, ◌||◌, Bool-cases, some, List, [], ◌∷◌, Text,
  text_beq, text_beq_iff, str, Result, ok, err, >>=-eq-ok, guard-ok, ok-injective, err_not_ok,
  arith,
}
use cpa_codex_turn_state_plu.Text.{equal_fold}
use cpa_codex_turn_state_plu.Probe.Auth.{
  AuthEntry, ProbeAuth, AuthError, HostAuth, inferred_account_plan, check_auth, of_host, fetch_auth,
  find_auth, selected_probe_auth,
}

-- What is known of a credential that a probe uses.
pub record IsEligible (host : HostAuth) (auth_id : Text) (auth : ProbeAuth) : Type 0 where
  pub entry : AuthEntry
  pub selected : entry.id ≡ auth_id
  pub provider : entry.provider ≡ str "codex"
  pub entry_enabled : entry.disabled ≡ false
  pub entry_direct : entry.base_url ≡ []
  pub paid : equal_fold (inferred_account_plan entry.name entry.account_type) (str "free") ≡ false
  pub given : host.get entry.index ≡ ok auth
  pub kind : auth.kind ≡ str "codex"
  pub enabled : auth.disabled ≡ false
  pub direct : auth.base_url ≡ []
  pub token : text_beq auth.access_token [] ≡ false

of_host-ok : {A : Type 0} (r : Result Text A) (a : A) → of_host r ≡ ok a → r ≡ ok a
of_host-ok (ok b) a h = ap ok (ok-injective {E = AuthError} b a h)
of_host-ok (err e) a h = absurd (err_not_ok h)

same_text : (s t : Text) → not (text_beq s t) ≡ false → s ≡ t
same_text s t h = (text_beq_iff s t).0 (ground (arith, h))

fetch_auth-IsEligible :
    (host : HostAuth) (entry : AuthEntry) (auth : ProbeAuth)
    → fetch_auth host entry ≡ ok auth
    → IsEligible host entry.id auth
unfolding fetch_auth check_auth
fetch_auth-IsEligible host entry auth h =
    let (eligible, h1) =
      guard-ok
        (entry.disabled
          || not (text_beq entry.provider (str "codex"))
          || not (text_beq entry.base_url []))
        AuthError.not_eligible _ h in
    let (paid, h2) =
      guard-ok (equal_fold (inferred_account_plan entry.name entry.account_type) (str "free"))
        AuthError.free_excluded _ h1 in
    let (a, given, h3) = >>=-eq-ok (of_host (host.get entry.index)) check_auth h2 in
    let (usable, h4) =
      guard-ok
        (not (text_beq a.kind (str "codex"))
          || a.disabled
          || not (text_beq a.base_url [])
          || text_beq a.access_token [])
        AuthError.unavailable _ h3 in
    let same : a ≡ auth = ok-injective {E = AuthError} a auth h4 in
    let token : text_beq a.access_token [] ≡ false = ground (arith, usable) in
    record {
      entry = entry;
      selected = refl;
      provider = same_text entry.provider (str "codex") (ground (arith, eligible));
      entry_enabled = ground (arith, eligible);
      entry_direct = same_text entry.base_url [] (ground (arith, eligible));
      paid = paid;
      given = of_host-ok (host.get entry.index) auth (given ∙ ap ok same);
      kind =
          sym (ap (λ (x : ProbeAuth). x.kind) same)
          ∙ same_text a.kind (str "codex") (ground (arith, usable));
      enabled = sym (ap (λ (x : ProbeAuth). x.disabled) same) ∙ ground (arith, usable);
      direct =
          sym (ap (λ (x : ProbeAuth). x.base_url) same)
          ∙ same_text a.base_url [] (ground (arith, usable));
      token = rw same at token;
    }

find_auth-IsEligible :
    (host : HostAuth) (auth_id : Text) (entries : List AuthEntry) (auth : ProbeAuth)
    → find_auth host auth_id entries ≡ ok auth
    → IsEligible host auth_id auth
unfolding find_auth
find_auth-IsEligible host auth_id [] auth h = absurd (err_not_ok h)
find_auth-IsEligible host auth_id (entry ∷ rest) auth h =
    elim (Bool-cases (text_beq entry.id auth_id)) [
      | inr e ↦ find_auth-IsEligible host auth_id rest auth (rw e at h)
      | inl e ↦
          subst (λ k. IsEligible host k auth) ((text_beq_iff entry.id auth_id).0 e)
            (fetch_auth-IsEligible host entry auth (rw e at h))
    ]

-- A probe uses no credential but one that the host lists under the selected identity as an enabled
-- Codex credential without a base URL and not of the free plan, and that the host then hands out as
-- such with a token.
pub selected_probe_auth-IsEligible :
    (host : HostAuth) (auth_id : Text) (auth : ProbeAuth)
    → selected_probe_auth (some host) auth_id ≡ ok auth
    → IsEligible host auth_id auth
unfolding selected_probe_auth
selected_probe_auth-IsEligible host auth_id auth h =
    let (entries, listed, found) = >>=-eq-ok (of_host host.listing) (find_auth host auth_id) h in
    find_auth-IsEligible host auth_id entries auth found
