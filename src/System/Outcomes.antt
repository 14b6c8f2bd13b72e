-- ===== src/System/Outcomes.antt =====
-- What a step of the running plugin may do, and what a request and a probe may get out of it.
use cpa_codex_turn_state_plu.Base.{
  ◌+◌, ◌≤◌, ◌<◌, ◌≡◌, refl, ◌∙◌, sym, ap, ◌⊎◌, inl, inr, true, false, not, ◌&&◌, Option, none, some,
  List, [], ◌∷◌, if◌then◌else◌, Bool-cases, Option-cases, Text, text_beq, text_eq, arith,
  some-injective, guard-some, and_then-some,
}
use cpa_codex_turn_state_plu.Base.Dict.{Dict, lookup, Each-lookup}
use cpa_codex_turn_state_plu.Clock.{Time}
use cpa_codex_turn_state_plu.Environment.{Environment}
use cpa_codex_turn_state_plu.Config.{PluginConfig, CredentialConfig, enabled_by_default}
use cpa_codex_turn_state_plu.Policy.{
  auto_update_enabled, credential_for, is_free_plan, matches_models,
}
use cpa_codex_turn_state_plu.Keys.{state_key}
use cpa_codex_turn_state_plu.State.{RuntimeState, StoredState, flag_at}
use cpa_codex_turn_state_plu.Refresh.{turn_state_ttl}
use cpa_codex_turn_state_plu.Request.{
  InterceptRequest, InterceptResponse, turn_state_header, clock_tolerance, untouched, cleared,
  injected, is_injectable, inject, bind_request, request_policy, answer,
}
use cpa_codex_turn_state_plu.System.Sound.{IsGenuine}
use cpa_codex_turn_state_plu.System.Probes.{begin_probe-claim}
use cpa_codex_turn_state_plu.System.Advance.{
  Advance, still, drop_previous-Advance, answer-Advance, capture_candidate-Advance,
  complete-Advance, observe_stream_failure-Advance, claim-Advance, attempt-Advance,
  finish_probe-Advance,
}
use cpa_codex_turn_state_plu.Management.Selection.{selection}
use cpa_codex_turn_state_plu.System.Actions.{refresh_action-section, refresh_section-Advance}
use cpa_codex_turn_state_plu.Management.Accounts.{with_accounts}
use cpa_codex_turn_state_plu.Refresh.Loop.{take_wake}
use cpa_codex_turn_state_plu.Persist.Callers.{note_persist_failed}
use cpa_codex_turn_state_plu.System.Steps.{
  System, on, Running, Reach, drop_step, answer_step, capture_step, observe_step, complete_step,
  launch_step, attempt_step, land_step, refresh_step, unsaved_step, wake_step, asked_step,
  listed_step,
}
use cpa_codex_turn_state_plu.System.Reachable.{Reach-IsConsistent}

-- A step of the running plugin leaves the configuration and its generation alone, and refines the
-- abstract cache, a function from keys to states: whatever the step, the cache changes only by states
-- put in the place of a key's, none of which was issued before the one that its key held.
pub Running-Advance : (env : Environment) {x y : System} → Running env x y → Advance x.state y.state
unfolding note_persist_failed take_wake
Running-Advance env (drop_step {s} {fs} id) = drop_previous-Advance s id
Running-Advance env (answer_step {s} {fs} now req auth_id model) =
    answer-Advance s now req auth_id model
Running-Advance env (capture_step {s} {fs} now id headers) =
    capture_candidate-Advance s now id headers
Running-Advance env (observe_step {s} {fs} id chunk) = observe_stream_failure-Advance s id chunk
Running-Advance env (complete_step {s} {fs} now done) = complete-Advance s now done
Running-Advance env (launch_step {s} {t} {fs} {job} now auth_id model h) =
    let (policy, found, free, claimed) = begin_probe-claim s now auth_id model h in
    rw (sym (ap (λ r. r.0) claimed)) (claim-Advance s now auth_id model policy)
Running-Advance env (attempt_step {s} before after f index at value status) =
    attempt-Advance s f.job index at value status
Running-Advance env (land_step {s} before after f now) =
    finish_probe-Advance env s f.job now f.outcome f.candidate
Running-Advance env (refresh_step {s} {fs} now req h) =
    rw (sym (ap (λ r. r.0) (refresh_action-section env s now req h)))
      (refresh_section-Advance env s now req.all (selection req.accounts req.models req.handles))
Running-Advance env (unsaved_step {s} {fs} key) = still s (note_persist_failed s key) refl refl refl
Running-Advance env (wake_step {s} {fs}) = still s (take_wake s) refl refl refl
Running-Advance env (asked_step {s} {fs} {cache} now h) =
    still s (with_accounts s cache) refl refl refl
Running-Advance env (listed_step {s} {fs} now listing) = still s (with_accounts s _) refl refl refl

-- What the plugin may put into the header of a request.
pub record IsPermitted (s : RuntimeState) (now : Time) (req : InterceptRequest)
    (auth_id model value : Text) : Type 0 where
  pub accepting : s.accepting ≡ true
  pub policy : CredentialConfig
  pub configured : credential_for s.config auth_id ≡ some policy
  pub paid : is_free_plan policy.plan ≡ false
  pub in_scope : matches_models policy.models (req.model ∷ req.requested_model ∷ []) ≡ true
  pub st : StoredState
  pub cached : lookup (state_key auth_id model) s.current ≡ some st
  pub the_value : st.value ≡ value
  pub genuine : IsGenuine s.config (state_key auth_id model) st
  pub not_future : st.issued_at ≤ now + clock_tolerance
  pub not_expired : (s.config.inject_expired ≡ true) ⊎ (now < st.issued_at + turn_state_ttl)
  pub flagged :
      (enabled_by_default s.config.inject_on_errors_only ≡ false)
      ⊎ (flag_at (state_key auth_id model) s.force_inject ≡ true)

request_policy-facts :
    (cfg : PluginConfig) (req : InterceptRequest) (auth_id : Text) {c : CredentialConfig}
    → request_policy cfg req auth_id ≡ some c
    → (credential_for cfg auth_id ≡ some c)
      × (is_free_plan c.plan ≡ false)
      × (matches_models c.models (req.model ∷ req.requested_model ∷ []) ≡ true)
unfolding request_policy
request_policy-facts cfg req auth_id {c} h =
    let (p, found, rest) = and_then-some (credential_for cfg auth_id) _ h in
    let (tests, same) = guard-some _ _ rest in
    let p-c : p ≡ c = some-injective p c same in rw (sym p-c) (found, ground arith, ground arith)

first_of : InterceptResponse → Text
first_of r = value_of r.headers
  where
    value_of : Dict Text (List Text) → Text
    value_of ((h, v ∷ vs) ∷ rest) = v
    value_of _ = []

injected_value : (v w : Text) → injected v ≡ injected w → v ≡ w
unfolding first_of
injected_value v w h = ap first_of h

cleared_not_injected : (v : Text) → ¬ (cleared ≡ injected v)
cleared_not_injected v h = nil_not_cons (sym (ap (λ r. r.clear_headers) h))
  where
    nil_not_cons : ¬ (◌≡◌ {A = List Text} [] (turn_state_header ∷ []))
    nil_not_cons h = cc

-- An injection takes the cached state of the key, past the tests on its age and its flag.
inject-value :
    (s : RuntimeState) (now : Time) (key value : Text)
    → inject s now key ≡ injected value
    → (st : StoredState) × (lookup key s.current ≡ some st)
      × (st.value ≡ value)
      × (is_injectable s now st ≡ true)
      × ((enabled_by_default s.config.inject_on_errors_only ≡ false)
          ⊎ (flag_at key s.force_inject ≡ true))
unfolding inject
inject-value s now key value h = go (lookup key s.current) refl h
  where
    go :
        (o : Option StoredState)
        → lookup key s.current ≡ o
        → (elim o [
          | none ↦ cleared
          | some st ↦
              if not (is_injectable s now st)
              then cleared
              else if enabled_by_default s.config.inject_on_errors_only
                  && not (flag_at key s.force_inject)
              then cleared
              else injected st.value
        ])
          ≡ injected value
        → (st : StoredState) × (lookup key s.current ≡ some st)
          × (st.value ≡ value)
          × (is_injectable s now st ≡ true)
          × ((enabled_by_default s.config.inject_on_errors_only ≡ false)
              ⊎ (flag_at key s.force_inject ≡ true))
    go none e k = absurd (cleared_not_injected value k)
    go (some st) e k = elim (Bool-cases (is_injectable s now st)) [
      | inr h ↦ absurd (cleared_not_injected value (rw h at k))
      | inl h ↦
          elim (Bool-cases (
            enabled_by_default s.config.inject_on_errors_only
            && not (flag_at key s.force_inject))) [
              | inl l ↦ absurd (cleared_not_injected value (rw (h, l) at k))
              | inr l ↦
                  (st, e, injected_value st.value value (rw (h, l) at k), h, ground (arith, l))
            ]
    ]

is_injectable-facts :
    (s : RuntimeState) (now : Time) (st : StoredState)
    → is_injectable s now st ≡ true
    → (st.issued_at ≤ now + clock_tolerance)
      × ((s.config.inject_expired ≡ true) ⊎ (now < st.issued_at + turn_state_ttl))
unfolding is_injectable
is_injectable-facts s now st h = (ground (arith, h), ground (arith, h))

bind_request-inject :
    (s : RuntimeState) (now : Time) (req : InterceptRequest) (c : CredentialConfig)
    (auth_id key : Text)
    → inject (bind_request s req c auth_id key) now key ≡ inject s now key
unfolding bind_request inject is_injectable
bind_request-inject s now req c auth_id key =
    elim (Bool-cases (not (text_beq req.request_id []) && auto_update_enabled s.config c)) [
      | inl h ↦ rw h refl
      | inr h ↦ rw h refl
    ]

untouched_not_injected : (v : Text) → ¬ (untouched ≡ injected v)
untouched_not_injected v h = nil_not_cons (ap (λ r. r.headers) h)
  where
    nil_not_cons : ¬ (◌≡◌ {A = Dict Text (List Text)} [] ((turn_state_header, v ∷ []) ∷ []))
    nil_not_cons h = cc

-- In a state that the plugin can reach, a request gets the header only while the plugin accepts
-- requests, for a credential that is configured and not free, and a model in its scope; the value is
-- that of the cached state of this credential and model, which is genuine, not from the future, not
-- expired unless the configuration allows that, and flagged if states are injected on errors only.
pub answer-IsPermitted :
    (env : Environment) {x : System} (now : Time) (req : InterceptRequest)
    (auth_id model value : Text)
    → Reach env x
    → (answer x.state now req auth_id model).1 ≡ injected value
    → IsPermitted x.state now req auth_id model value
unfolding answer
answer-IsPermitted env {x} now req auth_id model value reach h =
    elim (Bool-cases x.state.accepting) [
      | inr off ↦ absurd (untouched_not_injected value (rw off at h))
      | inl on ↦ elim (Option-cases (request_policy x.state.config req auth_id)) [
        | inl e ↦ absurd (untouched_not_injected value (rw (e, answer) at (rw on at h)))
        | inr (c, e) ↦
            let key = state_key auth_id model in
            let given : inject (bind_request x.state req c auth_id key) now key ≡ injected value =
              rw (e, answer) at (rw on at h) in
            let (configured, paid, in_scope) = request_policy-facts x.state.config req auth_id e in
            let (st, cached, the_value, injectable, flagged) =
              inject-value x.state now key value
                (sym (bind_request-inject x.state now req c auth_id key) ∙ given) in
            let (not_future, not_expired) = is_injectable-facts x.state now st injectable in
            record {
              accepting = on;
              policy = c;
              configured = configured;
              paid = paid;
              in_scope = in_scope;
              st = st;
              cached = cached;
              the_value = the_value;
              genuine =
                  Each-lookup (IsGenuine x.state.config) key x.state.current
                    (Reach-IsConsistent env reach).sound.genuine cached;
              not_future = not_future;
              not_expired = not_expired;
              flagged = flagged;
            }
      ]
    ]
