-- ===== src/System/Stale.antt =====
-- What a probe may still do after the configuration that it started under has been replaced.
use cpa_codex_turn_state_plu.Base.{
  ℕ, ◌+◌, ◌++◌, ◌≤◌, ◌≡◌, refl, ◌∙◌, sym, ap, subst, true, false, Option, List, ◌∷◌, nat_beq, Text,
  arith, All-middle, ok, inl, inr, Bool-cases, Option-cases, text_beq, str,
}
use cpa_codex_turn_state_plu.Clock.{Time}
use cpa_codex_turn_state_plu.Environment.{Environment}
use cpa_codex_turn_state_plu.State.{RuntimeState, StoredState}
use cpa_codex_turn_state_plu.Request.{usable_state}
use cpa_codex_turn_state_plu.Probe.{
  ProbeJob, attempt, finish_probe, account_level_probe_failure, proxy_level_probe_failure,
}
use cpa_codex_turn_state_plu.Lifecycle.{Document, configure, set_accepting, shutdown}
use cpa_codex_turn_state_plu.Lifecycle.Persisted.{StateFile}
use cpa_codex_turn_state_plu.Management.Selection.{selection}
use cpa_codex_turn_state_plu.System.Configured.{configure-install, install-generation}
use cpa_codex_turn_state_plu.System.Actions.{clear_action-section, clear_section-still}
use cpa_codex_turn_state_plu.System.Steps.{
  Flight, System, on, Step, Steps, Reach, running, configure_step, clear_step, accepting_step,
  shutdown_step, stay, followed,
}
use cpa_codex_turn_state_plu.System.Reachable.{InStep, Reach-IsConsistent}
use cpa_codex_turn_state_plu.System.Outcomes.{Running-Advance}

-- Only the backoff of accounts and that of entries of the proxy pool may differ.
abbrev pub KeepsAllButBackoff : RuntimeState → RuntimeState → Type 0
KeepsAllButBackoff s t = t ≡ record s {
  account_blocked_until = t.account_blocked_until;
  proxy_blocked_until = t.proxy_blocked_until;
}

configure-generation :
    (env : Environment) (s : RuntimeState) (schema : ℕ) (doc : Document) (file : StateFile)
    {t : RuntimeState}
    → configure env s schema doc file ≡ ok t
    → t.generation ≡ s.generation + 1
configure-generation env s schema doc file h =
    let (p, prepared, same) = configure-install env s schema doc file h in
    sym (ap (λ r. r.generation) same) ∙ install-generation s p.0 p.1

module _ (env : Environment) where
  Step-generation : {x y : System} → Step env x y → x.state.generation ≤ y.state.generation
  unfolding set_accepting shutdown
  Step-generation (running r) =
      let kept = (Running-Advance env r).same_generation in omega (arith, kept)
  Step-generation (configure_step {s} {t} {fs} schema doc file u h) =
      let grown = configure-generation env s schema doc file h in omega (arith, grown)
  Step-generation (clear_step {s} {fs} now req h) =
      let (scope, same) = clear_action-section env s now req h in
      let kept =
        (clear_section-still env s now (selection req.accounts req.models req.handles) scope).1 in
      subst (λ r. s.generation ≤ r.0.generation) same (omega (arith, kept))
  Step-generation (accepting_step true) = omega arith
  Step-generation (accepting_step false) = omega arith
  Step-generation shutdown_step = omega arith

  Steps-generation : {x y : System} → Steps env x y → x.state.generation ≤ y.state.generation
  Steps-generation stay = omega arith
  Steps-generation (followed step rest) = omega (arith, Step-generation step, Steps-generation rest)

attempt-KeepsAllButBackoff :
    (s : RuntimeState) (job : ProbeJob) (index : ℕ) (at : Time) (value status : Text)
    → KeepsAllButBackoff s (attempt s job index at value status).0
unfolding attempt
attempt-KeepsAllButBackoff s job index at value status =
    elim (Bool-cases (text_beq status (str "ok"))) [
      | inl good ↦ elim (Option-cases (usable_state job.config job.policy job.started value)) [
        | inl bad ↦ rw (good, bad) refl
        | inr (st, fine) ↦ rw (good, fine) refl
      ]
      | inr failed ↦ elim (Bool-cases (account_level_probe_failure status)) [
        | inl account ↦ rw (failed, account) refl
        | inr no_account ↦ elim (Bool-cases (proxy_level_probe_failure status)) [
          | inl proxy ↦ rw (failed, no_account, proxy) refl
          | inr no_proxy ↦ rw (failed, no_account, no_proxy) refl
        ]
      ]
    ]

-- After a configuration was installed while a probe was in flight, and whatever happened since, the
-- last section of this probe changes nothing and writes no file, with any outcome and candidate; an
-- attempt of this probe changes no more than the two maps of backoffs, of the accounts and of the
-- entries of the proxy pool.
pub finish_probe-configure :
    (env : Environment) (s : RuntimeState) (before after fs : List Flight) (f : Flight) (schema : ℕ)
    (doc : Document) (file : StateFile) {t : RuntimeState} {y : System}
    → Reach env (on s (before ++ f ∷ after))
    → configure env s schema doc file ≡ ok t
    → Steps env (on t fs) y
    → ((now : Time) (outcome : Text) (candidate : Option StoredState)
        → finish_probe env y.state f.job now outcome candidate ≡ (y.state, false))
      × ((index : ℕ) (at : Time) (value status : Text)
          → KeepsAllButBackoff y.state (attempt y.state f.job index at value status).0)
unfolding finish_probe
finish_probe-configure env s before after fs f schema doc file {t} {y} reach h steps =
    let consistent = Reach-IsConsistent env reach in
    let older = (All-middle (InStep s.config s.generation) before after f consistent.flying).past in
    let grown = configure-generation env s schema doc file h in
    let later = Steps-generation env steps in
    let other : nat_beq f.job.generation y.state.generation ≡ false =
      ground (arith, older, grown, later) in
    (λ now outcome candidate. rw other refl, attempt-KeepsAllButBackoff y.state f.job)
