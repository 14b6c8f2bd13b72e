-- ===== src/System/SingleFlight.antt =====
-- At most one probe per key, and at most four keys that are probed.
use cpa_codex_turn_state_plu.Base.{
  ◌++◌, ◌≤◌, ◌<◌, ◌≡◌, refl, ap, subst, inl, inr, true, false, List, [], ◌∷◌, get_or, nat_beq,
  nat_beq_iff, length, Bool-cases, Text, text_eq, arith,
}
use cpa_codex_turn_state_plu.Base.Dict.{erase, lookup_inserted, length-insert, length-erase}
use cpa_codex_turn_state_plu.Clock.{Time}
use cpa_codex_turn_state_plu.Environment.{Environment}
use cpa_codex_turn_state_plu.Config.{CredentialConfig}
use cpa_codex_turn_state_plu.Keys.{state_key}
use cpa_codex_turn_state_plu.State.{RuntimeState, flag_at}
use cpa_codex_turn_state_plu.Probe.{ProbeJob, probe_slots, claim, attempt, finish_probe}
use cpa_codex_turn_state_plu.Lifecycle.{install, set_accepting, shutdown}
use cpa_codex_turn_state_plu.System.Probes.{begin_probe-claim, probe_policy-facts}
use cpa_codex_turn_state_plu.System.Configured.{configure-install}
use cpa_codex_turn_state_plu.System.Marks.{
  drop_previous-probing, answer-probing, capture_candidate-probing, complete-probing,
  observe_stream_failure-probing, attempt-probing, finish_probe-probing,
}
use cpa_codex_turn_state_plu.System.Advance.{
  drop_previous-Advance, answer-Advance, capture_candidate-Advance, complete-Advance,
  observe_stream_failure-Advance, attempt-Advance, finish_probe-Advance,
}
use cpa_codex_turn_state_plu.System.Actions.{
  refresh_action-section, clear_action-section, refresh_section-Advance, refresh_section-probing,
  clear_section-still,
}
use cpa_codex_turn_state_plu.Management.Clear.{clear_section}
use cpa_codex_turn_state_plu.Management.Selection.{selection}
use cpa_codex_turn_state_plu.Management.Accounts.{with_accounts}
use cpa_codex_turn_state_plu.Refresh.Loop.{take_wake}
use cpa_codex_turn_state_plu.Persist.Callers.{note_persist_failed}
use cpa_codex_turn_state_plu.System.Steps.{
  Flight, launched, attempted, System, on, Running, Step, Reach, drop_step, answer_step,
  capture_step, observe_step, complete_step, launch_step, attempt_step, land_step, running,
  configure_step, accepting_step, shutdown_step, loaded, next, refresh_step, clear_step,
  unsaved_step, wake_step, asked_step, listed_step,
}
use cpa_codex_turn_state_plu.System.Reachable.{IsConsistent, Reach-IsConsistent}
use cpa_codex_turn_state_plu.System.Exclusive.{
  IsExclusive, marked, marked-Apart, land_marked, land_unmarked, relabel, stale,
}

-- The marks, and how many keys are marked.
pub record IsSingle (x : System) : Type 0 where
  pub exclusive : IsExclusive x.state.generation x.state.probing x.flights
  pub few : length x.state.probing ≤ probe_slots

-- A section that leaves the marks alone.
unmarked :
    (s t : RuntimeState) (fs : List Flight)
    → t.generation ≡ s.generation
    → t.probing ≡ s.probing
    → IsSingle (on s fs)
    → IsSingle (on t fs)
unmarked s t fs g p h = record { exclusive = rw (g, p) h.exclusive; few = rw p h.few }

launch-IsSingle :
    (s : RuntimeState) (fs : List Flight) (now : Time) (auth_id model : Text)
    (policy : CredentialConfig)
    → flag_at (state_key auth_id model) s.probing ≡ false
    → length s.probing < probe_slots
    → IsSingle (on s fs)
    → (let r = claim s now auth_id model policy in IsSingle (on r.0 (launched r.1 ∷ fs)))
unfolding claim
launch-IsSingle s fs now auth_id model policy free slot h =
    let key = state_key auth_id model in
    record {
      exclusive = (
        λ _. (
          ap (λ o. get_or o false) (lookup_inserted key true s.probing),
          marked-Apart s.generation (launched (claim s now auth_id model policy).1) s.probing fs
              free h.exclusive,
        ),
        marked s.generation key s.probing fs free h.exclusive,
      );
      few = omega (arith, slot, length-insert key true s.probing);
    }

land-IsSingle :
    (env : Environment) (s : RuntimeState) (before after : List Flight) (f : Flight) (now : Time)
    → IsSingle (on s (before ++ f ∷ after))
    → IsSingle (on (finish_probe env s f.job now f.outcome f.candidate).0 (before ++ after))
land-IsSingle env s before after f now h =
    let t = (finish_probe env s f.job now f.outcome f.candidate).0 in
    let same = (finish_probe-Advance env s f.job now f.outcome f.candidate).same_generation in
    let marks = finish_probe-probing env s f.job now f.outcome f.candidate in
    elim (Bool-cases (nat_beq f.job.generation s.generation)) [
      | inl e ↦
          let erased : t.probing ≡ erase f.job.key s.probing = rw e at marks in
          record {
            exclusive =
                rw (same, erased)
                  (land_marked s.generation s.probing before after f ((nat_beq_iff _ _).0 e)
                    h.exclusive);
            few = ground (arith, h.few, erased, length-erase f.job.key s.probing);
          }
      | inr e ↦
          let kept : t.probing ≡ s.probing = rw e at marks in
          record {
            exclusive =
                rw (same, kept) (land_unmarked s.generation s.probing before after f h.exclusive);
            few = ground (arith, h.few, kept);
          }
    ]

Running-IsSingle : (env : Environment) {x y : System} → Running env x y → IsSingle x → IsSingle y
unfolding attempted note_persist_failed take_wake
Running-IsSingle env (drop_step {s} {fs} id) h =
    unmarked s _ fs (drop_previous-Advance s id).same_generation (drop_previous-probing s id) h
Running-IsSingle env (answer_step {s} {fs} now req auth_id model) h =
    unmarked s _ fs (answer-Advance s now req auth_id model).same_generation
      (answer-probing s now req auth_id model) h
Running-IsSingle env (capture_step {s} {fs} now id headers) h =
    unmarked s _ fs (capture_candidate-Advance s now id headers).same_generation
      (capture_candidate-probing s now id headers) h
Running-IsSingle env (observe_step {s} {fs} id chunk) h =
    unmarked s _ fs (observe_stream_failure-Advance s id chunk).same_generation
      (observe_stream_failure-probing s id chunk) h
Running-IsSingle env (complete_step {s} {fs} now done) h =
    unmarked s _ fs (complete-Advance s now done).same_generation (complete-probing s now done) h
Running-IsSingle env (launch_step {s} {t} {fs} {job} now auth_id model begun) h =
    let (policy, found, free, claimed) = begin_probe-claim s now auth_id model begun in
    let (configured, on, unmarked_key, slot) = probe_policy-facts s auth_id model found in
    subst (λ r. IsSingle (on_launch r.0 r.1 fs)) claimed
      (launch-IsSingle s fs now auth_id model policy unmarked_key slot h)
  where
    on_launch : RuntimeState → ProbeJob → List Flight → System
    on_launch s job fs = on s (launched job ∷ fs)
Running-IsSingle env (attempt_step {s} before after f index at value status) h =
    unmarked s _ _ (attempt-Advance s f.job index at value status).same_generation
      (attempt-probing s f.job index at value status)
      (record {
        exclusive =
            relabel s.generation s.probing before after f
              (attempted f (attempt s f.job index at value status)) refl h.exclusive;
        few = h.few;
      })
Running-IsSingle env (land_step {s} before after f now) h = land-IsSingle env s before after f now h
Running-IsSingle env (refresh_step {s} {fs} now req h) single =
    let sel = selection req.accounts req.models req.handles in
    subst (λ r. IsSingle (on r.0 fs)) (refresh_action-section env s now req h)
      (unmarked s _ fs (refresh_section-Advance env s now req.all sel).same_generation
        (refresh_section-probing env s now req.all sel) single)
Running-IsSingle env (unsaved_step {s} {fs} key) h =
    unmarked s (note_persist_failed s key) fs refl refl h
Running-IsSingle env (wake_step {s} {fs}) h = unmarked s (take_wake s) fs refl refl h
Running-IsSingle env (asked_step {s} {fs} {cache} now e) h =
    unmarked s (with_accounts s cache) fs refl refl h
Running-IsSingle env (listed_step {s} {fs} now listing) h =
    unmarked s (with_accounts s _) fs refl refl h

Step-IsSingle :
    (env : Environment) {x y : System} → Step env x y → IsConsistent x → IsSingle x → IsSingle y
unfolding install set_accepting shutdown
Step-IsSingle env (running r) c h = Running-IsSingle env r h
Step-IsSingle env (configure_step {s} {t} {fs} schema doc file u k) c h =
    let (p, prepared, same) = configure-install env s schema doc file k in
    subst (λ r. IsSingle (on r fs)) same
      (record { exclusive = stale s.config s.generation [] fs c.flying; few = omega arith })
Step-IsSingle env (clear_step {s} {fs} now req k) c h =
    let sel = selection req.accounts req.models req.handles in
    let (scope, same) = clear_action-section env s now req k in
    let (config, generation, probing) = clear_section-still env s now sel scope in
    subst (λ r. IsSingle (on r.0 fs)) same
      (unmarked s (clear_section env s now sel scope).0 fs generation probing h)
Step-IsSingle env (accepting_step {s} {fs} true) c h = record {
  exclusive = h.exclusive;
  few = h.few;
}
Step-IsSingle env (accepting_step {s} {fs} false) c h = record {
  exclusive = h.exclusive;
  few = h.few;
}
Step-IsSingle env (shutdown_step {s} {fs}) c h = record {
  exclusive = stale s.config s.generation s.probing fs c.flying;
  few = h.few;
}

-- In every state that the plugin can reach, the probes in flight of the current generation probe
-- pairwise different keys, each of them marked, and at most four keys are marked.
pub Reach-IsSingle : (env : Environment) {x : System} → Reach env x → IsSingle x
Reach-IsSingle env loaded = record { exclusive = tt; few = omega arith }
Reach-IsSingle env (next r step) =
    Step-IsSingle env step (Reach-IsConsistent env r) (Reach-IsSingle env r)
