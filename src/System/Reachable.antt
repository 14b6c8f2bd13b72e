-- ===== src/System/Reachable.antt =====
-- The invariant holds in every state that the plugin can reach.
use cpa_codex_turn_state_plu.Base.{
  ℕ, ◌+◌, ◌++◌, ◌≤◌, ◌≡◌, refl, sym, subst, inl, inr, true, false, List, [], ◌∷◌, Text, text_beq,
  arith, All, All-middle, All-without, All-replace, Bool-cases, Option-cases, str,
}
use cpa_codex_turn_state_plu.Environment.{Environment}
use cpa_codex_turn_state_plu.Clock.{Time}
use cpa_codex_turn_state_plu.Config.{PluginConfig}
use cpa_codex_turn_state_plu.State.{RuntimeState}
use cpa_codex_turn_state_plu.Request.{usable_state}
use cpa_codex_turn_state_plu.Probe.{attempt, account_level_probe_failure, proxy_level_probe_failure}
use cpa_codex_turn_state_plu.Lifecycle.{set_accepting, shutdown}
use cpa_codex_turn_state_plu.System.Sound.{IsSound}
use cpa_codex_turn_state_plu.System.Requests.{
  drop_previous-IsSound, answer-IsSound, capture_candidate-IsSound, complete-IsSound,
  observe_stream_failure-IsSound,
}
use cpa_codex_turn_state_plu.System.Probes.{
  IsCurrent, Delivered, begin_probe-IsSound, attempt-IsSound, finish_probe-IsSound,
}
use cpa_codex_turn_state_plu.System.Configured.{
  configure-IsSound, set_accepting-IsSound, shutdown-IsSound,
}
use cpa_codex_turn_state_plu.System.Advance.{
  Advance, still, drop_previous-Advance, answer-Advance, capture_candidate-Advance,
  complete-Advance, observe_stream_failure-Advance, attempt-Advance, finish_probe-Advance,
}
use cpa_codex_turn_state_plu.System.Actions.{
  refresh_action-section, clear_action-section, refresh_section-IsSound, refresh_section-Advance,
  clear_section-IsSound, clear_section-still,
}
use cpa_codex_turn_state_plu.Management.Clear.{clear_section}
use cpa_codex_turn_state_plu.Management.Selection.{selection}
use cpa_codex_turn_state_plu.Management.Accounts.{with_accounts}
use cpa_codex_turn_state_plu.Refresh.Loop.{take_wake}
use cpa_codex_turn_state_plu.Persist.Callers.{note_persist_failed}
use cpa_codex_turn_state_plu.System.Steps.{
  Flight, attempted, System, on, Running, Step, Reach, drop_step, answer_step, capture_step,
  observe_step, complete_step, launch_step, attempt_step, land_step, running, configure_step,
  accepting_step, shutdown_step, loaded, next, refresh_step, clear_step, unsaved_step, wake_step,
  asked_step, listed_step,
}

-- A probe in flight knows its configuration unless another one has been installed since, and its
-- candidate is one that its policy accepts.
pub record InStep (cfg : PluginConfig) (generation : ℕ) (f : Flight) : Type 0 where
  pub past : f.job.generation ≤ generation
  pub current : f.job.generation ≡ generation → IsCurrent cfg f.job
  pub fetched : Delivered f.job f.candidate

-- The invariant of the system.
pub record IsConsistent (x : System) : Type 0 where
  pub sound : IsSound x.state
  pub flying : All (InStep x.state.config x.state.generation) x.flights

-- Flights keep in step with a state of the same configuration.
keep :
    (s t : RuntimeState) (fs : List Flight)
    → t.config ≡ s.config
    → t.generation ≡ s.generation
    → All (InStep s.config s.generation) fs
    → All (InStep t.config t.generation) fs
keep s t fs c g h = rw (c, g) h

advanced :
    {s t : RuntimeState} (fs : List Flight)
    → Advance s t
    → IsSound t
    → All (InStep s.config s.generation) fs
    → IsConsistent (on t fs)
advanced {s} {t} fs a v h = record {
  sound = v;
  flying = keep s t fs a.same_config a.same_generation h;
}

attempt-Delivered :
    (s : RuntimeState) (f : Flight) (index : ℕ) (at : Time) (value status : Text)
    → Delivered f.job (attempted f (attempt s f.job index at value status)).candidate
unfolding attempt attempted
attempt-Delivered s f index at value status = elim (Bool-cases (text_beq status (str "ok"))) [
  | inl h ↦ elim (Option-cases (usable_state f.job.config f.job.policy f.job.started value)) [
    | inl e ↦ rw h (rw (e, attempt) Delivered.nothing)
    | inr (st, e) ↦ rw h (rw (e, attempt) (Delivered.accepted value e))
  ]
  | inr h ↦ elim (Bool-cases (account_level_probe_failure status)) [
    | inl k ↦ rw (h, k) Delivered.nothing
    | inr k ↦ elim (Bool-cases (proxy_level_probe_failure status)) [
      | inl l ↦ rw (h, k, l) Delivered.nothing
      | inr l ↦ rw (h, k, l) Delivered.nothing
    ]
  ]
]

attempted-InStep :
    (s : RuntimeState) (f : Flight) (index : ℕ) (at : Time) (value status : Text)
    → InStep s.config s.generation f
    → InStep s.config s.generation (attempted f (attempt s f.job index at value status))
unfolding attempted
attempted-InStep s f index at value status h = record {
  past = h.past;
  current = h.current;
  fetched = attempt-Delivered s f index at value status;
}

Running-IsConsistent :
    (env : Environment) {x y : System} → Running env x y → IsConsistent x → IsConsistent y
unfolding note_persist_failed take_wake
Running-IsConsistent env (drop_step {s} {fs} id) c =
    advanced fs (drop_previous-Advance s id) (drop_previous-IsSound s id c.sound) c.flying
Running-IsConsistent env (answer_step {s} {fs} now req auth_id model) c =
    advanced fs (answer-Advance s now req auth_id model)
      (answer-IsSound s now req auth_id model c.sound) c.flying
Running-IsConsistent env (capture_step {s} {fs} now id headers) c =
    advanced fs (capture_candidate-Advance s now id headers)
      (capture_candidate-IsSound s now id headers c.sound) c.flying
Running-IsConsistent env (observe_step {s} {fs} id chunk) c =
    advanced fs (observe_stream_failure-Advance s id chunk)
      (observe_stream_failure-IsSound s id chunk c.sound) c.flying
Running-IsConsistent env (complete_step {s} {fs} now done) c =
    advanced fs (complete-Advance s now done) (complete-IsSound s now done c.sound) c.flying
Running-IsConsistent env (launch_step {s} {t} {fs} {job} now auth_id model h) c =
    let (v, knows, newest, same_config, same_generation) =
      begin_probe-IsSound s now auth_id model h c.sound in
    record {
      sound = v;
      flying = (
        record {
          past = omega (arith, newest, same_generation);
          current = λ _. subst (λ cfg. IsCurrent cfg job) (sym same_config) knows;
          fetched = Delivered.nothing;
        },
        keep s t fs same_config same_generation c.flying,
      );
    }
Running-IsConsistent env (attempt_step {s} before after f index at value status) c =
    let here = All-middle (InStep s.config s.generation) before after f c.flying in
    advanced _ (attempt-Advance s f.job index at value status)
      (attempt-IsSound s f.job index at value status c.sound).0
      (All-replace (InStep s.config s.generation) before after f
        (attempted f (attempt s f.job index at value status))
        (attempted-InStep s f index at value status here) c.flying)
Running-IsConsistent env (land_step {s} before after f now) c =
    let here = All-middle (InStep s.config s.generation) before after f c.flying in
    advanced (before ++ after) (finish_probe-Advance env s f.job now f.outcome f.candidate)
      (finish_probe-IsSound env s f.job now f.outcome here.current here.fetched c.sound)
      (All-without (InStep s.config s.generation) before after f c.flying)
Running-IsConsistent env (refresh_step {s} {fs} now req h) c =
    let sel = selection req.accounts req.models req.handles in
    subst (λ r. IsConsistent (on r.0 fs)) (refresh_action-section env s now req h)
      (advanced fs (refresh_section-Advance env s now req.all sel)
        (refresh_section-IsSound env s now req.all sel c.sound) c.flying)
Running-IsConsistent env (unsaved_step {s} {fs} key) c =
    advanced fs (still s (note_persist_failed s key) refl refl refl) c.sound c.flying
Running-IsConsistent env (wake_step {s} {fs}) c =
    advanced fs (still s (take_wake s) refl refl refl) c.sound c.flying
Running-IsConsistent env (asked_step {s} {fs} {cache} now h) c =
    advanced fs (still s (with_accounts s cache) refl refl refl) c.sound c.flying
Running-IsConsistent env (listed_step {s} {fs} now listing) c =
    advanced fs (still s (with_accounts s _) refl refl refl) c.sound c.flying

-- Flights of an older generation stay behind.
outdated :
    (cfg later : PluginConfig) (generation : ℕ) (fs : List Flight)
    → All (InStep cfg generation) fs
    → All (InStep later (generation + 1)) fs
outdated cfg later generation [] h = tt
outdated cfg later generation (f ∷ fs) h = (
  record {
    past = omega (arith, h.0.past);
    current = λ e. absurd (omega (arith, e, h.0.past));
    fetched = h.0.fetched;
  },
  outdated cfg later generation fs h.1,
)

Step-IsConsistent :
    (env : Environment) {x y : System} → Step env x y → IsConsistent x → IsConsistent y
unfolding set_accepting shutdown
Step-IsConsistent env (running r) c = Running-IsConsistent env r c
Step-IsConsistent env (configure_step {s} {t} {fs} schema doc file u h) c =
    let (v, later) = configure-IsSound env s schema doc file u h c.sound in
    record { sound = v; flying = rw later (outdated s.config _ s.generation fs c.flying) }
Step-IsConsistent env (clear_step {s} {fs} now req h) c =
    let sel = selection req.accounts req.models req.handles in
    let (scope, same) = clear_action-section env s now req h in
    let (config, generation, probing) = clear_section-still env s now sel scope in
    subst (λ r. IsConsistent (on r.0 fs)) same
      (record {
        sound = clear_section-IsSound env s now sel scope c.sound;
        flying = keep s (clear_section env s now sel scope).0 fs config generation c.flying;
      })
Step-IsConsistent env (accepting_step {s} {fs} true) c = record {
  sound = set_accepting-IsSound s true c.sound;
  flying = c.flying;
}
Step-IsConsistent env (accepting_step {s} {fs} false) c = record {
  sound = set_accepting-IsSound s false c.sound;
  flying = c.flying;
}
Step-IsConsistent env (shutdown_step {s} {fs}) c = record {
  sound = shutdown-IsSound s c.sound;
  flying = outdated s.config _ s.generation fs c.flying;
}

-- In every state that the plugin can reach, whatever the order of its sections: each cached state has
-- the issue time and the block count of its value, under a key whose credential is configured and
-- accepts this count; the timeline is bounded; and each probe in flight knows the configuration, or
-- belongs to an older generation, and carries no candidate but one that its policy accepts.
pub Reach-IsConsistent : (env : Environment) {x : System} → Reach env x → IsConsistent x
Reach-IsConsistent env loaded = record {
  sound = record { genuine = tt; staged = tt; named = tt; bounded = omega arith };
  flying = tt;
}
Reach-IsConsistent env (next r step) = Step-IsConsistent env step (Reach-IsConsistent env r)
