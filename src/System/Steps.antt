-- ===== src/System/Steps.antt =====
-- The plugin as a step relation: each step is one section of a handler that holds the lock. The
-- probes in flight are part of the state of the system, so that their sections interleave with
-- everything else.
use cpa_codex_turn_state_plu.Base.{
  ℕ, Bool, Option, none, some, List, [], ◌∷◌, ◌++◌, ◌≡◌, Text, str, Result, ok,
}
use cpa_codex_turn_state_plu.Base.Dict.{Dict}
use cpa_codex_turn_state_plu.Clock.{Time}
use cpa_codex_turn_state_plu.Environment.{Environment}
use cpa_codex_turn_state_plu.State.{RuntimeState, StoredState, AccountCache, new_runtime_state}
use cpa_codex_turn_state_plu.Refresh.Stream.{observe_stream_failure}
use cpa_codex_turn_state_plu.Request.{
  InterceptRequest, Completion, drop_previous, answer, capture_candidate, complete,
}
use cpa_codex_turn_state_plu.Probe.{
  ProbeJob, Verdict, finish, go_on, begin_probe, attempt, finish_probe,
}
use cpa_codex_turn_state_plu.Lifecycle.{Document, configure, set_accepting, shutdown}
use cpa_codex_turn_state_plu.Lifecycle.Persisted.{StateFile}
use cpa_codex_turn_state_plu.Management.Clear.{ClearRequest, ClearResult, clear_action}
use cpa_codex_turn_state_plu.Management.Refresh.{RefreshRequest, RefreshResult, refresh_action}
use cpa_codex_turn_state_plu.Management.Accounts.{
  ListedAccount, fetching, begin_accounts, finish_accounts, with_accounts,
}
use cpa_codex_turn_state_plu.Refresh.Loop.{take_wake}
use cpa_codex_turn_state_plu.Persist.Callers.{note_persist_failed}
use cpa_codex_turn_state_plu.System.Configured.{IsDocument}

-- A probe between its first and its last section, with the locals `outcome` and `candidate`.
pub record Flight : Type 0 where
  pub job : ProbeJob
  pub outcome : Text
  pub candidate : Option StoredState

abbrev pub launched : ProbeJob → Flight
launched job = record { job = job; outcome = str "probe_failed"; candidate = none }

delivered : Verdict → Option StoredState
delivered (finish c) = c
delivered go_on = none

-- The flight after an attempt.
unfoldable pub attempted : Flight → RuntimeState × Text × Verdict → Flight
unfolding delivered
attempted f (s, outcome, verdict) = record {
  job = f.job;
  outcome = outcome;
  candidate = delivered verdict;
}

pub record System : Type 0 where
  pub state : RuntimeState
  pub flights : List Flight

abbrev pub on : RuntimeState → List Flight → System
on s fs = record { state = s; flights = fs }

module _ (env : Environment) where
  -- The steps that `configure`, `clearAction`, `setAccepting` and `shutdown` do not take.
  pub data Running : System → System → Type 0 where
    drop_step :
        {s : RuntimeState} {fs : List Flight} (id : Text)
        → Running (on s fs) (on (drop_previous s id) fs)
    answer_step :
        {s : RuntimeState} {fs : List Flight} (now : Time) (req : InterceptRequest)
        (auth_id model : Text)
        → Running (on s fs) (on (answer s now req auth_id model).0 fs)
    capture_step :
        {s : RuntimeState} {fs : List Flight} (now : Time) (id : Text)
        (headers : Dict Text (List Text))
        → Running (on s fs) (on (capture_candidate s now id headers) fs)
    observe_step :
        {s : RuntimeState} {fs : List Flight} (id chunk : Text)
        → Running (on s fs) (on (observe_stream_failure s id chunk) fs)
    complete_step :
        {s : RuntimeState} {fs : List Flight} (now : Time) (done : Completion)
        → Running (on s fs) (on (complete s now done).0 fs)
    launch_step :
        {s t : RuntimeState} {fs : List Flight} {job : ProbeJob} (now : Time) (auth_id model : Text)
        → begin_probe s now auth_id model ≡ some (t, job)
        → Running (on s fs) (on t (launched job ∷ fs))
    attempt_step :
        {s : RuntimeState} (before after : List Flight) (f : Flight) (index : ℕ) (at : Time)
        (value status : Text)
        → Running (on s (before ++ f ∷ after)) (
            on
              (attempt s f.job index at value status).0
              (before ++ attempted f (attempt s f.job index at value status) ∷ after))
    land_step :
        {s : RuntimeState} (before after : List Flight) (f : Flight) (now : Time)
        → Running
            (on s (before ++ f ∷ after))
            (on (finish_probe env s f.job now f.outcome f.candidate).0 (before ++ after))
    refresh_step :
        {s : RuntimeState} {fs : List Flight} {r : RuntimeState × RefreshResult} (now : Time)
        (req : RefreshRequest)
        → refresh_action env s now (some req) ≡ ok r
        → Running (on s fs) (on r.0 fs)
    unsaved_step :
        {s : RuntimeState} {fs : List Flight} (key : Text)
        → Running (on s fs) (on (note_persist_failed s key) fs)
    wake_step : {s : RuntimeState} {fs : List Flight} → Running (on s fs) (on (take_wake s) fs)
    asked_step :
        {s : RuntimeState} {fs : List Flight} {cache : AccountCache} (now : Time)
        → begin_accounts s.accounts now ≡ fetching cache
        → Running (on s fs) (on (with_accounts s cache) fs)
    listed_step :
        {s : RuntimeState} {fs : List Flight} (now : Time)
        (listing : Result Text (List ListedAccount))
        → Running (on s fs) (on (with_accounts s (finish_accounts env s.accounts now listing).0) fs)

  pub data Step : System → System → Type 0 where
    running : {x y : System} → Running x y → Step x y
    configure_step :
        {s t : RuntimeState} {fs : List Flight} (schema : ℕ) (doc : Document) (file : StateFile)
        → IsDocument env doc
        → configure env s schema doc file ≡ ok t
        → Step (on s fs) (on t fs)
    clear_step :
        {s : RuntimeState} {fs : List Flight} {r : RuntimeState × ClearResult} (now : Time)
        (req : ClearRequest)
        → clear_action env s now (some req) ≡ ok r
        → Step (on s fs) (on r.0 fs)
    accepting_step :
        {s : RuntimeState} {fs : List Flight} (switched : Bool)
        → Step (on s fs) (on (set_accepting s switched) fs)
    shutdown_step : {s : RuntimeState} {fs : List Flight} → Step (on s fs) (on (shutdown s) fs)

  -- What the plugin can become after it is loaded.
  pub data Reach : System → Type 0 where
    loaded : Reach (on new_runtime_state [])
    next : {x y : System} → Reach x → Step x y → Reach y

  -- A sequence of steps.
  pub data Steps : System → System → Type 0 where
    stay : {x : System} → Steps x x
    followed : {x y z : System} → Step x y → Steps y z → Steps x z
