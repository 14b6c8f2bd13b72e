-- ===== src/Refresh/Worker.antt =====
-- refresh.go: `refreshDue`, the round of the worker. The context is asked before each job.
pub mod Due
pub mod Ordered
pub mod Probed
use cpa_codex_turn_state_plu.Base.{
  ℕ, suc, ◌+◌, Bool, true, false, not, ◌&&◌, ◌||◌, List, [], ◌∷◌, map, ltb, leb, nat_beq,
  if◌then◌else◌, Text, text_beq,
}
use cpa_codex_turn_state_plu.Base.Dict.{keys}
use cpa_codex_turn_state_plu.Base.Sets.{include_all}
use cpa_codex_turn_state_plu.Clock.{Time}
use cpa_codex_turn_state_plu.Text.{text_ltb, sort_by}
use cpa_codex_turn_state_plu.Keys.{split_state_key}
use cpa_codex_turn_state_plu.State.{RuntimeState}
use cpa_codex_turn_state_plu.Refresh.{next_refresh}

pub record Job : Type 0 where
  pub key : Text
  pub due : Time

-- The order of the jobs: by time, and by key at the same time.
unfoldable pub job_before : Job → Job → Bool
job_before a b = if nat_beq a.due b.due then text_ltb a.key b.key else ltb a.due b.due

-- The keys that may be due: those with a state or a queued refresh.
unfoldable pub watched_keys : RuntimeState → List Text
watched_keys s = include_all (keys s.current) (include_all (keys s.refresh_requests) [])

-- The loop that picks what is due.
unfoldable pub pick : RuntimeState → Time → List Text → List Job
pick s now [] = []
pick s now (key ∷ rest) =
    let later = pick s now rest in
    if not (ltb now (next_refresh s now key))
    then record { key = key; due = next_refresh s now key } ∷ later
    else later

unfoldable pub due_jobs : RuntimeState → Time → List Job
unfolding pick job_before
due_jobs s now = sort_by job_before (pick s now (watched_keys s))

-- The loop over the jobs: `alive n` is the context before the n-th one, and `probe` is what
-- `ensureProbe` and whatever runs beside it make of the state.
unfoldable pub run_jobs :
    (RuntimeState → Text → Text → RuntimeState)
    → (ℕ → Bool)
    → ℕ
    → List Job
    → RuntimeState
    → RuntimeState
run_jobs probe alive n [] s = s
run_jobs probe alive n (job ∷ rest) s =
    let (auth_id, model) = split_state_key job.key in
    let next =
      if not (text_beq auth_id []) && not (text_beq model []) then probe s auth_id model else s in
    let done = run_jobs probe alive (suc n) rest next in if alive n then done else s

-- `refreshDue`
unfoldable pub refresh_due :
    (RuntimeState → Text → Text → RuntimeState) → (ℕ → Bool) → RuntimeState → Time → RuntimeState
unfolding due_jobs run_jobs
refresh_due probe alive s now = run_jobs probe alive 0 (due_jobs s now) s
