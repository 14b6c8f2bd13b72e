-- ===== src/Refresh/Loop.antt =====
-- refresh.go: `refreshLoop`, the worker, and `stopBackground`, which joins it. The ticker, the
-- channel and the context stand for the event that each round waits for.
use cpa_codex_turn_state_plu.Base.{ℕ, Bool, false, List, [], ◌∷◌, if◌then◌else◌, Text}
use cpa_codex_turn_state_plu.Clock.{Time}
use cpa_codex_turn_state_plu.State.{RuntimeState}
use cpa_codex_turn_state_plu.Refresh.Worker.{refresh_due}

-- What the `select` finds.
pub data Signal : Type 0 where
  cancelled ticked woken : Signal

-- `<-wake`
unfoldable pub take_wake : RuntimeState → RuntimeState
take_wake s = record s { wake = false }

-- A round: the context before it, its time, the context before each of its jobs, what other
-- sections make of the state while it waits, and the event.
pub record WorkerRound : Type 0 where
  pub alive : Bool
  pub now : Time
  pub alive_before : ℕ → Bool
  pub meanwhile : RuntimeState → RuntimeState
  pub event : Signal

-- How the worker stands after some rounds: it waits for more, or it has returned.
pub data Worker : Type 0 where
  waiting returned : RuntimeState → Worker

abbrev pub state_of : Worker → RuntimeState
state_of (waiting s) = s
state_of (returned s) = s

-- The `for` loop, over the rounds that happen.
unfoldable pub refresh_loop :
    (RuntimeState → Text → Text → RuntimeState) → List WorkerRound → RuntimeState → Worker
refresh_loop probe [] s = waiting s
refresh_loop probe (r ∷ rest) s =
    let after = r.meanwhile (refresh_due probe r.alive_before s r.now) in
    let on_tick = refresh_loop probe rest after in
    let on_wake = refresh_loop probe rest (take_wake after) in
    if r.alive
    then (elim r.event [ cancelled ↦ returned after | ticked ↦ on_tick | woken ↦ on_wake ])
    else returned s
