-- ===== src/Refresh/Schedule.antt =====
-- The schedule of the worker, the guards of a probe, and the queue of refreshes agree.
use cpa_codex_turn_state_plu.Base.{
  ◌+◌, ◌≤◌, ◌≡◌, ◌↔◌, inl, inr, true, false, ◌&&◌, [], if◌then◌else◌, Bool-cases, Text, text_beq,
  text_eq, text_beq_iff, arith,
}
use cpa_codex_turn_state_plu.Base.Dict.{Dict, insert, lookup-insert}
use cpa_codex_turn_state_plu.Clock.{Time}
use cpa_codex_turn_state_plu.State.{RuntimeState, text_at, time_at, stored_at}
use cpa_codex_turn_state_plu.Refresh.{
  first_due, after_cooldown, next_refresh, may_queue, queue_refresh,
}
use cpa_codex_turn_state_plu.Request.{clock_tolerance}
use cpa_codex_turn_state_plu.Probe.{is_fresh, cools_down, holds_back}

-- For a key whose state is not from the future, and an account that is not blocked, the guards of
-- `ensureProbe` let a probe pass exactly if `nextRefreshLocked` says that it is due.
pub holds_back-next_refresh :
    (s : RuntimeState) (now : Time) (auth_id key : Text)
    → (stored_at key s.current).issued_at ≤ now + clock_tolerance
    → time_at auth_id s.account_blocked_until ≤ now
    → (holds_back s now auth_id key ≡ false) ↔ (next_refresh s now key ≤ now)
unfolding holds_back is_fresh cools_down next_refresh first_due after_cooldown
holds_back-next_refresh s now auth_id key h k =
    (λ a. ground (arith, h, k, a), λ a. ground (arith, h, k, a))

-- The reasons after one more is offered for a key.
offered :
    (key k reason : Text) (d : Dict Text Text)
    → text_at k (if text_beq (text_at key d) [] then insert key reason d else d)
      ≡ (if text_beq key k && text_beq (text_at key d) [] then reason else text_at k d)
offered key k reason d = elim (Bool-cases (text_beq (text_at key d) [])) [
  | inl h ↦ rw h (ground (arith, lookup-insert key k reason d))
  | inr h ↦ rw h (ground arith)
]

-- A queued reason stays as it is, whatever else is queued.
queue_refresh-keeps :
    (s : RuntimeState) (key reason k : Text)
    → ¬ (text_at k s.refresh_requests ≡ [])
    → text_at k (queue_refresh s key reason).refresh_requests ≡ text_at k s.refresh_requests
unfolding queue_refresh may_queue
queue_refresh-keeps s key reason k there = ground (
  arith,
  there,
  offered key k reason s.refresh_requests,
  text_beq_iff key k,
  text_beq_iff (text_at key s.refresh_requests) [],
)

-- Once a reason may be queued for a key, the key has one, and the worker is woken.
queue_refresh-queues :
    (s : RuntimeState) (key reason : Text)
    → may_queue s key reason ≡ true
    → ¬ (text_at key (queue_refresh s key reason).refresh_requests ≡ [])
      × ((queue_refresh s key reason).wake ≡ true)
unfolding queue_refresh may_queue
queue_refresh-queues s key reason free = (
  λ none_left. ground (
    arith,
    free,
    none_left,
    offered key key reason s.refresh_requests,
    text_beq_iff key key,
    text_beq_iff (text_at key s.refresh_requests) [],
    text_beq_iff reason [],
  ),
  ground (arith, free),
)
