-- ===== src/System/Promotions.antt =====
-- When a completion or a probe replaces the state of a key, and what a stopped plugin leaves alone.
use cpa_codex_turn_state_plu.Base.{
  ◌+◌, ◌<◌, ◌≡◌, refl, ◌∙◌, sym, ap, inl, inr, true, false, Option, none, some, List, nat_beq,
  Bool-cases, Option-cases, Text, text_beq, text_eq, text_beq_iff, str, arith,
}
use cpa_codex_turn_state_plu.Base.Dict.{
  Dict, lookup, erase, lookup_inserted, lookup-erase, beq_refl,
}
use cpa_codex_turn_state_plu.Clock.{Time}
use cpa_codex_turn_state_plu.Environment.{Environment}
use cpa_codex_turn_state_plu.Policy.{credential_for}
use cpa_codex_turn_state_plu.State.{RuntimeState, RequestBinding, StoredState, StateCandidate}
use cpa_codex_turn_state_plu.History.{append_history}
use cpa_codex_turn_state_plu.Refresh.{turn_state_ttl, queue_refresh}
use cpa_codex_turn_state_plu.Request.{
  InterceptRequest, Completion, untouched, answer, capture_candidate, capture_bound, improves,
  may_promote, promote, settle, complete,
}
use cpa_codex_turn_state_plu.Probe.{
  ProbeJob, begin_probe, probe_policy, note_result, is_promoted, close_probe, finish_probe,
}

-- What a completion that promotes was about.
pub record IsPromotion (s t : RuntimeState) (now : Time) (done : Completion) : Type 0 where
  pub candidate : StateCandidate
  pub staged : lookup done.request_id s.candidates ≡ some candidate
  pub accepting : s.accepting ≡ true
  pub succeeded : done.outcome ≡ str "succeeded"
  pub not_expired : now < candidate.state.issued_at + turn_state_ttl
  pub newer : improves s.current candidate.key candidate.state ≡ true
  pub stored : lookup candidate.key t.current ≡ some candidate.state
  pub settled : lookup candidate.key t.refresh_requests ≡ none

settle-core :
    (s : RuntimeState) (done : Completion) (b : Option RequestBinding)
    → ((settle s done b).accepting ≡ s.accepting) × ((settle s done b).current ≡ s.current)
unfolding settle queue_refresh
settle-core s done b = (ground arith, ground arith)

promote-facts :
    (s : RuntimeState) (now : Time) (done : Completion) (c : Option StateCandidate)
    → (promote s now done c).1 ≡ true
    → (x : StateCandidate) × (c ≡ some x)
      × (s.accepting ≡ true)
      × (text_beq done.outcome (str "succeeded") ≡ true)
      × (now < x.state.issued_at + turn_state_ttl)
      × (improves s.current x.key x.state ≡ true)
      × (lookup x.key (promote s now done c).0.current ≡ some x.state)
      × (lookup x.key (promote s now done c).0.refresh_requests ≡ none)
unfolding promote may_promote
promote-facts s now done none h = cc
promote-facts s now done (some x) h = elim (Bool-cases (may_promote s now done x)) [
  | inr k ↦ absurd (ground (arith, h, k))
  | inl k ↦ (
    x,
    refl,
    ground (arith, k),
    ground (arith, k),
    ground (arith, k),
    ground (arith, k),
    rw (k, promote) (lookup_inserted x.key x.state s.current),
    rw (k, promote) (lookup-erase x.key x.key s.refresh_requests ∙ rw (beq_refl x.key) refl),
  )
]

-- A completion reports a new state for the file only if the request had staged a candidate, the
-- plugin accepts requests, the outcome is a success, and the candidate is not expired and newer than
-- the state of its key; the candidate is then the state of its key, and its refresh is settled.
pub complete-IsPromotion :
    (s : RuntimeState) (now : Time) (done : Completion)
    → (complete s now done).1 ≡ true
    → IsPromotion s (complete s now done).0 now done
unfolding complete
complete-IsPromotion s now done h =
    let (same_accepting, same_current) = settle-core s done (lookup done.request_id s.requests) in
    let (x, staged, accepting, outcome, alive, newer, stored, settled) =
      promote-facts _ now done (lookup done.request_id s.candidates) h in
    record {
      candidate = x;
      staged = staged;
      accepting = sym same_accepting ∙ accepting;
      succeeded = (text_beq_iff done.outcome (str "succeeded")).0 outcome;
      not_expired = alive;
      newer = ap (λ c. improves c x.key x.state) (sym same_current) ∙ newer;
      stored = stored;
      settled = settled;
    }

erased : (id : Text) {V : Type 0} (d : Dict Text V) → lookup id (erase id d) ≡ none
erased id d = lookup-erase id id d ∙ rw (beq_refl id) refl

-- After its completion nothing is bound to the request any more, and nothing is staged for it: what
-- comes later under its id changes no state.
complete-forgets :
    (s : RuntimeState) (now : Time) (done : Completion)
    → (lookup done.request_id (complete s now done).0.requests ≡ none)
      × (lookup done.request_id (complete s now done).0.candidates ≡ none)
unfolding complete promote may_promote
complete-forgets s now done =
    let settled = settle s done (lookup done.request_id s.requests) in
    (
      ground (arith, erased done.request_id settled.requests),
      ground (arith, erased done.request_id settled.candidates),
    )

begin_probe-stopped :
    (s : RuntimeState) (now : Time) (auth_id model : Text)
    → s.accepting ≡ false
    → begin_probe s now auth_id model ≡ none
unfolding begin_probe probe_policy
begin_probe-stopped s now auth_id model off =
    elim (Option-cases (credential_for s.config auth_id)) [
      | inl e ↦ rw (e, begin_probe, probe_policy) refl
      | inr (c, e) ↦ ground (arith, e, off)
    ]

pub capture_candidate-stopped :
    (s : RuntimeState) (now : Time) (id : Text) (headers : Dict Text (List Text))
    → s.accepting ≡ false
    → capture_candidate s now id headers ≡ s
unfolding capture_candidate capture_bound
capture_candidate-stopped s now id headers off = ground (arith, off)

promote-stopped :
    (s : RuntimeState) (now : Time) (done : Completion) (c : Option StateCandidate)
    → s.accepting ≡ false
    → (promote s now done c).0.current ≡ s.current
unfolding promote may_promote
promote-stopped s now done none off = refl
promote-stopped s now done (some x) off = ground (arith, off)

pub complete-stopped :
    (s : RuntimeState) (now : Time) (done : Completion)
    → s.accepting ≡ false
    → (complete s now done).0.current ≡ s.current
unfolding complete
complete-stopped s now done off =
    let (same_accepting, same_current) = settle-core s done (lookup done.request_id s.requests) in
    promote-stopped _ now done (lookup done.request_id s.candidates) (same_accepting ∙ off)
    ∙ same_current

close_probe-stopped :
    (env : Environment) (s : RuntimeState) (job : ProbeJob) (now : Time) (outcome : Text)
    (c : Option StoredState)
    → s.accepting ≡ false
    → (close_probe env s job now outcome c).0.current ≡ s.current
unfolding close_probe is_promoted append_history
close_probe-stopped env s job now outcome none off = ground arith
close_probe-stopped env s job now outcome (some st) off = ground (arith, off)

finish_probe-stopped :
    (env : Environment) (s : RuntimeState) (job : ProbeJob) (now : Time) (outcome : Text)
    (c : Option StoredState)
    → s.accepting ≡ false
    → (finish_probe env s job now outcome c).0.current ≡ s.current
unfolding finish_probe note_result
finish_probe-stopped env s job now outcome c off =
    elim (Bool-cases (nat_beq job.generation s.generation)) [
      | inr h ↦ rw h refl
      | inl h ↦ rw h (
          close_probe-stopped env (note_result s job now outcome) job now outcome c
            (ground (arith, off))
          ∙ ground arith)
    ]

pub answer-stopped :
    (s : RuntimeState) (now : Time) (req : InterceptRequest) (auth_id model : Text)
    → s.accepting ≡ false
    → answer s now req auth_id model ≡ (s, untouched)
unfolding answer
answer-stopped s now req auth_id model off = ground (arith, off)

-- A stopped plugin injects nothing, starts no probe, stages nothing, and neither a completion nor the
-- end of a probe changes a cached state.
pub stopped_quiet :
    (env : Environment) (s : RuntimeState) (now : Time) (req : InterceptRequest)
    (auth_id model id : Text) (headers : Dict Text (List Text)) (done : Completion) (job : ProbeJob)
    (outcome : Text) (c : Option StoredState)
    → s.accepting ≡ false
    → (answer s now req auth_id model ≡ (s, untouched))
      × (begin_probe s now auth_id model ≡ none)
      × (capture_candidate s now id headers ≡ s)
      × ((complete s now done).0.current ≡ s.current)
      × ((finish_probe env s job now outcome c).0.current ≡ s.current)
unfolding answer
stopped_quiet env s now req auth_id model id headers done job outcome c off = (
  rw off refl,
  begin_probe-stopped s now auth_id model off,
  capture_candidate-stopped s now id headers off,
  complete-stopped s now done off,
  finish_probe-stopped env s job now outcome c off,
)
