-- ===== src/System/Advance.antt =====
-- What the hooks and the probes leave alone: the configuration, its generation, and, for each key,
-- every state but an older one.
use cpa_codex_turn_state_plu.Base.{
  ℕ, ◌+◌, ◌++◌, ◌≤◌, ◌≡◌, refl, ◌∙◌, ap, inl, inr, true, Option, none, some, List, [], ◌∷◌, ltb,
  nat_beq, length, Bool-cases, Option-cases, Text, text_eq, str, arith,
}
use cpa_codex_turn_state_plu.Base.Dict.{Dict, lookup, insert, erase, lookup-insert}
use cpa_codex_turn_state_plu.Clock.{Time}
use cpa_codex_turn_state_plu.Environment.{Environment}
use cpa_codex_turn_state_plu.Text.{replace_all}
use cpa_codex_turn_state_plu.Json.{parse}
use cpa_codex_turn_state_plu.Config.{CredentialConfig}
use cpa_codex_turn_state_plu.State.{
  RuntimeState, StoredState, RequestBinding, StateCandidate, HistoryEntry, stored_at,
}
use cpa_codex_turn_state_plu.System.Moves.{Moves, same, view, Moves-compose, insert-Moves}
use cpa_codex_turn_state_plu.Refresh.{queue_refresh}
use cpa_codex_turn_state_plu.Refresh.Stream.{
  note_failure, note_frames, note_rest, split_frames, frame_data, observe_stream_failure,
  stream_limit,
}
use cpa_codex_turn_state_plu.History.{append_history}
use cpa_codex_turn_state_plu.Request.{
  InterceptRequest, Completion, drop_previous, bind_request, answer, improves, stage, capture_bound,
  capture_candidate, settle, may_promote, promote, complete,
}
use cpa_codex_turn_state_plu.Probe.{
  ProbeJob, claim, attempt, note_result, is_promoted, promote_probed, probe_entry, promote_entry,
  close_probe, finish_probe,
}

-- The second state has the configuration of the first, per key a state at least as new, and a cache
-- that some renewals lead to.
pub record Advance (s t : RuntimeState) : Type 0 where
  pub same_config : t.config ≡ s.config
  pub same_generation : t.generation ≡ s.generation
  pub newer :
      (key : Text) → (stored_at key s.current).issued_at ≤ (stored_at key t.current).issued_at
  pub moves : Moves (view s.current) (view t.current)

pub Advance-compose : {s t u : RuntimeState} → Advance s t → Advance t u → Advance s u
Advance-compose a b = record {
  same_config = b.same_config ∙ a.same_config;
  same_generation = b.same_generation ∙ a.same_generation;
  newer = λ key. omega (arith, a.newer key, b.newer key);
  moves = Moves-compose a.moves b.moves;
}

-- The states with the same cache advance.
pub still :
    (s t : RuntimeState)
    → t.config ≡ s.config
    → t.generation ≡ s.generation
    → t.current ≡ s.current
    → Advance s t
still s t c g h = record {
  same_config = c;
  same_generation = g;
  newer = λ key. rw h (omega arith);
  moves = same (λ k. ap (lookup k) h);
}

-- A newer state at one key leaves no key with an older one.
inserted_newer :
    (d : Dict Text StoredState) (key : Text) (st : StoredState)
    → (stored_at key d).issued_at ≤ st.issued_at
    → (k : Text) → (stored_at k d).issued_at ≤ (stored_at k (insert key st d)).issued_at
inserted_newer d key st h k = ground (arith, lookup-insert key k st d, text_eq.beq_iff key k)

pub queue_refresh-Advance :
    (s : RuntimeState) (key reason : Text) → Advance s (queue_refresh s key reason)
unfolding queue_refresh
queue_refresh-Advance s key reason = still s _ (ground arith) (ground arith) (ground arith)

pub drop_previous-Advance : (s : RuntimeState) (id : Text) → Advance s (drop_previous s id)
unfolding drop_previous queue_refresh
drop_previous-Advance s id = still s _ (ground arith) (ground arith) (ground arith)

pub answer-Advance :
    (s : RuntimeState) (now : Time) (req : InterceptRequest) (auth_id model : Text)
    → Advance s (answer s now req auth_id model).0
unfolding answer bind_request
answer-Advance s now req auth_id model = still s _ (ground arith) (ground arith) (ground arith)

pub capture_candidate-Advance :
    (s : RuntimeState) (now : Time) (id : Text) (headers : Dict Text (List Text))
    → Advance s (capture_candidate s now id headers)
unfolding capture_candidate capture_bound stage
capture_candidate-Advance s now id headers = still s _ (ground arith) (ground arith) (ground arith)

settle-Advance :
    (s : RuntimeState) (done : Completion) (b : Option RequestBinding) → Advance s (settle s done b)
unfolding settle queue_refresh
settle-Advance s done b = still s _ (ground arith) (ground arith) (ground arith)

promote-Advance :
    (s : RuntimeState) (now : Time) (done : Completion) (c : Option StateCandidate)
    → Advance s (promote s now done c).0
unfolding promote may_promote improves
promote-Advance s now done none = still s _ refl refl refl
promote-Advance s now done (some x) = elim (Bool-cases (may_promote s now done x)) [
  | inr h ↦ rw (h, promote) (still s _ refl refl refl)
  | inl h ↦
      rw (h, promote)
        (record {
          same_config = refl;
          same_generation = refl;
          newer = inserted_newer s.current x.key x.state (ground (arith, h));
          moves = insert-Moves s.current x.key x.state (ground (arith, h));
        })
]

pub complete-Advance :
    (s : RuntimeState) (now : Time) (done : Completion) → Advance s (complete s now done).0
unfolding complete
complete-Advance s now done =
    let settled = settle s done (lookup done.request_id s.requests) in
    let cleaned : RuntimeState = record settled {
      candidates = erase done.request_id settled.candidates;
      requests = erase done.request_id settled.requests;
    } in
    Advance-compose (settle-Advance s done (lookup done.request_id s.requests)) (
      Advance-compose (still settled cleaned refl refl refl)
        (promote-Advance cleaned now done (lookup done.request_id s.candidates)))

note_failure-Advance :
    (s : RuntimeState) (id key raw : Text) → Advance s (note_failure s id key raw)
unfolding note_failure queue_refresh
note_failure-Advance s id key raw = still s _ (ground arith) (ground arith) (ground arith)

note_frames-Advance :
    (s : RuntimeState) (id key : Text) (fs : List Text) → Advance s (note_frames s id key fs)
unfolding note_frames
note_frames-Advance s id key [] = still s s refl refl refl
note_frames-Advance s id key (f ∷ fs) =
    Advance-compose (note_failure-Advance s id key (frame_data f))
      (note_frames-Advance (note_failure s id key (frame_data f)) id key fs)

note_rest-Advance :
    (s : RuntimeState) (id buffer : Text) (b : RequestBinding) → Advance s (note_rest s id b buffer)
unfolding note_rest
note_rest-Advance s id buffer b = elim (Option-cases (parse buffer)) [
  | inl e ↦ rw (e, note_rest) (still s _ refl refl refl)
  | inr (j, e) ↦
      rw (e, note_rest)
        (Advance-compose (note_failure-Advance s id b.key buffer) (still _ _ refl refl refl))
]

pub observe_stream_failure-Advance :
    (s : RuntimeState) (id chunk : Text) → Advance s (observe_stream_failure s id chunk)
unfolding observe_stream_failure
observe_stream_failure-Advance s id chunk = elim (Option-cases (lookup id s.requests)) [
  | inl e ↦ rw (e, observe_stream_failure) (still s s refl refl refl)
  | inr (b, e) ↦
      let parts = split_frames (replace_all (b.stream_buffer ++ chunk) (str "\r\n") (str "\n")) in
      rw (e, observe_stream_failure)
        (elim (Bool-cases (nat_beq (length chunk) 0)) [
          | inl h ↦ rw h (still s s refl refl refl)
          | inr h ↦ elim (Bool-cases (ltb stream_limit (length b.stream_buffer + length chunk))) [
            | inl k ↦ rw (h, k) (still s _ refl refl refl)
            | inr k ↦
                rw (h, k)
                  (Advance-compose (note_frames-Advance s id b.key parts.0)
                    (note_rest-Advance (note_frames s id b.key parts.0) id parts.1 b))
          ]
        ])
]

pub append_history-Advance :
    (s : RuntimeState) (entry : HistoryEntry) → Advance s (append_history s entry)
unfolding append_history
append_history-Advance s entry = still s _ (ground arith) (ground arith) (ground arith)

pub claim-Advance :
    (s : RuntimeState) (now : Time) (auth_id model : Text) (policy : CredentialConfig)
    → Advance s (claim s now auth_id model policy).0
unfolding claim
claim-Advance s now auth_id model policy = still s _ refl refl refl

pub attempt-Advance :
    (s : RuntimeState) (job : ProbeJob) (index : ℕ) (at : Time) (value status : Text)
    → Advance s (attempt s job index at value status).0
unfolding attempt
attempt-Advance s job index at value status = still s _ (ground arith) (ground arith) (ground arith)

note_result-Advance :
    (s : RuntimeState) (job : ProbeJob) (now : Time) (outcome : Text)
    → Advance s (note_result s job now outcome)
unfolding note_result
note_result-Advance s job now outcome = still s _ (ground arith) (ground arith) (ground arith)

promote_probed-Advance :
    (env : Environment) (s : RuntimeState) (job : ProbeJob) (now : Time) (outcome : Text)
    (st : StoredState)
    → (stored_at job.key s.current).issued_at ≤ st.issued_at
    → Advance s (promote_probed env s job now outcome st)
unfolding promote_probed
promote_probed-Advance env s job now outcome st h =
    let stored : RuntimeState = record s {
      current = insert job.key st s.current;
      refresh_requests = erase job.key s.refresh_requests;
      blocked_until = erase job.key s.blocked_until;
    } in
    let first : Advance s stored = record {
      same_config = refl;
      same_generation = refl;
      newer = inserted_newer s.current job.key st h;
      moves = insert-Moves s.current job.key st h;
    } in
    Advance-compose first (
      Advance-compose (append_history-Advance stored (probe_entry env job now outcome)) (
        Advance-compose (still _ _ refl refl refl)
          (append_history-Advance _ (promote_entry env job now st))))

is_promoted_newer :
    (s : RuntimeState) (key : Text) (now : Time) (st : StoredState)
    → is_promoted s key now st ≡ true
    → (stored_at key s.current).issued_at ≤ st.issued_at
unfolding is_promoted
is_promoted_newer s key now st h = ground (arith, h)

close_probe-Advance :
    (env : Environment) (s : RuntimeState) (job : ProbeJob) (now : Time) (outcome : Text)
    (c : Option StoredState)
    → Advance s (close_probe env s job now outcome c).0
unfolding close_probe
close_probe-Advance env s job now outcome none =
    append_history-Advance s (probe_entry env job now outcome)
close_probe-Advance env s job now outcome (some st) =
    elim (Bool-cases (is_promoted s job.key now st)) [
      | inl h ↦
          rw h
            (promote_probed-Advance env s job now outcome st (is_promoted_newer s job.key now st h))
      | inr h ↦ rw h (append_history-Advance s (probe_entry env job now outcome))
    ]

pub finish_probe-Advance :
    (env : Environment) (s : RuntimeState) (job : ProbeJob) (now : Time) (outcome : Text)
    (c : Option StoredState)
    → Advance s (finish_probe env s job now outcome c).0
unfolding finish_probe
finish_probe-Advance env s job now outcome c =
    elim (Bool-cases (nat_beq job.generation s.generation)) [
      | inr h ↦ rw h (still s s refl refl refl)
      | inl h ↦ rw h (
          Advance-compose (note_result-Advance s job now outcome)
            (close_probe-Advance env (note_result s job now outcome) job now outcome c))
    ]
