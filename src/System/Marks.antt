-- ===== src/System/Marks.antt =====
-- Which keys are marked as probed after each section.
use cpa_codex_turn_state_plu.Base.{
  ℕ, ◌++◌, ◌≡◌, refl, ◌∙◌, inl, inr, Option, List, [], ◌∷◌, nat_beq, if◌then◌else◌, Option-cases,
  Text, text_eq, arith, str,
}
use cpa_codex_turn_state_plu.Base.Dict.{Dict, lookup, erase}
use cpa_codex_turn_state_plu.Clock.{Time}
use cpa_codex_turn_state_plu.Environment.{Environment}
use cpa_codex_turn_state_plu.Text.{replace_all}
use cpa_codex_turn_state_plu.State.{
  RuntimeState, RequestBinding, StoredState, StateCandidate, HistoryEntry,
}
use cpa_codex_turn_state_plu.Refresh.{queue_refresh}
use cpa_codex_turn_state_plu.Refresh.Stream.{
  note_failure, note_frames, note_rest, split_frames, frame_data, observe_stream_failure,
}
use cpa_codex_turn_state_plu.History.{append_history}
use cpa_codex_turn_state_plu.Request.{
  InterceptRequest, Completion, drop_previous, bind_request, answer, stage, capture_bound,
  capture_candidate, settle, promote, complete,
}
use cpa_codex_turn_state_plu.Probe.{
  ProbeJob, attempt, note_result, promote_probed, close_probe, finish_probe,
}

pub drop_previous-probing :
    (s : RuntimeState) (id : Text) → (drop_previous s id).probing ≡ s.probing
unfolding drop_previous queue_refresh
drop_previous-probing s id = ground arith

pub answer-probing :
    (s : RuntimeState) (now : Time) (req : InterceptRequest) (auth_id model : Text)
    → (answer s now req auth_id model).0.probing ≡ s.probing
unfolding answer bind_request
answer-probing s now req auth_id model = ground arith

pub capture_candidate-probing :
    (s : RuntimeState) (now : Time) (id : Text) (headers : Dict Text (List Text))
    → (capture_candidate s now id headers).probing ≡ s.probing
unfolding capture_candidate capture_bound stage
capture_candidate-probing s now id headers = ground arith

settle-probing :
    (s : RuntimeState) (done : Completion) (b : Option RequestBinding)
    → (settle s done b).probing ≡ s.probing
unfolding settle queue_refresh
settle-probing s done b = ground arith

promote-probing :
    (s : RuntimeState) (now : Time) (done : Completion) (c : Option StateCandidate)
    → (promote s now done c).0.probing ≡ s.probing
unfolding promote
promote-probing s now done c = ground arith

pub complete-probing :
    (s : RuntimeState) (now : Time) (done : Completion)
    → (complete s now done).0.probing ≡ s.probing
unfolding complete
complete-probing s now done =
    promote-probing _ now done (lookup done.request_id s.candidates)
    ∙ settle-probing s done (lookup done.request_id s.requests)

note_failure-probing :
    (s : RuntimeState) (id key raw : Text) → (note_failure s id key raw).probing ≡ s.probing
unfolding note_failure queue_refresh
note_failure-probing s id key raw = ground arith

note_frames-probing :
    (s : RuntimeState) (id key : Text) (fs : List Text)
    → (note_frames s id key fs).probing ≡ s.probing
unfolding note_frames
note_frames-probing s id key [] = refl
note_frames-probing s id key (f ∷ fs) =
    note_frames-probing (note_failure s id key (frame_data f)) id key fs
    ∙ note_failure-probing s id key (frame_data f)

note_rest-probing :
    (s : RuntimeState) (id buffer : Text) (b : RequestBinding)
    → (note_rest s id b buffer).probing ≡ s.probing
unfolding note_rest
note_rest-probing s id buffer b = ground (arith, note_failure-probing s id b.key buffer)

pub observe_stream_failure-probing :
    (s : RuntimeState) (id chunk : Text) → (observe_stream_failure s id chunk).probing ≡ s.probing
unfolding observe_stream_failure
observe_stream_failure-probing s id chunk = elim (Option-cases (lookup id s.requests)) [
  | inl e ↦ rw (e, observe_stream_failure) refl
  | inr (b, e) ↦
      let parts = split_frames (replace_all (b.stream_buffer ++ chunk) (str "\r\n") (str "\n")) in
      rw (e, observe_stream_failure)
        (ground (
          arith,
          note_frames-probing s id b.key parts.0,
          note_rest-probing (note_frames s id b.key parts.0) id parts.1 b,
        ))
]

pub attempt-probing :
    (s : RuntimeState) (job : ProbeJob) (index : ℕ) (at : Time) (value status : Text)
    → (attempt s job index at value status).0.probing ≡ s.probing
unfolding attempt
attempt-probing s job index at value status = ground arith

append_history-probing :
    (s : RuntimeState) (entry : HistoryEntry) → (append_history s entry).probing ≡ s.probing
unfolding append_history
append_history-probing s entry = ground arith

close_probe-probing :
    (env : Environment) (s : RuntimeState) (job : ProbeJob) (now : Time) (outcome : Text)
    (c : Option StoredState)
    → (close_probe env s job now outcome c).0.probing ≡ s.probing
unfolding close_probe promote_probed append_history
close_probe-probing env s job now outcome c = ground arith

-- A probe of the current generation takes its mark away, and one of another generation none.
pub finish_probe-probing :
    (env : Environment) (s : RuntimeState) (job : ProbeJob) (now : Time) (outcome : Text)
    (c : Option StoredState)
    → (finish_probe env s job now outcome c).0.probing
      ≡ (if nat_beq job.generation s.generation then erase job.key s.probing else s.probing)
unfolding finish_probe note_result
finish_probe-probing env s job now outcome c =
    ground (arith, close_probe-probing env (note_result s job now outcome) job now outcome c)
