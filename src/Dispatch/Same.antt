-- ===== src/Dispatch/Same.antt =====
-- Which sections of the hooks leave the cache and the switch of the plugin alone.
use cpa_codex_turn_state_plu.Base.{
  ◌+◌, ◌++◌, ◌≡◌, refl, ◌∙◌, inl, inr, List, [], ◌∷◌, ltb, nat_beq, length, Bool-cases,
  Option-cases, Option, Text, text_eq, str, arith,
}
use cpa_codex_turn_state_plu.Base.Dict.{lookup}
use cpa_codex_turn_state_plu.Clock.{Time}
use cpa_codex_turn_state_plu.Text.{replace_all}
use cpa_codex_turn_state_plu.Json.{parse}
use cpa_codex_turn_state_plu.State.{RuntimeState, RequestBinding, StateCandidate}
use cpa_codex_turn_state_plu.Refresh.{queue_refresh}
use cpa_codex_turn_state_plu.Refresh.Stream.{
  note_failure, note_frames, note_rest, split_frames, frame_data, observe_stream_failure,
  stream_limit,
}
use cpa_codex_turn_state_plu.Request.{Completion, drop_previous, settle, promote, complete}

-- The two states accept the same and have the same cache.
pub record IsSame (s t : RuntimeState) : Type 0 where
  pub same_accepting : t.accepting ≡ s.accepting
  pub same_current : t.current ≡ s.current

IsSame-compose : {s t u : RuntimeState} → IsSame s t → IsSame t u → IsSame s u
IsSame-compose h k = record {
  same_accepting = k.same_accepting ∙ h.same_accepting;
  same_current = k.same_current ∙ h.same_current;
}

-- The states with the same two fields.
alike : (s t : RuntimeState) → t.accepting ≡ s.accepting → t.current ≡ s.current → IsSame s t
alike s t a c = record { same_accepting = a; same_current = c }

pub drop_previous-IsSame : (s : RuntimeState) (id : Text) → IsSame s (drop_previous s id)
unfolding drop_previous queue_refresh
drop_previous-IsSame s id = alike s _ (ground arith) (ground arith)

note_failure-IsSame : (s : RuntimeState) (id key raw : Text) → IsSame s (note_failure s id key raw)
unfolding note_failure queue_refresh
note_failure-IsSame s id key raw = alike s _ (ground arith) (ground arith)

note_frames-IsSame :
    (s : RuntimeState) (id key : Text) (fs : List Text) → IsSame s (note_frames s id key fs)
unfolding note_frames
note_frames-IsSame s id key [] = alike s s refl refl
note_frames-IsSame s id key (f ∷ fs) =
    IsSame-compose (note_failure-IsSame s id key (frame_data f))
      (note_frames-IsSame (note_failure s id key (frame_data f)) id key fs)

note_rest-IsSame :
    (s : RuntimeState) (id buffer : Text) (b : RequestBinding) → IsSame s (note_rest s id b buffer)
unfolding note_rest
note_rest-IsSame s id buffer b = elim (Option-cases (parse buffer)) [
  | inl e ↦ rw (e, note_rest) (alike s _ refl refl)
  | inr (j, e) ↦
      rw (e, note_rest)
        (IsSame-compose (note_failure-IsSame s id b.key buffer) (alike _ _ refl refl))
]

pub observe_stream_failure-IsSame :
    (s : RuntimeState) (id chunk : Text) → IsSame s (observe_stream_failure s id chunk)
unfolding observe_stream_failure
observe_stream_failure-IsSame s id chunk = elim (Option-cases (lookup id s.requests)) [
  | inl e ↦ rw (e, observe_stream_failure) (alike s s refl refl)
  | inr (b, e) ↦
      let parts = split_frames (replace_all (b.stream_buffer ++ chunk) (str "\r\n") (str "\n")) in
      rw (e, observe_stream_failure)
        (elim (Bool-cases (nat_beq (length chunk) 0)) [
          | inl h ↦ rw h (alike s s refl refl)
          | inr h ↦ elim (Bool-cases (ltb stream_limit (length b.stream_buffer + length chunk))) [
            | inl k ↦ rw (h, k) (alike s _ refl refl)
            | inr k ↦
                rw (h, k)
                  (IsSame-compose (note_frames-IsSame s id b.key parts.0)
                    (note_rest-IsSame (note_frames s id b.key parts.0) id parts.1 b))
          ]
        ])
]

settle-accepting :
    (s : RuntimeState) (done : Completion) (b : Option RequestBinding)
    → (settle s done b).accepting ≡ s.accepting
unfolding settle queue_refresh
settle-accepting s done b = ground arith

promote-accepting :
    (s : RuntimeState) (now : Time) (done : Completion) (c : Option StateCandidate)
    → (promote s now done c).0.accepting ≡ s.accepting
unfolding promote
promote-accepting s now done c = ground arith

pub complete-accepting :
    (s : RuntimeState) (now : Time) (done : Completion)
    → (complete s now done).0.accepting ≡ s.accepting
unfolding complete
complete-accepting s now done =
    promote-accepting _ now done (lookup done.request_id s.candidates)
    ∙ settle-accepting s done (lookup done.request_id s.requests)
