-- ===== src/System/Requests.antt =====
-- The hooks on a request keep the invariant.
use cpa_codex_turn_state_plu.Base.{
  ◌+◌, ◌++◌, ◌≡◌, refl, ap, inl, inr, not, ◌&&◌, ◌||◌, Option, none, some, List, [], ◌∷◌, ltb,
  nat_beq, length, Bool-cases, Option-cases, Text, text_beq, text_eq, str, arith,
}
use cpa_codex_turn_state_plu.Base.Dict.{
  Dict, lookup, insert, erase, Each-lookup, Each-insert, Each-erase,
}
use cpa_codex_turn_state_plu.Clock.{Time}
use cpa_codex_turn_state_plu.Text.{replace_all}
use cpa_codex_turn_state_plu.Json.{parse}
use cpa_codex_turn_state_plu.Config.{PluginConfig, CredentialConfig}
use cpa_codex_turn_state_plu.Policy.{credential_for, auto_update_enabled}
use cpa_codex_turn_state_plu.Keys.{state_key, split_state_key, split_state_key-state_key}
use cpa_codex_turn_state_plu.State.{RuntimeState, StoredState, RequestBinding, StateCandidate}
use cpa_codex_turn_state_plu.Refresh.{may_queue, queue_refresh, failure_refresh_reason}
use cpa_codex_turn_state_plu.Refresh.Event.{stream_failure_reason}
use cpa_codex_turn_state_plu.Refresh.Stream.{
  note_failure, note_frames, note_rest, split_frames, frame_data, observe_stream_failure,
  stream_limit,
}
use cpa_codex_turn_state_plu.Request.{
  InterceptRequest, Completion, drop_previous, bind_request, request_policy, answer, header_value,
  usable_state, improves, stage, updating, capture_bound, capture_candidate, settle, may_promote,
  promote, complete,
}
use cpa_codex_turn_state_plu.Request.Usable.{Usable, usable_state-Usable}
use cpa_codex_turn_state_plu.System.Sound.{IsGenuine, IsNamed, IsStaged, IsSound}

pub queue_refresh-IsSound :
    (s : RuntimeState) (key reason : Text) → IsSound s → IsSound (queue_refresh s key reason)
unfolding queue_refresh
queue_refresh-IsSound s key reason v = elim (Bool-cases (may_queue s key reason)) [
  | inl h ↦ rw h v
  | inr h ↦ rw h v
]

-- Forgetting the bindings and candidates of a request.
pub forget-IsSound :
    (s : RuntimeState) (id : Text)
    → IsSound s
    → IsSound (record s { requests = erase id s.requests; candidates = erase id s.candidates })
forget-IsSound s id v = record {
  genuine = v.genuine;
  staged = Each-erase (IsStaged s.config) id s.candidates v.staged;
  named = Each-erase IsNamed id s.requests v.named;
  bounded = v.bounded;
}

pub drop_previous-IsSound :
    (s : RuntimeState) (id : Text) → IsSound s → IsSound (drop_previous s id)
unfolding drop_previous
drop_previous-IsSound s id v = elim (Option-cases (lookup id s.requests)) [
  | inl e ↦ rw (e, drop_previous) (forget-IsSound s id v)
  | inr (b, e) ↦
      rw (e, drop_previous)
        (forget-IsSound (queue_refresh s b.key (str "credential_retry")) id
          (queue_refresh-IsSound s b.key (str "credential_retry") v))
]

bind_request-IsSound :
    (s : RuntimeState) (req : InterceptRequest) (c : CredentialConfig) (auth_id model : Text)
    → IsSound s
    → IsSound (bind_request s req c auth_id (state_key auth_id model))
unfolding bind_request
bind_request-IsSound s req c auth_id model v =
    elim (Bool-cases (not (text_beq req.request_id []) && auto_update_enabled s.config c)) [
      | inl h ↦ rw h (record {
        genuine = v.genuine;
        staged = Each-erase (IsStaged s.config) req.request_id s.candidates v.staged;
        named =
            Each-insert IsNamed req.request_id _ s.requests
              (ap (λ p. p.0) (split_state_key-state_key auth_id model)) v.named;
        bounded = v.bounded;
      })
      | inr h ↦ rw h v
    ]

pub answer-IsSound :
    (s : RuntimeState) (now : Time) (req : InterceptRequest) (auth_id model : Text)
    → IsSound s
    → IsSound (answer s now req auth_id model).0
unfolding answer
answer-IsSound s now req auth_id model v = elim (Bool-cases s.accepting) [
  | inr h ↦ rw h v
  | inl h ↦ elim (Option-cases (request_policy s.config req auth_id)) [
    | inl e ↦ rw h (rw (e, answer) v)
    | inr (c, e) ↦ rw h (rw (e, answer) (bind_request-IsSound s req c auth_id model v))
  ]
]

pub Usable-IsGenuine :
    (cfg : PluginConfig) (key : Text) {c : CredentialConfig} {now : Time} {st : StoredState}
    → credential_for cfg (split_state_key key).0 ≡ some c
    → Usable cfg c now st
    → IsGenuine cfg key st
Usable-IsGenuine cfg key {c} configured u = record {
  policy = c;
  configured = configured;
  normal = u.normal;
  limit = cfg.max_state_bytes;
  info = u.info;
  parses = u.parses;
  issued = u.issued;
  counted = u.counted;
}

stage-IsSound :
    (s : RuntimeState) (id : Text) (b : RequestBinding) (st : StoredState)
    → IsGenuine s.config b.key st
    → IsSound s
    → IsSound (stage s id b st)
unfolding stage
stage-IsSound s id b st g v = elim (Bool-cases (improves s.current b.key st)) [
  | inr h ↦ rw h v
  | inl h ↦ rw h (record {
    genuine = v.genuine;
    staged =
        Each-insert (IsStaged s.config) id (record { auth_id = b.auth_id; key = b.key; state = st })
          s.candidates g v.staged;
    named = v.named;
    bounded = v.bounded;
  })
]

updating-configured :
    (cfg : PluginConfig) (auth_id : Text) {c : CredentialConfig}
    → updating cfg auth_id ≡ some c
    → credential_for cfg auth_id ≡ some c
unfolding updating
updating-configured cfg auth_id h = ground arith

capture_bound-IsSound :
    (s : RuntimeState) (now : Time) (id value : Text) (b : RequestBinding)
    → (split_state_key b.key).0 ≡ b.auth_id
    → IsSound s
    → IsSound (capture_bound s now id value b)
unfolding capture_bound
capture_bound-IsSound s now id value b named v = elim (Bool-cases s.accepting) [
  | inr h ↦ rw h v
  | inl h ↦ elim (Option-cases (updating s.config b.auth_id)) [
    | inl e ↦ rw h (rw (e, capture_bound) v)
    | inr (c, e) ↦ elim (Option-cases (usable_state s.config c now value)) [
      | inl f ↦ rw h (rw (e, capture_bound) (rw (f, capture_bound) v))
      | inr (st, f) ↦
          let g =
            Usable-IsGenuine s.config b.key {now = now}
              (rw named (updating-configured s.config b.auth_id e))
              (usable_state-Usable s.config c now value f).0 in
          rw h (rw (e, capture_bound) (rw (f, capture_bound) (stage-IsSound s id b st g v)))
    ]
  ]
]

pub capture_candidate-IsSound :
    (s : RuntimeState) (now : Time) (id : Text) (headers : Dict Text (List Text))
    → IsSound s
    → IsSound (capture_candidate s now id headers)
unfolding capture_candidate
capture_candidate-IsSound s now id headers v =
    elim (Bool-cases (text_beq id [] || text_beq (header_value headers) [])) [
      | inl h ↦ rw h v
      | inr h ↦ elim (Option-cases (lookup id s.requests)) [
        | inl e ↦ rw h (rw (e, capture_candidate) v)
        | inr (b, e) ↦ rw h (
            rw (e, capture_candidate)
              (capture_bound-IsSound s now id (header_value headers) b
                (Each-lookup IsNamed id s.requests v.named e) v))
      ]
    ]

settle-IsSound :
    (s : RuntimeState) (done : Completion) (b : Option RequestBinding)
    → IsSound s
    → IsSound (settle s done b)
unfolding settle
settle-IsSound s done none v = v
settle-IsSound s done (some b) v = elim (Bool-cases (text_beq done.outcome (str "failed"))) [
  | inl h ↦
      rw h (queue_refresh-IsSound s b.key (failure_refresh_reason done.status_code done.error) v)
  | inr h ↦ elim (Bool-cases (text_beq done.outcome (str "succeeded"))) [
    | inl k ↦ rw (h, k) v
    | inr k ↦ rw (h, k) v
  ]
]

promote-IsSound :
    (s : RuntimeState) (now : Time) (done : Completion) (c : Option StateCandidate)
    → ((x : StateCandidate) → c ≡ some x → IsGenuine s.config x.key x.state)
    → IsSound s
    → IsSound (promote s now done c).0
unfolding promote
promote-IsSound s now done none g v = v
promote-IsSound s now done (some x) g v = elim (Bool-cases (may_promote s now done x)) [
  | inr h ↦ rw (h, promote) v
  | inl h ↦
      rw (h, promote)
        (record {
          genuine = Each-insert (IsGenuine s.config) x.key x.state s.current (g x refl) v.genuine;
          staged = v.staged;
          named = v.named;
          bounded = v.bounded;
        })
]

settle-config :
    (s : RuntimeState) (done : Completion) (b : Option RequestBinding)
    → (settle s done b).config ≡ s.config
unfolding settle queue_refresh
settle-config s done none = refl
settle-config s done (some b) = ground arith

pub complete-IsSound :
    (s : RuntimeState) (now : Time) (done : Completion)
    → IsSound s
    → IsSound (complete s now done).0
unfolding complete
complete-IsSound s now done v =
    let settled = settle s done (lookup done.request_id s.requests) in
    promote-IsSound _ now done (lookup done.request_id s.candidates)
      (λ x e.
        rw (settle-config s done (lookup done.request_id s.requests))
          (Each-lookup (IsStaged s.config) done.request_id s.candidates v.staged e))
      (forget-IsSound settled done.request_id
        (settle-IsSound s done (lookup done.request_id s.requests) v))

note_failure-IsSound :
    (s : RuntimeState) (id key raw : Text) → IsSound s → IsSound (note_failure s id key raw)
unfolding note_failure
note_failure-IsSound s id key raw v = elim (Bool-cases (text_beq (stream_failure_reason raw) [])) [
  | inl h ↦ rw h v
  | inr h ↦
      let q = queue_refresh-IsSound s key (stream_failure_reason raw) v in
      rw h (record {
        genuine = q.genuine;
        staged = Each-erase (IsStaged _) id _ q.staged;
        named = q.named;
        bounded = q.bounded;
      })
]

note_frames-IsSound :
    (s : RuntimeState) (id key : Text) (fs : List Text)
    → IsSound s
    → IsSound (note_frames s id key fs)
unfolding note_frames
note_frames-IsSound s id key [] v = v
note_frames-IsSound s id key (f ∷ fs) v =
    note_frames-IsSound (note_failure s id key (frame_data f)) id key fs
      (note_failure-IsSound s id key (frame_data f) v)

-- A binding keeps its key when its buffer changes.
rebuffer-IsSound :
    (s : RuntimeState) (id buffer : Text) (b : RequestBinding)
    → (split_state_key b.key).0 ≡ b.auth_id
    → IsSound s
    → IsSound (record s { requests = insert id (record b { stream_buffer = buffer }) s.requests })
rebuffer-IsSound s id buffer b named v = record {
  genuine = v.genuine;
  staged = v.staged;
  named = Each-insert IsNamed id _ s.requests named v.named;
  bounded = v.bounded;
}

note_rest-IsSound :
    (s : RuntimeState) (id buffer : Text) (b : RequestBinding)
    → (split_state_key b.key).0 ≡ b.auth_id
    → IsSound s
    → IsSound (note_rest s id b buffer)
unfolding note_rest
note_rest-IsSound s id buffer b named v = elim (Option-cases (parse buffer)) [
  | inl e ↦ rw (e, note_rest) (rebuffer-IsSound s id buffer b named v)
  | inr (j, e) ↦
      rw (e, note_rest)
        (rebuffer-IsSound (note_failure s id b.key buffer) id [] b named
          (note_failure-IsSound s id b.key buffer v))
]

pub observe_stream_failure-IsSound :
    (s : RuntimeState) (id chunk : Text) → IsSound s → IsSound (observe_stream_failure s id chunk)
unfolding observe_stream_failure
observe_stream_failure-IsSound s id chunk v = elim (Option-cases (lookup id s.requests)) [
  | inl e ↦ rw (e, observe_stream_failure) v
  | inr (b, e) ↦
      let named = Each-lookup IsNamed id s.requests v.named e in
      let parts = split_frames (replace_all (b.stream_buffer ++ chunk) (str "\r\n") (str "\n")) in
      rw (e, observe_stream_failure)
        (elim (Bool-cases (nat_beq (length chunk) 0)) [
          | inl h ↦ rw h v
          | inr h ↦ elim (Bool-cases (ltb stream_limit (length b.stream_buffer + length chunk))) [
            | inl k ↦ rw (h, k) (rebuffer-IsSound s id [] b named v)
            | inr k ↦
                rw (h, k)
                  (note_rest-IsSound (note_frames s id b.key parts.0) id parts.1 b named
                    (note_frames-IsSound s id b.key parts.0 v))
          ]
        ])
]
