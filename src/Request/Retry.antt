-- ===== src/Request/Retry.antt =====
-- A retry under the same request starts from nothing.
use cpa_codex_turn_state_plu.Base.{
  ◌≡◌, refl, ◌∙◌, inl, inr, not, ◌&&◌, none, [], Bool-cases, Option-cases, Text, text_beq, text_eq,
  str,
}
use cpa_codex_turn_state_plu.Base.Dict.{Dict, lookup, erase, lookup-erase, beq_refl}
use cpa_codex_turn_state_plu.Clock.{Time}
use cpa_codex_turn_state_plu.Environment.{Environment}
use cpa_codex_turn_state_plu.Config.{CredentialConfig}
use cpa_codex_turn_state_plu.Policy.{auto_update_enabled}
use cpa_codex_turn_state_plu.Keys.{state_key}
use cpa_codex_turn_state_plu.State.{RuntimeState}
use cpa_codex_turn_state_plu.Refresh.{queue_refresh}
use cpa_codex_turn_state_plu.Request.{
  InterceptRequest, InterceptResponse, Route, answered, managed, drop_previous, route, bind_request,
  request_policy, answer, intercept_after,
}

erased : (id : Text) {V : Type 0} (d : Dict Text V) → lookup id (erase id d) ≡ none
erased id d = lookup-erase id id d ∙ rw (beq_refl id) refl

drop_previous-candidates :
    (s : RuntimeState) (id : Text) → lookup id (drop_previous s id).candidates ≡ none
unfolding drop_previous
drop_previous-candidates s id = elim (Option-cases (lookup id s.requests)) [
  | inl e ↦ rw (e, drop_previous) (erased id s.candidates)
  | inr (b, e) ↦
      rw (e, drop_previous) (erased id (queue_refresh s b.key (str "credential_retry")).candidates)
]

bind_request-candidates :
    (s : RuntimeState) (req : InterceptRequest) (c : CredentialConfig) (auth_id key : Text)
    → lookup req.request_id s.candidates ≡ none
    → lookup req.request_id (bind_request s req c auth_id key).candidates ≡ none
unfolding bind_request
bind_request-candidates s req c auth_id key h =
    elim (Bool-cases (not (text_beq req.request_id []) && auto_update_enabled s.config c)) [
      | inl e ↦ rw e (erased req.request_id s.candidates)
      | inr e ↦ rw e h
    ]

answer-candidates :
    (s : RuntimeState) (now : Time) (req : InterceptRequest) (auth_id model : Text)
    → lookup req.request_id s.candidates ≡ none
    → lookup req.request_id (answer s now req auth_id model).0.candidates ≡ none
unfolding answer
answer-candidates s now req auth_id model h = elim (Bool-cases s.accepting) [
  | inr e ↦ rw e h
  | inl e ↦ elim (Option-cases (request_policy s.config req auth_id)) [
    | inl f ↦ rw e (rw (f, answer) h)
    | inr (c, f) ↦
        rw e (rw (f, answer) (bind_request-candidates s req c auth_id (state_key auth_id model) h))
  ]
]

-- After interceptAfter, on every branch, no candidate of an earlier attempt of the request is left,
-- if the probe in the middle stages none for this request.
pub intercept_after-candidates :
    (env : Environment) (probe : RuntimeState → Text → Text → RuntimeState) (s : RuntimeState)
    (start now : Time) (req : InterceptRequest)
    → ((t : RuntimeState) (auth_id model : Text)
        → lookup req.request_id t.candidates ≡ none
        → lookup req.request_id (probe t auth_id model).candidates ≡ none)
    → lookup req.request_id (intercept_after env probe s start now req).0.candidates ≡ none
unfolding intercept_after
intercept_after-candidates env probe s start now req keeps =
    go (route env (drop_previous s req.request_id).accounts start req)
  where
    go :
        (r : Route)
        → lookup req.request_id
            (elim r as (λ _. RuntimeState × InterceptResponse) [
              | answered response ↦ (drop_previous s req.request_id, response)
              | managed auth_id model ↦
                  answer
                    (probe (drop_previous s req.request_id) auth_id model)
                    now
                    req
                    auth_id
                    model
            ]).0.candidates
          ≡ none
    go (answered response) = drop_previous-candidates s req.request_id
    go (managed auth_id model) = answer-candidates _ now req auth_id model (
        keeps (drop_previous s req.request_id) auth_id model
          (drop_previous-candidates s req.request_id))
