-- ===== src/Management/Routes/Guarded.antt =====
-- Which requests to the panel change the state.
use cpa_codex_turn_state_plu.Base.{
  ◌≡◌, refl, inl, inr, false, not, ◌&&◌, ◌||◌, Bool-cases, Option-cases, [], Text, text_beq, str,
  arith,
}
use cpa_codex_turn_state_plu.Clock.{Time}
use cpa_codex_turn_state_plu.Environment.{Environment}
use cpa_codex_turn_state_plu.State.{RuntimeState}
use cpa_codex_turn_state_plu.Management.Accounts.{
  Begun, settled, fetching, begin_accounts, finish_accounts, or_index, with_accounts,
}
use cpa_codex_turn_state_plu.Management.Status.{status_payload}
use cpa_codex_turn_state_plu.Management.Routes.{
  ManagementRequest, ManagementAnswer, status, Readers, Beside, answer_status, resource_answer,
  method_of, first_text, management_route_path, decode_management_body, route_answer,
  handle_management,
}

-- Only the account cache may differ.
abbrev pub KeepsAllButAccounts : RuntimeState → RuntimeState → Type 0
KeepsAllButAccounts s t = t ≡ with_accounts s t.accounts

module _ (env : Environment) (readers : Readers) (beside : Beside) (s : RuntimeState)
    (now : Time) where
  pub answer_status-KeepsAllButAccounts :
      KeepsAllButAccounts s (answer_status env beside.listing s now).0
  unfolding answer_status
  answer_status-KeepsAllButAccounts = go (begin_accounts s.accounts now)
    where
      go :
          (b : Begun)
          → KeepsAllButAccounts s
              (elim b as (λ _. RuntimeState × ManagementAnswer) [
                | settled index resolved ↦
                    (s, status (status_payload env s now (or_index index) resolved))
                | fetching cache ↦
                    let done = finish_accounts env cache now beside.listing in
                    (with_accounts s done.0, status (status_payload env s now done.1 done.2))
              ]).0
      go (settled index resolved) = refl
      go (fetching cache) = refl

  pub resource_answer-KeepsAllButAccounts :
      (method path : Text) → KeepsAllButAccounts s (resource_answer env beside s now method path).0
  unfolding resource_answer
  resource_answer-KeepsAllButAccounts method path =
      elim (Bool-cases (
        not (text_beq method (str "GET"))
        || (not (text_beq path (str "/panel"))
            && not (text_beq path (str "/"))
            && not (text_beq path (str "/status"))))) [
              | inl a ↦ rw a refl
              | inr a ↦ elim (Bool-cases (text_beq path (str "/status"))) [
                | inl b ↦ rw (a, b) answer_status-KeepsAllButAccounts
                | inr b ↦ rw (a, b) refl
              ]
            ]

  route_answer-KeepsAllButAccounts :
      (method path body : Text)
      → text_beq method (str "POST") ≡ false
      → KeepsAllButAccounts s (route_answer env readers beside s now method path body).0
  unfolding route_answer
  route_answer-KeepsAllButAccounts method path body h =
      elim (Bool-cases (text_beq method (str "GET") && text_beq path (str "/status"))) [
        | inl a ↦ rw a answer_status-KeepsAllButAccounts
        | inr a ↦
            elim (Bool-cases
              (text_beq method (str "GET") && (text_beq path (str "/") || text_beq path []))) [
                | inl b ↦ rw (a, h, b) refl
                | inr b ↦ rw (a, h, b) refl
              ]
      ]

  -- A request whose method is not POST, and any request to the pages that a browser may open, leaves
  -- the state as it is, but for the cache of the accounts, which the status may fill.
  pub handle_management-still :
      (req : ManagementRequest)
      → text_beq (method_of req) (str "POST")
          && not (management_route_path (first_text req.path req.path_lower)).1
        ≡ false
      → KeepsAllButAccounts s (handle_management env readers beside s now req).0
  unfolding handle_management
  handle_management-still req h =
      let route = management_route_path (first_text req.path req.path_lower) in
      elim (Option-cases (decode_management_body readers.decode req.body req.body_lower)) [
        | inl e ↦ rw (e, handle_management) refl
        | inr (body, e) ↦ elim (Bool-cases route.1) [
          | inl r ↦
              rw (e, r, handle_management)
                (resource_answer-KeepsAllButAccounts (method_of req) route.0)
          | inr r ↦
              rw (e, r, handle_management)
                (route_answer-KeepsAllButAccounts (method_of req) route.0 body
                  (ground (arith, h, r)))
        ]
      ]
