-- ===== src/Management/Routes/Registered.antt =====
-- management.go: `managementRegistration`, and the status of the answers.
use cpa_codex_turn_state_plu.Base.{ℕ, List, [], ◌∷◌, Text, str, ok, err}
use cpa_codex_turn_state_plu.Management.Routes.{
  ManagementAnswer, invalid_body, resource_not_found, route_not_found, status, panel, about,
  refreshed, cleared,
}

-- `managementRoute`, without the texts of the menu.
pub record ManagementRoute : Type 0 where
  pub method : Text
  pub path : Text

-- `managementRegistration`: the routes of the Management API and the pages for a browser.
abbrev pub registered_routes : List ManagementRoute
registered_routes =
    record { method = str "GET"; path = str "/codex-turn-state/status" }
    ∷ record { method = str "POST"; path = str "/codex-turn-state/refresh" }
    ∷ record { method = str "POST"; path = str "/codex-turn-state/clear" }
    ∷ []

abbrev pub registered_resources : List ManagementRoute
registered_resources =
    record { method = []; path = str "/panel" } ∷ record { method = []; path = str "/status" } ∷ []

-- The status that goes with an answer.
unfoldable pub answer_code : ManagementAnswer → ℕ
answer_code invalid_body = 400
answer_code resource_not_found = 404
answer_code route_not_found = 404
answer_code (status v) = 200
answer_code panel = 200
answer_code about = 200
answer_code (refreshed r) = 200
answer_code (cleared (err e)) = 400
answer_code (cleared (ok r)) = 200
