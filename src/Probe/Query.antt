-- ===== src/Probe/Query.antt =====
-- probe.go: the request that `fetchProbe` sends: its body, printed by `json.Marshal` with the keys in
-- order, and its headers.
use cpa_codex_turn_state_plu.Base.{[], ◌++◌, if◌then◌else◌, Text, text_beq, text_eq, str}
use cpa_codex_turn_state_plu.Base.Dict.{Dict, insert}
use cpa_codex_turn_state_plu.Envelope.{quoted_onto}
use cpa_codex_turn_state_plu.Probe.Auth.{ProbeAuth}

pub record ProbeRequest : Type 0 where
  pub method : Text
  pub url : Text
  pub headers : Dict Text Text
  pub body : Text

-- The body: a prompt of its own, with the model of the probe.
unfoldable pub probe_body : Text → Text
probe_body model =
    str
      "{\"input\":[{\"content\":[{\"text\":\"ping\",\"type\":\"input_text\"}],\"role\":\"user\"}],\"instructions\":\"Reply with OK only.\",\"model\":"
    ++ quoted_onto model (str ",\"store\":false,\"stream\":true}")

-- The headers, in the order in which they are set.
unfoldable pub probe_headers : ProbeAuth → Dict Text Text
probe_headers auth =
    let token = insert (str "Authorization") (str "Bearer " ++ auth.access_token) [] in
    let account =
      if text_beq auth.account_id []
      then token
      else insert (str "Chatgpt-Account-Id") auth.account_id token in
    insert (str "User-Agent") (str "codex_cli_rs/0.101.0") (
      insert (str "Originator") (str "codex_cli_rs") (
        insert (str "Openai-Beta") (str "responses=experimental") (
          insert (str "Accept") (str "text/event-stream")
            (insert (str "Content-Type") (str "application/json") account))))

-- The request of `fetchProbe`. Header names stand in their canonical form.
unfoldable pub probe_request : ProbeAuth → Text → ProbeRequest
unfolding probe_body probe_headers
probe_request auth model = record {
  method = str "POST";
  url = str "https://chatgpt.com/backend-api/codex/responses";
  headers = probe_headers auth;
  body = probe_body model;
}
