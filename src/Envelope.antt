-- ===== src/Envelope.antt =====
-- plugin.go: `envelope`, `okEnvelope` and `errorEnvelope`, as `json.Marshal` writes them.
use cpa_codex_turn_state_plu.Base.{
  Option, none, some, [], ◌∷◌, ◌++◌, Text, text_beq, str, if◌then◌else◌,
}
use cpa_codex_turn_state_plu.Json.Strings.{escape_onto}

-- A string in front of what follows.
unfoldable pub quoted_onto : Text → Text → Text
unfolding escape_onto
quoted_onto s rest = b'"' ∷ escape_onto s (b'"' ∷ rest)

-- `errorEnvelope`
unfoldable pub error_envelope : Text → Text → Text
unfolding quoted_onto
error_envelope code message =
    str "{\"ok\":false,\"error\":{\"code\":"
    ++ quoted_onto code (str ",\"message\":" ++ quoted_onto message (str "}}"))

-- `okEnvelope`, where the value stands printed, or does not print.
unfoldable pub ok_envelope : Option Text → Option Text
ok_envelope none = none
ok_envelope (some raw) = some (
    if text_beq raw []
    then str "{\"ok\":true}"
    else str "{\"ok\":true,\"result\":" ++ (raw ++ str "}"))
