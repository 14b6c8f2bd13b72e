-- ===== src/Dispatch/Quiet.antt =====
-- What the host may call of a plugin that was quiesced or stopped.
use cpa_codex_turn_state_plu.Base.{◌≡◌, Bool, true, false, List, [], ◌∷◌, Text, text_eq}
use cpa_codex_turn_state_plu.Environment.{Environment}
use cpa_codex_turn_state_plu.State.{RuntimeState}
use cpa_codex_turn_state_plu.Request.{Route, answered, managed}
use cpa_codex_turn_state_plu.Management.Routes.{Readers, Beside}
use cpa_codex_turn_state_plu.Dispatch.{
  Call, register_management, manage, register, quiesce, stop, before_auth, after_auth, response,
  stream_chunk, request_complete, unknown, MethodReply, acknowledged, failed, not_saved,
  intercepted, panel_reply, unknown_method, handle_method,
}
use cpa_codex_turn_state_plu.Dispatch.Stopped.{IsQuiet}

-- No header for a request that is answered before a credential is chosen.
abbrev HasNone : Route → Type 0
HasNone (answered r) = r.headers ≡ []
HasNone (managed auth_id model) = Unit

-- What runs beside a call of a stopped plugin leaves it stopped and adds no state.
abbrev pub IsQuietBeside : Beside → Type 0
IsQuietBeside beside =
    (s : RuntimeState) (auth_id model : Text)
    → s.accepting ≡ false
    → IsQuiet s (beside.probe s auth_id model)

-- The reply puts a header into a request.
abbrev pub injects : MethodReply → Bool
injects (intercepted r) = elim r.headers [ [] ↦ false | _ ∷ _ ↦ true ]
injects acknowledged = false
injects (failed e) = false
injects (not_saved e) = false
injects (panel_reply a) = false
injects (unknown_method m) = false

abbrev pub is_register : Call → Bool
is_register (register schema doc file) = true
is_register register_management = false
is_register (manage now req) = false
is_register quiesce = false
is_register stop = false
is_register before_auth = false
is_register (after_auth start now req) = false
is_register (response now id headers) = false
is_register (stream_chunk now chunk) = false
is_register (request_complete now done os disk) = false
is_register (unknown method) = false

-- What a call leaves and replies.
abbrev IsCalm : RuntimeState → RuntimeState × MethodReply → Type 0
IsCalm s r = IsQuiet s r.0 × (injects r.1 ≡ false)

-- The host's calls one after the other: the state after them, and the replies.
unfoldable pub served :
    Environment → Readers → Beside → List Call → RuntimeState → RuntimeState × List MethodReply
served env readers beside [] s = (s, [])
served env readers beside (call ∷ rest) s =
    let first = handle_method env readers beside s call in
    let later = served env readers beside rest first.0 in (later.0, first.1 ∷ later.1)
