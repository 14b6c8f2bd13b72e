-- ===== src/Management/Routes.antt =====
-- management.go: `handleManagement` and the routes. The request stands decoded; `decode` is
-- `base64.StdEncoding.DecodeString`, and the two readers decode the bodies of the actions.
pub mod Guarded
pub mod Registered
use cpa_codex_turn_state_plu.Base.{
  ℕ, Bool, true, false, not, ◌&&◌, ◌||◌, Option, none, some, List, [], ◌∷◌, ◌++◌, nat_beq,
  if◌then◌else◌, Text, text_beq, str, Result, ok, err,
}
use cpa_codex_turn_state_plu.Clock.{Time}
use cpa_codex_turn_state_plu.Environment.{Environment}
use cpa_codex_turn_state_plu.Text.{trim, to_upper, has_prefix, trim_prefix, drop_while_end}
use cpa_codex_turn_state_plu.Json.{Json, null, string, parse}
use cpa_codex_turn_state_plu.State.{RuntimeState}
use cpa_codex_turn_state_plu.Management.Clear.{ClearRequest, ClearError, ClearResult, clear_action}
use cpa_codex_turn_state_plu.Management.Refresh.{
  RefreshRequest, RefreshError, RefreshResult, refresh_action, start_queued,
}
use cpa_codex_turn_state_plu.Management.Accounts.{
  ListedAccount, settled, fetching, begin_accounts, finish_accounts, or_index, with_accounts,
}
use cpa_codex_turn_state_plu.Management.Status.{StatusView, plugin_name, status_payload}

-- `cleanRoutePath`
unfoldable pub clean_route_path : Text → Text
clean_route_path path =
    let trimmed = drop_while_end (nat_beq b'/') path in
    if text_beq trimmed [] then str "/" else trimmed

-- `orRootPath`
unfoldable pub or_root_path : Text → Text
or_root_path path = if text_beq path [] then str "/" else path

-- The path is the prefix, or lies below it.
unfoldable pub is_below : Text → Text → Bool
is_below path prefix = text_beq path prefix || has_prefix path (prefix ++ b'/' ∷ [])

-- The loop over the prefixes.
unfoldable pub strip_first : Text → List Text → Text
unfolding or_root_path clean_route_path is_below
strip_first path [] = if text_beq path [] then str "/" else clean_route_path path
strip_first path (prefix ∷ rest) =
    let later = strip_first path rest in
    if is_below path prefix
    then or_root_path (clean_route_path (trim_prefix path prefix))
    else later

abbrev pub resource_base : Text
resource_base = str "/v0/resource/plugins/" ++ plugin_name

abbrev pub prefixes : List Text
prefixes =
    (str "/v0/management/plugins/" ++ plugin_name)
    ∷ (str "/v0/management/" ++ plugin_name)
    ∷ str "/v0/management/codex-turn-state"
    ∷ str "/v0/management"
    ∷ (str "/plugins/" ++ plugin_name)
    ∷ str "/codex-turn-state"
    ∷ []

-- `managementRoutePath`: the path, and whether it is that of a resource.
unfoldable pub management_route_path : Text → Text × Bool
unfolding strip_first or_root_path clean_route_path is_below
management_route_path raw =
    let path = trim raw in
    if is_below path resource_base
    then (or_root_path (clean_route_path (trim_prefix path resource_base)), true)
    else (strip_first path prefixes, false)

-- `firstText` of two
unfoldable pub first_text : Text → Text → Text
first_text a b =
    if not (text_beq (trim a) []) then a else if not (text_beq (trim b) []) then b else []

pub record ManagementRequest : Type 0 where
  pub method : Text
  pub method_lower : Text
  pub path : Text
  pub path_lower : Text
  pub body : Text
  pub body_lower : Text

is_empty_body : Text → Bool
is_empty_body raw = text_beq raw [] || text_beq raw (str "null")

-- The body of the envelope: a string holds it in base64, and anything else is taken as it is.
unfoldable pub unwrap_body : (Text → Option Text) → Text → Option Json → Option Text
unwrap_body decode raw (some (string encoded)) =
    if text_beq encoded [] then some [] else decode encoded
unwrap_body decode raw (some null) = some []
unwrap_body decode raw _ = some raw

-- `decodeManagementBody`; the empty text stands for no body.
unfoldable pub decode_management_body : (Text → Option Text) → Text → Text → Option Text
unfolding is_empty_body unwrap_body
decode_management_body decode official legacy =
    let raw = if is_empty_body official then legacy else official in
    if is_empty_body raw then some [] else unwrap_body decode raw (parse raw)

-- The answers: the page and the description of the routes stand for themselves.
pub data ManagementAnswer : Type 0 where
  invalid_body resource_not_found route_not_found panel about : ManagementAnswer
  status : StatusView → ManagementAnswer
  refreshed : Result RefreshError RefreshResult → ManagementAnswer
  cleared : Result ClearError ClearResult → ManagementAnswer

pub record Readers : Type 0 where
  pub decode : Text → Option Text
  -- `json.Unmarshal` of a body that is not empty
  pub read_refresh : Text → Option RefreshRequest
  pub read_clear : Text → Option ClearRequest

-- An empty body is the zero request.
abbrev zero_refresh : RefreshRequest
zero_refresh = record { all = false; accounts = []; models = []; handles = [] }

abbrev zero_clear : ClearRequest
zero_clear = record { scope = []; all = false; accounts = []; models = []; handles = [] }

unfoldable pub refresh_body : Readers → Text → Option RefreshRequest
refresh_body readers body =
    if text_beq body [] then some zero_refresh else readers.read_refresh body

unfoldable pub clear_body : Readers → Text → Option ClearRequest
clear_body readers body = if text_beq body [] then some zero_clear else readers.read_clear body

-- What runs beside the handler: `probe` is what `ensureProbe` and whatever runs beside it make of the
-- state, and `listing` is what the host answers when it is asked for the accounts.
pub record Beside : Type 0 where
  pub probe : RuntimeState → Text → Text → RuntimeState
  pub listing : Result Text (List ListedAccount)

-- `statusPayload` with its call of `accountsByHash`, which may ask the host and fill the cache.
unfoldable pub answer_status :
    Environment
    → Result Text (List ListedAccount)
    → RuntimeState
    → Time
    → RuntimeState × ManagementAnswer
answer_status env listing s now = elim (begin_accounts s.accounts now) [
  | settled index resolved ↦ (s, status (status_payload env s now (or_index index) resolved))
  | fetching cache ↦
      let done = finish_accounts env cache now listing in
      (with_accounts s done.0, status (status_payload env s now done.1 done.2))
]

-- The state and the answer after an action. Without a worker the queued keys are probed at once.
unfoldable pub after_refresh :
    Beside
    → RuntimeState
    → Result RefreshError (RuntimeState × RefreshResult)
    → RuntimeState × ManagementAnswer
after_refresh beside s (err e) = (s, refreshed (err e))
after_refresh beside s (ok r) = (
  (if r.0.has_worker then r.0 else start_queued beside.probe r.1.queued_keys r.0),
  refreshed (ok r.1),
)

unfoldable pub after_clear :
    RuntimeState → Result ClearError (RuntimeState × ClearResult) → RuntimeState × ManagementAnswer
after_clear s (err e) = (s, cleared (err e))
after_clear s (ok r) = (r.0, cleared (ok r.1))

-- The branch of the resources.
unfoldable pub resource_answer :
    Environment → Beside → RuntimeState → Time → Text → Text → RuntimeState × ManagementAnswer
unfolding answer_status
resource_answer env beside s now method path =
    if not (text_beq method (str "GET"))
      || (not (text_beq path (str "/panel"))
          && not (text_beq path (str "/"))
          && not (text_beq path (str "/status")))
    then (s, resource_not_found)
    else if text_beq path (str "/status")
    then answer_status env beside.listing s now
    else (s, panel)

-- The `switch` on method and path.
unfoldable pub route_answer :
    Environment
    → Readers
    → Beside
    → RuntimeState
    → Time
    → Text
    → Text
    → Text
    → RuntimeState × ManagementAnswer
unfolding answer_status after_refresh after_clear refresh_body clear_body
route_answer env readers beside s now method path body =
    if text_beq method (str "GET") && text_beq path (str "/status")
    then answer_status env beside.listing s now
    else if text_beq method (str "POST") && text_beq path (str "/refresh")
    then after_refresh beside s (refresh_action env s now (refresh_body readers body))
    else if text_beq method (str "POST") && text_beq path (str "/clear")
    then after_clear s (clear_action env s now (clear_body readers body))
    else if text_beq method (str "GET") && (text_beq path (str "/") || text_beq path [])
    then (s, about)
    else (s, route_not_found)

-- The method of a request; none is GET.
unfoldable pub method_of : ManagementRequest → Text
unfolding first_text
method_of req =
    let method = to_upper (trim (first_text req.method req.method_lower)) in
    if text_beq method [] then str "GET" else method

-- `handleManagement`
unfoldable pub handle_management :
    Environment
    → Readers
    → Beside
    → RuntimeState
    → Time
    → ManagementRequest
    → RuntimeState × ManagementAnswer
unfolding route_answer resource_answer method_of management_route_path decode_management_body
handle_management env readers beside s now req =
    let (path, resource) = management_route_path (first_text req.path req.path_lower) in
    elim (decode_management_body readers.decode req.body req.body_lower) [
      | none ↦ (s, invalid_body)
      | some body ↦
          if resource
          then resource_answer env beside s now (method_of req) path
          else route_answer env readers beside s now (method_of req) path body
    ]
