-- ===== src/Probe/Answer.antt =====
-- probe.go: what `fetchProbe` makes of the answer of the upstream, and `probeCompleted`. The exchange
-- itself is net/http over the chain of proxies: its outcome is an argument.
pub mod Events
use cpa_codex_turn_state_plu.Base.{
  ℕ, Bool, true, false, not, ◌&&◌, ◌||◌, Option, none, some, List, [], ◌∷◌, ◌++◌, nat_beq, any,
  if◌then◌else◌, Text, text_beq, str,
}
use cpa_codex_turn_state_plu.Text.{trim, has_prefix, trim_prefix, join, equal_fold, of_nat}
use cpa_codex_turn_state_plu.Json.{Json, null, obj, Fields, end, field, parse}
use cpa_codex_turn_state_plu.Refresh.Event.{into_text}

-- The type of an event and the status of its response.
pub record ProbeEvent : Type 0 where
  pub kind : Text
  pub status : Text

abbrev set_status : ProbeEvent → Option Text → Option ProbeEvent
set_status e none = none
set_status e (some t) = some (record e { status = t })

abbrev set_kind : ProbeEvent → Option Text → Option ProbeEvent
set_kind e none = none
set_kind e (some t) = some (record e { kind = t })

status_fields : Fields → ProbeEvent → Option ProbeEvent
unfolding into_text
status_fields end e = some e
status_fields (field k v fs) e =
    elim (if equal_fold k (str "status") then set_status e (into_text v e.status) else some e) [
      | none ↦ none
      | some next ↦ status_fields fs next
    ]

into_status : Json → ProbeEvent → Option ProbeEvent
unfolding status_fields
into_status (obj fs) e = status_fields fs e
into_status null e = some e
into_status _ e = none

probe_fields : Fields → ProbeEvent → Option ProbeEvent
unfolding into_status into_text
probe_fields end e = some e
probe_fields (field k v fs) e =
    elim (if equal_fold k (str "type")
      then set_kind e (into_text v e.kind)
      else if equal_fold k (str "response")
      then into_status v e
      else some e) [ none ↦ none | some next ↦ probe_fields fs next ]

unfoldable pub read_event : Option Json → Option ProbeEvent
unfolding probe_fields
read_event (some (obj fs)) = probe_fields fs (record { kind = []; status = [] })
read_event (some null) = some (record { kind = []; status = [] })
read_event _ = none

-- The closure `check`: no value for an event that ends nothing, and otherwise whether the response is
-- complete.
unfoldable pub check_event : List Text → Option Bool
unfolding read_event
check_event payload = elim (read_event (parse (join payload (str "\n")))) [
  | none ↦ none
  | some e ↦
      if text_beq e.kind (str "response.completed")
      then some (text_beq e.status (str "completed"))
      else if text_beq e.kind (str "response.failed")
          || text_beq e.kind (str "response.incomplete")
          || text_beq e.kind (str "error")
      then some false
      else none
]

-- The data of a line, if it has some.
unfoldable pub line_data : Text → List Text
line_data line =
    if has_prefix line (str "data:")
    then trim_prefix (trim_prefix line (str "data:")) (str " ") ∷ []
    else []

-- The check behind the loop, unless the scanner failed.
abbrev pub last_check : Bool → List Text → Bool
last_check broken payload =
    not broken && (elim (check_event payload) [ none ↦ false | some complete ↦ complete ])

-- The loop over the lines that the scanner finds; `broken` is its error at the end.
unfoldable pub scan_lines : Bool → List Text → List Text → Bool
unfolding line_data
scan_lines broken payload [] = last_check broken payload
scan_lines broken payload ([] ∷ lines) = elim (check_event payload) [
  | some complete ↦ complete
  | none ↦ scan_lines broken [] lines
]
scan_lines broken payload ((c ∷ line) ∷ lines) =
    scan_lines broken (payload ++ line_data (c ∷ line)) lines

-- `probeCompleted`
unfoldable pub probe_completed : Bool → List Text → Bool
unfolding scan_lines
probe_completed broken lines = scan_lines broken [] lines

-- A response: its status, its header, the code and the type of the error in its body if that can be
-- decoded, and the lines of its body.
pub record Response : Type 0 where
  pub status_code : ℕ
  pub turn_state : Text
  pub failure : Option (Text × Text)
  pub lines : List Text
  pub broken : Bool

pub data Exchange : Type 0 where
  unsent unanswered : Exchange
  answered : Response → Exchange

unfoldable is_listed : Text → Bool
is_listed code = any (text_beq code) (
    str "usage_limit_reached"
    ∷ str "rate_limit_exceeded"
    ∷ str "insufficient_quota"
    ∷ str "model_not_found"
    ∷ str "invalid_api_key"
    ∷ [])

-- The status of a response that is not 200.
unfoldable pub failure_status : ℕ → Option (Text × Text) → Text
unfolding is_listed
failure_status code none = str "upstream_http_" ++ of_nat code
failure_status code (some (error_code, error_kind)) =
    let status = str "upstream_http_" ++ of_nat code in
    if is_listed error_code
    then status ++ b'_' ∷ error_code
    else if is_listed error_kind
    then status ++ b'_' ∷ error_kind
    else status

-- The value and the status that `fetchProbe` returns.
unfoldable pub fetch_probe : Exchange → Text × Text
unfolding failure_status probe_completed
fetch_probe unsent = ([], str "request_invalid")
fetch_probe unanswered = ([], str "network_error")
fetch_probe (answered r) =
    if not (nat_beq r.status_code 200)
    then ([], failure_status r.status_code r.failure)
    else if not (probe_completed r.broken r.lines)
    then ([], str "upstream_incomplete")
    else if text_beq (trim r.turn_state) []
    then ([], str "state_missing")
    else (trim r.turn_state, str "ok")
