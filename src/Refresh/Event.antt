-- ===== src/Refresh/Event.antt =====
-- refresh.go: `streamFailureReason`, with the decoding of an event into its struct. Keys are matched
-- without regard to case, as `json.Unmarshal` does, and a repeated key overwrites.
use cpa_codex_turn_state_plu.Base.{
  ℕ, Bool, not, ◌||◌, Option, none, some, List, [], ◌∷◌, ◌++◌, nat_beq, if◌then◌else◌, Text,
  text_beq, str,
}
use cpa_codex_turn_state_plu.Base.Int.{ℤ, pos, negsuc}
use cpa_codex_turn_state_plu.Text.{equal_fold, atoi}
use cpa_codex_turn_state_plu.Json.{Json, null, num, string, obj, Fields, end, field, parse}
use cpa_codex_turn_state_plu.Refresh.{failure_refresh_reason}

pub record UpstreamError : Type 0 where
  pub code : Text
  pub kind : Text
  pub message : Text
  pub status_code : ℤ

pub record Event : Type 0 where
  pub kind : Text
  pub status_code : ℤ
  pub code : Text
  pub message : Text
  pub error : UpstreamError
  pub response_error : UpstreamError

abbrev pub zero_error : UpstreamError
zero_error = record { code = []; kind = []; message = []; status_code = pos 0 }

abbrev pub zero_event : Event
zero_event = record {
  kind = [];
  status_code = pos 0;
  code = [];
  message = [];
  error = zero_error;
  response_error = zero_error;
}

-- A value stored into a string: `null` leaves the old one, any other type is an error.
unfoldable pub into_text : Json → Text → Option Text
into_text (string s) old = some s
into_text null old = some old
into_text _ old = none

negated : ℕ → ℤ
negated ℕ.zero = pos 0
negated (ℕ.suc n) = negsuc n

signed : Text → Option ℤ
unfolding negated
signed [] = none
signed (c ∷ s) =
    if nat_beq c b'-'
    then (elim (atoi s) [ none ↦ none | some n ↦ some (negated n) ])
    else (elim (atoi (c ∷ s)) [ none ↦ none | some n ↦ some (pos n) ])

unfoldable pub into_int : Json → ℤ → Option ℤ
unfolding signed
into_int (num t) old = signed t
into_int null old = some old
into_int _ old = none

-- One key of `upstreamError`.
error_field : Text → Json → UpstreamError → Option UpstreamError
unfolding into_text into_int
error_field k v e =
    if equal_fold k (str "code")
    then (elim (into_text v e.code) [ none ↦ none | some t ↦ some (record e { code = t }) ])
    else if equal_fold k (str "type")
    then (elim (into_text v e.kind) [ none ↦ none | some t ↦ some (record e { kind = t }) ])
    else if equal_fold k (str "message")
    then (elim (into_text v e.message) [ none ↦ none | some t ↦ some (record e { message = t }) ])
    else if equal_fold k (str "status_code")
    then (elim (into_int v e.status_code) [
      | none ↦ none
      | some n ↦ some (record e { status_code = n })
    ])
    else some e

error_fields : Fields → UpstreamError → Option UpstreamError
unfolding error_field
error_fields end e = some e
error_fields (field k v fs) e = elim (error_field k v e) [
  | none ↦ none
  | some e' ↦ error_fields fs e'
]

into_error : Json → UpstreamError → Option UpstreamError
unfolding error_fields
into_error (obj fs) e = error_fields fs e
into_error null e = some e
into_error _ e = none

-- The struct around the error of a response.
response_fields : Fields → UpstreamError → Option UpstreamError
unfolding into_error
response_fields end e = some e
response_fields (field k v fs) e =
    elim (if equal_fold k (str "error") then into_error v e else some e) [
      | none ↦ none
      | some e' ↦ response_fields fs e'
    ]

into_response : Json → UpstreamError → Option UpstreamError
unfolding response_fields
into_response (obj fs) e = response_fields fs e
into_response null e = some e
into_response _ e = none

event_field : Text → Json → Event → Option Event
unfolding into_response into_error into_text into_int
event_field k v e =
    if equal_fold k (str "type")
    then (elim (into_text v e.kind) [ none ↦ none | some t ↦ some (record e { kind = t }) ])
    else if equal_fold k (str "status_code")
    then (elim (into_int v e.status_code) [
      | none ↦ none
      | some n ↦ some (record e { status_code = n })
    ])
    else if equal_fold k (str "code")
    then (elim (into_text v e.code) [ none ↦ none | some t ↦ some (record e { code = t }) ])
    else if equal_fold k (str "message")
    then (elim (into_text v e.message) [ none ↦ none | some t ↦ some (record e { message = t }) ])
    else if equal_fold k (str "error")
    then (elim (into_error v e.error) [ none ↦ none | some x ↦ some (record e { error = x }) ])
    else if equal_fold k (str "response")
    then (elim (into_response v e.response_error) [
      | none ↦ none
      | some x ↦ some (record e { response_error = x })
    ])
    else some e

event_fields : Fields → Event → Option Event
unfolding event_field
event_fields end e = some e
event_fields (field k v fs) e = elim (event_field k v e) [
  | none ↦ none
  | some e' ↦ event_fields fs e'
]

into_event : Option Json → Option Event
unfolding event_fields
into_event (some (obj fs)) = event_fields fs zero_event
into_event (some null) = some zero_event
into_event _ = none

-- The loop over the three places of an error.
first_reason : List UpstreamError → Text
first_reason [] = []
first_reason (e ∷ es) =
    let rest = first_reason es in
    let reason =
      failure_refresh_reason e.status_code
        (e.code ++ (str " " ++ (e.kind ++ (str " " ++ e.message)))) in
    if text_beq reason [] then rest else reason

is_failure_kind : Text → Bool
is_failure_kind k =
    text_beq k (str "error")
    || text_beq k (str "response.failed")
    || text_beq k (str "response.incomplete")

event_reason : Event → Text
unfolding first_reason is_failure_kind
event_reason e =
    if not (is_failure_kind e.kind)
    then []
    else first_reason (
        e.error
        ∷ e.response_error
        ∷ (record { code = e.code; kind = []; message = e.message; status_code = e.status_code })
        ∷ [])

-- `streamFailureReason`
unfoldable pub stream_failure_reason : Text → Text
unfolding event_reason into_event
stream_failure_reason raw = elim (into_event (parse raw)) [ none ↦ [] | some e ↦ event_reason e ]
