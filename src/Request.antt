-- ===== src/Request.antt =====
-- plugin.go: the hooks on a request: `interceptAfter` with its sections before and after the probe,
-- `captureCandidate` and `complete`. A message stands decoded.
pub mod Usable
pub mod Retry
use cpa_codex_turn_state_plu.Base.{
  ℕ, ◌+◌, Bool, true, false, not, ◌&&◌, ◌||◌, Option, none, some, List, [], ◌∷◌, ltb, leb, nat_beq,
  if◌then◌else◌, and_then, Text, text_beq, text_eq, str, Result, ok, err,
}
use cpa_codex_turn_state_plu.Base.Int.{ℤ}
use cpa_codex_turn_state_plu.Base.Dict.{Dict, lookup, insert, erase}
use cpa_codex_turn_state_plu.Clock.{Time}
use cpa_codex_turn_state_plu.Environment.{Environment}
use cpa_codex_turn_state_plu.Text.{trim, equal_fold}
use cpa_codex_turn_state_plu.Json.{Json, string}
use cpa_codex_turn_state_plu.Config.{CredentialConfig, PluginConfig, enabled_by_default}
use cpa_codex_turn_state_plu.Fernet.{FernetInfo, ParseError, parse_turn_state}
use cpa_codex_turn_state_plu.Policy.{
  credential_for, auto_update_enabled, is_free_plan, normal_block_count, matches_models,
}
use cpa_codex_turn_state_plu.Keys.{state_key, account_digest}
use cpa_codex_turn_state_plu.State.{
  RuntimeState, StoredState, StateCandidate, RequestBinding, AccountCache, AccountInfo, flag_at,
}
use cpa_codex_turn_state_plu.Refresh.{turn_state_ttl, queue_refresh, failure_refresh_reason}

abbrev pub turn_state_header : Text
turn_state_header = str "X-Codex-Turn-State"

-- The tolerance for a clock that is ahead: five minutes.
abbrev pub clock_tolerance : ℕ
clock_tolerance = 300_000_000_000

-- management.go: `accountCacheTTL`
abbrev pub account_cache_ttl : ℕ
account_cache_ttl = 10_000_000_000

pub record InterceptRequest : Type 0 where
  pub request_id : Text
  pub to_format : Text
  pub model : Text
  pub requested_model : Text
  pub metadata : Dict Text Json

pub record InterceptResponse : Type 0 where
  pub headers : Dict Text (List Text)
  pub clear_headers : List Text

abbrev pub untouched : InterceptResponse
untouched = record { headers = []; clear_headers = [] }

abbrev pub cleared : InterceptResponse
cleared = record { headers = []; clear_headers = turn_state_header ∷ [] }

abbrev pub injected : Text → InterceptResponse
injected value = record { headers = (turn_state_header, value ∷ []) ∷ []; clear_headers = [] }

text_of : Option Json → Text
text_of (some (string s)) = s
text_of _ = []

-- `metadataString`
unfoldable pub metadata_string : Dict Text Json → Text → Text
unfolding text_of
metadata_string metadata key = trim (text_of (lookup key metadata))

-- management.go: `authIsFree`
unfoldable pub auth_is_free : Environment → AccountCache → Time → Text → Bool
auth_is_free env cache now auth_id = elim cache.by_hash [
  | none ↦ false
  | some by_hash ↦
      if nat_beq cache.fetched_at 0 || leb (cache.fetched_at + account_cache_ttl) now
      then false
      else (elim (lookup (account_digest env auth_id) by_hash) [
        | none ↦ false
        | some info ↦ equal_fold info.plan (str "free")
      ])
]

-- A retry forgets what the previous attempt bound and staged, and queues a refresh of its key.
unfoldable pub drop_previous : RuntimeState → Text → RuntimeState
drop_previous s request_id =
    let queued : RuntimeState = elim (lookup request_id s.requests) [
      | none ↦ s
      | some previous ↦ queue_refresh s previous.key (str "credential_retry")
    ] in
    record queued {
      requests = erase request_id queued.requests;
      candidates = erase request_id queued.candidates;
    }

-- Where the request goes: answered at once, or on to a credential and a model.
pub data Route : Type 0 where
  answered : InterceptResponse → Route
  managed : Text → Text → Route

unfoldable pub route : Environment → AccountCache → Time → InterceptRequest → Route
route env cache now req =
    let auth_id = metadata_string req.metadata (str "selected_auth_id") in
    let model = trim req.model in
    if not (equal_fold (trim req.to_format) (str "codex"))
    then answered untouched
    else if text_beq auth_id []
    then answered untouched
    else if text_beq model []
    then answered untouched
    else if auth_is_free env cache now auth_id
    then answered cleared
    else managed auth_id model

-- The state of a key may go into a request: it is not from the future, and not expired unless the
-- configuration allows that.
unfoldable pub is_injectable : RuntimeState → Time → StoredState → Bool
is_injectable s now st = not (
    ltb (now + clock_tolerance) st.issued_at
    || (not s.config.inject_expired && not (ltb now (st.issued_at + turn_state_ttl))))

unfoldable pub inject : RuntimeState → Time → Text → InterceptResponse
unfolding is_injectable
inject s now key = elim (lookup key s.current) [
  | none ↦ cleared
  | some st ↦
      if not (is_injectable s now st)
      then cleared
      else if enabled_by_default s.config.inject_on_errors_only && not (flag_at key s.force_inject)
      then cleared
      else injected st.value
]

-- The request is bound to its credential and key if its state may be updated.
unfoldable pub bind_request :
    RuntimeState → InterceptRequest → CredentialConfig → Text → Text → RuntimeState
bind_request s req credential auth_id key =
    if not (text_beq req.request_id []) && auto_update_enabled s.config credential
    then record s {
      candidates = erase req.request_id s.candidates;
      requests =
          insert req.request_id (record { auth_id = auth_id; key = key; stream_buffer = [] })
            s.requests;
    }
    else s

-- The policy of a request in scope: not free, and one of its two models matches.
unfoldable pub request_policy : PluginConfig → InterceptRequest → Text → Option CredentialConfig
request_policy cfg req auth_id = and_then (credential_for cfg auth_id) λ credential.
    if is_free_plan credential.plan
      || not (matches_models credential.models (req.model ∷ req.requested_model ∷ []))
    then none
    else some credential

-- `interceptAfter` from the second lock on.
unfoldable pub answer :
    RuntimeState → Time → InterceptRequest → Text → Text → RuntimeState × InterceptResponse
unfolding bind_request inject
answer s now req auth_id model =
    if not s.accepting then (s, untouched) else (elim (request_policy s.config req auth_id) [
      | none ↦ (s, untouched)
      | some credential ↦
          let key = state_key auth_id model in
          let bound = bind_request s req credential auth_id key in (bound, inject bound now key)
    ])

-- `interceptAfter`, where `probe` is what `ensureProbe` and whatever runs beside it make of the state.
unfoldable pub intercept_after :
    Environment
    → (RuntimeState → Text → Text → RuntimeState)
    → RuntimeState
    → Time
    → Time
    → InterceptRequest
    → RuntimeState × InterceptResponse
unfolding drop_previous answer
intercept_after env probe s start now req =
    let dropped = drop_previous s req.request_id in
    elim (route env dropped.accounts start req) [
      | answered response ↦ (dropped, response)
      | managed auth_id model ↦ answer (probe dropped auth_id model) now req auth_id model
    ]

first_value : Option (List Text) → Text
first_value (some (v ∷ vs)) = v
first_value _ = []

-- `http.Header.Get` with the header's canonical name
unfoldable pub header_value : Dict Text (List Text) → Text
unfolding first_value
header_value headers = trim (first_value (lookup turn_state_header headers))

-- The tests on a parsed value: the block count, and the issue time against the clock.
usable_info : CredentialConfig → Time → Text → Result ParseError FernetInfo → Option StoredState
usable_info credential now value (err _) = none
usable_info credential now value (ok info) =
    if not (normal_block_count credential info.blocks)
      || ltb (now + clock_tolerance) info.issued_at
      || not (ltb now (info.issued_at + turn_state_ttl))
    then none
    else some (record { value = value; issued_at = info.issued_at; blocks = info.blocks })

-- The state that a value stands for, if the credential accepts it now.
unfoldable pub usable_state : PluginConfig → CredentialConfig → Time → Text → Option StoredState
unfolding usable_info
usable_state cfg credential now value =
    usable_info credential now value (parse_turn_state value cfg.max_state_bytes)

-- Whether the state is newer than what the key holds.
unfoldable pub improves : Dict Text StoredState → Text → StoredState → Bool
improves current key st = elim (lookup key current) [
  | none ↦ true
  | some existing ↦ ltb existing.issued_at st.issued_at
]

unfoldable pub stage : RuntimeState → Text → RequestBinding → StoredState → RuntimeState
unfolding improves
stage s request_id binding st =
    if improves s.current binding.key st
    then record s {
      candidates =
          insert request_id (record { auth_id = binding.auth_id; key = binding.key; state = st })
            s.candidates;
    }
    else s

-- The credential of a binding, if its state may be updated.
unfoldable pub updating : PluginConfig → Text → Option CredentialConfig
updating cfg auth_id = elim (credential_for cfg auth_id) [
  | none ↦ none
  | some credential ↦ if auto_update_enabled cfg credential then some credential else none
]

unfoldable pub capture_bound : RuntimeState → Time → Text → Text → RequestBinding → RuntimeState
unfolding stage updating
capture_bound s now request_id value binding =
    if not s.accepting then s else (elim (updating s.config binding.auth_id) [
      | none ↦ s
      | some credential ↦ elim (usable_state s.config credential now value) [
        | none ↦ s
        | some st ↦ stage s request_id binding st
      ]
    ])

-- `captureCandidate`
unfoldable pub capture_candidate : RuntimeState → Time → Text → Dict Text (List Text) → RuntimeState
unfolding capture_bound
capture_candidate s now request_id headers =
    let value = header_value headers in
    if text_beq request_id [] || text_beq value []
    then s
    else (elim (lookup request_id s.requests) [
      | none ↦ s
      | some binding ↦ capture_bound s now request_id value binding
    ])

pub record Completion : Type 0 where
  pub request_id : Text
  pub outcome : Text
  pub status_code : ℤ
  pub error : Text

-- What the outcome does to the bound key.
unfoldable pub settle : RuntimeState → Completion → Option RequestBinding → RuntimeState
settle s done none = s
settle s done (some binding) =
    if text_beq done.outcome (str "failed")
    then queue_refresh s binding.key (failure_refresh_reason done.status_code done.error)
    else if text_beq done.outcome (str "succeeded")
    then record s { force_inject = erase binding.key s.force_inject }
    else s

-- Whether a completion turns the candidate into the state of its key.
unfoldable pub may_promote : RuntimeState → Time → Completion → StateCandidate → Bool
unfolding improves
may_promote s now done candidate =
    s.accepting
    && text_beq done.outcome (str "succeeded")
    && ltb now (candidate.state.issued_at + turn_state_ttl)
    && improves s.current candidate.key candidate.state

-- The staged candidate becomes the state of its key, and the pending refresh is over.
unfoldable pub promote :
    RuntimeState → Time → Completion → Option StateCandidate → RuntimeState × Bool
unfolding may_promote
promote s now done none = (s, false)
promote s now done (some candidate) =
    if may_promote s now done candidate
    then (
      record s {
        current = insert candidate.key candidate.state s.current;
        refresh_requests = erase candidate.key s.refresh_requests;
      },
      true,
    )
    else (s, false)

-- `complete`: the new state, and whether a state was promoted and is to be persisted.
unfoldable pub complete : RuntimeState → Time → Completion → RuntimeState × Bool
unfolding settle promote
complete s now done =
    let candidate = lookup done.request_id s.candidates in
    let settled = settle s done (lookup done.request_id s.requests) in
    promote
      (record settled {
        candidates = erase done.request_id settled.candidates;
        requests = erase done.request_id settled.requests;
      })
      now done candidate
