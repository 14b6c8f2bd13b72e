-- ===== src/Dispatch.antt =====
-- plugin.go: `handleMethod`, `interceptResponse` and `interceptStreamChunk`. The requests stand
-- decoded; the envelopes around the answers are in Envelope.
pub mod Same
pub mod Stopped
pub mod Quiet
use cpa_codex_turn_state_plu.Base.{
  ℕ, Bool, false, none, some, List, Text, if◌then◌else◌, Result, ok, err,
}
use cpa_codex_turn_state_plu.Base.Int.{ℤ, negsuc, int_beq}
use cpa_codex_turn_state_plu.Base.Dict.{Dict}
use cpa_codex_turn_state_plu.Clock.{Time}
use cpa_codex_turn_state_plu.Environment.{Environment}
use cpa_codex_turn_state_plu.State.{RuntimeState}
use cpa_codex_turn_state_plu.Refresh.Stream.{observe_stream_failure}
use cpa_codex_turn_state_plu.Request.{
  InterceptRequest, InterceptResponse, Completion, intercept_after, capture_candidate, complete,
}
use cpa_codex_turn_state_plu.Lifecycle.{Document, ConfigError, configure, set_accepting, shutdown}
use cpa_codex_turn_state_plu.Persist.{Calls, Disk, PersistError}
use cpa_codex_turn_state_plu.Persist.Callers.{save_promoted}
use cpa_codex_turn_state_plu.Lifecycle.Persisted.{StateFile}
use cpa_codex_turn_state_plu.Management.Routes.{
  ManagementRequest, ManagementAnswer, Readers, Beside, handle_management,
}

pub record StreamChunk : Type 0 where
  pub request_id : Text
  pub response_headers : Dict Text (List Text)
  pub chunk_index : ℤ
  pub body : List ℕ

-- The methods with their requests, and the times at which the handlers read the clock.
pub data Call : Type 0 where
  register_management : Call
  manage : Time → ManagementRequest → Call
  register : ℕ → Document → StateFile → Call
  quiesce stop before_auth : Call
  after_auth : Time → Time → InterceptRequest → Call
  response : Time → Text → Dict Text (List Text) → Call
  stream_chunk : Time → StreamChunk → Call
  request_complete : Time → Completion → Calls → Disk → Call
  unknown : Text → Call

pub data MethodReply : Type 0 where
  acknowledged : MethodReply
  failed : ConfigError → MethodReply
  not_saved : PersistError → MethodReply
  intercepted : InterceptResponse → MethodReply
  panel_reply : ManagementAnswer → MethodReply
  unknown_method : Text → MethodReply

-- `interceptStreamChunk`: the chunk before the first one carries the headers.
unfoldable pub intercept_stream_chunk : RuntimeState → Time → StreamChunk → RuntimeState
intercept_stream_chunk s now chunk =
    if int_beq chunk.chunk_index (negsuc 0)
    then capture_candidate s now chunk.request_id chunk.response_headers
    else observe_stream_failure s chunk.request_id chunk.body

unfoldable pub after_configure :
    RuntimeState → Result ConfigError RuntimeState → RuntimeState × MethodReply
after_configure s (err e) = (s, failed e)
after_configure s (ok t) = (t, acknowledged)

abbrev with_reply {ℓ} :
    {A : Type ℓ} → (A → MethodReply) → RuntimeState × A → RuntimeState × MethodReply
with_reply reply (s, a) = (s, reply a)

-- The end of `complete`, with the write of the file; its disk is that of `save_promoted`.
unfoldable pub after_complete : RuntimeState × Bool → Calls → Disk → RuntimeState × MethodReply
after_complete (s, promoted) os disk =
    elim (save_promoted os s s.config.state_file promoted disk).0 [
      | none ↦ (s, acknowledged)
      | some e ↦ (s, not_saved e)
    ]

-- `handleMethod`. Between the sections of one call nothing else runs but what `beside` stands for.
unfoldable pub handle_method :
    Environment → Readers → Beside → RuntimeState → Call → RuntimeState × MethodReply
unfolding after_configure after_complete intercept_stream_chunk
handle_method env readers beside s register_management = (s, acknowledged)
handle_method env readers beside s (manage now req) =
    with_reply panel_reply (handle_management env readers beside s now req)
handle_method env readers beside s (register schema doc file) =
    after_configure s (configure env s schema doc file)
handle_method env readers beside s quiesce = (set_accepting s false, acknowledged)
handle_method env readers beside s stop = (shutdown s, acknowledged)
handle_method env readers beside s before_auth = (s, acknowledged)
handle_method env readers beside s (after_auth start now req) =
    with_reply intercepted (intercept_after env beside.probe s start now req)
handle_method env readers beside s (response now id headers) =
    (capture_candidate s now id headers, acknowledged)
handle_method env readers beside s (stream_chunk now chunk) =
    (intercept_stream_chunk s now chunk, acknowledged)
handle_method env readers beside s (request_complete now completion os disk) =
    after_complete (complete s now completion) os disk
handle_method env readers beside s (unknown method) = (s, unknown_method method)
