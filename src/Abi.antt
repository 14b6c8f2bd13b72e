-- ===== src/Abi.antt =====
-- main.go: the entry points that the host calls, and the host's callback. A buffer is the bytes it
-- holds or a nil pointer; the memory of C, the JSON printer and decoder and the host's function are
-- parameters.
pub mod Replied
use cpa_codex_turn_state_plu.Base.{
  ℕ, Bool, true, false, not, ◌&&◌, ◌||◌, Option, none, some, List, [], ◌∷◌, ltb, nat_beq,
  if◌then◌else◌, length, Text, text_beq, str, Result, ok, err,
}
use cpa_codex_turn_state_plu.Envelope.{error_envelope}

-- `pluginABIVersion`
abbrev pub plugin_abi_version : ℕ
plugin_abi_version = 1

-- `maxCGoBytes`, 1<<31 - 1
abbrev pub max_cgo_bytes : ℕ
max_cgo_bytes = 2_147_483_647

-- `cliproxy_plugin_init`: its code, and whether the host can be called, given whether the host wants
-- a plugin and the version of its own table, if it has one.
unfoldable pub plugin_init : Bool → Option ℕ → ℕ × Bool
plugin_init false host = (1, false)
plugin_init true none = (0, false)
plugin_init true (some version) = (0, nat_beq version plugin_abi_version)

-- `writeResponse` into a buffer that is there: what it holds afterwards, and the result.
unfoldable pub write_response : (Text → Bool) → Text → Option Text × Bool
write_response copies raw =
    if text_beq raw []
    then (none, false)
    else if copies raw
    then (some raw, true)
    else (none, false)

-- The answer of a call that failed.
unfoldable pub refuse : (Text → Bool) → Text → Text → ℕ × Option Text
unfolding write_response
refuse copies code message = (1, (write_response copies (error_envelope code message)).0)

-- The end of `cliproxyPluginCall`, with what `handleMethod` returned: an error by its message.
unfoldable pub deliver : (Text → Bool) → Result Text Text → ℕ × Option Text
unfolding refuse
deliver copies (err message) = refuse copies (str "plugin_error") message
deliver copies (ok raw) =
    let written = write_response copies raw in ((if written.1 then 0 else 1), written.0)

-- The bytes of the request: none for a nil pointer.
abbrev pub request_bytes : Option (List ℕ) → List ℕ
request_bytes none = []
request_bytes (some bytes) = bytes

-- `cliproxyPluginCall`: its code, and what the buffer of the response holds. `has_buffer` says that
-- the pointer to the buffer is not nil.
unfoldable pub plugin_call :
    (Text → Bool)
    → (Text → List ℕ → Result Text Text)
    → Bool
    → Option Text
    → Option (List ℕ)
    → ℕ × Option Text
unfolding deliver
plugin_call copies handle has_buffer method request =
    if not has_buffer then (1, none) else (elim method [
      | none ↦ refuse copies (str "invalid_method") (str "method is required")
      | some name ↦
          if ltb max_cgo_bytes (length (request_bytes request))
          then refuse copies (str "invalid_request") (str "request is too large")
          else deliver copies (handle name (request_bytes request))
    ])

-- What the host's function leaves: its code and the buffer of the response.
pub record HostReply : Type 0 where
  pub code : ℕ
  pub response : Option (List ℕ)

-- `envelope`, decoded.
pub record Wrapped : Type 0 where
  pub succeeded : Bool
  pub result : Text

pub data HostError : Type 0 where
  not_encoded unavailable failed not_decoded : HostError

-- 16<<20
abbrev pub max_response_bytes : ℕ
max_response_bytes = 16_777_216

module _ {ℓ} {A : Type ℓ} (unwrap : List ℕ → Option Wrapped) (decode : Text → Option A) where
  unfoldable pub host_result : Wrapped → Result HostError A
  host_result wrapped =
      if not wrapped.succeeded
      then err failed
      else (elim (decode wrapped.result) [ none ↦ err not_decoded | some a ↦ ok a ])

  unfoldable pub read_reply : HostReply → Result HostError A
  unfolding host_result
  read_reply reply = if not (nat_beq reply.code 0) then err unavailable else (elim reply.response [
    | none ↦ err unavailable
    | some bytes ↦
        if ltb max_response_bytes (length bytes)
        then err unavailable
        else (elim (unwrap bytes) [ none ↦ err failed | some wrapped ↦ host_result wrapped ])
  ])

  -- `runtime.hostCall`, with the request printed, or not printable.
  unfoldable pub host_call : (Text → Text → HostReply) → Text → Option Text → Result HostError A
  unfolding read_reply
  host_call invoke method none = err not_encoded
  host_call invoke method (some raw) = read_reply (invoke method raw)
