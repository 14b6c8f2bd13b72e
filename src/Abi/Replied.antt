-- ===== src/Abi/Replied.antt =====
-- main.go: what a host finds after `cliproxyPluginCall`.
use cpa_codex_turn_state_plu.Base.{
  ℕ, ◌≡◌, ◌≤◌, ◌<◌, refl, inl, inr, Bool, true, Option, none, some, List, [], ◌∷◌, ltb, Bool-cases,
  length, Text, str, Result, ok, err, arith,
}
use cpa_codex_turn_state_plu.Json.{parse}
use cpa_codex_turn_state_plu.Json.Failed.{failure, parse-error_envelope}
use cpa_codex_turn_state_plu.Envelope.{error_envelope}
use cpa_codex_turn_state_plu.Abi.{
  write_response, refuse, deliver, request_bytes, plugin_call, max_cgo_bytes,
}

-- The code of the call is 1, and the buffer holds a document that reads as this error.
abbrev pub IsFailure : Text → Text → ℕ × Option Text → Type 0
IsFailure code message r =
    (r.0 ≡ 1) × ((raw : Text) × (r.1 ≡ some raw) × (parse raw ≡ some (failure code message)))

-- What a call of this method with these bytes comes to; the first argument is what the handler
-- makes of them.
pub data IsReplied (handled : Text → Result Text Text) (bytes : List ℕ) (r : ℕ × Option Text)
    : Option Text → Type 0 where
  nameless :
      IsFailure (str "invalid_method") (str "method is required") r → IsReplied handled bytes r none
  oversized :
      (name : Text)
      → 2_147_483_647 < length bytes
      → IsFailure (str "invalid_request") (str "request is too large") r
      → IsReplied handled bytes r (some name)
  failing :
      (name message : Text)
      → length bytes ≤ 2_147_483_647
      → handled name ≡ err message
      → IsFailure (str "plugin_error") message r
      → IsReplied handled bytes r (some name)
  empty :
      (name : Text)
      → length bytes ≤ 2_147_483_647
      → handled name ≡ ok []
      → r ≡ (1, none)
      → IsReplied handled bytes r (some name)
  handed_over :
      (name : Text) (first : ℕ) (rest : Text)
      → length bytes ≤ 2_147_483_647
      → handled name ≡ ok (first ∷ rest)
      → r ≡ (0, some (first ∷ rest))
      → IsReplied handled bytes r (some name)

module _ (copies : Text → Bool) (room : (raw : Text) → copies raw ≡ true) where
  refuse-IsFailure : (code message : Text) → IsFailure code message (refuse copies code message)
  unfolding refuse write_response error_envelope
  refuse-IsFailure code message = (
    refl,
    (
      error_envelope code message,
      rw (room (error_envelope code message)) refl,
      parse-error_envelope code message,
    ),
  )

  deliver-IsReplied :
      (handled : Text → Result Text Text) (name : Text) (bytes : List ℕ)
      → length bytes ≤ 2_147_483_647
      → IsReplied handled bytes (deliver copies (handled name)) (some name)
  unfolding deliver write_response
  deliver-IsReplied handled name bytes short = go (handled name) refl
    where
      go :
          (o : Result Text Text)
          → handled name ≡ o
          → IsReplied handled bytes (deliver copies o) (some name)
      go (err message) q =
          failing name message short q (refuse-IsFailure (str "plugin_error") message)
      go (ok []) q = empty name short q refl
      go (ok (first ∷ rest)) q = handed_over name first rest short q (rw (room (first ∷ rest)) refl)

  -- What a host that passes a buffer for the response finds after a call of the plugin, for every
  -- method, every request and every handler: without a method and for a request of more than
  -- 2147483647 bytes the handler is not asked, and the code is 1 with JSON that reads as the error
  -- for this; after an error of the handler the code is 1 with JSON that reads as this error; an
  -- empty reply leaves the code 1 and no buffer; any other reply is in the buffer as it is, with
  -- code 0. The copy into the memory of C succeeds.
  pub plugin_call-IsReplied :
      (handle : Text → List ℕ → Result Text Text) (method : Option Text) (request : Option (List ℕ))
      → IsReplied
          (λ name. handle name (request_bytes request))
          (request_bytes request)
          (plugin_call copies handle true method request)
          method
  unfolding plugin_call
  plugin_call-IsReplied handle none request =
      nameless (refuse-IsFailure (str "invalid_method") (str "method is required"))
  plugin_call-IsReplied handle (some name) request =
      elim (Bool-cases (ltb max_cgo_bytes (length (request_bytes request)))) [
        | inl long ↦ rw long (
            oversized name (ground (arith, long))
              (refuse-IsFailure (str "invalid_request") (str "request is too large")))
        | inr short ↦ rw short (
            deliver-IsReplied (λ n. handle n (request_bytes request)) name (request_bytes request)
              (ground (arith, short)))
      ]
