-- ===== src/Json/Failed.antt =====
-- plugin.go: what a reader of JSON makes of `errorEnvelope`.
use cpa_codex_turn_state_plu.Base.{
  ℕ, suc, ◌≡◌, refl, ap, false, some, [], ◌∷◌, ◌++◌, length, drop, Text, str,
}
use cpa_codex_turn_state_plu.Text.{strip_prefix}
use cpa_codex_turn_state_plu.Json.Strings.{scan, combine}
use cpa_codex_turn_state_plu.Json.Pair.{value-string}
use cpa_codex_turn_state_plu.Json.{
  Json, string, bool, obj, end, field, value, members, key, parse, skip_blank, finish, closed, next,
  opening, colon, scalar, keyword,
}
use cpa_codex_turn_state_plu.Envelope.{quoted_onto, error_envelope}

abbrev reason : Text → Text → Json
reason code message =
    obj (field (str "code") (string code) (field (str "message") (string message) end))

-- The document that stands for an error.
abbrev pub failure : Text → Text → Json
failure code message =
    obj (field (str "ok") (bool false) (field (str "error") (reason code message) end))

members-message :
    (fuel : ℕ) (message rest : Text)
    → members (suc (suc fuel)) (str "\"message\":" ++ quoted_onto message (b'}' ∷ rest))
      ≡ some (field (str "message") (string message) end, rest)
unfolding members key colon next skip_blank value quoted_onto scan combine
members-message fuel message rest = rw (value-string fuel message (b'}' ∷ rest), members) refl

members-code :
    (fuel : ℕ) (code message rest : Text)
    → members (suc (suc (suc fuel))) (
        str "\"code\":"
        ++ quoted_onto code (str ",\"message\":" ++ quoted_onto message (b'}' ∷ rest)))
      ≡ some (field (str "code") (string code) (field (str "message") (string message) end), rest)
unfolding members key colon next skip_blank value quoted_onto scan combine
members-code fuel code message rest =
    rw
      (
        value-string (suc fuel) code (str ",\"message\":" ++ quoted_onto message (b'}' ∷ rest)),
        members,
      )
      (rw (members-message fuel message rest) refl)

value-reason :
    (fuel : ℕ) (code message rest : Text)
    → value (suc (suc (suc (suc fuel)))) (
        str "{\"code\":"
        ++ quoted_onto code (str ",\"message\":" ++ quoted_onto message (b'}' ∷ rest)))
      ≡ some (reason code message, rest)
unfolding value opening closed skip_blank
value-reason fuel code message rest = rw (members-code fuel code message rest, value) refl

members-error :
    (fuel : ℕ) (code message rest : Text)
    → members (suc (suc (suc (suc (suc fuel))))) (
        str "\"error\":{\"code\":"
        ++ quoted_onto code (str ",\"message\":" ++ quoted_onto message (b'}' ∷ b'}' ∷ rest)))
      ≡ some (field (str "error") (reason code message) end, rest)
unfolding members key colon next skip_blank scan combine
members-error fuel code message rest =
    rw (value-reason fuel code message (b'}' ∷ rest), members) refl

members-ok :
    (fuel : ℕ) (code message rest : Text)
    → members (suc (suc (suc (suc (suc (suc fuel)))))) (
        str "\"ok\":false,\"error\":{\"code\":"
        ++ quoted_onto code (str ",\"message\":" ++ quoted_onto message (b'}' ∷ b'}' ∷ rest)))
      ≡ some (field (str "ok") (bool false) (field (str "error") (reason code message) end), rest)
unfolding members key colon next skip_blank scan combine value opening scalar keyword strip_prefix
members-ok fuel code message rest = rw (members-error fuel code message rest, members) refl

value-failure :
    (fuel : ℕ) (code message : Text)
    → value (suc (suc (suc (suc (suc (suc (suc fuel))))))) (error_envelope code message)
      ≡ some (failure code message, [])
unfolding value opening closed skip_blank error_envelope
value-failure fuel code message = rw (members-ok fuel code message [], value) refl

-- Every error comes back from its envelope with its code and its message.
pub parse-error_envelope :
    (code message : Text) → parse (error_envelope code message) ≡ some (failure code message)
unfolding parse skip_blank error_envelope
parse-error_envelope code message = ap finish (
    value-failure (length (drop 2 (error_envelope code message) ++ error_envelope code message))
      code message)
