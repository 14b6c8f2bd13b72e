-- ===== src/Config/Endpoint.antt =====
-- transport.go: `proxyEndpoint.resolve` and `proxyAddress`. What they take from
-- outside is in `Environment`.
use cpa_codex_turn_state_plu.Base.{
  Bool, false, not, ◌&&◌, ◌||◌, Option, none, some, [], ◌∷◌, ltb, if◌then◌else◌, Text, text_beq,
  str, Result, ok, err, ◌>>=◌, any,
}
use cpa_codex_turn_state_plu.Text.{trim, contains, replace_all, atoi, byte_length}
use cpa_codex_turn_state_plu.Config.{ProxyEndpoint}
use cpa_codex_turn_state_plu.Environment.{Url, Environment}

pub data ResolveError : Type 0 where
  file_unavailable file_invalid session_failed invalid_url unsupported_scheme : ResolveError
  invalid_port : ResolveError

module _ (env : Environment) where
  open env use {read_file, getenv, session, parse_url}

  read_secret : Text → Result ResolveError Text
  read_secret path = elim (read_file path) [
    | none ↦ err file_unavailable
    | some none ↦ err file_invalid
    | some (some content) ↦
        if ltb 8192 (byte_length content) then err file_invalid else ok (trim content)
  ]

  add_session : Text → Result ResolveError Text
  add_session raw =
      if contains raw (str "{session}")
      then (elim session [
        | none ↦ err session_failed
        | some id ↦ ok (replace_all raw (str "{session}") id)
      ])
      else ok raw

  is_proxy_scheme : Text → Bool
  is_proxy_scheme s =
      any (text_beq s) (str "http" ∷ str "https" ∷ str "socks5" ∷ str "socks5h" ∷ [])

  port_in_range : Text → Bool
  port_in_range p = elim (atoi p) [ none ↦ false | some n ↦ not (ltb n 1) && not (ltb 65535 n) ]

  check_url : Option Url → Result ResolveError Url
  check_url none = err invalid_url
  check_url (some u) =
      if text_beq u.hostname []
        || (not (text_beq u.path []) && not (text_beq u.path (str "/")))
        || not (text_beq u.raw_query [])
        || not (text_beq u.fragment [])
      then err invalid_url
      else if not (is_proxy_scheme u.scheme)
      then err unsupported_scheme
      else if not (text_beq u.port []) && not (port_in_range u.port)
      then err invalid_port
      else ok u

  unfoldable pub resolve : ProxyEndpoint → Result ResolveError Url
  unfolding read_secret add_session check_url is_proxy_scheme port_in_range
  resolve p = do
    from_file ← if not (text_beq p.url_file []) then read_secret p.url_file else ok p.url
    raw ← add_session (if not (text_beq p.url_env []) then getenv p.url_env else from_file)
    check_url (parse_url raw)

  unfoldable pub default_port : Text → Text
  default_port scheme =
      if text_beq scheme (str "http")
      then str "80"
      else if text_beq scheme (str "https")
      then str "443"
      else str "1080"
