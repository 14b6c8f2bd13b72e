-- ===== src/Transport/Connect.antt =====
-- transport.go: `tunnelProxy`.
pub mod Header
pub mod Lines
use cpa_codex_turn_state_plu.Base.{
  ℕ, ◌+◌, Bool, true, false, not, ◌&&◌, ◌||◌, Option, none, some, List, [], ◌∷◌, ◌++◌, ltb, nat_beq,
  length, if◌then◌else◌, Text, text_beq, str, Result, ok, err, ◌>>=◌,
}
use cpa_codex_turn_state_plu.Environment.{Url}
use cpa_codex_turn_state_plu.Text.{contains_any}
use cpa_codex_turn_state_plu.Transport.Wire.{Conn, Net, write, utf8}
use cpa_codex_turn_state_plu.Transport.Socks.{SocksError, User, socks_connect}

pub data TunnelError : Type 0 where
  socks : SocksError → TunnelError
  handshake_failed bad_authority connect_write response_failed headers_too_large : TunnelError
  bad_response : TunnelError
  refused : ℕ → TunnelError

abbrev pub crlf : Text
crlf = 13 ∷ 10 ∷ []

-- The line with the credentials, if there are any.
unfoldable pub authorization : Net → Option User → Text
authorization net none = []
authorization net (some (name, pass)) =
    str "Proxy-Authorization: Basic " ++ (net.std_base64 (utf8 (name ++ b':' ∷ pass)) ++ crlf)

unfoldable pub connect_message : Text → Text → Text → Text
connect_message target host auth =
    str "CONNECT "
    ++ (target
        ++ (str " HTTP/1.1"
            ++ (crlf
                ++ (str "Host: "
                    ++ (host
                        ++ (crlf
                            ++ (auth
                                ++ (str "Proxy-Connection: Keep-Alive" ++ (crlf ++ crlf)))))))))

abbrev pub header_limit : ℕ
header_limit = 65536

-- Whether the header ends here; its latest byte stands first.
unfoldable pub is_end : List ℕ → Bool
is_end (a ∷ b ∷ c ∷ d ∷ seen) = nat_beq a 10 && nat_beq b 13 && nat_beq c 10 && nat_beq d 13
is_end _ = false

-- A list turned round, in front of another.
unfoldable pub onto : List ℕ → List ℕ → List ℕ
onto [] rest = rest
onto (b ∷ seen) rest = onto seen (b ∷ rest)

-- The test behind the loop.
unfoldable pub settle_header : List ℕ → List ℕ → Result TunnelError (List ℕ × List ℕ)
settle_header seen s = if is_end seen then ok (onto seen [], s) else err headers_too_large

-- The loop that reads the header byte by byte, with what follows it.
unfoldable pub take_header : List ℕ → List ℕ → Result TunnelError (List ℕ × List ℕ)
unfolding settle_header onto
take_header seen [] =
    if ltb (length seen) header_limit then err response_failed else settle_header seen []
take_header seen (b ∷ s) =
    let rest = take_header (b ∷ seen) s in
    if not (ltb (length seen) header_limit)
    then settle_header seen (b ∷ s)
    else if is_end (b ∷ seen)
    then ok (onto (b ∷ seen) [], s)
    else rest

-- The status of the response.
unfoldable pub check_status : Net → Conn → List ℕ × List ℕ → Result TunnelError Conn
check_status net c (header, rest) = elim (net.read_response header) [
  | none ↦ err bad_response
  | some status ↦
      if nat_beq status 200 then ok (record c { incoming = rest }) else err (refused status)
]

-- The request and its response, on the connection to the proxy.
unfoldable pub connect : Net → Option User → Text → Text → Conn → Result TunnelError Conn
unfolding take_header check_status connect_message authorization write
connect net user target host c =
    if contains_any (host ++ target) crlf
    then err bad_authority
    else write connect_write (utf8 (connect_message target host (authorization net user))) c
      >>= λ asked. take_header [] asked.incoming >>= check_status net asked

-- The errors of the SOCKS dialogue are those of the tunnel.
unfoldable pub by_socks : Result SocksError Conn → Result TunnelError Conn
by_socks (err e) = err (socks e)
by_socks (ok c) = ok c

secured : Net → Url → Conn → Result TunnelError Conn
secured net proxy c =
    if text_beq proxy.scheme (str "https")
    then (elim (net.handshake proxy.hostname c) [
      | none ↦ err handshake_failed
      | some inner ↦ ok inner
    ])
    else ok c

-- The schemes of SOCKS.
unfoldable pub speaks_socks : Url → Bool
speaks_socks proxy = text_beq proxy.scheme (str "socks5") || text_beq proxy.scheme (str "socks5h")

-- `tunnelProxy`
unfoldable pub tunnel_proxy : Net → Url → Text → Text → Conn → Result TunnelError Conn
unfolding by_socks connect secured
tunnel_proxy net proxy target host_override c =
    if speaks_socks proxy
    then by_socks (socks_connect net proxy.user target c)
    else secured net proxy c
      >>= connect net proxy.user target
          (if text_beq host_override [] then target else host_override)
