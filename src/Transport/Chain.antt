-- ===== src/Transport/Chain.antt =====
-- transport.go: the dial of `chainTransport`, and `proxyAddress`. The deadlines and the cancellation
-- stand in the connections: a read that is cut off is one that finds no more bytes.
pub mod Through
use cpa_codex_turn_state_plu.Base.{
  ℕ, Bool, any, Option, none, some, List, [], ◌∷◌, ◌++◌, nat_beq, if◌then◌else◌, Text, text_beq,
  Result, ok, err, ◌>>=◌,
}
use cpa_codex_turn_state_plu.Config.{ProxyEndpoint}
use cpa_codex_turn_state_plu.Config.Endpoint.{ResolveError, resolve, default_port}
use cpa_codex_turn_state_plu.Environment.{Environment, Url}
use cpa_codex_turn_state_plu.Transport.Wire.{Conn, Net}
use cpa_codex_turn_state_plu.Transport.Connect.{TunnelError, tunnel_proxy}

pub data DialError : Type 0 where
  endpoint : ResolveError → DialError
  dial_failed : DialError
  tunnel : TunnelError → DialError

-- `net.JoinHostPort`
unfoldable pub join_host_port : Text → Text → Text
join_host_port host port =
    if any (nat_beq b':') host then b'[' ∷ (host ++ b']' ∷ b':' ∷ port) else host ++ b':' ∷ port

-- `proxyAddress`
unfoldable pub proxy_address : Environment → Url → Text
unfolding join_host_port
proxy_address env u =
    join_host_port u.hostname (if text_beq u.port [] then default_port env u.scheme else u.port)

unfoldable resolved : Environment → ProxyEndpoint → Result DialError Url
resolved env p = elim (resolve env p) [ err e ↦ err (endpoint e) | ok u ↦ ok u ]

unfoldable dialed : Net → Text → Result DialError Conn
dialed net address = elim (net.dial address) [ none ↦ err dial_failed | some c ↦ ok c ]

unfoldable pub tunnelled : Net → Url → Text → Text → Conn → Result DialError Conn
unfolding tunnel_proxy
tunnelled net proxy target host_override c = elim (tunnel_proxy net proxy target host_override c) [
  | err e ↦ err (tunnel e)
  | ok d ↦ ok d
]

-- The dial: the second proxy is resolved first, and only the first hop is dialed.
unfoldable pub dial_chain :
    Environment → Net → Option ProxyEndpoint → ProxyEndpoint → Text → Result DialError Conn
unfolding resolved dialed tunnelled
dial_chain env net none second target = do
  upstream ← resolved env second
  c ← dialed net (proxy_address env upstream)
  tunnelled net upstream target second.connect_host c
dial_chain env net (some first) second target = do
  upstream ← resolved env second
  front ← resolved env first
  c ← dialed net (proxy_address env front)
  through ← tunnelled net front (proxy_address env upstream) first.connect_host c
  tunnelled net upstream target second.connect_host through
