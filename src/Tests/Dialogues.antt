-- ===== src/Tests/Dialogues.antt =====
-- The theorems on the dialogues with the proxies at concrete inputs.
use cpa_codex_turn_state_plu.Text.{byte_length, contains_any, contains}
use cpa_codex_turn_state_plu.Base.{
  ℕ, ◌≤◌, ◌≡◌, ◌↔◌, refl, if◌then◌else◌, Option, none, some, List, [], ◌∷◌, ◌++◌, length, Text,
  text_beq, str, Result, ok, err, arith,
}
use cpa_codex_turn_state_plu.Base64.RoundTrip.{AreBytes}
use cpa_codex_turn_state_plu.Config.{ProxyEndpoint}
use cpa_codex_turn_state_plu.Config.Endpoint.{resolve, default_port}
use cpa_codex_turn_state_plu.Environment.{Environment, Url}
use cpa_codex_turn_state_plu.Transport.Wire.{Conn, Net, utf8}
use cpa_codex_turn_state_plu.Transport.Socks.{User, connect_request, socks_connect}
use cpa_codex_turn_state_plu.Transport.Socks.Dialogue.{
  Reply, ip4, reply_onto, hello_onto, messages, socks_connect-completes,
}
use cpa_codex_turn_state_plu.Transport.Socks.Asked.{IsAsked, connect_request-IsAsked}
use cpa_codex_turn_state_plu.Transport.Socks.Accepted.{IsReplied, socks_connect-IsReplied}
use cpa_codex_turn_state_plu.Transport.Connect.{
  TunnelError, connect, take_header, header_limit, is_end, speaks_socks,
}
use cpa_codex_turn_state_plu.Transport.Connect.Header.{EndsFirst, take_header-exact}
use cpa_codex_turn_state_plu.Transport.Connect.Lines.{lines, request_lines, connect-lines}
use cpa_codex_turn_state_plu.Transport.Chain.{dial_chain, proxy_address}
use cpa_codex_turn_state_plu.Transport.Chain.Through.{dial_chain-through}
use cpa_codex_turn_state_plu.Tests.Samples.{host}

abbrev site : Text
site = str "example.org:443"

abbrev user : Option User
user = some (str "u", str "pw")

abbrev granted : Reply
granted = record { reserved = 0; place = ip4 (10 ∷ 0 ∷ 0 ∷ 1 ∷ []); high = 4; low = 56 }

-- What the server behind the proxies sends first.
abbrev first_bytes : List ℕ
first_bytes = 22 ∷ 3 ∷ 3 ∷ []

abbrev both : List ℕ
both = hello_onto user (reply_onto granted (hello_onto user (reply_onto granted first_bytes)))

-- A network with two names and one peer.
abbrev net : Net
net = record {
  split_host_port = λ t.
      if text_beq t site
      then some (str "example.org", str "443")
      else if text_beq t (str "proxy:1080")
      then some (str "proxy", str "1080")
      else none;
  parse_ip = λ _. none;
  handshake = λ _ c. some c;
  read_response = λ _. some 200;
  std_base64 = λ _. str "dTpwdw==";
  dial = λ _. some (record { incoming = both; sent = []; writable = 6 });
}

abbrev asked : List ℕ
asked = 5 ∷ 1 ∷ 0 ∷ 3 ∷ 11 ∷ (str "example.org" ++ 1 ∷ 187 ∷ [])

asked_ok : connect_request net site ≡ ok asked
unfolding connect_request byte_length utf8
asked_ok = refl

abbrev peer : Conn
peer = record {
  incoming = hello_onto user (reply_onto granted first_bytes);
  sent = [];
  writable = 3;
}

abbrev after : Conn
after = record { incoming = first_bytes; sent = messages user asked []; writable = 0 }

socks_connect-completes_example : socks_connect net user site peer ≡ ok after
unfolding byte_length
socks_connect-completes_example =
    socks_connect-completes net user site granted asked first_bytes [] 0 (omega arith, omega arith)
      refl asked_ok

connect_request-IsAsked_example : IsAsked net site asked
connect_request-IsAsked_example = connect_request-IsAsked net site (λ h. tt) asked_ok

finished : socks_connect net user site peer ≡ ok after
unfolding socks_connect byte_length utf8
finished = refl

peer_bytes : AreBytes peer.incoming
peer_bytes = (
  omega arith,
  (
    omega arith,
    (
      omega arith,
      (
        omega arith,
        (
          omega arith,
          (
            omega arith,
            (
              omega arith,
              (
                omega arith,
                (
                  omega arith,
                  (
                    omega arith,
                    (
                      omega arith,
                      (
                        omega arith,
                        (
                          omega arith,
                          (omega arith, (omega arith, (omega arith, (omega arith, tt)))),
                        ),
                      ),
                    ),
                  ),
                ),
              ),
            ),
          ),
        ),
      ),
    ),
  ),
)

socks_connect-IsReplied_example : IsReplied user peer.incoming after.incoming
socks_connect-IsReplied_example = socks_connect-IsReplied net user site peer peer_bytes finished

abbrev response : List ℕ
response = str "HTTP/1.1 200 OK" ++ 13 ∷ 10 ∷ 13 ∷ 10 ∷ []

take_header-exact_example :
    (take_header [] (response ++ first_bytes) ≡ ok (response, first_bytes)) ↔ (
      (response ++ first_bytes ≡ response ++ first_bytes)
      × EndsFirst [] response
      × (length response ≤ header_limit))
take_header-exact_example = take_header-exact (response ++ first_bytes) response first_bytes

abbrev web_peer : Conn
web_peer = record { incoming = response ++ first_bytes; sent = []; writable = 1 }

abbrev conn_of : Result TunnelError Conn → Conn
conn_of (ok c) = c
conn_of (err e) = web_peer

abbrev tunnelled : Result TunnelError Conn
tunnelled = connect net user site (str "front.example") web_peer

tunnelled_ok : tunnelled ≡ ok (conn_of tunnelled)
unfolding connect contains_any is_end
tunnelled_ok = refl

connect-lines_example :
    (msg : Text) × ((conn_of tunnelled).sent ≡ utf8 msg ∷ [])
    × (lines msg ≡ request_lines net user site (str "front.example"))
connect-lines_example =
    connect-lines net user site (str "front.example") web_peer (λ bs. refl) tunnelled_ok

abbrev proxy : Url
proxy = record {
  scheme = str "socks5";
  hostname = str "proxy";
  port = [];
  path = [];
  raw_query = [];
  fragment = [];
  user = user;
}

abbrev outside : Environment
outside = record host { parse_url = λ _. some proxy }

abbrev entry : ProxyEndpoint
entry = record { url = str "socks5://u:pw@proxy"; url_file = []; url_env = []; connect_host = [] }

abbrev asked_proxy : List ℕ
asked_proxy = 5 ∷ 1 ∷ 0 ∷ 3 ∷ 5 ∷ (str "proxy" ++ 4 ∷ 56 ∷ [])

resolve_ok : resolve outside entry ≡ ok proxy
unfolding resolve contains
resolve_ok = refl

dial_chain-through_example :
    dial_chain outside net (some entry) entry site
    ≡ ok (record {
      incoming = first_bytes;
      sent = messages user asked (messages user asked_proxy []);
      writable = 0;
    })
unfolding speaks_socks byte_length connect_request proxy_address default_port utf8
dial_chain-through_example =
    dial_chain-through outside net entry entry proxy proxy site granted granted asked_proxy asked
      first_bytes 0 resolve_ok resolve_ok refl refl (omega arith, omega arith)
      (omega arith, omega arith) refl refl refl asked_ok refl
