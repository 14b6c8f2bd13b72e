-- ===== src/Transport/Socks.antt =====
-- transport.go: `socksConnect`.
pub mod Dialogue
pub mod Asked
pub mod Accepted
use cpa_codex_turn_state_plu.Base.{
  ℕ, suc, ◌+◌, ◌*◌, ◌/◌, ◌%◌, Bool, true, false, not, ◌&&◌, ◌||◌, Option, none, some, List, [], ◌∷◌,
  ◌++◌, ltb, nat_beq, length, if◌then◌else◌, Text, text_beq, Result, ok, err, ◌>>=◌,
}
use cpa_codex_turn_state_plu.Text.{byte_length, atoi}
use cpa_codex_turn_state_plu.Transport.Wire.{Conn, Net, Ip, v4, v6, write, read_full, utf8}

pub data SocksError : Type 0 where
  greeting_write greeting_failed credentials_too_long auth_write auth_failed : SocksError
  method_rejected bad_target bad_port bad_hostname connect_write : SocksError
  connect_rejected address_failed bad_address address_truncated : SocksError

-- `proxy.User`: the name and the password.
abbrev pub User : Type 0
User = Text × Text

-- `methods`
unfoldable pub greeting : Option User → List ℕ
greeting none = 5 ∷ 1 ∷ 0 ∷ []
greeting (some user) = 5 ∷ 1 ∷ 2 ∷ []

-- The message with the credentials.
unfoldable pub login : User → List ℕ
login (name, pass) = 1 ∷ byte_length name % 256 ∷ (utf8 name ++ byte_length pass % 256 ∷ utf8 pass)

unfoldable check_login : List ℕ × Conn → Result SocksError Conn
check_login (reply, c) = if text_beq reply (1 ∷ 0 ∷ []) then ok c else err auth_failed

unfoldable pub authenticate : User → Conn → Result SocksError Conn
unfolding write read_full login check_login
authenticate user c =
    if ltb 255 (byte_length user.0) || ltb 255 (byte_length user.1)
    then err credentials_too_long
    else write auth_write (login user) c >>= read_full auth_failed 2 >>= check_login

-- The branches on the method that the proxy chose.
unfoldable pub choose : Option User → ℕ → Conn → Result SocksError Conn
unfolding authenticate
choose (some user) m c = if nat_beq m 2 then authenticate user c else err method_rejected
choose none m c = if nat_beq m 0 then ok c else err method_rejected

unfoldable pub check_greeting : Option User → List ℕ × Conn → Result SocksError Conn
unfolding choose
check_greeting user (v ∷ m ∷ [], c) = if nat_beq v 5 then choose user m c else err greeting_failed
check_greeting user _ = err greeting_failed

-- The method, and the credentials where it asks for them.
unfoldable pub negotiate : Option User → Conn → Result SocksError Conn
unfolding write read_full greeting check_greeting
negotiate user c =
    write greeting_write (greeting user) c >>= read_full greeting_failed 2 >>= check_greeting user

-- `strconv.Atoi` with its sign, and the range of a port. A minus leaves no port.
unfoldable pub port_of : Text → Option ℕ
unfolding atoi
port_of [] = none
port_of (c ∷ s) = elim (if nat_beq c b'+' then atoi s else atoi (c ∷ s)) [
  | none ↦ none
  | some n ↦ if ltb n 1 || ltb 65535 n then none else some n
]

-- The type of the address, and the address.
unfoldable pub address : Option Ip → Text → Result SocksError (List ℕ)
address (some (v4 b)) host = ok (1 ∷ b)
address (some (v6 b)) host = ok (4 ∷ b)
address none host =
    if nat_beq (byte_length host) 0 || ltb 255 (byte_length host)
    then err bad_hostname
    else ok (3 ∷ byte_length host % 256 ∷ utf8 host)

-- The message that asks for the connection.
unfoldable pub connect_request : Net → Text → Result SocksError (List ℕ)
unfolding port_of address
connect_request net target = elim (net.split_host_port target) [
  | none ↦ err bad_target
  | some (host, port) ↦ elim (port_of port) [
    | none ↦ err bad_port
    | some n ↦ address (net.parse_ip host) host >>= λ a.
        ok (5 ∷ 1 ∷ 0 ∷ (a ++ n / 256 % 256 ∷ n % 256 ∷ []))
  ]
]

-- `io.CopyN` of the address and the port
unfoldable skip_address : ℕ → Conn → Result SocksError Conn
skip_address n c = read_full address_truncated (suc (suc n)) c >>= λ r. ok r.1

unfoldable skip_name : List ℕ × Conn → Result SocksError Conn
unfolding skip_address
skip_name (n ∷ [], c) = skip_address n c
skip_name _ = err address_failed

-- The `switch` on the type of the address.
unfoldable pub bound_address : ℕ → Conn → Result SocksError Conn
unfolding skip_address skip_name read_full
bound_address kind c =
    if nat_beq kind 1
    then skip_address 4 c
    else if nat_beq kind 4
    then skip_address 16 c
    else if nat_beq kind 3
    then read_full address_failed 1 c >>= skip_name
    else err bad_address

unfoldable pub check_reply : List ℕ × Conn → Result SocksError Conn
unfolding bound_address
check_reply (v ∷ code ∷ reserved ∷ kind ∷ [], c) =
    if nat_beq v 5 && nat_beq code 0 then bound_address kind c else err connect_rejected
check_reply _ = err connect_rejected

-- `socksConnect`
unfoldable pub socks_connect : Net → Option User → Text → Conn → Result SocksError Conn
unfolding negotiate connect_request write read_full check_reply
socks_connect net user target c = do
  agreed ← negotiate user c
  request ← connect_request net target
  asked ← write connect_write request agreed
  read_full connect_rejected 4 asked >>= check_reply
