-- ===== src/Transport/Socks/Asked.antt =====
-- How a proxy reads the request of `socksConnect`, after RFC 1928.
use cpa_codex_turn_state_plu.Base.{
  ℕ, ◌+◌, ◌*◌, ◌/◌, ◌%◌, ◌≤◌, ◌≡◌, refl, sym, ap, subst, ◌∙◌, inl, inr, not, ◌&&◌, ◌||◌,
  Option-cases, Option, none, some, List, [], ◌∷◌, ◌++◌, ltb, nat_beq, length, if◌then◌else◌, Text,
  ok, >>=-eq-ok, err_not_ok, guard-ok, ok-injective, arith,
}
use cpa_codex_turn_state_plu.Text.{byte_length}
use cpa_codex_turn_state_plu.Transport.Wire.{
  Net, Ip, v4, v6, utf8, split_at, split_at-append, length-utf8,
}
use cpa_codex_turn_state_plu.Transport.Socks.{SocksError, port_of, address, connect_request}
use cpa_codex_turn_state_plu.Transport.Socks.Dialogue.{Place, ip4, ip6, name, IsPlace}

read_port : Place → List ℕ → Option (Place × ℕ)
read_port p (h ∷ l ∷ []) = some (p, h * 256 + l)
read_port p _ = none

read_place : (List ℕ → Place) → Option (List ℕ × List ℕ) → Option (Place × ℕ)
read_place make none = none
read_place make (some (b, rest)) = read_port (make b) rest

read_name : List ℕ → Option (Place × ℕ)
unfolding read_place
read_name [] = none
read_name (n ∷ s) = read_place name (split_at n s)

-- The address and the port that a request asks for.
unfoldable pub read_request : List ℕ → Option (Place × ℕ)
unfolding read_place read_port read_name
read_request (version ∷ command ∷ reserved ∷ kind ∷ s) =
    if not (nat_beq version 5 && nat_beq command 1 && nat_beq reserved 0)
    then none
    else if nat_beq kind 1
    then read_place ip4 (split_at 4 s)
    else if nat_beq kind 4
    then read_place ip6 (split_at 16 s)
    else if nat_beq kind 3
    then read_name s
    else none
read_request _ = none

-- Addresses have the length of their kind, as `To4` and `To16` have it.
abbrev pub IsSized : Option Ip → Type 0
IsSized none = Unit
IsSized (some (v4 b)) = length b ≡ 4
IsSized (some (v6 b)) = length b ≡ 16

abbrev pub IsNet : Net → Type 0
IsNet net = (host : Text) → IsSized (net.parse_ip host)

-- The place that a host stands for, if it is an address or a name.
abbrev pub place_of : Option Ip → Text → Place
place_of none host = name (utf8 host)
place_of (some (v4 b)) host = ip4 b
place_of (some (v6 b)) host = ip6 b

-- What the request asks for is what the target says.
pub record IsAsked (net : Net) (target : Text) (request : List ℕ) : Type 0 where
  pub host : Text
  pub port_text : Text
  pub port : ℕ
  pub split : net.split_host_port target ≡ some (host, port_text)
  pub number : port_of port_text ≡ some port
  pub low : 1 ≤ port
  pub high : port ≤ 65535
  pub fits : IsPlace (place_of (net.parse_ip host) host)
  pub read_back : read_request request ≡ some (place_of (net.parse_ip host) host, port)

port_of-range : (t : Text) (n : ℕ) → port_of t ≡ some n → (1 ≤ n) × (n ≤ 65535)
unfolding port_of
port_of-range [] n h = cc
port_of-range (c ∷ s) n h = (ground (arith, h), ground (arith, h))

port_bytes : (n : ℕ) → n ≤ 65535 → n / 256 % 256 * 256 + n % 256 ≡ n
port_bytes n h = omega (arith, h)

-- The address of a host is read as the place that the host stands for.
address-read :
    (o : Option Ip) (host : Text) (a : List ℕ) (h l : ℕ)
    → IsSized o
    → address o host ≡ ok a
    → IsPlace (place_of o host)
      × (read_request (5 ∷ 1 ∷ 0 ∷ (a ++ h ∷ l ∷ [])) ≡ some (place_of o host, h * 256 + l))
unfolding address read_request
address-read none host a h l sized e =
    let (whole, done) =
      guard-ok (nat_beq (byte_length host) 0 || ltb 255 (byte_length host)) SocksError.bad_hostname
        _ e in
    let small : byte_length host ≤ 255 = ground (arith, whole) in
    let same : 3 ∷ byte_length host % 256 ∷ utf8 host ≡ a =
      ok-injective {E = SocksError} _ a done in
    let count : byte_length host % 256 ≡ length (utf8 host) =
      omega (arith, small, length-utf8 host) in
    let cut = split_at-append (length (utf8 host)) (utf8 host) (h ∷ l ∷ []) refl in
    (omega (arith, small, length-utf8 host), rw (sym same, count, cut) refl)
address-read (some (v4 b)) host a h l sized e =
    let same : 1 ∷ b ≡ a = ok-injective {E = SocksError} _ a e in
    (sized, rw (sym same, split_at-append 4 b (h ∷ l ∷ []) sized) refl)
address-read (some (v6 b)) host a h l sized e =
    let same : 4 ∷ b ≡ a = ok-injective {E = SocksError} _ a e in
    (sized, rw (sym same, split_at-append 16 b (h ∷ l ∷ []) sized) refl)

-- The request that the code writes asks, in the words of the protocol, for the host of the target as
-- an address of four or sixteen bytes or as a name of at most 255 bytes, and for its port, which is
-- between 1 and 65535.
pub connect_request-IsAsked :
    (net : Net) (target : Text) {request : List ℕ}
    → IsNet net
    → connect_request net target ≡ ok request
    → IsAsked net target request
unfolding connect_request
connect_request-IsAsked net target {request} sized e =
    elim (Option-cases (net.split_host_port target)) [
      | inl s ↦ absurd (err_not_ok (rw (s, connect_request) at e))
      | inr ((host, port_text), s) ↦ elim (Option-cases (port_of port_text)) [
        | inl p ↦ absurd (err_not_ok (rw p at (rw (s, connect_request) at e)))
        | inr (n, p) ↦
            let (a, encoded, done) =
              >>=-eq-ok (address (net.parse_ip host) host) _
                (rw p at (rw (s, connect_request) at e)) in
            let (low, high) = port_of-range port_text n p in
            let (fits, read_back) =
              address-read (net.parse_ip host) host a (n / 256 % 256) (n % 256) (sized host)
                encoded in
            let same = ok-injective {E = SocksError} _ request done in
            record {
              host = host;
              port_text = port_text;
              port = n;
              split = s;
              number = p;
              low = low;
              high = high;
              fits = fits;
              read_back =
                  subst (λ r. read_request r ≡ some (place_of (net.parse_ip host) host, n)) same
                    (read_back
                      ∙ ap (λ k. some (place_of (net.parse_ip host) host, k)) (port_bytes n high));
            }
      ]
    ]
