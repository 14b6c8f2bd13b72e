-- ===== src/Transport/Connect/Lines.antt =====
-- The request of `tunnelProxy` line by line: nothing of the target or of the host adds a line.
use cpa_codex_turn_state_plu.Base.{
  ℕ, ◌≡◌, refl, sym, ap, ◌∙◌, inl, inr, false, Bool-cases, List, [], ◌∷◌, ◌++◌, nat_beq, any,
  if◌then◌else◌, Text, str, Option, Option-cases, none, some, arith, Result, ok, err, >>=-eq-ok,
  guard-ok, ok-injective, err_not_ok, zero, suc,
}
use mathlib.Core.List.{append_assoc}
use cpa_codex_turn_state_plu.Text.{contains_any}
use cpa_codex_turn_state_plu.Transport.Wire.{Conn, Net, utf8, write}
use cpa_codex_turn_state_plu.Transport.Socks.{User}
use cpa_codex_turn_state_plu.Transport.Connect.{
  TunnelError, crlf, authorization, connect_message, take_header, check_status, connect,
}

-- A character in front of the first line.
widen : ℕ → List Text → List Text
widen c [] = (c ∷ []) ∷ []
widen c (line ∷ rest) = (c ∷ line) ∷ rest

-- The lines of a text: a line feed ends one, and belongs to none.
unfoldable pub lines : Text → List Text
unfolding widen
lines [] = [] ∷ []
lines (c ∷ s) = let rest = lines s in if nat_beq c 10 then [] ∷ rest else widen c rest

-- No character is a line feed.
abbrev pub IsPlain : Text → Type 0
IsPlain s = any (nat_beq 10) s ≡ false

-- A text without line feeds stands in the first line.
prefix_first : Text → List Text → List Text
prefix_first [] ls = ls
prefix_first (c ∷ s) ls = widen c (prefix_first s ls)

lines-append : (s t : Text) → IsPlain s → lines (s ++ t) ≡ prefix_first s (lines t)
unfolding lines prefix_first
lines-append [] t h = refl
lines-append (c ∷ s) t h =
    let other : nat_beq c 10 ≡ false = ground (arith, h) in
    let plain : IsPlain s = ground (arith, h) in rw other (ap (widen c) (lines-append s t plain))

prefix_first-line :
    (s line : Text) (rest : List Text) → prefix_first s (line ∷ rest) ≡ (s ++ line) ∷ rest
unfolding prefix_first widen
prefix_first-line [] line rest = refl
prefix_first-line (c ∷ s) line rest = ap (widen c) (prefix_first-line s line rest)

-- Three plain texts and a line break make a line.
line_of-three :
    (p s q t : Text)
    → IsPlain p
    → IsPlain s
    → IsPlain q
    → lines (p ++ (s ++ (q ++ 13 ∷ 10 ∷ t))) ≡ (p ++ (s ++ (q ++ 13 ∷ []))) ∷ lines t
unfolding lines
line_of-three p s q t hp hs hq =
    lines-append p (s ++ (q ++ 13 ∷ 10 ∷ t)) hp
    ∙ ap (prefix_first p) (
        lines-append s (q ++ 13 ∷ 10 ∷ t) hs
        ∙ ap (prefix_first s)
            (lines-append q (13 ∷ 10 ∷ t) hq ∙ prefix_first-line q (13 ∷ []) (lines t))
        ∙ prefix_first-line s (q ++ 13 ∷ []) (lines t))
    ∙ prefix_first-line p (s ++ (q ++ 13 ∷ [])) (lines t)

-- The line with the credentials.
abbrev pub credential_line : Net → Option User → List Text → List Text
credential_line net none rest = rest
credential_line net (some (name, pass)) rest =
    (str "Proxy-Authorization: Basic " ++ (net.std_base64 (utf8 (name ++ b':' ∷ pass)) ++ 13 ∷ []))
    ∷ rest

-- The lines of a request, each with the carriage return at its end.
abbrev pub request_lines : Net → Option User → Text → Text → List Text
request_lines net user target host =
    (str "CONNECT " ++ (target ++ (str " HTTP/1.1" ++ 13 ∷ [])))
    ∷ (str "Host: " ++ (host ++ 13 ∷ []))
    ∷ credential_line net user
        ((str "Proxy-Connection: Keep-Alive" ++ 13 ∷ []) ∷ (13 ∷ []) ∷ [] ∷ [])

-- Base64 has no line feeds.
abbrev pub IsOneLine : Net → Type 0
IsOneLine net = (bs : List ℕ) → IsPlain (net.std_base64 bs)

tail_lines :
    (net : Net) (user : Option User)
    → IsOneLine net
    → lines (authorization net user ++ (str "Proxy-Connection: Keep-Alive" ++ (crlf ++ crlf)))
      ≡ credential_line net user
          ((str "Proxy-Connection: Keep-Alive" ++ 13 ∷ []) ∷ (13 ∷ []) ∷ [] ∷ [])
unfolding authorization lines
tail_lines net none h = refl
tail_lines net (some (name, pass)) h =
    let secret = net.std_base64 (utf8 (name ++ b':' ∷ pass)) in
    let rest = str "Proxy-Connection: Keep-Alive" ++ (crlf ++ crlf) in
    ap (λ x. lines (str "Proxy-Authorization: Basic " ++ x)) (append_assoc secret crlf rest)
    ∙ line_of-three (str "Proxy-Authorization: Basic ") secret [] rest refl (h _) refl

message_lines :
    (net : Net) (user : Option User) (target host : Text)
    → IsOneLine net
    → IsPlain target
    → IsPlain host
    → lines (connect_message target host (authorization net user))
      ≡ request_lines net user target host
unfolding connect_message
message_lines net user target host h ht hh =
    line_of-three (str "CONNECT ") target (str " HTTP/1.1") _ refl ht refl
    ∙ ap (λ ls. (str "CONNECT " ++ (target ++ (str " HTTP/1.1" ++ 13 ∷ []))) ∷ ls)
        (line_of-three (str "Host: ") host [] _ refl hh refl
          ∙ ap (λ ls. (str "Host: " ++ (host ++ 13 ∷ [])) ∷ ls) (tail_lines net user h))

no_breaks : (s : Text) → contains_any s crlf ≡ false → IsPlain s
unfolding contains_any
no_breaks [] h = refl
no_breaks (c ∷ s) h = ground (arith, h, no_breaks s)

contains_any-append :
    (s t : Text)
    → contains_any (s ++ t) crlf ≡ false
    → (contains_any s crlf ≡ false) × (contains_any t crlf ≡ false)
unfolding contains_any
contains_any-append [] t h = (refl, h)
contains_any-append (c ∷ s) t h =
    let rest = contains_any-append s t (ground (arith, h)) in (ground (arith, h, rest), rest.1)

check_status-sent :
    (net : Net) (c : Conn) (r : List ℕ × List ℕ) {d : Conn}
    → check_status net c r ≡ ok d
    → d.sent ≡ c.sent
unfolding check_status
check_status-sent net c r {d} h = elim (Option-cases (net.read_response r.0)) [
  | inl e ↦ absurd (err_not_ok (rw (e, check_status) at h))
  | inr (status, e) ↦ elim (Bool-cases (nat_beq status 200)) [
    | inl k ↦ sym (
        ap (λ (x : Conn). x.sent)
          (ok-injective {E = TunnelError} _ d (rw (e, k, check_status) at h)))
    | inr k ↦ absurd (err_not_ok (rw (e, k, check_status) at h))
  ]
]

write-sent :
    (e : TunnelError) (msg : List ℕ) (c : Conn) {d : Conn}
    → write e msg c ≡ ok d
    → d.sent ≡ msg ∷ c.sent
unfolding write
write-sent e msg c {d} h = go c.writable h
  where
    go :
        (k : ℕ)
        → ◌≡◌ {A = Result TunnelError Conn}
            (elim k [ zero ↦ err e | suc n ↦ ok (record c { sent = msg ∷ c.sent; writable = n }) ])
            (ok d)
        → d.sent ≡ msg ∷ c.sent
    go zero h = cc
    go (suc n) h = ap (λ (x : Conn). x.sent) (sym (ok-injective {E = TunnelError} _ d h))

-- A CONNECT that succeeds has written one message, and this message has the lines of the request and
-- no others, whatever the target, the host and the credentials are, as long as base64 has no line
-- breaks.
pub connect-lines :
    (net : Net) (user : Option User) (target host : Text) (c : Conn) {d : Conn}
    → IsOneLine net
    → connect net user target host c ≡ ok d
    → (msg : Text) × (d.sent ≡ utf8 msg ∷ c.sent) × (lines msg ≡ request_lines net user target host)
unfolding connect
connect-lines net user target host c {d} one_line h =
    let msg = connect_message target host (authorization net user) in
    let (clean, k0) = guard-ok (contains_any (host ++ target) crlf) TunnelError.bad_authority _ h in
    let (c1, written, k1) = >>=-eq-ok (write TunnelError.connect_write (utf8 msg) c) _ k0 in
    let (r, read, checked) = >>=-eq-ok (take_header [] c1.incoming) (check_status net c1) k1 in
    let (clean_host, clean_target) = contains_any-append host target clean in
    (
      msg,
      check_status-sent net c1 r checked
          ∙ write-sent TunnelError.connect_write (utf8 msg) c written,
      message_lines net user target host one_line (no_breaks target clean_target)
          (no_breaks host clean_host),
    )
