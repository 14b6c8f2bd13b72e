-- ===== src/Transport/Wire.antt =====
-- A `net.Conn` as transport.go uses it, and what the code takes from `net`, `crypto/tls`, `net/http`
-- and `encoding/base64`.
use cpa_codex_turn_state_plu.Base.{
  ℕ, zero, suc, ◌+◌, ◌/◌, ◌%◌, ◌≡◌, refl, sym, ap, ◌∙◌, Option, none, some, some-injective,
  Option-cases, inl, inr, List, [], ◌∷◌, ◌++◌, ltb, length, length-append, if◌then◌else◌, Text,
  Result, ok, err, arith,
}
use cpa_codex_turn_state_plu.Text.{utf8_width, byte_length}

-- The bytes that the peer sends before it closes, the writes so far, the latest first, and how many
-- more writes succeed.
pub record Conn : Type 0 where
  pub incoming : List ℕ
  pub sent : List (List ℕ)
  pub writable : ℕ

-- The four or sixteen bytes of an address, as `To4` and `To16` return them.
pub data Ip : Type 0 where
  v4 v6 : List ℕ → Ip

pub record Net : Type 0 where
  -- `net.SplitHostPort`
  pub split_host_port : Text → Option (Text × Text)
  -- `net.ParseIP`
  pub parse_ip : Text → Option Ip
  -- `HandshakeContext` for a server name: the connection inside
  pub handshake : Text → Conn → Option Conn
  -- The status of `http.ReadResponse` for CONNECT
  pub read_response : List ℕ → Option ℕ
  -- `base64.StdEncoding.EncodeToString`
  pub std_base64 : List ℕ → Text
  -- `net.Dialer` for an address
  pub dial : Text → Option Conn

-- `conn.Write`
unfoldable pub write {ε} : {E : Type ε} → E → List ℕ → Conn → Result E Conn
write e msg c = elim c.writable [
  | zero ↦ err e
  | suc n ↦ ok (record c { sent = msg ∷ c.sent; writable = n })
]

-- The first bytes and the others, if there are so many.
unfoldable pub split_at : ℕ → List ℕ → Option (List ℕ × List ℕ)
split_at zero s = some ([], s)
split_at (suc n) [] = none
split_at (suc n) (b ∷ s) = elim (split_at n s) [ none ↦ none | some r ↦ some (b ∷ r.0, r.1) ]

-- `io.ReadFull` of a number of bytes
unfoldable pub read_full {ε} : {E : Type ε} → E → ℕ → Conn → Result E (List ℕ × Conn)
unfolding split_at
read_full e n c = elim (split_at n c.incoming) [
  | none ↦ err e
  | some r ↦ ok (r.0, record c { incoming = r.1 })
]

-- The bytes of a character.
unfoldable pub utf8_char : ℕ → List ℕ
utf8_char c =
    if ltb c 0x80
    then c ∷ []
    else if ltb c 0x800
    then (0xc0 + c / 64) ∷ (0x80 + c % 64) ∷ []
    else if ltb c 0x10000
    then (0xe0 + c / 4096) ∷ (0x80 + c / 64 % 64) ∷ (0x80 + c % 64) ∷ []
    else (0xf0 + c / 262144) ∷ (0x80 + c / 4096 % 64) ∷ (0x80 + c / 64 % 64) ∷ (0x80 + c % 64) ∷ []

-- `[]byte(s)`
unfoldable pub utf8 : Text → List ℕ
unfolding utf8_char
utf8 [] = []
utf8 (c ∷ s) = utf8_char c ++ utf8 s

length-utf8_char : (c : ℕ) → length (utf8_char c) ≡ utf8_width c
unfolding utf8_char
length-utf8_char c = ground arith

pub length-utf8 : (s : Text) → length (utf8 s) ≡ byte_length s
unfolding utf8 byte_length
length-utf8 [] = refl
length-utf8 (c ∷ s) =
    length-append (utf8_char c) (utf8 s) ∙ omega (arith, length-utf8_char c, length-utf8 s)

-- Bytes that stand in front are split off, and nothing else.
pub split_at-append :
    (n : ℕ) (bs rest : List ℕ) → length bs ≡ n → split_at n (bs ++ rest) ≡ some (bs, rest)
unfolding split_at
split_at-append zero [] rest h = refl
split_at-append zero (b ∷ bs) rest h = absurd (omega (arith, h))
split_at-append (suc n) [] rest h = absurd (omega (arith, h))
split_at-append (suc n) (b ∷ bs) rest h = rw (split_at-append n bs rest (omega (arith, h))) refl

pub split_at-some :
    (n : ℕ) (s bs rest : List ℕ)
    → split_at n s ≡ some (bs, rest)
    → (s ≡ bs ++ rest) × (length bs ≡ n)
unfolding split_at
split_at-some zero s bs rest h =
    let same : ([], s) ≡ (bs, rest) = some-injective _ _ h in
    (
      ap (λ (p : List ℕ × List ℕ). p.0 ++ p.1) same,
      sym (ap (λ (p : List ℕ × List ℕ). length p.0) same),
    )
split_at-some (suc n) [] bs rest h = cc
split_at-some (suc n) (b ∷ s) bs rest h = elim (Option-cases (split_at n s)) [
  | inl e ↦ absurd (none_not_some (rw e at h))
  | inr (r, e) ↦
      let (whole, count) = split_at-some n s r.0 r.1 e in
      let same : (b ∷ r.0, r.1) ≡ (bs, rest) = some-injective _ _ (rw e at h) in
      (
        ap (λ t. b ∷ t) whole ∙ ap (λ (p : List ℕ × List ℕ). p.0 ++ p.1) same,
        sym (ap (λ (p : List ℕ × List ℕ). length p.0) same) ∙ ap suc count,
      )
]
  where
    none_not_some : {r : List ℕ × List ℕ} → ¬ (none ≡ some r)
    none_not_some h = cc

-- A part and two more bytes are split off.
pub split_at-pair :
    (bs rest : List ℕ) (h l : ℕ)
    → split_at (suc (suc (length bs))) (bs ++ h ∷ l ∷ rest) ≡ some (bs ++ h ∷ l ∷ [], rest)
unfolding split_at
split_at-pair [] rest h l = refl
split_at-pair (b ∷ bs) rest h l = rw (split_at-pair bs rest h l) refl
