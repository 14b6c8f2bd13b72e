-- ===== src/Fernet/Complete.antt =====
-- Every token of the Fernet format is accepted, and read as what it was built from.
use cpa_codex_turn_state_plu.Base.{
  ℕ, ◌+◌, ◌*◌, ◌/◌, ◌%◌, ◌≤◌, ◌<◌, ◌≡◌, refl, ◌∙◌, false, List, [], ◌∷◌, map, arith, nat_beq, Text,
  text_beq, ok, length, All, take, drop,
}
use cpa_codex_turn_state_plu.Base.Int.{pos}
use cpa_codex_turn_state_plu.Clock.{unix}
use cpa_codex_turn_state_plu.Text.{is_space}
use cpa_codex_turn_state_plu.Text.Laws.{
  trim_none, drop_while_end_none, any_none, byte_length_ascii, All-weaken,
}
use cpa_codex_turn_state_plu.Base64
use cpa_codex_turn_state_plu.Base64.{digit_char, split, encode}
use cpa_codex_turn_state_plu.Base64.RoundTrip.{
  AreBytes, digit_char_bounds, split-digits, decode-encode,
}
use cpa_codex_turn_state_plu.Fernet.{
  fernet_version, min_fernet_unix, max_fernet_unix, big_endian, unprintable, read_token,
  read_decoded, decode_base64_url, parse_turn_state,
}

-- The bytes of a token: the version, the time in seconds, and what follows it (initialisation
-- vector, ciphertext and signature).
abbrev pub token : ℕ → List ℕ → List ℕ
token secs body =
    fernet_version
    ∷ (secs / 0x100000000000000 % 256)
    ∷ (secs / 0x1000000000000 % 256)
    ∷ (secs / 0x10000000000 % 256)
    ∷ (secs / 0x100000000 % 256)
    ∷ (secs / 0x1000000 % 256)
    ∷ (secs / 0x10000 % 256)
    ∷ (secs / 0x100 % 256)
    ∷ (secs % 256)
    ∷ body

abbrev IsPlain : ℕ → Type 0
IsPlain c = (45 ≤ c) × (c ≤ 122) × (nat_beq c b'=' ≡ false)

IsPlain-map : (ds : List ℕ) → All (λ d. d < 64) ds → All IsPlain (map digit_char ds)
IsPlain-map [] h = tt
IsPlain-map (d ∷ ds) h = (digit_char_bounds d h.0, IsPlain-map ds h.1)

encode-IsPlain : (bs : List ℕ) → AreBytes bs → All IsPlain (encode bs)
unfolding encode
encode-IsPlain bs h = IsPlain-map (split bs) (split-digits bs h)

plain_not_space : (c : ℕ) → IsPlain c → is_space c ≡ false
unfolding is_space
plain_not_space c h = ground arith

plain_not_unprintable : (c : ℕ) → IsPlain c → unprintable c ≡ false
plain_not_unprintable c h = ground arith

-- What the parser does with a plain text that is not empty.
parse_plain :
    (text : Text) (max : ℕ)
    → All IsPlain text
    → text_beq text [] ≡ false
    → length text ≤ max
    → parse_turn_state text (pos max) ≡ read_decoded (Base64.decode text)
unfolding parse_turn_state
parse_plain text max plain nonempty fits =
    let trimmed = trim_none text (All-weaken IsPlain _ text plain_not_space plain) in
    let unpadded =
      drop_while_end_none (nat_beq b'=') text
        (All-weaken IsPlain _ text (λ c h. ground arith) plain) in
    let printable =
      any_none unprintable text (All-weaken IsPlain _ text plain_not_unprintable plain) in
    let width = byte_length_ascii text (All-weaken IsPlain _ text (λ c h. omega arith) plain) in
    rw (trimmed, nonempty, width, printable, decode_base64_url, unpadded) (ground arith)

big_endian-token :
    (secs : ℕ) (body : List ℕ)
    → secs < max_fernet_unix
    → big_endian 0 (take 8 (drop 1 (token secs body))) ≡ secs
big_endian-token secs body h = omega arith

token-AreBytes : (secs : ℕ) (body : List ℕ) → AreBytes body → AreBytes (token secs body)
token-AreBytes secs body h =
    let r₁ : AreBytes ((secs % 256) ∷ body) = (omega arith, h) in
    let r₂ : AreBytes ((secs / 0x100 % 256) ∷ (secs % 256) ∷ body) = (omega arith, r₁) in
    (
      omega arith,
      (omega arith, (omega arith, (omega arith, (omega arith, (omega arith, (omega arith, r₂)))))),
    )

encode-token_nonempty : (secs : ℕ) (body : List ℕ) → text_beq (encode (token secs body)) [] ≡ false
unfolding encode
encode-token_nonempty secs body = refl

read_token-token :
    (secs n : ℕ) (body : List ℕ)
    → min_fernet_unix ≤ secs
    → secs < max_fernet_unix
    → 1 ≤ n
    → length body ≡ 48 + 16 * n
    → read_token (token secs body)
      ≡ ok (record { issued_at = unix secs; cipher_bytes = 16 * n; blocks = n })
unfolding read_token
read_token-token secs n body lo hi pos_n len =
    rw (big_endian-token secs body hi) (let size : length body ≡ 48 + 16 * n = len in ground arith)

-- A token built from a time of the years 2020 to 2099 and a ciphertext of `n` blocks, encoded as
-- unpadded base64url and no longer than the limit, is accepted with this time and `n`.
pub parse-encode :
    (secs n max : ℕ) (body : List ℕ)
    → min_fernet_unix ≤ secs
    → secs < max_fernet_unix
    → 1 ≤ n
    → length body ≡ 48 + 16 * n
    → AreBytes body
    → length (encode (token secs body)) ≤ max
    → parse_turn_state (encode (token secs body)) (pos max)
      ≡ ok (record { issued_at = unix secs; cipher_bytes = 16 * n; blocks = n })
unfolding read_decoded
parse-encode secs n max body lo hi pos_n len bytes fits =
    let all_bytes = token-AreBytes secs body bytes in
    parse_plain (encode (token secs body)) max (encode-IsPlain (token secs body) all_bytes)
      (encode-token_nonempty secs body) fits
    ∙ rw (decode-encode (token secs body) all_bytes) (read_token-token secs n body lo hi pos_n len)
