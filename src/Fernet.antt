-- ===== src/Fernet.antt =====
-- fernet.go: `parseTurnState`, which reads the issue time and the number of ciphertext blocks of a
-- Fernet token without decrypting it. The messages of the errors are left out, not their cases.
pub mod Bounds
pub mod Complete
use cpa_codex_turn_state_plu.Base.{
  ℕ, zero, suc, ◌+◌, ◌-◌, ◌*◌, ◌/◌, ◌%◌, Bool, true, false, not, ◌&&◌, ◌||◌, Option, none, some,
  List, [], ◌∷◌, ltb, nat_beq, if◌then◌else◌, length, take, drop, any, Text, text_beq, Result, ok,
  err,
}
use cpa_codex_turn_state_plu.Base.Int.{ℤ, less_than}
use cpa_codex_turn_state_plu.Clock.{Time, unix}
use cpa_codex_turn_state_plu.Text.{trim, drop_while_end, byte_length}
use cpa_codex_turn_state_plu.Base64

pub record FernetInfo : Type 0 where
  pub issued_at : Time
  pub cipher_bytes : ℕ
  pub blocks : ℕ

pub data ParseError : Type 0 where
  empty too_long non_printable bad_base64 too_short bad_version misaligned out_of_range : ParseError

-- version, timestamp, initialisation vector and signature
abbrev pub fernet_fixed_bytes : ℕ
fernet_fixed_bytes = 57

abbrev pub fernet_version : ℕ
fernet_version = 0x80

abbrev pub min_fernet_unix : ℕ
min_fernet_unix = 1_577_836_800

abbrev pub max_fernet_unix : ℕ
max_fernet_unix = 4_102_444_800

abbrev pub min_fernet_time : Time
min_fernet_time = unix min_fernet_unix

abbrev pub max_fernet_time : Time
max_fernet_time = unix max_fernet_unix

-- `binary.BigEndian.Uint64`
abbrev pub big_endian : ℕ → List ℕ → ℕ
big_endian acc [] = acc
big_endian acc (b ∷ bs) = big_endian (acc * 256 + b) bs

abbrev pub first_byte : List ℕ → ℕ
first_byte [] = 0
first_byte (b ∷ bs) = b

abbrev pub unprintable : ℕ → Bool
unprintable c = ltb c 0x20 || ltb 0x7e c

unfoldable pub decode_base64_url : Text → Option (List ℕ)
decode_base64_url value = Base64.decode (drop_while_end (nat_beq b'=') value)

-- the timestamp, and the fields of the result
unfoldable pub read_header : ℕ → ℕ → Result ParseError FernetInfo
read_header cipher_bytes secs =
    if ltb max_fernet_unix secs
    then err out_of_range
    else if ltb (unix secs) min_fernet_time || not (ltb (unix secs) max_fernet_time)
    then err out_of_range
    else ok
        (record { issued_at = unix secs; cipher_bytes = cipher_bytes; blocks = cipher_bytes / 16 })

unfoldable pub read_token : List ℕ → Result ParseError FernetInfo
unfolding read_header
read_token raw =
    if ltb (length raw) (fernet_fixed_bytes + 16)
    then err too_short
    else if not (nat_beq (first_byte raw) fernet_version)
    then err bad_version
    else let cipher_bytes = length raw - fernet_fixed_bytes in
      if ltb cipher_bytes 16 || not (nat_beq (cipher_bytes % 16) 0)
      then err misaligned
      else read_header cipher_bytes (big_endian 0 (take 8 (drop 1 raw)))

pub read_decoded : Option (List ℕ) → Result ParseError FernetInfo
unfolding read_token
read_decoded none = err bad_base64
read_decoded (some raw) = read_token raw

unfoldable pub parse_turn_state : Text → ℤ → Result ParseError FernetInfo
unfolding read_decoded decode_base64_url
parse_turn_state text max_bytes =
    let value = trim text in
    if text_beq value []
    then err empty
    else if less_than max_bytes (byte_length value)
    then err too_long
    else if any unprintable value
    then err non_printable
    else read_decoded (decode_base64_url value)
