-- ===== src/Fernet/Bounds.antt =====
-- What an accepted turn state is known to be.
use cpa_codex_turn_state_plu.Base.{
  ℕ, ◌*◌, ◌≤◌, ◌<◌, ◌≡◌, false, Option, none, some, List, [], arith, Text, text_beq, ok, guard-ok,
  any,
}
use cpa_codex_turn_state_plu.Base.Int.{ℤ, less_than}
use cpa_codex_turn_state_plu.Text.{trim, byte_length}
use cpa_codex_turn_state_plu.Fernet.{
  FernetInfo, min_fernet_time, max_fernet_time, read_token, read_decoded, parse_turn_state,
  decode_base64_url, unprintable,
}

pub record IsPlausible (info : FernetInfo) : Type 0 where
  pub not_before : min_fernet_time ≤ info.issued_at
  pub not_after : info.issued_at < max_fernet_time
  pub aligned : info.cipher_bytes ≡ 16 * info.blocks
  pub has_block : 1 ≤ info.blocks

read_token-IsPlausible :
    (raw : List ℕ) {info : FernetInfo} → read_token raw ≡ ok info → IsPlausible info
unfolding read_token
read_token-IsPlausible raw h = ground arith

read_decoded-IsPlausible :
    (o : Option (List ℕ)) {info : FernetInfo} → read_decoded o ≡ ok info → IsPlausible info
unfolding read_decoded
read_decoded-IsPlausible none h = cc
read_decoded-IsPlausible (some raw) h = read_token-IsPlausible raw h

-- The tests in front of the decoder, and what they leave.
pub record Accepted (text : Text) (max_bytes : ℤ) (info : FernetInfo) : Type 0 where
  pub not_empty : text_beq (trim text) [] ≡ false
  pub fits : less_than max_bytes (byte_length (trim text)) ≡ false
  pub printable : any unprintable (trim text) ≡ false
  pub reads : read_decoded (decode_base64_url (trim text)) ≡ ok info

pub parse-Accepted :
    (text : Text) (max_bytes : ℤ) {info : FernetInfo}
    → parse_turn_state text max_bytes ≡ ok info
    → Accepted text max_bytes info
unfolding parse_turn_state
parse-Accepted text max_bytes h =
    let (e, h₁) = guard-ok _ _ _ h in
    let (f, h₂) = guard-ok _ _ _ h₁ in
    let (p, r) = guard-ok _ _ _ h₂ in record { not_empty = e; fits = f; printable = p; reads = r }

-- An accepted turn state was issued in the years 2020 to 2099, and its ciphertext is a positive
-- number of whole blocks.
pub parse-IsPlausible :
    (text : Text) (max_bytes : ℤ) {info : FernetInfo}
    → parse_turn_state text max_bytes ≡ ok info
    → IsPlausible info
parse-IsPlausible text max_bytes h =
    read_decoded-IsPlausible _ (parse-Accepted text max_bytes h).reads
