-- ===== src/Base64.antt =====
-- `base64.RawURLEncoding` of the standard library: the decoder that fernet.go calls, and the encoder
-- of RFC 4648 as its independent description.
pub mod RoundTrip
use cpa_codex_turn_state_plu.Base.{
  ℕ, ◌+◌, ◌-◌, ◌*◌, ◌/◌, ◌%◌, Bool, true, false, ◌&&◌, ◌||◌, Option, none, some, List, [], ◌∷◌, map,
  ltb, leb, nat_beq, if◌then◌else◌, Text,
}

-- The value of a digit; 64 stands for a character outside the alphabet.
unfoldable pub sextet : ℕ → ℕ
sextet c =
    if leb b'A' c && leb c b'Z'
    then c - b'A'
    else if leb b'a' c && leb c b'z'
    then c - b'a' + 26
    else if leb b'0' c && leb c b'9'
    then c - b'0' + 52
    else if nat_beq c b'-'
    then 62
    else if nat_beq c b'_'
    then 63
    else 64

-- The digits of the text. Line breaks are skipped.
unfoldable pub sextets : Text → Option (List ℕ)
unfolding sextet
sextets [] = some []
sextets (c ∷ s) = elim (sextets s) [
  | none ↦ none
  | some ds ↦
      if nat_beq c 10 || nat_beq c 13
      then some ds
      else if ltb (sextet c) 64
      then some (sextet c ∷ ds)
      else none
]

-- Four digits make three bytes; two or three digits at the end make one or two, and the bits left
-- over are not looked at. A single digit at the end is an error.
unfoldable pub pack : List ℕ → Option (List ℕ)
pack [] = some []
pack (a ∷ []) = none
pack (a ∷ b ∷ []) = some ((a * 4 + b / 16) ∷ [])
pack (a ∷ b ∷ c ∷ []) = some ((a * 4 + b / 16) ∷ (b % 16 * 16 + c / 4) ∷ [])
pack (a ∷ b ∷ c ∷ d ∷ r) = elim (pack r) [
  | none ↦ none
  | some bs ↦ some ((a * 4 + b / 16) ∷ (b % 16 * 16 + c / 4) ∷ (c % 4 * 64 + d) ∷ bs)
]

unfoldable pub decode : Text → Option (List ℕ)
unfolding sextets pack
decode s = elim (sextets s) [ none ↦ none | some ds ↦ pack ds ]

-- The character of a digit below 64.
unfoldable pub digit_char : ℕ → ℕ
digit_char d =
    if ltb d 26
    then d + b'A'
    else if ltb d 52
    then d - 26 + b'a'
    else if ltb d 62
    then d - 52 + b'0'
    else if nat_beq d 62
    then b'-'
    else b'_'

-- The digits of a sequence of bytes.
unfoldable pub split : List ℕ → List ℕ
split [] = []
split (x ∷ []) = (x / 4) ∷ (x % 4 * 16) ∷ []
split (x ∷ y ∷ []) = (x / 4) ∷ (x % 4 * 16 + y / 16) ∷ (y % 16 * 4) ∷ []
split (x ∷ y ∷ z ∷ r) = (x / 4) ∷ (x % 4 * 16 + y / 16) ∷ (y % 16 * 4 + z / 64) ∷ (z % 64) ∷ split r

unfoldable pub encode : List ℕ → Text
unfolding digit_char split
encode bs = map digit_char (split bs)
