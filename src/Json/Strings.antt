-- ===== src/Json/Strings.antt =====
-- JSON strings: the encoder of `encoding/json` with its HTML escaping, and the scanner.
pub mod Scanned
use cpa_codex_turn_state_plu.Base.{
  ℕ, zero, suc, ◌+◌, ◌-◌, ◌*◌, ◌/◌, ◌%◌, Bool, true, false, not, ◌&&◌, ◌||◌, Option, none, some,
  List, [], ◌∷◌, ◌++◌, ltb, leb, nat_beq, if◌then◌else◌, Text,
}

-- A member of a scanned string: a character, or the number of a `\u` escape.
pub data Unit16 : Type 0 where
  lit esc : ℕ → Unit16

hex_digit : ℕ → ℕ
hex_digit d = if ltb d 10 then d + b'0' else d - 10 + b'a'

-- The value of a hexadecimal digit; 16 for another character.
unhex : ℕ → ℕ
unhex c =
    if leb b'0' c && leb c b'9'
    then c - b'0'
    else if leb b'a' c && leb c b'f'
    then c - b'a' + 10
    else if leb b'A' c && leb c b'F'
    then c - b'A' + 10
    else 16

-- `\uXXXX`
unicode_escape : ℕ → Text
unfolding hex_digit
unicode_escape c =
    b'\\'
    ∷ b'u'
    ∷ hex_digit (c / 4096 % 16)
    ∷ hex_digit (c / 256 % 16)
    ∷ hex_digit (c / 16 % 16)
    ∷ hex_digit (c % 16)
    ∷ []

is_html : ℕ → Bool
is_html c = nat_beq c b'<' || nat_beq c b'>' || nat_beq c b'&'

-- How a character is written: as it is, by a letter behind a backslash, or by its number.
pub data Shape : Type 0 where
  bare long : Shape
  short : ℕ → Shape

-- Below the controls with a letter of their own: those without one, and what HTML gives a meaning.
numbered : ℕ → Shape
unfolding is_html
numbered c = if ltb c 0x20 || is_html c || nat_beq c 0x2028 || nat_beq c 0x2029 then long else bare

shape : ℕ → Shape
unfolding numbered
shape c =
    if nat_beq c b'"' || nat_beq c b'\\'
    then short c
    else if nat_beq c 8
    then short b'b'
    else if nat_beq c 9
    then short b't'
    else if nat_beq c 10
    then short b'n'
    else if nat_beq c 12
    then short b'f'
    else if nat_beq c 13
    then short b'r'
    else numbered c

write_shape : ℕ → Shape → Text
unfolding unicode_escape
write_shape c bare = c ∷ []
write_shape c long = unicode_escape c
write_shape c (short l) = b'\\' ∷ l ∷ []

abbrev escape_char : ℕ → Text
escape_char c = write_shape c (shape c)

-- The encoded members of a text, in front of what follows.
unfoldable pub escape_onto : Text → Text → Text
unfolding shape write_shape
escape_onto [] rest = rest
escape_onto (c ∷ s) rest = escape_char c ++ escape_onto s rest

-- The character of a one-letter escape.
short_escape : ℕ → Option ℕ
short_escape c =
    if nat_beq c b'"' || nat_beq c b'\\' || nat_beq c b'/'
    then some c
    else if nat_beq c b'b'
    then some 8
    else if nat_beq c b'f'
    then some 12
    else if nat_beq c b'n'
    then some 10
    else if nat_beq c b'r'
    then some 13
    else if nat_beq c b't'
    then some 9
    else none

-- Where the scanner stands: in plain text, behind a backslash, or in a `\u` escape with so many
-- digits to come and the value so far.
pub data Mode : Type 0 where
  plain escaped : Mode
  hex : ℕ → ℕ → Mode

cons_unit : Unit16 → Option (List Unit16 × Text) → Option (List Unit16 × Text)
cons_unit u none = none
cons_unit u (some (us, rest)) = some (u ∷ us, rest)

unfoldable pub scan : Mode → Text → Option (List Unit16 × Text)
unfolding cons_unit short_escape unhex
scan m [] = none
scan plain (c ∷ s) =
    let stay = cons_unit (lit c) (scan plain s) in
    let enter = scan escaped s in
    if nat_beq c b'"'
    then some ([], s)
    else if nat_beq c b'\\'
    then enter
    else if ltb c 0x20
    then none
    else stay
scan escaped (c ∷ s) =
    let long = scan (hex 3 0) s in
    let short : Option (List Unit16 × Text) = elim (short_escape c) [
      | none ↦ none
      | some d ↦ cons_unit (lit d) (scan plain s)
    ] in
    if nat_beq c b'u' then long else short
scan (hex zero n) (c ∷ s) =
    let close = cons_unit (esc (n * 16 + unhex c)) (scan plain s) in
    if ltb (unhex c) 16 then close else none
scan (hex (suc k) n) (c ∷ s) =
    let go = scan (hex k (n * 16 + unhex c)) s in if ltb (unhex c) 16 then go else none

-- What stands behind the opening quote: the members up to the closing quote, and the rest.
abbrev pub scan_string : Text → Option (List Unit16 × Text)
scan_string = scan plain

is_high : ℕ → Bool
is_high n = leb 0xd800 n && ltb n 0xdc00

is_low : ℕ → Bool
is_low n = leb 0xdc00 n && ltb n 0xe000

lone : ℕ → ℕ
unfolding is_high is_low
lone n = if is_high n || is_low n then 0xfffd else n

-- Two escapes that form a surrogate pair are one character; a lone surrogate is U+FFFD.
combine_after : Option ℕ → List Unit16 → Text
unfolding lone
combine_after none [] = []
combine_after (some h) [] = 0xfffd ∷ []
combine_after none (lit c ∷ us) = c ∷ combine_after none us
combine_after (some h) (lit c ∷ us) = 0xfffd ∷ c ∷ combine_after none us
combine_after none (esc n ∷ us) =
    let wait = combine_after (some n) us in
    let single = lone n ∷ combine_after none us in if is_high n then wait else single
combine_after (some h) (esc n ∷ us) =
    let pair = ((h - 0xd800) * 0x400 + (n - 0xdc00) + 0x10000) ∷ combine_after none us in
    let wait = 0xfffd ∷ combine_after (some n) us in
    let single = 0xfffd ∷ n ∷ combine_after none us in
    if is_low n then pair else if is_high n then wait else single

unfoldable pub combine : List Unit16 → Text
unfolding combine_after
combine = combine_after none
