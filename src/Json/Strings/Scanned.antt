-- ===== src/Json/Strings/Scanned.antt =====
-- Scanning an encoded text gives the text back.
use cpa_codex_turn_state_plu.Base.{
  ℕ, suc, ◌+◌, ◌*◌, ◌/◌, ◌%◌, ◌<◌, ◌≡◌, refl, ◌∙◌, ap, false, some, List, [], ◌∷◌, ◌++◌, map, arith,
  ltb, nat_beq, Text,
}
use cpa_codex_turn_state_plu.Json.Strings.{
  Unit16, lit, esc, hex_digit, unhex, unicode_escape, escape_onto, scan, plain, hex, cons_unit,
  combine, Shape, bare, long, short, shape, numbered, write_shape, short_escape,
}

unhex-hex_digit : (d : ℕ) → d < 16 → unhex (hex_digit d) ≡ d
unfolding unhex hex_digit
unhex-hex_digit d h = ground arith

scan-hex :
    (k n d : ℕ) (s : Text)
    → d < 16
    → scan (hex (suc k) n) (hex_digit d ∷ s) ≡ scan (hex k (n * 16 + d)) s
unfolding scan
scan-hex k n d s h = rw (unhex-hex_digit d h) (ground arith)

scan-hex_last :
    (n d : ℕ) (s : Text)
    → d < 16
    → scan (hex 0 n) (hex_digit d ∷ s) ≡ cons_unit (esc (n * 16 + d)) (scan plain s)
unfolding scan
scan-hex_last n d s h = rw (unhex-hex_digit d h) (ground arith)

scan-unicode_escape :
    (c : ℕ) (s : Text)
    → c < 65536
    → scan plain (unicode_escape c ++ s) ≡ cons_unit (esc c) (scan plain s)
unfolding unicode_escape scan
scan-unicode_escape c s h =
    let d₃ = c / 4096 % 16 in
    let d₂ = c / 256 % 16 in
    let d₁ = c / 16 % 16 in
    let d₀ = c % 16 in
    rw (scan-hex 2 0 d₃ (hex_digit d₂ ∷ hex_digit d₁ ∷ hex_digit d₀ ∷ s) (omega arith)) (
      rw (scan-hex 1 (0 * 16 + d₃) d₂ (hex_digit d₁ ∷ hex_digit d₀ ∷ s) (omega arith)) (
        rw (scan-hex 0 ((0 * 16 + d₃) * 16 + d₂) d₁ (hex_digit d₀ ∷ s) (omega arith)) (
          scan-hex_last (((0 * 16 + d₃) * 16 + d₂) * 16 + d₁) d₀ s (omega arith)
          ∙ ap (λ n. cons_unit (esc n) (scan plain s)) (omega arith))))

abbrev Facts : ℕ → Shape → Type 0
Facts c bare = (nat_beq c b'"' ≡ false) × (nat_beq c b'\\' ≡ false) × (ltb c 0x20 ≡ false)
Facts c long = c < 0xd800
Facts c (short l) = (nat_beq l b'u' ≡ false) × (short_escape l ≡ some c)

numbered-Facts : (c : ℕ) → nat_beq c b'"' ≡ false → nat_beq c b'\\' ≡ false → Facts c (numbered c)
unfolding numbered
numbered-Facts c q b = ground arith

shape-Facts : (c : ℕ) → Facts c (shape c)
unfolding shape short_escape
shape-Facts c = ground (arith, numbered-Facts c)

-- How the scanner reads an encoded character back.
unit_of_shape : ℕ → Shape → Unit16
unit_of_shape c long = esc c
unit_of_shape c bare = lit c
unit_of_shape c (short l) = lit c

scan-write_shape :
    (c : ℕ) (k : Shape) (s : Text)
    → Facts c k
    → scan plain (write_shape c k ++ s) ≡ cons_unit (unit_of_shape c k) (scan plain s)
unfolding write_shape unit_of_shape scan
scan-write_shape c bare s f = rw (f.0, f.1, f.2) refl
scan-write_shape c long s f = scan-unicode_escape c s (omega arith)
scan-write_shape c (short l) s f = rw (f.0, f.1) refl

pub units : Text → List Unit16
units = map (λ c. unit_of_shape c (shape c))

pub scan-escape_onto :
    (a rest : Text) → scan plain (escape_onto a (b'"' ∷ rest)) ≡ some (units a, rest)
unfolding escape_onto scan units
scan-escape_onto [] rest = refl
scan-escape_onto (c ∷ a) rest =
    scan-write_shape c (shape c) (escape_onto a (b'"' ∷ rest)) (shape-Facts c)
    ∙ rw (scan-escape_onto a rest, cons_unit) refl

combine-unit_of_shape :
    (c : ℕ) (k : Shape) (us : List Unit16)
    → Facts c k
    → combine (unit_of_shape c k ∷ us) ≡ c ∷ combine us
unfolding combine unit_of_shape
combine-unit_of_shape c bare us f = refl
combine-unit_of_shape c long us f = ground arith
combine-unit_of_shape c (short l) us f = refl

pub combine-units : (a : Text) → combine (units a) ≡ a
unfolding combine units
combine-units [] = refl
combine-units (c ∷ a) =
    combine-unit_of_shape c (shape c) (units a) (shape-Facts c) ∙ ap (◌∷◌ c) (combine-units a)
