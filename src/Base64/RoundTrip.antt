-- ===== src/Base64/RoundTrip.antt =====
-- Decoding what was encoded gives the bytes back.
use cpa_codex_turn_state_plu.Base.{
  ℕ, ◌<◌, ◌≤◌, ◌≡◌, refl, false, some, List, [], ◌∷◌, map, arith, All, nat_beq,
}
use cpa_codex_turn_state_plu.Base64.{sextet, sextets, pack, decode, digit_char, split, encode}

abbrev pub AreBytes : List ℕ → Type 0
AreBytes = All (λ b. b < 256)

sextet-digit_char : (d : ℕ) → d < 64 → sextet (digit_char d) ≡ d
unfolding sextet digit_char
sextet-digit_char d h = ground arith

-- The characters of digits are printable, and are neither padding nor white space.
pub digit_char_bounds :
    (d : ℕ)
    → d < 64
    → (45 ≤ digit_char d) × (digit_char d ≤ 122) × (nat_beq (digit_char d) b'=' ≡ false)
unfolding digit_char
digit_char_bounds d h = ground arith

sextets-map : (ds : List ℕ) → All (λ d. d < 64) ds → sextets (map digit_char ds) ≡ some ds
unfolding sextets
sextets-map [] h = refl
sextets-map (d ∷ ds) h =
    rw (sextets-map ds h.1) (ground (arith, sextet-digit_char d h.0, digit_char_bounds d h.0))

pub split-digits : (bs : List ℕ) → AreBytes bs → All (λ d. d < 64) (split bs)
unfolding split
split-digits [] h = tt
split-digits (x ∷ []) h = omega arith
split-digits (x ∷ y ∷ []) h = omega arith
split-digits (x ∷ y ∷ z ∷ r) h =
    (omega arith, (omega arith, (omega arith, (omega arith, split-digits r h.1.1.1))))

pack-split : (bs : List ℕ) → AreBytes bs → pack (split bs) ≡ some bs
unfolding pack split
pack-split [] h = refl
pack-split (x ∷ []) h = ground arith
pack-split (x ∷ y ∷ []) h = ground arith
pack-split (x ∷ y ∷ z ∷ r) h = rw (pack-split r h.1.1.1) (ground arith)

pub decode-encode : (bs : List ℕ) → AreBytes bs → decode (encode bs) ≡ some bs
unfolding decode encode
decode-encode bs h = rw (decode, sextets-map (split bs) (split-digits bs h)) (pack-split bs h)
