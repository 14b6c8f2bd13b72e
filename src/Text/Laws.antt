-- ===== src/Text/Laws.antt =====
-- What the other components use of the text operations.
use cpa_codex_turn_state_plu.Base.{
  ℕ, Bool, false, ◌≡◌, refl, ◌∙◌, ap, inl, inr, some, [], ◌∷◌, ◌++◌, arith, Text, if◌then◌else◌,
  Bool-cases, All, any, length, ◌<◌,
}
use cpa_codex_turn_state_plu.Text.{
  drop_while, drop_while_end, is_space, trim, strip_prefix, byte_length,
}

-- A text that begins with a member that stays, if it is not empty.
Keeps : (ℕ → Bool) → Text → Type 0
Keeps p [] = Unit
Keeps p (c ∷ s) = p c ≡ false

drop_while-Keeps : (p : ℕ → Bool) (s : Text) → Keeps p (drop_while p s)
unfolding drop_while Keeps
drop_while-Keeps p [] = tt
drop_while-Keeps p (c ∷ s) = elim (Bool-cases (p c)) [
  | inl h ↦ rw h (drop_while-Keeps p s)
  | inr h ↦ rw h h
]

drop_while_id : (p : ℕ → Bool) (s : Text) → Keeps p s → drop_while p s ≡ s
unfolding drop_while Keeps
drop_while_id p [] h = refl
drop_while_id p (c ∷ s) h = rw h

drop_while_end-Keeps : (p : ℕ → Bool) (s : Text) → Keeps p s → Keeps p (drop_while_end p s)
unfolding drop_while_end Keeps
drop_while_end-Keeps p [] h = tt
drop_while_end-Keeps p (c ∷ s) h = go (drop_while_end p s)
  where
    go : (r : Text) → Keeps p (elim r [ [] ↦ if p c then [] else c ∷ [] | d ∷ q ↦ c ∷ d ∷ q ])
    go [] = rw h h
    go (d ∷ q) = h

drop_while_end_idem :
    (p : ℕ → Bool) (s : Text) → drop_while_end p (drop_while_end p s) ≡ drop_while_end p s
unfolding drop_while_end
drop_while_end_idem p [] = refl
drop_while_end_idem p (c ∷ s) = go (drop_while_end p s) (drop_while_end_idem p s)
  where
    go :
        (r : Text)
        → drop_while_end p r ≡ r
        → drop_while_end p (elim r [ [] ↦ if p c then [] else c ∷ [] | d ∷ q ↦ c ∷ d ∷ q ])
          ≡ elim r [ [] ↦ if p c then [] else c ∷ [] | d ∷ q ↦ c ∷ d ∷ q ]
    go [] e = elim (Bool-cases (p c)) [ inl h ↦ rw h | inr h ↦ rw (h, drop_while_end) (rw h) ]
    go (d ∷ q) e = rw (e, drop_while_end)

-- Trimming a trimmed text changes nothing.
pub trim_idem : (s : Text) → trim (trim s) ≡ trim s
unfolding trim
trim_idem s =
    ap (drop_while_end is_space)
      (drop_while_id is_space _ (drop_while_end-Keeps is_space _ (drop_while-Keeps is_space s)))
    ∙ drop_while_end_idem is_space (drop_while is_space s)

pub strip_prefix-append : (p s : Text) → strip_prefix p (p ++ s) ≡ some s
unfolding strip_prefix
strip_prefix-append [] s = refl
strip_prefix-append (c ∷ p) s = ground (arith, strip_prefix-append p s)

-- Cutting members off the end changes nothing if none of them may go.
pub drop_while_end_none :
    (p : ℕ → Bool) (s : Text) → All (λ c. p c ≡ false) s → drop_while_end p s ≡ s
unfolding drop_while_end
drop_while_end_none p [] h = refl
drop_while_end_none p (c ∷ s) h = rw (drop_while_end_none p s h.1, drop_while_end) (go s)
  where
    go : (r : Text) → elim r [ [] ↦ if p c then [] else c ∷ [] | d ∷ q ↦ c ∷ d ∷ q ] ≡ c ∷ r
    go [] = rw h.0
    go (d ∷ q) = refl

pub trim_none : (s : Text) → All (λ c. is_space c ≡ false) s → trim s ≡ s
unfolding trim drop_while
trim_none [] h = refl
trim_none (c ∷ s) h = rw h.0 (drop_while_end_none is_space (c ∷ s) h)

pub any_none : (p : ℕ → Bool) (s : Text) → All (λ c. p c ≡ false) s → any p s ≡ false
any_none p [] h = refl
any_none p (c ∷ s) h = rw (h.0, any_none p s h.1)

pub byte_length_ascii : (s : Text) → All (λ c. c < 0x80) s → byte_length s ≡ length s
unfolding byte_length
byte_length_ascii [] h = refl
byte_length_ascii (c ∷ s) h = ground (arith, byte_length_ascii s h.1)

pub All-weaken {ℓ κ} :
    (P : ℕ → Type ℓ) (Q : ℕ → Type κ) (s : Text) → ((c : ℕ) → P c → Q c) → All P s → All Q s
All-weaken P Q [] f h = tt
All-weaken P Q (c ∷ s) f h = (f c h.0, All-weaken P Q s f h.1)
