-- ===== src/Policy/Ranges.antt =====
-- The block counts of a credential after `normalizeCredential`.
use cpa_codex_turn_state_plu.Base.{
  ◌≤◌, ◌≡◌, sym, subst, inl, inr, false, ◌||◌, List, [], ◌∷◌, ◌++◌, any, if◌then◌else◌, Bool-cases,
  All, All-append, arith, ok, >>=-eq-ok, guard-ok, ok-injective,
}
use cpa_codex_turn_state_plu.Base.Int.{ℤ, pos, negsuc, is_neg, less_than, more_than, int_beq}
use cpa_codex_turn_state_plu.Text.Sorted.{sort_by-All}
use cpa_codex_turn_state_plu.Config.{CredentialConfig}
use cpa_codex_turn_state_plu.Policy.{PolicyError, collect_blocks, int_ltb, normalize_credential}

-- A block count between 1 and 1024.
abbrev pub IsCount : ℤ → Type 0
IsCount (pos n) = (1 ≤ n) × (n ≤ 1024)
IsCount (negsuc n) = ⊥

counted : (b : ℤ) → less_than b 1 || more_than b 1024 ≡ false → IsCount b
counted (pos n) h = ground (arith, h)
counted (negsuc n) h = absurd (ground (arith, h))

collect_blocks-All :
    (out todo : List ℤ) {r : List ℤ}
    → All IsCount out
    → collect_blocks out todo ≡ ok r
    → All IsCount r
unfolding collect_blocks
collect_blocks-All out [] {r} h e = subst (All IsCount) (ok-injective {E = PolicyError} out r e) h
collect_blocks-All out (b ∷ rest) h e =
    let (range, more) =
      guard-ok (less_than b 1 || more_than b 1024) PolicyError.accepted_out_of_range _ e in
    collect_blocks-All (if any (int_beq b) out then out else out ++ b ∷ []) rest
      (elim (Bool-cases (any (int_beq b) out)) [
        | inl k ↦ rw k h
        | inr k ↦ rw k (All-append IsCount out (b ∷ []) h (counted b range, tt))
      ])
      more

-- Every block count that a normalised credential accepts is between 1 and 1024, and its baseline is
-- not negative.
normalize_credential-All :
    (c : CredentialConfig) {d : CredentialConfig}
    → normalize_credential c ≡ ok d
    → All IsCount d.accepted_blocks × (is_neg d.normal_blocks ≡ false)
unfolding normalize_credential
normalize_credential-All c {d} h =
    let (positive, rest) =
      guard-ok (is_neg c.normal_blocks) PolicyError.negative_normal_blocks _ h in
    let (accepted, collected, same) = >>=-eq-ok (collect_blocks [] c.accepted_blocks) _ rest in
    rw (sym (ok-injective {E = PolicyError} _ d same)) (
      sort_by-All IsCount int_ltb accepted (collect_blocks-All [] c.accepted_blocks tt collected),
      positive,
    )
