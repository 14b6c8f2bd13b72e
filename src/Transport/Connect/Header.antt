-- ===== src/Transport/Connect/Header.antt =====
-- How much of the bytes `tunnelProxy` takes for the header of the response.
use cpa_codex_turn_state_plu.Base.{
  ℕ, ◌+◌, ◌≤◌, ◌<◌, ◌≡◌, ◌↔◌, refl, sym, ap, subst, ◌∙◌, inl, inr, true, false, Bool-cases, List,
  [], ◌∷◌, ◌++◌, ltb, length, ok, err_not_ok, ok-injective, arith,
}
use mathlib.Core.List.{append-nil}
use cpa_codex_turn_state_plu.Transport.Connect.{
  TunnelError, header_limit, is_end, onto, settle_header, take_header,
}

-- Behind the bytes seen, the first end of a header is the end of these bytes.
abbrev pub EndsFirst : List ℕ → List ℕ → Type 0
EndsFirst seen [] = ⊥
EndsFirst seen (b ∷ []) = is_end (b ∷ seen) ≡ true
EndsFirst seen (b ∷ c ∷ s) = (is_end (b ∷ seen) ≡ false) × EndsFirst (b ∷ seen) (c ∷ s)

-- The bytes in the order in which they were read.
onto-onto : (s seen rest : List ℕ) → onto (onto s seen) rest ≡ onto seen (s ++ rest)
unfolding onto
onto-onto [] seen rest = refl
onto-onto (b ∷ s) seen rest = onto-onto s (b ∷ seen) rest

-- A byte that does not end the header is taken.
take_header-step :
    (b : ℕ) (seen s : List ℕ)
    → length seen < header_limit
    → is_end (b ∷ seen) ≡ false
    → take_header seen (b ∷ s) ≡ take_header (b ∷ seen) s
unfolding take_header
take_header-step b seen s few e =
    let below : ltb (length seen) header_limit ≡ true = ground (arith, few) in rw (below, e) refl

take_header-onto :
    (seen header rest : List ℕ)
    → EndsFirst seen header
    → length seen + length header ≤ header_limit
    → take_header seen (header ++ rest) ≡ ok (onto (onto header seen) [], rest)
unfolding take_header onto
take_header-onto seen [] rest h few = absurd h
take_header-onto seen (b ∷ []) rest h few =
    let below : ltb (length seen) header_limit ≡ true = ground (arith, few) in rw (below, h) refl
take_header-onto seen (b ∷ c ∷ s) rest h few =
    take_header-step b seen ((c ∷ s) ++ rest) (omega (arith, few)) h.0
    ∙ take_header-onto (b ∷ seen) (c ∷ s) rest h.1 (omega (arith, few))

-- One more byte in front.
EndsFirst-cons :
    (b : ℕ) (seen header : List ℕ)
    → is_end (b ∷ seen) ≡ false
    → EndsFirst (b ∷ seen) header
    → EndsFirst seen (b ∷ header)
EndsFirst-cons b seen [] e h = absurd h
EndsFirst-cons b seen (c ∷ s) e h = (e, h)

-- What the loop took, and what it found there.
record IsTaken (seen s header rest : List ℕ) : Type 0 where
  pub front : List ℕ
  pub whole : s ≡ front ++ rest
  pub first : EndsFirst seen front
  pub few : length seen + length front ≤ header_limit
  pub ordered : header ≡ onto (onto front seen) []

settle_header-not :
    (seen s : List ℕ) {r : List ℕ × List ℕ} → is_end seen ≡ false → ¬ (settle_header seen s ≡ ok r)
unfolding settle_header
settle_header-not seen s e h = err_not_ok (rw e at h)

take_header-IsTaken :
    (seen s : List ℕ) {r : List ℕ × List ℕ}
    → is_end seen ≡ false
    → take_header seen s ≡ ok r
    → IsTaken seen s r.0 r.1
unfolding take_header onto
take_header-IsTaken seen [] {r} open_end h = elim (Bool-cases (ltb (length seen) header_limit)) [
  | inl e ↦ absurd (err_not_ok (rw e at h))
  | inr e ↦ absurd (settle_header-not seen [] open_end (rw e at h))
]
take_header-IsTaken seen (b ∷ s) {r} open_end h =
    elim (Bool-cases (ltb (length seen) header_limit)) [
      | inr e ↦ absurd (settle_header-not seen (b ∷ s) open_end (rw e at h))
      | inl e ↦ elim (Bool-cases (is_end (b ∷ seen))) [
        | inl k ↦
            let same = ok-injective {E = TunnelError} (onto (b ∷ seen) [], s) r (rw (e, k) at h) in
            record {
              front = b ∷ [];
              whole = ap (λ (p : List ℕ × List ℕ). b ∷ p.1) same;
              first = k;
              few = ground (arith, e);
              ordered = sym (ap (λ (p : List ℕ × List ℕ). p.0) same);
            }
        | inr k ↦
            let t = take_header-IsTaken (b ∷ seen) s k (rw (e, k) at h) in
            record {
              front = b ∷ t.front;
              whole = ap (λ x. b ∷ x) t.whole;
              first = EndsFirst-cons b seen t.front k t.first;
              few = omega (arith, t.few);
              ordered = t.ordered;
            }
      ]
    ]

-- The loop takes a header and leaves the rest exactly if the header is what stands in front up to
-- the first empty line, with at most 64 KiB; the bytes behind it stay for the tunnel.
pub take_header-exact :
    (s header rest : List ℕ)
    → (take_header [] s ≡ ok (header, rest))
      ↔ ((s ≡ header ++ rest) × EndsFirst [] header × (length header ≤ header_limit))
unfolding onto is_end
take_header-exact s header rest = (taken, found)
  where
    taken :
        take_header [] s ≡ ok (header, rest)
        → (s ≡ header ++ rest) × EndsFirst [] header × (length header ≤ header_limit)
    taken h =
        let t = take_header-IsTaken [] s refl h in
        let same : t.front ≡ header =
          sym (t.ordered ∙ onto-onto t.front [] [] ∙ append-nil t.front) in
        subst (λ f. (s ≡ f ++ rest) × EndsFirst [] f × (length f ≤ header_limit)) same
          (t.whole, t.first, omega (arith, t.few))

    found :
        (s ≡ header ++ rest) × EndsFirst [] header × (length header ≤ header_limit)
        → take_header [] s ≡ ok (header, rest)
    found (whole, first, few) =
        ap (take_header []) whole
        ∙ take_header-onto [] header rest first (omega (arith, few))
        ∙ ap (λ f. ok (f, rest)) (onto-onto header [] [] ∙ append-nil header)
