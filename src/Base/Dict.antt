-- ===== src/Base/Dict.antt =====
-- Go maps as association lists with distinct uses of the same few laws. Iteration (`range`) is in
-- list order, one of the orders that Go allows.
use Prim.Native.Nat.{◌+◌, ◌≤◌}
use mathlib.Core.Path.{◌≡◌, refl, sym, ◌∙◌, ap}
use mathlib.Core.Logic.{inl, inr}
use mathlib.Core.Bool.{true}
use mathlib.Core.Option.{Option, none, some, some-injective}
use mathlib.Core.List.{List, [], ◌∷◌, map}
use native.Mathlib.Omega.{arith}
use cpa_codex_turn_state_plu.Base.Tests.{if◌then◌else◌, Bool-cases}
use cpa_codex_turn_state_plu.Base.Lists.{length}
use cpa_codex_turn_state_plu.Base.Equality.{Eq, ◌==◌}

abbrev pub Dict {ℓ κ} : Type ℓ → Type κ → Type (ℓ ⊔ κ)
Dict K V = List (K × V)

abbrev pub keys {ℓ κ} : {K : Type ℓ} {V : Type κ} → Dict K V → List K
keys = map (λ e. e.0)

module _ {ℓ κ} {K : Type ℓ} {V : Type κ} ⦃e : Eq K⦄ where
  unfoldable pub lookup : K → Dict K V → Option V
  lookup k [] = none
  lookup k ((j, v) ∷ d) = if j == k then some v else lookup k d

  -- `m[k] = v`
  unfoldable pub insert : K → V → Dict K V → Dict K V
  insert k v [] = (k, v) ∷ []
  insert k v ((j, w) ∷ d) = if j == k then (k, v) ∷ d else (j, w) ∷ insert k v d

  -- `delete(m, k)`
  unfoldable pub erase : K → Dict K V → Dict K V
  erase k [] = []
  erase k ((j, w) ∷ d) = let rest = erase k d in if j == k then rest else (j, w) ∷ rest

  pub lookup-insert :
      (k j : K) (v : V) (d : Dict K V)
      → lookup j (insert k v d) ≡ (if k == j then some v else lookup j d)
  unfolding lookup insert
  lookup-insert k j v [] = refl
  lookup-insert k j v ((i, w) ∷ d) =
      ground (arith, e.beq_iff k j, e.beq_iff i k, e.beq_iff i j, lookup-insert k j v d)

  pub lookup_inserted : (k : K) (v : V) (d : Dict K V) → lookup k (insert k v d) ≡ some v
  lookup_inserted k v d =
      lookup-insert k k v d ∙ ap (λ b. if b then some v else lookup k d) ((e.beq_iff k k).1 refl)

  pub lookup-erase :
      (k j : K) (d : Dict K V) → lookup j (erase k d) ≡ (if k == j then none else lookup j d)
  unfolding lookup erase
  lookup-erase k j [] = ground arith
  lookup-erase k j ((i, w) ∷ d) =
      ground (arith, e.beq_iff k j, e.beq_iff i k, e.beq_iff i j, lookup-erase k j d)

  pub length-insert : (k : K) (v : V) (d : Dict K V) → length (insert k v d) ≤ length d + 1
  unfolding insert
  length-insert k v [] = omega arith
  length-insert k v ((j, w) ∷ d) = ground (arith, length-insert k v d)

  pub length-erase : (k : K) (d : Dict K V) → length (erase k d) ≤ length d
  unfolding erase
  length-erase k [] = omega arith
  length-erase k ((j, w) ∷ d) = ground (arith, length-erase k d)

pub beq_refl {ℓ} : {K : Type ℓ} ⦃e : Eq K⦄ (k : K) → (k == k) ≡ true
beq_refl ⦃e⦄ k = (e.beq_iff k k).1 refl

-- Every entry has the property.
abbrev pub Each {ℓ κ μ} : {K : Type ℓ} {V : Type κ} → (K → V → Type μ) → Dict K V → Type μ
Each P [] = Unit
Each P ((k, v) ∷ d) = P k v × Each P d

pub Each-map {ℓ κ μ} :
    {K : Type ℓ} {V : Type κ} (P Q : K → V → Type μ) (d : Dict K V)
    → ((k : K) (v : V) → P k v → Q k v)
    → Each P d
    → Each Q d
Each-map P Q [] f h = tt
Each-map P Q ((k, v) ∷ d) f h = (f k v h.0, Each-map P Q d f h.1)

module _ {ℓ κ μ} {K : Type ℓ} {V : Type κ} ⦃e : Eq K⦄ (P : K → V → Type μ) where
  pub Each-lookup : (k : K) (d : Dict K V) {v : V} → Each P d → lookup k d ≡ some v → P k v
  unfolding lookup
  Each-lookup k [] h q = absurd (ground arith)
  Each-lookup k ((j, w) ∷ d) {v} h q = elim (Bool-cases (j == k)) [
    | inl hit ↦
        let same : j ≡ k = (e.beq_iff j k).0 hit in
        let value : w ≡ v = some-injective w v (rw hit at q) in rw (sym same, sym value) h.0
    | inr miss ↦ Each-lookup k d h.1 (rw miss at q)
  ]

  pub Each-insert : (k : K) (v : V) (d : Dict K V) → P k v → Each P d → Each P (insert k v d)
  unfolding insert
  Each-insert k v [] p h = (p, tt)
  Each-insert k v ((j, w) ∷ d) p h = elim (Bool-cases (j == k)) [
    | inl hit ↦ rw hit (p, h.1)
    | inr miss ↦ rw miss (h.0, Each-insert k v d p h.1)
  ]

  pub Each-erase : (k : K) (d : Dict K V) → Each P d → Each P (erase k d)
  unfolding erase
  Each-erase k [] h = tt
  Each-erase k ((j, w) ∷ d) h = elim (Bool-cases (j == k)) [
    | inl hit ↦ rw hit (Each-erase k d h.1)
    | inr miss ↦ rw miss (h.0, Each-erase k d h.1)
  ]
