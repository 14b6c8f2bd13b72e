-- ===== src/Base/Sets.antt =====
-- Sets of texts as lists without repetition, and the deletion of several keys of a map.
use mathlib.Core.Path.{◌≡◌, refl, ◌∙◌, sym}
use mathlib.Core.Logic.{inl, inr}
use mathlib.Core.Bool.{Bool, false, ◌||◌}
use mathlib.Core.Option.{Option, none, some}
use mathlib.Core.List.{List, [], ◌∷◌}
use native.Mathlib.Omega.{arith}
use cpa_codex_turn_state_plu.Base.Tests.{if◌then◌else◌, Bool-cases}
use cpa_codex_turn_state_plu.Base.Equality.{Text, text_beq, text_beq_iff, text_eq, ◌==◌}
use cpa_codex_turn_state_plu.Base.Dict.{Dict, lookup, erase, lookup-erase}

-- `set[x]` for a `map[string]bool`
abbrev pub member : Text → List Text → Bool
member x [] = false
member x (y ∷ ys) = text_beq y x || member x ys

-- `set[x] = true`
unfoldable pub include : Text → List Text → List Text
include x xs = if member x xs then xs else x ∷ xs

-- The members of the list go into the set.
unfoldable pub include_all : List Text → List Text → List Text
unfolding include
include_all [] set = set
include_all (x ∷ xs) set = include x (include_all xs set)

pub member-include :
    (k x : Text) (set : List Text) → member k (include x set) ≡ (text_beq x k || member k set)
unfolding include
member-include k x set = elim (Bool-cases (member x set)) [
  | inl h ↦ rw h (elim (Bool-cases (text_beq x k)) [
    | inl e ↦ rw (sym ((text_beq_iff x k).0 e)) (ground (arith, h, text_beq_iff x x))
    | inr e ↦ ground (arith, e)
  ])
  | inr h ↦ rw h refl
]

pub member-include_all :
    (k : Text) (xs set : List Text) → member k (include_all xs set) ≡ (member k xs || member k set)
unfolding include_all
member-include_all k [] set = refl
member-include_all k (x ∷ xs) set =
    ground (arith, member-include k x (include_all xs set), member-include_all k xs set)

-- The keys of a map that pass a test on key and value.
unfoldable pub keys_where {κ} : {V : Type κ} → (Text → V → Bool) → Dict Text V → List Text
keys_where test [] = []
keys_where test ((k, v) ∷ d) = let rest = keys_where test d in if test k v then k ∷ rest else rest

-- `delete(m, k)` for each key of the list
unfoldable pub erase_all {κ} : {V : Type κ} → List Text → Dict Text V → Dict Text V
erase_all [] d = d
erase_all (k ∷ ks) d = erase_all ks (erase k d)

pub lookup-erase_all {κ} :
    {V : Type κ} (k : Text) (ks : List Text) (d : Dict Text V)
    → lookup k (erase_all ks d) ≡ (if member k ks then none else lookup k d)
unfolding erase_all
lookup-erase_all k [] d = refl
lookup-erase_all k (j ∷ ks) d =
    lookup-erase_all k ks (erase j d) ∙ ground (arith, lookup-erase j k d)

-- No key stands twice, as in every Go map.
abbrev pub IsDistinct {κ} : {V : Type κ} → Dict Text V → Type κ
IsDistinct [] = Unit {κ}
IsDistinct ((k, v) ∷ d) = (lookup k d ≡ none) × IsDistinct d

-- The value of a key passes the test.
abbrev pub passes {κ} : {V : Type κ} → (Text → V → Bool) → Text → Option V → Bool
passes test k none = false
passes test k (some v) = test k v

missing_key {κ} :
    {V : Type κ} (test : Text → V → Bool) (d : Dict Text V) (k : Text)
    → lookup k d ≡ none
    → member k (keys_where test d) ≡ false
unfolding keys_where lookup
missing_key test [] k h = refl
missing_key test ((j, v) ∷ d) k h = elim (Bool-cases (j == k)) [
  | inl e ↦ absurd (ground (arith, h, e))
  | inr e ↦ ground (arith, e, missing_key test d k (rw e at h))
]

-- In a map, the keys that pass are those whose value passes.
pub member-keys_where {κ} :
    {V : Type κ} (test : Text → V → Bool) (d : Dict Text V) (k : Text)
    → IsDistinct d
    → member k (keys_where test d) ≡ passes test k (lookup k d)
unfolding keys_where lookup
member-keys_where test [] k u = refl
member-keys_where test ((j, v) ∷ d) k u = elim (Bool-cases (j == k)) [
  | inl e ↦
      let same : j ≡ k = (text_beq_iff j k).0 e in
      rw (sym same) (ground (arith, missing_key test d j u.0, text_beq_iff j j))
  | inr e ↦ ground (arith, e, member-keys_where test d k u.1)
]
