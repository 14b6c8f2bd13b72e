-- ===== src/Policy.antt =====
-- plugin.go: which policy holds for a credential, which block counts and models it accepts, and how
-- a configured credential is normalised.

pub mod Ranges
use cpa_codex_turn_state_plu.Base.{
  ℕ, Bool, true, false, ◌||◌, Option, none, some, List, [], ◌∷◌, ◌++◌, ltb, if◌then◌else◌, Text,
  text_beq, str, text_eq, Result, ok, err, ◌>>=◌, any,
}
use cpa_codex_turn_state_plu.Base.Int.{ℤ, pos, is_neg, less_than, more_than, int_beq, int_eq}
use cpa_codex_turn_state_plu.Base.Dict.{lookup}
use cpa_codex_turn_state_plu.Text.{
  trim, to_lower, equal_fold, has_prefix, strip_star, sort_by, text_ltb,
}
use cpa_codex_turn_state_plu.Config.{CredentialConfig, PluginConfig}

-- `autoUpdateEnabled`
unfoldable pub auto_update_enabled : PluginConfig → CredentialConfig → Bool
auto_update_enabled cfg credential = elim credential.auto_update [
  | some b ↦ b
  | none ↦ elim cfg.auto_update [ some b ↦ b | none ↦ true ]
]

-- `credentialFor`
unfoldable pub credential_for : PluginConfig → Text → Option CredentialConfig
credential_for cfg auth_id = elim (lookup auth_id cfg.credentials) [
  | some c ↦ some c
  | none ↦ cfg.defaults
]

-- `isFreePlan`
unfoldable pub is_free_plan : Text → Bool
is_free_plan plan = equal_fold (trim plan) (str "free")

-- The baseline of a plan, if there is one.
plan_blocks : Text → Option ℤ
plan_blocks plan =
    let p = to_lower (trim plan) in
    if text_beq p (str "pro") || text_beq p (str "plus")
    then some (pos 10)
    else if text_beq p (str "team")
    then some (pos 12)
    else none

-- `normalBlockCount`
unfoldable pub normal_block_count : CredentialConfig → ℕ → Bool
unfolding plan_blocks
normal_block_count credential blocks = elim credential.accepted_blocks [
  | [] ↦
      if int_beq credential.normal_blocks (pos 0)
      then (elim (plan_blocks credential.plan) [
        | none ↦ false
        | some want ↦ int_beq (pos blocks) want
      ])
      else int_beq (pos blocks) credential.normal_blocks
  | b ∷ bs ↦ any (int_beq (pos blocks)) (b ∷ bs)
]

-- The inner loop of `matchesModels`, for one pattern.
unfoldable pub matches_pattern : Text → Text → Bool
matches_pattern model pattern = elim (strip_star pattern) [
  | some before ↦ has_prefix model before
  | none ↦ text_beq model pattern
]

-- One round of the outer loop.
unfoldable pub matches_model : List Text → Text → Bool
matches_model patterns raw =
    let model = to_lower (trim raw) in
    if text_beq model [] then false else any (matches_pattern model) patterns

-- `matchesModels`
unfoldable pub matches_models : List Text → List Text → Bool
unfolding matches_model
matches_models patterns models = elim patterns [
  | [] ↦ true
  | p ∷ ps ↦ any (matches_model (p ∷ ps)) models
]

-- The loop of `canonicalModels`: the set `seen` holds the members of `out`.
collect_models : List Text → List Text → List Text
collect_models out [] = out
collect_models out (raw ∷ rest) =
    let model = to_lower (trim raw) in
    collect_models
      (if text_beq model []
        then out
        else if any (text_beq model) out
        then out
        else out ++ model ∷ [])
      rest

-- `canonicalModels`
unfoldable pub canonical_models : List Text → List Text
unfolding collect_models
canonical_models models = sort_by text_ltb (collect_models [] models)

pub data PolicyError : Type 0 where
  negative_normal_blocks accepted_out_of_range : PolicyError

-- The loop over `accepted_blocks`: the set `seen` holds the members of `accepted`.
unfoldable pub collect_blocks : List ℤ → List ℤ → Result PolicyError (List ℤ)
collect_blocks accepted [] = ok accepted
collect_blocks accepted (b ∷ rest) =
    let next =
      collect_blocks (if any (int_beq b) accepted then accepted else accepted ++ b ∷ []) rest in
    if less_than b 1 || more_than b 1024 then err accepted_out_of_range else next

unfoldable pub int_ltb : ℤ → ℤ → Bool
int_ltb a (pos n) = less_than a n
int_ltb (pos m) b = false
int_ltb a b = ltb (neg_size b) (neg_size a)
  where
    neg_size : ℤ → ℕ
    neg_size (ℤ.pos n) = 0
    neg_size (ℤ.negsuc n) = n

-- `normalizeCredential`
unfoldable pub normalize_credential : CredentialConfig → Result PolicyError CredentialConfig
unfolding collect_blocks int_ltb
normalize_credential credential = do
  let trimmed : CredentialConfig = record credential {
    plan = to_lower (trim credential.plan);
    models = canonical_models credential.models;
    state_model = trim credential.state_model;
  }
  if is_neg credential.normal_blocks
      then err negative_normal_blocks
      else (collect_blocks [] credential.accepted_blocks >>= λ accepted.
          ok (record trimmed { accepted_blocks = sort_by int_ltb accepted }))
