-- ===== src/Management/Status/Agreed.antt =====
-- management.go: the flags that `statusPayload` shows and the scope that `clearAction` clears.
use cpa_codex_turn_state_plu.Base.{
  ◌≡◌, inl, inr, Bool, true, false, not, ◌&&◌, ◌||◌, some, List, Option-cases, ltb, ◌+◌, [], ◌∷◌,
  Text, text_beq, text_eq, arith,
}
use cpa_codex_turn_state_plu.Base.Dict.{Dict, lookup}
use cpa_codex_turn_state_plu.Clock.{Time}
use cpa_codex_turn_state_plu.Environment.{Environment}
use cpa_codex_turn_state_plu.Config.{zero_credential}
use cpa_codex_turn_state_plu.Policy.{credential_for, matches_models, normal_block_count}
use cpa_codex_turn_state_plu.Keys.{split_state_key}
use cpa_codex_turn_state_plu.State.{RuntimeState, StoredState, AccountInfo}
use cpa_codex_turn_state_plu.Refresh.{turn_state_ttl}
use cpa_codex_turn_state_plu.Request.{clock_tolerance}
use cpa_codex_turn_state_plu.Management.Clear.{invalid, falls_in, is_valid, is_compatible}
use cpa_codex_turn_state_plu.Management.Status.Entry.{
  entry_view, snapshot, shows_valid, shows_compatible,
}

-- A state without a value is neither valid nor incompatible.
flags_agree :
    (blank past before managed scope normal : Bool)
    → not ((not blank && past && before) && (managed && scope && normal))
      ≡ not ((not blank && past && before) && managed && scope && (blank || normal))
flags_agree blank past before managed scope normal = ground arith

-- The default scope of clearAction takes a cached state exactly if the panel does not show it as
-- valid, managed, in the scope of its models and compatible.
pub falls_in-entry_view :
    (env : Environment) (s : RuntimeState) (now : Time) (seeded : List Text)
    (accounts : Dict Text AccountInfo) (key : Text) (st : StoredState)
    → lookup key s.current ≡ some st
    → (let e = entry_view env s.config now seeded accounts (snapshot s now key) in
        falls_in invalid s.config now key st
        ≡ not (e.valid && e.managed && e.in_scope_model && e.compatible))
unfolding falls_in entry_view snapshot shows_valid shows_compatible is_valid is_compatible
falls_in-entry_view env s now seeded accounts key st there =
    let auth_id = (split_state_key key).0 in
    let blank = text_beq st.value [] in
    let past = not (ltb (now + clock_tolerance) st.issued_at) in
    let before = ltb now (st.issued_at + turn_state_ttl) in
    rw there (elim (Option-cases (credential_for s.config auth_id)) [
      | inl free ↦
          rw (free, is_compatible)
            (flags_agree blank past before false (matches_models [] ((split_state_key key).1 ∷ []))
              (normal_block_count zero_credential st.blocks))
      | inr found ↦
          rw (found.1, is_compatible)
            (flags_agree blank past before true
              (matches_models found.0.models ((split_state_key key).1 ∷ []))
              (normal_block_count found.0 st.blocks))
    ])
