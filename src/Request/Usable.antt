-- ===== src/Request/Usable.antt =====
-- What is known of a state that `usable_state` lets through.
use cpa_codex_turn_state_plu.Base.{
  ◌+◌, ◌≤◌, ◌<◌, ◌≡◌, refl, true, some, arith, guard-some, sym, some-injective, Text, Result, ok,
  err,
}
use cpa_codex_turn_state_plu.Clock.{Time}
use cpa_codex_turn_state_plu.Config.{CredentialConfig, PluginConfig}
use cpa_codex_turn_state_plu.Fernet.{FernetInfo, ParseError, parse_turn_state}
use cpa_codex_turn_state_plu.Policy.{normal_block_count}
use cpa_codex_turn_state_plu.State.{StoredState}
use cpa_codex_turn_state_plu.Refresh.{turn_state_ttl}
use cpa_codex_turn_state_plu.Request.{clock_tolerance, usable_info, usable_state}

-- The state is read from its value, its block count is one the credential accepts, and it is neither
-- from the future nor expired.
pub record Usable (cfg : PluginConfig) (credential : CredentialConfig) (now : Time)
    (st : StoredState) : Type 0 where
  pub info : FernetInfo
  pub parses : parse_turn_state st.value cfg.max_state_bytes ≡ ok info
  pub issued : st.issued_at ≡ info.issued_at
  pub counted : st.blocks ≡ info.blocks
  pub normal : normal_block_count credential st.blocks ≡ true
  pub not_future : st.issued_at ≤ now + clock_tolerance
  pub not_expired : now < st.issued_at + turn_state_ttl

module _ (cfg : PluginConfig) (credential : CredentialConfig) (now : Time) (value : Text) where
  usable_info-Usable :
      (r : Result ParseError FernetInfo) {st : StoredState}
      → parse_turn_state value cfg.max_state_bytes ≡ r
      → usable_info credential now value r ≡ some st
      → Usable cfg credential now st × (st.value ≡ value)
  unfolding usable_info
  usable_info-Usable (err _) e h = cc
  usable_info-Usable (ok info) {st} e h =
      let (tests, found) = guard-some _ _ h in
      let same = some-injective _ st found in
      (
        rw (sym same) (record {
          info = info;
          parses = e;
          issued = refl;
          counted = refl;
          normal = ground arith;
          not_future = ground arith;
          not_expired = ground arith;
        }),
        rw (sym same) refl,
      )

  pub usable_state-Usable :
      {st : StoredState}
      → usable_state cfg credential now value ≡ some st
      → Usable cfg credential now st × (st.value ≡ value)
  unfolding usable_state
  usable_state-Usable h = usable_info-Usable (parse_turn_state value cfg.max_state_bytes) refl h
