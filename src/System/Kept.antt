-- ===== src/System/Kept.antt =====
-- What a new configuration keeps of the states in memory.
use cpa_codex_turn_state_plu.Base.{
  ℕ, ◌≤◌, ◌≡◌, subst, inl, inr, true, ◌&&◌, some, [], ◌∷◌, ltb, if◌then◌else◌, Bool-cases, Text,
  text_eq, text_beq_iff, arith, ◌==◌, ok, some-injective,
}
use cpa_codex_turn_state_plu.Base.Dict.{Dict, lookup, insert, lookup-insert}
use cpa_codex_turn_state_plu.Environment.{Environment}
use cpa_codex_turn_state_plu.Config.{PluginConfig}
use cpa_codex_turn_state_plu.State.{RuntimeState, StoredState, stored_at}
use cpa_codex_turn_state_plu.Lifecycle.{Document, is_admitted, preserve, install, configure}
use cpa_codex_turn_state_plu.Lifecycle.Persisted.{StateFile}
use cpa_codex_turn_state_plu.System.Configured.{configure-install}

-- The issue time of what a key holds.
abbrev issued_at : Text → Dict Text StoredState → ℕ
issued_at key d = (stored_at key d).issued_at

-- One round of the loop.
abbrev kept_one : PluginConfig → Text → StoredState → Dict Text StoredState → Dict Text StoredState
kept_one cfg key st current =
    if is_admitted cfg key st && ltb (stored_at key current).issued_at st.issued_at
    then insert key st current
    else current

kept_one-newer :
    (cfg : PluginConfig) (key : Text) (st : StoredState) (current : Dict Text StoredState)
    (k : Text)
    → issued_at k current ≤ issued_at k (kept_one cfg key st current)
kept_one-newer cfg key st current k =
    ground (arith, lookup-insert key k st current, text_beq_iff key k)

kept_one_self :
    (cfg : PluginConfig) (key : Text) (st : StoredState) (current : Dict Text StoredState)
    → is_admitted cfg key st ≡ true
    → st.issued_at ≤ issued_at key (kept_one cfg key st current)
kept_one_self cfg key st current h =
    ground (arith, h, lookup-insert key key st current, text_beq_iff key key)

preserve-newer :
    (cfg : PluginConfig) (d current : Dict Text StoredState) (k : Text)
    → issued_at k current ≤ issued_at k (preserve cfg d current)
unfolding preserve
preserve-newer cfg [] current k = omega arith
preserve-newer cfg ((key, st) ∷ rest) current k = omega (
  arith,
  kept_one-newer cfg key st current k,
  preserve-newer cfg rest (kept_one cfg key st current) k,
)

preserve-keeps :
    (cfg : PluginConfig) (d current : Dict Text StoredState) (key : Text) (st : StoredState)
    → lookup key d ≡ some st
    → is_admitted cfg key st ≡ true
    → st.issued_at ≤ issued_at key (preserve cfg d current)
unfolding preserve lookup
preserve-keeps cfg [] current key st h a = absurd (ground (arith, h))
preserve-keeps cfg ((j, w) ∷ rest) current key st h a = elim (Bool-cases (j == key)) [
  | inr other ↦ preserve-keeps cfg rest (kept_one cfg j w current) key st (rw other at h) a
  | inl here ↦
      let same_key : j ≡ key = (text_beq_iff j key).0 here in
      let same : w ≡ st = some-injective w st (rw here at h) in
      rw (same_key, same)
        (omega (
          arith,
          kept_one_self cfg key st current a,
          preserve-newer cfg rest (kept_one cfg key st current) key,
        ))
]

-- A new configuration loses no state in memory that it admits: the key holds a state at least as new
-- afterwards.
pub configure-keeps :
    (env : Environment) (s : RuntimeState) (schema : ℕ) (doc : Document) (file : StateFile)
    {t : RuntimeState} (key : Text) (st : StoredState)
    → configure env s schema doc file ≡ ok t
    → lookup key s.current ≡ some st
    → is_admitted t.config key st ≡ true
    → st.issued_at ≤ (stored_at key t.current).issued_at
unfolding install
configure-keeps env s schema doc file {t} key st h there admitted =
    let (p, prepared, same) = configure-install env s schema doc file h in
    subst
      (λ r. is_admitted r.config key st ≡ true → st.issued_at ≤ (stored_at key r.current).issued_at)
      same (preserve-keeps p.0 s.current p.1 key st there) admitted
