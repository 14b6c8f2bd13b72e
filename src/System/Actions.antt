-- ===== src/System/Actions.antt =====
-- The actions of the panel keep the invariant.
use cpa_codex_turn_state_plu.Base.{
  ◌≡◌, refl, inl, inr, Bool, not, some, List, [], ◌∷◌, nat_beq, Bool-cases, length, Text, text_eq,
  arith, ok, ◌>>=◌, >>=-eq-ok, guard-ok, ok-injective,
}
use cpa_codex_turn_state_plu.Base.Dict.{Dict, Each, Each-erase}
use cpa_codex_turn_state_plu.Base.Sets.{erase_all}
use cpa_codex_turn_state_plu.Clock.{Time}
use cpa_codex_turn_state_plu.Environment.{Environment}
use cpa_codex_turn_state_plu.State.{RuntimeState}
use cpa_codex_turn_state_plu.History.{append_history}
use cpa_codex_turn_state_plu.Management.Selection.{Selection, selection}
use cpa_codex_turn_state_plu.Management.Clear.{
  Scope, ClearRequest, ClearError, ClearResult, confirmed, read_scope, sweep, clear_entry,
  clear_section, clear_action,
}
use cpa_codex_turn_state_plu.Management.Refresh.{
  RefreshRequest, RefreshError, RefreshResult, known_keys, review, mark_manual, manual_entry,
  refresh_section, refresh_action,
}
use cpa_codex_turn_state_plu.System.Sound.{IsGenuine, IsSound}
use cpa_codex_turn_state_plu.System.Probes.{append_history-IsSound}
use cpa_codex_turn_state_plu.System.Advance.{Advance, still}

-- A section of an action that succeeded.
pub refresh_action-section :
    (env : Environment) (s : RuntimeState) (now : Time) (req : RefreshRequest)
    {r : RuntimeState × RefreshResult}
    → refresh_action env s now (some req) ≡ ok r
    → refresh_section env s now req.all (selection req.accounts req.models req.handles) ≡ r
unfolding refresh_action
refresh_action-section env s now req {r} h =
    let (accepting, a) = guard-ok (not s.accepting) RefreshError.quiesced _ h in
    let (enabled, b) = guard-ok (not s.config.probe.enabled) RefreshError.probe_disabled _ a in
    ok-injective {E = RefreshError} _ r b

pub clear_action-section :
    (env : Environment) (s : RuntimeState) (now : Time) (req : ClearRequest)
    {r : RuntimeState × ClearResult}
    → clear_action env s now (some req) ≡ ok r
    → (scope : Scope) × (clear_section env s now
          (selection req.accounts req.models req.handles)
          scope
        ≡ r)
unfolding clear_action
clear_action-section env s now req {r} h =
    let (scope, first, done) = >>=-eq-ok (read_scope req.scope >>= confirmed req) _ h in
    (scope, ok-injective {E = ClearError} _ r done)

mark_manual-IsSound : (ks : List Text) (s : RuntimeState) → IsSound s → IsSound (mark_manual ks s)
unfolding mark_manual
mark_manual-IsSound [] s v = v
mark_manual-IsSound (k ∷ ks) s v = mark_manual-IsSound ks s v

mark_manual-still :
    (ks : List Text) (s : RuntimeState)
    → ((mark_manual ks s).config ≡ s.config)
      × ((mark_manual ks s).generation ≡ s.generation)
      × ((mark_manual ks s).current ≡ s.current)
      × ((mark_manual ks s).probing ≡ s.probing)
unfolding mark_manual
mark_manual-still [] s = (refl, refl, refl, refl)
mark_manual-still (k ∷ ks) s = mark_manual-still ks s

module _ (env : Environment) (s : RuntimeState) (now : Time) (all : Bool) (sel : Selection) where
  pub refresh_section-IsSound : IsSound s → IsSound (refresh_section env s now all sel).0
  unfolding refresh_section
  refresh_section-IsSound v =
      let ks = (review env s now all sel (known_keys s)).queued_keys in
      elim (Bool-cases (nat_beq (length ks) 0)) [
        | inl h ↦ rw h (mark_manual-IsSound ks s v)
        | inr h ↦ rw h (
            append_history-IsSound (mark_manual ks s) (manual_entry now (length ks))
              (mark_manual-IsSound ks s v))
      ]

  pub refresh_section-Advance : Advance s (refresh_section env s now all sel).0
  unfolding refresh_section append_history
  refresh_section-Advance =
      let ks = (review env s now all sel (known_keys s)).queued_keys in
      let (c, g, d, p) = mark_manual-still ks s in
      still s _ (ground (arith, c)) (ground (arith, g)) (ground (arith, d))

  pub refresh_section-probing : (refresh_section env s now all sel).0.probing ≡ s.probing
  unfolding refresh_section append_history
  refresh_section-probing =
      let ks = (review env s now all sel (known_keys s)).queued_keys in
      let (c, g, d, p) = mark_manual-still ks s in ground (arith, p)

Each-erase_all {κ μ} :
    {V : Type κ} (P : Text → V → Type μ) (ks : List Text) (d : Dict Text V)
    → Each P d
    → Each P (erase_all ks d)
unfolding erase_all
Each-erase_all P [] d h = h
Each-erase_all P (k ∷ ks) d h = Each-erase_all P ks _ (Each-erase P k d h)

module _ (env : Environment) (s : RuntimeState) (now : Time) (sel : Selection) (scope : Scope) where
  swept-IsSound : IsSound s → IsSound (sweep env s now scope sel).0
  unfolding sweep
  swept-IsSound v = record {
    genuine = Each-erase_all (IsGenuine s.config) _ s.current v.genuine;
    staged = v.staged;
    named = v.named;
    bounded = v.bounded;
  }

  pub clear_section-IsSound : IsSound s → IsSound (clear_section env s now sel scope).0
  unfolding clear_section
  clear_section-IsSound v = elim (Bool-cases (nat_beq (length (sweep env s now scope sel).1) 0)) [
    | inl h ↦ rw h (swept-IsSound v)
    | inr h ↦ rw h (
        append_history-IsSound (sweep env s now scope sel).0 (clear_entry now scope _)
          (swept-IsSound v))
  ]

  -- What a clearing leaves alone.
  pub clear_section-still :
      ((clear_section env s now sel scope).0.config ≡ s.config)
      × ((clear_section env s now sel scope).0.generation ≡ s.generation)
      × ((clear_section env s now sel scope).0.probing ≡ s.probing)
  unfolding clear_section sweep append_history
  clear_section-still = (ground arith, ground arith, ground arith)
