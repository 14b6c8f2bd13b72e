-- ===== src/Management/Status/Private.antt =====
-- management.go: what `statusPayload` does not tell of the cached values.
use cpa_codex_turn_state_plu.Base.{
  ℕ, zero, suc, ◌+◌, ◌≡◌, ◌∙◌, refl, ap, inl, inr, Bool, true, false, List, [], ◌∷◌, map, ltb,
  Bool-cases, if◌then◌else◌, Text, text_beq, text_eq, arith, ◌==◌,
}
use cpa_codex_turn_state_plu.Base.Dict.{Dict, keys, lookup}
use cpa_codex_turn_state_plu.Clock.{Time}
use cpa_codex_turn_state_plu.Environment.{Environment}
use cpa_codex_turn_state_plu.Text.{text_ltb, sort_by, byte_length, utf8_width}
use cpa_codex_turn_state_plu.Config.{PluginConfig}
use cpa_codex_turn_state_plu.Keys.{split_state_key}
use cpa_codex_turn_state_plu.State.{RuntimeState, StoredState, AccountInfo, stored_at}
use cpa_codex_turn_state_plu.Refresh.{next_refresh, first_due, after_cooldown}
use cpa_codex_turn_state_plu.Management.Status.Entry.{
  Snapshot, shown_keys, seeded_keys, snapshot, snapshots, is_hidden, entry_view, shows_valid,
  shows_compatible,
}
use cpa_codex_turn_state_plu.Management.Status.Rows.{
  Tally, no_tally, count_entry, tally_entry, tally_all,
}
use cpa_codex_turn_state_plu.Management.Status.{status_payload, status_view}

-- As many stars.
unfoldable pub stars : ℕ → Text
stars zero = []
stars (suc n) = b'*' ∷ stars n

-- The state without its value, of which the length is left.
unfoldable pub masked : StoredState → StoredState
unfolding stars
masked st = record st { value = stars (byte_length st.value) }

unfoldable pub masked_states : Dict Text StoredState → Dict Text StoredState
masked_states [] = []
masked_states ((k, st) ∷ d) = (k, masked st) ∷ masked_states d

unfoldable pub without_values : RuntimeState → RuntimeState
without_values s = record s { current = masked_states s.current }

byte_length-stars : (n : ℕ) → byte_length (stars n) ≡ n
unfolding byte_length stars
byte_length-stars zero = refl
byte_length-stars (suc n) = omega (arith, byte_length-stars n)

stars-full : (n : ℕ) → ltb 0 n ≡ true → text_beq (stars n) [] ≡ false
unfolding stars
stars-full zero h = absurd (ground arith)
stars-full (suc n) h = refl

stars-empty : (v : Text) → text_beq (stars (byte_length v)) [] ≡ text_beq v []
unfolding byte_length stars
stars-empty [] = refl
stars-empty (c ∷ v) = stars-full (utf8_width c + byte_length v) (ground arith)

keys-masked_states : (d : Dict Text StoredState) → keys (masked_states d) ≡ keys d
unfolding masked_states
keys-masked_states [] = refl
keys-masked_states ((k, st) ∷ d) = ap (λ ks. k ∷ ks) (keys-masked_states d)

stored_at-masked_states :
    (k : Text) (d : Dict Text StoredState) → stored_at k (masked_states d) ≡ masked (stored_at k d)
unfolding masked_states lookup masked stars byte_length
stored_at-masked_states k [] = refl
stored_at-masked_states k ((j, st) ∷ d) = elim (Bool-cases (j == k)) [
  | inl e ↦ rw e refl
  | inr e ↦ rw e (stored_at-masked_states k d)
]

masked_snapshot : Snapshot → Snapshot
masked_snapshot item = record item { current = masked item.current }

next_refresh-without_values :
    (s : RuntimeState) (now : Time) (k : Text)
    → next_refresh (without_values s) now k ≡ next_refresh s now k
unfolding next_refresh first_due after_cooldown without_values masked
next_refresh-without_values s now k =
    rw (stored_at-masked_states k s.current) (rw (stars-empty (stored_at k s.current).value) refl)

snapshot-without_values :
    (s : RuntimeState) (now : Time) (k : Text)
    → snapshot (without_values s) now k ≡ masked_snapshot (snapshot s now k)
unfolding snapshot without_values masked_snapshot
snapshot-without_values s now k =
    ap (λ c. record (snapshot (without_values s) now k) { current = c })
      (stored_at-masked_states k s.current)
    ∙ ap (λ d. record (masked_snapshot (snapshot s now k)) { next_refresh = d })
        (next_refresh-without_values s now k)

shown_keys-without_values :
    (s : RuntimeState) (now : Time) → shown_keys (without_values s) now ≡ shown_keys s now
unfolding shown_keys without_values
shown_keys-without_values s now = rw (keys-masked_states s.current) refl

module _ (env : Environment) (cfg : PluginConfig) (now : Time) (seeded : List Text)
    (accounts : Dict Text AccountInfo) (resolved : Bool) where
  entry_view-masked :
      (item : Snapshot)
      → entry_view env cfg now seeded accounts (masked_snapshot item)
        ≡ entry_view env cfg now seeded accounts item
  unfolding entry_view masked_snapshot masked shows_valid shows_compatible
  entry_view-masked item =
      rw (byte_length-stars (byte_length item.current.value), stars-empty item.current.value) refl

  tally_entry-masked :
      (item : Snapshot) (t : Tally)
      → tally_entry
          (entry_view env cfg now seeded accounts (masked_snapshot item))
          (split_state_key item.key).0
          (masked_snapshot item)
          t
        ≡ tally_entry
            (entry_view env cfg now seeded accounts item)
            (split_state_key item.key).0
            item
            t
  unfolding tally_entry count_entry masked_snapshot masked
  tally_entry-masked item t =
      ap (λ e. tally_entry e (split_state_key item.key).0 (masked_snapshot item) t)
        (entry_view-masked item)
      ∙ rw (stars-empty item.current.value) refl

  tally_all-masked :
      (s : RuntimeState) (ks : List Text) (t : Tally)
      → tally_all env cfg now seeded accounts resolved (map (snapshot (without_values s) now) ks) t
        ≡ tally_all env cfg now seeded accounts resolved (map (snapshot s now) ks) t
  unfolding tally_all is_hidden masked_snapshot snapshot
  tally_all-masked s [] t = refl
  tally_all-masked s (k ∷ ks) t =
      let item = snapshot s now k in
      ap
        (λ i.
          tally_all env cfg now seeded accounts resolved
            (i ∷ map (snapshot (without_values s) now) ks) t)
        (snapshot-without_values s now k)
      ∙ ap
          (λ u.
            tally_all env cfg now seeded accounts resolved
              (map (snapshot (without_values s) now) ks)
              (if is_hidden env accounts resolved item then t else u))
          (tally_entry-masked item t)
      ∙ tally_all-masked s ks (
          if is_hidden env accounts resolved item
          then t
          else tally_entry (entry_view env cfg now seeded accounts item) (split_state_key k).0 item
              t)

-- The panel learns of the cached values only how long they are: with every value replaced by as many
-- stars, statusPayload shows the same.
pub status_payload-masked :
    (env : Environment) (s : RuntimeState) (now : Time) (accounts : Dict Text AccountInfo)
    (resolved : Bool)
    → status_payload env (without_values s) now accounts resolved
      ≡ status_payload env s now accounts resolved
unfolding status_payload status_view snapshots without_values
status_payload-masked env s now accounts resolved =
    let cfg = s.config in
    let seeded = seeded_keys cfg.credentials in
    ap
      (λ ks. status_view env s now accounts resolved (
        tally_all env cfg now seeded accounts resolved
          (map (snapshot (without_values s) now) (sort_by text_ltb ks)) no_tally))
      (shown_keys-without_values s now)
    ∙ ap (status_view env s now accounts resolved) (
        tally_all-masked env cfg now seeded accounts resolved s
          (sort_by text_ltb (shown_keys s now)) no_tally)
