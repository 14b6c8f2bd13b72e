-- ===== src/Management/Status/Counted.antt =====
-- management.go: what the counters of `statusPayload` count.
use cpa_codex_turn_state_plu.Base.{
  ℕ, ◌+◌, ◌≡◌, ◌∙◌, refl, sym, ap, subst, inl, inr, Bool, true, false, not, ◌&&◌, List, [], ◌∷◌,
  ◌++◌, length, nat_beq, Bool-cases, if◌then◌else◌, Text, text_beq, text_eq, arith,
}
use cpa_codex_turn_state_plu.Base.Dict.{Dict}
use cpa_codex_turn_state_plu.Clock.{Time}
use cpa_codex_turn_state_plu.Environment.{Environment}
use cpa_codex_turn_state_plu.Text.{byte_length}
use cpa_codex_turn_state_plu.Config.{PluginConfig}
use cpa_codex_turn_state_plu.Keys.{split_state_key}
use cpa_codex_turn_state_plu.State.{RuntimeState, AccountInfo}
use cpa_codex_turn_state_plu.Management.Status.Entry.{
  EntryView, Snapshot, seeded_keys, snapshots, is_hidden, entry_view,
}
use cpa_codex_turn_state_plu.Management.Status.Rows.{
  StatusCounters, Tally, no_tally, up, count_entry, tally_entry, tally_all,
}
use cpa_codex_turn_state_plu.Management.Status.{status_payload}

-- How many entries pass the test.
unfoldable pub count : (EntryView → Bool) → List EntryView → ℕ
count test [] = 0
count test (e ∷ es) = up (test e) (count test es)

count-append :
    (test : EntryView → Bool) (es : List EntryView) (e : EntryView)
    → count test (es ++ e ∷ []) ≡ up (test e) (count test es)
unfolding count
count-append test [] e = refl
count-append test (d ∷ es) e = elim (Bool-cases (test d)) [
  | inl h ↦ rw h (elim (Bool-cases (test e)) [
    | inl k ↦ ground (arith, k, count-append test es e)
    | inr k ↦ ground (arith, k, count-append test es e)
  ])
  | inr h ↦ rw h (count-append test es e)
]

-- The counters are the numbers of the entries that show what they count.
pub record AreCounted (es : List EntryView) (c : StatusCounters) : Type 0 where
  pub total : c.total ≡ length es
  pub valid : c.valid ≡ count (λ e. e.valid) es
  pub probing : c.probing ≡ count (λ e. e.probing) es
  pub pending : c.pending ≡ count (λ e. not (text_beq e.refresh_pending [])) es
  pub quota_back : c.quota_back ≡ count (λ e. e.quota_backoff) es
  pub incompatible : c.incompatible ≡ count (λ e. not e.compatible) es
  pub failed :
      c.failed ≡ count (λ e. not (text_beq e.last_probe []) && not e.last_probe_succeeded) es
  pub empty : c.empty ≡ count (λ e. nat_beq e.state_length 0) es

-- A text without bytes is empty.
byte_length-empty : (t : Text) → nat_beq (byte_length t) 0 ≡ text_beq t []
unfolding byte_length
byte_length-empty [] = refl
byte_length-empty (c ∷ t) = ground arith

length-append_one : (es : List EntryView) (e : EntryView) → length (es ++ e ∷ []) ≡ length es + 1
length-append_one [] e = refl
length-append_one (d ∷ es) e = omega (arith, length-append_one es e)

module _ (env : Environment) (cfg : PluginConfig) (now : Time) (seeded : List Text)
    (accounts : Dict Text AccountInfo) (resolved : Bool) where
  count_entry-AreCounted :
      (es : List EntryView) (c : StatusCounters) (item : Snapshot)
      → AreCounted es c
      → AreCounted
          (es ++ entry_view env cfg now seeded accounts item ∷ [])
          (count_entry (entry_view env cfg now seeded accounts item) item c)
  unfolding count_entry entry_view
  count_entry-AreCounted es c item h =
      let e = entry_view env cfg now seeded accounts item in
      record {
        total = omega (arith, h.total, length-append_one es e);
        valid = ap (up e.valid) h.valid ∙ sym (count-append (λ e. e.valid) es e);
        probing = ap (up e.probing) h.probing ∙ sym (count-append (λ e. e.probing) es e);
        pending =
            ap (up _) h.pending
            ∙ sym (count-append (λ e. not (text_beq e.refresh_pending [])) es e);
        quota_back =
            ap (up e.quota_backoff) h.quota_back ∙ sym (count-append (λ e. e.quota_backoff) es e);
        incompatible =
            ap (up (not e.compatible)) h.incompatible
            ∙ sym (count-append (λ e. not e.compatible) es e);
        failed =
            ap (up _) h.failed
            ∙ sym (
                count-append (λ e. not (text_beq e.last_probe []) && not e.last_probe_succeeded) es
                  e);
        empty =
            ap (λ b. up b c.empty) (sym (byte_length-empty item.current.value))
            ∙ ap (up (nat_beq e.state_length 0)) h.empty
            ∙ sym (count-append (λ e. nat_beq e.state_length 0) es e);
      }

  -- A round of the loop.
  pub tally_all-hidden :
      (item : Snapshot) (rest : List Snapshot) (t : Tally)
      → is_hidden env accounts resolved item ≡ true
      → tally_all env cfg now seeded accounts resolved (item ∷ rest) t
        ≡ tally_all env cfg now seeded accounts resolved rest t
  unfolding tally_all
  tally_all-hidden item rest t h =
      ap
        (λ b. tally_all env cfg now seeded accounts resolved rest (
          if b
          then t
          else (tally_entry (entry_view env cfg now seeded accounts item)
              (split_state_key item.key).0 item t)))
        h

  pub tally_all-shown :
      (item : Snapshot) (rest : List Snapshot) (t : Tally)
      → is_hidden env accounts resolved item ≡ false
      → tally_all env cfg now seeded accounts resolved (item ∷ rest) t
        ≡ tally_all env cfg now seeded accounts resolved rest (
            tally_entry
              (entry_view env cfg now seeded accounts item)
              (split_state_key item.key).0
              item
              t)
  unfolding tally_all
  tally_all-shown item rest t h =
      ap
        (λ b. tally_all env cfg now seeded accounts resolved rest (
          if b
          then t
          else (tally_entry (entry_view env cfg now seeded accounts item)
              (split_state_key item.key).0 item t)))
        h

  tally_all-AreCounted :
      (items : List Snapshot) (t : Tally)
      → AreCounted t.entries t.counters
      → (let u = tally_all env cfg now seeded accounts resolved items t in
          AreCounted u.entries u.counters)
  unfolding tally_all tally_entry
  tally_all-AreCounted [] t h = h
  tally_all-AreCounted (item ∷ rest) t h =
      elim (Bool-cases (is_hidden env accounts resolved item)) [
        | inl e ↦
            subst (λ u. AreCounted u.entries u.counters) (sym (tally_all-hidden item rest t e))
              (tally_all-AreCounted rest t h)
        | inr e ↦
            subst (λ u. AreCounted u.entries u.counters) (sym (tally_all-shown item rest t e))
              (tally_all-AreCounted rest
                (tally_entry (entry_view env cfg now seeded accounts item)
                  (split_state_key item.key).0 item t)
                (count_entry-AreCounted t.entries t.counters item h))
      ]

-- The counters that statusPayload shows count the entries that it shows: all of them, those that are
-- valid, probed, queued for a refresh, in backoff, incompatible, without a state, and those whose last
-- probe failed.
pub status_payload-AreCounted :
    (env : Environment) (s : RuntimeState) (now : Time) (accounts : Dict Text AccountInfo)
    (resolved : Bool)
    → (let v = status_payload env s now accounts resolved in AreCounted v.entries v.counters)
unfolding status_payload count
status_payload-AreCounted env s now accounts resolved =
    tally_all-AreCounted env s.config now (seeded_keys s.config.credentials) accounts resolved
      (snapshots s now) no_tally
      (record {
        total = refl;
        valid = refl;
        probing = refl;
        pending = refl;
        quota_back = refl;
        incompatible = refl;
        failed = refl;
        empty = refl;
      })
