-- ===== src/Management/Status/Listed.antt =====
-- management.go: which entries `statusPayload` shows, and in which order.
use cpa_codex_turn_state_plu.Base.{
  ◌≡◌, ◌∙◌, refl, sym, ap, inl, inr, Bool, true, false, not, ◌&&◌, ◌||◌, Option, none, some, List,
  [], ◌∷◌, ◌++◌, map, ltb, Bool-cases, Text, text_eq, str, arith,
}
use cpa_codex_turn_state_plu.Base.Dict.{Dict, keys, lookup}
use cpa_codex_turn_state_plu.Base.Sets.{
  member, include_all, member-include_all, keys_where, member-keys_where, IsDistinct, passes,
}
use cpa_codex_turn_state_plu.Clock.{Time}
use cpa_codex_turn_state_plu.Environment.{Environment}
use cpa_codex_turn_state_plu.Text.{text_ltb, sort_by, equal_fold}
use cpa_codex_turn_state_plu.Text.Sorted.{
  IsAscending, include_all-IsUnique, sort_by-IsAscending, member-sort_by, select,
  select-IsAscending, member-select,
}
use cpa_codex_turn_state_plu.Keys.{split_state_key, account_digest}
use cpa_codex_turn_state_plu.State.{RuntimeState, AccountInfo}
use cpa_codex_turn_state_plu.Management.Status.Entry.{
  EntryView, shown_keys, seeded_keys, snapshot, snapshots, is_hidden, entry_view,
}
use cpa_codex_turn_state_plu.Management.Status.Rows.{Tally, no_tally, tally_entry, tally_all}
use cpa_codex_turn_state_plu.Management.Status.Counted.{tally_all-hidden, tally_all-shown}
use cpa_codex_turn_state_plu.Management.Status.{status_payload}

append-one : (es xs : List EntryView) (e : EntryView) → (es ++ e ∷ []) ++ xs ≡ es ++ e ∷ xs
append-one [] xs e = refl
append-one (d ∷ es) xs e = ap (λ r. d ∷ r) (append-one es xs e)

append-none : (es : List EntryView) → es ++ [] ≡ es
append-none [] = refl
append-none (d ∷ es) = ap (λ r. d ∷ r) (append-none es)

module _ (env : Environment) (s : RuntimeState) (now : Time) (accounts : Dict Text AccountInfo)
    (resolved : Bool) where
  -- The key has a state, a result of a probe, a queued refresh, a probe in flight or a backoff that
  -- has not ended.
  unfoldable pub is_known : Text → Bool
  is_known k =
      member k (keys s.current)
      || member k (keys s.probe_results)
      || member k (keys s.refresh_requests)
      || member k (keys s.probing)
      || passes (λ _ until. ltb now until) k (lookup k s.blocked_until)

  -- Its account is known and not free.
  abbrev pub is_paid : Text → Bool
  is_paid k = elim (lookup (account_digest env (split_state_key k).0) accounts) [
    | none ↦ false
    | some info ↦ not (equal_fold info.plan (str "free"))
  ]

  -- This is asked only if the accounts are known at all.
  abbrev pub is_shown : Text → Bool
  is_shown k = not resolved || is_paid k

  is_shown-is_hidden :
      (k : Text) → not (is_hidden env accounts resolved (snapshot s now k)) ≡ is_shown k
  unfolding is_hidden snapshot
  is_shown-is_hidden k = elim (Bool-cases resolved) [
    | inr e ↦ rw e refl
    | inl e ↦ rw e (asked (lookup (account_digest env (split_state_key k).0) accounts))
  ]
    where
      asked :
          (o : Option AccountInfo)
          → not (elim o [ none ↦ true | some info ↦ equal_fold info.plan (str "free") ])
            ≡ (elim o [ none ↦ false | some info ↦ not (equal_fold info.plan (str "free")) ])
      asked none = refl
      asked (some info) = refl

  abbrev pub shown_view : Text → EntryView
  shown_view k =
      entry_view env s.config now (seeded_keys s.config.credentials) accounts (snapshot s now k)

  -- The entries are those of the known keys that are shown, each key once, in ascending order.
  pub record IsListing (es : List EntryView) : Type 0 where
    pub listed_keys : List Text
    pub views : es ≡ map shown_view listed_keys
    pub ascending : IsAscending listed_keys
    pub exact : (k : Text) → member k listed_keys ≡ (is_known k && is_shown k)

  tally_all-entries :
      (ks : List Text) (t : Tally)
      → (tally_all env s.config now
          (seeded_keys s.config.credentials)
          accounts
          resolved
          (map (snapshot s now) ks)
          t).entries
        ≡ t.entries ++ map shown_view (select is_shown ks)
  unfolding select tally_all tally_entry snapshot
  tally_all-entries [] t = sym (append-none t.entries)
  tally_all-entries (k ∷ ks) t =
      let seeded = seeded_keys s.config.credentials in
      elim (Bool-cases (is_hidden env accounts resolved (snapshot s now k))) [
        | inl e ↦
            let out : is_shown k ≡ false = sym (is_shown-is_hidden k) ∙ rw e refl in
            ap (λ u. u.entries)
              (tally_all-hidden env s.config now seeded accounts resolved (snapshot s now k)
                (map (snapshot s now) ks) t e)
            ∙ tally_all-entries ks t
            ∙ rw out refl
        | inr e ↦
            let shown : is_shown k ≡ true = sym (is_shown-is_hidden k) ∙ rw e refl in
            let u = tally_entry (shown_view k) (split_state_key k).0 (snapshot s now k) t in
            ap (λ u. u.entries)
              (tally_all-shown env s.config now seeded accounts resolved (snapshot s now k)
                (map (snapshot s now) ks) t e)
            ∙ tally_all-entries ks u
            ∙ append-one t.entries (map shown_view (select is_shown ks)) (shown_view k)
            ∙ rw shown refl
      ]

  shown_keys-is_known :
      IsDistinct s.blocked_until → (k : Text) → member k (shown_keys s now) ≡ is_known k
  unfolding shown_keys is_known
  shown_keys-is_known distinct k =
      let blocked = include_all (keys_where (λ _ until. ltb now until) s.blocked_until) [] in
      let probed = include_all (keys s.probing) blocked in
      let queued = include_all (keys s.refresh_requests) probed in
      ground (
        arith,
        member-include_all k (keys s.current) (include_all (keys s.probe_results) queued),
        member-include_all k (keys s.probe_results) queued,
        member-include_all k (keys s.refresh_requests) probed,
        member-include_all k (keys s.probing) blocked,
        member-include_all k (keys_where (λ _ until. ltb now until) s.blocked_until) [],
        member-keys_where (λ _ until. ltb now until) s.blocked_until k distinct,
      )

  shown_keys-IsAscending : IsAscending (sort_by text_ltb (shown_keys s now))
  unfolding shown_keys
  shown_keys-IsAscending = sort_by-IsAscending (shown_keys s now) (
      include_all-IsUnique (keys s.current) _ (
        include_all-IsUnique (keys s.probe_results) _ (
          include_all-IsUnique (keys s.refresh_requests) _
            (include_all-IsUnique (keys s.probing) _ (include_all-IsUnique _ [] tt)))))

  -- statusPayload shows one entry for each key that has a state, a result of a probe, a queued refresh,
  -- a probe in flight or a backoff that has not ended, unless the accounts are known and the account of
  -- the key is unknown or free, and for no other key; the entries stand in ascending order of the keys.
  -- The map of the backoffs has every key once.
  pub status_payload-IsListing :
      IsDistinct s.blocked_until → IsListing (status_payload env s now accounts resolved).entries
  unfolding status_payload snapshots
  status_payload-IsListing distinct =
      let ks = sort_by text_ltb (shown_keys s now) in
      record {
        listed_keys = select is_shown ks;
        views = tally_all-entries ks no_tally;
        ascending = select-IsAscending is_shown ks shown_keys-IsAscending;
        exact = λ k.
            member-select k is_shown ks
            ∙ ap (λ b. b && is_shown k)
                (member-sort_by k (shown_keys s now) ∙ shown_keys-is_known distinct k);
      }
