-- ===== src/Persist/Atomic.antt =====
-- plugin.go: what `persistStates` leaves on the disk, at every moment and at its end.
use cpa_codex_turn_state_plu.Base.{
  Bool, true, false, ◌||◌, Option, none, some, List, [], ◌∷◌, ◌++◌, ◌≡◌, ◌⊎◌, inl, inr, refl, sym,
  ◌∙◌, arith, Bool-cases, All, All-append, if◌then◌else◌, Text, text_beq, text_beq_iff, text_eq,
  str,
}
use cpa_codex_turn_state_plu.Base.Dict.{
  erase, lookup, lookup_inserted, lookup-insert, lookup-erase, Dict, beq_refl,
}
use cpa_codex_turn_state_plu.Text.{trim}
use cpa_codex_turn_state_plu.State.{StoredState}
use cpa_codex_turn_state_plu.Persist.{
  Disk, PersistError, empty_path, mkdir_failed, encode_failed, temp_failed, Calls, Run,
  persisted_file, line_feed, created, with_cleanup, replace_file, persist_states, stopped,
}
use cpa_codex_turn_state_plu.Persist.Chain.{
  whole, IsApart, IsFilled, IsReplaced, IsEnded, IsSafe, temp_calls-IsSafe,
}

module _ (disk : Disk) (temp target : Text) where
  -- The temporary file is new, and is not the target.
  abbrev pub IsFresh : Type 0
  IsFresh = (lookup temp disk ≡ none) × (text_beq temp target ≡ false)

  -- The end of the whole run: the complete file and nothing else, or nothing at all.
  abbrev pub IsFinished : Bool → Text → Option PersistError → Disk → Type 0
  IsFinished removes raw none d =
      (p : Text) → lookup p d ≡ (if text_beq target p then some (whole raw) else lookup p disk)
  IsFinished removes raw (some e) d = removes ≡ true → (p : Text) → lookup p d ≡ lookup p disk

  -- The target is as it was, or complete.
  abbrev pub IsOldOrWhole : Text → Disk → Type 0
  IsOldOrWhole raw d = (lookup target d ≡ lookup target disk) ⊎ (lookup target d ≡ some (whole raw))

  apart-IsOldOrWhole :
      (raw : Text)
      → IsFresh
      → (ds : List Disk) → All (IsApart disk temp target) ds
      → All (IsOldOrWhole raw) ds
  apart-IsOldOrWhole raw fresh [] h = tt
  apart-IsOldOrWhole raw fresh (d ∷ ds) h =
      (inl (h.0 target fresh.1), apart-IsOldOrWhole raw fresh ds h.1)

  replaced-IsFinished :
      (raw : Text) (removes : Bool) (d : Disk)
      → IsFresh
      → IsReplaced disk temp target raw d
      → IsFinished removes raw none d
  replaced-IsFinished raw removes d fresh h p = h p ∙ (elim (Bool-cases (text_beq temp p)) [
    | inl at ↦
        let same : temp ≡ p = (text_beq_iff temp p).0 at in rw (at, sym (rw same at fresh.0)) refl
    | inr off ↦ rw off refl
  ])

  removed-lookup :
      (d : Disk)
      → IsFresh
      → IsApart disk temp target d
      → (p : Text) → lookup p (erase temp d) ≡ lookup p disk
  removed-lookup d fresh h p = lookup-erase temp p d ∙ (elim (Bool-cases (text_beq temp p)) [
    | inl at ↦
        let same : temp ≡ p = (text_beq_iff temp p).0 at in rw (at, sym (rw same at fresh.0)) refl
    | inr off ↦ rw off (h p off)
  ])

  -- What is known of a run from its first to its last disk.
  pub record IsAtomic (removes : Bool) (raw : Text) (run : Run) : Type 0 where
    pub moments : All (IsOldOrWhole raw) (run.passed ++ run.last ∷ [])
    pub finish : IsFinished removes raw run.failure run.last

  create-IsFilled : IsFresh → IsFilled disk temp target [] [] (created temp disk)
  unfolding created
  create-IsFilled fresh = (
    lookup_inserted temp (whole []) disk,
    λ p off. lookup-insert temp p (whole []) disk ∙ rw off refl,
  )

  ended-moments :
      (raw : Text) (failure : Option PersistError) (d : Disk)
      → IsFresh
      → IsEnded disk temp target raw failure d
      → IsOldOrWhole raw d
  ended-moments raw none d fresh h = inr (h target ∙ rw (beq_refl target) refl)
  ended-moments raw (some e) d fresh h = inl (h target fresh.1)

  with_cleanup-IsAtomic :
      (os : Calls) (raw : Text) (run : Run)
      → IsFresh
      → IsSafe disk temp target raw run
      → IsAtomic os.removes raw (with_cleanup os temp run)
  unfolding with_cleanup
  with_cleanup-IsAtomic os raw run fresh h =
      go run.failure run.last run.passed h.on_the_way h.at_the_end
    where
      go :
          (o : Option PersistError) (d : Disk) (ds : List Disk)
          → All (IsApart disk temp target) ds
          → IsEnded disk temp target raw o d
          → IsAtomic os.removes raw
              (with_cleanup os temp (record { failure = o; last = d; passed = ds }))
      go none d ds apart end = record {
        moments =
            All-append (IsOldOrWhole raw) ds (d ∷ []) (apart-IsOldOrWhole raw fresh ds apart)
              (ended-moments raw none d fresh end, tt);
        finish = replaced-IsFinished raw os.removes d fresh end;
      }
      go (some e) d ds apart end =
          let before =
            apart-IsOldOrWhole raw fresh (ds ++ d ∷ [])
              (All-append (IsApart disk temp target) ds (d ∷ []) apart (end, tt)) in
          let gone = removed-lookup d fresh end in
          elim (Bool-cases os.removes) [
            | inl on ↦ rw on (record {
              moments =
                  All-append (IsOldOrWhole raw) (ds ++ d ∷ []) (erase temp d ∷ []) before
                    (inl (gone target), tt);
              finish = λ _. gone;
            })
            | inr off ↦ rw off (record {
              moments =
                  All-append (IsOldOrWhole raw) (ds ++ d ∷ []) (d ∷ []) before
                    (inl (end target fresh.1), tt);
              finish = λ on. absurd (ground arith);
            })
          ]

  pub replace_file-IsAtomic :
      (os : Calls) (raw : Text)
      → IsFresh
      → IsAtomic os.removes raw (replace_file os temp target raw disk)
  unfolding replace_file
  replace_file-IsAtomic os raw fresh =
      let safe =
        temp_calls-IsSafe disk temp target os raw [] [] (created temp disk)
          (create-IsFilled fresh) in
      let tidy = with_cleanup-IsAtomic os raw _ fresh safe in
      record { moments = (inl refl, tidy.moments); finish = tidy.finish }

-- What `persistStates` writes, if it gets that far, and the file that it makes for it.
pub persist_states-cases :
    (P : Run → Type 0) (os : Calls) (path : Text) (states : Dict Text StoredState) (disk : Disk)
    → ((e : PersistError) → P (stopped e disk))
    → ((raw temp : Text)
        → os.encode (persisted_file states) ≡ some raw
        → os.temp ≡ some temp
        → P (replace_file os temp (os.clean (trim path)) (raw ++ line_feed) disk))
    → P (persist_states os path states disk)
unfolding persist_states
persist_states-cases P os path states disk bad good =
    let target = os.clean (trim path) in
    elim (Bool-cases (text_beq target (str ".") || text_beq target [])) [
      | inl blank ↦ rw blank (bad empty_path)
      | inr full ↦ rw full (elim (Bool-cases os.made) [
        | inr no_folder ↦ rw no_folder (bad mkdir_failed)
        | inl folder ↦ rw folder (encoded (os.encode (persisted_file states)) refl)
      ])
    ]
  where
    named :
        (raw : Text)
        → os.encode (persisted_file states) ≡ some raw
        → (o : Option Text) → os.temp ≡ o
        → P (elim o [
          | none ↦ stopped temp_failed disk
          | some temp ↦ replace_file os temp (os.clean (trim path)) (raw ++ line_feed) disk
        ])
    named raw q none r = bad temp_failed
    named raw q (some temp) r = good raw temp q r

    encoded :
        (o : Option Text)
        → os.encode (persisted_file states) ≡ o
        → P (elim o [
          | none ↦ stopped encode_failed disk
          | some raw ↦ elim os.temp [
            | none ↦ stopped temp_failed disk
            | some temp ↦ replace_file os temp (os.clean (trim path)) (raw ++ line_feed) disk
          ]
        ])
    encoded none q = bad encode_failed
    encoded (some raw) q = named raw q os.temp refl

module _ (os : Calls) (path : Text) (states : Dict Text StoredState) (disk : Disk) where
  -- The name that `os.CreateTemp` finds is that of no file, nor of the target.
  abbrev pub GivesFresh : Type 0
  GivesFresh = (temp : Text) → os.temp ≡ some temp → IsFresh disk temp (os.clean (trim path))

  -- The target is as before, or it is the complete new file, of which a crash leaves everything.
  abbrev pub IsOldOrNew : Disk → Type 0
  IsOldOrNew d =
      (lookup (os.clean (trim path)) d ≡ lookup (os.clean (trim path)) disk)
      ⊎ ((raw : Text) × (os.encode (persisted_file states) ≡ some raw)
          × (lookup (os.clean (trim path)) d ≡ some (whole (raw ++ line_feed))))

  -- Without an error the new file stands there, with an error nothing has changed.
  abbrev pub IsOutcome : Option PersistError → Disk → Type 0
  IsOutcome none d =
      (raw : Text) × (os.encode (persisted_file states) ≡ some raw)
      × ((p : Text)
          → lookup p d ≡ (
              if text_beq (os.clean (trim path)) p
              then some (whole (raw ++ line_feed))
              else lookup p disk))
  IsOutcome (some e) d = (p : Text) → lookup p d ≡ lookup p disk

  old_or_new :
      (raw temp : Text)
      → os.encode (persisted_file states) ≡ some raw
      → (ds : List Disk) → All (IsOldOrWhole disk temp (os.clean (trim path)) (raw ++ line_feed)) ds
      → All IsOldOrNew ds
  old_or_new raw temp q [] h = tt
  old_or_new raw temp q (d ∷ ds) h =
      (elim h.0 [ inl old ↦ inl old | inr new ↦ inr (raw, q, new) ], old_or_new raw temp q ds h.1)

  -- While persistStates runs, from its first call to its last one, the state file is as before, or
  -- it is the new one, complete, private to its owner, and with a content that a crash of the machine
  -- leaves as a whole. The temporary file is a new one.
  pub persist_states-moments :
      GivesFresh
      → (let run = persist_states os path states disk in
          All IsOldOrNew (run.passed ++ run.last ∷ []))
  persist_states-moments fresh =
      persist_states-cases (λ run. All IsOldOrNew (run.passed ++ run.last ∷ [])) os path states disk
        (λ e. (inl refl, tt))
        (λ raw temp q r.
          old_or_new raw temp q _
            (replace_file-IsAtomic disk temp (os.clean (trim path)) os (raw ++ line_feed)
              (fresh temp r)).moments)

  finished-IsOutcome :
      (raw temp : Text)
      → os.encode (persisted_file states) ≡ some raw
      → os.removes ≡ true
      → (o : Option PersistError) (d : Disk)
      → IsFinished disk temp (os.clean (trim path)) os.removes (raw ++ line_feed) o d
      → IsOutcome o d
  finished-IsOutcome raw temp q on none d h = (raw, q, h)
  finished-IsOutcome raw temp q on (some e) d h = h on

  -- If persistStates returns without an error, the state file is the complete new one, private to
  -- its owner, and no other file has changed; if it returns an error, no file has changed at all. The
  -- temporary file is a new one and can be removed.
  pub persist_states-IsOutcome :
      GivesFresh
      → os.removes ≡ true
      → (let run = persist_states os path states disk in IsOutcome run.failure run.last)
  persist_states-IsOutcome fresh on =
      persist_states-cases (λ run. IsOutcome run.failure run.last) os path states disk (λ e p. refl)
        (λ raw temp q r.
          finished-IsOutcome raw temp q on _ _
            (replace_file-IsAtomic disk temp (os.clean (trim path)) os (raw ++ line_feed)
              (fresh temp r)).finish)
