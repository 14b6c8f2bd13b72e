-- ===== src/Persist/Chain.antt =====
-- plugin.go: the calls of `persistStates` on its temporary file, up to the rename.
use cpa_codex_turn_state_plu.Base.{
  false, Option, none, some, List, [], ◌∷◌, ◌≡◌, inl, inr, refl, ap, ◌∙◌, arith, Bool-cases,
  Option-cases, All, if◌then◌else◌, Text, text_beq, text_eq,
}
use cpa_codex_turn_state_plu.Base.Dict.{
  insert, erase, lookup, lookup_inserted, lookup-insert, lookup-erase,
}
use cpa_codex_turn_state_plu.Persist.{
  File, Disk, PersistError, Calls, FileCall, Run, private_mode, run_calls, chmod_temp, write_temp,
  sync_temp, close_temp, rename_temp, put, protect, flush, moved, temp_calls,
}

-- A private file with this content, of which a crash leaves `durable`.
abbrev pub held : Text → Text → File
held content durable = record { content = content; mode = private_mode; durable = durable }

-- The complete state file, of which a crash leaves everything.
abbrev pub whole : Text → File
whole raw = held raw raw

module _ (disk : Disk) (temp target : Text) where
  -- Only the temporary file differs.
  abbrev pub IsApart : Disk → Type 0
  IsApart d = (p : Text) → text_beq temp p ≡ false → lookup p d ≡ lookup p disk

  -- And the temporary file holds this.
  abbrev pub IsFilled : Text → Text → Disk → Type 0
  IsFilled c durable d = (lookup temp d ≡ some (held c durable)) × IsApart d

  -- The target is the complete file, the temporary file is gone, and nothing else differs.
  abbrev pub IsReplaced : Text → Disk → Type 0
  IsReplaced raw d =
      (p : Text)
      → lookup p d ≡ (
          if text_beq target p
          then some (whole raw)
          else (if text_beq temp p then none else lookup p disk))

  abbrev pub IsEnded : Text → Option PersistError → Disk → Type 0
  IsEnded raw none d = IsReplaced raw d
  IsEnded raw (some e) d = IsApart d

  -- Every disk on the way has the files as they were.
  pub record IsSafe (raw : Text) (run : Run) : Type 0 where
    pub on_the_way : All IsApart run.passed
    pub at_the_end : IsEnded raw run.failure run.last

  -- A call that may fail and leaves the disk apart, before a safe rest.
  run_calls-IsSafe :
      (raw : Text) (call : FileCall) (rest : List FileCall) (d : Disk)
      → IsApart d
      → IsApart (call d).1
      → ((call d).0 ≡ none → IsSafe raw (run_calls rest (call d).1))
      → IsSafe raw (run_calls (call ∷ rest) d)
  unfolding run_calls
  run_calls-IsSafe raw call rest d here there after = split (call d).0 after
    where
      split :
          (o : Option PersistError)
          → (o ≡ none → IsSafe raw (run_calls rest (call d).1))
          → IsSafe raw (elim o [
            | some e ↦ record { failure = some e; last = (call d).1; passed = d ∷ [] }
            | none ↦
                let tail = run_calls rest (call d).1 in
                record { failure = tail.failure; last = tail.last; passed = d ∷ tail.passed }
          ])
      split (some e) k = record { on_the_way = (here, tt); at_the_end = there }
      split none k =
          let tail = k refl in
          record { on_the_way = (here, tail.on_the_way); at_the_end = tail.at_the_end }

  insert-IsFilled :
      (c durable raw written : Text) (d : Disk)
      → IsFilled c durable d
      → IsFilled raw written (insert temp (held raw written) d)
  insert-IsFilled c durable raw written d h = (
    lookup_inserted temp (held raw written) d,
    λ p apart. lookup-insert temp p (held raw written) d ∙ rw apart (h.1 p apart),
  )

  put-IsFilled :
      (c durable raw : Text) (d : Disk)
      → IsFilled c durable d
      → IsFilled raw durable (put temp raw d)
  unfolding put
  put-IsFilled c durable raw d h = rw (put, h.0) (insert-IsFilled c durable raw durable d h)

  chmod_temp-IsFilled :
      (os : Calls) (c durable : Text) (d : Disk)
      → IsFilled c durable d
      → IsFilled c durable (chmod_temp os temp d).1
  unfolding chmod_temp protect
  chmod_temp-IsFilled os c durable d h = elim (Bool-cases os.chmods) [
    | inl on ↦ rw (on, protect, h.0) (insert-IsFilled c durable c durable d h)
    | inr off ↦ rw off h
  ]

  write_temp-IsFilled :
      (os : Calls) (raw c durable : Text) (d : Disk)
      → IsFilled c durable d
      → (write_temp os temp raw d).0 ≡ none
      → IsFilled raw durable (write_temp os temp raw d).1
  unfolding write_temp
  write_temp-IsFilled os raw c durable d h done = elim (Option-cases os.partial) [
    | inl all ↦ rw all (put-IsFilled c durable raw d h)
    | inr part ↦ absurd (ground (arith, part.1, done))
  ]

  write_temp-IsApart :
      (os : Calls) (raw c durable : Text) (d : Disk)
      → IsFilled c durable d
      → IsApart (write_temp os temp raw d).1
  unfolding write_temp
  write_temp-IsApart os raw c durable d h = elim (Option-cases os.partial) [
    | inl all ↦ rw all (put-IsFilled c durable raw d h).1
    | inr part ↦ rw part.1 (put-IsFilled c durable part.0 d h).1
  ]

  -- After `Sync`, a crash leaves what was written.
  sync_temp-IsFilled :
      (os : Calls) (c durable : Text) (d : Disk)
      → IsFilled c durable d
      → (sync_temp os temp d).0 ≡ none
      → IsFilled c c (sync_temp os temp d).1
  unfolding sync_temp flush
  sync_temp-IsFilled os c durable d h done = elim (Bool-cases os.syncs) [
    | inl on ↦ rw (on, flush, h.0) (insert-IsFilled c durable c c d h)
    | inr off ↦ absurd (ground (arith, off, done))
  ]

  sync_temp-IsApart :
      (os : Calls) (c durable : Text) (d : Disk)
      → IsFilled c durable d
      → IsApart (sync_temp os temp d).1
  unfolding sync_temp flush
  sync_temp-IsApart os c durable d h = elim (Bool-cases os.syncs) [
    | inl on ↦ rw (on, flush, h.0) (insert-IsFilled c durable c c d h).1
    | inr off ↦ rw off h.1
  ]

  moved-IsReplaced :
      (raw : Text) (d : Disk) → IsFilled raw raw d → IsReplaced raw (moved temp target d)
  unfolding moved
  moved-IsReplaced raw d h p =
      rw (moved, h.0)
        (lookup-insert target p (whole raw) (erase temp d)
          ∙ ap (λ o. if text_beq target p then some (whole raw) else o)
              (lookup-erase temp p d ∙ (elim (Bool-cases (text_beq temp p)) [
                | inl at ↦ rw at refl
                | inr off ↦ rw off (h.1 p off)
              ])))

  -- The last call, in a chain of its own.
  rename_temp-IsSafe :
      (os : Calls) (raw : Text) (d : Disk)
      → IsFilled raw raw d
      → IsSafe raw (run_calls (rename_temp os temp target ∷ []) d)
  unfolding run_calls rename_temp
  rename_temp-IsSafe os raw d h = elim (Bool-cases os.renames) [
    | inl on ↦ rw on (record { on_the_way = (h.1, tt); at_the_end = moved-IsReplaced raw d h })
    | inr off ↦ rw off (record { on_the_way = (h.1, tt); at_the_end = h.1 })
  ]

  -- A call that only reports.
  close_temp-IsSafe :
      (os : Calls) (raw : Text) (rest : List FileCall) (d : Disk)
      → IsApart d
      → IsSafe raw (run_calls rest d)
      → IsSafe raw (run_calls (close_temp os ∷ rest) d)
  unfolding close_temp
  close_temp-IsSafe os raw rest d h k = elim (Bool-cases os.closes) [
    | inl on ↦ run_calls-IsSafe raw (close_temp os) rest d h (rw on h) (λ q. rw on k)
    | inr off ↦ run_calls-IsSafe raw (close_temp os) rest d h (rw off h) (λ q. rw off k)
  ]

  pub temp_calls-IsSafe :
      (os : Calls) (raw c durable : Text) (d : Disk)
      → IsFilled c durable d
      → IsSafe raw (run_calls (temp_calls os temp target raw) d)
  unfolding temp_calls
  temp_calls-IsSafe os raw c durable d h =
      let shielded = chmod_temp-IsFilled os c durable d h in
      run_calls-IsSafe raw (chmod_temp os temp) _ d h.1 shielded.1 (λ _.
        let e = (chmod_temp os temp d).1 in
        run_calls-IsSafe raw (write_temp os temp raw) _ e shielded.1
          (write_temp-IsApart os raw c durable e shielded)
          (λ done.
            let written = write_temp-IsFilled os raw c durable e shielded done in
            let f = (write_temp os temp raw e).1 in
            run_calls-IsSafe raw (sync_temp os temp) _ f written.1
              (sync_temp-IsApart os raw durable f written)
              (λ kept.
                let synced = sync_temp-IsFilled os raw durable f written kept in
                let g = (sync_temp os temp f).1 in
                close_temp-IsSafe os raw _ g synced.1 (rename_temp-IsSafe os raw g synced))))
