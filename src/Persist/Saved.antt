-- ===== src/Persist/Saved.antt =====
-- plugin.go: `persistStates` and what `loadPersisted` reads back.
use cpa_codex_turn_state_plu.Base.{
  true, false, ◌||◌, Option, none, some, [], ◌++◌, ◌≡◌, refl, sym, some-injective, ◌∙◌, arith,
  and_then, subst, le→ltb, ◌≤◌, Text, text_beq, text_eq, str, ok,
}
use cpa_codex_turn_state_plu.Base.Int.{ℤ, pos}
use cpa_codex_turn_state_plu.Base.Dict.{Dict, lookup, beq_refl, Each, Each-lookup}
use cpa_codex_turn_state_plu.Base.Sets.{IsDistinct}
use cpa_codex_turn_state_plu.Text.{trim, byte_length}
use cpa_codex_turn_state_plu.Fernet.{FernetInfo, parse_turn_state}
use cpa_codex_turn_state_plu.State.{StoredState}
use cpa_codex_turn_state_plu.Lifecycle.Persisted.{
  StateFile, contents, reload, read_contents, load_persisted,
}
use cpa_codex_turn_state_plu.Persist.{
  File, Disk, Calls, PersistedFile, persisted_file, line_feed, replace_file, persist_states,
  with_cleanup, run_calls, temp_calls, chmod_temp, write_temp, sync_temp, close_temp, rename_temp,
}
use cpa_codex_turn_state_plu.Persist.Chain.{whole}
use cpa_codex_turn_state_plu.Persist.Atomic.{
  GivesFresh, IsFinished, persist_states-cases, replace_file-IsAtomic,
}
use cpa_codex_turn_state_plu.Persist.Callers.{max_state_file_bytes, read_state_file}
use cpa_codex_turn_state_plu.Persist.Reloaded.{option_map, or_else, restored, lookup-reload}

-- What is printed is read back, for every file with a map of states: the version, and the values by
-- their keys. The final line feed is white space.
abbrev pub IsCodec : (PersistedFile → Option Text) → (Text → StateFile) → Type 0
IsCodec print decode =
    (file : PersistedFile) (raw : Text)
    → IsDistinct file.credentials
    → print file ≡ some raw
    → (values : Dict Text Text) × (decode (raw ++ line_feed) ≡ contents file.version values)
      × IsDistinct values
      × ((k : Text) → lookup k values ≡ option_map (λ st. st.value) (lookup k file.credentials))

-- The key has no white space around it, and the value is that of a token within the limit, of this
-- time and with this number of blocks.
pub record IsLoadable (max : ℤ) (key : Text) (st : StoredState) : Type 0 where
  pub named : text_beq key [] ≡ false
  pub trimmed : trim key ≡ key
  pub info : FernetInfo
  pub parses : parse_turn_state st.value max ≡ ok info
  pub issued : st.issued_at ≡ info.issued_at
  pub counted : st.blocks ≡ info.blocks

restored-some :
    (max : ℤ) (key : Text) (st : StoredState)
    → IsLoadable max key st
    → restored max key st.value ≡ some st
unfolding restored
restored-some max key st h =
    rw (h.named, h.trimmed, beq_refl key, h.parses, sym h.issued, sym h.counted) refl

restored_same :
    (max : ℤ) (k : Text) (values : Dict Text Text) (states : Dict Text StoredState)
    → Each (IsLoadable max) states
    → lookup k values ≡ option_map (λ st. st.value) (lookup k states)
    → or_else (and_then (lookup k values) (restored max k)) none ≡ lookup k states
restored_same max k values states known same = rw same (go (lookup k states) refl)
  where
    go :
        (o : Option StoredState)
        → lookup k states ≡ o
        → or_else (and_then (option_map (λ st. st.value) o) (restored max k)) none ≡ o
    go none q = refl
    go (some st) q =
        rw (restored-some max k st (Each-lookup (IsLoadable max) k states known q)) refl

-- What `loadPersisted` makes of a file of version 2 within the limit.
load_persisted-reload :
    (clean : Text → Text) (decode : Text → StateFile) (path : Text) (disk : Disk) (max : ℤ)
    (file : File) (values : Dict Text Text)
    → text_beq (trim path) [] ≡ false
    → lookup (clean (trim path)) disk ≡ some file
    → byte_length file.content ≤ max_state_file_bytes
    → decode file.content ≡ contents (pos 2) values
    → load_persisted path (read_state_file clean decode path disk) max ≡ ok (reload max values [])
unfolding load_persisted read_contents read_state_file
load_persisted-reload clean decode path disk max file values named there small decoded =
    rw
      (
        read_state_file,
        there,
        le→ltb max_state_file_bytes (byte_length file.content) small,
        decoded,
        load_persisted,
        named,
      )
      refl

persist_states-read_back :
    (os : Calls) (decode : Text → StateFile) (path printed : Text) (states : Dict Text StoredState)
    (disk : Disk) (max : ℤ)
    → text_beq (trim path) [] ≡ false
    → GivesFresh os path states disk
    → IsCodec os.encode decode
    → os.encode (persisted_file states) ≡ some printed
    → byte_length (printed ++ line_feed) ≤ max_state_file_bytes
    → IsDistinct states
    → Each (IsLoadable max) states
    → (persist_states os path states disk).failure ≡ none
    → (d : Dict Text StoredState) × (load_persisted path
          (read_state_file os.clean decode path (persist_states os path states disk).last)
          max
        ≡ ok d)
      × ((k : Text) → lookup k d ≡ lookup k states)
unfolding lookup
persist_states-read_back os decode path printed states disk max named fresh codec out small once
      known =
    persist_states-cases
      (λ run.
        run.failure ≡ none
        → (d : Dict Text StoredState) × (load_persisted path
              (read_state_file os.clean decode path run.last) max
            ≡ ok d)
          × ((k : Text) → lookup k d ≡ lookup k states))
      os path states disk (λ e q. absurd (ground (arith, q)))
      (λ raw temp q r done.
        let target = os.clean (trim path) in
        let run = replace_file os temp target (raw ++ line_feed) disk in
        let atomic = replace_file-IsAtomic disk temp target os (raw ++ line_feed) (fresh temp r) in
        let there : lookup target run.last ≡ some (whole (raw ++ line_feed)) =
          subst (λ o. IsFinished disk temp target os.removes (raw ++ line_feed) o run.last) done
            atomic.finish target
          ∙ rw (beq_refl target) refl in
        let (values, decoded, distinct, same) = codec (persisted_file states) raw once q in
        let the_raw : printed ≡ raw = some-injective printed raw (sym out ∙ q) in
        (
          reload max values [],
          load_persisted-reload os.clean decode path run.last max _ values named there
              (subst (λ t. byte_length (t ++ line_feed) ≤ max_state_file_bytes) the_raw small)
              decoded,
          λ k.
              lookup-reload max values [] k distinct
              ∙ restored_same max k values states known (same k),
        ))

-- Every call succeeds, and the path is not that of a folder.
pub record IsServed (os : Calls) (path raw : Text) (states : Dict Text StoredState) : Type 0 where
  pub elsewhere :
      (text_beq (os.clean (trim path)) (str ".") || text_beq (os.clean (trim path)) []) ≡ false
  pub folder : os.made ≡ true
  pub printed : os.encode (persisted_file states) ≡ some raw
  pub temp : Text
  pub opened : os.temp ≡ some temp
  pub shielded : os.chmods ≡ true
  pub written : os.partial ≡ none
  pub synced : os.syncs ≡ true
  pub closed : os.closes ≡ true
  pub renamed : os.renames ≡ true

persist_states-succeeds :
    (os : Calls) (path raw : Text) (states : Dict Text StoredState) (disk : Disk)
    → IsServed os path raw states
    → (persist_states os path states disk).failure ≡ none
unfolding persist_states replace_file with_cleanup run_calls temp_calls chmod_temp write_temp
    sync_temp close_temp rename_temp
persist_states-succeeds os path raw states disk h =
    rw
      (
        persist_states, h.elsewhere, h.folder, h.printed, h.opened, h.shielded, h.written, h.synced,
        h.closed, h.renamed,
      )
      refl

-- If every call succeeds, persistStates returns without an error, and loadPersisted reads what it
-- wrote back to the same states, key by key. The path is not blank, the temporary file is a new one,
-- the decoder reads back what the printer prints, of whatever version, what is printed is within the
-- limit of the size, the states are a map, and each of them has the time and the blocks that its
-- value, within the limit of the loader, shows, under a key without white space around it.
pub persist_states-reloads :
    (os : Calls) (decode : Text → StateFile) (path raw : Text) (states : Dict Text StoredState)
    (disk : Disk) (max : ℤ)
    → text_beq (trim path) [] ≡ false
    → IsServed os path raw states
    → GivesFresh os path states disk
    → IsCodec os.encode decode
    → byte_length (raw ++ line_feed) ≤ max_state_file_bytes
    → IsDistinct states
    → Each (IsLoadable max) states
    → (let run = persist_states os path states disk in
        (run.failure ≡ none)
        × ((d : Dict Text StoredState) × (load_persisted path
                (read_state_file os.clean decode path run.last)
                max
              ≡ ok d)
            × ((k : Text) → lookup k d ≡ lookup k states)))
persist_states-reloads os decode path raw states disk max named served fresh codec small once
      known =
    let done = persist_states-succeeds os path raw states disk served in
    (
      done,
      persist_states-read_back os decode path raw states disk max named fresh codec served.printed
          small once known done,
    )
