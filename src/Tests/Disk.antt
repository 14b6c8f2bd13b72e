-- ===== src/Tests/Disk.antt =====
-- The theorems on the state file at concrete inputs.
use cpa_codex_turn_state_plu.Text.{trim, drop_while, drop_while_end, byte_length}
use cpa_codex_turn_state_plu.Base.{
  ◌≡◌, refl, true, false, none, some, [], ◌∷◌, ◌++◌, Text, text_beq, text_eq, str, ok, arith, All,
  some-injective, subst, ◌≤◌,
}
use cpa_codex_turn_state_plu.Base.Int.{pos}
use cpa_codex_turn_state_plu.Base.Dict.{Dict, lookup}
use cpa_codex_turn_state_plu.Keys.{state_key}
use cpa_codex_turn_state_plu.Clock.{unix}
use cpa_codex_turn_state_plu.Fernet.{parse_turn_state}
use cpa_codex_turn_state_plu.Base64.{encode, decode}
use cpa_codex_turn_state_plu.State.{StoredState}
use cpa_codex_turn_state_plu.Lifecycle.Persisted.{load_persisted}
use cpa_codex_turn_state_plu.Persist.{Disk, Calls, line_feed, persist_states}
use cpa_codex_turn_state_plu.Tests.Codec.{
  prints, print_version, print_states, print_text, reads, prints-IsCodec,
}
use cpa_codex_turn_state_plu.Persist.Atomic.{
  GivesFresh, IsOldOrNew, IsOutcome, persist_states-moments, persist_states-IsOutcome,
}
use cpa_codex_turn_state_plu.Persist.Callers.{read_state_file, max_state_file_bytes}
use cpa_codex_turn_state_plu.Persist.Saved.{IsServed, IsLoadable, persist_states-reloads}
use cpa_codex_turn_state_plu.Tests.Samples.{acct, gpt, seed_value, issue_seconds}

-- A cache of one state, the printed file for it, and a disk with an older file.
abbrev key : Text
key = state_key acct gpt

abbrev cached : StoredState
cached = record { value = seed_value; issued_at = unix issue_seconds; blocks = 10 }

abbrev cache : Dict Text StoredState
cache = (key, cached) ∷ []

abbrev path : Text
path = str "/data/states.json"

abbrev temporary : Text
temporary = str "/data/.codex-turn-state-1.tmp"

abbrev printed : Text
printed = print_version (pos 2) (print_states cache)

abbrev older : Disk
older = (path, record { content = str "{}"; mode = 384; durable = str "{}" }) ∷ []

abbrev os : Calls
os = record {
  clean = λ t. t;
  encode = prints;
  made = true;
  temp = some temporary;
  chmods = true;
  partial = none;
  syncs = true;
  closes = true;
  renames = true;
  removes = true;
}

os-GivesFresh : GivesFresh os path cache older
unfolding lookup trim drop_while drop_while_end
os-GivesFresh temp r =
    let same : temporary ≡ temp = some-injective temporary temp r in
    subst (λ t. (lookup t older ≡ none) × (text_beq t path ≡ false)) same (refl, refl)

persist_states-moments_example :
    (let run = persist_states os path cache older in
      All (IsOldOrNew os path cache older) (run.passed ++ run.last ∷ []))
persist_states-moments_example = persist_states-moments os path cache older os-GivesFresh

persist_states-IsOutcome_example :
    (let run = persist_states os path cache older in
      IsOutcome os path cache older run.failure run.last)
persist_states-IsOutcome_example = persist_states-IsOutcome os path cache older os-GivesFresh refl

path_named : text_beq (trim path) [] ≡ false
unfolding trim drop_while drop_while_end
path_named = refl

os-IsServed : IsServed os path printed cache
unfolding prints trim drop_while drop_while_end
os-IsServed = record {
  elsewhere = refl;
  folder = refl;
  printed = refl;
  temp = temporary;
  opened = refl;
  shielded = refl;
  written = refl;
  synced = refl;
  closed = refl;
  renamed = refl;
}

printed_small : byte_length (printed ++ line_feed) ≤ max_state_file_bytes
unfolding byte_length print_version print_states print_text state_key trim encode
printed_small = omega arith

cached-IsLoadable : IsLoadable (pos 4096) key cached
unfolding parse_turn_state state_key trim encode byte_length decode
cached-IsLoadable = record {
  named = refl;
  trimmed = refl;
  info = record { issued_at = unix issue_seconds; cipher_bytes = 160; blocks = 10 };
  parses = refl;
  issued = refl;
  counted = refl;
}

persist_states-reloads_example :
    (let run = persist_states os path cache older in
      (run.failure ≡ none)
      × ((d : Dict Text StoredState) × (load_persisted path
              (read_state_file os.clean reads path run.last)
              (pos 4096)
            ≡ ok d)
          × ((k : Text) → lookup k d ≡ lookup k cache)))
unfolding lookup
persist_states-reloads_example =
    persist_states-reloads os reads path printed cache older (pos 4096) path_named os-IsServed
      os-GivesFresh prints-IsCodec printed_small (refl, tt) (cached-IsLoadable, tt)
