-- ===== src/Tests/Codec.antt =====
-- A printer and a decoder of the state file, for the concrete inputs: the version, then each key and
-- each value, every character one higher, closed by a zero.
use cpa_codex_turn_state_plu.Base.{
  ℕ, zero, suc, Option, none, some, List, [], ◌∷◌, ◌++◌, ◌≡◌, refl, sym, ap, ◌∙◌, Bool-cases, inl,
  inr, Text, text_beq, text_eq, some-injective, subst,
}
use mathlib.Core.List.{append-nil, append_assoc}
use cpa_codex_turn_state_plu.Base.Int.{ℤ, pos, negsuc}
use cpa_codex_turn_state_plu.Base.Dict.{Dict, lookup}
use cpa_codex_turn_state_plu.Base.Sets.{IsDistinct}
use cpa_codex_turn_state_plu.State.{StoredState}
use cpa_codex_turn_state_plu.Lifecycle.Persisted.{StateFile, contents, malformed}
use cpa_codex_turn_state_plu.Persist.{PersistedFile, line_feed}
use cpa_codex_turn_state_plu.Persist.Reloaded.{option_map}
use cpa_codex_turn_state_plu.Persist.Saved.{IsCodec}

unfoldable pub print_text : Text → List ℕ → List ℕ
print_text [] rest = 0 ∷ rest
print_text (c ∷ t) rest = suc c ∷ print_text t rest

unfoldable pub print_states : Dict Text StoredState → List ℕ
unfolding print_text
print_states [] = []
print_states ((key, st) ∷ rest) = print_text key (print_text st.value (print_states rest))

unfoldable pub print_version : ℤ → List ℕ → List ℕ
print_version (pos n) rest = 0 ∷ n ∷ rest
print_version (negsuc n) rest = 1 ∷ n ∷ rest

unfoldable pub prints : PersistedFile → Option Text
unfolding print_version print_states
prints file = some (print_version file.version (print_states file.credentials))

-- The key, if it is complete, and the text that is being read.
unfoldable read_entries : Option Text → Text → List ℕ → Dict Text Text
read_entries key done [] = []
read_entries none done (zero ∷ rest) = read_entries (some done) [] rest
read_entries (some key) done (zero ∷ rest) = (key, done) ∷ read_entries none [] rest
read_entries key done (suc c ∷ rest) = read_entries key (done ++ c ∷ []) rest

unfoldable pub reads : Text → StateFile
unfolding read_entries
reads (zero ∷ n ∷ rest) = contents (pos n) (read_entries none [] rest)
reads (suc zero ∷ n ∷ rest) = contents (negsuc n) (read_entries none [] rest)
reads _ = malformed

values_of : Dict Text StoredState → Dict Text Text
values_of [] = []
values_of ((key, st) ∷ rest) = (key, st.value) ∷ values_of rest

read_key :
    (t done : Text) (rest : List ℕ)
    → read_entries none done (print_text t rest) ≡ read_entries (some (done ++ t)) [] rest
unfolding read_entries print_text
read_key [] done rest = ap (λ d. read_entries (some d) [] rest) (sym (append-nil done))
read_key (c ∷ t) done rest =
    read_key t (done ++ c ∷ []) rest
    ∙ ap (λ d. read_entries (some d) [] rest) (append_assoc done (c ∷ []) t)

read_value :
    (key t done : Text) (rest : List ℕ)
    → read_entries (some key) done (print_text t rest)
      ≡ (key, done ++ t) ∷ read_entries none [] rest
unfolding read_entries print_text
read_value key [] done rest = ap (λ d. (key, d) ∷ read_entries none [] rest) (sym (append-nil done))
read_value key (c ∷ t) done rest =
    read_value key t (done ++ c ∷ []) rest
    ∙ ap (λ d. (key, d) ∷ read_entries none [] rest) (append_assoc done (c ∷ []) t)

print_text-append : (t : Text) (rest r : List ℕ) → print_text t rest ++ r ≡ print_text t (rest ++ r)
unfolding print_text
print_text-append [] rest r = refl
print_text-append (c ∷ t) rest r = ap (λ l. suc c ∷ l) (print_text-append t rest r)

read_states :
    (d : Dict Text StoredState) → read_entries none [] (print_states d ++ line_feed) ≡ values_of d
unfolding read_entries print_states values_of
read_states [] = refl
read_states ((key, st) ∷ rest) =
    let later = print_states rest ++ line_feed in
    ap (read_entries none []) (
      print_text-append key (print_text st.value (print_states rest)) line_feed
      ∙ ap (print_text key) (print_text-append st.value (print_states rest) line_feed))
    ∙ read_key key [] (print_text st.value later)
    ∙ read_value key st.value [] later
    ∙ ap (λ d. (key, st.value) ∷ d) (read_states rest)

lookup-values_of :
    (d : Dict Text StoredState) (k : Text)
    → lookup k (values_of d) ≡ option_map (λ st. st.value) (lookup k d)
unfolding lookup values_of
lookup-values_of [] k = refl
lookup-values_of ((key, st) ∷ rest) k = elim (Bool-cases (text_beq key k)) [
  | inl at ↦ rw at refl
  | inr off ↦ rw off (lookup-values_of rest k)
]

IsDistinct-values_of : (d : Dict Text StoredState) → IsDistinct d → IsDistinct (values_of d)
unfolding values_of
IsDistinct-values_of [] h = tt
IsDistinct-values_of ((key, st) ∷ rest) h =
    (rw (lookup-values_of rest key, h.0) refl, IsDistinct-values_of rest h.1)

reads-prints :
    (v : ℤ) (d : Dict Text StoredState)
    → reads (print_version v (print_states d) ++ line_feed) ≡ contents v (values_of d)
unfolding reads print_version
reads-prints (pos n) d = ap (contents (pos n)) (read_states d)
reads-prints (negsuc n) d = ap (contents (negsuc n)) (read_states d)

pub prints-IsCodec : IsCodec prints reads
unfolding prints
prints-IsCodec file raw once q =
    let same : print_version file.version (print_states file.credentials) ≡ raw =
      some-injective _ raw q in
    (
      values_of file.credentials,
      subst (λ r. reads (r ++ line_feed) ≡ contents file.version (values_of file.credentials)) same
          (reads-prints file.version file.credentials),
      IsDistinct-values_of file.credentials once,
      lookup-values_of file.credentials,
    )
