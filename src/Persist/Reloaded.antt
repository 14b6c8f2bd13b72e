-- ===== src/Persist/Reloaded.antt =====
-- plugin.go: the loop of `loadPersisted` over the entries of the file.
use cpa_codex_turn_state_plu.Base.{
  not, ◌||◌, Option, none, some, [], ◌∷◌, ◌≡◌, inl, inr, refl, ap, sym, ◌∙◌, arith, Bool-cases,
  if◌then◌else◌, and_then, Text, text_beq, text_beq_iff, text_eq, Result, ok, err,
}
use cpa_codex_turn_state_plu.Base.Int.{ℤ}
use cpa_codex_turn_state_plu.Base.Dict.{Dict, insert, lookup, lookup-insert}
use cpa_codex_turn_state_plu.Base.Sets.{IsDistinct}
use cpa_codex_turn_state_plu.Text.{trim}
use cpa_codex_turn_state_plu.Fernet.{FernetInfo, ParseError, parse_turn_state}
use cpa_codex_turn_state_plu.State.{StoredState}
use cpa_codex_turn_state_plu.Lifecycle.Persisted.{reload}

abbrev pub option_map {ℓ κ} : {A : Type ℓ} {B : Type κ} → (A → B) → Option A → Option B
option_map f none = none
option_map f (some a) = some (f a)

abbrev pub or_else {ℓ} : {A : Type ℓ} → Option A → Option A → Option A
or_else none b = b
or_else (some a) b = some a

-- What the loader makes of one entry of the file.
unfoldable pub restored : ℤ → Text → Text → Option StoredState
restored max key value =
    if text_beq key [] || not (text_beq key (trim key))
    then none
    else (elim (parse_turn_state value max) [
      | err _ ↦ none
      | ok info ↦ some (record { value = value; issued_at = info.issued_at; blocks = info.blocks })
    ])

taken_over : Text → Option StoredState → Dict Text StoredState → Dict Text StoredState
taken_over key none out = out
taken_over key (some st) out = insert key st out

reload-restored :
    (max : ℤ) (key value : Text) (rest : Dict Text Text) (out : Dict Text StoredState)
    → reload max ((key, value) ∷ rest) out
      ≡ reload max rest (taken_over key (restored max key value) out)
unfolding reload restored taken_over
reload-restored max key value rest out =
    elim (Bool-cases (text_beq key [] || not (text_beq key (trim key)))) [
      | inl bad ↦ rw bad refl
      | inr good ↦ rw good (parsed (parse_turn_state value max))
    ]
  where
    parsed :
        (r : Result ParseError FernetInfo)
        → reload max rest (elim r [
          | err _ ↦ out
          | ok info ↦
              insert key
                (record { value = value; issued_at = info.issued_at; blocks = info.blocks })
                out
        ])
          ≡ reload max rest (
              taken_over key
                (elim r [
                  | err _ ↦ none
                  | ok info ↦
                      some
                        (record { value = value; issued_at = info.issued_at; blocks = info.blocks })
                ])
                out)
    parsed (err e) = refl
    parsed (ok info) = refl

lookup-taken_over :
    (key k : Text) (o : Option StoredState) (out : Dict Text StoredState)
    → lookup k (taken_over key o out)
      ≡ (if text_beq key k then or_else o (lookup k out) else lookup k out)
unfolding taken_over
lookup-taken_over key k none out = ground arith
lookup-taken_over key k (some st) out = lookup-insert key k st out

-- A map of texts is read into the entries that the loader accepts, over those that were there.
pub lookup-reload :
    (max : ℤ) (values : Dict Text Text) (out : Dict Text StoredState) (k : Text)
    → IsDistinct values
    → lookup k (reload max values out)
      ≡ or_else (and_then (lookup k values) (restored max k)) (lookup k out)
unfolding lookup reload
lookup-reload max [] out k u = refl
lookup-reload max ((key, value) ∷ rest) out k u =
    let o = restored max key value in
    ap (lookup k) (reload-restored max key value rest out)
    ∙ lookup-reload max rest (taken_over key o out) k u.1
    ∙ ap (or_else (and_then (lookup k rest) (restored max k))) (lookup-taken_over key k o out)
    ∙ (elim (Bool-cases (text_beq key k)) [
      | inl at ↦ let same : key ≡ k = (text_beq_iff key k).0 at in rw (at, sym same, u.0) refl
      | inr off ↦ rw off refl
    ])
