-- ===== src/Json/Pair.antt =====
-- `json.Marshal` and `json.Unmarshal` at `[2]string`, and their round trip: what state keys rest on.
use cpa_codex_turn_state_plu.Base.{
  ℕ, suc, ◌≡◌, refl, ap, Option, none, some, [], ◌∷◌, ◌++◌, Text, length,
}
use cpa_codex_turn_state_plu.Json.Strings.{escape_onto, scan, combine}
use cpa_codex_turn_state_plu.Json.Strings.Scanned.{scan-escape_onto, combine-units}
use cpa_codex_turn_state_plu.Json.{
  Json, Items, null, string, arr, nil, cons, value, items, parse, skip_blank, finish, closed, next,
  opening,
}

-- `json.Marshal([2]string{a, b})`
unfoldable pub encode_pair : Text → Text → Text
unfolding escape_onto
encode_pair a b =
    b'[' ∷ b'"' ∷ escape_onto a (b'"' ∷ b',' ∷ b'"' ∷ escape_onto b (b'"' ∷ b']' ∷ []))

-- One element of the array: a string is stored, `null` leaves the zero value, and any other value is
-- an error.
element : Json → Option Text
element (string s) = some s
element null = some []
element _ = none

second : Items → Option Text
unfolding element
second nil = some []
second (cons y rest) = element y

-- Missing elements are empty, further ones are skipped.
elements : Items → Option (Text × Text)
unfolding element second
elements nil = some ([], [])
elements (cons x rest) = elim (element x) [
  | none ↦ none
  | some a ↦ elim (second rest) [ none ↦ none | some b ↦ some (a, b) ]
]

from_json : Option Json → Option (Text × Text)
unfolding elements
from_json (some (arr xs)) = elements xs
from_json (some null) = some ([], [])
from_json _ = none

-- `json.Unmarshal` into a `[2]string`; no value stands for its error.
unfoldable pub decode_pair : Text → Option (Text × Text)
unfolding from_json parse scan combine
decode_pair s = from_json (parse s)

-- An encoded text is read as one value.
pub value-string :
    (fuel : ℕ) (a rest : Text)
    → value (suc fuel) (b'"' ∷ escape_onto a (b'"' ∷ rest)) ≡ some (string a, rest)
unfolding value skip_blank opening
value-string fuel a rest = rw (scan-escape_onto a rest, value) (rw (combine-units a) refl)

items-last :
    (fuel : ℕ) (b rest : Text)
    → items (suc (suc fuel)) (b'"' ∷ escape_onto b (b'"' ∷ b']' ∷ rest))
      ≡ some (cons (string b) nil, rest)
unfolding value next skip_blank
items-last fuel b rest = rw (value-string fuel b (b']' ∷ rest), items) refl

items-first :
    (fuel : ℕ) (a b rest : Text)
    → items
        (suc (suc (suc fuel)))
        (b'"' ∷ escape_onto a (b'"' ∷ b',' ∷ b'"' ∷ escape_onto b (b'"' ∷ b']' ∷ rest)))
      ≡ some (cons (string a) (cons (string b) nil), rest)
unfolding value next skip_blank
items-first fuel a b rest =
    rw (value-string (suc fuel) a _, items) (rw (items-last fuel b rest) refl)

value-pair :
    (fuel : ℕ) (a b : Text)
    → value (suc (suc (suc (suc fuel)))) (encode_pair a b)
      ≡ some (arr (cons (string a) (cons (string b) nil)), [])
unfolding encode_pair value opening closed skip_blank
value-pair fuel a b = rw (items-first fuel a b [], value) refl

pub parse-encode_pair :
    (a b : Text) → parse (encode_pair a b) ≡ some (arr (cons (string a) (cons (string b) nil)))
unfolding parse skip_blank
parse-encode_pair a b =
    ap finish (value-pair (suc (length (encode_pair a b ++ encode_pair a b))) a b)

-- Any two texts come back from their encoding.
pub decode_pair-encode_pair : (a b : Text) → decode_pair (encode_pair a b) ≡ some (a, b)
unfolding decode_pair
decode_pair-encode_pair a b = ap from_json (parse-encode_pair a b)
