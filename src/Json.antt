-- ===== src/Json.antt =====
-- The part of `encoding/json` that the program relies on: values, the parser (`json.Unmarshal`,
-- `json.Valid`), strings with their escapes, and the encoding of a pair of strings. A number keeps
-- its text. The nesting limit of 10000 of the Go parser is left out.
pub mod Strings
pub mod Pair
pub mod Failed
use cpa_codex_turn_state_plu.Base.{
  ℕ, zero, suc, ◌+◌, ◌*◌, ◌++◌, Bool, true, false, not, ◌&&◌, ◌||◌, Option, none, some, List, [],
  ◌∷◌, ltb, leb, nat_beq, if◌then◌else◌, length, Text, text_beq, str,
}
use Strings.{scan_string, scan, combine}
use cpa_codex_turn_state_plu.Text.{strip_prefix}

mutual
  pub data Json : Type 0 where
    null : Json
    bool : Bool → Json
    num : Text → Json
    string : Text → Json
    arr : Items → Json
    obj : Fields → Json

  pub data Items : Type 0 where
    nil : Items
    cons : Json → Items → Items

  pub data Fields : Type 0 where
    end : Fields
    field : Text → Json → Fields → Fields

is_blank : ℕ → Bool
is_blank c = nat_beq c b' ' || nat_beq c 9 || nat_beq c 10 || nat_beq c 13

unfoldable pub skip_blank : Text → Text
unfolding is_blank
skip_blank [] = []
skip_blank (c ∷ s) = if is_blank c then skip_blank s else c ∷ s

abbrev pub is_digit : ℕ → Bool
is_digit c = leb b'0' c && leb c b'9'

-- The digits in front, and the rest.
span_digits : Text → Text × Text
span_digits [] = ([], [])
span_digits (c ∷ s) =
    let (ds, rest) = span_digits s in if is_digit c then (c ∷ ds, rest) else ([], c ∷ s)

-- At least one digit.
some_digits : Text → Option (Text × Text)
unfolding span_digits
some_digits s = check (span_digits s)
  where
    check : Text × Text → Option (Text × Text)
    check ([], rest) = none
    check (d ∷ ds, rest) = some (d ∷ ds, rest)

-- The integer part: a single zero, or digits that do not begin with one.
int_part : Text → Option (Text × Text)
unfolding some_digits
int_part [] = none
int_part (c ∷ s) = if nat_beq c b'0' then some (c ∷ [], s) else some_digits (c ∷ s)

frac_part : Text → Option (Text × Text)
unfolding some_digits
frac_part [] = some ([], [])
frac_part (c ∷ s) =
    if nat_beq c b'.'
    then (elim (some_digits s) [ none ↦ none | some (ds, rest) ↦ some (c ∷ ds, rest) ])
    else some ([], c ∷ s)

exp_sign : Text → Text
exp_sign [] = []
exp_sign (c ∷ s) = if nat_beq c b'+' || nat_beq c b'-' then s else c ∷ s

exp_part : Text → Option (Text × Text)
unfolding some_digits exp_sign
exp_part [] = some ([], [])
exp_part (c ∷ s) =
    if nat_beq c b'e' || nat_beq c b'E'
    then (elim (some_digits (exp_sign s)) [ none ↦ none | some (ds, rest) ↦ some (c ∷ ds, rest) ])
    else some ([], c ∷ s)

-- A number without its sign. An exponent's sign is not kept in the text.
unsigned : Text → Option (Text × Text)
unfolding int_part frac_part exp_part
unsigned s = elim (int_part s) [
  | none ↦ none
  | some (ds, r) ↦ elim (frac_part r) [
    | none ↦ none
    | some (fs, r') ↦ elim (exp_part r') [
      | none ↦ none
      | some (es, r'') ↦ some (ds ++ (fs ++ es), r'')
    ]
  ]
]

number : ℕ → Text → Option (Json × Text)
unfolding unsigned
number c s =
    if nat_beq c b'-'
    then (elim (unsigned s) [ none ↦ none | some (ds, rest) ↦ some (num (c ∷ ds), rest) ])
    else (elim (unsigned (c ∷ s)) [ none ↦ none | some (ds, rest) ↦ some (num ds, rest) ])

keyword : Text → Json → Text → Option (Json × Text)
unfolding strip_prefix
keyword word j s = elim (strip_prefix word s) [ none ↦ none | some rest ↦ some (j, rest) ]

-- A value that is neither a string, an array nor an object.
scalar : ℕ → Text → Option (Json × Text)
unfolding number keyword
scalar c s =
    if nat_beq c b't'
    then keyword (str "true") (bool true) (c ∷ s)
    else if nat_beq c b'f'
    then keyword (str "false") (bool false) (c ∷ s)
    else if nat_beq c b'n'
    then keyword (str "null") null (c ∷ s)
    else number c s

pub data Opening : Type 0 where
  quote bracket brace other : Opening

opening : ℕ → Opening
opening c =
    if nat_beq c b'"'
    then quote
    else if nat_beq c b'['
    then bracket
    else if nat_beq c b'{'
    then brace
    else other

-- After a member: the text behind a comma, the text behind the closing mark, or neither.
pub data Next : Type 0 where
  more done : Text → Next
  broken : Next

next : ℕ → Text → Next
next close [] = broken
next close (c ∷ s) = if nat_beq c b',' then more s else if nat_beq c close then done s else broken

-- The text behind the closing mark, if the list is empty.
closed : ℕ → Text → Option Text
closed close [] = none
closed close (c ∷ s) = if nat_beq c close then some s else none

-- The text behind a key's colon.
colon : Text → Option Text
colon [] = none
colon (c ∷ s) = if nat_beq c b':' then some s else none

-- The key of a member, and the text behind its colon.
key : Text → Option (Text × Text)
unfolding colon skip_blank
key [] = none
key (c ∷ s) =
    if nat_beq c b'"'
    then (elim (scan_string s) [
      | none ↦ none
      | some (units, rest) ↦ elim (colon (skip_blank rest)) [
        | none ↦ none
        | some after ↦ some (combine units, after)
      ]
    ])
    else none

-- The fuel is above the length of the text, and every value takes at least one character.
mutual
  unfolding opening closed scalar next key

  pub value : ℕ → Text → Option (Json × Text)
  value zero s = none
  value (suc fuel) s = elim (skip_blank s) [
    | [] ↦ none
    | c ∷ r ↦ elim (opening c) [
      | quote ↦ elim (scan_string r) [
        | none ↦ none
        | some (units, rest) ↦ some (string (combine units), rest)
      ]
      | bracket ↦ elim (closed b']' (skip_blank r)) [
        | some rest ↦ some (arr nil, rest)
        | none ↦ elim (items fuel r) [ none ↦ none | some (xs, rest) ↦ some (arr xs, rest) ]
      ]
      | brace ↦ elim (closed b'}' (skip_blank r)) [
        | some rest ↦ some (obj end, rest)
        | none ↦ elim (members fuel r) [ none ↦ none | some (fs, rest) ↦ some (obj fs, rest) ]
      ]
      | other ↦ scalar c r
    ]
  ]

  items : ℕ → Text → Option (Items × Text)
  items zero s = none
  items (suc fuel) s = elim (value fuel s) [
    | none ↦ none
    | some (x, rest) ↦ elim (next b']' (skip_blank rest)) [
      | more after ↦ elim (items fuel after) [
        | none ↦ none
        | some (xs, rest') ↦ some (cons x xs, rest')
      ]
      | done after ↦ some (cons x nil, after)
      | broken ↦ none
    ]
  ]

  members : ℕ → Text → Option (Fields × Text)
  members zero s = none
  members (suc fuel) s = elim (key (skip_blank s)) [
    | none ↦ none
    | some (k, after_key) ↦ elim (value fuel after_key) [
      | none ↦ none
      | some (x, rest) ↦ elim (next b'}' (skip_blank rest)) [
        | more after ↦ elim (members fuel after) [
          | none ↦ none
          | some (fs, rest') ↦ some (field k x fs, rest')
        ]
        | done after ↦ some (field k x end, after)
        | broken ↦ none
      ]
    ]
  ]

-- Every bracket takes two rounds at most.
fuel_for : Text → ℕ
fuel_for s = suc (suc (suc (suc (suc (length (s ++ s))))))

-- Only blanks may follow a document.
finish : Option (Json × Text) → Option Json
finish none = none
finish (some (j, rest)) = elim (skip_blank rest) [ [] ↦ some j | _ ∷ _ ↦ none ]

-- A whole document: one value, and blanks around it.
unfoldable pub parse : Text → Option Json
unfolding value skip_blank fuel_for finish
parse s = finish (value (fuel_for s) s)
