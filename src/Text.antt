-- ===== src/Text.antt =====
-- The operations of the standard library's `strings` that the program uses, on code points.
-- Case mapping is that of ASCII; white space is Go's `unicode.IsSpace`, whole.
pub mod Laws
pub mod Sorted
use cpa_codex_turn_state_plu.Base.{
  ℕ, zero, suc, ◌+◌, ◌-◌, ◌*◌, ◌/◌, ◌%◌, Bool, true, false, not, ◌&&◌, ◌||◌, Option, none, some,
  List, [], ◌∷◌, ◌++◌, map, reverse, ltb, leb, if◌then◌else◌, length, any, Text, ◌==◌, nat_beq,
  text_beq, str,
}

abbrev within : ℕ → ℕ → ℕ → Bool
within lo hi c = leb lo c && leb c hi

-- `unicode.IsSpace`
unfoldable pub is_space : ℕ → Bool
is_space c =
    within 9 13 c
    || nat_beq c 32
    || nat_beq c 0x85
    || nat_beq c 0xa0
    || nat_beq c 0x1680
    || within 0x2000 0x200a c
    || within 0x2028 0x2029 c
    || nat_beq c 0x202f
    || nat_beq c 0x205f
    || nat_beq c 0x3000

-- `strings.TrimLeftFunc`
unfoldable pub drop_while : (ℕ → Bool) → Text → Text
drop_while p [] = []
drop_while p (c ∷ s) = if p c then drop_while p s else c ∷ s

-- `strings.TrimRightFunc`: the recursion drops a member only if nothing is left behind it.
unfoldable pub drop_while_end : (ℕ → Bool) → Text → Text
drop_while_end p [] = []
drop_while_end p (c ∷ s) = elim (drop_while_end p s) [
  | [] ↦ if p c then [] else c ∷ []
  | d ∷ r ↦ c ∷ d ∷ r
]

-- `strings.TrimSpace`
unfoldable pub trim : Text → Text
unfolding drop_while drop_while_end is_space
trim s = drop_while_end is_space (drop_while is_space s)

lower_char : ℕ → ℕ
lower_char c = if within b'A' b'Z' c then c + 32 else c

-- `strings.ToLower`
unfoldable pub to_lower : Text → Text
unfolding lower_char
to_lower = map lower_char

upper_char : ℕ → ℕ
upper_char c = if within b'a' b'z' c then c - 32 else c

-- `strings.ToUpper`
unfoldable pub to_upper : Text → Text
unfolding upper_char
to_upper = map upper_char

-- `strings.EqualFold`
unfoldable pub equal_fold : Text → Text → Bool
unfolding to_lower
equal_fold s t = text_beq (to_lower s) (to_lower t)

-- What stands behind the prefix, if it is one.
unfoldable pub strip_prefix : Text → Text → Option Text
strip_prefix [] s = some s
strip_prefix (p ∷ ps) [] = none
strip_prefix (p ∷ ps) (c ∷ s) = let rest = strip_prefix ps s in if nat_beq p c then rest else none

-- `strings.HasPrefix s p`
unfoldable pub has_prefix : Text → Text → Bool
unfolding strip_prefix
has_prefix s p = elim (strip_prefix p s) [ none ↦ false | some _ ↦ true ]

-- `strings.TrimPrefix s p`
unfoldable pub trim_prefix : Text → Text → Text
unfolding strip_prefix
trim_prefix s p = get_or_self (strip_prefix p s)
  where
    get_or_self : Option Text → Text
    get_or_self none = s
    get_or_self (some r) = r

-- `strings.HasSuffix s "*"` and `strings.TrimSuffix s "*"`: the text before a final star.
unfoldable pub strip_star : Text → Option Text
strip_star [] = none
strip_star (c ∷ []) = if nat_beq c b'*' then some [] else none
strip_star (c ∷ d ∷ s) = elim (strip_star (d ∷ s)) [ none ↦ none | some r ↦ some (c ∷ r) ]

-- `strings.Contains s t`
unfoldable pub contains : Text → Text → Bool
unfolding has_prefix
contains [] t = has_prefix [] t
contains (c ∷ s) t = has_prefix (c ∷ s) t || contains s t

-- `strings.ContainsAny s chars`
unfoldable pub contains_any : Text → Text → Bool
contains_any s chars = any (λ c. any (nat_beq c) chars) s

-- The order of Go's `<` on texts that are valid UTF-8 is the order of their code points.
unfoldable pub text_ltb : Text → Text → Bool
text_ltb [] [] = false
text_ltb [] (d ∷ t) = true
text_ltb (c ∷ s) [] = false
text_ltb (c ∷ s) (d ∷ t) = ltb c d || (nat_beq c d && text_ltb s t)

-- The bytes of a code point in UTF-8.
abbrev pub utf8_width : ℕ → ℕ
utf8_width c = if ltb c 0x80 then 1 else if ltb c 0x800 then 2 else if ltb c 0x10000 then 3 else 4

-- `len s`: the length in bytes.
unfoldable pub byte_length : Text → ℕ
byte_length [] = 0
byte_length (c ∷ s) = utf8_width c + byte_length s

-- `strings.Join parts sep`
unfoldable pub join : List Text → Text → Text
join [] sep = []
join (p ∷ []) sep = p
join (p ∷ q ∷ ps) sep = p ++ (sep ++ join (q ∷ ps) sep)

-- `skip` members of the text belong to an occurrence that was replaced already.
replace_from : Text → Text → ℕ → Text → Text
replace_from old new skip [] = []
replace_from old new (suc skip) (c ∷ s) = replace_from old new skip s
replace_from old new zero (c ∷ s) = elim (strip_prefix old (c ∷ s)) [
  | none ↦ c ∷ replace_from old new zero s
  | some _ ↦ new ++ replace_from old new (length old - 1) s
]

-- `strings.ReplaceAll s old new` for an `old` that is not empty
unfoldable pub replace_all : Text → Text → Text → Text
unfolding replace_from strip_prefix
replace_all s old new = replace_from old new 0 s

decimal : ℕ → Text → Option ℕ
decimal acc [] = some acc
decimal acc (c ∷ s) =
    let rest = decimal (acc * 10 + (c - b'0')) s in if leb b'0' c && leb c b'9' then rest else none

-- `strconv.Atoi` of digits with no sign, without its upper bound
unfoldable pub atoi : Text → Option ℕ
unfolding decimal
atoi [] = none
atoi (c ∷ s) = decimal 0 (c ∷ s)

-- Insertion into a sorted list, after the members that are equal.
unfoldable pub insert_by {ℓ} : {A : Type ℓ} → (A → A → Bool) → A → List A → List A
insert_by less x [] = x ∷ []
insert_by less x (y ∷ ys) =
    let rest = insert_by less x ys in if less x y then x ∷ y ∷ ys else y ∷ rest

-- `sort.Ints`, `sort.Strings` and `sort.Slice`
unfoldable pub sort_by {ℓ} : {A : Type ℓ} → (A → A → Bool) → List A → List A
unfolding insert_by
sort_by less [] = []
sort_by less (x ∷ xs) = insert_by less x (sort_by less xs)

-- `%d`, with fuel above the number of digits
digits : ℕ → ℕ → Text → Text
digits zero n acc = acc
digits (suc fuel) n acc =
    let rest = digits fuel (n / 10) ((n % 10 + b'0') ∷ acc) in
    if ltb n 10 then (n + b'0') ∷ acc else rest

unfoldable pub of_nat : ℕ → Text
unfolding digits
of_nat n = digits (suc n) n []
