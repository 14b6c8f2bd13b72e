-- ===== src/Text/Sorted.antt =====
-- Sets of texts in ascending order, as `sort.Strings` and `sort.Slice` give them.
use cpa_codex_turn_state_plu.Base.{
  ◌≡◌, ◌∙◌, refl, sym, ap, inl, inr, Bool, true, false, ◌&&◌, ◌||◌, List, [], ◌∷◌, All, Bool-cases,
  if◌then◌else◌, Text, text_beq, text_beq_iff, arith,
}
use cpa_codex_turn_state_plu.Base.Sets.{member, include, include_all}
use cpa_codex_turn_state_plu.Text.{text_ltb, insert_by, sort_by}

-- No text stands twice.
abbrev pub IsUnique : List Text → Type 0
IsUnique [] = Unit
IsUnique (x ∷ xs) = (member x xs ≡ false) × IsUnique xs

include-IsUnique : (x : Text) (xs : List Text) → IsUnique xs → IsUnique (include x xs)
unfolding include
include-IsUnique x xs h = elim (Bool-cases (member x xs)) [ inl e ↦ rw e h | inr e ↦ rw e (e, h) ]

pub include_all-IsUnique : (xs set : List Text) → IsUnique set → IsUnique (include_all xs set)
unfolding include_all
include_all-IsUnique [] set h = h
include_all-IsUnique (x ∷ xs) set h =
    include-IsUnique x (include_all xs set) (include_all-IsUnique xs set h)

text_ltb_connex : (a b : Text) → text_beq a b ≡ false → text_ltb a b ≡ false → text_ltb b a ≡ true
unfolding text_ltb
text_ltb_connex [] [] e h = cc
text_ltb_connex [] (d ∷ t) e h = cc
text_ltb_connex (c ∷ s) [] e h = refl
text_ltb_connex (c ∷ s) (d ∷ t) e h = ground (arith, e, h, text_ltb_connex s t)

text_ltb_trans : (a b c : Text) → text_ltb a b ≡ true → text_ltb b c ≡ true → text_ltb a c ≡ true
unfolding text_ltb
text_ltb_trans [] [] c h k = cc
text_ltb_trans [] (y ∷ b) [] h k = cc
text_ltb_trans [] (y ∷ b) (z ∷ c) h k = refl
text_ltb_trans (x ∷ a) [] c h k = cc
text_ltb_trans (x ∷ a) (y ∷ b) [] h k = cc
text_ltb_trans (x ∷ a) (y ∷ b) (z ∷ c) h k = ground (arith, h, k, text_ltb_trans a b c)

-- Every text is before all that follow it.
abbrev pub IsAscending : List Text → Type 0
IsAscending [] = Unit
IsAscending (x ∷ xs) = All (λ y. text_ltb x y ≡ true) xs × IsAscending xs

earlier-All :
    (x y : Text) (ys : List Text)
    → text_ltb x y ≡ true
    → All (λ z. text_ltb y z ≡ true) ys
    → All (λ z. text_ltb x z ≡ true) ys
earlier-All x y [] h k = tt
earlier-All x y (z ∷ zs) h k = (text_ltb_trans x y z h k.0, earlier-All x y zs h k.1)

All-insert_by :
    (y x : Text) (ys : List Text)
    → text_ltb y x ≡ true
    → All (λ z. text_ltb y z ≡ true) ys
    → All (λ z. text_ltb y z ≡ true) (insert_by text_ltb x ys)
unfolding insert_by
All-insert_by y x [] h k = (h, tt)
All-insert_by y x (z ∷ zs) h k = elim (Bool-cases (text_ltb x z)) [
  | inl e ↦ rw e (h, k)
  | inr e ↦ rw e (k.0, All-insert_by y x zs h k.1)
]

insert_by-IsAscending :
    (x : Text) (ys : List Text)
    → member x ys ≡ false
    → IsAscending ys
    → IsAscending (insert_by text_ltb x ys)
unfolding insert_by
insert_by-IsAscending x [] fresh h = (tt, tt)
insert_by-IsAscending x (y ∷ ys) fresh h = elim (Bool-cases (text_ltb x y)) [
  | inl e ↦ rw e ((e, earlier-All x y ys e h.0), h)
  | inr e ↦
      let other : text_beq x y ≡ false =
        ground (arith, fresh, text_beq_iff x y, text_beq_iff y x) in
      rw e (
        All-insert_by y x ys (text_ltb_connex x y other e) h.0,
        insert_by-IsAscending x ys (ground (arith, fresh)) h.1,
      )
]

member-insert_by :
    (k x : Text) (ys : List Text)
    → member k (insert_by text_ltb x ys) ≡ (text_beq x k || member k ys)
unfolding insert_by
member-insert_by k x [] = refl
member-insert_by k x (y ∷ ys) = ground (arith, member-insert_by k x ys)

pub member-sort_by : (k : Text) (xs : List Text) → member k (sort_by text_ltb xs) ≡ member k xs
unfolding sort_by
member-sort_by k [] = refl
member-sort_by k (x ∷ xs) =
    member-insert_by k x (sort_by text_ltb xs) ∙ ap (λ b. text_beq x k || b) (member-sort_by k xs)

pub sort_by-IsAscending : (xs : List Text) → IsUnique xs → IsAscending (sort_by text_ltb xs)
unfolding sort_by
sort_by-IsAscending [] h = tt
sort_by-IsAscending (x ∷ xs) h =
    insert_by-IsAscending x (sort_by text_ltb xs) (member-sort_by x xs ∙ h.0)
      (sort_by-IsAscending xs h.1)

-- The members that pass a test.
unfoldable pub select : (Text → Bool) → List Text → List Text
select test [] = []
select test (x ∷ xs) = let rest = select test xs in if test x then x ∷ rest else rest

All-select :
    (x : Text) (test : Text → Bool) (xs : List Text)
    → All (λ y. text_ltb x y ≡ true) xs
    → All (λ y. text_ltb x y ≡ true) (select test xs)
unfolding select
All-select x test [] h = tt
All-select x test (y ∷ ys) h = elim (Bool-cases (test y)) [
  | inl e ↦ rw e (h.0, All-select x test ys h.1)
  | inr e ↦ rw e (All-select x test ys h.1)
]

pub select-IsAscending :
    (test : Text → Bool) (xs : List Text) → IsAscending xs → IsAscending (select test xs)
unfolding select
select-IsAscending test [] h = tt
select-IsAscending test (x ∷ xs) h = elim (Bool-cases (test x)) [
  | inl e ↦ rw e (All-select x test xs h.0, select-IsAscending test xs h.1)
  | inr e ↦ rw e (select-IsAscending test xs h.1)
]

pub member-select :
    (k : Text) (test : Text → Bool) (xs : List Text)
    → member k (select test xs) ≡ (member k xs && test k)
unfolding select
member-select k test [] = refl
member-select k test (x ∷ xs) = elim (Bool-cases (text_beq x k)) [
  | inl e ↦
      rw (sym ((text_beq_iff x k).0 e)) (ground (arith, member-select x test xs, text_beq_iff x x))
  | inr e ↦ ground (arith, e, member-select k test xs)
]

pub insert_by-All {ℓ κ} :
    {A : Type ℓ} (P : A → Type κ) (before : A → A → Bool) (x : A) (xs : List A)
    → P x
    → All P xs
    → All P (insert_by before x xs)
unfolding insert_by
insert_by-All P before x [] p h = (p, tt)
insert_by-All P before x (y ∷ ys) p h = elim (Bool-cases (before x y)) [
  | inl e ↦ rw e (p, h)
  | inr e ↦ rw e (h.0, insert_by-All P before x ys p h.1)
]

pub sort_by-All {ℓ κ} :
    {A : Type ℓ} (P : A → Type κ) (before : A → A → Bool) (xs : List A)
    → All P xs
    → All P (sort_by before xs)
unfolding sort_by
sort_by-All P before [] h = tt
sort_by-All P before (x ∷ xs) h =
    insert_by-All P before x (sort_by before xs) h.0 (sort_by-All P before xs h.1)
