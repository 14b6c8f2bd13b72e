-- ===== src/System/Moves.antt =====
-- The abstract view of the cache: a function from keys to states. It moves by putting states, none of
-- which was issued before the state that its key holds.
use cpa_codex_turn_state_plu.Base.{
  ◌≤◌, ◌≡◌, ◌∙◌, refl, ap, subst, Option, some, if◌then◌else◌, get_or, Text, text_beq, text_eq,
}
use cpa_codex_turn_state_plu.Base.Dict.{Dict, lookup, insert, lookup-insert}
use cpa_codex_turn_state_plu.State.{StoredState, stored_at, zero_stored}

abbrev pub Cache : Type 0
Cache = Text → Option StoredState

-- The cache with the state in the place of its key's.
abbrev pub renew : Text → StoredState → Cache → Cache
renew key st c k = if text_beq key k then some st else c k

-- What the key holds was not issued later.
abbrev pub IsRenewal : Text → StoredState → Cache → Type 0
IsRenewal key st c = (old : StoredState) → c key ≡ some old → old.issued_at ≤ st.issued_at

-- The same cache, or one that some renewals lead to.
pub data Moves : Cache → Cache → Type 0 where
  same : {c d : Cache} → ((k : Text) → d k ≡ c k) → Moves c d
  renewed :
      {c d e : Cache} (key : Text) (st : StoredState)
      → IsRenewal key st c
      → ((k : Text) → d k ≡ renew key st c k)
      → Moves d e
      → Moves c e

-- A cache with the same entries moves alike.
Moves-same : {c d e : Cache} → ((k : Text) → d k ≡ c k) → Moves d e → Moves c e
Moves-same f (same g) = same (λ k. g k ∙ f k)
Moves-same {c} {d} {e} f (renewed {d = next} key st newer eq rest) =
    renewed {c = c} {d = next} {e = e} key st (λ old h. newer old (f key ∙ h))
      (λ k. eq k ∙ ap (λ o. if text_beq key k then some st else o) (f k)) rest

pub Moves-compose : {c d e : Cache} → Moves c d → Moves d e → Moves c e
Moves-compose (same f) later = Moves-same f later
Moves-compose (renewed key st newer eq rest) later =
    renewed key st newer eq (Moves-compose rest later)

-- The abstract view of a map.
abbrev pub view : Dict Text StoredState → Cache
view d k = lookup k d

pub insert-Moves :
    (d : Dict Text StoredState) (key : Text) (st : StoredState)
    → (stored_at key d).issued_at ≤ st.issued_at
    → Moves (view d) (view (insert key st d))
insert-Moves d key st h =
    renewed key st (λ old q. subst (λ o. (get_or o zero_stored).issued_at ≤ st.issued_at) q h)
      (λ k. lookup-insert key k st d) (same (λ k. refl))
