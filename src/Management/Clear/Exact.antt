-- ===== src/Management/Clear/Exact.antt =====
-- Which states `clearAction` removes.
use cpa_codex_turn_state_plu.Base.{
  ◌≡◌, ◌∙◌, refl, ap, subst, inl, inr, Bool, true, false, not, ◌||◌, none, some, nat_beq,
  if◌then◌else◌, Bool-cases, length, suc, any, map, List, [], ◌∷◌, ◌+◌, ◌&&◌, leb, ltb, Option,
  Text, text_beq, text_eq, arith, ok, ◌>>=◌, >>=-eq-ok, ok-injective,
}
use cpa_codex_turn_state_plu.Base.Dict.{lookup}
use cpa_codex_turn_state_plu.Base.Sets.{
  member, keys_where, erase_all, lookup-erase_all, IsDistinct, passes, member-keys_where,
}
use cpa_codex_turn_state_plu.Clock.{Time}
use cpa_codex_turn_state_plu.Environment.{Environment}
use cpa_codex_turn_state_plu.Text.{trim, to_lower}
use cpa_codex_turn_state_plu.Config.{PluginConfig}
use cpa_codex_turn_state_plu.Keys.{split_state_key, account_digest, entry_handle}
use cpa_codex_turn_state_plu.State.{RuntimeState, StoredState, HistoryEntry}
use cpa_codex_turn_state_plu.History.{append_history}
use cpa_codex_turn_state_plu.Management.Selection.{Selection, selection, selects, is_selective}
use cpa_codex_turn_state_plu.Management.Clear.{
  Scope, invalid, everything, expired, ClearRequest, ClearError, ClearResult, read_scope, confirmed,
  is_valid, is_expired, is_compatible, falls_in, is_doomed, sweep, clear_section, clear_action,
  clear_entry,
}

append_history-current :
    (s : RuntimeState) (e : HistoryEntry) → (append_history s e).current ≡ s.current
unfolding append_history
append_history-current s e = ground arith

pub clear_section-current :
    (env : Environment) (s : RuntimeState) (now : Time) (sel : Selection) (scope : Scope)
    → (clear_section env s now sel scope).0.current
      ≡ erase_all (keys_where (is_doomed env s.config now scope sel) s.current) s.current
unfolding clear_section sweep
clear_section-current env s now sel scope =
    elim (Bool-cases (nat_beq (length (sweep env s now scope sel).1) 0)) [
      | inl h ↦ rw h refl
      | inr h ↦ rw h (append_history-current _ (clear_entry now scope _))
    ]

-- The request names no account, no model and no entry, or it names the key by one of them, up to
-- white space and the case of a model.
abbrev pub names_key : Environment → ClearRequest → Text → Bool
names_key env req key =
    nat_beq (length req.accounts + length req.models + length req.handles) 0
    || any (λ h. text_beq (trim h) (entry_handle env key)) req.handles
    || any (λ a. text_beq (trim a) (account_digest env (split_state_key key).0)) req.accounts
    || any (λ m. text_beq (to_lower (trim m)) (to_lower (split_state_key key).1)) req.models

-- The state cannot be injected now: it has no value, is from the future or has expired.
abbrev pub is_useless : Time → StoredState → Bool
is_useless now st =
    text_beq st.value []
    || ltb (now + 300_000_000_000) st.issued_at
    || leb (st.issued_at + 3_600_000_000_000) now

-- What each scope takes.
abbrev pub takes : Scope → PluginConfig → Time → Text → StoredState → Bool
takes everything cfg now key st = true
takes expired cfg now key st = text_beq st.value [] || leb (st.issued_at + 3_600_000_000_000) now
takes invalid cfg now key st = is_useless now st || not (is_compatible cfg key st)

-- The state of the key goes: it has a credential and a model, is named, and falls in the scope.
abbrev pub goes :
    Environment → PluginConfig → Time → ClearRequest → Scope → Text → StoredState → Bool
goes env cfg now req scope key st =
    not (text_beq (split_state_key key).0 [])
    && not (text_beq (split_state_key key).1 [])
    && names_key env req key
    && takes scope cfg now key st

any-member :
    (f : Text → Text) (k : Text) (xs : List Text)
    → member k (map f xs) ≡ any (λ x. text_beq (f x) k) xs
any-member f k [] = refl
any-member f k (x ∷ xs) = ap (λ b. text_beq (f x) k || b) (any-member f k xs)

length-map : (f : Text → Text) (xs : List Text) → length (map f xs) ≡ length xs
length-map f [] = refl
length-map f (x ∷ xs) = ap suc (length-map f xs)

selection-names_key :
    (env : Environment) (req : ClearRequest) (key : Text)
    → (let sel = selection req.accounts req.models req.handles in
        (not (is_selective sel) || selects env sel key) ≡ names_key env req key)
unfolding selection selects
selection-names_key env req key = ground (
  arith,
  any-member trim (entry_handle env key) req.handles,
  any-member trim (account_digest env (split_state_key key).0) req.accounts,
  any-member (λ m. to_lower (trim m)) (to_lower (split_state_key key).1) req.models,
  length-map trim req.handles,
  length-map trim req.accounts,
  length-map (λ m. to_lower (trim m)) req.models,
)

falls_in-takes :
    (scope : Scope) (cfg : PluginConfig) (now : Time) (key : Text) (st : StoredState)
    → falls_in scope cfg now key st ≡ takes scope cfg now key st
unfolding falls_in is_valid is_expired
falls_in-takes everything cfg now key st = refl
falls_in-takes expired cfg now key st = ground arith
falls_in-takes invalid cfg now key st = ground arith

is_doomed-goes :
    (env : Environment) (cfg : PluginConfig) (now : Time) (req : ClearRequest) (scope : Scope)
    (key : Text) (st : StoredState)
    → is_doomed env cfg now scope (selection req.accounts req.models req.handles) key st
      ≡ goes env cfg now req scope key st
unfolding is_doomed
is_doomed-goes env cfg now req scope key st =
    ground (arith, selection-names_key env req key, falls_in-takes scope cfg now key st)

passes-goes :
    (env : Environment) (cfg : PluginConfig) (now : Time) (req : ClearRequest) (scope : Scope)
    (key : Text) (o : Option StoredState)
    → passes (is_doomed env cfg now scope (selection req.accounts req.models req.handles)) key o
      ≡ passes (goes env cfg now req scope) key o
passes-goes env cfg now req scope key none = refl
passes-goes env cfg now req scope key (some st) = is_doomed-goes env cfg now req scope key st

abbrev pub is_everything : Scope → Bool
is_everything everything = true
is_everything invalid = false
is_everything expired = false

-- The scope that a request was carried out with, and what became of a key.
pub record IsCarriedOut (env : Environment) (s t : RuntimeState) (now : Time) (req : ClearRequest)
    (key : Text) : Type 0 where
  pub scope : Scope
  pub named : read_scope req.scope ≡ ok scope
  pub confirmed : not (is_everything scope) || req.all ≡ true
  pub exact : lookup key t.current ≡ (
      if passes (goes env s.config now req scope) key (lookup key s.current)
      then none
      else lookup key s.current)

confirmed-facts :
    (req : ClearRequest) (asked : Scope) {scope : Scope}
    → confirmed req asked ≡ ok scope
    → (asked ≡ scope) × (not (is_everything asked) || req.all ≡ true)
unfolding confirmed
confirmed-facts req everything {scope} h = elim (Bool-cases req.all) [
  | inl e ↦ (ok-injective {E = ClearError} everything scope (rw e at h), ground (arith, e))
  | inr e ↦ cc
]
confirmed-facts req invalid {scope} h = (ok-injective {E = ClearError} invalid scope h, refl)
confirmed-facts req expired {scope} h = (ok-injective {E = ClearError} expired scope h, refl)

-- A clear request that succeeds is carried out in the scope that its word names, and confirmed if this
-- is everything; a key loses its state exactly if it has one, has a credential and a model, is named by
-- its entry, its account or its model (or the request names nothing), and its state falls in the scope:
-- any state, one without a value or past its hour, or one that is also from the future or does not fit
-- its policy. The cache has every key once.
pub clear_action-IsCarriedOut :
    (env : Environment) (s : RuntimeState) (now : Time) (req : ClearRequest) (key : Text)
    {r : RuntimeState × ClearResult}
    → IsDistinct s.current
    → clear_action env s now (some req) ≡ ok r
    → IsCarriedOut env s r.0 now req key
unfolding clear_action
clear_action-IsCarriedOut env s now req key {r} u h =
    let (scope, first, done) = >>=-eq-ok (read_scope req.scope >>= confirmed req) _ h in
    let (asked, named, agreed) = >>=-eq-ok (read_scope req.scope) (confirmed req) first in
    let (same, sure) = confirmed-facts req asked agreed in
    let sel = selection req.accounts req.models req.handles in
    let result = ok-injective {E = ClearError} (clear_section env s now sel scope) r done in
    let removed = keys_where (is_doomed env s.config now scope sel) s.current in
    record {
      scope = scope;
      named = named ∙ ap ok same;
      confirmed = subst (λ x. not (is_everything x) || req.all ≡ true) same sure;
      exact =
          subst
            (λ x. lookup key x.0.current ≡ (
              if passes (goes env s.config now req scope) key (lookup key s.current)
              then none
              else lookup key s.current))
            result
            (ap (lookup key) (clear_section-current env s now sel scope)
              ∙ lookup-erase_all key removed s.current
              ∙ ap (λ b. if b then none else lookup key s.current)
                  (member-keys_where (is_doomed env s.config now scope sel) s.current key u
                    ∙ passes-goes env s.config now req scope key (lookup key s.current)));
    }
