-- ===== src/Management/Accounts/Served.antt =====
-- The cache of the accounts: how often the host is asked, and what the cache answers.
use cpa_codex_turn_state_plu.Base.{
  ◌+◌, ◌<◌, ◌≡◌, refl, subst, ◌∙◌, inl, inr, Bool, true, false, not, ◌&&◌, ◌||◌, leb, Bool-cases,
  Option, none, some, List, [], ◌∷◌, ltb, nat_beq, if◌then◌else◌, Text, text_beq, text_eq, str, ok,
  arith,
}
use cpa_codex_turn_state_plu.Base.Dict.{Dict, lookup, insert, lookup-insert}
use cpa_codex_turn_state_plu.Clock.{Time}
use cpa_codex_turn_state_plu.Environment.{Environment}
use cpa_codex_turn_state_plu.Text.{trim, equal_fold}
use cpa_codex_turn_state_plu.Keys.{account_digest}
use cpa_codex_turn_state_plu.State.{AccountInfo, AccountCache}
use cpa_codex_turn_state_plu.Request.{account_cache_ttl, auth_is_free}
use cpa_codex_turn_state_plu.Probe.Auth.{inferred_account_plan}
use cpa_codex_turn_state_plu.Management.Accounts.{
  ListedAccount, account_info, index_accounts, settled, fetching, is_present, begin_accounts,
  finish_accounts,
}

settled_not_fetching :
    {o : Option (Dict Text AccountInfo)} {b : Bool} {c : AccountCache}
    → ¬ (settled o b ≡ fetching c)
settled_not_fetching h = cc

fetching-injective : (a b : AccountCache) → fetching a ≡ fetching b → a ≡ b
fetching-injective a b h = cc

in_flight-settled :
    (cache : AccountCache) (now : Time)
    → (fresh : Bool) × (begin_accounts (record cache { inflight = true }) now
        ≡ settled cache.by_hash fresh)
unfolding begin_accounts
in_flight-settled cache now =
    elim (Bool-cases
      (not (nat_beq cache.fetched_at 0) && ltb now (cache.fetched_at + account_cache_ttl))) [
        | inl h ↦ (true, rw h refl)
        | inr h ↦ (is_present cache.by_hash, rw h refl)
      ]

-- While the host is asked, every other call is answered at once, with what the cache has.
begin_accounts-settled :
    (cache : AccountCache) (start now : Time) {asking : AccountCache}
    → begin_accounts cache start ≡ fetching asking
    → (fresh : Bool) × (begin_accounts asking now ≡ settled cache.by_hash fresh)
unfolding begin_accounts
begin_accounts-settled cache start now {asking} h =
    elim (Bool-cases
      (not (nat_beq cache.fetched_at 0) && ltb start (cache.fetched_at + account_cache_ttl))) [
        | inl a ↦ absurd (settled_not_fetching (rw a at h))
        | inr a ↦ elim (Bool-cases cache.inflight) [
          | inl b ↦ absurd (settled_not_fetching (rw (a, b) at h))
          | inr b ↦
              subst (λ c. (fresh : Bool) × (begin_accounts c now ≡ settled cache.by_hash fresh))
                (fetching-injective _ asking (rw (a, b) at h)) (in_flight-settled cache now)
        ]
      ]

-- The last entry of the listing with an identity of this digest.
abbrev pub last_listed :
    Environment → Text → List ListedAccount → Option ListedAccount → Option ListedAccount
last_listed env h [] found = found
last_listed env h (e ∷ es) found = last_listed env h es (
    if not (text_beq (trim e.id) []) && text_beq (account_digest env e.id) h then some e else found)

abbrev info_of : Environment → Option ListedAccount → Option AccountInfo
info_of env none = none
info_of env (some e) = some (account_info env e)

index_accounts-lookup :
    (env : Environment) (h : Text) (es : List ListedAccount) (d : Dict Text AccountInfo)
    (found : Option ListedAccount)
    → lookup h d ≡ info_of env found
    → lookup h (index_accounts env es d) ≡ info_of env (last_listed env h es found)
unfolding index_accounts
index_accounts-lookup env h [] d found e = e
index_accounts-lookup env h (x ∷ es) d found e = elim (Bool-cases (text_beq (trim x.id) [])) [
  | inl blank ↦ rw blank (index_accounts-lookup env h es d found e)
  | inr named ↦ elim (Bool-cases (text_beq (account_digest env x.id) h)) [
    | inl same ↦
        rw (named, same)
          (index_accounts-lookup env h es (insert (account_digest env x.id) (account_info env x) d)
            (some x)
            (lookup-insert (account_digest env x.id) h (account_info env x) d
              ∙ ground (arith, same)))
    | inr other ↦
        rw (named, other)
          (index_accounts-lookup env h es (insert (account_digest env x.id) (account_info env x) d)
            found
            (lookup-insert (account_digest env x.id) h (account_info env x) d
              ∙ ground (arith, other, e)))
  ]
]

abbrev pub is_free_entry : Option ListedAccount → Bool
is_free_entry none = false
is_free_entry (some e) = equal_fold (inferred_account_plan e.name e.account_type) (str "free")

free_of :
    (env : Environment) (o : Option ListedAccount)
    → ◌≡◌ {A = Bool}
        (elim (info_of env o) [ none ↦ false | some info ↦ equal_fold info.plan (str "free") ])
        (is_free_entry o)
unfolding account_info
free_of env none = refl
free_of env (some e) = refl

-- After the host was asked with success, and for ten seconds from then, each call is answered from
-- this listing without another question, and a request passes as one of a free account exactly if
-- the last entry with its identity infers the plan free.
pub finish_accounts-serves :
    (env : Environment) (cache : AccountCache) (asked now : Time) (es : List ListedAccount)
    (auth_id : Text)
    → 0 < asked
    → now < asked + account_cache_ttl
    → (let r = finish_accounts env cache asked (ok es) in
        (begin_accounts r.0 now ≡ settled (some r.1) true)
        × (auth_is_free env r.0 now auth_id
            ≡ is_free_entry (last_listed env (account_digest env auth_id) es none)))
unfolding finish_accounts begin_accounts auth_is_free lookup
finish_accounts-serves env cache asked now es auth_id later soon =
    let fresh : not (nat_beq asked 0) && ltb now (asked + account_cache_ttl) ≡ true =
      ground (arith, later, soon) in
    let valid : nat_beq asked 0 || leb (asked + account_cache_ttl) now ≡ false =
      ground (arith, later, soon) in
    let found = index_accounts-lookup env (account_digest env auth_id) es [] none refl in
    (
      rw fresh refl,
      rw (valid, found) (free_of env (last_listed env (account_digest env auth_id) es none)),
    )
