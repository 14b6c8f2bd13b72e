-- ===== src/System/Seeds.antt =====
-- The states that a configuration brings along: its seeds, and the state file.
use cpa_codex_turn_state_plu.Base.{
  ◌≡◌, refl, ◌∙◌, sym, ap, inl, inr, true, not, ◌||◌, none, some, [], ◌∷◌, Bool-cases, Text,
  text_beq, text_eq, ◌==◌, arith, Result, ok, err, >>=-eq-ok, guard-ok, ok-injective,
}
use cpa_codex_turn_state_plu.Base.Int.{ℤ, pos, int_beq}
use cpa_codex_turn_state_plu.Base.Dict.{
  Dict, lookup, insert, lookup-insert, lookup_inserted, Each, Each-map, Each-insert,
}
use cpa_codex_turn_state_plu.Text.{trim}
use cpa_codex_turn_state_plu.Text.Laws.{trim_idem}
use cpa_codex_turn_state_plu.Config.{CredentialConfig}
use cpa_codex_turn_state_plu.Fernet.{FernetInfo, ParseError, parse_turn_state}
use cpa_codex_turn_state_plu.Policy.{normal_block_count}
use cpa_codex_turn_state_plu.Keys.{state_key, split_state_key, split_state_key-state_key}
use cpa_codex_turn_state_plu.State.{StoredState}
use cpa_codex_turn_state_plu.Lifecycle.{
  ConfigError, Seeded, normalized, add_seed, seed, add_credential, add_credentials,
}
use cpa_codex_turn_state_plu.Lifecycle.Persisted.{
  StateFile, contents, missing, unreadable, oversized, malformed, LoadError, reload, read_contents,
  load_persisted,
}

-- The time and the block count are those of the value.
pub record IsParsed (st : StoredState) : Type 0 where
  pub limit : ℤ
  pub info : FernetInfo
  pub parses : parse_turn_state st.value limit ≡ ok info
  pub issued : st.issued_at ≡ info.issued_at
  pub counted : st.blocks ≡ info.blocks

-- No key stands in the list twice, as in every map.
abbrev pub IsMap : Dict Text CredentialConfig → Type 0
IsMap [] = Unit
IsMap ((k, c) ∷ d) = (lookup k d ≡ none) × IsMap d

-- A seed, with the credential that brought it; the rest of the loop leaves this one alone.
pub record IsSeed (rest credentials : Dict Text CredentialConfig) (key : Text) (st : StoredState)
    : Type 0 where
  pub policy : CredentialConfig
  pub configured : lookup (split_state_key key).0 credentials ≡ some policy
  pub left : lookup (split_state_key key).0 rest ≡ none
  pub normal : normal_block_count policy st.blocks ≡ true
  pub parsed : IsParsed st

parse_trim :
    (value : Text) (limit : ℤ) → parse_turn_state (trim value) limit ≡ parse_turn_state value limit
unfolding parse_turn_state
parse_trim value limit = rw (trim_idem value)

-- An insertion at a key that is still to come changes no seed that is there.
IsSeed-step :
    (raw : Text) (c n : CredentialConfig) (rest credentials : Dict Text CredentialConfig)
    (key : Text) (st : StoredState)
    → IsSeed ((raw, c) ∷ rest) credentials key st
    → IsSeed rest (insert raw n credentials) key st
unfolding lookup
IsSeed-step raw c n rest credentials key st h = elim (Bool-cases (raw == (split_state_key key).0)) [
  | inl e ↦ absurd (ground (arith, h.left))
  | inr e ↦ record {
    policy = h.policy;
    configured = lookup-insert raw (split_state_key key).0 n credentials ∙ rw e h.configured;
    left = rw e at h.left;
    normal = h.normal;
    parsed = h.parsed;
  }
]

add_seed-IsSeed :
    (raw : Text) (n : CredentialConfig) (max : ℤ) (rest : Dict Text CredentialConfig) (acc : Seeded)
    (info : FernetInfo) {r : Seeded}
    → lookup raw rest ≡ none
    → lookup raw acc.credentials ≡ some n
    → parse_turn_state n.state max ≡ ok info
    → Each (IsSeed rest acc.credentials) acc.current
    → add_seed raw n acc info ≡ ok r
    → Each (IsSeed rest r.credentials) r.current
unfolding add_seed
add_seed-IsSeed raw n max rest acc info {r} fresh there parses each h =
    let (accepted, same) = guard-ok _ _ _ h in
    let named = ap (λ p. p.0) (split_state_key-state_key raw n.state_model) in
    let value : StoredState = record {
      value = trim n.state;
      issued_at = info.issued_at;
      blocks = info.blocks;
    } in
    let added : Seeded = record acc {
      current = insert (state_key raw n.state_model) value acc.current;
    } in
    let result : added ≡ r = ok-injective {E = ConfigError} added r same in
    rw (sym result) (
      Each-insert (IsSeed rest acc.credentials) (state_key raw n.state_model) value acc.current
        (record {
          policy = n;
          configured = rw named there;
          left = rw named fresh;
          normal = ground arith;
          parsed = record {
            limit = max;
            info = info;
            parses = parse_trim n.state max ∙ parses;
            issued = refl;
            counted = refl;
          };
        })
        each)

seed-IsSeed :
    (max : ℤ) (raw : Text) (n : CredentialConfig) (rest : Dict Text CredentialConfig) (acc : Seeded)
    {r : Seeded}
    → lookup raw rest ≡ none
    → lookup raw acc.credentials ≡ some n
    → Each (IsSeed rest acc.credentials) acc.current
    → seed max raw n acc ≡ ok r
    → Each (IsSeed rest r.credentials) r.current
unfolding seed
seed-IsSeed max raw n rest acc {r} fresh there each h =
    elim (Bool-cases (text_beq (trim n.state) [])) [
      | inl e ↦
          let same : acc ≡ r = ok-injective {E = ConfigError} acc r (rw e at h) in
          rw (sym same) each
      | inr e ↦
          let (starred, parsed) = guard-ok _ _ _ (rw e at h) in
          go (parse_turn_state n.state max) refl parsed
    ]
  where
    go :
        (p : Result ParseError FernetInfo)
        → parse_turn_state n.state max ≡ p
        → (elim p [ err e ↦ err (ConfigError.bad_seed e) | ok info ↦ add_seed raw n acc info ])
          ≡ ok r
        → Each (IsSeed rest r.credentials) r.current
    go (err e) q k = cc
    go (ok info) q k = add_seed-IsSeed raw n max rest acc info fresh there q each k

add_credential-IsSeed :
    (max : ℤ) (raw : Text) (c : CredentialConfig) (rest : Dict Text CredentialConfig) (acc : Seeded)
    {r : Seeded}
    → lookup raw rest ≡ none
    → Each (IsSeed ((raw, c) ∷ rest) acc.credentials) acc.current
    → add_credential max raw c acc ≡ ok r
    → Each (IsSeed rest r.credentials) r.current
unfolding add_credential
add_credential-IsSeed max raw c rest acc fresh each h =
    let (named, body) = guard-ok _ _ _ h in
    let (n, normal, seeded) = >>=-eq-ok (normalized c) _ body in
    seed-IsSeed max raw n rest (record acc { credentials = insert raw n acc.credentials }) fresh
      (lookup_inserted raw n acc.credentials)
      (Each-map _ _ acc.current (IsSeed-step raw c n rest acc.credentials) each) seeded

pub add_credentials-IsSeed :
    (max : ℤ) (todo : Dict Text CredentialConfig) (acc : Seeded) {r : Seeded}
    → IsMap todo
    → Each (IsSeed todo acc.credentials) acc.current
    → add_credentials max todo acc ≡ ok r
    → Each (IsSeed [] r.credentials) r.current
unfolding add_credentials
add_credentials-IsSeed max [] acc {r} u each h =
    let same : acc ≡ r = ok-injective {E = ConfigError} acc r h in rw (sym same) each
add_credentials-IsSeed max ((raw, c) ∷ rest) acc u each h =
    let (next, added, done) = >>=-eq-ok (add_credential max raw c acc) _ h in
    add_credentials-IsSeed max rest next u.1
      (add_credential-IsSeed max raw c rest acc u.0 each added) done

reload-IsParsed :
    (max : ℤ) (values : Dict Text Text) (out : Dict Text StoredState)
    → Each (λ _ st. IsParsed st) out
    → Each (λ _ st. IsParsed st) (reload max values out)
unfolding reload
reload-IsParsed max [] out each = each
reload-IsParsed max ((key, value) ∷ rest) out each =
    elim (Bool-cases (text_beq key [] || not (text_beq key (trim key)))) [
      | inl h ↦ rw h (reload-IsParsed max rest out each)
      | inr h ↦ rw h (go (reload-IsParsed max rest) (parse_turn_state value max) refl)
    ]
  where
    go :
        ((next : Dict Text StoredState)
          → Each (λ _ st. IsParsed st) next
          → Each (λ _ st. IsParsed st) (reload max rest next))
        → (p : Result ParseError FernetInfo) → parse_turn_state value max ≡ p
        → Each
            (λ _ st. IsParsed st)
            (reload max rest (elim p [
              | err _ ↦ out
              | ok info ↦
                  insert key
                    (record { value = value; issued_at = info.issued_at; blocks = info.blocks })
                    out
            ]))
    go rest_parsed (err e) q = rest_parsed out each
    go rest_parsed (ok info) q = rest_parsed _ (
        Each-insert (λ _ st. IsParsed st) key _ out
          (record { limit = max; info = info; parses = q; issued = refl; counted = refl }) each)

read_contents-IsParsed :
    (file : StateFile) (max : ℤ) {d : Dict Text StoredState}
    → read_contents file max ≡ ok d
    → Each (λ _ st. IsParsed st) d
unfolding read_contents
read_contents-IsParsed missing max {d} h = rw (sym (ok-injective {E = LoadError} [] d h)) tt
read_contents-IsParsed unreadable max h = cc
read_contents-IsParsed oversized max h = cc
read_contents-IsParsed malformed max h = cc
read_contents-IsParsed (contents version values) max {d} h =
    elim (Bool-cases (int_beq version (pos 1))) [
      | inl e ↦ rw (sym (ok-injective {E = LoadError} [] d (rw e at h))) tt
      | inr e ↦
          let (known, loaded) = guard-ok _ _ _ (rw e at h) in
          rw (sym (ok-injective {E = LoadError} (reload max values []) d loaded))
            (reload-IsParsed max values [] tt)
    ]

-- Whatever the file says, the states that are read from it are what their values say.
pub load_persisted-IsParsed :
    (path : Text) (file : StateFile) (max : ℤ) {d : Dict Text StoredState}
    → load_persisted path file max ≡ ok d
    → Each (λ _ st. IsParsed st) d
unfolding load_persisted
load_persisted-IsParsed path file max {d} h = elim (Bool-cases (text_beq (trim path) [])) [
  | inl e ↦ rw (sym (ok-injective {E = LoadError} [] d (rw e at h))) tt
  | inr e ↦ read_contents-IsParsed file max (rw e at h)
]
