-- ===== src/System/Configured.antt =====
-- A configuration that is installed, a stop and a start keep the invariant.
use cpa_codex_turn_state_plu.Base.{
  ℕ, ◌+◌, ◌≡◌, refl, sym, inl, inr, Bool, true, false, ◌&&◌, [], ◌∷◌, ltb, if◌then◌else◌,
  Bool-cases, Option-cases, Text, text_eq, arith, Result, ok, err, >>=-eq-ok, guard-ok,
  ok-injective,
}
use cpa_codex_turn_state_plu.Base.Dict.{Dict, insert, Each, Each-map, Each-insert}
use cpa_codex_turn_state_plu.Environment.{Environment}
use cpa_codex_turn_state_plu.Config.{PluginConfig}
use cpa_codex_turn_state_plu.Policy.{credential_for}
use cpa_codex_turn_state_plu.Keys.{split_state_key}
use cpa_codex_turn_state_plu.State.{RuntimeState, StoredState, stored_at}
use cpa_codex_turn_state_plu.Request.{improves}
use cpa_codex_turn_state_plu.Lifecycle.{
  Document, ConfigError, Seeded, add_credentials, is_admitted, merge_persisted, preserve, install,
  check_config, loaded, with_seeds, with_config, prepare, configure, set_accepting, shutdown,
}
use cpa_codex_turn_state_plu.Lifecycle.Persisted.{StateFile, LoadError, load_persisted}
use cpa_codex_turn_state_plu.System.Sound.{IsGenuine, IsSound}
use cpa_codex_turn_state_plu.System.Seeds.{
  IsParsed, IsMap, IsSeed, add_credentials-IsSeed, load_persisted-IsParsed,
}

seeded-IsGenuine :
    (cfg : PluginConfig) (key : Text) (st : StoredState)
    → IsSeed [] cfg.credentials key st
    → IsGenuine cfg key st
unfolding credential_for
seeded-IsGenuine cfg key st h = record {
  policy = h.policy;
  configured = rw (h.configured, credential_for);
  normal = h.normal;
  limit = h.parsed.limit;
  info = h.parsed.info;
  parses = h.parsed.parses;
  issued = h.parsed.issued;
  counted = h.parsed.counted;
}

-- A state that is admitted, and is what its value says, is genuine.
admitted-IsGenuine :
    (cfg : PluginConfig) (key : Text) (st : StoredState)
    → is_admitted cfg key st ≡ true
    → IsParsed st
    → IsGenuine cfg key st
unfolding is_admitted
admitted-IsGenuine cfg key st h p =
    elim (Option-cases (credential_for cfg (split_state_key key).0)) [
      | inl e ↦ absurd (ground (arith, h, e))
      | inr (policy, e) ↦ record {
        policy = policy;
        configured = e;
        normal = ground (arith, h, e);
        limit = p.limit;
        info = p.info;
        parses = p.parses;
        issued = p.issued;
        counted = p.counted;
      }
    ]

genuine-IsParsed :
    (cfg : PluginConfig) (key : Text) (st : StoredState) → IsGenuine cfg key st → IsParsed st
genuine-IsParsed cfg key st g = record {
  limit = g.limit;
  info = g.info;
  parses = g.parses;
  issued = g.issued;
  counted = g.counted;
}

-- What both merges do with one state.
merged_one :
    (cfg : PluginConfig) (key : Text) (st : StoredState) (newer : Bool)
    (current : Dict Text StoredState)
    → IsParsed st
    → Each (IsGenuine cfg) current
    → Each
        (IsGenuine cfg)
        (if is_admitted cfg key st && newer then insert key st current else current)
merged_one cfg key st newer current p each = elim (Bool-cases (is_admitted cfg key st && newer)) [
  | inl h ↦ rw h (
      Each-insert (IsGenuine cfg) key st current
        (admitted-IsGenuine cfg key st (ground (arith, h)) p) each)
  | inr h ↦ rw h each
]

merge_persisted-Each :
    (cfg : PluginConfig) (d current : Dict Text StoredState)
    → Each (λ _ st. IsParsed st) d
    → Each (IsGenuine cfg) current
    → Each (IsGenuine cfg) (merge_persisted cfg d current)
unfolding merge_persisted
merge_persisted-Each cfg [] current p each = each
merge_persisted-Each cfg ((key, st) ∷ rest) current p each =
    merge_persisted-Each cfg rest _ p.1
      (merged_one cfg key st (improves current key st) current p.0 each)

preserve-Each :
    (cfg : PluginConfig) (d current : Dict Text StoredState)
    → Each (λ _ st. IsParsed st) d
    → Each (IsGenuine cfg) current
    → Each (IsGenuine cfg) (preserve cfg d current)
unfolding preserve
preserve-Each cfg [] current p each = each
preserve-Each cfg ((key, st) ∷ rest) current p each =
    preserve-Each cfg rest _ p.1
      (merged_one cfg key st (ltb (stored_at key current).issued_at st.issued_at) current p.0 each)

-- The credentials of a document, once it is checked, form a map.
abbrev pub IsDocument : Environment → Document → Type 0
IsDocument env doc = (cfg : PluginConfig) → check_config env doc ≡ ok cfg → IsMap cfg.credentials

loaded-IsParsed :
    (cfg : PluginConfig) (file : StateFile) {d : Dict Text StoredState}
    → loaded cfg file ≡ ok d
    → Each (λ _ st. IsParsed st) d
unfolding loaded
loaded-IsParsed cfg file {d} h = go (load_persisted cfg.state_file file cfg.max_state_bytes) refl h
  where
    go :
        (r : Result LoadError (Dict Text StoredState))
        → load_persisted cfg.state_file file cfg.max_state_bytes ≡ r
        → (elim r [ err e ↦ err (ConfigError.bad_file e) | ok d ↦ ok d ]) ≡ ok d
        → Each (λ _ st. IsParsed st) d
    go (err e) q k = cc
    go (ok x) q k =
        rw (sym (ok-injective {E = ConfigError} x d k))
          (load_persisted-IsParsed cfg.state_file file cfg.max_state_bytes q)

with_seeds-Each :
    (cfg : PluginConfig) (file : StateFile) (seeded : Seeded)
    {p : PluginConfig × Dict Text StoredState}
    → Each (IsSeed [] seeded.credentials) seeded.current
    → with_seeds cfg file seeded ≡ ok p
    → Each (IsGenuine p.0) p.1
unfolding with_seeds
with_seeds-Each cfg file seeded {p} each h =
    let full : PluginConfig = record cfg { credentials = seeded.credentials } in
    let (persisted, read, same) = >>=-eq-ok (loaded full file) _ h in
    rw
      (sym (
        ok-injective {E = ConfigError} (full, merge_persisted full persisted seeded.current) p
          same))
      (merge_persisted-Each full persisted seeded.current (loaded-IsParsed full file read) (
        Each-map (IsSeed [] seeded.credentials) (IsGenuine full) seeded.current
          (seeded-IsGenuine full) each))

with_config-Each :
    (file : StateFile) (cfg : PluginConfig) {p : PluginConfig × Dict Text StoredState}
    → IsMap cfg.credentials
    → with_config file cfg ≡ ok p
    → Each (IsGenuine p.0) p.1
unfolding with_config
with_config-Each file cfg u h =
    let start : Seeded = record { credentials = cfg.credentials; current = [] } in
    let (seeded, added, rest) =
      >>=-eq-ok (add_credentials cfg.max_state_bytes cfg.credentials start) _ h in
    with_seeds-Each cfg file seeded
      (add_credentials-IsSeed cfg.max_state_bytes cfg.credentials start u tt added) rest

install-IsSound :
    (s : RuntimeState) (cfg : PluginConfig) (current : Dict Text StoredState)
    → Each (IsGenuine cfg) current
    → IsSound s
    → IsSound (install s cfg current)
unfolding install
install-IsSound s cfg current each v = record {
  genuine =
      preserve-Each cfg s.current current
        (Each-map (IsGenuine s.config) (λ _ st. IsParsed st) s.current (genuine-IsParsed s.config)
          v.genuine)
        each;
  staged = tt;
  named = tt;
  bounded = v.bounded;
}

-- A successful `configure` prepared a configuration of a high enough schema, and installed it.
pub configure-install :
    (env : Environment) (s : RuntimeState) (schema : ℕ) (doc : Document) (file : StateFile)
    {r : RuntimeState}
    → configure env s schema doc file ≡ ok r
    → (p : PluginConfig × Dict Text StoredState) × (prepare env doc file ≡ ok p)
      × (install s p.0 p.1 ≡ r)
unfolding configure
configure-install env s schema doc file {r} h =
    let (recent, rest) = guard-ok _ _ _ h in
    let (p, prepared, same) = >>=-eq-ok (prepare env doc file) _ rest in
    (p, prepared, ok-injective {E = ConfigError} (install s p.0 p.1) r same)

pub configure-IsSound :
    (env : Environment) (s : RuntimeState) (schema : ℕ) (doc : Document) (file : StateFile)
    {r : RuntimeState}
    → IsDocument env doc
    → configure env s schema doc file ≡ ok r
    → IsSound s
    → IsSound r × (r.generation ≡ s.generation + 1)
unfolding prepare install
configure-IsSound env s schema doc file u h v =
    let (p, prepared, same) = configure-install env s schema doc file h in
    let (cfg, checked, rest) = >>=-eq-ok (check_config env doc) _ prepared in
    rw (sym same)
      (install-IsSound s p.0 p.1 (with_config-Each file cfg (u cfg checked) rest) v, refl)

pub set_accepting-IsSound :
    (s : RuntimeState) (on : Bool) → IsSound s → IsSound (set_accepting s on)
unfolding set_accepting
set_accepting-IsSound s true v = v
set_accepting-IsSound s false v = v

pub shutdown-IsSound : (s : RuntimeState) → IsSound s → IsSound (shutdown s)
unfolding shutdown set_accepting
shutdown-IsSound s v = record { genuine = v.genuine; staged = tt; named = tt; bounded = v.bounded }

pub install-generation :
    (s : RuntimeState) (cfg : PluginConfig) (current : Dict Text StoredState)
    → (install s cfg current).generation ≡ s.generation + 1
unfolding install
install-generation s cfg current = refl
