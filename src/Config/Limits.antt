-- ===== src/Config/Limits.antt =====
-- The limits of a probe configuration after `normalizeProbe`.
use cpa_codex_turn_state_plu.Base.{
  ℕ, ◌≤◌, ◌≡◌, refl, ◌∙◌, sym, ap, subst, ◌⊎◌, inl, inr, Bool, true, false, not, ◌||◌, List, [],
  ◌∷◌, ltb, nat_beq, length, if◌then◌else◌, arith, Result, ok, err, guard-ok, ok-injective,
}
use cpa_codex_turn_state_plu.Base.Int.{ℤ, pos, negsuc, is_neg, less_than, more_than}
use cpa_codex_turn_state_plu.Environment.{Environment, Url}
use cpa_codex_turn_state_plu.Config.{ProbeConfig, ProxyEndpoint}
use cpa_codex_turn_state_plu.Config.Probe.{
  ProbeError, with_defaults, or_default, bad_limits, check_endpoint, check_endpoints, endpoints,
  check_pool, check_probe, normalize_probe,
}

-- A number of the configuration within two bounds.
abbrev pub Within : ℕ → ℕ → ℤ → Type 0
Within low high (pos n) = (low ≤ n) × (n ≤ high)
Within low high (negsuc n) = ⊥

pub record IsLimited (cfg : ProbeConfig) : Type 0 where
  pub timeout : Within 1 180 cfg.timeout_seconds
  pub retry : less_than cfg.retry_seconds 1 ≡ false
  pub margin : Within 0 3599 cfg.refresh_before_seconds
  pub attempts : Within 1 20 cfg.max_attempts
  pub backoff : Within 60 86400 cfg.quota_backoff_seconds
  pub pool : (cfg.enabled ≡ false) ⊎ ((1 ≤ length cfg.proxy_pool) × (length cfg.proxy_pool ≤ 100))

within : (low high : ℕ) (z : ℤ) → less_than z low || more_than z high ≡ false → Within low high z
within low high (pos n) h = ground (arith, h)
within low high (negsuc n) h = absurd (ground (arith, h))

check_endpoints_id :
    (env : Environment) (ps : List ProxyEndpoint) (cfg : ProbeConfig) {r : ProbeConfig}
    → check_endpoints env ps cfg ≡ ok r
    → cfg ≡ r
unfolding check_endpoints
check_endpoints_id env [] cfg {r} h = ok-injective {E = ProbeError} cfg r h
check_endpoints_id env (p ∷ ps) cfg {r} h =
    go (check_endpoint env p) (check_endpoints_id env ps cfg) h
  where
    go :
        (c : Result ProbeError Url)
        → (check_endpoints env ps cfg ≡ ok r → cfg ≡ r)
        → (elim c [ err e ↦ err e | ok _ ↦ check_endpoints env ps cfg ]) ≡ ok r
        → cfg ≡ r
    go (err e) rest k = cc
    go (ok u) rest k = rest k

-- Whether the probes are enabled decides what else is checked.
probing :
    (on : Bool) (cfg : ProbeConfig) (m : Result ProbeError ProbeConfig) {r : ProbeConfig}
    → (if not on then ok cfg else m) ≡ ok r
    → ((on ≡ false) × (cfg ≡ r)) ⊎ ((on ≡ true) × (m ≡ ok r))
probing true cfg m h = inr (refl, h)
probing false cfg m {r} h = inl (refl, ok-injective {E = ProbeError} cfg r h)

check_probe-IsLimited :
    (env : Environment) (cfg : ProbeConfig) {r : ProbeConfig}
    → check_probe env cfg ≡ ok r
    → IsLimited cfg × (cfg ≡ r)
unfolding check_probe check_pool bad_limits
check_probe-IsLimited env cfg {r} h =
    let (backoff, a) = guard-ok _ _ _ h in
    let (limits, b) = guard-ok (bad_limits cfg) ProbeError.invalid_limits _ a in
    let pooled : ((cfg.enabled ≡ false)
          ⊎ ((1 ≤ length cfg.proxy_pool) × (length cfg.proxy_pool ≤ 100)))
        × (cfg ≡ r) =
      elim (probing cfg.enabled cfg (check_pool env cfg) b) [
        | inl (off, same) ↦ (inl off, same)
        | inr (on, rest) ↦
            let (size, c) =
              guard-ok (nat_beq (length cfg.proxy_pool) 0 || ltb 100 (length cfg.proxy_pool))
                ProbeError.pool_size (check_endpoints env (endpoints cfg) cfg) rest in
            (inr (ground (arith, size)), check_endpoints_id env (endpoints cfg) cfg c)
      ] in
    (
      record {
        timeout = within 1 180 cfg.timeout_seconds (ground (arith, limits));
        retry = ground (arith, limits);
        margin =
            margin cfg.refresh_before_seconds (ground (arith, limits)) (ground (arith, limits));
        attempts = within 1 20 cfg.max_attempts (ground (arith, limits));
        backoff = within 60 86400 cfg.quota_backoff_seconds backoff;
        pool = pooled.0;
      },
      pooled.1,
    )
  where
    margin : (z : ℤ) → is_neg z ≡ false → less_than z 3600 ≡ true → Within 0 3599 z
    margin (ℤ.pos n) h k = ground (arith, k)
    margin (ℤ.negsuc n) h k = cc

-- A probe configuration that is accepted keeps to its limits: the timeout is 1 to 180 seconds, the
-- retry at least one second, the refresh margin below an hour, the attempts 1 to 20, the backoff a
-- minute to a day, and, if probes are enabled, the pool has 1 to 100 entries.
pub normalize_probe-IsLimited :
    (env : Environment) (cfg : ProbeConfig) {r : ProbeConfig}
    → normalize_probe env cfg ≡ ok r
    → IsLimited r
unfolding normalize_probe
normalize_probe-IsLimited env cfg h =
    let (limited, same) = check_probe-IsLimited env (with_defaults cfg) h in
    subst IsLimited same limited

or_default_idem : (z : ℤ) (d : ℕ) → or_default (or_default z d) d ≡ or_default z d
or_default_idem (pos n) d = ground arith
or_default_idem (negsuc n) d = refl

with_defaults_idem : (cfg : ProbeConfig) → with_defaults (with_defaults cfg) ≡ with_defaults cfg
unfolding with_defaults
with_defaults_idem cfg = rw (
  or_default_idem cfg.timeout_seconds 15,
  or_default_idem cfg.retry_seconds 60,
  or_default_idem cfg.refresh_before_seconds 300,
  or_default_idem cfg.max_attempts 1,
  or_default_idem cfg.quota_backoff_seconds 900,
)

-- A probe configuration that is accepted is accepted again, and comes back as it is.
normalize_probe_idem :
    (env : Environment) (cfg : ProbeConfig) {r : ProbeConfig}
    → normalize_probe env cfg ≡ ok r
    → normalize_probe env r ≡ ok r
unfolding normalize_probe
normalize_probe_idem env cfg {r} h =
    let same = (check_probe-IsLimited env (with_defaults cfg) h).1 in
    rw (sym same) (ap (check_probe env) (with_defaults_idem cfg) ∙ h ∙ ap ok (sym same))
