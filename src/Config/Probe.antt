-- ===== src/Config/Probe.antt =====
-- probe.go: `normalizeProbe`, and management.go: `proxySource`.
use cpa_codex_turn_state_plu.Base.{
  ℕ, ◌+◌, Bool, not, ◌||◌, none, some, List, [], ◌∷◌, ◌++◌, ltb, nat_beq, if◌then◌else◌, length,
  Text, text_beq, str, Result, ok, err,
}
use cpa_codex_turn_state_plu.Base.Int.{ℤ, pos, is_neg, less_than, more_than, int_beq}
use cpa_codex_turn_state_plu.Environment.{Environment, Url}
use cpa_codex_turn_state_plu.Text.{contains_any}
use cpa_codex_turn_state_plu.Config.{ProxyEndpoint, ProbeConfig}
use cpa_codex_turn_state_plu.Config.Endpoint.{ResolveError, resolve}

pub data ProbeError : Type 0 where
  quota_backoff_range invalid_limits pool_size not_one_source bad_connect_host : ProbeError
  unresolved : ResolveError → ProbeError

-- A number that was left out takes its default.
abbrev pub or_default : ℤ → ℕ → ℤ
or_default n d = if int_beq n (pos 0) then pos d else n

unfoldable pub with_defaults : ProbeConfig → ProbeConfig
with_defaults cfg = record cfg {
  timeout_seconds = or_default cfg.timeout_seconds 15;
  retry_seconds = or_default cfg.retry_seconds 60;
  refresh_before_seconds = or_default cfg.refresh_before_seconds 300;
  max_attempts = or_default cfg.max_attempts 1;
  quota_backoff_seconds = or_default cfg.quota_backoff_seconds 900;
}

-- the test behind "invalid probe limits"
unfoldable pub bad_limits : ProbeConfig → Bool
bad_limits cfg =
    less_than cfg.timeout_seconds 1
    || more_than cfg.timeout_seconds 180
    || less_than cfg.retry_seconds 1
    || is_neg cfg.refresh_before_seconds
    || not (less_than cfg.refresh_before_seconds 3600)
    || less_than cfg.max_attempts 1
    || more_than cfg.max_attempts 20

abbrev given : Text → ℕ
given t = if text_beq t [] then 0 else 1

unfoldable pub sources : ProxyEndpoint → ℕ
sources p = given p.url + given p.url_file + given p.url_env

unfoldable pub check_endpoint : Environment → ProxyEndpoint → Result ProbeError Url
unfolding sources
check_endpoint env p =
    if not (nat_beq (sources p) 1)
    then err not_one_source
    else if contains_any p.connect_host (str "\r\n")
    then err bad_connect_host
    else (elim (resolve env p) [ err e ↦ err (unresolved e) | ok u ↦ ok u ])

unfoldable pub check_endpoints :
    Environment → List ProxyEndpoint → ProbeConfig → Result ProbeError ProbeConfig
unfolding check_endpoint
check_endpoints env [] cfg = ok cfg
check_endpoints env (p ∷ ps) cfg = elim (check_endpoint env p) [
  | err e ↦ err e
  | ok _ ↦ check_endpoints env ps cfg
]

-- The pool and then the first hop.
unfoldable pub endpoints : ProbeConfig → List ProxyEndpoint
endpoints cfg = elim cfg.first_proxy [ none ↦ cfg.proxy_pool | some p ↦ cfg.proxy_pool ++ p ∷ [] ]

-- What is checked of the pool if probes are enabled.
unfoldable pub check_pool : Environment → ProbeConfig → Result ProbeError ProbeConfig
unfolding check_endpoints endpoints
check_pool env cfg =
    if nat_beq (length cfg.proxy_pool) 0 || ltb 100 (length cfg.proxy_pool)
    then err pool_size
    else check_endpoints env (endpoints cfg) cfg

unfoldable pub check_probe : Environment → ProbeConfig → Result ProbeError ProbeConfig
unfolding bad_limits check_pool
check_probe env cfg =
    if less_than cfg.quota_backoff_seconds 60 || more_than cfg.quota_backoff_seconds 86400
    then err quota_backoff_range
    else if bad_limits cfg
    then err invalid_limits
    else if not cfg.enabled
    then ok cfg
    else check_pool env cfg

-- `normalizeProbe`
unfoldable pub normalize_probe : Environment → ProbeConfig → Result ProbeError ProbeConfig
unfolding with_defaults check_probe
normalize_probe env cfg = check_probe env (with_defaults cfg)
