-- ===== src/System/Probes.antt =====
-- The sections of a probe keep the invariant.
use cpa_codex_turn_state_plu.Base.{
  ℕ, ◌-◌, ◌≤◌, ◌≡◌, refl, ◌∙◌, sym, ap, inl, inr, true, false, ◌&&◌, ◌||◌, Option, none, some, List,
  [], ◌∷◌, ◌++◌, nat_beq, length, length-drop, Bool-cases, Option-cases, Text, text_beq, text_eq,
  str, arith, guard-some, some-injective, and_then-some, ◌<◌, subst, nat_beq_iff,
}
use cpa_codex_turn_state_plu.Base.Dict.{insert, erase, Each-insert}
use cpa_codex_turn_state_plu.Clock.{Time}
use cpa_codex_turn_state_plu.Environment.{Environment}
use cpa_codex_turn_state_plu.Text.{contains}
use cpa_codex_turn_state_plu.Config.{PluginConfig, CredentialConfig}
use cpa_codex_turn_state_plu.Policy.{credential_for}
use cpa_codex_turn_state_plu.Keys.{state_key, split_state_key, split_state_key-state_key}
use cpa_codex_turn_state_plu.State.{RuntimeState, StoredState, HistoryEntry, flag_at}
use cpa_codex_turn_state_plu.History.{history_limit, newest, append_history}
use cpa_codex_turn_state_plu.Request.{usable_state}
use cpa_codex_turn_state_plu.Request.Usable.{Usable, usable_state-Usable}
use cpa_codex_turn_state_plu.Probe.{
  ProbeJob, probe_slots, probe_policy, holds_back, claim, begin_probe, attempt, note_result,
  is_promoted, promote_probed, probe_entry, promote_entry, close_probe, finish_probe,
  account_level_probe_failure, proxy_level_probe_failure,
}
use cpa_codex_turn_state_plu.System.Sound.{IsGenuine, IsSound}
use cpa_codex_turn_state_plu.System.Requests.{Usable-IsGenuine}

-- What a probe knows as long as its generation is the current one.
pub record IsCurrent (cfg : PluginConfig) (job : ProbeJob) : Type 0 where
  pub same_config : job.config ≡ cfg
  pub keyed : job.key ≡ state_key job.auth_id job.model
  pub configured : credential_for cfg job.auth_id ≡ some job.policy

newest-bounded : (es : List HistoryEntry) → length (newest es) ≤ history_limit
unfolding newest
newest-bounded es = ground (arith, length-drop (length es - history_limit) es)

-- Only the timeline changes, and stays within its bound.
pub append_history-IsSound :
    (s : RuntimeState) (entry : HistoryEntry) → IsSound s → IsSound (append_history s entry)
unfolding append_history
append_history-IsSound s entry v =
    elim (Bool-cases (text_beq entry.reason [] && text_beq entry.outcome [])) [
      | inl h ↦ rw h v
      | inr h ↦ rw h (record {
        genuine = v.genuine;
        staged = v.staged;
        named = v.named;
        bounded = newest-bounded (s.history ++ entry ∷ []);
      })
    ]

-- A probe that starts got past the guards, and has made its claim.
pub begin_probe-claim :
    (s : RuntimeState) (now : Time) (auth_id model : Text) {r : RuntimeState × ProbeJob}
    → begin_probe s now auth_id model ≡ some r
    → (policy : CredentialConfig) × (probe_policy s auth_id model ≡ some policy)
      × (holds_back s now auth_id (state_key auth_id model) ≡ false)
      × (claim s now auth_id model policy ≡ r)
unfolding begin_probe
begin_probe-claim s now auth_id model {r} h =
    let (policy, found, rest) = and_then-some (probe_policy s auth_id model) _ h in
    let (free, claimed) = guard-some _ _ rest in (policy, found, free, some-injective _ r claimed)

pub probe_policy-facts :
    (s : RuntimeState) (auth_id model : Text) {policy : CredentialConfig}
    → probe_policy s auth_id model ≡ some policy
    → (credential_for s.config auth_id ≡ some policy)
      × (s.accepting ≡ true)
      × (flag_at (state_key auth_id model) s.probing ≡ false)
      × (length s.probing < probe_slots)
unfolding probe_policy
probe_policy-facts s auth_id model {policy} h =
    let (p, found, rest) = and_then-some (credential_for s.config auth_id) _ h in
    let (guards, same) = guard-some _ _ rest in
    let p-policy : p ≡ policy = some-injective p policy same in
    (found ∙ ap some p-policy, ground arith, ground arith, ground arith)

claim-IsCurrent :
    (s : RuntimeState) (now : Time) (auth_id model : Text) (policy : CredentialConfig)
    → credential_for s.config auth_id ≡ some policy
    → IsCurrent s.config (claim s now auth_id model policy).1
unfolding claim
claim-IsCurrent s now auth_id model policy h = record {
  same_config = refl;
  keyed = refl;
  configured = h;
}

-- The start of a probe keeps the invariant, and the job knows its configuration.
pub begin_probe-IsSound :
    (s : RuntimeState) (now : Time) (auth_id model : Text) {r : RuntimeState × ProbeJob}
    → begin_probe s now auth_id model ≡ some r
    → IsSound s
    → IsSound r.0
      × IsCurrent s.config r.1
      × (r.1.generation ≡ s.generation)
      × (r.0.config ≡ s.config)
      × (r.0.generation ≡ s.generation)
unfolding claim
begin_probe-IsSound s now auth_id model h v =
    let (policy, found, free, claimed) = begin_probe-claim s now auth_id model h in
    rw (sym claimed) (
      v,
      claim-IsCurrent s now auth_id model policy (probe_policy-facts s auth_id model found).0,
      refl,
      refl,
      refl,
    )

-- An attempt changes only who is blocked.
pub attempt-IsSound :
    (s : RuntimeState) (job : ProbeJob) (index : ℕ) (at : Time) (value status : Text)
    → IsSound s
    → IsSound (attempt s job index at value status).0
      × ((attempt s job index at value status).0.config ≡ s.config)
      × ((attempt s job index at value status).0.generation ≡ s.generation)
unfolding attempt
attempt-IsSound s job index at value status v = elim (Bool-cases (text_beq status (str "ok"))) [
  | inl h ↦ elim (Option-cases (usable_state job.config job.policy job.started value)) [
    | inl e ↦ rw h (rw (e, attempt) (v, refl, refl))
    | inr (st, e) ↦ rw h (rw (e, attempt) (v, refl, refl))
  ]
  | inr h ↦ elim (Bool-cases (account_level_probe_failure status)) [
    | inl k ↦ rw (h, k) (v, refl, refl)
    | inr k ↦ elim (Bool-cases (proxy_level_probe_failure status)) [
      | inl l ↦ rw (h, k, l) (v, refl, refl)
      | inr l ↦ rw (h, k, l) (v, refl, refl)
    ]
  ]
]

note_result-IsSound :
    (s : RuntimeState) (job : ProbeJob) (now : Time) (outcome : Text)
    → IsSound s
    → IsSound (note_result s job now outcome)
unfolding note_result
note_result-IsSound s job now outcome v =
    elim (Bool-cases (
      contains outcome (str "usage_limit_reached")
      || contains outcome (str "insufficient_quota"))) [ inl h ↦ rw h v | inr h ↦ rw h v ]

note_result-config :
    (s : RuntimeState) (job : ProbeJob) (now : Time) (outcome : Text)
    → (note_result s job now outcome).config ≡ s.config
unfolding note_result
note_result-config s job now outcome =
    elim (Bool-cases (
      contains outcome (str "usage_limit_reached")
      || contains outcome (str "insufficient_quota"))) [ inl h ↦ rw h refl | inr h ↦ rw h refl ]

promote_probed-IsSound :
    (env : Environment) (s : RuntimeState) (job : ProbeJob) (now : Time) (outcome : Text)
    (st : StoredState)
    → IsGenuine s.config job.key st
    → IsSound s
    → IsSound (promote_probed env s job now outcome st)
unfolding promote_probed
promote_probed-IsSound env s job now outcome st g v =
    append_history-IsSound _ (promote_entry env job now st) (
      append_history-IsSound
        (record s {
          current = insert job.key st s.current;
          refresh_requests = erase job.key s.refresh_requests;
          blocked_until = erase job.key s.blocked_until;
        })
        (probe_entry env job now outcome)
        (record {
          genuine = Each-insert (IsGenuine s.config) job.key st s.current g v.genuine;
          staged = v.staged;
          named = v.named;
          bounded = v.bounded;
        }))

close_probe-IsSound :
    (env : Environment) (s : RuntimeState) (job : ProbeJob) (now : Time) (outcome : Text)
    (c : Option StoredState)
    → ((st : StoredState) → c ≡ some st → IsGenuine s.config job.key st)
    → IsSound s
    → IsSound (close_probe env s job now outcome c).0
unfolding close_probe
close_probe-IsSound env s job now outcome none g v =
    append_history-IsSound s (probe_entry env job now outcome) v
close_probe-IsSound env s job now outcome (some st) g v =
    elim (Bool-cases (is_promoted s job.key now st)) [
      | inl h ↦ rw h (promote_probed-IsSound env s job now outcome st (g st refl) v)
      | inr h ↦ rw h (append_history-IsSound s (probe_entry env job now outcome) v)
    ]

-- What a fetch delivered under the job's own configuration, at its start.
pub data Delivered (job : ProbeJob) : Option StoredState → Type 0 where
  nothing : Delivered job none
  accepted :
      (value : Text) {st : StoredState}
      → usable_state job.config job.policy job.started value ≡ some st
      → Delivered job (some st)

Delivered-IsGenuine :
    {cfg : PluginConfig} {job : ProbeJob} {c : Option StoredState}
    → IsCurrent cfg job
    → Delivered job c
    → (st : StoredState) → c ≡ some st
    → IsGenuine cfg job.key st
Delivered-IsGenuine cur nothing st e = cc
Delivered-IsGenuine {cfg} {job} cur (accepted value {st = x} h) st e =
    let u = (usable_state-Usable job.config job.policy job.started value h).0 in
    let same : x ≡ st = some-injective x st e in
    let named : (split_state_key job.key).0 ≡ job.auth_id =
      ap (λ k. (split_state_key k).0) cur.keyed
      ∙ ap (λ p. p.0) (split_state_key-state_key job.auth_id job.model) in
    rw (sym same) (
      Usable-IsGenuine cfg job.key {c = job.policy} {now = job.started}
        (ap (credential_for cfg) named ∙ cur.configured)
        (subst (λ c. Usable c job.policy job.started x) cur.same_config u))

-- The end of a probe keeps the invariant, whatever happened since its start.
pub finish_probe-IsSound :
    (env : Environment) (s : RuntimeState) (job : ProbeJob) (now : Time) (outcome : Text)
    {c : Option StoredState}
    → (job.generation ≡ s.generation → IsCurrent s.config job)
    → Delivered job c
    → IsSound s
    → IsSound (finish_probe env s job now outcome c).0
unfolding finish_probe
finish_probe-IsSound env s job now outcome {c} cur d v =
    elim (Bool-cases (nat_beq job.generation s.generation)) [
      | inr h ↦ rw h v
      | inl h ↦ rw h (
          close_probe-IsSound env (note_result s job now outcome) job now outcome c
            (λ st e.
              subst (λ c. IsGenuine c job.key st) (sym (note_result-config s job now outcome))
                (Delivered-IsGenuine (cur ((nat_beq_iff _ _).0 h)) d st e))
            (note_result-IsSound s job now outcome v))
    ]
