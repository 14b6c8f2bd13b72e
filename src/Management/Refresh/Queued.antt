-- ===== src/Management/Refresh/Queued.antt =====
-- What `refreshAction` queues, and that the worker takes it up.
use cpa_codex_turn_state_plu.Base.{
  ◌+◌, ◌≤◌, ◌≡◌, ◌∙◌, refl, sym, ap, subst, inl, inr, Bool, true, false, not, ◌&&◌, ◌||◌, Option,
  none, some, get_or, List, [], ◌∷◌, if◌then◌else◌, Bool-cases, Text, text_beq, text_beq_iff,
  text_eq, str, arith, ok, guard-ok, ok-injective,
}
use cpa_codex_turn_state_plu.Base.Dict.{Dict, keys, lookup, lookup-insert}
use cpa_codex_turn_state_plu.Base.Sets.{member}
use cpa_codex_turn_state_plu.Clock.{Time, seconds}
use cpa_codex_turn_state_plu.Environment.{Environment}
use cpa_codex_turn_state_plu.Config.{CredentialConfig}
use cpa_codex_turn_state_plu.Policy.{credential_for, auto_update_enabled, matches_models}
use cpa_codex_turn_state_plu.Keys.{split_state_key}
use cpa_codex_turn_state_plu.State.{RuntimeState, text_at, time_at, flag_at}
use cpa_codex_turn_state_plu.History.{append_history}
use cpa_codex_turn_state_plu.Refresh.{next_refresh, first_due, after_cooldown}
use cpa_codex_turn_state_plu.Refresh.Worker.{due_jobs}
use cpa_codex_turn_state_plu.Refresh.Worker.Due.{job_keys, due_jobs-exact}
use cpa_codex_turn_state_plu.Management.Selection.{Selection, selection, selects}
use cpa_codex_turn_state_plu.Management.Refresh.{
  RefreshRequest, RefreshError, RefreshResult, Ruling, passed_over, skipped, queued, judge, judged,
  ruling, known_keys, noted, review, mark_manual, refresh_section, refresh_action,
}

-- What holds of a key that is queued.
pub record IsQueueable (s : RuntimeState) (now : Time) (key : Text) : Type 0 where
  pub policy : CredentialConfig
  pub configured : credential_for s.config (split_state_key key).0 ≡ some policy
  pub updated : auto_update_enabled s.config policy ≡ true
  pub in_scope : matches_models policy.models ((split_state_key key).1 ∷ []) ≡ true
  pub idle : flag_at key s.probing ≡ false
  pub unblocked : time_at key s.blocked_until ≤ now
  pub cooled : time_at key s.last_probe + seconds s.config.probe.retry_seconds ≤ now

judge-queued :
    (s : RuntimeState) (now : Time) (key : Text) (policy : CredentialConfig)
    → credential_for s.config (split_state_key key).0 ≡ some policy
    → judge s now key policy ≡ queued
    → IsQueueable s now key
unfolding judge
judge-queued s now key policy found h = record {
  policy = policy;
  configured = found;
  updated = ground (arith, h);
  in_scope = ground (arith, h);
  idle = ground (arith, h);
  unblocked = ground (arith, h);
  cooled = ground (arith, h);
}

judged-queued :
    (env : Environment) (s : RuntimeState) (now : Time) (all : Bool) (sel : Selection) (key : Text)
    (o : Option CredentialConfig)
    → credential_for s.config (split_state_key key).0 ≡ o
    → judged env s now all sel key o ≡ queued
    → IsQueueable s now key × (all || selects env sel key ≡ true)
unfolding judged
judged-queued env s now all sel key none e h = cc
judged-queued env s now all sel key (some policy) e h =
    elim (Bool-cases (not all && not (selects env sel key))) [
      | inl k ↦ absurd (passed_over_not_queued (rw k at h))
      | inr k ↦ (judge-queued s now key policy e (rw k at h), ground (arith, k))
    ]
  where
    passed_over_not_queued : ¬ (passed_over ≡ queued)
    passed_over_not_queued h = cc

ruling-queued :
    (env : Environment) (s : RuntimeState) (now : Time) (all : Bool) (sel : Selection) (key : Text)
    → ruling env s now all sel key ≡ queued
    → IsQueueable s now key × (all || selects env sel key ≡ true)
unfolding ruling
ruling-queued env s now all sel key h =
    elim (Bool-cases (text_beq (split_state_key key).0 [] || text_beq (split_state_key key).1 [])) [
      | inl k ↦ absurd (passed_over_not_queued (rw k at h))
      | inr k ↦
          judged-queued env s now all sel key (credential_for s.config (split_state_key key).0) refl
            (rw k at h)
    ]
  where
    passed_over_not_queued : ¬ (passed_over ≡ queued)
    passed_over_not_queued h = cc

review-queued :
    (env : Environment) (s : RuntimeState) (now : Time) (all : Bool) (sel : Selection) (key : Text)
    (ks : List Text)
    → member key (review env s now all sel ks).queued_keys ≡ true
    → ruling env s now all sel key ≡ queued
unfolding review noted
review-queued env s now all sel key [] h = cc
review-queued env s now all sel key (k ∷ ks) h =
    go (ruling env s now all sel k) refl (review-queued env s now all sel key ks) h
  where
    go :
        (v : Ruling)
        → ruling env s now all sel k ≡ v
        → (member key (review env s now all sel ks).queued_keys ≡ true
            → ruling env s now all sel key ≡ queued)
        → member key (noted env k v (review env s now all sel ks)).queued_keys ≡ true
        → ruling env s now all sel key ≡ queued
    go passed_over e rest m = rest m
    go (skipped reason) e rest m = rest m
    go queued e rest m = elim (Bool-cases (text_beq k key)) [
      | inl same ↦ rw (sym ((text_beq_iff k key).0 same)) e
      | inr other ↦ rest (ground (arith, m, other))
    ]

-- The reasons after the marks.
mark_manual-reasons :
    (ks : List Text) (s : RuntimeState) (key : Text)
    → lookup key (mark_manual ks s).refresh_requests
      ≡ (if member key ks then some (str "manual") else lookup key s.refresh_requests)
unfolding mark_manual
mark_manual-reasons [] s key = refl
mark_manual-reasons (k ∷ ks) s key =
    lookup-insert k key (str "manual") (mark_manual ks s).refresh_requests
    ∙ ground (arith, mark_manual-reasons ks s key)

-- What the marks leave alone.
mark_manual-rest :
    (ks : List Text) (s : RuntimeState)
    → ((mark_manual ks s).config ≡ s.config)
      × ((mark_manual ks s).current ≡ s.current)
      × ((mark_manual ks s).last_probe ≡ s.last_probe)
      × ((mark_manual ks s).blocked_until ≡ s.blocked_until)
unfolding mark_manual
mark_manual-rest [] s = (refl, refl, refl, refl)
mark_manual-rest (k ∷ ks) s = mark_manual-rest ks s

-- A key with a reason, free of backoff and cooldown, is due.
due_now :
    (t : RuntimeState) (now : Time) (key : Text)
    → text_beq (text_at key t.refresh_requests) [] ≡ false
    → time_at key t.blocked_until ≤ now
    → time_at key t.last_probe + seconds t.config.probe.retry_seconds ≤ now
    → next_refresh t now key ≤ now
unfolding next_refresh first_due after_cooldown
due_now t now key reason free cooled = ground (arith, reason, free, cooled)

-- The section marks the queued keys, and beyond that writes only the timeline and the wake.
section-marks :
    (env : Environment) (s : RuntimeState) (now : Time) (all : Bool) (sel : Selection)
    → (let r = refresh_section env s now all sel in
        let marked = mark_manual r.1.queued_keys s in
        (r.0.refresh_requests ≡ marked.refresh_requests)
        × (r.0.config ≡ s.config)
        × (r.0.last_probe ≡ s.last_probe)
        × (r.0.blocked_until ≡ s.blocked_until)
        × (r.0.current ≡ s.current)
        × (r.1 ≡ review env s now all sel (known_keys s)))
unfolding refresh_section append_history
section-marks env s now all sel =
    let ks = (review env s now all sel (known_keys s)).queued_keys in
    let (c, d, l, b) = mark_manual-rest ks s in
    (ground arith, ground (arith, c), ground (arith, l), ground (arith, b), ground (arith, d), refl)

-- What became of a key that `refreshAction` queued.
pub record IsTakenUp (env : Environment) (s t : RuntimeState) (now : Time) (req : RefreshRequest)
    (key : Text) : Type 0 where
  pub named : req.all || selects env (selection req.accounts req.models req.handles) key ≡ true
  pub queueable : IsQueueable s now key
  pub manual : text_at key t.refresh_requests ≡ str "manual"
  pub due : next_refresh t now key ≤ now
  pub picked : member key (job_keys (due_jobs t now)) ≡ true

text_at-some :
    (key value : Text) (d : Dict Text Text) → lookup key d ≡ some value → text_at key d ≡ value
text_at-some key value d h = ap (λ o. get_or o []) h

requested :
    (key value : Text) (d : Dict Text Text) → lookup key d ≡ some value → member key (keys d) ≡ true
unfolding lookup
requested key value [] h = cc
requested key value ((j, w) ∷ d) h = elim (Bool-cases (text_beq j key)) [
  | inl e ↦ ground (arith, e)
  | inr e ↦ ground (arith, e, requested key value d (rw e at h))
]

section-IsTakenUp :
    (env : Environment) (s : RuntimeState) (now : Time) (req : RefreshRequest) (key : Text)
    → (let r = refresh_section env s now req.all (selection req.accounts req.models req.handles) in
        member key r.1.queued_keys ≡ true → IsTakenUp env s r.0 now req key)
section-IsTakenUp env s now req key h =
    let sel = selection req.accounts req.models req.handles in
    let t = (refresh_section env s now req.all sel).0 in
    let ks = (review env s now req.all sel (known_keys s)).queued_keys in
    let (reasons, c, l, b, d, same) = section-marks env s now req.all sel in
    let there : member key ks ≡ true =
      ap (λ (x : RefreshResult). member key x.queued_keys) (sym same) ∙ h in
    let (free, named) =
      ruling-queued env s now req.all sel key
        (review-queued env s now req.all sel key (known_keys s) there) in
    let reason : lookup key t.refresh_requests ≡ some (str "manual") =
      ap (lookup key) reasons
      ∙ ap (λ (x : RefreshResult). lookup key (mark_manual x.queued_keys s).refresh_requests) same
      ∙ mark_manual-reasons ks s key
      ∙ ap (λ x. if x then some (str "manual") else lookup key s.refresh_requests) there in
    let manual = text_at-some key (str "manual") t.refresh_requests reason in
    let due : next_refresh t now key ≤ now =
      due_now t now key (ap (λ w. text_beq w []) manual)
        (subst (λ x. time_at key x ≤ now) (sym b) free.unblocked) (rw (c, l) free.cooled) in
    record {
      named = named;
      queueable = free;
      manual = manual;
      due = due;
      picked =
          due_jobs-exact t now key
          ∙ ground (arith, due, requested key (str "manual") t.refresh_requests reason);
    }

-- Each key that a manual refresh queues was named, has a policy with updates that covers its model, is
-- not probed, not in backoff and cooled down; afterwards its reason is "manual", it is due, and a round
-- of the worker at this time takes it up.
pub refresh_action-IsTakenUp :
    (env : Environment) (s : RuntimeState) (now : Time) (req : RefreshRequest) (key : Text)
    {r : RuntimeState × RefreshResult}
    → refresh_action env s now (some req) ≡ ok r
    → member key r.1.queued_keys ≡ true
    → IsTakenUp env s r.0 now req key
unfolding refresh_action
refresh_action-IsTakenUp env s now req key {r} h m =
    let (accepting, a) = guard-ok (not s.accepting) RefreshError.quiesced _ h in
    let (enabled, b) = guard-ok (not s.config.probe.enabled) RefreshError.probe_disabled _ a in
    let same = ok-injective {E = RefreshError} _ r b in
    subst (λ x. member key x.1.queued_keys ≡ true → IsTakenUp env s x.0 now req key) same
      (section-IsTakenUp env s now req key) m
