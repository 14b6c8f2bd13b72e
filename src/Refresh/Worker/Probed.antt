-- ===== src/Refresh/Worker/Probed.antt =====
-- The worker comes to every key that is due, in the order of the times.
use cpa_codex_turn_state_plu.Base.{
  ℕ, suc, ◌≡◌, ◌≤◌, ◌∙◌, refl, ap, subst, inl, inr, Bool, true, false, ◌||◌, List, [], ◌∷◌, ◌++◌,
  Bool-cases, All, Text, text_beq, text_eq, arith, if◌then◌else◌,
}
use cpa_codex_turn_state_plu.Base.Dict.{keys}
use cpa_codex_turn_state_plu.Base.Sets.{member}
use cpa_codex_turn_state_plu.Clock.{Time}
use cpa_codex_turn_state_plu.Text.{trim}
use cpa_codex_turn_state_plu.Keys.{state_key, split_state_key, split_state_key-state_key}
use cpa_codex_turn_state_plu.State.{RuntimeState}
use cpa_codex_turn_state_plu.Refresh.{next_refresh}
use cpa_codex_turn_state_plu.Refresh.Worker.{Job, due_jobs, run_jobs, refresh_due}
use cpa_codex_turn_state_plu.Refresh.Worker.Due.{job_keys, due_jobs-exact}
use cpa_codex_turn_state_plu.Refresh.Worker.Ordered.{
  IsByDue, due_jobs-IsByDue, due_jobs-due, member-IsAt, IsByDue-around,
}

-- The credentials and models that the jobs name, where there are both.
unfoldable pub asks : List Job → List (Text × Text)
asks [] = []
asks (job ∷ rest) =
    let named = split_state_key job.key in
    if text_beq named.0 [] || text_beq named.1 [] then asks rest else named ∷ asks rest

-- One probe after the other.
unfoldable pub run_all :
    (RuntimeState → Text → Text → RuntimeState) → List (Text × Text) → RuntimeState → RuntimeState
run_all probe [] s = s
run_all probe ((auth_id, model) ∷ rest) s = run_all probe rest (probe s auth_id model)

run_all-append :
    (probe : RuntimeState → Text → Text → RuntimeState) (ps qs : List (Text × Text))
    (s : RuntimeState)
    → run_all probe (ps ++ qs) s ≡ run_all probe qs (run_all probe ps s)
unfolding run_all
run_all-append probe [] qs s = refl
run_all-append probe ((a, m) ∷ ps) qs s = run_all-append probe ps qs (probe s a m)

asks-append : (js ks : List Job) → asks (js ++ ks) ≡ asks js ++ asks ks
unfolding asks
asks-append [] ks = refl
asks-append (j ∷ js) ks =
    let named = split_state_key j.key in
    elim (Bool-cases (text_beq named.0 [] || text_beq named.1 [])) [
      | inl e ↦ rw e (asks-append js ks)
      | inr e ↦ rw e (ap (λ l. named ∷ l) (asks-append js ks))
    ]

run_jobs-run_all :
    (probe : RuntimeState → Text → Text → RuntimeState) (alive : ℕ → Bool) (n : ℕ) (js : List Job)
    (s : RuntimeState)
    → ((i : ℕ) → alive i ≡ true)
    → run_jobs probe alive n js s ≡ run_all probe (asks js) s
unfolding run_jobs run_all asks
run_jobs-run_all probe alive n [] s on = refl
run_jobs-run_all probe alive n (j ∷ js) s on =
    let named = split_state_key j.key in
    elim (Bool-cases (text_beq named.0 [])) [
      | inl a ↦ rw (on n, a) (run_jobs-run_all probe alive (suc n) js s on)
      | inr a ↦ elim (Bool-cases (text_beq named.1 [])) [
        | inl m ↦ rw (on n, a, m) (run_jobs-run_all probe alive (suc n) js s on)
        | inr m ↦
            rw (on n, a, m) (run_jobs-run_all probe alive (suc n) js (probe s named.0 named.1) on)
      ]
    ]

All-both :
    (P Q R : Job → Type 0) (js : List Job)
    → ((j : Job) → P j → Q j → R j)
    → All P js
    → All Q js
    → All R js
All-both P Q R [] f p q = tt
All-both P Q R (j ∷ js) f p q = (f j p.0 q.0, All-both P Q R js f p.1 q.1)

All-parts :
    (P : Job → Type 0) (before after : List Job)
    → All P (before ++ after)
    → All P before × All P after
All-parts P [] after h = (tt, h)
All-parts P (j ∷ js) after h = let rest = All-parts P js after h.1 in ((h.0, rest.0), rest.1)

-- The worker probed this credential and model, between the jobs that are due earlier and those that
-- are due later.
pub record IsProbed (probe : RuntimeState → Text → Text → RuntimeState) (s t : RuntimeState)
    (now : Time) (auth_id model : Text) : Type 0 where
  pub earlier : List Job
  pub later : List Job
  pub ran :
      t ≡ run_all probe (asks later) (probe (run_all probe (asks earlier) s) auth_id (trim model))
  pub before :
      All (λ j. next_refresh s now j.key ≤ next_refresh s now (state_key auth_id model)) earlier
  pub after :
      All (λ j. next_refresh s now (state_key auth_id model) ≤ next_refresh s now j.key) later

asks-named :
    (job : Job) (js : List Job) (auth_id model : Text)
    → job.key ≡ state_key auth_id model
    → text_beq auth_id [] ≡ false
    → text_beq (trim model) [] ≡ false
    → asks (job ∷ js) ≡ (auth_id, trim model) ∷ asks js
unfolding asks
asks-named job js auth_id model same a m =
    rw (asks, same, split_state_key-state_key auth_id model, a, m) refl

-- While the worker is not cancelled, a round of it comes to the probe of every credential and model
-- whose key has a state or a queued refresh and is due, after the probes of what is due before it and
-- before the probes of what is due later.
pub refresh_due-IsProbed :
    (probe : RuntimeState → Text → Text → RuntimeState) (alive : ℕ → Bool) (s : RuntimeState)
    (now : Time) (auth_id model : Text)
    → ((n : ℕ) → alive n ≡ true)
    → text_beq auth_id [] ≡ false
    → text_beq (trim model) [] ≡ false
    → (member (state_key auth_id model) (keys s.current)
        || member (state_key auth_id model) (keys s.refresh_requests))
      ≡ true
    → next_refresh s now (state_key auth_id model) ≤ now
    → IsProbed probe s (refresh_due probe alive s now) now auth_id model
unfolding refresh_due run_all
refresh_due-IsProbed probe alive s now auth_id model on a m watched due =
    let key = state_key auth_id model in
    let found : member key (job_keys (due_jobs s now)) ≡ true =
      due_jobs-exact s now key ∙ ground (arith, watched, due) in
    let at = member-IsAt key (due_jobs s now) found in
    let sorted : IsByDue (at.earlier ++ at.job ∷ at.later) =
      subst IsByDue at.parts (due_jobs-IsByDue s now) in
    let timed : All (λ j. j.due ≡ next_refresh s now j.key) (at.earlier ++ at.job ∷ at.later) =
      subst (All (λ j. j.due ≡ next_refresh s now j.key)) at.parts (due_jobs-due s now) in
    let around = IsByDue-around at.earlier at.later at.job sorted in
    let times =
      All-parts (λ j. j.due ≡ next_refresh s now j.key) at.earlier (at.job ∷ at.later) timed in
    let here : at.job.due ≡ next_refresh s now key = times.1.0 ∙ ap (next_refresh s now) at.named in
    record {
      earlier = at.earlier;
      later = at.later;
      ran =
          run_jobs-run_all probe alive 0 (due_jobs s now) s on
          ∙ ap (λ js. run_all probe (asks js) s) at.parts
          ∙ ap (λ ps. run_all probe ps s)
              (asks-append at.earlier (at.job ∷ at.later)
                ∙ ap (λ ps. asks at.earlier ++ ps)
                    (asks-named at.job at.later auth_id model at.named a m))
          ∙ run_all-append probe (asks at.earlier) ((auth_id, trim model) ∷ asks at.later) s;
      before = All-both _ _ _ at.earlier (λ j p q. omega (arith, p, q, here)) around.0 times.0;
      after = All-both _ _ _ at.later (λ j p q. omega (arith, p, q, here)) around.1 times.1.1;
    }
