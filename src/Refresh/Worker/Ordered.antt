-- ===== src/Refresh/Worker/Ordered.antt =====
-- The jobs of a round are in the order of their times.
use cpa_codex_turn_state_plu.Base.{
  ◌≡◌, ◌≤◌, refl, ap, inl, inr, true, false, List, [], ◌∷◌, ◌++◌, ltb, Bool-cases, All, All-middle,
  Text, text_beq, text_beq_iff, text_eq, arith,
}
use cpa_codex_turn_state_plu.Base.Sets.{member}
use cpa_codex_turn_state_plu.Clock.{Time}
use cpa_codex_turn_state_plu.Text.{insert_by, sort_by}
use cpa_codex_turn_state_plu.Text.Sorted.{insert_by-All, sort_by-All}
use cpa_codex_turn_state_plu.State.{RuntimeState}
use cpa_codex_turn_state_plu.Refresh.{next_refresh}
use cpa_codex_turn_state_plu.Refresh.Worker.{Job, job_before, watched_keys, pick, due_jobs}
use cpa_codex_turn_state_plu.Refresh.Worker.Due.{job_keys}

-- The jobs are in the order of their times.
abbrev pub IsByDue : List Job → Type 0
IsByDue [] = Unit
IsByDue (j ∷ js) = All (λ k. j.due ≤ k.due) js × IsByDue js

job_before-due : (a b : Job) → job_before a b ≡ true → a.due ≤ b.due
unfolding job_before
job_before-due a b h = ground (arith, h)

not_before-due : (a b : Job) → job_before a b ≡ false → b.due ≤ a.due
unfolding job_before
not_before-due a b h = ground (arith, h)

all_later :
    (a b : Job) (js : List Job)
    → a.due ≤ b.due
    → All (λ k. b.due ≤ k.due) js
    → All (λ k. a.due ≤ k.due) js
all_later a b [] h k = tt
all_later a b (j ∷ js) h k = (omega (arith, h, k.0), all_later a b js h k.1)

insert_by-IsByDue : (x : Job) (js : List Job) → IsByDue js → IsByDue (insert_by job_before x js)
unfolding insert_by
insert_by-IsByDue x [] h = (tt, tt)
insert_by-IsByDue x (y ∷ ys) h = elim (Bool-cases (job_before x y)) [
  | inl e ↦ let le = job_before-due x y e in rw e ((le, all_later x y ys le h.0), h)
  | inr e ↦ rw e (
    insert_by-All (λ k. y.due ≤ k.due) job_before x ys (not_before-due x y e) h.0,
    insert_by-IsByDue x ys h.1,
  )
]

sort_by-IsByDue : (js : List Job) → IsByDue (sort_by job_before js)
unfolding sort_by
sort_by-IsByDue [] = tt
sort_by-IsByDue (j ∷ js) = insert_by-IsByDue j (sort_by job_before js) (sort_by-IsByDue js)

pub due_jobs-IsByDue : (s : RuntimeState) (now : Time) → IsByDue (due_jobs s now)
unfolding due_jobs
due_jobs-IsByDue s now = sort_by-IsByDue (pick s now (watched_keys s))

pick-due :
    (s : RuntimeState) (now : Time) (ks : List Text)
    → All (λ j. j.due ≡ next_refresh s now j.key) (pick s now ks)
unfolding pick
pick-due s now [] = tt
pick-due s now (k ∷ ks) = elim (Bool-cases (ltb now (next_refresh s now k))) [
  | inl e ↦ rw e (pick-due s now ks)
  | inr e ↦ rw e (refl, pick-due s now ks)
]

pub due_jobs-due :
    (s : RuntimeState) (now : Time) → All (λ j. j.due ≡ next_refresh s now j.key) (due_jobs s now)
unfolding due_jobs
due_jobs-due s now =
    sort_by-All (λ j. j.due ≡ next_refresh s now j.key) job_before (pick s now (watched_keys s))
      (pick-due s now (watched_keys s))

-- A job at which a list falls into those before it and those after it.
pub record IsAt (key : Text) (js : List Job) : Type 0 where
  pub earlier : List Job
  pub job : Job
  pub later : List Job
  pub parts : js ≡ earlier ++ job ∷ later
  pub named : job.key ≡ key

pub member-IsAt : (key : Text) (js : List Job) → member key (job_keys js) ≡ true → IsAt key js
unfolding member
member-IsAt key [] h = absurd (ground arith)
member-IsAt key (j ∷ js) h = elim (Bool-cases (text_beq j.key key)) [
  | inl e ↦ record {
    earlier = [];
    job = j;
    later = js;
    parts = refl;
    named = (text_beq_iff j.key key).0 e;
  }
  | inr e ↦
      let at = member-IsAt key js (ground (arith, e, h)) in
      record {
        earlier = j ∷ at.earlier;
        job = at.job;
        later = at.later;
        parts = ap (λ l. j ∷ l) at.parts;
        named = at.named;
      }
]

-- Around a job the others are in order.
pub IsByDue-around :
    (before after : List Job) (j : Job)
    → IsByDue (before ++ j ∷ after)
    → All (λ k. k.due ≤ j.due) before × All (λ k. j.due ≤ k.due) after
IsByDue-around [] after j h = (tt, h.0)
IsByDue-around (k ∷ ks) after j h =
    let rest = IsByDue-around ks after j h.1 in
    ((All-middle (λ i. k.due ≤ i.due) ks after j h.0, rest.0), rest.1)
