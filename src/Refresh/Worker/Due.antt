-- ===== src/Refresh/Worker/Due.antt =====
-- The worker picks what is due, all of it, and in order.
use cpa_codex_turn_state_plu.Base.{
  ◌≡◌, ◌∙◌, refl, sym, ap, inl, inr, true, false, not, ◌&&◌, ◌||◌, List, [], ◌∷◌, map, ltb,
  Bool-cases, Text, text_beq, text_beq_iff, arith,
}
use cpa_codex_turn_state_plu.Base.Dict.{keys}
use cpa_codex_turn_state_plu.Base.Sets.{member, include_all, member-include_all}
use cpa_codex_turn_state_plu.Clock.{Time}
use cpa_codex_turn_state_plu.Text.{text_ltb, insert_by, sort_by}
use cpa_codex_turn_state_plu.State.{RuntimeState}
use cpa_codex_turn_state_plu.Refresh.{next_refresh}
use cpa_codex_turn_state_plu.Refresh.Worker.{Job, job_before, watched_keys, pick, due_jobs}

abbrev pub job_keys : List Job → List Text
job_keys = map (λ j. j.key)

member-insert_by :
    (k : Text) (job : Job) (js : List Job)
    → member k (job_keys (insert_by job_before job js))
      ≡ (text_beq job.key k || member k (job_keys js))
unfolding insert_by
member-insert_by k job [] = refl
member-insert_by k job (j ∷ js) = ground (arith, member-insert_by k job js)

member-sort_by :
    (k : Text) (js : List Job)
    → member k (job_keys (sort_by job_before js)) ≡ member k (job_keys js)
unfolding sort_by
member-sort_by k [] = refl
member-sort_by k (j ∷ js) =
    member-insert_by k j (sort_by job_before js)
    ∙ ap (λ b. text_beq j.key k || b) (member-sort_by k js)

member-pick :
    (s : RuntimeState) (now : Time) (k : Text) (ks : List Text)
    → member k (job_keys (pick s now ks)) ≡ (member k ks && not (ltb now (next_refresh s now k)))
unfolding pick
member-pick s now k [] = refl
member-pick s now k (x ∷ xs) = elim (Bool-cases (text_beq x k)) [
  | inl e ↦
      rw (sym ((text_beq_iff x k).0 e)) (ground (arith, member-pick s now x xs, text_beq_iff x x))
  | inr e ↦ ground (arith, e, member-pick s now k xs)
]

-- A round of the worker takes up exactly the keys with a state or a queued refresh that are due.
pub due_jobs-exact :
    (s : RuntimeState) (now : Time) (key : Text)
    → member key (job_keys (due_jobs s now)) ≡ (
        (member key (keys s.current) || member key (keys s.refresh_requests))
        && not (ltb now (next_refresh s now key)))
unfolding due_jobs watched_keys
due_jobs-exact s now key =
    member-sort_by key (pick s now (watched_keys s))
    ∙ member-pick s now key (watched_keys s)
    ∙ ground (
      arith,
      member-include_all key (keys s.current) (include_all (keys s.refresh_requests) []),
      member-include_all key (keys s.refresh_requests) [],
    )

-- Neighbours stand in order: no job is before the one in front of it.
abbrev pub InOrder : List Job → Type 0
InOrder [] = Unit
InOrder (a ∷ []) = Unit
InOrder (a ∷ b ∷ js) = (job_before b a ≡ false) × InOrder (b ∷ js)

text_ltb_asym : (a b : Text) → text_ltb a b ≡ true → text_ltb b a ≡ false
unfolding text_ltb
text_ltb_asym [] [] h = cc
text_ltb_asym [] (d ∷ t) h = refl
text_ltb_asym (c ∷ s) [] h = cc
text_ltb_asym (c ∷ s) (d ∷ t) h = ground (arith, h, text_ltb_asym s t)

job_before_asym : (a b : Job) → job_before a b ≡ true → job_before b a ≡ false
unfolding job_before
job_before_asym a b h = ground (arith, h, text_ltb_asym a.key b.key)

insert_by-InOrder : (job : Job) (js : List Job) → InOrder js → InOrder (insert_by job_before job js)
unfolding insert_by
insert_by-InOrder job [] h = tt
insert_by-InOrder job (a ∷ []) h = elim (Bool-cases (job_before job a)) [
  | inl e ↦ rw e (job_before_asym job a e, tt)
  | inr e ↦ rw e (e, tt)
]
insert_by-InOrder job (a ∷ b ∷ js) h = elim (Bool-cases (job_before job a)) [
  | inl e ↦ rw e (job_before_asym job a e, h)
  | inr e ↦ elim (Bool-cases (job_before job b)) [
    | inl f ↦ rw (e, f) (e, (job_before_asym job b f, h.1))
    | inr f ↦ rw (e, f) (h.0, rw f at (insert_by-InOrder job (b ∷ js) h.1))
  ]
]

-- A round of the worker goes from the earliest due time to the latest.
due_jobs-InOrder : (s : RuntimeState) (now : Time) → InOrder (due_jobs s now)
unfolding due_jobs sort_by
due_jobs-InOrder s now = sorted (pick s now (watched_keys s))
  where
    sorted : (js : List Job) → InOrder (sort_by job_before js)
    sorted [] = tt
    sorted (j ∷ js) = insert_by-InOrder j (sort_by job_before js) (sorted js)
