-- ===== src/Probe/Answer/Events.antt =====
-- When a probe is complete, by the events of its stream.
use mathlib.Core.List.{append-nil, append_assoc}
use cpa_codex_turn_state_plu.Base.{
  ℕ, ◌≡◌, refl, sym, ap, subst, ◌∙◌, ◌⊎◌, inl, inr, Bool, true, false, not, ◌&&◌, Bool-cases,
  Option, none, some, List, [], ◌∷◌, ◌++◌, nat_beq, nat_beq_iff, Text, text_beq, text_eq, str,
}
use cpa_codex_turn_state_plu.Text.{trim, of_nat}
use cpa_codex_turn_state_plu.Probe.Answer.{
  check_event, line_data, last_check, scan_lines, probe_completed, Response, Exchange, unsent,
  unanswered, answered, is_listed, failure_status, fetch_probe,
}

-- More payload in front of the first event.
push : List Text → List (List Text) × List Text → List (List Text) × List Text
push d ([], open_event) = ([], d ++ open_event)
push d (e ∷ es, open_event) = ((d ++ e) ∷ es, open_event)

-- The payload of each event that an empty line closes, and that of the event left open.
unfoldable pub events : List Text → List (List Text) × List Text
unfolding push
events [] = ([], [])
events ([] ∷ lines) = let (closed, open_event) = events lines in ([] ∷ closed, open_event)
events ((c ∷ line) ∷ lines) = push (line_data (c ∷ line)) (events lines)

-- What the first event that ends the response says.
unfoldable pub first_end : List (List Text) → Option Bool
first_end [] = none
first_end (e ∷ es) = elim (check_event e) [ some complete ↦ some complete | none ↦ first_end es ]

abbrev pub outcome : Bool → List (List Text) × List Text → Bool
outcome broken (closed, open_event) = elim (first_end closed) [
  | some complete ↦ complete
  | none ↦ last_check broken open_event
]

push-nil : (es : List (List Text) × List Text) → push [] es ≡ es
unfolding push
push-nil ([], o) = refl
push-nil (e ∷ es, o) = refl

push-append :
    (p d : List Text) (es : List (List Text) × List Text) → push (p ++ d) es ≡ push p (push d es)
unfolding push
push-append p d ([], o) = ap (λ x. ([], x)) (append_assoc p d o)
push-append p d (e ∷ es, o) = ap (λ x. (x ∷ es, o)) (append_assoc p d e)

scan_lines-outcome :
    (broken : Bool) (p : List Text) (lines : List Text)
    → scan_lines broken p lines ≡ outcome broken (push p (events lines))
unfolding scan_lines events push first_end
scan_lines-outcome broken p [] = ap (last_check broken) (sym (append-nil p))
scan_lines-outcome broken p ([] ∷ lines) =
    let later =
      scan_lines-outcome broken [] lines ∙ ap (outcome broken) (push-nil (events lines)) in
    rw (append-nil p) (go (check_event p) later)
  where
    go :
        (o : Option Bool)
        → scan_lines broken [] lines ≡ outcome broken (events lines)
        → ◌≡◌ {A = Bool}
            (elim o [ none ↦ scan_lines broken [] lines | some complete ↦ complete ])
            (elim (elim o as (λ x. Option Bool) [
              | none ↦ first_end (events lines).0
              | some complete ↦ some complete
            ])
              as (λ x. Bool) [
                | none ↦ last_check broken (events lines).1
                | some complete ↦ complete
              ])
    go none h = h
    go (some b) h = refl
scan_lines-outcome broken p ((c ∷ line) ∷ lines) =
    scan_lines-outcome broken (p ++ line_data (c ∷ line)) lines
    ∙ ap (outcome broken) (push-append p (line_data (c ∷ line)) (events lines))

-- The loop over the lines decides by the first event that ends the response, and by the event left
-- open only if no other one ends it and the stream was read to its end.
pub probe_completed-outcome :
    (broken : Bool) (lines : List Text)
    → probe_completed broken lines ≡ outcome broken (events lines)
unfolding probe_completed
probe_completed-outcome broken lines =
    scan_lines-outcome broken [] lines ∙ ap (outcome broken) (push-nil (events lines))

-- What stands behind a state that a probe hands on.
pub record IsAnswer (x : Exchange) (value : Text) : Type 0 where
  pub response : Response
  pub got : x ≡ answered response
  pub accepted : response.status_code ≡ 200
  pub the_value : trim response.turn_state ≡ value
  pub present : text_beq value [] ≡ false
  pub complete :
      (first_end (events response.lines).0 ≡ some true)
      ⊎ ((first_end (events response.lines).0 ≡ none)
          × (response.broken ≡ false)
          × (check_event (events response.lines).1 ≡ some true))

failure_prefix :
    (code : ℕ) (f : Option (Text × Text))
    → (rest : Text) × (failure_status code f ≡ str "upstream_http_" ++ rest)
unfolding failure_status
failure_prefix code none = (of_nat code, refl)
failure_prefix code (some (error_code, error_kind)) = elim (Bool-cases (is_listed error_code)) [
  | inl h ↦ (of_nat code ++ b'_' ∷ error_code, rw h refl)
  | inr h ↦ elim (Bool-cases (is_listed error_kind)) [
    | inl k ↦ (of_nat code ++ b'_' ∷ error_kind, rw (h, k) refl)
    | inr k ↦ (of_nat code, rw (h, k) refl)
  ]
]

-- The other statuses.
other_status :
    (status value : Text)
    → text_beq status (str "ok") ≡ false
    → ¬ (◌≡◌ {A = Text × Text} ([], status) (value, str "ok"))
other_status status value h e =
    false_not_true (sym h ∙ ap (λ (p : Text × Text). text_beq p.1 (str "ok")) e)
  where
    false_not_true : ¬ (false ≡ true)
    false_not_true k = cc

failure_not_ok :
    (code : ℕ) (f : Option (Text × Text)) → text_beq (failure_status code f) (str "ok") ≡ false
failure_not_ok code f = let (rest, same) = failure_prefix code f in rw same refl

last_true :
    (broken : Bool) (o : Option Bool)
    → not broken && (elim o as (λ x. Bool) [ none ↦ false | some complete ↦ complete ]) ≡ true
    → (broken ≡ false) × (o ≡ some true)
last_true true o h = cc
last_true false none h = cc
last_true false (some true) h = (refl, refl)
last_true false (some false) h = cc

outcome-true :
    (broken : Bool) (es : List (List Text) × List Text)
    → outcome broken es ≡ true
    → (first_end es.0 ≡ some true)
      ⊎ ((first_end es.0 ≡ none) × (broken ≡ false) × (check_event es.1 ≡ some true))
outcome-true broken es h = go (first_end es.0) refl h
  where
    go :
        (o : Option Bool)
        → first_end es.0 ≡ o
        → ◌≡◌ {A = Bool} (elim o [ none ↦ last_check broken es.1 | some complete ↦ complete ]) true
        → (first_end es.0 ≡ some true)
          ⊎ ((first_end es.0 ≡ none) × (broken ≡ false) × (check_event es.1 ≡ some true))
    go (some b) e k = inl (e ∙ ap some k)
    go none e k = let (whole, last) = last_true broken (check_event es.1) k in inr (e, whole, last)

-- A probe hands on a state only from a response with status 200 and the header, and only if the first
-- event that ends the response says that it is completed, or if no event ends it, the stream was read
-- to its end and the event left open says so: a response that failed behind a status of 200 is not
-- taken.
pub fetch_probe-IsAnswer :
    (x : Exchange) (value : Text) → fetch_probe x ≡ (value, str "ok") → IsAnswer x value
unfolding fetch_probe
fetch_probe-IsAnswer unsent value h = absurd (other_status (str "request_invalid") value refl h)
fetch_probe-IsAnswer unanswered value h = absurd (other_status (str "network_error") value refl h)
fetch_probe-IsAnswer (answered r) value h = elim (Bool-cases (nat_beq r.status_code 200)) [
  | inr a ↦ absurd (
      other_status (failure_status r.status_code r.failure) value
        (failure_not_ok r.status_code r.failure) (rw a at h))
  | inl a ↦ elim (Bool-cases (probe_completed r.broken r.lines)) [
    | inr b ↦ absurd (other_status (str "upstream_incomplete") value refl (rw (a, b) at h))
    | inl b ↦ elim (Bool-cases (text_beq (trim r.turn_state) [])) [
      | inl c ↦ absurd (other_status (str "state_missing") value refl (rw (a, b, c) at h))
      | inr c ↦
          let same : trim r.turn_state ≡ value =
            ap (λ (p : Text × Text). p.0) (rw (a, b, c) at h) in
          record {
            response = r;
            got = refl;
            accepted = (nat_beq_iff r.status_code 200).0 a;
            the_value = same;
            present = subst (λ v. text_beq v [] ≡ false) same c;
            complete =
                outcome-true r.broken (events r.lines)
                  (sym (probe_completed-outcome r.broken r.lines) ∙ b);
          }
    ]
  ]
]
