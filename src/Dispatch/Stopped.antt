-- ===== src/Dispatch/Stopped.antt =====
-- What a management request does to a plugin that was quiesced or stopped.
use cpa_codex_turn_state_plu.Base.{
  ◌≡◌, ◌⊎◌, refl, ◌∙◌, ap, sym, subst, inl, inr, false, ◌&&◌, ◌||◌, Option, none, some, [],
  Bool-cases, Option-cases, Text, text_beq, text_eq, str, arith, Result, ok, err,
}
use cpa_codex_turn_state_plu.Base.Dict.{lookup}
use cpa_codex_turn_state_plu.Base.Sets.{member, keys_where, lookup-erase_all}
use cpa_codex_turn_state_plu.Clock.{Time}
use cpa_codex_turn_state_plu.Environment.{Environment}
use cpa_codex_turn_state_plu.State.{RuntimeState}
use cpa_codex_turn_state_plu.History.{append_history}
use cpa_codex_turn_state_plu.Management.Clear.{
  ClearRequest, ClearError, ClearResult, Scope, is_doomed, clear_section, clear_action, sweep,
}
use cpa_codex_turn_state_plu.Management.Clear.Exact.{clear_section-current}
use cpa_codex_turn_state_plu.Management.Refresh.{RefreshRequest, quiesced, refresh_action}
use cpa_codex_turn_state_plu.Management.Routes.{
  ManagementRequest, Readers, Beside, after_refresh, after_clear, refresh_body, clear_body,
  route_answer, handle_management, method_of, management_route_path, first_text,
  decode_management_body,
}
use cpa_codex_turn_state_plu.Management.Routes.Guarded.{
  KeepsAllButAccounts, answer_status-KeepsAllButAccounts, resource_answer-KeepsAllButAccounts,
}
use cpa_codex_turn_state_plu.Management.Selection.{Selection, selection}
use cpa_codex_turn_state_plu.System.Actions.{clear_action-section}

-- The plugin accepts nothing, and each key has the state it had, or none.
pub record IsQuiet (s t : RuntimeState) : Type 0 where
  pub stopped : t.accepting ≡ false
  pub kept :
      (key : Text) → (lookup key t.current ≡ lookup key s.current) ⊎ (lookup key t.current ≡ none)

pub IsQuiet-compose : {s t u : RuntimeState} → IsQuiet s t → IsQuiet t u → IsQuiet s u
IsQuiet-compose h k = record {
  stopped = k.stopped;
  kept = λ key. elim (k.kept key) [
    | inr gone ↦ inr gone
    | inl same ↦ elim (h.kept key) [ inl old ↦ inl (same ∙ old) | inr gone ↦ inr (same ∙ gone) ]
  ];
}

pub alike :
    (s t : RuntimeState)
    → s.accepting ≡ false
    → t.accepting ≡ s.accepting
    → t.current ≡ s.current
    → IsQuiet s t
alike s t off a c = record { stopped = a ∙ off; kept = λ key. inl (ap (lookup key) c) }

accounts-IsQuiet :
    {s t : RuntimeState} → s.accepting ≡ false → KeepsAllButAccounts s t → IsQuiet s t
accounts-IsQuiet {s} {t} off h = alike s t off (ap (λ r. r.accepting) h) (ap (λ r. r.current) h)

clear_section-accepting :
    (env : Environment) (s : RuntimeState) (now : Time) (sel : Selection) (scope : Scope)
    → (clear_section env s now sel scope).0.accepting ≡ s.accepting
unfolding clear_section sweep append_history
clear_section-accepting env s now sel scope = ground arith

clear_section-kept :
    (env : Environment) (s : RuntimeState) (now : Time) (sel : Selection) (scope : Scope)
    (key : Text)
    → (let t = (clear_section env s now sel scope).0 in
        (lookup key t.current ≡ lookup key s.current) ⊎ (lookup key t.current ≡ none))
clear_section-kept env s now sel scope key =
    let removed = keys_where (is_doomed env s.config now scope sel) s.current in
    let after =
      ap (lookup key) (clear_section-current env s now sel scope)
      ∙ lookup-erase_all key removed s.current in
    elim (Bool-cases (member key removed)) [
      | inl e ↦ inr (after ∙ rw e refl)
      | inr e ↦ inl (after ∙ rw e refl)
    ]

clear_action-IsQuiet :
    (env : Environment) (s : RuntimeState) (now : Time) (req : Option ClearRequest)
    → s.accepting ≡ false
    → IsQuiet s (after_clear s (clear_action env s now req)).0
unfolding after_clear clear_action
clear_action-IsQuiet env s now none off = alike s s off refl refl
clear_action-IsQuiet env s now (some req) off = go (clear_action env s now (some req)) refl
  where
    go :
        (o : Result ClearError (RuntimeState × ClearResult))
        → clear_action env s now (some req) ≡ o
        → IsQuiet s (after_clear s o).0
    go (err e) q = alike s s off refl refl
    go (ok r) q =
        let sel = selection req.accounts req.models req.handles in
        let (scope, same) = clear_action-section env s now req q in
        subst (λ o. IsQuiet s o.0) same
          (record {
            stopped = clear_section-accepting env s now sel scope ∙ off;
            kept = clear_section-kept env s now sel scope;
          })

refresh_action-IsQuiet :
    (env : Environment) (beside : Beside) (s : RuntimeState) (now : Time)
    (req : Option RefreshRequest)
    → s.accepting ≡ false
    → IsQuiet s (after_refresh beside s (refresh_action env s now req)).0
unfolding refresh_action after_refresh
refresh_action-IsQuiet env beside s now none off = alike s s off refl refl
refresh_action-IsQuiet env beside s now (some req) off =
    let refused : refresh_action env s now (some req) ≡ err quiesced = ground (arith, off) in
    subst (λ o. IsQuiet s (after_refresh beside s o).0) (sym refused) (alike s s off refl refl)

route_answer-IsQuiet :
    (env : Environment) (readers : Readers) (beside : Beside) (s : RuntimeState) (now : Time)
    (method path body : Text)
    → s.accepting ≡ false
    → IsQuiet s (route_answer env readers beside s now method path body).0
unfolding route_answer
route_answer-IsQuiet env readers beside s now method path body off =
    elim (Bool-cases (text_beq method (str "GET") && text_beq path (str "/status"))) [
      | inl a ↦
          rw a (accounts-IsQuiet off (answer_status-KeepsAllButAccounts env readers beside s now))
      | inr a ↦ elim (Bool-cases (text_beq method (str "POST") && text_beq path (str "/refresh"))) [
        | inl b ↦
            rw (a, b) (refresh_action-IsQuiet env beside s now (refresh_body readers body) off)
        | inr b ↦ elim (Bool-cases (text_beq method (str "POST") && text_beq path (str "/clear"))) [
          | inl c ↦ rw (a, b, c) (clear_action-IsQuiet env s now (clear_body readers body) off)
          | inr c ↦
              elim (Bool-cases
                (text_beq method (str "GET") && (text_beq path (str "/") || text_beq path []))) [
                  | inl d ↦ rw (a, b, c, d) (alike s s off refl refl)
                  | inr d ↦ rw (a, b, c, d) (alike s s off refl refl)
                ]
        ]
      ]
    ]

pub handle_management-IsQuiet :
    (env : Environment) (readers : Readers) (beside : Beside) (s : RuntimeState) (now : Time)
    (req : ManagementRequest)
    → s.accepting ≡ false
    → IsQuiet s (handle_management env readers beside s now req).0
unfolding handle_management
handle_management-IsQuiet env readers beside s now req off =
    let at = management_route_path (first_text req.path req.path_lower) in
    elim (Option-cases (decode_management_body readers.decode req.body req.body_lower)) [
      | inl e ↦ rw (e, handle_management) (alike s s off refl refl)
      | inr (body, e) ↦ elim (Bool-cases at.1) [
        | inl r ↦
            rw (e, r, handle_management)
              (accounts-IsQuiet off
                (resource_answer-KeepsAllButAccounts env readers beside s now (method_of req) at.0))
        | inr r ↦
            rw (e, r, handle_management)
              (route_answer-IsQuiet env readers beside s now (method_of req) at.0 body off)
      ]
    ]
