-- ===== src/Detect/Engine/Runs.antt =====
-- The alerts of an engine that NewEngine returns, over a run of events.
use krnl_sentry.Base.{
  String, List, [], ◌∷◌, map, ◌≡◌, refl, sym, subst, ◌∙◌, ◌==◌, nat_eq, Bool-cases, inl, inr, All,
}
use krnl_sentry.Events.Event.{Event}
use krnl_sentry.Detect.Config.{Config}
use krnl_sentry.Detect.Engine.{
  Rule, all_rules, Engine, ok, Choice, chosen, refused, is_wanted, wanted_names, selected,
  unknown_names, check_choice, choose_rules, start_engine, new_engine, evaluate, evaluate_all,
}
use krnl_sentry.Detect.Engine.Alerts.{IsHonest, IsReport, all_rules-IsHonest, evaluate-IsReport}
use krnl_sentry.Detect.Engine.Invariant.{OnOk}

All-selected :
    (P : Rule → Type 0) (wanted : List String) (rules : List Rule)
    → All P rules
    → All P (selected wanted rules)
unfolding selected
All-selected P wanted [] h = tt
All-selected P wanted (r ∷ rs) h =
    let later = All-selected P wanted rs h.1 in
    elim (Bool-cases (is_wanted r.name wanted)) [
      | inl yes_ ↦ rw (yes_, All) (h.0, later)
      | inr no_ ↦ rw (no_, All) later
    ]

-- Rules that are all honest, where a choice succeeds.
abbrev IsHonestChoice : Choice → Type 0
IsHonestChoice (refused reason) = Unit
IsHonestChoice (chosen rules) = All IsHonest rules

check_choice-IsHonestChoice :
    (sel : List Rule) (unknown : List String)
    → All IsHonest sel
    → IsHonestChoice (check_choice sel unknown)
unfolding check_choice
check_choice-IsHonestChoice sel (u ∷ us) h = tt
check_choice-IsHonestChoice [] [] h = tt
check_choice-IsHonestChoice (r ∷ rs) [] h = h

choose_rules-IsHonestChoice : (enabled : List String) → IsHonestChoice (choose_rules enabled)
unfolding choose_rules
choose_rules-IsHonestChoice [] = all_rules-IsHonest
choose_rules-IsHonestChoice (n ∷ ns) =
    let wanted = wanted_names [] (n ∷ ns) in
    check_choice-IsHonestChoice (selected wanted all_rules) (unknown_names wanted all_rules)
      (All-selected IsHonest wanted all_rules all_rules-IsHonest)

abbrev HasHonestRules : Engine → Type 0
HasHonestRules e = All IsHonest e.rules

start_engine-HasHonestRules :
    (cfg : Config) (choice : Choice)
    → IsHonestChoice choice
    → OnOk HasHonestRules (start_engine cfg choice)
unfolding start_engine
start_engine-HasHonestRules cfg (refused reason) h = tt
start_engine-HasHonestRules cfg (chosen rules) h = h

-- A run does not change the rules.
evaluate-rules : (ev : Event) (e : Engine) → Engine.rules (evaluate ev e).0 ≡ e.rules
unfolding evaluate
evaluate-rules ev e = elim (Bool-cases (ev.pid == e.cfg.self_pid)) [
  | inl self ↦ rw self refl
  | inr other ↦ rw other refl
]

evaluate_all-rules : (evs : List Event) (e : Engine) → Engine.rules (evaluate_all evs e).0 ≡ e.rules
unfolding evaluate_all
evaluate_all-rules [] e = refl
evaluate_all-rules (ev ∷ evs) e = evaluate_all-rules evs (evaluate ev e).0 ∙ evaluate-rules ev e

-- After any run of events from an engine that NewEngine returns, every alert that Evaluate returns
-- for an event has the PID, parent, user, command, call and time of the event, and is of a rule
-- that the engine runs or on an attack chain.
pub new_engine-IsReport :
    (cfg : Config) (enabled : List String) (e : Engine) (evs : List Event) (ev : Event)
    → new_engine cfg enabled ≡ ok e
    → All (IsReport ev (map (λ r. Rule.name r) e.rules)) (evaluate ev (evaluate_all evs e).0).1
unfolding new_engine
new_engine-IsReport cfg enabled e evs ev made =
    let honest = subst (OnOk HasHonestRules) made (
      start_engine-HasHonestRules cfg (choose_rules enabled)
        (choose_rules-IsHonestChoice enabled)) in
    let later = (evaluate_all evs e).0 in
    let same = evaluate_all-rules evs e in
    subst (λ rs. All (IsReport ev (map (λ r. Rule.name r) rs)) (evaluate ev later).1) same
      (evaluate-IsReport ev later (subst (All IsHonest) (sym same) honest))
