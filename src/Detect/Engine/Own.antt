-- ===== src/Detect/Engine/Own.antt =====
-- The events of the program's own process.
use krnl_sentry.Base.{
  ℕ, Bool, true, List, [], ◌∷◌, ◌++◌, ◌≡◌, refl, ◌==◌, nat_eq, Bool-cases, inl, inr, keep, not, ap,
  ◌∙◌,
}
use krnl_sentry.Events.Event.{Event}
use krnl_sentry.Detect.Alert.{Alert}
use krnl_sentry.Detect.Config.{Config}
use krnl_sentry.Detect.Engine.{Engine, evaluate, evaluate_all}

-- Whether an event is of another process.
abbrev pub is_other : ℕ → Event → Bool
is_other self ev = not (ev.pid == self)

evaluate_self :
    (ev : Event) (e : Engine) → (ev.pid == e.cfg.self_pid) ≡ true → evaluate ev e ≡ (e, [])
unfolding evaluate
evaluate_self ev e self = rw self refl

evaluate-cfg : (ev : Event) (e : Engine) → Engine.cfg (evaluate ev e).0 ≡ e.cfg
unfolding evaluate
evaluate-cfg ev e = elim (Bool-cases (ev.pid == e.cfg.self_pid)) [
  | inl self ↦ rw self refl
  | inr other ↦ rw other refl
]

-- A run from the result of one event.
then_run : List Event → Engine × List Alert → Engine × List Alert
then_run evs r = ((evaluate_all evs r.0).0, r.1 ++ (evaluate_all evs r.0).1)

-- Over any events, the engine comes to the same state and raises the same alerts as without those
-- of its own process.
pub evaluate_all-keep :
    (evs : List Event) (e : Engine)
    → evaluate_all evs e ≡ evaluate_all (keep (is_other e.cfg.self_pid) evs) e
unfolding evaluate_all then_run
evaluate_all-keep [] e = refl
evaluate_all-keep (ev ∷ evs) e = elim (Bool-cases (ev.pid == e.cfg.self_pid)) [
  | inl self ↦ rw self (ap (then_run evs) (evaluate_self ev e self) ∙ evaluate_all-keep evs e)
  | inr other ↦
      let ih = evaluate_all-keep evs (evaluate ev e).0 in
      let rest = keep (is_other e.cfg.self_pid) evs in
      let same : evaluate_all evs (evaluate ev e).0 ≡ evaluate_all rest (evaluate ev e).0 =
        ih
        ∙ ap (λ c. evaluate_all (keep (is_other (Config.self_pid c)) evs) (evaluate ev e).0)
            (evaluate-cfg ev e) in
      rw other (ap (λ r. (r.0, (evaluate ev e).1 ++ r.1)) same)
]
