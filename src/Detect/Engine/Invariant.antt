-- ===== src/Detect/Engine/Invariant.antt =====
-- The bounds of the engine's state over any events in the order of time.
use krnl_sentry.Base.{
  ℕ, ℤ, pos, ◌≤◌, String, List, [], ◌∷◌, Option, none, some, ◌≡◌, refl, subst, arith, ◌==◌, nat_eq,
  Bool-cases, inl, inr, ltb_ℤ,
}
use krnl_sentry.Events.Event.{Event}
use krnl_sentry.Detect.Alert.{Alert}
use krnl_sentry.Detect.Config.{Config, StorylineConfig}
use krnl_sentry.Detect.Tracker.{ProcessHistory}
use krnl_sentry.Detect.Tracker.Bounds.{
  IsBounded as IsTrackerBounded, record_event-IsBounded, IsBounded-mono, new_tracker-IsBounded,
  InOrder, last_time,
}
use krnl_sentry.Detect.Dedup.{Deduper, admit, new_deduper}
use krnl_sentry.Detect.Dedup.Bounds.{IsBounded as IsDedupBounded, admit-IsBounded}
use krnl_sentry.Detect.Storyline.{correlate, observe_event, new_correlator}
use krnl_sentry.Detect.Storyline.Lineage.{Correlator}
use krnl_sentry.Detect.Storyline.Sound.{correlate_alert-IsSound, observe-IsSound}
use krnl_sentry.Detect.Storyline.Sound.Merging.{IsSound}
use krnl_sentry.Detect.Engine.{
  Rule, Engine, Progress, NewResult, ok, err, Choice, chosen, refused, choose_rules, start_engine,
  new_engine, handle, run_rules, evaluate, evaluate_all,
}
use krnl_sentry.Detect.Engine.Alerts.{OnSome}

-- The tracker, the deduplicator and the correlator are each within their bounds, at a time.
pub record IsWithinBounds (now : ℕ) (e : Engine) : Type 0 where
  pub tracker : IsTrackerBounded now e.tracker
  pub dedup : OnSome IsDedupBounded e.dedup
  pub correlator : OnSome IsSound e.correlator

-- The same of what the loop over the rules changes.
abbrev pub IsProgress : Progress → Type 0
IsProgress p = OnSome IsDedupBounded p.dedup × OnSome IsSound p.correlator

admit-OnSome :
    (d : Option Deduper) (a : Alert) (now : ℕ)
    → OnSome IsDedupBounded d
    → OnSome IsDedupBounded (admit d a now).0
unfolding admit
admit-OnSome none a now v = tt
admit-OnSome (some d) a now v = admit-IsBounded d a now v

correlate-OnSome :
    (ev : Event) (a : Alert) (c : Option Correlator)
    → OnSome IsSound c
    → OnSome IsSound (correlate ev a c).0
unfolding correlate
correlate-OnSome ev a none v = tt
correlate-OnSome ev a (some c) v = (correlate_alert-IsSound ev a c v).1

observe_event-OnSome :
    (ev : Event) (c : Option Correlator) → OnSome IsSound c → OnSome IsSound (observe_event ev c)
unfolding observe_event
observe_event-OnSome ev none v = tt
observe_event-OnSome ev (some c) v = observe-IsSound ev c v

handle-IsProgress :
    (ev : Event) (p : Progress) (o : Option Alert) → IsProgress p → IsProgress (handle ev p o)
unfolding handle
handle-IsProgress ev p none v = v
handle-IsProgress ev p (some a) v =
    (admit-OnSome p.dedup _ ev.timestamp v.0, correlate-OnSome ev a p.correlator v.1)

run_rules-IsProgress :
    (cfg : Config) (ev : Event) (history : Option ProcessHistory) (rules : List Rule) (p : Progress)
    → IsProgress p
    → IsProgress (run_rules cfg ev history rules p)
unfolding run_rules
run_rules-IsProgress cfg ev history [] p v = v
run_rules-IsProgress cfg ev history (r ∷ rs) p v =
    run_rules-IsProgress cfg ev history rs _ (handle-IsProgress ev p _ v)

-- An event that is not older than the last keeps the engine's state within its bounds, whatever
-- the rules find.
pub evaluate-IsWithinBounds :
    (ev : Event) (e : Engine) (now : ℕ)
    → now ≤ ev.timestamp
    → IsWithinBounds now e
    → IsWithinBounds ev.timestamp (evaluate ev e).0
unfolding evaluate
evaluate-IsWithinBounds ev e now le v = elim (Bool-cases (ev.pid == e.cfg.self_pid)) [
  | inl self ↦ rw self (record {
    tracker = IsBounded-mono e.tracker le v.tracker;
    dedup = v.dedup;
    correlator = v.correlator;
  })
  | inr other ↦
      let seen = observe_event-OnSome ev e.correlator v.correlator in
      let done = run_rules-IsProgress e.cfg ev _ e.rules _ (v.dedup, seen) in
      rw other (record {
        tracker = (record_event-IsBounded ev e.tracker now le v.tracker).0;
        dedup = done.0;
        correlator = done.1;
      })
]

evaluate_all-IsWithinBounds :
    (evs : List Event) (e : Engine) (now : ℕ)
    → InOrder now evs
    → IsWithinBounds now e
    → IsWithinBounds (last_time now evs) (evaluate_all evs e).0
unfolding evaluate_all
evaluate_all-IsWithinBounds [] e now order v = v
evaluate_all-IsWithinBounds (ev ∷ evs) e now order v =
    evaluate_all-IsWithinBounds evs (evaluate ev e).0 ev.timestamp order.1
      (evaluate-IsWithinBounds ev e now order.0 v)

new_deduper-OnSome : (window : ℤ) → OnSome IsDedupBounded (new_deduper window)
unfolding new_deduper
new_deduper-OnSome window = elim (Bool-cases (ltb_ℤ (pos 0) window)) [
  | inl on ↦ rw (on, OnSome) (record { is_map = tt; few = omega arith })
  | inr off ↦ rw (off, OnSome) tt
]

new_correlator-OnSome : (cfg : StorylineConfig) → OnSome IsSound (new_correlator cfg)
unfolding new_correlator
new_correlator-OnSome cfg = elim (Bool-cases cfg.enabled) [
  | inl on ↦ rw (on, OnSome) (record { stories = tt; numbered = refl; pointers = tt })
  | inr off ↦ rw (off, OnSome) tt
]

abbrev pub OnOk : (Engine → Type 0) → NewResult → Type 0
OnOk P (ok e) = P e
OnOk P (err reason) = Unit

start_engine-IsWithinBounds :
    (cfg : Config) (choice : Choice) → OnOk (IsWithinBounds 0) (start_engine cfg choice)
unfolding start_engine
start_engine-IsWithinBounds cfg (refused reason) = tt
start_engine-IsWithinBounds cfg (chosen rules) = record {
  tracker = new_tracker-IsBounded;
  dedup = new_deduper-OnSome cfg.dedup_window;
  correlator = new_correlator-OnSome cfg.storyline;
}

-- Over any events in the order of time, an engine that NewEngine returns, whatever its
-- configuration and rules, keeps at most 8192 process histories of 32 calls, 16384 keys of the
-- deduplicator, and 24 steps in each storyline.
pub new_engine-IsWithinBounds :
    (cfg : Config) (enabled : List String) (e : Engine) (evs : List Event)
    → new_engine cfg enabled ≡ ok e
    → InOrder 0 evs
    → IsWithinBounds (last_time 0 evs) (evaluate_all evs e).0
unfolding new_engine
new_engine-IsWithinBounds cfg enabled e evs made order =
    evaluate_all-IsWithinBounds evs e 0 order (
      subst (OnOk (IsWithinBounds 0)) made (start_engine-IsWithinBounds cfg (choose_rules enabled)))
