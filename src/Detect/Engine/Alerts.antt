-- ===== src/Detect/Engine/Alerts.antt =====
-- Whose alerts the engine raises.
use krnl_sentry.Base.{
  ℕ, length, String, Bool, true, false, List, [], ◌∷◌, map, Option, none, some, ◌≡◌, refl, arith,
  ◌⊎◌, inl, inr, ◌==◌, nat_eq, int_eq, string_eq, Bool-cases, All, All-append, All-mono, beq_refl,
}
use krnl_sentry.Events.Event.{Event, Args}
use krnl_sentry.Detect.Alert.{Alert}
use krnl_sentry.Detect.Config.{Config, Context}
use krnl_sentry.Detect.Tracker.{ProcessHistory}
use krnl_sentry.Detect.Engine.Findings.{
  IsAbout, IsFinding, eval_privilege_escalation-IsFinding, eval_sensitive_file_access-IsFinding,
  eval_ptrace_injection-IsFinding, eval_reverse_shell-IsFinding,
}
use krnl_sentry.Detect.Storyline.Chain.{rule_name_attack_chain, chain_alert}
use krnl_sentry.Detect.Storyline.{correlate, correlate_alert, report, is_reportable}
use krnl_sentry.Detect.Storyline.Story.{Storyline}
use krnl_sentry.Detect.Storyline.Lineage.{Correlator}
use krnl_sentry.Dict.{lookup}
use krnl_sentry.Detect.Dedup.{
  Deduper, DedupEntry, admit, admit_swept, admit_entry, maybe_sweep, dedup_key, in_window,
}
use krnl_sentry.Detect.Engine.{
  Rule, all_rules, rule_privilege_escalation, rule_sensitive_file_access, rule_ptrace_injection,
  rule_reverse_shell, is_wanted, Engine, Progress, handle, run_rules, share_args, evaluate, emitted,
}

-- A rule whose alerts are about the event, under the rule's name.
pub record IsHonest (r : Rule) : Type 0 where
  pub finds : (c : Context) → IsFinding c.event r.name (r.eval c)

-- An alert about the event, by one of the rules named or on an attack chain.
pub record IsReport (ev : Event) (names : List String) (a : Alert) : Type 0 where
  pub about : IsAbout ev a
  pub named : (is_wanted a.rule names ≡ true) ⊎ (a.rule ≡ rule_name_attack_chain)

abbrev pub OnSome {ℓ κ} : {A : Type ℓ} → (A → Type κ) → Option A → Type κ
OnSome P none = Unit
OnSome P (some a) = P a

-- The four rules are honest: whatever the context, an alert of theirs has the PID, parent, user,
-- command, call and time of the event, and the name of the rule.
pub all_rules-IsHonest : All IsHonest all_rules
unfolding all_rules rule_privilege_escalation rule_sensitive_file_access rule_ptrace_injection
    rule_reverse_shell
all_rules-IsHonest = (
  record { finds = eval_privilege_escalation-IsFinding },
  (
    record { finds = eval_sensitive_file_access-IsFinding },
    (
      record { finds = eval_ptrace_injection-IsFinding },
      (record { finds = eval_reverse_shell-IsFinding }, tt),
    ),
  ),
)

report-IsReport :
    (names : List String) (ev : Event) (p : ℕ) (r : Storyline × Bool) (a : Alert) (c : Correlator)
    → IsReport ev names a
    → OnSome (IsReport ev names) (report p r a c).1
unfolding report chain_alert
report-IsReport names ev p r a c v = elim (Bool-cases (is_reportable c.cfg.threshold r.0 r.1)) [
  | inr quiet ↦ rw (quiet, OnSome) tt
  | inl raised ↦
      let w = v.about in
      let about_ : IsAbout ev
          (chain_alert a (record (r.0) { reported_n = length (Storyline.tactics r.0) })) =
        record {
          pid = w.pid;
          ppid = w.ppid;
          uid = w.uid;
          comm = w.comm;
          syscall = w.syscall;
          timestamp = w.timestamp;
        } in
      rw (raised, OnSome) (record { about = about_; named = inr refl })
]

stamped-IsReport :
    (names : List String) (ev : Event) (a : Alert) (id : String) (folds : ℕ)
    → IsReport ev names a
    → IsReport ev names (record a { storyline = id })
      × IsReport ev names (record a { suppressed = folds })
stamped-IsReport names ev a id folds v =
    let w = v.about in
    (
      record {
        about = record {
          pid = w.pid;
          ppid = w.ppid;
          uid = w.uid;
          comm = w.comm;
          syscall = w.syscall;
          timestamp = w.timestamp;
        };
        named = v.named;
      },
      record {
        about = record {
          pid = w.pid;
          ppid = w.ppid;
          uid = w.uid;
          comm = w.comm;
          syscall = w.syscall;
          timestamp = w.timestamp;
        };
        named = v.named;
      },
    )

admit_entry-IsReport :
    (names : List String) (ev : Event) (a : Alert) (now : ℕ) (d : Deduper) (key : String)
    (o : Option DedupEntry)
    → IsReport ev names a
    → IsReport ev names (admit_entry d key a now o).1
unfolding admit_entry
admit_entry-IsReport names ev a now d key none v = v
admit_entry-IsReport names ev a now d key (some e) v =
    elim (Bool-cases (in_window d.window now e)) [
      | inl folds ↦ rw folds v
      | inr emitted_ ↦ rw emitted_ (stamped-IsReport names ev a "" e.suppressed v).1
    ]

correlate-IsReport :
    (names : List String) (ev : Event) (a : Alert) (c : Option Correlator)
    → IsReport ev names a
    → IsReport ev names (correlate ev a c).1 × OnSome (IsReport ev names) (correlate ev a c).2
unfolding correlate correlate_alert
correlate-IsReport names ev a none v = (v, tt)
correlate-IsReport names ev a (some c) v =
    let stamped = (stamped-IsReport names ev a _ 0 v).0 in
    (stamped, report-IsReport names ev _ _ _ _ stamped)

admit-IsReport :
    (names : List String) (ev : Event) (a : Alert) (now : ℕ) (d : Option Deduper)
    → IsReport ev names a
    → IsReport ev names (admit d a now).1
unfolding admit admit_swept
admit-IsReport names ev a now none v = v
admit-IsReport names ev a now (some d) v =
    let swept = maybe_sweep now d in
    admit_entry-IsReport names ev a now swept (dedup_key a) (lookup (dedup_key a) swept.seen) v

emitted-IsReport :
    (names : List String) (ev : Event) (a : Alert) (emits : Bool) (chain : Option Alert)
    → IsReport ev names a
    → OnSome (IsReport ev names) chain
    → All (IsReport ev names) (emitted a emits chain)
emitted-IsReport names ev a false none v w = tt
emitted-IsReport names ev a false (some c) v w = (w, tt)
emitted-IsReport names ev a true none v w = (v, tt)
emitted-IsReport names ev a true (some c) v w = (v, (w, tt))

handle-IsReport :
    (names : List String) (ev : Event) (p : Progress) (o : Option Alert)
    → OnSome (IsReport ev names) o
    → All (IsReport ev names) p.alerts
    → All (IsReport ev names) (Progress.alerts (handle ev p o))
unfolding handle
handle-IsReport names ev p none v all = all
handle-IsReport names ev p (some a) v all =
    let c = correlate ev a p.correlator in
    let d = admit p.dedup c.1 ev.timestamp in
    let (one, two) = correlate-IsReport names ev a p.correlator v in
    let out = admit-IsReport names ev c.1 ev.timestamp p.dedup one in
    All-append (IsReport ev names) p.alerts (emitted d.1 d.2 c.2) all
      (emitted-IsReport names ev d.1 d.2 c.2 out two)

-- A rule that is honest and has one of the names.
abbrev pub IsNamed : List String → Rule → Type 0
IsNamed names r = IsHonest r × (is_wanted r.name names ≡ true)

-- A finding on the event, whatever the map of its arguments holds.
IsFinding-IsReport :
    (names : List String) (ev : Event) (args : Args) (name : String) (o : Option Alert)
    → is_wanted name names ≡ true
    → IsFinding (record ev { args = args }) name o
    → OnSome (IsReport ev names) o
IsFinding-IsReport names ev args name none named v = tt
IsFinding-IsReport names ev args name (some a) named (w, rule) = record {
  about = record {
    pid = w.pid;
    ppid = w.ppid;
    uid = w.uid;
    comm = w.comm;
    syscall = w.syscall;
    timestamp = w.timestamp;
  };
  named = inl (rw rule named);
}

run_rules-IsReport :
    (names : List String) (cfg : Config) (ev : Event) (history : Option ProcessHistory)
    (rules : List Rule) (p : Progress)
    → All (IsNamed names) rules
    → All (IsReport ev names) p.alerts
    → All (IsReport ev names) (Progress.alerts (run_rules cfg ev history rules p))
unfolding run_rules
run_rules-IsReport names cfg ev history [] p named all = all
run_rules-IsReport names cfg ev history (r ∷ rs) p named all =
    let ctx : Context = record {
      event = record ev { args = p.args };
      history = history;
      config = cfg;
    } in
    run_rules-IsReport names cfg ev history rs (handle ev p (r.eval ctx)) named.1 (
      handle-IsReport names ev p (r.eval ctx)
        (IsFinding-IsReport names ev p.args r.name (r.eval ctx) named.0.1
          (IsHonest.finds named.0.0 ctx))
        all)

share_args-IsReport :
    (names : List String) (ev : Event) (args : Args) (alerts : List Alert)
    → All (IsReport ev names) alerts
    → All (IsReport ev names) (share_args args alerts)
unfolding share_args
share_args-IsReport names ev args [] all = tt
share_args-IsReport names ev args (a ∷ rest) all =
    let w = a_about all.0 in
    let later = share_args-IsReport names ev args rest all.1 in
    elim (Bool-cases (a.rule == rule_name_attack_chain)) [
      | inl chain ↦ rw chain (all.0, later)
      | inr own ↦ rw own (w args, later)
    ]
  where
    a_about : IsReport ev names a → (args_ : Args) → IsReport ev names (record a { args = args_ })
    a_about v args_ = record {
      about = record {
        pid = v.about.pid;
        ppid = v.about.ppid;
        uid = v.about.uid;
        comm = v.about.comm;
        syscall = v.about.syscall;
        timestamp = v.about.timestamp;
      };
      named = v.named;
    }

is_wanted-here : (name : String) (more : List String) → is_wanted name (name ∷ more) ≡ true
unfolding is_wanted
is_wanted-here name more = ground (arith, beq_refl name)

is_wanted-later :
    (name other : String) (more : List String)
    → is_wanted name more ≡ true
    → is_wanted name (other ∷ more) ≡ true
unfolding is_wanted
is_wanted-later name other more h = ground (arith, h)

All-IsNamed :
    (rules : List Rule) → All IsHonest rules → All (IsNamed (map (λ r. Rule.name r) rules)) rules
All-IsNamed [] h = tt
All-IsNamed (r ∷ rs) h =
    let names = map (λ q. Rule.name q) rs in
    (
      (h.0, is_wanted-here r.name names),
      All-mono (IsNamed names) (IsNamed (r.name ∷ names)) rs
          (λ q v. (v.0, is_wanted-later q.name r.name names v.1)) (All-IsNamed rs h.1),
    )

-- Where the engine's rules are honest, every alert that Evaluate returns for an event has the PID,
-- parent, user, command, call and time of the event, and is of a rule that the engine runs or on
-- an attack chain.
pub evaluate-IsReport :
    (ev : Event) (e : Engine)
    → All IsHonest e.rules
    → All (IsReport ev (map (λ r. Rule.name r) e.rules)) (evaluate ev e).1
unfolding evaluate
evaluate-IsReport ev e honest = elim (Bool-cases (ev.pid == e.cfg.self_pid)) [
  | inl self ↦ rw (self, All) tt
  | inr other ↦
      let names = map (λ r. Rule.name r) e.rules in
      rw (other, All)
        (share_args-IsReport names ev _ _
          (run_rules-IsReport names e.cfg ev _ e.rules _ (All-IsNamed e.rules honest) tt))
]
