-- ===== src/Output/Dashboard.antt =====
-- output/dashboard.go: the state of the dashboard, Write and Close. The mutex is left out: each
-- function holds it for its whole body.
pub mod Counters
pub mod Widgets
pub mod Panels
pub mod Feed
pub mod Heights
pub mod Row
pub mod Frame
use krnl_sentry.Base.{
  ℕ, suc, ◌+◌, ◌-◌, ◌%◌, ◌^◌, ltb, String, Bool, true, false, not, ◌&&◌, List, [], ◌∷◌, ◌++◌, map,
  Option, none, some, if◌then◌else◌, ◌==◌, nat_eq, string_eq, length, drop, get_or_else, Eq, ◌≡◌,
  ◌↔◌, arith, eq_iff, nat_beq_iff,
}
use krnl_sentry.Dict.{lookup, insert}
use krnl_sentry.Detect.Alert.{Alert, Severity, StoryStep}
use krnl_sentry.Detect.Storyline.Tactics.{Tactic, tactics_for}
use krnl_sentry.Output.Terminal.{ansi_show_cursor}

pub record ProcKey : Type 0 where
  pub comm : String
  pub pid : ℕ

abbrev pub proc_beq : ProcKey → ProcKey → Bool
proc_beq k l = k.comm == l.comm && k.pid == l.pid

pub proc_beq_iff : (k l : ProcKey) → (proc_beq k l ≡ true) ↔ (k ≡ l)
proc_beq_iff k l = ground (arith, eq_iff k.comm l.comm, nat_beq_iff k.pid l.pid)

instance abbrev pub proc_eq : Eq ProcKey
proc_eq = record { beq = proc_beq; beq_iff = proc_beq_iff }

-- How far a replay has read. The quotient is a float64 of the code: below 2^53 bytes it is 1 just
-- when all of the capture is read.
pub data Progress : Type 0 where
  not_applicable : Progress
  part : ℕ → ℕ → Progress

pub record Metrics : Type 0 where
  pub observed : ℕ
  pub queue_dropped : ℕ
  pub kernel_events : ℕ
  pub kernel_drops : ℕ
  pub write_errors : ℕ
  pub tracked_procs : ℕ
  pub storylines : ℕ
  pub attack_chains : ℕ
  pub suppressed : ℕ
  pub progress : Progress

-- A width or height of 0 is taken from the terminal.
pub record DashboardOptions : Type 0 where
  pub version : String
  pub mode : String
  pub scope : String
  pub source : String
  pub alert_path : String
  pub rules : List String
  pub min_severity : Severity
  pub color : Bool
  pub width : ℕ
  pub height : ℕ

-- `running` is set by Start: only the repaint loop closes `done`.
pub record Dashboard : Type 0 where
  pub opts : DashboardOptions
  pub running : Bool
  pub painted : Bool
  pub closed : Bool
  pub total : ℕ
  pub by_severity : List (Severity × ℕ)
  pub by_rule : List (String × ℕ)
  pub by_tactic : List (String × ℕ)
  pub by_process : List (ProcKey × ℕ)
  pub recent : List Alert
  pub last_chain : Option Alert

-- NewDashboard.
unfoldable pub new_dashboard : DashboardOptions → Dashboard
new_dashboard opts = record {
  opts = record opts { mode = if opts.mode == "" then "live" else opts.mode };
  running = false;
  painted = false;
  closed = false;
  total = 0;
  by_severity = [];
  by_rule = [];
  by_tactic = [];
  by_process = [];
  recent = [];
  last_chain = none;
}

abbrev pub recent_cap : ℕ
recent_cap = 64

module _ {ℓ} {K : Type ℓ} ⦃e : Eq K⦄ where
  -- m[k], with 0 for a missing key.
  unfoldable pub tally : K → List (K × ℕ) → ℕ
  tally k m = get_or_else (lookup k m) 0

  -- m[k]++ on uint64.
  unfoldable pub bump : K → List (K × ℕ) → List (K × ℕ)
  unfolding tally
  bump k m = insert k ((tally k m + 1) % 2 ^ 64) m

unfoldable pub bump_all : List Tactic → List (String × ℕ) → List (String × ℕ)
bump_all [] m = m
bump_all (t ∷ ts) m = bump_all ts (bump t.name m)

abbrev pub has_story : Alert → Bool
has_story a = ltb 0 (length a.story)

-- Write, for an alert that is not nil.
unfoldable pub write : Alert → Dashboard → Dashboard
write a d = record d {
  total = (d.total + 1) % 2 ^ 64;
  by_severity = bump a.severity d.by_severity;
  by_rule = bump a.rule d.by_rule;
  by_tactic = bump_all (tactics_for a) d.by_tactic;
  by_process = bump (record { comm = a.comm; pid = a.pid }) d.by_process;
  recent =
      (let all = d.recent ++ (a ∷ []) in
        if ltb recent_cap (length all) then drop (length all - recent_cap) all else all);
  last_chain = (if has_story a then some a else d.last_chain);
}

-- Start.
unfoldable pub start : Dashboard → Dashboard
start d = record d { running = true; painted = true }

-- What Close comes to: it returns, with an error or not, or waits for ever on `done`.
pub data Closing : Type 0 where
  waits : Closing
  returns : Option String → Closing

-- Close. `painted` is what the last Paint answers, `shown` what writing the cursor back answers.
unfoldable pub close : Option String → Option String → Dashboard → Dashboard × Closing
close painted shown d =
    let shut = record d { closed = true } in
    if d.closed
    then (d, returns none)
    else if not d.running
    then (shut, waits)
    else let final = record shut { running = false; painted = true } in
      elim painted [
        | some err ↦ (final, returns (some err))
        | none ↦ if d.opts.color then (final, returns shown) else (final, returns none)
      ]
