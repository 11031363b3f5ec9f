-- ===== src/Tests/Output.antt =====
-- The properties of the dashboard and the sinks at concrete inputs.
use krnl_sentry.Base.{
  ℕ, ℤ, pos, ◌-◌, ◌≤◌, String, true, false, List, [], ◌∷◌, Option, none, some, ◌≡◌, ◌↔◌, ◌⊎◌, refl,
  arith,
}
use krnl_sentry.Events.Record.{Result, ok}
use krnl_sentry.Detect.Alert.{Alert}
use krnl_sentry.Output.Terminal.{visible_len, occurrences}
use krnl_sentry.Output.Terminal.Columns.{done, ◌▹◌}
use krnl_sentry.Output.Dashboard.{
  Dashboard, DashboardOptions, Metrics, not_applicable, new_dashboard, waits, returns,
}
use krnl_sentry.Output.Dashboard.Counters.{write_all, Shows, write_all-Shows}
use krnl_sentry.Output.Dashboard.Widgets.{Terminal, alert_columns}
use krnl_sentry.Output.Dashboard.Panels.{rule_names, add_missing, fired_names}
use krnl_sentry.Output.Dashboard.Feed.{feed_row}
use krnl_sentry.Output.Dashboard.Row.{FillsWidth, feed_row-width}
use krnl_sentry.Output.Dashboard.Frame.{Moment, full_layout, render}
use krnl_sentry.Output.Dashboard.Frame.Fit.{Returns, render-Returns}
use krnl_sentry.Output.Dashboard.Frame.Usable.{IsUsable, render_usable}
use krnl_sentry.Output.Sink.{succeeds, fails, File, LogSink, Sink, display, jsonl, multi_close}
use krnl_sentry.Output.Sink.Log.{LogCall, write_alert, close_log}
use krnl_sentry.Output.Sink.Fan.{any_stuck, multi_close_lem}
use krnl_sentry.Tests.Data.{setuid_alert}

abbrev options : DashboardOptions
options = record {
  version = "1.0";
  mode = "live";
  scope = "all processes";
  source = "";
  alert_path = "alerts.jsonl";
  rules = "reverse-shell" ∷ [];
  min_severity = 1;
  color = true;
  width = 0;
  height = 0;
}

abbrev board : Dashboard
board = record {
  opts = options;
  running = false;
  painted = false;
  closed = false;
  total = 1;
  by_severity = (2, 1) ∷ [];
  by_rule = [];
  by_tactic = [];
  by_process = [];
  recent = setuid_alert ∷ [];
  last_chain = none;
}

abbrev quiet : Metrics
quiet = record {
  observed = 1000;
  queue_dropped = 0;
  kernel_events = 1200;
  kernel_drops = 0;
  write_errors = 0;
  tracked_procs = 4;
  storylines = 0;
  attack_chains = 0;
  suppressed = 0;
  progress = not_applicable;
}

abbrev moment : ℕ → Moment
moment k = record { dashboard = board; metrics = quiet; uptime = pos 5000000000 }

abbrev small_terminal : Terminal
small_terminal = record { cols = 80; rows = 24; env_columns = none; env_lines = none }

abbrev midnight : ℤ → String
midnight time = "00:00:00.000"

abbrev no_scale : ℕ → ℕ → ℕ → ℕ
no_scale n d w = 0

board-IsUsable : IsUsable board
unfolding occurrences rule_names add_missing fired_names
board-IsUsable = record {
  run = record {
    version = refl;
    mode = refl;
    scope = refl;
    source = refl;
    alert_path = refl;
    names = refl ▹ done;
  };
  rules = omega arith;
  feed = ((refl, refl, refl, refl), tt);
  chain = tt;
}

one_line : (time : ℤ) → occurrences 10 (midnight time) ≡ 0
unfolding occurrences
one_line time = refl

render_usable_example :
    (frame : String) × (render no_scale midnight small_terminal moment 24 ≡ some frame)
    × (occurrences 10 frame ≤ 24 - 1)
render_usable_example =
    render_usable no_scale midnight one_line small_terminal moment 24 (λ k. board-IsUsable)
      (omega arith)

render-Returns_example :
    Returns no_scale midnight small_terminal
      (render no_scale midnight small_terminal moment 10)
      moment
      (10 - 1)
      0
      full_layout
render-Returns_example = render-Returns no_scale midnight small_terminal moment 10

write_all-Shows_example :
    Shows
      (write_all (setuid_alert ∷ setuid_alert ∷ []) (new_dashboard options))
      (setuid_alert ∷ setuid_alert ∷ [])
write_all-Shows_example = write_all-Shows options (setuid_alert ∷ setuid_alert ∷ [])

feed_row-width_example :
    (visible_len (feed_row midnight true (alert_columns 100) setuid_alert) ≤ 100)
    × FillsWidth 100 (alert_columns 100)
unfolding occurrences
feed_row-width_example =
    feed_row-width midnight (λ time. (refl, omega arith)) true 100 setuid_alert (omega arith)
      (refl, refl, refl, refl)

-- Two writes, the second refused, a close, and a write that comes too late.
abbrev calls : List LogCall
calls =
    write_alert setuid_alert ∷ write_alert setuid_alert ∷ close_log ∷ write_alert setuid_alert ∷ []

abbrev disk : File
disk = record { text = []; answers = succeeds ∷ fails 1 "no space left on device" ∷ [] }

abbrev log : LogSink
log = record { open_file = true; file = disk; failure = none; path = "alerts.jsonl" }

abbrev to_json : Alert → Result String
to_json a = ok "{}\n"

-- A log behind a dashboard that was not started.
abbrev sinks : List (Option Sink)
sinks = some (display board) ∷ none ∷ some (jsonl log) ∷ []

multi_close_lem_example :
    (((multi_close none none sinks).1 ≡ waits) ↔ (any_stuck sinks ≡ true))
    × ((any_stuck sinks ≡ true)
        ⊎ (multi_close none none (multi_close none none sinks).0
            ≡ ((multi_close none none sinks).0, returns none)))
multi_close_lem_example = multi_close_lem none none sinks
