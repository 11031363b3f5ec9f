-- ===== src/Tests/Pipeline.antt =====
-- The properties of the pipeline at concrete inputs.
use krnl_sentry.Base.{◌+◌, ◌%◌, ◌^◌, ◌≤◌, true, List, [], ◌∷◌, ◌++◌, none, some, ◌≡◌, arith, length}
use krnl_sentry.Events.Record.{ok}
use krnl_sentry.Detect.Tracker.{new_tracker}
use krnl_sentry.Detect.Dedup.{new_deduper}
use krnl_sentry.Detect.Storyline.{new_correlator}
use krnl_sentry.Detect.Engine.{Engine, all_rules, evaluate_all}
use krnl_sentry.Output.Dashboard.{Dashboard}
use krnl_sentry.Output.Dashboard.Counters.{write_all}
use krnl_sentry.Output.Sink.{fails, LogSink, jsonl, display}
use krnl_sentry.Cmd.Pipeline.{
  Agent, Texts, process_all, event_queue_depth, Pump, Action, arrives, takes, ends, act, act_all,
}
use krnl_sentry.Cmd.Pipeline.Process.{passing, given, Comes, process_all_lem}
use krnl_sentry.Cmd.Pipeline.Queue.{Accounts, kept, lost, with_dropped}
use krnl_sentry.Cmd.Pipeline.Account.{act_all-Accounts, act_all_drains, drain}
use krnl_sentry.Tests.Data.{connect_event, setuid_event, exec_event, quiet_config}

abbrev texts : Texts
texts = record {
  alert_json = λ a. ok "{}\n";
  record_json = λ r. ok "{}\n";
  format_time = λ time. "";
  clock = λ time. "00:00:00.000";
}

abbrev engine : Engine
engine = record {
  rules = all_rules;
  tracker = new_tracker;
  correlator = new_correlator quiet_config.storyline;
  dedup = new_deduper quiet_config.dedup_window;
  cfg = quiet_config;
}

-- An alert log that refuses its first line.
abbrev log : LogSink
log = record {
  open_file = true;
  failure = none;
  file = record { text = []; answers = fails 1 "no space left on device" ∷ [] };
  path = "alerts.jsonl";
}

abbrev agent : Agent
agent = record {
  engine = engine;
  sinks = some (jsonl log) ∷ [];
  debug_sink = none;
  filter = some (record { root = 900; tracked = (900, true) ∷ [] });
  counters = record { observed = 0; alerts = 0; queue_dropped = 0; write_errors = 0 };
}

process_all_lem_example :
    (let seen = passing agent.filter (setuid_event ∷ exec_event ∷ []) in
      let raised = evaluate_all seen.1 agent.engine in
      Comes texts agent (process_all texts (setuid_event ∷ exec_event ∷ []) agent) seen.0 seen.1
      × ((d : Dashboard)
          → given texts raised.1 (some (display d)) ≡ some (display (write_all raised.1 d))))
process_all_lem_example =
    process_all_lem texts (setuid_event ∷ exec_event ∷ []) agent (omega arith) (omega arith)

abbrev waiting : Pump
waiting = record { agent = agent; queue = connect_event ∷ []; collecting = true }

abbrev actions : List Action
actions = arrives setuid_event ∷ takes ∷ arrives exec_event ∷ []

act_all-Accounts_example : Accounts texts actions waiting (act_all texts actions waiting)
act_all-Accounts_example = act_all-Accounts texts actions waiting (omega arith) (omega arith)

act_all_drains_example :
    (let q = act_all texts actions waiting in
      let end = act_all texts (drain texts (length q.queue)) (act texts ends q) in
      (length q.queue ≤ event_queue_depth)
      × (end.queue ≡ [])
      × (end.agent
          ≡ with_dropped
              ((0 + lost actions true 1) % 2 ^ 64)
              (process_all texts ((connect_event ∷ []) ++ kept actions true 1) agent)))
act_all_drains_example = act_all_drains texts actions waiting (omega arith) (omega arith)
