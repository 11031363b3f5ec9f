-- ===== src/Cmd/Pipeline.antt =====
-- cmd/krnlsentry/main.go: process, the queue of pump, and the counters. The log lines are left out.
pub mod Process
pub mod Queue
pub mod Account
use krnl_sentry.Base.{
  ℕ, ℤ, zero, suc, ◌+◌, ◌%◌, ◌^◌, ltb, String, Bool, true, false, List, [], ◌∷◌, ◌++◌, Option, none,
  some, if◌then◌else◌, length,
}
use krnl_sentry.Events.Event.{Event}
use krnl_sentry.Events.Record.{Record, Result}
use krnl_sentry.Detect.Alert.{Alert}
use krnl_sentry.Detect.Tracker.{tracker_len}
use krnl_sentry.Detect.Engine.{Engine, evaluate, stats}
use krnl_sentry.Output.Dashboard.{Metrics, Progress, not_applicable}
use krnl_sentry.Output.Sink.{LogSink, Sink, event_write, multi_write}
use krnl_sentry.Cmd.PidFilter.{PidFilter, allow}

-- Each counter is an atomic uint64.
pub record Counters : Type 0 where
  pub observed : ℕ
  pub alerts : ℕ
  pub queue_dropped : ℕ
  pub write_errors : ℕ

-- Add(1).
abbrev pub add_one : ℕ → ℕ
add_one n = (n + 1) % 2 ^ 64

-- What process works on.
pub record Agent : Type 0 where
  pub engine : Engine
  pub sinks : List (Option Sink)
  pub debug_sink : Option LogSink
  pub filter : Option PidFilter
  pub counters : Counters

-- One more write error, where there is an error.
unfoldable pub count_failure : Option String → Counters → Counters
count_failure none c = c
count_failure (some e) c = record c { write_errors = add_one c.write_errors }

-- filter == nil || filter.Allow(ev).
unfoldable pub admit_event : Event → Option PidFilter → Option PidFilter × Bool
admit_event ev none = (none, true)
admit_event ev (some f) = let r = allow ev f in (some r.0, r.1)

-- The JSON of alerts and records, the texts of a time in a record and on the console.
pub record Texts : Type 0 where
  pub alert_json : Alert → Result String
  pub record_json : Record → Result String
  pub format_time : ℤ → String
  pub clock : ℤ → String

module _ (texts : Texts) where
  -- The debug log, where there is one.
  unfoldable pub log_to : Option LogSink → Event → Agent → Agent
  log_to none ev g = g
  log_to (some s) ev g =
      let r = event_write texts.format_time texts.record_json ev s in
      record g { debug_sink = some r.0; counters = count_failure r.1 g.counters }

  -- One alert of an event.
  unfoldable pub raise : Alert → Agent → Agent
  raise a g =
      let r = multi_write texts.alert_json texts.clock a g.sinks in
      let c = record g.counters { alerts = add_one g.counters.alerts } in
      record g { sinks = r.0; counters = count_failure r.1 c }

  -- The loop over the alerts of an event.
  unfoldable pub raise_all : List Alert → Agent → Agent
  raise_all [] g = g
  raise_all (a ∷ alerts) g = raise_all alerts (raise a g)

  -- process, for an event that is in scope.
  unfoldable pub process_seen : Event → Agent → Agent
  process_seen ev g =
      let c = record g.counters { observed = add_one g.counters.observed } in
      let logged = log_to g.debug_sink ev (record g { counters = c }) in
      let r = evaluate ev logged.engine in raise_all r.1 (record logged { engine = r.0 })

  -- process.
  unfoldable pub process : Event → Agent → Agent
  process ev g =
      let scope = admit_event ev g.filter in
      let kept = record g { filter = scope.0 } in if scope.1 then process_seen ev kept else kept

  unfoldable pub process_all : List Event → Agent → Agent
  process_all [] g = g
  process_all (ev ∷ evs) g = process_all evs (process ev g)

abbrev pub event_queue_depth : ℕ
event_queue_depth = 4096

-- pump: the agent, and the events that wait for it. `collecting` says that the channel is open.
pub record Pump : Type 0 where
  pub agent : Agent
  pub queue : List Event
  pub collecting : Bool

-- The callback of the collector.
unfoldable pub arrive : Event → Pump → Pump
arrive ev p =
    let c = p.agent.counters in
    let full = record p {
      agent = record p.agent { counters = record c { queue_dropped = add_one c.queue_dropped } };
    } in
    if ltb (length p.queue) event_queue_depth
    then record p { queue = p.queue ++ (ev ∷ []) }
    else full

-- The loop takes the first of the events that wait, and waits itself where there is none.
unfoldable pub take_first : Texts → List Event → Pump → Pump
take_first texts [] p = p
take_first texts (ev ∷ rest) p = record p { agent = process texts ev p.agent; queue = rest }

-- What the goroutines of pump do, one step at a time: the collector hands an event over or comes to
-- its end, and the loop takes an event.
pub data Action : Type 0 where
  arrives : Event → Action
  takes : Action
  ends : Action

unfoldable pub act : Texts → Action → Pump → Pump
act texts (arrives ev) p = if p.collecting then arrive ev p else p
act texts takes p = take_first texts p.queue p
act texts ends p = record p { collecting = false }

unfoldable pub act_all : Texts → List Action → Pump → Pump
act_all texts [] p = p
act_all texts (a ∷ actions) p = act_all texts actions (act texts a p)

-- The kernel's counts, where the collector is attached and answers.
pub record KernelStats : Type 0 where
  pub events : ℕ
  pub dropped : ℕ

-- refresh: the snapshot of metricsSource.
unfoldable pub refresh : Bool → Progress → Option KernelStats → Agent → Metrics
refresh replaying progress kernel g =
    let es = stats g.engine in
    let k = elim kernel as (λ o. KernelStats) [
      | none ↦ record { events = 0; dropped = 0 }
      | some s ↦ s
    ] in
    record {
      observed = g.counters.observed;
      queue_dropped = g.counters.queue_dropped;
      kernel_events = k.events;
      kernel_drops = k.dropped;
      write_errors = g.counters.write_errors;
      tracked_procs = tracker_len g.engine.tracker;
      storylines = es.open_storylines;
      attack_chains = es.attack_chains;
      suppressed = es.suppressed;
      progress = if replaying then progress else not_applicable;
    }
