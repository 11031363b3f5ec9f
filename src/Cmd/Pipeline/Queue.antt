-- ===== src/Cmd/Pipeline/Queue.antt =====
-- Whatever the interleaving of collector and loop, no event is lost without being counted.
use krnl_sentry.Base.{
  ℕ, suc, ◌+◌, ◌-◌, ◌%◌, ◌^◌, ◌≤◌, ltb, String, Bool, true, false, List, [], ◌∷◌, ◌++◌, Option,
  none, some, if◌then◌else◌, ◌≡◌, refl, sym, ap, ◌∙◌, arith, length, Bool-cases, inl, inr,
}
use mathlib.Core.List.{append_assoc}
use krnl_sentry.Events.Event.{Event}
use krnl_sentry.Detect.Alert.{Alert}
use krnl_sentry.Detect.Engine.{evaluate}
use krnl_sentry.Output.Sink.{LogSink, event_write, multi_write}
use krnl_sentry.Cmd.Pipeline.{
  Counters, add_one, Agent, count_failure, admit_event, Texts, log_to, raise, raise_all,
  process_seen, process, process_all, event_queue_depth, Pump, arrive, take_first, Action, arrives,
  takes, ends, act,
}

-- Another count of dropped events.
abbrev set_dropped : ℕ → Counters → Counters
set_dropped n c = record c { queue_dropped = n }

abbrev pub with_dropped : ℕ → Agent → Agent
with_dropped n g = record g { counters = set_dropped n g.counters }

count_failure-set_dropped :
    (failure : Option String) (n : ℕ) (c : Counters)
    → count_failure failure (set_dropped n c) ≡ set_dropped n (count_failure failure c)
unfolding count_failure
count_failure-set_dropped none n c = refl
count_failure-set_dropped (some e) n c = refl

module _ (texts : Texts) (n : ℕ) where
  raise-with_dropped :
      (a : Alert) (g : Agent) → raise texts a (with_dropped n g) ≡ with_dropped n (raise texts a g)
  unfolding raise
  raise-with_dropped a g =
      let r = multi_write texts.alert_json texts.clock a g.sinks in
      let c = record g.counters { alerts = add_one g.counters.alerts } in
      ap (λ d. record g { sinks = r.0; counters = d }) (count_failure-set_dropped r.1 n c)

  raise_all-with_dropped :
      (alerts : List Alert) (g : Agent)
      → raise_all texts alerts (with_dropped n g) ≡ with_dropped n (raise_all texts alerts g)
  unfolding raise_all
  raise_all-with_dropped [] g = refl
  raise_all-with_dropped (a ∷ alerts) g =
      ap (raise_all texts alerts) (raise-with_dropped a g)
      ∙ raise_all-with_dropped alerts (raise texts a g)

  log_to-with_dropped :
      (sink : Option LogSink) (ev : Event) (g : Agent)
      → log_to texts sink ev (with_dropped n g) ≡ with_dropped n (log_to texts sink ev g)
  unfolding log_to
  log_to-with_dropped none ev g = refl
  log_to-with_dropped (some s) ev g =
      let r = event_write texts.format_time texts.record_json ev s in
      ap (λ d. record g { debug_sink = some r.0; counters = d })
        (count_failure-set_dropped r.1 n g.counters)

  process_seen-with_dropped :
      (ev : Event) (g : Agent)
      → process_seen texts ev (with_dropped n g) ≡ with_dropped n (process_seen texts ev g)
  unfolding process_seen
  process_seen-with_dropped ev g =
      let c = record g.counters { observed = add_one g.counters.observed } in
      let logged = log_to texts g.debug_sink ev (record g { counters = c }) in
      let r = evaluate ev logged.engine in
      ap
        (λ l.
          raise_all texts (evaluate ev l.engine).1 (record l { engine = (evaluate ev l.engine).0 }))
        (log_to-with_dropped g.debug_sink ev (record g { counters = c }))
      ∙ raise_all-with_dropped r.1 (record logged { engine = r.0 })

  process-with_dropped :
      (ev : Event) (g : Agent)
      → process texts ev (with_dropped n g) ≡ with_dropped n (process texts ev g)
  unfolding process
  process-with_dropped ev g = elim (Bool-cases (admit_event ev g.filter).1) [
    | inr out ↦ rw out refl
    | inl seen ↦
        rw seen (process_seen-with_dropped ev (record g { filter = (admit_event ev g.filter).0 }))
  ]

  pub process_all-with_dropped :
      (evs : List Event) (g : Agent)
      → process_all texts evs (with_dropped n g) ≡ with_dropped n (process_all texts evs g)
  unfolding process_all
  process_all-with_dropped [] g = refl
  process_all-with_dropped (ev ∷ evs) g =
      ap (process_all texts evs) (process-with_dropped ev g)
      ∙ process_all-with_dropped evs (process texts ev g)

-- The arrivals that find room: `waiting` events are in the queue.
abbrev pub kept : List Action → Bool → ℕ → List Event
kept [] collecting waiting = []
kept (arrives ev ∷ actions) collecting waiting =
    if collecting
    then (if ltb waiting event_queue_depth
        then ev ∷ kept actions collecting (waiting + 1)
        else kept actions collecting waiting)
    else kept actions collecting waiting
kept (takes ∷ actions) collecting waiting = kept actions collecting (waiting - 1)
kept (ends ∷ actions) collecting waiting = kept actions false waiting

-- The number of those that find none.
abbrev pub lost : List Action → Bool → ℕ → ℕ
lost [] collecting waiting = 0
lost (arrives ev ∷ actions) collecting waiting =
    if collecting
    then (if ltb waiting event_queue_depth
        then lost actions collecting (waiting + 1)
        else suc (lost actions collecting waiting))
    else lost actions collecting waiting
lost (takes ∷ actions) collecting waiting = lost actions collecting (waiting - 1)
lost (ends ∷ actions) collecting waiting = lost actions false waiting

-- Where some actions have led from p: the events done, and those that wait, are the ones that found
-- room, in their order, and the others are counted.
abbrev pub Accounts : Texts → List Action → Pump → Pump → Type 0
Accounts texts actions p q =
    (finished : List Event) × (finished ++ q.queue
      ≡ p.queue ++ kept actions p.collecting (length p.queue))
    × (q.agent
        ≡ with_dropped
            ((p.agent.counters.queue_dropped + lost actions p.collecting (length p.queue)) % 2 ^ 64)
            (process_all texts finished p.agent))
    × (length q.queue ≤ event_queue_depth)

-- What an arrival adds to the two counts.
module _ (ev : Event) (actions : List Action) (collecting : Bool) (waiting : ℕ) where
  pub kept_room :
      collecting ≡ true
      → ltb waiting event_queue_depth ≡ true
      → kept (arrives ev ∷ actions) collecting waiting ≡ ev ∷ kept actions collecting (waiting + 1)
  kept_room on room = rw (on, room) refl

  pub lost_room :
      collecting ≡ true
      → ltb waiting event_queue_depth ≡ true
      → lost (arrives ev ∷ actions) collecting waiting ≡ lost actions collecting (waiting + 1)
  lost_room on room = rw (on, room) refl

  pub kept_full :
      collecting ≡ true
      → ltb waiting event_queue_depth ≡ false
      → kept (arrives ev ∷ actions) collecting waiting ≡ kept actions collecting waiting
  kept_full on full = rw (on, full) refl

  pub lost_full :
      collecting ≡ true
      → ltb waiting event_queue_depth ≡ false
      → lost (arrives ev ∷ actions) collecting waiting ≡ suc (lost actions collecting waiting)
  lost_full on full = rw (on, full) refl

  pub kept_ended :
      collecting ≡ false
      → kept (arrives ev ∷ actions) collecting waiting ≡ kept actions collecting waiting
  kept_ended off = rw off refl

  pub lost_ended :
      collecting ≡ false
      → lost (arrives ev ∷ actions) collecting waiting ≡ lost actions collecting waiting
  lost_ended off = rw off refl

module _ (texts : Texts) where
  pub act-arrives :
      (ev : Event) (p : Pump) → p.collecting ≡ true → act texts (arrives ev) p ≡ arrive ev p
  unfolding act
  act-arrives ev p on = rw on refl

  pub act_ended : (ev : Event) (p : Pump) → p.collecting ≡ false → act texts (arrives ev) p ≡ p
  unfolding act
  act_ended ev p off = rw off refl

  pub arrive_room :
      (ev : Event) (p : Pump)
      → ltb (length p.queue) event_queue_depth ≡ true
      → arrive ev p ≡ record p { queue = p.queue ++ (ev ∷ []) }
  unfolding arrive
  arrive_room ev p room = rw room refl

  pub arrive_full :
      (ev : Event) (p : Pump)
      → ltb (length p.queue) event_queue_depth ≡ false
      → arrive ev p
        ≡ record p { agent = with_dropped (add_one p.agent.counters.queue_dropped) p.agent }
  unfolding arrive
  arrive_full ev p full = rw full refl

  -- The part of the account that does not depend on how the counts are written.
  abbrev pub Balances : Pump → Pump → List Event → ℕ → Type 0
  Balances p q events dropped =
      (finished : List Event) × (finished ++ q.queue ≡ p.queue ++ events)
      × (q.agent
          ≡ with_dropped ((p.agent.counters.queue_dropped + dropped) % 2 ^ 64)
              (process_all texts finished p.agent))
      × (length q.queue ≤ event_queue_depth)

  pub room_Balances :
      (ev : Event) (p q : Pump) (events : List Event) (dropped : ℕ)
      → Balances (record p { queue = p.queue ++ (ev ∷ []) }) q events dropped
      → Balances p q (ev ∷ events) dropped
  room_Balances ev p q events dropped (finished, order, agent, few) =
      (finished, order ∙ append_assoc p.queue (ev ∷ []) events, agent, few)

  pub full_Balances :
      (p q : Pump) (events : List Event) (dropped : ℕ)
      → Balances
          (record p { agent = with_dropped (add_one p.agent.counters.queue_dropped) p.agent })
          q
          events
          dropped
      → Balances p q events (suc dropped)
  full_Balances p q events dropped (finished, order, agent, few) =
      let d = p.agent.counters.queue_dropped in
      let sum : (add_one d + dropped) % 2 ^ 64 ≡ (d + suc dropped) % 2 ^ 64 = omega arith in
      (
        finished,
        order,
        agent
            ∙ ap (with_dropped ((add_one d + dropped) % 2 ^ 64))
                (process_all-with_dropped texts (add_one d) finished p.agent)
            ∙ ap (λ n. with_dropped n (process_all texts finished p.agent)) sum,
        few,
      )

  pub process-queue_dropped :
      (ev : Event) (g : Agent)
      → (process texts ev g).counters.queue_dropped ≡ g.counters.queue_dropped
  process-queue_dropped ev g =
      ap (λ h. h.counters.queue_dropped) (process-with_dropped texts g.counters.queue_dropped ev g)

  pub taken_Balances :
      (ev : Event) (rest : List Event) (p q : Pump) (events : List Event) (dropped : ℕ)
      → p.queue ≡ ev ∷ rest
      → Balances (record p { agent = process texts ev p.agent; queue = rest }) q events dropped
      → Balances p q events dropped
  unfolding process_all
  taken_Balances ev rest p q events dropped found (finished, order, agent, few) = (
    ev ∷ finished,
    ap (λ l. ev ∷ l) order ∙ ap (λ l. l ++ events) (sym found),
    agent
        ∙ ap
            (λ d.
              with_dropped ((d + dropped) % 2 ^ 64)
                (process_all texts finished (process texts ev p.agent)))
            (process-queue_dropped ev p.agent),
    few,
  )

  pub take_some :
      (ev : Event) (rest : List Event) (p : Pump)
      → p.queue ≡ ev ∷ rest
      → act texts takes p ≡ record p { agent = process texts ev p.agent; queue = rest }
  unfolding act take_first
  take_some ev rest p found = ap (λ l. take_first texts l p) found

  pub take_none : (p : Pump) → p.queue ≡ [] → act texts takes p ≡ p
  unfolding act take_first
  take_none p empty = ap (λ l. take_first texts l p) empty
