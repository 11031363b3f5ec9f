-- ===== src/Cmd/Pipeline/Process.antt =====
-- What process does with events: the engine's run over those in scope, each alert to each sink.
use krnl_sentry.Base.{
  ℕ, suc, ◌+◌, ◌%◌, ◌^◌, ◌<◌, String, true, false, List, [], ◌∷◌, ◌++◌, map, Option, none, some,
  if◌then◌else◌, ◌≡◌, refl, sym, ap, subst, ◌∙◌, arith, length, length-append, Bool-cases, inl, inr,
}
use krnl_sentry.Events.Event.{Event}
use krnl_sentry.Detect.Alert.{Alert}
use krnl_sentry.Detect.Engine.{Engine, evaluate, evaluate_all}
use krnl_sentry.Output.Dashboard.{Dashboard, write}
use krnl_sentry.Output.Dashboard.Counters.{write_all}
use krnl_sentry.Output.Sink.{LogSink, Sink, display, sink_write, event_write, multi_write}
use krnl_sentry.Output.Sink.Fan.{alone, multi_write-map}
use krnl_sentry.Cmd.PidFilter.{PidFilter}
use krnl_sentry.Cmd.Pipeline.{
  Counters, add_one, Agent, count_failure, admit_event, Texts, log_to, raise, raise_all,
  process_seen, process, process_all,
}

-- The filter after some events, and the events that it lets pass.
unfoldable pub passing : Option PidFilter → List Event → Option PidFilter × List Event
passing f [] = (f, [])
passing f (ev ∷ evs) =
    let r = admit_event ev f in
    let later = passing r.0 evs in (later.0, if r.1 then ev ∷ later.1 else later.1)

module _ (texts : Texts) where
  -- What a sink becomes that is given some alerts, one after the other.
  abbrev pub given : List Alert → Option Sink → Option Sink
  given [] s = s
  given (a ∷ alerts) s = given alerts (alone texts.alert_json texts.clock a s)

  given-append :
      (front back : List Alert) (s : Option Sink)
      → given (front ++ back) s ≡ given back (given front s)
  given-append [] back s = refl
  given-append (a ∷ front) back s = given-append front back (alone texts.alert_json texts.clock a s)

  map-given :
      (front back : List Alert) (sinks : List (Option Sink))
      → map (given back) (map (given front) sinks) ≡ map (given (front ++ back)) sinks
  map-given front back [] = refl
  map-given front back (s ∷ sinks) = rw (map-given front back sinks, given-append front back s) refl

  map-given_nil : (sinks : List (Option Sink)) → map (given []) sinks ≡ sinks
  map-given_nil [] = refl
  map-given_nil (s ∷ sinks) = ap (λ l. s ∷ l) (map-given_nil sinks)

  given-display :
      (alerts : List Alert) (d : Dashboard)
      → given alerts (some (display d)) ≡ some (display (write_all alerts d))
  unfolding sink_write write_all
  given-display [] d = refl
  given-display (a ∷ alerts) d = given-display alerts (write a d)

  -- What stays and what changes from g to h when `seen` events pass and `alerts` are raised.
  abbrev pub Follows : Agent → Agent → Engine → ℕ → List Alert → Type 0
  Follows g h engine seen alerts =
      (h.engine ≡ engine)
      × (h.counters.observed ≡ (g.counters.observed + seen) % 2 ^ 64)
      × (h.counters.alerts ≡ (g.counters.alerts + length alerts) % 2 ^ 64)
      × (h.counters.queue_dropped ≡ g.counters.queue_dropped)
      × (h.sinks ≡ map (given alerts) g.sinks)

  count_failure-keeps :
      (failure : Option String) (c : Counters)
      → ((count_failure failure c).observed ≡ c.observed)
        × ((count_failure failure c).alerts ≡ c.alerts)
        × ((count_failure failure c).queue_dropped ≡ c.queue_dropped)
  unfolding count_failure
  count_failure-keeps none c = (refl, refl, refl)
  count_failure-keeps (some e) c = (refl, refl, refl)

  raise_lem :
      (a : Alert) (g : Agent)
      → ((raise texts a g).engine ≡ g.engine)
        × ((raise texts a g).filter ≡ g.filter)
        × ((raise texts a g).counters.observed ≡ g.counters.observed)
        × ((raise texts a g).counters.alerts ≡ add_one g.counters.alerts)
        × ((raise texts a g).counters.queue_dropped ≡ g.counters.queue_dropped)
        × ((raise texts a g).sinks ≡ map (alone texts.alert_json texts.clock a) g.sinks)
  unfolding raise
  raise_lem a g =
      let c = record g.counters { alerts = add_one g.counters.alerts } in
      let r = multi_write texts.alert_json texts.clock a g.sinks in
      let kept = count_failure-keeps r.1 c in
      (
        refl,
        refl,
        kept.0,
        kept.1,
        kept.2,
        ap (λ p. p.0) (multi_write-map texts.alert_json texts.clock a g.sinks),
      )

  Follows-trans :
      (g h k : Agent) (e1 e2 : Engine) (m n : ℕ) (front back : List Alert)
      → Follows g h e1 m front
      → Follows h k e2 n back
      → Follows g k e2 (m + n) (front ++ back)
  Follows-trans g h k e1 e2 m n front back first second = (
    second.0,
    omega (arith, first.1, second.1),
    omega (arith, first.2, second.2, length-append front back),
    second.3 ∙ first.3,
    second.4 ∙ ap (map (given back)) first.4 ∙ map-given front back g.sinks,
  )

  raise_all-Follows :
      (alerts : List Alert) (g : Agent)
      → g.counters.observed < 2 ^ 64
      → g.counters.alerts < 2 ^ 64
      → Follows g (raise_all texts alerts g) g.engine 0 alerts
        × ((raise_all texts alerts g).filter ≡ g.filter)
  unfolding raise_all
  raise_all-Follows [] g ho ha =
      ((refl, omega arith, omega arith, refl, sym (map-given_nil g.sinks)), refl)
  raise_all-Follows (a ∷ alerts) g ho ha =
      let (engine, filter, observed, count, dropped, sinks) = raise_lem a g in
      let (later, kept) =
        raise_all-Follows alerts (raise texts a g) (omega (arith, observed))
          (omega (arith, count)) in
      (
        (
          later.0 ∙ engine,
          omega (arith, later.1, observed),
          omega (arith, later.2, count),
          later.3 ∙ dropped,
          later.4 ∙ ap (map (given alerts)) sinks ∙ map-given (a ∷ []) alerts g.sinks,
        ),
        kept ∙ filter,
      )

  -- What the debug log leaves alone.
  abbrev Keeps : Agent → Agent → Type 0
  Keeps g h =
      (h.engine ≡ g.engine)
      × (h.filter ≡ g.filter)
      × (h.sinks ≡ g.sinks)
      × (h.counters.observed ≡ g.counters.observed)
      × (h.counters.alerts ≡ g.counters.alerts)
      × (h.counters.queue_dropped ≡ g.counters.queue_dropped)

  log_to-Keeps : (sink : Option LogSink) (ev : Event) (g : Agent) → Keeps g (log_to texts sink ev g)
  unfolding log_to
  log_to-Keeps none ev g = (refl, refl, refl, refl, refl, refl)
  log_to-Keeps (some s) ev g =
      let kept =
        count_failure-keeps (event_write texts.format_time texts.record_json ev s).1 g.counters in
      (refl, refl, refl, kept.0, kept.1, kept.2)

  process_seen-Follows :
      (ev : Event) (g : Agent)
      → g.counters.observed < 2 ^ 64
      → g.counters.alerts < 2 ^ 64
      → Follows g (process_seen texts ev g) (evaluate ev g.engine).0 1 (evaluate ev g.engine).1
        × ((process_seen texts ev g).filter ≡ g.filter)
  unfolding process_seen
  process_seen-Follows ev g ho ha =
      let c = record g.counters { observed = add_one g.counters.observed } in
      let logged = log_to texts g.debug_sink ev (record g { counters = c }) in
      let (engine, filter, sinks, observed, count, dropped) =
        log_to-Keeps g.debug_sink ev (record g { counters = c }) in
      let r = evaluate ev logged.engine in
      let (later, kept) =
        raise_all-Follows r.1 (record logged { engine = r.0 }) (omega (arith, observed))
          (omega (arith, count, ha)) in
      let same = ap (evaluate ev) engine in
      (
        (
          later.0 ∙ ap (λ p. p.0) same,
          omega (arith, later.1, observed),
          omega (arith, later.2, count, ap (λ p. length p.1) same),
          later.3 ∙ dropped,
          later.4 ∙ ap (map (given r.1)) sinks ∙ ap (λ p. map (given p.1) g.sinks) same,
        ),
        kept ∙ filter,
      )

  process-out :
      (ev : Event) (g : Agent)
      → (admit_event ev g.filter).1 ≡ false
      → process texts ev g ≡ record g { filter = (admit_event ev g.filter).0 }
  unfolding process
  process-out ev g h = rw h refl

  process-in :
      (ev : Event) (g : Agent)
      → (admit_event ev g.filter).1 ≡ true
      → process texts ev g
        ≡ process_seen texts ev (record g { filter = (admit_event ev g.filter).0 })
  unfolding process
  process-in ev g h = rw h refl

  -- What a run comes to that sees some events and leaves a filter.
  abbrev pub Comes : Agent → Agent → Option PidFilter → List Event → Type 0
  Comes g h filter seen =
      let raised = evaluate_all seen g.engine in
      Follows g h raised.0 (length seen) raised.1 × (h.filter ≡ filter)

  Comes-first :
      (ev : Event) (seen : List Event) (filter : Option PidFilter) (g h k : Agent)
      → Follows g h (evaluate ev g.engine).0 1 (evaluate ev g.engine).1
      → Comes h k filter seen
      → Comes g k filter (ev ∷ seen)
  unfolding evaluate_all
  Comes-first ev seen filter g h k first (later, kept) =
      let r = evaluate ev g.engine in
      let rest = evaluate_all seen r.0 in
      let moved =
        subst (λ e. Follows h k (evaluate_all seen e).0 (length seen) (evaluate_all seen e).1)
          first.0 later in
      let both = Follows-trans g h k r.0 rest.0 1 (length seen) r.1 rest.1 first moved in
      let size : 1 + length seen ≡ suc (length seen) = omega arith in
      (subst (λ n. Follows g k rest.0 n (r.1 ++ rest.1)) size both, kept)

  passing-in :
      (ev : Event) (evs : List Event) (f : Option PidFilter)
      → (admit_event ev f).1 ≡ true
      → passing f (ev ∷ evs)
        ≡ ((passing (admit_event ev f).0 evs).0, ev ∷ (passing (admit_event ev f).0 evs).1)
  unfolding passing
  passing-in ev evs f h = rw h refl

  passing-out :
      (ev : Event) (evs : List Event) (f : Option PidFilter)
      → (admit_event ev f).1 ≡ false
      → passing f (ev ∷ evs) ≡ passing (admit_event ev f).0 evs
  unfolding passing
  passing-out ev evs f h = rw h refl

  process_all-Comes :
      (evs : List Event) (g : Agent)
      → g.counters.observed < 2 ^ 64
      → g.counters.alerts < 2 ^ 64
      → Comes g (process_all texts evs g) (passing g.filter evs).0 (passing g.filter evs).1
  unfolding process_all passing
  process_all-Comes [] g ho ha =
      unfold evaluate_all in
      ((refl, omega arith, omega arith, refl, sym (map-given_nil g.sinks)), refl)
  process_all-Comes (ev ∷ evs) g ho ha =
      let scope = admit_event ev g.filter in
      let kept = record g { filter = scope.0 } in
      elim (Bool-cases scope.1) [
        | inr out ↦
            subst
              (λ h.
                Comes g (process_all texts evs h) (passing g.filter (ev ∷ evs)).0
                  (passing g.filter (ev ∷ evs)).1)
              (sym (process-out ev g out))
              (subst (λ p. Comes g (process_all texts evs kept) p.0 p.1)
                (sym (passing-out ev evs g.filter out)) (process_all-Comes evs kept ho ha))
        | inl seen ↦
            let next = process_seen texts ev kept in
            let (first, same) = process_seen-Follows ev kept ho ha in
            let ih = process_all-Comes evs next (omega (arith, first.1)) (omega (arith, first.2)) in
            let moved =
              subst
                (λ f. Comes next (process_all texts evs next) (passing f evs).0 (passing f evs).1)
                same ih in
            let both =
              Comes-first ev (passing scope.0 evs).1 (passing scope.0 evs).0 g next
                (process_all texts evs next) first moved in
            subst
              (λ h.
                Comes g (process_all texts evs h) (passing g.filter (ev ∷ evs)).0
                  (passing g.filter (ev ∷ evs)).1)
              (sym (process-in ev g seen))
              (subst (λ p. Comes g (process_all texts evs next) p.0 p.1)
                (sym (passing-in ev evs g.filter seen)) both)
      ]

  -- For every agent whose counters are below 2^64 and all events: after process on each of them, the
  -- engine has come to the state that Evaluate brings it to on the events that the filter lets pass,
  -- and no others; `observed` has grown by their number and `alerts` by the number of alerts that
  -- those calls returned, modulo 2^64; and each sink, whatever the others and the debug log
  -- answered, is as if it alone had been given all these alerts in their order: a dashboard holds
  -- every one of them.
  pub process_all_lem :
      (evs : List Event) (g : Agent)
      → g.counters.observed < 2 ^ 64
      → g.counters.alerts < 2 ^ 64
      → let seen = passing g.filter evs in
        let raised = evaluate_all seen.1 g.engine in
        Comes g (process_all texts evs g) seen.0 seen.1
        × ((d : Dashboard)
            → given raised.1 (some (display d)) ≡ some (display (write_all raised.1 d)))
  process_all_lem evs g ho ha = (process_all-Comes evs g ho ha, λ d. given-display _ d)
