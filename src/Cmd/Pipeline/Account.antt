-- ===== src/Cmd/Pipeline/Account.antt =====
-- The account of a run of the pipeline, and that it is drained.
use krnl_sentry.Base.{
  ℕ, zero, suc, ◌+◌, ◌-◌, ◌%◌, ◌^◌, ◌≤◌, ◌<◌, ltb, false, List, [], ◌∷◌, ◌++◌, ◌≡◌, ◌⊎◌, refl, sym,
  ap, subst, ◌∙◌, arith, length, length-append, Bool-cases, inl, inr,
}
use mathlib.Core.List.{append-nil}
use krnl_sentry.Events.Event.{Event}
use krnl_sentry.Cmd.Pipeline.{
  add_one, Agent, Texts, process, process_all, event_queue_depth, Pump, Action, arrives, takes,
  ends, act, act_all,
}
use krnl_sentry.Cmd.Pipeline.Queue.{
  with_dropped, kept, lost, Accounts, kept_room, lost_room, kept_full, lost_full, kept_ended,
  lost_ended, act-arrives, act_ended, arrive_room, arrive_full, Balances, room_Balances,
  full_Balances, taken_Balances, take_some, take_none, process-queue_dropped,
  process_all-with_dropped,
}

Queue-cases : (q : List Event) → (q ≡ []) ⊎ ((ev : Event) × (rest : List Event) × (q ≡ ev ∷ rest))
Queue-cases [] = inl refl
Queue-cases (ev ∷ rest) = inr (ev, rest, refl)

module _ (texts : Texts) where
  -- The account of the actions that follow r, seen from p, where n events wait.
  abbrev After : Pump → List Action → ℕ → Pump → Type 0
  After p actions n r =
      Balances texts p (act_all texts actions r) (kept actions p.collecting n)
        (lost actions p.collecting n)

  -- The same account, its counts written otherwise, of a step that came to r.
  recount :
      (p r q : Pump) (actions : List Action) (l k : List Event) (m n : ℕ)
      → q ≡ r
      → l ≡ k
      → m ≡ n
      → Balances texts p (act_all texts actions r) k n
      → Balances texts p (act_all texts actions q) l m
  recount p r q actions l k m n step events dropped h =
      subst (λ s. Balances texts p (act_all texts actions s) l m) (sym step)
        (subst (λ i. Balances texts p (act_all texts actions r) l i) (sym dropped)
          (subst (λ i. Balances texts p (act_all texts actions r) i n) (sym events) h))

  -- For all actions of collector and loop, in whatever order they come, from a queue of at most 4096
  -- events and a count of drops below 2^64: the events done and those that still wait are, in their
  -- order, the events that waited and the arrivals that found room; the agent is as if it had
  -- processed the events done, one after the other, with no queue between; the drops are counted
  -- exactly, modulo 2^64; and at most 4096 events wait.
  pub act_all-Accounts :
      (actions : List Action) (p : Pump)
      → length p.queue ≤ event_queue_depth
      → p.agent.counters.queue_dropped < 2 ^ 64
      → Accounts texts actions p (act_all texts actions p)
  unfolding act_all process_all act
  act_all-Accounts [] p few small =
      let d = p.agent.counters.queue_dropped in
      let same : d ≡ (d + 0) % 2 ^ 64 = omega arith in
      ([], sym (append-nil p.queue), ap (λ n. with_dropped n p.agent) same, few)
  act_all-Accounts (ends ∷ actions) p few small =
      act_all-Accounts actions (record p { collecting = false }) few small
  act_all-Accounts (takes ∷ actions) p few small = elim (Queue-cases p.queue) [
    | inl empty ↦
        let same : length p.queue ≡ length p.queue - 1 = omega (arith, ap length empty) in
        let ih = act_all-Accounts actions p few small in
        subst (λ r. After p actions (length p.queue - 1) r) (sym (take_none texts p empty))
          (subst (λ n. After p actions n p) same ih)
    | inr (ev, rest, found) ↦
        let next = record p { agent = process texts ev p.agent; queue = rest } in
        let shorter : length rest ≡ length p.queue - 1 = omega (arith, ap length found) in
        let ih =
          act_all-Accounts actions next (omega (arith, few))
            (omega (arith, process-queue_dropped texts ev p.agent, small)) in
        let here =
          taken_Balances texts ev rest p (act_all texts actions next)
            (kept actions p.collecting (length rest)) (lost actions p.collecting (length rest))
            found ih in
        subst (λ r. After p actions (length p.queue - 1) r) (sym (take_some texts ev rest p found))
          (subst (λ n. After p actions n next) shorter here)
  ]
  act_all-Accounts (arrives ev ∷ actions) p few small = elim (Bool-cases p.collecting) [
    | inr off ↦
        recount p p (act texts (arrives ev) p) actions _ _ _ _ (act_ended texts ev p off)
          (kept_ended ev actions p.collecting (length p.queue) off)
          (lost_ended ev actions p.collecting (length p.queue) off)
          (act_all-Accounts actions p few small)
    | inl on ↦ elim (Bool-cases (ltb (length p.queue) event_queue_depth)) [
      | inl room ↦
          let next = record p { queue = p.queue ++ (ev ∷ []) } in
          let longer : length p.queue + 1 ≡ length (p.queue ++ (ev ∷ [])) =
            omega (arith, length-append p.queue (ev ∷ [])) in
          let ih = act_all-Accounts actions next (ground (arith, longer, room)) small in
          let here =
            room_Balances texts ev p (act_all texts actions next)
              (kept actions p.collecting (length (p.queue ++ (ev ∷ []))))
              (lost actions p.collecting (length (p.queue ++ (ev ∷ [])))) ih in
          recount p next (act texts (arrives ev) p) actions _ _ _ _
            (act-arrives texts ev p on ∙ arrive_room texts ev p room)
            (kept_room ev actions p.collecting (length p.queue) on room
              ∙ ap (λ n. ev ∷ kept actions p.collecting n) longer)
            (lost_room ev actions p.collecting (length p.queue) on room
              ∙ ap (lost actions p.collecting) longer)
            here
      | inr full ↦
          let dropped = p.agent.counters.queue_dropped in
          let next = record p { agent = with_dropped (add_one dropped) p.agent } in
          let ih = act_all-Accounts actions next few (omega arith) in
          let here =
            full_Balances texts p (act_all texts actions next)
              (kept actions p.collecting (length p.queue))
              (lost actions p.collecting (length p.queue)) ih in
          recount p next (act texts (arrives ev) p) actions _ _ _ _
            (act-arrives texts ev p on ∙ arrive_full texts ev p full)
            (kept_full ev actions p.collecting (length p.queue) on full)
            (lost_full ev actions p.collecting (length p.queue) on full) here
    ]
  ]

  -- The loop takes an event n times.
  abbrev pub drain : ℕ → List Action
  drain zero = []
  drain (suc n) = takes ∷ drain n

  drain-all :
      (events : List Event) (r : Pump)
      → r.queue ≡ events
      → act_all texts (drain (length events)) r
        ≡ record r { agent = process_all texts events r.agent; queue = [] }
  unfolding act_all process_all
  drain-all [] r h = ap (λ l. record r { queue = l }) h
  drain-all (ev ∷ events) r h =
      ap (act_all texts (drain (length events))) (take_some texts ev events r h)
      ∙ drain-all events (record r { agent = process texts ev r.agent; queue = events }) refl

  process_all-append :
      (front back : List Event) (g : Agent)
      → process_all texts back (process_all texts front g) ≡ process_all texts (front ++ back) g
  unfolding process_all
  process_all-append [] back g = refl
  process_all-append (ev ∷ front) back g = process_all-append front back (process texts ev g)

  -- Let some actions have led from a queue of at most 4096 events and a count of drops below 2^64 to
  -- some state, and let the collector then come to its end. After as many steps of the loop as events
  -- wait, which are at most 4096, none waits, and the agent is as if it had processed the events that
  -- waited at first and all arrivals that found room, in their order, with the drops counted.
  pub act_all_drains :
      (actions : List Action) (p : Pump)
      → length p.queue ≤ event_queue_depth
      → p.agent.counters.queue_dropped < 2 ^ 64
      → let q = act_all texts actions p in
        let end = act_all texts (drain (length q.queue)) (act texts ends q) in
        (length q.queue ≤ event_queue_depth)
        × (end.queue ≡ [])
        × (end.agent
            ≡ with_dropped
                ((p.agent.counters.queue_dropped + lost actions p.collecting (length p.queue))
                  % 2 ^ 64)
                (process_all texts (p.queue ++ kept actions p.collecting (length p.queue)) p.agent))
  unfolding act
  act_all_drains actions p few small =
      let q = act_all texts actions p in
      let (finished, order, agent, bound) = act_all-Accounts actions p few small in
      let emptied = drain-all q.queue (record q { collecting = false }) refl in
      let n =
        (p.agent.counters.queue_dropped + lost actions p.collecting (length p.queue)) % 2 ^ 64 in
      (
        bound,
        ap (λ r. r.queue) emptied,
        ap (λ r. r.agent) emptied
            ∙ ap (process_all texts q.queue) agent
            ∙ process_all-with_dropped texts n q.queue (process_all texts finished p.agent)
            ∙ ap (with_dropped n) (
                process_all-append finished q.queue p.agent
                ∙ ap (λ l. process_all texts l p.agent) order),
      )
