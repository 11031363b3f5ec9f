-- ===== src/Output/Sink/Fan.antt =====
-- What MultiSink of output/sink.go does to each of its sinks.
use krnl_sentry.Base.{
  ℤ, String, Bool, true, false, not, ◌&&◌, List, [], ◌∷◌, ◌++◌, map, Option, none, some,
  if◌then◌else◌, ◌≡◌, ◌↔◌, ◌⊎◌, refl, sym, ap, subst, ◌∙◌, arith, Bool-cases, Option-cases, inl,
  inr,
}
use mathlib.Core.List.{append_assoc, append-nil}
use krnl_sentry.Events.Record.{Result}
use krnl_sentry.Detect.Alert.{Alert}
use krnl_sentry.Output.Dashboard.{Dashboard, Closing, waits, returns, close}
use krnl_sentry.Output.Sink.{
  Sink, with_error, jsonl, console, display, jsonl_close, sink_write, write_each, join_errors,
  multi_write, sink_close, close_each, multi_close,
}

-- An error in front of the errors of the sinks behind.
abbrev pub in_front : Option String → List String → List String
in_front none errs = errs
in_front (some e) errs = e ∷ errs

with_error-in_front :
    (errs : List String) (failure : Option String) (later : List String)
    → with_error errs failure ++ later ≡ errs ++ in_front failure later
with_error-in_front errs none later = refl
with_error-in_front errs (some e) later = append_assoc errs (e ∷ []) later

module _ (encode : Alert → Result String) (clock : ℤ → String) (a : Alert) where
  -- What a sink that may be nil becomes by itself.
  abbrev pub alone : Option Sink → Option Sink
  alone none = none
  alone (some s) = some (sink_write encode clock a s).0

  abbrev pub failures : List (Option Sink) → List String
  failures [] = []
  failures (none ∷ sinks) = failures sinks
  failures (some s ∷ sinks) = in_front (sink_write encode clock a s).1 (failures sinks)

  write_each_lem :
      (sinks : List (Option Sink)) (errs : List String)
      → write_each encode clock a sinks errs ≡ (map alone sinks, errs ++ failures sinks)
  unfolding write_each
  write_each_lem [] errs = ground (arith, append-nil errs)
  write_each_lem (none ∷ sinks) errs = rw (write_each_lem sinks errs) refl
  write_each_lem (some s ∷ sinks) errs =
      let failure = (sink_write encode clock a s).1 in
      rw (write_each_lem sinks (with_error errs failure)) (
        ap (λ l. (some (sink_write encode clock a s).0 ∷ map alone sinks, l))
          (with_error-in_front errs failure (failures sinks)))

  pub multi_write-map :
      (sinks : List (Option Sink))
      → multi_write encode clock a sinks ≡ (map alone sinks, join_errors (failures sinks))
  unfolding multi_write
  multi_write-map sinks = rw (write_each_lem sinks []) refl

-- A dashboard whose Start was never called, and that was not closed.
abbrev pub is_stuck : Option Sink → Bool
is_stuck (some (display d)) = not d.closed && not d.running
is_stuck (some (jsonl s)) = false
is_stuck (some (console s)) = false
is_stuck none = false

abbrev pub any_stuck : List (Option Sink) → Bool
any_stuck [] = false
any_stuck (s ∷ sinks) = if is_stuck s then true else any_stuck sinks

close_stuck :
    (frame cursor : Option String) (d : Dashboard)
    → (not d.closed && not d.running) ≡ true
    → (close frame cursor d).1 ≡ waits
unfolding close
close_stuck frame cursor d h = ground (arith, h)

close_returns :
    (frame cursor : Option String) (d : Dashboard)
    → (not d.closed && not d.running) ≡ false
    → (failure : Option String) × ((close frame cursor d).1 ≡ returns failure)
unfolding close
close_returns frame cursor d h = elim (Bool-cases d.closed) [
  | inl closed ↦ (none, ground (arith, closed))
  | inr still ↦ elim (Option-cases frame) [
    | inr (e, torn) ↦ (some e, ground (arith, h, still, torn))
    | inl drawn ↦ elim (Bool-cases d.opts.color) [
      | inl colours ↦ (cursor, ground (arith, h, still, drawn, colours))
      | inr bare ↦ (none, ground (arith, h, still, drawn, bare))
    ]
  ]
]

closed_again :
    (frame cursor : Option String) (d : Dashboard)
    → d.closed ≡ true
    → close frame cursor d ≡ (d, returns none)
unfolding close
closed_again frame cursor d h = rw h refl

close-closed :
    (frame cursor : Option String) (d : Dashboard) → (close frame cursor d).0.closed ≡ true
unfolding close
close-closed none cursor d = ground arith
close-closed (some e) cursor d = ground arith

close_free :
    (frame cursor : Option String) (d : Dashboard)
    → (not d.closed && not d.running) ≡ false
    → (failure : Option String) × ((close frame cursor d).1 ≡ returns failure)
      × (is_stuck (some (display (close frame cursor d).0)) ≡ false)
      × (close frame cursor (close frame cursor d).0 ≡ ((close frame cursor d).0, returns none))
close_free frame cursor d h =
    let shut = close-closed frame cursor d in
    let (failure, here) = close_returns frame cursor d h in
    (failure, here, ground (arith, shut), closed_again frame cursor (close frame cursor d).0 shut)

module _ (frame cursor : Option String) where
  -- What one sink's Close comes to.
  sink_close_lem :
      (s : Sink)
      → ((is_stuck (some s) ≡ true) × ((sink_close frame cursor s).1 ≡ waits))
        ⊎ ((is_stuck (some s) ≡ false)
            × (failure : Option String) × ((sink_close frame cursor s).1 ≡ returns failure)
            × (is_stuck (some (sink_close frame cursor s).0) ≡ false)
            × (sink_close frame cursor (sink_close frame cursor s).0
                ≡ ((sink_close frame cursor s).0, returns none)))
  unfolding sink_close
  sink_close_lem (jsonl s) = inr (refl, _, refl, refl, unfold jsonl_close in ground arith)
  sink_close_lem (console s) = inr (refl, none, refl, refl, refl)
  sink_close_lem (display d) = elim (Bool-cases (not d.closed && not d.running)) [
    | inl stuck ↦ inl (stuck, close_stuck frame cursor d stuck)
    | inr free ↦
        let (failure, here, after, again) = close_free frame cursor d free in
        inr (free, failure, here, after, ap (λ r. (display r.0, r.1)) again)
  ]

  close_each_next :
      (s : Sink) (sinks : List (Option Sink)) (errs : List String) (failure : Option String)
      → (sink_close frame cursor s).1 ≡ returns failure
      → close_each frame cursor (some s ∷ sinks) errs ≡ (
        some (sink_close frame cursor s).0
            ∷ (close_each frame cursor sinks (with_error errs failure)).0,
        (close_each frame cursor sinks (with_error errs failure)).1,
      )
  unfolding close_each
  close_each_next s sinks errs failure here = rw (here, close_each) refl

  close_each_waits :
      (s : Sink) (sinks : List (Option Sink)) (errs : List String)
      → (sink_close frame cursor s).1 ≡ waits
      → (close_each frame cursor (some s ∷ sinks) errs).1 ≡ waits
  unfolding close_each
  close_each_waits s sinks errs here = rw (here, close_each) refl

  close_each_stuck :
      (sinks : List (Option Sink)) (errs : List String)
      → any_stuck sinks ≡ true
      → (close_each frame cursor sinks errs).1 ≡ waits
  unfolding close_each
  close_each_stuck [] errs h = cc
  close_each_stuck (none ∷ sinks) errs h = close_each_stuck sinks errs h
  close_each_stuck (some s ∷ sinks) errs h = elim (sink_close_lem s) [
    | inl (stuck, here) ↦ close_each_waits s sinks errs here
    | inr (free, failure, here, after, again) ↦
        ap (λ r. r.1) (close_each_next s sinks errs failure here)
        ∙ close_each_stuck sinks (with_error errs failure) (ground (arith, h, free))
  ]

  close_each_free :
      (sinks : List (Option Sink)) (errs : List String)
      → any_stuck sinks ≡ false
      → (failure : Option String) × ((close_each frame cursor sinks errs).1 ≡ returns failure)
  unfolding close_each
  close_each_free [] errs h = (join_errors errs, refl)
  close_each_free (none ∷ sinks) errs h = close_each_free sinks errs h
  close_each_free (some s ∷ sinks) errs h = elim (sink_close_lem s) [
    | inl (stuck, here) ↦ absurd (ground (arith, h, stuck))
    | inr (free, failure, here, after, again) ↦
        let (last, ends) =
          close_each_free sinks (with_error errs failure) (ground (arith, h, free)) in
        (last, ap (λ r. r.1) (close_each_next s sinks errs failure here) ∙ ends)
  ]

  -- A second Close of the same sinks does nothing.
  abbrev Settles : List (Option Sink) × Closing → Type 0
  Settles r = close_each frame cursor r.0 [] ≡ (r.0, returns none)

  nil-Settles :
      (sinks : List (Option Sink)) (errs : List String)
      → Settles (close_each frame cursor sinks errs)
      → Settles (close_each frame cursor (none ∷ sinks) errs)
  unfolding close_each
  nil-Settles sinks errs h = ap (λ r. (none ∷ r.0, r.1)) h

  close_each_again :
      (sinks : List (Option Sink)) (errs : List String)
      → any_stuck sinks ≡ false
      → Settles (close_each frame cursor sinks errs)
  close_each_again [] errs h = unfold close_each in unfold join_errors in refl
  close_each_again (none ∷ sinks) errs h = nil-Settles sinks errs (close_each_again sinks errs h)
  close_each_again (some s ∷ sinks) errs h = elim (sink_close_lem s) [
    | inl (stuck, here) ↦ absurd (ground (arith, h, stuck))
    | inr (free, failure, here, after, again) ↦
        let closed = (sink_close frame cursor s).0 in
        let later = close_each frame cursor sinks (with_error errs failure) in
        let settled = close_each_again sinks (with_error errs failure) (ground (arith, h, free)) in
        let second = close_each_next closed later.0 [] none (ap (λ r. r.1) again) in
        subst Settles (sym (close_each_next s sinks errs failure here)) (
          second
          ∙ ap
              (λ r. (
                some r.0 ∷ (close_each frame cursor later.0 []).0,
                (close_each frame cursor later.0 []).1,
              ))
              again
          ∙ ap (λ r. (some closed ∷ r.0, r.1)) settled)
  ]

  -- For every row of sinks, nil ones included, and whatever the writers answer: Close of a MultiSink
  -- waits for ever just when one of the sinks is a dashboard that was neither started nor closed.
  -- Where it returns, a second Close returns nil and changes nothing.
  pub multi_close_lem :
      (sinks : List (Option Sink))
      → (((multi_close frame cursor sinks).1 ≡ waits) ↔ (any_stuck sinks ≡ true))
        × ((any_stuck sinks ≡ true)
            ⊎ (multi_close frame cursor (multi_close frame cursor sinks).0
                ≡ ((multi_close frame cursor sinks).0, returns none)))
  unfolding multi_close
  multi_close_lem sinks = ((only_stuck, close_each_stuck sinks []), stuck_or_settled)
    where
      only_stuck : (close_each frame cursor sinks []).1 ≡ waits → any_stuck sinks ≡ true
      only_stuck w = elim (Bool-cases (any_stuck sinks)) [
        | inl stuck ↦ stuck
        | inr free ↦
            let (failure, ends) = close_each_free sinks [] free in absurd (ground (arith, w, ends))
      ]

      stuck_or_settled : (any_stuck sinks ≡ true) ⊎ Settles (close_each frame cursor sinks [])
      stuck_or_settled = elim (Bool-cases (any_stuck sinks)) [
        | inl stuck ↦ inl stuck
        | inr free ↦ inr (close_each_again sinks [] free)
      ]
