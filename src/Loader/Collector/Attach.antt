-- ===== src/Loader/Collector/Attach.antt =====
-- New attaches every probe that is not optional, or leaves none behind that can be detached.
use krnl_sentry.Base.{
  ℤ, String, true, false, not, List, [], ◌∷◌, ◌++◌, Option, none, some, nat_eq, string_eq, ◌≡◌, ◌≢◌,
  ◌⊎◌, inl, inr, refl, sym, ap, subst, ◌∙◌, arith, All, Bool-cases, Option-cases, concat,
}
use mathlib.Core.List.{reverse, append_assoc, append-nil}
use krnl_sentry.Events.Record.{Result, ok, err}
use krnl_sentry.Loader.Collector.Detach.{
  IsStranded, is_in, is_in-reverse, detach_all-IsStranded, All-is_in,
}
use krnl_sentry.Loader.Collector.{
  Attached, linked, absent, failed, Kernel, tracepoints, is_optional, Collector, Probe, added,
  skipped, stops, probe_of, probe, attach_all, close_collector, Made, made, refused, give_up,
  open_ring, attach_probes, new_collector,
}

Result-cases : (r : Result ℤ) → ((e : String) × (r ≡ err e)) ⊎ ((boot : ℤ) × (r ≡ ok boot))
Result-cases (err e) = inl (e, refl)
Result-cases (ok boot) = inr (boot, refl)

-- The tracepoints that the kernel links, in their order.
abbrev pub if_linked : Attached → String → List String → List String
if_linked linked name names = name ∷ names
if_linked (absent e) name names = names
if_linked (failed e) name names = names

abbrev pub linked_names : Kernel → List (String × String) → List String
linked_names k [] = []
linked_names k ((group, name) ∷ rest) = if_linked (k.attach group name) name (linked_names k rest)

-- A probe is linked, or it is the optional one and not there.
abbrev pub IsCovered : Kernel → String × String → Type 0
IsCovered k p =
    (k.attach p.0 p.1 ≡ linked)
    ⊎ ((e : String) × (is_optional p.1 ≡ true) × (k.attach p.0 p.1 ≡ absent e))

-- What a round comes to, by what the kernel answers.
abbrev Round : Attached → String → Probe → Type 0
Round a name p =
    ((p ≡ added) × (a ≡ linked))
    ⊎ ((p ≡ skipped) × (e : String) × (is_optional name ≡ true) × (a ≡ absent e))
    ⊎ ((e : String) × (p ≡ stops e))

probe_of-Round : (place name : String) (a : Attached) → Round a name (probe_of place name a)
unfolding probe_of
probe_of-Round place name linked = inl (refl, refl)
probe_of-Round place name (failed e) = inr (inr (_, refl))
probe_of-Round place name (absent e) = elim (Bool-cases (is_optional name)) [
  | inl optional ↦ inr (inl (rw optional refl, e, optional, refl))
  | inr required ↦ inr (inr (concat ("attaching " ∷ place ∷ ": " ∷ e ∷ []), rw required refl))
]

probe-Round :
    (k : Kernel) (group name : String) → Round (k.attach group name) name (probe k group name)
unfolding probe
probe-Round k group name = elim (Bool-cases (not (k.has_program name))) [
  | inl missing ↦
      let place = concat (group ∷ "/" ∷ name ∷ []) in
      inr (
        inr
          (concat ("program for " ∷ place ∷ " missing from compiled object" ∷ []), rw missing refl))
  | inr present ↦
      rw present (probe_of-Round (concat (group ∷ "/" ∷ name ∷ [])) name (k.attach group name))
]

-- What attachAll comes to: the kernel holds the probes of the links, and there is an error, or every
-- probe is covered and the links are those of the kernel.
abbrev Attaches :
    Kernel
    → List (String × String)
    → List String
    → List String × List String × Option String
    → Type 0
Attaches k tps links r =
    (r.0 ≡ r.1)
    × (((e : String) × (r.2 ≡ some e))
        ⊎ ((r.2 ≡ none) × (r.1 ≡ links ++ linked_names k tps) × All (IsCovered k) tps × (r.1 ≢ [])))

attach_all_added :
    (k : Kernel) (group name : String) (rest : List (String × String)) (links : List String)
    → probe k group name ≡ added
    → attach_all k ((group, name) ∷ rest) links links
      ≡ attach_all k rest (links ++ (name ∷ [])) (links ++ (name ∷ []))
unfolding attach_all
attach_all_added k group name rest links here = rw (here, attach_all) refl

attach_all_skipped :
    (k : Kernel) (group name : String) (rest : List (String × String)) (links : List String)
    → probe k group name ≡ skipped
    → attach_all k ((group, name) ∷ rest) links links ≡ attach_all k rest links links
unfolding attach_all
attach_all_skipped k group name rest links here = rw (here, attach_all) refl

attach_all_stops :
    (k : Kernel) (group name e : String) (rest : List (String × String)) (links : List String)
    → probe k group name ≡ stops e
    → attach_all k ((group, name) ∷ rest) links links ≡ (links, links, some e)
unfolding attach_all
attach_all_stops k group name e rest links here = rw (here, attach_all) refl

Attaches-added :
    (k : Kernel) (group name : String) (rest : List (String × String)) (links : List String)
    (r : List String × List String × Option String)
    → k.attach group name ≡ linked
    → Attaches k rest (links ++ (name ∷ [])) r
    → Attaches k ((group, name) ∷ rest) links r
Attaches-added k group name rest links r on (same, outcome) =
    let names = linked_names k rest in
    (
      same,
      elim outcome [
        | inl ends ↦ inl ends
        | inr (fine, order, covered, some_links) ↦ inr (
          fine,
          order
              ∙ append_assoc links (name ∷ []) names
              ∙ ap (λ a. links ++ if_linked a name names) (sym on),
          (inl on, covered),
          some_links,
        )
      ],
    )

Attaches-skipped :
    (k : Kernel) (group name e : String) (rest : List (String × String)) (links : List String)
    (r : List String × List String × Option String)
    → is_optional name ≡ true
    → k.attach group name ≡ absent e
    → Attaches k rest links r
    → Attaches k ((group, name) ∷ rest) links r
Attaches-skipped k group name e rest links r optional off (same, outcome) =
    let names = linked_names k rest in
    (
      same,
      elim outcome [
        | inl ends ↦ inl ends
        | inr (fine, order, covered, some_links) ↦ inr (
          fine,
          order ∙ ap (λ a. links ++ if_linked a name names) (sym off),
          (inr (e, optional, off), covered),
          some_links,
        )
      ],
    )

attach_all-Attaches :
    (k : Kernel) (tps : List (String × String)) (links : List String)
    → Attaches k tps links (attach_all k tps links links)
unfolding attach_all
attach_all-Attaches k [] [] = (refl, inl (_, refl))
attach_all-Attaches k [] (name ∷ links) =
    (refl, inr (ground arith, sym (append-nil (name ∷ links)), tt, λ e. ground arith))
attach_all-Attaches k ((group, name) ∷ rest) links = elim (probe-Round k group name) [
  | inl (here, on) ↦
      subst (Attaches k ((group, name) ∷ rest) links)
        (sym (attach_all_added k group name rest links here))
        (Attaches-added k group name rest links _ on
          (attach_all-Attaches k rest (links ++ (name ∷ []))))
  | inr (inl (here, e, optional, off)) ↦
      subst (Attaches k ((group, name) ∷ rest) links)
        (sym (attach_all_skipped k group name rest links here))
        (Attaches-skipped k group name e rest links _ optional off
          (attach_all-Attaches k rest links))
  | inr (inr (e, here)) ↦
      subst (Attaches k ((group, name) ∷ rest) links)
        (sym (attach_all_stops k group name e rest links here)) (refl, inl (e, refl))
]

-- What New promises of its outcome.
abbrev pub IsComplete : Kernel → Made → Type 0
IsComplete k (made c held) =
    (held ≡ linked_names k tracepoints)
    × (c.links ≡ held)
    × All (IsCovered k) tracepoints
    × (held ≢ [])
    × (c.reading ≡ true)
IsComplete k (refused e held) = All (IsStranded k) held

give_up-IsComplete :
    (k : Kernel) (held : List String) (c : Collector) (e : String)
    → held ≡ c.links
    → IsComplete k (give_up k held c e)
unfolding give_up close_collector
give_up-IsComplete k held c e same = detach_all-IsStranded k (reverse c.links) held (
    All-is_in k (reverse c.links) held
      (λ n found. is_in-reverse n c.links ∙ ap (is_in n) (sym same) ∙ found))

open_ring-IsComplete :
    (k : Kernel) (held : List String) (c : Collector)
    → held ≡ c.links
    → c.links ≡ linked_names k tracepoints
    → All (IsCovered k) tracepoints
    → c.links ≢ []
    → IsComplete k (open_ring k held c)
unfolding open_ring
open_ring-IsComplete k held c same links covered some_links = elim (Option-cases k.open_reader) [
  | inr (e, no_reader) ↦ rw (no_reader, open_ring) (give_up-IsComplete k held c _ same)
  | inl reader ↦ elim (Result-cases k.clock_monotonic) [
    | inl (e, no_clock) ↦
        rw (reader, no_clock, open_ring)
          (give_up-IsComplete k held (record c { reading = true }) _ same)
    | inr (boot, clock) ↦
        rw (reader, clock, open_ring)
          (same ∙ links, sym same, covered, λ empty. some_links (sym same ∙ empty), refl)
  ]
]

attach_probes-IsComplete :
    (k : Kernel) (boot : ℤ)
    → IsComplete k (attach_probes k [] (record { links = []; reading = false; boot_time = boot }))
unfolding attach_probes
attach_probes-IsComplete k boot =
    let r = attach_all k tracepoints [] [] in
    let attached : Collector = record { links = r.1; reading = false; boot_time = boot } in
    let (same, outcome) = attach_all-Attaches k tracepoints [] in
    elim outcome [
      | inl (e, ends) ↦ rw (ends, attach_probes) (give_up-IsComplete k r.0 attached e same)
      | inr (fine, order, covered, some_links) ↦
          rw (fine, attach_probes)
            (open_ring-IsComplete k r.0 attached same order covered some_links)
    ]

-- Whatever the kernel answers, in a process for which it holds no probe: New returns a collector that
-- reads the ring buffer, and the kernel then holds the probes of exactly the tracepoints that it
-- linked, at least one, and the collector a link to each of them, in their order; each of the fifteen
-- tracepoints is linked, or is the optional dup2 and does not exist. Or New returns an error, and
-- then the kernel holds no probe but those that it refused to detach.
pub new_collector-IsComplete : (k : Kernel) → IsComplete k (new_collector k)
unfolding new_collector
new_collector-IsComplete k =
    let c : Collector = record { links = []; reading = false; boot_time = ℤ.pos 0 } in
    elim (Option-cases k.memlock) [
      | inr (e, limit) ↦ rw (limit, new_collector) tt
      | inl lifted ↦ elim (Option-cases k.load_objects) [
        | inr (e, bad) ↦ rw (lifted, bad, new_collector) (give_up-IsComplete k [] c e refl)
        | inl loaded ↦ elim (Option-cases k.put_config) [
          | inr (e, bad) ↦
              rw (lifted, loaded, bad, new_collector) (give_up-IsComplete k [] c _ refl)
          | inl written ↦
              rw (lifted, loaded, written, new_collector) (attach_probes-IsComplete k (ℤ.pos 0))
        ]
      ]
    ]
