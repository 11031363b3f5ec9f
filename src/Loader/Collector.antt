-- ===== src/Loader/Collector.antt =====
-- ebpfloader/loader.go: the life of a Collector. What the kernel and the cilium/ebpf library answer
-- is a parameter; log lines are left out. The probes that the kernel holds for the process, `held`,
-- are a state of their own, which the calls of link.Tracepoint and of a link's Close change.
pub mod Detach
pub mod Attach
use krnl_sentry.Base.{
  ℕ, ℤ, zero, suc, ◌+◌, ◌%◌, ◌^◌, String, Bool, true, false, not, ◌&&◌, List, [], ◌∷◌, ◌++◌, Option,
  none, some, if◌then◌else◌, ◌==◌, nat_eq, string_eq, length, concat, join, is_set,
}
use mathlib.Core.List.{reverse}
use krnl_sentry.Dict.{lookup}
use krnl_sentry.Events.Event.{Event, Raw, decode}
use krnl_sentry.Events.Record.{Result, ok, err}
use krnl_sentry.Loader.Decode.{parse_record}

-- What link.Tracepoint answers: a link, an error that is os.ErrNotExist, or another error.
pub data Attached : Type 0 where
  linked : Attached
  absent : String → Attached
  failed : String → Attached

-- The answers to the calls of New and Close, `none` where one succeeds.
pub record Kernel : Type 0 where
  pub memlock : Option String
  pub load_objects : Option String
  pub put_config : Option String
  pub has_program : String → Bool
  pub attach : String → String → Attached
  pub open_reader : Option String
  pub clock_monotonic : Result ℤ
  pub detach : String → Option String
  pub close_reader : Option String
  pub close_objects : Option String

-- tracepoints: group and name.
unfoldable pub tracepoints : List (String × String)
tracepoints =
    ("syscalls", "sys_enter_execve")
    ∷ ("syscalls", "sys_enter_execveat")
    ∷ ("syscalls", "sys_enter_openat")
    ∷ ("syscalls", "sys_enter_setuid")
    ∷ ("syscalls", "sys_enter_setgid")
    ∷ ("syscalls", "sys_enter_setresuid")
    ∷ ("syscalls", "sys_enter_setresgid")
    ∷ ("syscalls", "sys_enter_capset")
    ∷ ("syscalls", "sys_enter_ptrace")
    ∷ ("syscalls", "sys_enter_socket")
    ∷ ("syscalls", "sys_exit_socket")
    ∷ ("syscalls", "sys_enter_connect")
    ∷ ("syscalls", "sys_exit_connect")
    ∷ ("syscalls", "sys_enter_dup2")
    ∷ ("syscalls", "sys_enter_dup3")
    ∷ []

-- optionalTracepoints.
unfoldable pub is_optional : String → Bool
is_optional name = name == "sys_enter_dup2"

-- A link has the name of its probe.
pub record Collector : Type 0 where
  pub links : List String
  pub reading : Bool
  pub boot_time : ℤ

-- What one round of attachAll comes to.
pub data Probe : Type 0 where
  added : Probe
  skipped : Probe
  stops : String → Probe

unfoldable pub probe_of : String → String → Attached → Probe
probe_of place name linked = added
probe_of place name (absent e) =
    if is_optional name then skipped else stops (concat ("attaching " ∷ place ∷ ": " ∷ e ∷ []))
probe_of place name (failed e) = stops (concat ("attaching " ∷ place ∷ ": " ∷ e ∷ []))

unfoldable pub probe : Kernel → String → String → Probe
unfolding probe_of
probe k group name =
    let place = concat (group ∷ "/" ∷ name ∷ []) in
    if not (k.has_program name)
    then stops (concat ("program for " ∷ place ∷ " missing from compiled object" ∷ []))
    else probe_of place name (k.attach group name)

-- attachAll: the probes that the kernel holds, the links, and the error that ends it.
unfoldable pub attach_all :
    Kernel
    → List (String × String)
    → List String
    → List String
    → List String × List String × Option String
attach_all k [] held links = (
  held,
  links,
  if length links == 0 then some "no tracepoints attached; refusing to run blind" else none,
)
attach_all k ((group, name) ∷ rest) held links = elim (probe k group name) [
  | added ↦ attach_all k rest (held ++ (name ∷ [])) (links ++ (name ∷ []))
  | skipped ↦ attach_all k rest held links
  | stops e ↦ (held, links, some e)
]

-- The probes that the kernel holds, without one.
unfoldable pub without : String → List String → List String
without name [] = []
without name (n ∷ attached) = if n == name then without name attached else n ∷ without name attached

-- The loop of Close over the links: the probes that the kernel still holds, and the errors.
unfoldable pub detach_all : Kernel → List String → List String → List String × List String
detach_all k [] held = (held, [])
detach_all k (name ∷ names) held = elim (k.detach name) [
  | none ↦ detach_all k names (without name held)
  | some e ↦
      let later = detach_all k names held in
      (later.0, concat ("detaching probe: " ∷ e ∷ []) ∷ later.1)
]

-- An error with what it is about, in front of others.
abbrev pub note_error : String → Option String → List String → List String
note_error what none errs = errs
note_error what (some e) errs = concat (what ∷ ": " ∷ e ∷ []) ∷ errs

-- Close, from the last link on: the probes that the kernel still holds, the collector, and the
-- errors.
unfoldable pub close_collector :
    Kernel → List String → Collector → List String × Collector × List String
close_collector k held c =
    let detached = detach_all k (reverse c.links) held in
    let reader = if c.reading then k.close_reader else none in
    (
      detached.0,
      record c { links = []; reading = false },
      note_error "closing ring buffer" reader
          (detached.1 ++ note_error "closing BPF objects" k.close_objects []),
    )

-- What New comes to: a collector or an error, and the probes that the kernel then holds.
pub data Made : Type 0 where
  made : Collector → List String → Made
  refused : String → List String → Made

-- The deferred clean-up.
unfoldable pub give_up : Kernel → List String → Collector → String → Made
give_up k held c e = refused e (close_collector k held c).0

-- New, from the ring buffer on.
unfoldable pub open_ring : Kernel → List String → Collector → Made
open_ring k held c =
    let reading = record c { reading = true } in
    elim k.open_reader [
      | some e ↦ give_up k held c (concat ("opening ring buffer reader: " ∷ e ∷ []))
      | none ↦ elim k.clock_monotonic [
        | err e ↦
            give_up k held reading
              (concat ("determining boot time: clock_gettime(CLOCK_MONOTONIC): " ∷ e ∷ []))
        | ok boot ↦ made (record reading { boot_time = boot }) held
      ]
    ]

-- New, from the attaching on.
unfoldable pub attach_probes : Kernel → List String → Collector → Made
attach_probes k held c =
    let r = attach_all k tracepoints held c.links in
    let attached = record c { links = r.1 } in
    elim r.2 [ some e ↦ give_up k r.0 attached e | none ↦ open_ring k r.0 attached ]

-- New, in a process for which the kernel holds no probe; `load_objects` is the error that
-- describeLoadError makes.
unfoldable pub new_collector : Kernel → Made
new_collector k =
    let c : Collector = record { links = []; reading = false; boot_time = ℤ.pos 0 } in
    elim k.memlock [
      | some e ↦ refused (concat ("raising RLIMIT_MEMLOCK: " ∷ e ∷ [])) []
      | none ↦ elim k.load_objects [
        | some e ↦ give_up k [] c e
        | none ↦ elim k.put_config [
          | some e ↦ give_up k [] c (concat ("writing self-pid filter to config map: " ∷ e ∷ []))
          | none ↦ attach_probes k [] c
        ]
      ]
    ]

-- What the reader answers: a record, that it is closed, or an error, with whether the context is done.
pub data Reading : Type 0 where
  sample : List ℕ → Reading
  reader_closed : Reading
  read_error : String → Bool → Reading

module _ {ℓ} {S : Type ℓ} (text : List ℕ → String) (handler : S → Event → S) where
  -- Run, on the answers of the reader; it goes on reading where they end.
  unfoldable pub run_collector : Collector → List Reading → S → S × Option (Option String)
  run_collector c [] s = (s, none)
  run_collector c (reader_closed ∷ rest) s = (s, some none)
  run_collector c (read_error e cancelled ∷ rest) s =
      (s, some (if cancelled then none else some (concat ("reading from ring buffer: " ∷ e ∷ []))))
  run_collector c (sample b ∷ rest) s = elim (parse_record text b) [
    | err e ↦ run_collector c rest s
    | ok raw ↦ run_collector c rest (handler s (decode raw c.boot_time))
  ]

-- sumPerCPU.
unfoldable pub sum_per_cpu : List ℕ → ℕ → ℕ
sum_per_cpu [] total = total
sum_per_cpu (v ∷ per_cpu) total = sum_per_cpu per_cpu ((total + v) % 2 ^ 64)

pub record Stats : Type 0 where
  pub events : ℕ
  pub dropped : ℕ

-- Stats, on what the lookups of the two slots answer.
unfoldable pub collector_stats : Result (List ℕ) → Result (List ℕ) → Result Stats
collector_stats (err e) dropped = err (concat ("reading event counter: " ∷ e ∷ []))
collector_stats (ok events) (err e) = err (concat ("reading drop counter: " ∷ e ∷ []))
collector_stats (ok events) (ok dropped) =
    ok (record { events = sum_per_cpu events 0; dropped = sum_per_cpu dropped 0 })
