-- ===== src/Detect/Storyline/Lineage.antt =====
-- The correlator's state, the lineage of processes, and its expiry. A pointer to a storyline is
-- its index in the list of all that were made.
pub mod Ancestry
use krnl_sentry.Base.{
  ℕ, zero, suc, ◌+◌, ◌-◌, ◌*◌, leb, ltb, String, Bool, true, false, ◌&&◌, ◌||◌, not, List, [], ◌∷◌,
  ◌++◌, Option, none, some, ◌==◌, nat_eq, string_eq, if◌then◌else◌, length, get_elem?, get_or_else,
  is_set, sub64, unsigned64,
}
use krnl_sentry.Dict.{lookup, insert, retain}
use krnl_sentry.Events.Event.{Event}
use krnl_sentry.Detect.Config.{StorylineConfig, ProcLookup, second}
use krnl_sentry.Detect.Storyline.Story.{Storyline}

-- sessionBoundaries.
unfoldable pub session_boundaries : List String
session_boundaries =
    "systemd" ∷ "init" ∷ "sshd" ∷ "sshd-session" ∷ "login" ∷ "containerd-shim"
    ∷ "containerd-shim-runc-v2" ∷ "conmon" ∷ "runc" ∷ "cron" ∷ "crond" ∷ "tmux: server" ∷ "screen"
    ∷ "kthreadd" ∷ []

unfoldable pub is_name_in : List String → String → Bool
is_name_in [] comm = false
is_name_in (name ∷ rest) comm = name == comm || is_name_in rest comm

abbrev pub max_ancestry : ℕ
max_ancestry = 16

abbrev pub max_lineage : ℕ
max_lineage = 65536

abbrev pub lineage_sweep_every : ℕ
lineage_sweep_every = 30 * second

pub record ProcNode : Type 0 where
  pub ppid : ℕ
  pub comm : String
  pub last_seen : ℕ

-- The pointers of by_pid are indices into stories; a story is never taken away from there.
pub record Correlator : Type 0 where
  pub cfg : StorylineConfig
  pub lineage : List (ℕ × ProcNode)
  pub by_pid : List (ℕ × ℕ)
  pub stories : List Storyline
  pub seq : ℕ
  pub last_sweep : ℕ
  pub chains : ℕ

-- Whether something last seen at `last` is past the window at `now`.
abbrev pub is_expired : ℕ → ℕ → ℕ → Bool
is_expired window now last = ltb last now && ltb window (sub64 now last)

-- Whether the story that a pointer names is past the window.
abbrev pub story_expired : ℕ → ℕ → Option Storyline → Bool
story_expired window now none = false
story_expired window now (some s) = is_expired window now s.last_ts

abbrev pub drop_full {ℓ} : {V : Type ℓ} → List (ℕ × V) → List (ℕ × V)
drop_full m = if leb max_lineage (length m) then [] else m

-- The body of a sweep: pointers to expired stories go, then the lineage of processes that are not
-- in an open story and have not been seen for a window, and all lineage if that leaves too much.
unfoldable pub open_pointers : ℕ → Correlator → List (ℕ × ℕ)
open_pointers now c =
    retain (λ pid p. not (story_expired (unsigned64 c.cfg.window) now (get_elem? c.stories p)))
      c.by_pid

unfoldable pub sweep : ℕ → Correlator → Correlator
sweep now c = record c {
  last_sweep = now;
  by_pid = open_pointers now c;
  lineage = drop_full (
      retain
        (λ pid n.
          is_set (lookup pid (open_pointers now c))
          || not (is_expired (unsigned64 c.cfg.window) now n.last_seen))
        c.lineage);
}

-- Whether a sweep is not due: there is room, and the last sweep is not long ago.
unfoldable pub sweep_waits : ℕ → Correlator → Bool
sweep_waits now c =
    not (c.last_sweep == 0)
    && (ltb (sub64 now c.last_sweep) lineage_sweep_every && ltb (length c.lineage) max_lineage)

-- Correlator.maybeSweep.
unfoldable pub maybe_sweep : ℕ → Correlator → Correlator
maybe_sweep now c = if sweep_waits now c then c else sweep now c

-- Correlator.Observe.
unfoldable pub observe : Event → Correlator → Correlator
observe ev c =
    if ev.pid == 0
    then c
    else let swept = maybe_sweep ev.timestamp c in
      record swept {
        lineage =
            insert ev.pid (record { ppid = ev.ppid; comm = ev.comm; last_seen = ev.timestamp })
              swept.lineage;
      }

-- The injected lookup, which may be nil.
abbrev pub ask : Option ProcLookup → ℕ → Option (ℕ × String)
ask none pid = none
ask (some f) pid = f pid

-- What node does with the answer of the lookup: it is kept in the lineage.
abbrev pub learn : Correlator → ℕ → ℕ → Option (ℕ × String) → Correlator × Option ProcNode
learn c pid now none = (c, none)
learn c pid now (some (ppid, comm)) =
    let n : ProcNode = record { ppid = ppid; comm = comm; last_seen = now } in
    (record c { lineage = insert pid n c.lineage }, some n)

-- Correlator.node.
unfoldable pub node : ℕ → ℕ → Correlator → Correlator × Option ProcNode
node pid now c = elim (lookup pid c.lineage) [
  | some n ↦ (c, some n)
  | none ↦ learn c pid now (ask c.cfg.lookup pid)
]

unfoldable pub is_in_chain : ℕ → List ℕ → Bool
is_in_chain pid [] = false
is_in_chain pid (p ∷ chain) = p == pid || is_in_chain pid chain

abbrev pub is_boundary : Option ProcNode → Bool
is_boundary none = false
is_boundary (some n) = is_name_in session_boundaries n.comm

-- The loop of ancestry: `rounds` is what the chain may still grow by. The map `seen` holds the
-- members of the chain.
unfoldable pub ancestry_loop : ℕ → ℕ → ℕ → List ℕ → Correlator → Correlator × List ℕ
ancestry_loop zero now cur chain c = (c, chain)
ancestry_loop (suc rounds) now cur chain c =
    let r = node cur now c in
    let more : Correlator × List ℕ = elim r.1 [
      | none ↦ (r.0, chain ++ cur ∷ [])
      | some n ↦ ancestry_loop rounds now n.ppid (chain ++ cur ∷ []) r.0
    ] in
    if leb cur 2 || is_in_chain cur chain
    then (c, chain)
    else if is_boundary r.1
    then (r.0, chain)
    else more

-- Correlator.ancestry.
unfoldable pub ancestry : ℕ → ℕ → ℕ → Correlator → Correlator × List ℕ
ancestry pid ppid now c = ancestry_loop (max_ancestry - 1) now ppid (pid ∷ []) c

-- Correlator.commOf.
unfoldable pub comm_of : ℕ → Correlator → String
comm_of pid c = elim (lookup pid c.lineage) [ none ↦ "?" | some n ↦ n.comm ]
