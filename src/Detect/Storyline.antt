-- ===== src/Detect/Storyline.antt =====
-- detect/storyline.go: alerts of one process tree are filed into storylines, and a storyline that
-- spans enough tactics raises an attack chain. The children have the parts: tactics, the steps of
-- a story, the lineage of processes, the merging of stories, the alert on a chain.
pub mod Tactics
pub mod Story
pub mod Lineage
pub mod Merge
pub mod Chain
pub mod Sound
pub mod Reports
use krnl_sentry.Base.{
  ℕ, suc, ◌+◌, ltb, leb, ltb_ℤ, ℤ, pos, String, Bool, true, false, ◌&&◌, ◌||◌, not, List, [], ◌∷◌,
  ◌++◌, Option, none, some, ◌==◌, nat_eq, string_eq, if◌then◌else◌, concat, format_uint, length,
  sub64, signed64, unsigned64, div_trunc,
}
use krnl_sentry.Dict.{lookup}
use krnl_sentry.Events.Event.{Event}
use krnl_sentry.Detect.Alert.{Alert, StoryStep}
use krnl_sentry.Detect.Config.{StorylineConfig, default_storyline_config, millisecond}
use Tactics.{Tactic, tactics_for, tactic_names}
use Story.{Storyline, add_step, add_tactics, append_unique}
use Lineage.{Correlator, ancestry, observe, is_in_chain}
use Merge.{story_for, story_at, update_story, milliseconds, top_of}
use Chain.{chain_alert, step_summary}

-- NewCorrelator: nil where correlation is off.
unfoldable pub new_correlator : StorylineConfig → Option Correlator
new_correlator cfg =
    if cfg.enabled
    then some (record {
      cfg = record cfg {
        threshold = if ltb_ℤ cfg.threshold (pos 2) then pos 2 else cfg.threshold;
        window =
            if ltb_ℤ (pos 0) cfg.window
            then cfg.window
            else StorylineConfig.window default_storyline_config;
      };
      lineage = [];
      by_pid = [];
      stories = [];
      seq = 0;
      last_sweep = 0;
      chains = 0;
    })
    else none

-- Storylines: how many stories are open. One that several processes point to counts once.
unfoldable pub distinct_stories : List (ℕ × ℕ) → List ℕ → ℕ
distinct_stories [] found = length found
distinct_stories ((pid, p) ∷ rest) found =
    distinct_stories rest (if is_in_chain p found then found else p ∷ found)

unfoldable pub storylines : Option Correlator → ℕ
storylines none = 0
storylines (some c) = distinct_stories c.by_pid []

-- Chains.
unfoldable pub chains_raised : Option Correlator → ℕ
chains_raised none = 0
chains_raised (some c) = c.chains

-- "%s[%d]" of an alert's process.
abbrev pub proc_text : Alert → String
proc_text a = concat (a.comm ∷ "[" ∷ format_uint a.pid ∷ "]" ∷ [])

-- A story with an alert at `now` filed in it, and whether the alert brought a new tactic.
unfoldable pub file_alert : ℕ → Alert → Storyline → Storyline × Bool
file_alert now a s =
    let tactics = add_tactics s.tactics (tactics_for a) in
    let step : StoryStep = record {
      offset_ms = milliseconds (sub64 now s.first_ts);
      pid = a.pid;
      comm = a.comm;
      rule = a.rule;
      mitre_id = a.mitre_id;
      tactic = tactic_names (tactics_for a);
      summary = step_summary a;
      pivotal = tactics.1;
    } in
    (
      record s {
        alerts = s.alerts + 1;
        last_ts = now;
        tactics = tactics.0;
        techniques = append_unique s.techniques a.mitre_id;
        procs = append_unique s.procs (proc_text a);
        steps = add_step step s.steps;
      },
      tactics.1,
    )

-- Whether a story with a new tactic is to be reported.
abbrev pub is_reportable : ℤ → Storyline → Bool → Bool
is_reportable threshold s new_tactic =
    new_tactic
    && (not (ltb_ℤ (pos (length s.tactics)) threshold) && ltb s.reported_n (length s.tactics))

-- The end of Correlate: the story is written back, and reported if it is to be.
unfoldable pub report : ℕ → Storyline × Bool → Alert → Correlator → Correlator × Option Alert
report p r a c =
    let s = r.0 in
    if is_reportable c.cfg.threshold s r.1
    then (let reported = record s { reported_n = length s.tactics } in
        (
          record (update_story p reported c) { chains = c.chains + 1 },
          some (chain_alert a reported),
        ))
    else (update_story p s c, none)

-- Correlator.Correlate: the state, the alert with its storyline's id, and the attack chain.
unfoldable pub correlate_alert : Event → Alert → Correlator → Correlator × Alert × Option Alert
correlate_alert ev a c =
    let now = ev.timestamp in
    let chain = ancestry ev.pid ev.ppid now c in
    let r = story_for chain.1 (top_of ev.pid chain.1) now chain.0 in
    let stamped = record a { storyline = Storyline.id (story_at r.1 r.0) } in
    let done = report r.1 (file_alert now stamped (story_at r.1 r.0)) stamped r.0 in
    (done.0, stamped, done.1)

unfoldable pub correlate :
    Event → Alert → Option Correlator → Option Correlator × Alert × Option Alert
correlate ev a none = (none, a, none)
correlate ev a (some c) = let r = correlate_alert ev a c in (some r.0, r.1, r.2)

-- Observe, on a pointer that may be nil.
unfoldable pub observe_event : Event → Option Correlator → Option Correlator
observe_event ev none = none
observe_event ev (some c) = some (observe ev c)
