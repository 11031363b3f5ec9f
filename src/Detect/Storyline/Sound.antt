-- ===== src/Detect/Storyline/Sound.antt =====
-- What holds of the correlator in every state: its stories are bounded, and its pointers point.
pub mod Merging
use krnl_sentry.Base.{
  String, ℕ, zero, suc, ◌+◌, ◌-◌, ◌≤◌, ◌<◌, leb, Bool, true, false, ◌||◌, not, List, [], ◌∷◌, ◌++◌,
  Option, none, some, ◌≡◌, ◌≢◌, refl, sym, ◌∙◌, ap, subst, arith, ◌⊎◌, inl, inr, ◌==◌, nat_eq,
  if◌then◌else◌, length, length-append, Bool-cases, Option-cases, All, All-append, All-mono, get_or,
  set, unsigned64,
}
use krnl_sentry.Dict.{lookup, insert, retain}
use krnl_sentry.Dict.Laws.{Values, Values-retain, Values-insert}
use krnl_sentry.Events.Event.{Event}
use krnl_sentry.Detect.Alert.{Alert}
use krnl_sentry.Detect.Storyline.Tactics.{tactics_for}
use krnl_sentry.Detect.Storyline.Story.{Storyline, max_story_steps, add_step, add_tactics}
use krnl_sentry.Detect.Storyline.Story.Steps.{length-add_step}
use krnl_sentry.Detect.Storyline.Story.Tactical.{IsDistinct, add_tactics-IsDistinct}
use krnl_sentry.Detect.Storyline.Lineage.{
  Correlator, ProcNode, node, learn, ask, is_in_chain, is_boundary, ancestry_loop, ancestry,
  observe, maybe_sweep, sweep, sweep_waits, open_pointers, story_expired,
}
use krnl_sentry.Detect.Storyline.Merge.{story_at, update_story, story_for, top_of}
use Merging.{IsStory, IsSound, update_story-IsSound, story_at-IsStory, story_for-IsSound}
use krnl_sentry.Detect.Storyline.{
  new_correlator, file_alert, is_reportable, report, correlate_alert,
}

-- What the lineage of processes does not touch.
abbrev pub SameStories : Correlator → Correlator → Type 0
SameStories c d =
    (d.stories ≡ c.stories) × (d.by_pid ≡ c.by_pid) × (d.seq ≡ c.seq) × (d.cfg ≡ c.cfg)

SameStories-IsSound : (c d : Correlator) → SameStories c d → IsSound c → IsSound d
SameStories-IsSound c d (stories, by_pid, seq, cfg) v = record {
  stories = subst (All IsStory) (sym stories) v.stories;
  numbered = ground (arith, stories, seq, v.numbered);
  pointers =
      subst (λ m. Values (λ p. p < length d.stories) m) (sym by_pid)
        (subst (λ ss. Values (λ p. p < length ss) c.by_pid) (sym stories) v.pointers);
}

SameStories-trans : (c d e : Correlator) → SameStories c d → SameStories d e → SameStories c e
SameStories-trans c d e (a, b, s, f) (a_, b_, s_, f_) = (a_ ∙ a, b_ ∙ b, s_ ∙ s, f_ ∙ f)

learn-SameStories :
    (c : Correlator) (pid now : ℕ) (o : Option (ℕ × String)) → SameStories c (learn c pid now o).0
learn-SameStories c pid now none = (refl, refl, refl, refl)
learn-SameStories c pid now (some (ppid, comm)) = (refl, refl, refl, refl)

node-found :
    (pid now : ℕ) (c : Correlator) (n : ProcNode)
    → lookup pid c.lineage ≡ some n
    → node pid now c ≡ (c, some n)
unfolding node
node-found pid now c n h = ground (arith, h)

node-new :
    (pid now : ℕ) (c : Correlator)
    → lookup pid c.lineage ≡ none
    → node pid now c ≡ learn c pid now (ask c.cfg.lookup pid)
unfolding node
node-new pid now c h = ground (arith, h)

node-SameStories : (pid now : ℕ) (c : Correlator) → SameStories c (node pid now c).0
node-SameStories pid now c = elim (Option-cases (lookup pid c.lineage)) [
  | inr (n, known) ↦
      subst (λ r. SameStories c r.0) (sym (node-found pid now c n known)) (refl, refl, refl, refl)
  | inl new ↦
      subst (λ r. SameStories c r.0) (sym (node-new pid now c new))
        (learn-SameStories c pid now (ask c.cfg.lookup pid))
]

ancestry_loop-SameStories :
    (rounds now cur : ℕ) (chain : List ℕ) (c : Correlator)
    → SameStories c (ancestry_loop rounds now cur chain c).0
unfolding ancestry_loop
ancestry_loop-SameStories zero now cur chain c = (refl, refl, refl, refl)
ancestry_loop-SameStories (suc rounds) now cur chain c =
    let one = node-SameStories cur now c in
    elim (Option-cases (node cur now c).1) [
      | inl gone ↦ ground (arith, gone, one)
      | inr (n, known) ↦
          let ih =
            ancestry_loop-SameStories rounds now n.ppid (chain ++ cur ∷ []) (node cur now c).0 in
          let two =
            SameStories-trans c (node cur now c).0
              (ancestry_loop rounds now n.ppid (chain ++ cur ∷ []) (node cur now c).0).0 one ih in
          ground (arith, known, one, two)
    ]

-- Expiry drops pointers, and never a story.
sweep-IsSound : (now : ℕ) (c : Correlator) → IsSound c → IsSound (sweep now c)
unfolding sweep open_pointers
sweep-IsSound now c v = record {
  stories = v.stories;
  numbered = v.numbered;
  pointers = Values-retain (λ p. p < length c.stories) _ c.by_pid v.pointers;
}

maybe_sweep-IsSound : (now : ℕ) (c : Correlator) → IsSound c → IsSound (maybe_sweep now c)
unfolding maybe_sweep
maybe_sweep-IsSound now c v = elim (Bool-cases (sweep_waits now c)) [
  | inl waits ↦ rw waits v
  | inr due ↦ rw due (sweep-IsSound now c v)
]

pub observe-IsSound : (ev : Event) (c : Correlator) → IsSound c → IsSound (observe ev c)
unfolding observe
observe-IsSound ev c v = elim (Bool-cases (ev.pid == 0)) [
  | inl nobody ↦ rw nobody v
  | inr somebody ↦
      let swept = maybe_sweep-IsSound ev.timestamp c v in
      rw somebody
        (SameStories-IsSound (maybe_sweep ev.timestamp c) _ (refl, refl, refl, refl) swept)
]

file_alert-IsStory :
    (now : ℕ) (a : Alert) (s : Storyline) → IsStory s → IsStory (file_alert now a s).0
unfolding file_alert
file_alert-IsStory now a s v = record {
  few = length-add_step _ s.steps v.few;
  distinct = add_tactics-IsDistinct s.tactics (tactics_for a) v.distinct;
}

report-IsSound :
    (p : ℕ) (r : Storyline × Bool) (a : Alert) (c : Correlator)
    → IsStory r.0
    → IsSound c
    → IsSound (report p r a c).0
unfolding report
report-IsSound p r a c story v = elim (Bool-cases (is_reportable c.cfg.threshold r.0 r.1)) [
  | inr quiet ↦ rw quiet (update_story-IsSound p r.0 c story v)
  | inl raised ↦
      let told = record (r.0) { reported_n = length (Storyline.tactics r.0) } in
      let up =
        update_story-IsSound p told c (record { few = story.few; distinct = story.distinct }) v in
      rw raised (SameStories-IsSound (update_story p told c) _ (refl, refl, refl, refl) up)
]

-- Whatever a sound correlator sees, its stories stay within max_story_steps steps and name no tactic
-- twice, its pointers point to stories, and its numbering counts them: for an event observed, and
-- for an alert filed.
pub correlate_alert-IsSound :
    (ev : Event) (a : Alert) (c : Correlator)
    → IsSound c
    → IsSound (observe ev c) × IsSound (correlate_alert ev a c).0
unfolding correlate_alert ancestry
correlate_alert-IsSound ev a c v =
    let chain = ancestry ev.pid ev.ppid ev.timestamp c in
    let lines =
      SameStories-IsSound c chain.0
        (ancestry_loop-SameStories _ ev.timestamp ev.ppid (ev.pid ∷ []) c) v in
    let (sound, at) =
      story_for-IsSound chain.1 (top_of ev.pid chain.1) ev.timestamp chain.0 lines in
    let r = story_for chain.1 (top_of ev.pid chain.1) ev.timestamp chain.0 in
    let story =
      file_alert-IsStory ev.timestamp _ (story_at r.1 r.0) (story_at-IsStory r.1 r.0 sound at) in
    (observe-IsSound ev c v, report-IsSound r.1 _ _ r.0 story sound)
