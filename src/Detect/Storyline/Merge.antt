-- ===== src/Detect/Storyline/Merge.antt =====
-- Which storyline a chain of processes belongs to: stories that the chain joins are merged, or a
-- new one is opened.
use krnl_sentry.Base.{
  ℕ, ◌+◌, ltb, ℤ, ◌+ℤ◌, String, Bool, true, ◌&&◌, ◌||◌, not, List, [], ◌∷◌, ◌++◌, map, none, some,
  ◌==◌, nat_eq, if◌then◌else◌, concat, format_uint, length, get_or, set, sub64, signed64,
  unsigned64, div_trunc, sort_by,
}
use krnl_sentry.Dict.{lookup, insert}
use krnl_sentry.Detect.Alert.{StoryStep}
use krnl_sentry.Detect.Config.{millisecond}
use krnl_sentry.Detect.Storyline.Story.{Storyline, add_step, add_tactics, append_all}
use krnl_sentry.Detect.Storyline.Lineage.{Correlator, is_expired, is_in_chain, comm_of}

-- No pointer is out of range, so this is never read.
abbrev blank : Storyline
blank = record {
  id = "";
  root = 0;
  root_comm = "";
  members = [];
  tactics = [];
  techniques = [];
  procs = [];
  steps = [];
  alerts = 0;
  first_ts = 0;
  last_ts = 0;
  reported_n = 0;
}

-- What a pointer points to.
unfoldable pub story_at : ℕ → Correlator → Storyline
story_at p c = get_or c.stories p blank

unfoldable pub update_story : ℕ → Storyline → Correlator → Correlator
update_story p s c = record c { stories = set c.stories p s }

-- members[pid] = true, and byPID[pid] = p.
unfoldable pub join_members : List ℕ → List (ℕ × Bool) → List (ℕ × Bool)
join_members [] members = members
join_members (pid ∷ pids) members = join_members pids (insert pid true members)

unfoldable pub point_all : List ℕ → ℕ → List (ℕ × ℕ) → List (ℕ × ℕ)
point_all [] p by_pid = by_pid
point_all (pid ∷ pids) p by_pid = point_all pids p (insert pid p by_pid)

abbrev pub max_ℕ : ℕ → ℕ → ℕ
max_ℕ a b = if ltb a b then b else a

unfoldable pub add_steps : List StoryStep → List StoryStep → List StoryStep
add_steps steps [] = steps
add_steps steps (st ∷ rest) = add_steps (add_step st steps) rest

-- An offset of a merged story, from the start of the story that absorbs it.
abbrev pub shift_step : ℤ → StoryStep → StoryStep
shift_step shift st = record st { offset_ms = st.offset_ms +ℤ shift }

abbrev pub milliseconds : ℕ → ℤ
milliseconds d = div_trunc (signed64 d) millisecond

-- The story that merge leaves at dst.
unfoldable pub absorb : Storyline → Storyline → Storyline
absorb dst src =
    let shift = milliseconds (sub64 src.first_ts dst.first_ts) in
    record dst {
      members = join_members (map (λ m. m.0) src.members) dst.members;
      tactics = (add_tactics dst.tactics src.tactics).0;
      techniques = append_all dst.techniques src.techniques;
      procs = append_all dst.procs src.procs;
      steps =
          add_steps []
            (sort_by (λ st. st.offset_ms) (dst.steps ++ map (shift_step shift) src.steps));
      alerts = dst.alerts + src.alerts;
      last_ts = max_ℕ dst.last_ts src.last_ts;
      reported_n = max_ℕ dst.reported_n src.reported_n;
    }

-- Correlator.merge.
unfoldable pub merge : ℕ → ℕ → Correlator → Correlator
merge dst src c =
    let s = story_at src c in
    update_story dst (absorb (story_at dst c) s)
      (record c { by_pid = point_all (map (λ m. m.0) s.members) dst c.by_pid })

-- The open stories of a chain, each once.
unfoldable pub found_stories : Correlator → ℕ → List ℕ → List ℕ → List ℕ
found_stories c now [] found = found
found_stories c now (pid ∷ chain) found = elim (lookup pid c.by_pid) [
  | none ↦ found_stories c now chain found
  | some p ↦ found_stories c now chain (
      if is_expired (unsigned64 c.cfg.window) now (Storyline.last_ts (story_at p c))
        || is_in_chain p found
      then found
      else found ++ p ∷ [])
]

-- The oldest story absorbs the rest: the pointer to it.
unfoldable pub merge_all : ℕ → List ℕ → Correlator → Correlator × ℕ
merge_all p [] c = (c, p)
merge_all p (other ∷ rest) c =
    let older = ltb (Storyline.first_ts (story_at other c)) (Storyline.first_ts (story_at p c)) in
    merge_all (if older then other else p) rest (if older then merge other p c else merge p other c)

-- The topmost process of a chain.
unfoldable pub top_of : ℕ → List ℕ → ℕ
top_of pid [] = pid
top_of pid (p ∷ chain) = top_of p chain

-- A story that begins now.
unfoldable pub new_story : ℕ → ℕ → Correlator → Correlator × ℕ
new_story top now c =
    let seq = c.seq + 1 in
    (
      record c {
        seq = seq;
        stories =
            c.stories
            ++ record blank {
              id = concat ("ks-" ∷ format_uint top ∷ "-" ∷ format_uint seq ∷ []);
              root = top;
              root_comm = comm_of top c;
              first_ts = now;
            }
              ∷ [];
      },
      length c.stories,
    )

unfoldable pub choose_story : ℕ → ℕ → List ℕ → Correlator → Correlator × ℕ
choose_story top now [] c = new_story top now c
choose_story top now (p ∷ rest) c = merge_all p rest c

-- A story with a chain in it. Its root moves up if the chain goes past it.
unfoldable pub with_chain : List ℕ → ℕ → String → Storyline → Storyline
with_chain chain top comm s =
    let joined = record s { members = join_members chain s.members } in
    if not (top == s.root) && is_in_chain s.root chain
    then record joined { root = top; root_comm = comm }
    else joined

unfoldable pub join_chain : List ℕ → ℕ → ℕ → Correlator → Correlator
join_chain chain top p c =
    update_story p (with_chain chain top (comm_of top c) (story_at p c))
      (record c { by_pid = point_all chain p c.by_pid })

-- Correlator.storyFor, on a chain given by its first process and the rest.
unfoldable pub story_for : List ℕ → ℕ → ℕ → Correlator → Correlator × ℕ
story_for chain top now c =
    let r = choose_story top now (found_stories c now chain []) c in
    (join_chain chain top r.1 r.0, r.1)
