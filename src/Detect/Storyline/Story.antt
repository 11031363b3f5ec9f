-- ===== src/Detect/Storyline/Story.antt =====
-- A storyline, and how alerts add to it.
pub mod Steps
pub mod Tactical
use krnl_sentry.Base.{
  ℕ, ◌+◌, leb, String, Bool, true, false, ◌||◌, not, List, [], ◌∷◌, ◌++◌, Option, none, some, ◌==◌,
  string_eq, Eq, if◌then◌else◌, length,
}
use krnl_sentry.Detect.Alert.{StoryStep}
use krnl_sentry.Detect.Storyline.Tactics.{Tactic, tactic_eq}

abbrev pub max_story_steps : ℕ
max_story_steps = 24

-- The members are a map to true.
pub record Storyline : Type 0 where
  pub id : String
  pub root : ℕ
  pub root_comm : String
  pub members : List (ℕ × Bool)
  pub tactics : List Tactic
  pub techniques : List String
  pub procs : List String
  pub steps : List StoryStep
  pub alerts : ℕ
  pub first_ts : ℕ
  pub last_ts : ℕ
  pub reported_n : ℕ

-- The steps without the oldest that is not pivotal, or none where all are.
unfoldable pub evict : List StoryStep → Option (List StoryStep)
evict [] = none
evict (st ∷ rest) =
    let later : Option (List StoryStep) = elim (evict rest) [
      | none ↦ none
      | some kept ↦ some (st ∷ kept)
    ] in
    if st.pivotal then later else some rest

-- The steps without the first.
abbrev pub drop_first : List StoryStep → List StoryStep
drop_first [] = []
drop_first (st ∷ rest) = rest

-- Room in a full story for a step.
abbrev pub make_room : StoryStep → List StoryStep → Option (List StoryStep) → List StoryStep
make_room st steps (some kept) = kept ++ st ∷ []
make_room st steps none = if st.pivotal then drop_first steps ++ st ∷ [] else steps

-- storyline.addStep, on the steps.
unfoldable pub add_step : StoryStep → List StoryStep → List StoryStep
add_step st steps =
    if leb max_story_steps (length steps)
    then make_room st steps (evict steps)
    else steps ++ st ∷ []

unfoldable pub has_tactic : Tactic → List Tactic → Bool
has_tactic t [] = false
has_tactic t (have ∷ rest) = have == t || has_tactic t rest

-- The tactics of an alert that a story does not have yet are added to it: the new tactics, and
-- whether there was one.
unfoldable pub add_tactics : List Tactic → List Tactic → List Tactic × Bool
add_tactics have [] = (have, false)
add_tactics have (t ∷ ts) =
    let old = add_tactics have ts in
    let new = add_tactics (have ++ t ∷ []) ts in if has_tactic t have then old else (new.0, true)

-- appendUnique.
unfoldable pub is_listed : String → List String → Bool
is_listed v [] = false
is_listed v (have ∷ rest) = have == v || is_listed v rest

unfoldable pub append_unique : List String → String → List String
unfolding is_listed
append_unique list v = if is_listed v list then list else list ++ v ∷ []

unfoldable pub append_all : List String → List String → List String
append_all list [] = list
append_all list (v ∷ vs) = append_all (append_unique list v) vs
