-- ===== src/Detect/Storyline/Sound/Merging.antt =====
-- The choice of a story keeps the correlator's stories bounded and its pointers in range.
use krnl_sentry.Base.{
  String, ℕ, zero, suc, ◌+◌, ◌≤◌, ◌<◌, ltb, true, false, ◌||◌, ◌&&◌, not, List, [], ◌∷◌, ◌++◌, map,
  ◌≡◌, refl, sym, ◌∙◌, ap, subst, arith, inl, inr, ◌==◌, nat_eq, length, length-append, Bool-cases,
  Option-cases, All, All-append, All-mono, get_or, set, unsigned64,
}
use krnl_sentry.Dict.{lookup, insert}
use krnl_sentry.Dict.Laws.{Values, Values-insert, Values-lookup}
use krnl_sentry.Detect.Alert.{StoryStep}
use krnl_sentry.Detect.Storyline.Story.{Storyline, max_story_steps, add_step}
use krnl_sentry.Detect.Storyline.Story.Steps.{length-add_step}
use krnl_sentry.Detect.Storyline.Story.Tactical.{IsDistinct, add_tactics-IsDistinct}
use krnl_sentry.Detect.Storyline.Lineage.{Correlator, is_expired, is_in_chain, comm_of}
use krnl_sentry.Detect.Storyline.Merge.{
  story_at, update_story, point_all, add_steps, absorb, merge, found_stories, merge_all, new_story,
  choose_story, join_chain, with_chain, story_for,
}

-- A story shows at most max_story_steps steps, and each tactic once.
pub record IsStory (s : Storyline) : Type 0 where
  pub few : length s.steps ≤ max_story_steps
  pub distinct : IsDistinct s.tactics

-- Every story is one, there are as many as were numbered, and no pointer is out of range.
pub record IsSound (c : Correlator) : Type 0 where
  pub stories : All IsStory c.stories
  pub numbered : length c.stories ≡ c.seq
  pub pointers : Values (λ p. p < length c.stories) c.by_pid

length-set {ℓ} : {A : Type ℓ} (xs : List A) (i : ℕ) (v : A) → length (set xs i v) ≡ length xs
length-set [] i v = refl
length-set (x ∷ xs) zero v = refl
length-set (x ∷ xs) (suc i) v = ap suc (length-set xs i v)

All-set {ℓ κ} :
    {A : Type ℓ} (P : A → Type κ) (xs : List A) (i : ℕ) (v : A)
    → P v
    → All P xs
    → All P (set xs i v)
All-set P [] i v p h = h
All-set P (x ∷ xs) zero v p h = (p, h.1)
All-set P (x ∷ xs) (suc i) v p h = (h.0, All-set P xs i v p h.1)

All-get_or {ℓ κ} :
    {A : Type ℓ} (P : A → Type κ) (xs : List A) (i : ℕ) (d : A)
    → All P xs
    → i < length xs
    → P (get_or xs i d)
All-get_or P [] i d h le = absurd (omega (arith, le))
All-get_or P (x ∷ xs) zero d h le = h.0
All-get_or P (x ∷ xs) (suc i) d h le = All-get_or P xs i d h.1 (omega (arith, le))

pub story_at-IsStory :
    (p : ℕ) (c : Correlator) → IsSound c → p < length c.stories → IsStory (story_at p c)
unfolding story_at
story_at-IsStory p c v le = All-get_or IsStory c.stories p _ v.stories le

pub length-update_story :
    (p : ℕ) (s : Storyline) (c : Correlator)
    → length (Correlator.stories (update_story p s c)) ≡ length c.stories
unfolding update_story
length-update_story p s c = length-set c.stories p s

pub update_story-IsSound :
    (p : ℕ) (s : Storyline) (c : Correlator) → IsStory s → IsSound c → IsSound (update_story p s c)
unfolding update_story
update_story-IsSound p s c story v = record {
  stories = All-set IsStory c.stories p s story v.stories;
  numbered = length-set c.stories p s ∙ v.numbered;
  pointers = subst (λ n. Values (λ q. q < n) c.by_pid) (sym (length-set c.stories p s)) v.pointers;
}

Values-point_all :
    (n : ℕ) (pids : List ℕ) (p : ℕ) (by_pid : List (ℕ × ℕ))
    → p < n
    → Values (λ q. q < n) by_pid
    → Values (λ q. q < n) (point_all pids p by_pid)
unfolding point_all
Values-point_all n [] p by_pid le v = v
Values-point_all n (pid ∷ pids) p by_pid le v =
    Values-point_all n pids p (insert pid p by_pid) le
      (Values-insert (λ q. q < n) pid p by_pid le v)

point_all-IsSound :
    (pids : List ℕ) (p : ℕ) (c : Correlator)
    → p < length c.stories
    → IsSound c
    → IsSound (record c { by_pid = point_all pids p c.by_pid })
point_all-IsSound pids p c le v = record {
  stories = v.stories;
  numbered = v.numbered;
  pointers = Values-point_all (length c.stories) pids p c.by_pid le v.pointers;
}

length-add_steps :
    (rest steps : List StoryStep)
    → length steps ≤ max_story_steps
    → length (add_steps steps rest) ≤ max_story_steps
unfolding add_steps
length-add_steps [] steps le = le
length-add_steps (st ∷ rest) steps le =
    length-add_steps rest (add_step st steps) (length-add_step st steps le)

absorb-IsStory : (dst src : Storyline) → IsStory dst → IsStory (absorb dst src)
unfolding absorb
absorb-IsStory dst src v = record {
  few = length-add_steps _ [] (omega arith);
  distinct = add_tactics-IsDistinct dst.tactics src.tactics v.distinct;
}

-- A change that keeps the correlator sound and the number of its stories.
abbrev pub KeepsSound : Correlator → Correlator → Type 0
KeepsSound c d = IsSound d × (length d.stories ≡ length c.stories)

merge-KeepsSound :
    (dst src : ℕ) (c : Correlator)
    → dst < length c.stories
    → IsSound c
    → KeepsSound c (merge dst src c)
unfolding merge
merge-KeepsSound dst src c le v =
    let pids = map (λ m. m.0) (Storyline.members (story_at src c)) in
    let pointed = point_all-IsSound pids dst c le v in
    let story = absorb-IsStory (story_at dst c) (story_at src c) (story_at-IsStory dst c v le) in
    (
      update_story-IsSound dst (absorb (story_at dst c) (story_at src c))
          (record c { by_pid = point_all pids dst c.by_pid }) story pointed,
      length-update_story dst (absorb (story_at dst c) (story_at src c))
          (record c { by_pid = point_all pids dst c.by_pid }),
    )

found_stories-InRange :
    (c : Correlator) (now : ℕ) (chain found : List ℕ)
    → IsSound c
    → All (λ p. p < length c.stories) found
    → All (λ p. p < length c.stories) (found_stories c now chain found)
unfolding found_stories
found_stories-InRange c now [] found v h = h
found_stories-InRange c now (pid ∷ chain) found v h = elim (Option-cases (lookup pid c.by_pid)) [
  | inl missing ↦ rw (missing, All) (found_stories-InRange c now chain found v h)
  | inr (p, points) ↦
      let le = Values-lookup (λ q. q < length c.stories) pid c.by_pid v.pointers points in
      let longer = All-append (λ q. q < length c.stories) found (p ∷ []) h (le, tt) in
      let again = found_stories-InRange c now chain found v h in
      let next = found_stories-InRange c now chain (found ++ p ∷ []) v longer in
      elim (Bool-cases (
        is_expired (unsigned64 c.cfg.window) now (Storyline.last_ts (story_at p c))
        || is_in_chain p found)) [
          | inl skip ↦ rw (points, skip, All) again
          | inr fresh ↦ rw (points, fresh, All) next
        ]
]

in_range : (q : ℕ) {m n : ℕ} → m ≡ n → q < m → q < n
in_range q same le = omega (arith, same, le)

after :
    (c d e : Correlator) {k : ℕ}
    → length d.stories ≡ length c.stories
    → KeepsSound d e × (k < length d.stories)
    → KeepsSound c e × (k < length c.stories)
after c d e {k} same ((sound, kept), le) = ((sound, kept ∙ same), in_range k same le)

-- The result of a merge is sound, and the pointer is in range.
Fine : Correlator → Correlator × ℕ → Type 0
Fine c r = KeepsSound c r.0 × (r.1 < length c.stories)

merge_all-older :
    (p other : ℕ) (rest : List ℕ) (c : Correlator)
    → ltb (Storyline.first_ts (story_at other c)) (Storyline.first_ts (story_at p c)) ≡ true
    → merge_all p (other ∷ rest) c ≡ merge_all other rest (merge other p c)
unfolding merge_all
merge_all-older p other rest c h = ground (arith, h)

merge_all-newer :
    (p other : ℕ) (rest : List ℕ) (c : Correlator)
    → ltb (Storyline.first_ts (story_at other c)) (Storyline.first_ts (story_at p c)) ≡ false
    → merge_all p (other ∷ rest) c ≡ merge_all p rest (merge p other c)
unfolding merge_all
merge_all-newer p other rest c h = ground (arith, h)

merge_all-KeepsSound :
    (p : ℕ) (rest : List ℕ) (c : Correlator)
    → p < length c.stories
    → All (λ q. q < length c.stories) rest
    → IsSound c
    → KeepsSound c (merge_all p rest c).0 × ((merge_all p rest c).1 < length c.stories)
unfolding merge_all Fine
merge_all-KeepsSound p [] c le all v = ((v, refl), le)
merge_all-KeepsSound p (other ∷ rest) c le all v =
    elim (Bool-cases
      (ltb (Storyline.first_ts (story_at other c)) (Storyline.first_ts (story_at p c)))) [
        | inl older ↦
            let (sound, same) = merge-KeepsSound other p c all.0 v in
            let ih =
              merge_all-KeepsSound other rest (merge other p c) (in_range other (sym same) all.0)
                (subst (λ n. All (λ r. r < n) rest) (sym same) all.1) sound in
            subst (Fine c) (sym (merge_all-older p other rest c older))
              (after c (merge other p c) _ same ih)
        | inr newer ↦
            let (sound, same) = merge-KeepsSound p other c le v in
            let ih =
              merge_all-KeepsSound p rest (merge p other c) (in_range p (sym same) le)
                (subst (λ n. All (λ r. r < n) rest) (sym same) all.1) sound in
            subst (Fine c) (sym (merge_all-newer p other rest c newer))
              (after c (merge p other c) _ same ih)
      ]

-- A story at the end is the next one.
append_story-IsSound :
    (s : Storyline) (c : Correlator)
    → IsStory s
    → IsSound c
    → IsSound (record c { seq = c.seq + 1; stories = c.stories ++ s ∷ [] })
      × (length c.stories < length (c.stories ++ s ∷ []))
append_story-IsSound s c story v =
    let more = length-append c.stories (s ∷ []) in
    let wider : length c.stories < length (c.stories ++ s ∷ []) = ground (arith, more) in
    (
      record {
        stories = All-append IsStory c.stories (s ∷ []) v.stories (story, tt);
        numbered = ground (arith, more, v.numbered);
        pointers =
            All-mono (λ e. e.1 < length c.stories) (λ e. e.1 < length (c.stories ++ s ∷ []))
              c.by_pid (λ e le. omega (arith, wider, le)) v.pointers;
      },
      wider,
    )

new_story-IsSound :
    (top now : ℕ) (c : Correlator)
    → IsSound c
    → IsSound (new_story top now c).0
      × ((new_story top now c).1 < length (Correlator.stories (new_story top now c).0))
unfolding new_story
new_story-IsSound top now c v =
    append_story-IsSound _ c (record { few = omega arith; distinct = tt }) v

choose_story-IsSound :
    (top now : ℕ) (found : List ℕ) (c : Correlator)
    → All (λ p. p < length c.stories) found
    → IsSound c
    → IsSound (choose_story top now found c).0
      × ((choose_story top now found c).1
          < length (Correlator.stories (choose_story top now found c).0))
unfolding choose_story
choose_story-IsSound top now [] c all v = new_story-IsSound top now c v
choose_story-IsSound top now (p ∷ rest) c all v =
    let ((sound, same), at) = merge_all-KeepsSound p rest c all.0 all.1 v in
    (sound, subst (λ n. (merge_all p rest c).1 < n) (sym same) at)

with_chain-IsStory :
    (chain : List ℕ) (top : ℕ) (comm : String) (s : Storyline)
    → IsStory s
    → IsStory (with_chain chain top comm s)
unfolding with_chain
with_chain-IsStory chain top comm s v =
    elim (Bool-cases (not (top == s.root) && is_in_chain s.root chain)) [
      | inl moves ↦ rw moves (record { few = v.few; distinct = v.distinct })
      | inr stays ↦ rw stays (record { few = v.few; distinct = v.distinct })
    ]

join_chain-KeepsSound :
    (chain : List ℕ) (top p : ℕ) (c : Correlator)
    → p < length c.stories
    → IsSound c
    → KeepsSound c (join_chain chain top p c)
unfolding join_chain
join_chain-KeepsSound chain top p c le v =
    let pointed = point_all-IsSound chain p c le v in
    let s = with_chain chain top (comm_of top c) (story_at p c) in
    let old = story_at-IsStory p c v le in
    (
      update_story-IsSound p s (record c { by_pid = point_all chain p c.by_pid })
          (with_chain-IsStory chain top (comm_of top c) (story_at p c) old) pointed,
      length-update_story p s (record c { by_pid = point_all chain p c.by_pid }),
    )

-- The story of a chain is one of the correlator's, which stays sound.
pub story_for-IsSound :
    (chain : List ℕ) (top now : ℕ) (c : Correlator)
    → IsSound c
    → IsSound (story_for chain top now c).0
      × ((story_for chain top now c).1 < length (Correlator.stories (story_for chain top now c).0))
unfolding story_for
story_for-IsSound chain top now c v =
    let found = found_stories-InRange c now chain [] v tt in
    let (sound, at) = choose_story-IsSound top now (found_stories c now chain []) c found v in
    let r = choose_story top now (found_stories c now chain []) c in
    let (kept, same) = join_chain-KeepsSound chain top r.1 r.0 at sound in
    (kept, subst (λ n. r.1 < n) (sym same) at)
