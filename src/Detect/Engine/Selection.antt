-- ===== src/Detect/Engine/Selection.antt =====
-- Which rules an engine runs.
use krnl_sentry.Base.{
  true, String, List, [], ◌∷◌, ◌++◌, map, ◌≡◌, ◌≢◌, ◌⊎◌, ◌↔◌, refl, sym, subst, arith, ◌==◌,
  string_eq, ◌||◌, Bool-cases, inl, inr, ◌&&◌, ap, ◌∙◌, All, eq_iff, trim_space,
}
use krnl_sentry.Detect.Config.{Config}
use krnl_sentry.Detect.Engine.{
  Rule, all_rules, Engine, NewResult, ok, err, Choice, chosen, refused, is_wanted, wanted_names,
  selected, unknown_names, check_choice, choose_rules, start_engine, new_engine,
}

-- A name that a user asks for, not blank.
abbrev pub IsAsked : String → List String → Type 0
IsAsked name [] = ⊥
IsAsked name (n ∷ ns) = ((trim_space n ≡ name) × (name ≢ "")) ⊎ IsAsked name ns

is_wanted-append :
    (name : String) (xs ys : List String)
    → is_wanted name (xs ++ ys) ≡ (is_wanted name xs || is_wanted name ys)
unfolding is_wanted
is_wanted-append name [] ys = refl
is_wanted-append name (x ∷ xs) ys = ground (arith, is_wanted-append name xs ys)

-- The wanted names are those asked for.
wanted_names_iff :
    (name : String) (wanted asked : List String)
    → (is_wanted name (wanted_names wanted asked) ≡ true)
      ↔ ((is_wanted name wanted ≡ true) ⊎ IsAsked name asked)
unfolding wanted_names is_wanted
wanted_names_iff name wanted [] = (λ h. inl h, λ h. ground (arith, h))
wanted_names_iff name wanted (n ∷ ns) =
    let old = wanted_names_iff name wanted ns in
    let new = wanted_names_iff name (wanted ++ trim_space n ∷ []) ns in
    let app = is_wanted-append name wanted (trim_space n ∷ []) in
    let blank = eq_iff (trim_space n) "" in
    let same = eq_iff (trim_space n) name in
    let here = λ (e : trim_space n ≡ name). ap (λ z. is_wanted z wanted) e in
    elim (Bool-cases (trim_space n == name)) [
      | inl at ↦
          let e = here (same.0 at) in
          (
            λ h. ground (arith, old, new, app, blank, same, e),
            λ h. ground (arith, old, new, app, blank, same, e),
          )
      | inr off ↦ (
        λ h. ground (arith, old, new, app, blank, same),
        λ h. ground (arith, old, new, app, blank, same),
      )
    ]

-- The names of some rules.
abbrev pub names_of : List Rule → List String
names_of rules = map (λ r. Rule.name r) rules

-- The rules that are selected have the wanted names that rules have.
is_wanted-selected :
    (name : String) (wanted : List String) (rules : List Rule)
    → is_wanted name (names_of (selected wanted rules))
      ≡ (is_wanted name wanted && is_wanted name (names_of rules))
unfolding selected is_wanted
is_wanted-selected name wanted [] = ground arith
is_wanted-selected name wanted (r ∷ rs) =
    let ih = is_wanted-selected name wanted rs in
    elim (Bool-cases (r.name == name)) [
      | inl at ↦
          let e = ap (λ z. is_wanted z wanted) ((eq_iff r.name name).0 at) in
          ground (arith, ih, at, e)
      | inr off ↦ ground (arith, ih, off)
    ]

-- No wanted name is unknown exactly if each is the name of a rule.
unknown_names_none :
    (wanted : List String) (rules : List Rule)
    → unknown_names wanted rules ≡ []
    → (name : String) → is_wanted name wanted ≡ true
    → is_wanted name (names_of rules) ≡ true
unfolding unknown_names is_wanted
unknown_names_none [] rules none_ name h = cc
unknown_names_none (w ∷ ws) rules none_ name h =
    let known : is_wanted w (names_of rules) ≡ true = ground (arith, none_) in
    let rest : unknown_names ws rules ≡ [] = ground (arith, none_) in
    elim (Bool-cases (w == name)) [
      | inl at ↦ ap (λ z. is_wanted z (names_of rules)) (sym ((eq_iff w name).0 at)) ∙ known
      | inr off ↦ unknown_names_none ws rules rest name (ground (arith, h, off))
    ]

unknown_names-All :
    (wanted : List String) (rules : List Rule)
    → All (λ name. is_wanted name (names_of rules) ≡ true) wanted
    → unknown_names wanted rules ≡ []
unfolding unknown_names
unknown_names-All [] rules h = refl
unknown_names-All (w ∷ ws) rules h = ground (arith, unknown_names-All ws rules h.1)

-- What a choice must be, to be a set of rules.
Chooses : List String → List Rule → Choice → Type 0
Chooses wanted all (refused reason) = Unit
Chooses wanted all (chosen rules) =
    (rules ≢ [])
    × ((name : String) → (is_wanted name (names_of rules) ≡ true) ↔ (is_wanted name wanted ≡ true))

check_choice-Chooses :
    (wanted : List String) (all sel : List Rule) (unknown : List String)
    → sel ≡ selected wanted all
    → unknown ≡ unknown_names wanted all
    → Chooses wanted all (check_choice sel unknown)
unfolding check_choice Chooses
check_choice-Chooses wanted all sel (u ∷ us) s n = tt
check_choice-Chooses wanted all [] [] s n = tt
check_choice-Chooses wanted all (r ∷ rs) [] s n = (
  λ empty. cc,
  λ name.
      let known = unknown_names_none wanted all (sym n) name in
      let names = ap (λ q. is_wanted name (names_of q)) s ∙ is_wanted-selected name wanted all in
      (λ h. ground (arith, names, h), λ h. ground (arith, names, h, known h)),
)

abbrev ChoosesOk : List String → NewResult → Type 0
ChoosesOk asked (err reason) = Unit
ChoosesOk asked (ok e) =
    (e.rules ≢ [])
    × ((name : String) → (is_wanted name (names_of e.rules) ≡ true) ↔ IsAsked name asked)

start_engine-ChoosesOk :
    (cfg : Config) (asked : List String) (all : List Rule) (choice : Choice)
    → Chooses (wanted_names [] asked) all choice
    → ChoosesOk asked (start_engine cfg choice)
unfolding start_engine Chooses is_wanted
start_engine-ChoosesOk cfg asked all (refused reason) v = tt
start_engine-ChoosesOk cfg asked all (chosen rules) v = (
  v.0,
  λ name.
      let names = wanted_names_iff name [] asked in
      let iff = v.1 name in
      (λ h. ground (arith, names, iff, h), λ h. ground (arith, names, iff, h)),
)

-- Where names are given, the names of the rules that a new engine runs are exactly the names
-- asked for, trimmed and without blank ones, and there is at least one.
pub new_engine_iff :
    (cfg : Config) (n : String) (ns : List String) (e : Engine)
    → new_engine cfg (n ∷ ns) ≡ ok e
    → (e.rules ≢ [])
      × ((name : String)
          → (is_wanted name (map (λ r. Rule.name r) e.rules) ≡ true) ↔ IsAsked name (n ∷ ns))
unfolding new_engine choose_rules
new_engine_iff cfg n ns e made =
    let wanted = wanted_names [] (n ∷ ns) in
    subst (ChoosesOk (n ∷ ns)) made (
      start_engine-ChoosesOk cfg (n ∷ ns) all_rules _ (
        check_choice-Chooses wanted all_rules (selected wanted all_rules)
          (unknown_names wanted all_rules) refl refl))

All-wanted :
    (P : String → Type 0) (wanted : List String)
    → ((name : String) → is_wanted name wanted ≡ true → P name)
    → All P wanted
unfolding is_wanted
All-wanted P [] f = tt
All-wanted P (w ∷ ws) f =
    (f w (ground (arith, eq_iff w w)), All-wanted P ws (λ name h. f name (ground (arith, h))))

check_choice-chosen :
    (sel : List Rule) (name : String)
    → is_wanted name (names_of sel) ≡ true
    → check_choice sel [] ≡ chosen sel
unfolding check_choice is_wanted
check_choice-chosen [] name h = cc
check_choice-chosen (r ∷ rs) name h = refl

-- NewEngine succeeds where each name asked for is that of a rule, and there is one that is not
-- blank.
pub new_engine_total :
    (cfg : Config) (n : String) (ns : List String) (name : String)
    → IsAsked name (n ∷ ns)
    → ((other : String)
        → IsAsked other (n ∷ ns)
        → is_wanted other (map (λ r. Rule.name r) all_rules) ≡ true)
    → (e : Engine) × (new_engine cfg (n ∷ ns) ≡ ok e)
unfolding new_engine choose_rules start_engine is_wanted
new_engine_total cfg n ns name asked known =
    let wanted = wanted_names [] (n ∷ ns) in
    let iff = λ (other : String). wanted_names_iff other [] (n ∷ ns) in
    let none_ : unknown_names wanted all_rules ≡ [] = unknown_names-All wanted all_rules (
      All-wanted (λ other. is_wanted other (names_of all_rules) ≡ true) wanted
        (λ other h. known other (ground (arith, iff other, h)))) in
    let here : is_wanted name wanted ≡ true = (iff name).1 (inr asked) in
    let sel : is_wanted name (names_of (selected wanted all_rules)) ≡ true =
      ground (arith, is_wanted-selected name wanted all_rules, here, known name asked) in
    (
      _,
      ap (start_engine cfg) (
          ap (check_choice (selected wanted all_rules)) none_
          ∙ check_choice-chosen (selected wanted all_rules) name sel),
    )
