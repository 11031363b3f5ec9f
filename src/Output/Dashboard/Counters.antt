-- ===== src/Output/Dashboard/Counters.antt =====
-- What the counters of output/dashboard.go hold after a run of Write.
use krnl_sentry.Base.{
  ℕ, zero, suc, ◌+◌, ◌-◌, ◌%◌, ◌^◌, ◌≤◌, ◌<◌, ltb, String, List, [], ◌∷◌, ◌++◌, Option, none, some,
  if◌then◌else◌, ◌==◌, nat_eq, string_eq, length, drop, Eq, ◌≡◌, refl, sym, ap, ◌∙◌, arith,
  length-append, length-drop, Bool-cases, inl, inr,
}
use mathlib.Core.List.{append_assoc, append-nil}
use krnl_sentry.Dict.{lookup}
use krnl_sentry.Dict.Laws.{lookup-insert}
use krnl_sentry.Detect.Alert.{Alert}
use krnl_sentry.Detect.Storyline.Tactics.{Tactic, tactics_for}
use krnl_sentry.Output.Dashboard.{
  Dashboard, DashboardOptions, ProcKey, proc_eq, new_dashboard, recent_cap, tally, bump, bump_all,
  has_story, write,
}

-- The calls of Write in their order.
unfoldable pub write_all : List Alert → Dashboard → Dashboard
write_all [] d = d
write_all (a ∷ alerts) d = write_all alerts (write a d)

module _ {ℓ} {K : Type ℓ} ⦃e : Eq K⦄ where
  -- How often a key stands in a list.
  abbrev pub occurs : K → List K → ℕ
  occurs k [] = 0
  occurs k (j ∷ js) = if j == k then suc (occurs k js) else occurs k js

  bump_keys : List K → List (K × ℕ) → List (K × ℕ)
  bump_keys [] m = m
  bump_keys (k ∷ ks) m = bump_keys ks (bump k m)

  tally-bump :
      (k j : K) (m : List (K × ℕ))
      → tally j (bump k m) ≡ (if k == j then (tally j m + 1) % 2 ^ 64 else tally j m)
  unfolding tally bump
  tally-bump k j m = ground (arith, lookup-insert k j ((tally k m + 1) % 2 ^ 64) m, e.beq_iff k j)

  tally-bump_keys :
      (ks : List K) (j : K) (m : List (K × ℕ))
      → tally j m < 2 ^ 64
      → tally j (bump_keys ks m) ≡ (tally j m + occurs j ks) % 2 ^ 64
  unfolding bump_keys
  tally-bump_keys [] j m h = omega arith
  tally-bump_keys (k ∷ ks) j m h = ground (arith, tally-bump k j m, tally-bump_keys ks j (bump k m))

  tally_fresh : (ks : List K) (j : K) → tally j (bump_keys ks []) ≡ occurs j ks % 2 ^ 64
  unfolding tally lookup
  tally_fresh ks j = omega (arith, tally-bump_keys ks j [] (omega arith))

abbrev pub keys {ℓ} : {K : Type ℓ} → (Alert → K) → List Alert → List K
keys f [] = []
keys f (a ∷ alerts) = f a ∷ keys f alerts

abbrev pub proc_key : Alert → ProcKey
proc_key a = record { comm = a.comm; pid = a.pid }

abbrev names : List Tactic → List String
names [] = []
names (t ∷ ts) = t.name ∷ names ts

-- The tactics of all the alerts.
abbrev pub all_tactics : List Alert → List String
all_tactics [] = []
all_tactics (a ∷ alerts) = names (tactics_for a) ++ all_tactics alerts

-- The last alert that tells a story.
abbrev pub last_story : List Alert → Option Alert → Option Alert
last_story [] found = found
last_story (a ∷ alerts) found = last_story alerts (if has_story a then some a else found)

-- The last 64 of a list.
abbrev pub newest : List Alert → List Alert
newest alerts = drop (length alerts - recent_cap) alerts

by_severity-write_all :
    (alerts : List Alert) (d : Dashboard)
    → (write_all alerts d).by_severity ≡ bump_keys (keys (λ a. a.severity) alerts) d.by_severity
unfolding write_all write bump_keys
by_severity-write_all [] d = refl
by_severity-write_all (a ∷ alerts) d = by_severity-write_all alerts (write a d)

by_rule-write_all :
    (alerts : List Alert) (d : Dashboard)
    → (write_all alerts d).by_rule ≡ bump_keys (keys (λ a. a.rule) alerts) d.by_rule
unfolding write_all write bump_keys
by_rule-write_all [] d = refl
by_rule-write_all (a ∷ alerts) d = by_rule-write_all alerts (write a d)

by_process-write_all :
    (alerts : List Alert) (d : Dashboard)
    → (write_all alerts d).by_process ≡ bump_keys (keys proc_key alerts) d.by_process
unfolding write_all write bump_keys
by_process-write_all [] d = refl
by_process-write_all (a ∷ alerts) d = by_process-write_all alerts (write a d)

bump_keys-append :
    (js ks : List String) (m : List (String × ℕ))
    → bump_keys (js ++ ks) m ≡ bump_keys ks (bump_keys js m)
unfolding bump_keys
bump_keys-append [] ks m = refl
bump_keys-append (j ∷ js) ks m = bump_keys-append js ks (bump j m)

bump_all-names : (ts : List Tactic) (m : List (String × ℕ)) → bump_all ts m ≡ bump_keys (names ts) m
unfolding bump_all bump_keys
bump_all-names [] m = refl
bump_all-names (t ∷ ts) m = bump_all-names ts (bump t.name m)

by_tactic-write_all :
    (alerts : List Alert) (d : Dashboard)
    → (write_all alerts d).by_tactic ≡ bump_keys (all_tactics alerts) d.by_tactic
unfolding write_all write bump_keys
by_tactic-write_all [] d = refl
by_tactic-write_all (a ∷ alerts) d =
    rw (by_tactic-write_all alerts (write a d), bump_all-names (tactics_for a) d.by_tactic)
      (sym (bump_keys-append (names (tactics_for a)) (all_tactics alerts) d.by_tactic))

total-write_all :
    (alerts : List Alert) (d : Dashboard)
    → d.total < 2 ^ 64
    → (write_all alerts d).total ≡ (d.total + length alerts) % 2 ^ 64
unfolding write_all write
total-write_all [] d h = omega arith
total-write_all (a ∷ alerts) d h = ground (arith, total-write_all alerts (write a d))

last_chain-write_all :
    (alerts : List Alert) (d : Dashboard)
    → (write_all alerts d).last_chain ≡ last_story alerts d.last_chain
unfolding write_all write
last_chain-write_all [] d = refl
last_chain-write_all (a ∷ alerts) d = last_chain-write_all alerts (write a d)

drop_one-append :
    (n : ℕ) (alerts : List Alert) (a : Alert)
    → n < length alerts
    → drop 1 (drop n alerts ++ (a ∷ [])) ≡ drop (suc n) (alerts ++ (a ∷ []))
drop_one-append zero (b ∷ alerts) a h = refl
drop_one-append zero [] a h = absurd (omega arith)
drop_one-append (suc n) [] a h = absurd (omega arith)
drop_one-append (suc n) (b ∷ alerts) a h = drop_one-append n alerts a (omega arith)

newest_short : (alerts : List Alert) → length alerts ≤ recent_cap → newest alerts ≡ alerts
newest_short alerts h = let e : length alerts - recent_cap ≡ 0 = omega arith in rw e refl

-- To cut the cut list once more is to cut the whole.
newest-append :
    (alerts : List Alert) (a : Alert)
    → newest (newest alerts ++ (a ∷ [])) ≡ newest (alerts ++ (a ∷ []))
newest-append alerts a = elim (Bool-cases (ltb (length alerts) 64)) [
  | inl short ↦ ap (λ l. newest (l ++ (a ∷ []))) (newest_short alerts (ground arith))
  | inr long ↦
      let cut = length alerts - 64 in
      let one : length (newest alerts ++ (a ∷ [])) - 64 ≡ 1 =
        ground (arith, length-append (newest alerts) (a ∷ []), length-drop cut alerts) in
      let all : length (alerts ++ (a ∷ [])) - 64 ≡ suc cut =
        ground (arith, length-append alerts (a ∷ [])) in
      ap (λ n. drop n (newest alerts ++ (a ∷ []))) one
      ∙ drop_one-append cut alerts a (ground arith)
      ∙ sym (ap (λ n. drop n (alerts ++ (a ∷ []))) all)
]

recent-write : (a : Alert) (d : Dashboard) → (write a d).recent ≡ newest (d.recent ++ (a ∷ []))
unfolding write
recent-write a d = elim (Bool-cases (ltb recent_cap (length (d.recent ++ (a ∷ []))))) [
  | inl long ↦ rw long refl
  | inr short ↦ rw short (sym (newest_short (d.recent ++ (a ∷ [])) (ground arith)))
]

recent-write_all :
    (alerts before : List Alert) (d : Dashboard)
    → d.recent ≡ newest before
    → (write_all alerts d).recent ≡ newest (before ++ alerts)
unfolding write_all
recent-write_all [] before d h = h ∙ sym (ap newest (append-nil before))
recent-write_all (a ∷ alerts) before d h =
    let now : (write a d).recent ≡ newest (before ++ (a ∷ [])) =
      recent-write a d ∙ ap (λ l. newest (l ++ (a ∷ []))) h ∙ newest-append before a in
    recent-write_all alerts (before ++ (a ∷ [])) (write a d) now
    ∙ ap newest (append_assoc before (a ∷ []) alerts)

-- What a dashboard shows of the alerts that it was given.
abbrev pub Shows : Dashboard → List Alert → Type 0
Shows d alerts =
    (d.total ≡ length alerts % 2 ^ 64)
    × ((s : ℕ) → tally s d.by_severity ≡ occurs s (keys (λ a. a.severity) alerts) % 2 ^ 64)
    × ((r : String) → tally r d.by_rule ≡ occurs r (keys (λ a. a.rule) alerts) % 2 ^ 64)
    × ((t : String) → tally t d.by_tactic ≡ occurs t (all_tactics alerts) % 2 ^ 64)
    × ((p : ProcKey) → tally p d.by_process ≡ occurs p (keys proc_key alerts) % 2 ^ 64)
    × (d.recent ≡ newest alerts)
    × (d.last_chain ≡ last_story alerts none)

-- For all options and alerts: after NewDashboard and a Write of each alert in turn, the total and
-- the counts by severity, rule, tactic and process are, modulo 2^64, the numbers of the alerts
-- with that key (an alert counts once for each of its tactics), the feed is the last 64 alerts in
-- their order, and the chain shown is the last alert that carries a story.
pub write_all-Shows :
    (opts : DashboardOptions) (alerts : List Alert)
    → Shows (write_all alerts (new_dashboard opts)) alerts
unfolding new_dashboard
write_all-Shows opts alerts =
    let d = new_dashboard opts in
    (
      omega (arith, total-write_all alerts d (omega arith)),
      λ s. ap (tally s) (by_severity-write_all alerts d) ∙ tally_fresh _ s,
      λ r. ap (tally r) (by_rule-write_all alerts d) ∙ tally_fresh _ r,
      λ t. ap (tally t) (by_tactic-write_all alerts d) ∙ tally_fresh _ t,
      λ p. ap (tally p) (by_process-write_all alerts d) ∙ tally_fresh _ p,
      recent-write_all alerts [] d refl,
      last_chain-write_all alerts d,
    )
