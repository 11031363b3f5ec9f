-- ===== src/Detect/Storyline/Lineage/Ancestry.antt =====
-- The chain of ancestors: how long it gets, and that it holds no process twice.
use krnl_sentry.Base.{
  ℕ, zero, suc, ◌+◌, ◌-◌, ◌≤◌, ◌<◌, leb, false, ◌||◌, List, [], ◌∷◌, ◌++◌, ◌≡◌, refl, ap, arith,
  inl, inr, nat_eq, length, length-append, Bool-cases, Option-cases, All, All-append,
}
use krnl_sentry.Detect.Storyline.Lineage.{
  Correlator, max_ancestry, node, is_in_chain, is_boundary, ancestry_loop, ancestry,
}

-- No process stands twice.
abbrev pub IsOnce : List ℕ → Type 0
IsOnce [] = Unit
IsOnce (p ∷ ps) = (is_in_chain p ps ≡ false) × IsOnce ps

-- A process that can be an ancestor: neither 0, nor init, nor kthreadd.
abbrev pub IsAncestor : ℕ → Type 0
IsAncestor p = 2 < p

-- A chain of the process, then ancestors, each once and at most max_ancestry in all.
pub record IsLine (pid : ℕ) (chain : List ℕ) : Type 0 where
  pub once : IsOnce chain
  pub ancestors : (rest : List ℕ) × (chain ≡ pid ∷ rest) × All IsAncestor rest

is_in_chain-append :
    (p : ℕ) (xs ys : List ℕ) → is_in_chain p (xs ++ ys) ≡ (is_in_chain p xs || is_in_chain p ys)
unfolding is_in_chain
is_in_chain-append p [] ys = refl
is_in_chain-append p (x ∷ xs) ys = ground (arith, is_in_chain-append p xs ys)

IsOnce-append : (p : ℕ) (xs : List ℕ) → IsOnce xs → is_in_chain p xs ≡ false → IsOnce (xs ++ p ∷ [])
unfolding is_in_chain
IsOnce-append p [] d new = (refl, tt)
IsOnce-append p (x ∷ xs) d new =
    let apart = is_in_chain-append x xs (p ∷ []) in
    let ih = IsOnce-append p xs d.1 (ground (arith, new)) in ground (arith, apart, ih, new, d.0)

IsLine-append :
    (pid p : ℕ) (chain : List ℕ)
    → IsLine pid chain
    → leb p 2 ≡ false
    → is_in_chain p chain ≡ false
    → IsLine pid (chain ++ p ∷ [])
IsLine-append pid p chain line high new =
    let (rest, split, all) = line.ancestors in
    record {
      once = IsOnce-append p chain line.once new;
      ancestors = (
        rest ++ p ∷ [],
        ap (λ xs. xs ++ p ∷ []) split,
        All-append IsAncestor rest (p ∷ []) all (ground arith, tt),
      );
    }

-- The loop lengthens a line to a line, by no more than its rounds.
ancestry_loop-IsLine :
    (rounds now cur pid : ℕ) (chain : List ℕ) (c : Correlator)
    → IsLine pid chain
    → IsLine pid (ancestry_loop rounds now cur chain c).1
unfolding ancestry_loop
ancestry_loop-IsLine zero now cur pid chain c line = line
ancestry_loop-IsLine (suc rounds) now cur pid chain c line =
    elim (Bool-cases (leb cur 2 || is_in_chain cur chain)) [
      | inl stop ↦ rw stop line
      | inr goes ↦ rw goes (elim (Bool-cases (is_boundary (node cur now c).1)) [
        | inl session ↦ rw session line
        | inr inner ↦
            let longer =
              IsLine-append pid cur chain line (ground (arith, goes)) (ground (arith, goes)) in
            rw inner (elim (Option-cases (node cur now c).1) [
              | inl gone ↦ rw gone longer
              | inr (n, known) ↦ rw known (
                  ancestry_loop-IsLine rounds now n.ppid pid (chain ++ cur ∷ []) (node cur now c).0
                    longer)
            ])
      ])
    ]

length-ancestry_loop-le :
    (rounds now cur : ℕ) (chain : List ℕ) (c : Correlator)
    → length (ancestry_loop rounds now cur chain c).1 ≤ length chain + rounds
unfolding ancestry_loop
length-ancestry_loop-le zero now cur chain c = ground arith
length-ancestry_loop-le (suc rounds) now cur chain c =
    let one = length-append chain (cur ∷ []) in
    elim (Option-cases (node cur now c).1) [
      | inl gone ↦ ground (arith, one, gone)
      | inr (n, known) ↦
          let ih =
            length-ancestry_loop-le rounds now n.ppid (chain ++ cur ∷ []) (node cur now c).0 in
          ground (arith, one, known, ih)
    ]

-- The ancestry of a process is the process, then at most fifteen further processes above PID 2,
-- and none stands twice, also where the recorded parents go in a circle.
pub ancestry-IsLine :
    (pid ppid now : ℕ) (c : Correlator)
    → IsLine pid (ancestry pid ppid now c).1 × (length (ancestry pid ppid now c).1 ≤ max_ancestry)
unfolding ancestry is_in_chain
ancestry-IsLine pid ppid now c = (
  ancestry_loop-IsLine (max_ancestry - 1) now ppid pid (pid ∷ []) c
      (record { once = (refl, tt); ancestors = ([], refl, tt) }),
  ground (arith, length-ancestry_loop-le (max_ancestry - 1) now ppid (pid ∷ []) c),
)
