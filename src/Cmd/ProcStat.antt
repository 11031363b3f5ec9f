-- ===== src/Cmd/ProcStat.antt =====
-- cmd/krnlsentry/pidfilter.go: what readPPID, lookupProc and seedFromProc make of /proc. The files
-- are a parameter, each its text or none where it cannot be read. In a stat file, what follows the
-- name is ASCII.
pub mod Hostile
use krnl_sentry.Base.{
  ℕ, String, Bool, true, false, List, [], ◌∷◌, Option, none, some, if◌then◌else◌, nat_eq,
  trim_space, parse_uint32, fields, behind_last,
}
use krnl_sentry.Dict.{insert}

-- line[close+2:] of the text behind the parenthesis: none where the line ends at or before it.
unfoldable pub behind_space : String → Option String
behind_space String.[] = none
behind_space (String.◌∷◌ c String.[]) = none
behind_space (String.◌∷◌ c (String.◌∷◌ d s)) = some (String.◌∷◌ d s)

-- The number in fields[1].
unfoldable pub second_number : List String → Option ℕ
second_number [] = none
second_number (state ∷ []) = none
second_number (state ∷ ppid ∷ rest) = parse_uint32 ppid

-- readPPID, on a line.
unfoldable pub parse_stat : String → Option ℕ
parse_stat line = elim (behind_last 41 line) [
  | none ↦ none
  | some t ↦ elim (behind_space t) [ none ↦ none | some s ↦ second_number (fields s) ]
]

-- readPPID.
unfoldable pub read_ppid : Option String → Option ℕ
read_ppid none = none
read_ppid (some line) = parse_stat line

-- lookupProc, on the stat and the comm file of a process.
unfoldable pub lookup_proc : Option String → Option String → Option (ℕ × String)
lookup_proc stat comm = elim (read_ppid stat) [
  | none ↦ none
  | some ppid ↦ elim comm [ none ↦ none | some name ↦ some (ppid, trim_space name) ]
]

-- An entry of /proc, with the stat file in it.
pub record ProcEntry : Type 0 where
  pub name : String
  pub is_dir : Bool
  pub stat : Option String

abbrev pub with_parent : Option ℕ → Option ℕ → List (ℕ × ℕ) → List (ℕ × ℕ)
with_parent (some pid) (some ppid) parents = insert pid ppid parents
with_parent (some pid) none parents = parents
with_parent none ppid parents = parents

-- The loop of seedFromProc over the entries.
unfoldable pub collect_parents : List ProcEntry → List (ℕ × ℕ) → List (ℕ × ℕ)
collect_parents [] parents = parents
collect_parents (e ∷ entries) parents =
    collect_parents entries
      (if e.is_dir then with_parent (parse_uint32 e.name) (read_ppid e.stat) parents else parents)

-- The parents that seedFromProc sweeps: none where /proc cannot be listed.
unfoldable pub seed_parents : Option (List ProcEntry) → List (ℕ × ℕ)
seed_parents none = []
seed_parents (some entries) = collect_parents entries []
