-- ===== src/Tests/Filters.antt =====
-- The filter on a tree of processes, at a tree that is listed from the leaves up.
use Prim.Native.Char.{Char}
use krnl_sentry.Base.{
  arith, some, none, trim_space, is_space, behind_last, fields, split_word, with_word, parse_uint32,
  parse_digits, is_digit, ℕ, true, ◌||◌, List, [], ◌∷◌, ◌≡◌, ◌≢◌, ◌↔◌, refl, nat_eq,
}
use krnl_sentry.Dict.{lookup, IsMap}
use krnl_sentry.Cmd.PidFilter.{PidFilter, is_tracked, allow, new_pid_filter}
use krnl_sentry.Cmd.PidFilter.Descent.{Descends}
use krnl_sentry.Cmd.PidFilter.Following.{new_pid_filter_iff, allow_iff}
use krnl_sentry.Cmd.ProcStat.{read_ppid, lookup_proc, parse_stat, behind_space, second_number}
use krnl_sentry.Cmd.ProcStat.Hostile.{stat_text, lookup_proc_lem}
use krnl_sentry.Tests.Data.{connect_event}

-- 30 is a child of 20, which is a child of 10; 40 is of another tree.
abbrev family : List (ℕ × ℕ)
family = (30, 20) ∷ (40, 1) ∷ (20, 10) ∷ []

family-IsMap : IsMap family
unfolding lookup
family-IsMap = (refl, (refl, (refl, tt)))

new_pid_filter_iff_example :
    (is_tracked 30 (new_pid_filter 10 family).tracked ≡ true) ↔ Descends 10 family 30
new_pid_filter_iff_example = new_pid_filter_iff 10 family 30 family-IsMap

abbrev parent_filter : PidFilter
parent_filter = record { root = 900; tracked = (900, true) ∷ [] }

allow_iff_example :
    (((allow connect_event parent_filter).1 ≡ true)
      ↔ ((is_tracked 1000 parent_filter.tracked || is_tracked 900 parent_filter.tracked) ≡ true))
    × (is_tracked 1000 (allow connect_event parent_filter).0.tracked
        ≡ (allow connect_event parent_filter).1)
    × ((other : ℕ)
        → other ≢ 1000
        → is_tracked other (allow connect_event parent_filter).0.tracked
          ≡ is_tracked other parent_filter.tracked)
allow_iff_example = allow_iff connect_event parent_filter

-- The character of a state.
abbrev sleeping : Char
sleeping = Char.char 83 (omega arith)

-- A name that looks like the rest of a stat file.
lookup_proc_lem_example :
    (read_ppid (some (stat_text 77 "evil) S 1 (" sleeping 900 "77 77 0")) ≡ some 900)
    × (lookup_proc (some (stat_text 77 "evil) S 1 (" sleeping 900 "77 77 0")) (some "evil\n")
        ≡ some (900, trim_space "evil\n"))
unfolding is_space behind_last
lookup_proc_lem_example =
    lookup_proc_lem 77 900 "evil) S 1 (" "77 77 0" "evil\n" sleeping (omega arith) refl refl refl

-- A line that ends at the parenthesis holds no parent.
short_refused : read_ppid (some "77 (evil)") ≡ none
unfolding read_ppid parse_stat behind_last behind_space
short_refused = refl

hostile_parsed : read_ppid (some "77 (evil) S 1 () S 900 77") ≡ some 900
unfolding read_ppid parse_stat behind_last behind_space second_number fields is_space split_word
    with_word parse_uint32 parse_digits is_digit
hostile_parsed = refl
