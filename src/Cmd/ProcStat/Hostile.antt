-- ===== src/Cmd/ProcStat/Hostile.antt =====
-- readPPID and the names that a process may choose.
use Prim.Native.Char.{Char, code}
use Prim.Native.String.{◌++◌}
use Prim.Native.String.append
use krnl_sentry.Base.{
  ℕ, ◌^◌, ◌<◌, String, true, false, List, ◌∷◌, Option, none, some, ◌==◌, nat_eq, ◌≡◌, refl, ap, ◌∙◌,
  arith, format_uint, trim_space, is_space, fields, split_word, behind_last, with_word,
  parse_uint32, behind_last-append, behind_last_here, behind_last_not_here, behind_last-digits,
  split_word_on, split_word_space, split_word-digits, all_digits-format_uint,
  parse_uint32-format_uint,
}
use krnl_sentry.Cmd.ProcStat.{behind_space, second_number, parse_stat, read_ppid, lookup_proc}

-- A stat file as the kernel writes it: the PID, the name in parentheses, the state, the parent, and
-- further fields.
abbrev pub stat_text : ℕ → String → Char → ℕ → String → String
stat_text pid name state ppid rest =
    format_uint pid
    ++ (" (" ++ (name ++ (") " ++ String.◌∷◌ state (" " ++ (format_uint ppid ++ (" " ++ rest))))))

read_ppid_line : (line : String) → read_ppid (some line) ≡ parse_stat line
unfolding read_ppid
read_ppid_line line = refl

lookup_proc_of :
    (stat : Option String) (comm : String) (ppid : ℕ)
    → read_ppid stat ≡ some ppid
    → lookup_proc stat (some comm) ≡ some (ppid, trim_space comm)
unfolding lookup_proc
lookup_proc_of stat comm ppid h = rw (h, lookup_proc) refl

fields-split_word : (s : String) → fields s ≡ with_word (split_word s).0 (split_word s).1
unfolding fields
fields-split_word s = refl

-- What stands behind the state.
abbrev after_state : ℕ → String → String
after_state ppid rest = " " ++ (format_uint ppid ++ (" " ++ rest))

space_char : (c : Char) × (" " ≡ String.◌∷◌ c "") × (code c ≡ 32)
space_char = (_, refl, refl)

space_ahead : (t : String) → (c : Char) × (" " ++ t ≡ String.◌∷◌ c t) × (code c ≡ 32)
space_ahead t =
    let (c, spelled, value) = space_char in
    (c, ap (λ s. s ++ t) spelled ∙ append.cons c "" t ∙ ap (String.◌∷◌ c) (append.nil t), value)

paren_chars : (c : Char) × (") " ≡ String.◌∷◌ c " ") × (code c ≡ 41)
paren_chars = (_, refl, refl)

paren_ahead : (t : String) → (c : Char) × (") " ++ t ≡ String.◌∷◌ c (" " ++ t)) × (code c ≡ 41)
paren_ahead t =
    let (c, spelled, value) = paren_chars in
    (c, ap (λ s. s ++ t) spelled ∙ append.cons c " " t, value)

code-is_space : (c : Char) → code c ≡ 32 → is_space c ≡ true
unfolding is_space
code-is_space c h = ground (arith, h)

split_space : (t : String) → split_word (" " ++ t) ≡ ("", fields t)
split_space t =
    let (c, ahead, value) = space_ahead t in
    ap split_word ahead ∙ split_word_space c t (code-is_space c value)

space_clean : (t : String) → behind_last 41 t ≡ none → behind_last 41 (" " ++ t) ≡ none
space_clean t h =
    let (c, ahead, value) = space_ahead t in
    ap (behind_last 41) ahead ∙ behind_last_not_here 41 c t (ground (arith, value)) h

after_state_clean :
    (ppid : ℕ) (rest : String)
    → behind_last 41 rest ≡ none
    → behind_last 41 (after_state ppid rest) ≡ none
after_state_clean ppid rest h = space_clean (format_uint ppid ++ (" " ++ rest)) (
    behind_last-digits 41 (format_uint ppid) (" " ++ rest) refl (all_digits-format_uint ppid)
      (space_clean rest h))

fields_from :
    (ppid : ℕ) (rest : String)
    → fields (format_uint ppid ++ (" " ++ rest)) ≡ with_word (format_uint ppid) (fields rest)
fields_from ppid rest =
    let digits =
      split_word-digits (format_uint ppid) (" " ++ rest) (all_digits-format_uint ppid)
        (ap (λ r. r.0) (split_space rest)) in
    fields-split_word (format_uint ppid ++ (" " ++ rest))
    ∙ ap (λ r. with_word r.0 r.1) digits
    ∙ ap (λ r. with_word (format_uint ppid) r.1) (split_space rest)

fields_state :
    (state : Char) (ppid : ℕ) (rest : String)
    → is_space state ≡ false
    → fields (String.◌∷◌ state (after_state ppid rest))
      ≡ String.◌∷◌ state "" ∷ with_word (format_uint ppid) (fields rest)
unfolding with_word
fields_state state ppid rest h =
    let first =
      split_word_on state (after_state ppid rest) h
      ∙ ap (λ r. (String.◌∷◌ state r.0, r.1)) (split_space (format_uint ppid ++ (" " ++ rest))) in
    fields-split_word (String.◌∷◌ state (after_state ppid rest))
    ∙ ap (λ r. with_word r.0 r.1) first
    ∙ ap (λ ws. String.◌∷◌ state "" ∷ ws) (fields_from ppid rest)

second_number_lem :
    (state word : String) (words : List String) (n : ℕ)
    → parse_uint32 word ≡ some n
    → second_number (state ∷ with_word word words) ≡ some n
unfolding second_number with_word parse_uint32
second_number_lem state String.[] words n h = absurd (ground (arith, h))
second_number_lem state (String.◌∷◌ c s) words n h = h

parse_stat_lem :
    (line t s : String)
    → behind_last 41 line ≡ some t
    → behind_space t ≡ some s
    → parse_stat line ≡ second_number (fields s)
unfolding parse_stat
parse_stat_lem line t s found more = rw (found, more, parse_stat) refl

behind_space_lem :
    (state : Char) (t : String)
    → behind_space (" " ++ String.◌∷◌ state t) ≡ some (String.◌∷◌ state t)
unfolding behind_space
behind_space_lem state t = rw ((space_ahead (String.◌∷◌ state t)).1) refl

paren_found :
    (pid : ℕ) (name t : String)
    → behind_last 41 (" " ++ t) ≡ none
    → behind_last 41 (format_uint pid ++ (" (" ++ (name ++ (") " ++ t)))) ≡ some (" " ++ t)
paren_found pid name t h =
    let (c, ahead, value) = paren_ahead t in
    let here =
      ap (behind_last 41) ahead ∙ behind_last_here 41 c (" " ++ t) (ground (arith, value)) h in
    behind_last-append 41 (format_uint pid) _ _
      (behind_last-append 41 " (" _ _ (behind_last-append 41 name _ _ here))

-- Whatever name a process has, with spaces, parentheses or line ends: from its stat file as the
-- kernel writes it, with a parent below 2^32, a state that is neither a space nor a closing
-- parenthesis, and no closing parenthesis behind it, readPPID reads the parent, and lookupProc
-- returns it with the trimmed name of the comm file.
pub lookup_proc_lem :
    (pid ppid : ℕ) (name rest comm : String) (state : Char)
    → ppid < 2 ^ 32
    → is_space state ≡ false
    → (code state == 41) ≡ false
    → behind_last 41 rest ≡ none
    → (read_ppid (some (stat_text pid name state ppid rest)) ≡ some ppid)
      × (lookup_proc (some (stat_text pid name state ppid rest)) (some comm)
          ≡ some (ppid, trim_space comm))
lookup_proc_lem pid ppid name rest comm state small letter other tail = (parent, looked_up)
  where
    t : String
    t = String.◌∷◌ state (after_state ppid rest)

    unclosed : behind_last 41 (" " ++ t) ≡ none
    unclosed = space_clean t (
        behind_last_not_here 41 state (after_state ppid rest) other
          (after_state_clean ppid rest tail))

    parent : read_ppid (some (stat_text pid name state ppid rest)) ≡ some ppid
    parent =
        read_ppid_line (stat_text pid name state ppid rest)
        ∙ parse_stat_lem _ (" " ++ t) t (paren_found pid name t unclosed)
            (behind_space_lem state (after_state ppid rest))
        ∙ ap second_number (fields_state state ppid rest letter)
        ∙ second_number_lem _ (format_uint ppid) (fields rest) ppid
            (parse_uint32-format_uint ppid small)

    looked_up :
        lookup_proc (some (stat_text pid name state ppid rest)) (some comm)
        ≡ some (ppid, trim_space comm)
    looked_up = lookup_proc_of _ comm ppid parent
