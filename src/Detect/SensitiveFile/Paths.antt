-- ===== src/Detect/SensitiveFile/Paths.antt =====
-- path.Clean and path.Match of the standard library, as detect/sensitivefile.go uses them.
use Prim.Native.Char.{Char, code}
use krnl_sentry.Base.{
  String, Bool, false, ◌&&◌, ◌||◌, not, List, [], ◌∷◌, ◌==◌, nat_eq, string_eq, if◌then◌else◌,
  concat, join, has_prefix,
}
use mathlib.Core.List.{reverse}

-- A character in front of the first of some texts.
cons_head : Char → List String → List String
cons_head c [] = String.◌∷◌ c "" ∷ []
cons_head c (s ∷ ss) = String.◌∷◌ c s ∷ ss

-- The texts between the slashes.
unfoldable pub components : String → List String
unfolding cons_head
components String.[] = "" ∷ []
components (String.◌∷◌ c s) =
    let rest = components s in if code c == b'/' then "" ∷ rest else cons_head c rest

-- One component onto the cleaned ones, last first: empty ones and dots vanish, and two dots take
-- the last away; at the root they vanish, at the front of a relative path they stay.
unfoldable pub push_component : Bool → List String → String → List String
push_component rooted [] comp =
    if comp == "" || comp == "." then [] else if comp == ".." && rooted then [] else comp ∷ []
push_component rooted (last ∷ stack) comp =
    if comp == "" || comp == "."
    then last ∷ stack
    else if comp == ".."
    then (if last == ".." then ".." ∷ last ∷ stack else stack)
    else comp ∷ last ∷ stack

unfoldable pub push_all : Bool → List String → List String → List String
push_all rooted stack [] = stack
push_all rooted stack (comp ∷ rest) = push_all rooted (push_component rooted stack comp) rest

-- path.Clean.
unfoldable pub clean : String → String
unfolding components push_component push_all
clean p =
    let rooted = has_prefix p "/" in
    let body = join "/" (reverse (push_all rooted [] (components p))) in
    if rooted then concat ("/" ∷ body ∷ []) else if body == "" then "." else body

-- What `*` allows: some characters other than a slash, and the rest of the pattern after them.
unfoldable pub star : (String → Bool) → String → Bool
star rest String.[] = rest ""
star rest (String.◌∷◌ c s) =
    let longer = star rest s in rest (String.◌∷◌ c s) || (not (code c == b'/') && longer)

-- One plain character, and the rest of the pattern after it.
unfoldable pub literal : Char → (String → Bool) → String → Bool
literal c rest String.[] = false
literal c rest (String.◌∷◌ d s) = code c == code d && rest s

-- path.Match on patterns of plain characters and `*`.
unfoldable pub glob : String → String → Bool
unfolding star literal
glob String.[] = λ s. s == ""
glob (String.◌∷◌ c pattern) =
    let rest = glob pattern in if code c == b'*' then star rest else literal c rest
