-- ===== src/Output/Terminal/Visible.antt =====
-- How many printable columns a text takes in front of others, its control sequences included.
use Prim.Native.String.{count, ◌++◌}
use Prim.Native.String.append
use Prim.Native.String.count
use krnl_sentry.Base.{
  ℕ, zero, suc, ◌+◌, ◌-◌, ◌≤◌, ltb, leb, String, Bool, true, false, List, [], ◌∷◌, ◌==◌, nat_eq,
  string_eq, if◌then◌else◌, ◌≡◌, sym, ap, ◌∙◌, arith, concat, Bool-cases, inl, inr,
}
use krnl_sentry.Output.Terminal.{
  scan_next, scan_width, visible_from, visible_len, occurrences, pad_visible, truncate, take_runes,
  repeat_text, ansi_reset,
}
use krnl_sentry.Output.Terminal.Columns.{Free}

text-append_assoc : (s t u : String) → (s ++ t) ++ u ≡ s ++ (t ++ u)
text-append_assoc String.[] t u = ap (λ x. x ++ u) (append.nil t) ∙ sym (append.nil (t ++ u))
text-append_assoc (String.◌∷◌ c s) t u =
    ap (λ x. x ++ u) (append.cons c s t)
    ∙ append.cons c (s ++ t) u
    ∙ ap (λ x. String.◌∷◌ c x) (text-append_assoc s t u)
    ∙ sym (append.cons c s (t ++ u))

text-append-nil : (s : String) → s ++ "" ≡ s
text-append-nil String.[] = append.nil ""
text-append-nil (String.◌∷◌ c s) = append.cons c s "" ∙ ap (λ x. String.◌∷◌ c x) (text-append-nil s)

pub count-append : (s t : String) → count (s ++ t) ≡ count s + count t
count-append String.[] t = omega (arith, ap count (append.nil t), count.nil)
count-append (String.◌∷◌ c s) t =
    omega
      (arith, ap count (append.cons c s t), count.cons c (s ++ t), count.cons c s, count-append s t)

-- A text without the byte that begins a sequence takes a column for each rune.
visible-append : (s t : String) → Free 27 s → visible_len (s ++ t) ≡ count s + visible_len t
unfolding visible_len occurrences visible_from scan_next scan_width
visible-append String.[] t h = omega (arith, ap visible_len (append.nil t), count.nil)
visible-append (String.◌∷◌ c s) t h =
    ground (arith, append.cons c s t, count.cons c s, visible-append s t)

pub visible_clean : (s : String) → Free 27 s → visible_len s ≡ count s
unfolding visible_len visible_from
visible_clean s h = omega (arith, visible-append s "" h, ap visible_len (text-append-nil s))

-- In front of any text, s takes at most n columns more.
abbrev pub Takes : ℕ → String → Type 0
Takes n s = (t : String) → visible_len (s ++ t) ≤ n + visible_len t

-- A control sequence takes none, whatever follows it.
abbrev pub IsStyle : String → Type 0
IsStyle s = (t : String) → visible_len (s ++ t) ≡ visible_len t

-- Pieces of some columns each, and all together.
infixr 67 ◌▸◌
pub data Pieces : List ℕ → List String → Type 0 where
  finish : Pieces [] []
  ◌▸◌ :
      {n : ℕ} {ns : List ℕ} {s : String} {ss : List String}
      → Takes n s
      → Pieces ns ss
      → Pieces (n ∷ ns) (s ∷ ss)

abbrev pub sum : List ℕ → ℕ
sum [] = 0
sum (n ∷ ns) = n + sum ns

pub clean-Takes : (n : ℕ) (s : String) → Free 27 s → count s ≤ n → Takes n s
clean-Takes n s h few t = omega (arith, visible-append s t h)

pub concat-Takes : (ns : List ℕ) (ss : List String) → Pieces ns ss → Takes (sum ns) (concat ss)
unfolding concat
concat-Takes (n ∷ ns) [] pieces t = elim pieces [ ]
concat-Takes [] (s ∷ ss) pieces t = elim pieces [ ]
concat-Takes [] [] finish t = omega (arith, ap visible_len (append.nil t))
concat-Takes (n ∷ ns) (s ∷ ss) (here ▸ later) t = omega (
  arith,
  ap visible_len (text-append_assoc s (concat ss) t),
  here (concat ss ++ t),
  concat-Takes ns ss later t,
)

pub visible-concat :
    (ns : List ℕ) (ss : List String) → Pieces ns ss → visible_len (concat ss) ≤ sum ns
unfolding visible_len visible_from
visible-concat ns ss pieces =
    omega (arith, concat-Takes ns ss pieces "", ap visible_len (text-append-nil (concat ss)))

pub if-Takes :
    (n : ℕ) (b : Bool) (s t : String) → Takes n s → Takes n t → Takes n (if b then s else t)
if-Takes n true s t hs ht = hs
if-Takes n false s t hs ht = ht

pub join-IsStyle : (s t : String) → IsStyle s → IsStyle t → IsStyle (s ++ t)
join-IsStyle s t hs ht u = ap visible_len (text-append_assoc s t u) ∙ hs (t ++ u) ∙ ht u

-- A text in front of another, which computes where the first is a literal.
abbrev pub prepend : String → String → String
prepend String.[] t = t
prepend (String.◌∷◌ c s) t = String.◌∷◌ c (prepend s t)

append-prepend : (s t : String) → s ++ t ≡ prepend s t
append-prepend String.[] t = append.nil t
append-prepend (String.◌∷◌ c s) t =
    append.cons c s t ∙ ap (λ x. String.◌∷◌ c x) (append-prepend s t)

pub prepend-IsStyle :
    (s : String) → ((t : String) → visible_len (prepend s t) ≡ visible_len t) → IsStyle s
prepend-IsStyle s h t = ap visible_len (append-prepend s t) ∙ h t

reset-IsStyle : IsStyle ansi_reset
unfolding visible_len visible_from scan_next scan_width
reset-IsStyle = prepend-IsStyle ansi_reset (λ t. omega arith)

pub style-Takes :
    (n : ℕ) (style s : String)
    → IsStyle style
    → Takes n s
    → Takes n (concat (style ∷ s ∷ ansi_reset ∷ []))
style-Takes n style s hs h t =
    let reset_none : Takes 0 ansi_reset = λ u. omega (arith, reset-IsStyle u) in
    let style_none : Takes 0 style = λ u. omega (arith, hs u) in
    omega (
      arith,
      concat-Takes (0 ∷ n ∷ 0 ∷ []) (style ∷ s ∷ ansi_reset ∷ [])
          (style_none ▸ h ▸ reset_none ▸ finish) t,
    )

count-take_runes : (n : ℕ) (s : String) → count (take_runes n s) ≤ n
unfolding take_runes
count-take_runes zero s = omega (arith, count.nil)
count-take_runes (suc n) String.[] = omega (arith, count.nil)
count-take_runes (suc n) (String.◌∷◌ c s) =
    omega (arith, count.cons c (take_runes n s), count-take_runes n s)

-- truncate keeps to its width.
pub count-truncate : (s : String) (w : ℕ) → count (truncate s w) ≤ w
unfolding truncate
count-truncate s w = elim (Bool-cases (w == 0)) [
  | inl none_at_all ↦ rw none_at_all (omega (arith, count.nil))
  | inr some_width ↦ elim (Bool-cases (leb (count s) w)) [
    | inl short ↦ rw (some_width, short) (ground arith)
    | inr long ↦ elim (Bool-cases (w == 1)) [
      | inl one ↦ rw (some_width, long, one) (ground arith)
      | inr more ↦
          rw (some_width, long, more)
            (ground (arith, count-append (take_runes (w - 1) s) "…", count-take_runes (w - 1) s))
    ]
  ]
]

count-repeat_text : (n : ℕ) → count (repeat_text " " n) ≡ n
unfolding repeat_text
count-repeat_text zero = count.nil
count-repeat_text (suc n) = omega (arith, count-append " " (repeat_text " " n), count-repeat_text n)

-- padVisible fills a text without sequences up to its width.
pub count-pad_visible : (s : String) (w : ℕ) → Free 27 s → count s ≤ w → count (pad_visible s w) ≡ w
unfolding pad_visible
count-pad_visible s w h few =
    let columns = visible_clean s h in
    elim (Bool-cases (ltb (visible_len s) w)) [
      | inl narrow ↦
          let gap = w - visible_len s in
          rw narrow (ground (arith, count-append s (repeat_text " " gap), count-repeat_text gap))
      | inr full ↦ rw full (ground arith)
    ]
