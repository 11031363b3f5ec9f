-- ===== src/Output/Terminal/Columns.antt =====
-- Texts of output/dashboard.go without a rune, a line end or the byte that begins a sequence.
use Prim.Native.String.{count, ◌++◌}
use Prim.Native.String.append
use krnl_sentry.Base.{
  ℕ, zero, suc, ◌+◌, ◌-◌, ◌<◌, ltb, leb, String, Bool, true, false, List, [], ◌∷◌, ◌==◌, nat_eq,
  if◌then◌else◌, ◌≡◌, arith, concat, join, refl, printable, format_uint, format_uint-printable,
  Bool-cases, inl, inr,
}
use krnl_sentry.Output.Terminal.{
  occurrences, visible_len, pad_visible, truncate, take_runes, drop_runes, repeat_text, pad_left,
  group_digits, format_count,
}

pub occurrences-append :
    (r : ℕ) (s t : String) → occurrences r (s ++ t) ≡ occurrences r s + occurrences r t
unfolding occurrences
occurrences-append r String.[] t = ground (arith, append.nil t)
occurrences-append r (String.◌∷◌ c s) t =
    ground (arith, append.cons c s t, occurrences-append r s t)

-- The rune r is not in the text.
abbrev pub Free : ℕ → String → Type 0
Free r s = occurrences r s ≡ 0

-- So for each of some texts.
infixr 67 ◌▹◌
pub data Frees (r : ℕ) : List String → Type 0 where
  done : Frees r []
  ◌▹◌ : {s : String} {ss : List String} → Free r s → Frees r ss → Frees r (s ∷ ss)

module _ (r : ℕ) where
  pub append-Free : (s t : String) → Free r s → Free r t → Free r (s ++ t)
  append-Free s t hs ht = omega (arith, occurrences-append r s t)

  pub empty-Free : Free r ""
  unfolding occurrences
  empty-Free = refl

  pub if-Free : (b : Bool) (s t : String) → Free r s → Free r t → Free r (if b then s else t)
  if-Free true s t hs ht = hs
  if-Free false s t hs ht = ht

  pub concat-Free : (ss : List String) → Frees r ss → Free r (concat ss)
  unfolding concat
  concat-Free [] done = empty-Free
  concat-Free (s ∷ ss) (h ▹ hs) = append-Free s (concat ss) h (concat-Free ss hs)

  join-Free : (sep : String) (ss : List String) → Free r sep → Frees r ss → Free r (join sep ss)
  unfolding join
  join-Free sep [] hs done = empty-Free
  join-Free sep (s ∷ []) hs (h ▹ done) = h
  join-Free sep (s ∷ t ∷ ss) hs (h ▹ later) =
      append-Free s _ h (append-Free sep _ hs (join-Free sep (t ∷ ss) hs later))

  pub repeat_text-Free : (s : String) (n : ℕ) → Free r s → Free r (repeat_text s n)
  unfolding repeat_text
  repeat_text-Free s zero h = empty-Free
  repeat_text-Free s (suc n) h = append-Free s _ h (repeat_text-Free s n h)

  take_runes-Free : (n : ℕ) (s : String) → Free r s → Free r (take_runes n s)
  unfolding take_runes occurrences
  take_runes-Free zero s h = refl
  take_runes-Free (suc n) String.[] h = refl
  take_runes-Free (suc n) (String.◌∷◌ c s) h = ground (arith, take_runes-Free n s)

  drop_runes-Free : (n : ℕ) (s : String) → Free r s → Free r (drop_runes n s)
  unfolding drop_runes occurrences
  drop_runes-Free zero s h = h
  drop_runes-Free (suc n) String.[] h = h
  drop_runes-Free (suc n) (String.◌∷◌ c s) h = ground (arith, drop_runes-Free n s)

-- Control characters are not in the texts that the display writes itself.
module _ (r : ℕ) (small : r < 32) where
  pub printable-Free : (s : String) → printable s ≡ true → Free r s
  unfolding occurrences
  printable-Free String.[] h = refl
  printable-Free (String.◌∷◌ c s) h = ground (arith, printable-Free s, small)

  pub number-Free : (n : ℕ) → Free r (format_uint n)
  number-Free n = printable-Free (format_uint n) (format_uint-printable n)

  pub pad_visible-Free : (s : String) (w : ℕ) → Free r s → Free r (pad_visible s w)
  unfolding pad_visible
  pad_visible-Free s w h =
      if-Free r (ltb (visible_len s) w) _ s
        (append-Free r s _ h (repeat_text-Free r " " _ (printable-Free " " refl))) h

  pub pad_left-Free :
      (fill : String) (w : ℕ) (s : String) → Free r fill → Free r s → Free r (pad_left fill w s)
  unfolding pad_left
  pad_left-Free fill w s hf hs = append-Free r _ s (repeat_text-Free r fill _ hf) hs

  pub truncate-Free : (s : String) (w : ℕ) → Free r s → Free r (truncate s w)
  unfolding truncate
  truncate-Free s w h =
      let cut = append-Free r _ "…" (take_runes-Free r (w - 1) s h) (printable-Free "…" refl) in
      if-Free r (w == 0) _ _ (empty-Free r)
        (if-Free r (leb (count s) w) _ _ h (if-Free r (w == 1) _ _ (printable-Free "…" refl) cut))

  group_digits-Free :
      (fuel : ℕ) (s : String) (parts : List String)
      → Free r s
      → Frees r parts
      → Frees r (group_digits fuel s parts)
  unfolding group_digits
  group_digits-Free zero s parts hs hp = (hs ▹ hp)
  group_digits-Free (suc fuel) s parts hs hp = elim (Bool-cases (ltb 3 (count s))) [
    | inl long ↦ rw long (
        group_digits-Free fuel _ _ (take_runes-Free r (count s - 3) s hs)
          (drop_runes-Free r (count s - 3) s hs ▹ hp))
    | inr short ↦ rw short (hs ▹ hp)
  ]

  pub format_count-Free : (n : ℕ) → Free r (format_count n)
  unfolding format_count
  format_count-Free n =
      let s = format_uint n in
      if-Free r (leb (count s) 4) s _ (number-Free n) (
        join-Free r " " _ (printable-Free " " refl)
          (group_digits-Free (count s) s [] (number-Free n) done))
