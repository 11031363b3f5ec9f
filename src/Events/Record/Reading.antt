-- ===== src/Events/Record/Reading.antt =====
-- What ReadRecords makes of a capture that is whole, that is cut off in its last line, and that has
-- a bad line in the middle.
use krnl_sentry.Base.{
  ℕ, suc, ◌+◌, ℤ, String, true, false, List, [], ◌∷◌, ◌++◌, map, Option, none, some, ◌≡◌, refl, ap,
  ◌∙◌, arith, trim_space, ◌==◌, string_eq, All, length,
}
use krnl_sentry.Events.Event.{Event}
use krnl_sentry.Events.Record.{
  and_then, Record, Result, ok, err, record_event_of, deliver, read_lines, read_records, line_error,
}

and_then_same {ℓ} :
    {S : Type ℓ} (d : S × Option String) (f g : S → S × Option String)
    → ((s : S) → f s ≡ g s)
    → and_then d f ≡ and_then d g
unfolding and_then
and_then_same (s, some e) f g same = refl
and_then_same (s, none) f g same = same s

module _ {ℓ} {S : Type ℓ} (unmarshal : String → Result Record) (parse_time : String → Result ℤ)
    (fn : S → Event → S × Option String) where
  -- A line that holds an event.
  abbrev pub IsLineOf : String × Event → Type 0
  IsLineOf p =
      ((trim_space p.0 == "") ≡ false)
      × ((r : Record) × (unmarshal p.0 ≡ ok r) × (record_event_of parse_time r ≡ ok p.1))

  -- A line that is not blank and that does not parse.
  abbrev pub IsBadLine : String → Type 0
  IsBadLine line = ((trim_space line == "") ≡ false) × ((e : String) × (unmarshal line ≡ err e))

  -- A line of spaces.
  abbrev pub IsBlank : String → Type 0
  IsBlank line = (trim_space line == "") ≡ true

  -- The callback on some events in order, up to its first error, and then the rest of the work.
  unfoldable pub feed : S → List Event → (S → S × Option String) → S × Option String
  feed s [] after = after s
  feed s (ev ∷ evs) after = and_then (fn s ev) (λ t. feed t evs after)

  deliver_known :
      (n : ℕ) (s : S) (r : Record) (ev : Event)
      → record_event_of parse_time r ≡ ok ev
      → deliver unmarshal parse_time fn (n + 1) s r ≡ fn s ev
  unfolding deliver
  deliver_known n s r ev known = rw (known, deliver) refl

  read_lines_event :
      (n : ℕ) (s : S) (line : String) (ev : Event) (rest : List String)
      → IsLineOf (line, ev)
      → read_lines unmarshal parse_time fn n none s (line ∷ rest)
        ≡ and_then (fn s ev) (λ t. read_lines unmarshal parse_time fn (n + 1) none t rest)
  unfolding read_lines
  read_lines_event n s line ev rest (filled, (r, parses, known)) =
      rw (filled, parses)
        (ap (λ d. and_then d (λ t. read_lines unmarshal parse_time fn (n + 1) none t rest))
          (deliver_known n s r ev known))

  read_lines-feed :
      (ps : List (String × Event)) (n : ℕ) (s : S) (rest : List String)
      → All IsLineOf ps
      → read_lines unmarshal parse_time fn n none s (map (λ p. p.0) ps ++ rest)
        ≡ feed s
            (map (λ p. p.1) ps)
            (λ t. read_lines unmarshal parse_time fn (n + length ps) none t rest)
  unfolding feed
  read_lines-feed [] n s rest all =
      let same : n ≡ n + 0 = omega arith in
      ap (λ k. read_lines unmarshal parse_time fn k none s rest) same
  read_lines-feed (p ∷ ps) n s rest all =
      let first = read_lines_event n s p.0 p.1 (map (λ q. q.0) ps ++ rest) all.0 in
      let same : n + 1 + length ps ≡ n + length (p ∷ ps) = omega arith in
      first
      ∙ and_then_same (fn s p.1) _ _ (λ t.
        read_lines-feed ps (n + 1) t rest all.1
        ∙ ap
            (λ k.
              feed t (map (λ q. q.1) ps) (λ u. read_lines unmarshal parse_time fn k none u rest))
            same)

  read_lines-blank :
      (blanks : List String) (n : ℕ) (pending : Option String) (s : S) (rest : List String)
      → All IsBlank blanks
      → read_lines unmarshal parse_time fn n pending s (blanks ++ rest)
        ≡ read_lines unmarshal parse_time fn (n + length blanks) pending s rest
  unfolding read_lines
  read_lines-blank [] n pending s rest all =
      let same : n ≡ n + 0 = omega arith in
      ap (λ k. read_lines unmarshal parse_time fn k pending s rest) same
  read_lines-blank (b ∷ bs) n pending s rest all =
      let ih = read_lines-blank bs (n + 1) pending s rest all.1 in
      let same : n + 1 + length bs ≡ n + length (b ∷ bs) = omega arith in
      rw (all.0) (ih ∙ ap (λ k. read_lines unmarshal parse_time fn k pending s rest) same)

  read_lines_bad :
      (n : ℕ) (s : S) (line : String) (rest : List String)
      → (trim_space line == "") ≡ false
      → (e : String) → unmarshal line ≡ err e
      → read_lines unmarshal parse_time fn n none s (line ∷ rest)
        ≡ read_lines unmarshal parse_time fn (n + 1) (some (line_error (n + 1) e)) s rest
  unfolding read_lines
  read_lines_bad n s line rest filled e fails = rw (filled, fails) refl

  read_lines_pending :
      (n : ℕ) (e : String) (s : S) (line : String) (rest : List String)
      → (trim_space line == "") ≡ false
      → read_lines unmarshal parse_time fn n (some e) s (line ∷ rest) ≡ (s, some e)
  unfolding read_lines
  read_lines_pending n e s line rest filled = rw filled refl

  read_lines-blanks :
      (blanks : List String) (n : ℕ) (pending : Option String) (s : S)
      → All IsBlank blanks
      → read_lines unmarshal parse_time fn n pending s blanks ≡ (s, none)
  unfolding read_lines
  read_lines-blanks [] n pending s all = refl
  read_lines-blanks (b ∷ bs) n pending s all =
      rw (all.0) (read_lines-blanks bs (n + 1) pending s all.1)

  feed_same :
      (s : S) (evs : List Event) (f g : S → S × Option String)
      → ((t : S) → f t ≡ g t)
      → feed s evs f ≡ feed s evs g
  unfolding feed
  feed_same s [] f g same = same s
  feed_same s (ev ∷ evs) f g same = and_then_same (fn s ev) _ _ (λ t. feed_same t evs f g same)

  read_lines_cut :
      (n : ℕ) (s : S) (bad : String) (blanks : List String)
      → IsBadLine bad
      → All IsBlank blanks
      → read_lines unmarshal parse_time fn n none s (bad ∷ blanks) ≡ (s, none)
  read_lines_cut n s bad blanks is_bad all =
      let (filled, (e, fails)) = is_bad in
      read_lines_bad n s bad blanks filled e fails
      ∙ read_lines-blanks blanks (n + 1) (some (line_error (n + 1) e)) s all

  -- A capture whose lines all hold events gives the callback those events in order, and stops
  -- only at its error; a last line that does not parse changes nothing, with or without blank
  -- lines after it.
  pub read_records-feed :
      (s : S) (ps : List (String × Event)) (bad : String) (blanks : List String)
      → All IsLineOf ps
      → IsBadLine bad
      → All IsBlank blanks
      → let fed = feed s (map (λ p. p.1) ps) (λ t. (t, none)) in
        (read_records unmarshal parse_time fn s (map (λ p. p.0) ps ++ []) ≡ fed)
        × (read_records unmarshal parse_time fn s (map (λ p. p.0) ps ++ (bad ∷ blanks)) ≡ fed)
  unfolding read_records read_lines
  read_records-feed s ps bad blanks all is_bad spaces =
      let evs = map (λ p. p.1) ps in
      (
        read_lines-feed ps 0 s [] all ∙ feed_same s evs _ _ (λ t. refl),
        read_lines-feed ps 0 s (bad ∷ blanks) all
            ∙ feed_same s evs _ _ (λ t. read_lines_cut (0 + length ps) t bad blanks is_bad spaces),
      )

  -- A blank line, or a line that holds an event.
  abbrev pub IsRead : String × Option Event → Type 0
  IsRead (line, none) = IsBlank line
  IsRead (line, some ev) = IsLineOf (line, ev)

  -- A line that parses, to a record that holds no event: its call is unknown or its time is bad.
  abbrev pub IsRefused : String → String → Type 0
  IsRefused line why =
      ((trim_space line == "") ≡ false)
      × ((r : Record) × (unmarshal line ≡ ok r) × (record_event_of parse_time r ≡ err why))

  abbrev pub events_in : List (String × Option Event) → List Event
  events_in [] = []
  events_in ((line, none) ∷ ps) = events_in ps
  events_in ((line, some ev) ∷ ps) = ev ∷ events_in ps

  read_lines_blank :
      (n : ℕ) (pending : Option String) (s : S) (line : String) (rest : List String)
      → IsBlank line
      → read_lines unmarshal parse_time fn n pending s (line ∷ rest)
        ≡ read_lines unmarshal parse_time fn (n + 1) pending s rest
  unfolding read_lines
  read_lines_blank n pending s line rest blank = rw blank refl

  read_lines-events_in :
      (ps : List (String × Option Event)) (n : ℕ) (s : S) (rest : List String)
      → All IsRead ps
      → read_lines unmarshal parse_time fn n none s (map (λ p. p.0) ps ++ rest)
        ≡ feed s
            (events_in ps)
            (λ t. read_lines unmarshal parse_time fn (n + length ps) none t rest)
  unfolding feed
  read_lines-events_in [] n s rest all =
      let same : n ≡ n + 0 = omega arith in
      ap (λ k. read_lines unmarshal parse_time fn k none s rest) same
  read_lines-events_in ((line, none) ∷ ps) n s rest all =
      let same : n + 1 + length ps ≡ n + suc (length ps) = omega arith in
      read_lines_blank n none s line (map (λ q. q.0) ps ++ rest) all.0
      ∙ read_lines-events_in ps (n + 1) s rest all.1
      ∙ ap (λ k. feed s (events_in ps) (λ u. read_lines unmarshal parse_time fn k none u rest)) same
  read_lines-events_in ((line, some ev) ∷ ps) n s rest all =
      let same : n + 1 + length ps ≡ n + suc (length ps) = omega arith in
      read_lines_event n s line ev (map (λ q. q.0) ps ++ rest) all.0
      ∙ and_then_same (fn s ev) _ _ (λ t.
        read_lines-events_in ps (n + 1) t rest all.1
        ∙ ap (λ k. feed t (events_in ps) (λ u. read_lines unmarshal parse_time fn k none u rest))
            same)

  refused_deliver :
      (n : ℕ) (s : S) (r : Record) (why : String)
      → record_event_of parse_time r ≡ err why
      → deliver unmarshal parse_time fn (n + 1) s r ≡ (s, some (line_error (n + 1) why))
  unfolding deliver
  refused_deliver n s r why unknown = rw (unknown, deliver) refl

  read_lines_refused :
      (n : ℕ) (s : S) (line why : String) (rest : List String)
      → IsRefused line why
      → read_lines unmarshal parse_time fn n none s (line ∷ rest)
        ≡ (s, some (line_error (n + 1) why))
  unfolding read_lines and_then
  read_lines_refused n s line why rest (filled, (r, parses, unknown)) =
      rw (filled, parses)
        (ap (λ d. and_then d (λ t. read_lines unmarshal parse_time fn (n + 1) none t rest))
          (refused_deliver n s r why unknown))

  -- Let the lines before a bad one be blank or hold an event each. A line that does not parse, with a
  -- line that is not blank somewhere after it, is an error, and so is, whatever follows it, a line
  -- that parses to a record of an unknown call or with a bad time. The error names the line by its
  -- number, blank lines counted, and gives the reason of the parser; the callback has had all events
  -- before the line, in their order, unless it stopped earlier.
  pub read_records_corrupt :
      (s : S) (ps : List (String × Option Event)) (bad why : String) (blanks : List String)
      (line refused reason : String) (rest : List String)
      → All IsRead ps
      → (trim_space bad == "") ≡ false
      → unmarshal bad ≡ err why
      → All IsBlank blanks
      → (trim_space line == "") ≡ false
      → IsRefused refused reason
      → (read_records unmarshal parse_time fn s
            (map (λ p. p.0) ps ++ (bad ∷ (blanks ++ (line ∷ rest))))
          ≡ feed s (events_in ps) (λ t. (t, some (line_error (length ps + 1) why))))
        × (read_records unmarshal parse_time fn s (map (λ p. p.0) ps ++ (refused ∷ rest))
            ≡ feed s (events_in ps) (λ t. (t, some (line_error (length ps + 1) reason))))
  unfolding read_records
  read_records_corrupt s ps bad why blanks line refused reason rest all filled_bad fails spaces
        filled unknown =
      let n = length ps in
      let tail = blanks ++ (line ∷ rest) in
      let same : 0 + n ≡ n = omega arith in
      (
        read_lines-events_in ps 0 s (bad ∷ tail) all
            ∙ feed_same s (events_in ps) _ _ (λ t.
              ap (λ k. read_lines unmarshal parse_time fn k none t (bad ∷ tail)) same
              ∙ read_lines_bad n t bad tail filled_bad why fails
              ∙ read_lines-blank blanks (n + 1) (some (line_error (n + 1) why)) t (line ∷ rest)
                  spaces
              ∙ read_lines_pending (n + 1 + length blanks) (line_error (n + 1) why) t line rest
                  filled),
        read_lines-events_in ps 0 s (refused ∷ rest) all
            ∙ feed_same s (events_in ps) _ _ (λ t.
              ap (λ k. read_lines unmarshal parse_time fn k none t (refused ∷ rest)) same
              ∙ read_lines_refused n t refused reason rest unknown),
      )
