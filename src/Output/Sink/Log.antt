-- ===== src/Output/Sink/Log.antt =====
-- The calls on the alert log of output/jsonl.go, and what each of them comes to.
pub mod Runs
use krnl_sentry.Base.{
  ℕ, String, Bool, true, false, not, List, [], ◌∷◌, ◌++◌, Option, none, some, if◌then◌else◌, ◌≡◌,
  refl, sym, ap, subst, ◌⊎◌, ◌∙◌, arith, Bool-cases, Option-cases, inl, inr,
}
use mathlib.Core.List.{append_assoc, append-nil}
use krnl_sentry.Events.Record.{Result, ok, err}
use krnl_sentry.Detect.Alert.{Alert}
use krnl_sentry.Output.Terminal.{take_runes}
use krnl_sentry.Output.Sink.{
  Answer, succeeds, fails, answer, call, put, wrap, closed_error, LogSink, encode_line,
  encode_value, jsonl_write, jsonl_close,
}

-- A call on the log.
pub data LogCall : Type 0 where
  write_alert : Alert → LogCall
  close_log : LogCall

Result-cases : (r : Result String) → ((e : String) × (r ≡ err e)) ⊎ ((s : String) × (r ≡ ok s))
Result-cases (err e) = inl (e, refl)
Result-cases (ok s) = inr (s, refl)

module _ (encode : Alert → Result String) where
  unfoldable pub log_call : LogCall → LogSink → LogSink × Option String
  log_call (write_alert a) s = jsonl_write encode a s
  log_call close_log s = jsonl_close s

  -- The log after some calls, and what each of them returned.
  unfoldable pub log_run : List LogCall → LogSink → LogSink × List (Option String)
  log_run [] s = (s, [])
  log_run (c ∷ calls) s =
      let r = log_call c s in let later = log_run calls r.0 in (later.0, r.1 ∷ later.1)

  -- The line of a write that returned nil.
  abbrev pub acknowledged : LogCall → Option String → List String
  acknowledged (write_alert a) none = elim (encode a) [ ok line ↦ line ∷ [] | err e ↦ [] ]
  acknowledged (write_alert a) (some e) = []
  acknowledged close_log result = []

  -- The lines of the writes that returned nil, in their order.
  abbrev pub all_acknowledged : List LogCall → List (Option String) → List String
  all_acknowledged (c ∷ calls) (result ∷ results) =
      acknowledged c result ++ all_acknowledged calls results
  all_acknowledged [] results = []
  all_acknowledged (c ∷ calls) [] = []

  -- What a closed log answers.
  abbrev pub refusals : String → List LogCall → List (Option String)
  refusals path [] = []
  refusals path (write_alert a ∷ calls) = closed_error "alert log" path ∷ refusals path calls
  refusals path (close_log ∷ calls) = none ∷ refusals path calls

  abbrev pub has_close : List LogCall → Bool
  has_close [] = false
  has_close (write_alert a ∷ calls) = has_close calls
  has_close (close_log ∷ calls) = true

  -- An alert that one of the calls writes.
  abbrev pub IsAsked : Alert → List LogCall → Type 0
  IsAsked a [] = ⊥
  IsAsked a (write_alert b ∷ calls) = (b ≡ a) ⊎ IsAsked a calls
  IsAsked a (close_log ∷ calls) = IsAsked a calls

  -- What stands behind the lines of the writes that returned nil: nothing, or the beginning of the
  -- line of an alert whose write failed, after which the encoder of a log that had no error keeps one.
  abbrev pub IsRest : List LogCall → LogSink → LogSink → List String → Type 0
  IsRest calls s q rest =
      (rest ≡ [])
      ⊎ ((a : Alert) × (line e : String) × (n : ℕ) × IsAsked a calls
          × (encode a ≡ ok line)
          × (rest ≡ take_runes n line ∷ [])
          × (s.failure ≡ none)
          × (q.failure ≡ some e))

  -- What a call comes to: its line is in the file where it returned nil, or its line is cut off.
  abbrev Step : LogSink → LogCall → LogSink × Option String → Type 0
  Step s c r =
      ((r.0.failure ≡ s.failure) × (r.0.file.text ≡ s.file.text ++ acknowledged c r.1))
      ⊎ ((a : Alert) × (line e : String) × (n : ℕ) × (c ≡ write_alert a)
          × (encode a ≡ ok line)
          × (s.failure ≡ none)
          × (r.0.failure ≡ some e)
          × (acknowledged c r.1 ≡ [])
          × (r.0.file.text ≡ s.file.text ++ (take_runes n line ∷ [])))

  -- A call that changes neither the file nor the encoder, and returns an error.
  refused_Step :
      (a : Alert) (s : LogSink) (e : String) (r : LogSink × Option String)
      → r ≡ (s, some e)
      → Step s (write_alert a) r
  refused_Step a s e r same =
      subst (Step s (write_alert a)) (sym same) (inl (refl, sym (append-nil s.file.text)))

  pub closed_write :
      (a : Alert) (s : LogSink)
      → s.open_file ≡ false
      → jsonl_write encode a s ≡ (s, closed_error "alert log" s.path)
  unfolding jsonl_write
  closed_write a s h = rw h refl

  pub closed_close : (s : LogSink) → s.open_file ≡ false → jsonl_close s ≡ (s, none)
  unfolding jsonl_close
  closed_close s h = rw h refl

  broken_write :
      (a : Alert) (s : LogSink) (e : String)
      → s.open_file ≡ true
      → s.failure ≡ some e
      → jsonl_write encode a s ≡ (s, wrap "writing alert to" s.path (some e))
  unfolding jsonl_write encode_value
  broken_write a s e is_open broken = rw (is_open, broken, jsonl_write) refl

  unencoded_write :
      (a : Alert) (s : LogSink) (e : String)
      → s.open_file ≡ true
      → s.failure ≡ none
      → encode a ≡ err e
      → jsonl_write encode a s ≡ (s, wrap "writing alert to" s.path (some e))
  unfolding jsonl_write encode_value encode_line
  unencoded_write a s e is_open whole bad = rw (is_open, whole, bad, jsonl_write) refl

  encoded_write :
      (a : Alert) (s : LogSink) (line : String)
      → s.open_file ≡ true
      → s.failure ≡ none
      → encode a ≡ ok line
      → jsonl_write encode a s ≡ (
        record s { file = (put line s.file).0; failure = (put line s.file).1 },
        wrap "writing alert to" s.path (put line s.file).1,
      )
  unfolding jsonl_write encode_value encode_line
  encoded_write a s line is_open whole good = rw (is_open, whole, good, jsonl_write) refl

  put-Step :
      (a : Alert) (s : LogSink) (line : String)
      → s.failure ≡ none
      → encode a ≡ ok line
      → (given : Answer) → answer s.file ≡ given
      → Step s (write_alert a) (
        record s { file = (put line s.file).0; failure = (put line s.file).1 },
        wrap "writing alert to" s.path (put line s.file).1,
      )
  unfolding put wrap
  put-Step a s line whole good succeeds fine = rw fine (inl (sym whole, rw good refl))
  put-Step a s line whole good (fails n e) cut =
      rw cut (inr (a, line, e, n, refl, good, whole, refl, refl, refl))

  open_Step :
      (a : Alert) (s : LogSink)
      → s.open_file ≡ true
      → Step s (write_alert a) (jsonl_write encode a s)
  unfolding wrap
  open_Step a s is_open = elim (Option-cases s.failure) [
    | inr (e, broken) ↦ refused_Step a s _ _ (broken_write a s e is_open broken)
    | inl whole ↦ elim (Result-cases (encode a)) [
      | inl (e, bad) ↦ refused_Step a s _ _ (unencoded_write a s e is_open whole bad)
      | inr (line, good) ↦
          subst (Step s (write_alert a)) (sym (encoded_write a s line is_open whole good))
            (put-Step a s line whole good (answer s.file) refl)
    ]
  ]

  close_keeps :
      (s : LogSink)
      → ((jsonl_close s).0.failure ≡ s.failure) × ((jsonl_close s).0.file.text ≡ s.file.text ++ [])
  unfolding jsonl_close call
  close_keeps s = ground (arith, append-nil s.file.text)

  pub log_call-Step : (c : LogCall) (s : LogSink) → Step s c (log_call c s)
  unfolding log_call closed_error
  log_call-Step (write_alert a) s = elim (Bool-cases s.open_file) [
    | inl is_open ↦ open_Step a s is_open
    | inr closed ↦ refused_Step a s _ _ (closed_write a s closed)
  ]
  log_call-Step close_log s = inl (close_keeps s)

  refused_write :
      (a : Alert) (s : LogSink) (e : String)
      → s.failure ≡ some e
      → (why : String) × (jsonl_write encode a s ≡ (s, some why))
  unfolding wrap closed_error
  refused_write a s e broken = elim (Bool-cases s.open_file) [
    | inl is_open ↦ (_, broken_write a s e is_open broken)
    | inr closed ↦ (_, closed_write a s closed)
  ]

  pub broken_call :
      (c : LogCall) (s : LogSink) (e : String)
      → s.failure ≡ some e
      → ((log_call c s).0.file.text ≡ s.file.text)
        × (acknowledged c (log_call c s).1 ≡ [])
        × ((log_call c s).0.failure ≡ some e)
  unfolding log_call wrap closed_error
  broken_call close_log s e broken =
      let (same, text) = close_keeps s in (text ∙ append-nil s.file.text, refl, same ∙ broken)
  broken_call (write_alert a) s e broken =
      let (why, same) = refused_write a s e broken in
      subst
        (λ r.
          (r.0.file.text ≡ s.file.text)
          × (acknowledged (write_alert a) r.1 ≡ [])
          × (r.0.failure ≡ some e))
        (sym same) (refl, refl, broken)
