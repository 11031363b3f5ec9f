-- ===== src/Cmd/Replay.antt =====
-- cmd/krnlsentry/main.go: pacer, progressOf and replay. `paced n` is what the code computes as
-- time.Duration(float64(n) / speed).
use krnl_sentry.Base.{
  ℕ, ℤ, pos, ◌-◌, ◌*◌, ltb, leb, ltb_ℤ, String, Bool, true, false, not, nat_eq, List, [], ◌∷◌,
  Option, none, some, if◌then◌else◌, ◌==◌, concat,
}
use krnl_sentry.Events.Event.{Event}
use krnl_sentry.Events.Record.{Record, Result, read_records}
use krnl_sentry.Detect.Config.{second}
use krnl_sentry.Output.Dashboard.{Metrics, Progress, not_applicable, part}
use krnl_sentry.Cmd.Pipeline.{Agent, Texts, process, refresh}

-- progressOf, the quotient as a fraction.
unfoldable pub progress_of : ℕ → ℕ → Progress
progress_of read total =
    if total == 0 then not_applicable else if leb total read then part 1 1 else part read total

-- pacer; `paces` says that the speed is positive.
pub record Pacer : Type 0 where
  pub paces : Bool
  pub prev : ℕ
  pub first : Bool

unfoldable pub new_pacer : Bool → Pacer
new_pacer paces = record { paces = paces; prev = 0; first = true }

abbrev pub max_paced_gap : ℕ
max_paced_gap = 2 * second

-- Whether the context is done before an event, and whether it ends during the pause.
pub record Cancelled : Type 0 where
  pub before : Bool
  pub during : Bool

-- What wait comes to: the pacer, the pause in nanoseconds, and whether it was interrupted.
pub record Waited : Type 0 where
  pub pacer : Pacer
  pub pause : ℤ
  pub interrupted : Bool

unfoldable pub no_pause : Pacer → Waited
no_pause p = record { pacer = p; pause = pos 0; interrupted = false }

module _ (paced : ℕ → ℤ) where
  -- The gap between two events.
  unfoldable pub gap_of : ℕ → ℕ → ℤ
  gap_of prev now =
      let gap = paced (now - prev) in
      if ltb_ℤ (pos max_paced_gap) gap then pos max_paced_gap else gap

  -- wait.
  unfoldable pub wait : Cancelled → ℕ → Pacer → Waited
  unfolding gap_of no_pause
  wait cancelled now p =
      if cancelled.before
      then record { pacer = p; pause = pos 0; interrupted = true }
      else if not p.paces
      then no_pause p
      else if p.first
      then no_pause (record p { first = false; prev = now })
      else if ltb p.prev now
      then (if cancelled.during
          then record { pacer = p; pause = gap_of p.prev now; interrupted = true }
          else record {
            pacer = record p { prev = now };
            pause = gap_of p.prev now;
            interrupted = false;
          })
      else no_pause (record p { prev = now })

-- The state of a replay. `answers` says for each event to come whether the context is done; it is
-- not where they end. `read` is the bytes read at each event to come.
pub record Run : Type 0 where
  pub agent : Agent
  pub pacer : Pacer
  pub metrics : Metrics
  pub answers : List Cancelled
  pub positions : List ℕ
  pub interrupted : Bool

abbrev next_answer : List Cancelled → Cancelled
next_answer [] = record { before = false; during = false }
next_answer (a ∷ answers) = a

abbrev next_position : List ℕ → ℕ
next_position [] = 0
next_position (n ∷ positions) = n

abbrev behind {ℓ} : {A : Type ℓ} → List A → List A
behind [] = []
behind (x ∷ xs) = xs

module _ (texts : Texts) (paced : ℕ → ℤ) (total : ℕ) where
  -- The callback of replay.
  unfoldable pub replay_event : Run → Event → Run × Option String
  replay_event r ev =
      let w = wait paced (next_answer r.answers) ev.timestamp r.pacer in
      let waited = record r {
        pacer = w.pacer;
        answers = behind r.answers;
        positions = behind r.positions;
        interrupted = w.interrupted;
      } in
      let agent = process texts ev r.agent in
      let progress = progress_of (next_position r.positions) total in
      if w.interrupted
      then (waited, some "interrupted")
      else (record waited { agent = agent; metrics = refresh true progress none agent }, none)

  -- replay, on the lines of the capture: the state, and the error that it returns.
  unfoldable pub replay :
      (String → Result Record)
      → (String → Result ℤ)
      → String
      → Run
      → List String
      → Run × Option String
  replay unmarshal parse_time path r lines =
      let (last, failure) = read_records unmarshal parse_time replay_event r lines in
      if last.interrupted then (last, none) else elim failure [
        | some e ↦ (last, some (concat ("replaying " ∷ path ∷ ": " ∷ e ∷ [])))
        | none ↦ (record last { metrics = refresh true (part 1 1) none last.agent }, none)
      ]
