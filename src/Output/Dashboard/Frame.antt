-- ===== src/Output/Dashboard/Frame.antt =====
-- output/dashboard.go: one frame, Render's loop and Paint.
pub mod Fit
pub mod Usable
use krnl_sentry.Base.{
  ℕ, ℤ, zero, suc, ◌+◌, ◌-◌, ltb, leb, String, Bool, true, false, not, ◌||◌, ◌&&◌, List, [], ◌∷◌,
  Option, none, some, if◌then◌else◌, ◌==◌, nat_eq, concat,
}
use Prim.Native.Char.{Char, code}
use krnl_sentry.Output.Terminal.{
  ansi_home, ansi_clear_line, ansi_clear_below, ansi_hide_cursor, occurrences,
}
use krnl_sentry.Output.Dashboard.{Dashboard, Metrics}
use krnl_sentry.Output.Dashboard.Widgets.{Terminal, terminal_height, frame_width}
use krnl_sentry.Output.Dashboard.Panels.{
  render_header, render_severity_and_rules, render_tactics, render_processes,
}
use krnl_sentry.Output.Dashboard.Feed.{render_storyline, render_recent, render_footer}

-- layout.
pub record Layout : Type 0 where
  pub story_rows : ℕ
  pub recent_rows : ℕ
  pub show_tactics : Bool
  pub show_processes : Bool

abbrev pub max_recent_rows : ℕ
max_recent_rows = 12

abbrev pub min_recent_rows : ℕ
min_recent_rows = 3

abbrev pub max_story_rows : ℕ
max_story_rows = 8

abbrev pub min_story_rows : ℕ
min_story_rows = 2

abbrev pub min_usable_height : ℕ
min_usable_height = 24

-- The layout that Render begins with.
abbrev pub full_layout : Layout
full_layout = record {
  story_rows = max_story_rows;
  recent_rows = max_recent_rows;
  show_tactics = true;
  show_processes = true;
}

-- What gives way next; nothing is left to give at `none`.
unfoldable pub shed : Layout → Option Layout
shed lay =
    if ltb min_recent_rows lay.recent_rows
    then some (record lay { recent_rows = lay.recent_rows - 1 })
    else if ltb min_story_rows lay.story_rows
    then some (record lay { story_rows = lay.story_rows - 1 })
    else if lay.show_processes
    then some (record lay { show_processes = false })
    else if lay.show_tactics
    then some (record lay { show_tactics = false })
    else none

-- What one call of render reads: the dashboard, the metrics, and the time since the start.
pub record Moment : Type 0 where
  pub dashboard : Dashboard
  pub metrics : Metrics
  pub uptime : ℤ

-- The context panels, which a layout may leave out.
unfoldable pub render_context : Dashboard → ℕ → Layout → String
render_context d w lay = concat (
    (if lay.show_tactics then render_tactics d w else "")
    ∷ (if lay.show_processes && lay.show_tactics then "\n" else "")
    ∷ (if lay.show_processes then render_processes d w else "")
    ∷ (if lay.show_tactics || lay.show_processes then "\n" else "")
    ∷ [])

-- The rounds that the loop can take: 9 rows of the feed, 6 of the timeline and two panels go.
abbrev pub render_rounds : ℕ
render_rounds = 18

module _ (scaled : ℕ → ℕ → ℕ → ℕ) (clock : ℤ → String) (t : Terminal) where
  -- render.
  unfoldable pub render_frame : Moment → Layout → String
  render_frame now lay =
      let d = now.dashboard in
      let m = now.metrics in
      let w = frame_width t d.opts.width in
      concat (
        render_header scaled d m now.uptime w
        ∷ "\n"
        ∷ render_severity_and_rules scaled d w
        ∷ "\n"
        ∷ render_context d w lay
        ∷ render_storyline d w m lay.story_rows
        ∷ "\n"
        ∷ render_recent clock d w lay.recent_rows
        ∷ "\n"
        ∷ render_footer d w m
        ∷ [])

  -- Render's loop. The k-th call of render reads `seen k`, since a Write or a tick may come between
  -- two calls.
  unfoldable pub render_loop : ℕ → (ℕ → Moment) → ℕ → Layout → ℕ → Option String
  render_loop zero seen budget lay k = none
  render_loop (suc fuel) seen budget lay k =
      let frame = render_frame (seen k) lay in
      let less : Option String = elim (shed lay) [
        | none ↦ some frame
        | some smaller ↦ render_loop fuel seen budget smaller (k + 1)
      ] in
      if leb (occurrences 10 frame) budget then some frame else less

  -- Render, for a height that is set or that the terminal has.
  unfoldable pub render : (ℕ → Moment) → ℕ → Option String
  render seen height =
      let h = if height == 0 then terminal_height t else height in
      render_loop render_rounds seen (h - 1) full_layout 0

-- The lines of a frame, each one cleared to its end and ended: strings.Split at every line end.
unfoldable pub paint_lines : String → String
paint_lines String.[] = concat (ansi_clear_line ∷ "\n" ∷ [])
paint_lines (String.◌∷◌ c s) =
    if code c == 10
    then concat (ansi_clear_line ∷ "\n" ∷ paint_lines s ∷ [])
    else String.◌∷◌ c (paint_lines s)

-- What Paint writes for a frame.
unfoldable pub painted_frame : Bool → String → String
painted_frame on frame =
    concat (
      (if on then ansi_hide_cursor else "") ∷ ansi_home ∷ paint_lines frame ∷ ansi_clear_below ∷ [])
