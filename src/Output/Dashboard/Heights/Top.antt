-- ===== src/Output/Dashboard/Heights/Top.antt =====
-- The header and the two panels below it.
use krnl_sentry.Base.{
  ℕ, ℤ, ◌+◌, ◌-◌, ◌/◌, ◌≤◌, leb, String, Bool, List, [], ◌∷◌, map, ◌==◌, string_eq, nat_eq,
  if◌then◌else◌, ◌≡◌, refl, arith, concat, format_uint, length,
}
use krnl_sentry.Detect.Alert.{Severity}
use krnl_sentry.Output.Terminal.{
  occurrences, pad_visible, ansi_bold, ansi_dim, ansi_blue, ansi_cyan,
}
use krnl_sentry.Output.Terminal.Columns.{Frees, done, ◌▹◌, if-Free, pad_left-Free}
use krnl_sentry.Output.Dashboard.{Dashboard, Metrics, Progress, not_applicable, part}
use krnl_sentry.Output.Dashboard.Widgets.{max_int, to_upper, meter, format_duration}
use krnl_sentry.Output.Dashboard.Widgets.OneLine.{
  OneLine, uint-OneLine, texts-OneLine, concat-total_lines, concat_bound, paint-OneLine,
  divider-OneLine, heading2-OneLine, format_duration-OneLine, to_upper-OneLine, bar-OneLine,
  meter-OneLine,
}
use krnl_sentry.Output.Dashboard.Panels.{
  stat_line, header_cells, header_title, progress_line, render_header, severity_row, severity_rows,
  rule_names, rule_row, rule_rows, side_row, side_by_side, render_severity_and_rules,
}
use krnl_sentry.Output.Dashboard.Heights.{
  count_one, pad_one, cut_one, severity_string-OneLine, severity_style-OneLine, bar_style-OneLine,
  IsOneLineRun, stat_cells-OneLine, header_cells-OneLine,
}

stat_line-OneLine :
    (d : Dashboard) (m : Metrics) → OneLine (stat_line d.opts.color (header_cells d m))
unfolding stat_line occurrences
stat_line-OneLine d m =
    texts-OneLine _
      (refl ▹ stat_cells-OneLine _ (header_cells d m) (header_cells-OneLine d m) ▹ done)

header_title-OneLine : (d : Dashboard) → IsOneLineRun d → OneLine (header_title d)
unfolding header_title occurrences
header_title-OneLine d h =
    if-Free 10 (d.opts.source == "") _ _ left (texts-OneLine _ (left ▹ refl ▹ h.source ▹ done))
  where
    left : OneLine (
        concat (
          "KrnlSentry "
          ∷ d.opts.version
          ∷ " · "
          ∷ to_upper d.opts.mode
          ∷ " · "
          ∷ d.opts.scope
          ∷ []))
    left =
        texts-OneLine _
          (refl ▹ h.version ▹ refl ▹ to_upper-OneLine d.opts.mode h.mode ▹ refl ▹ h.scope ▹ done)

module _ (scaled : ℕ → ℕ → ℕ → ℕ) where
  progress_line-bound :
      (on : Bool) (w : ℕ) (p : Progress) → occurrences 10 (progress_line scaled on w p) ≤ 1
  unfolding progress_line occurrences
  progress_line-bound on w not_applicable = omega arith
  progress_line-bound on w (part read total) = concat_bound _ 1 (
      omega (
        arith,
        paint-OneLine on ansi_cyan (meter scaled read total (max_int 10 (w - 22))) refl
            (meter-OneLine scaled read total _),
        pad_left-Free 10 (omega arith) " " 3
            (format_uint (if leb total read then 100 else scaled read total 100)) refl
            (uint-OneLine _),
      ))

  -- The header takes at most four lines.
  pub render_header-bound :
      (d : Dashboard) (m : Metrics) (uptime : ℤ) (w : ℕ)
      → IsOneLineRun d
      → occurrences 10 (render_header scaled d m uptime w) ≤ 4
  unfolding render_header occurrences
  render_header-bound d m uptime w h =
      let top =
        divider-OneLine d.opts.color "╭" "╮" w (header_title d) (format_duration uptime)
          (concat (ansi_bold ∷ ansi_cyan ∷ [])) refl refl (header_title-OneLine d h)
          (format_duration-OneLine uptime) (texts-OneLine _ (refl ▹ refl ▹ done)) in
      let bottom = divider-OneLine d.opts.color "╰" "╯" w "" "" ansi_dim refl refl refl refl refl in
      concat_bound _ 4 (
        omega (
          arith,
          top,
          bottom,
          stat_line-OneLine d m,
          progress_line-bound d.opts.color w m.progress,
        ))

  severity_row-OneLine :
      (d : Dashboard) (greatest w : ℕ) (s : Severity) → OneLine (severity_row scaled d greatest w s)
  unfolding severity_row occurrences
  severity_row-OneLine d greatest w s = texts-OneLine _ (
      paint-OneLine d.opts.color _ _ (if-Free 10 _ ansi_dim _ refl (severity_style-OneLine s))
        (pad_one _ 8 (severity_string-OneLine s))
      ▹ refl
      ▹ paint-OneLine d.opts.color _ _ (bar_style-OneLine s)
          (pad_one _ _ (bar-OneLine scaled _ greatest _))
      ▹ refl
      ▹ pad_one _ 5 (count_one _)
      ▹ done)

rule_row-OneLine :
    (d : Dashboard) (w : ℕ) (name : String) → OneLine name → OneLine (rule_row d w name)
unfolding rule_row occurrences
rule_row-OneLine d w name h = texts-OneLine _ (
    paint-OneLine d.opts.color _ _ (if-Free 10 _ ansi_blue ansi_dim refl refl)
      (pad_one _ _ (cut_one name _ h))
    ▹ refl
    ▹ pad_one _ 5 (count_one _)
    ▹ done)

rule_rows-OneLine :
    (d : Dashboard) (w : ℕ) (names : List String)
    → Frees 10 names
    → Frees 10 (map (rule_row d w) names)
rule_rows-OneLine d w [] done = done
rule_rows-OneLine d w (name ∷ names) (h ▹ hs) =
    rule_row-OneLine d w name h ▹ rule_rows-OneLine d w names hs

length-map_rows : (f : String → String) (names : List String) → length (map f names) ≡ length names
length-map_rows f [] = refl
length-map_rows f (name ∷ names) = omega (arith, length-map_rows f names)

side_row-lines :
    (w : ℕ) (l r : String) → OneLine l → OneLine r → occurrences 10 (side_row w l r) ≡ 1
unfolding side_row occurrences
side_row-lines w l r hl hr = omega (
  arith,
  concat-total_lines ("  " ∷ pad_visible l (w / 2 - 2) ∷ "  " ∷ r ∷ "\n" ∷ []),
  pad_one l (w / 2 - 2) hl,
  hr,
)

side_by_side-lines :
    (w n : ℕ) (left right : List String)
    → Frees 10 left
    → Frees 10 right
    → length left ≤ n
    → length right ≤ n
    → occurrences 10 (side_by_side w left right) ≤ n
unfolding side_by_side occurrences
side_by_side-lines w n [] [] done done hl hr = omega arith
side_by_side-lines w n [] (r ∷ right) done (h ▹ hs) hl hr = concat_bound _ n (
    omega (
      arith,
      side_row-lines w "" r refl h,
      side_by_side-lines w (n - 1) [] right done hs (omega arith) (omega arith),
    ))
side_by_side-lines w n (l ∷ left) [] (h ▹ hs) done hl hr = concat_bound _ n (
    omega (
      arith,
      side_row-lines w l "" h refl,
      side_by_side-lines w (n - 1) left [] hs done (omega arith) (omega arith),
    ))
side_by_side-lines w n (l ∷ left) (r ∷ right) (h ▹ hs) (k ▹ ks) hl hr = concat_bound _ n (
    omega (
      arith,
      side_row-lines w l r h k,
      side_by_side-lines w (n - 1) left right hs ks (omega arith) (omega arith),
    ))

-- The two panels take a heading and a row for each severity or rule, whichever are more.
pub render_severity_and_rules-bound :
    (scaled : ℕ → ℕ → ℕ → ℕ) (d : Dashboard) (w n : ℕ)
    → IsOneLineRun d
    → 4 ≤ n
    → length (rule_names d) ≤ n
    → occurrences 10 (render_severity_and_rules scaled d w) ≤ n + 1
unfolding render_severity_and_rules occurrences rule_rows severity_rows
render_severity_and_rules-bound scaled d w n h four few =
    let row = severity_row-OneLine scaled d in
    let rows =
      side_by_side-lines w n (severity_rows scaled d (w / 2 - 2)) (rule_rows d (w - w / 2 - 2))
        (row _ _ _ ▹ row _ _ _ ▹ row _ _ _ ▹ row _ _ _ ▹ done)
        (rule_rows-OneLine d (w - w / 2 - 2) (rule_names d) h.names) four
        (omega (arith, length-map_rows (rule_row d (w - w / 2 - 2)) (rule_names d))) in
    concat_bound _ (n + 1)
      (omega (arith, heading2-OneLine d.opts.color "SEVERITY" "RULES" w refl refl, rows))
