-- ===== src/Output/Terminal/Styles.antt =====
-- The styles of output/console.go take no columns, and the names of severities few.
use Prim.Native.String.{count}
use krnl_sentry.Base.{◌≤◌, String, nat_eq, string_eq, refl, arith, inl, inr, Option-cases, All}
use krnl_sentry.Dict.{lookup}
use krnl_sentry.Dict.Laws.{Values-lookup}
use krnl_sentry.Detect.Alert.{Severity, severity_string, severity_names}
use krnl_sentry.Output.Terminal.{
  occurrences, visible_len, visible_from, scan_next, scan_width, severity_style, severity_styles,
  ansi_dim, ansi_red, ansi_bold, ansi_blue, ansi_green, ansi_cyan, ansi_yellow, ansi_bg_red,
  ansi_white,
}
use krnl_sentry.Output.Terminal.Columns.{Free}
use krnl_sentry.Output.Terminal.Visible.{IsStyle, join-IsStyle, prepend-IsStyle}

plain-IsStyle : IsStyle ""
unfolding visible_len visible_from
plain-IsStyle = prepend-IsStyle "" (λ t. refl)

pub dim-IsStyle : IsStyle ansi_dim
unfolding visible_len visible_from scan_next scan_width
dim-IsStyle = prepend-IsStyle ansi_dim (λ t. omega arith)

bold-IsStyle : IsStyle ansi_bold
unfolding visible_len visible_from scan_next scan_width
bold-IsStyle = prepend-IsStyle ansi_bold (λ t. omega arith)

red-IsStyle : IsStyle ansi_red
unfolding visible_len visible_from scan_next scan_width
red-IsStyle = prepend-IsStyle ansi_red (λ t. omega arith)

bg_red-IsStyle : IsStyle ansi_bg_red
unfolding visible_len visible_from scan_next scan_width
bg_red-IsStyle = prepend-IsStyle ansi_bg_red (λ t. omega arith)

white-IsStyle : IsStyle ansi_white
unfolding visible_len visible_from scan_next scan_width
white-IsStyle = prepend-IsStyle ansi_white (λ t. omega arith)

yellow-IsStyle : IsStyle ansi_yellow
unfolding visible_len visible_from scan_next scan_width
yellow-IsStyle = prepend-IsStyle ansi_yellow (λ t. omega arith)

cyan-IsStyle : IsStyle ansi_cyan
unfolding visible_len visible_from scan_next scan_width
cyan-IsStyle = prepend-IsStyle ansi_cyan (λ t. omega arith)

pub blue-IsStyle : IsStyle ansi_blue
unfolding visible_len visible_from scan_next scan_width
blue-IsStyle = prepend-IsStyle ansi_blue (λ t. omega arith)

pub green-IsStyle : IsStyle ansi_green
unfolding visible_len visible_from scan_next scan_width
green-IsStyle = prepend-IsStyle ansi_green (λ t. omega arith)

pub severity_style-IsStyle : (s : Severity) → IsStyle (severity_style s)
unfolding severity_style severity_styles
severity_style-IsStyle s = elim (Option-cases (lookup s severity_styles)) [
  | inl nothing ↦ rw nothing plain-IsStyle
  | inr (style, found) ↦ rw found (Values-lookup IsStyle s severity_styles table found)
]
  where
    table : All (λ (p : Severity × String). IsStyle p.1) severity_styles
    table = (
      cyan-IsStyle,
      (
        yellow-IsStyle,
        (
          join-IsStyle ansi_red ansi_bold red-IsStyle bold-IsStyle,
          (
            join-IsStyle ansi_bg_red _ bg_red-IsStyle
                (join-IsStyle ansi_white ansi_bold white-IsStyle bold-IsStyle),
            tt,
          ),
        ),
      ),
    )

-- The name of a severity is short and has no sequence in it.
abbrev pub ShortName : String → Type 0
ShortName s = Free 27 s × (count s ≤ 8)

pub severity_string-ShortName : (s : Severity) → ShortName (severity_string s)
unfolding severity_string severity_names occurrences
severity_string-ShortName s = elim (Option-cases (lookup s severity_names)) [
  | inl nothing ↦ rw (nothing, severity_string) (refl, omega arith)
  | inr (name, found) ↦
      rw (found, severity_string) (Values-lookup ShortName s severity_names table found)
]
  where
    table : All (λ (p : Severity × String). ShortName p.1) severity_names
    table = (
      (refl, omega arith),
      ((refl, omega arith), ((refl, omega arith), ((refl, omega arith), tt))),
    )
