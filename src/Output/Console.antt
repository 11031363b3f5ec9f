-- ===== src/Output/Console.antt =====
-- output/console.go: the line of an alert, its extras, and the banner. `clock` stands for
-- time.Time.Format("15:04:05.000") in the local time zone.
use Prim.Native.Char.{code}
use krnl_sentry.Base.{
  ℤ, ltb, String, Bool, false, ◌||◌, List, [], ◌∷◌, if◌then◌else◌, ◌==◌, nat_eq, string_eq, concat,
  join, quote, sort_texts, format_uint, format_int, length, get_or_else,
}
use krnl_sentry.Dict.{lookup}
use krnl_sentry.Events.Event.{Args}
use krnl_sentry.Detect.Alert.{Alert, StoryStep, severity_string}
use krnl_sentry.Output.Terminal.{
  ansi_reset, ansi_bold, ansi_dim, ansi_green, ansi_blue, ansi_cyan, severity_style, pad_right,
}

-- The names of the arguments, in the order of the map.
unfoldable pub arg_names : Args → List String
arg_names [] = []
arg_names ((k, v) ∷ args) = k ∷ arg_names args

-- strings.ContainsAny(v, " \t").
unfoldable pub has_blank : String → Bool
has_blank String.[] = false
has_blank (String.◌∷◌ c s) = code c == 32 || code c == 9 || has_blank s

unfoldable pub arg_pair : Args → String → String
arg_pair args k =
    let v = get_or_else (lookup k args) "" in
    concat (k ∷ "=" ∷ (if has_blank v then quote v else v) ∷ [])

unfoldable pub arg_pairs : Args → List String → List String
arg_pairs args [] = []
arg_pairs args (k ∷ keys) = arg_pair args k ∷ arg_pairs args keys

-- formatArgs.
unfoldable pub format_args : Args → String
format_args args = join " " (arg_pairs args (sort_texts (arg_names args)))

-- One step of the timeline.
unfoldable pub story_line : String → String → Bool → StoryStep → String
story_line dim reset last st = concat (
    "              "
    ∷ (if last then "└─" else "├─")
    ∷ " "
    ∷ dim
    ∷ "+"
    ∷ pad_right 7 (concat (format_int st.offset_ms ∷ "ms" ∷ []))
    ∷ reset
    ∷ " "
    ∷ pad_right 18 (concat (st.comm ∷ "[" ∷ format_uint st.pid ∷ "]" ∷ []))
    ∷ " "
    ∷ pad_right 32 st.tactic
    ∷ " "
    ∷ st.summary
    ∷ "\n"
    ∷ [])

unfoldable pub story_lines : String → String → List StoryStep → String
story_lines dim reset [] = ""
story_lines dim reset (st ∷ steps) =
    concat (story_line dim reset (length steps == 0) st ∷ story_lines dim reset steps ∷ [])

-- writeExtras.
unfoldable pub extras : Alert → String → String → String
extras a dim reset =
    let folded = concat (
      "              "
      ∷ dim
      ∷ "(+"
      ∷ format_uint a.suppressed
      ∷ " identical alert(s) folded since last shown)"
      ∷ reset
      ∷ "\n"
      ∷ []) in
    concat ((if ltb 0 a.suppressed then folded else "") ∷ story_lines dim reset a.story ∷ [])

-- The arguments of an alert on a line of their own.
unfoldable pub args_line : Alert → String → String → String
args_line a dim reset =
    let args = format_args a.args in
    if args == "" then "" else concat ("              " ∷ dim ∷ args ∷ reset ∷ "\n" ∷ [])

-- format.
unfoldable pub format_alert : (ℤ → String) → Bool → Alert → String
format_alert clock color a =
    let process = concat (a.comm ∷ "[" ∷ format_uint a.pid ∷ "]" ∷ []) in
    let dim = if color then ansi_dim else "" in
    let reset = if color then ansi_reset else "" in
    let coloured = concat (
      ansi_dim
      ∷ clock a.timestamp
      ∷ ansi_reset
      ∷ "  "
      ∷ severity_style a.severity
      ∷ " "
      ∷ pad_right 8 (severity_string a.severity)
      ∷ " "
      ∷ ansi_reset
      ∷ "  "
      ∷ ansi_blue
      ∷ pad_right 22 a.rule
      ∷ ansi_reset
      ∷ " "
      ∷ ansi_green
      ∷ pad_right 20 process
      ∷ ansi_reset
      ∷ " "
      ∷ ansi_dim
      ∷ "uid="
      ∷ format_uint a.uid
      ∷ ansi_reset
      ∷ "  "
      ∷ ansi_dim
      ∷ a.mitre_id
      ∷ ansi_reset
      ∷ "\n"
      ∷ []) in
    let plain = concat (
      clock a.timestamp
      ∷ "  "
      ∷ pad_right 8 (severity_string a.severity)
      ∷ " "
      ∷ pad_right 22 a.rule
      ∷ " "
      ∷ pad_right 20 process
      ∷ " uid="
      ∷ format_uint a.uid
      ∷ "  "
      ∷ a.mitre_id
      ∷ "\n"
      ∷ []) in
    concat (
      (if color then coloured else plain)
      ∷ "              "
      ∷ a.description
      ∷ "\n"
      ∷ args_line a dim reset
      ∷ extras a dim reset
      ∷ [])

-- shouldColor: whether NO_COLOR is set, and whether the writer is a terminal.
unfoldable pub should_color : Bool → Bool → Bool
should_color no_color terminal = if no_color then false else terminal

-- Banner.
unfoldable pub banner : Bool → String → List String → String → ℤ → String
banner color version rules alert_path pid_filter =
    let title =
      if color
      then concat (ansi_bold ∷ ansi_cyan ∷ "KrnlSentry" ∷ ansi_reset ∷ [])
      else "KrnlSentry" in
    let scope : String = elim pid_filter [
      | ℤ.pos n ↦
          if ltb 0 n
          then concat ("PID " ∷ format_uint n ∷ " and descendants" ∷ [])
          else "system-wide"
      | ℤ.negsuc n ↦ "system-wide"
    ] in
    concat (
      "\n"
      ∷ title
      ∷ " "
      ∷ version
      ∷ " — eBPF syscall monitoring and threat detection\n"
      ∷ "  rules   : "
      ∷ join ", " (sort_texts rules)
      ∷ "\n"
      ∷ "  alerts  : "
      ∷ alert_path
      ∷ "\n"
      ∷ "  scope   : "
      ∷ scope
      ∷ "\n"
      ∷ "  stop    : Ctrl+C\n\n"
      ∷ [])
