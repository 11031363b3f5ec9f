-- ===== src/Detect/Storyline/Chain.antt =====
-- The alert on an attack chain, and the summary of an alert in a story.
use krnl_sentry.Base.{
  ℕ, ◌+◌, ◌/◌, ◌%◌, ltb, ℤ, pos, negsuc, suc, String, [], ◌∷◌, map, none, some, ◌==◌, nat_eq,
  string_eq, if◌then◌else◌, concat, join, format_uint, format_int, length, get_or_else, sub64,
  signed64, div_trunc,
}
use krnl_sentry.Dict.{lookup}
use krnl_sentry.Events.Event.{Args}
use krnl_sentry.Detect.Alert.{Alert, severity_critical}
use krnl_sentry.Detect.Config.{rule_name_reverse_shell, rule_name_process_injection, millisecond}
use krnl_sentry.Detect.Storyline.Story.{Storyline}

abbrev pub rule_name_attack_chain : String
rule_name_attack_chain = "attack-chain"

-- a.Args[k], which is "" for a missing key.
abbrev pub arg_or_empty : String → Args → String
arg_or_empty k args = get_or_else (lookup k args) ""

-- The three ids of a setres*id call.
triple : Alert → String → String → String → String
triple a r e s = concat (
    a.syscall
    ∷ "("
    ∷ arg_or_empty r a.args
    ∷ ","
    ∷ arg_or_empty e a.args
    ∷ ","
    ∷ arg_or_empty s a.args
    ∷ ")"
    ∷ [])

-- The cases of stepSummary by the arguments that are there, in the source's order.
argument_summary : Alert → String
unfolding triple
argument_summary a =
    if arg_or_empty "path" a.args == ""
    then elim (lookup "target_uid" a.args) [
      | some v ↦ concat (a.syscall ∷ "(" ∷ v ∷ ")" ∷ [])
      | none ↦ elim (lookup "target_gid" a.args) [
        | some v ↦ concat (a.syscall ∷ "(" ∷ v ∷ ")" ∷ [])
        | none ↦ elim (lookup "ruid" a.args) [
          | some v ↦ triple a "ruid" "euid" "suid"
          | none ↦ elim (lookup "rgid" a.args) [
            | some v ↦ triple a "rgid" "egid" "sgid"
            | none ↦ a.syscall
          ]
        ]
      ]
    ]
    else concat (a.syscall ∷ " " ∷ arg_or_empty "path" a.args ∷ [])

-- stepSummary.
unfoldable pub step_summary : Alert → String
unfolding argument_summary
step_summary a =
    if a.rule == rule_name_reverse_shell
    then (if arg_or_empty "chain_dest" a.args == ""
        then "reverse shell"
        else concat ("reverse shell to " ∷ arg_or_empty "chain_dest" a.args ∷ []))
    else if a.rule == rule_name_process_injection
    then concat (
        "ptrace "
        ∷ arg_or_empty "request" a.args
        ∷ " → pid "
        ∷ arg_or_empty "target_pid" a.args
        ∷ [])
    else argument_summary a

-- The fraction of a second in milliseconds, with no zeros at the end.
fraction : ℕ → String
fraction ms =
    if ms == 0
    then ""
    else if ms % 100 == 0
    then concat ("." ∷ format_uint (ms / 100) ∷ [])
    else if ms % 10 == 0
    then concat ("." ∷ format_uint (ms / 100) ∷ format_uint (ms / 10 % 10) ∷ [])
    else concat
        ("." ∷ format_uint (ms / 100) ∷ format_uint (ms / 10 % 10) ∷ format_uint (ms % 10) ∷ [])

-- time.Duration.String of some milliseconds.
duration_text : ℕ → String
unfolding fraction
duration_text ms =
    let s = ms / 1000 in
    let seconds = concat (format_uint (s % 60) ∷ fraction (ms % 1000) ∷ "s" ∷ []) in
    if ms == 0
    then "0s"
    else if ltb ms 1000
    then concat (format_uint ms ∷ "ms" ∷ [])
    else if ltb s 60
    then seconds
    else if ltb s 3600
    then concat (format_uint (s / 60) ∷ "m" ∷ seconds ∷ [])
    else concat (format_uint (s / 3600) ∷ "h" ∷ format_uint (s / 60 % 60) ∷ "m" ∷ seconds ∷ [])

-- d.Round(time.Millisecond).String(): halves are rounded away from zero.
unfoldable pub rounded_text : ℤ → String
unfolding duration_text
rounded_text (pos d) = duration_text ((d + millisecond / 2) / millisecond)
rounded_text (negsuc n) =
    let ms = (suc n + millisecond / 2) / millisecond in
    if ms == 0 then "0s" else concat ("-" ∷ duration_text ms ∷ [])

-- The process at the root of a story.
unfoldable pub root_text : Storyline → String
root_text s = concat (s.root_comm ∷ "[" ∷ format_uint s.root ∷ "]" ∷ [])

-- Correlator.chainAlert.
unfoldable pub chain_alert : Alert → Storyline → Alert
unfolding root_text
chain_alert trigger s =
    let names = map (λ t. t.name) s.tactics in
    let span = signed64 (sub64 s.last_ts s.first_ts) in
    record trigger {
      args =
          ("tactics", join " → " names)
          ∷ ("tactic_ids", join "," (map (λ t. t.id) s.tactics))
          ∷ ("techniques", join "," s.techniques)
          ∷ ("processes", join "," s.procs)
          ∷ ("root", root_text s)
          ∷ ("alert_count", format_uint s.alerts)
          ∷ ("span_ms", format_int (div_trunc span millisecond))
          ∷ [];
      mitre_id = join "," s.techniques;
      mitre_technique = concat ("Multi-stage attack: " ∷ join ", " names ∷ []);
      severity = severity_critical;
      description = concat (
          "Multi-stage attack in the process tree of "
          ∷ root_text s
          ∷ ": "
          ∷ join " → " names
          ∷ " ("
          ∷ format_uint (length s.tactics)
          ∷ " tactics, "
          ∷ format_uint s.alerts
          ∷ " alerts, "
          ∷ format_uint (length s.procs)
          ∷ " processes, "
          ∷ rounded_text span
          ∷ ")"
          ∷ []);
      rule = rule_name_attack_chain;
      storyline = s.id;
      suppressed = 0;
      story = s.steps;
    }
