-- ===== src/Detect/Storyline/Tactics.antt =====
-- The tactics that an alert is evidence of.
use krnl_sentry.Base.{
  String, Bool, ◌&&◌, List, [], ◌∷◌, ◌++◌, map, Option, none, some, ◌==◌, string_eq, if◌then◌else◌,
  join, before_byte, Eq, ◌≡◌, ◌↔◌, arith, eq_iff,
}
use krnl_sentry.Dict.{lookup}
use krnl_sentry.Detect.Alert.{Alert}
use krnl_sentry.Detect.Config.{rule_name_reverse_shell}

pub record Tactic : Type 0 where
  pub id : String
  pub name : String

-- Go's == on the struct.
abbrev pub tactic_beq : Tactic → Tactic → Bool
tactic_beq s t = s.id == t.id && s.name == t.name

pub tactic_beq_iff : (s t : Tactic) → (tactic_beq s t ≡ Bool.true) ↔ (s ≡ t)
tactic_beq_iff s t = ground (arith, eq_iff s.id t.id, eq_iff s.name t.name)

instance abbrev pub tactic_eq : Eq Tactic
tactic_eq = record { beq = tactic_beq; beq_iff = tactic_beq_iff }

abbrev pub tactic_execution : Tactic
tactic_execution = record { id = "TA0002"; name = "Execution" }

abbrev pub tactic_priv_esc : Tactic
tactic_priv_esc = record { id = "TA0004"; name = "Privilege Escalation" }

abbrev pub tactic_defense_evasion : Tactic
tactic_defense_evasion = record { id = "TA0005"; name = "Defense Evasion" }

abbrev pub tactic_credential_access : Tactic
tactic_credential_access = record { id = "TA0006"; name = "Credential Access" }

abbrev pub tactic_command_control : Tactic
tactic_command_control = record { id = "TA0011"; name = "Command and Control" }

unfoldable pub tactics_by_technique : List (String × Tactic)
tactics_by_technique =
    ("T1548", tactic_priv_esc)
    ∷ ("T1068", tactic_priv_esc)
    ∷ ("T1003", tactic_credential_access)
    ∷ ("T1552", tactic_credential_access)
    ∷ ("T1055", tactic_defense_evasion)
    ∷ ("T1059", tactic_execution)
    ∷ ("T1071", tactic_command_control)
    ∷ []

abbrev pub to_list {ℓ} : {A : Type ℓ} → Option A → List A
to_list none = []
to_list (some a) = a ∷ []

-- TacticsFor.
unfoldable pub tactics_for : Alert → List Tactic
tactics_for a =
    to_list (lookup (before_byte b'.' a.mitre_id) tactics_by_technique)
    ++ (if a.rule == rule_name_reverse_shell then tactic_command_control ∷ [] else [])

-- tacticNames.
unfoldable pub tactic_names : List Tactic → String
tactic_names ts = join " + " (map (λ t. t.name) ts)
