-- ===== src/Demo/Lines.antt =====
-- src/main.rs: what the demonstration prints of a judgment and its outcome.
use r2r_jev.Prelude.{ℕ, String, List, [], ◌∷◌, is_empty, if◌then◌else◌}
use r2r_jev.Prelude.Format.{format}
use r2r_jev.Model.{JudgmentObserved}
use r2r_jev.Admission.{kind_as_str, render}
use r2r_jev.Governance.{Admission, decision_as_str, EvidenceAdmissionRecord, RelationChange}
use r2r_jev.Compare.{ljust}

abbrev pub evidence_lines : (ℕ → String) → List EvidenceAdmissionRecord → List String
evidence_lines display [] = []
evidence_lines display (evidence ∷ rest) =
    format (
      "  Evidence          "
      ∷ evidence.id
      ∷ " kind="
      ∷ kind_as_str evidence.kind
      ∷ " confidence="
      ∷ display evidence.confidence_ppm
      ∷ [])
    ∷ format (
        "  Admission         policy="
        ∷ evidence.policy_version
        ∷ " "
        ∷ render evidence.decision
        ∷ [])
    ∷ evidence_lines display rest

abbrev pub print_judgment : (ℕ → String) → JudgmentObserved → Admission → List String
print_judgment display judgment outcome =
    format ("  JudgmentObserved  event=" ∷ outcome.event_id ∷ " provider=" ∷ judgment.provider ∷ [])
    ∷ format (
        "  judgment          beyond_scope="
        ∷ display judgment.beyond_scope_ppm
        ∷ " destructive="
        ∷ display judgment.destructive_ppm
        ∷ " tool="
        ∷ judgment.tool
        ∷ [])
    ∷ evidence_lines display outcome.evidence

abbrev pub print_changes : List RelationChange → List String
print_changes [] = []
print_changes (change ∷ rest) =
    format (
      "  "
      ∷ ljust 17 change.relation
      ∷ " "
      ∷ ljust 29 change.transition
      ∷ " "
      ∷ change.id
      ∷ " (caused by "
      ∷ change.caused_by
      ∷ ")"
      ∷ [])
    ∷ print_changes rest

abbrev pub print_decision : Admission → List String
print_decision outcome =
    format (
      "  Decision          "
      ∷ decision_as_str outcome.decision
      ∷ " "
      ∷ outcome.action
      ∷ " ("
      ∷ outcome.reason
      ∷ ")"
      ∷ [])
    ∷ []

abbrev pub relations_lines : List RelationChange → List String
relations_lines changes =
    if is_empty changes
    then "  Relations         unchanged (no new evidence was admitted)" ∷ []
    else print_changes changes

abbrev pub indented : List String → List String
indented [] = []
indented (line ∷ rest) = format ("  " ∷ line ∷ []) ∷ indented rest
