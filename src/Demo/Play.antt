-- ===== src/Demo/Play.antt =====
-- src/main.rs: the three acts of the mode `fixture`.
use r2r_jev.Prelude.{ℕ, String, List, [], ◌∷◌, ◌++◌, Result, ok, ◌>>=◌}
use r2r_jev.Prelude.Format.{format}
use r2r_jev.Model.{JudgmentObserved}
use r2r_jev.Admission.{demo_context}
use r2r_jev.Governance.{Admission, Governance, new_governance}
use r2r_jev.Governance.Observe.{observe_judgment}
use r2r_jev.Governance.Override.{human_override}
use r2r_jev.Demo.Lines.{indented, print_changes, print_decision, print_judgment, relations_lines}

-- What the demonstration observes: the outcome of each act, and the kernel at its end.
pub record Acts : Type 0 where
  pub first : Admission
  pub second : Admission
  pub third : Admission
  pub governance : Governance

-- The three acts, on the risky and the benign judgment.
unfoldable pub play : JudgmentObserved → JudgmentObserved → Result Acts
play risky benign = do
  risky_context ← demo_context 1
  (first, g1) ← observe_judgment risky risky_context new_governance
  benign_context ← demo_context 2
  (second, g2) ← observe_judgment benign benign_context g1
  let (third, g3) = human_override "human-1" "merge_pull_request" g2
  ok (record { first = first; second = second; third = third; governance = g3 })

abbrev pub print_acts : (ℕ → String) → JudgmentObserved → JudgmentObserved → Acts → List String
print_acts display risky benign acts =
    ("Act 1: admission separates evidence from authority" ∷ print_judgment display risky acts.first)
    ++ print_changes acts.first.relation_changes
    ++ print_decision acts.first
    ++ (""
        ∷ "Act 2: rejected evidence does not erase persistent governance state"
        ∷ print_judgment display benign acts.second)
    ++ relations_lines acts.second.relation_changes
    ++ print_decision acts.second
    ++ (""
        ∷ "Act 3: human override repairs the relation, under supervision"
        ∷ format (
            "  GovernanceEvent   event=" ∷ acts.third.event_id
            ∷ " kind=human_override supervisor=human-1" ∷ [])
        ∷ print_changes acts.third.relation_changes)
    ++ print_decision acts.third
    ++ "" ∷ "Provenance" ∷ indented acts.governance.provenance
