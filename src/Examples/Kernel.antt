-- ===== src/Examples/Kernel.antt =====
-- src/r2r.rs and src/admission.rs: the three acts of the tests, and the kernel's theorems on them.
use r2r_jev.Prelude.{◌≤◌, true, some, ◌≡◌, ◌↔◌, ◌⊎◌, arith, refl, ok}
use r2r_jev.Admission.{
  beyond_scope, AdmissionContext, AdmissionDecision, hold, accept, corroborated,
  needs_corroboration_or_review, is_accepted, admit, admit_in_range,
}
use r2r_jev.Admission.Ladder.{
  Eligible, StrongSupport, CorroboratedSupport, ReviewSupport, admit-accept_iff, admit-hold_iff,
}
use r2r_jev.Admission.Order.{rank, admit_mono}
use r2r_jev.Governance.{
  Admission, Governance, new_governance, allow, deny, AuthorizationPhase, is_suspended,
}
use r2r_jev.Governance.Observe.{
  observe_judgment, conclude, record_candidate, apply_admitted_evidence,
}
use r2r_jev.Governance.Override.{human_override}
use r2r_jev.Governance.Effect.{
  accepts, protect, observed, observe_judgment-eq_ok, observe_judgment_exact,
}
use r2r_jev.Governance.Explain.{
  phases, read_changes, observe_judgment_explained, human_override_explained,
}
use r2r_jev.Governance.Trace.{
  judged, overridden, Reach, here, then, IsValid, Reach-IsValid, open_evidence,
  suspended-eq_open_evidence,
}
use r2r_jev.Governance.History.{Grows, Reach-provenance}
use r2r_jev.Examples.{push, trusted}

-- The kernel after the push, and after the override that follows it.
abbrev pushed : Governance
pushed = (observed push trusted new_governance).1

abbrev verdict : Admission
verdict = (observed push trusted new_governance).0

abbrev overruled : Governance
overruled = (human_override "agent:supervisor" "git.push" pushed).1

push_observed : observe_judgment push trusted new_governance ≡ ok (verdict, pushed)
push_observed = observe_judgment-eq_ok push trusted new_governance (omega arith, omega arith)

abbrev history : Reach new_governance overruled
history =
    then (then here (judged push trusted verdict push_observed))
      (overridden "agent:supervisor" "git.push" refl)

act_1 : verdict.decision ≡ deny
unfolding observed conclude record_candidate is_accepted admit_in_range apply_admitted_evidence
act_1 = refl

act_3 : overruled.state.authorization ≡ AuthorizationPhase.active
unfolding observed human_override conclude record_candidate is_accepted admit_in_range
    apply_admitted_evidence
act_3 = refl

observe_judgment_exact_example :
    (a : Admission) × (g' : Governance) × (observe_judgment push trusted new_governance
      ≡ ok (a, g'))
    × (g'.state ≡ protect (accepts push trusted) new_governance.state)
    × ((a.decision ≡ allow) ↔ (g'.state.authorization ≡ AuthorizationPhase.active))
observe_judgment_exact_example =
    observe_judgment_exact push trusted new_governance (omega arith, omega arith)

observe_judgment_explained_example :
    read_changes verdict.relation_changes (phases new_governance.state) ≡ some (phases pushed.state)
observe_judgment_explained_example =
    observe_judgment_explained push trusted new_governance pushed verdict push_observed

human_override_explained_example :
    read_changes
      (human_override "agent:supervisor" "git.push" pushed).0.relation_changes
      (phases pushed.state)
    ≡ some (phases overruled.state)
human_override_explained_example = human_override_explained "agent:supervisor" "git.push" pushed

Reach-IsValid_example : IsValid overruled
Reach-IsValid_example = Reach-IsValid history

suspended-eq_open_evidence_example :
    is_suspended overruled.state.authorization
    ≡ open_evidence history (is_suspended new_governance.state.authorization)
suspended-eq_open_evidence_example = suspended-eq_open_evidence history

Reach-provenance_example : Grows 4 new_governance.provenance overruled.provenance
Reach-provenance_example = Reach-provenance history

admit-accept_iff_example :
    (p : AdmissionDecision) × (admit beyond_scope 950000 trusted ≡ ok p)
    × ((is_accepted p ≡ true) ↔ (
        Eligible beyond_scope trusted
        × (StrongSupport 950000 trusted ⊎ CorroboratedSupport 950000 trusted)))
admit-accept_iff_example = admit-accept_iff beyond_scope 950000 trusted (omega arith)

admit-hold_iff_example :
    (admit beyond_scope 700000 trusted ≡ ok (hold needs_corroboration_or_review)) ↔ (
      Eligible beyond_scope trusted
      × ReviewSupport 700000 trusted
      × (¬ StrongSupport 700000 trusted)
      × (¬ CorroboratedSupport 700000 trusted))
admit-hold_iff_example = admit-hold_iff beyond_scope 700000 trusted (omega arith)

-- The same source, once two others confirm it.
abbrev confirmed : AdmissionContext
confirmed = record trusted { independent_corroborators = 2 }

admit_mono_example : rank (hold needs_corroboration_or_review) ≤ rank (accept corroborated)
unfolding admit admit_in_range
admit_mono_example =
    admit_mono beyond_scope 700000 750000 trusted confirmed (hold needs_corroboration_or_review)
      (accept corroborated) (omega arith)
      (record { reliability = omega arith; corroborators = omega arith; live = λ h. h }) refl refl
