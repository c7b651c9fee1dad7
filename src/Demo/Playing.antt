-- ===== src/Demo/Playing.antt =====
-- src/main.rs: what the three acts of the demonstration decide, and what its modes send.
use r2r_jev.Prelude.{String, Option, some, Bool, false, ◌||◌, ◌≡◌, ◌↔◌, refl, ◌∙◌, ap, ok, arith}
use r2r_jev.Model.{JudgmentObserved}
use r2r_jev.Admission.{AdmissionContext, demo_context}
use r2r_jev.Governance.{
  allow, AuthorizationPhase, Governance, GovernanceState, is_suspended, new_governance,
}
use r2r_jev.Governance.Effect.{
  accepts, InRange, observe_judgment-eq_ok, observed, observed-decision, observed-state, protect,
}
use r2r_jev.Governance.Override.{human_override}
use r2r_jev.Demo.Play.{Acts, play}

-- The contexts of the first two acts, `AdmissionContext::demo(1)` and `demo(2)`.
abbrev pub first_context : AdmissionContext
first_context = record {
  source_reliability_ppm = 850000;
  independent_corroborators = 0;
  now_vtick = 1;
  expires_vtick = 11;
}

abbrev pub second_context : AdmissionContext
second_context = record first_context { now_vtick = 2; expires_vtick = 12 }

first_context_shown : demo_context 1 ≡ ok first_context
unfolding demo_context
first_context_shown = refl

second_context_shown : demo_context 2 ≡ ok second_context
unfolding demo_context
second_context_shown = refl

protect-active :
    (b : Bool) (s : GovernanceState)
    → ((protect b s).authorization ≡ AuthorizationPhase.active)
      ↔ ((is_suspended s.authorization || b) ≡ false)
protect-active b s = ground arith

-- An observed call is allowed exactly when neither the state before nor the judgment suspends.
observed-allowed :
    (j : JudgmentObserved) (x : AdmissionContext) (g : Governance)
    → ((observed j x g).0.decision ≡ allow)
      ↔ ((is_suspended g.state.authorization || accepts j x) ≡ false)
observed-allowed j x g =
    let decided = observed-decision j x g in
    let kept = protect-active (accepts j x) g.state in
    let same = ap (λ (s : GovernanceState). s.authorization) (observed-state j x g) in
    (λ h. kept.0 (rw same at decided.0 h), λ h. decided.1 (rw same (kept.1 h)))

suspended-protect_new : (b : Bool) → is_suspended (protect b new_governance.state).authorization ≡ b
suspended-protect_new b = ground arith

-- The acts, for judgments in range.
abbrev played : JudgmentObserved → JudgmentObserved → Acts
played risky benign =
    let (first, g1) = observed risky first_context new_governance in
    let (second, g2) = observed benign second_context g1 in
    let (third, g3) = human_override "human-1" "merge_pull_request" g2 in
    record { first = first; second = second; third = third; governance = g3 }

play-eq_ok :
    (risky benign : JudgmentObserved)
    → InRange risky
    → InRange benign
    → play risky benign ≡ ok (played risky benign)
unfolding play
play-eq_ok risky benign h k = rw first_context_shown (
    rw (observe_judgment-eq_ok risky first_context new_governance h) (
      rw second_context_shown (
        rw
          (observe_judgment-eq_ok benign second_context
            (observed risky first_context new_governance).1 k)
          refl)))

-- An override of a kernel without a supervisor.
human_override-supervised :
    (supervisor action : String) (g : Governance)
    → g.state.supervision ≡ Option.none
    → ((human_override supervisor action g).0.decision ≡ allow)
      × ((human_override supervisor action g).1.state.authorization ≡ AuthorizationPhase.active)
      × ((human_override supervisor action g).1.state.supervision
          ≡ some (record {
            supervisor = supervisor;
            created_by = (human_override supervisor action g).0.event_id;
          }))
unfolding human_override
human_override-supervised supervisor action g h = ground arith

supervision-protect : (b : Bool) (s : GovernanceState) → (protect b s).supervision ≡ s.supervision
supervision-protect b s = ground arith

observed-supervision :
    (j : JudgmentObserved) (x : AdmissionContext) (g : Governance)
    → (observed j x g).1.state.supervision ≡ g.state.supervision
observed-supervision j x g = rw observed-state (supervision-protect (accepts j x) g.state)

-- Of two judgments with scores in range: the demonstration plays to its end. The first call is
-- allowed exactly when admission accepts no score of the risky judgment; the second exactly when it
-- accepts no score of either judgment, so what the first act admitted still governs; and after the
-- override, whatever came before, the call is allowed, authorization is active, and the supervisor
-- is the human of that event.
pub play_exact :
    (risky benign : JudgmentObserved)
    → InRange risky
    → InRange benign
    → (acts : Acts) × (play risky benign ≡ ok acts)
      × ((acts.first.decision ≡ allow) ↔ (accepts risky first_context ≡ false))
      × ((acts.second.decision ≡ allow)
          ↔ ((accepts risky first_context || accepts benign second_context) ≡ false))
      × (acts.third.decision ≡ allow)
      × (acts.governance.state.authorization ≡ AuthorizationPhase.active)
      × (acts.governance.state.supervision
          ≡ some (record { supervisor = "human-1"; created_by = acts.third.event_id }))
play_exact risky benign h k =
    let g1 = (observed risky first_context new_governance).1 in
    let after_first =
      ap (λ (s : GovernanceState). is_suspended s.authorization)
        (observed-state risky first_context new_governance)
      ∙ suspended-protect_new (accepts risky first_context) in
    let second = observed-allowed benign second_context g1 in
    let (allowed, active, supervised) =
      human_override-supervised "human-1" "merge_pull_request" (observed benign second_context g1).1
        (observed-supervision benign second_context g1
          ∙ observed-supervision risky first_context new_governance) in
    (
      played risky benign,
      play-eq_ok risky benign h k,
      observed-allowed risky first_context new_governance,
      (λ e. rw after_first at second.0 e, λ e. second.1 (rw after_first e)),
      allowed,
      active,
      supervised,
    )
