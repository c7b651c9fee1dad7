-- ===== src/Governance/Effect.antt =====
-- src/r2r.rs: what one observed judgment, or one override, does to the relation state.
use r2r_jev.Prelude.{
  ok-injective, ℕ, ◌≤◌, String, List, [], ◌∷◌, ◌++◌, Bool, true, false, ◌||◌, ◌≡◌, ◌↔◌, refl, sym,
  subst, ◌∙◌, arith, ok, is_empty,
}
use r2r_jev.Model.{JudgmentObserved}
use r2r_jev.Admission.{
  EvidenceKind, beyond_scope, destructive_action, AdmissionContext, AdmissionDecision, is_accepted,
  admit, admit_in_range, admit-eq_ok, ppm,
}
use r2r_jev.Governance.{
  TrustPhase, DelegationPhase, AuthorizationPhase, GovernanceState, allow, Admission, Governance,
  IdKind, next,
}
use r2r_jev.Governance.Observe.{
  apply_admitted_evidence, apply_decision, Observing, record_candidate, conclude, observe_judgment,
}

-- The protective chain: accepted evidence warns trust, degrades delegation and suspends
-- authorization; nothing else touches the state.
abbrev pub protect : Bool → GovernanceState → GovernanceState
protect false s = s
protect true s = record s {
  trust = TrustPhase.warning;
  delegation = DelegationPhase.degraded;
  authorization = AuthorizationPhase.suspended;
}

-- The two decisions that a judgment draws.
abbrev pub scope_decision : JudgmentObserved → AdmissionContext → AdmissionDecision
scope_decision j x = admit_in_range beyond_scope j.beyond_scope_ppm x

abbrev pub destructive_decision : JudgmentObserved → AdmissionContext → AdmissionDecision
destructive_decision j x = admit_in_range destructive_action j.destructive_ppm x

abbrev pub accepts : JudgmentObserved → AdmissionContext → Bool
accepts j x = is_accepted (scope_decision j x) || is_accepted (destructive_decision j x)

abbrev pub InRange : JudgmentObserved → Type 0
InRange j = (j.beyond_scope_ppm ≤ ppm) × (j.destructive_ppm ≤ ppm)

abbrev pub start : Governance → Observing
start g = record {
  governance = record g { counters = (next IdKind.event g.counters).1 };
  evidence = [];
  all_changes = [];
  accepted_any = false;
}

-- The kernel's event id and what the loop leaves, for scores in range.
observing : JudgmentObserved → AdmissionContext → Governance → Observing
observing j x g =
    record_candidate (next IdKind.event g.counters).0 destructive_action j.destructive_ppm
      (destructive_decision j x)
      (record_candidate (next IdKind.event g.counters).0 beyond_scope j.beyond_scope_ppm
        (scope_decision j x) (start g))

-- `observe_judgment` on scores in range.
unfoldable pub observed : JudgmentObserved → AdmissionContext → Governance → Admission × Governance
unfolding observing
observed j x g = conclude (next IdKind.event g.counters).0 j (observing j x g)

pub observe_judgment-eq_ok :
    (j : JudgmentObserved) (x : AdmissionContext) (g : Governance)
    → InRange j
    → observe_judgment j x g ≡ ok (observed j x g)
unfolding observe_judgment observed
observe_judgment-eq_ok j x g h =
    rw (admit-eq_ok beyond_scope j.beyond_scope_ppm x h.0)
      (rw (admit-eq_ok destructive_action j.destructive_ppm x h.1) refl)

record_candidate-state :
    (e : String) (kind : EvidenceKind) (c : ℕ) (d : AdmissionDecision) (o : Observing)
    → (record_candidate e kind c d o).governance.state ≡ protect (is_accepted d) o.governance.state
unfolding record_candidate apply_admitted_evidence is_accepted
record_candidate-state e kind c d o = ground arith

conclude-decision :
    (e : String) (j : JudgmentObserved) (o : Observing)
    → ((conclude e j o).0.decision ≡ allow)
      ↔ ((conclude e j o).1.state.authorization ≡ AuthorizationPhase.active)
unfolding conclude
conclude-decision e j o = ground arith

protect-protect : (a b : Bool) (s : GovernanceState) → protect a (protect b s) ≡ protect (b || a) s
protect-protect a b s = ground arith

pub observed-state :
    (j : JudgmentObserved) (x : AdmissionContext) (g : Governance)
    → (observed j x g).1.state ≡ protect (accepts j x) g.state
unfolding observed conclude
observed-state j x g = simp record_candidate-state (
    protect-protect (is_accepted (destructive_decision j x)) (is_accepted (scope_decision j x))
      g.state)

pub observed-decision :
    (j : JudgmentObserved) (x : AdmissionContext) (g : Governance)
    → ((observed j x g).0.decision ≡ allow)
      ↔ ((observed j x g).1.state.authorization ≡ AuthorizationPhase.active)
unfolding observed
observed-decision j x g = conclude-decision (next IdKind.event g.counters).0 j (observing j x g)

observe_judgment-InRange :
    (j : JudgmentObserved) (x : AdmissionContext) (g : Governance) {r : Admission × Governance}
    → observe_judgment j x g ≡ ok r
    → InRange j
unfolding observe_judgment admit
observe_judgment-InRange j x g h = ground arith

-- A judgment that the kernel observed had its scores in range.
pub observe_judgment-eq_observed :
    (j : JudgmentObserved) (x : AdmissionContext) (g : Governance) {r : Admission × Governance}
    → observe_judgment j x g ≡ ok r
    → r ≡ observed j x g
observe_judgment-eq_observed j x g h =
    ok-injective (sym h ∙ observe_judgment-eq_ok j x g (observe_judgment-InRange j x g h))

-- Of scores in range: observing a judgment returns; the state afterwards is the protected state if
-- admission accepts one of the two scores and the old state if not; and the call is allowed exactly
-- when authorization is then active.
pub observe_judgment_exact :
    (j : JudgmentObserved) (x : AdmissionContext) (g : Governance)
    → InRange j
    → (a : Admission) × (g' : Governance) × (observe_judgment j x g ≡ ok (a, g'))
      × (g'.state ≡ protect (accepts j x) g.state)
      × ((a.decision ≡ allow) ↔ (g'.state.authorization ≡ AuthorizationPhase.active))
observe_judgment_exact j x g h = (
  (observed j x g).0,
  (observed j x g).1,
  observe_judgment-eq_ok j x g h,
  observed-state j x g,
  observed-decision j x g,
)

is_empty-append {ℓ} :
    {A : Type ℓ} (xs ys : List A)
    → (is_empty (xs ++ ys) ≡ true) ↔ ((is_empty xs ≡ true) × (is_empty ys ≡ true))
is_empty-append [] ys = ground arith
is_empty-append (x ∷ xs) ys = ground arith

apply_decision-changes :
    (id : String) (kind : EvidenceKind) (d : AdmissionDecision) (g : Governance)
    → (is_empty (apply_decision d id kind g).1 ≡ true) ↔ (protect (is_accepted d) g.state ≡ g.state)
unfolding apply_decision apply_admitted_evidence is_accepted
apply_decision-changes id kind d g = ground arith

record_candidate-changes :
    (e : String) (kind : EvidenceKind) (c : ℕ) (d : AdmissionDecision) (o : Observing)
    → (is_empty (record_candidate e kind c d o).all_changes ≡ true) ↔ (
        (is_empty o.all_changes ≡ true)
        × (protect (is_accepted d) o.governance.state ≡ o.governance.state))
unfolding record_candidate apply_decision
record_candidate-changes e kind c d o =
    let (id, counters) = next IdKind.evidence o.governance.counters in
    let g : Governance = record o.governance { counters = counters } in
    ground (
      arith,
      is_empty-append o.all_changes (apply_decision d id kind g).1,
      apply_decision-changes id kind d g,
    )

protect_twice :
    (a b : Bool) (s : GovernanceState)
    → ((protect a s ≡ s) × (protect b (protect a s) ≡ protect a s)) ↔ (protect (a || b) s ≡ s)
protect_twice a b s = ground arith

observing-changes :
    (j : JudgmentObserved) (x : AdmissionContext) (g : Governance)
    → (is_empty (observing j x g).all_changes ≡ true) ↔ (protect (accepts j x) g.state ≡ g.state)
unfolding observing
observing-changes j x g =
    let id = (next IdKind.event g.counters).0 in
    let p = scope_decision j x in
    let q = destructive_decision j x in
    let o : Observing = record_candidate id beyond_scope j.beyond_scope_ppm p (start g) in
    let first = record_candidate-changes id beyond_scope j.beyond_scope_ppm p (start g) in
    let second = record_candidate-changes id destructive_action j.destructive_ppm q o in
    let state = record_candidate-state id beyond_scope j.beyond_scope_ppm p (start g) in
    let both = protect_twice (is_accepted p) (is_accepted q) g.state in
    (
      λ h. both.0 ((first.0 (second.0 h).0).1, rw state at (second.0 h).1),
      λ h. second.1 (first.1 (refl, (both.1 h).0), rw state ((both.1 h).1)),
    )

observed-changes :
    (j : JudgmentObserved) (x : AdmissionContext) (g : Governance)
    → (is_empty (observed j x g).0.relation_changes ≡ true) ↔ ((observed j x g).1.state ≡ g.state)
observed-changes j x g = rw observed-state (unfold observed conclude in observing-changes j x g)

-- If the kernel observed a judgment: it reports no relation change exactly when the relation state
-- is what it was.
relation_changes_empty :
    (j : JudgmentObserved) (x : AdmissionContext) (g g' : Governance) (a : Admission)
    → observe_judgment j x g ≡ ok (a, g')
    → (is_empty a.relation_changes ≡ true) ↔ (g'.state ≡ g.state)
relation_changes_empty j x g g' a h =
    subst
      (λ (r : Admission × Governance).
        (is_empty r.0.relation_changes ≡ true) ↔ (r.1.state ≡ g.state))
      (sym (observe_judgment-eq_observed j x g h)) (observed-changes j x g)
