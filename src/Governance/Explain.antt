-- ===== src/Governance/Explain.antt =====
-- src/r2r.rs: the relation changes that an event reports account for the whole change of state.
use r2r_jev.Prelude.{
  ℕ, String, List, [], ◌∷◌, ◌++◌, Option, none, some, Bool, true, false, ◌&&◌, ◌≡◌, refl, sym,
  subst, ◌∙◌, arith, ok, ◌==◌, if◌then◌else◌,
}
use r2r_jev.Model.{JudgmentObserved}
use r2r_jev.Admission.{
  EvidenceKind, beyond_scope, destructive_action, AdmissionContext, AdmissionDecision,
}
use r2r_jev.Governance.{
  TrustPhase, DelegationPhase, AuthorizationPhase, GovernanceState, Supervision, Admission,
  Governance, RelationChange, IdKind, next,
}
use r2r_jev.Governance.Observe.{
  apply_admitted_evidence, apply_decision, Observing, record_candidate, conclude, observe_judgment,
}
use r2r_jev.Governance.Effect.{
  scope_decision, destructive_decision, start, observed, observe_judgment-eq_observed,
}
use r2r_jev.Governance.Override.{human_override}

-- What the relations of a state are, without who supervises.
pub record Phases : Type 0 where
  pub trust : TrustPhase
  pub delegation : DelegationPhase
  pub authorization : AuthorizationPhase
  pub supervised : Bool

abbrev is_some : Option Supervision → Bool
is_some none = false
is_some (some _) = true

abbrev pub phases : GovernanceState → Phases
phases s = record {
  trust = s.trust;
  delegation = s.delegation;
  authorization = s.authorization;
  supervised = is_some s.supervision;
}

-- What a reader of the log makes of one reported change: `none` where it does not fit the phases.
abbrev warn : TrustPhase → Phases → Option Phases
warn TrustPhase.active p = some (record p { trust = TrustPhase.warning })
warn TrustPhase.warning p = none

abbrev degrade : DelegationPhase → Phases → Option Phases
degrade DelegationPhase.active p = some (record p { delegation = DelegationPhase.degraded })
degrade DelegationPhase.degraded p = none

abbrev suspend : AuthorizationPhase → Phases → Option Phases
suspend AuthorizationPhase.active p =
    some (record p { authorization = AuthorizationPhase.suspended })
suspend AuthorizationPhase.suspended p = none

abbrev restore : AuthorizationPhase → Phases → Option Phases
restore AuthorizationPhase.active p = none
restore AuthorizationPhase.suspended p =
    some (record p { authorization = AuthorizationPhase.active })

abbrev supervise : Bool → Phases → Option Phases
supervise false p = some (record p { supervised = true })
supervise true p = none

pub read_change : RelationChange → Phases → Option Phases
read_change c p =
    if c.relation == "Trust" && c.transition == "Active -> Warning"
    then warn p.trust p
    else if c.relation == "Delegation" && c.transition == "Active -> Degraded"
    then degrade p.delegation p
    else if c.relation == "Authorization" && c.transition == "Active -> Suspended"
    then suspend p.authorization p
    else if c.relation == "Authorization" && c.transition == "Suspended -> Active"
    then restore p.authorization p
    else if c.relation == "Supervision" && c.transition == "created"
    then supervise p.supervised p
    else none

abbrev then_read : Option Phases → (Phases → Option Phases) → Option Phases
then_read none rest = none
then_read (some p) rest = rest p

abbrev pub read_changes : List RelationChange → Phases → Option Phases
read_changes [] p = some p
read_changes (c ∷ rest) p = then_read (read_change c p) (read_changes rest)

then_read_mono :
    (o : Option Phases) (f k : Phases → Option Phases) (q : Phases) (r : Option Phases)
    → then_read o f ≡ some q
    → ((p : Phases) → f p ≡ some q → k p ≡ r)
    → then_read o k ≡ r
then_read_mono none f k q r h step = cc
then_read_mono (some p) f k q r h step = step p h

read_changes-append :
    (xs ys : List RelationChange) (p q : Phases)
    → read_changes xs p ≡ some q
    → read_changes (xs ++ ys) p ≡ read_changes ys q
read_changes-append [] ys p q h = ground arith
read_changes-append (x ∷ xs) ys p q h =
    then_read_mono (read_change x p) (read_changes xs) (read_changes (xs ++ ys)) q
      (read_changes ys q) h (λ p'. read_changes-append xs ys p' q)

apply_decision-explained :
    (d : AdmissionDecision) (id : String) (kind : EvidenceKind) (g : Governance)
    → read_changes (apply_decision d id kind g).1 (phases g.state)
      ≡ some (phases (apply_decision d id kind g).0.state)
unfolding apply_decision apply_admitted_evidence read_change
apply_decision-explained d id kind g = ground arith

record_candidate-explained :
    (e : String) (kind : EvidenceKind) (c : ℕ) (d : AdmissionDecision) (o : Observing) (p : Phases)
    → read_changes o.all_changes p ≡ some (phases o.governance.state)
    → read_changes (record_candidate e kind c d o).all_changes p
      ≡ some (phases (record_candidate e kind c d o).governance.state)
unfolding record_candidate
record_candidate-explained e kind c d o p h =
    let (id, counters) = next IdKind.evidence o.governance.counters in
    let g : Governance = record o.governance { counters = counters } in
    read_changes-append o.all_changes (apply_decision d id kind g).1 p (phases g.state) h
    ∙ apply_decision-explained d id kind g

observed-explained :
    (j : JudgmentObserved) (x : AdmissionContext) (g : Governance)
    → read_changes (observed j x g).0.relation_changes (phases g.state)
      ≡ some (phases (observed j x g).1.state)
unfolding observed conclude
observed-explained j x g =
    record_candidate-explained (next IdKind.event g.counters).0 destructive_action j.destructive_ppm
      (destructive_decision j x)
      (record_candidate (next IdKind.event g.counters).0 beyond_scope j.beyond_scope_ppm
        (scope_decision j x) (start g))
      (phases g.state)
      (record_candidate-explained (next IdKind.event g.counters).0 beyond_scope j.beyond_scope_ppm
        (scope_decision j x) (start g) (phases g.state) refl)

-- If the kernel observed a judgment: the changes that it reports, read in order, lead from the
-- phases before to the phases after.
pub observe_judgment_explained :
    (j : JudgmentObserved) (x : AdmissionContext) (g g' : Governance) (a : Admission)
    → observe_judgment j x g ≡ ok (a, g')
    → read_changes a.relation_changes (phases g.state) ≡ some (phases g'.state)
observe_judgment_explained j x g g' a h =
    subst
      (λ (r : Admission × Governance).
        read_changes r.0.relation_changes (phases g.state) ≡ some (phases r.1.state))
      (sym (observe_judgment-eq_observed j x g h)) (observed-explained j x g)

-- Whatever the state: the changes that an override reports, read in order, lead from the phases
-- before to the phases after.
pub human_override_explained :
    (supervisor action : String) (g : Governance)
    → read_changes (human_override supervisor action g).0.relation_changes (phases g.state)
      ≡ some (phases (human_override supervisor action g).1.state)
unfolding human_override read_change
human_override_explained supervisor action g = ground arith
