-- ===== src/Governance/Trace.antt =====
-- src/r2r.rs: the kernel over a whole history of judgments and overrides.
use r2r_jev.Prelude.{
  ℕ, String, List, Option, none, some, Bool, true, false, not, ◌&&◌, ◌≡◌, refl, sym, subst, ap, ◌∙◌,
  arith, ◌||◌, ok,
}
use r2r_jev.Model.{JudgmentObserved}
use r2r_jev.Admission.{
  EvidenceKind, beyond_scope, destructive_action, AdmissionContext, AdmissionDecision,
}
use r2r_jev.Governance.{
  GovernanceState, Admission, Counters, Governance, new_governance, IdKind, next, is_suspended,
  is_warning, is_degraded,
}
use r2r_jev.Governance.Observe.{
  Observing, observe_judgment, conclude, record_candidate, apply_decision, apply_admitted_evidence,
}
use r2r_jev.Governance.Override.{human_override}
use r2r_jev.Governance.Effect.{
  accepts, start, scope_decision, destructive_decision, protect, observed, observed-state,
  observe_judgment-eq_observed,
}

pub data Step : Governance → Governance → Type 0 where
  judged :
      {g g' : Governance} (j : JudgmentObserved) (x : AdmissionContext) (a : Admission)
      → observe_judgment j x g ≡ ok (a, g')
      → Step g g'
  overridden :
      {g g' : Governance} (supervisor action : String)
      → g' ≡ (human_override supervisor action g).1
      → Step g g'

pub data Reach (g : Governance) : Governance → Type 0 where
  here : Reach g g
  then : {h k : Governance} → Reach g h → Step h k → Reach g k

abbrev is_none {ℓ} : {A : Type ℓ} → Option A → Bool
is_none none = true
is_none (some _) = false

-- What holds of the kernel between two events.
pub record IsValid (g : Governance) : Type 0 where
  pub trust_delegation : is_warning g.state.trust ≡ is_degraded g.state.delegation
  pub suspended_warned :
      (is_suspended g.state.authorization && not (is_warning g.state.trust)) ≡ false
  pub warned_governed : (is_warning g.state.trust && is_none g.governing_authorization) ≡ false

new_governance-IsValid : IsValid new_governance
new_governance-IsValid = ground arith

apply_decision-IsValid :
    (d : AdmissionDecision) (id : String) (k : EvidenceKind) (g : Governance)
    → IsValid g
    → IsValid (apply_decision d id k g).0
unfolding apply_decision apply_admitted_evidence
apply_decision-IsValid d id k g v = ground arith

-- The invariant reads the relation state and the governing relation only.
IsValid-of_fields :
    (g : Governance) (c : Counters) (lines : List String)
    → IsValid g
    → IsValid (record g { counters = c; provenance = lines })
IsValid-of_fields g c lines v = record {
  trust_delegation = v.trust_delegation;
  suspended_warned = v.suspended_warned;
  warned_governed = v.warned_governed;
}

record_candidate-IsValid :
    (e : String) (k : EvidenceKind) (c : ℕ) (d : AdmissionDecision) (o : Observing)
    → IsValid o.governance
    → IsValid (record_candidate e k c d o).governance
unfolding record_candidate
record_candidate-IsValid e k c d o v =
    let (id, counters) = next IdKind.evidence o.governance.counters in
    let g : Governance = record o.governance { counters = counters } in
    let h = (apply_decision d id k g).0 in
    IsValid-of_fields h h.counters _
      (apply_decision-IsValid d id k g (IsValid-of_fields o.governance counters _ v))

observed-IsValid :
    (j : JudgmentObserved) (x : AdmissionContext) (g : Governance)
    → IsValid g
    → IsValid (observed j x g).1
unfolding observed conclude
observed-IsValid j x g v =
    let id = (next IdKind.event g.counters).0 in
    let o : Observing =
      record_candidate id beyond_scope j.beyond_scope_ppm (scope_decision j x) (start g) in
    let p : Observing =
      record_candidate id destructive_action j.destructive_ppm (destructive_decision j x) o in
    IsValid-of_fields p.governance p.governance.counters _ (
      record_candidate-IsValid id destructive_action j.destructive_ppm (destructive_decision j x) o
        (record_candidate-IsValid id beyond_scope j.beyond_scope_ppm (scope_decision j x) (start g)
          (IsValid-of_fields g (start g).governance.counters _ v)))

human_override-IsValid :
    (supervisor action : String) (g : Governance)
    → IsValid g
    → IsValid (human_override supervisor action g).1
unfolding human_override
human_override-IsValid supervisor action g v = ground arith

Step-IsValid : {g h : Governance} → Step g h → IsValid g → IsValid h
Step-IsValid {g} (judged j x a e) v =
    subst (λ (r : Admission × Governance). IsValid r.1) (sym (observe_judgment-eq_observed j x g e))
      (observed-IsValid j x g v)
Step-IsValid {g} (overridden s a e) v = subst IsValid (sym e) (human_override-IsValid s a g v)

-- Whatever judgments and overrides a new kernel has seen: trust is in warning exactly when
-- delegation is degraded; a suspended authorization comes with both; and from the first warning on
-- an authorization relation governs.
pub Reach-IsValid : {g : Governance} → Reach new_governance g → IsValid g
Reach-IsValid here = new_governance-IsValid
Reach-IsValid (then r s) = Step-IsValid s (Reach-IsValid r)

-- Whether evidence has been accepted since the last override, if `before` says so of the start.
pub open_evidence : {g h : Governance} → Reach g h → Bool → Bool
open_evidence here before = before
open_evidence (then r (judged j x a e)) before = open_evidence r before || accepts j x
open_evidence (then r (overridden s a e)) before = false

pub suspended-protect :
    (b : Bool) (s : GovernanceState)
    → is_suspended (protect b s).authorization ≡ (is_suspended s.authorization || b)
suspended-protect b s = ground arith

observed-suspended :
    (j : JudgmentObserved) (x : AdmissionContext) (g h : Governance) (a : Admission)
    → observe_judgment j x g ≡ ok (a, h)
    → is_suspended h.state.authorization ≡ (is_suspended g.state.authorization || accepts j x)
observed-suspended j x g h a e =
    subst
      (λ (r : Admission × Governance).
        is_suspended r.1.state.authorization ≡ (is_suspended g.state.authorization || accepts j x))
      (sym (observe_judgment-eq_observed j x g e))
      (rw observed-state (suspended-protect (accepts j x) g.state))

human_override-active :
    (supervisor action : String) (g : Governance)
    → is_suspended (human_override supervisor action g).1.state.authorization ≡ false
unfolding human_override
human_override-active supervisor action g = ground arith

-- Over any history: authorization is suspended exactly when evidence has been accepted since the
-- last human override, or it was suspended at the start and there has been no override.
pub suspended-eq_open_evidence :
    {g h : Governance} (r : Reach g h)
    → is_suspended h.state.authorization ≡ open_evidence r (is_suspended g.state.authorization)
unfolding open_evidence
suspended-eq_open_evidence here = refl
suspended-eq_open_evidence (then {h} {k} r (judged j x a e)) =
    observed-suspended j x h k a e ∙ ap (λ b. b || accepts j x) (suspended-eq_open_evidence r)
suspended-eq_open_evidence (then {h} r (overridden s a e)) =
    subst (λ (k : Governance). is_suspended k.state.authorization ≡ false) (sym e)
      (human_override-active s a h)
