-- ===== src/Governance/Observe.antt =====
-- src/r2r.rs: `observe_judgment` and the rule pack that accepted evidence reaches.
use r2r_jev.Prelude.{
  ℕ, String, List, [], ◌∷◌, ◌++◌, Option, none, some, Bool, false, not, ◌&&◌, ◌||◌, Result, ok,
  ◌>>=◌, is_empty, if◌then◌else◌,
}
use r2r_jev.Prelude.Format.{format}
use r2r_jev.Model.{JudgmentObserved}
use r2r_jev.Admission.{
  EvidenceKind, beyond_scope, destructive_action, kind_as_str, AdmissionContext, AdmissionDecision,
  admit, is_accepted, render, policy_version,
}
use r2r_jev.Governance.{
  TrustPhase, DelegationPhase, AuthorizationPhase, Decision, allow, deny, decision_as_str,
  EvidenceAdmissionRecord, RelationChange, Admission, IdKind, next, new_change, Governance,
  push_ids, is_warning, is_degraded, is_suspended,
}

-- `if self.state.trust != Warning { … }`
warn_trust : String → Governance × List RelationChange → Governance × List RelationChange
warn_trust cause (g, changes) =
    let (change, counters) = new_change IdKind.trust "Trust" "Active -> Warning" cause g.counters in
    if is_warning g.state.trust then (g, changes) else (
      record g { state = record g.state { trust = TrustPhase.warning }; counters = counters },
      changes ++ change ∷ [],
    )

-- `if self.state.delegation != Degraded { … }`
degrade_delegation : String → Governance × List RelationChange → Governance × List RelationChange
degrade_delegation cause (g, changes) =
    let (change, counters) =
      new_change IdKind.delegation "Delegation" "Active -> Degraded" cause g.counters in
    if is_degraded g.state.delegation then (g, changes) else (
      record g {
        state = record g.state { delegation = DelegationPhase.degraded };
        counters = counters;
      },
      changes ++ change ∷ [],
    )

-- `if self.state.authorization != Suspended { … }`
suspend_authorization : String → Governance × List RelationChange → Governance × List RelationChange
suspend_authorization cause (g, changes) =
    let (change, counters) =
      new_change IdKind.authorization "Authorization" "Active -> Suspended" cause g.counters in
    if is_suspended g.state.authorization then (g, changes) else (
      record g {
        state = record g.state { authorization = AuthorizationPhase.suspended };
        counters = counters;
        governing_authorization = some change.id;
      },
      changes ++ change ∷ [],
    )

-- The kind is read by a debug assertion only.
unfoldable pub apply_admitted_evidence :
    String → EvidenceKind → Governance → Governance × List RelationChange
unfolding warn_trust degrade_delegation suspend_authorization new_change
apply_admitted_evidence id kind g =
    suspend_authorization id (degrade_delegation id (warn_trust id (g, [])))

-- The mutable variables of the loop over the candidates.
pub record Observing : Type 0 where
  pub governance : Governance
  pub evidence : List EvidenceAdmissionRecord
  pub all_changes : List RelationChange
  pub accepted_any : Bool

-- What an admission decision does to the kernel.
unfoldable pub apply_decision :
    AdmissionDecision → String → EvidenceKind → Governance → Governance × List RelationChange
apply_decision decision id kind g =
    if is_accepted decision then apply_admitted_evidence id kind g else (g, [])

-- The body of the loop, after the decision.
unfoldable pub record_candidate :
    String → EvidenceKind → ℕ → AdmissionDecision → Observing → Observing
unfolding apply_decision next
record_candidate event_id kind confidence decision o =
    let (evidence_id, counters) = next IdKind.evidence o.governance.counters in
    let (g, local_changes) =
      apply_decision decision evidence_id kind (record o.governance { counters = counters }) in
    let line =
      push_ids
        (format (
          event_id
          ∷ " -> "
          ∷ evidence_id
          ∷ "["
          ∷ kind_as_str kind
          ∷ ":"
          ∷ render decision
          ∷ "]"
          ∷ []))
        local_changes in
    record {
      governance = record g { provenance = g.provenance ++ line ∷ [] };
      evidence =
          o.evidence
          ++ record {
            id = evidence_id;
            kind = kind;
            confidence_ppm = confidence;
            decision = decision;
            policy_version = policy_version;
          }
            ∷ [];
      all_changes = o.all_changes ++ local_changes;
      accepted_any = o.accepted_any || is_accepted decision;
    }

unfoldable pub observe_candidates :
    String → AdmissionContext → List (EvidenceKind × ℕ) → Observing → Result Observing
observe_candidates event_id context [] o = ok o
observe_candidates event_id context ((kind, confidence) ∷ rest) o = do
  decision ← admit kind confidence context
  observe_candidates event_id context rest (record_candidate event_id kind confidence decision o)

abbrev authorized : AuthorizationPhase → Decision
authorized AuthorizationPhase.active = allow
authorized AuthorizationPhase.suspended = deny

unfoldable pub reason_of : Bool → List RelationChange → AuthorizationPhase → String
reason_of accepted_any changes phase =
    if accepted_any && not (is_empty changes)
    then "accepted evidence changed persistent governance state"
    else if accepted_any && is_suspended phase
    then "evidence admitted; authorization remains suspended"
    else if is_suspended phase
    then "no evidence admitted; authorization remains suspended by earlier evidence"
    else "no evidence admitted; authorization remains active"

-- ` [via {governing}]`, if an authorization relation is in force.
push_governing : String → Option String → String
push_governing line none = line
push_governing line (some governing) = format (line ∷ " [via " ∷ governing ∷ "]" ∷ [])

-- What follows the loop.
unfoldable pub conclude : String → JudgmentObserved → Observing → Admission × Governance
unfolding reason_of push_governing
conclude event_id judgment o =
    let g = o.governance in
    let decision = authorized g.state.authorization in
    let line = format (
      push_governing event_id g.governing_authorization
      ∷ " -> "
      ∷ decision_as_str decision
      ∷ "("
      ∷ judgment.tool
      ∷ ")"
      ∷ []) in
    (
      record {
        event_id = event_id;
        evidence = o.evidence;
        reason = reason_of o.accepted_any o.all_changes g.state.authorization;
        relation_changes = o.all_changes;
        decision = decision;
        action = judgment.tool;
      },
      record g { provenance = g.provenance ++ line ∷ [] },
    )

unfoldable pub observe_judgment :
    JudgmentObserved → AdmissionContext → Governance → Result (Admission × Governance)
unfolding observe_candidates record_candidate conclude apply_admitted_evidence next
observe_judgment judgment context g = do
  let (event_id, counters) = next IdKind.event g.counters
  o ←
      observe_candidates event_id context
        ((beyond_scope, judgment.beyond_scope_ppm)
          ∷ (destructive_action, judgment.destructive_ppm)
          ∷ [])
        (record {
          governance = record g { counters = counters };
          evidence = [];
          all_changes = [];
          accepted_any = false;
        })
  ok (conclude event_id judgment o)
