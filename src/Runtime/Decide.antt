-- ===== src/Runtime/Decide.antt =====
-- src/mcp/server.rs: `decide`, `explain` and `record_outcome`.
use r2r_jev.Prelude.{
  String, List, [], ◌∷◌, ◌++◌, Option, none, some, Result, ok, err, ◌>>=◌, ◌==◌, if◌then◌else◌,
}
use r2r_jev.Prelude.Assoc.{insert}
use r2r_jev.Prelude.Format.{format}
use r2r_jev.Governance.{Decision, allow, deny}
use r2r_jev.Store.{domain_key_eq, new_key, EventStore, StoredDecision, StoredEvent}
use r2r_jev.Schema.{
  DecideParams, DecideResponse, GoverningRelation, ExplainParams, ExplainResponse,
  RecordOutcomeParams, RecordOutcomeResponse, outcome_as_str,
}
use r2r_jev.Runtime.{GovernanceRuntime, domain_of}

abbrev pub verdict_of : Decision → String
verdict_of allow = "ALLOW"
verdict_of deny = "DENY"

abbrev pub reason_code_of : Decision → String
reason_code_of allow = "AUTHORIZATION_ACTIVE"
reason_code_of deny = "AUTHORIZATION_SUSPENDED"

abbrev pub next_step_of : Decision → Option String
next_step_of allow = none
next_step_of deny = some "human_review"

abbrev pub relation_state_of : Decision → String
relation_state_of allow = "Active"
relation_state_of deny = "Suspended"

abbrev pub governing_relations_of : Option String → Decision → List GoverningRelation
governing_relations_of none projected = []
governing_relations_of (some id) projected =
    record {
      relation_id = id;
      relation_type = "Authorization";
      state = relation_state_of projected;
    }
    ∷ []

-- The provenance of every event of the domain, in order.
abbrev pub provenance_of : List StoredEvent → List String
provenance_of [] = []
provenance_of (event ∷ rest) = event.provenance ++ provenance_of rest

-- `explain` words the two verdicts.
abbrev pub summary : StoredDecision → String
summary decision =
    if decision.verdict == "DENY"
    then format (
        decision.action ∷ " was denied because persistent authorization state was suspended at "
        ∷ decision.state_version ∷ " for " ∷ decision.domain.subject ∷ "/" ∷ decision.domain.scope
        ∷ "." ∷ [])
    else format (
        decision.action ∷ " was allowed because no suspended authorization governed the action at "
        ∷ decision.state_version ∷ " for " ∷ decision.domain.subject ∷ "/" ∷ decision.domain.scope
        ∷ "." ∷ [])

abbrev pub explanation : StoredDecision → ExplainResponse
explanation decision = record {
  decision_id = decision.decision_id;
  verdict = decision.verdict;
  reason_code = decision.reason_code;
  state_version = decision.state_version;
  governing_relation_id = decision.governing_relation_id;
  causal_chain = decision.provenance;
  summary = summary decision;
}

-- `.ok_or_else(|| format!("unknown decision_id: {}", ..))`
abbrev pub known : String → Option StoredDecision → Result StoredDecision
known id none = err (format ("unknown decision_id: " ∷ id ∷ []))
known id (some decision) = ok decision

module _ {S : Type 0} (store_ops : EventStore S) where
  open store_ops use {
    current_state_version, events_for_domain, next_decision_id, record_decision, decision,
    next_outcome_id, record_outcome as store_outcome,
  }

  -- The handler has no `Err`.
  unfoldable pub decide : DecideParams → GovernanceRuntime S → DecideResponse × GovernanceRuntime S
  decide params rt =
      let key = new_key params.subject params.scope in
      let domain = domain_of rt key in
      let projected = domain.projected_decision in
      let governing = domain.governing_authorization in
      let history = provenance_of (events_for_domain rt.store key) in
      let (id, numbered) = next_decision_id rt.store in
      let version = current_state_version numbered key in
      let verdict = verdict_of projected in
      let line = format (
        id ∷ " [domain=" ∷ key.subject ∷ "/" ∷ key.scope ∷ " state=" ∷ version ∷ "] -> " ∷ verdict
        ∷ "(" ∷ params.action ∷ ")" ∷ []) in
      let stored = record_decision numbered (record {
        decision_id = id;
        domain = key;
        action = params.action;
        verdict = verdict;
        reason_code = reason_code_of projected;
        governing_relation_id = governing;
        state_version = version;
        provenance = history ++ line ∷ [];
      }) in
      (
        record {
          decision = verdict;
          reason_code = reason_code_of projected;
          decision_id = id;
          governing_relations = governing_relations_of governing projected;
          required_next_step = next_step_of projected;
          state_version = version;
        },
        record { domains = insert key domain rt.domains; store = stored },
      )

  unfoldable pub explain : ExplainParams → GovernanceRuntime S → Result ExplainResponse
  explain params rt = do
    found ← known params.decision_id (decision rt.store params.decision_id)
    ok (explanation found)

  unfoldable pub record_outcome :
      RecordOutcomeParams
      → GovernanceRuntime S
      → Result (RecordOutcomeResponse × GovernanceRuntime S)
  record_outcome params rt = do
    found ← known params.decision_id (decision rt.store params.decision_id)
    let (id, numbered) = next_outcome_id rt.store
    let version = current_state_version numbered found.domain
    let outcome = outcome_as_str params.outcome
    let stored = store_outcome numbered (record {
      outcome_id = id;
      decision_id = found.decision_id;
      domain = found.domain;
      outcome = outcome;
      detail = params.detail;
      state_version = version;
    })
    ok (
      record {
        outcome_id = id;
        decision_id = found.decision_id;
        outcome = outcome;
        state_version = version;
        relation_transitions = [];
      },
      record rt { store = stored },
    )
