-- ===== src/Enforcement.antt =====
-- src/enforcement.rs: the gate that checks a decision again before an action is executed. It reads
-- the store and returns no new one, as `&dyn EventStore` says.
pub mod Gate
use r2r_jev.Prelude.{
  String, Option, none, some, Bool, true, false, not, Result, ok, ◌>>=◌, ◌>>◌, ◌==◌, if◌then◌else◌,
}
use r2r_jev.Store.{DomainKey, EventStore, StoredDecision}

pub record ExecutionBindingRequest : Type 0 where
  pub decision_id : String
  pub action : String
  pub expected_state_version : String

pub record ExecutionBindingResult : Type 0 where
  pub allowed : Bool
  pub reason_code : String
  pub decision_id : String
  pub subject : Option String
  pub scope : Option String
  pub action : String
  pub decision_state_version : Option String
  pub current_state_version : Option String

abbrev pub deny_unknown : ExecutionBindingRequest → ExecutionBindingResult
deny_unknown request = record {
  allowed = false;
  reason_code = "UNKNOWN_DECISION";
  decision_id = request.decision_id;
  subject = none;
  scope = none;
  action = request.action;
  decision_state_version = none;
  current_state_version = none;
}

abbrev pub for_domain :
    ExecutionBindingRequest → DomainKey → String → String → Bool → String → ExecutionBindingResult
for_domain request domain decision_version current allowed reason = record {
  allowed = allowed;
  reason_code = reason;
  decision_id = request.decision_id;
  subject = some domain.subject;
  scope = some domain.scope;
  action = request.action;
  decision_state_version = some decision_version;
  current_state_version = some current;
}

-- The tests of a decision that was found, in the order of the code.
unfoldable pub validate_decision :
    ExecutionBindingRequest → StoredDecision → String → ExecutionBindingResult
validate_decision request decision current =
    let answer = for_domain request decision.domain decision.state_version current in
    if not (decision.verdict == "ALLOW")
    then answer false "DECISION_NOT_ALLOW"
    else if not (decision.action == request.action)
    then answer false "ACTION_MISMATCH"
    else if not (decision.state_version == request.expected_state_version)
    then answer false "EXPECTED_STATE_VERSION_MISMATCH"
    else if not (current == decision.state_version)
    then answer false "STATE_VERSION_STALE"
    else answer true "EXECUTION_ALLOWED"

module _ {S : Type 0} (store_ops : EventStore S) where
  open store_ops use {health, current_state_version, decision}

  abbrev pub validate_found :
      S → ExecutionBindingRequest → Option StoredDecision → ExecutionBindingResult
  validate_found store request none = deny_unknown request
  validate_found store request (some found) =
      validate_decision request found (current_state_version store found.domain)

  unfoldable pub validate_execution : S → ExecutionBindingRequest → Result ExecutionBindingResult
  validate_execution store request = do
    health store
    ok (validate_found store request (decision store request.decision_id))
