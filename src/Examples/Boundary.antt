-- ===== src/Examples/Boundary.antt =====
-- src/store/memory.rs and src/enforcement.rs: a store with one decision, and the gate before it.
use r2r_jev.Prelude.{[], true, none, some, ◌≡◌, ◌↔◌, refl, ok, inc64, if◌then◌else◌}
use r2r_jev.Prelude.Decimal.{pad}
use r2r_jev.Store.{DomainKey, key_eq, StoredDecision}
use r2r_jev.Store.Memory.{
  MemoryEventStore, memory, new_store, state_version, state_counter, current_state_version,
  advance_state_version, find_decision, record_decision, next_decision_id,
}
use r2r_jev.Store.Memory.Versions.{advance_state_version_exact}
use r2r_jev.Store.Memory.Numbering.{with_decision}
use r2r_jev.Enforcement.{
  ExecutionBindingRequest, ExecutionBindingResult, validate_execution, validate_decision,
}
use r2r_jev.Enforcement.Gate.{Executable, validate_execution_exact}

abbrev pub alpha : DomainKey
alpha = record { subject = "agent:coder"; scope = "repo:alpha" }

abbrev pub permit : StoredDecision
permit = record {
  decision_id = "decision-000001";
  domain = alpha;
  action = "git.push";
  verdict = "ALLOW";
  reason_code = "AUTHORIZATION_ACTIVE";
  governing_relation_id = none;
  state_version = "state-000000";
  provenance = [];
}

abbrev pub holding : MemoryEventStore
holding = with_decision new_store permit

abbrev request : ExecutionBindingRequest
request = record {
  decision_id = "decision-000001";
  action = "git.push";
  expected_state_version = "state-000000";
}

abbrev pub permitted : ExecutionBindingResult
permitted = record {
  allowed = true;
  reason_code = "EXECUTION_ALLOWED";
  decision_id = "decision-000001";
  subject = some "agent:coder";
  scope = some "repo:alpha";
  action = "git.push";
  decision_state_version = some "state-000000";
  current_state_version = some "state-000000";
}

permitted_now : validate_execution memory holding request ≡ ok permitted
unfolding validate_execution validate_decision find_decision record_decision next_decision_id
    current_state_version state_counter pad
permitted_now = refl

advance_state_version_exact_example :
    ((advance_state_version holding alpha).0 ≡ state_version (inc64 (state_counter holding alpha)))
    × ((k : DomainKey)
        → state_counter (advance_state_version holding alpha).1 k ≡ (
            if key_eq alpha k
            then inc64 (state_counter holding alpha)
            else state_counter holding k))
advance_state_version_exact_example = advance_state_version_exact holding alpha

validate_execution_exact_example :
    (result : ExecutionBindingResult) × (validate_execution memory holding request ≡ ok result)
    × ((result.allowed ≡ true) ↔ Executable memory holding request)
validate_execution_exact_example = validate_execution_exact memory holding request refl
