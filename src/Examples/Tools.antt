-- ===== src/Examples/Tools.antt =====
-- src/mcp/annotated.rs: the annotations of a replay, and the gate asked by a principal.
use r2r_jev.Prelude.{[], ◌∷◌, some, true, false, ◌≡◌, refl, Result, ok}
use r2r_jev.Prelude.Assoc.{text_key, lookup}
use r2r_jev.Store.Memory.{MemoryEventStore, memory, new_store}
use r2r_jev.Remote.{text, CallToolRequest, CallToolResponse, complete, RemotePrincipalServer}
use r2r_jev.Runtime.{GovernanceRuntime}
use r2r_jev.Runtime.Server.{Server, serving, decide}
use r2r_jev.Annotated.{Json, annotations_for, hints}
use r2r_jev.Annotated.Hints.{governance, called, Honoured, call-Honoured}
use r2r_jev.Prelude.{◌≢◌, none, panic}
use r2r_jev.Annotated.Pipeline.{served, Granted, served-Granted}
use r2r_jev.Examples.{shelf, local, codec_of, ask}
use r2r_jev.Examples.Boundary.{holding}
use r2r_jev.Remote
use r2r_jev.Remote.{authorize_request, ensure_decision_access, ensure_scope}
use r2r_jev.Store.JsonFile.{open_store}
use r2r_jev.Store.Memory.{
  current_state_version, find_decision, next_decision_id, record_decision, state_counter,
}
use r2r_jev.Annotated.{call_tool, call_validate_execution}
use r2r_jev.Enforcement.{validate_decision, validate_execution}
use r2r_jev.Prelude.Decimal.{pad}

abbrev fresh : GovernanceRuntime MemoryEventStore
fresh = record { domains = []; store = new_store }

memory-healthy : (s : MemoryEventStore) → memory.health s ≢ panic
memory-healthy s h = absurd (cc h)

-- Answers are written as their reason.
abbrev short : Json
short = record {
  field_error = λ name. "missing field";
  to_string_pretty = λ result. ok result.reason_code;
}

-- The tools of the control plane are called with their parameters read.
abbrev unrouted :
    CallToolRequest → Server MemoryEventStore → Result CallToolResponse × Server MemoryEventStore
unrouted request server = (ok (complete true "unknown tool"), server)

call-Honoured_example :
    Honoured memory (governance (decide ask)) (hints false false false false) fresh (
      called memory memory-healthy shelf
        (codec_of holding)
        short
        unrouted
        (some "store")
        none
        (governance (decide ask))
        (serving fresh))
unfolding annotations_for
call-Honoured_example =
    call-Honoured memory memory-healthy shelf (codec_of holding) short unrouted (some "store") none
      (governance (decide ask)) fresh (hints false false false false) refl

abbrev coder : RemotePrincipalServer
coder = record { principal = "agent:coder"; allowed_scopes = "repo:alpha" ∷ [] }

abbrev ask_gate : CallToolRequest
ask_gate = record {
  name = "r2r_validate_execution";
  arguments = some (
      ("decision_id", text "decision-000001")
      ∷ ("action", text "git.push")
      ∷ ("expected_state_version", text "state-000000")
      ∷ []);
}

abbrev silent : CallToolRequest → Unit {0} → Result CallToolResponse × Unit {0}
silent request state = (ok (complete true "unknown tool"), state)

granted :
    (served shelf
      (codec_of holding)
      short
      silent
      (some "store")
      (local "store.json")
      coder
      ask_gate
      tt).0
    ≡ ok (complete false "EXECUTION_ALLOWED")
unfolding served Remote.call_tool authorize_request lookup ensure_decision_access open_store
    find_decision record_decision next_decision_id ensure_scope call_tool call_validate_execution
    validate_execution validate_decision current_state_version pad state_counter
granted = refl

served-Granted_example :
    Granted shelf
      (codec_of holding)
      short
      silent
      (some "store")
      (local "store.json")
      coder
      ask_gate
      "EXECUTION_ALLOWED"
served-Granted_example =
    served-Granted shelf (codec_of holding) short silent (some "store") (local "store.json") coder
      ask_gate tt "EXECUTION_ALLOWED" refl granted
