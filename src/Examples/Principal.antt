-- ===== src/Examples/Principal.antt =====
-- src/mcp/remote.rs: a principal that asks for its own scope, in another's name, and for its decision.
use r2r_jev.Prelude.{String, [], ◌∷◌, some, true, Result, ok, ◌≡◌, refl}
use r2r_jev.Prelude.Assoc.{text_key, lookup, insert}
use r2r_jev.Store.{StoredDecision}
use r2r_jev.Store.Memory.{
  MemoryEventStore, memory, find_decision, record_decision, next_decision_id,
}
use r2r_jev.Remote.{
  text, CallToolRequest, RemotePrincipalServer, contains, or_default, ensure_scope,
  ensure_decision_access, authorize_request,
}
use r2r_jev.Remote.Binding.{authorize_request-by_scope, authorize_request-by_decision}
use r2r_jev.Examples.Boundary.{holding}

abbrev coder : RemotePrincipalServer
coder = record { principal = "agent:coder"; allowed_scopes = "repo:alpha" ∷ [] }

abbrev forged : CallToolRequest
forged = record {
  name = "r2r_decide";
  arguments = some (("scope", text "repo:alpha") ∷ ("subject", text "agent:other") ∷ []);
}

abbrev bound : CallToolRequest
bound = record {
  name = "r2r_decide";
  arguments = some (("scope", text "repo:alpha") ∷ ("subject", text "agent:coder") ∷ []);
}

abbrev explained : CallToolRequest
explained = record {
  name = "r2r_explain";
  arguments = some (("decision_id", text "decision-000001") ∷ []);
}

authorize_request-by_scope_example :
    (scope : String) × (lookup "scope" (or_default forged.arguments) ≡ some (text scope))
    × (contains coder.allowed_scopes scope ≡ true)
    × (lookup "subject" (or_default bound.arguments) ≡ some (text "agent:coder"))
    × (lookup "scope" (or_default bound.arguments) ≡ some (text scope))
unfolding authorize_request ensure_scope lookup insert
authorize_request-by_scope_example =
    authorize_request-by_scope memory (ok holding) coder forged bound refl refl

authorize_request-by_decision_example :
    (explained ≡ explained)
    × ((id : String) × (store : MemoryEventStore) × (d : StoredDecision) × (lookup "decision_id"
            (or_default explained.arguments)
          ≡ some (text id))
        × (◌≡◌ {A = Result MemoryEventStore} (ok holding) (ok store))
        × (find_decision store id ≡ some d)
        × (d.domain.subject ≡ "agent:coder")
        × (contains coder.allowed_scopes d.domain.scope ≡ true))
unfolding authorize_request ensure_decision_access ensure_scope lookup find_decision record_decision
    next_decision_id
authorize_request-by_decision_example =
    authorize_request-by_decision memory (ok holding) coder explained explained refl refl
