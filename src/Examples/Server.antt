-- ===== src/Examples/Server.antt =====
-- src/mcp/server.rs: a session of calls.
use r2r_jev.Prelude.{[], ◌∷◌, ◌≡◌, ◌↔◌, true, none, ok, arith, refl}
use r2r_jev.Store.{new_key, DomainKey, key_eq}
use r2r_jev.Store.Memory.{MemoryEventStore, memory, current_state_version, events_for_domain}
use r2r_jev.Schema.{ExplainResponse}
use r2r_jev.Enforcement.{ExecutionBindingResult, validate_execution}
use r2r_jev.Runtime.{GovernanceRuntime, domain_of}
use r2r_jev.Runtime.Decide.{decide, explain}
use r2r_jev.Runtime.Recover.{try_with_store}
use r2r_jev.Runtime.Server as S
use r2r_jev.Runtime.Server.{serving, call, call_all, with_runtime, handler}
use r2r_jev.Runtime.Log.{IsLogged}
use r2r_jev.Runtime.Log.Replays.{count64}
use r2r_jev.Runtime.Log.Serving.{
  new_server, new_runtime, call_all-serves, call_all-replays, call_all-recovers,
}
use r2r_jev.Runtime.Audit.Calls.{Extends, call_all-Extends}
use r2r_jev.Runtime.Audit.Decisions.{decide-explain, decide-validate_execution}
use r2r_jev.Runtime.Verdict.Calls.{decide-any_suspends}
use r2r_jev.Examples.{session, ask, check_replay}

decide-any_suspends_example :
    (rt : GovernanceRuntime MemoryEventStore) × (call_all memory session new_server ≡ serving rt)
    × ((decide memory ask rt).0.decision ≡ "DENY")
unfolding key_eq
decide-any_suspends_example = decide-any_suspends session ask (omega arith)

call_all-serves_example :
    (rt : GovernanceRuntime MemoryEventStore) × (call_all memory session new_server ≡ serving rt)
    × IsLogged rt
call_all-serves_example = call_all-serves session (omega arith)

call_all-replays_example :
    (rt : GovernanceRuntime MemoryEventStore) × (call_all memory session new_server ≡ serving rt)
    × let key = new_key "agent:coder" "repo:alpha" in
      let version = current_state_version rt.store key in
      call memory (S.replay check_replay) (serving rt) ≡ (
        ok (
            S.replayed (record {
              replay_match = true;
              recorded_state_version = version;
              replayed_state_version = version;
              replayed_events = count64 (events_for_domain rt.store key);
              first_divergent_event = none;
              policy_versions = "admission:0.1" ∷ "r2r-rules:demo-0.1" ∷ [];
            })),
        serving rt,
      )
call_all-replays_example = call_all-replays session check_replay (omega arith)

call_all-recovers_example :
    (rt : GovernanceRuntime MemoryEventStore) × (rt' : GovernanceRuntime MemoryEventStore)
    × (call_all memory session new_server ≡ serving rt)
    × (try_with_store memory rt.store ≡ ok rt')
    × (rt'.store ≡ rt.store)
    × ((key : DomainKey) → domain_of rt' key ≡ domain_of rt key)
call_all-recovers_example = call_all-recovers session (omega arith)

decide-explain_example :
    (rt : GovernanceRuntime MemoryEventStore) × (rt' : GovernanceRuntime MemoryEventStore)
    × (e : ExplainResponse) × (call_all memory [] new_server ≡ serving rt)
    × (call_all memory session (call memory (S.decide ask) (serving rt)).1 ≡ serving rt')
    × let answer = (decide memory ask rt).0 in
      (explain memory (record { decision_id = answer.decision_id }) rt' ≡ ok e)
      × (e.verdict ≡ answer.decision)
      × (e.reason_code ≡ answer.reason_code)
      × (e.state_version ≡ answer.state_version)
decide-explain_example = decide-explain [] ask session (omega arith)

decide-validate_execution_example :
    (rt : GovernanceRuntime MemoryEventStore) × (rt' : GovernanceRuntime MemoryEventStore)
    × (result : ExecutionBindingResult) × (call_all memory [] new_server ≡ serving rt)
    × (call_all memory session (call memory (S.decide ask) (serving rt)).1 ≡ serving rt')
    × let answer = (decide memory ask rt).0 in
      (validate_execution memory rt'.store (record {
        decision_id = answer.decision_id;
        action = "git.push";
        expected_state_version = answer.state_version;
      })
        ≡ ok result)
      × ((result.allowed ≡ true) ↔ (
          (answer.decision ≡ "ALLOW")
          × (current_state_version rt'.store (new_key "agent:coder" "repo:alpha")
              ≡ answer.state_version)))
decide-validate_execution_example = decide-validate_execution [] ask session (omega arith)

abbrev asked : GovernanceRuntime MemoryEventStore
asked = (decide memory ask new_runtime).1

call_all-Extends_example : Extends new_runtime.store asked.store
unfolding call_all call with_runtime handler
call_all-Extends_example = call_all-Extends (S.decide ask ∷ []) new_runtime asked refl
