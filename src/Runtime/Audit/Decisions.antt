-- ===== src/Runtime/Audit/Decisions.antt =====
-- src/mcp/server.rs and src/enforcement.rs: what becomes of a decision.
use r2r_jev.Prelude.{
  ℕ, ◌+◌, ◌<◌, ◌^◌, List, [], ◌∷◌, some, true, ◌≡◌, text_eq_of, ◌↔◌, refl, sym, ap, subst, ◌∙◌,
  arith, ok, length,
}
use r2r_jev.Store.{StoredDecision, new_key}
use r2r_jev.Store.Memory.{
  MemoryEventStore, memory, find_decision, next_decision_id, current_state_version,
}
use r2r_jev.Store.Memory.Numbering.{with_decision, find-with_decision}
use r2r_jev.Schema.{DecideParams, ExplainResponse}
use r2r_jev.Enforcement.{ExecutionBindingRequest, ExecutionBindingResult, validate_execution}
use r2r_jev.Enforcement.Gate.{validate_execution_exact, Executable-found}
use r2r_jev.Runtime.{GovernanceRuntime}
use r2r_jev.Runtime.Decide.{decide, explain, explanation}
use r2r_jev.Runtime.Server as S
use r2r_jev.Runtime.Server.{
  Server, serving, poisoned, Request, call, call_all, handler, with_runtime,
}
use r2r_jev.Runtime.Audit.{Grown}
use r2r_jev.Runtime.Audit.Calls.{
  Follows, call-Follows, call_all-Extends, find_decision-Extends, Counted, Grown-Counted,
  new_store-Counted,
}
use r2r_jev.Runtime.Log.Serving.{new_server, new_server-Sound, call_all-Sound, call-Sound}

abbrev Holds : (MemoryEventStore → Type 0) → Server MemoryEventStore → Type 0
Holds P (serving rt) = P rt.store
Holds P poisoned = Unit

Grown-Holds :
    (n : ℕ) (s : MemoryEventStore) (server : Server MemoryEventStore)
    → n + 1 < 2 ^ 64
    → Follows Grown s server
    → Counted n s
    → Holds (Counted (n + 1)) server
Grown-Holds n s (serving rt) b g c = Grown-Counted n s rt.store b g c
Grown-Holds n s poisoned b g c = tt

call-Counted :
    (n : ℕ) (request : Request) (server : Server MemoryEventStore)
    → n + 1 < 2 ^ 64
    → Holds (Counted n) server
    → Holds (Counted (n + 1)) (call memory request server).1
call-Counted n request (serving rt) b c =
    Grown-Holds n rt.store (call memory request (serving rt)).1 b (call-Follows request rt) c
call-Counted n request poisoned b c = unfold call with_runtime in tt

call_all-Counted :
    (n : ℕ) (requests : List Request) (server : Server MemoryEventStore)
    → n + length requests + 1 < 2 ^ 64
    → Holds (Counted n) server
    → Holds (Counted (n + length requests)) (call_all memory requests server)
unfolding call_all
call_all-Counted n [] server b c = subst (λ (m : ℕ). Holds (Counted m) server) (omega arith) c
call_all-Counted n (request ∷ rest) server b c =
    let total : n + 1 + length rest ≡ n + length (request ∷ rest) = omega arith in
    subst (λ (m : ℕ). Holds (Counted m) (call_all memory rest (call memory request server).1)) total
      (call_all-Counted (n + 1) rest (call memory request server).1 (omega (arith, b))
        (call-Counted n request server (omega (arith, b)) c))

-- The decision that `decide` records, as its response reports it.
record Recorded (params : DecideParams) (rt : GovernanceRuntime MemoryEventStore)
    (d : StoredDecision) : Type 0 where
  stored : (decide memory params rt).1.store ≡ with_decision rt.store d
  numbered : d.decision_id ≡ (next_decision_id rt.store).0
  id : d.decision_id ≡ (decide memory params rt).0.decision_id
  verdict : d.verdict ≡ (decide memory params rt).0.decision
  reason : d.reason_code ≡ (decide memory params rt).0.reason_code
  version : d.state_version ≡ (decide memory params rt).0.state_version
  action : d.action ≡ params.action
  domain : d.domain ≡ new_key params.subject params.scope

decide-Recorded :
    (params : DecideParams) (rt : GovernanceRuntime MemoryEventStore)
    → (d : StoredDecision) × Recorded params rt d
unfolding decide
decide-Recorded params rt = (
  _,
  record {
    stored = refl;
    numbered = refl;
    id = refl;
    verdict = refl;
    reason = refl;
    version = refl;
    action = refl;
    domain = refl;
  },
)

call-decide :
    (params : DecideParams) (rt : GovernanceRuntime MemoryEventStore)
    → (call memory (S.decide params) (serving rt)).1 ≡ serving (decide memory params rt).1
unfolding call with_runtime handler
call-decide params rt = refl

-- A new server after `before`, a call of `decide`, and `later`.
record Decided (before : List Request) (params : DecideParams) (later : List Request) : Type 0 where
  rt : GovernanceRuntime MemoryEventStore
  rt' : GovernanceRuntime MemoryEventStore
  d : StoredDecision
  serves : call_all memory before new_server ≡ serving rt
  still_serves : call_all memory later (call memory (S.decide params) (serving rt)).1 ≡ serving rt'
  recorded : Recorded params rt d
  found : find_decision rt'.store d.decision_id ≡ some d

new_server-Decided :
    (before : List Request) (params : DecideParams) (later : List Request)
    → length before + length later + 12 < 2 ^ 64
    → Decided before params later
new_server-Decided before params later bound =
    let (rt, serves, log, ticks) =
      call_all-Sound 1 before new_server (omega (arith, bound)) new_server-Sound in
    let n = 1 + length before in
    let (rt', still, log', ticks') =
      call_all-Sound (n + 1) later (call memory (S.decide params) (serving rt)).1
        (omega (arith, bound))
        (call-Sound n (S.decide params) (serving rt) (omega (arith, bound))
          (rt, refl, log, ticks)) in
    let (d, r) = decide-Recorded params rt in
    let counted : Counted (0 + length before) rt.store =
      subst (Holds (Counted (0 + length before))) serves
        (call_all-Counted 0 before new_server (omega (arith, bound)) new_store-Counted) in
    let found =
      (find-with_decision rt.store d counted.numbered
          (let c = counted.decision in omega (arith, c, bound)) r.numbered).1
        d.decision_id in
    let here : find_decision (with_decision rt.store d) d.decision_id ≡ some d =
      rw (text_eq_of d.decision_id d.decision_id refl) at found in
    let extends =
      call_all-Extends later (decide memory params rt).1 rt'
        (ap (call_all memory later) (sym (call-decide params rt)) ∙ still) in
    record {
      rt = rt;
      rt' = rt';
      d = d;
      serves = serves;
      still_serves = still;
      recorded = r;
      found =
          find_decision-Extends (decide memory params rt).1.store rt'.store d.decision_id d extends
            (rw r.stored here);
    }

-- A new server that takes the calls `before`, a call of `decide` and the calls `later`, few enough
-- for its 64-bit numbers, still serves; and `explain` of the id in the answer of `decide` then
-- gives the verdict, the reason and the version of that answer.
pub decide-explain :
    (before : List Request) (params : DecideParams) (later : List Request)
    → length before + length later + 12 < 2 ^ 64
    → (rt : GovernanceRuntime MemoryEventStore) × (rt' : GovernanceRuntime MemoryEventStore)
      × (e : ExplainResponse) × (call_all memory before new_server ≡ serving rt)
      × (call_all memory later (call memory (S.decide params) (serving rt)).1 ≡ serving rt')
      × let answer = (decide memory params rt).0 in
        (explain memory (record { decision_id = answer.decision_id }) rt' ≡ ok e)
        × (e.verdict ≡ answer.decision)
        × (e.reason_code ≡ answer.reason_code)
        × (e.state_version ≡ answer.state_version)
unfolding explain
decide-explain before params later bound =
    let s = new_server-Decided before params later bound in
    let r = s.recorded in
    (
      s.rt,
      s.rt',
      explanation s.d,
      s.serves,
      s.still_serves,
      (rw (sym r.id) (rw s.found refl), r.verdict, r.reason, r.version),
    )

-- A new server that takes the calls `before`, a call of `decide` and the calls `later`, few enough
-- for its 64-bit numbers, still serves; and the gate then answers a request to execute the decided
-- action at the version of the decision, and allows it exactly if the decision was to allow and the
-- version of the domain is still the one of the decision.
pub decide-validate_execution :
    (before : List Request) (params : DecideParams) (later : List Request)
    → length before + length later + 12 < 2 ^ 64
    → (rt : GovernanceRuntime MemoryEventStore) × (rt' : GovernanceRuntime MemoryEventStore)
      × (result : ExecutionBindingResult) × (call_all memory before new_server ≡ serving rt)
      × (call_all memory later (call memory (S.decide params) (serving rt)).1 ≡ serving rt')
      × let answer = (decide memory params rt).0 in
        (validate_execution memory rt'.store (record {
          decision_id = answer.decision_id;
          action = params.action;
          expected_state_version = answer.state_version;
        })
          ≡ ok result)
        × ((result.allowed ≡ true) ↔ (
            (answer.decision ≡ "ALLOW")
            × (current_state_version rt'.store (new_key params.subject params.scope)
                ≡ answer.state_version)))
decide-validate_execution before params later bound =
    let s = new_server-Decided before params later bound in
    let r = s.recorded in
    let answer = (decide memory params s.rt).0 in
    let request : ExecutionBindingRequest = record {
      decision_id = answer.decision_id;
      action = params.action;
      expected_state_version = answer.state_version;
    } in
    let (result, answers, exact) = validate_execution_exact memory s.rt'.store request refl in
    let found : find_decision s.rt'.store answer.decision_id ≡ some s.d = rw r.id at s.found in
    let needed = Executable-found memory s.rt'.store request s.d found r.action r.version in
    let now : current_state_version s.rt'.store (new_key params.subject params.scope)
        ≡ current_state_version s.rt'.store s.d.domain =
      ap (current_state_version s.rt'.store) (sym r.domain) in
    (
      s.rt,
      s.rt',
      result,
      s.serves,
      s.still_serves,
      (
        answers,
        (
          λ allowed.
              let (v, c) = needed.0 (exact.0 allowed) in (sym r.verdict ∙ v, now ∙ c ∙ r.version),
          λ h. exact.1 (needed.1 (r.verdict ∙ h.0, sym now ∙ h.1 ∙ sym r.version)),
        ),
      ),
    )
