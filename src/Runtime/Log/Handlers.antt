-- ===== src/Runtime/Log/Handlers.antt =====
-- src/mcp/server.rs: every request leaves a server on a store in memory serving a logged runtime.
use r2r_jev.Prelude.{
  ℕ, ◌≡◌, refl, subst, arith, ok, Result, >>=-eq-ok, ◌+◌, ◌≤◌, ◌<◌, ◌^◌, ok-injective, Bool-cases,
  inl, inr, ltb, ◌||◌, inc64-eq_add,
}
use r2r_jev.Prelude.Assoc.{get_or-insert}
use r2r_jev.Admission.{ppm}
use r2r_jev.Store.{DomainKey, domain_key_eq, new_key}
use r2r_jev.Store.Memory.{MemoryEventStore, memory, find_decision}
use r2r_jev.Schema.{
  ObserveParams, DecideParams, ExplainParams, RecordOutcomeParams, RecordOutcomeResponse,
  ReplayParams,
}
use r2r_jev.Runtime.{new_domain, GovernanceRuntime, domain_of}
use r2r_jev.Runtime.Observe.{DomainObservation, key_of, store_observation}
use r2r_jev.Runtime.Decide.{known, decide, explain, record_outcome}
use r2r_jev.Runtime.Server as S
use r2r_jev.Runtime.Server.{
  Server, serving, Request, Response, call, call_all, handler, with_runtime, after_handler,
}
use r2r_jev.Runtime.Answers.{
  seen_at, observe_domain-eq_ok, observe-answers, observe-refuses, known-cases,
  record_outcome-cases,
}
use r2r_jev.Runtime.Log.{IsLogged}
use r2r_jev.Runtime.Log.Keeps.{observe-IsLogged, decide-IsLogged, record_outcome-IsLogged}
use r2r_jev.Runtime.Log.Replays.{replay-IsLogged}

-- No domain is past virtual tick `n`.
abbrev pub Ticks : ℕ → GovernanceRuntime MemoryEventStore → Type 0
Ticks n rt = (k : DomainKey) → (domain_of rt k).next_vtick ≤ n

-- The server serves a runtime that its stored events describe.
abbrev pub Sound : ℕ → Server MemoryEventStore → Type 0
Sound n server =
    (rt : GovernanceRuntime MemoryEventStore) × (server ≡ serving rt) × IsLogged rt × Ticks n rt

-- A runtime that a handler has left behind.
abbrev pub Kept :
    ℕ
    → Result (Response × GovernanceRuntime MemoryEventStore)
    → GovernanceRuntime MemoryEventStore
    → Type 0
Kept n o rt = Sound n (after_handler memory o rt).1

later : (n : ℕ) (rt : GovernanceRuntime MemoryEventStore) → Ticks n rt → Ticks (n + 1) rt
later n rt t k = let h = t k in omega (arith, h)

store_observation-Ticks :
    (n : ℕ) (params : ObserveParams) (seen : DomainObservation)
    (rt : GovernanceRuntime MemoryEventStore)
    → Ticks n rt
    → seen.domain.next_vtick ≤ n + 1
    → Ticks (n + 1) (store_observation memory params seen rt).1
unfolding store_observation
store_observation-Ticks n params seen rt ticks h k =
    ground (arith, get_or-insert (key_of params) k seen.domain new_domain rt.domains, ticks k)

observe-Kept :
    (n : ℕ) (params : ObserveParams) (rt : GovernanceRuntime MemoryEventStore)
    → n + 10 < 2 ^ 64
    → IsLogged rt
    → Ticks n rt
    → Kept (n + 1) (handler memory (S.observe params) rt) rt
unfolding handler
observe-Kept n params rt bound log ticks =
    elim (Bool-cases (ltb ppm params.beyond_scope_ppm || ltb ppm params.destructive_ppm)) [
      | inl bad ↦ rw (observe-refuses params rt bad) (rt, refl, log, later n rt ticks)
      | inr fine ↦
          let tick = ticks (key_of params) in
          let b : params.beyond_scope_ppm ≤ ppm = ground (arith, fine) in
          let d : params.destructive_ppm ≤ ppm = ground (arith, fine) in
          let domain = domain_of rt (key_of params) in
          let seen = seen_at params domain in
          let saw = observe_domain-eq_ok params domain b d (omega (arith, tick, bound)) in
          let next = inc64-eq_add domain.next_vtick (omega (arith, tick, bound)) in
          let answered = observe-answers params rt seen b d saw in
          let (answer, rt') = store_observation memory params seen rt in
          rw answered (
            rt',
            refl,
            observe-IsLogged params rt rt' answer log answered,
            store_observation-Ticks n params seen rt ticks (omega (arith, tick, next)),
          )
    ]

decide-Ticks :
    (n : ℕ) (params : DecideParams) (rt : GovernanceRuntime MemoryEventStore)
    → Ticks n rt
    → Ticks (n + 1) (decide memory params rt).1
unfolding decide
decide-Ticks n params rt ticks k =
    let key = new_key params.subject params.scope in
    ground (arith, get_or-insert key k (domain_of rt key) new_domain rt.domains, ticks k, ticks key)

explain-Kept :
    (n : ℕ) (params : ExplainParams) (rt : GovernanceRuntime MemoryEventStore)
    → IsLogged rt
    → Ticks n rt
    → Kept (n + 1) (handler memory (S.explain params) rt) rt
unfolding handler explain
explain-Kept n params rt log ticks =
    elim (known-cases params.decision_id (find_decision rt.store params.decision_id)) [
      | inl (e, h) ↦ rw h (rt, refl, log, later n rt ticks)
      | inr (d, h) ↦ rw h (rt, refl, log, later n rt ticks)
    ]

record_outcome-Ticks :
    (n : ℕ) (params : RecordOutcomeParams) (rt rt' : GovernanceRuntime MemoryEventStore)
    (a : RecordOutcomeResponse)
    → Ticks n rt
    → record_outcome memory params rt ≡ ok (a, rt')
    → Ticks (n + 1) rt'
unfolding record_outcome
record_outcome-Ticks n params rt rt' a ticks h =
    let (found, known_id, done) =
      >>=-eq-ok (known params.decision_id (find_decision rt.store params.decision_id)) _ h in
    subst (λ (r : RecordOutcomeResponse × GovernanceRuntime MemoryEventStore). Ticks (n + 1) r.1)
      (ok-injective done) (later n rt ticks)

record_outcome-Kept :
    (n : ℕ) (params : RecordOutcomeParams) (rt : GovernanceRuntime MemoryEventStore)
    → IsLogged rt
    → Ticks n rt
    → Kept (n + 1) (handler memory (S.record_outcome params) rt) rt
unfolding handler
record_outcome-Kept n params rt log ticks = elim (record_outcome-cases params rt) [
  | inl (e, h) ↦ rw h (rt, refl, log, later n rt ticks)
  | inr ((a, rt'), h) ↦ rw h (
    rt',
    refl,
    record_outcome-IsLogged params rt rt' a log h,
    record_outcome-Ticks n params rt rt' a ticks h,
  )
]

replay-Kept :
    (n : ℕ) (params : ReplayParams) (rt : GovernanceRuntime MemoryEventStore)
    → IsLogged rt
    → Ticks n rt
    → Kept (n + 1) (handler memory (S.replay params) rt) rt
unfolding handler
replay-Kept n params rt log ticks =
    rw (replay-IsLogged params rt log) (rt, refl, log, later n rt ticks)

pub handler-Kept :
    (n : ℕ) (request : Request) (rt : GovernanceRuntime MemoryEventStore)
    → n + 10 < 2 ^ 64
    → IsLogged rt
    → Ticks n rt
    → Kept (n + 1) (handler memory request rt) rt
handler-Kept n (S.observe params) rt bound log ticks = observe-Kept n params rt bound log ticks
handler-Kept n (S.decide params) rt bound log ticks =
    unfold handler in
    (
      (decide memory params rt).1,
      refl,
      decide-IsLogged params rt log,
      decide-Ticks n params rt ticks,
    )
handler-Kept n (S.explain params) rt bound log ticks = explain-Kept n params rt log ticks
handler-Kept n (S.record_outcome params) rt bound log ticks =
    record_outcome-Kept n params rt log ticks
handler-Kept n (S.replay params) rt bound log ticks = replay-Kept n params rt log ticks
