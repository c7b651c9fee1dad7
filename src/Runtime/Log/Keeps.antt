-- ===== src/Runtime/Log/Keeps.antt =====
-- src/mcp/server.rs: every handler leaves a runtime that its stored events describe.
use r2r_jev.Prelude.{
  ℕ, String, List, [], ◌∷◌, ◌++◌, ◌≡◌, refl, sym, ap, subst, ◌∙◌, arith, ok, >>=-eq-ok,
  ok-injective, is_empty, if◌then◌else◌, Bool-cases, inl, inr,
}
use r2r_jev.Prelude.Assoc.{get_or-insert}
use r2r_jev.Governance.{Admission}
use r2r_jev.Governance.Observe.{observe_judgment}
use r2r_jev.Store.{
  DomainKey, key_eq, key_eq_iff, domain_key_eq, new_key, ReplayObservation, StoredEvent,
}
use r2r_jev.Store.Memory.{
  MemoryEventStore, memory, state_version, state_counter, current_state_version, next_event_id,
  record_event, find_decision, next_decision_id, record_decision, next_outcome_id,
  record_outcome as store_outcome,
}
use r2r_jev.Store.Memory.Versions.{advance_state_version_exact, advance_state_version_frame}
use r2r_jev.Schema.{
  ObserveParams, ObserveResponse, DecideParams, RecordOutcomeParams, RecordOutcomeResponse,
}
use r2r_jev.Runtime.{
  DomainRuntime, new_domain, GovernanceRuntime, domain_of, context_of, judgment_of,
}
use r2r_jev.Runtime.Decide.{known, decide, record_outcome}
use r2r_jev.Runtime.Observe.{
  DomainObservation, key_of, version_after, store_observation, stored_event, observe,
}
use r2r_jev.Runtime.Answers.{observe-eq_ok}
use r2r_jev.Runtime.Replay.{counted}
use r2r_jev.Runtime.Log.{Log, fresh, logged, IsLogged}
use r2r_jev.Runtime.Log.Seen.{Seen, observe_domain-Seen, diverges_self}

-- What `version_after` does to the store.
record Versioned (store : MemoryEventStore) (key : DomainKey) (m : ℕ) (version : String)
    (after : MemoryEventStore) : Type 0 where
  printed : version ≡ state_version m
  events_kept : after.events ≡ store.events
  counters :
      (k : DomainKey) → state_counter after k ≡ (if key_eq key k then m else state_counter store k)

version_after-Versioned :
    (store : MemoryEventStore) (key : DomainKey) (outcome : Admission)
    → Versioned store key
        (counted outcome (state_counter store key))
        (version_after memory store key outcome).0
        (version_after memory store key outcome).1
unfolding version_after
version_after-Versioned store key outcome = elim (Bool-cases (is_empty outcome.relation_changes)) [
  | inl same ↦ rw same (record {
    printed = unfold current_state_version in refl;
    events_kept = refl;
    counters = λ k. ground (arith, key_eq_iff key k);
  })
  | inr changed ↦
      let (printed, counters) = advance_state_version_exact store key in
      rw changed (record {
        printed = printed;
        events_kept =
            ap (λ (s : MemoryEventStore). s.events) (advance_state_version_frame store key);
        counters = counters;
      })
]

store_observation-IsLogged :
    (params : ObserveParams) (seen : DomainObservation) (rt : GovernanceRuntime MemoryEventStore)
    → IsLogged rt
    → Seen params (domain_of rt (key_of params)) seen
    → IsLogged (store_observation memory params seen rt).1
unfolding store_observation record_event next_event_id state_counter
store_observation-IsLogged params seen rt log saw =
    let key = key_of params in
    let m : ℕ = counted seen.outcome (state_counter rt.store key) in
    let v = version_after-Versioned rt.store key seen.outcome in
    let (version, versioned) = version_after memory rt.store key seen.outcome in
    let e : StoredEvent = stored_event params seen (next_event_id versioned).0 version in
    logged e seen.domain m log
      (record {
        input = seen.replay_observation;
        context = saw.context;
        outcome = seen.outcome;
        has_input = refl;
        policy = ap (λ (i : ReplayObservation). i.admission_policy_version) saw.input;
        context_ok = ap (λ (i : ReplayObservation). context_of i) saw.input ∙ saw.context_ok;
        observed =
            ap
              (λ (i : ReplayObservation).
                observe_judgment (judgment_of key i) saw.context (domain_of rt key).governance)
              saw.input
            ∙ saw.observed;
        domain = saw.domain;
        version = refl;
        agrees = diverges_self e seen.outcome (state_version m) refl v.printed refl;
      })
      (ap (λ (es : List StoredEvent). es ++ e ∷ []) v.events_kept)
      (λ k. get_or-insert key k seen.domain new_domain rt.domains) (v.counters)

pub observe-IsLogged :
    (params : ObserveParams) (rt rt' : GovernanceRuntime MemoryEventStore) (a : ObserveResponse)
    → IsLogged rt
    → observe memory params rt ≡ ok (a, rt')
    → IsLogged rt'
observe-IsLogged params rt rt' a log h =
    let (seen, saw, done) = observe-eq_ok params rt h in
    subst (λ (r : ObserveResponse × GovernanceRuntime MemoryEventStore). IsLogged r.1) (sym done)
      (store_observation-IsLogged params seen rt log
        (observe_domain-Seen params (domain_of rt (key_of params)) seen saw))

-- The log reads the domains and the versions key by key.
Log-ext :
    {events : List StoredEvent} {domains domains' : DomainKey → DomainRuntime}
    {versions versions' : DomainKey → ℕ}
    → Log events domains versions
    → ((k : DomainKey) → domains' k ≡ domains k)
    → ((k : DomainKey) → versions' k ≡ versions k)
    → Log events domains' versions'
Log-ext (fresh d n) p q = fresh (λ k. p k ∙ d k) (λ k. q k ∙ n k)
Log-ext (logged e after m log f longer d n) p q =
    logged e after m log f longer (λ k. p k ∙ d k) (λ k. q k ∙ n k)

pub decide-IsLogged :
    (params : DecideParams) (rt : GovernanceRuntime MemoryEventStore)
    → IsLogged rt
    → IsLogged (decide memory params rt).1
unfolding decide record_decision next_decision_id state_counter
decide-IsLogged params rt log =
    let key = new_key params.subject params.scope in
    Log-ext log
      (λ k.
        ground
          (arith, get_or-insert key k (domain_of rt key) new_domain rt.domains, key_eq_iff key k))
      (λ k. refl)

pub record_outcome-IsLogged :
    (params : RecordOutcomeParams) (rt rt' : GovernanceRuntime MemoryEventStore)
    (a : RecordOutcomeResponse)
    → IsLogged rt
    → record_outcome memory params rt ≡ ok (a, rt')
    → IsLogged rt'
unfolding record_outcome store_outcome next_outcome_id state_counter
record_outcome-IsLogged params rt rt' a log h =
    let (found, known_id, done) =
      >>=-eq-ok (known params.decision_id (find_decision rt.store params.decision_id)) _ h in
    subst (λ (r : RecordOutcomeResponse × GovernanceRuntime MemoryEventStore). IsLogged r.1)
      (ok-injective done) log
