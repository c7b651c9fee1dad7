-- ===== src/Runtime/Answers.antt =====
-- src/mcp/server.rs: when a handler answers, and what it then leaves behind.
use r2r_jev.Prelude.{
  ℕ, String, ◌≡◌, refl, sym, arith, Option, none, some, Result, ok, err, ◌>>=◌, >>=-eq-ok,
  ok-injective, ◌+◌, ◌≤◌, ◌<◌, ◌^◌, ◌%◌, true, Bool-cases, inl, inr, ◌⊎◌, ltb, ◌||◌,
}
use r2r_jev.Admission.{ppm, AdmissionContext, demo_context, new_context}
use r2r_jev.Governance.Effect.{observed, observe_judgment-eq_ok}
use r2r_jev.Store.{StoredDecision}
use r2r_jev.Store.Memory.{MemoryEventStore, memory, find_decision}
use r2r_jev.Schema.{ObserveParams, ObserveResponse, RecordOutcomeParams, RecordOutcomeResponse}
use r2r_jev.Runtime.{DomainRuntime, GovernanceRuntime, domain_of}
use r2r_jev.Runtime.Observe.{
  DomainObservation, key_of, observed_judgment, observe_domain, store_observation, seen_of, observe,
}
use r2r_jev.Runtime.Decide.{known, record_outcome}

pub observe-eq_ok :
    (params : ObserveParams) (rt : GovernanceRuntime MemoryEventStore)
    {r : ObserveResponse × GovernanceRuntime MemoryEventStore}
    → observe memory params rt ≡ ok r
    → (seen : DomainObservation) × (observe_domain params (domain_of rt (key_of params)) ≡ ok seen)
      × (r ≡ store_observation memory params seen rt)
unfolding observe
observe-eq_ok params rt h =
    elim (Bool-cases (ltb ppm params.beyond_scope_ppm || ltb ppm params.destructive_ppm)) [
      | inl bad ↦ absurd (cc (rw bad at h))
      | inr fine ↦
          let (seen, saw, done) =
            >>=-eq-ok (observe_domain params (domain_of rt (key_of params))) _ (rw fine at h) in
          (seen, saw, sym (ok-injective done))
    ]

-- The demonstration context at a virtual tick.
abbrev pub demo : ℕ → AdmissionContext
demo v = record {
  source_reliability_ppm = 850000;
  independent_corroborators = 0;
  now_vtick = v;
  expires_vtick = (v + 10) % 2 ^ 64;
}

demo_context-eq_ok : (v : ℕ) → v + 10 < 2 ^ 64 → demo_context v ≡ ok (demo v)
unfolding demo_context new_context
demo_context-eq_ok v h = ground arith

-- What observing does to a domain, of scores in range.
abbrev pub seen_at : ObserveParams → DomainRuntime → DomainObservation
seen_at params domain =
    let context = demo domain.next_vtick in
    seen_of params domain context (observed (observed_judgment params) context domain.governance)

pub observe_domain-eq_ok :
    (params : ObserveParams) (domain : DomainRuntime)
    → params.beyond_scope_ppm ≤ ppm
    → params.destructive_ppm ≤ ppm
    → domain.next_vtick + 10 < 2 ^ 64
    → observe_domain params domain ≡ ok (seen_at params domain)
unfolding observe_domain
observe_domain-eq_ok params domain b d h = rw (demo_context-eq_ok domain.next_vtick h) (
    rw
      (observe_judgment-eq_ok (observed_judgment params) (demo domain.next_vtick) domain.governance
        (b, d))
      refl)

pub observe-answers :
    (params : ObserveParams) (rt : GovernanceRuntime MemoryEventStore) (seen : DomainObservation)
    → params.beyond_scope_ppm ≤ ppm
    → params.destructive_ppm ≤ ppm
    → observe_domain params (domain_of rt (key_of params)) ≡ ok seen
    → observe memory params rt ≡ ok (store_observation memory params seen rt)
unfolding observe
observe-answers params rt seen b d h = rw h (ground arith)

pub observe-refuses :
    (params : ObserveParams) (rt : GovernanceRuntime MemoryEventStore)
    → (ltb ppm params.beyond_scope_ppm || ltb ppm params.destructive_ppm) ≡ true
    → observe memory params rt ≡ err "confidence_ppm must be in 0..=1000000"
unfolding observe
observe-refuses params rt h = rw h refl

pub known-cases :
    (id : String) (o : Option StoredDecision)
    → ((e : String) × (known id o ≡ err e)) ⊎ ((d : StoredDecision) × (known id o ≡ ok d))
known-cases id none = inl (_, refl)
known-cases id (some d) = inr (d, refl)

pub known-then :
    {B : Type 0} (id : String) (o : Option StoredDecision) (f : StoredDecision → Result B)
    → ((d : StoredDecision) → (b : B) × (f d ≡ ok b))
    → ((e : String) × ((known id o >>= f) ≡ err e)) ⊎ ((b : B) × ((known id o >>= f) ≡ ok b))
known-then id none f h = inl (_, refl)
known-then id (some d) f h = inr (h d)

pub record_outcome-cases :
    (params : RecordOutcomeParams) (rt : GovernanceRuntime MemoryEventStore)
    → ((e : String) × (record_outcome memory params rt ≡ err e))
      ⊎ ((r : RecordOutcomeResponse × GovernanceRuntime MemoryEventStore) × (record_outcome memory
              params rt
            ≡ ok r))
unfolding record_outcome
record_outcome-cases params rt =
    known-then params.decision_id (find_decision rt.store params.decision_id) _ (λ d. (_, refl))
