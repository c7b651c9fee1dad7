-- ===== src/Runtime/Audit.antt =====
-- src/mcp/server.rs: the store is an audit log. No call takes a record out of it or changes one.
pub mod Calls
pub mod Decisions
use r2r_jev.Prelude.{
  ℕ, ◌+◌, ◌<◌, ◌≤◌, ◌^◌, String, List, [], ◌∷◌, ◌++◌, some, true, false, ◌≡◌, refl, sym, ap, subst,
  ◌∙◌, arith, Result, ok, err, panic, >>=-eq-ok, ok-injective, ltb, ◌||◌, Bool-cases, inl, inr,
  is_empty, inc64, inc64-eq_add, ◌%◌, Option, none, find,
}
use r2r_jev.Store.{DomainKey, StoredEvent, StoredDecision, StoredOutcome, new_key}
use r2r_jev.Store.Memory.{
  MemoryEventStore, memory, find_decision, next_event_id, record_event, next_decision_id,
  record_decision, next_outcome_id, record_outcome as store_outcome, advance_state_version,
}
use r2r_jev.Store.Memory.Versions.{advance_state_version_frame}
use r2r_jev.Store.Memory.Numbering.{
  Numbered, Numbered-weaken, IsNumbered, with_decision, with_event, with_outcome,
  with_decision-IsNumbered, with_event-IsNumbered, with_outcome-IsNumbered,
}
use r2r_jev.Schema.{
  ObserveParams, ObserveResponse, DecideParams, RecordOutcomeParams, RecordOutcomeResponse,
}
use r2r_jev.Governance.{Admission}
use r2r_jev.Runtime.{GovernanceRuntime, domain_of}
use r2r_jev.Runtime.Observe.{DomainObservation, key_of, version_after, store_observation, observe}
use r2r_jev.Runtime.Answers.{observe-eq_ok}
use r2r_jev.Runtime.Decide.{known, decide, record_outcome}

-- No counter of the store is at its bound.
pub record Room (s : MemoryEventStore) : Type 0 where
  pub event : s.event_counter + 1 < 2 ^ 64
  pub decision : s.decision_counter + 1 < 2 ^ 64
  pub outcome : s.outcome_counter + 1 < 2 ^ 64

-- How one call may change the store.
pub record Grown (s s' : MemoryEventStore) : Type 0 where
  pub events : (xs : List StoredEvent) × (s'.events ≡ s.events ++ xs)
  pub decisions : (xs : List StoredDecision) × (s'.decisions ≡ s.decisions ++ xs)
  pub outcomes : (xs : List StoredOutcome) × (s'.outcomes ≡ s.outcomes ++ xs)
  pub numbered : Room s → IsNumbered s → IsNumbered s'
  pub event_counter : s'.event_counter ≤ s.event_counter + 1
  pub decision_counter : s'.decision_counter ≤ s.decision_counter + 1
  pub outcome_counter : s'.outcome_counter ≤ s.outcome_counter + 1

append_none {ℓ} : {A : Type ℓ} (xs : List A) → xs ≡ xs ++ []
append_none [] = refl
append_none (x ∷ xs) = ap (λ ys. x ∷ ys) (append_none xs)

inc64-le : (n : ℕ) → inc64 n ≤ n + 1
unfolding inc64
inc64-le n = omega arith

pub Grown-refl : (s : MemoryEventStore) → Grown s s
Grown-refl s = record {
  events = ([], append_none s.events);
  decisions = ([], append_none s.decisions);
  outcomes = ([], append_none s.outcomes);
  numbered = λ room w. w;
  event_counter = omega arith;
  decision_counter = omega arith;
  outcome_counter = omega arith;
}

with_decision-Grown :
    (s : MemoryEventStore) (d : StoredDecision)
    → d.decision_id ≡ (next_decision_id s).0
    → Grown s (with_decision s d)
unfolding record_decision next_decision_id
with_decision-Grown s d h = record {
  events = ([], append_none s.events);
  decisions = (d ∷ [], refl);
  outcomes = ([], append_none s.outcomes);
  numbered = λ room w. with_decision-IsNumbered s d room.decision h w;
  event_counter = omega arith;
  decision_counter = inc64-le s.decision_counter;
  outcome_counter = omega arith;
}

with_outcome-Grown :
    (s : MemoryEventStore) (o : StoredOutcome)
    → o.outcome_id ≡ (next_outcome_id s).0
    → Grown s (with_outcome s o)
unfolding store_outcome next_outcome_id
with_outcome-Grown s o h = record {
  events = ([], append_none s.events);
  decisions = ([], append_none s.decisions);
  outcomes = (o ∷ [], refl);
  numbered = λ room w. with_outcome-IsNumbered s o room.outcome h w;
  event_counter = omega arith;
  decision_counter = omega arith;
  outcome_counter = inc64-le s.outcome_counter;
}

with_event-Grown :
    (s : MemoryEventStore) (e : StoredEvent)
    → e.event_id ≡ (next_event_id s).0
    → Grown s (with_event s e)
unfolding record_event next_event_id
with_event-Grown s e h = record {
  events = (e ∷ [], refl);
  decisions = ([], append_none s.decisions);
  outcomes = ([], append_none s.outcomes);
  numbered = λ room w. with_event-IsNumbered s e room.event h w;
  event_counter = inc64-le s.event_counter;
  decision_counter = omega arith;
  outcome_counter = omega arith;
}

-- State versions are not records: changing them alone changes nothing here.
Grown-versions :
    (s t u : MemoryEventStore)
    → t ≡ record s { state_versions = t.state_versions }
    → Grown t u
    → Grown s u
Grown-versions s t u same g =
    let on_events : t.events ≡ s.events = ap (λ (x : MemoryEventStore). x.events) same in
    let on_decisions : t.decisions ≡ s.decisions =
      ap (λ (x : MemoryEventStore). x.decisions) same in
    let on_outcomes : t.outcomes ≡ s.outcomes = ap (λ (x : MemoryEventStore). x.outcomes) same in
    let e : t.event_counter ≡ s.event_counter =
      ap (λ (x : MemoryEventStore). x.event_counter) same in
    let d : t.decision_counter ≡ s.decision_counter =
      ap (λ (x : MemoryEventStore). x.decision_counter) same in
    let o : t.outcome_counter ≡ s.outcome_counter =
      ap (λ (x : MemoryEventStore). x.outcome_counter) same in
    record {
      events = (g.events.0, rw on_events at g.events.1);
      decisions = (g.decisions.0, rw on_decisions at g.decisions.1);
      outcomes = (g.outcomes.0, rw on_outcomes at g.outcomes.1);
      numbered = λ room w.
          g.numbered
            (record {
              event = omega (arith, e, room.event);
              decision = omega (arith, d, room.decision);
              outcome = omega (arith, o, room.outcome);
            })
            (subst IsNumbered (sym same)
              (record { events = w.events; decisions = w.decisions; outcomes = w.outcomes }));
      event_counter = omega (arith, e, g.event_counter);
      decision_counter = omega (arith, d, g.decision_counter);
      outcome_counter = omega (arith, o, g.outcome_counter);
    }

version_after_frame :
    (s : MemoryEventStore) (key : DomainKey) (outcome : Admission)
    → let t = (version_after memory s key outcome).1 in
      t ≡ record s { state_versions = t.state_versions }
unfolding version_after
version_after_frame s key outcome = elim (Bool-cases (is_empty outcome.relation_changes)) [
  | inl same ↦ rw same refl
  | inr changed ↦ rw changed (advance_state_version_frame s key)
]

pub store_observation-Grown :
    (params : ObserveParams) (seen : DomainObservation) (rt : GovernanceRuntime MemoryEventStore)
    → Grown rt.store (store_observation memory params seen rt).1.store
unfolding store_observation
store_observation-Grown params seen rt =
    let t = (version_after memory rt.store (key_of params) seen.outcome).1 in
    Grown-versions rt.store t _ (version_after_frame rt.store (key_of params) seen.outcome)
      (with_event-Grown t _ refl)

pub decide-Grown :
    (params : DecideParams) (rt : GovernanceRuntime MemoryEventStore)
    → Grown rt.store (decide memory params rt).1.store
unfolding decide
decide-Grown params rt = with_decision-Grown rt.store _ refl

pub observe-Grown :
    (params : ObserveParams) (rt : GovernanceRuntime MemoryEventStore)
    {r : ObserveResponse × GovernanceRuntime MemoryEventStore}
    → observe memory params rt ≡ ok r
    → Grown rt.store r.1.store
observe-Grown params rt h =
    let (seen, saw, done) = observe-eq_ok params rt h in
    subst (λ (r : ObserveResponse × GovernanceRuntime MemoryEventStore). Grown rt.store r.1.store)
      (sym done) (store_observation-Grown params seen rt)

pub record_outcome-Grown :
    (params : RecordOutcomeParams) (rt : GovernanceRuntime MemoryEventStore)
    {r : RecordOutcomeResponse × GovernanceRuntime MemoryEventStore}
    → record_outcome memory params rt ≡ ok r
    → Grown rt.store r.1.store
unfolding record_outcome
record_outcome-Grown params rt h =
    let (found, known_id, done) =
      >>=-eq-ok (known params.decision_id (find_decision rt.store params.decision_id)) _ h in
    subst
      (λ (r : RecordOutcomeResponse × GovernanceRuntime MemoryEventStore). Grown rt.store r.1.store)
      (ok-injective done) (with_outcome-Grown rt.store _ refl)
