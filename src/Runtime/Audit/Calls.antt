-- ===== src/Runtime/Audit/Calls.antt =====
-- src/mcp/server.rs: what sequences of calls do to the store.
use r2r_jev.Prelude.{
  ℕ, ◌+◌, ◌<◌, ◌≤◌, ◌^◌, String, List, [], ◌∷◌, ◌++◌, some, ◌≡◌, refl, ap, subst, ◌∙◌, arith,
  Result, ok, err, panic, find-append_some, ◌==◌, >>=-eq-ok, ◌>>=◌, ok-injective,
}
use mathlib.Core.List.{append_assoc}
use r2r_jev.Store.{StoredEvent, StoredDecision, StoredOutcome}
use r2r_jev.Store.Memory.{MemoryEventStore, memory, find_decision, new_store}
use r2r_jev.Store.Memory.Numbering.{IsNumbered}
use r2r_jev.Runtime.{GovernanceRuntime}
use r2r_jev.Runtime.Observe.{observe}
use r2r_jev.Runtime.Decide.{explain, record_outcome}
use r2r_jev.Runtime.Replay.{replay}
use r2r_jev.Runtime.Server as S
use r2r_jev.Runtime.Server.{
  Server, serving, poisoned, Request, Response, call, call_all, handler, with_runtime,
  after_handler,
}
use r2r_jev.Runtime.Audit.{Grown, Grown-refl, observe-Grown, decide-Grown, record_outcome-Grown}

-- The store of the server afterwards, if it still serves.
abbrev pub Follows :
    (MemoryEventStore → MemoryEventStore → Type 0)
    → MemoryEventStore
    → Server MemoryEventStore
    → Type 0
Follows R s (serving rt) = R s rt.store
Follows R s poisoned = Unit

after_handler-Follows :
    (o : Result (Response × GovernanceRuntime MemoryEventStore))
    (rt : GovernanceRuntime MemoryEventStore)
    → ((a : Response) (rt' : GovernanceRuntime MemoryEventStore)
        → o ≡ ok (a, rt')
        → Grown rt.store rt'.store)
    → Follows Grown rt.store (after_handler memory o rt).1
after_handler-Follows (ok (a, rt')) rt h = h a rt' refl
after_handler-Follows (err e) rt h = Grown-refl rt.store
after_handler-Follows panic rt h = tt

abbrev pub answer :
    {A S : Type 0}
    → (A → Response)
    → A × GovernanceRuntime S
    → Result (Response × GovernanceRuntime S)
answer f r = ok (f r.0, r.1)

abbrev pub answer_only :
    {A S : Type 0}
    → (A → Response)
    → GovernanceRuntime S
    → A
    → Result (Response × GovernanceRuntime S)
answer_only f rt r = ok (f r, rt)

-- The runtime of an answer is the one that the handler's own result holds.
pub wrapped :
    {A S : Type 0} (m : Result (A × GovernanceRuntime S)) (f : A → Response) (a : Response)
    (rt' : GovernanceRuntime S)
    → (m >>= answer f) ≡ ok (a, rt')
    → (b : A) × (m ≡ ok (b, rt'))
wrapped {S = S} m f a rt' h =
    let (r, same, done) = >>=-eq-ok m (answer f) h in
    let state : r.1 ≡ rt' = ap (λ (x : Response × GovernanceRuntime S). x.1) (ok-injective done) in
    (r.0, same ∙ ap (λ (u : GovernanceRuntime S). ok (r.0, u)) state)

pub unchanged :
    {A S : Type 0} (m : Result A) (f : A → Response) (rt : GovernanceRuntime S) (a : Response)
    (rt' : GovernanceRuntime S)
    → (m >>= answer_only f rt) ≡ ok (a, rt')
    → rt ≡ rt'
unchanged {S = S} m f rt a rt' h =
    let (r, same, done) = >>=-eq-ok m (answer_only f rt) h in
    ap (λ (x : Response × GovernanceRuntime S). x.1) (ok-injective done)

same-Grown : {rt rt' : GovernanceRuntime MemoryEventStore} → rt ≡ rt' → Grown rt.store rt'.store
same-Grown {rt} h =
    subst (λ (u : GovernanceRuntime MemoryEventStore). Grown rt.store u.store) h
      (Grown-refl rt.store)

handler-Grown :
    (request : Request) (rt : GovernanceRuntime MemoryEventStore) (a : Response)
    (rt' : GovernanceRuntime MemoryEventStore)
    → handler memory request rt ≡ ok (a, rt')
    → Grown rt.store rt'.store
unfolding handler
handler-Grown (S.observe params) rt a rt' h =
    observe-Grown params rt (wrapped (observe memory params rt) S.observed a rt' h).1
handler-Grown (S.decide params) rt a rt' h =
    subst (λ (x : Response × GovernanceRuntime MemoryEventStore). Grown rt.store x.1.store)
      (ok-injective h) (decide-Grown params rt)
handler-Grown (S.explain params) rt a rt' h =
    same-Grown (unchanged (explain memory params rt) S.explained rt a rt' h)
handler-Grown (S.record_outcome params) rt a rt' h =
    record_outcome-Grown params rt
      (wrapped (record_outcome memory params rt) S.outcome_recorded a rt' h).1
handler-Grown (S.replay params) rt a rt' h =
    same-Grown (unchanged (replay memory params rt) S.replayed rt a rt' h)

pub call-Follows :
    (request : Request) (rt : GovernanceRuntime MemoryEventStore)
    → Follows Grown rt.store (call memory request (serving rt)).1
unfolding call with_runtime
call-Follows request rt =
    after_handler-Follows (handler memory request rt) rt (handler-Grown request rt)

-- The lists of `s` are beginnings of those of `t`.
pub record Extends (s t : MemoryEventStore) : Type 0 where
  pub events : (xs : List StoredEvent) × (t.events ≡ s.events ++ xs)
  pub decisions : (xs : List StoredDecision) × (t.decisions ≡ s.decisions ++ xs)
  pub outcomes : (xs : List StoredOutcome) × (t.outcomes ≡ s.outcomes ++ xs)

abbrev Longer {ℓ} : {A : Type ℓ} → List A → List A → Type ℓ
Longer {A} xs ys = (zs : List A) × (ys ≡ xs ++ zs)

Longer-trans {ℓ} : {A : Type ℓ} (xs ys zs : List A) → Longer xs ys → Longer ys zs → Longer xs zs
Longer-trans xs ys zs (p, h) (q, k) = (p ++ q, k ∙ rw h (append_assoc xs p q))

Extends-trans : (s t u : MemoryEventStore) → Extends s t → Extends t u → Extends s u
Extends-trans s t u a b = record {
  events = Longer-trans s.events t.events u.events a.events b.events;
  decisions = Longer-trans s.decisions t.decisions u.decisions a.decisions b.decisions;
  outcomes = Longer-trans s.outcomes t.outcomes u.outcomes a.outcomes b.outcomes;
}

call_all-poisoned : (requests : List Request) → call_all memory requests poisoned ≡ poisoned
unfolding call_all call with_runtime
call_all-poisoned [] = refl
call_all-poisoned (request ∷ rest) = call_all-poisoned rest

Grown-Extends : {s t : MemoryEventStore} → Grown s t → Extends s t
Grown-Extends g = record { events = g.events; decisions = g.decisions; outcomes = g.outcomes }

Follows-trans :
    (s t : MemoryEventStore) (server : Server MemoryEventStore)
    → Extends s t
    → Follows Extends t server
    → Follows Extends s server
Follows-trans s t (serving rt) a b = Extends-trans s t rt.store a b
Follows-trans s t poisoned a b = tt

through :
    (rest : List Request) (s : MemoryEventStore) (middle : Server MemoryEventStore)
    → Follows Grown s middle
    → ((mid : GovernanceRuntime MemoryEventStore)
        → Follows Extends mid.store (call_all memory rest (serving mid)))
    → Follows Extends s (call_all memory rest middle)
through rest s (serving mid) g next =
    Follows-trans s mid.store (call_all memory rest (serving mid)) (Grown-Extends g) (next mid)
through rest s poisoned g next = rw (call_all-poisoned rest) tt

call_all-Follows :
    (requests : List Request) (rt : GovernanceRuntime MemoryEventStore)
    → Follows Extends rt.store (call_all memory requests (serving rt))
unfolding call_all
call_all-Follows [] rt = Grown-Extends (Grown-refl rt.store)
call_all-Follows (request ∷ rest) rt =
    through rest rt.store (call memory request (serving rt)).1 (call-Follows request rt)
      (call_all-Follows rest)

-- If a server serves `rt` and still serves, with `rt'`, after some calls: the events, the decisions
-- and the outcomes of the store then begin with those that it held, in the same order.
pub call_all-Extends :
    (requests : List Request) (rt rt' : GovernanceRuntime MemoryEventStore)
    → call_all memory requests (serving rt) ≡ serving rt'
    → Extends rt.store rt'.store
call_all-Extends requests rt rt' h =
    subst (Follows Extends rt.store) h (call_all-Follows requests rt)

-- A decision that the store finds is found after any further calls as it was.
pub find_decision-Extends :
    (s t : MemoryEventStore) (id : String) (d : StoredDecision)
    → Extends s t
    → find_decision s id ≡ some d
    → find_decision t id ≡ some d
unfolding find_decision
find_decision-Extends s t id d e h =
    rw e.decisions.1
      (find-append_some (λ x. x.decision_id == id) s.decisions e.decisions.0 {x = d} h)

-- The store's ids are numbered, and no counter is past `n`.
pub record Counted (n : ℕ) (s : MemoryEventStore) : Type 0 where
  pub numbered : IsNumbered s
  pub event : s.event_counter ≤ n
  pub decision : s.decision_counter ≤ n
  pub outcome : s.outcome_counter ≤ n

pub Grown-Counted :
    (n : ℕ) (s t : MemoryEventStore) → n + 1 < 2 ^ 64 → Grown s t → Counted n s → Counted (n + 1) t
Grown-Counted n s t b g c = record {
  numbered =
      g.numbered
        (record {
          event = omega (arith, b, c.event);
          decision = omega (arith, b, c.decision);
          outcome = omega (arith, b, c.outcome);
        })
        c.numbered;
  event = omega (arith, c.event, g.event_counter);
  decision = omega (arith, c.decision, g.decision_counter);
  outcome = omega (arith, c.outcome, g.outcome_counter);
}

pub new_store-Counted : Counted 0 new_store
new_store-Counted = record {
  numbered = record { events = tt; decisions = tt; outcomes = tt };
  event = omega arith;
  decision = omega arith;
  outcome = omega arith;
}
