-- ===== src/Runtime/Verdict/Calls.antt =====
-- src/mcp/server.rs: the verdict after a sequence of calls.
use r2r_jev.Prelude.{
  ℕ, ◌+◌, ◌<◌, ◌≤◌, ◌^◌, List, [], ◌∷◌, Bool, true, false, ◌||◌, ◌≡◌, refl, ap, subst, ◌∙◌, arith,
  Result, ok, err, panic, length, leb, ltb, Bool-cases, inl, inr, if◌then◌else◌,
}
use r2r_jev.Prelude.Assoc.{Assoc, get_or-insert, get_or, lookup}
use r2r_jev.Admission.{ppm, strong_confidence}
use r2r_jev.Governance.{Decision}
use r2r_jev.Store.{DomainKey, key_eq, key_eq_iff, domain_key_eq, new_key}
use r2r_jev.Store.Memory.{MemoryEventStore, memory}
use r2r_jev.Schema.{ObserveParams, DecideParams}
use r2r_jev.Runtime.{DomainRuntime, new_domain, GovernanceRuntime, domain_of}
use r2r_jev.Runtime.Answers.{seen_at, observe_domain-eq_ok, observe-answers, observe-refuses}
use r2r_jev.Runtime.Observe.{key_of, store_observation}
use r2r_jev.Runtime.Decide.{verdict_of, decide, record_outcome}
use r2r_jev.Runtime.Server as S
use r2r_jev.Runtime.Server.{
  Server, serving, poisoned, Request, call, call_all, handler, with_runtime, Response,
  after_handler,
}
use r2r_jev.Runtime.Audit.Calls.{wrapped, unchanged}
use r2r_jev.Runtime.Log.Handlers.{Ticks}
use r2r_jev.Runtime.Verdict.Domains.{record_outcome-domains, decide-domains}
use r2r_jev.Runtime.Verdict.{
  strong_evidence, suspends, any_suspends, verdict_if, Stands, seen_at-Stands,
}
use r2r_jev.Runtime.Decide.{explain}
use r2r_jev.Runtime.Replay.{replay}
use r2r_jev.Runtime.Log.{IsLogged}
use r2r_jev.Runtime.Log.Serving.{
  new_runtime, new_runtime-IsLogged, new_runtime-Ticks, new_server, call-Sound,
}

-- Each domain stands as `b` says.
abbrev Governs : (DomainKey → Bool) → GovernanceRuntime MemoryEventStore → Type 0
Governs b rt = (k : DomainKey) → Stands (b k) (domain_of rt k)

abbrev HoldsOf : (GovernanceRuntime MemoryEventStore → Type 0) → Server MemoryEventStore → Type 0
HoldsOf P (serving rt) = P rt
HoldsOf P poisoned = Unit

after_handler-Governs :
    (b : DomainKey → Bool) (o : Result (Response × GovernanceRuntime MemoryEventStore))
    (rt : GovernanceRuntime MemoryEventStore)
    → Governs b rt
    → ((a : Response) (rt' : GovernanceRuntime MemoryEventStore)
        → o ≡ ok (a, rt')
        → (k : DomainKey) → domain_of rt k ≡ domain_of rt' k)
    → HoldsOf (Governs b) (after_handler memory o rt).1
after_handler-Governs b (ok (a, rt')) rt g h = λ k. subst (Stands (b k)) (h a rt' refl k) (g k)
after_handler-Governs b (err e) rt g h = g
after_handler-Governs b panic rt g h = tt

store_observation-Governs :
    (b : DomainKey → Bool) (params : ObserveParams) (rt : GovernanceRuntime MemoryEventStore)
    → Governs b rt
    → Stands
        (strong_evidence params || b (key_of params))
        (seen_at params (domain_of rt (key_of params))).domain
    → Governs
        (λ k. suspends k (S.observe params) || b k)
        (store_observation memory params (seen_at params (domain_of rt (key_of params))) rt).1
unfolding store_observation
store_observation-Governs b params rt g seen k =
    rw
      (get_or-insert (key_of params) k (seen_at params (domain_of rt (key_of params))).domain
        new_domain rt.domains)
      (elim (Bool-cases (key_eq (key_of params) k)) [
        | inl same ↦ rw same (
            subst
              (λ (j : DomainKey).
                Stands (strong_evidence params || b j)
                  (seen_at params (domain_of rt (key_of params))).domain)
              ((key_eq_iff (key_of params) k).0 same) seen)
        | inr other ↦ rw other (g k)
      ])

in_range :
    (params : ObserveParams)
    → (ltb ppm params.beyond_scope_ppm || ltb ppm params.destructive_ppm) ≡ true
    → strong_evidence params ≡ false
in_range params h = ground arith

observe-Governs :
    (n : ℕ) (b : DomainKey → Bool) (params : ObserveParams)
    (rt : GovernanceRuntime MemoryEventStore)
    → n + 10 < 2 ^ 64
    → Ticks n rt
    → Governs b rt
    → HoldsOf
        (Governs (λ k. suspends k (S.observe params) || b k))
        (after_handler memory (handler memory (S.observe params) rt) rt).1
unfolding handler
observe-Governs n b params rt bound ticks g =
    elim (Bool-cases (ltb ppm params.beyond_scope_ppm || ltb ppm params.destructive_ppm)) [
      | inl bad ↦
          let none_of : (k : DomainKey) → b k ≡ (suspends k (S.observe params) || b k) =
            λ k. ground (arith, in_range params bad) in
          rw (observe-refuses params rt bad)
            (λ k. subst (λ c. Stands c (domain_of rt k)) (none_of k) (g k))
      | inr fine ↦
          let domain = domain_of rt (key_of params) in
          let tick = ticks (key_of params) in
          let low : params.beyond_scope_ppm ≤ ppm = ground (arith, fine) in
          let low' : params.destructive_ppm ≤ ppm = ground (arith, fine) in
          let room : domain.next_vtick + 10 < 2 ^ 64 = omega (arith, tick, bound) in
          let shown : (b (key_of params)
                || (leb strong_confidence params.beyond_scope_ppm
                    || leb strong_confidence params.destructive_ppm))
              ≡ (strong_evidence params || b (key_of params)) =
            ground (arith, low, low') in
          rw
            (observe-answers params rt (seen_at params domain) low low'
              (observe_domain-eq_ok params domain low low' room))
            (store_observation-Governs b params rt g (
              subst (λ c. Stands c (seen_at params domain).domain) shown
                (seen_at-Stands params domain (b (key_of params)) room (g (key_of params)))))
    ]

call-Governs :
    (n : ℕ) (b : DomainKey → Bool) (request : Request) (rt : GovernanceRuntime MemoryEventStore)
    → n + 10 < 2 ^ 64
    → Ticks n rt
    → Governs b rt
    → HoldsOf (Governs (λ k. suspends k request || b k)) (call memory request (serving rt)).1
unfolding call with_runtime handler
call-Governs n b (S.observe params) rt bound ticks g = observe-Governs n b params rt bound ticks g
call-Governs n b (S.decide params) rt bound ticks g =
    λ k. subst (Stands (b k)) (decide-domains memory params rt k) (g k)
call-Governs n b (S.explain params) rt bound ticks g =
    after_handler-Governs b (handler memory (S.explain params) rt) rt g (λ a rt' h k.
      ap (λ (u : GovernanceRuntime MemoryEventStore). domain_of u k)
        (unchanged (explain memory params rt) S.explained rt a rt' h))
call-Governs n b (S.record_outcome params) rt bound ticks g =
    after_handler-Governs b (handler memory (S.record_outcome params) rt) rt g (λ a rt' h k.
      ap (λ (m : Assoc DomainKey DomainRuntime). get_or k new_domain m)
        (record_outcome-domains memory params rt rt' _
          (wrapped (record_outcome memory params rt) S.outcome_recorded a rt' h).1))
call-Governs n b (S.replay params) rt bound ticks g =
    after_handler-Governs b (handler memory (S.replay params) rt) rt g (λ a rt' h k.
      ap (λ (u : GovernanceRuntime MemoryEventStore). domain_of u k)
        (unchanged (replay memory params rt) S.replayed rt a rt' h))

or_swap : (x y z : Bool) → (y || (x || z)) ≡ ((x || y) || z)
or_swap x y z = ground arith

call_all-Governs :
    (n : ℕ) (b : DomainKey → Bool) (requests : List Request)
    (rt : GovernanceRuntime MemoryEventStore)
    → n + length requests + 10 < 2 ^ 64
    → IsLogged rt
    → Ticks n rt
    → Governs b rt
    → (rt' : GovernanceRuntime MemoryEventStore) × (call_all memory requests (serving rt)
        ≡ serving rt')
      × Governs (λ k. any_suspends k requests || b k) rt'
unfolding call_all
call_all-Governs n b [] rt bound log ticks g = (rt, refl, g)
call_all-Governs n b (request ∷ rest) rt bound log ticks g =
    let small : n + 10 < 2 ^ 64 = omega (arith, bound) in
    let (mid, same, log', ticks') =
      call-Sound n request (serving rt) small (rt, refl, log, ticks) in
    let g' : Governs (λ k. suspends k request || b k) mid =
      subst (HoldsOf (Governs (λ k. suspends k request || b k))) same
        (call-Governs n b request rt small ticks g) in
    let (rt', serves, last) =
      call_all-Governs (n + 1) (λ k. suspends k request || b k) rest mid (omega (arith, bound)) log'
        ticks' g' in
    (
      rt',
      ap (call_all memory rest) same ∙ serves,
      λ k.
          subst (λ c. Stands c (domain_of rt' k))
            (or_swap (suspends k request) (any_suspends k rest) (b k)) (last k),
    )

new_runtime-Governs : Governs (λ k. false) new_runtime
unfolding get_or lookup
new_runtime-Governs k = record { state = refl; cached = refl }

verdict_shown :
    (b : Bool) (d : Decision)
    → d ≡ verdict_if (b || false)
    → verdict_of d ≡ (if b then "DENY" else "ALLOW")
verdict_shown b d h = rw h (ground arith)

-- A new server that takes any sequence of calls, short enough for its 64-bit numbers, still serves;
-- and `decide` then denies an action exactly if one of the calls observed, in the same domain,
-- evidence with scores in range of which one is strong.
pub decide-any_suspends :
    (requests : List Request) (params : DecideParams)
    → length requests + 11 < 2 ^ 64
    → (rt : GovernanceRuntime MemoryEventStore) × (call_all memory requests new_server ≡ serving rt)
      × ((decide memory params rt).0.decision ≡ (
          if any_suspends (new_key params.subject params.scope) requests then "DENY" else "ALLOW"))
unfolding decide
decide-any_suspends requests params bound =
    let key = new_key params.subject params.scope in
    let (rt, serves, g) =
      call_all-Governs 1 (λ k. false) requests new_runtime (omega (arith, bound))
        new_runtime-IsLogged new_runtime-Ticks new_runtime-Governs in
    (
      rt,
      serves,
      verdict_shown (any_suspends key requests) (domain_of rt key).projected_decision
          (g key).cached,
    )
