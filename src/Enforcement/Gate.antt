-- ===== src/Enforcement/Gate.antt =====
-- src/enforcement.rs: what the gate lets through, over any store.
use r2r_jev.Prelude.{
  String, Option, none, some, true, ◌≡◌, ◌↔◌, subst, ◌∙◌, ap, refl, arith, ok, >>=-eq-ok,
  ok-injective, eq_iff,
}
use r2r_jev.Store.{EventStore, StoredDecision}
use r2r_jev.Enforcement.{
  ExecutionBindingRequest, ExecutionBindingResult, validate_decision, validate_found,
  validate_execution,
}

-- The five conditions under which an action may be executed now.
pub record Executable {S : Type 0} (store_ops : EventStore S) (store : S)
    (request : ExecutionBindingRequest) : Type 0 where
  pub found : StoredDecision
  pub exists : store_ops.decision store request.decision_id ≡ some found
  pub verdict : found.verdict ≡ "ALLOW"
  pub action : found.action ≡ request.action
  pub expected : found.state_version ≡ request.expected_state_version
  pub current : store_ops.current_state_version store found.domain ≡ found.state_version

validate_decision_lem :
    (request : ExecutionBindingRequest) (d : StoredDecision) (current : String)
    → ((validate_decision request d current).allowed ≡ true) ↔ (
        (d.verdict ≡ "ALLOW")
        × (d.action ≡ request.action)
        × (d.state_version ≡ request.expected_state_version)
        × (current ≡ d.state_version))
unfolding validate_decision
validate_decision_lem request d current = ground (
  arith,
  eq_iff d.verdict "ALLOW",
  eq_iff d.action request.action,
  eq_iff d.state_version request.expected_state_version,
  eq_iff current d.state_version,
)

module _ {S : Type 0} (store_ops : EventStore S) where
  validate_found_lem :
      (store : S) (request : ExecutionBindingRequest) (o : Option StoredDecision)
      → store_ops.decision store request.decision_id ≡ o
      → ((validate_found store_ops store request o).allowed ≡ true)
        ↔ Executable store_ops store request
  validate_found_lem store request none h = (λ a. absurd (cc a), λ e. absurd (cc (h, e.exists)))
  validate_found_lem store request (some d) h =
      let (to, from) =
        validate_decision_lem request d (store_ops.current_state_version store d.domain) in
      (
        λ a.
            let (v, b, e, c) = to a in
            record { found = d; exists = h; verdict = v; action = b; expected = e; current = c },
        λ e.
            let same : e.found ≡ d = cc (h, e.exists) in
            from (
              cc (same, e.verdict),
              cc (same, e.action),
              cc (same, e.expected),
              subst
                  (λ (f : StoredDecision).
                    store_ops.current_state_version store f.domain ≡ f.state_version)
                  same e.current,
            ),
      )

  -- Over a healthy store the gate returns, and it allows the action exactly if the decision exists,
  -- was to allow, was about this action and was made at the version that the request presents and
  -- that is still the current one of the domain.
  pub validate_execution_exact :
      (store : S) (request : ExecutionBindingRequest)
      → store_ops.health store ≡ ok tt
      → (result : ExecutionBindingResult) × (validate_execution store_ops store request ≡ ok result)
        × ((result.allowed ≡ true) ↔ Executable store_ops store request)
  unfolding validate_execution
  validate_execution_exact store request healthy = (
    validate_found store_ops store request (store_ops.decision store request.decision_id),
    rw healthy refl,
    validate_found_lem store request _ refl,
  )

  -- What is left of the conditions for the action and the version of the decision itself.
  pub Executable-found :
      (store : S) (request : ExecutionBindingRequest) (d : StoredDecision)
      → store_ops.decision store request.decision_id ≡ some d
      → d.action ≡ request.action
      → d.state_version ≡ request.expected_state_version
      → Executable store_ops store request ↔ (
          (d.verdict ≡ "ALLOW")
          × (store_ops.current_state_version store d.domain ≡ d.state_version))
  Executable-found store request d h a v = (
    λ e.
        let same : e.found ≡ d = cc (h, e.exists) in
        (
          cc (same, e.verdict),
          subst
              (λ (f : StoredDecision).
                store_ops.current_state_version store f.domain ≡ f.state_version)
              same e.current,
        ),
    λ b. record { found = d; exists = h; verdict = b.0; action = a; expected = v; current = b.1 },
  )

  -- If the gate answers that an action is allowed, the store was healthy and the five conditions
  -- hold: an error of the store allows nothing.
  pub allowed-Executable :
      (store : S) (request : ExecutionBindingRequest) (result : ExecutionBindingResult)
      → validate_execution store_ops store request ≡ ok result
      → result.allowed ≡ true
      → (store_ops.health store ≡ ok tt) × Executable store_ops store request
  unfolding validate_execution
  allowed-Executable store request result h allowed =
      let found =
        validate_found store_ops store request (store_ops.decision store request.decision_id) in
      let (u, healthy, done) = >>=-eq-ok (store_ops.health store) (λ u. ok found) h in
      (
        healthy,
        (validate_found_lem store request _ refl).0
            (ap (λ (r : ExecutionBindingResult). r.allowed) (ok-injective done) ∙ allowed),
      )

  -- What the gate answers is exact, whatever the store.
  pub validated_exact :
      (store : S) (request : ExecutionBindingRequest) (result : ExecutionBindingResult)
      → validate_execution store_ops store request ≡ ok result
      → (result.allowed ≡ true) ↔ Executable store_ops store request
  unfolding validate_execution
  validated_exact store request result h =
      let found =
        validate_found store_ops store request (store_ops.decision store request.decision_id) in
      let (u, healthy, done) = >>=-eq-ok (store_ops.health store) (λ u. ok found) h in
      subst
        (λ (r : ExecutionBindingResult). (r.allowed ≡ true) ↔ Executable store_ops store request)
        (ok-injective done) (validate_found_lem store request _ refl)
