-- ===== src/Runtime/Verdict.antt =====
-- src/mcp/server.rs: the verdicts of `decide`, against the requests that the server has taken.
pub mod Calls
pub mod Domains
use r2r_jev.Prelude.{
  ℕ, ◌+◌, ◌<◌, ◌≤◌, ◌^◌, ◌%◌, String, List, [], ◌∷◌, Bool, true, false, ◌&&◌, ◌||◌, ◌≡◌, ◌↔◌, refl,
  sym, ap, subst, ◌∙◌, arith, Result, ok, err, panic, ◌>>=◌, >>=-eq-ok, ok-injective, length, leb,
  ltb, Bool-cases, inl, inr, if◌then◌else◌,
}
use r2r_jev.Prelude.Assoc.{get_or-insert, get_or, lookup}
use r2r_jev.Admission.{ppm, strong_confidence, admit_in_range, is_accepted}
use r2r_jev.Model.{JudgmentObserved}
use r2r_jev.Governance.{Decision, GovernanceState, allow, deny, is_suspended, AuthorizationPhase}
use r2r_jev.Governance.Effect.{observed, accepts, observed-state, observed-decision}
use r2r_jev.Governance.Trace.{suspended-protect}
use r2r_jev.Store.{DomainKey, key_eq, key_eq_iff, domain_key_eq, new_key}
use r2r_jev.Store.Memory.{MemoryEventStore, memory, find_decision}
use r2r_jev.Schema.{ObserveParams, DecideParams, RecordOutcomeParams, RecordOutcomeResponse}
use r2r_jev.Runtime.{DomainRuntime, new_domain, GovernanceRuntime, domain_of}
use r2r_jev.Runtime.Answers.{demo, seen_at, observe_domain-eq_ok, observe-answers, observe-refuses}
use r2r_jev.Runtime.Observe.{key_of, observed_judgment, store_observation, observe}
use r2r_jev.Runtime.Decide.{verdict_of, decide, record_outcome, known}
use r2r_jev.Runtime.Server as S
use r2r_jev.Runtime.Server.{
  Server, serving, poisoned, Request, call, call_all, handler, with_runtime, Response,
  after_handler,
}
use r2r_jev.Runtime.Audit.Calls.{wrapped, unchanged}
use r2r_jev.Runtime.Log.Handlers.{Ticks}

-- Whether an observation is accepted evidence under the demonstration context: its two scores are
-- in range and one of them is strong.
abbrev pub strong_evidence : ObserveParams → Bool
strong_evidence params =
    (leb params.beyond_scope_ppm ppm && leb params.destructive_ppm ppm)
    && (leb strong_confidence params.beyond_scope_ppm
        || leb strong_confidence params.destructive_ppm)

-- Whether a request suspends the authorization of a domain.
abbrev pub suspends : DomainKey → Request → Bool
suspends key (S.observe params) = key_eq (key_of params) key && strong_evidence params
suspends key (S.decide params) = false
suspends key (S.explain params) = false
suspends key (S.record_outcome params) = false
suspends key (S.replay params) = false

abbrev pub any_suspends : DomainKey → List Request → Bool
any_suspends key [] = false
any_suspends key (request ∷ rest) = suspends key request || any_suspends key rest

abbrev pub verdict_if : Bool → Decision
verdict_if false = allow
verdict_if true = deny

-- The domain is suspended, or not, and its cached decision says so.
pub record Stands (suspended : Bool) (domain : DomainRuntime) : Type 0 where
  pub state : is_suspended domain.governance.state.authorization ≡ suspended
  pub cached : domain.projected_decision ≡ verdict_if suspended

accepts-demo :
    (j : JudgmentObserved) (v : ℕ)
    → v + 10 < 2 ^ 64
    → accepts j (demo v)
      ≡ (leb strong_confidence j.beyond_scope_ppm || leb strong_confidence j.destructive_ppm)
unfolding admit_in_range is_accepted
accepts-demo j v h = ground arith

cached-of_state :
    (d : Decision) (a : AuthorizationPhase) (b : Bool)
    → (d ≡ allow) ↔ (a ≡ AuthorizationPhase.active)
    → is_suspended a ≡ b
    → d ≡ verdict_if b
cached-of_state d a b h k = ground arith

pub seen_at-Stands :
    (params : ObserveParams) (domain : DomainRuntime) (b : Bool)
    → domain.next_vtick + 10 < 2 ^ 64
    → Stands b domain
    → Stands
        (b
          || (leb strong_confidence params.beyond_scope_ppm
              || leb strong_confidence params.destructive_ppm))
        (seen_at params domain).domain
seen_at-Stands params domain b bound stands =
    let j = observed_judgment params in
    let x = demo domain.next_vtick in
    let state =
      ap (λ (s : GovernanceState). is_suspended s.authorization)
        (observed-state j x domain.governance)
      ∙ suspended-protect (accepts j x) domain.governance.state
      ∙ rw (accepts-demo j domain.next_vtick bound) (rw stands.state refl) in
    record {
      state = state;
      cached = cached-of_state _ _ _ (observed-decision j x domain.governance) state;
    }
