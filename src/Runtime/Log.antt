-- ===== src/Runtime/Log.antt =====
-- src/mcp/server.rs: what the stored events say of the domains. The log is faithful if each event
-- is what observing its input in the domain before it gives.
pub mod Handlers
pub mod Keeps
pub mod Replays
pub mod Recovers
pub mod Seen
pub mod Serving
use r2r_jev.Prelude.{ℕ, List, [], ◌∷◌, ◌++◌, some, Bool, false, ok, ◌≡◌, if◌then◌else◌}
use r2r_jev.Admission.{AdmissionContext, policy_version}
use r2r_jev.Governance.{Admission}
use r2r_jev.Governance.Observe.{observe_judgment}
use r2r_jev.Store.{DomainKey, key_eq, ReplayObservation, StoredEvent}
use r2r_jev.Store.Memory.{MemoryEventStore, state_version, state_counter}
use r2r_jev.Runtime.{
  DomainRuntime, new_domain, GovernanceRuntime, domain_of, judgment_of, context_of, diverges,
}
use r2r_jev.Runtime.Replay.{counted}
use r2r_jev.Runtime.Recover.{domain_after}

-- `event` takes its domain from `before`, with version `n`, to `after`, with version `m`.
pub record Faithful (before : DomainRuntime) (n : ℕ) (event : StoredEvent) (after : DomainRuntime)
    (m : ℕ) : Type 0 where
  pub input : ReplayObservation
  pub context : AdmissionContext
  pub outcome : Admission
  pub has_input : event.replay_observation ≡ some input
  pub policy : input.admission_policy_version ≡ policy_version
  pub context_ok : context_of input ≡ ok context
  pub observed :
      observe_judgment (judgment_of event.domain input) context before.governance
      ≡ ok (outcome, after.governance)
  pub domain : after ≡ domain_after before context (outcome, after.governance)
  pub version : m ≡ counted outcome n
  pub agrees : diverges event outcome (state_version m) ≡ false

-- The events of all domains, with the domains and the versions that they lead to.
pub data Log : List StoredEvent → (DomainKey → DomainRuntime) → (DomainKey → ℕ) → Type 0 where
  fresh :
      {domains : DomainKey → DomainRuntime} {versions : DomainKey → ℕ}
      → ((k : DomainKey) → domains k ≡ new_domain)
      → ((k : DomainKey) → versions k ≡ 0)
      → Log [] domains versions
  logged :
      {events longer : List StoredEvent} {domains domains' : DomainKey → DomainRuntime}
      {versions versions' : DomainKey → ℕ} (event : StoredEvent) (after : DomainRuntime) (m : ℕ)
      → Log events domains versions
      → Faithful (domains event.domain) (versions event.domain) event after m
      → longer ≡ events ++ event ∷ []
      → ((k : DomainKey) → domains' k ≡ (if key_eq event.domain k then after else domains k))
      → ((k : DomainKey) → versions' k ≡ (if key_eq event.domain k then m else versions k))
      → Log longer domains' versions'

-- The runtime is what its stored events say.
abbrev pub IsLogged : GovernanceRuntime MemoryEventStore → Type 0
IsLogged rt = Log rt.store.events (domain_of rt) (state_counter rt.store)
