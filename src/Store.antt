-- ===== src/Store.antt =====
-- src/store/mod.rs: the stored records, and the persistence boundary as an interface.
pub mod JsonFile
pub mod Memory
use r2r_jev.Prelude.{
  ℕ, String, List, Option, Bool, true, ◌&&◌, ◌≡◌, ◌↔◌, refl, arith, Result, ◌==◌, eq_iff,
}
use r2r_jev.Prelude.Assoc.{Eq}

pub record DomainKey : Type 0 where
  pub subject : String
  pub scope : String

abbrev pub new_key : String → String → DomainKey
new_key subject scope = record { subject = subject; scope = scope }

unfoldable pub key_eq : DomainKey → DomainKey → Bool
key_eq a b = a.subject == b.subject && a.scope == b.scope

pub key_eq_iff : (a b : DomainKey) → (key_eq a b ≡ true) ↔ (a ≡ b)
unfolding key_eq
key_eq_iff a b = ground (arith, eq_iff a.subject b.subject, eq_iff a.scope b.scope)

pub key_eq_refl : (a : DomainKey) → key_eq a a ≡ true
key_eq_refl a = (key_eq_iff a a).1 refl

instance abbrev pub domain_key_eq : Eq DomainKey
domain_key_eq = record { beq = key_eq; beq_iff = key_eq_iff }

pub record ReplayObservation : Type 0 where
  pub provider : String
  pub task : String
  pub action : String
  pub intent : String
  pub beyond_scope_ppm : ℕ
  pub destructive_ppm : ℕ
  pub source_reliability_ppm : ℕ
  pub independent_corroborators : ℕ
  pub now_vtick : ℕ
  pub expires_vtick : ℕ
  pub admission_policy_version : String

pub record StoredEvent : Type 0 where
  pub event_id : String  -- store-wide
  pub kernel_event_id : String  -- of the domain's kernel
  pub domain : DomainKey
  pub action : String
  pub state_version : String
  pub relation_transitions : List String
  pub provenance : List String
  pub replay_observation : Option ReplayObservation

pub record StoredDecision : Type 0 where
  pub decision_id : String
  pub domain : DomainKey
  pub action : String
  pub verdict : String
  pub reason_code : String
  pub governing_relation_id : Option String
  pub state_version : String
  pub provenance : List String

pub record StoredOutcome : Type 0 where
  pub outcome_id : String
  pub decision_id : String
  pub domain : DomainKey
  pub outcome : String
  pub detail : Option String
  pub state_version : String

-- `trait EventStore`. A method on `&mut self` returns the new store.
pub record EventStore (S : Type 0) : Type 0 where
  pub health : S → Result (Unit {0})
  pub current_state_version : S → DomainKey → String
  pub advance_state_version : S → DomainKey → String × S
  pub next_event_id : S → String × S
  pub record_event : S → StoredEvent → S
  pub event : S → String → Option StoredEvent
  pub events_for_domain : S → DomainKey → List StoredEvent
  pub all_events : S → List StoredEvent
  pub next_decision_id : S → String × S
  pub record_decision : S → StoredDecision → S
  pub decision : S → String → Option StoredDecision
  pub next_outcome_id : S → String × S
  pub record_outcome : S → StoredOutcome → S
  pub outcome : S → String → Option StoredOutcome
