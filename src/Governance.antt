-- ===== src/Governance.antt =====
-- src/r2r.rs: the kernel's state, its id counters and the relation changes it reports.
-- A method that mutates `self` returns the new state beside its result.
pub mod Effect
pub mod Explain
pub mod History
pub mod Observe
pub mod Override
pub mod Trace
use r2r_jev.Prelude.{ℕ, String, List, [], ◌∷◌, Option, none, Bool, true, false, inc64}
use r2r_jev.Prelude.Decimal.{pad}
use r2r_jev.Prelude.Format.{format}
use r2r_jev.Admission.{EvidenceKind, AdmissionDecision}

pub data TrustPhase : Type 0 where
  active warning : TrustPhase

pub data DelegationPhase : Type 0 where
  active degraded : DelegationPhase

pub data AuthorizationPhase : Type 0 where
  active suspended : AuthorizationPhase

pub record Supervision : Type 0 where
  pub supervisor : String
  pub created_by : String

pub record GovernanceState : Type 0 where
  pub trust : TrustPhase
  pub delegation : DelegationPhase
  pub authorization : AuthorizationPhase
  pub supervision : Option Supervision

abbrev pub default_state : GovernanceState
default_state = record {
  trust = TrustPhase.active;
  delegation = DelegationPhase.active;
  authorization = AuthorizationPhase.active;
  supervision = none;
}

pub data Decision : Type 0 where
  allow deny : Decision

unfoldable pub decision_as_str : Decision → String
decision_as_str allow = "ALLOW"
decision_as_str deny = "DENY"

pub record EvidenceAdmissionRecord : Type 0 where
  pub id : String
  pub kind : EvidenceKind
  pub confidence_ppm : ℕ
  pub decision : AdmissionDecision
  pub policy_version : String

pub record RelationChange : Type 0 where
  pub id : String
  pub relation : String
  pub transition : String
  pub caused_by : String

-- One governance event and everything that it changed.
pub record Admission : Type 0 where
  pub event_id : String
  pub evidence : List EvidenceAdmissionRecord
  pub reason : String
  pub relation_changes : List RelationChange
  pub decision : Decision
  pub action : String

-- Each counter is a 64-bit `usize`.
pub record Counters : Type 0 where
  pub event : ℕ
  pub evidence : ℕ
  pub trust : ℕ
  pub delegation : ℕ
  pub authorization : ℕ
  pub supervision : ℕ

abbrev pub zero_counters : Counters
zero_counters = record {
  event = 0;
  evidence = 0;
  trust = 0;
  delegation = 0;
  authorization = 0;
  supervision = 0;
}

-- The kinds that callers pass as text; no call reaches the `unreachable!` of another text.
pub data IdKind : Type 0 where
  event evidence trust delegation authorization supervision : IdKind

abbrev pub id_prefix : IdKind → String
id_prefix event = "ev"
id_prefix evidence = "evidence"
id_prefix trust = "trust"
id_prefix delegation = "delegation"
id_prefix authorization = "authorization"
id_prefix supervision = "supervision"

abbrev pub count_next : IdKind → Counters → ℕ × Counters
count_next event c = let n = inc64 c.event in (n, record c { event = n })
count_next evidence c = let n = inc64 c.evidence in (n, record c { evidence = n })
count_next trust c = let n = inc64 c.trust in (n, record c { trust = n })
count_next delegation c = let n = inc64 c.delegation in (n, record c { delegation = n })
count_next authorization c = let n = inc64 c.authorization in (n, record c { authorization = n })
count_next supervision c = let n = inc64 c.supervision in (n, record c { supervision = n })

-- `{prefix}-{n:04}`
abbrev pub render_id : IdKind → ℕ → String
render_id kind n = format (id_prefix kind ∷ "-" ∷ pad 4 n ∷ [])

unfoldable pub next : IdKind → Counters → String × Counters
next kind c = let (n, c') = count_next kind c in (render_id kind n, c')

unfoldable pub new_change : IdKind → String → String → String → Counters → RelationChange × Counters
unfolding next
new_change kind relation transition caused_by c =
    let (id, c') = next kind c in
    (record { id = id; relation = relation; transition = transition; caused_by = caused_by }, c')

pub record Governance : Type 0 where
  pub state : GovernanceState
  pub counters : Counters
  pub provenance : List String
  pub governing_authorization : Option String

abbrev pub new_governance : Governance
new_governance = record {
  state = default_state;
  counters = zero_counters;
  provenance = [];
  governing_authorization = none;
}

-- `line.push_str(" -> "); line.push_str(&change.id)` for each change.
unfoldable pub push_ids : String → List RelationChange → String
push_ids line [] = line
push_ids line (change ∷ rest) = push_ids (format (line ∷ " -> " ∷ change.id ∷ [])) rest

abbrev pub is_warning : TrustPhase → Bool
is_warning TrustPhase.active = false
is_warning TrustPhase.warning = true

abbrev pub is_degraded : DelegationPhase → Bool
is_degraded DelegationPhase.active = false
is_degraded DelegationPhase.degraded = true

abbrev pub is_suspended : AuthorizationPhase → Bool
is_suspended AuthorizationPhase.active = false
is_suspended AuthorizationPhase.suspended = true
