-- ===== src/Schema.antt =====
-- src/mcp/schema.rs: the parameters and responses of the control plane's tools.
use r2r_jev.Prelude.{ℕ, String, List, Option, Bool}

pub record ObserveParams : Type 0 where
  pub provider : String
  pub subject : String
  pub scope : String
  pub task : String
  pub action : String
  pub intent : String
  pub beyond_scope_ppm : ℕ  -- u32
  pub destructive_ppm : ℕ  -- u32

pub record DecideParams : Type 0 where
  pub subject : String
  pub scope : String
  pub action : String
  pub resource : Option String
  pub task : Option String

pub record ExplainParams : Type 0 where
  pub decision_id : String

pub data OutcomeKind : Type 0 where
  executed blocked failed rolled_back user_corrected policy_breach_confirmed : OutcomeKind

unfoldable pub outcome_as_str : OutcomeKind → String
outcome_as_str executed = "executed"
outcome_as_str blocked = "blocked"
outcome_as_str failed = "failed"
outcome_as_str rolled_back = "rolled_back"
outcome_as_str user_corrected = "user_corrected"
outcome_as_str policy_breach_confirmed = "policy_breach_confirmed"

pub record RecordOutcomeParams : Type 0 where
  pub decision_id : String
  pub outcome : OutcomeKind
  pub detail : Option String

pub record ReplayParams : Type 0 where
  pub subject : String
  pub scope : String

pub record AdmissionSummary : Type 0 where
  pub evidence_id : String
  pub kind : String
  pub confidence_ppm : ℕ
  pub admission : String
  pub policy_version : String

pub record ObserveResponse : Type 0 where
  pub event_id : String
  pub admissions : List AdmissionSummary
  pub relation_transitions : List String
  pub state_version : String

pub record GoverningRelation : Type 0 where
  pub relation_id : String
  pub relation_type : String
  pub state : String

pub record DecideResponse : Type 0 where
  pub decision : String
  pub reason_code : String
  pub decision_id : String
  pub governing_relations : List GoverningRelation
  pub required_next_step : Option String
  pub state_version : String

pub record ExplainResponse : Type 0 where
  pub decision_id : String
  pub verdict : String
  pub reason_code : String
  pub state_version : String
  pub governing_relation_id : Option String
  pub causal_chain : List String
  pub summary : String

pub record RecordOutcomeResponse : Type 0 where
  pub outcome_id : String
  pub decision_id : String
  pub outcome : String
  pub state_version : String
  pub relation_transitions : List String

pub record ReplayResponse : Type 0 where
  pub replay_match : Bool
  pub recorded_state_version : String
  pub replayed_state_version : String
  pub replayed_events : ℕ
  pub first_divergent_event : Option String
  pub policy_versions : List String
