-- ===== src/Runtime.antt =====
-- src/mcp/server.rs: the state of the control plane, and what its handlers share.
-- A domain that the map does not hold counts as a new one, as `or_insert_with` makes it.
pub mod Answers
pub mod Audit
pub mod Decide
pub mod Log
pub mod Observe
pub mod Server
pub mod Replay
pub mod Readable
pub mod Recover
pub mod Verdict
use r2r_jev.Prelude.{
  ℕ, String, List, [], ◌∷◌, Option, none, some, Bool, true, false, not, ◌&&◌, ◌||◌, Result, ◌==◌,
  ◌≡◌, ◌↔◌, refl, arith, map, eq_iff, if◌then◌else◌,
}
use r2r_jev.Prelude.Assoc.{Assoc, get_or}
use r2r_jev.Prelude.Format.{format}
use r2r_jev.Model.{JudgmentObserved}
use r2r_jev.Admission.{AdmissionContext, new_context}
use r2r_jev.Governance.{Governance, new_governance, Decision, allow, RelationChange, Admission}
use r2r_jev.Store.{DomainKey, domain_key_eq, ReplayObservation, StoredEvent}

abbrev pub rule_pack_version : String
rule_pack_version = "demo-0.1"

pub record DomainRuntime : Type 0 where
  pub governance : Governance
  pub next_vtick : ℕ  -- u64
  pub projected_decision : Decision
  pub governing_authorization : Option String

abbrev pub new_domain : DomainRuntime
new_domain = record {
  governance = new_governance;
  next_vtick = 1;
  projected_decision = allow;
  governing_authorization = none;
}

pub record GovernanceRuntime (S : Type 0) : Type 0 where
  pub domains : Assoc DomainKey DomainRuntime
  pub store : S

-- The runtime of a domain, a new one if there is none yet.
abbrev pub domain_of : {S : Type 0} → GovernanceRuntime S → DomainKey → DomainRuntime
domain_of rt key = get_or key new_domain rt.domains

abbrev pub render_relation_change : RelationChange → String
render_relation_change change =
    format (change.id ∷ ":" ∷ change.relation ∷ ":" ∷ change.transition ∷ [])

-- The loop that follows the id of the last authorization change.
unfoldable pub governing_after : List RelationChange → Option String → Option String
governing_after [] held = held
governing_after (change ∷ rest) held =
    governing_after rest (if change.relation == "Authorization" then some change.id else held)

-- The judgment and the context that a stored observation replays.
abbrev pub judgment_of : DomainKey → ReplayObservation → JudgmentObserved
judgment_of key input = record {
  provider = input.provider;
  subject = key.subject;
  scope = key.scope;
  task = input.task;
  tool = input.action;
  intent = input.intent;
  beyond_scope_ppm = input.beyond_scope_ppm;
  destructive_ppm = input.destructive_ppm;
}

abbrev pub context_of : ReplayObservation → Result AdmissionContext
context_of input =
    new_context input.source_reliability_ppm input.independent_corroborators input.now_vtick
      input.expires_vtick

-- `==` on `Vec<String>`.
unfoldable pub texts_eq : List String → List String → Bool
texts_eq [] [] = true
texts_eq [] (t ∷ ts) = false
texts_eq (s ∷ ss) [] = false
texts_eq (s ∷ ss) (t ∷ ts) = s == t && texts_eq ss ts

pub texts_eq_refl : (ss : List String) → texts_eq ss ss ≡ true
unfolding texts_eq
texts_eq_refl [] = refl
texts_eq_refl (s ∷ ss) = ground (arith, eq_iff s s, texts_eq_refl ss)

-- Whether a stored event differs from its replay, whose state version is `version`.
unfoldable pub diverges : StoredEvent → Admission → String → Bool
diverges event outcome version =
    not (event.kernel_event_id == outcome.event_id)
    || not (event.state_version == version)
    || not
        (texts_eq event.relation_transitions (map render_relation_change outcome.relation_changes))
