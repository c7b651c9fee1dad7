-- ===== src/Runtime/Observe.antt =====
-- src/mcp/server.rs: `observe`. Its only `Err` comes before any write, so that an error leaves the
-- runtime as it was.
use r2r_jev.Prelude.{
  String, List, [], ◌∷◌, ◌||◌, Result, ok, err, ◌>>=◌, ltb, drop, length, is_empty, inc64, map,
  some, if◌then◌else◌,
}
use r2r_jev.Prelude.Assoc.{insert}
use r2r_jev.Prelude.Format.{format}
use r2r_jev.Model.{JudgmentObserved}
use r2r_jev.Admission.{AdmissionContext, demo_context, policy_version, ppm, kind_as_str, render}
use r2r_jev.Governance.{Admission, EvidenceAdmissionRecord, Governance}
use r2r_jev.Governance.Observe.{observe_judgment}
use r2r_jev.Store.{DomainKey, domain_key_eq, new_key, ReplayObservation, StoredEvent, EventStore}
use r2r_jev.Schema.{ObserveParams, ObserveResponse, AdmissionSummary}
use r2r_jev.Runtime.{
  DomainRuntime, GovernanceRuntime, domain_of, governing_after, render_relation_change,
}

abbrev pub key_of : ObserveParams → DomainKey
key_of params = new_key params.subject params.scope

abbrev pub observed_judgment : ObserveParams → JudgmentObserved
observed_judgment params = record {
  provider = params.provider;
  subject = params.subject;
  scope = params.scope;
  task = params.task;
  tool = params.action;
  intent = params.intent;
  beyond_scope_ppm = params.beyond_scope_ppm;
  destructive_ppm = params.destructive_ppm;
}

abbrev pub replay_observation_of : ObserveParams → AdmissionContext → ReplayObservation
replay_observation_of params context = record {
  provider = params.provider;
  task = params.task;
  action = params.action;
  intent = params.intent;
  beyond_scope_ppm = params.beyond_scope_ppm;
  destructive_ppm = params.destructive_ppm;
  source_reliability_ppm = context.source_reliability_ppm;
  independent_corroborators = context.independent_corroborators;
  now_vtick = context.now_vtick;
  expires_vtick = context.expires_vtick;
  admission_policy_version = policy_version;
}

-- What the block over the domain hands on.
pub record DomainObservation : Type 0 where
  pub outcome : Admission
  pub kernel_provenance : List String
  pub replay_observation : ReplayObservation
  pub domain : DomainRuntime

abbrev pub seen_of :
    ObserveParams → DomainRuntime → AdmissionContext → Admission × Governance → DomainObservation
seen_of params domain context (outcome, governance) = record {
  outcome = outcome;
  kernel_provenance = drop (length domain.governance.provenance) governance.provenance;
  replay_observation = replay_observation_of params context;
  domain = record {
    governance = governance;
    next_vtick = inc64 domain.next_vtick;
    projected_decision = outcome.decision;
    governing_authorization =
        governing_after outcome.relation_changes domain.governing_authorization;
  };
}

-- The block that borrows the domain.
unfoldable pub observe_domain : ObserveParams → DomainRuntime → Result DomainObservation
observe_domain params domain = do
  context ← demo_context domain.next_vtick
  result ← observe_judgment (observed_judgment params) context domain.governance
  ok (seen_of params domain context result)

abbrev pub summary_of : EvidenceAdmissionRecord → AdmissionSummary
summary_of evidence = record {
  evidence_id = evidence.id;
  kind = kind_as_str evidence.kind;
  confidence_ppm = evidence.confidence_ppm;
  admission = render evidence.decision;
  policy_version = evidence.policy_version;
}

-- The event that is recorded under an id and a version.
abbrev pub stored_event : ObserveParams → DomainObservation → String → String → StoredEvent
stored_event params seen event_id version =
    let key = key_of params in
    let header = format (
      event_id ∷ " [kernel_event=" ∷ seen.outcome.event_id ∷ " domain=" ∷ key.subject ∷ "/"
      ∷ key.scope ∷ "]" ∷ []) in
    record {
      event_id = event_id;
      kernel_event_id = seen.outcome.event_id;
      domain = key;
      action = params.action;
      state_version = version;
      relation_transitions = map render_relation_change seen.outcome.relation_changes;
      provenance = header ∷ seen.kernel_provenance;
      replay_observation = some seen.replay_observation;
    }

module _ {S : Type 0} (store_ops : EventStore S) where
  open store_ops use {current_state_version, advance_state_version, next_event_id, record_event}

  -- The version of the event: a new one if relations changed.
  unfoldable pub version_after : S → DomainKey → Admission → String × S
  version_after store key outcome =
      if is_empty outcome.relation_changes
      then (current_state_version store key, store)
      else advance_state_version store key

  -- What follows the block: the version, the event id and the record.
  unfoldable pub store_observation :
      ObserveParams
      → DomainObservation
      → GovernanceRuntime S
      → ObserveResponse × GovernanceRuntime S
  unfolding version_after
  store_observation params seen rt =
      let key = key_of params in
      let (version, versioned) = version_after rt.store key seen.outcome in
      let (event_id, numbered) = next_event_id versioned in
      let transitions = map render_relation_change seen.outcome.relation_changes in
      let stored = record_event numbered (stored_event params seen event_id version) in
      (
        record {
          event_id = event_id;
          admissions = map summary_of seen.outcome.evidence;
          relation_transitions = transitions;
          state_version = version;
        },
        record { domains = insert key seen.domain rt.domains; store = stored },
      )

  unfoldable pub observe :
      ObserveParams → GovernanceRuntime S → Result (ObserveResponse × GovernanceRuntime S)
  observe params rt =
      if ltb ppm params.beyond_scope_ppm || ltb ppm params.destructive_ppm
      then err "confidence_ppm must be in 0..=1000000"
      else do
        seen ← observe_domain params (domain_of rt (key_of params))
        ok (store_observation params seen rt)
