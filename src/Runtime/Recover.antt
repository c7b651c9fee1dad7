-- ===== src/Runtime/Recover.antt =====
-- src/mcp/server.rs: `try_with_store`, which rebuilds the domains from the stored events.
-- The order in which a `HashMap` is walked decides only which mismatch is reported first.
use r2r_jev.Prelude.{
  ℕ, max, List, [], ◌∷◌, Option, none, some, Result, ok, err, ◌>>=◌, ◌>>◌, ◌==◌, inc64, is_empty,
  if◌then◌else◌,
}
use r2r_jev.Prelude.Assoc.{Assoc, get_or, insert}
use r2r_jev.Prelude.Format.{format}
use r2r_jev.Admission.{AdmissionContext, policy_version}
use r2r_jev.Governance.{Admission, Governance}
use r2r_jev.Governance.Observe.{observe_judgment}
use r2r_jev.Store.{DomainKey, domain_key_eq, ReplayObservation, StoredEvent, EventStore}
use r2r_jev.Store.Memory.{state_version}
use r2r_jev.Runtime.{
  DomainRuntime, new_domain, GovernanceRuntime, governing_after, judgment_of, context_of, diverges,
}
use r2r_jev.Runtime.Replay.{counted}

-- The two maps that the loop fills.
pub record Recovered : Type 0 where
  pub domains : Assoc DomainKey DomainRuntime
  pub versions : Assoc DomainKey ℕ

-- The domain after an event is replayed.
abbrev pub domain_after : DomainRuntime → AdmissionContext → Admission × Governance → DomainRuntime
domain_after domain context (outcome, governance) = record {
  governance = governance;
  next_vtick = max domain.next_vtick (inc64 context.now_vtick);
  projected_decision = outcome.decision;
  governing_authorization = governing_after outcome.relation_changes domain.governing_authorization;
}

unfoldable pub recover_observation : StoredEvent → ReplayObservation → Recovered → Result Recovered
recover_observation event input r =
    let key = event.domain in
    let domain = get_or key new_domain r.domains in
    if input.admission_policy_version == policy_version
    then (do
      context ← context_of input
      (outcome, governance) ← observe_judgment (judgment_of key input) context domain.governance
      let n = counted outcome (get_or key 0 r.versions)
      if diverges event outcome (state_version n)
          then err (format ("durable event log diverged at " ∷ event.event_id ∷ []))
          else ok (record {
            domains = insert key (domain_after domain context (outcome, governance)) r.domains;
            versions = insert key n r.versions;
          }))
    else err (
        format (
          "cannot recover event " ∷ event.event_id ∷ ": admission policy "
          ∷ input.admission_policy_version ∷ " is unavailable (runtime " ∷ policy_version ∷ ")"
          ∷ []))

-- The body of the loop.
unfoldable pub recover_event : StoredEvent → Option ReplayObservation → Recovered → Result Recovered
recover_event event (some input) r = recover_observation event input r
recover_event event none r =
    if is_empty event.relation_transitions
    then ok r
    else err (
        format
          ("cannot recover state-changing event " ∷ event.event_id ∷ " without replay input" ∷ []))

unfoldable pub recover_events : List StoredEvent → Recovered → Result Recovered
recover_events [] r = ok r
recover_events (event ∷ rest) r =
    recover_event event event.replay_observation r >>= recover_events rest

abbrev pub nothing_recovered : Recovered
nothing_recovered = record { domains = []; versions = [] }

module _ {S : Type 0} (store_ops : EventStore S) where
  open store_ops use {health, current_state_version, all_events}

  -- The loop over the replayed versions.
  unfoldable pub check_versions : S → Assoc DomainKey ℕ → Result (Unit {0})
  check_versions store [] = ok tt
  check_versions store ((domain, version) ∷ rest) =
      let recorded = current_state_version store domain in
      let later = check_versions store rest in
      if state_version version == recorded
      then later
      else err (
          format (
            "durable state version mismatch for "
            ∷ domain.subject
            ∷ "/"
            ∷ domain.scope
            ∷ ": recorded="
            ∷ recorded
            ∷ ", replayed="
            ∷ state_version version
            ∷ []))

  unfoldable pub try_with_store : S → Result (GovernanceRuntime S)
  try_with_store store = do
    health store
    r ← recover_events (all_events store) nothing_recovered
    check_versions store r.versions
    ok (record { domains = r.domains; store = store })
