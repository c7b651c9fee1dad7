-- ===== src/Runtime/Verdict/Domains.antt =====
-- src/mcp/server.rs: the handlers that leave the governance of every domain as it is.
use r2r_jev.Prelude.{◌≡◌, ap, arith, ok, >>=-eq-ok, ok-injective}
use r2r_jev.Prelude.Assoc.{get_or-insert}
use r2r_jev.Store.{EventStore, DomainKey, new_key, key_eq_iff, domain_key_eq}
use r2r_jev.Schema.{DecideParams, RecordOutcomeParams, RecordOutcomeResponse}
use r2r_jev.Runtime.{GovernanceRuntime, new_domain, domain_of}
use r2r_jev.Runtime.Decide.{decide, record_outcome, known}

-- Neither `record_outcome` nor `decide` changes the governance of a domain, over any store.
pub record_outcome-domains :
    {S : Type 0} (store_ops : EventStore S) (params : RecordOutcomeParams)
    (rt rt' : GovernanceRuntime S) (a : RecordOutcomeResponse)
    → record_outcome store_ops params rt ≡ ok (a, rt')
    → rt.domains ≡ rt'.domains
unfolding record_outcome
record_outcome-domains {S = S} store_ops params rt rt' a h =
    let (found, known_id, done) =
      >>=-eq-ok (known params.decision_id (store_ops.decision rt.store params.decision_id)) _ h in
    ap (λ (r : RecordOutcomeResponse × GovernanceRuntime S). r.1.domains) (ok-injective done)

pub decide-domains :
    {S : Type 0} (store_ops : EventStore S) (params : DecideParams) (rt : GovernanceRuntime S)
    (k : DomainKey)
    → domain_of rt k ≡ domain_of (decide store_ops params rt).1 k
unfolding decide
decide-domains store_ops params rt k =
    let key = new_key params.subject params.scope in
    ground (arith, get_or-insert key k (domain_of rt key) new_domain rt.domains, key_eq_iff key k)
