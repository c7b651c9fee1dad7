-- ===== src/Runtime/Log/Seen.antt =====
-- src/mcp/server.rs: an observation that `observe` records replays to itself.
use r2r_jev.Prelude.{
  ℕ, max, String, false, ◌≡◌, refl, ap, arith, ok, inc64, >>=-eq-ok, ok-injective, subst, map,
  eq_iff,
}
use r2r_jev.Admission.{AdmissionContext, demo_context}
use r2r_jev.Governance.{Admission, Governance}
use r2r_jev.Governance.Observe.{observe_judgment}
use r2r_jev.Store.{StoredEvent}
use r2r_jev.Schema.{ObserveParams}
use r2r_jev.Runtime.{DomainRuntime, context_of, diverges, texts_eq_refl, render_relation_change}
use r2r_jev.Runtime.Observe.{
  DomainObservation, seen_of, observe_domain, observed_judgment, replay_observation_of,
}
use r2r_jev.Runtime.Recover.{domain_after}

-- What `observe_domain` did, if it returned `seen`.
pub record Seen (params : ObserveParams) (before : DomainRuntime) (seen : DomainObservation)
    : Type 0 where
  pub context : AdmissionContext
  pub context_ok : context_of (replay_observation_of params context) ≡ ok context
  pub observed :
      observe_judgment (observed_judgment params) context before.governance
      ≡ ok (seen.outcome, seen.domain.governance)
  pub domain : seen.domain ≡ domain_after before context (seen.outcome, seen.domain.governance)
  pub input : seen.replay_observation ≡ replay_observation_of params context

demo_context-replays :
    (v : ℕ) (params : ObserveParams) (context : AdmissionContext)
    → demo_context v ≡ ok context
    → (context_of (replay_observation_of params context) ≡ ok context)
      × (inc64 v ≡ max v (inc64 context.now_vtick))
unfolding demo_context inc64
demo_context-replays v params context h = ground arith

Seen-seen_of :
    (params : ObserveParams) (before : DomainRuntime) (context : AdmissionContext)
    (result : Admission × Governance)
    → demo_context before.next_vtick ≡ ok context
    → observe_judgment (observed_judgment params) context before.governance ≡ ok result
    → Seen params before (seen_of params before context result)
Seen-seen_of params before context result made judged =
    let (same, later) = demo_context-replays before.next_vtick params context made in
    record {
      context = context;
      context_ok = same;
      observed = judged;
      domain =
          ap
            (λ (v : ℕ).
              let d : DomainRuntime = record (seen_of params before context result).domain {
                next_vtick = v;
              } in
              d)
            later;
      input = refl;
    }

pub observe_domain-Seen :
    (params : ObserveParams) (before : DomainRuntime) (seen : DomainObservation)
    → observe_domain params before ≡ ok seen
    → Seen params before seen
unfolding observe_domain
observe_domain-Seen params before seen h =
    let (context, made, rest) = >>=-eq-ok (demo_context before.next_vtick) _ h in
    let (result, judged, done) =
      >>=-eq-ok (observe_judgment (observed_judgment params) context before.governance) _ rest in
    subst (Seen params before) (ok-injective done)
      (Seen-seen_of params before context result made judged)

-- An event that carries what was seen does not diverge from it.
pub diverges_self :
    (event : StoredEvent) (outcome : Admission) (version : String)
    → event.kernel_event_id ≡ outcome.event_id
    → event.state_version ≡ version
    → event.relation_transitions ≡ map render_relation_change outcome.relation_changes
    → diverges event outcome version ≡ false
unfolding diverges
diverges_self event outcome version h k t = ground (
  arith,
  eq_iff event.kernel_event_id outcome.event_id,
  eq_iff event.state_version version,
  texts_eq_refl event.relation_transitions,
)
