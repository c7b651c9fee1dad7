-- ===== src/Runtime/Log/Recovers.antt =====
-- src/mcp/server.rs: `try_with_store` rebuilds a logged runtime from its store.
use r2r_jev.Prelude.{
  ℕ, List, [], ◌∷◌, ◌++◌, some, ◌≡◌, refl, sym, ap, ◌∙◌, arith, ok, ◌>>=◌, >>=-mono, eq_iff,
  text_eq_of,
}
use r2r_jev.Prelude.Assoc.{
  Assoc, lookup, insert, get_or, get_or_of_lookup, get_or-insert, Unique, insert-Unique,
  lookup_head, lookup_tail,
}
use r2r_jev.Store.{DomainKey, domain_key_eq, StoredEvent}
use r2r_jev.Store.Memory.{
  MemoryEventStore, memory, state_version, state_counter, current_state_version,
}
use r2r_jev.Runtime.{DomainRuntime, new_domain, GovernanceRuntime, domain_of}
use r2r_jev.Runtime.Recover.{
  Recovered, nothing_recovered, recover_observation, recover_event, recover_events, check_versions,
  try_with_store,
}
use r2r_jev.Runtime.Log.{Faithful, Log, fresh, logged, IsLogged}

-- What the loop has rebuilt, key by key.
record Rebuilt (domains : DomainKey → DomainRuntime) (versions : DomainKey → ℕ) (r : Recovered)
    : Type 0 where
  same_domain : (k : DomainKey) → get_or k new_domain r.domains ≡ domains k
  same_version : (k : DomainKey) → get_or k 0 r.versions ≡ versions k
  unique : Unique r.versions

recover_event-Faithful :
    (before : DomainRuntime) (n : ℕ) (event : StoredEvent) (after : DomainRuntime) (m : ℕ)
    (r : Recovered)
    → get_or event.domain new_domain r.domains ≡ before
    → get_or event.domain 0 r.versions ≡ n
    → Faithful before n event after m
    → recover_event event event.replay_observation r
      ≡ ok (record {
        domains = insert event.domain after r.domains;
        versions = insert event.domain m r.versions;
      })
unfolding recover_event recover_observation
recover_event-Faithful before n event after m r d v f =
    ground (arith, eq_iff f.input.admission_policy_version "0.1")

recover_events-append :
    (xs : List StoredEvent) (e : StoredEvent) (r s : Recovered)
    → recover_events xs r ≡ ok s
    → recover_events (xs ++ e ∷ []) r
      ≡ (recover_event e e.replay_observation s >>= recover_events [])
unfolding recover_events
recover_events-append [] e r s h = cc
recover_events-append (x ∷ xs) e r s h =
    >>=-mono (recover_event x x.replay_observation r) (recover_events xs)
      (recover_events (xs ++ e ∷ [])) s
      (recover_event e e.replay_observation s >>= recover_events []) h
      (λ p. recover_events-append xs e p s)

-- Over a faithful log the loop rebuilds every domain and every version.
Log-Rebuilt :
    {events : List StoredEvent} {domains : DomainKey → DomainRuntime} {versions : DomainKey → ℕ}
    → Log events domains versions
    → (r : Recovered) × (recover_events events nothing_recovered ≡ ok r)
      × Rebuilt domains versions r
unfolding recover_events
Log-Rebuilt (fresh d n) = (
  nothing_recovered,
  refl,
  record {
    same_domain = λ k. unfold get_or lookup in sym (d k);
    same_version = λ k. unfold get_or lookup in sym (n k);
    unique = tt;
  },
)
Log-Rebuilt {domains} {versions}
      (logged {events} {domains = before} {versions = numbers} e after m log f long d n) =
    let (r, recovered, built) = Log-Rebuilt log in
    let key = e.domain in
    let next : Recovered = record {
      domains = insert key after r.domains;
      versions = insert key m r.versions;
    } in
    (
      next,
      rw long (
          recover_events-append events e nothing_recovered r recovered
          ∙ rw
              (recover_event-Faithful (before key) (numbers key) e after m r (built.same_domain key)
                (built.same_version key) f)
              refl),
      record {
        same_domain = λ k.
            get_or-insert key k after new_domain r.domains ∙ rw (built.same_domain k) (sym (d k));
        same_version =
            λ k. get_or-insert key k m 0 r.versions ∙ rw (built.same_version k) (sym (n k));
        unique = insert-Unique key m r.versions built.unique;
      },
    )

check_versions-eq_ok :
    (store : MemoryEventStore) (versions : Assoc DomainKey ℕ)
    → Unique versions
    → ((k : DomainKey) (v : ℕ) → lookup k versions ≡ some v → v ≡ state_counter store k)
    → check_versions memory store versions ≡ ok tt
unfolding check_versions current_state_version
check_versions-eq_ok store [] u h = refl
check_versions-eq_ok store ((k, v) ∷ rest) u h =
    let here : v ≡ state_counter store k = h k v (lookup_head k v rest) in
    rw
      (text_eq_of (state_version v) (state_version (state_counter store k)) (ap state_version here))
      (check_versions-eq_ok store rest u.1 (λ j w found. h j w (lookup_tail k v rest j w u found)))

-- A runtime that its stored events describe is rebuilt from its store, domain by domain.
pub try_with_store-IsLogged :
    (rt : GovernanceRuntime MemoryEventStore)
    → IsLogged rt
    → (rt' : GovernanceRuntime MemoryEventStore) × (try_with_store memory rt.store ≡ ok rt')
      × (rt'.store ≡ rt.store)
      × ((k : DomainKey) → domain_of rt' k ≡ domain_of rt k)
unfolding try_with_store
try_with_store-IsLogged rt log =
    let (r, recovered, built) = Log-Rebuilt log in
    let checked =
      check_versions-eq_ok rt.store r.versions built.unique
        (λ k v found. sym (get_or_of_lookup k 0 v r.versions found) ∙ built.same_version k) in
    (
      record { domains = r.domains; store = rt.store },
      rw recovered (rw checked refl),
      refl,
      built.same_domain,
    )
