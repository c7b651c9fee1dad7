-- ===== src/Runtime/Log/Serving.antt =====
-- src/mcp/server.rs: what holds of a server on a store in memory after any sequence of calls.
use r2r_jev.Prelude.{
  ℕ, List, [], ◌∷◌, ◌≡◌, refl, subst, arith, ok, true, ◌+◌, ◌<◌, ◌^◌, length, none,
}
use r2r_jev.Prelude.Assoc.{get_or, lookup}
use r2r_jev.Store.{DomainKey, domain_key_eq, new_key}
use r2r_jev.Store.Memory.{
  MemoryEventStore, memory, state_counter, new_store, current_state_version, events_for_domain,
}
use r2r_jev.Schema.{ReplayParams}
use r2r_jev.Runtime.{GovernanceRuntime, domain_of}
use r2r_jev.Runtime.Server as S
use r2r_jev.Runtime.Server.{
  Server, serving, Request, Response, call, call_all, handler, with_runtime, after_handler,
}
use r2r_jev.Runtime.Log.{fresh, IsLogged}
use r2r_jev.Runtime.Log.Replays.{replay-IsLogged, count64}
use r2r_jev.Runtime.Log.Recovers.{try_with_store-IsLogged}
use r2r_jev.Runtime.Recover.{try_with_store}
use r2r_jev.Runtime.Log.Handlers.{Ticks, Sound, handler-Kept}

abbrev pub new_runtime : GovernanceRuntime MemoryEventStore
new_runtime = record { domains = []; store = new_store }

abbrev pub new_server : Server MemoryEventStore
new_server = serving new_runtime

pub new_runtime-IsLogged : IsLogged new_runtime
unfolding get_or lookup state_counter
new_runtime-IsLogged = fresh (λ k. refl) (λ k. refl)

pub new_runtime-Ticks : Ticks 1 new_runtime
unfolding get_or lookup
new_runtime-Ticks k = omega arith

pub call-Sound :
    (n : ℕ) (request : Request) (server : Server MemoryEventStore)
    → n + 10 < 2 ^ 64
    → Sound n server
    → Sound (n + 1) (call memory request server).1
unfolding call with_runtime
call-Sound n request server bound (rt, same, log, ticks) =
    rw same (handler-Kept n request rt bound log ticks)

pub call_all-Sound :
    (n : ℕ) (requests : List Request) (server : Server MemoryEventStore)
    → n + length requests + 10 < 2 ^ 64
    → Sound n server
    → Sound (n + length requests) (call_all memory requests server)
unfolding call_all
call_all-Sound n [] server bound sound = subst (λ (m : ℕ). Sound m server) (omega arith) sound
call_all-Sound n (request ∷ rest) server bound sound =
    let total : n + 1 + length rest ≡ n + length (request ∷ rest) = omega arith in
    subst (λ (m : ℕ). Sound m (call_all memory rest (call memory request server).1)) total
      (call_all-Sound (n + 1) rest (call memory request server).1 (omega (arith, bound))
        (call-Sound n request server (omega (arith, bound)) sound))

pub new_server-Sound : Sound 1 new_server
new_server-Sound = (new_runtime, refl, new_runtime-IsLogged, new_runtime-Ticks)

-- A new server on a store in memory answers every sequence of calls without a panic, as long as
-- it is short enough for the virtual ticks: it still serves afterwards, and its stored events
-- describe each of its domains and their versions.
pub call_all-serves :
    (requests : List Request)
    → length requests + 11 < 2 ^ 64
    → (rt : GovernanceRuntime MemoryEventStore) × (call_all memory requests new_server ≡ serving rt)
      × IsLogged rt
call_all-serves requests bound =
    let (rt, serves, log, ticks) =
      call_all-Sound 1 requests new_server (omega (arith, bound)) new_server-Sound in
    (rt, serves, log)

-- After any sequence of calls of a new server on a store in memory, short enough for its 64-bit
-- numbers, `replay` of any domain answers that the kernel reproduces every event of the domain and
-- its current state version, and leaves the server as it is.
pub call_all-replays :
    (requests : List Request) (params : ReplayParams)
    → length requests + 11 < 2 ^ 64
    → (rt : GovernanceRuntime MemoryEventStore) × (call_all memory requests new_server ≡ serving rt)
      × let key = new_key params.subject params.scope in
        let version = current_state_version rt.store key in
        call memory (S.replay params) (serving rt) ≡ (
          ok (
              S.replayed (record {
                replay_match = true;
                recorded_state_version = version;
                replayed_state_version = version;
                replayed_events = count64 (events_for_domain rt.store key);
                first_divergent_event = none;
                policy_versions = "admission:0.1" ∷ "r2r-rules:demo-0.1" ∷ [];
              })),
          serving rt,
        )
unfolding call with_runtime handler
call_all-replays requests params bound =
    let (rt, serves, log) = call_all-serves requests bound in
    (rt, serves, rw (replay-IsLogged params rt log) refl)

-- After any sequence of calls of a new server on a store in memory, short enough for its 64-bit
-- numbers, a runtime that is opened on the store has the same store and the same state of every
-- domain.
pub call_all-recovers :
    (requests : List Request)
    → length requests + 11 < 2 ^ 64
    → (rt : GovernanceRuntime MemoryEventStore) × (rt' : GovernanceRuntime MemoryEventStore)
      × (call_all memory requests new_server ≡ serving rt)
      × (try_with_store memory rt.store ≡ ok rt')
      × (rt'.store ≡ rt.store)
      × ((key : DomainKey) → domain_of rt' key ≡ domain_of rt key)
call_all-recovers requests bound =
    let (rt, serves, log) = call_all-serves requests bound in
    let (rt', opens, same, domains) = try_with_store-IsLogged rt log in
    (rt, rt', serves, opens, same, domains)
