-- ===== src/Runtime/Log/Replays.antt =====
-- src/mcp/server.rs: `replay` of a logged runtime reproduces it.
use r2r_jev.Prelude.{
  ℕ, List, [], ◌∷◌, ◌++◌, none, true, false, ◌≡◌, refl, sym, ap, subst, ◌∙◌, arith, Result, ok,
  ◌>>=◌, filter, filter-append_one, Bool-cases, inl, inr, inc64, eq_iff, text_eq_of, length,
  length-append, ◌%◌, ◌^◌, err, panic,
}
use r2r_jev.Admission.{policy_version}
use r2r_jev.Store.{DomainKey, key_eq, key_eq_iff, key_eq_refl, new_key, StoredEvent}
use r2r_jev.Store.Memory.{
  MemoryEventStore, memory, state_version, state_counter, current_state_version, events_for_domain,
}
use r2r_jev.Schema.{ReplayParams}
use r2r_jev.Runtime.{DomainRuntime, GovernanceRuntime}
use r2r_jev.Runtime.Replay.{
  Replaying, Round, go_on, stop, compare_event, replay_observation, replay_event, then_round,
  replay_events, replay_start, replay,
}
use r2r_jev.Runtime.Log.{Faithful, Log, fresh, logged, IsLogged}

-- What the loop has made of the events of one domain.
abbrev reached : DomainRuntime → ℕ → ℕ → Replaying
reached domain n events = record {
  governance = domain.governance;
  state_counter = n;
  events = events;
  first_divergent = none;
}

replay_event-Faithful :
    (before : DomainRuntime) (n : ℕ) (event : StoredEvent) (after : DomainRuntime) (m i : ℕ)
    → Faithful before n event after m
    → replay_event event.domain event event.replay_observation (reached before n i)
      ≡ ok (go_on (reached after m (inc64 i)))
unfolding replay_event replay_observation compare_event
replay_event-Faithful before n event after m i f =
    ground (arith, eq_iff f.input.admission_policy_version policy_version)

then_round_mono :
    (o : Result Round) (f k : Replaying → Result Round) (s : Replaying) (t : Result Round)
    → (o >>= then_round f) ≡ ok (go_on s)
    → ((p : Replaying) → f p ≡ ok (go_on s) → k p ≡ t)
    → (o >>= then_round k) ≡ t
then_round_mono (ok (go_on p)) f k s t h step = step p h
then_round_mono (ok (stop p)) f k s t h step = cc
then_round_mono (err e) f k s t h step = cc
then_round_mono panic f k s t h step = cc

replay_events-append :
    (key : DomainKey) (xs : List StoredEvent) (e : StoredEvent) (r s : Replaying)
    → replay_events key xs r ≡ ok (go_on s)
    → replay_events key (xs ++ e ∷ []) r
      ≡ (replay_event key e e.replay_observation s >>= then_round (replay_events key []))
unfolding replay_events
replay_events-append key [] e r s h = cc
replay_events-append key (x ∷ xs) e r s h =
    then_round_mono (replay_event key x x.replay_observation r) (replay_events key xs)
      (replay_events key (xs ++ e ∷ [])) s
      (replay_event key e e.replay_observation s >>= then_round (replay_events key [])) h
      (λ p. replay_events-append key xs e p s)

-- A number of items, as a 64-bit count.
abbrev pub count64 {ℓ} : {A : Type ℓ} → List A → ℕ
count64 xs = length xs % 2 ^ 64

count64-append_one {ℓ} :
    {A : Type ℓ} (xs : List A) (x : A) → count64 (xs ++ x ∷ []) ≡ inc64 (count64 xs)
unfolding inc64
count64-append_one xs x = omega (arith, length-append xs (x ∷ []))

abbrev of_key : DomainKey → List StoredEvent → List StoredEvent
of_key key events = filter (λ e. key_eq e.domain key) events

abbrev Replays : DomainKey → List StoredEvent → DomainRuntime → ℕ → Type 0
Replays key events domain n =
    replay_events key (of_key key events) replay_start
    ≡ ok (go_on (reached domain n (count64 (of_key key events))))

replay_one_more :
    (events : List StoredEvent) (e : StoredEvent) (before after : DomainRuntime) (n m : ℕ)
    → Replays e.domain events before n
    → Faithful before n e after m
    → Replays e.domain (events ++ e ∷ []) after m
unfolding replay_events
replay_one_more events e before after n m h f =
    rw (filter-append_one (λ d. key_eq d.domain e.domain) events e) (
      rw (key_eq_refl e.domain) (
        replay_events-append e.domain (of_key e.domain events) e replay_start
          (reached before n (count64 (of_key e.domain events))) h
        ∙ rw (replay_event-Faithful before n e after m (count64 (of_key e.domain events)) f) (
            ap (λ i. ok (go_on (reached after m i)))
              (sym (count64-append_one (of_key e.domain events) e)))))

replay_other :
    (key : DomainKey) (events : List StoredEvent) (e : StoredEvent) (domain : DomainRuntime) (n : ℕ)
    → key_eq e.domain key ≡ false
    → Replays key events domain n
    → Replays key (events ++ e ∷ []) domain n
replay_other key events e domain n other h =
    rw (filter-append_one (λ d. key_eq d.domain key) events e) (rw other h)

-- Over a faithful log the loop reaches the domain as it is, and finds no divergence.
pub Log-Replays :
    {events : List StoredEvent} {domains : DomainKey → DomainRuntime} {versions : DomainKey → ℕ}
    → Log events domains versions
    → (key : DomainKey) → Replays key events (domains key) (versions key)
unfolding replay_events
Log-Replays (fresh d n) key = rw (d key, n key)
Log-Replays {domains} {versions}
      (logged {events} {longer} {domains = before} {versions = numbers} e after m log f long d n)
      key =
    rw long (elim (Bool-cases (key_eq e.domain key)) [
      | inl same ↦
          let here : e.domain ≡ key = (key_eq_iff e.domain key).0 same in
          subst (λ (k : DomainKey). Replays k (events ++ e ∷ []) (domains k) (versions k)) here
            (rw (d e.domain, n e.domain, key_eq_refl e.domain)
              (replay_one_more events e (before e.domain) after (numbers e.domain) m
                (Log-Replays log e.domain) f))
      | inr other ↦
          rw (d key, n key, other)
            (replay_other key events e (before key) (numbers key) other (Log-Replays log key))
    ])

-- The response of `replay` for a logged runtime.
pub replay-IsLogged :
    (params : ReplayParams) (rt : GovernanceRuntime MemoryEventStore)
    → IsLogged rt
    → let key = new_key params.subject params.scope in
      let version = current_state_version rt.store key in
      replay memory params rt
      ≡ ok (record {
        replay_match = true;
        recorded_state_version = version;
        replayed_state_version = version;
        replayed_events = count64 (events_for_domain rt.store key);
        first_divergent_event = none;
        policy_versions = "admission:0.1" ∷ "r2r-rules:demo-0.1" ∷ [];
      })
unfolding replay events_for_domain current_state_version
replay-IsLogged params rt log =
    let key = new_key params.subject params.scope in
    rw (Log-Replays log key)
      (rw (text_eq_of (state_version (state_counter rt.store key)) _ refl) refl)
