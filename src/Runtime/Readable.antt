-- ===== src/Runtime/Readable.antt =====
-- src/mcp/server.rs: which stored events make `replay` fail an assertion.
use r2r_jev.Prelude.{
  List, [], ◌∷◌, Option, none, some, Bool, true, false, ◌&&◌, ◌≡◌, refl, arith, leb, ◌==◌,
  Bool-cases, inl, inr, ◌⊎◌, Result, ok, err, panic, ◌>>=◌,
}
use r2r_jev.Admission.{AdmissionContext, new_context, policy_version, ppm}
use r2r_jev.Governance.Effect.{observe_judgment-eq_ok}
use r2r_jev.Store.{DomainKey, ReplayObservation, StoredEvent}
use r2r_jev.Runtime.{judgment_of, context_of}
use r2r_jev.Runtime.Replay.{
  Replaying, Round, go_on, stop, replay_event, replay_events, replay_observation, then_round,
}

-- A stored input that no assertion refuses.
abbrev pub input_in_range : ReplayObservation → Bool
input_in_range input =
    leb input.source_reliability_ppm ppm
    && (leb input.now_vtick input.expires_vtick
        && (leb input.beyond_scope_ppm ppm && leb input.destructive_ppm ppm))

abbrev pub is_readable : Option ReplayObservation → Bool
is_readable none = true
is_readable (some input) = input_in_range input

-- An event among these has an input out of range.
abbrev pub HasOutOfRange : List StoredEvent → Type 0
HasOutOfRange [] = ⊥
HasOutOfRange (event ∷ rest) = (is_readable event.replay_observation ≡ false) ⊎ HasOutOfRange rest

context_of-ok :
    (input : ReplayObservation)
    → input_in_range input ≡ true
    → (x : AdmissionContext) × (context_of input ≡ ok x)
unfolding new_context
context_of-ok input h =
    let trusted : leb input.source_reliability_ppm ppm ≡ true = ground (arith, h) in
    let fresh : leb input.now_vtick input.expires_vtick ≡ true = ground (arith, h) in
    let x : AdmissionContext = record {
      source_reliability_ppm = input.source_reliability_ppm;
      independent_corroborators = input.independent_corroborators;
      now_vtick = input.now_vtick;
      expires_vtick = input.expires_vtick;
    } in
    (x, rw trusted (rw fresh refl))

replay_observation-returns :
    (key : DomainKey) (event : StoredEvent) (input : ReplayObservation) (r : Replaying)
    → input_in_range input ≡ true
    → replay_observation key event input r ≡ panic
    → ⊥
unfolding replay_observation
replay_observation-returns key event input r good h =
    elim (Bool-cases (input.admission_policy_version == policy_version)) [
      | inl current ↦
          let (x, made) = context_of-ok input good in
          let seen =
            observe_judgment-eq_ok (judgment_of key input) x r.governance
              (ground (arith, good), ground (arith, good)) in
          absurd (cc (rw seen at (rw made at (rw current at h))))
      | inr old ↦ absurd (cc (rw old at h))
    ]

replay_event-panic :
    (key : DomainKey) (event : StoredEvent) (o : Option ReplayObservation) (r : Replaying)
    → replay_event key event o r ≡ panic
    → is_readable o ≡ false
unfolding replay_event
replay_event-panic key event none r h = absurd (cc h)
replay_event-panic key event (some input) r h = elim (Bool-cases (input_in_range input)) [
  | inl good ↦ absurd (replay_observation-returns key event input r good h)
  | inr bad ↦ bad
]

-- A replay that panics has come to an event whose input is out of range.
pub replay_events-panic :
    (key : DomainKey) (events : List StoredEvent) (r : Replaying)
    → replay_events key events r ≡ panic
    → HasOutOfRange events
unfolding replay_events
replay_events-panic key [] r h = absurd (cc h)
replay_events-panic key (event ∷ rest) r h =
    go (λ next. replay_events-panic key rest next)
      (replay_event key event event.replay_observation r) refl h
  where
    go :
        ((next : Replaying) → replay_events key rest next ≡ panic → HasOutOfRange rest)
        → (round : Result Round) → replay_event key event event.replay_observation r ≡ round
        → (round >>= then_round (replay_events key rest)) ≡ panic
        → HasOutOfRange (event ∷ rest)
    go later (ok (go_on next)) e h = inr (later next h)
    go later (ok (stop next)) e h = absurd (cc h)
    go later (err m) e h = absurd (cc h)
    go later panic e h = inl (replay_event-panic key event event.replay_observation r e)
