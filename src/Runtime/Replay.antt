-- ===== src/Runtime/Replay.antt =====
-- src/mcp/server.rs: `replay`, which reads the stored observations of one domain again.
use r2r_jev.Prelude.{
  ℕ, String, List, [], ◌∷◌, Option, none, some, Bool, true, false, ◌&&◌, Result, ok, ◌>>=◌, ◌==◌,
  inc64, is_empty, if◌then◌else◌,
}
use r2r_jev.Prelude.Format.{format}
use r2r_jev.Admission.{policy_version}
use r2r_jev.Governance.{Admission, Governance, new_governance}
use r2r_jev.Governance.Observe.{observe_judgment}
use r2r_jev.Store.{DomainKey, new_key, ReplayObservation, StoredEvent, EventStore}
use r2r_jev.Store.Memory.{state_version}
use r2r_jev.Schema.{ReplayParams, ReplayResponse}
use r2r_jev.Runtime.{GovernanceRuntime, judgment_of, context_of, diverges, rule_pack_version}

-- The mutable variables of the loop.
pub record Replaying : Type 0 where
  pub governance : Governance
  pub state_counter : ℕ  -- u64
  pub events : ℕ  -- usize
  pub first_divergent : Option String

-- `go_on` ends a round, `stop` is the `break`.
pub data Round : Type 0 where
  go_on : Replaying → Round
  stop : Replaying → Round

-- `get_or_insert`
abbrev pub get_or_insert : String → Option String → Option String
get_or_insert id none = some id
get_or_insert id (some first) = some first

-- The counter after an event that had this outcome.
abbrev pub counted : Admission → ℕ → ℕ
counted outcome n = if is_empty outcome.relation_changes then n else inc64 n

-- What a round makes of the outcome.
unfoldable pub compare_event : StoredEvent → Replaying → Admission × Governance → Round
unfolding diverges
compare_event event r (outcome, governance) =
    let n = counted outcome r.state_counter in
    go_on (record {
      governance = governance;
      state_counter = n;
      events = inc64 r.events;
      first_divergent =
          if diverges event outcome (state_version n)
          then get_or_insert event.event_id r.first_divergent
          else r.first_divergent;
    })

unfoldable pub replay_observation :
    DomainKey → StoredEvent → ReplayObservation → Replaying → Result Round
replay_observation key event input r =
    if input.admission_policy_version == policy_version
    then (do
      context ← context_of input
      seen ← observe_judgment (judgment_of key input) context r.governance
      ok (compare_event event r seen))
    else ok (
        stop (record r {
          events = inc64 r.events;
          first_divergent = get_or_insert event.event_id r.first_divergent;
        }))

-- The body of the loop.
unfoldable pub replay_event :
    DomainKey → StoredEvent → Option ReplayObservation → Replaying → Result Round
replay_event key event none r = ok (go_on r)
replay_event key event (some input) r = replay_observation key event input r

abbrev pub then_round : (Replaying → Result Round) → Round → Result Round
then_round rest (go_on r) = rest r
then_round rest (stop r) = ok (stop r)

unfoldable pub replay_events : DomainKey → List StoredEvent → Replaying → Result Round
replay_events key [] r = ok (go_on r)
replay_events key (event ∷ rest) r =
    replay_event key event event.replay_observation r >>= then_round (replay_events key rest)

abbrev pub state_of : Round → Replaying
state_of (go_on r) = r
state_of (stop r) = r

abbrev pub is_none : Option String → Bool
is_none none = true
is_none (some _) = false

abbrev pub replay_start : Replaying
replay_start = record {
  governance = new_governance;
  state_counter = 0;
  events = 0;
  first_divergent = none;
}

abbrev pub replay_response : String → Replaying → ReplayResponse
replay_response recorded r =
    let replayed = state_version r.state_counter in
    record {
      replay_match = is_none r.first_divergent && recorded == replayed;
      recorded_state_version = recorded;
      replayed_state_version = replayed;
      replayed_events = r.events;
      first_divergent_event = r.first_divergent;
      policy_versions =
          format ("admission:" ∷ policy_version ∷ [])
          ∷ format ("r2r-rules:" ∷ rule_pack_version ∷ [])
          ∷ [];
    }

module _ {S : Type 0} (store_ops : EventStore S) where
  open store_ops use {current_state_version, events_for_domain}

  unfoldable pub replay : ReplayParams → GovernanceRuntime S → Result ReplayResponse
  replay params rt = do
    let key = new_key params.subject params.scope
    let recorded = current_state_version rt.store key
    end ← replay_events key (events_for_domain rt.store key) replay_start
    ok (replay_response recorded (state_of end))
