-- ===== src/Store/Memory.antt =====
-- src/store/memory.rs: the store in memory. Its `Vec`s grow at the end.
pub mod Numbering
pub mod Versions
use r2r_jev.Prelude.{
  ℕ, String, List, [], ◌∷◌, ◌++◌, Option, none, some, Bool, ok, ◌==◌, find, filter, length, inc64,
  if◌then◌else◌,
}
use r2r_jev.Prelude.Decimal.{pad}
use r2r_jev.Prelude.Format.{format}
use r2r_jev.Store.{DomainKey, key_eq, StoredEvent, StoredDecision, StoredOutcome, EventStore}

pub record DomainStateVersion : Type 0 where
  pub domain : DomainKey
  pub version : ℕ  -- u64

pub record MemoryEventStore : Type 0 where
  pub events : List StoredEvent
  pub decisions : List StoredDecision
  pub outcomes : List StoredOutcome
  pub state_versions : List DomainStateVersion
  pub event_counter : ℕ  -- u64
  pub decision_counter : ℕ  -- u64
  pub outcome_counter : ℕ  -- u64

abbrev pub new_store : MemoryEventStore
new_store = record {
  events = [];
  decisions = [];
  outcomes = [];
  state_versions = [];
  event_counter = 0;
  decision_counter = 0;
  outcome_counter = 0;
}

-- `state-{:06}`
abbrev pub state_version : ℕ → String
state_version n = format ("state-" ∷ pad 6 n ∷ [])

abbrev version_or_zero : Option DomainStateVersion → ℕ
version_or_zero none = 0
version_or_zero (some entry) = entry.version

unfoldable pub state_counter : MemoryEventStore → DomainKey → ℕ
unfolding key_eq
state_counter s domain =
    version_or_zero (find (λ entry. key_eq entry.domain domain) s.state_versions)

unfoldable pub current_state_version : MemoryEventStore → DomainKey → String
current_state_version s domain = state_version (state_counter s domain)

abbrev behind :
    DomainStateVersion → Option (ℕ × List DomainStateVersion) → Option (ℕ × List DomainStateVersion)
behind entry none = none
behind entry (some (n, rest)) = some (n, entry ∷ rest)

-- `iter_mut().find(..)` and the increment of the entry found.
advance_entry : DomainKey → List DomainStateVersion → Option (ℕ × List DomainStateVersion)
unfolding key_eq
advance_entry domain [] = none
advance_entry domain (entry ∷ rest) =
    let n = inc64 entry.version in
    let later = behind entry (advance_entry domain rest) in
    if key_eq entry.domain domain then some (n, record entry { version = n } ∷ rest) else later

abbrev advanced :
    MemoryEventStore → DomainKey → Option (ℕ × List DomainStateVersion) → String × MemoryEventStore
advanced s domain (some (n, versions)) = (state_version n, record s { state_versions = versions })
advanced s domain none = (
  "state-000001",
  record s { state_versions = s.state_versions ++ record { domain = domain; version = 1 } ∷ [] },
)

unfoldable pub advance_state_version : MemoryEventStore → DomainKey → String × MemoryEventStore
unfolding advance_entry
advance_state_version s domain = advanced s domain (advance_entry domain s.state_versions)

-- `event-{:06}`, `decision-{:06}` and `outcome-{:06}`
abbrev pub event_id : ℕ → String
event_id n = format ("event-" ∷ pad 6 n ∷ [])

abbrev pub decision_id : ℕ → String
decision_id n = format ("decision-" ∷ pad 6 n ∷ [])

abbrev pub outcome_id : ℕ → String
outcome_id n = format ("outcome-" ∷ pad 6 n ∷ [])

unfoldable pub next_event_id : MemoryEventStore → String × MemoryEventStore
next_event_id s = let n = inc64 s.event_counter in (event_id n, record s { event_counter = n })

unfoldable pub record_event : MemoryEventStore → StoredEvent → MemoryEventStore
record_event s event = record s { events = s.events ++ event ∷ [] }

unfoldable pub find_event : MemoryEventStore → String → Option StoredEvent
find_event s id = find (λ e. e.event_id == id) s.events

unfoldable pub events_for_domain : MemoryEventStore → DomainKey → List StoredEvent
unfolding key_eq
events_for_domain s domain = filter (λ e. key_eq e.domain domain) s.events

unfoldable pub next_decision_id : MemoryEventStore → String × MemoryEventStore
next_decision_id s =
    let n = inc64 s.decision_counter in (decision_id n, record s { decision_counter = n })

unfoldable pub record_decision : MemoryEventStore → StoredDecision → MemoryEventStore
record_decision s decision = record s { decisions = s.decisions ++ decision ∷ [] }

unfoldable pub find_decision : MemoryEventStore → String → Option StoredDecision
find_decision s id = find (λ d. d.decision_id == id) s.decisions

unfoldable pub next_outcome_id : MemoryEventStore → String × MemoryEventStore
next_outcome_id s =
    let n = inc64 s.outcome_counter in (outcome_id n, record s { outcome_counter = n })

unfoldable pub record_outcome : MemoryEventStore → StoredOutcome → MemoryEventStore
record_outcome s outcome = record s { outcomes = s.outcomes ++ outcome ∷ [] }

unfoldable pub find_outcome : MemoryEventStore → String → Option StoredOutcome
find_outcome s id = find (λ o. o.outcome_id == id) s.outcomes

-- `impl EventStore for MemoryEventStore`; `health` is the trait's default.
abbrev pub memory : EventStore MemoryEventStore
memory = record {
  health = λ s. ok tt;
  current_state_version = current_state_version;
  advance_state_version = advance_state_version;
  next_event_id = next_event_id;
  record_event = record_event;
  event = find_event;
  events_for_domain = events_for_domain;
  all_events = λ s. s.events;
  next_decision_id = next_decision_id;
  record_decision = record_decision;
  decision = find_decision;
  next_outcome_id = next_outcome_id;
  record_outcome = record_outcome;
  outcome = find_outcome;
}
