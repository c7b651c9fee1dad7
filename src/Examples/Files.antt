-- ===== src/Examples/Files.antt =====
-- src/store/json_file.rs: a codec that knows two stores, and a store in the directory "data" whose
-- second write finds no room.
use r2r_jev.Prelude.{
  String, List, [], ◌∷◌, ◌++◌, Option, none, some, Bool, true, false, ◌&&◌, ℕ, zero, suc, ◌≡◌, ◌≢◌,
  refl, ◌∙◌, sym, ap, subst, arith, ◌==◌, eq_iff, Bool-cases, inl, inr, if◌then◌else◌, is_empty,
  nat_eq,
}
use r2r_jev.Prelude.Assoc.{lookup, insert}
use r2r_jev.Store.{StoredEvent, ReplayObservation}
use r2r_jev.Store.Memory.{MemoryEventStore, memory, new_store, record_event}
use r2r_jev.Prelude.{ap}
use r2r_jev.Examples.Disk.{
  path, temp, temp_other, kept, write-keeps, write-done, rename-done, rename-failed, Ram, ram,
  remove, path_eq, option_eq, lookup-remove, file_path_eq,
}
use r2r_jev.Store.JsonFile.{
  done, failed, Codec, Attached, opened, open_store, json_file, persist, persist_inner,
}
use r2r_jev.Store.JsonFile.Disk.{Reliable}
use r2r_jev.Store.JsonFile.Runs.{run_call, StoreCall, add_event, number_event, run_calls}
use r2r_jev.Store.JsonFile.Durable.{run_calls-recoverable, record_event-saved}

abbrev started : StoredEvent
started = record {
  event_id = "event-000001";
  kernel_event_id = "event-0001";
  domain = record { subject = "agent:coder"; scope = "repo:alpha" };
  action = "git.push";
  state_version = "state-000000";
  relation_transitions = [];
  provenance = [];
  replay_observation = none;
}

abbrev one_event : MemoryEventStore
one_event = record new_store { events = started ∷ [] }

abbrev no_input : Option ReplayObservation → Bool
no_input none = true
no_input (some input) = false

unfoldable is_started : StoredEvent → Bool
is_started e =
    e.event_id == "event-000001"
    && e.kernel_event_id == "event-0001"
    && e.domain.subject == "agent:coder"
    && e.domain.scope == "repo:alpha"
    && e.action == "git.push"
    && e.state_version == "state-000000"
    && is_empty e.relation_transitions
    && is_empty e.provenance
    && no_input e.replay_observation

abbrev times : ℕ → List StoredEvent
times zero = []
times (suc n) = started ∷ times n

abbrev events_only : ℕ → MemoryEventStore
events_only n = record new_store { events = times n }

unfoldable are_started : ℕ → List StoredEvent → Bool
are_started zero es = is_empty es
are_started (suc n) [] = false
are_started (suc n) (e ∷ es) = is_started e && are_started n es

abbrev is_events_only : ℕ → MemoryEventStore → Bool
is_events_only n s =
    are_started n s.events
    && is_empty s.decisions
    && is_empty s.outcomes
    && is_empty s.state_versions
    && nat_eq s.event_counter 0
    && nat_eq s.decision_counter 0
    && nat_eq s.outcome_counter 0

is_started_lem : (e : StoredEvent) → is_started e ≡ true → e ≡ started
unfolding is_started
is_started_lem e h = ground (
  arith,
  eq_iff e.event_id "event-000001",
  eq_iff e.kernel_event_id "event-0001",
  eq_iff e.domain.subject "agent:coder",
  eq_iff e.domain.scope "repo:alpha",
  eq_iff e.action "git.push",
  eq_iff e.state_version "state-000000",
)

are_started_lem : (n : ℕ) (es : List StoredEvent) → are_started n es ≡ true → es ≡ times n
unfolding are_started
are_started_lem zero [] h = refl
are_started_lem zero (e ∷ es) h = absurd (cc h)
are_started_lem (suc n) [] h = absurd (cc h)
are_started_lem (suc n) (e ∷ es) h =
    let first = is_started_lem e (ground (arith, h)) in
    let later = are_started_lem n es (ground (arith, h)) in
    ap (λ (x : StoredEvent). x ∷ es) first ∙ ap (λ (xs : List StoredEvent). started ∷ xs) later

is_events_only_lem : (n : ℕ) (s : MemoryEventStore) → is_events_only n s ≡ true → s ≡ events_only n
is_events_only_lem n s h =
    let events : s.events ≡ times n = are_started_lem n s.events (ground (arith, h)) in
    ground (arith, h, events)

abbrev codec : Codec
codec = record {
  to_vec_pretty = λ s.
      if is_events_only 1 s
      then done "{one event}"
      else if is_events_only 2 s
      then done "{two events}"
      else failed "unknown store";
  from_slice = λ bytes.
      if bytes == "{one event}"
      then done (events_only 1)
      else if bytes == "{two events}"
      then done (events_only 2)
      else failed "unknown text";
}

abbrev Decodes : MemoryEventStore → String → Type 0
Decodes s bytes = (bytes ≢ "") × (codec.from_slice bytes ≡ done s)

one_text : Decodes (events_only 1) "{one event}"
one_text = (λ h. absurd (cc h), refl)

two_texts : Decodes (events_only 2) "{two events}"
two_texts = (λ h. absurd (cc h), refl)

codec-Decodes :
    (s : MemoryEventStore) (bytes : String) → codec.to_vec_pretty s ≡ done bytes → Decodes s bytes
codec-Decodes s bytes h = elim (Bool-cases (is_events_only 1 s)) [
  | inl known ↦
      let same : "{one event}" ≡ bytes = cc (rw known at h) in
      subst (λ t. Decodes t bytes) (sym (is_events_only_lem 1 s known))
        (subst (Decodes (events_only 1)) same one_text)
  | inr other ↦ elim (Bool-cases (is_events_only 2 s)) [
    | inl known ↦
        let same : "{two events}" ≡ bytes = cc (rw known at (rw other at h)) in
        subst (λ t. Decodes t bytes) (sym (is_events_only_lem 2 s known))
          (subst (Decodes (events_only 2)) same two_texts)
    | inr unknown ↦ absurd (cc (rw unknown at (rw other at h)))
  ]
]

ram-Reliable : Reliable ram codec path
ram-Reliable = record {
  create_keeps = λ d. (refl, refl);
  write_keeps = λ d bytes other. write-keeps d bytes;
  write_done = write-done;
  rename_done = λ d d' bytes. rename-done d d' bytes (lookup temp d.files);
  rename_failed = λ d d' e. rename-failed d d' e (lookup temp d.files);
  remove_keeps = λ d other.
      kept d (record d { files = remove temp d.files }) (lookup-remove temp path d.files temp_other)
        refl;
  decodes = codec-Decodes;
}

-- Room for one write.
abbrev empty_disk : Attached Ram
empty_disk = record {
  store = record { path = path; inner = new_store; fatal_error = none };
  disk = record { directories = []; files = []; room = 1 };
}

abbrev calls : List StoreCall
calls = add_event started ∷ add_event started ∷ number_event ∷ []

second_fails :
    (run_calls (json_file ram codec) empty_disk calls).store.fatal_error
    ≡ some "failed to write temporary store data/.store.json.tmp: no space left on device"
unfolding run_calls run_call persist persist_inner are_started record_event is_started lookup insert
    path_eq option_eq
second_fails = refl

first_saved :
    open_store ram codec (run_calls (json_file ram codec) empty_disk calls).disk path
    ≡ opened ram codec path (events_only 1)
unfolding run_calls open_store lookup run_call persist persist_inner are_started record_event
    is_started insert path_eq option_eq remove
first_saved = refl

run_calls-recoverable_example :
    let b = run_calls (json_file ram codec) empty_disk calls in
    (b.store.inner ≡ run_calls memory new_store calls)
    × ((saved : List StoreCall) × (unsaved : List StoreCall) × (calls ≡ saved ++ unsaved)
        × (open_store ram codec b.disk path
            ≡ opened ram codec path (run_calls memory new_store saved)))
unfolding open_store lookup
run_calls-recoverable_example =
    run_calls-recoverable ram codec path empty_disk.disk new_store calls ram-Reliable refl

record_event-saved_example :
    let b = (json_file ram codec).record_event empty_disk started in
    open_store ram codec b.disk path ≡ opened ram codec path b.store.inner
unfolding persist persist_inner record_event are_started is_started lookup insert remove path_eq
    option_eq
record_event-saved_example = record_event-saved ram codec empty_disk started ram-Reliable refl
