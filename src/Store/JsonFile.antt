-- ===== src/Store/JsonFile.antt =====
-- src/store/json_file.rs: the store in a file. Each recorded item rewrites the file by way of a
-- temporary one. The file system and the JSON codec are parameters; a disk of type `D` is threaded
-- through the calls that write.
pub mod Disk
pub mod Durable
pub mod Runs
use r2r_jev.Prelude.{
  String, [], ◌∷◌, Option, none, some, Bool, true, false, Result, ok, err, panic, ◌==◌,
  if◌then◌else◌,
}
use r2r_jev.Prelude.Format.{format}
use r2r_jev.Store.{DomainKey, StoredEvent, StoredDecision, StoredOutcome, EventStore}
use r2r_jev.Store.Memory.{
  MemoryEventStore, new_store, current_state_version, advance_state_version, next_event_id,
  record_event, find_event, events_for_domain, next_decision_id, record_decision, find_decision,
  next_outcome_id, record_outcome, find_outcome,
}

-- The result of a call of the system: a value, or the text of its error.
pub data Io (A : Type 0) : Type 0 where
  done : A → Io A
  failed : String → Io A

-- A path by its parent directory, which may be empty, and its file name.
pub record FilePath : Type 0 where
  pub directory : String
  pub file_name : Option String

-- The calls of `std::fs`.
pub record FileSystem (D : Type 0) : Type 0 where
  pub exists : D → FilePath → Bool
  pub read : D → FilePath → Io String
  pub create_dir_all : D → String → Io (Unit {0}) × D
  pub write : D → FilePath → String → Io (Unit {0}) × D
  pub rename : D → FilePath → FilePath → Io (Unit {0}) × D
  pub remove_file : D → FilePath → Io (Unit {0}) × D

-- `serde_json` on the memory store.
pub record Codec : Type 0 where
  pub to_vec_pretty : MemoryEventStore → Io String
  pub from_slice : String → Io MemoryEventStore

pub record JsonFileEventStore : Type 0 where
  pub path : FilePath
  pub inner : MemoryEventStore
  pub fatal_error : Option String

abbrev pub name_of : Option String → String
name_of none = "r2r-store.json"
name_of (some name) = name

abbrev pub temp_path : FilePath → FilePath
temp_path p = record p { file_name = some (format ("." ∷ name_of p.file_name ∷ ".tmp" ∷ [])) }

-- `path.display()`, as the messages show it.
abbrev display : FilePath → String
display p = elim p.file_name [
  | none ↦ p.directory
  | some name ↦ if p.directory == "" then name else format (p.directory ∷ "/" ∷ name ∷ [])
]

-- The store with the disk that it writes to.
pub record Attached (D : Type 0) : Type 0 where
  pub store : JsonFileEventStore
  pub disk : D

module _ {D : Type 0} (fs : FileSystem D) (codec : Codec) where
  abbrev pub opened : FilePath → MemoryEventStore → Result JsonFileEventStore
  opened path inner = ok (record { path = path; inner = inner; fatal_error = none })

  abbrev pub decoded : FilePath → Io MemoryEventStore → Result JsonFileEventStore
  decoded path (done inner) = opened path inner
  decoded path (failed e) =
      err (format ("failed to decode event store " ∷ display path ∷ ": " ∷ e ∷ []))

  abbrev pub loaded : FilePath → Io String → Result JsonFileEventStore
  loaded path (done bytes) =
      if bytes == "" then opened path new_store else decoded path (codec.from_slice bytes)
  loaded path (failed e) =
      err (format ("failed to read event store " ∷ display path ∷ ": " ∷ e ∷ []))

  unfoldable pub open_store : D → FilePath → Result JsonFileEventStore
  open_store disk path =
      if fs.exists disk path then loaded path (fs.read disk path) else opened path new_store

  -- `fs::rename(..).map_err(..)`: a failed rename removes the temporary file.
  abbrev pub renamed : FilePath → Io (Unit {0}) × D → Io (Unit {0}) × D
  renamed path (done u, disk) = (done u, disk)
  renamed path (failed e, disk) =
      let (ignored, cleaned) = fs.remove_file disk (temp_path path) in
      (
        failed
            (format ("failed to atomically replace event store " ∷ display path ∷ ": " ∷ e ∷ [])),
        cleaned,
      )

  abbrev pub written : FilePath → Io (Unit {0}) × D → Io (Unit {0}) × D
  written path (done u, disk) = renamed path (fs.rename disk (temp_path path) path)
  written path (failed e, disk) = (
    failed (format ("failed to write temporary store " ∷ display (temp_path path) ∷ ": " ∷ e ∷ [])),
    disk,
  )

  abbrev pub encoded : FilePath → D → Io String → Io (Unit {0}) × D
  encoded path disk (done bytes) = written path (fs.write disk (temp_path path) bytes)
  encoded path disk (failed e) = (failed (format ("failed to encode event store: " ∷ e ∷ [])), disk)

  abbrev pub with_directory : JsonFileEventStore → Io (Unit {0}) × D → Io (Unit {0}) × D
  with_directory store (done u, disk) = encoded store.path disk (codec.to_vec_pretty store.inner)
  with_directory store (failed e, disk) = (
    failed (format ("failed to create store directory " ∷ store.path.directory ∷ ": " ∷ e ∷ [])),
    disk,
  )

  unfoldable pub persist_inner : D → JsonFileEventStore → Io (Unit {0}) × D
  persist_inner disk store =
      if store.path.directory == ""
      then with_directory store (done tt, disk)
      else with_directory store (fs.create_dir_all disk store.path.directory)

  abbrev pub noted : JsonFileEventStore → Io (Unit {0}) × D → Attached D
  noted store (done u, disk) = record { store = store; disk = disk }
  noted store (failed e, disk) = record {
    store = record store { fatal_error = some e };
    disk = disk;
  }

  abbrev pub persist_if : Option String → Attached D → Attached D
  persist_if (some e) a = a
  persist_if none a = noted a.store (persist_inner a.disk a.store)

  unfoldable pub persist : Attached D → Attached D
  persist a = persist_if a.store.fatal_error a

  abbrev pub with_inner : Attached D → MemoryEventStore → Attached D
  with_inner a inner = record a { store = record a.store { inner = inner } }

  abbrev pub health_of : Option String → Result (Unit {0})
  health_of (some e) = err e
  health_of none = ok tt

  -- `impl EventStore for JsonFileEventStore`.
  abbrev pub json_file : EventStore (Attached D)
  json_file = record {
    health = λ a. health_of a.store.fatal_error;
    current_state_version = λ a key. current_state_version a.store.inner key;
    advance_state_version = λ a key.
        let (version, inner) = advance_state_version a.store.inner key in
        (version, with_inner a inner);
    next_event_id = λ a. let (id, inner) = next_event_id a.store.inner in (id, with_inner a inner);
    record_event = λ a event. persist (with_inner a (record_event a.store.inner event));
    event = λ a id. find_event a.store.inner id;
    events_for_domain = λ a key. events_for_domain a.store.inner key;
    all_events = λ a. a.store.inner.events;
    next_decision_id =
        λ a. let (id, inner) = next_decision_id a.store.inner in (id, with_inner a inner);
    record_decision = λ a decision. persist (with_inner a (record_decision a.store.inner decision));
    decision = λ a id. find_decision a.store.inner id;
    next_outcome_id =
        λ a. let (id, inner) = next_outcome_id a.store.inner in (id, with_inner a inner);
    record_outcome = λ a outcome. persist (with_inner a (record_outcome a.store.inner outcome));
    outcome = λ a id. find_outcome a.store.inner id;
  }
