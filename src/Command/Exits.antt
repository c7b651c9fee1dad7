-- ===== src/Command/Exits.antt =====
-- src/bin/r2r-enforce.rs: what the exit code tells.
use r2r_jev.Prelude.{
  ◌≡◌, ◌↔◌, refl, String, List, none, true, Result, ok, err, panic, arith, ok-injective, subst,
}
use r2r_jev.Store.JsonFile.{
  FilePath, FileSystem, Codec, JsonFileEventStore, Attached, open_store, json_file, Io, done,
  failed, loaded, decoded,
}
use r2r_jev.Store.Memory.{MemoryEventStore}
use r2r_jev.Enforcement.{ExecutionBindingResult}
use r2r_jev.Enforcement.Gate.{Executable, validate_execution_exact, allowed-Executable}
use r2r_jev.Command.{OsString, Args, parse_args, answered, checked, with_args, main, request_of}

module _ {D : Type 0} (fs : FileSystem D) (codec : Codec) where
  decoded-healthy :
      (path : FilePath) (read : Io MemoryEventStore) {store : JsonFileEventStore}
      → decoded fs codec path read ≡ ok store
      → store.fatal_error ≡ none
  decoded-healthy path (done inner) e = ground arith
  decoded-healthy path (failed message) e = absurd (cc e)

  loaded-healthy :
      (path : FilePath) (read : Io String) {store : JsonFileEventStore}
      → loaded fs codec path read ≡ ok store
      → store.fatal_error ≡ none
  loaded-healthy path (done bytes) {store} e =
      ground (arith, decoded-healthy path (codec.from_slice bytes) {store = store})
  loaded-healthy path (failed message) e = absurd (cc e)

  pub open_store-healthy :
      (disk : D) (path : FilePath) {store : JsonFileEventStore}
      → open_store fs codec disk path ≡ ok store
      → store.fatal_error ≡ none
  unfolding open_store
  open_store-healthy disk path {store} e =
      ground (arith, loaded-healthy path (fs.read disk path) {store = store})

answered_zero :
    (answer : Result ExecutionBindingResult)
    → ((answered answer).code ≡ 0)
      ↔ ((result : ExecutionBindingResult) × (answer ≡ ok result) × (result.allowed ≡ true))
answered_zero (err error) = (λ e. absurd (omega arith), λ a. absurd (cc a.1))
answered_zero panic = (λ e. absurd (omega arith), λ a. absurd (cc a.1))
answered_zero (ok result) = (
  λ e. (result, refl, ground arith),
  λ a. let same : result ≡ a.0 = ok-injective a.1 in rw (same, a.2) refl,
)

module _ {D : Type 0} (fs : FileSystem D) (codec : Codec) (path_from : String → FilePath) where
  -- The store that the arguments name, and the conditions of the gate over what it holds.
  pub record Permitted (disk : D) (args : List OsString) : Type 0 where
    pub parsed : Args
    pub parsed_ok : parse_args args ≡ ok parsed
    pub store : JsonFileEventStore
    pub store_ok : open_store fs codec disk (path_from parsed.store) ≡ ok store
    pub executable :
        Executable (json_file fs codec) (record { store = store; disk = disk }) (request_of parsed)

  Permits : (disk : D) (parsed : Args) (store : JsonFileEventStore) → Type 0
  Permits disk parsed store =
      Executable (json_file fs codec) (record { store = store; disk = disk }) (request_of parsed)

  checked-Permits :
      (disk : D) (parsed : Args) (opened : Result JsonFileEventStore)
      → (checked fs codec path_from disk parsed opened).code ≡ 0
      → (store : JsonFileEventStore) × (opened ≡ ok store) × Permits disk parsed store
  unfolding Permits
  checked-Permits disk parsed (err error) e = absurd (omega arith)
  checked-Permits disk parsed panic e = absurd (omega arith)
  checked-Permits disk parsed (ok store) e =
      let (result, answer, allowed) = (answered_zero _).0 e in
      (store, refl, (allowed-Executable (json_file fs codec) _ _ result answer allowed).1)

  Permits-checked :
      (disk : D) (parsed : Args) (store : JsonFileEventStore)
      → store.fatal_error ≡ none
      → Permits disk parsed store
      → (checked fs codec path_from disk parsed (ok store)).code ≡ 0
  unfolding Permits
  Permits-checked disk parsed store healthy executable =
      let attached : Attached D = record { store = store; disk = disk } in
      let (result, answer, exact) =
        validate_execution_exact (json_file fs codec) attached (request_of parsed)
          (rw healthy refl) in
      (answered_zero _).1 (result, answer, exact.1 executable)

  with_args-parsed :
      (disk : D) (args : Result Args)
      → (with_args fs codec path_from disk args).code ≡ 0
      → (parsed : Args) × (args ≡ ok parsed)
  with_args-parsed disk (err error) e = absurd (omega arith)
  with_args-parsed disk panic e = absurd (omega arith)
  with_args-parsed disk (ok parsed) e = (parsed, refl)

  -- The command succeeds exactly when its arguments are read, the store they name opens, and the
  -- decision they name permits the action now. Every failure on the way gives another exit code.
  pub main_zero_iff :
      (disk : D) (args : List OsString)
      → ((main fs codec path_from disk args).code ≡ 0) ↔ Permitted disk args
  unfolding main Permits
  main_zero_iff disk args = (
    λ e.
        let (parsed, read) = with_args-parsed disk (parse_args args) e in
        let (store, opened, executable) =
          checked-Permits disk parsed _
            (subst (λ r. (with_args fs codec path_from disk r).code ≡ 0) read e) in
        record {
          parsed = parsed;
          parsed_ok = read;
          store = store;
          store_ok = opened;
          executable = executable;
        },
    λ p.
        rw (p.parsed_ok, p.store_ok)
          (Permits-checked disk p.parsed p.store (open_store-healthy fs codec disk _ p.store_ok)
            p.executable),
  )
