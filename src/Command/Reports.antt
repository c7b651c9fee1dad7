-- ===== src/Command/Reports.antt =====
-- src/bin/r2r-enforce.rs: what the exit codes of a crash and of a refusal tell.
use r2r_jev.Prelude.{
  ◌≡◌, Bool, true, false, ◌==◌, refl, String, List, [], ◌∷◌, none, Result, ok, err, panic, arith,
  if◌then◌else◌,
}
use r2r_jev.Store.JsonFile.{
  FilePath, FileSystem, Codec, JsonFileEventStore, Attached, open_store, json_file, Io, done,
  failed, loaded, decoded,
}
use r2r_jev.Store.Memory.{MemoryEventStore}
use r2r_jev.Enforcement.{ExecutionBindingResult}
use r2r_jev.Command.{
  Args, Given, nothing_given, Flag, help, unknown, flag_of, give, refuse, usage, parse_args,
  parse_from, all_given, answered, checked, with_args, main, request_of,
}
use r2r_jev.Prelude.{◌++◌, ◌≢◌, ◌↔◌, ◌⊎◌, inl, inr, Bool-cases, subst, sym, ap, ◌∙◌, ◌>>=◌}
use r2r_jev.Command.{OsString, unicode, not_unicode, takes_value}
use r2r_jev.Command.Arguments.{
  Field, command_line, name_of, flag_of-takes_value, parse_from-setting, parse_from-command_line,
  with_setting, after_all, store_field, decision_field, action_field, version_field,
}
use r2r_jev.Command.Exits.{open_store-healthy}
use r2r_jev.Enforcement.Gate.{Executable, validate_execution_exact}

-- A call that returns, with a value or with an error.
abbrev Returns {α} : {A : Type α} → Result A → Type 0
Returns panic = ⊥
Returns (err message) = Unit {0}
Returns (ok value) = Unit {0}

all_given-Returns : (given : Given) → Returns (all_given given)
unfolding all_given
all_given-Returns given = ground arith

if-Returns {α} :
    {A : Type α} (test : Bool) (first second : Result A)
    → Returns first
    → Returns second
    → Returns (if test then first else second)
if-Returns true first second f s = f
if-Returns false first second f s = s

-- The arguments that are read come to one that is no Unicode: after some settings, it stands in the
-- place of a flag or of the value of a flag.
pub record Stops (args : List OsString) : Type 0 where
  pub settings : List (Field × String)
  pub rest : List OsString
  pub cut :
      (args ≡ command_line settings ++ not_unicode ∷ rest)
      ⊎ ((field : Field) × (args
            ≡ command_line settings ++ unicode (name_of field) ∷ not_unicode ∷ rest))

later-Stops :
    (field : Field) (value : String) (rest : List OsString)
    → Stops rest
    → Stops (unicode (name_of field) ∷ unicode value ∷ rest)
later-Stops field value rest s = record {
  settings = (field, value) ∷ s.settings;
  rest = s.rest;
  cut = elim s.cut [
    | inl e ↦ inl (ap (λ xs. unicode (name_of field) ∷ unicode value ∷ xs) e)
    | inr (other, e) ↦ inr (other, ap (λ xs. unicode (name_of field) ∷ unicode value ∷ xs) e)
  ];
}

parse_from-Stops :
    (given : Given) (args : List OsString) → parse_from given args ≡ panic → Stops args
unfolding parse_from
parse_from-Stops given [] e = absurd (subst Returns e (all_given-Returns given))
parse_from-Stops given (not_unicode ∷ rest) e = record {
  settings = [];
  rest = rest;
  cut = inl refl;
}
parse_from-Stops given (unicode arg ∷ []) e = absurd (ground arith)
parse_from-Stops given (unicode arg ∷ not_unicode ∷ rest) e = go (flag_of arg) refl e
  where
    go :
        (flag : Flag)
        → flag_of arg ≡ flag
        → elim flag [ takes_value ↦ panic | help ↦ err usage | unknown ↦ refuse arg ] ≡ panic
        → Stops (unicode arg ∷ not_unicode ∷ rest)
    go takes_value f e =
        let (field, named) = flag_of-takes_value arg f in
        record {
          settings = [];
          rest = rest;
          cut = inr (field, ap (λ a. unicode a ∷ not_unicode ∷ rest) named);
        }
    go help f e = absurd (cc e)
    go unknown f e = absurd (cc e)
parse_from-Stops given (unicode arg ∷ unicode value ∷ rest) e =
    go (λ next. parse_from-Stops next rest) (flag_of arg) refl e
  where
    go :
        ((next : Given) → parse_from next rest ≡ panic → Stops rest)
        → (flag : Flag) → flag_of arg ≡ flag
        → elim flag [
          | takes_value ↦ give arg value given >>= λ next. parse_from next rest
          | help ↦ err usage
          | unknown ↦ refuse arg
        ]
          ≡ panic
        → Stops (unicode arg ∷ unicode value ∷ rest)
    go later takes_value f stopped =
        let (field, named) = flag_of-takes_value arg f in
        let read =
          subst (λ a. parse_from given (unicode a ∷ unicode value ∷ rest) ≡ panic) named e in
        subst (λ a. Stops (unicode a ∷ unicode value ∷ rest)) (sym named)
          (later-Stops field value rest (
            later (with_setting field value given)
              (sym (parse_from-setting field value given rest) ∙ read)))
    go later help f stopped = absurd (cc stopped)
    go later unknown f stopped = absurd (cc stopped)

value_missing :
    (field : Field) (given : Given) (rest : List OsString)
    → parse_from given (unicode (name_of field) ∷ not_unicode ∷ rest) ≡ panic
unfolding parse_from
value_missing store_field given rest = refl
value_missing decision_field given rest = refl
value_missing action_field given rest = refl
value_missing version_field given rest = refl

Stops-parse_args : (args : List OsString) → Stops args → parse_args args ≡ panic
unfolding parse_args
Stops-parse_args args s =
    let given = after_all nothing_given s.settings in
    elim s.cut [
      | inl e ↦
          (ap (parse_from nothing_given) e
            ∙ (parse_from-command_line s.settings nothing_given (not_unicode ∷ s.rest)
                ∙ unfold parse_from in refl))
      | inr (field, e) ↦
          (ap (parse_from nothing_given) e
            ∙ (parse_from-command_line s.settings nothing_given
                  (unicode (name_of field) ∷ not_unicode ∷ s.rest)
                ∙ value_missing field given s.rest))
    ]

-- What a verdict of the gate exits with.
verdict_code :
    (result : ExecutionBindingResult)
    → (((answered (ok result)).code ≡ 3) ↔ (result.allowed ≡ false))
      × ((answered (ok result)).code ≢ 101)
verdict_code result = elim (Bool-cases result.allowed) [
  | inl granted ↦ rw granted ((λ e. absurd (omega arith), λ e. absurd (cc e)), λ e. omega arith)
  | inr denied ↦ rw denied ((λ e. refl, λ e. refl), λ e. omega arith)
]

module _ {D : Type 0} (fs : FileSystem D) (codec : Codec) where
  decoded-Returns :
      (path : FilePath) (read : Io MemoryEventStore) → Returns (decoded fs codec path read)
  decoded-Returns path (done inner) = tt
  decoded-Returns path (failed message) = tt

  loaded-Returns : (path : FilePath) (read : Io String) → Returns (loaded fs codec path read)
  loaded-Returns path (done bytes) =
      if-Returns (bytes == "") _ _ tt (decoded-Returns path (codec.from_slice bytes))
  loaded-Returns path (failed message) = tt

  open_store-Returns : (disk : D) (path : FilePath) → Returns (open_store fs codec disk path)
  unfolding open_store
  open_store-Returns disk path =
      if-Returns (fs.exists disk path) _ _ (loaded-Returns path (fs.read disk path)) tt

module _ {D : Type 0} (fs : FileSystem D) (codec : Codec) (path_from : String → FilePath) where
  abbrev Permits : (disk : D) (parsed : Args) (store : JsonFileEventStore) → Type 0
  Permits disk parsed store =
      Executable (json_file fs codec) (record { store = store; disk = disk }) (request_of parsed)

  -- The arguments are read and their store opens, but the decision that they name does not permit
  -- the action now.
  pub record Refused (disk : D) (args : List OsString) : Type 0 where
    pub parsed : Args
    pub parsed_ok : parse_args args ≡ ok parsed
    pub store : JsonFileEventStore
    pub store_ok : open_store fs codec disk (path_from parsed.store) ≡ ok store
    pub refused : ¬ Permits disk parsed store

  -- What the command does with an open store.
  with_store_code :
      (disk : D) (parsed : Args) (store : JsonFileEventStore)
      → store.fatal_error ≡ none
      → (((checked fs codec path_from disk parsed (ok store)).code ≡ 3)
          ↔ (¬ Permits disk parsed store))
        × ((checked fs codec path_from disk parsed (ok store)).code ≢ 101)
  with_store_code disk parsed store healthy =
      let attached : Attached D = record { store = store; disk = disk } in
      let (result, found, exact) =
        validate_execution_exact (json_file fs codec) attached (request_of parsed)
          (rw healthy refl) in
      let (three, crash) = verdict_code result in
      (
        (
          λ e x. absurd (cc (exact.1 x, three.0 (rw found at e))),
          λ n. rw found (
              three.1 (elim (Bool-cases result.allowed) [
                | inl granted ↦ absurd (n (exact.0 granted))
                | inr denied ↦ denied
              ])),
        ),
        λ e. crash (rw found at e),
      )

  checked_code :
      (disk : D) (parsed : Args) (opened : Result JsonFileEventStore)
      → open_store fs codec disk (path_from parsed.store) ≡ opened
      → (((checked fs codec path_from disk parsed opened).code ≡ 3)
          → (store : JsonFileEventStore) × (opened ≡ ok store) × (¬ Permits disk parsed store))
        × ((checked fs codec path_from disk parsed opened).code ≢ 101)
  checked_code disk parsed (err error) o = (λ e. absurd (omega arith), λ e. omega arith)
  checked_code disk parsed panic o =
      absurd (subst Returns o (open_store-Returns fs codec disk (path_from parsed.store)))
  checked_code disk parsed (ok store) o =
      let (three, crash) =
        with_store_code disk parsed store (open_store-healthy fs codec disk _ o) in
      (λ e. (store, refl, three.0 e), crash)

  with_args_code :
      (disk : D) (args : List OsString) (read : Result Args)
      → parse_args args ≡ read
      → (((with_args fs codec path_from disk read).code ≡ 3) → Refused disk args)
        × (((with_args fs codec path_from disk read).code ≡ 101) → parse_args args ≡ panic)
  with_args_code disk args (err error) r = (λ e. absurd (omega arith), λ e. absurd (omega arith))
  with_args_code disk args panic r = (λ e. absurd (omega arith), λ e. r)
  with_args_code disk args (ok parsed) r =
      let (three, crash) = checked_code disk parsed _ refl in
      (
        λ e.
            let (store, opened, refused) = three e in
            record {
              parsed = parsed;
              parsed_ok = r;
              store = store;
              store_ok = opened;
              refused = refused;
            },
        λ e. absurd (crash e),
      )

  -- The exit codes of the command that are no success: it exits with 3 exactly if its arguments are
  -- read, the store that they name opens, and the decision that they name does not permit the action
  -- now; and it crashes (101) exactly if it comes to an argument that is no Unicode, in the place of
  -- a flag or of a value after some flags with values, whatever the disk and the stored bytes are.
  pub main_code_iff :
      (disk : D) (args : List OsString)
      → (((main fs codec path_from disk args).code ≡ 3) ↔ Refused disk args)
        × (((main fs codec path_from disk args).code ≡ 101) ↔ Stops args)
  unfolding main
  main_code_iff disk args =
      let (three, crash) = with_args_code disk args _ refl in
      (
        (
          three,
          λ r.
              let healthy = open_store-healthy fs codec disk _ r.store_ok in
              rw (r.parsed_ok, r.store_ok)
                ((with_store_code disk r.parsed r.store healthy).0.1 r.refused),
        ),
        (
          λ e. parse_from-Stops nothing_given args (unfold parse_args in crash e),
          λ s. rw (Stops-parse_args args s) refl,
        ),
      )
