-- ===== src/Command.antt =====
-- src/bin/r2r-enforce.rs: the command that checks one decision against a store file and tells the
-- answer by its exit code.
pub mod Arguments
pub mod Exits
pub mod Reports
use r2r_jev.Prelude.{
  ℕ, String, List, [], ◌∷◌, Option, none, some, Bool, true, false, ◌||◌, Result, ok, err, panic,
  ◌>>=◌, ◌>>◌, ◌==◌, if◌then◌else◌,
}
use r2r_jev.Prelude.Format.{format}
use r2r_jev.Store.JsonFile.{
  FilePath, FileSystem, Codec, JsonFileEventStore, Attached, open_store, json_file,
}
use r2r_jev.Enforcement.{ExecutionBindingRequest, ExecutionBindingResult, validate_execution}

pub record Args : Type 0 where
  pub store : String
  pub decision_id : String
  pub action : String
  pub state_version : String

abbrev pub usage : String
usage =
    "usage: r2r-enforce --store <path> --decision <decision-id> --action <action> --state-version <state-version>"

-- The four variables of the loop.
pub record Given : Type 0 where
  pub store : Option String
  pub decision_id : Option String
  pub action : Option String
  pub state_version : Option String

abbrev pub nothing_given : Given
nothing_given = record { store = none; decision_id = none; action = none; state_version = none }

-- An argument of the process: text, or bytes that are no Unicode, on which `std::env::args` panics
-- when it comes to them.
pub data OsString : Type 0 where
  unicode : String → OsString
  not_unicode : OsString

-- What the first `match` of the loop makes of an argument.
pub data Flag : Type 0 where
  takes_value help unknown : Flag

abbrev pub flag_of : String → Flag
flag_of arg =
    if arg == "--store" || (arg == "--decision" || (arg == "--action" || arg == "--state-version"))
    then takes_value
    else if arg == "--help" || arg == "-h"
    then help
    else unknown

-- The second `match`; its last arm is `unreachable!()`.
unfoldable pub give : String → String → Given → Result Given
give arg value given =
    if arg == "--store"
    then ok (record given { store = some value })
    else if arg == "--decision"
    then ok (record given { decision_id = some value })
    else if arg == "--action"
    then ok (record given { action = some value })
    else if arg == "--state-version"
    then ok (record given { state_version = some value })
    else panic

abbrev pub refuse : String → Result Args
refuse arg = err (format ("unknown argument " ∷ arg ∷ "; " ∷ usage ∷ []))

abbrev pub needed : String → Option String → Result String
needed name none = err (format (name ∷ " is required; " ∷ usage ∷ []))
needed name (some value) = ok value

unfoldable pub all_given : Given → Result Args
all_given given = do
  store ← needed "--store" given.store
  decision_id ← needed "--decision" given.decision_id
  action ← needed "--action" given.action
  state_version ← needed "--state-version" given.state_version
  ok (record {
    store = store;
    decision_id = decision_id;
    action = action;
    state_version = state_version;
  })

abbrev pub missing_value : String → Result Args
missing_value arg = err (format ("missing value for " ∷ arg ∷ "; " ∷ usage ∷ []))

-- The loop over `args`, which takes a flag and then its value.
unfoldable pub parse_from : Given → List OsString → Result Args
parse_from given [] = all_given given
parse_from given (not_unicode ∷ rest) = panic
parse_from given (unicode arg ∷ []) = elim (flag_of arg) [
  | takes_value ↦ missing_value arg
  | help ↦ err usage
  | unknown ↦ refuse arg
]
parse_from given (unicode arg ∷ not_unicode ∷ rest) = elim (flag_of arg) [
  | takes_value ↦ panic
  | help ↦ err usage
  | unknown ↦ refuse arg
]
parse_from given (unicode arg ∷ unicode value ∷ rest) = elim (flag_of arg) [
  | takes_value ↦ give arg value given >>= λ next. parse_from next rest
  | help ↦ err usage
  | unknown ↦ refuse arg
]

unfoldable pub parse_args : List OsString → Result Args
parse_args args = parse_from nothing_given args

-- What is printed, before it is rendered as JSON.
pub data Printed : Type 0 where
  error_response : String → Printed
  answer : ExecutionBindingResult → Printed
  backtrace : Printed

pub record Exit : Type 0 where
  pub printed : Printed
  pub code : ℕ

abbrev pub stopped : String → Exit
stopped error = record { printed = error_response error; code = 2 }

abbrev pub crashed : Exit
crashed = record { printed = backtrace; code = 101 }

abbrev pub answered : Result ExecutionBindingResult → Exit
answered (err error) = stopped error
answered panic = crashed
answered (ok result) = record { printed = answer result; code = if result.allowed then 0 else 3 }

abbrev pub request_of : Args → ExecutionBindingRequest
request_of args = record {
  decision_id = args.decision_id;
  action = args.action;
  expected_state_version = args.state_version;
}

module _ {D : Type 0} (fs : FileSystem D) (codec : Codec) (path_from : String → FilePath) where
  abbrev pub checked : D → Args → Result JsonFileEventStore → Exit
  checked disk args (err error) = stopped error
  checked disk args panic = crashed
  checked disk args (ok store) = answered (
      validate_execution (json_file fs codec) (record { store = store; disk = disk })
        (request_of args))

  abbrev pub with_args : D → Result Args → Exit
  with_args disk (err error) = stopped error
  with_args disk panic = crashed
  with_args disk (ok args) = checked disk args (open_store fs codec disk (path_from args.store))

  unfoldable pub main : D → List OsString → Exit
  main disk args = with_args disk (parse_args args)
