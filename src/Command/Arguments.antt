-- ===== src/Command/Arguments.antt =====
-- src/bin/r2r-enforce.rs: reading the command line.
use r2r_jev.Prelude.{
  ◌≡◌, refl, sym, ◌↔◌, ap, eq_iff, ◌∙◌, Bool, true, false, if◌then◌else◌, String, List, [], ◌∷◌,
  Option, none, some, ok, err, arith,
}
use mathlib.Core.List.{append-nil}
use r2r_jev.Prelude.{◌++◌, ◌==◌, ◌>>=◌, >>=-eq-ok, Bool-cases, inl, inr}
use r2r_jev.Command.{
  Args, Given, OsString, unicode, not_unicode, Flag, takes_value, help, unknown, flag_of, usage,
  refuse, nothing_given, give, all_given, parse_from, parse_args,
}

-- The four flags.
pub data Field : Type 0 where
  store_field decision_field action_field version_field : Field

abbrev pub name_of : Field → String
name_of store_field = "--store"
name_of decision_field = "--decision"
name_of action_field = "--action"
name_of version_field = "--state-version"

-- Flags and values, as they stand on the command line.
abbrev pub command_line : List (Field × String) → List OsString
command_line [] = []
command_line ((field, value) ∷ rest) = unicode (name_of field) ∷ unicode value ∷ command_line rest

abbrev same : Field → Field → Bool
same store_field store_field = true
same decision_field decision_field = true
same action_field action_field = true
same version_field version_field = true
same _ _ = false

abbrev or_else : Option String → Option String → Option String
or_else none other = other
or_else (some value) other = some value

-- The last value that stands after the flag.
abbrev pub last_of : Field → List (Field × String) → Option String
last_of field [] = none
last_of field ((other, value) ∷ rest) =
    or_else (last_of field rest) (if same field other then some value else none)

-- What the loop holds after these settings.
abbrev pub after_all : Given → List (Field × String) → Given
after_all given settings = record {
  store = or_else (last_of store_field settings) given.store;
  decision_id = or_else (last_of decision_field settings) given.decision_id;
  action = or_else (last_of action_field settings) given.action;
  state_version = or_else (last_of version_field settings) given.state_version;
}

or_else_assoc : (a b c : Option String) → or_else a (or_else b c) ≡ or_else (or_else a b) c
or_else_assoc none b c = refl
or_else_assoc (some a) b c = refl

abbrev pub with_setting : Field → String → Given → Given
with_setting store_field value given = record given { store = some value }
with_setting decision_field value given = record given { decision_id = some value }
with_setting action_field value given = record given { action = some value }
with_setting version_field value given = record given { state_version = some value }

-- Every setting gives its own field and leaves the others.
after_all-with_setting :
    (field : Field) (value : String) (given : Given) (rest : List (Field × String))
    → after_all (with_setting field value given) rest ≡ after_all given ((field, value) ∷ rest)
after_all-with_setting store_field value given rest = ground arith
after_all-with_setting decision_field value given rest = ground arith
after_all-with_setting action_field value given rest = ground arith
after_all-with_setting version_field value given rest = ground arith

pub parse_from-setting :
    (field : Field) (value : String) (given : Given) (rest : List OsString)
    → parse_from given (unicode (name_of field) ∷ unicode value ∷ rest)
      ≡ parse_from (with_setting field value given) rest
unfolding parse_from give
parse_from-setting store_field value given rest = refl
parse_from-setting decision_field value given rest = refl
parse_from-setting action_field value given rest = refl
parse_from-setting version_field value given rest = refl

-- The loop takes the settings and goes on with what follows them.
pub parse_from-command_line :
    (settings : List (Field × String)) (given : Given) (tail : List OsString)
    → parse_from given (command_line settings ++ tail) ≡ parse_from (after_all given settings) tail
parse_from-command_line [] given tail = refl
parse_from-command_line ((field, value) ∷ rest) given tail =
    parse_from-setting field value given (command_line rest ++ tail)
    ∙ (parse_from-command_line rest (with_setting field value given) tail
        ∙ ap (λ (g : Given). parse_from g tail) (after_all-with_setting field value given rest))

-- An argument that takes a value is one of the four flags.
pub flag_of-takes_value :
    (arg : String) → flag_of arg ≡ takes_value → (field : Field) × (arg ≡ name_of field)
flag_of-takes_value arg h = elim (Bool-cases (arg == "--store")) [
  | inl e ↦ (store_field, (eq_iff arg "--store").0 e)
  | inr n1 ↦ elim (Bool-cases (arg == "--decision")) [
    | inl e ↦ (decision_field, (eq_iff arg "--decision").0 e)
    | inr n2 ↦ elim (Bool-cases (arg == "--action")) [
      | inl e ↦ (action_field, (eq_iff arg "--action").0 e)
      | inr n3 ↦ elim (Bool-cases (arg == "--state-version")) [
        | inl e ↦ (version_field, (eq_iff arg "--state-version").0 e)
        | inr n4 ↦ absurd (ground (arith, h, n1, n2, n3, n4))
      ]
    ]
  ]
]

-- Only a sequence of the four flags, each with a value, is read to its end.
parse_from-ok :
    (given : Given) (args : List OsString) {parsed : Args}
    → parse_from given args ≡ ok parsed
    → (settings : List (Field × String)) × (args ≡ command_line settings)
unfolding parse_from
parse_from-ok given [] e = ([], refl)
parse_from-ok given (not_unicode ∷ rest) e = absurd (cc e)
parse_from-ok given (unicode arg ∷ []) e = absurd (ground arith)
parse_from-ok given (unicode arg ∷ not_unicode ∷ rest) e = absurd (ground arith)
parse_from-ok given (unicode arg ∷ unicode value ∷ rest) {parsed} e =
    go (λ next read. parse_from-ok next rest read) (flag_of arg) refl e
  where
    go :
        ((next : Given)
          → parse_from next rest ≡ ok parsed
          → (settings : List (Field × String)) × (rest ≡ command_line settings))
        → (flag : Flag) → flag_of arg ≡ flag
        → elim flag [
          | takes_value ↦ give arg value given >>= λ next. parse_from next rest
          | help ↦ err usage
          | unknown ↦ refuse arg
        ]
          ≡ ok parsed
        → (settings : List (Field × String)) × (unicode arg ∷ unicode value ∷ rest
            ≡ command_line settings)
    go later takes_value f e =
        let (next, given_ok, read) = >>=-eq-ok (give arg value given) _ e in
        let (field, named) = flag_of-takes_value arg f in
        let (settings, same) = later next read in ((field, value) ∷ settings, cc (named, same))
    go later help f e = absurd (cc e)
    go later unknown f e = absurd (cc e)

-- The settings give the four values.
pub record Gives (settings : List (Field × String)) (parsed : Args) : Type 0 where
  pub store : last_of store_field settings ≡ some parsed.store
  pub decision_id : last_of decision_field settings ≡ some parsed.decision_id
  pub action : last_of action_field settings ≡ some parsed.action
  pub state_version : last_of version_field settings ≡ some parsed.state_version

all_given-Gives :
    (settings : List (Field × String)) (parsed : Args)
    → (all_given (after_all nothing_given settings) ≡ ok parsed) ↔ Gives settings parsed
unfolding all_given
all_given-Gives settings parsed = (
  λ e. record {
    store = ground arith;
    decision_id = ground arith;
    action = ground arith;
    state_version = ground arith;
  },
  λ g. ground (arith, g.store, g.decision_id, g.action, g.state_version),
)

parse_args-command_line :
    (settings : List (Field × String))
    → parse_args (command_line settings) ≡ all_given (after_all nothing_given settings)
unfolding parse_args parse_from
parse_args-command_line settings =
    ap (parse_from nothing_given) (sym (append-nil (command_line settings)))
    ∙ parse_from-command_line settings nothing_given []

-- A command line is read exactly if it is a sequence of the four flags, in any order and with
-- repetitions, each with a value, all of them Unicode; the last value after each flag counts, and
-- each flag must occur.
pub parse_args_iff :
    (args : List OsString) (parsed : Args)
    → (parse_args args ≡ ok parsed) ↔ (
        (settings : List (Field × String)) × (args ≡ command_line settings) × Gives settings parsed)
parse_args_iff args parsed = (
  λ e.
      let (settings, same) =
        parse_from-ok nothing_given args {parsed = parsed} (unfold parse_args in e) in
      (
        settings,
        same,
        (all_given-Gives settings parsed).0
            (sym (parse_args-command_line settings) ∙ (ap parse_args (sym same) ∙ e)),
      ),
  λ (settings, same, gives).
      ap parse_args same
      ∙ (parse_args-command_line settings ∙ (all_given-Gives settings parsed).1 gives),
)
