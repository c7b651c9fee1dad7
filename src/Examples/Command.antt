-- ===== src/Examples/Command.antt =====
-- src/bin/r2r-enforce.rs: the command on a store with one decision.
use r2r_jev.Prelude.{◌≡◌, ◌↔◌, refl, String, List, [], ◌∷◌, none, some, ok}
use r2r_jev.Command.{
  Args, OsString, unicode, not_unicode, give, main, parse_args, parse_from, all_given,
}
use r2r_jev.Command.Arguments.{Field, command_line, Gives, parse_args_iff}
use r2r_jev.Command.Reports.{Refused, Stops, main_code_iff}
use r2r_jev.Command.Exits.{Permitted, main_zero_iff}
use r2r_jev.Examples.{shelf, local, codec_of}
use r2r_jev.Examples.Boundary.{holding}
use r2r_jev.Store.JsonFile.{open_store}
use r2r_jev.Enforcement.{validate_decision, validate_execution}
use r2r_jev.Store.Memory.{
  current_state_version, find_decision, next_decision_id, record_decision, state_counter,
}
use r2r_jev.Prelude.Decimal.{pad}

-- The store is named twice; the second name counts.
abbrev texts : List String → List OsString
texts [] = []
texts (s ∷ rest) = unicode s ∷ texts rest

abbrev line : List OsString
line = texts (
    "--store" ∷ "old.json" ∷ "--action" ∷ "git.push" ∷ "--state-version" ∷ "state-000000"
    ∷ "--decision" ∷ "decision-000001" ∷ "--store" ∷ "store.json" ∷ [])

abbrev parsed : Args
parsed = record {
  store = "store.json";
  decision_id = "decision-000001";
  action = "git.push";
  state_version = "state-000000";
}

line_parsed : parse_args line ≡ ok parsed
unfolding parse_args parse_from give all_given
line_parsed = refl

parse_args_iff_example :
    (parse_args line ≡ ok parsed)
    ↔ ((settings : List (Field × String)) × (line ≡ command_line settings) × Gives settings parsed)
parse_args_iff_example = parse_args_iff line parsed

allowed : (main shelf (codec_of holding) local (some "store") line).code ≡ 0
unfolding main parse_args parse_from give all_given open_store validate_execution find_decision
    record_decision next_decision_id validate_decision current_state_version pad state_counter
allowed = refl

stale : (main shelf (codec_of holding) local none line).code ≡ 3
unfolding main parse_args parse_from give all_given open_store validate_execution find_decision
stale = refl

main_zero_iff_example :
    ((main shelf (codec_of holding) local (some "store") line).code ≡ 0)
    ↔ Permitted shelf (codec_of holding) local (some "store") line
main_zero_iff_example = main_zero_iff shelf (codec_of holding) local (some "store") line

-- The value of the second flag is no Unicode.
abbrev bad_line : List OsString
bad_line = unicode "--store" ∷ unicode "store.json" ∷ unicode "--action" ∷ not_unicode ∷ []

bad_crashes : (main shelf (codec_of holding) local none bad_line).code ≡ 101
unfolding main parse_args parse_from give
bad_crashes = refl

main_code_iff_example :
    (((main shelf (codec_of holding) local none bad_line).code ≡ 3)
      ↔ Refused shelf (codec_of holding) local none bad_line)
    × (((main shelf (codec_of holding) local none bad_line).code ≡ 101) ↔ Stops bad_line)
main_code_iff_example = main_code_iff shelf (codec_of holding) local none bad_line
