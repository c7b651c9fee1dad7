-- ===== src/Examples/Memory.antt =====
-- src/bin/compare.rs: a scenario in which the suspension stays after a risky call.
use r2r_jev.Prelude.{◌++◌, String, List, [], ◌∷◌, ◌≡◌, refl, arith, ok}
use r2r_jev.Scenario.{active, Run, run_lines, started}
use r2r_jev.Scenario.Dominates.{Dominated, run_lines-Dominated}
use r2r_jev.Prelude.Text.{parse_u32}
use r2r_jev.Scenario.{handle, observe, parse_decision, threshold_decision}
use r2r_jev.Compare.{bump}

abbrev rows : List String
rows =
    "step,event,beyond_scope_ppm,destructive_ppm,expected,note" ∷ "1,tool_call,900000,0,DENY,risky"
    ∷ "2,tool_call,100000,0,DENY,still suspended" ∷ "3,human_override,0,0,-,repair"
    ∷ "4,tool_call,100000,0,ALLOW,fine" ∷ []

abbrev ends : Run
ends = record {
  stateful_auth = active;
  stateless = record { tool_calls = 3; correct = 2; false_allows = 1; false_denies = 0 };
  stateful = record { tool_calls = 3; correct = 3; false_allows = 0; false_denies = 0 };
  printed =
      (started "memory.csv").printed
      ++ "1    tool_call        DENY       DENY       DENY      "
        ∷ "2    tool_call        DENY       ALLOW      DENY      "
        ∷ "3    human_override   -          -          repair→Active"
        ∷ "4    tool_call        ALLOW      ALLOW      ALLOW     " ∷ [];
}

rows_run : run_lines 0 rows (started "memory.csv") ≡ ok ends
unfolding run_lines parse_u32 parse_decision handle threshold_decision observe bump
rows_run = refl

run_lines-Dominated_example : Dominated 5 ends.stateless ends.stateful
run_lines-Dominated_example = run_lines-Dominated "memory.csv" rows ends (omega arith) rows_run
