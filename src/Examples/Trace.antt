-- ===== src/Examples/Trace.antt =====
-- src/bin/admission-compare.rs: the trace hold-lifecycle.csv of the experiment.
use r2r_jev.Prelude.{false, ℕ, ◌+◌, ◌≡◌, refl, arith, String, List, [], ◌∷◌, Result, ok, ◌>>=◌}
use r2r_jev.Compare.{Row, Metrics}
use r2r_jev.Compare.Baseline.{run_baseline}
use r2r_jev.Compare.Admitting.{run_admission}
use r2r_jev.Compare.Rows.{parse_rows}
use r2r_jev.Compare.Sums.{suspensions_of, denials_of, Sums, run_baseline-Sums}
use r2r_jev.Compare.Balance.{run_admission-Sums}
use r2r_jev.Prelude.Text.{parse_u64}
use r2r_jev.Compare.Admitting.{admission_step, resolve}
use r2r_jev.Admission.{admit, admit_in_range, is_accepted, new_context}
use r2r_jev.Compare.{bump, count_repair, count_suspension, count_verdict}

abbrev row : ℕ → String → String → ℕ → ℕ → ℕ → ℕ → ℕ → String → String → Row
row step incident kind confidence reliability corroborators observed expires truth note = record {
  step = step;
  incident = incident;
  kind = kind;
  confidence_ppm = confidence;
  reliability_ppm = reliability;
  corroborators = corroborators;
  observed_vtick = observed;
  expires_vtick = expires;
  truth = truth;
  note = note;
}

abbrev trace : String
trace =
    "step,incident,kind,confidence_ppm,reliability_ppm,corroborators,observed_vtick,expires_vtick,truth,note\n1,h1,beyond_scope,760000,800000,0,1,20,violation,held: corroboration will never arrive\n2,h2,beyond_scope,750000,800000,0,2,50,violation,held: will be corroborated at step 3\n3,h2,beyond_scope,760000,800000,2,3,50,violation,corroborators arrive: h2 resolves to Accept\n4,h1,beyond_scope,770000,800000,0,25,45,violation,h1 re-observed past its original expiry: resolves as expired\n5,-,repair,0,0,0,26,0,none,human repairs the relation\n6,i6,beyond_scope,200000,850000,0,27,60,benign,benign call after repair"

abbrev rows : List Row
rows =
    row 1 "h1" "beyond_scope" 760000 800000 0 1 20 "violation"
      "held: corroboration will never arrive"
    ∷ row 2 "h2" "beyond_scope" 750000 800000 0 2 50 "violation"
        "held: will be corroborated at step 3"
    ∷ row 3 "h2" "beyond_scope" 760000 800000 2 3 50 "violation"
        "corroborators arrive: h2 resolves to Accept"
    ∷ row 4 "h1" "beyond_scope" 770000 800000 0 25 45 "violation"
        "h1 re-observed past its original expiry: resolves as expired"
    ∷ row 5 "-" "repair" 0 0 0 26 0 "none" "human repairs the relation"
    ∷ row 6 "i6" "beyond_scope" 200000 850000 0 27 60 "benign" "benign call after repair"
    ∷ []

trace_read : parse_rows (λ path. ok trace) "hold-lifecycle.csv" ≡ ok rows
unfolding parse_rows parse_u64
trace_read = refl

run_baseline-Sums_example :
    let m = (run_baseline rows []).0 in
    Sums rows m × (m.suspensions ≡ suspensions_of false rows) × (m.denied ≡ denials_of false rows)
run_baseline-Sums_example = run_baseline-Sums rows [] (omega arith)

run_admission-Sums_example :
    (m : Metrics) × (lines : List String) × (run_admission rows [] ≡ ok (m, lines))
    × Sums rows m
    × (m.held_total ≡ m.held_resolved_accept + m.held_resolved_expired + m.held_pending)
run_admission-Sums_example =
    run_admission-Sums rows [] (omega arith) (refl, (refl, (refl, (refl, (refl, (refl, tt))))))

abbrev counters : Metrics → List ℕ
counters m = m.held_total ∷ m.held_resolved_accept ∷ m.held_resolved_expired ∷ m.held_pending ∷ []

abbrev held : Result (Metrics × List String) → Result (List ℕ)
held run = run >>= λ done. ok (counters done.0)

held_counted : held (run_admission rows []) ≡ ok (3 ∷ 1 ∷ 1 ∷ 1 ∷ [])
unfolding run_admission admission_step new_context admit count_verdict is_accepted admit_in_range
    resolve count_repair bump count_suspension
held_counted = refl
