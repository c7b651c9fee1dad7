-- ===== src/Compare/Baseline.antt =====
-- src/bin/admission-compare.rs: `run_baseline`, the arm in which a high score suspends until a repair.
use r2r_jev.Prelude.{
  String, List, [], ◌∷◌, ◌++◌, Option, none, some, Bool, not, ◌&&◌, leb, ◌==◌, if◌then◌else◌,
}
use r2r_jev.Compare.{
  baseline_threshold_ppm, Row, Metrics, no_metrics, bump, is_some, log_line, repair_line, conf_of,
  count_repair, count_suspension, count_verdict, verdict_word,
}

pub record BaselineRun : Type 0 where
  pub metrics : Metrics
  pub suspended_by : Option String
  pub log : List String

abbrev pub repaired : Row → BaselineRun → BaselineRun
repaired r run = record {
  metrics = count_repair run.suspended_by run.metrics;
  suspended_by = none;
  log = run.log ++ repair_line r ∷ [];
}

abbrev pub just_suspended : Row → BaselineRun → Bool
just_suspended r run = leb baseline_threshold_ppm r.confidence_ppm && not (is_some run.suspended_by)

abbrev pub counted_call : Metrics → Metrics
counted_call m = record m {
  tool_calls = bump 1 m.tool_calls;
  provenance_links = bump 2 m.provenance_links;
}

abbrev pub judged : Row → Bool → BaselineRun → BaselineRun
judged r suspends run =
    let suspended_by = if suspends then some r.truth else run.suspended_by in
    let called = counted_call run.metrics in
    let linked = record called { provenance_links = bump 1 called.provenance_links } in
    let m = if suspends then count_suspension r linked else called in
    record {
      metrics = count_verdict r suspended_by m;
      suspended_by = suspended_by;
      log =
          run.log
          ++ log_line r (conf_of r) (verdict_word suspended_by)
              (if suspends then "SUSPEND" else "-")
            ∷ [];
    }

unfoldable pub baseline_step : Row → BaselineRun → BaselineRun
baseline_step r run =
    if r.kind == "repair" then repaired r run else judged r (just_suspended r run) run

abbrev pub baseline_rows : List Row → BaselineRun → BaselineRun
baseline_rows [] run = run
baseline_rows (r ∷ rows) run = baseline_rows rows (baseline_step r run)

unfoldable pub run_baseline : List Row → List String → Metrics × List String
run_baseline rows log =
    let run =
      baseline_rows rows (record { metrics = no_metrics; suspended_by = none; log = log }) in
    (run.metrics, run.log)
