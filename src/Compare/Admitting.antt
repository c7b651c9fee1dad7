-- ===== src/Compare/Admitting.antt =====
-- src/bin/admission-compare.rs: `run_admission`, the arm in which only admitted evidence suspends and
-- held evidence waits.
use r2r_jev.Prelude.{
  ℕ, ◌%◌, ◌^◌, String, List, [], ◌∷◌, ◌++◌, Option, none, some, Bool, true, false, not, ◌&&◌,
  Result, ok, ◌>>=◌, ltb, ◌==◌, if◌then◌else◌, length,
}
use r2r_jev.Prelude.Format.{format}
use r2r_jev.Admission.{
  AdmissionDecision, reject, hold, accept, beyond_scope, admit, new_context, is_accepted, render,
}
use r2r_jev.Compare.{
  Row, Metrics, no_metrics, bump, is_some, log_line, repair_line, conf_of, count_repair,
  count_suspension, count_verdict, verdict_word,
}

-- An incident and the tick at which its held evidence expires.
abbrev pub Pending : Type 0
Pending = List (String × ℕ)

pub record AdmissionRun : Type 0 where
  pub metrics : Metrics
  pub suspended_by : Option String
  pub pending : Pending
  pub log : List String

abbrev pub repaired : Row → AdmissionRun → AdmissionRun
repaired r run = record run {
  metrics = count_repair run.suspended_by run.metrics;
  suspended_by = none;
  log = run.log ++ repair_line r ∷ [];
}

abbrev pub resolved_accept : Metrics → Metrics
resolved_accept m = record m { held_resolved_accept = bump 1 m.held_resolved_accept }

abbrev pub resolved_expired : Metrics → Metrics
resolved_expired m = record m { held_resolved_expired = bump 1 m.held_resolved_expired }

-- What becomes of a waiting entry.
pub data Fate : Type 0 where
  stays accepted_now expired_now : Fate

abbrev pub fate_of : Row → Bool → String × ℕ → Fate
fate_of r accepted (incident, expires) =
    if not (incident == r.incident)
    then stays
    else if accepted
    then accepted_now
    else if ltb expires r.observed_vtick
    then expired_now
    else stays

abbrev pub count_fate : Fate → Metrics → Metrics
count_fate stays m = m
count_fate accepted_now m = resolved_accept m
count_fate expired_now m = resolved_expired m

abbrev pub keep_if : Fate → String × ℕ → Pending → Pending
keep_if stays entry rest = entry ∷ rest
keep_if accepted_now entry rest = rest
keep_if expired_now entry rest = rest

-- `pending.retain(..)`, which counts as it goes.
unfoldable pub resolve : Row → Bool → Pending → Metrics → Metrics × Pending
resolve r accepted [] m = (m, [])
resolve r accepted (entry ∷ rest) m =
    let fate = fate_of r accepted entry in
    let later = resolve r accepted rest (count_fate fate m) in (later.0, keep_if fate entry later.1)

abbrev pub is_hold : AdmissionDecision → Bool
is_hold (reject reason) = false
is_hold (hold reason) = true
is_hold (accept class) = false

-- Held evidence is counted and waits behind the others.
abbrev pub hold_if : Row → Bool → Metrics × Pending → Metrics × Pending
hold_if r held (m, pending) =
    if held
    then (
      record m { held_total = bump 1 m.held_total },
      pending ++ (r.incident, r.expires_vtick) ∷ [],
    )
    else (m, pending)

abbrev pub log_cell : AdmissionDecision → Option String → String
log_cell decision suspended_by = format (render decision ∷ "/" ∷ verdict_word suspended_by ∷ [])

abbrev pub judged : Row → AdmissionDecision → AdmissionRun → AdmissionRun
judged r decision run =
    let accepted = is_accepted decision in
    let m = record run.metrics { tool_calls = bump 1 run.metrics.tool_calls } in
    let waiting = hold_if r (is_hold decision) (resolve r accepted run.pending m) in
    let suspends = accepted && not (is_some run.suspended_by) in
    let suspended_by = if suspends then some r.truth else run.suspended_by in
    let counted = if suspends then count_suspension r waiting.0 else waiting.0 in
    let links = if accepted then 5 else 4 in
    let linked = record counted { provenance_links = bump links counted.provenance_links } in
    record {
      metrics = count_verdict r suspended_by linked;
      suspended_by = suspended_by;
      pending = waiting.1;
      log =
          run.log
          ++ format (log_line r (conf_of r) "-" "-" ∷ " " ∷ log_cell decision suspended_by ∷ [])
            ∷ [];
    }

-- A row out of range fails an assertion of the admission.
unfoldable pub admission_step : Row → AdmissionRun → Result AdmissionRun
admission_step r run = if r.kind == "repair" then ok (repaired r run) else (do
  context ← new_context r.reliability_ppm r.corroborators r.observed_vtick r.expires_vtick
  decision ← admit beyond_scope r.confidence_ppm context
  ok (judged r decision run))

abbrev pub admission_rows : List Row → AdmissionRun → Result AdmissionRun
admission_rows [] run = ok run
admission_rows (r ∷ rows) run = admission_step r run >>= λ next. admission_rows rows next

abbrev pub finished : AdmissionRun → Metrics × List String
finished run = (record run.metrics { held_pending = length run.pending % 2 ^ 32 }, run.log)

unfoldable pub run_admission : List Row → List String → Result (Metrics × List String)
run_admission rows log = do
  run ←
      admission_rows rows
        (record { metrics = no_metrics; suspended_by = none; pending = []; log = log })
  ok (finished run)
