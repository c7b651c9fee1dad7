-- ===== src/Compare/Sums.antt =====
-- src/bin/admission-compare.rs: the sums of a finished run, and the counters of the baseline arm, over
-- any trace.
use r2r_jev.Prelude.{
  ℕ, ◌+◌, ◌^◌, ◌≤◌, ◌<◌, ◌≡◌, refl, sym, subst, arith, String, List, [], ◌∷◌, Option, none, some,
  ◌==◌, length, leb, Bool, true, false, not, ◌&&◌, ◌||◌, if◌then◌else◌, Bool-cases, inl, inr,
}
use r2r_jev.Compare.{
  baseline_threshold_ppm, Row, Metrics, no_metrics, count_suspension, count_verdict, is_some,
  count_repair,
}
use r2r_jev.Compare.Accounts.{
  standing, Adds, bump-one, count_verdict-Adds, count_repair-Adds, suspend-Adds, tool_call-Adds,
  no_metrics-Adds,
}
use r2r_jev.Compare.Baseline as B
use r2r_jev.Compare.Baseline.{BaselineRun, baseline_step, baseline_rows, run_baseline}

-- How many rows are calls.
abbrev pub calls_of : List Row → ℕ
calls_of [] = 0
calls_of (r ∷ rows) = if r.kind == "repair" then calls_of rows else calls_of rows + 1

pub calls_of-few : (rows : List Row) → calls_of rows ≤ length rows
calls_of-few [] = omega arith
calls_of-few (r ∷ rows) = elim (Bool-cases (r.kind == "repair")) [
  | inl repair ↦ rw repair (omega (arith, calls_of-few rows))
  | inr call ↦ rw call (omega (arith, calls_of-few rows))
]

-- What the counters of a finished run say.
pub record Sums (rows : List Row) (m : Metrics) : Type 0 where
  pub calls : m.allowed + m.denied ≡ m.tool_calls
  pub counted : m.tool_calls ≡ calls_of rows
  pub denials : m.false_deny_calls + m.enforcement_denied ≤ m.denied
  pub violations : m.violation_allowed ≤ m.allowed
  pub repairs : (m.effective_repairs ≤ m.suspensions) × (m.suspensions ≤ m.effective_repairs + 1)
  pub causes : m.false_suspensions ≤ m.suspensions

standing_few : (suspended_by : Option String) → standing suspended_by ≤ 1
standing_few none = omega arith
standing_few (some cause) = omega arith

pub Adds-Sums :
    (rows : List Row) (suspended_by : Option String) (m : Metrics)
    → Adds (0 + calls_of rows) 0 0 suspended_by m
    → Sums rows m
Adds-Sums rows suspended_by m b = record {
  calls = omega (arith, b.calls);
  counted = omega (arith, b.counted);
  denials = b.denials;
  violations = b.violations;
  repairs = (omega (arith, b.repairs), omega (arith, b.repairs, standing_few suspended_by));
  causes = b.causes;
}

abbrev is_risky : Row → Bool
is_risky r = leb baseline_threshold_ppm r.confidence_ppm

-- How many calls suspend, from a row on: those with a high score, while no suspension stands.
abbrev pub suspensions_of : Bool → List Row → ℕ
suspensions_of suspended [] = 0
suspensions_of suspended (r ∷ rows) =
    if r.kind == "repair"
    then suspensions_of false rows
    else if suspended
    then suspensions_of true rows
    else if is_risky r
    then suspensions_of true rows + 1
    else suspensions_of false rows

-- How many calls are denied: those from a call with a high score to the next repair.
abbrev pub denials_of : Bool → List Row → ℕ
denials_of suspended [] = 0
denials_of suspended (r ∷ rows) =
    if r.kind == "repair"
    then denials_of false rows
    else if suspended || is_risky r
    then denials_of true rows + 1
    else denials_of false rows

count_verdict-counts :
    (r : Row) (o : Option String) (m : Metrics)
    → m.denied + 1 < 2 ^ 32
    → ((count_verdict r o m).suspensions ≡ m.suspensions)
      × ((count_verdict r o m).denied ≡ m.denied + (if is_some o then 1 else 0))
unfolding count_verdict
count_verdict-counts r none m w = (refl, omega arith)
count_verdict-counts r (some cause) m w = ground (arith, bump-one m.denied w)

count_suspension-counts :
    (r : Row) (m : Metrics)
    → m.suspensions + 1 < 2 ^ 32
    → ((count_suspension r m).suspensions ≡ m.suspensions + 1)
      × ((count_suspension r m).denied ≡ m.denied)
unfolding count_suspension
count_suspension-counts r m w = (bump-one m.suspensions w, refl)

-- What a call does to the two counters, `called` and `linked` having counted it and its links.
record Counts (suspended risky : Bool) (m after : Metrics) (suspended_by : Option String)
    : Type 0 where
  stands : is_some suspended_by ≡ (suspended || risky)
  suspensions : after.suspensions ≡ m.suspensions + (if not suspended && risky then 1 else 0)
  denied : after.denied ≡ m.denied + (if suspended || risky then 1 else 0)

counted_call-Counts :
    (r : Row) (risky : Bool) (o : Option String) (m called linked : Metrics)
    → m.denied + 1 < 2 ^ 32
    → m.suspensions + 1 < 2 ^ 32
    → (called.suspensions ≡ m.suspensions) × (called.denied ≡ m.denied)
    → (linked.suspensions ≡ m.suspensions) × (linked.denied ≡ m.denied)
    → let suspends = risky && not (is_some o) in
      let o' = if suspends then some r.truth else o in
      Counts
        (is_some o)
        risky
        m
        (count_verdict r o' (if suspends then count_suspension r linked else called))
        o'
counted_call-Counts r true none m called linked w v c l =
    let (more, same) = count_suspension-counts r linked (omega (arith, l.0)) in
    let (kept, denied) =
      count_verdict-counts r (some r.truth) (count_suspension r linked)
        (omega (arith, same, l.1)) in
    record {
      stands = refl;
      suspensions = omega (arith, more, kept, l.0);
      denied = omega (arith, denied, same, l.1);
    }
counted_call-Counts r true (some cause) m called linked w v c l =
    let (kept, denied) = count_verdict-counts r (some cause) called (omega (arith, c.1)) in
    record {
      stands = refl;
      suspensions = omega (arith, kept, c.0);
      denied = omega (arith, denied, c.1);
    }
counted_call-Counts r false none m called linked w v c l =
    let (kept, denied) = count_verdict-counts r none called (omega (arith, c.1)) in
    record {
      stands = refl;
      suspensions = omega (arith, kept, c.0);
      denied = omega (arith, denied, c.1);
    }
counted_call-Counts r false (some cause) m called linked w v c l =
    let (kept, denied) = count_verdict-counts r (some cause) called (omega (arith, c.1)) in
    record {
      stands = refl;
      suspensions = omega (arith, kept, c.0);
      denied = omega (arith, denied, c.1);
    }

judged-Counts :
    (n : ℕ) (r : Row) (run : BaselineRun)
    → n + 1 < 2 ^ 32
    → Adds n 0 0 run.suspended_by run.metrics
    → let after = B.judged r (B.just_suspended r run) run in
      Counts (is_some run.suspended_by) (is_risky r) run.metrics after.metrics after.suspended_by
judged-Counts n r run w b =
    counted_call-Counts r (is_risky r) run.suspended_by run.metrics _ _
      (omega (arith, b.calls, b.counted)) (omega (arith, b.suspensions_few, b.counted)) (refl, refl)
      (refl, refl)

judged-Adds :
    (n : ℕ) (r : Row) (run : BaselineRun)
    → n + 1 < 2 ^ 32
    → Adds n 0 0 run.suspended_by run.metrics
    → let after = B.judged r (B.just_suspended r run) run in
      Adds (n + 1) 0 0 after.suspended_by after.metrics
judged-Adds n r run w b = count_verdict-Adds (n + 1) r _ _ w (
    suspend-Adds (n + 1) r (is_risky r) run.suspended_by _ _ w
      (tool_call-Adds n _ run.suspended_by run.metrics w b)
      (tool_call-Adds n _ run.suspended_by run.metrics w b))

count_repair-counts :
    (o : Option String) (m : Metrics)
    → ((count_repair o m).suspensions ≡ m.suspensions) × ((count_repair o m).denied ≡ m.denied)
unfolding count_repair
count_repair-counts none m = (refl, refl)
count_repair-counts (some cause) m = (refl, refl)

-- The counters after the rows, from a run that `n` calls have gone into.
abbrev Counted : ℕ → List Row → BaselineRun → BaselineRun → Type 0
Counted n rows run after =
    Adds (n + calls_of rows) 0 0 after.suspended_by after.metrics
    × (after.metrics.suspensions
        ≡ run.metrics.suspensions + suspensions_of (is_some run.suspended_by) rows)
    × (after.metrics.denied ≡ run.metrics.denied + denials_of (is_some run.suspended_by) rows)

more_suspensions :
    (suspended risky : Bool) (rows : List Row)
    → (if suspended
        then suspensions_of true rows
        else if risky
        then suspensions_of true rows + 1
        else suspensions_of false rows)
      ≡ (if not suspended && risky then 1 else 0) + suspensions_of (suspended || risky) rows
more_suspensions suspended risky rows = ground arith

more_denials :
    (denied : Bool) (rows : List Row)
    → (if denied then denials_of true rows + 1 else denials_of false rows)
      ≡ (if denied then 1 else 0) + denials_of denied rows
more_denials denied rows = ground arith

baseline_rows-Counted :
    (n : ℕ) (rows : List Row) (run : BaselineRun)
    → n + calls_of rows < 2 ^ 32
    → Adds n 0 0 run.suspended_by run.metrics
    → Counted n rows run (baseline_rows rows run)
unfolding baseline_step
baseline_rows-Counted n [] run w b =
    (subst (λ k. Adds k 0 0 run.suspended_by run.metrics) (omega arith) b, omega arith, omega arith)
baseline_rows-Counted n (r ∷ rows) run w b = elim (Bool-cases (r.kind == "repair")) [
  | inl repair ↦
      let next = B.repaired r run in
      let w' = rw repair at w in
      let (same, kept) = count_repair-counts run.suspended_by run.metrics in
      let (adds, suspensions, denied) =
        baseline_rows-Counted n rows next w'
          (count_repair-Adds n run.suspended_by run.metrics (omega (arith, w')) b) in
      let step : baseline_step r run ≡ next = rw repair refl in
      subst (λ x. Counted n (r ∷ rows) run (baseline_rows rows x)) (sym step)
        (rw repair (adds, omega (arith, suspensions, same), omega (arith, denied, kept)))
  | inr call ↦
      let next = B.judged r (B.just_suspended r run) run in
      let w' = rw call at w in
      let c = judged-Counts n r run (omega (arith, w')) b in
      let (adds, suspensions, denied) =
        baseline_rows-Counted (n + 1) rows next (omega (arith, w'))
          (judged-Adds n r run (omega (arith, w')) b) in
      let after = baseline_rows rows next in
      let fewer =
        subst (λ x. after.metrics.suspensions ≡ next.metrics.suspensions + suspensions_of x rows)
          c.stands suspensions in
      let less =
        subst (λ x. after.metrics.denied ≡ next.metrics.denied + denials_of x rows) c.stands
          denied in
      let s = more_suspensions (is_some run.suspended_by) (is_risky r) rows in
      let d = more_denials (is_some run.suspended_by || is_risky r) rows in
      let step : baseline_step r run ≡ next = rw call refl in
      subst (λ x. Counted n (r ∷ rows) run (baseline_rows rows x)) (sym step)
        (rw call (
          subst (λ k. Adds k 0 0 after.suspended_by after.metrics) (omega arith) adds,
          omega (arith, s, fewer, c.suspensions),
          omega (arith, d, less, c.denied),
        ))
]

-- In the baseline arm, for any trace of less than 2 ^ 32 rows: every row but the repairs is counted
-- as a call, and every call is either allowed or denied; a call suspends exactly if its score is high
-- and no suspension stands, and the calls denied are those from there to the next repair. The denials
-- that are told apart are no more than the denials, the allowed violations no more than the allowed
-- calls, suspensions and effective repairs alternate, and no more suspensions are false than there
-- are.
pub run_baseline-Sums :
    (rows : List Row) (log : List String)
    → length rows < 2 ^ 32
    → let m = (run_baseline rows log).0 in
      Sums rows m × (m.suspensions ≡ suspensions_of false rows) × (m.denied ≡ denials_of false rows)
unfolding run_baseline
run_baseline-Sums rows log w =
    let start : BaselineRun = record { metrics = no_metrics; suspended_by = none; log = log } in
    let (adds, suspensions, denied) =
      baseline_rows-Counted 0 rows start (omega (arith, w, calls_of-few rows)) no_metrics-Adds in
    (Adds-Sums rows _ _ adds, omega (arith, suspensions), omega (arith, denied))
