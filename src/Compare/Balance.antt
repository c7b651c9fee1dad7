-- ===== src/Compare/Balance.antt =====
-- src/bin/admission-compare.rs: the sums of the admission arm, over any trace.
use r2r_jev.Prelude.{
  ℕ, ◌+◌, ◌^◌, ◌<◌, ◌≡◌, refl, subst, arith, String, List, [], ◌∷◌, Option, none, Bool, true, false,
  not, ◌&&◌, ◌||◌, ok, >>=-eq-ok, ok-injective, ◌==◌, if◌then◌else◌, length, length-append, leb,
  Bool-cases, inl, inr,
}
use r2r_jev.Admission.{
  ppm, admit_in_range, AdmissionDecision, AdmissionContext, beyond_scope, admit, new_context,
  is_accepted,
}
use r2r_jev.Compare.{Row, Metrics, no_metrics, bump, is_some, count_suspension}
use r2r_jev.Compare.Accounts.{
  Adds, bump-one, count_verdict-Adds, count_repair-Adds, suspend-Adds, tool_call-Adds, links-Adds,
  no_metrics-Adds,
}
use r2r_jev.Compare.Admitting as A
use r2r_jev.Compare.Admitting.{
  Pending, AdmissionRun, resolve, is_hold, hold_if, admission_step, admission_rows, run_admission,
  finished,
}
use r2r_jev.Compare.Holds.{Held, resolve-Adds, resolve-Held, count_verdict-Held, count_repair-Held}
use r2r_jev.Compare.Sums.{Sums, Adds-Sums, calls_of, calls_of-few}

hold_if-Adds :
    (n k j : ℕ) (r : Row) (held : Bool) (waiting : Metrics × Pending) (suspended_by : Option String)
    → Adds n k j suspended_by waiting.0
    → Adds n k j suspended_by (hold_if r held waiting).0
hold_if-Adds n k j r false (m, pending) suspended_by b = b
hold_if-Adds n k j r true (m, pending) suspended_by b = record {
  calls = b.calls;
  denials = b.denials;
  violations = b.violations;
  repairs = b.repairs;
  causes = b.causes;
  counted = b.counted;
  suspensions_few = b.suspensions_few;
}

hold_if-Held :
    (n : ℕ) (r : Row) (held : Bool) (waiting : Metrics × Pending)
    → n + 1 < 2 ^ 32
    → Held n (length waiting.1 + 0) waiting.0
    → Held (n + 1) (length (hold_if r held waiting).1) (hold_if r held waiting).0
hold_if-Held n r false (m, pending) w b = record {
  held = omega (arith, b.held);
  held_few = omega (arith, b.held_few);
}
hold_if-Held n r true (m, pending) w b =
    let one = bump-one m.held_total (omega (arith, b.held_few)) in
    let longer = length-append pending ((r.incident, r.expires_vtick) ∷ []) in
    record { held = omega (arith, b.held, one, longer); held_few = omega (arith, b.held_few, one) }

suspend-Held :
    (n waiting : ℕ) (r : Row) (suspends : Bool) (m : Metrics)
    → Held n waiting m
    → Held n waiting (if suspends then count_suspension r m else m)
unfolding count_suspension
suspend-Held n waiting r true m b = record { held = b.held; held_few = b.held_few }
suspend-Held n waiting r false m b = b

links-Held :
    (n waiting links : ℕ) (m : Metrics)
    → Held n waiting m
    → Held n waiting (record m { provenance_links = links })
links-Held n waiting links m b = record { held = b.held; held_few = b.held_few }

-- A row that no assertion refuses.
abbrev pub in_range : Row → Bool
in_range r =
    r.kind == "repair"
    || (leb r.reliability_ppm ppm
        && leb r.observed_vtick r.expires_vtick
        && leb r.confidence_ppm ppm)

abbrev pub AreInRange : List Row → Type 0
AreInRange [] = Unit {0}
AreInRange (r ∷ rows) = (in_range r ≡ true) × AreInRange rows

-- The counters and the waiting evidence after `n` calls.
record Sound (n : ℕ) (run : AdmissionRun) : Type 0 where
  adds : Adds n 0 0 run.suspended_by run.metrics
  held : Held n (length run.pending) run.metrics

judged-Sound :
    (n : ℕ) (r : Row) (decision : AdmissionDecision) (run : AdmissionRun)
    → n + 1 < 2 ^ 32
    → Sound n run
    → Sound (n + 1) (A.judged r decision run)
judged-Sound n r decision run w s =
    let accepted = is_accepted decision in
    let m = record run.metrics { tool_calls = bump 1 run.metrics.tool_calls } in
    let waiting = resolve r accepted run.pending m in
    let kept = hold_if r (is_hold decision) waiting in
    record {
      adds = count_verdict-Adds (n + 1) r _ _ w (
          links-Adds (n + 1) 1 0 _ _ _ (
            let wait = hold_if-Adds (n + 1) 1 1 r (is_hold decision) waiting run.suspended_by (
              resolve-Adds (n + 1) 1 1 r accepted run.pending run.suspended_by m (
                tool_call-Adds n run.metrics.provenance_links run.suspended_by run.metrics w
                  s.adds)) in
            suspend-Adds (n + 1) r accepted run.suspended_by kept.0 kept.0 w wait wait));
      held = count_verdict-Held (n + 1) _ r _ _ (
          links-Held (n + 1) _ _ _ (
            suspend-Held (n + 1) _ r (accepted && not (is_some run.suspended_by)) kept.0 (
              hold_if-Held n r (is_hold decision) waiting w (
                resolve-Held n 0 r accepted run.pending m (omega arith)
                  (record { held = omega (arith, s.held.held); held_few = s.held.held_few })))));
    }

-- A repair is no call.
repaired-Sound :
    (n : ℕ) (r : Row) (run : AdmissionRun) → n < 2 ^ 32 → Sound n run → Sound n (A.repaired r run)
repaired-Sound n r run w s = record {
  adds = count_repair-Adds n run.suspended_by run.metrics w s.adds;
  held = count_repair-Held n (length run.pending) run.suspended_by run.metrics s.held;
}

admission_rows-Sound :
    (n : ℕ) (rows : List Row) (run after : AdmissionRun)
    → n + calls_of rows < 2 ^ 32
    → admission_rows rows run ≡ ok after
    → Sound n run
    → Sound (n + calls_of rows) after
unfolding admission_step
admission_rows-Sound n [] run after w e s =
    subst (λ k. Sound k after) (omega arith) (subst (Sound n) (ok-injective e) s)
admission_rows-Sound n (r ∷ rows) run after w e s =
    let (next, stepped, e) = >>=-eq-ok (admission_step r run) _ e in
    elim (Bool-cases (r.kind == "repair")) [
      | inl repair ↦
          let w' = rw repair at w in
          let same : A.repaired r run ≡ next = ok-injective (rw repair at stepped) in
          subst (λ k. Sound k after) (rw repair refl)
            (admission_rows-Sound n rows next after w' e
              (subst (Sound n) same (repaired-Sound n r run (omega (arith, w')) s)))
      | inr call ↦
          let w' = rw call at w in
          let (context, made, stepped) =
            >>=-eq-ok
              (new_context r.reliability_ppm r.corroborators r.observed_vtick r.expires_vtick) _
              (rw call at stepped) in
          let (decision, admitted, stepped) =
            >>=-eq-ok (admit beyond_scope r.confidence_ppm context) _ stepped in
          let sound =
            subst (Sound (n + 1)) (ok-injective stepped)
              (judged-Sound n r decision run (omega (arith, w')) s) in
          let more : n + 1 + calls_of rows ≡ n + calls_of (r ∷ rows) = rw call (omega arith) in
          subst (λ k. Sound k after) more
            (admission_rows-Sound (n + 1) rows next after (omega (arith, w')) e sound)
    ]

finished-Sums :
    (rows : List Row) (run : AdmissionRun)
    → calls_of rows < 2 ^ 32
    → Sound (0 + calls_of rows) run
    → let m = (finished run).0 in
      Sums rows m
      × (m.held_total ≡ m.held_resolved_accept + m.held_resolved_expired + m.held_pending)
finished-Sums rows run w s =
    let b = Adds-Sums rows run.suspended_by run.metrics s.adds in
    (
      record {
        calls = b.calls;
        counted = b.counted;
        denials = b.denials;
        violations = b.violations;
        repairs = b.repairs;
        causes = b.causes;
      },
      omega (arith, s.held.held, s.held.held_few),
    )

admission_step-returns :
    (r : Row) (run : AdmissionRun)
    → in_range r ≡ true
    → (next : AdmissionRun) × (admission_step r run ≡ ok next)
unfolding admission_step new_context admit
admission_step-returns r run h = elim (Bool-cases (r.kind == "repair")) [
  | inl repair ↦ (A.repaired r run, rw repair refl)
  | inr call ↦
      let trusted : leb r.reliability_ppm ppm ≡ true = ground (arith, h, call) in
      let fresh : leb r.observed_vtick r.expires_vtick ≡ true = ground (arith, h, call) in
      let scored : leb r.confidence_ppm ppm ≡ true = ground (arith, h, call) in
      let context : AdmissionContext = record {
        source_reliability_ppm = r.reliability_ppm;
        independent_corroborators = r.corroborators;
        now_vtick = r.observed_vtick;
        expires_vtick = r.expires_vtick;
      } in
      (
        A.judged r (admit_in_range beyond_scope r.confidence_ppm context) run,
        rw (call, trusted, fresh, scored) refl,
      )
]

admission_rows-returns :
    (rows : List Row) (run : AdmissionRun)
    → AreInRange rows
    → (after : AdmissionRun) × (admission_rows rows run ≡ ok after)
admission_rows-returns [] run h = (run, refl)
admission_rows-returns (r ∷ rows) run h =
    let (next, stepped) = admission_step-returns r run h.0 in
    let (after, ran) = admission_rows-returns rows next h.1 in (after, rw stepped ran)

-- The admission arm returns for every trace whose scores, reliabilities and expiry ticks are in
-- range. It keeps the sums of the baseline arm, and every piece of evidence that it held was
-- resolved by an acceptance, resolved by its expiry, or is reported as pending: none is lost and
-- none is counted twice, for any such trace of less than 2 ^ 32 rows.
pub run_admission-Sums :
    (rows : List Row) (log : List String)
    → length rows < 2 ^ 32
    → AreInRange rows
    → (m : Metrics) × (lines : List String) × (run_admission rows log ≡ ok (m, lines))
      × Sums rows m
      × (m.held_total ≡ m.held_resolved_accept + m.held_resolved_expired + m.held_pending)
unfolding run_admission
run_admission-Sums rows log w h =
    let start : AdmissionRun = record {
      metrics = no_metrics;
      suspended_by = none;
      pending = [];
      log = log;
    } in
    let (run, ran) = admission_rows-returns rows start h in
    let few : calls_of rows < 2 ^ 32 = omega (arith, w, calls_of-few rows) in
    let s =
      admission_rows-Sound 0 rows start run (omega (arith, few)) ran (record {
        adds = no_metrics-Adds;
        held = record { held = refl; held_few = omega arith };
      }) in
    let (sums, held) = finished-Sums rows run few s in
    ((finished run).0, (finished run).1, rw ran refl, sums, held)
