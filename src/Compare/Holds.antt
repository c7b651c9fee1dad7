-- ===== src/Compare/Holds.antt =====
-- src/bin/admission-compare.rs: every piece of held evidence is accounted for.
use r2r_jev.Prelude.{
  ℕ, suc, ◌+◌, ◌^◌, ◌≤◌, ◌<◌, ◌≡◌, arith, String, [], ◌∷◌, Option, none, some, Bool, length,
}
use r2r_jev.Compare.{Row, Metrics, count_repair, count_verdict}
use r2r_jev.Compare.Accounts.{Adds, bump-one}
use r2r_jev.Compare.Admitting.{
  Pending, Fate, stays, accepted_now, expired_now, fate_of, count_fate, keep_if, resolve,
}

-- All that was held is resolved or waits, and at most `n` pieces were held.
pub record Held (n waiting : ℕ) (m : Metrics) : Type 0 where
  pub held : m.held_total ≡ m.held_resolved_accept + m.held_resolved_expired + waiting
  pub held_few : m.held_total ≤ n

count_fate-Adds :
    (n k j : ℕ) (fate : Fate) (suspended_by : Option String) (m : Metrics)
    → Adds n k j suspended_by m
    → Adds n k j suspended_by (count_fate fate m)
count_fate-Adds n k j stays suspended_by m b = b
count_fate-Adds n k j accepted_now suspended_by m b = record {
  calls = b.calls;
  denials = b.denials;
  violations = b.violations;
  repairs = b.repairs;
  causes = b.causes;
  counted = b.counted;
  suspensions_few = b.suspensions_few;
}
count_fate-Adds n k j expired_now suspended_by m b = record {
  calls = b.calls;
  denials = b.denials;
  violations = b.violations;
  repairs = b.repairs;
  causes = b.causes;
  counted = b.counted;
  suspensions_few = b.suspensions_few;
}

pub resolve-Adds :
    (n k j : ℕ) (r : Row) (accepted : Bool) (pending : Pending) (suspended_by : Option String)
    (m : Metrics)
    → Adds n k j suspended_by m
    → Adds n k j suspended_by (resolve r accepted pending m).0
unfolding resolve
resolve-Adds n k j r accepted [] suspended_by m b = b
resolve-Adds n k j r accepted (entry ∷ rest) suspended_by m b =
    resolve-Adds n k j r accepted rest suspended_by (count_fate (fate_of r accepted entry) m)
      (count_fate-Adds n k j (fate_of r accepted entry) suspended_by m b)

-- The entry leaves the list exactly when its resolution is counted.
fate-Held :
    (n before after : ℕ) (fate : Fate) (m later : Metrics) (entry : String × ℕ) (out : Pending)
    → n < 2 ^ 32
    → ((z : ℕ) → Held n (before + z) (count_fate fate m) → Held n (length out + z) later)
    → Held n (suc before + after) m
    → Held n (length (keep_if fate entry out) + after) later
fate-Held n before after stays m later entry out w rest b =
    let step = rest (after + 1) (record { held = omega (arith, b.held); held_few = b.held_few }) in
    record { held = omega (arith, step.held); held_few = step.held_few }
fate-Held n before after accepted_now m later entry out w rest b =
    let one = bump-one m.held_resolved_accept (omega (arith, b.held, b.held_few)) in
    rest after (record { held = omega (arith, b.held, one); held_few = b.held_few })
fate-Held n before after expired_now m later entry out w rest b =
    let one = bump-one m.held_resolved_expired (omega (arith, b.held, b.held_few)) in
    rest after (record { held = omega (arith, b.held, one); held_few = b.held_few })

pub resolve-Held :
    (n after : ℕ) (r : Row) (accepted : Bool) (pending : Pending) (m : Metrics)
    → n < 2 ^ 32
    → Held n (length pending + after) m
    → let done = resolve r accepted pending m in Held n (length done.1 + after) done.0
unfolding resolve
resolve-Held n after r accepted [] m w b = b
resolve-Held n after r accepted (entry ∷ rest) m w b =
    let fate = fate_of r accepted entry in
    let later = resolve r accepted rest (count_fate fate m) in
    fate-Held n (length rest) after fate m later.0 entry later.1 w
      (λ z. resolve-Held n z r accepted rest (count_fate fate m) w) b

-- The counters of the held evidence are not touched by the verdict.
pub count_verdict-Held :
    (n waiting : ℕ) (r : Row) (suspended_by : Option String) (m : Metrics)
    → Held n waiting m
    → Held n waiting (count_verdict r suspended_by m)
unfolding count_verdict
count_verdict-Held n waiting r none m b = record { held = b.held; held_few = b.held_few }
count_verdict-Held n waiting r (some cause) m b = record {
  held = ground (arith, b.held);
  held_few = ground (arith, b.held_few);
}

pub count_repair-Held :
    (n waiting : ℕ) (suspended_by : Option String) (m : Metrics)
    → Held n waiting m
    → Held n waiting (count_repair suspended_by m)
unfolding count_repair
count_repair-Held n waiting none m b = b
count_repair-Held n waiting (some cause) m b = record { held = b.held; held_few = b.held_few }
