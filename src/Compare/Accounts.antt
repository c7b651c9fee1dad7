-- ===== src/Compare/Accounts.antt =====
-- src/bin/admission-compare.rs: the counters of both arms add up.
use r2r_jev.Prelude.{
  ℕ, ◌+◌, ◌^◌, ◌≤◌, ◌<◌, ◌≡◌, refl, arith, String, Option, none, some, Bool, true, false, not, ◌&&◌,
  if◌then◌else◌,
}
use r2r_jev.Compare.{
  Row, Metrics, no_metrics, bump, is_some, count_repair, count_suspension, count_verdict,
}

-- 1 while a suspension stands.
abbrev pub standing : Option String → ℕ
standing none = 0
standing (some cause) = 1

-- What holds of the counters after `n` calls, while `k` calls wait for a verdict
-- and `j` of them may still suspend.
pub record Adds (n k j : ℕ) (suspended_by : Option String) (m : Metrics) : Type 0 where
  pub calls : m.allowed + m.denied + k ≡ m.tool_calls
  pub denials : m.false_deny_calls + m.enforcement_denied ≤ m.denied
  pub violations : m.violation_allowed ≤ m.allowed
  pub repairs : m.suspensions ≡ m.effective_repairs + standing suspended_by
  pub causes : m.false_suspensions ≤ m.suspensions
  pub counted : m.tool_calls ≡ n
  pub suspensions_few : m.suspensions + j ≤ m.tool_calls

pub bump-one : (n : ℕ) → n + 1 < 2 ^ 32 → bump 1 n ≡ n + 1
unfolding bump
bump-one n h = omega arith

pub count_verdict-Adds :
    (n : ℕ) (r : Row) (suspended_by : Option String) (m : Metrics)
    → n < 2 ^ 32
    → Adds n 1 0 suspended_by m
    → Adds n 0 0 suspended_by (count_verdict r suspended_by m)
unfolding count_verdict
count_verdict-Adds n r none m w b =
    let allowed = bump-one m.allowed (omega (arith, b.calls, b.counted)) in
    let violated = bump-one m.violation_allowed (omega (arith, b.calls, b.counted, b.violations)) in
    record {
      calls = omega (arith, b.calls, allowed);
      denials = b.denials;
      violations = ground (arith, b.violations, allowed, violated);
      repairs = b.repairs;
      causes = b.causes;
      counted = b.counted;
      suspensions_few = b.suspensions_few;
    }
count_verdict-Adds n r (some cause) m w b =
    let denied = bump-one m.denied (omega (arith, b.calls, b.counted)) in
    let mistaken = bump-one m.false_deny_calls (omega (arith, b.calls, b.counted, b.denials)) in
    let enforced = bump-one m.enforcement_denied (omega (arith, b.calls, b.counted, b.denials)) in
    record {
      calls = ground (arith, b.calls, denied);
      denials = ground (arith, b.denials, denied, mistaken, enforced);
      violations = ground (arith, b.violations);
      repairs = ground (arith, b.repairs);
      causes = ground (arith, b.causes);
      counted = ground (arith, b.counted);
      suspensions_few = ground (arith, b.suspensions_few);
    }

pub count_repair-Adds :
    (n : ℕ) (suspended_by : Option String) (m : Metrics)
    → n < 2 ^ 32
    → Adds n 0 0 suspended_by m
    → Adds n 0 0 none (count_repair suspended_by m)
unfolding count_repair
count_repair-Adds n none m w b = b
count_repair-Adds n (some cause) m w b =
    let repaired =
      bump-one m.effective_repairs (omega (arith, b.repairs, b.suspensions_few, b.counted)) in
    record {
      calls = b.calls;
      denials = b.denials;
      violations = b.violations;
      repairs = omega (arith, b.repairs, repaired);
      causes = b.causes;
      counted = b.counted;
      suspensions_few = b.suspensions_few;
    }

pub count_suspension-Adds :
    (n : ℕ) (r : Row) (m : Metrics)
    → n < 2 ^ 32
    → Adds n 1 1 none m
    → Adds n 1 0 (some r.truth) (count_suspension r m)
unfolding count_suspension
count_suspension-Adds n r m w b =
    let suspended = bump-one m.suspensions (omega (arith, b.suspensions_few, b.counted)) in
    let mistaken =
      bump-one m.false_suspensions (omega (arith, b.suspensions_few, b.counted, b.causes)) in
    record {
      calls = b.calls;
      denials = b.denials;
      violations = b.violations;
      repairs = omega (arith, b.repairs, suspended);
      causes = ground (arith, b.causes, suspended, mistaken);
      counted = b.counted;
      suspensions_few = omega (arith, b.suspensions_few, suspended);
    }

-- A call that does not suspend.
pub Adds-later :
    (n : ℕ) (suspended_by : Option String) (m : Metrics)
    → Adds n 1 1 suspended_by m
    → Adds n 1 0 suspended_by m
Adds-later n suspended_by m b = record {
  calls = b.calls;
  denials = b.denials;
  violations = b.violations;
  repairs = b.repairs;
  causes = b.causes;
  counted = b.counted;
  suspensions_few = omega (arith, b.suspensions_few);
}

-- Whatever the counters are that the sums do not read.
pub tool_call-Adds :
    (n links : ℕ) (suspended_by : Option String) (m : Metrics)
    → n + 1 < 2 ^ 32
    → Adds n 0 0 suspended_by m
    → Adds
        (n + 1)
        1
        1
        suspended_by
        (record m { tool_calls = bump 1 m.tool_calls; provenance_links = links })
tool_call-Adds n links suspended_by m w b =
    let called = bump-one m.tool_calls (omega (arith, b.counted)) in
    record {
      calls = omega (arith, b.calls, called);
      denials = b.denials;
      violations = b.violations;
      repairs = b.repairs;
      causes = b.causes;
      counted = omega (arith, b.counted, called);
      suspensions_few = omega (arith, b.suspensions_few, called);
    }

pub links-Adds :
    (n k j links : ℕ) (suspended_by : Option String) (m : Metrics)
    → Adds n k j suspended_by m
    → Adds n k j suspended_by (record m { provenance_links = links })
links-Adds n k j links suspended_by m b = record {
  calls = b.calls;
  denials = b.denials;
  violations = b.violations;
  repairs = b.repairs;
  causes = b.causes;
  counted = b.counted;
  suspensions_few = b.suspensions_few;
}

pub no_metrics-Adds : Adds 0 0 0 none no_metrics
no_metrics-Adds = record {
  calls = refl;
  denials = omega arith;
  violations = omega arith;
  repairs = refl;
  causes = omega arith;
  counted = omega arith;
  suspensions_few = omega arith;
}

-- A call may suspend if nothing is suspended yet; the two arms count links apart.
pub suspend-Adds :
    (n : ℕ) (r : Row) (wanted : Bool) (suspended_by : Option String) (m other : Metrics)
    → n < 2 ^ 32
    → Adds n 1 1 suspended_by m
    → Adds n 1 1 suspended_by other
    → let suspends = wanted && not (is_some suspended_by) in
      Adds n 1 0
        (if suspends then some r.truth else suspended_by)
        (if suspends then count_suspension r m else other)
suspend-Adds n r true none m other w b c = count_suspension-Adds n r m w b
suspend-Adds n r true (some cause) m other w b c = Adds-later n (some cause) other c
suspend-Adds n r false none m other w b c = Adds-later n none other c
suspend-Adds n r false (some cause) m other w b c = Adds-later n (some cause) other c
