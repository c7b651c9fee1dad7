-- ===== src/Scenario/Dominates.antt =====
-- src/bin/compare.rs: the arm with memory lets through no more than the threshold alone.
use r2r_jev.Prelude.{
  ℕ, suc, ◌+◌, ◌^◌, ◌≤◌, ◌<◌, ◌≡◌, refl, subst, arith, String, List, [], ◌∷◌, Option, none, some,
  ◌||◌, ok, >>=-eq-ok, ok-injective, ◌==◌, length, nat_eq, Bool-cases, inl, inr,
}
use r2r_jev.Prelude.Text.{trim, splitn}
use r2r_jev.Compare.Accounts.{bump-one}
use r2r_jev.Scenario.{
  Decision, Authorization, Metrics, no_metrics, observe, threshold_decision, Run, Event, suspend_if,
  decision_of, tool_call, handle, event_of, line_step, run_lines, started,
}

-- Every call is judged right or wrong in one of two ways.
pub record Counts (n : ℕ) (m : Metrics) : Type 0 where
  pub calls : m.correct + m.false_allows + m.false_denies ≡ m.tool_calls
  pub few : m.tool_calls ≤ n

-- The counters of the two arms after at most `n` rows.
pub record Dominated (n : ℕ) (stateless stateful : Metrics) : Type 0 where
  pub first : Counts n stateless
  pub second : Counts n stateful
  pub same_calls : stateful.tool_calls ≡ stateless.tool_calls
  pub false_allows : stateful.false_allows ≤ stateless.false_allows
  pub false_denies : stateless.false_denies ≤ stateful.false_denies

observe-Counts :
    (n : ℕ) (got expected : Decision) (m : Metrics)
    → n + 1 < 2 ^ 32
    → Counts n m
    → Counts (n + 1) (observe got expected m)
unfolding observe
observe-Counts n got expected m w c =
    let calls = bump-one m.tool_calls (omega (arith, c.few)) in
    let right = bump-one m.correct (omega (arith, c.few, c.calls)) in
    let allows = bump-one m.false_allows (omega (arith, c.few, c.calls)) in
    let denies = bump-one m.false_denies (omega (arith, c.few, c.calls)) in
    record {
      calls = ground (arith, c.calls, calls, right, allows, denies);
      few = ground (arith, c.few, calls);
    }

-- One call: what the threshold denies the suspended authorization denies too.
observe-Dominated :
    (n : ℕ) (got expected : Decision) (auth : Authorization) (stateless stateful : Metrics)
    → n + 1 < 2 ^ 32
    → Dominated n stateless stateful
    → Dominated
        (n + 1)
        (observe got expected stateless)
        (observe (decision_of (suspend_if got auth)) expected stateful)
unfolding observe
observe-Dominated n got expected auth stateless stateful w d =
    let few = d.first.few in
    let few' = d.second.few in
    let calls = bump-one stateless.tool_calls (omega (arith, few)) in
    let calls' = bump-one stateful.tool_calls (omega (arith, few')) in
    let allows = bump-one stateless.false_allows (omega (arith, few, d.first.calls)) in
    let allows' = bump-one stateful.false_allows (omega (arith, few', d.second.calls)) in
    let denies = bump-one stateless.false_denies (omega (arith, few, d.first.calls)) in
    let denies' = bump-one stateful.false_denies (omega (arith, few', d.second.calls)) in
    record {
      first = observe-Counts n got expected stateless w d.first;
      second = observe-Counts n (decision_of (suspend_if got auth)) expected stateful w d.second;
      same_calls = ground (arith, d.same_calls, calls, calls');
      false_allows = ground (arith, d.false_allows, allows, allows');
      false_denies = ground (arith, d.false_denies, denies, denies');
    }

Counts-more : (n : ℕ) (m : Metrics) → Counts n m → Counts (n + 1) m
Counts-more n m c = record { calls = c.calls; few = omega (arith, c.few) }

Dominated-more :
    (n : ℕ) (stateless stateful : Metrics)
    → Dominated n stateless stateful
    → Dominated (n + 1) stateless stateful
Dominated-more n stateless stateful d = record {
  first = Counts-more n stateless d.first;
  second = Counts-more n stateful d.second;
  same_calls = d.same_calls;
  false_allows = d.false_allows;
  false_denies = d.false_denies;
}

tool_call-Dominated :
    (n : ℕ) (event : Event) (expected : Option Decision) (run next : Run)
    → n + 1 < 2 ^ 32
    → tool_call event expected run ≡ ok next
    → Dominated n run.stateless run.stateful
    → Dominated (n + 1) next.stateless next.stateful
tool_call-Dominated n event none run next w e d = absurd (cc e)
tool_call-Dominated n event (some expected) run next w e d =
    subst (λ (r : Run). Dominated (n + 1) r.stateless r.stateful) (ok-injective e)
      (observe-Dominated n (threshold_decision event.beyond_scope event.destructive) expected
        run.stateful_auth run.stateless run.stateful w d)

-- A row that is no call changes no counter.
kept-Dominated :
    (n : ℕ) (run next : Run) {other : Run}
    → ok other ≡ ok next
    → (other.stateless ≡ run.stateless) × (other.stateful ≡ run.stateful)
    → Dominated n run.stateless run.stateful
    → Dominated (n + 1) next.stateless next.stateful
kept-Dominated n run next {other} e same d =
    subst (λ (r : Run). Dominated (n + 1) r.stateless r.stateful) (ok-injective e)
      (rw (same.0, same.1) (Dominated-more n run.stateless run.stateful d))

handle-Dominated :
    (n : ℕ) (event : Event) (run next : Run)
    → n + 1 < 2 ^ 32
    → handle event run ≡ ok next
    → Dominated n run.stateless run.stateful
    → Dominated (n + 1) next.stateless next.stateful
unfolding handle
handle-Dominated n event run next w e d = elim (Bool-cases (event.kind == "human_override")) [
  | inl repair ↦ kept-Dominated n run next (rw repair at e) (refl, refl) d
  | inr other ↦ elim (Bool-cases (event.kind == "review_failure")) [
    | inl review ↦ kept-Dominated n run next (rw review at (rw other at e)) (refl, refl) d
    | inr neither ↦ elim (Bool-cases (event.kind == "tool_call")) [
      | inl call ↦
          tool_call-Dominated n event event.expected run next w
            (rw call at (rw neither at (rw other at e))) d
      | inr unknown ↦ absurd (cc (rw unknown at (rw neither at (rw other at e))))
    ]
  ]
]

line_step-Dominated :
    (n idx : ℕ) (raw : String) (run next : Run)
    → n + 1 < 2 ^ 32
    → line_step idx raw run ≡ ok next
    → Dominated n run.stateless run.stateful
    → Dominated (n + 1) next.stateless next.stateful
line_step-Dominated n idx raw run next w e d = elim (Bool-cases (nat_eq idx 0 || trim raw == "")) [
  | inl skipped ↦ kept-Dominated n run next (rw skipped at e) (refl, refl) d
  | inr read ↦
      let (event, parsed, e) = >>=-eq-ok (event_of (splitn 6 "," raw)) _ (rw read at e) in
      handle-Dominated n event run next w e d
]

run_lines-more :
    (n idx : ℕ) (lines : List String) (run after : Run)
    → n + length lines < 2 ^ 32
    → run_lines idx lines run ≡ ok after
    → Dominated n run.stateless run.stateful
    → Dominated (n + length lines) after.stateless after.stateful
unfolding run_lines
run_lines-more n idx [] run after w e d =
    subst (λ k. Dominated k after.stateless after.stateful) (omega arith)
      (subst (λ (r : Run). Dominated n r.stateless r.stateful) (ok-injective e) d)
run_lines-more n idx (raw ∷ rest) run after w e d =
    let (next, stepped, e) = >>=-eq-ok (line_step idx raw run) _ e in
    subst (λ k. Dominated k after.stateless after.stateful) (omega arith)
      (run_lines-more (n + 1) (suc idx) rest next after (omega arith) e
        (line_step-Dominated n idx raw run next (omega arith) stepped d))

none_counted : Dominated 0 no_metrics no_metrics
none_counted = record {
  first = record { calls = refl; few = omega arith };
  second = record { calls = refl; few = omega arith };
  same_calls = refl;
  false_allows = omega arith;
  false_denies = omega arith;
}

-- Over any file of less than 2 ^ 32 lines that is read to its end, both arms count the same calls,
-- each of them once, and the arm with memory has at most as many false allows and at least as many
-- false denies as the threshold alone: memory trades the one for the other.
pub run_lines-Dominated :
    (path : String) (lines : List String) (run : Run)
    → length lines < 2 ^ 32
    → run_lines 0 lines (started path) ≡ ok run
    → Dominated (length lines) run.stateless run.stateful
run_lines-Dominated path lines run w e =
    subst (λ k. Dominated k run.stateless run.stateful) (omega arith)
      (run_lines-more 0 0 lines (started path) run (omega arith) e none_counted)
