-- ===== src/Governance/History.antt =====
-- src/r2r.rs: provenance lines are only ever appended, and event ids are never given twice.
use r2r_jev.Prelude.{
  ℕ, ◌+◌, ◌<◌, ◌^◌, String, List, [], ◌∷◌, ◌++◌, ◌≡◌, ◌≢◌, refl, sym, subst, ap, ◌∙◌, arith, length,
  length-append, inc64, inc64-eq_add,
}
use mathlib.Core.List.{append-nil, append_assoc}
use text.Mathlib.TextLemmas.{append_cancel_left}
use r2r_jev.Prelude.Decimal.{pad}
use r2r_jev.Prelude.Format.{format, format-pad_injective}
use r2r_jev.Model.{JudgmentObserved}
use r2r_jev.Admission.{
  EvidenceKind, beyond_scope, destructive_action, AdmissionContext, AdmissionDecision,
}
use r2r_jev.Governance.{Admission, Governance, IdKind, next, id_prefix, render_id}
use r2r_jev.Governance.Observe.{
  Observing, conclude, record_candidate, apply_decision, apply_admitted_evidence,
}
use r2r_jev.Governance.Override.{human_override}
use r2r_jev.Governance.Effect.{
  start, scope_decision, destructive_decision, observed, observe_judgment-eq_observed,
}
use r2r_jev.Governance.Trace.{Step, judged, overridden, Reach, here, then}

-- `ys` is `xs` with `n` more lines behind it.
abbrev pub Grows : ℕ → List String → List String → Type 0
Grows n xs ys = (more : List String) × (length more ≡ n) × (ys ≡ xs ++ more)

Grows-trans :
    (m n : ℕ) (xs ys zs : List String) → Grows m xs ys → Grows n ys zs → Grows (m + n) xs zs
Grows-trans m n xs ys zs (p, lp, ep) (q, lq, eq) =
    (p ++ q, omega (arith, length-append p q), eq ∙ rw ep (append_assoc xs p q))

Grows-one : (xs ys : List String) (line : String) → ys ≡ xs → Grows 1 xs (ys ++ line ∷ [])
Grows-one xs ys line e = (line ∷ [], refl, rw e)

-- What a part of an event does to the log and to the event counter.
record Appends (n : ℕ) (g h : Governance) : Type 0 where
  lines : Grows n g.provenance h.provenance
  counted : h.counters.event ≡ g.counters.event

Appends-trans : (m n : ℕ) {g h k : Governance} → Appends m g h → Appends n h k → Appends (m + n) g k
Appends-trans m n {g} {h} {k} p q = record {
  lines = Grows-trans m n g.provenance h.provenance k.provenance p.lines q.lines;
  counted = q.counted ∙ p.counted;
}

apply_decision-provenance :
    (d : AdmissionDecision) (id : String) (k : EvidenceKind) (g : Governance)
    → ((apply_decision d id k g).0.provenance ≡ g.provenance)
      × ((apply_decision d id k g).0.counters.event ≡ g.counters.event)
unfolding apply_decision apply_admitted_evidence
apply_decision-provenance d id k g = ground arith

record_candidate-Appends :
    (e : String) (k : EvidenceKind) (c : ℕ) (d : AdmissionDecision) (o : Observing)
    → Appends 1 o.governance (record_candidate e k c d o).governance
unfolding record_candidate
record_candidate-Appends e k c d o =
    let (id, counters) = next IdKind.evidence o.governance.counters in
    let g : Governance = record o.governance { counters = counters } in
    let kept = apply_decision-provenance d id k g in
    record {
      lines = Grows-one o.governance.provenance (apply_decision d id k g).0.provenance _ kept.0;
      counted = kept.1 ∙ (unfold next in refl);
    }

conclude-Appends :
    (e : String) (j : JudgmentObserved) (o : Observing) → Appends 1 o.governance (conclude e j o).1
unfolding conclude
conclude-Appends e j o = record {
  lines = Grows-one o.governance.provenance o.governance.provenance _ refl;
  counted = refl;
}

observed-Appends :
    (j : JudgmentObserved) (x : AdmissionContext) (g : Governance)
    → Appends 3 (start g).governance (observed j x g).1
unfolding observed
observed-Appends j x g =
    let id = (next IdKind.event g.counters).0 in
    let o : Observing =
      record_candidate id beyond_scope j.beyond_scope_ppm (scope_decision j x) (start g) in
    let p : Observing =
      record_candidate id destructive_action j.destructive_ppm (destructive_decision j x) o in
    Appends-trans 2 1
      (Appends-trans 1 1
        (record_candidate-Appends id beyond_scope j.beyond_scope_ppm (scope_decision j x) (start g))
        (record_candidate-Appends id destructive_action j.destructive_ppm (destructive_decision j x)
          o))
      (conclude-Appends id j p)

-- An event takes the next event id and appends `n` lines.
record Event (n : ℕ) (g h : Governance) : Type 0 where
  lines : Grows n g.provenance h.provenance
  counted : h.counters.event ≡ inc64 g.counters.event

observed-Event :
    (j : JudgmentObserved) (x : AdmissionContext) (g : Governance) → Event 3 g (observed j x g).1
observed-Event j x g =
    let a = observed-Appends j x g in
    record { lines = a.lines; counted = a.counted ∙ (unfold next in refl) }

human_override-Event :
    (supervisor action : String) (g : Governance) → Event 1 g (human_override supervisor action g).1
unfolding human_override
human_override-Event supervisor action g = record {
  lines = Grows-one g.provenance _ _ (ground arith);
  counted = ground arith;
}

-- How many lines a step writes.
abbrev pub lines_of : {g h : Governance} → Step g h → ℕ
lines_of (judged j x a e) = 3
lines_of (overridden s a e) = 1

Step-Event : {g h : Governance} (s : Step g h) → Event (lines_of s) g h
Step-Event {g} (judged j x a e) =
    subst (λ (r : Admission × Governance). Event 3 g r.1)
      (sym (observe_judgment-eq_observed j x g e)) (observed-Event j x g)
Step-Event {g} (overridden s a e) = subst (Event 1 g) (sym e) (human_override-Event s a g)

abbrev pub written : {g h : Governance} → Reach g h → ℕ
written here = 0
written (then r s) = written r + lines_of s

abbrev pub events : {g h : Governance} → Reach g h → ℕ
events here = 0
events (then r s) = events r + 1

-- Over any history: the provenance log keeps every line that it had, in place, and gains three lines
-- for each judgment and one for each override.
pub Reach-provenance :
    {g h : Governance} (r : Reach g h) → Grows (written r) g.provenance h.provenance
Reach-provenance {g} here = ([], refl, sym (append-nil g.provenance))
Reach-provenance {g} (then {h} {k} r s) =
    Grows-trans (written r) (lines_of s) g.provenance h.provenance k.provenance (Reach-provenance r)
      (Step-Event s).lines

Reach-events :
    {g h : Governance} (r : Reach g h)
    → g.counters.event + events r < 2 ^ 64
    → h.counters.event ≡ g.counters.event + events r
Reach-events here b = omega arith
Reach-events {g} (then {h} r s) b =
    let before = Reach-events r (omega arith) in
    (Step-Event s).counted
    ∙ ap inc64 before
    ∙ inc64-eq_add (g.counters.event + events r) (omega arith)
    ∙ omega arith

render_id-injective : (k : IdKind) (m n : ℕ) → render_id k m ≡ render_id k n → m ≡ n
render_id-injective k m n h =
    format-pad_injective "-" 4 m n (
      append_cancel_left (id_prefix k) (format ("-" ∷ pad 4 m ∷ [])) (format ("-" ∷ pad 4 n ∷ []))
        h)

-- The id that the next event of a kernel takes.
abbrev pub next_event_id : Governance → String
next_event_id g = (next IdKind.event g.counters).0

-- As long as fewer than 2 ^ 64 events have been counted: the next event id differs from the id that
-- any earlier state would have given, so no id is given twice.
pub next_event_id-ne :
    {g h : Governance} (r : Reach g h) {k : Governance} (s : Step h k)
    → g.counters.event + events r + 2 < 2 ^ 64
    → next_event_id g ≢ next_event_id k
unfolding next
next_event_id-ne {g} {h} r {k} s b e =
    let same : inc64 g.counters.event ≡ inc64 k.counters.event =
      render_id-injective IdKind.event (inc64 g.counters.event) (inc64 k.counters.event) e in
    let later : k.counters.event ≡ g.counters.event + events (then r s) =
      Reach-events (then r s) (omega arith) in
    omega (
      arith,
      same,
      later,
      inc64-eq_add g.counters.event (omega arith),
      inc64-eq_add k.counters.event (omega arith),
    )
