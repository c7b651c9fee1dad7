-- ===== src/Admission/Order.antt =====
-- src/admission.rs: more support never lowers a decision.
use r2r_jev.Prelude.{ℕ, ◌≤◌, ◌≡◌, arith, ok}
use r2r_jev.Admission.{
  EvidenceKind, AdmissionDecision, reject, hold, accept, strong, corroborated, AdmissionContext,
  admit, admit_in_range,
}
use r2r_jev.Admission.Ladder.{Supports, admit-Supports}

abbrev pub rank : AdmissionDecision → ℕ
rank (reject _) = 0
rank (hold _) = 1
rank (accept corroborated) = 2
rank (accept strong) = 3

-- `y` binds at least as much trust as `x`, and has not expired where `x` has not.
pub record NoWeaker (x y : AdmissionContext) : Type 0 where
  pub reliability : x.source_reliability_ppm ≤ y.source_reliability_ppm
  pub corroborators : x.independent_corroborators ≤ y.independent_corroborators
  pub live : x.now_vtick ≤ x.expires_vtick → y.now_vtick ≤ y.expires_vtick

Supports-mono :
    (p : AdmissionDecision) (kind : EvidenceKind) {c d : ℕ} {x y : AdmissionContext}
    → c ≤ d
    → NoWeaker x y
    → Supports p kind c x
    → Supports p kind d y
Supports-mono (reject r) kind cd xy s = tt
Supports-mono (hold r) kind cd xy s = ground arith
Supports-mono (accept corroborated) kind cd xy s = ground arith
Supports-mono (accept strong) kind cd xy s = ground arith

rank-le_of_Supports :
    (p q : AdmissionDecision) (kind : EvidenceKind) (d : ℕ) (y : AdmissionContext)
    → Supports p kind d y
    → admit kind d y ≡ ok q
    → rank p ≤ rank q
unfolding admit admit_in_range
rank-le_of_Supports (reject r) q kind d y s h = ground arith
rank-le_of_Supports (hold r) q kind d y s h = ground arith
rank-le_of_Supports (accept corroborated) q kind d y s h = ground arith
rank-le_of_Supports (accept strong) q kind d y s h = ground arith

-- A higher confidence, a more reliable source, more corroborators or fresher evidence never lower
-- the decision: reject, hold, accept as corroborated, accept as strong.
pub admit_mono :
    (kind : EvidenceKind) (c d : ℕ) (x y : AdmissionContext) (p q : AdmissionDecision)
    → c ≤ d
    → NoWeaker x y
    → admit kind c x ≡ ok p
    → admit kind d y ≡ ok q
    → rank p ≤ rank q
admit_mono kind c d x y p q cd xy hp hq =
    rank-le_of_Supports p q kind d y (Supports-mono p kind cd xy (admit-Supports p kind c x hp)) hq
