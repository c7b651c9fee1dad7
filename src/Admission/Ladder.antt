-- ===== src/Admission/Ladder.antt =====
-- src/admission.rs: which decision `admit` takes, described without the order of its tests.
use r2r_jev.Prelude.{ℕ, ◌≤◌, ◌≡◌, ◌≢◌, ◌↔◌, ◌⊎◌, arith, true, ok}
use r2r_jev.Admission.{
  EvidenceKind, unsupported, AdmissionDecision, reject, hold, accept, strong, corroborated,
  needs_corroboration_or_review, is_accepted, AdmissionContext, admit_in_range, admit, admit-eq_ok,
  ppm,
}

-- Evidence that admission may act on at all.
abbrev pub Eligible : EvidenceKind → AdmissionContext → Type 0
Eligible kind x = (kind ≢ unsupported) × (x.now_vtick ≤ x.expires_vtick)

-- A confident reading of a reliable source.
abbrev pub StrongSupport : ℕ → AdmissionContext → Type 0
StrongSupport c x = (900000 ≤ c) × (800000 ≤ x.source_reliability_ppm)

-- A medium reading of a fair source that two others confirm.
abbrev pub CorroboratedSupport : ℕ → AdmissionContext → Type 0
CorroboratedSupport c x =
    (700000 ≤ c) × (700000 ≤ x.source_reliability_ppm) × (2 ≤ x.independent_corroborators)

-- A reading that a trusted source makes worth a review.
abbrev pub ReviewSupport : ℕ → AdmissionContext → Type 0
ReviewSupport c x = (600000 ≤ c) × (600000 ≤ x.source_reliability_ppm)

module _ (kind : EvidenceKind) (c : ℕ) (x : AdmissionContext) where
  -- Of a confidence in range: `admit` returns, and it accepts the evidence exactly when its kind is
  -- supported, it has not expired, and it has strong or corroborated support.
  pub admit-accept_iff :
      c ≤ ppm
      → (p : AdmissionDecision) × (admit kind c x ≡ ok p)
        × ((is_accepted p ≡ true)
            ↔ (Eligible kind x × (StrongSupport c x ⊎ CorroboratedSupport c x)))
  unfolding admit_in_range is_accepted
  admit-accept_iff h = (admit_in_range kind c x, admit-eq_ok kind c x h, ground arith)

  -- Of a confidence in range: `admit` holds the evidence exactly when it is eligible and worth a
  -- review, and has neither strong nor corroborated support.
  pub admit-hold_iff :
      c ≤ ppm
      → (admit kind c x ≡ ok (hold needs_corroboration_or_review)) ↔ (
          Eligible kind x × ReviewSupport c x × (¬ StrongSupport c x) × (¬ CorroboratedSupport c x))
  unfolding admit admit_in_range
  admit-hold_iff h = ground arith

-- What a decision rests on.
abbrev pub Supports : AdmissionDecision → EvidenceKind → ℕ → AdmissionContext → Type 0
Supports (reject _) kind c x = Unit
Supports (hold _) kind c x = Eligible kind x × ReviewSupport c x
Supports (accept corroborated) kind c x = Eligible kind x × CorroboratedSupport c x
Supports (accept strong) kind c x = Eligible kind x × StrongSupport c x

pub admit-Supports :
    (p : AdmissionDecision) (kind : EvidenceKind) (c : ℕ) (x : AdmissionContext)
    → admit kind c x ≡ ok p
    → Supports p kind c x
unfolding admit admit_in_range
admit-Supports (reject r) kind c x h = tt
admit-Supports (hold r) kind c x h = ground arith
admit-Supports (accept corroborated) kind c x h = ground arith
admit-Supports (accept strong) kind c x h = ground arith
