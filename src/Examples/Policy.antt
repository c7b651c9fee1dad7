-- ===== src/Examples/Policy.antt =====
-- src/bin/admission.rs: the seven cases and their decisions.
use r2r_jev.Prelude.{List, [], ◌∷◌, String, Result, ok, ◌>>=◌, ◌≡◌, refl}
use r2r_jev.Admission.{admit, admit_in_range, new_context, render}
use r2r_jev.Showcase.{Example, examples}

abbrev admissions : List Example → Result (List String)
admissions [] = ok []
admissions (example ∷ rest) = do
  decision ← admit example.kind example.confidence_ppm example.context
  others ← admissions rest
  ok (render decision ∷ others)

seven_cases :
    (examples >>= λ cases. admissions cases)
    ≡ ok (
        "Accept(Strong)" ∷ "Reject(SourceBelowTrustFloor)" ∷ "Accept(Corroborated)"
        ∷ "Hold(NeedsCorroborationOrReview)" ∷ "Reject(Expired)" ∷ "Reject(InsufficientSupport)"
        ∷ "Reject(UnsupportedKind)" ∷ [])
unfolding examples new_context admit admit_in_range render
seven_cases = refl
