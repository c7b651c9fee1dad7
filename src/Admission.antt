-- ===== src/Admission.antt =====
-- src/admission.rs: the boundary between probabilistic judgments and relation transitions.
-- Scores are parts per million. `assert!` is a panic of the `Result`.
pub mod Ladder
pub mod Order
use r2r_jev.Prelude.{
  ℕ, ◌+◌, ◌%◌, ◌^◌, ◌≤◌, ◌≡◌, arith, String, Bool, true, false, not, ◌&&◌, Result, ok, ◌>>=◌, ◌>>◌,
  assert, ltb, leb, if◌then◌else◌, [], ◌∷◌,
}
use r2r_jev.Prelude.Format.{format}

abbrev pub policy_version : String
policy_version = "0.1"

abbrev pub ppm : ℕ
ppm = 1000000

abbrev pub min_source_reliability : ℕ
min_source_reliability = 600000

abbrev pub min_review_confidence : ℕ
min_review_confidence = 600000

abbrev pub strong_confidence : ℕ
strong_confidence = 900000

abbrev pub strong_reliability : ℕ
strong_reliability = 800000

abbrev pub corroborated_confidence : ℕ
corroborated_confidence = 700000

abbrev pub corroborated_reliability : ℕ
corroborated_reliability = 700000

abbrev pub min_corroborators : ℕ
min_corroborators = 2

pub data EvidenceKind : Type 0 where
  beyond_scope destructive_action unsupported : EvidenceKind

pub data AdmissionClass : Type 0 where
  strong corroborated : AdmissionClass

pub data RejectReason : Type 0 where
  unsupported_kind expired source_below_trust_floor insufficient_support : RejectReason

pub data HoldReason : Type 0 where
  needs_corroboration_or_review : HoldReason

pub data AdmissionDecision : Type 0 where
  reject : RejectReason → AdmissionDecision
  hold : HoldReason → AdmissionDecision
  accept : AdmissionClass → AdmissionDecision

unfoldable pub is_supported : EvidenceKind → Bool
is_supported beyond_scope = true
is_supported destructive_action = true
is_supported unsupported = false

unfoldable pub kind_as_str : EvidenceKind → String
kind_as_str beyond_scope = "BeyondScope"
kind_as_str destructive_action = "DestructiveAction"
kind_as_str unsupported = "Unsupported"

unfoldable pub class_as_str : AdmissionClass → String
class_as_str strong = "Strong"
class_as_str corroborated = "Corroborated"

unfoldable pub reject_as_str : RejectReason → String
reject_as_str unsupported_kind = "UnsupportedKind"
reject_as_str expired = "Expired"
reject_as_str source_below_trust_floor = "SourceBelowTrustFloor"
reject_as_str insufficient_support = "InsufficientSupport"

unfoldable pub hold_as_str : HoldReason → String
hold_as_str needs_corroboration_or_review = "NeedsCorroborationOrReview"

unfoldable pub render : AdmissionDecision → String
unfolding class_as_str reject_as_str hold_as_str
render (reject reason) = format ("Reject(" ∷ reject_as_str reason ∷ ")" ∷ [])
render (hold reason) = format ("Hold(" ∷ hold_as_str reason ∷ ")" ∷ [])
render (accept class) = format ("Accept(" ∷ class_as_str class ∷ ")" ∷ [])

unfoldable pub is_accepted : AdmissionDecision → Bool
is_accepted (reject _) = false
is_accepted (hold _) = false
is_accepted (accept _) = true

pub record AdmissionContext : Type 0 where
  pub source_reliability_ppm : ℕ  -- u32
  pub independent_corroborators : ℕ  -- u8
  pub now_vtick : ℕ  -- u64
  pub expires_vtick : ℕ  -- u64

unfoldable pub new_context : ℕ → ℕ → ℕ → ℕ → Result AdmissionContext
new_context reliability corroborators now expires = do
  assert (leb reliability ppm)
  assert (leb now expires)
  ok (record {
    source_reliability_ppm = reliability;
    independent_corroborators = corroborators;
    now_vtick = now;
    expires_vtick = expires;
  })

-- `now_vtick + 10` is computed in `u64`.
unfoldable pub demo_context : ℕ → Result AdmissionContext
unfolding new_context
demo_context now = new_context 850000 0 now ((now + 10) % 2 ^ 64)

-- `admit` after its assertion. The order of the tests is normative.
unfoldable pub admit_in_range : EvidenceKind → ℕ → AdmissionContext → AdmissionDecision
unfolding is_supported
admit_in_range kind confidence context =
    if not (is_supported kind)
    then reject unsupported_kind
    else if ltb context.expires_vtick context.now_vtick
    then reject expired
    else if ltb context.source_reliability_ppm min_source_reliability
    then reject source_below_trust_floor
    else if leb strong_confidence confidence
        && leb strong_reliability context.source_reliability_ppm
    then accept strong
    else if leb corroborated_confidence confidence
        && leb corroborated_reliability context.source_reliability_ppm
        && leb min_corroborators context.independent_corroborators
    then accept corroborated
    else if leb min_review_confidence confidence
    then hold needs_corroboration_or_review
    else reject insufficient_support

unfoldable pub admit : EvidenceKind → ℕ → AdmissionContext → Result AdmissionDecision
admit kind confidence context = do
  assert (leb confidence ppm)
  ok (admit_in_range kind confidence context)

pub admit-eq_ok :
    (kind : EvidenceKind) (c : ℕ) (x : AdmissionContext)
    → c ≤ ppm
    → admit kind c x ≡ ok (admit_in_range kind c x)
unfolding admit
admit-eq_ok kind c x h = ground arith
