-- ===== src/Showcase.antt =====
-- src/bin/admission.rs: the printer of the admission policy's seven cases. What it prints is a list
-- of lines; a failed assertion is `panic`.
use r2r_jev.Prelude.{ℕ, String, List, [], ◌∷◌, ◌++◌, Result, ok, ◌>>=◌}
use r2r_jev.Prelude.Decimal.{show}
use r2r_jev.Prelude.Format.{format}
use r2r_jev.Admission.{
  accept, admit, AdmissionContext, AdmissionDecision, beyond_scope, class_as_str,
  destructive_action, EvidenceKind, hold, kind_as_str, new_context, policy_version, reject, render,
  unsupported,
}

pub record Example : Type 0 where
  pub label : String
  pub evidence_id : String
  pub kind : EvidenceKind
  pub confidence_ppm : ℕ  -- u32
  pub context : AdmissionContext

abbrev pub example : String → String → EvidenceKind → ℕ → AdmissionContext → Example
example label evidence_id kind confidence context = record {
  label = label;
  evidence_id = evidence_id;
  kind = kind;
  confidence_ppm = confidence;
  context = context;
}

unfoldable pub examples : Result (List Example)
unfolding new_context
examples = do
  a ← new_context 850000 0 10 20
  b ← new_context 400000 0 10 20
  c ← new_context 800000 2 11 20
  d ← new_context 800000 0 11 20
  let e : AdmissionContext = record {
    source_reliability_ppm = 990000;
    independent_corroborators = 3;
    now_vtick = 6;
    expires_vtick = 5;
  }
  f ← new_context 900000 3 12 20
  g ← new_context 999000 9 12 20
  ok (
      example "A strong trusted signal" "ev-a" beyond_scope 940000 a
      ∷ example "B high confidence, untrusted source" "ev-b" beyond_scope 970000 b
      ∷ example "C medium signal, independently corroborated" "ev-c" destructive_action 760000 c
      ∷ example "D medium signal, no corroboration" "ev-d" destructive_action 760000 d
      ∷ example "E expired evidence" "ev-e" beyond_scope 990000 e
      ∷ example "F low support" "ev-f" beyond_scope 420000 f
      ∷ example "G unsupported evidence kind" "ev-g" unsupported 999000 g
      ∷ [])

abbrev pub emitted : Example → AdmissionDecision → List String
emitted example (accept class) =
    format (
      "  emits=EvidenceAdmitted(id="
      ∷ example.evidence_id
      ∷ ", kind="
      ∷ kind_as_str example.kind
      ∷ ", class="
      ∷ class_as_str class
      ∷ ", policy="
      ∷ policy_version
      ∷ ")"
      ∷ [])
    ∷ "  relation_mutation=NONE (R2R rules decide downstream effects)"
    ∷ []
emitted example (hold reason) = "  emits=no governance-active evidence" ∷ []
emitted example (reject reason) = "  emits=no governance-active evidence" ∷ []

abbrev pub shown : Example → AdmissionDecision → List String
shown example decision =
    (example.label
      ∷ format (
          "  kind="
          ∷ kind_as_str example.kind
          ∷ " confidence="
          ∷ show example.confidence_ppm
          ∷ " reliability="
          ∷ show example.context.source_reliability_ppm
          ∷ " corroborators="
          ∷ show example.context.independent_corroborators
          ∷ " now="
          ∷ show example.context.now_vtick
          ∷ " expires="
          ∷ show example.context.expires_vtick
          ∷ [])
      ∷ format ("  admission=" ∷ render decision ∷ [])
      ∷ emitted example decision)
    ++ "" ∷ []

unfoldable pub show_all : List Example → Result (List String)
show_all [] = ok []
show_all (example ∷ rest) = do
  decision ← admit example.kind example.confidence_ppm example.context
  lines ← show_all rest
  ok (shown example decision ++ lines)

unfoldable pub main : Result (List String)
unfolding examples show_all
main = do
  cases ← examples
  lines ← show_all cases
  ok (
      "Evidence Admission Semantics v0.1"
      ∷ "Judgment -> Evidence -> Admission -> R2R -> Enforcement\n" ∷ lines)
