-- ===== src/Compare.antt =====
-- src/bin/admission-compare.rs: the experiment that feeds one trace of judgments to a plain threshold
-- and to evidence admission, and counts what each of them denies.
pub mod Accounts
pub mod Admitting
pub mod Balance
pub mod Baseline
pub mod Holds
pub mod Rows
pub mod Sums
use Prim.Native.String.{count}
use r2r_jev.Prelude.{
  ℕ, zero, suc, ◌+◌, ◌-◌, ◌/◌, ◌%◌, ◌^◌, String, List, [], ◌∷◌, Option, none, some, Bool, true,
  false, ◌==◌, if◌then◌else◌,
}
use r2r_jev.Prelude.Decimal.{show}
use r2r_jev.Prelude.Format.{format}

abbrev pub baseline_threshold_ppm : ℕ
baseline_threshold_ppm = 850000

pub record Row : Type 0 where
  pub step : ℕ  -- u32
  pub incident : String
  pub kind : String
  pub confidence_ppm : ℕ  -- u32
  pub reliability_ppm : ℕ  -- u32
  pub corroborators : ℕ  -- u8
  pub observed_vtick : ℕ  -- u64
  pub expires_vtick : ℕ  -- u64
  pub truth : String
  pub note : String

-- Counters in `u32`.
pub record Metrics : Type 0 where
  pub tool_calls : ℕ
  pub allowed : ℕ
  pub denied : ℕ
  pub false_deny_calls : ℕ
  pub enforcement_denied : ℕ
  pub violation_allowed : ℕ
  pub suspensions : ℕ
  pub false_suspensions : ℕ
  pub effective_repairs : ℕ
  pub held_total : ℕ
  pub held_resolved_accept : ℕ
  pub held_resolved_expired : ℕ
  pub held_pending : ℕ
  pub provenance_links : ℕ

abbrev pub no_metrics : Metrics
no_metrics = record {
  tool_calls = 0;
  allowed = 0;
  denied = 0;
  false_deny_calls = 0;
  enforcement_denied = 0;
  violation_allowed = 0;
  suspensions = 0;
  false_suspensions = 0;
  effective_repairs = 0;
  held_total = 0;
  held_resolved_accept = 0;
  held_resolved_expired = 0;
  held_pending = 0;
  provenance_links = 0;
}

-- `+= k` on a `u32`, as a release build does it.
unfoldable pub bump : ℕ → ℕ → ℕ
bump k n = (n + k) % 2 ^ 32

abbrev pub is_some : Option String → Bool
is_some none = false
is_some (some cause) = true

abbrev spaces : ℕ → String
spaces zero = ""
spaces (suc n) = String.◌∷◌ " " (spaces n)

-- `{:<w}`
abbrev pub ljust : ℕ → String → String
ljust w s = format (s ∷ spaces (w - count s) ∷ [])

-- A line of a log: step, incident, confidence and two cells.
abbrev pub log_line : Row → String → String → String → String
log_line r conf first second = format (
    ljust 4 (show r.step)
    ∷ " "
    ∷ ljust 6 r.incident
    ∷ " "
    ∷ ljust 14 conf
    ∷ " "
    ∷ ljust 9 first
    ∷ " "
    ∷ ljust 9 second
    ∷ [])

abbrev pub repair_line : Row → String
repair_line r = log_line r "-" "repair" "repair"

abbrev pub conf_of : Row → String
conf_of r = format (show (r.confidence_ppm / 1000) ∷ "k" ∷ [])

-- A repair counts, and leaves links, only if there is a suspension to lift.
unfoldable pub count_repair : Option String → Metrics → Metrics
count_repair suspended_by m =
    if is_some suspended_by
    then record m {
      effective_repairs = bump 1 m.effective_repairs;
      provenance_links = bump 2 m.provenance_links;
    }
    else m

-- The truth of the incident that caused the suspension is what is kept.
unfoldable pub count_suspension : Row → Metrics → Metrics
count_suspension r m = record m {
  suspensions = bump 1 m.suspensions;
  false_suspensions =
      if r.truth == "false_positive" then bump 1 m.false_suspensions else m.false_suspensions;
}

abbrev pub count_benign : Option String → Metrics → Metrics
count_benign none m = record m { enforcement_denied = bump 1 m.enforcement_denied }
count_benign (some cause) m =
    if cause == "false_positive"
    then record m { false_deny_calls = bump 1 m.false_deny_calls }
    else record m { enforcement_denied = bump 1 m.enforcement_denied }

abbrev pub count_allowed : Row → Metrics → Metrics
count_allowed r m = record m {
  allowed = bump 1 m.allowed;
  violation_allowed =
      if r.truth == "violation" then bump 1 m.violation_allowed else m.violation_allowed;
}

abbrev pub count_denied : Row → Option String → Metrics → Metrics
count_denied r suspended_by m =
    let denied = record m { denied = bump 1 m.denied } in
    if r.truth == "benign" then count_benign suspended_by denied else denied

-- A call is allowed while nothing is suspended.
unfoldable pub count_verdict : Row → Option String → Metrics → Metrics
count_verdict r suspended_by m =
    if is_some suspended_by then count_denied r suspended_by m else count_allowed r m

abbrev pub verdict_word : Option String → String
verdict_word none = "ALLOW"
verdict_word (some cause) = "DENY"
