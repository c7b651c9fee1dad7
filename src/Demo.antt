-- ===== src/Demo.antt =====
-- src/main.rs: the demonstration, on a recorded judgment or on one from a live judge. The
-- environment, files, JSON, floating-point numbers and the judge's HTTP client are parameters. The lines
-- printed before a panic are not kept.
pub mod Lines
pub mod Play
pub mod Playing
pub mod Run
pub mod Sending
use r2r_jev.Prelude.{
  ℕ, String, List, [], ◌∷◌, ◌++◌, Option, none, some, Result, ok, err, panic, ◌>>=◌, ◌==◌, leb,
  is_empty, if◌then◌else◌,
}
use r2r_jev.Prelude.Decimal.{show}
use r2r_jev.Prelude.Format.{format}
use r2r_jev.Prelude.Text.{parse_u32, parse_u8}
use r2r_jev.Model.{JudgmentObserved}
use r2r_jev.Admission.{AdmissionContext, demo_context, kind_as_str, new_context, ppm, render}
use r2r_jev.Governance.{
  Admission, decision_as_str, EvidenceAdmissionRecord, Governance, new_governance, RelationChange,
}
use r2r_jev.Governance.Observe.{observe_judgment}
use r2r_jev.Governance.Override.{human_override}
use r2r_jev.Judge.{Asked, by_name, Client, from_probabilities, judge_live, JudgeProvider, Post}
use r2r_jev.Compare.{ljust}

pub record BenignFixture (F : Type 0) : Type 0 where
  pub tool : String
  pub intent : String
  pub beyond_scope : F
  pub destructive : F

pub record FixtureFile (F : Type 0) : Type 0 where
  pub provider : String
  pub subject : String
  pub scope : String
  pub task : String
  pub tool : String
  pub intent : String
  pub beyond_scope : F
  pub destructive : F
  pub benign : Option (BenignFixture F)

-- `var` is `std::env::var`, `quoted` is `{:?}` of a text, and the last two are `0.18` and `0.12`.
pub record Outside (V F : Type 0) : Type 0 where
  pub client : Client V F
  pub var : String → Option String
  pub quoted : String → String
  pub read_to_string : String → Result String
  pub from_str : String → Result (FixtureFile F)
  pub ppm_to_display : ℕ → String
  pub fallback_beyond_scope : F
  pub fallback_destructive : F

abbrev pub map_err {ℓ} : {A : Type ℓ} → (String → String) → Result A → Result A
map_err f (ok a) = ok a
map_err f (err e) = err (f e)
map_err f panic = panic

abbrev pub ok_or {ℓ} : {A : Type ℓ} → String → Option A → Result A
ok_or message none = err message
ok_or message (some a) = ok a

abbrev pub missing_value : String → String
missing_value flag = format ("missing value for " ∷ flag ∷ [])

abbrev pub unknown_argument : String → String
unknown_argument flag = format ("unknown argument: " ∷ flag ∷ [])

-- The flags of the mode `fixture`, after the mode.
unfoldable pub fixture_args : String → List String → Result String
fixture_args provider_name [] = ok provider_name
fixture_args provider_name (flag ∷ []) = err (missing_value flag)
fixture_args provider_name (flag ∷ value ∷ rest) =
    let others = fixture_args value rest in
    if flag == "--provider" then others else err (unknown_argument flag)

-- The variables of `run_live`.
pub record Live : Type 0 where
  pub asked : Asked
  pub source_reliability_ppm : ℕ  -- u32
  pub corroborators : ℕ  -- u8
  pub provider_name : String

abbrev pub default_live : Live
default_live = record {
  asked = record {
    subject = "coder";
    scope = "repo-alpha";
    task = "Fix the login redirect bug";
    tool = "merge_pull_request";
    intent = "Merge a pull request containing unrelated repository changes";
  };
  source_reliability_ppm = 850000;
  corroborators = 0;
  provider_name = "jev";
}

abbrev pub set_reliability : Live → Option ℕ → Result Live
set_reliability live none = err "--source-reliability-ppm must be an integer"
set_reliability live (some n) =
    if leb n ppm
    then ok (record live { source_reliability_ppm = n })
    else err "--source-reliability-ppm must be <= 1000000"

abbrev pub set_corroborators : Live → Option ℕ → Result Live
set_corroborators live none = err "--corroborators must be an integer 0..255"
set_corroborators live (some n) = ok (record live { corroborators = n })

unfoldable pub set_flag : String → String → Live → Result Live
set_flag flag value live =
    let asked = live.asked in
    if flag == "--task"
    then ok (record live { asked = record asked { task = value } })
    else if flag == "--tool"
    then ok (record live { asked = record asked { tool = value } })
    else if flag == "--scope"
    then ok (record live { asked = record asked { scope = value } })
    else if flag == "--intent"
    then ok (record live { asked = record asked { intent = value } })
    else if flag == "--subject"
    then ok (record live { asked = record asked { subject = value } })
    else if flag == "--source-reliability-ppm"
    then set_reliability live (parse_u32 value)
    else if flag == "--corroborators"
    then set_corroborators live (parse_u8 value)
    else if flag == "--provider"
    then ok (record live { provider_name = value })
    else err (unknown_argument flag)

unfoldable pub live_args : List String → Live → Result Live
live_args [] live = ok live
live_args (flag ∷ []) live = err (missing_value flag)
live_args (flag ∷ value ∷ rest) live = set_flag flag value live >>= λ next. live_args rest next
