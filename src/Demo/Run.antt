-- ===== src/Demo/Run.antt =====
-- src/main.rs: the two modes, and a run of the program.
use r2r_jev.Prelude.{
  ℕ, String, List, [], ◌∷◌, ◌++◌, Option, none, some, Result, ok, err, panic, ◌>>=◌, ◌==◌,
  if◌then◌else◌,
}
use r2r_jev.Prelude.Decimal.{show}
use r2r_jev.Prelude.Format.{format}
use r2r_jev.Model.{JudgmentObserved}
use r2r_jev.Admission.{new_context}
use r2r_jev.Governance.{new_governance}
use r2r_jev.Governance.Observe.{observe_judgment}
use r2r_jev.Judge.{Asked, by_name, from_probabilities, judge_live, JudgeProvider, Post}
use r2r_jev.Demo.Lines.{print_changes, print_decision, print_judgment}
use r2r_jev.Demo.Play.{play, print_acts}
use r2r_jev.Demo.{default_live, fixture_args, FixtureFile, Live, live_args, map_err, ok_or, Outside}

-- What one run of the program prints, sends, and returns.
pub record Ended : Type 0 where
  pub printed : List String
  pub error : Option String
  pub posts : List Post
  pub code : ℕ

abbrev pub ended : Result (List String) → List Post → Ended
ended (ok lines) posts = record { printed = lines; error = none; posts = posts; code = 0 }
ended (err e) posts = record {
  printed = [];
  error = some (format ("error: " ∷ e ∷ []));
  posts = posts;
  code = 1;
}
ended panic posts = record { printed = []; error = none; posts = posts; code = 101 }

module _ {V F : Type 0} (outside : Outside V F) where
  open outside use {
    client, var, quoted, read_to_string, from_str, ppm_to_display, fallback_beyond_scope,
    fallback_destructive,
  }

  unfoldable pub fixture_path : String → Result String
  fixture_path provider_name =
      if provider_name == "jev"
      then ok "demo/fixtures/coding-agent.json"
      else if provider_name == "d3"
      then ok "demo/fixtures/coding-agent-d3.json"
      else err (
          format ("unknown fixture provider " ∷ quoted provider_name ∷ "; available: jev, d3" ∷ []))

  unfoldable pub load_fixture : String → Result (FixtureFile F)
  load_fixture provider_name = do
    path ← fixture_path provider_name
    raw ←
        map_err
          (λ e. format ("cannot read " ∷ path ∷ ": " ∷ e ∷ " (run from the repository root)" ∷ []))
          (read_to_string path)
    map_err (λ e. format ("invalid fixture " ∷ path ∷ ": " ∷ e ∷ [])) (from_str raw)

  abbrev pub asked_of : FixtureFile F → String → String → Asked
  asked_of file tool intent = record {
    subject = file.subject;
    scope = file.scope;
    task = file.task;
    tool = tool;
    intent = intent;
  }

  abbrev pub risky_of : FixtureFile F → JudgmentObserved
  risky_of file =
      from_probabilities client file.provider (asked_of file file.tool file.intent)
        file.beyond_scope file.destructive

  abbrev pub benign_of : FixtureFile F → JudgmentObserved
  benign_of file = elim file.benign [
    | some b ↦
        (from_probabilities client file.provider (asked_of file b.tool b.intent) b.beyond_scope
          b.destructive)
    | none ↦
        (from_probabilities client file.provider
          (asked_of file "read_file" "Read a source file in the same repository")
          fallback_beyond_scope fallback_destructive)
  ]

  unfoldable pub run_fixture_demo : String → Result (List String)
  run_fixture_demo provider_name = do
    file ← load_fixture provider_name
    acts ← play (risky_of file) (benign_of file)
    ok (print_acts ppm_to_display (risky_of file) (benign_of file) acts)

  -- What follows the answer of the judge.
  abbrev pub live_outcome : Live → JudgmentObserved → Result (List String)
  live_outcome live judgment = do
    context ← new_context live.source_reliability_ppm live.corroborators 1 11
    (outcome, g) ← observe_judgment judgment context new_governance
    ok (
        (format (
            "Admission context source_reliability_ppm="
            ∷ show live.source_reliability_ppm
            ∷ " corroborators="
            ∷ show live.corroborators
            ∷ " (caller-configured)"
            ∷ [])
          ∷ print_judgment ppm_to_display judgment outcome)
        ++ print_changes outcome.relation_changes
        ++ print_decision outcome)

  -- A provider and the key that the environment holds for it.
  abbrev pub credentials : Live → Result (JudgeProvider × String)
  credentials live = do
    provider ← by_name quoted var live.provider_name
    api_key ←
        ok_or
          (format (
            provider.api_key_env
            ∷ " is required for live mode with provider "
            ∷ quoted live.provider_name
            ∷ []))
          (var provider.api_key_env)
    ok (provider, api_key)

  abbrev pub live_judged : Live → Result (JudgeProvider × String) → Ended
  live_judged live (err e) = ended (err e) []
  live_judged live panic = ended panic []
  live_judged live (ok (provider, api_key)) =
      let (judgment, posts) = judge_live client provider api_key live.asked in
      ended (judgment >>= λ j. live_outcome live j) posts

  abbrev pub live_from : Result Live → Ended
  live_from (err e) = ended (err e) []
  live_from panic = ended panic []
  live_from (ok live) = live_judged live (credentials live)

  unfoldable pub run_live : List String → Ended
  run_live args = live_from (live_args args default_live)

  abbrev pub run_mode : String → List String → Ended
  run_mode mode rest =
      if mode == "fixture"
      then ended (fixture_args "jev" rest >>= λ provider_name. run_fixture_demo provider_name) []
      else if mode == "live"
      then run_live rest
      else ended (err (format ("unknown mode: " ∷ mode ∷ ". Use `fixture` or `live`." ∷ []))) []

  unfoldable pub main : List String → Ended
  main [] = run_mode "fixture" []
  main (mode ∷ rest) = run_mode mode rest
