-- ===== src/Examples/Demonstration.antt =====
-- src/main.rs: the recorded fixture jev and a run of the mode `live`.
use r2r_jev.Prelude.{
  ℕ, String, List, [], ◌∷◌, none, some, false, ◌||◌, ◌≡◌, ◌↔◌, ◌⊎◌, refl, arith, ok, err, ◌>>=◌,
  ◌==◌, if◌then◌else◌,
}
use r2r_jev.Model.{JudgmentObserved}
use r2r_jev.Admission.{admit, admit_in_range, demo_context, is_accepted, new_context}
use r2r_jev.Governance.{allow, AuthorizationPhase, Decision}
use r2r_jev.Governance.Effect.{accepts}
use r2r_jev.Governance.Observe.{observe_judgment}
use r2r_jev.Governance.Override.{human_override}
use r2r_jev.Judge.{by_name, judge_live, Post, validate_endpoint}
use r2r_jev.Judge.Sending.{AreSecure}
use r2r_jev.Demo.{fixture_args, live_args, Outside, set_flag}
use r2r_jev.Demo.Play.{Acts, play}
use r2r_jev.Demo.Run.{run_fixture_demo, load_fixture, fixture_path, main, run_live}
use r2r_jev.Demo.Playing.{first_context, play_exact, second_context}
use r2r_jev.Demo.Sending.{IsLive, main-AreSecure}
use r2r_jev.Prelude.Text.{parse_u32, parse_u8}

abbrev judgment : String → ℕ → ℕ → JudgmentObserved
judgment tool beyond_scope destructive = record {
  provider = "fixture:jev-style";
  subject = "coder";
  scope = "repo-alpha";
  task = "Fix the login redirect bug";
  tool = tool;
  intent = "Merge a pull request";
  beyond_scope_ppm = beyond_scope;
  destructive_ppm = destructive;
}

abbrev risky : JudgmentObserved
risky = judgment "merge_pull_request" 940000 720000

abbrev benign : JudgmentObserved
benign = judgment "read_file" 180000 120000

play_exact_example :
    (acts : Acts) × (play risky benign ≡ ok acts)
    × ((acts.first.decision ≡ allow) ↔ (accepts risky first_context ≡ false))
    × ((acts.second.decision ≡ allow)
        ↔ ((accepts risky first_context || accepts benign second_context) ≡ false))
    × (acts.third.decision ≡ allow)
    × (acts.governance.state.authorization ≡ AuthorizationPhase.active)
    × (acts.governance.state.supervision
        ≡ some (record { supervisor = "human-1"; created_by = acts.third.event_id }))
play_exact_example = play_exact risky benign (omega arith, omega arith) (omega arith, omega arith)

abbrev decisions : Acts → List Decision
decisions acts = acts.first.decision ∷ acts.second.decision ∷ acts.third.decision ∷ []

decided :
    (play risky benign >>= λ acts. ok (decisions acts))
    ≡ ok (Decision.deny ∷ Decision.deny ∷ Decision.allow ∷ [])
unfolding play demo_context new_context observe_judgment human_override admit is_accepted
    admit_in_range
decided = refl

-- The environment of a user of the provider d3.
abbrev d3_user : Outside String ℕ
d3_user = record {
  client = record {
    send_json = λ post. ok "{}";
    into_json = λ response. ok response;
    as_f64 = λ value pointer. some 180000;
    probability_to_ppm = λ score. score;
  };
  var = λ name. if name == "DECISION_API_KEY" then some "key" else none;
  quoted = λ s. s;
  read_to_string = λ path. err "no such file";
  from_str = λ raw. err "not JSON";
  ppm_to_display = λ n. "";
  fallback_beyond_scope = 180000;
  fallback_destructive = 120000;
}

abbrev live_args_given : List String
live_args_given = "live" ∷ "--provider" ∷ "d3" ∷ "--corroborators" ∷ "2" ∷ []

main-AreSecure_example :
    AreSecure (main d3_user live_args_given).posts
    × (((main d3_user live_args_given).posts ≡ []) ⊎ IsLive live_args_given)
main-AreSecure_example = main-AreSecure d3_user live_args_given

abbrev endpoints : List Post → List String
endpoints [] = []
endpoints (post ∷ rest) = post.endpoint ∷ endpoints rest

one_request :
    endpoints (main d3_user live_args_given).posts ≡ "https://decision.vllm-sr.ai/v1/systemone" ∷ []
unfolding main run_live live_args set_flag by_name judge_live validate_endpoint parse_u8 new_context
    observe_judgment admit
one_request = refl

too_reliable :
    (main d3_user ("live" ∷ "--source-reliability-ppm" ∷ "1000001" ∷ [])).error
    ≡ some "error: --source-reliability-ppm must be <= 1000000"
unfolding main run_live live_args set_flag parse_u32
too_reliable = refl

no_fixture :
    (main d3_user []).error
    ≡ some
        "error: cannot read demo/fixtures/coding-agent.json: no such file (run from the repository root)"
unfolding main fixture_args run_fixture_demo load_fixture fixture_path
no_fixture = refl
