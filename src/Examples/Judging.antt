-- ===== src/Examples/Judging.antt =====
-- src/jev.rs: the provider jev with an endpoint from the environment.
use r2r_jev.Prelude.{ℕ, String, [], Option, none, some, ◌≡◌, refl, ok, err, ◌==◌, if◌then◌else◌}
use r2r_jev.Judge.{
  JudgeProvider, jev, with_env_overrides, by_name, Asked, Client, judge_live, validate_endpoint,
}

abbrev plain_env : String → Option String
plain_env name =
    if name == "TYPESAFE_ENDPOINT" then some "http://localhost:8080/systemone" else none

abbrev local_judge : JudgeProvider
local_judge = with_env_overrides plain_env jev

local_judge_named : by_name (λ s. s) plain_env "jev" ≡ ok local_judge
unfolding by_name
local_judge_named = refl

abbrev asked : Asked
asked = record {
  subject = "agent:coder";
  scope = "repo:alpha";
  task = "fix typo";
  tool = "git.push";
  intent = "force push";
}

-- A judge whose scores are numbers already.
abbrev sure : Client String ℕ
sure = record {
  send_json = λ post. ok "{}";
  into_json = λ response. ok response;
  as_f64 = λ value pointer. some 950000;
  probability_to_ppm = λ score. score;
}

plain_refused :
    judge_live sure local_judge "key" asked
    ≡ (err "live judge endpoints must use https:// because the adapter sends a bearer API key", [])
unfolding judge_live validate_endpoint
plain_refused = refl
