-- ===== src/Examples/Gates.antt =====
-- src/gateway/service.rs: a gateway with a control plane and one other upstream.
use r2r_jev.Prelude.{
  String, List, [], ◌∷◌, ◌++◌, Option, none, some, true, ◌≡◌, ◌↔◌, refl, ok, ◌==◌, if◌then◌else◌,
}
use r2r_jev.Prelude.Assoc.{text_key, lookup}
use r2r_jev.Gateway.{
  UpstreamCall, Answer, answered, Json, GatewayServer, Authorization, is_control_plane_tool,
  decide_call, outcome_call, forward,
}
use r2r_jev.Gateway.Gate.{read_answer, authorize, call_tool, authorization_of}
use r2r_jev.Gateway.Calls.{
  only_control_plane, is_denied, succeeded, call_tool-denied, call_tool-allowed,
}

-- A JSON reader of texts that are the decision itself.
abbrev plain : Json String
plain = record {
  from_str = λ text. ok text;
  pointer_str = λ v pointer. if pointer == "/decision" then some v else none;
  pointer_array = λ v pointer. none;
}

abbrev says : String → List UpstreamCall → UpstreamCall → Answer
says decision trace call = answered (record {
  is_error = none;
  first_text = if call.tool == "r2r_decide" then some decision else some "pushed";
})

abbrev gateway : GatewayServer
gateway = record {
  names = "r2r" ∷ "github" ∷ [];
  owners = ("r2r_decide", 0) ∷ ("git_push", 1) ∷ [];
  call_timeout_ms = 1000;
  control_plane = some 0;
  subject = "agent:coder";
  scope = "repo:alpha";
}

call_tool-denied_example :
    (more : List UpstreamCall) × ((call_tool plain (says "DENY") gateway "git_push" none []).1
      ≡ [] ++ more)
    × (only_control_plane gateway more ≡ true)
    × (is_denied (call_tool plain (says "DENY") gateway "git_push" none []).0 ≡ true)
unfolding lookup is_control_plane_tool authorize read_answer
call_tool-denied_example =
    call_tool-denied plain (says "DENY") gateway "git_push" none [] 1 refl refl refl

abbrev permission : Authorization
permission = authorization_of plain "ALLOW"

call_tool-allowed_example :
    let asked = decide_call gateway 0 "git_push" in
    let call = forward 1 "git_push" none in
    (outcome : String) × (detail : Option String) × ((call_tool plain
        (says "ALLOW")
        gateway
        "git_push"
        none
        []).1
      ≡ [] ++ asked ∷ call ∷ outcome_call 0 permission.decision_id outcome detail ∷ [])
    × ((outcome ≡ "executed") ↔ (succeeded (says "ALLOW" ([] ++ asked ∷ []) call) ≡ true))
unfolding lookup is_control_plane_tool authorize read_answer
call_tool-allowed_example =
    call_tool-allowed plain (says "ALLOW") gateway "git_push" none [] 1 0 permission refl refl refl
      refl refl
