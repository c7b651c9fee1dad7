-- ===== src/Gateway/Gate.antt =====
-- src/gateway/service.rs: `authorize` and `call_tool`, over `serde_json` and the answers of the upstreams.
use r2r_jev.Prelude.{
  ℕ, String, List, [], ◌∷◌, ◌++◌, Option, none, some, Result, ok, err, panic, ◌==◌, if◌then◌else◌,
}
use r2r_jev.Prelude.Decimal.{show}
use r2r_jev.Prelude.Format.{format}
use r2r_jev.Gateway.{
  Arguments, UpstreamCall, Answer, answered, refused, timed_out, Json, GatewayServer, Authorization,
  unwrap_or, evidence_text, owner_of, is_control_plane_tool, Reply, unknown_tool, deny_result,
  decide_call, record_outcome, passed_through, finish, forward,
}

module _ {V : Type 0} (json : Json V) where
  abbrev read_relation :
      Option String → Option String → Option String → Option (String × String × String)
  read_relation (some id) (some kind) (some state) = some (id, kind, state)
  read_relation (some id) (some kind) none = none
  read_relation (some id) none state = none
  read_relation none kind state = none

  abbrev with_relation :
      Option (String × String × String)
      → List (String × String × String)
      → List (String × String × String)
  with_relation none rest = rest
  with_relation (some r) rest = r ∷ rest

  abbrev pub relations_of : List V → List (String × String × String)
  relations_of [] = []
  relations_of (v ∷ rest) =
      with_relation
        (read_relation (json.pointer_str v "/relation_id") (json.pointer_str v "/relation_type")
          (json.pointer_str v "/state"))
        (relations_of rest)

  abbrev pub authorization_of : V → Authorization
  authorization_of v = record {
    allowed = unwrap_or "DENY" (json.pointer_str v "/decision") == "ALLOW";
    reason_code = unwrap_or "UNKNOWN" (json.pointer_str v "/reason_code");
    decision_id = unwrap_or "?" (json.pointer_str v "/decision_id");
    governing_relations = relations_of (unwrap_or [] (json.pointer_array v "/governing_relations"));
    state_version = unwrap_or "?" (json.pointer_str v "/state_version");
  }

  abbrev parsed : Result V → Result Authorization
  parsed (ok v) = ok (authorization_of v)
  parsed (err e) = err (format ("r2r_decide response not valid JSON: " ∷ e ∷ []))
  parsed panic = panic

  abbrev text_of : Option String → Result Authorization
  text_of none = err "control-plane r2r_decide returned no text content"
  text_of (some text) = parsed (json.from_str text)

  unfoldable pub read_answer : ℕ → Answer → Result Authorization
  read_answer ms (answered result) = text_of result.first_text
  read_answer ms (refused e) = err (format ("control-plane r2r_decide failed: " ∷ e ∷ []))
  read_answer ms timed_out =
      err (format ("control-plane r2r_decide timed out after " ∷ show ms ∷ "ms" ∷ []))

  module _ (answers : List UpstreamCall → UpstreamCall → Answer) where
    abbrev pub authorize_at :
        GatewayServer
        → Option ℕ
        → String
        → List UpstreamCall
        → Result Authorization × List UpstreamCall
    authorize_at server none tool trace =
        (err "governance enforcement requires a control-plane upstream", trace)
    authorize_at server (some cp) tool trace =
        let asked = decide_call server cp tool in
        (read_answer server.call_timeout_ms (answers trace asked), trace ++ asked ∷ [])

    unfoldable pub authorize :
        GatewayServer → String → List UpstreamCall → Result Authorization × List UpstreamCall
    authorize server tool trace = authorize_at server server.control_plane tool trace

    -- A tool call once the control plane has been asked.
    abbrev pub decided :
        GatewayServer
        → ℕ
        → String
        → Option Arguments
        → Result Authorization × List UpstreamCall
        → Result Reply × List UpstreamCall
    decided server idx name arguments (panic, trace) = (panic, trace)
    decided server idx name arguments (err e, trace) = (
      ok (deny_result (format ("DENY (fail-closed): authorization check failed: " ∷ e ∷ []))),
      record_outcome server.control_plane "?" "blocked" (some e) trace,
    )
    decided server idx name arguments (ok auth, trace) =
        let call = forward idx name arguments in
        let (reply, after) =
          finish server auth idx name (answers trace call) (trace ++ call ∷ []) in
        if auth.allowed then (ok reply, after) else (
          ok (deny_result (evidence_text auth name)),
          record_outcome server.control_plane auth.decision_id "blocked" none trace,
        )

    abbrev pub call_owned :
        GatewayServer
        → String
        → Option Arguments
        → List UpstreamCall
        → Option ℕ
        → Result Reply × List UpstreamCall
    call_owned server name arguments trace none = (ok (unknown_tool name), trace)
    call_owned server name arguments trace (some idx) =
        let call = forward idx name arguments in
        let gated = decided server idx name arguments (authorize server name trace) in
        if is_control_plane_tool server name
        then (ok (passed_through idx name (answers trace call)), trace ++ call ∷ [])
        else gated

    unfoldable pub call_tool :
        GatewayServer
        → String
        → Option Arguments
        → List UpstreamCall
        → Result Reply × List UpstreamCall
    call_tool server name arguments trace =
        call_owned server name arguments trace (owner_of server name)
