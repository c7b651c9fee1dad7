-- ===== src/Gateway.antt =====
-- src/gateway/service.rs: the gate of the gateway in front of the upstream servers. What an upstream
-- answers is a function of the calls made before (`answers`), and `serde_json::Value` is a parameter;
-- a trace of the calls made is threaded through, since the calls are all that the gateway does.
pub mod Calls
pub mod Gate
pub mod Owners
pub mod Start
use r2r_jev.Prelude.{
  ℕ, String, List, [], ◌∷◌, ◌++◌, Option, none, some, Bool, true, false, not, ◌&&◌, Result, ok, err,
  panic, ◌>>=◌, ◌==◌, eq_iff, if◌then◌else◌, nat_eq,
}
use text.Mathlib.Text.{starts_with}
use r2r_jev.Prelude.Assoc.{text_key, Assoc, lookup}
use r2r_jev.Prelude.Decimal.{show}
use r2r_jev.Prelude.Format.{format}

abbrev control_plane_prefix : String
control_plane_prefix = "r2r_"

-- What is kept of the arguments of a call: those of the client as they are, or an object of texts.
pub data Arguments : Type 0 where
  from_client : String → Arguments
  fields : List (String × String) → Arguments

-- A call of a tool of an upstream.
pub record UpstreamCall : Type 0 where
  pub upstream : ℕ
  pub tool : String
  pub arguments : Option Arguments

-- `CallToolResult`: the first content block, if it is text, stands for the content.
pub record CallToolResult : Type 0 where
  pub is_error : Option Bool
  pub first_text : Option String

-- How an awaited call ends: in time with a result or an error, or not in time.
pub data Answer : Type 0 where
  answered : CallToolResult → Answer
  refused : String → Answer
  timed_out : Answer

-- The operations of `serde_json` on a value of type `V`.
pub record Json (V : Type 0) : Type 0 where
  pub from_str : String → Result V
  pub pointer_str : V → String → Option String
  pub pointer_array : V → String → Option (List V)

pub record GatewayServer : Type 0 where
  pub names : List String  -- of the upstreams
  pub owners : Assoc String ℕ
  pub call_timeout_ms : ℕ
  pub control_plane : Option ℕ
  pub subject : String
  pub scope : String

pub record Authorization : Type 0 where
  pub allowed : Bool
  pub reason_code : String
  pub decision_id : String
  pub governing_relations : List (String × String × String)
  pub state_version : String

abbrev pub unwrap_or {ℓ} : {A : Type ℓ} → A → Option A → A
unwrap_or other none = other
unwrap_or other (some x) = x

abbrev governing_lines : List (String × String × String) → String
governing_lines [] = ""
governing_lines ((id, kind, state) ∷ rest) =
    format ("  governing: " ∷ kind ∷ " " ∷ id ∷ " = " ∷ state ∷ "\n" ∷ governing_lines rest ∷ [])

abbrev pub evidence_text : Authorization → String → String
evidence_text auth tool = format (
    "DENY: "
    ∷ auth.reason_code
    ∷ " for "
    ∷ auth.state_version
    ∷ "/"
    ∷ tool
    ∷ "\n"
    ∷ governing_lines auth.governing_relations
    ∷ "  decision: "
    ∷ auth.decision_id
    ∷ "\n  repair: call r2r_observe with a human_override event, or use the control plane to repair the relation"
    ∷ [])

abbrev pub is_at : Option ℕ → Option ℕ → Bool
is_at none owner = false
is_at (some cp) none = false
is_at (some cp) (some owner) = nat_eq owner cp

abbrev pub owner_of : GatewayServer → String → Option ℕ
owner_of server tool = lookup tool server.owners

unfoldable pub is_control_plane_tool : GatewayServer → String → Bool
is_control_plane_tool server tool =
    starts_with tool control_plane_prefix && is_at server.control_plane (owner_of server tool)

-- What the client is told.
pub data Reply : Type 0 where
  complete : CallToolResult → Reply
  unknown_tool : String → Reply
  call_failed : ℕ → String → String → Reply
  call_timed_out : ℕ → String → Reply

abbrev pub deny_result : String → Reply
deny_result evidence = complete (record { is_error = some true; first_text = some evidence })

abbrev pub decide_call : GatewayServer → ℕ → String → UpstreamCall
decide_call server cp tool = record {
  upstream = cp;
  tool = "r2r_decide";
  arguments =
      some (fields (("subject", server.subject) ∷ ("scope", server.scope) ∷ ("action", tool) ∷ []));
}

abbrev detail_field : Option String → List (String × String)
detail_field none = []
detail_field (some detail) = ("detail", detail) ∷ []

abbrev pub outcome_call : ℕ → String → String → Option String → UpstreamCall
outcome_call cp decision_id outcome detail = record {
  upstream = cp;
  tool = "r2r_record_outcome";
  arguments =
      some (
        fields ((("decision_id", decision_id) ∷ ("outcome", outcome) ∷ []) ++ detail_field detail));
}

-- The answer of `record_outcome` is only logged.
abbrev pub record_outcome :
    Option ℕ → String → String → Option String → List UpstreamCall → List UpstreamCall
record_outcome none decision_id outcome detail trace = trace
record_outcome (some cp) decision_id outcome detail trace =
    trace ++ outcome_call cp decision_id outcome detail ∷ []

-- `result.is_error == Some(true)`
abbrev pub is_error_result : Option Bool → Bool
is_error_result none = false
is_error_result (some flag) = flag

abbrev pub outcome_of : CallToolResult → String
outcome_of result = if is_error_result result.is_error then "failed" else "executed"

abbrev pub passed_through : ℕ → String → Answer → Reply
passed_through idx name (answered result) = complete result
passed_through idx name (refused e) = call_failed idx name e
passed_through idx name timed_out = call_timed_out idx name

-- What follows the forwarded call of an authorized tool.
abbrev pub finish :
    GatewayServer
    → Authorization
    → ℕ
    → String
    → Answer
    → List UpstreamCall
    → Reply × List UpstreamCall
finish server auth idx name (answered result) trace = (
  complete result,
  record_outcome server.control_plane auth.decision_id (outcome_of result) none trace,
)
finish server auth idx name (refused e) trace = (
  call_failed idx name e,
  record_outcome server.control_plane auth.decision_id "failed"
      (some (format ("upstream " ∷ name ∷ " error: " ∷ e ∷ []))) trace,
)
finish server auth idx name timed_out trace = (
  call_timed_out idx name,
  record_outcome server.control_plane auth.decision_id "failed"
      (some (format ("upstream " ∷ name ∷ " timed out" ∷ []))) trace,
)

abbrev pub forward : ℕ → String → Option Arguments → UpstreamCall
forward idx name arguments = record { upstream = idx; tool = name; arguments = arguments }
