-- ===== src/Remote.antt =====
-- src/mcp/remote.rs: the server for one authenticated principal. A tool call is authorized, and its
-- subject overwritten, before the inner server sees it. The durable store is opened for each check.
pub mod Binding
use r2r_jev.Prelude.{
  String, List, [], ◌∷◌, Option, none, some, Bool, true, false, ◌||◌, not, Result, ok, err, panic,
  ◌>>=◌, ◌>>◌, ◌==◌, if◌then◌else◌, is_empty,
}
use r2r_jev.Prelude.Text.{trim}
use r2r_jev.Prelude.Assoc.{text_key, Assoc, lookup, insert}
use r2r_jev.Prelude.Format.{format}
use r2r_jev.Store.{EventStore, StoredDecision}

-- An argument of a call, as far as `Value::as_str` tells.
pub data Value : Type 0 where
  text : String → Value
  other : Value

pub record CallToolRequest : Type 0 where
  pub name : String
  pub arguments : Option (Assoc String Value)

-- A complete answer: whether it is an error, and its text.
pub data CallToolResponse : Type 0 where
  complete : (is_error : Bool) → (text : String) → CallToolResponse

pub record RemotePrincipalServer : Type 0 where
  pub principal : String
  pub allowed_scopes : List String

-- A scope set is a list without repetitions.
unfoldable pub new : String → List String → Result RemotePrincipalServer
new principal allowed_scopes =
    if trim principal == ""
    then err "remote principal must not be empty"
    else if is_empty allowed_scopes
    then err "remote scope allowlist must not be empty"
    else ok (record { principal = principal; allowed_scopes = allowed_scopes })

abbrev pub contains : List String → String → Bool
contains [] scope = false
contains (s ∷ rest) scope = s == scope || contains rest scope

abbrev pub as_str : Option Value → Option String
as_str none = none
as_str (some (text s)) = some s
as_str (some other) = none

abbrev pub or_default : Option (Assoc String Value) → Assoc String Value
or_default none = []
or_default (some arguments) = arguments

-- `get(key).and_then(Value::as_str).ok_or_else(..)`
abbrev pub required : String → Option String → Result String
required message none = err message
required message (some s) = ok s

unfoldable pub ensure_scope : RemotePrincipalServer → String → Result (Unit {0})
ensure_scope server scope =
    if contains server.allowed_scopes scope
    then ok tt
    else err (format ("scope not authorized for remote principal: " ∷ scope ∷ []))

-- The names of the tools by what their check reads.
pub data ToolKind : Type 0 where
  by_scope by_decision unchecked : ToolKind

abbrev pub kind_of : String → ToolKind
kind_of name =
    if name == "r2r_observe" || name == "r2r_decide" || name == "r2r_replay"
    then by_scope
    else if name == "r2r_explain"
        || name == "r2r_record_outcome"
        || name == "r2r_validate_execution"
    then by_decision
    else unchecked

module _ {S : Type 0} (store_ops : EventStore S) (opened : Result S) where
  open store_ops use {health, decision}

  abbrev pub known : String → Option StoredDecision → Result StoredDecision
  known id none = err (format ("unknown decision_id: " ∷ id ∷ []))
  known id (some found) = ok found

  unfoldable pub ensure_decision_access : RemotePrincipalServer → String → Result (Unit {0})
  ensure_decision_access server id = do
    store ← opened
    health store
    found ← known id (decision store id)
    if not (found.domain.subject == server.principal)
        then err "decision belongs to a different authenticated principal"
        else ensure_scope server found.domain.scope

  abbrev pub authorize_kind :
      RemotePrincipalServer → ToolKind → CallToolRequest → Result CallToolRequest
  authorize_kind server by_scope request = do
    scope ←
        required "remote governance request requires scope"
          (as_str (lookup "scope" (or_default request.arguments)))
    ensure_scope server scope
    ok (record request {
      arguments = some (insert "subject" (text server.principal) (or_default request.arguments));
    })
  authorize_kind server by_decision request = do
    id ←
        required "remote request requires decision_id"
          (as_str (lookup "decision_id" (or_default request.arguments)))
    ensure_decision_access server id
    ok request
  authorize_kind server unchecked request = ok request

  unfoldable pub authorize_request :
      RemotePrincipalServer → CallToolRequest → Result CallToolRequest
  authorize_request server request = authorize_kind server (kind_of request.name) request

abbrev pub denied_tool_response : String → CallToolResponse
denied_tool_response message = complete true message

-- The inner server gets the authorized request; a refusal does not reach it.
abbrev pub forward :
    {W : Type 0}
    → (CallToolRequest → W → Result CallToolResponse × W)
    → W
    → Result CallToolRequest
    → Result CallToolResponse × W
forward inner state (ok request) = inner request state
forward inner state (err error) = (ok (denied_tool_response error), state)
forward inner state panic = (panic, state)

module _ {S W : Type 0} (store_ops : EventStore S) (opened : Result S) where
  unfoldable pub call_tool :
      (CallToolRequest → W → Result CallToolResponse × W)
      → RemotePrincipalServer
      → CallToolRequest
      → W
      → Result CallToolResponse × W
  call_tool inner server request state =
      forward inner state (authorize_request store_ops opened server request)
