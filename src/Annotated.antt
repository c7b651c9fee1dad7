-- ===== src/Annotated.antt =====
-- src/mcp/annotated.rs: the server that adds to the tools what a client may expect of a call, and the
-- tool that asks the execution gate. The server that it wraps is a function on a state of its own.
pub mod Answers
pub mod Hints
pub mod Pipeline
use r2r_jev.Prelude.{
  String, List, [], ◌∷◌, ◌++◌, Option, none, some, Bool, true, false, ◌&&◌, ◌||◌, Result, ok, err,
  panic, ◌>>=◌, ◌>>◌, ◌==◌, if◌then◌else◌, map,
}
use r2r_jev.Prelude.Assoc.{text_key, Assoc, lookup}
use r2r_jev.Prelude.Format.{format}
use r2r_jev.Prelude.Text.{trim}
use r2r_jev.Store.JsonFile.{FilePath, FileSystem, Codec, JsonFileEventStore, open_store, json_file}
use r2r_jev.Enforcement.{ExecutionBindingRequest, ExecutionBindingResult, validate_execution}
use r2r_jev.Remote.{Value, CallToolRequest, CallToolResponse, complete, or_default, as_str}

abbrev pub validate_execution_tool : String
validate_execution_tool = "r2r_validate_execution"

pub record ValidateExecutionParams : Type 0 where
  pub decision_id : String
  pub action : String
  pub expected_state_version : String

pub record ToolAnnotations : Type 0 where
  pub read_only : Bool
  pub destructive : Bool
  pub idempotent : Bool
  pub open_world : Bool

-- The schema of the input is left out.
pub record Tool : Type 0 where
  pub name : String
  pub description : String
  pub annotations : Option ToolAnnotations

abbrev pub not_blank : Option String → Option String
not_blank none = none
not_blank (some path) = if trim path == "" then none else some path

-- `enforcement_store_path`, from the variable `R2R_STORE_PATH`.
abbrev pub enforcement_store_path : (String → FilePath) → Option String → Option FilePath
enforcement_store_path path_from variable = elim (not_blank variable) [
  | none ↦ none
  | some path ↦ some (path_from path)
]

abbrev pub validation_tool_enabled : Option FilePath → Bool
validation_tool_enabled none = false
validation_tool_enabled (some path) = true

abbrev pub hints : Bool → Bool → Bool → Bool → ToolAnnotations
hints read_only destructive idempotent open_world = record {
  read_only = read_only;
  destructive = destructive;
  idempotent = idempotent;
  open_world = open_world;
}

abbrev pub validation_tool : Tool
validation_tool = record {
  name = validate_execution_tool;
  description =
      "Validate that an ALLOW decision is still executable by binding the attempted action to the exact durable R2R state_version from which the decision was derived. Stale, denied, unknown, or action-mismatched decisions fail closed.";
  annotations = some (hints true false true false);
}

abbrev pub tool_error : String → CallToolResponse
tool_error message = complete true message

unfoldable pub annotations_for : String → Option ToolAnnotations
annotations_for name =
    if name == "r2r_observe"
    then some (hints false true false false)
    else if name == "r2r_decide"
    then some (hints false false false false)
    else if name == "r2r_explain" || name == "r2r_replay" || name == validate_execution_tool
    then some (hints true false true false)
    else if name == "r2r_record_outcome"
    then some (hints false false false false)
    else none

abbrev pub decorate_tool : Tool → Tool
decorate_tool tool = record tool { annotations = annotations_for tool.name }

abbrev pub decorated : Option Tool → Option Tool
decorated none = none
decorated (some tool) = some (decorate_tool tool)

-- The tools of the inner server, decorated, and then the tool of the gate.
unfoldable pub list_tools : Option FilePath → List Tool → List Tool
list_tools path inner =
    let tools = map decorate_tool inner in
    if validation_tool_enabled path then tools ++ validation_tool ∷ [] else tools

unfoldable pub get_tool : Option FilePath → (String → Option Tool) → String → Option Tool
get_tool path inner name =
    if name == validate_execution_tool && validation_tool_enabled path
    then some validation_tool
    else decorated (inner name)

-- What `serde_json` says of a field that is missing or no text, and how it writes an answer.
pub record Json : Type 0 where
  pub field_error : String → String
  pub to_string_pretty : ExecutionBindingResult → Result String

-- A text field of the parameters.
abbrev pub field : Json → Assoc String Value → String → Result String
field json arguments name = elim (as_str (lookup name arguments)) [
  | none ↦ err (json.field_error name)
  | some s ↦ ok s
]

abbrev pub from_value : Json → Assoc String Value → Result ValidateExecutionParams
from_value json arguments = do
  decision_id ← field json arguments "decision_id"
  action ← field json arguments "action"
  expected_state_version ← field json arguments "expected_state_version"
  ok (record {
    decision_id = decision_id;
    action = action;
    expected_state_version = expected_state_version;
  })

module _ {D : Type 0} (fs : FileSystem D) (codec : Codec) (json : Json) where
  abbrev pub written : Result String → Result CallToolResponse
  written (ok text) = ok (complete false text)
  written (err error) =
      ok (tool_error (format ("failed to serialize validation result: " ∷ error ∷ [])))
  written panic = panic

  abbrev pub validated : Result ExecutionBindingResult → Result CallToolResponse
  validated (ok result) = written (json.to_string_pretty result)
  validated (err error) = ok (tool_error (format ("execution validation failed: " ∷ error ∷ [])))
  validated panic = panic

  abbrev pub with_store :
      D → ValidateExecutionParams → Result JsonFileEventStore → Result CallToolResponse
  with_store disk params (ok store) = validated (
      validate_execution (json_file fs codec) (record { store = store; disk = disk })
        (record {
          decision_id = params.decision_id;
          action = params.action;
          expected_state_version = params.expected_state_version;
        }))
  with_store disk params (err error) =
      ok (tool_error (format ("failed to open durable event store: " ∷ error ∷ [])))
  with_store disk params panic = panic

  abbrev pub with_params : D → FilePath → Result ValidateExecutionParams → Result CallToolResponse
  with_params disk path (ok params) = with_store disk params (open_store fs codec disk path)
  with_params disk path (err error) =
      ok (tool_error (format ("invalid r2r_validate_execution arguments: " ∷ error ∷ [])))
  with_params disk path panic = panic

  unfoldable pub call_validate_execution :
      D → Option FilePath → CallToolRequest → Result CallToolResponse
  call_validate_execution disk none request =
      ok (tool_error "r2r_validate_execution requires durable mode; configure R2R_STORE_PATH")
  call_validate_execution disk (some path) request =
      with_params disk path (from_value json (or_default request.arguments))

  unfoldable pub call_tool :
      {W : Type 0}
      → (CallToolRequest → W → Result CallToolResponse × W)
      → D
      → Option FilePath
      → CallToolRequest
      → W
      → Result CallToolResponse × W
  call_tool inner disk path request state =
      if request.name == validate_execution_tool
      then (call_validate_execution disk path request, state)
      else inner request state
