-- ===== src/Annotated/Answers.antt =====
-- src/mcp/annotated.rs: what an answer of `r2r_validate_execution` that is no error comes from.
use r2r_jev.Prelude.{
  String, some, Bool, false, ◌≡◌, refl, ap, subst, arith, Result, ok, err, panic, >>=-eq-ok,
  ok-injective,
}
use r2r_jev.Prelude.Assoc.{text_key, Assoc, lookup}
use r2r_jev.Store.JsonFile.{FilePath, FileSystem, Codec, JsonFileEventStore, open_store, json_file}
use r2r_jev.Enforcement.{ExecutionBindingResult, validate_execution}
use r2r_jev.Remote.{Value, CallToolResponse, complete, as_str}
use r2r_jev.Annotated.{
  Json, ValidateExecutionParams, field, from_value, written, validated, with_store, with_params,
}

complete-injective :
    {b c : Bool} {s t : String}
    → ◌≡◌ {A = Result CallToolResponse} (ok (complete b s)) (ok (complete c t))
    → (b ≡ c) × (s ≡ t)
complete-injective e = (cc e, cc e)

field-ok :
    (json : Json) (arguments : Assoc String Value) (name : String) {s : String}
    → field json arguments name ≡ ok s
    → as_str (lookup name arguments) ≡ some s
field-ok json arguments name {s} e = ground arith

module _ {D : Type 0} (fs : FileSystem D) (codec : Codec) (json : Json) where
  -- An answer that is no error is the written result of the gate.
  pub record Answers (disk : D) (path : FilePath) (arguments : Assoc String Value) (answer : String)
      : Type 0 where
    pub params : ValidateExecutionParams
    pub params_ok : from_value json arguments ≡ ok params
    pub store : JsonFileEventStore
    pub store_ok : open_store fs codec disk path ≡ ok store
    pub result : ExecutionBindingResult
    pub result_ok :
        validate_execution
          (json_file fs codec)
          (record { store = store; disk = disk })
          (record {
            decision_id = params.decision_id;
            action = params.action;
            expected_state_version = params.expected_state_version;
          })
        ≡ ok result
    pub answer_ok : json.to_string_pretty result ≡ ok answer

  written-ok :
      (w : Result String) {answer : String}
      → written fs codec json w ≡ ok (complete false answer)
      → w ≡ ok answer
  written-ok (ok s) e = ap ok (complete-injective e).1
  written-ok (err message) e = absurd (ground arith)
  written-ok panic e = absurd (ground arith)

  validated-ok :
      (v : Result ExecutionBindingResult) {answer : String}
      → validated fs codec json v ≡ ok (complete false answer)
      → (result : ExecutionBindingResult) × (v ≡ ok result)
        × (json.to_string_pretty result ≡ ok answer)
  validated-ok (ok result) e = (result, refl, written-ok _ e)
  validated-ok (err message) e = absurd (ground arith)
  validated-ok panic e = absurd (ground arith)

  with_store-Answers :
      (disk : D) (path : FilePath) (arguments : Assoc String Value)
      (params : ValidateExecutionParams) (opened : Result JsonFileEventStore) {answer : String}
      → from_value json arguments ≡ ok params
      → open_store fs codec disk path ≡ opened
      → with_store fs codec json disk params opened ≡ ok (complete false answer)
      → Answers disk path arguments answer
  with_store-Answers disk path arguments params (ok store) p o e =
      let (result, r, a) = validated-ok _ e in
      record {
        params = params;
        params_ok = p;
        store = store;
        store_ok = o;
        result = result;
        result_ok = r;
        answer_ok = a;
      }
  with_store-Answers disk path arguments params (err message) p o e = absurd (ground arith)
  with_store-Answers disk path arguments params panic p o e = absurd (ground arith)

  pub with_params-Answers :
      (disk : D) (path : FilePath) (arguments : Assoc String Value)
      (params : Result ValidateExecutionParams) {answer : String}
      → from_value json arguments ≡ params
      → with_params fs codec json disk path params ≡ ok (complete false answer)
      → Answers disk path arguments answer
  with_params-Answers disk path arguments (ok params) p e =
      with_store-Answers disk path arguments params _ p refl e
  with_params-Answers disk path arguments (err message) p e = absurd (ground arith)
  with_params-Answers disk path arguments panic p e = absurd (ground arith)

-- The parameters are the texts that the client wrote.
pub record Wrote (arguments : Assoc String Value) (params : ValidateExecutionParams) : Type 0 where
  pub decision_id : as_str (lookup "decision_id" arguments) ≡ some params.decision_id
  pub action : as_str (lookup "action" arguments) ≡ some params.action
  pub version :
      as_str (lookup "expected_state_version" arguments) ≡ some params.expected_state_version

pub from_value-Wrote :
    (json : Json) (arguments : Assoc String Value) {params : ValidateExecutionParams}
    → from_value json arguments ≡ ok params
    → Wrote arguments params
from_value-Wrote json arguments e =
    let (decision_id, first, e) = >>=-eq-ok (field json arguments "decision_id") _ e in
    let (action, second, e) = >>=-eq-ok (field json arguments "action") _ e in
    let (version, third, e) = >>=-eq-ok (field json arguments "expected_state_version") _ e in
    subst (Wrote arguments) (ok-injective e) (record {
      decision_id = field-ok json arguments "decision_id" first;
      action = field-ok json arguments "action" second;
      version = field-ok json arguments "expected_state_version" third;
    })
