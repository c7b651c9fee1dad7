-- ===== src/Annotated/Pipeline.antt =====
-- src/mcp/remote.rs and src/mcp/annotated.rs together: the execution gate behind the principal's
-- server. Both open the same durable store.
use r2r_jev.Prelude.{
  String, Option, some, true, false, ◌≡◌, ◌↔◌, refl, sym, ap, ◌∙◌, arith, Result, ok, err, panic,
  ok-injective,
}
use r2r_jev.Prelude.Assoc.{text_key, lookup}
use r2r_jev.Store.{StoredDecision}
use r2r_jev.Store.JsonFile.{
  FilePath, FileSystem, Codec, JsonFileEventStore, Attached, open_store, json_file,
}
use r2r_jev.Enforcement.{ExecutionBindingRequest, ExecutionBindingResult}
use r2r_jev.Enforcement.Gate.{Executable, validated_exact}
use r2r_jev.Remote.{
  Value, text, CallToolRequest, CallToolResponse, complete, RemotePrincipalServer, contains,
  or_default, as_str, by_decision, kind_of, forward, authorize_request,
}
use r2r_jev.Remote
use r2r_jev.Remote.Binding.{authorize_request-by_decision}
use r2r_jev.Annotated.Answers.{with_params-Answers, from_value-Wrote, Wrote}
use r2r_jev.Annotated.{
  Json, ValidateExecutionParams, from_value, with_params, call_validate_execution, call_tool,
}

some-injective : {s t : String} → some s ≡ some t → s ≡ t
some-injective e = cc

same_id :
    (value : Option Value) {id given : String}
    → value ≡ some (text id)
    → as_str value ≡ some given
    → id ≡ given
same_id value {id} {given} v e = some-injective (sym (ap as_str v) ∙ e)

abbrev binding_of : ValidateExecutionParams → ExecutionBindingRequest
binding_of params = record {
  decision_id = params.decision_id;
  action = params.action;
  expected_state_version = params.expected_state_version;
}

abbrev attached : {D : Type 0} → D → Result JsonFileEventStore → Result (Attached D)
attached disk (ok store) = ok (record { store = store; disk = disk })
attached disk (err error) = err error
attached disk panic = panic

attached-ok :
    {D : Type 0} (disk : D) (opened : Result JsonFileEventStore) {a : Attached D}
    → attached disk opened ≡ ok a
    → (opened ≡ ok a.store) × (a ≡ record { store = a.store; disk = disk })
attached-ok disk (ok store) e = ground arith
attached-ok disk (err error) e = absurd (cc e)
attached-ok disk panic e = absurd (cc e)

module _ {D W : Type 0} (fs : FileSystem D) (codec : Codec) (json : Json)
    (inner : CallToolRequest → W → Result CallToolResponse × W) where
  -- A call as the service takes it: the principal's server in front of the annotated one.
  unfoldable pub served :
      D → FilePath → RemotePrincipalServer → CallToolRequest → W → Result CallToolResponse × W
  served disk path server request state =
      Remote.call_tool (json_file fs codec) (attached disk (open_store fs codec disk path))
        (call_tool fs codec json inner disk (some path)) server request state

  forward-complete :
      (next : CallToolRequest → W → Result CallToolResponse × W) (state : W)
      (authorized : Result CallToolRequest) {answer : String}
      → (forward next state authorized).0 ≡ ok (complete false answer)
      → (request : CallToolRequest) × (authorized ≡ ok request)
        × ((next request state).0 ≡ ok (complete false answer))
  forward-complete next state (ok request) e = (request, refl, e)
  forward-complete next state (err message) e = absurd (ground arith)
  forward-complete next state panic e = absurd (ground arith)

  called :
      (disk : D) (path : FilePath) (request : CallToolRequest) (state : W) {answer : String}
      → request.name ≡ "r2r_validate_execution"
      → (call_tool fs codec json inner disk (some path) request state).0
        ≡ ok (complete false answer)
      → with_params fs codec json disk path (from_value json (or_default request.arguments))
        ≡ ok (complete false answer)
  unfolding call_tool call_validate_execution
  called disk path request state name e = rw name at e

  -- What the answer of the gate rests on, for the decision, the action and the version that the call
  -- names.
  pub record Granted (disk : D) (path : FilePath) (server : RemotePrincipalServer)
      (request : CallToolRequest) (answer : String) : Type 0 where
    pub store : JsonFileEventStore
    pub store_ok : open_store fs codec disk path ≡ ok store
    pub binding : ExecutionBindingRequest
    pub named :
        lookup "decision_id" (or_default request.arguments) ≡ some (text binding.decision_id)
    pub acting : as_str (lookup "action" (or_default request.arguments)) ≡ some binding.action
    pub versioned :
        as_str (lookup "expected_state_version" (or_default request.arguments))
        ≡ some binding.expected_state_version
    pub decision : StoredDecision
    pub found :
        (json_file fs codec).decision (record { store = store; disk = disk }) binding.decision_id
        ≡ some decision
    pub own : decision.domain.subject ≡ server.principal
    pub in_scope : contains server.allowed_scopes decision.domain.scope ≡ true
    pub result : ExecutionBindingResult
    pub answer_is : json.to_string_pretty result ≡ ok answer
    pub exact :
        (result.allowed ≡ true)
        ↔ Executable (json_file fs codec) (record { store = store; disk = disk }) binding

  -- If the gate answers a principal without an error, the decision that the call names was made for
  -- that principal in one of its scopes, and the answer says that the action which the call
  -- names is allowed exactly if that decision, at the version which the call names, permits it now.
  pub served-Granted :
      (disk : D) (path : FilePath) (server : RemotePrincipalServer) (request : CallToolRequest)
      (state : W) (answer : String)
      → request.name ≡ "r2r_validate_execution"
      → (served disk path server request state).0 ≡ ok (complete false answer)
      → Granted disk path server request answer
  unfolding served Remote.call_tool call_tool call_validate_execution
  served-Granted disk path server request state answer name e =
      let ops = json_file fs codec in
      let opened = attached disk (open_store fs codec disk path) in
      let (r, authorized, answered) =
        forward-complete (call_tool fs codec json inner disk (some path)) state
          (authorize_request ops opened server request) e in
      let (same, (id, a, d, has, opens, found, own, fits)) =
        authorize_request-by_decision ops opened server request r (rw name refl) authorized in
      let answers =
        with_params-Answers fs codec json disk path (or_default request.arguments) _ refl (
          called disk path request state name (
            ap (λ q. (call_tool fs codec json inner disk (some path) q state).0) (sym same)
            ∙ answered)) in
      let (opened_ok, whole) = attached-ok disk (open_store fs codec disk path) opens in
      let store : a.store ≡ answers.store = ok-injective (sym opened_ok ∙ answers.store_ok) in
      let one : a ≡ record { store = answers.store; disk = disk } =
        whole ∙ ap (λ s. record { store = s; disk = disk }) store in
      let wrote : Wrote (or_default request.arguments) answers.params =
        from_value-Wrote json (or_default request.arguments) answers.params_ok in
      let number : id ≡ answers.params.decision_id =
        same_id (lookup "decision_id" (or_default request.arguments)) has wrote.decision_id in
      record {
        store = answers.store;
        store_ok = answers.store_ok;
        binding = binding_of answers.params;
        named = has ∙ ap (λ s. some (text s)) number;
        acting = wrote.action;
        versioned = wrote.version;
        decision = d;
        found =
            sym (ap (λ s. ops.decision s answers.params.decision_id) one)
            ∙ (sym (ap (ops.decision a) number) ∙ found);
        own = own;
        in_scope = fits;
        result = answers.result;
        answer_is = answers.answer_ok;
        exact = validated_exact ops _ _ answers.result answers.result_ok;
      }
