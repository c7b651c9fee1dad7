-- ===== src/Annotated/Hints.antt =====
-- src/mcp/annotated.rs: the annotations of a tool say truly what its handler changes.
use r2r_jev.Prelude.{
  String, some, Bool, true, false, ◌≡◌, refl, sym, ap, ◌∙◌, subst, Result, ok, err, panic,
  ok-injective,
}
use r2r_jev.Prelude.Assoc.{get_or}
use r2r_jev.Store.{EventStore, DomainKey, domain_key_eq}
use r2r_jev.Runtime.{GovernanceRuntime, new_domain, domain_of}
use r2r_jev.Runtime.Decide.{explain, record_outcome}
use r2r_jev.Runtime.Replay.{replay_start, replay}
use r2r_jev.Runtime.Server as S
use r2r_jev.Runtime.Server.{
  Server, serving, poisoned, Request, Response, call, handler, with_runtime, after_handler,
  answer_if_healthy, guarded,
}
use r2r_jev.Runtime.Verdict.Domains.{decide-domains, record_outcome-domains}
use r2r_jev.Runtime.Audit.Calls.{wrapped, unchanged}
use r2r_jev.Store.{StoredDecision}
use r2r_jev.Store.JsonFile.{FilePath, FileSystem, Codec}
use r2r_jev.Prelude.Assoc.{Assoc}
use r2r_jev.Remote.{Value, CallToolRequest, CallToolResponse}
use r2r_jev.Runtime.Decide.{known}
use r2r_jev.Runtime.Readable.{HasOutOfRange, replay_events-panic}
use r2r_jev.Store.{new_key}
use r2r_jev.Prelude.{◌≢◌, none, Option, ◌>>=◌}
use r2r_jev.Annotated.{ToolAnnotations, annotations_for, Json, call_tool, validate_execution_tool}

-- A call of a tool: one of the control plane, or `r2r_validate_execution` with its arguments.
pub data ToolCall : Type 0 where
  governance : Request → ToolCall
  validation : Option (Assoc String Value) → ToolCall

-- The name under which a tool is called.
abbrev pub tool_name : ToolCall → String
tool_name (governance (S.observe params)) = "r2r_observe"
tool_name (governance (S.decide params)) = "r2r_decide"
tool_name (governance (S.explain params)) = "r2r_explain"
tool_name (governance (S.record_outcome params)) = "r2r_record_outcome"
tool_name (governance (S.replay params)) = "r2r_replay"
tool_name (validation arguments) = "r2r_validate_execution"

module _ {T : Type 0} where
  -- The governance of every domain is the same.
  abbrev pub SameDomains : GovernanceRuntime T → GovernanceRuntime T → Type 0
  SameDomains rt rt' = (key : DomainKey) → domain_of rt' key ≡ domain_of rt key

  -- What the annotations promise of the runtime after a call: a read-only tool changes nothing, and
  -- one that is not destructive leaves the governance of every domain.
  abbrev pub Promised :
      (read_only destructive : Bool) → GovernanceRuntime T → GovernanceRuntime T → Type 0
  Promised true destructive rt rt' = rt' ≡ rt
  Promised false true rt rt' = Unit {0}
  Promised false false rt rt' = SameDomains rt rt'

  Promised-refl :
      (read_only destructive : Bool) (rt : GovernanceRuntime T)
      → Promised read_only destructive rt rt
  Promised-refl true destructive rt = refl
  Promised-refl false true rt = tt
  Promised-refl false false rt = λ key. refl

promise :
    {T : Type 0} (rt rt' : GovernanceRuntime T) {given : ToolAnnotations} (hint : ToolAnnotations)
    → given ≡ hint
    → Promised given.read_only given.destructive rt rt'
    → Promised hint.read_only hint.destructive rt rt'
promise rt rt' hint same kept =
    subst (λ (h : ToolAnnotations). Promised h.read_only h.destructive rt rt') same kept

some-injective : {h g : ToolAnnotations} → some h ≡ some g → h ≡ g
some-injective e = cc

returned-panic :
    {A B : Type 0} (m : Result A) (f : A → B) → (m >>= λ a. ok (f a)) ≡ panic → m ≡ panic
returned-panic (ok a) f h = absurd (cc h)
returned-panic (err e) f h = absurd (cc h)
returned-panic panic f h = refl

known-returns : (id : String) (o : Option StoredDecision) → known id o ≢ panic
known-returns id none h = absurd (cc h)
known-returns id (some decision) h = absurd (cc h)

module _ {T : Type 0} (store_ops : EventStore T) where
  -- Which calls a panic can end, and shut the server down: an observation, and a replay of a domain
  -- that has a stored event with an input out of range.
  abbrev pub MayPanic : ToolCall → GovernanceRuntime T → Type 0
  MayPanic (governance (S.observe params)) rt = Unit {0}
  MayPanic (governance (S.replay params)) rt =
      HasOutOfRange (store_ops.events_for_domain rt.store (new_key params.subject params.scope))
  MayPanic _ rt = ⊥

  -- The server after a call.
  abbrev pub Honoured : ToolCall → ToolAnnotations → GovernanceRuntime T → Server T → Type 0
  Honoured tool hint rt (serving rt') = Promised hint.read_only hint.destructive rt rt'
  Honoured tool hint rt poisoned = MayPanic tool rt

  handler-MayPanic :
      (request : Request) (rt : GovernanceRuntime T)
      → handler store_ops request rt ≡ panic
      → MayPanic (governance request) rt
  unfolding handler explain record_outcome replay
  handler-MayPanic (S.observe params) rt h = tt
  handler-MayPanic (S.decide params) rt h = absurd (cc h)
  handler-MayPanic (S.explain params) rt h =
      known-returns params.decision_id (store_ops.decision rt.store params.decision_id)
        (returned-panic _ _ (returned-panic _ _ h))
  handler-MayPanic (S.record_outcome params) rt h =
      known-returns params.decision_id (store_ops.decision rt.store params.decision_id)
        (returned-panic _ _ (returned-panic _ _ h))
  handler-MayPanic (S.replay params) rt h =
      let key = new_key params.subject params.scope in
      replay_events-panic key (store_ops.events_for_domain rt.store key) replay_start
        (returned-panic _ _ (returned-panic (replay store_ops params rt) _ h))

  -- Each handler keeps what the annotations of its tool promise.
  handler-Promised :
      (request : Request) (rt : GovernanceRuntime T) (a : Response) (rt' : GovernanceRuntime T)
      (hint : ToolAnnotations)
      → annotations_for (tool_name (governance request)) ≡ some hint
      → handler store_ops request rt ≡ ok (a, rt')
      → Promised hint.read_only hint.destructive rt rt'
  unfolding handler annotations_for
  handler-Promised (S.observe params) rt a rt' hint e h = promise rt rt' hint (some-injective e) tt
  handler-Promised (S.decide params) rt a rt' hint e h =
      promise rt rt' hint (some-injective e) (λ key.
        ap (λ (r : Response × GovernanceRuntime T). domain_of r.1 key) (sym (ok-injective h))
        ∙ sym (decide-domains store_ops params rt key))
  handler-Promised (S.explain params) rt a rt' hint e h =
      promise rt rt' hint (some-injective e)
        (sym (unchanged (explain store_ops params rt) S.explained rt a rt' h))
  handler-Promised (S.record_outcome params) rt a rt' hint e h =
      let (b, done) = wrapped (record_outcome store_ops params rt) S.outcome_recorded a rt' h in
      promise rt rt' hint (some-injective e) (λ key.
        ap (get_or key new_domain) (sym (record_outcome-domains store_ops params rt rt' b done)))
  handler-Promised (S.replay params) rt a rt' hint e h =
      promise rt rt' hint (some-injective e)
        (sym (unchanged (replay store_ops params rt) S.replayed rt a rt' h))

  module _ (never : (s : T) → store_ops.health s ≢ panic) where
    answer_if_healthy-Honoured :
        (tool : ToolCall) (hint : ToolAnnotations) (health : Result (Unit {0}))
        (o : Result Response) (rt rt' : GovernanceRuntime T)
        → health ≢ panic
        → Promised hint.read_only hint.destructive rt rt'
        → Honoured tool hint rt (answer_if_healthy store_ops health o rt').1
    answer_if_healthy-Honoured tool hint (ok u) o rt rt' returns kept = kept
    answer_if_healthy-Honoured tool hint (err e) o rt rt' returns kept = kept
    answer_if_healthy-Honoured tool hint panic o rt rt' returns kept = absurd (returns refl)

    after_handler-Honoured :
        (tool : ToolCall) (hint : ToolAnnotations) (o : Result (Response × GovernanceRuntime T))
        (rt : GovernanceRuntime T)
        → ((a : Response) (rt' : GovernanceRuntime T)
            → o ≡ ok (a, rt')
            → Promised hint.read_only hint.destructive rt rt')
        → (o ≡ panic → MayPanic tool rt)
        → Honoured tool hint rt (after_handler store_ops o rt).1
    after_handler-Honoured tool hint (ok (a, rt')) rt h p =
        answer_if_healthy-Honoured tool hint (store_ops.health rt'.store) (ok a) rt rt'
          (never rt'.store) (h a rt' refl)
    after_handler-Honoured tool hint (err e) rt h p =
        answer_if_healthy-Honoured tool hint (store_ops.health rt.store) (err e) rt rt
          (never rt.store) (Promised-refl hint.read_only hint.destructive rt)
    after_handler-Honoured tool hint panic rt h p = p refl

    guarded-Honoured :
        (request : Request) (hint : ToolAnnotations) (health : Result (Unit {0}))
        (rt : GovernanceRuntime T)
        → health ≢ panic
        → annotations_for (tool_name (governance request)) ≡ some hint
        → Honoured
            (governance request)
            hint
            rt
            (guarded store_ops (handler store_ops request) health rt).1
    guarded-Honoured request hint (ok u) rt returns e =
        after_handler-Honoured (governance request) hint (handler store_ops request rt) rt
          (λ a rt' h. handler-Promised request rt a rt' hint e h) (handler-MayPanic request rt)
    guarded-Honoured request hint (err m) rt returns e =
        Promised-refl hint.read_only hint.destructive rt
    guarded-Honoured request hint panic rt returns e = absurd (returns refl)

    module _ {D : Type 0} (fs : FileSystem D) (codec : Codec) (json : Json)
        (inner : CallToolRequest → Server T → Result CallToolResponse × Server T) where
      -- The server after a call; `inner` reads the arguments of the control plane's tools.
      unfoldable pub called : D → Option FilePath → ToolCall → Server T → Server T
      called disk path (governance request) server = (call store_ops request server).1
      called disk path (validation arguments) server =
          (call_tool fs codec json inner disk path
            (record { name = validate_execution_tool; arguments = arguments }) server).1

      -- The annotations tell the truth, of the tools of the control plane and of
      -- `r2r_validate_execution`, over any store whose health check returns: a call of a tool that is
      -- said to be read-only leaves the runtime with its store as it was, and a call of one that is
      -- said not to be destructive leaves the governance of every domain, whether the call succeeds
      -- or fails. The only call of such a tool that can shut the server down is a replay of a domain
      -- that has a stored event with an input out of range.
      pub call-Honoured :
          (disk : D) (path : Option FilePath) (tool : ToolCall) (rt : GovernanceRuntime T)
          (hint : ToolAnnotations)
          → annotations_for (tool_name tool) ≡ some hint
          → Honoured tool hint rt (called disk path tool (serving rt))
      unfolding called call with_runtime call_tool
      call-Honoured disk path (governance request) rt hint e =
          guarded-Honoured request hint (store_ops.health rt.store) rt (never rt.store) e
      call-Honoured disk path (validation arguments) rt hint e =
          unfold annotations_for in promise rt rt hint (some-injective e) refl
