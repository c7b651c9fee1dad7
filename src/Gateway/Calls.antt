-- ===== src/Gateway/Calls.antt =====
-- src/gateway/service.rs: which calls a tool call makes.
use r2r_jev.Prelude.{
  ℕ, String, List, [], ◌∷◌, ◌++◌, Option, none, some, Bool, true, false, not, ◌&&◌, ◌≡◌, ◌↔◌, refl,
  ap, subst, sym, ◌∙◌, arith, Result, ok, err, panic,
}
use mathlib.Core.List.{append_assoc, append-nil}
use r2r_jev.Prelude.Format.{format}
use r2r_jev.Prelude.Assoc.{text_key}
use r2r_jev.Gateway.{
  is_error_result, Arguments, UpstreamCall, Answer, answered, refused, timed_out, Json,
  GatewayServer, Authorization, Reply, complete, is_at, owner_of, is_control_plane_tool,
  decide_call, outcome_call, outcome_of, finish, forward,
}
use r2r_jev.Gateway.Gate.{read_answer, authorize_at, authorize, decided, call_tool}

abbrev second : Result Authorization × List UpstreamCall → List UpstreamCall
second p = p.1

-- Whether the control plane has allowed the call.
abbrev pub allowed_by : Result Authorization → Bool
allowed_by (ok auth) = auth.allowed
allowed_by (err e) = false
allowed_by panic = false

-- Whether every one of the calls goes to the control plane.
abbrev pub only_control_plane : GatewayServer → List UpstreamCall → Bool
only_control_plane server [] = true
only_control_plane server (call ∷ rest) =
    is_at server.control_plane (some call.upstream) && only_control_plane server rest

-- Whether the client gets an error result, or no result at all.
abbrev pub is_denied : Result Reply → Bool
is_denied (ok (complete result)) = is_error_result result.is_error
is_denied (ok reply) = false
is_denied (err e) = false
is_denied panic = true

abbrev pub succeeded : Answer → Bool
succeeded (answered result) = not (is_error_result result.is_error)
succeeded (refused e) = false
succeeded timed_out = false

executed_iff :
    (flag : Option Bool) (text : Option String)
    → (outcome_of (record { is_error = flag; first_text = text }) ≡ "executed")
      ↔ (not (is_error_result flag) ≡ true)
executed_iff none text = (λ h. refl, λ h. refl)
executed_iff (some false) text = (λ h. refl, λ h. refl)
executed_iff (some true) text = (λ h. absurd (cc h), λ h. absurd (cc h))

-- What is recorded once a forwarded call has ended.
finish_lem :
    (server : GatewayServer) (auth : Authorization) (idx : ℕ) (name : String) (cp : ℕ)
    → server.control_plane ≡ some cp
    → (answer : Answer) (t : List UpstreamCall)
    → (outcome : String) × (detail : Option String) × ((finish server auth idx name answer t).1
        ≡ t ++ outcome_call cp auth.decision_id outcome detail ∷ [])
      × ((outcome ≡ "executed") ↔ (succeeded answer ≡ true))
finish_lem server auth idx name cp h (answered result) t =
    rw h (outcome_of result, none, refl, executed_iff result.is_error result.first_text)
finish_lem server auth idx name cp h (refused e) t = rw h (
  "failed",
  some (format ("upstream " ∷ name ∷ " error: " ∷ e ∷ [])),
  refl,
  (λ same. absurd (cc same), λ same. absurd (cc same)),
)
finish_lem server auth idx name cp h timed_out t = rw h (
  "failed",
  some (format ("upstream " ∷ name ∷ " timed out" ∷ [])),
  refl,
  (λ same. absurd (cc same), λ same. absurd (cc same)),
)

module _ {V : Type 0} (json : Json V) (answers : List UpstreamCall → UpstreamCall → Answer) where
  -- The new calls of a denied tool call.
  abbrev Denied : GatewayServer → List UpstreamCall → Result Reply × List UpstreamCall → Type 0
  Denied server trace r =
      (more : List UpstreamCall) × (r.1 ≡ trace ++ more)
      × (only_control_plane server more ≡ true)
      × (is_denied r.0 ≡ true)

  decided-Denied :
      (server : GatewayServer) (idx : ℕ) (name : String) (arguments : Option Arguments)
      (trace : List UpstreamCall) (cp : Option ℕ)
      → server.control_plane ≡ cp
      → (a : Result Authorization × List UpstreamCall)
      → authorize_at json answers server cp name trace ≡ a
      → allowed_by a.0 ≡ false
      → Denied server trace (decided json answers server idx name arguments a)
  decided-Denied server idx name arguments trace none h (ok auth, t) e denied = absurd (cc e)
  decided-Denied server idx name arguments trace none h (panic, t) e denied = absurd (cc e)
  decided-Denied server idx name arguments trace none h (err x, t) e denied =
      rw h ([], ap second (sym e) ∙ sym (append-nil trace), refl, refl)
  decided-Denied server idx name arguments trace (some cp) h (ok auth, t) e denied =
      let asked = decide_call server cp name in
      let outcome = outcome_call cp auth.decision_id "blocked" none in
      rw denied (
        rw h (
          asked ∷ outcome ∷ [],
          ap (λ (u : List UpstreamCall). u ++ outcome ∷ []) (ap second (sym e))
              ∙ append_assoc trace (asked ∷ []) (outcome ∷ []),
          ground arith,
          refl,
        ))
  decided-Denied server idx name arguments trace (some cp) h (err x, t) e denied =
      let asked = decide_call server cp name in
      let outcome = outcome_call cp "?" "blocked" (some x) in
      rw h (
        asked ∷ outcome ∷ [],
        ap (λ (u : List UpstreamCall). u ++ outcome ∷ []) (ap second (sym e))
            ∙ append_assoc trace (asked ∷ []) (outcome ∷ []),
        ground arith,
        refl,
      )
  decided-Denied server idx name arguments trace (some cp) h (panic, t) e denied =
      rw h (decide_call server cp name ∷ [], ap second (sym e), ground arith, refl)

  -- If a tool belongs to an upstream and is no tool of the control plane, and the control plane does
  -- not allow the call, or cannot be asked: no call goes to an upstream but the control plane, and
  -- the client gets an error.
  pub call_tool-denied :
      (server : GatewayServer) (name : String) (arguments : Option Arguments)
      (trace : List UpstreamCall) (idx : ℕ)
      → owner_of server name ≡ some idx
      → is_control_plane_tool server name ≡ false
      → allowed_by (authorize json answers server name trace).0 ≡ false
      → (more : List UpstreamCall) × ((call_tool json answers server name arguments trace).1
          ≡ trace ++ more)
        × (only_control_plane server more ≡ true)
        × (is_denied (call_tool json answers server name arguments trace).0 ≡ true)
  unfolding call_tool authorize
  call_tool-denied server name arguments trace idx owned gated denied = rw owned (
      rw gated (
        decided-Denied server idx name arguments trace server.control_plane refl
          (authorize_at json answers server server.control_plane name trace) refl denied))

  decided-allowed :
      (server : GatewayServer) (idx : ℕ) (name : String) (arguments : Option Arguments)
      (auth : Authorization) (t : List UpstreamCall)
      → auth.allowed ≡ true
      → (a : Result Authorization × List UpstreamCall) → a ≡ (ok auth, t)
      → let call = forward idx name arguments in
        (decided json answers server idx name arguments a).1
        ≡ (finish server auth idx name (answers t call) (t ++ call ∷ [])).1
  decided-allowed server idx name arguments auth t allowed a e = rw e (rw allowed refl)

  -- If a tool belongs to an upstream and is no tool of the control plane, and the control plane
  -- allows the call: the gateway asks it, forwards the call once, and records one outcome for the
  -- decision, which is "executed" exactly if the upstream answered in time and without an error.
  pub call_tool-allowed :
      (server : GatewayServer) (name : String) (arguments : Option Arguments)
      (trace : List UpstreamCall) (idx cp : ℕ) (auth : Authorization)
      → owner_of server name ≡ some idx
      → is_control_plane_tool server name ≡ false
      → server.control_plane ≡ some cp
      → (authorize json answers server name trace).0 ≡ ok auth
      → auth.allowed ≡ true
      → let asked = decide_call server cp name in
        let call = forward idx name arguments in
        (outcome : String) × (detail : Option String) × ((call_tool json answers server name
            arguments trace).1
          ≡ trace ++ asked ∷ call ∷ outcome_call cp auth.decision_id outcome detail ∷ [])
        × ((outcome ≡ "executed") ↔ (succeeded (answers (trace ++ asked ∷ []) call) ≡ true))
  unfolding call_tool authorize
  call_tool-allowed server name arguments trace idx cp auth owned gated at_cp asks allowed =
      let asked = decide_call server cp name in
      let call = forward idx name arguments in
      let t = trace ++ asked ∷ [] in
      let asks_cp : read_answer json server.call_timeout_ms (answers trace asked) ≡ ok auth =
        subst (λ (o : Option ℕ). (authorize_at json answers server o name trace).0 ≡ ok auth) at_cp
          asks in
      let pair : authorize_at json answers server server.control_plane name trace ≡ (ok auth, t) =
        ap (λ (o : Option ℕ). authorize_at json answers server o name trace) at_cp
        ∙ ap (λ (r : Result Authorization). (r, t)) asks_cp in
      let (outcome, detail, recorded, exact) =
        finish_lem server auth idx name cp at_cp (answers t call) (t ++ call ∷ []) in
      let last = outcome_call cp auth.decision_id outcome detail in
      (
        outcome,
        detail,
        rw owned (
            rw gated (
              decided-allowed server idx name arguments auth t allowed
                (authorize_at json answers server server.control_plane name trace) pair
              ∙ recorded
              ∙ append_assoc t (call ∷ []) (last ∷ [])
              ∙ append_assoc trace (asked ∷ []) (call ∷ last ∷ []))),
        exact,
      )
