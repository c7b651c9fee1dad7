-- ===== src/Remote/Binding.antt =====
-- src/mcp/remote.rs: a call that is let through is bound to the principal and to its scopes.
use r2r_jev.Prelude.{
  String, Option, none, some, true, ◌≡◌, refl, sym, subst, ◌∙◌, arith, Result, ok, >>=-eq-ok,
  ok-injective, ◌==◌, eq_iff, Bool-cases, inl, inr,
}
use r2r_jev.Prelude.Assoc.{text_key, lookup, lookup-insert}
use r2r_jev.Store.{EventStore, StoredDecision}
use r2r_jev.Remote.{
  Value, text, other, CallToolRequest, RemotePrincipalServer, contains, as_str, or_default,
  required, ensure_scope, by_scope, by_decision, kind_of, known, ensure_decision_access,
  authorize_request,
}

required-eq-ok :
    (message : String) (v : Option Value) (s : String)
    → required message (as_str v) ≡ ok s
    → v ≡ some (text s)
required-eq-ok message none s h = absurd (cc h)
required-eq-ok message (some other) s h = absurd (cc h)
required-eq-ok message (some (text t)) s h = cc h

ensure_scope-eq-ok :
    (server : RemotePrincipalServer) (scope : String)
    → ensure_scope server scope ≡ ok tt
    → contains server.allowed_scopes scope ≡ true
unfolding ensure_scope
ensure_scope-eq-ok server scope h = ground (arith, h)

module _ {S : Type 0} (store_ops : EventStore S) (opened : Result S) where
  known-eq-ok :
      (id : String) (o : Option StoredDecision) (d : StoredDecision)
      → known store_ops opened id o ≡ ok d
      → o ≡ some d
  known-eq-ok id none d h = absurd (cc h)
  known-eq-ok id (some e) d h = cc h

  -- If a call of a tool that takes a scope is let through: its scope is one of the principal's, and
  -- its subject is the principal, whatever the client wrote.
  pub authorize_request-by_scope :
      (server : RemotePrincipalServer) (request r : CallToolRequest)
      → kind_of request.name ≡ by_scope
      → authorize_request store_ops opened server request ≡ ok r
      → (scope : String) × (lookup "scope" (or_default request.arguments) ≡ some (text scope))
        × (contains server.allowed_scopes scope ≡ true)
        × (lookup "subject" (or_default r.arguments) ≡ some (text server.principal))
        × (lookup "scope" (or_default r.arguments) ≡ some (text scope))
  unfolding authorize_request
  authorize_request-by_scope server request r kind h =
      let arguments = or_default request.arguments in
      let (scope, has, rest) =
        >>=-eq-ok
          (required "remote governance request requires scope" (as_str (lookup "scope" arguments)))
          _ (rw kind at h) in
      let (u, fits, done) = >>=-eq-ok (ensure_scope server scope) _ rest in
      let given = required-eq-ok _ (lookup "scope" arguments) scope has in
      let result = ok-injective done in
      (
        scope,
        given,
        ensure_scope-eq-ok server scope fits,
        subst
            (λ (q : CallToolRequest).
              lookup "subject" (or_default q.arguments) ≡ some (text server.principal))
            result (lookup-insert "subject" "subject" (text server.principal) arguments ∙ refl),
        subst (λ (q : CallToolRequest). lookup "scope" (or_default q.arguments) ≡ some (text scope))
            result (lookup-insert "subject" "scope" (text server.principal) arguments ∙ given),
      )

  -- If a call of a tool that takes a decision is let through: it is unchanged, and its decision is in
  -- the store, was made for the principal, and has one of the principal's scopes.
  pub authorize_request-by_decision :
      (server : RemotePrincipalServer) (request r : CallToolRequest)
      → kind_of request.name ≡ by_decision
      → authorize_request store_ops opened server request ≡ ok r
      → (r ≡ request)
        × ((id : String) × (store : S) × (d : StoredDecision) × (lookup "decision_id"
                (or_default request.arguments)
              ≡ some (text id))
            × (opened ≡ ok store)
            × (store_ops.decision store id ≡ some d)
            × (d.domain.subject ≡ server.principal)
            × (contains server.allowed_scopes d.domain.scope ≡ true))
  unfolding authorize_request ensure_decision_access
  authorize_request-by_decision server request r kind h =
      let arguments = or_default request.arguments in
      let (id, has, rest) =
        >>=-eq-ok
          (required "remote request requires decision_id" (as_str (lookup "decision_id" arguments)))
          _ (rw kind at h) in
      let (u, access, done) =
        >>=-eq-ok (ensure_decision_access store_ops opened server id) _ rest in
      let (store, opens, healthy) = >>=-eq-ok opened _ access in
      let (w, health, looked) = >>=-eq-ok (store_ops.health store) _ healthy in
      let (d, found, checked) =
        >>=-eq-ok (known store_ops opened id (store_ops.decision store id)) _ looked in
      elim (Bool-cases (d.domain.subject == server.principal)) [
        | inl own ↦ (
          sym (ok-injective done),
          (
            id,
            store,
            d,
            required-eq-ok _ (lookup "decision_id" arguments) id has,
            opens,
            known-eq-ok id (store_ops.decision store id) d found,
            (eq_iff d.domain.subject server.principal).0 own,
            ensure_scope-eq-ok server d.domain.scope (rw own at checked),
          ),
        )
        | inr foreign ↦ absurd (cc (rw foreign at checked))
      ]
