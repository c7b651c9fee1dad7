-- ===== src/Http/Environment.antt =====
-- src/bin/r2r-mcp-remote.rs: what holds of a service that `main` starts.
use Prim.Native.String.{len}
use r2r_jev.Prelude.{
  ◌≤◌, ◌<◌, ◌≡◌, ◌≢◌, ◌⊎◌, refl, sym, ap, ◌∙◌, subst, String, List, [], ◌∷◌, Option, none, some,
  true, not, ◌&&◌, ok, ◌==◌, filter, map, arith, eq_iff, >>=-eq-ok, ok-injective,
}
use r2r_jev.Prelude.Text.{trim, split}
use r2r_jev.Remote.{RemotePrincipalServer, contains}
use r2r_jev.Remote
use r2r_jev.Store.JsonFile.{FileSystem, Codec, Attached}
use r2r_jev.Runtime.{GovernanceRuntime}
use r2r_jev.Http.{Instant, free, RemoteHttpSecurity, authenticate}
use r2r_jev.Http
use r2r_jev.Http.Limit.{new-ok}
use r2r_jev.Http.Start.{
  Env, Net, required_env, present, collect, named_scopes, parse_scopes, Started, rate_limit,
  check_bind, is_insecure, open_runtime, start, value_or,
}

required_env-ok :
    (env : Env) (name : String) {value : String}
    → required_env env name ≡ ok value
    → (env name ≡ some value) × (trim value ≢ "")
unfolding required_env
required_env-ok env name {value} e = go (env name) e
  where
    go :
        (found : Option String)
        → present name found ≡ ok value
        → (found ≡ some value) × (trim value ≢ "")
    go none e = absurd (cc e)
    go (some v) e = ground (arith, eq_iff (trim v) "")

contains-collect :
    (scopes : List String) (s : String) → contains (collect scopes) s ≡ contains scopes s
contains-collect [] s = refl
contains-collect (scope ∷ rest) s =
    ground (arith, contains-collect rest s, contains-collect rest scope, eq_iff scope s)

contains-filter :
    (pieces : List String) (s : String)
    → contains (filter (λ scope. not (scope == "")) pieces) s ≡ not (s == "") && contains pieces s
contains-filter [] s = ground arith
contains-filter (piece ∷ rest) s =
    ground (arith, contains-filter rest s, eq_iff piece s, eq_iff piece "", eq_iff s "")

-- The allowed scopes are the trimmed, non-blank pieces of the list, each of them and no other.
pub parse_scopes-contains :
    (raw : String) {scopes : List String}
    → parse_scopes raw ≡ ok scopes
    → (s : String) → contains scopes s ≡ not (s == "") && contains (map trim (split "," raw)) s
unfolding parse_scopes
parse_scopes-contains raw {scopes} e s =
    ap (λ one. contains one s) (sym (named e))
    ∙ (contains-collect _ s ∙ contains-filter (map trim (split "," raw)) s)
  where
    named : parse_scopes raw ≡ ok scopes → named_scopes raw ≡ scopes
    named e = ground arith

Remote_new-ok :
    (principal : String) (scopes : List String) {server : RemotePrincipalServer}
    → Remote.new principal scopes ≡ ok server
    → (trim principal ≢ "") × (server ≡ record { principal = principal; allowed_scopes = scopes })
unfolding Remote.new
Remote_new-ok principal scopes e = ground (arith, eq_iff (trim principal) "")

module _ {A D : Type 0} (net : Net A) where
  -- The settings of a started service, each traced to the environment.
  pub record IsGuarded (env : Env) (started : Started A D) : Type 0 where
    pub principal : env "R2R_REMOTE_PRINCIPAL" ≡ some started.server.principal
    pub principal_given : trim started.server.principal ≢ ""
    pub raw_scopes : String
    pub scopes_given : env "R2R_REMOTE_SCOPES" ≡ some raw_scopes
    pub scopes :
        (s : String)
        → contains started.server.allowed_scopes s
          ≡ not (s == "") && contains (map trim (split "," raw_scopes)) s
    pub token : env "R2R_REMOTE_BEARER_TOKEN" ≡ some started.security.bearer_token
    pub token_long : 32 ≤ len started.security.bearer_token
    pub limit_positive : 0 < started.security.requests_per_minute
    pub address :
        (net.is_loopback started.bind ≡ true) ⊎ (env "R2R_REMOTE_ALLOW_INSECURE_HTTP" ≡ some "1")

module _ {A : Type 0} (net : Net A) where
  check_bind-ok :
      (bind : A) (insecure : Option String)
      → check_bind net bind (is_insecure insecure) ≡ ok tt
      → (net.is_loopback bind ≡ true) ⊎ (insecure ≡ some "1")
  check_bind-ok bind none e = ground arith
  check_bind-ok bind (some value) e = ground (arith, eq_iff value "1")

abbrev settings :
    {A D : Type 0}
    → A
    → RemoteHttpSecurity
    → GovernanceRuntime (Attached D)
    → RemotePrincipalServer
    → Started A D
settings bind security runtime server = record {
  bind = bind;
  security = security;
  runtime = runtime;
  server = server;
}

module _ {A D : Type 0} (net : Net A) (fs : FileSystem D) (codec : Codec) where
  -- A service starts only with a token of at least 32 bytes, a limit above zero, a principal that is
  -- not blank, and an address that is on the loopback unless the operator allowed another by name;
  -- its principal and its token are the environment's, and the scopes that it allows are exactly
  -- the trimmed, non-blank pieces of the list there.
  pub start-IsGuarded :
      (now : Instant) (disk : D) (env : Env) {started : Started A D}
      → start net fs codec now disk env ≡ ok started
      → IsGuarded net env started
  unfolding start
  start-IsGuarded now disk env {started} e =
      let (path, path_ok, e) = >>=-eq-ok (required_env env "R2R_STORE_PATH") _ e in
      let (principal, principal_ok, e) = >>=-eq-ok (required_env env "R2R_REMOTE_PRINCIPAL") _ e in
      let (raw, raw_ok, e) = >>=-eq-ok (required_env env "R2R_REMOTE_SCOPES") _ e in
      let (scopes, scopes_ok, e) = >>=-eq-ok (parse_scopes raw) _ e in
      let (token, token_ok, e) = >>=-eq-ok (required_env env "R2R_REMOTE_BEARER_TOKEN") _ e in
      let (limit, limit_ok, e) =
        >>=-eq-ok (rate_limit net (env "R2R_REMOTE_RATE_LIMIT_PER_MINUTE")) _ e in
      let (bind, bind_ok, e) =
        >>=-eq-ok (net.parse_addr (value_or "127.0.0.1:8000" (env "R2R_REMOTE_BIND"))) _ e in
      let (u, checked, e) =
        >>=-eq-ok (check_bind net bind (is_insecure (env "R2R_REMOTE_ALLOW_INSECURE_HTTP"))) _ e in
      let (security, security_ok, e) = >>=-eq-ok (Http.new now token limit) _ e in
      let (runtime, runtime_ok, e) =
        >>=-eq-ok (open_runtime fs codec disk (net.path_from path)) _ e in
      let (server, server_ok, e) = >>=-eq-ok (Remote.new principal scopes) _ e in
      let (limit_positive, token_long, security_is) = new-ok now token limit security_ok in
      let (principal_given, server_is) = Remote_new-ok principal scopes server_ok in
      let opened : RemoteHttpSecurity = record {
        bearer_token = token;
        requests_per_minute = limit;
        window = free (record { started_at = now; count = 0 });
      } in
      let bound : RemotePrincipalServer = record {
        principal = principal;
        allowed_scopes = scopes;
      } in
      subst (IsGuarded net env)
        (ap (settings bind opened runtime) (sym server_is)
          ∙ (ap (λ one. settings bind one runtime server) (sym security_is) ∙ ok-injective e))
        (record {
          principal = (required_env-ok env _ principal_ok).0;
          principal_given = principal_given;
          raw_scopes = raw;
          scopes_given = (required_env-ok env _ raw_ok).0;
          scopes = parse_scopes-contains raw scopes_ok;
          token = (required_env-ok env _ token_ok).0;
          token_long = token_long;
          limit_positive = limit_positive;
          address = check_bind-ok net bind _ checked;
        })
