-- ===== src/Http/Start.antt =====
-- src/bin/r2r-mcp-remote.rs: `main` up to the point where the service listens. The environment is a
-- function. Socket addresses and the texts of their errors are the standard library's.
use r2r_jev.Prelude.{
  ℕ, String, List, [], ◌∷◌, Option, none, some, Bool, false, not, ◌&&◌, Result, ok, err, ◌>>=◌,
  ◌>>◌, ◌==◌, if◌then◌else◌, is_empty, filter, map,
}
use r2r_jev.Prelude.Format.{format}
use r2r_jev.Prelude.Text.{trim, split, parse_u64}
use r2r_jev.Remote.{RemotePrincipalServer, contains}
use r2r_jev.Remote
use r2r_jev.Runtime.{GovernanceRuntime}
use r2r_jev.Runtime.Recover.{try_with_store}
use r2r_jev.Store.JsonFile.{FilePath, FileSystem, Codec, Attached, open_store, json_file}
use r2r_jev.Http.{Instant, RemoteHttpSecurity}
use r2r_jev.Http

-- `std::env::var(name).ok()`
abbrev pub Env : Type 0
Env = String → Option String

-- What is used of `std::net` and of the errors of `parse`.
pub record Net (A : Type 0) : Type 0 where
  pub parse_addr : String → Result A
  pub is_loopback : A → Bool
  pub show_addr : A → String
  pub int_error : String → String
  pub path_from : String → FilePath

abbrev pub present : String → Option String → Result String
present name none = err (format (name ∷ " is required" ∷ []))
present name (some value) =
    if trim value == "" then err (format (name ∷ " must not be empty" ∷ [])) else ok value

unfoldable pub required_env : Env → String → Result String
required_env env name = present name (env name)

-- `collect` into a set.
abbrev pub collect : List String → List String
collect [] = []
collect (scope ∷ rest) =
    let others = collect rest in if contains others scope then others else scope ∷ others

abbrev pub named_scopes : String → List String
named_scopes raw = collect (filter (λ scope. not (scope == "")) (map trim (split "," raw)))

unfoldable pub parse_scopes : String → Result (List String)
parse_scopes raw =
    if is_empty (named_scopes raw)
    then err "R2R_REMOTE_SCOPES must contain at least one exact scope"
    else ok (named_scopes raw)

abbrev pub value_or : String → Option String → String
value_or default none = default
value_or default (some value) = value

pub record Started (A D : Type 0) : Type 0 where
  pub bind : A
  pub security : RemoteHttpSecurity
  pub runtime : GovernanceRuntime (Attached D)
  pub server : RemotePrincipalServer

abbrev pub is_insecure : Option String → Bool
is_insecure none = false
is_insecure (some value) = value == "1"

module _ {A : Type 0} (net : Net A) where
  abbrev pub parsed_limit : String → Option ℕ → Result ℕ
  parsed_limit value none = err (net.int_error value)
  parsed_limit value (some limit) = ok limit

  abbrev pub rate_limit : Option String → Result ℕ
  rate_limit none = ok 60
  rate_limit (some value) = parsed_limit value (parse_u64 value)

  abbrev pub check_bind : A → Bool → Result (Unit {0})
  check_bind bind insecure_non_loopback =
      if not (net.is_loopback bind) && not insecure_non_loopback
      then err (
          format (
            "refusing plaintext HTTP on non-loopback address "
            ∷ net.show_addr bind
            ∷ "; terminate TLS on a loopback proxy or explicitly set R2R_REMOTE_ALLOW_INSECURE_HTTP=1 for controlled development"
            ∷ []))
      else ok tt

module _ {D : Type 0} (fs : FileSystem D) (codec : Codec) where
  abbrev pub open_runtime : D → FilePath → Result (GovernanceRuntime (Attached D))
  open_runtime disk path = do
    store ← open_store fs codec disk path
    try_with_store (json_file fs codec) (record { store = store; disk = disk })

module _ {A D : Type 0} (net : Net A) (fs : FileSystem D) (codec : Codec) where
  unfoldable pub start : Instant → D → Env → Result (Started A D)
  start now disk env = do
    store_path ← required_env env "R2R_STORE_PATH"
    principal ← required_env env "R2R_REMOTE_PRINCIPAL"
    raw_scopes ← required_env env "R2R_REMOTE_SCOPES"
    scopes ← parse_scopes raw_scopes
    bearer_token ← required_env env "R2R_REMOTE_BEARER_TOKEN"
    requests_per_minute ← rate_limit net (env "R2R_REMOTE_RATE_LIMIT_PER_MINUTE")
    bind ← net.parse_addr (value_or "127.0.0.1:8000" (env "R2R_REMOTE_BIND"))
    check_bind net bind (is_insecure (env "R2R_REMOTE_ALLOW_INSECURE_HTTP"))
    security ← Http.new now bearer_token requests_per_minute
    runtime ← open_runtime fs codec disk (net.path_from store_path)
    server ← Remote.new principal scopes
    ok (record { bind = bind; security = security; runtime = runtime; server = server })
