-- ===== src/Examples/Service.antt =====
-- src/bin/r2r-mcp-remote.rs: a service with a limit of two requests per minute.
use Prim.Native.String.{◌++◌ as ◌<>◌}
use r2r_jev.Prelude.{
  ◌*◌, ◌≤◌, ◌≡◌, ◌↔◌, refl, String, List, [], ◌∷◌, Option, none, some, true, false, ok, arith, ◌==◌,
  length, filter, inc64,
}
use r2r_jev.Prelude.Assoc.{lookup, text_key}
use r2r_jev.Prelude.Text.{parse_u64}
use r2r_jev.Http.{
  Instant, RemoteHttpSecurity, free, Request, Response, new, authenticate, consume_rate_limit,
  security_middleware, constant_time_eq,
}
use r2r_jev.Http.Equality.{authenticate_iff}
use r2r_jev.Http.Forward.{serve, has_token, serve-authenticated}
use r2r_jev.Http.Limit.{consume_all}
use r2r_jev.Http.Reach.{keep, HaveToken, serve-bounded}
use r2r_jev.Http.Recovers.{consume-recovers}
use r2r_jev.Store.JsonFile.{open_store}
use r2r_jev.Store.Memory.{new_store}
use r2r_jev.Runtime.Recover.{try_with_store, recover_events, check_versions}
use r2r_jev.Remote
use r2r_jev.Http.Start.{Env, Net, Started, start, required_env, parse_scopes}
use r2r_jev.Http.Environment.{IsGuarded, start-IsGuarded}
use r2r_jev.Examples.{shelf, local, codec_of}

abbrev token : String
token = "0123456789abcdef0123456789abcdef"

abbrev bearer : String
bearer = "Bearer 0123456789abcdef0123456789abcdef"

abbrev security : RemoteHttpSecurity
security = record {
  bearer_token = token;
  requests_per_minute = 2;
  window = free (record { started_at = 1000; count = 0 });
}

created : new 1000 token 2 ≡ ok security
unfolding new
created = refl

accepted : authenticate token (some bearer) ≡ true
unfolding authenticate constant_time_eq
accepted = refl

refused : authenticate token (some "Bearer 0123456789abcdef0123456789abcdeg") ≡ false
unfolding authenticate constant_time_eq
refused = refl

authenticate_iff_example :
    (authenticate token (some bearer) ≡ true) ↔ (some bearer ≡ some ("Bearer " <> token))
authenticate_iff_example = authenticate_iff token (some bearer)

abbrev fine : Response
fine = record { status = 200; headers = []; body = "{}" }

abbrev with_token : Request String
with_token = record { authorization = some bearer; content = "call" }

abbrev without_token : Request String
without_token = record { authorization = none; content = "call" }

-- Two are let through, the third is not; the stranger is not counted.
abbrev requests : List (Instant × Request String)
requests = (2000, with_token) ∷ (3000, without_token) ∷ (4000, with_token) ∷ (5000, with_token) ∷ []

two_received : length (serve (keep fine) requests security []).1 ≡ 2
unfolding security_middleware authenticate constant_time_eq consume_rate_limit inc64
two_received = refl

serve-authenticated_example :
    serve (keep fine) requests security []
    ≡ serve (keep fine) (filter (has_token token) requests) security []
serve-authenticated_example = serve-authenticated (keep fine) requests security []

serve-bounded_example :
    let received = (serve (keep fine) requests (serve (keep fine) requests security []).0 []).1 in
    (length received ≤ 2 * 2) × HaveToken token received
unfolding authenticate constant_time_eq
serve-bounded_example =
    serve-bounded fine 1000 token 2 created (omega arith) requests requests 2000
      (omega arith, omega arith, (omega arith, omega arith, (omega arith, omega arith, tt)))

consume-recovers_example :
    (consume_rate_limit 2 60000005000 (consume_all 2 (2000 ∷ 4000 ∷ 5000 ∷ []) security.window).1).0
    ≡ true
consume-recovers_example =
    consume-recovers 1000 token 2 created (2000 ∷ 4000 ∷ 5000 ∷ []) 5000 60000005000
      (omega arith, (omega arith, (omega arith, (omega arith, tt)))) (omega arith)

abbrev env : Env
env name = lookup name (
    ("R2R_STORE_PATH", "store.json")
    ∷ ("R2R_REMOTE_PRINCIPAL", "agent:coder")
    ∷ ("R2R_REMOTE_SCOPES", "repo:alpha, ,repo:beta")
    ∷ ("R2R_REMOTE_BEARER_TOKEN", token)
    ∷ ("R2R_REMOTE_RATE_LIMIT_PER_MINUTE", "2")
    ∷ [])

-- Addresses as texts; the default one is on the loopback.
abbrev net : Net String
net = record {
  parse_addr = λ text. ok text;
  is_loopback = λ a. a == "127.0.0.1:8000";
  show_addr = λ a. a;
  int_error = λ text. "invalid digit found in string";
  path_from = local;
}

abbrev service : Started String (Option String)
service = record {
  bind = "127.0.0.1:8000";
  security = security;
  runtime = record {
    domains = [];
    store = record {
      store = record { path = local "store.json"; inner = new_store; fatal_error = none };
      disk = none;
    };
  };
  server = record { principal = "agent:coder"; allowed_scopes = "repo:alpha" ∷ "repo:beta" ∷ [] };
}

started : start net shelf (codec_of new_store) 1000 none env ≡ ok service
unfolding start required_env lookup parse_scopes parse_u64 new open_store try_with_store
    recover_events check_versions Remote.new
started = refl

start-IsGuarded_example : IsGuarded net env service
start-IsGuarded_example = start-IsGuarded net shelf (codec_of new_store) 1000 none env started
