-- ===== src/Examples/Fleet.antt =====
-- src/gateway/service.rs: a gateway that starts two upstreams.
use r2r_jev.Prelude.{String, [], ◌∷◌, none, some, true, ◌≡◌, refl, ok, err, ◌==◌, if◌then◌else◌}
use r2r_jev.Prelude.Assoc.{text_key, lookup}
use r2r_jev.Gateway.{is_control_plane_tool}
use r2r_jev.Gateway.Start.{
  UpstreamConfig, GatewayConfig, Processes, Running, connected, start, load, connect_all, merge_all,
  merge_tools, with_defaults,
}
use r2r_jev.Gateway.Owners.{Ungated, start-Ungated}
use r2r_jev.Prelude.Decimal.{show}
use r2r_jev.Prelude.Assoc.{insert}

abbrev upstream : String → UpstreamConfig
upstream name = record {
  name = name;
  command = name;
  args = [];
  env = [];
  control_plane = name == "r2r";
}

abbrev config : GatewayConfig
config = with_defaults (record {
  upstreams = upstream "r2r" ∷ upstream "github" ∷ [];
  init_timeout_ms = none;
  call_timeout_ms = some 1000;
  governance = some (some "agent:coder", none);
})

loaded :
    load
      (λ path. ok "{}")
      (λ raw. ok (record {
        upstreams = upstream "r2r" ∷ upstream "github" ∷ [];
        init_timeout_ms = none;
        call_timeout_ms = some 1000;
        governance = some (some "agent:coder", none);
      }))
      "gateway.json"
    ≡ ok config
unfolding load
loaded = refl

two_planes :
    load
      (λ path. ok "{}")
      (λ raw. ok (record {
        upstreams = upstream "r2r" ∷ upstream "r2r" ∷ [];
        init_timeout_ms = none;
        call_timeout_ms = none;
        governance = none;
      }))
      "gateway.json"
    ≡ err
        "invalid gateway config gateway.json: at most one upstream may set control_plane=true, found 2"
unfolding load show
two_planes = refl

-- A process is its name, and lists one tool.
abbrev processes : Processes String String
processes = record {
  spawn = λ up. ok up.name;
  serve = λ timeout name. connected name;
  list_all_tools = λ name. ok ((if name == "r2r" then "r2r_decide" else "git_push") ∷ []);
  quoted = λ name. name;
}

abbrev running : Running String
running = record {
  server = record {
    names = "r2r" ∷ "github" ∷ [];
    owners = ("r2r_decide", 0) ∷ ("git_push", 1) ∷ [];
    call_timeout_ms = 1000;
    control_plane = some 0;
    subject = "agent:coder";
    scope = "default";
  };
  upstreams =
      record { name = "r2r"; client = "r2r" } ∷ record { name = "github"; client = "github" } ∷ [];
  catalog = "r2r_decide" ∷ "git_push" ∷ [];
}

running_started : start processes config ≡ ok running
unfolding start connect_all merge_all merge_tools lookup insert
running_started = refl

passes : is_control_plane_tool running.server "r2r_decide" ≡ true
unfolding is_control_plane_tool lookup
passes = refl

start-Ungated_example : Ungated processes config running "r2r_decide"
start-Ungated_example = start-Ungated processes config running "r2r_decide" running_started passes
