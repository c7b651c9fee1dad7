-- ===== src/Gateway/Start.antt =====
-- src/gateway/config.rs and GatewayServer::start of src/gateway/service.rs: the configuration, the
-- connections, and the catalog of the tools. Processes and the protocol's client are parameters.
use r2r_jev.Prelude.{
  ℕ, suc, String, List, [], ◌∷◌, ◌++◌, Option, none, some, Bool, Result, ok, err, panic, ◌>>=◌, ltb,
  filter, length, if◌then◌else◌, map,
}
use r2r_jev.Prelude.Assoc.{text_key, Assoc, lookup, insert}
use r2r_jev.Prelude.Decimal.{show}
use r2r_jev.Prelude.Format.{format}
use r2r_jev.Gateway.{GatewayServer}

pub record UpstreamConfig : Type 0 where
  pub name : String
  pub command : String
  pub args : List String
  pub env : Assoc String String
  pub control_plane : Bool

pub record GovernanceConfig : Type 0 where
  pub subject : String
  pub scope : String

abbrev pub default_governance : GovernanceConfig
default_governance = record { subject = "agent:default"; scope = "default" }

pub record GatewayConfig : Type 0 where
  pub upstreams : List UpstreamConfig
  pub init_timeout_ms : ℕ  -- u64
  pub call_timeout_ms : ℕ  -- u64
  pub governance : GovernanceConfig

abbrev pub default_timeout_ms : ℕ
default_timeout_ms = 120000

-- The file as `serde_json` reads it: a field that is missing is `none`.
pub record ConfigFile : Type 0 where
  pub upstreams : List UpstreamConfig
  pub init_timeout_ms : Option ℕ
  pub call_timeout_ms : Option ℕ
  pub governance : Option (Option String × Option String)

abbrev pub or_given {ℓ} : {A : Type ℓ} → A → Option A → A
or_given default none = default
or_given default (some value) = value

abbrev pub governance_of : Option (Option String × Option String) → GovernanceConfig
governance_of none = default_governance
governance_of (some (subject, scope)) = record {
  subject = or_given default_governance.subject subject;
  scope = or_given default_governance.scope scope;
}

abbrev pub with_defaults : ConfigFile → GatewayConfig
with_defaults file = record {
  upstreams = file.upstreams;
  init_timeout_ms = or_given default_timeout_ms file.init_timeout_ms;
  call_timeout_ms = or_given default_timeout_ms file.call_timeout_ms;
  governance = governance_of file.governance;
}

abbrev pub control_planes : List UpstreamConfig → ℕ
control_planes upstreams = length (filter (λ (up : UpstreamConfig). up.control_plane) upstreams)

abbrev pub checked_config : String → GatewayConfig → Result GatewayConfig
checked_config path config =
    if ltb 1 (control_planes config.upstreams)
    then err (
        format (
          "invalid gateway config "
          ∷ path
          ∷ ": at most one upstream may set control_plane=true, found "
          ∷ show (control_planes config.upstreams)
          ∷ []))
    else ok config

abbrev pub parsed_config : String → Result ConfigFile → Result GatewayConfig
parsed_config path (ok file) = checked_config path (with_defaults file)
parsed_config path (err e) = err (format ("invalid gateway config " ∷ path ∷ ": " ∷ e ∷ []))
parsed_config path panic = panic

abbrev pub read_config :
    (String → Result ConfigFile) → String → Result String → Result GatewayConfig
read_config from_str path (ok raw) = parsed_config path (from_str raw)
read_config from_str path (err e) =
    err (format ("cannot read gateway config " ∷ path ∷ ": " ∷ e ∷ []))
read_config from_str path panic = panic

unfoldable pub load :
    (String → Result String) → (String → Result ConfigFile) → String → Result GatewayConfig
load read_to_string from_str path = read_config from_str path (read_to_string path)

pub data Initialized (C : Type 0) : Type 0 where
  connected : C → Initialized C
  failed : String → Initialized C
  timed_out : Initialized C

-- What `start` uses of processes (`T`) and of clients (`C`), and how a name is quoted.
pub record Processes (T C : Type 0) : Type 0 where
  pub spawn : UpstreamConfig → Result T
  pub serve : ℕ → T → Initialized C
  pub list_all_tools : C → Result (List String)
  pub quoted : String → String

pub record Upstream (C : Type 0) : Type 0 where
  pub name : String
  pub client : C

-- The tools so far, by owner and in order. A tool is kept by its name.
pub record Merged : Type 0 where
  pub owners : Assoc String ℕ
  pub catalog : List String

pub record Running (C : Type 0) : Type 0 where
  pub server : GatewayServer
  pub upstreams : List (Upstream C)
  pub catalog : List String

module _ {T C : Type 0} (processes : Processes T C) where
  open processes use {spawn, serve, list_all_tools, quoted}

  abbrev pub spawned : UpstreamConfig → Result T → Result T
  spawned up (ok transport) = ok transport
  spawned up (err e) = err (format ("spawn upstream " ∷ up.name ∷ ": " ∷ e ∷ []))
  spawned up panic = panic

  abbrev pub initialized : ℕ → UpstreamConfig → Initialized C → Result C
  initialized timeout up (connected client) = ok client
  initialized timeout up (failed e) =
      err (format ("upstream " ∷ up.name ∷ " failed to initialize: " ∷ e ∷ []))
  initialized timeout up timed_out =
      err
        (format ("upstream " ∷ up.name ∷ " initialize timed out after " ∷ show timeout ∷ "ms" ∷ []))

  -- The first loop; the position of the control plane is the last one that is marked.
  unfoldable pub connect_all :
      ℕ → ℕ → Option ℕ → List UpstreamConfig → Result (List (Upstream C) × Option ℕ)
  connect_all timeout idx control_plane [] = ok ([], control_plane)
  connect_all timeout idx control_plane (up ∷ rest) = do
    transport ← spawned up (spawn up)
    client ← initialized timeout up (serve timeout transport)
    others ←
        connect_all timeout (suc idx) (if up.control_plane then some idx else control_plane) rest
    ok (record { name = up.name; client = client } ∷ others.0, others.1)

  abbrev pub listed : Upstream C → Result (List String) → Result (List String)
  listed up (ok tools) = ok tools
  listed up (err e) = err (format ("upstream " ∷ up.name ∷ " tools/list failed: " ∷ e ∷ []))
  listed up panic = panic

  -- `owners.insert(..).is_some()` is a collision.
  abbrev pub merge_tool : ℕ → String → Merged → Option ℕ → Result Merged
  merge_tool idx tool merged none =
      ok (record { owners = insert tool idx merged.owners; catalog = merged.catalog ++ tool ∷ [] })
  merge_tool idx tool merged (some other) = err (
      format (
        "tool name collision: "
        ∷ quoted tool
        ∷ " is exposed by more than one upstream; refusing to start"
        ∷ []))

  unfoldable pub merge_tools : ℕ → List String → Merged → Result Merged
  merge_tools idx [] merged = ok merged
  merge_tools idx (tool ∷ rest) merged = do
    next ← merge_tool idx tool merged (lookup tool merged.owners)
    merge_tools idx rest next

  unfoldable pub merge_all : ℕ → List (Upstream C) → Merged → Result Merged
  merge_all idx [] merged = ok merged
  merge_all idx (up ∷ rest) merged = do
    tools ← listed up (list_all_tools up.client)
    next ← merge_tools idx tools merged
    merge_all (suc idx) rest next

  unfoldable pub start : GatewayConfig → Result (Running C)
  start config = do
    connections ← connect_all config.init_timeout_ms 0 none config.upstreams
    merged ← merge_all 0 connections.0 (record { owners = []; catalog = [] })
    ok (record {
      server = record {
        names = map (λ (up : Upstream C). up.name) connections.0;
        owners = merged.owners;
        call_timeout_ms = config.call_timeout_ms;
        control_plane = connections.1;
        subject = config.governance.subject;
        scope = config.governance.scope;
      };
      upstreams = connections.0;
      catalog = merged.catalog;
    })
