-- ===== src/Examples.antt =====
-- Concrete runs: an agent that is observed, asked about, and overridden.
mod Demonstration
mod Boundary
mod Files
mod Disk
mod Fleet
mod Gates
mod Judging
mod Kernel
mod Memory
mod Policy
mod Principal
mod Command
mod Server
mod Service
mod Tools
mod Trace
use r2r_jev.Prelude.{ℕ, Option, none, some, Bool, true, false, String, List, [], ◌∷◌}
use r2r_jev.Store.Memory.{MemoryEventStore}
use r2r_jev.Store.JsonFile.{FilePath, Io, done, failed, FileSystem, Codec}
use r2r_jev.Model.{JudgmentObserved}
use r2r_jev.Admission.{AdmissionContext}
use r2r_jev.Schema.{ObserveParams, DecideParams, ReplayParams}
use r2r_jev.Runtime.Server.{Request, observe, decide, replay}

-- A push that the judge finds outside of the scope.
abbrev pub push : JudgmentObserved
push = record {
  provider = "offline";
  subject = "agent:coder";
  scope = "repo:alpha";
  task = "fix typo";
  tool = "git.push";
  intent = "force push";
  beyond_scope_ppm = 950000;
  destructive_ppm = 100000;
}

abbrev pub trusted : AdmissionContext
trusted = record {
  source_reliability_ppm = 850000;
  independent_corroborators = 0;
  now_vtick = 1;
  expires_vtick = 11;
}

abbrev pub push_params : ObserveParams
push_params = record {
  provider = "offline";
  subject = "agent:coder";
  scope = "repo:alpha";
  task = "fix typo";
  action = "git.push";
  intent = "force push";
  beyond_scope_ppm = 950000;
  destructive_ppm = 100000;
}

abbrev pub ask : DecideParams
ask = record {
  subject = "agent:coder";
  scope = "repo:alpha";
  action = "git.push";
  resource = none;
  task = none;
}

abbrev pub check_replay : ReplayParams
check_replay = record { subject = "agent:coder"; scope = "repo:alpha" }

-- Ask, observe the push, ask again.
abbrev pub session : List Request
session = decide ask ∷ observe push_params ∷ decide ask ∷ []

-- A disk that holds at most one file, which is not written.
abbrev pub holds_file : Option String → Bool
holds_file none = false
holds_file (some bytes) = true

abbrev pub file_bytes : Option String → Io String
file_bytes none = failed "no such file"
file_bytes (some bytes) = done bytes

abbrev pub shelf : FileSystem (Option String)
shelf = record {
  exists = λ disk p. holds_file disk;
  read = λ disk p. file_bytes disk;
  create_dir_all = λ disk dir. (done tt, disk);
  write = λ disk p bytes. (done tt, disk);
  rename = λ disk p q. (done tt, disk);
  remove_file = λ disk p. (done tt, disk);
}

abbrev pub local : String → FilePath
local name = record { directory = ""; file_name = some name }

-- A codec by which every text is one store.
abbrev pub codec_of : MemoryEventStore → Codec
codec_of store = record { to_vec_pretty = λ s. done "store"; from_slice = λ bytes. done store }
