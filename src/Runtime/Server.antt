-- ===== src/Runtime/Server.antt =====
-- src/mcp/server.rs: `with_runtime` and the five tools. A panic in a handler poisons the mutex, and
-- no later call sees the runtime again. The JSON text of a response is left out.
use r2r_jev.Prelude.{List, [], ◌∷◌, Result, ok, err, panic, ◌>>=◌}
use r2r_jev.Prelude.Format.{format}
use r2r_jev.Store.{EventStore}
use r2r_jev.Schema.{
  ObserveParams, ObserveResponse, DecideParams, DecideResponse, ExplainParams, ExplainResponse,
  RecordOutcomeParams, RecordOutcomeResponse, ReplayParams, ReplayResponse,
}
use r2r_jev.Runtime.{GovernanceRuntime}
use r2r_jev.Runtime.Observe as Observe
use r2r_jev.Runtime.Decide as Decide
use r2r_jev.Runtime.Replay as Replay

pub data Server (S : Type 0) : Type 0 where
  serving : GovernanceRuntime S → Server S
  poisoned : Server S

-- A call of one of the tools, and what a successful call answers.
pub data Request : Type 0 where
  observe : ObserveParams → Request
  decide : DecideParams → Request
  explain : ExplainParams → Request
  record_outcome : RecordOutcomeParams → Request
  replay : ReplayParams → Request

pub data Response : Type 0 where
  observed : ObserveResponse → Response
  decided : DecideResponse → Response
  explained : ExplainResponse → Response
  outcome_recorded : RecordOutcomeResponse → Response
  replayed : ReplayResponse → Response

module _ {S : Type 0} (store_ops : EventStore S) where
  open store_ops use {health}

  -- The answer of a handler, once the store is found healthy after it.
  abbrev pub answer_if_healthy :
      Result (Unit {0}) → Result Response → GovernanceRuntime S → Result Response × Server S
  answer_if_healthy (ok _) answer rt = (answer, serving rt)
  answer_if_healthy (err e) answer rt =
      (err (format ("event store persistence failed: " ∷ e ∷ [])), serving rt)
  answer_if_healthy panic answer rt = (panic, poisoned)

  abbrev pub after_handler :
      Result (Response × GovernanceRuntime S) → GovernanceRuntime S → Result Response × Server S
  after_handler (ok (response, rt')) rt = answer_if_healthy (health rt'.store) (ok response) rt'
  after_handler (err e) rt = answer_if_healthy (health rt.store) (err e) rt
  after_handler panic rt = (panic, poisoned)

  abbrev pub guarded :
      (GovernanceRuntime S → Result (Response × GovernanceRuntime S))
      → Result (Unit {0})
      → GovernanceRuntime S
      → Result Response × Server S
  guarded f (ok _) rt = after_handler (f rt) rt
  guarded f (err e) rt = (err (format ("event store unavailable: " ∷ e ∷ [])), serving rt)
  guarded f panic rt = (panic, poisoned)

  unfoldable pub with_runtime :
      (GovernanceRuntime S → Result (Response × GovernanceRuntime S))
      → Server S
      → Result Response × Server S
  with_runtime f poisoned = (err "governance runtime lock poisoned", poisoned)
  with_runtime f (serving rt) = guarded f (health rt.store) rt

  -- The handler of each tool.
  unfoldable pub handler : Request → GovernanceRuntime S → Result (Response × GovernanceRuntime S)
  handler (observe params) rt = do
    (response, rt') ← Observe.observe store_ops params rt
    ok (observed response, rt')
  handler (decide params) rt =
      let (response, rt') = Decide.decide store_ops params rt in ok (decided response, rt')
  handler (explain params) rt = do
    response ← Decide.explain store_ops params rt
    ok (explained response, rt)
  handler (record_outcome params) rt = do
    (response, rt') ← Decide.record_outcome store_ops params rt
    ok (outcome_recorded response, rt')
  handler (replay params) rt = do
    response ← Replay.replay store_ops params rt
    ok (replayed response, rt)

  unfoldable pub call : Request → Server S → Result Response × Server S
  unfolding with_runtime handler
  call request = with_runtime (handler request)

  -- A sequence of calls, one after the other, as the mutex orders them.
  unfoldable pub call_all : List Request → Server S → Server S
  unfolding call
  call_all [] server = server
  call_all (request ∷ rest) server = call_all rest (call request server).1
