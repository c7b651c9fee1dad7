-- ===== src/Lib.antt =====
-- Persistent governance of the tool calls of agents. A judge scores a call, evidence admission decides
-- which scores may enter governance, the kernel (R2R) turns admitted evidence into lasting changes of
-- three relations, and the control plane answers, per domain (a subject and a scope), whether an action
-- is allowed; an execution gate checks an answer again before the action is executed.
--
-- The parts, and the files that model them:
--   Prelude          what all parts share: the result of a fallible call (Outcome), lists over native
--                    numbers (Lists), Boolean tests and 64-bit increments (Tests), maps as association
--                    lists (Assoc), format! with padded numbers (Decimal, Format), and the
--                    operations of str that the programs call (Text).
--   Admission        src/admission.rs. `admit` is the code's chain of early returns; its assertion is
--                    `panic` of `Result`. Admission/Ladder and Admission/Order are about its decisions.
--   Model            src/model.rs, the record JudgmentObserved.
--   Governance       src/r2r.rs. The kernel's state is the record Governance; `&mut self` methods take it
--                    and return the new one. Governance/Observe is observe_judgment with its loop over the
--                    two candidates, Governance/Override is human_override. Governance/Effect,
--                    Governance/Explain, Governance/Trace and Governance/History hold the proofs; a history
--                    of judgments and overrides is the step relation `Step` with its closure `Reach`.
--   Store            src/store/mod.rs. The trait EventStore is a record of operations over a state S.
--   Store/Memory     src/store/memory.rs, and `memory`, its EventStore. Store/Memory/Versions is about the
--                    state versions, Store/Memory/Numbering about the ids.
--   Store/JsonFile   src/store/json_file.rs, over a FileSystem and a Codec. Its state is the store with the
--                    disk (Attached). Store/JsonFile/Disk says what the file system and the codec promise to a
--                    store at an ordinary path, and what one persist does, Store/JsonFile/Runs are
--                    sequences of calls over any store, and Store/JsonFile/Durable is about the file after
--                    them.
--   Schema           src/mcp/schema.rs.
--   Runtime          src/mcp/server.rs. Runtime/Observe, Runtime/Decide (decide, explain, record_outcome),
--                    Runtime/Replay and Runtime/Recover (try_with_store) are the methods of
--                    GovernanceRuntime, over any EventStore; Runtime/Server is with_runtime, where a panic
--                    poisons the mutex, and the five tools as a data type of requests. `call_all` is a
--                    sequence of calls in the order in which the mutex admits them.
--                    Runtime/Log describes the domains by the stored events; Runtime/Audit is about the
--                    growth of the store, Runtime/Verdict about the answers of `decide`,
--                    Runtime/Readable about the stored events on which a replay panics.
--   Gateway          src/gateway/service.rs: record_outcome and, in Gateway/Gate, authorize and call_tool. The
--                    calls made of the upstream servers are a trace, and what they answer is a function of the
--                    trace. Gateway/Calls is about the calls. Gateway/Start is src/gateway/config.rs and the
--                    gateway's start, over processes and clients as parameters; Gateway/Owners is about the
--                    owners of the tools that it finds.
--   Enforcement      src/enforcement.rs, the gate; Enforcement/Gate is about what it allows.
--   Remote           src/mcp/remote.rs: authorize_request with its two checks, over any store, and call_tool. The arguments
--                    of a call are an association list. Remote/Binding is about what is let through.
--   Annotated        src/mcp/annotated.rs, over any inner server. Annotated/Hints is about the annotations of
--                    the tools, Annotated/Answers and Annotated/Pipeline about the gate as a remote client
--                    reaches it, through Remote and Annotated.
--   Http             src/bin/r2r-mcp-remote.rs. A text is compared by the bytes of its UTF-8; the rate window
--                    is in a mutex that may be poisoned; the middleware stands before any service, given as a
--                    function on that service's state. Http/Start is main up to the listening socket. The proofs
--                    are in Http/Equality (the token), Http/Limit, Http/Recovers (the window), Http/Forward,
--                    Http/Reach (sequences of requests) and Http/Environment (a start).
--   Command          src/bin/r2r-enforce.rs: the loop over the arguments and main, whose result is what is
--                    printed and the exit code. An argument that is no Unicode is one at which
--                    std::env::args panics. Command/Arguments is about the arguments, Command/Exits about the
--                    exit code 0, Command/Reports about the codes of a refusal and of a crash.
--   Compare          src/bin/admission-compare.rs: Compare has the rows and the counters, Compare/Baseline and
--                    Compare/Admitting the two arms, Compare/Rows the reader of traces, the report and main.
--                    The counters are u32 and wrap (`bump`). Compare/Accounts, Compare/Sums, Compare/Holds and
--                    Compare/Balance hold the proofs.
--   Scenario         src/bin/compare.rs; Scenario/Dominates is about its two arms.
--   Judge            src/jev.rs, the client of a live judge; Judge/Sending is about the requests that it sends.
--   Demo             src/main.rs: Demo has the fixtures and the flags, Demo/Lines what is printed, Demo/Play
--                    the three acts, Demo/Run both modes and main. Demo/Playing is about the acts,
--                    Demo/Sending about the requests of a run.
--   Showcase         src/bin/admission.rs, the printer of seven cases of admission.
--   Examples         concrete runs.
--
-- How they interact: `observe` of Runtime builds a context from the domain's virtual tick, calls the
-- kernel, which calls `admit` for each score, and stores the event with its input; `decide` answers from
-- the domain's cached decision; `replay` and `try_with_store` run the stored inputs through the kernel
-- again; the gate reads a stored decision and the current state version of its domain.
--
-- Numbers: scores are u32 parts per million and need no arithmetic; the counters and virtual ticks are
-- 64-bit and wrap (`inc64`). Theorems about sequences of calls bound the number of calls below 2 ^ 64, a
-- bound that no run reaches. All recursion is on lists.
--
-- A map that the code fills with `entry(..).or_insert_with(..)` is read with a default instead, so that an
-- absent domain counts as a new one.
--
-- Not modelled: serialisation and the text of JSON; the f64 conversion in src/model.rs, which is a
-- parameter of Judge; the job objects of the gateway's processes (src/gateway/job.rs), which are
-- calls of the operating system; the test server src/bin/mock-upstream.rs; and the start-up of
-- src/bin/r2r-mcp.rs and src/bin/r2r-gateway.rs. HTTP clients, processes, and socket addresses are
-- parameters of Judge, Gateway/Start and Http/Start.
pub mod Admission
pub mod Enforcement
mod Examples
pub mod Gateway
pub mod Governance
pub mod Model
mod Prelude
pub mod Remote
pub mod Runtime
pub mod Schema
pub mod Store
pub mod Http
pub mod Command
pub mod Annotated
pub mod Compare
pub mod Scenario
pub mod Judge
pub mod Demo
pub mod Showcase
