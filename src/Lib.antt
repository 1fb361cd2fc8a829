-- ===== src/Lib.antt =====
-- creance (agent-os): the runtime that governs what agents spend and reach.
--
-- A request for a run comes in at the front door (services/agent-runtime/router.ts), which
-- authenticates the caller, asks the policy, finds the agent, asks the gate, stores the run and
-- hands it to a dispatcher. The run's executor drives the agent loop (packages/core/src/loop.ts): it
-- screens the task, asks the model for turns, runs the tools that a turn calls and screens what they
-- answer. Each model call goes through the admission decorator
-- (packages/core/src/adapters/admission-inference.ts), which reserves the call's worst case at the
-- gate (packages/core/src/adapters/local-gate.ts) and settles it to the actual cost. A Claude Code
-- run reaches git only through the egress sidecar (services/claude-code-runner/sidecar.ts), and is
-- stopped by the loop detector. A namespace's claims on a budget are judged by the claims controller.
--
-- Files:
--   Prelude    shared names, tests, lists, integers over the native numbers, texts, maps (Dict) and
--              asynchronous calls that return or throw (Outcome)
--   Ports      packages/core/src/ports.ts: the neutral types; Ports/Json the values that tools take
--              and JSON.stringify, Ports/Fields their fields
--   Gate       packages/core/src/gate.ts: the statuses and the port SpendStore, a record of operations
--              and of the laws that its comments promise; Gate/Caps the numbers a cap may be,
--              Gate/Memory InMemorySpendStore, Gate/Price priceTokensUsd and estimateCostUsd
--   Gate/Local LocalGate: limitFor, runPeriod, sessionKey, sessionOn, reserveRun, refundRun, checkQuota,
--              checkBudget, recordSpend, reserve, settle, over any SpendStore; its parts Keys, Laws,
--              Limits and Quota hold the proofs
--   Admission  AdmissionInferenceProvider.generate and estimateInputTokens, over any SpendStore
--   Loop       runOnSession, over a world that the model, the guard, the tools and the progress
--              callback act on; Loop/Conversation, Trace, Turns and Cost hold the proofs
--   Runs       packages/core/src/runs.ts: a run and InMemoryRunStore; AgentSpec of
--              packages/core/src/agents.ts
--   FrontDoor  makeAuthorizeAndCreate, over the authenticator, the authorizer, the registry and the
--              dispatcher of a world, the gate and the run store; FrontDoor/Texts the texts of its
--              refusals, Laws and World the proofs
--   Executor   processRun of services/agent-runtime/process-run.ts, over services that act on a world and the
--              in-memory run store; Executor/Texts its texts, Executor/Presence and Outcomes the proofs
--   LoopDetector  services/claude-code-runner/loop-detector.ts; LoopDetector/Streaks the proof
--   Claims     evaluate of services/claims-controller/evaluate.ts; localeCompare is a parameter;
--              Claims/Order the order of creation, Claims/Laws the proof
--   Agents     packages/core/src/agents.ts: the registry as an interface and InMemoryAgentRegistry;
--              Agents/Spec validateAgentSpec of services/agent-runtime/app.ts, Agents/RoundTrip its proofs
--   App        the handler of createApp (services/agent-runtime/app.ts): App/Http its requests and
--              withCors (packages/core/src/http.ts), Reads and Writes its routes, Handler their choice;
--              Routes, Answers, Identity and Isolation hold the proofs
--   A2a        services/agent-runtime/a2a.ts: runToTask and the card; A2a/Handler handleA2A; Laws and
--              Polling the proofs
--   Dispatch   services/agent-runtime/dispatch.ts: the dispatchers; Dispatch/Env their configurations,
--              Dispatch/Table dispatchFromEnv; Launches, Entries and Modes the proofs
--   Gateway    handleMessages of services/inference-gateway/messages.ts; Gateway/Body toBedrockBody and the
--              estimate, Gateway/Claims handleCreateClaim (services/inference-gateway/claims.ts) and
--              validateClaim (packages/core/src/claims.ts), Gateway/Generate handleGenerate (generate.ts);
--              Laws, Allowed, Grants and Turns the proofs
--   Authn      CompositeAuthenticator and StaticTokenAuthenticator (Authn/Tokens), and OpaAuthorizer
--              (Authn/Opa), of packages/core/src/adapters; Authn/First and Authn/Tokens/Listed the proofs
--   Sidecar    parseReceivePackCommands, denyReceivePack, repoFromPath, isAllowedAnthropicPath and the git
--              leg of fetch; Sidecar/Bytes the operations on bytes, Policy and Reading the proofs
--
-- Numbers: an amount is an exact integer of 1e-8 USD, which every price of a token is a multiple of;
-- the rounding of floating point is left out. A cap is finite, infinite or NaN (Amount). Token counts
-- are natural numbers. A fractional JSON number is carried with its printed text and the integer below
-- it, which is what a fractional max_tokens counts as. Number(v) of a claim's amounts is a parameter.
--
-- Calls and state: an awaited call takes the state and returns the state after it, so the effects of
-- others during a call are part of that call's function. The calls of a spend store do not throw. A
-- tool's thrown value is its message. Spans and log lines are left out: a span passes on what it wraps.
-- The message list is passed by value, as of the call.
--
-- Fuel: the loop recurses on the rounds that are left, which is the source's own bound. The reading of
-- a push has one round more than the body has bytes, and never runs out of them.
--
-- The sidecar's paths and bodies are lists of codes; a line is read byte by byte, which is its text
-- where it is ASCII, and gzip is a parameter that always answers.
--
-- The gate reads the clock at a reservation and again at its settlement, so a call has two times, `now`
-- and `later`; they may be in different months.
--
-- The gateway: a stream is the list of its events and its fault, what others do until it has ended, and
-- whether closing the response throws; its bytes are left out. A call's outside effects take the tallies
-- too, and a theorem on a tally says what it needs of them (KeepsTally).
--
-- Not modelled: the adapters to model providers, sandboxes, databases and identity providers, the
-- configuration, the servers' wiring, the console, the client and the deployment, which are glue to
-- outside systems; the web and agent tools
-- and the controllers' calls of the cluster.
pub mod Prelude
pub mod Ports
pub mod Gate
pub mod Admission
pub mod Loop
pub mod Runs
pub mod FrontDoor
pub mod Sidecar
pub mod Executor
pub mod LoopDetector
pub mod Claims
pub mod Agents
pub mod App
pub mod A2a
pub mod Dispatch
pub mod Gateway
pub mod Authn
