-- ===== src/Lib.antt =====
-- Guru-ji, an assistant for institutions: the parts of its API server (apps/api/app) that decide
-- who may do what, and that keep what was decided.
--
-- A read-only question is planned over registered sources (orchestration/plan_validator.py), and its
-- tools run under the decision point (orchestration/tool_executor.py).
-- Grades of the sites of an institution that a pass changes are published only through a gate
-- (internet_intelligence/map/gate.py).
-- A command goes to the master agent (agents/master.py), which plans it, runs the steps of the plan
-- through the tool gateway, and resumes a plan that stopped for a confirmation.
-- A request carries a principal (domain/principals.py) whose capabilities come from roles
-- (auth/roles.py). A model proposes a tool by name; the gateway (gateway/gateway.py) checks the
-- arguments against the tool's closed schema (gateway/spec.py), the capability and the scope
-- (policy/authorization.py) and a policy decision point (policy/pdp.py), asks for a confirmation of a
-- high-risk change (the approvals of institution_data/store.py), runs the handler, strips contact
-- fields (data_access/field_policy.py) and appends an audit event. Long work goes to background jobs
-- (institution_data/store.py, workers/queue.py). The control store (persistence/database.py) keeps
-- logs, counters and the rows of voice sessions (voice/session_manager.py). A stream of answer events
-- has its order checked (domain/streaming.py), and requests are limited in number and
-- size (middleware/rate_limit.py, middleware/request_size.py).
--
-- Files. All paths of code are below apps/api/app.
--   Prelude: tests, lists and equality instances that all files share.
--   Domain: Text (str.strip and lengths), Values (plain Python data), Principals
--     (domain/principals.py, with the meaning of scopes and the snapshots), Streaming
--     (domain/streaming.py, with the phases of a stream), Requests (domain/requests.py).
--   Policy: Authorization (authorization.py, institution_scope.py), Pdp (pdp.py), Cerbos (cerbos.py),
--     Roles (auth/roles.py), Disclosure (data_classification.py).
--   DataAccess: FieldPolicy (field_policy.py).
--   InstitutionData: Table (UPDATE and DELETE with a WHERE, on a list of rows), Approvals and Jobs
--     (the two tables of institution_data/store.py).
--   Gateway: Spec (spec.py), Types (the records of spec.py, registry.py and gateway.py), Invoke
--     (ToolGateway.invoke: Begin up to the awaited handler, Finish after it), Confirm
--     (decide_approval), SingleUse (calls, decisions and handlers interleaved).
--   Agents: Contracts (agents/contracts.py), Bindings (bindings.py), Execute (specialists.py and the
--     execute of master.py, with the relation Runs that it refines), Verification (verification.py),
--     Resume (_resume and _keep_for_resume of master.py), Handle (handle of master.py).
--   Orchestration: Registries (config/source_registry.py, tools/base.py, tools/registry.py), Planner
--     (plan_validator.py), Executor (tool_executor.py, result_aggregator.py), ReadOnly
--     (execution_core.py).
--   Documents: Chunking (documents/chunking.py). Conversation: History (conversation/contracts.py).
--   Connectors: Checks (connectors/common, web_research/domain_allowlist.py).
--   Normalization: Deduplication (the loop of find_duplicates in normalization/deduplication.py).
--   Map: Grades (the grade columns of internet_intelligence/map/store.py), Gate (map/gate.py).
--   Persistence: ControlStore (the rows of InMemoryControlStore in database.py, voice sessions and
--     usage counters), Records (its logs, its outbox and what is pruned).
--   Voice: Sessions (session_manager.py).
--   Workers: Queue (queue.py). Middleware: RateLimit (rate_limit.py), RequestSize
--     (request_size.py).
--   Examples: concrete data and the theorems at them.
--
-- How code is modelled. State is passed explicitly: a table is a list of rows, a call changes a
-- World of approvals, audit events and traces. An exception is a constructor of a result type, or
-- `none` where the code's caller cannot tell more. Ids that uuid4 or token_urlsafe draw, the clock
-- and hashes are arguments, so each theorem holds for every choice of them. Python's numbers and
-- its conversions of texts to numbers are the parameter Numbers. What is used of them, that
-- `int(text)` gives no float and `float(number)` gives one, is IsPython of
-- Gateway.Spec.Arguments.Conforms. A snapshot of a principal keeps the texts of its type and
-- capabilities, and reading it back drops what is unknown. Handlers and validators are parameters:
-- functions to the ways in which the code lets them end. An awaited handler is a break between two
-- steps, so that other calls may run meanwhile. A decision on a confirmation, whose read and write
-- no await separates, is one step, as it is in one process. The audit log of a World is what the
-- gateway appends; how much of it a store keeps is append_audit of Persistence.Records. Loops are
-- structural recursion on the list that they read, but for the while loop of chunk_texts: it runs
-- on fuel, the length of its buffer, and each round shortens the buffer.
--
-- Not modelled: durations, log lines, HTTP framing and the headers of responses; the SQLite and
-- Postgres control stores; cancellation of a task while its handler is awaited; the planners of the
-- agents, the text of their answers, the search for probable people of a batch, ingestion and web
-- research.
pub mod Prelude
pub mod Agents
pub mod Documents
pub mod Connectors
pub mod Conversation
pub mod Map
pub mod Normalization
pub mod Orchestration
pub mod Domain
pub mod Policy
pub mod DataAccess
pub mod InstitutionData
pub mod Gateway
pub mod Persistence
pub mod Voice
pub mod Workers
pub mod Middleware
pub mod Examples
