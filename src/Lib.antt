-- ===== src/Lib.antt =====
-- Verification of the Oriion backend (backend/src): the parts that decide money, sessions, which
-- model provider answers, and how a task is run.
--
-- Prelude holds what the rest shares: Boolean tests on the native numbers, lists and tables
-- (Prelude.Rows: counts and searches under INSERT and UPDATE), Result for code that raises, and
-- signed amounts (Prelude.Int).
--
-- Gateway: backend/src/llm_gateway.
--   Gateway.Circuit is circuit_breaker.py: ProviderCircuit, should_attempt, try_half_open,
--   record_success and record_failure; times are microseconds and the clock is an argument.
--   Gateway.Router is services/router_service.py: route, acomplete and would_use_native_tools over
--   one dictionary of circuits, and Gateway.Router.Models its tables. The record World stands for
--   what is outside: which providers are registered, what each answers, and the clock. The loop of
--   acomplete is recursion on the chain; one turn of it is visit, and resume is what follows a turn.
--   Gateway.Router.Fallback has failover_chain.
--
-- Iam: backend/src/iam.
--   Iam.Tokens is repositories/session_repository.py and refresh_token_repository.py, tables as lists
--   of rows. Iam.Auth is the token part of services/auth_service.py, and in_request is get_db of
--   _shared/db/session.py: commit where the handler returns, roll back where it raises. SHA-256 is
--   the parameter hash, and Draw holds the clock, ids and random values of a call. Iam.Auth.Chains runs
--   requests one after the other: rotate_refresh takes no lock, and refreshes that overlap, of which
--   two may exchange one token, are not modelled.
--   Iam.Accounts is the tables of users, TOTP credentials, backup codes and mailed tokens, with
--   user_repository.py, totp_repository.py, magic_link_repository.py, password_reset_repository.py and
--   email_verification_repository.py. Iam.SecondFactor is services/totp_service.py, and login and
--   login_totp of auth_service.py; Iam.MagicLink is magic_link_service.py, Iam.Recovery
--   account_recovery_service.py. What pyotp, the KMS, Argon2, SHA-256 and the JWT library answer is the
--   record Crypto, with the lower case by which CITEXT compares. That a key is unique is a hypothesis
--   where a theorem relies on it.
--
-- Billing: backend/src/billing, with the price table and the cost writer of llm_gateway/services.
--   Billing.Ledger is balance_service.py, Billing.Subscriptions subscription_service.py and the
--   repositories, Billing.Quota quota_service.py, Billing.Pricing pricing_service.py, Billing.Cost
--   billing_service.py of llm_gateway. Amounts are ten-thousandths, signed; prices and the exchange
--   rate are natural numbers of their last decimal place. Billing.Books runs any sequence of the
--   operations that write, each committed before the next begins; the services take no lock and write
--   in the transaction of their caller, and charges that overlap, whose ledger rows miss each other in
--   balance_after_credits, are not modelled. It shares the ledger between plans, grants and charges, as
--   the tables are shared in the program.
--
-- Tasks: backend/src/tasks and backend/src/runtime/queue/outbox_relay.py.
--   Tasks.Tree is tasks/models.py and the search of services/repository.py, Tasks.Service is
--   services/task_service.py (create_task, cancel_task) with the outbox rows it writes, and
--   Tasks.Relay is relay_outbox_batch; whether a publish succeeds is a parameter.
--
-- Security: backend/src/security and backend/src/runtime/tool_gating.py.
--   Security.Tools is classify_tool and requires_approval of capability.py, evaluate_tools and
--   gate_agent_tools of tool_gating.py; the audit sink is a parameter that says which writes raise.
--   Security.Injection is scan and _neutralize of detectors/injection.py, on texts as lists of
--   characters; the matches of its regular expressions are an argument.
--
-- Artifacts: backend/src/artifacts: create and soft_delete of services/artifacts.py, allocate_version of
--   services/versioning.py with its three attempts, and the repositories that they call, over the four
--   tables. What writers without the envelope's lock commit between the statements of an allocation is
--   the argument racers; the calls of the service itself are serialized by the lock (serve_all).
--   Artifacts.Uploads is services/s3.py and repositories/s3_repository.py: a completion is two steps,
--   the reading and what follows from the UPDATE that marks the row, and steps of other requests stand
--   between them; what the object storage answers is the argument ObjectStoragePort.
--   Artifacts.Yjs is services/yjs.py and repositories/yjs_repository.py: the head of a document, its log
--   and its snapshots, over the argument Pycrdt; the thresholds of the compaction are arguments.
--
-- Memory: backend/src/memory: the append and recent of services/conversation_service.py and the
--   repository of the log, whose rows stand in the order of their identity column. append_all is a
--   caller that stops at the first call that raises; no code of the repository calls append yet, so
--   whose transaction it is in, and what becomes of what such a call has flushed, is not modelled.
--
-- Runtime: backend/src/runtime.
--   Runtime.Orchestrator is orchestrator.py: the run state, the runner that every delegation goes
--   through and the billing of the master's calls; Runtime.Orchestrator.Execute is
--   execute_agent_task with its exits, and Runtime.Budget is budget_guard.py. The agent is an
--   interaction tree (Agent), which may ask for anything its deps offer and catch what they raise.
--   The record World holds what the leaves, hooks and status reads answer or raise. Costs are millionths
--   of a credit. Publishing is taken not to raise, and a worker that is killed is not modelled there.
--   Runtime.Plan is _ordered_steps of dispatch.py on the steps of agents/coordinator.py, and
--   Runtime.Coordinator its PlanExecutingCoordinator with the guards of agents/tools/delegate.py, as an
--   Agent; the model's plan and the normalisation of an artifact's text are arguments.
--   Runtime.Events is sse_events.py, Runtime.Publisher is sse_publisher.py and the subscription of
--   redis_sse_publisher.py, and Runtime.Stream joins a run to its subscribers.
--   Runtime.Dispatch is run_task of backend/src/tasks/routers/tasks.py and run_task_dispatch of
--   queue/actor.py, on what is committed of one task; deliveries come one after the other
--   (dispatch_calls) or overlap (the relation Step).
--
-- Integers are unbounded, as Python's are; the columns' NUMERIC limits are not modelled. The search
-- for descendants runs on fuel, one round for each row and one more, which is enough because each
-- round but the last visits a row that was not visited before; the walk of depth_from_root has the
-- bound of ten steps that the source has, and allocate_version its three attempts. The search through a
-- plan runs on fuel, one more than the plan has steps, which is enough because each turn but the last
-- enters a step number that was not visited (cut_off says where it ran out); Python's recursion limit
-- is not modelled. A run of a task is recursion on the agent's tree, which is finite. Every other loop
-- runs over a list that is there before it starts.
--
-- Not modelled: provider HTTP clients, password and key cryptography, metrics but for the outcomes and
-- the gauge of a run, events but for those of runs, cancellations and artifacts, logging, the expiry of
-- Redis streams, row-level security, and the HTTP routes but for run_task, which are calls of libraries
-- or leave the state above alone; registration, the check of a filename, the resolver of artifacts,
-- similarity search, cells and roles and MCP connectors, which are separate state; and of
-- runtime/dispatch.py the master agent, the leaf runner with its step rows, and the assembly of prompts
-- and tool clients.
pub mod Artifacts
pub mod Billing
pub mod Gateway
pub mod Iam
pub mod Memory
pub mod Prelude
pub mod Runtime
pub mod Security
pub mod Tasks
