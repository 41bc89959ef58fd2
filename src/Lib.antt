-- ===== src/Lib.antt =====
-- The run lifecycle of the literature research agent (backend/src/literature_agent): how a run is
-- created, claimed by a worker, retried, recovered after a crash, paused, resumed and cancelled;
-- the lease under which an agent's turn is executed, and the service that keeps it in the database; how
-- a document is cut into chunks and the chunks found for a question are ranked; the budget of
-- an agent's turn; and the check of an answer's citations.
--
-- Every change of a run is made by a service in one database transaction: the domain check
-- `transition_to`, a conditional update of the row that counts the rows it met, and an event with the
-- row's old sequence number. The services share no other state than the tables, so their model is
-- a record of four tables and actions over it. The services of the lease and of the budget read the
-- runs and write tables of their own; the budget also writes events of its run. The lease, the chunks,
-- the ranking and the citation check are pure functions on values of their own.
--
-- Files, and the code that they model, by paths below backend/src/literature_agent:
-- - Base: lists, options and tables (SELECT, UPDATE with its row count, primary keys), JSON values.
-- - Run, Run/Status: domain/run.py. Run/Errors: domain/exceptions.py. Run/Machine: what the state
--   machine allows over lists of requests.
-- - Event, Attempt: domain/event.py, domain/run_attempt.py.
-- - Outbox: domain/queue_outbox.py. Outbox/Backoff: its waiting times and its failures.
-- - Retry: domain/retry_policy.py and the delay of application/failure_policy.py. Retry/Delay: bounds.
-- - Runtime: domain/runtime_execution.py, the lease of an agent's execution, which the worker's attempts
--   hold in turn. Runtime/Texts: its texts. Runtime/Steps: histories of operations. Runtime/Fencing:
--   the fencing token. Runtime/Create: `create_runtime_execution` and `require_compatible`.
-- - Citation: domain/citation_validator.py, with what it reads of domain/evidence.py and
--   domain/answer_schema.py. Citation/Specification: which answers pass.
-- - Retrieval: domain/retrieval.py. Retrieval/Arithmetic: the numbers that it computes with.
--   Retrieval/Ranking: what ranks, scores and their order should be. Retrieval/Sorting, Fusion: the
--   order and the content of `rrf_merge`. Retrieval/PerPaper, Budget: the two cuts.
-- - Chunking: what domain/chunk_builder.py reads of domain/document_element.py, domain/chunk_profile.py
--   and domain/tokenization.py. Chunking/Units: `_build_units`. Chunking/Builder: the loop of
--   `build_chunks`, with its variables as a record. Both take a counter that raises nothing;
--   Chunking/Counting has them, and `build_chunks`, with one that may raise, and Chunking/Follows
--   compares the two. Chunking/Content: what the units have. Chunking/Shape: which
--   lists of chunks a stream may have. Chunking/Boundaries, Complete: the loop yields one of them.
-- - Control: infrastructure/persistence/runtime_execution_repository.py. Control/Service:
--   application/runtime_execution_control.py. Control/Rows: what an update changes. Control/Evolution,
--   Claims, Refinement: every write is an operation of the lease. Control/Ownership: who may write.
-- - Usage: domain/agent_usage.py, the budget of a turn. Usage/ToolCall: `AgentToolCall`. Usage/Tables:
--   infrastructure/persistence/agent_usage_repository.py and the rows that bind a turn to its policy.
--   Usage/Service, Tools: application/agent_usage_service.py. Usage/Rows: reasoning about its
--   transactions. Usage/Budget, ModelBudget, ToolBudget, Calls: the counts and the limits.
--   Usage/Effects, Once: a tool call that has been started. Usage/Kept,
--   Log, Deadline: the events of the budget, and the clock of a turn.
-- - Db: infrastructure/persistence/{run,event,attempt,outbox}_repository.py and the keys of models.py.
--   Db/Defs has the actions and `transaction`; Db/Hoare and Db/Returns reason about them.
-- - Lifecycle/Service, Failure, Execution, Reconcile, Orphans, Dispatch, Resume, Unknown, Finish: in
--   application/, run_service.py, failure_policy.py, run_execution_service.py,
--   run_reconcile_service.py, outbox_dispatch_service.py, waiting_run_resume_service.py and
--   run_dispatcher.py, and the last transaction of rag_answer_executor.py. Lifecycle/Advance is the
--   step that they share. A method keeps its name without the underscore, and its branches are small definitions beside it; `RunService.create_run` is
--   `submit_run`, and `RunDispatcher.execute` is `dispatch_run`.
-- - History: the log of a run, its replay, and its agreement with the row. Invariant: each operation
--   keeps that agreement. Progress: the operations return, with the database that they
--   leave; Progress/Stale: from rows that have moved on.
-- - System: lists of calls of the services. Tests: the theorems applied to small databases.
--
-- Conventions. Identifiers are numbers, and times are numbers of microseconds. An identifier that
-- `uuid4` draws and a time that `datetime.now` reads are arguments (`Stamp`). A transaction is one step
-- that either commits or leaves the database as it was; `FOR UPDATE` reads as a plain query. Where a
-- service reads without a lock and writes later, the row that was read is an argument of its own
-- (`claim_row`, `prepare_row`), so that theorems can speak of a row that has changed since. A key that
-- is taken is refused when the row is added. The texts of the lease are lists of code points, since
-- their lengths and characters are tested. Executors and the queue are parameters. The loops are
-- structural, so no fuel is needed. A wait is computed up to 1024 attempts, the largest power of two
-- that the source can multiply by a float.
--
-- Not modelled: logging, metrics, notifications and the terminal callback, which are best effort and
-- do not touch these tables; the executors, but for the last transaction of the answering one, and
-- every component behind them (parsing, indexing, review, agent runtime), the HTTP interface and the worker's set-up.
pub mod Base
pub mod Run
pub mod Event
pub mod Attempt
pub mod Outbox
pub mod Retry
pub mod Runtime
pub mod Citation
pub mod Retrieval
pub mod Chunking
pub mod Db
pub mod Lifecycle
pub mod History
pub mod Invariant
pub mod Progress
pub mod System
pub mod Control
pub mod Usage
pub mod Tests
