-- ===== src/Lib.antt =====
-- A model of MachineManager, the local manager that supervises worker processes and runs durable
-- work, with the theorems that its components keep their contracts.
--
-- The program. `MachineManager` (manager/machine_manager.py) holds jobs, each with a
-- `WorkerSupervisor` (manager/supervisor.py) that starts, observes, restarts and ends one worker
-- process and keeps a log of events. Durable work lives in the SQLite database of `StateStore`
-- (manager/state_store.py): `WorkScheduler` (manager/scheduler.py) is its queue,
-- `RecurringTaskSeeder` (manager/recurring.py) enqueues templates when they are due, and the
-- dispatchers (manager/dispatcher.py) claim due tasks, call their handlers, and finish, retry or
-- escalate them, recording an event for each step. `OutreachRegistry` (manager/autonomy.py) keeps
-- contacts and opt-outs in the same store. `CapabilityRegistry` (manager/capabilities.py) lists
-- what is switched on. `WorkstreamRegistry` (manager/workstreams.py) shows what the sources of
-- configured streams report, `EvidenceCoordinator` (manager/evidence.py) schedules audits of project
-- trees and keeps worker profiles, both in tables of the store. manager/run.py starts all of them and
-- runs their cycles.
--
-- The files.
--   Base: numbers, texts, lists, association lists, stable sorting, JSON values with the builtins
--     of Python that read them, simple patterns, results, and the monad of methods that change
--     state and may raise.
--   Store, Store/Tasks, Store/Events: the tables as lists of rows; an SQL statement is an
--     operation on the list, and a method of the store is one step, since each runs in one
--     transaction under one lock. Store/Tasks has the queue (`enqueue_task`, `claim_due_tasks`,
--     `start_task`, `requeue_running_tasks`, `finish_task`), Store/Events the journal
--     (`append_event`), Store/Snapshots the tables of JSON payloads. Store/Tasks/Rules says
--     without the statements which task waits for a claim, which of two comes first and what
--     becomes of a row, View describes the queue by the ids of its tasks and by what each call
--     does to it, and Refinement compares the two; Store/Tasks/Activity has the rows that
--     `task_activity` shows.
--   Runtime: the clocks, fresh ids and `redact_text`, as functions of the number of the call.
--   Scheduler: the methods of `WorkScheduler` over the store.
--   Dispatcher: what both dispatchers share; Outcomes has `_apply_outcome` and `_apply_error`,
--     Sync the pass of `WorkDispatcher`, Background that of `BackgroundWorkDispatcher`.
--     Background/Holding is about the tasks that it has in flight. Fate is an independent
--     description of what a reply of a handler does to a task, and Settling shows that the code
--     does that; Passes and Budget rest on it.
--   Supervisor: Process, Starting and Control have the methods of `WorkerSupervisor`. Log
--     describes the transitions that they can make; Quiet, Begun and Accounting show that each
--     method extends a log by such, Runs that any sequence of calls does, Rules compares them
--     with docs/LOCAL_MANAGER.md, Decisions where `observe` and `recover` lead, and Escalating
--     what becomes of a worker that stays dead.
--   Workstreams (manager/workstreams.py): the texts of a stream and its configuration; Sources
--     has `_resolve`, Registry `sync` and `public_snapshot`; Safety, Records and Syncing rest on
--     them.
--   Evidence (manager/evidence.py): the rules, Audit one run of `ConstraintAuditor`; Profiles has
--     the worker profiles, Reviews the review plan, Coordinator the `tick` of
--     `EvidenceCoordinator`. Windows and Sweeps are about successive runs, Pending and Ticks
--     about the audits in flight.
--   Run (manager/run.py): the environment file, the merge of public events, the operator's
--     acknowledgement, and the recovery and the queue cycles of `main`, over the store and the
--     dispatcher. Launch has the configured jobs and `manager_from_config`.
--   Recurring, whose stored cursors may be any JSON object, Outreach, Manager, Capabilities: the
--     other classes, with their theorems below them.
--   Examples: concrete inputs for the theorems.
--
-- How the model reads the code. Times are natural numbers, of milliseconds or of the clock's unit;
-- texts are lists of code points, and `strip`, `lower` and `upper` act on ASCII. A dictionary is an
-- association list in the order of insertion. An exception is a value beside the state that the
-- method leaves behind. What the operating system answers (processes, signals, files, probes) is a
-- parameter `Os` whose functions take the number of the call, so that a theorem for all of them
-- holds for any behaviour of the machine. A handler, a future and the SHA-256 digest are parameters
-- too. So are, in Evidence, the candidate files, the patterns of the rules and `casefold`, and in
-- Workstreams and Run `json.dumps`, `repr` and the conversions `int` and `float`. No loop needs fuel
-- but the printing of a number in digits, where the number itself is enough (Recurring/Ids), and `sweep`, which iterates
-- runs at most as often as there are files (Evidence/Sweeps).
--
-- Not modelled: faults of SQLite, the network, the parsing of JSON and of the configuration of
-- templates and audit targets, the regular expressions of redaction and of the constraint rules, the
-- listing of directories, telemetry and uploads, the specialist agents and the workers behind the
-- handlers, and threads other than the futures that a background pass or a tick finds finished or not.
pub mod Base
pub mod Store
pub mod Runtime
pub mod Scheduler
pub mod Dispatcher
pub mod Supervisor
pub mod Recurring
pub mod Outreach
pub mod Manager
pub mod Capabilities
pub mod Examples
pub mod Workstreams
pub mod Evidence
pub mod Run
