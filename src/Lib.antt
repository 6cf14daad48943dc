-- ===== src/Lib.antt =====
-- OpenHands Symphony: a service that takes GitHub issues in as jobs, keeps them in SQLite, and lets
-- agents work on them under leases.
--
-- The parts, by the repository's paths:
-- - Models (src/symphony/models.py): job states, issue snapshots, rows.
-- - Intake (src/symphony/intake.py): `route` decides by labels which provider works on an issue and
--   which one reviews it; `short_slug` and `branch_name` name the branch; Intake/Control has the operators'
--   commands and the names of repositories.
-- - Config (src/symphony/config.py): the settings that the coordinator reads, and `concurrency_key`.
-- - Store (src/symphony/store.py): the tables of the database and one function per method of `Store`.
--   Store/Schema has the tables, Store/Jobs the rows of jobs, Store/Transition the state machine,
--   Store/Control the operator's commands, Store/Claim the queue (`claim_next`), Store/Lease renewal and
--   recovery, Store/Log deliveries, events, validation results, backoff and operation locks.
--   Store/Consistent has the invariant of the database with the proof for every method, Store/Reach the
--   databases that any calls lead to, with Store/Reach/Ownership on who holds their leases and
--   Store/Reach/Recorded on deliveries. Each method is one SQLite transaction (BEGIN IMMEDIATE), so calls
--   of several threads and processes are a sequence of steps.
-- - Coordinator (src/symphony/coordinator.py): Coordinator/Exec is the monad of its methods: they change
--   the database and the world, and may raise, and what was done before a raise stays done.
--   Coordinator/Host has what it works with, Coordinator/Runs reviewers, runs and status,
--   Coordinator/Intake `enqueue`, Coordinator/Command `control` and `apply_control_comment`,
--   Coordinator/Recovery `recover_expired_leases`, Coordinator/Result the answer of a provider,
--   Coordinator/Reconcile `reconcile`. Coordinator/Agent has the interfaces of providers and worktrees,
--   Coordinator/Turn leases, slots and validation in a turn, Coordinator/Run `_run_claimed` with the
--   children Implement (turns and corrections), Deliver (push and pull request) and Failure (the except
--   clauses), Coordinator/Review `_review`.
-- - Scheduler (src/symphony/scheduler.py): `tick`, which claims jobs while there is room.
-- - Github (src/symphony/github.py): the client of `gh`. Github/Api has the answers of `gh` and the calls
--   that change something, Github/Reads the reads and guards, Github/Labels, Github/Comments and
--   Github/Pulls the rest. The coordinator takes its GitHub as an interface (`GitHub` of
--   Coordinator/Host) and does not depend on this client.
-- - Webhook (src/symphony/webhook.py): the handler of deliveries, over `enqueue`,
--   `apply_control_comment` and `tick`.
-- - Base: tests, SQL-like operations on lists of rows, unique keys and the sorting of rows.
--
-- How they correspond: a row is a record, a table the list of its rows, `UPDATE ... WHERE` is
-- `update_where`, `DELETE` is `delete_where`, `INSERT` is `insert_row` at the end behind the check of the
-- unique keys. A method takes the time that it would read and returns its value with the new database,
-- or an error, after which the old database is used again. A method of the coordinator is one sequence of
-- such steps: between two of them no other worker changes the database in the model, and the heartbeat,
-- which runs beside, is a function of its own. Times are numbers, whose order is that of the
-- ISO texts. Texts that the code walks over are lists of code points; the digits at the end of an
-- issue URL are the ASCII ones. No definition needs fuel: all loops
-- run over lists, the rounds of `tick` over the number of free places, those of corrections and repairs
-- over what the configuration leaves.
--
-- Parameters: sha256 and JSON (`Hashing`, `EventSearch`), Unicode normal forms (`Unicode`), `str.lower`,
-- the answers of `gh` (`Api`), what the client and the webhook use of Python, HMAC and JSON (`Client`,
-- `Endpoint`), and in the coordinator GitHub, the provider adapters, the worktrees, the clock, random
-- numbers and fresh ids (`Host`).
--
-- Not modelled: SQLite's files, the migration of old schemas and the backup; the process of `gh`, the
-- worktrees, the adapters of the providers, the web server, the threads of the scheduler, the command
-- line, diagnostics and rendered texts.
pub mod Base
pub mod Models
pub mod Intake
pub mod Config
pub mod Store
pub mod Coordinator
pub mod Scheduler
pub mod Github
pub mod Webhook
