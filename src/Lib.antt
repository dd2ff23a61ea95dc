-- ===== src/Lib.antt =====
-- OctoForge: the stores, the schedulers and the decisions of the assistant's core, under
-- core/src/octoforge_core.
--
-- A user's message belongs to an exchange of a dialog; a run of the agent is a task; a cron job wakes
-- the agent at its due time. All of these are rows of one database that several processes share. The
-- messages of a dialog are one log: a run reads its hot slice, the messages past the boundary of its
-- summaries; a compaction replaces the oldest of them by a summary, and old rows age out. The
-- router decides which exchange a message belongs to, and a decorator repeats the failed calls of the
-- language model. Surface accounts belong to people, of whom so many may talk as the operator allows.
--
-- Files, by the part that they model:
--   Tasks/Api, Tasks/Memory, Tasks/Sql: tasks/api.py and the two classes of tasks/store.py.
--     Tasks/Rules, Tasks/Agreement, Tasks/Refinement and Tasks/Recovery compare the two.
--   Cron/Api, Cron/Schedule, Cron/Create: cron/api.py (`compute_next_fire`, `count_missed`,
--     `create_job`); Cron/Missed and Cron/Quota are about them.
--   Cron/Store: `SqlAlchemyCronStore` of cron/store.py; Cron/Lease, Cron/Exclusive and Cron/Due are
--     about its lease and its listing.
--   Cron/Scheduler: `tick` and `_fire` of cron/scheduler.py; Cron/Firing is about them.
--   Cron/Reporter: `CronOutcomeReporter` of cron/reporter.py.
--   Dialogs/Claims: `SqlAlchemyClaimRepository` of dialogs/store.py, by which processes share out the
--     dialogs; Dialogs/Fencing and Dialogs/Preemption are about it.
--   Dialogs/Exchanges: `SqlAlchemyExchangeRepository` of dialogs/store.py; Dialogs/Ownership,
--     Dialogs/Settled and Dialogs/Stranded are about it.
--   Domain: the messages of domain.py.
--   Dialogs/Messages, Dialogs/Log: `SqlAlchemyMessageRepository` of dialogs/store.py, its columns and
--     its statements; Dialogs/Columns, Dialogs/Appending, Dialogs/Races and Dialogs/Unique are about it.
--   Dialogs/Registry: `SqlAlchemyDialogRepository` of dialogs/store.py; Dialogs/Lookup is about it.
--   Context/Store: `SqlAlchemySummaryStore` of context/store.py; Context/Segment, Context/Compactor:
--     `select_compact_segment` and `LlmContextCompactor` of context/compactor.py. Context/Cuts,
--     Context/Sizes, Context/Reading, Context/Boundary, Context/Compaction and Context/Assembly are about
--     them.
--   Retention/Sweep: retention.py and retention_sweep.py; Retention/Kept is about it. Retention/Seqs and
--     Retention/Visible are about a log under appends, compactions and sweeps together.
--   Llm/Errors, Llm/Retry: llm/errors.py and llm/retry.py; Llm/Attempts and Llm/Streams are about them.
--   Agent/Router: `LLMRouter.route` and `_parse_decision` of agent/router.py; Agent/Routing is about it.
--   Agent/Events, Agent/Loop: `AgentLoop` and `_ToolRunTracker` of agent/loop.py with the events of
--     agent/events.py and llm/events.py; Agent/Transcript, Agent/Replies and
--     Agent/Answering are about a run.
--   Tariffs/Catalog, Tariffs/Limits: `SqlAlchemyTariffStore` of tariffs/store.py and `LimitService` of
--     tariffs/service.py; Tariffs/Plans, Tariffs/Cached and Tariffs/Budgets are about them.
--   Datasets/Schema: datasets/validation.py; Datasets/Typing and Datasets/Validation are about it.
--   Agent/Branch: agent/branch.py; Agent/Branch/Shown, Agent/Branch/Positions and Agent/Branch/Task are
--     about it.
--   Agent/Fanout: how agent/runner.py hands events to its subscribers; Agent/Fanout/Offers and
--     Agent/Fanout/Broadcasts are about it.
--   Agent/Preview, Agent/Material: the digest of forwarded material, and where agent/runner.py puts
--     forwards and messages; Agent/Material/Placement, Agent/Material/Rows, Agent/Material/Rehoming,
--     Agent/Material/Promotion and Agent/Material/Digest are about it.
--   Identity/Rows, Identity/Store, Identity/Manage, Identity/Admission: identity/models.py,
--     identity/store.py and identity/service.py; Identity/Accounts, Identity/Moves, Identity/Belongs,
--     Identity/Owners, Identity/Steps, Identity/Contacts, Identity/Revoked, Identity/Slots and
--     Identity/Cap are about them.
--   Net/Responses: `ResponseMemory` of net/response_memory.py; Net/Removals, Net/Rounds, Net/Eviction,
--     Net/Budget, Net/Oldest and Net/Reads are about it.
--   Base: the statements of the database over lists of rows, and their laws; Json: JSON values.
--   */Samples, */*Samples: the properties at concrete inputs.
--
-- A table is the list of its rows, a transaction a function on tables, and what several processes do
-- to a table is a list of statements in the order of their transactions. A field of a row keeps the
-- name of its column. A method that raises answers `none`, or a case of its reply that names the
-- exception. A datetime is a number of microseconds since the least one, and `utc_now()` is an
-- argument; so are the ids that `uuid4().hex` makes. Texts are compared by their code points.
--
-- Code outside of the repository is a parameter: zoneinfo and croniter are the `Calendar` of
-- Cron/Schedule, with the law that a next slot is later; the wake of an agent is any function on the
-- tables; `random.uniform` is any function, and where a bound is stated it is assumed to keep to its
-- interval; the outcome of each attempt of a call, the reply of
-- the model, and what the stream, the tools and the user do around a run of the loop are arbitrary.
--
-- Fuel: the retry loops run on `max_retries + 1` rounds, since the number of an attempt
-- stops at `max_retries`; `count_missed` has `cap + 1` rounds, after which the code leaves
-- its loop too; the loop that evicts documents runs once for each document of the owner, and the
-- loop that closes a stream finds room in its second round; the decimal digits of a missed count,
-- which is at most 100, are three.
--
-- Not modelled: the actor of a dialog but for its queues, its routing and its forwards; most of the
-- operators' listings; the parse of a summary; the search and memory stores; the network but for its
-- memory of responses; media and secrets; the server and its surfaces. The ordering of rows with
-- equal sort keys is not specified by the database; the model keeps the
-- table's order among them.
pub mod Base
pub mod Json
pub mod Domain
pub mod Tasks
pub mod Cron
pub mod Dialogs
pub mod Context
pub mod Retention
pub mod Datasets
pub mod Llm
pub mod Agent
pub mod Tariffs
pub mod Identity
pub mod Net
