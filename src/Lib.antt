-- ===== src/Lib.antt =====
-- TaskControl runs operational tasks and records what happened. This library models the core of the
-- Python package src/taskcontrol: what an execution is, how a process's end is classified and
-- retried, how a task becomes runnable, how claims keep two processes apart, the runtime that
-- takes one request from its trigger to a stored outcome, what an activation does where the database is
-- away, how tasks are written into a crontab, how layered configuration resolves, and when a schedule
-- and its conditions let a task run.
--
-- The parts, and the files that model them:
--   Errors        src/taskcontrol/common/errors.py: the codes, the exceptions, and `Result` for calls
--                 that may raise
--   Values        src/taskcontrol/domain/common/values.py: timestamps (microseconds) and durations
--                 (seconds)
--   Execution     src/taskcontrol/domain/execution/vocabulary.py (Vocabulary, Reasons),
--                 src/taskcontrol/domain/execution/results.py (Results, Retries),
--                 src/taskcontrol/domain/execution/execution.py (Attempt, Record).
--                 `Execution.Record.finish` is `Execution.finish`, `Execution.Attempt.finish` is
--                 `ExecutionAttempt.finish`; Invariant, Lifecycle, Transitions, Loading, Namespaces
--                 and Delays are about them
--   Policies      src/taskcontrol/domain/policies/classification.py: `classify_process_result`,
--                 `decide_retry`
--   Claims        src/taskcontrol/domain/claims/claim.py (Claim) and
--                 src/taskcontrol/adapters/persistence/claim_store.py (Store). Schedule is any number
--                 of processes interleaved over one table
--   Tasks         src/taskcontrol/domain/tasks/lifecycle.py (Lifecycle),
--                 src/taskcontrol/domain/tasks/task.py (Task), src/taskcontrol/domain/tasks/revision.py
--                 (Revision, Secrets), whose SHA-256 digest is a parameter
--   Persistence   the execution repository of src/taskcontrol/adapters/persistence/repositories.py
--                 with src/taskcontrol/adapters/persistence/mappers.py: a table is a list of
--                 executions, each with the attempts that name it
--   Runtime       src/taskcontrol/application/runtime/service.py. World has the ports
--                 (src/taskcontrol/ports/lock.py, src/taskcontrol/ports/executor.py) and the state;
--                 Attempts is `_run_attempts`, Service is `run` with `_execute`, its handlers and its
--                 `finally`
--   Activation    src/taskcontrol/application/activation/service.py (Service), what a wrapper does
--                 with the installed revision of src/taskcontrol/domain/deployment/manifest.py;
--                 src/taskcontrol/domain/execution/journal.py and
--                 src/taskcontrol/application/activation/reconciliation.py (Journal): what ran while
--                 the database was away is recorded later
--   Locks         src/taskcontrol/adapters/locking/process_local.py (ProcessLocal) and
--                 src/taskcontrol/adapters/locking/durable.py (Durable), which keeps a claim for each
--                 handle
--   Text          `str.splitlines`, `str.split` and the patterns of `re` that the cron adapter uses, with
--                 their laws
--   Deployment    src/taskcontrol/domain/deployment/strategies.py: where an artefact goes, in which shape
--   Cron          src/taskcontrol/adapters/schedulers/cron/rendering.py: Rendering is
--                 `render_artefact`, Markers the marker lines and their patterns, Regions the crontab
--                 with a region for each task (`find_managed_regions`, `replace_region`,
--                 `remove_region`), Block the crontab with a single block
--   Configuration src/taskcontrol/domain/configuration/profiles.py: Profile has the layers and the checks,
--                 Resolution `resolve_configuration` and the trace
--   Scheduling    Schedules is src/taskcontrol/domain/scheduling/schedules.py less the cron expressions,
--                 Calendars src/taskcontrol/domain/scheduling/calendars.py, Conditions
--                 src/taskcontrol/domain/scheduling/conditions.py; a date is its ordinal, and what
--                 `zoneinfo` does (`LocalTime`) and the quotient of two floats (`FloatQuotient`) are
--                 parameters
--   Tests         concrete inputs
--
-- How they interact: the runtime loads a task and its revision, stores a new execution, asks the
-- overlap lock, runs processes by an executor, classifies each result, asks the retry policy, and
-- stores the execution after each step in a transaction of its own. The lock's durable form stands on
-- the claims. An activation calls the runtime; where the control plane is away it runs the process
-- itself and appends to the journal, whose entries reconciliation makes into stored executions.
--
-- How state is modelled. Frozen objects are records, and a method returns a new one after running the
-- checks of `__post_init__`. The database is a table that a transaction replaces; any transaction may
-- be ended by an exception before its commit or just after it (`Fault`). The clock, new identifiers,
-- the executors and the overlap lock are parameters of the runtime (`Environment`); what an executor
-- reports is assumed to have passed the checks of `ProcessResult`. Identifiers are texts, and sets of
-- labels are lists.
--
-- Fuel: the loop of attempts (`run_loop`) has the policy's maximum of attempts, and the search of a
-- weekday schedule (`search_days`) the 1500 days of the source's own range.
-- `show` has the number of a number's digits as fuel, which the number itself bounds.
--
-- Not modelled: logging, `details` of errors, years past 9999, serialisation, the files and commands of
-- the cron adapter and its plans, cron expressions, the API and the command line. The runtime
-- reads of a revision only its state, action and controls, which are all that `TaskRevision` has; `Revision`
-- has the rest. What other runs write to the rows of other executions is left out of a run's table.
pub mod Scheduling
pub mod Configuration
pub mod Prelude
pub mod Errors
pub mod Text
pub mod Values
pub mod Execution
pub mod Policies
pub mod Claims
pub mod Deployment
pub mod Tasks
pub mod Persistence
pub mod Runtime
pub mod Cron
pub mod Tests
pub mod Locks
pub mod Activation
