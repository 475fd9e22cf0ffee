-- ===== src/Lib.antt =====
-- RestoreLab proves that backups can be restored: it restores one into a temporary workload on an
-- isolated network, starts it, runs checks against it, and destroys it again. A stored plan's cron puts
-- such a drill on a queue (internal/scheduler, internal/trigger), a worker claims it there
-- (internal/store), and the engine runs it (internal/recovery) against the providers of a cluster.
--
-- internal/core is in Core: states and results of a run, checks, proof levels, and errors, which are data
--   here: what `errors.Is` and `errors.As` can ask of an error is its constructor or a field.
-- internal/plan is in Plan: the document of a drill, `ApplyDefaults`, `ProvenLevel` and `ToCore`.
-- internal/recovery is in Recovery: `Engine.Run`. Recovery/Engine has the state monad: a session is the
--   run record with the three variables of the deferred block (tempID, node, needsCleanup), the world
--   of the providers, and a trace of every call and event. The fields of `Engine` are the interfaces
--   of `Deps` (hypervisor, backups, check runner, clock, sleep, context) and act on a world of any
--   type, so a theorem holds for every behaviour of theirs, errors and panics included. Naming has
--   naming.go, Steps/* the functions of steps.go and retry.go, Cleanup has cleanup.go, and Drill has
--   `Run`, `runDryRun` and the grading. Recovery/Protocol reads a trace as an automaton, and its children
--   prove the engine against it, Isolation what a refused network leaves of it; Recovery/Verdict relates
--   the state, the result and the errors, and Recovery/Termination bounds the wait for the guest.
-- internal/store is in Store: the tables `runs` and `schedule_slots` as lists of rows. Table has the SQL
--   statements, Queue the operations of queue.go and the writes of runs.go, Operations their sequences,
--   Slots the operations of schedule.go, Deliveries those of notify.go with the table
--   `notification_deliveries`, Plans the catalogue of plans.go, Access the API tokens and sessions of
--   tokens.go and sessions.go. Changes says what a statement on one
--   row changes; Lease, Settled, Claim, Cancel, Keyed, Considered, Slots/Once, Plans/Versions,
--   Plans/References and Access/Revoked are about them; Held and Lasting carry a fact about one run
--   through the statements.
-- internal/trigger is in Trigger: `Prepare` and `Enqueue`.
-- internal/scheduler is in Scheduler: Decide has slots.go, Tick has one pass of scheduler.go.
-- internal/notify is in Notify: Story has `Decide`, Collapse the comparison of measured values, Deliver
--   the policy of retries, Dispatcher the pass that claims runs and queues messages, Attempt the pass
--   that posts them and `Tick`. Keeps carries an invariant of the deliveries through a whole pass.
-- internal/checks is in Checks: Registry has `RunOne` and `RunAll` of registry.go, and a check type is a
--   parameter.
-- internal/worker is in Worker: Reconcile has the sweep for interrupted runs.
-- internal/report is in Report: Confidence has `Score`. internal/api is in Api: Page has page.go.
-- Examples: a toy cluster, a queue and a scheduler, on which the theorems are applied.
--
-- Instants and durations are natural numbers of nanoseconds, and a difference of instants stops at 0.
-- The memory limit in bytes keeps the 64 bits of its product. The only loop on fuel is the wait for the
-- guest, one unit a round: a drill whose fuel ends there is `waiting`, which the theorems treat as an
-- end of its own, not as a return; a fuel above the startup timeout is enough. The
-- loop of `decide` is bounded by the source itself (10,000).
--
-- A statement of the store is one step and a transaction is one step, as the database runs them; a call
-- of several statements (`RequestCancel`, `UpdatePlan`, `DeletePlan`) takes what others write between
-- them as an argument. A claim of a run is one step while no other is in progress: PostgreSQL's SKIP
-- LOCKED, which lets it pass over rows that another transaction holds, is not modelled. A failure of
-- the database is modelled where the source goes on after it (Notify, Worker), and is left out where it
-- is passed on. Rows with equal keys in an ORDER BY keep their order of insertion; where the queue sorts
-- NULL, first or last is an argument, as SQLite and PostgreSQL differ. The foreign keys of the slots are
-- modelled, the one of a run that is queued by hand to its plan is not.
--
-- The caller's callback for events does not panic. The penalties of a score are integers without
-- overflow. The error of a refused delivery carries the text that is made of the status and of the
-- first 512 bytes of the answer: the model takes that text as it is.
--
-- Parameters: the providers and the check runner, `yaml.Marshal` and the reading of plans, the cron
-- library's `Next` and the calendar (with `Advances`: the next instant is strictly later), the
-- generator of ids and the order of names of the database, the HTTP client and the renderers of the
-- notifications, the rounding of floating-point penalties, base64 and the layout of instants. Not
-- modelled: texts of logs, the execution loop of the worker, the check types, the rendering of reports,
-- the HTTP handlers, the command line, the provider clients and the web interface, which are I/O for
-- the most part or are not reached yet.
pub mod Prelude
pub mod Core
pub mod Plan
pub mod Recovery
pub mod Store
pub mod Trigger
pub mod Scheduler
pub mod Notify
pub mod Worker
pub mod Report
pub mod Checks
pub mod Api
pub mod Examples
