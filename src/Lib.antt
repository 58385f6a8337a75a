-- ===== src/Lib.antt =====
-- A verification library of the policy project management system: the Python services under
-- backend/app/modules and the workers under backend/workers.
--
-- The program. Policies are collected and evaluated against versioned evaluation rules; a policy
-- that is recommended is converted into a project; the project's status is moved through its
-- workflow; what happens is recorded in an audit trail and sent as notifications. The services keep
-- their state in a database. Each public method of a service is one transaction: the handler in
-- router.py commits when it returns and rolls back when it raises.
--
-- The files and the code they model.
--   Prelude        results with errors, Boolean tests, tables of rows with keys, text
--   Audit          audit/service.py (`record`)
--   Notifications  notifications/models.py, service.py, events.py, and
--                  backend/workers/notifier.py (`run_once`)
--     Delivery     the row of a delivery with its attempts, and the changes of one row
--     Service      the outbox: `enqueue`, `retry_failed`, `claim_next`, `complete_claimed`,
--                  `fail_claimed`, `recover_stale_claims`
--     Worker       one round of the worker: recovery, claim, send, report
--   Projects       projects/models.py, schemas.py, errors.py, permissions.py, workflow.py, service.py
--     Workflow     `apply_transition` and `apply_correction`
--     Permissions  `capabilities_for` and `assert_update_fields_allowed`
--     Rows, Checks, Validity   the tables, their constraints, and when a ledger is valid
--     StatusChange `transition`, `correct_status`, `_persist_status_change`
--     Update       `update_project`, `_validate_update`, with the audits in UpdateAudits
--     Conversion   `convert_policy`, `_creation_fingerprint`, `_resolve_creation_race`
--     EntityCorrection  `correct_primary_entity`
--   Collection     collection/models.py and collection/service.py (`create`, `claim_next`,
--                  `finish_from_items`), and `assert_collectable` of sources/service.py
--   SourceHealth   collection/service.py (`record_source_task_outcome`), with the state of
--                  notifications/models.py and the event of notifications/events.py
--   EvaluationRules  evaluation_rules/models.py, schemas.py, service.py
--   Evaluations    evaluations/models.py, schemas.py, contracts.py, service.py, the evaluation
--                  event of notifications/events.py, and backend/workers/evaluator.py
--     Rows, Values  the tables, and the comparison of values
--     Snapshots, Events  `_evaluation_snapshot` and `evaluation_notification_event`
--     Shown, Latest, Previous   the answers of `_evaluation_snapshot` and of
--                  `_previous_evaluation_snapshot` in terms of the rows
--     Queue        `enqueue`, `enqueue_for_policy`, `cancel`, `claim_next`
--     Writes, Processing  the transactions of `process_claimed` and `fail_claimed`, and their
--                  order; `run_next` and `run_once`
--     Primaries, Decisions, Adjustments   `confirm`; `adjust_conclusion` and
--                  `select_primary_entity`
--     Machine, Views           the status machine of a batch, and the tables as its states
--     Transactions, Runs       the service as a transition system, and its runs
--     Convertible  the evaluation service and the conversion of a policy together
--
-- How they interact. A status change and a conversion write the tables of the ledger, then record
-- their audit events, then enqueue a notification in the outbox, which the worker delivers. The
-- evaluation service takes the rules in force, decides the conclusion of a policy and its primary
-- entity, which the conversion reads, and enqueues a notification when the outcome changes.
--
-- How the code is written here. A table is a list of rows; a changed row is written back by its
-- key. A method takes the tables and gives a `Result`: an exception, or its answer with the tables
-- it leaves. The methods of the outbox give a
-- result beside the tables. Dates are day numbers and times are microseconds. Attempts, members
-- and history entries are lists within their parent row. Check and unique constraints are Boolean
-- tests at the flush, which ends in an IntegrityError where they fail. What other sessions commit
-- between two statements of a method is a function `others`; for the outbox it stands with the
-- isolation level, since under repeatable reads, the default of MySQL, a query after a failed
-- insertion reads the snapshot of the transaction. The rows that `skip_locked` passes
-- over are a predicate `locked`. The clock, the claim tokens, the digest of a creation request and
-- the outcome of a sending are arguments. The recursion is on lists; only the printing of decimal
-- digits counts down, from `n + 1`, and a number n has no more digits than that.
--
-- Not modelled: HTTP routing, sessions and commits themselves, SQL text, the crawler, the language
-- model adapters (the end of a call is an argument), file storage, the front end; the methods that
-- only list rows; and, of the services, policies, profiles, the editing of sources, and
-- authentication. A row lock is taken to hold: what a method reads
-- under `with_for_update` is not changed until it ends.
pub mod Audit
pub mod Collection
pub mod EvaluationRules
pub mod Evaluations
pub mod Notifications
pub mod Prelude
pub mod Projects
pub mod SourceHealth
