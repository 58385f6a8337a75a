-- ===== src/Collection.antt =====
-- The collection tasks: `create`, `claim_next` and `finish_from_items` of `CollectionTaskService`
-- (backend/app/modules/collection/service.py), over the rows of collection/models.py, and
-- `SourceService.assert_collectable` (sources/service.py).
pub mod Exclusive
mod Tests
use policy_project_managemen.Prelude.{
  ℕ, ◌+◌, String, Bool, true, false, not, ◌&&◌, ◌||◌, Option, none, some, List, [], ◌∷◌, ◌++◌,
  Result, ok, err, ◌>>=◌, ◌>>◌, raise_if, or_raise, by_id, save, any, find, sort_by, ltb, leb, ◌==◌,
  if◌then◌else◌,
}
use policy_project_managemen.Prelude.Text.{str_eq, decimal}
use policy_project_managemen.Notifications.Service.{Isolation, reread, Sessions, Outbox}
use policy_project_managemen.SourceHealth.{
  TaskStatus, pending, running, succeeded, partial_failed, failed, is_finished, AdapterStatus,
  ready, adapter_pending, PolicySource, CollectionTask, HealthError, HealthBook, source_key,
  record_source_task_outcome,
}
use Prim.Native.String.{◌++◌ as ◌+++◌}

pub record CollectionTaskItem : Type 0 where
  pub id : ℕ
  pub task_id : ℕ
  pub channel_id : ℕ
  pub original_url : String
  pub status : TaskStatus
  pub policy_id : Option ℕ
  pub error_message : Option String

-- The tables of the tasks, with those of the health of the sources.
pub record CollectionBook : Type 0 where
  pub tasks : List CollectionTask
  pub items : List CollectionTaskItem
  pub next_task_id : ℕ
  pub health : HealthBook

pub data CollectionError : Type 0 where
  source_not_found source_not_collectable collection_already_running : CollectionError
  collection_task_not_found health_error : CollectionError

abbrev pub task_key : CollectionTask → ℕ
task_key t = t.id

-- `status in ("pending", "running")`
abbrev pub is_active : TaskStatus → Bool
is_active status = not (is_finished status)

abbrev is_ready : AdapterStatus → Bool
is_ready ready = true
is_ready adapter_pending = false

-- `adapter_key == "gdii"`
abbrev has_spider : Option String → Bool
has_spider none = false
has_spider (some key) = str_eq key "gdii"

unfoldable pub assert_collectable : ℕ → List PolicySource → Result CollectionError PolicySource
assert_collectable source_id sources = do
  source ← or_raise (by_id source_key source_id sources) source_not_found
  raise_if (not source.is_enabled) source_not_collectable
  raise_if (not (is_ready source.adapter_status) || not (has_spider source.adapter_key))
      source_not_collectable
  ok source

abbrev pub is_active_of : ℕ → CollectionTask → Bool
is_active_of source_id task = task.source_id == source_id && is_active task.status

unfoldable pub new_task : ℕ → ℕ → ℕ → String → Option ℕ → CollectionTask
new_task now id source_id trigger_type requested_by = record {
  id = id;
  source_id = source_id;
  trigger_type = trigger_type;
  status = pending;
  requested_by = requested_by;
  created_at = now;
  started_at = none;
  finished_at = none;
  discovered_count = 0;
  succeeded_count = 0;
  failed_count = 0;
  error_message = none;
}

-- `create`. The transaction starts at the tables `snapshot`; the source is locked, and the task goes
-- in, at the tables `book`. The lock does not renew what the query of the active tasks reads.
unfoldable pub create :
    Isolation
    → CollectionBook
    → ℕ
    → ℕ
    → String
    → Option ℕ
    → CollectionBook
    → Result CollectionError (CollectionTask × CollectionBook)
create isolation snapshot now source_id trigger_type requested_by book = do
  source ← assert_collectable source_id snapshot.health.sources
  raise_if (any (is_active_of source_id) (reread isolation snapshot book).tasks)
      collection_already_running
  ok (
    new_task now book.next_task_id source_id trigger_type requested_by,
    record book {
      tasks = book.tasks ++ new_task now book.next_task_id source_id trigger_type requested_by ∷ [];
      next_task_id = book.next_task_id + 1;
    },
  )

-- `ORDER BY created_at, id`
abbrev pub older : CollectionTask → CollectionTask → Bool
older a b = ltb a.created_at b.created_at || a.created_at == b.created_at && leb a.id b.id

abbrev is_pending : TaskStatus → Bool
is_pending pending = true
is_pending _ = false

abbrev pub is_waiting : (ℕ → Bool) → CollectionTask → Bool
is_waiting locked task = not (locked task.id) && is_pending task.status

unfoldable pub started : ℕ → CollectionTask → CollectionTask
started now task = record task { status = running; started_at = some now }

unfoldable pub claim_task : (ℕ → Bool) → ℕ → CollectionBook → Option CollectionTask × CollectionBook
claim_task locked now book = elim (find (is_waiting locked) (sort_by older book.tasks)) [
  | none ↦ (none, book)
  | some task ↦
      (some (started now task), record book { tasks = save task_key (started now task) book.tasks })
]

abbrev status_is : TaskStatus → TaskStatus → Bool
status_is succeeded succeeded = true
status_is failed failed = true
status_is _ _ = false

-- How many items of the task pass the test.
unfoldable pub count_items : (TaskStatus → Bool) → ℕ → List CollectionTaskItem → ℕ
count_items p task_id [] = 0
count_items p task_id (i ∷ items) =
    let rest = count_items p task_id items in
    if i.task_id == task_id && p i.status then rest + 1 else rest

-- The status that the counts and the exit code of the process give.
unfoldable pub outcome_of : ℕ → ℕ → ℕ → TaskStatus
outcome_of succeeded_items failed_items returncode =
    if ltb 0 succeeded_items && ltb 0 failed_items
    then partial_failed
    else if ltb 0 succeeded_items && failed_items == 0 && returncode == 0
    then succeeded
    else failed

unfoldable pub finished_task : ℕ → ℕ → List CollectionTaskItem → CollectionTask → CollectionTask
finished_task now returncode items task =
    let good = count_items (status_is succeeded) task.id items in
    let bad = count_items (status_is failed) task.id items in
    record task {
      discovered_count = count_items (λ s. true) task.id items;
      succeeded_count = good;
      failed_count = bad;
      status = outcome_of good bad returncode;
      finished_at = some now;
      error_message =
          if returncode == 0
          then task.error_message
          else some ("collector exited with code " +++ decimal returncode);
    }

-- The error of the health of the source, as one of the method.
abbrev pub or_health_error : Result HealthError HealthBook → Result CollectionError HealthBook
or_health_error (ok health) = ok health
or_health_error (err e) = err health_error

-- The task is written, and its outcome recorded for the source.
unfoldable pub finish_task :
    Sessions
    → ℕ
    → ℕ
    → CollectionTask
    → CollectionBook
    → Result CollectionError (CollectionTask × CollectionBook)
finish_task others now returncode task book = do
  health ← or_health_error (
      record_source_task_outcome others now (finished_task now returncode book.items task)
        book.health)
  ok (
    finished_task now returncode book.items task,
    record book {
      tasks = save task_key (finished_task now returncode book.items task) book.tasks;
      health = health;
    },
  )

-- `finish_from_items`; the exit code of the worker is 0 or 1.
unfoldable pub finish_from_items :
    Sessions → ℕ → ℕ → ℕ → CollectionBook → Result CollectionError (CollectionTask × CollectionBook)
finish_from_items others now task_id returncode book = do
  task ← or_raise (by_id task_key task_id book.tasks) collection_task_not_found
  if is_finished task.status then ok (task, book) else finish_task others now returncode task book
