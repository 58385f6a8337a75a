-- ===== src/SourceHealth.antt =====
-- The health of a source: `CollectionTaskService.record_source_task_outcome`
-- (backend/app/modules/collection/service.py), `SourceHealthState` (notifications/models.py) and
-- `source_failure_notification_event` (notifications/events.py).
pub mod Episodes
pub mod Once
pub mod Third
mod Tests
use policy_project_managemen.Prelude.{
  ℕ, ◌+◌, String, Bool, true, false, not, Option, none, some, List, [], ◌∷◌, ◌++◌, Result, ok, err,
  ◌>>=◌, or_raise, opt_eq, by_id, save, any, has_id, if◌then◌else◌, ◌==◌,
}
use policy_project_managemen.Prelude.Text.{decimal}
use policy_project_managemen.Audit.{number, text}
use policy_project_managemen.Notifications.Delivery.{NotificationEvent}
use policy_project_managemen.Notifications.Service.{stored, Sessions, Outbox, enqueue}
use Prim.Native.String.{◌++◌ as ◌+++◌}

pub data TaskStatus : Type 0 where
  pending running succeeded partial_failed failed : TaskStatus

-- `task.status in {"failed", "partial_failed", "succeeded"}`
abbrev pub is_finished : TaskStatus → Bool
is_finished pending = false
is_finished running = false
is_finished _ = true

abbrev pub is_success : TaskStatus → Bool
is_success succeeded = true
is_success _ = false

pub data HealthError : Type 0 where
  value_error integrity_error : HealthError

pub data AdapterStatus : Type 0 where
  ready adapter_pending : AdapterStatus

pub record PolicySource : Type 0 where
  pub id : ℕ
  pub name : String
  pub adapter_key : Option String
  pub adapter_status : AdapterStatus
  pub is_enabled : Bool

pub record CollectionTask : Type 0 where
  pub id : ℕ
  pub source_id : ℕ
  pub trigger_type : String
  pub status : TaskStatus
  pub requested_by : Option ℕ
  pub created_at : ℕ
  pub started_at : Option ℕ
  pub finished_at : Option ℕ
  pub discovered_count : ℕ
  pub succeeded_count : ℕ
  pub failed_count : ℕ
  pub error_message : Option String

-- One row for a source, as its unique constraint asks.
pub record SourceHealthState : Type 0 where
  pub source_id : ℕ
  pub consecutive_failure_count : ℕ
  pub episode_started_task_id : Option ℕ
  pub last_processed_task_id : Option ℕ

pub record HealthBook : Type 0 where
  pub sources : List PolicySource
  pub states : List SourceHealthState
  pub outbox : Outbox

abbrev pub source_key : PolicySource → ℕ
source_key s = s.id

abbrev pub state_key : SourceHealthState → ℕ
state_key s = s.source_id

-- f"source:{source.id}:failure_episode:{state.episode_started_task_id}"
unfoldable pub episode_key : ℕ → ℕ → String
unfolding decimal
episode_key source_id started =
    "source:" +++ decimal source_id +++ ":failure_episode:" +++ decimal started

-- The event; `none` for the ValueError of an episode with no starting task.
unfoldable pub source_failure_notification_event :
    PolicySource → SourceHealthState → CollectionTask → Option NotificationEvent
unfolding episode_key
source_failure_notification_event source state task = elim state.episode_started_task_id [
  | none ↦ none
  | some started ↦ some (record {
    event_key = episode_key source.id started;
    event_type = "source_failure_episode";
    display_type = "来源异常";
    object_type = "source";
    object_id = source.id;
    object_name = source.name;
    detail_path = "/sources";
    message_snapshot =
        ("consecutive_failure_count", number state.consecutive_failure_count)
        ∷ ("latest_task_id", number task.id)
        ∷ ("failure_summary", text "来源连续采集异常，请查看采集任务记录。")
        ∷ [];
  })
]

abbrev pub new_state : ℕ → SourceHealthState
new_state n = record {
  source_id = n;
  consecutive_failure_count = 0;
  episode_started_task_id = none;
  last_processed_task_id = none;
}

-- The state of the source, a new one where there is none.
abbrev pub state_or_new : ℕ → Option SourceHealthState → SourceHealthState
state_or_new n none = new_state n
state_or_new n (some s) = s

-- The row is written back, or added where there was none.
abbrev pub put_state :
    Option SourceHealthState → SourceHealthState → List SourceHealthState → List SourceHealthState
put_state none s rows = rows ++ s ∷ []
put_state (some _) s rows = save state_key s rows

-- What a finished task makes of the state.
unfoldable pub counted : CollectionTask → SourceHealthState → SourceHealthState
counted task s =
    if is_success task.status
    then record s {
      last_processed_task_id = some task.id;
      consecutive_failure_count = 0;
      episode_started_task_id = none;
    }
    else record s {
      last_processed_task_id = some task.id;
      episode_started_task_id =
          if s.consecutive_failure_count == 0 then some task.id else s.episode_started_task_id;
      consecutive_failure_count = s.consecutive_failure_count + 1;
    }

-- The notification at the third failure in a row.
unfoldable pub notified :
    Sessions
    → ℕ
    → PolicySource
    → CollectionTask
    → SourceHealthState
    → HealthBook
    → Result HealthError HealthBook
notified others now source task s book =
    if s.consecutive_failure_count == 3
    then elim (source_failure_notification_event source s task) [
      | none ↦ err value_error
      | some event ↦ stored integrity_error (enqueue others event now book.outbox) >>= λ outbox.
          ok (record book { outbox = outbox })
    ]
    else ok book

-- A task that was counted already changes nothing.
unfoldable pub count_task :
    Sessions
    → ℕ
    → PolicySource
    → CollectionTask
    → Option SourceHealthState
    → HealthBook
    → Result HealthError HealthBook
count_task others now source task old book =
    let s = state_or_new task.source_id old in
    if opt_eq s.last_processed_task_id task.id
    then ok book
    else notified others now source task (counted task s)
        (record book { states = put_state old (counted task s) book.states })

unfoldable pub record_source_task_outcome :
    Sessions → ℕ → CollectionTask → HealthBook → Result HealthError HealthBook
record_source_task_outcome others now task book =
    if not (is_finished task.status)
    then ok book
    else (or_raise (by_id source_key task.source_id book.sources) value_error >>= λ source.
        count_task others now source task (by_id state_key task.source_id book.states) book)
