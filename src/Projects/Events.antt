-- ===== src/Projects/Events.antt =====
-- The notification events of a project (backend/app/modules/notifications/events.py).
use policy_project_managemen.Prelude.{ℕ, String, Option, none, some, [], ◌∷◌}
use policy_project_managemen.Prelude.Text.{decimal, take_chars}
use policy_project_managemen.Audit.{Value, null, text, iso_date}
use policy_project_managemen.Notifications.Delivery.{NotificationEvent}
use policy_project_managemen.Projects.Status.{ProjectStatus, submitted, succeeded}
use policy_project_managemen.Projects.Rows.{Project}
use Prim.Native.String.{◌++◌}

-- `_date_value`
abbrev pub date_value : Option ℕ → Value
date_value none = null
date_value (some day) = iso_date day

-- `project.result_note[:500] if project.result_note is not None else None`
abbrev pub note_value : Option String → Value
note_value none = null
note_value (some note) = text (take_chars 500 note)

-- f"project:{project.id}:{suffix}"
unfoldable pub project_key : ℕ → String → String
unfolding decimal
project_key id suffix = "project:" ++ decimal id ++ ":" ++ suffix

project_path : ℕ → String
unfolding decimal
project_path id = "/projects/" ++ decimal id

unfoldable pub project_created_notification_event : Project → NotificationEvent
unfolding project_key project_path
project_created_notification_event project = record {
  event_key = project_key project.id "created";
  event_type = "project_created";
  display_type = "政策转项目";
  object_type = "project";
  object_id = project.id;
  object_name = project.name;
  detail_path = project_path project.id;
  message_snapshot =
      ("primary_entity_legal_name", text project.primary_entity_legal_name)
      ∷ ("liaison_display_name", text project.liaison_display_name)
      ∷ ("deadline_on", date_value project.deadline_on)
      ∷ [];
}

unfoldable pub project_first_status_notification_event :
    Project → ProjectStatus → Option NotificationEvent
unfolding project_key project_path
project_first_status_notification_event project submitted = some (record {
  event_key = project_key project.id "first_submitted";
  event_type = "project_first_submitted";
  display_type = "项目已提交";
  object_type = "project";
  object_id = project.id;
  object_name = project.name;
  detail_path = project_path project.id;
  message_snapshot = ("submitted_on", date_value project.submitted_on) ∷ [];
})
project_first_status_notification_event project succeeded = some (record {
  event_key = project_key project.id "first_succeeded";
  event_type = "project_first_succeeded";
  display_type = "项目成功";
  object_type = "project";
  object_id = project.id;
  object_name = project.name;
  detail_path = project_path project.id;
  message_snapshot =
      ("result_on", date_value project.result_on)
      ∷ ("result_note", note_value project.result_note)
      ∷ [];
})
project_first_status_notification_event project _ = none
