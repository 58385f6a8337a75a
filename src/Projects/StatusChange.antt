-- ===== src/Projects/StatusChange.antt =====
-- The status changes of a project: `transition`, `correct_status` and `_persist_status_change` of
-- `ProjectService` (backend/app/modules/projects/service.py). A method that raises changes nothing,
-- since each handler of router.py rolls back; the result of a method is the project that its
-- answer describes, with the tables that it leaves.
pub mod Records
pub mod Effects
mod Tests
use policy_project_managemen.Prelude.{
  ℕ, ◌+◌, String, Bool, true, false, not, ◌&&◌, ◌||◌, Option, none, some, List, [], ◌∷◌, Result, ok,
  err, ◌>>=◌, ◌>>◌, raise_if, or_raise, ◌==◌, ltb, if◌then◌else◌, by_id, save,
}
use policy_project_managemen.Audit.{
  Value, null, text, iso_date, AuditEvent, before_after, record_event,
}
use policy_project_managemen.Notifications.Service.{stored, Sessions, Outbox, enqueue}
use policy_project_managemen.Projects.Status.{
  delivery_integrity_error, ProjectStatus, pending_application, submitted, succeeded, rejected,
  terminated, status_eq, ProjectError, lookup_error, project_version_conflict,
  project_write_forbidden, integrity_error, ProjectTransitionInput, ProjectCorrectionInput,
}
use policy_project_managemen.Projects.Workflow.{
  StatusValues, WorkflowResult, apply_transition, apply_correction,
}
use policy_project_managemen.Projects.Rows.{
  User, Project, ProjectStatusHistory, HistoryAction, transitioned, corrected, Ledger, project_id,
  row_is_accepted,
}
use policy_project_managemen.Projects.Permissions.{capabilities_for}
use policy_project_managemen.Projects.Events.{project_first_status_notification_event}

-- What a request reads from outside: the clock, the date, and the sessions beside it, of
-- which the outbox sees the commits before an insertion into it.
pub record Moment : Type 0 where
  pub now : ℕ
  pub today : ℕ
  pub others : Sessions

-- `_status_values`
abbrev pub status_values : Project → StatusValues
status_values p = record {
  submitted_on = p.submitted_on;
  result_on = p.result_on;
  result_note = p.result_note;
  termination_note = p.termination_note;
}

abbrev pub date_json : Option ℕ → Value
date_json none = null
date_json (some day) = iso_date day

abbrev pub text_json : Option String → Value
text_json none = null
text_json (some s) = text s

unfoldable pub status_name : ProjectStatus → String
status_name pending_application = "pending_application"
status_name submitted = "submitted"
status_name succeeded = "succeeded"
status_name rejected = "rejected"
status_name terminated = "terminated"

-- `_status_audit_values`
unfoldable pub status_audit_values : Project → List (String × Value)
unfolding status_name
status_audit_values p =
    ("status", text (status_name p.status))
    ∷ ("submitted_on", date_json p.submitted_on)
    ∷ ("result_on", date_json p.result_on)
    ∷ ("result_note", text_json p.result_note)
    ∷ ("termination_note", text_json p.termination_note)
    ∷ []

-- `(occurred_at, id)` in descending order
abbrev pub later_entry : ProjectStatusHistory → ProjectStatusHistory → Bool
later_entry h g = ltb g.occurred_at h.occurred_at || g.occurred_at == h.occurred_at && ltb g.id h.id

unfoldable pub latest_of : ProjectStatusHistory → Option ProjectStatusHistory → ProjectStatusHistory
latest_of h none = h
latest_of h (some g) = if later_entry g h then g else h

unfoldable pub last_termination : List ProjectStatusHistory → Option ProjectStatusHistory
unfolding latest_of
last_termination [] = none
last_termination (h ∷ rows) =
    let rest = last_termination rows in
    if status_eq h.new_status terminated then some (latest_of h rest) else rest

-- `_pre_termination_status`
unfoldable pub pre_termination_status : Project → Option ProjectStatus
unfolding last_termination
pre_termination_status p = elim (last_termination p.history) [
  | none ↦ none
  | some h ↦ h.previous_status
]

-- The assignments of `_persist_status_change` to the row.
unfoldable pub written_project : WorkflowResult → Project → Project
written_project result p = record p {
  status = result.new_status;
  submitted_on = elim result.values.submitted_on [ none ↦ p.submitted_on | some day ↦ some day ];
  result_on = result.values.result_on;
  result_note = result.values.result_note;
  termination_note = result.values.termination_note;
  version = p.version + 1;
}

-- The history entry of the change.
unfoldable pub status_entry :
    User → WorkflowResult → HistoryAction → Option String → ℕ → ℕ → Project → ProjectStatusHistory
unfolding written_project
status_entry actor result action reason now history_id p = record {
  id = history_id;
  action = action;
  previous_status = some p.status;
  new_status = result.new_status;
  actor_id = actor.id;
  actor_display_name = actor.display_name;
  reason = reason;
  related_date = result.related_date;
  before_values = status_audit_values p;
  after_values = status_audit_values (written_project result p);
  from_version = p.version;
  to_version = p.version + 1;
  occurred_at = now;
}

unfoldable pub changed_project :
    User → WorkflowResult → HistoryAction → Option String → ℕ → ℕ → Project → Project
unfolding written_project status_entry
changed_project actor result action reason now history_id p = record (written_project result p) {
  history = status_entry actor result action reason now history_id p ∷ p.history;
}

abbrev pub audit_action : HistoryAction → String
audit_action corrected = "project_status_corrected"
audit_action _ = "project_status_changed"

-- `enqueue_project_first_status`
unfoldable pub enqueue_first_status : Moment → Project → Outbox → Result ProjectError Outbox
enqueue_first_status at p o = elim (project_first_status_notification_event p p.status) [
  | none ↦ ok o
  | some event ↦ stored delivery_integrity_error (enqueue at.others event at.now o)
]

-- The tables after the flush, the audit and the notification, which leaves the outbox.
unfoldable pub persisted :
    Outbox → Project → Project → User → HistoryAction → Option String → Ledger → Ledger
persisted outbox project changed actor action reason ledger = record ledger {
  projects = save project_id changed ledger.projects;
  next_history_id = ledger.next_history_id + 1;
  audits =
      record_event
        (record {
          action = audit_action action;
          actor_id = some actor.id;
          object_type = "project";
          object_id = project.id;
          reason = reason;
          changes = before_after (status_audit_values project) (status_audit_values changed);
        })
        ledger.audits;
  outbox = outbox;
}

-- `_persist_status_change`: the flush refuses a row that breaks a constraint.
unfoldable pub persist_status_change :
    Moment
    → Project
    → User
    → WorkflowResult
    → HistoryAction
    → Option String
    → Ledger
    → Result ProjectError (Project × Ledger)
persist_status_change at project actor result action reason ledger =
    let changed =
      changed_project actor result action reason at.now ledger.next_history_id project in
    raise_if (not (row_is_accepted changed)) integrity_error
    >> (enqueue_first_status at changed ledger.outbox >>= λ outbox.
        ok (changed, persisted outbox project changed actor action reason ledger))

-- `_locked_project`, with the check of the version that each method starts with
unfoldable pub locked_at_version : ℕ → ℕ → Ledger → Result ProjectError Project
locked_at_version n expected_version ledger = do
  project ← or_raise (by_id project_id n ledger.projects) lookup_error
  raise_if (not (project.version == expected_version)) (project_version_conflict project.version)
  ok project

unfoldable pub transition :
    Moment → ℕ → ProjectTransitionInput → User → Ledger → Result ProjectError (Project × Ledger)
unfolding locked_at_version
transition at n payload actor ledger = do
  project ← locked_at_version n payload.expected_version ledger
  raise_if (not (capabilities_for actor project).can_transition) project_write_forbidden
  result ← apply_transition project.status (status_values project) payload at.today
  persist_status_change at project actor result transitioned none ledger

unfoldable pub correct_status :
    Moment → ℕ → ProjectCorrectionInput → User → Ledger → Result ProjectError (Project × Ledger)
unfolding locked_at_version
correct_status at n payload actor ledger = do
  project ← locked_at_version n payload.expected_version ledger
  raise_if (not (capabilities_for actor project).can_correct_status) project_write_forbidden
  result ←
      apply_correction project.status (status_values project) (pre_termination_status project)
        payload at.today
  persist_status_change at project actor result corrected payload.reason ledger
