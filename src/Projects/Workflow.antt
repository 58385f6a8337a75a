-- ===== src/Projects/Workflow.antt =====
-- The status workflow of a project (backend/app/modules/projects/workflow.py).
pub mod Graph
pub mod Consistency
mod Tests
use policy_project_managemen.Prelude.{
  ℕ, String, Bool, true, false, not, ◌&&◌, ◌||◌, Option, none, some, List, [], ◌∷◌, Result, ok, err,
  ltb, if◌then◌else◌,
}
use policy_project_managemen.Prelude.Text.{is_truthy}
use policy_project_managemen.Projects.Status.{
  ProjectStatus, pending_application, submitted, succeeded, rejected, terminated, status_eq,
  status_in, result_statuses, ProjectError, project_transition_invalid, project_correction_invalid,
  ProjectTransitionInput, ProjectCorrectionInput,
}

unfoldable pub normal_transitions : ProjectStatus → List ProjectStatus
normal_transitions pending_application = submitted ∷ terminated ∷ []
normal_transitions submitted = succeeded ∷ rejected ∷ terminated ∷ []
normal_transitions succeeded = []
normal_transitions rejected = []
normal_transitions terminated = []

-- The columns that a status change reads.
pub record StatusValues : Type 0 where
  pub submitted_on : Option ℕ
  pub result_on : Option ℕ
  pub result_note : Option String
  pub termination_note : Option String

-- The columns that a status change writes; `submitted_on` is not among the keys when it is `none`.
pub record StatusChange : Type 0 where
  pub submitted_on : Option ℕ
  pub result_on : Option ℕ
  pub result_note : Option String
  pub termination_note : Option String

pub record WorkflowResult : Type 0 where
  pub new_status : ProjectStatus
  pub values : StatusChange
  pub related_date : Option ℕ

abbrev pub Outcome : Type 0
Outcome = Result ProjectError WorkflowResult

-- `_validate_submitted_on`, with what follows the check
with_submitted_on : Option ℕ → ℕ → ProjectError → (ℕ → Outcome) → Outcome
with_submitted_on none today error k = err error
with_submitted_on (some day) today error k = if ltb today day then err error else k day

-- `_validate_result_on`, with what follows the check
with_result_on : Option ℕ → Option ℕ → ℕ → ProjectError → (ℕ → Outcome) → Outcome
with_result_on (some day) (some submitted_day) today error k =
    if ltb day submitted_day || ltb today day then err error else k day
with_result_on _ _ today error k = err error

result_values : ProjectTransitionInput → StatusChange
result_values payload = record {
  submitted_on = none;
  result_on = payload.result_on;
  result_note = payload.result_note;
  termination_note = none;
}

abbrev cleared : StatusChange
cleared = record {
  submitted_on = none;
  result_on = none;
  result_note = none;
  termination_note = none;
}

unfoldable pub apply_transition :
    ProjectStatus → StatusValues → ProjectTransitionInput → ℕ → Outcome
unfolding normal_transitions with_submitted_on with_result_on result_values
apply_transition current_status current_values payload today =
    if not (status_in payload.target_status (normal_transitions current_status))
    then err project_transition_invalid
    else if status_eq payload.target_status submitted
    then with_submitted_on payload.submitted_on today project_transition_invalid (λ day.
      ok (record {
        new_status = submitted;
        values = record cleared { submitted_on = some day };
        related_date = some day;
      }))
    else if status_in payload.target_status result_statuses
    then with_result_on payload.result_on current_values.submitted_on today
        project_transition_invalid
        (λ day. ok (record {
          new_status = payload.target_status;
          values = result_values payload;
          related_date = some day;
        }))
    else if not (is_truthy payload.termination_note)
    then err project_transition_invalid
    else ok (record {
      new_status = terminated;
      values = record cleared { termination_note = payload.termination_note };
      related_date = none;
    })

-- The way back from a termination: only to the status before it.
unfoldable pub correct_terminated : Option ProjectStatus → ProjectTransitionInput → Outcome
correct_terminated none payload = err project_correction_invalid
correct_terminated (some before) payload =
    if not (status_eq payload.target_status before)
    then err project_correction_invalid
    else ok (record { new_status = before; values = cleared; related_date = none })

unfoldable pub apply_correction :
    ProjectStatus → StatusValues → Option ProjectStatus → ProjectCorrectionInput → ℕ → Outcome
unfolding with_result_on result_values correct_terminated
apply_correction current_status current_values pre_termination_status payload today =
    if status_eq current_status terminated
    then correct_terminated pre_termination_status payload.change
    else if not (status_in current_status result_statuses)
    then err project_correction_invalid
    else if status_eq payload.target_status submitted
    then ok (record { new_status = submitted; values = cleared; related_date = none })
    else if not (status_in payload.target_status result_statuses)
        || status_eq payload.target_status current_status
    then err project_correction_invalid
    else with_result_on payload.result_on current_values.submitted_on today
        project_correction_invalid
        λ day. ok (record {
          new_status = payload.target_status;
          values = result_values payload.change;
          related_date = some day;
        })
