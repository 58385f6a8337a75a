-- ===== src/Projects/Checks.antt =====
-- The check constraints of the table `projects` that mention the status
-- (`Project.__table_args__` in backend/app/modules/projects/models.py).
use policy_project_managemen.Prelude.{
  ℕ, String, Bool, true, false, not, ◌&&◌, ◌||◌, Option, none, some, is_some, ltb,
}
use policy_project_managemen.Prelude.Text.{is_truthy}
use policy_project_managemen.Projects.Status.{
  ProjectStatus, submitted, terminated, status_eq, status_in, result_statuses,
}

-- `result_on IS NULL OR (submitted_on IS NOT NULL AND result_on >= submitted_on)`
abbrev pub dates_ordered : Option ℕ → Option ℕ → Bool
dates_ordered submitted_on none = true
dates_ordered none (some result_day) = false
dates_ordered (some submitted_day) (some result_day) = not (ltb result_day submitted_day)

-- The four constraints on a status, its two dates and its termination note.
abbrev pub satisfies_checks : ProjectStatus → Option ℕ → Option ℕ → Option String → Bool
satisfies_checks status submitted_on result_on termination_note =
    (not (status_in status result_statuses) || is_some result_on)
    && (not (status_eq status submitted || status_in status result_statuses)
        || is_some submitted_on)
    && dates_ordered submitted_on result_on
    && (not (status_eq status terminated) || is_truthy termination_note)
