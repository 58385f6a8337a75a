-- ===== src/Projects/Status.antt =====
-- Project statuses, the exceptions of the project services and the inputs of a status change
-- (backend/app/modules/projects/models.py, errors.py and schemas.py). Dates are day numbers; the
-- inputs are as the pydantic validators leave them: an optional note is None or a trimmed text.
use policy_project_managemen.Prelude.{ℕ, String, Bool, true, false, Option, List, [], ◌∷◌, any}

pub data ProjectStatus : Type 0 where
  pending_application submitted succeeded rejected terminated : ProjectStatus

abbrev pub status_eq : ProjectStatus → ProjectStatus → Bool
status_eq pending_application pending_application = true
status_eq submitted submitted = true
status_eq succeeded succeeded = true
status_eq rejected rejected = true
status_eq terminated terminated = true
status_eq _ _ = false

-- `status in statuses`
abbrev pub status_in : ProjectStatus → List ProjectStatus → Bool
status_in s = any (status_eq s)

abbrev pub result_statuses : List ProjectStatus
result_statuses = succeeded ∷ rejected ∷ []

-- Exceptions with their public context. The last two are IntegrityErrors, of the tables of the
-- projects and of `notification_deliveries`.
pub data ProjectError : Type 0 where
  policy_not_convertible : ProjectError
  policy_already_converted : Option ℕ → ProjectError
  primary_entity_missing : ProjectError
  project_liaison_required : ProjectError
  project_user_inactive : Option ℕ → ProjectError
  project_write_forbidden : ProjectError
  project_transition_invalid : ProjectError
  project_correction_invalid : ProjectError
  project_field_validation_failed : ProjectError
  project_version_conflict : ℕ → ProjectError
  idempotency_key_reused : ProjectError
  lookup_error : ProjectError
  integrity_error : ProjectError
  delivery_integrity_error : ProjectError

pub record ProjectTransitionInput : Type 0 where
  pub expected_version : ℕ
  pub target_status : ProjectStatus
  pub submitted_on : Option ℕ
  pub result_on : Option ℕ
  pub result_note : Option String
  pub termination_note : Option String

-- `ProjectCorrectionInput` adds a reason to a transition's input.
pub record ProjectCorrectionInput : Type 0 where
  pub change : ProjectTransitionInput
  pub open change use *
  pub reason : Option String
