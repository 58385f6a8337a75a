-- ===== src/Projects/EntityCorrection.antt =====
-- The correction of a project's primary entity: `ProjectPrimaryEntityCorrectionInput`
-- (backend/app/modules/projects/schemas.py) and `ProjectService.correct_primary_entity`
-- (projects/service.py).
pub mod Effects
mod Tests
use policy_project_managemen.Prelude.{
  ℕ, ◌+◌, String, Bool, not, Option, none, some, List, [], ◌∷◌, Result, ok, err, ◌>>=◌, ◌>>◌,
  raise_if, or_raise, by_id, save, find, if◌then◌else◌, ◌==◌,
}
use policy_project_managemen.Audit.{Value, number, text, before_after, record_event}
use policy_project_managemen.Projects.Status.{
  ProjectError, lookup_error, primary_entity_missing, project_write_forbidden, integrity_error,
}
use policy_project_managemen.Projects.Rows.{
  User, policy_row_id, PrimaryEntityDecision, decision_id, is_current_for, Project, project_id,
  Ledger, row_is_accepted,
}
use policy_project_managemen.Projects.Permissions.{capabilities_for}
use policy_project_managemen.Projects.StatusChange.{locked_at_version}

pub record ProjectPrimaryEntityCorrectionInput : Type 0 where
  pub expected_version : ℕ
  pub primary_entity_decision_id : ℕ
  pub reason : Option String

-- The decision that the request names, where it is the current one of the policy.
unfoldable pub current_target :
    Option PrimaryEntityDecision
    → Option PrimaryEntityDecision
    → Result ProjectError PrimaryEntityDecision
current_target (some current) (some target) =
    if target.id == current.id then ok target else err primary_entity_missing
current_target _ _ = err primary_entity_missing

unfoldable pub with_entity : PrimaryEntityDecision → Project → Project
with_entity target p = record p {
  primary_entity_decision_id = target.id;
  primary_entity_seed_code = target.entity_seed_code;
  primary_entity_legal_name = target.entity_legal_name;
  version = p.version + 1;
}

abbrev entity_values : Project → List (String × Value)
entity_values p =
    ("primary_entity_decision_id", number p.primary_entity_decision_id)
    ∷ ("primary_entity_seed_code", text p.primary_entity_seed_code)
    ∷ []

unfoldable pub stored_entity : Option String → Project → Project → User → Ledger → Ledger
stored_entity reason project changed actor ledger = record ledger {
  projects = save project_id changed ledger.projects;
  audits =
      record_event
        (record {
          action = "project_primary_entity_corrected";
          actor_id = some actor.id;
          object_type = "project";
          object_id = project.id;
          reason = reason;
          changes = before_after (entity_values project) (entity_values changed);
        })
        ledger.audits;
}

-- Nothing to do, or the flush and the audit.
unfoldable pub write_entity :
    Option String
    → PrimaryEntityDecision
    → Project
    → User
    → Ledger
    → Result ProjectError (Project × Ledger)
write_entity reason target project actor ledger =
    if project.primary_entity_decision_id == target.id
    then ok (project, ledger)
    else if row_is_accepted (with_entity target project)
    then ok (
      with_entity target project,
      stored_entity reason project (with_entity target project) actor ledger,
    )
    else err integrity_error

unfoldable pub correct_primary_entity :
    ℕ → ProjectPrimaryEntityCorrectionInput → User → Ledger → Result ProjectError (Project × Ledger)
correct_primary_entity n payload actor ledger = do
  project ← locked_at_version n payload.expected_version ledger
  raise_if (not (capabilities_for actor project).can_correct_primary_entity) project_write_forbidden
  policy ← or_raise (by_id policy_row_id project.policy_id ledger.policies) lookup_error
  target ←
      current_target (find (is_current_for policy.id) ledger.decisions)
        (by_id decision_id payload.primary_entity_decision_id ledger.decisions)
  write_entity payload.reason target project actor ledger
