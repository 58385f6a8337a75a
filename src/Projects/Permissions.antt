-- ===== src/Projects/Permissions.antt =====
-- Who may do what with a project (backend/app/modules/projects/permissions.py).
use policy_project_managemen.Prelude.{
  Bool, true, false, not, ◌&&◌, List, ◌==◌, any, all, if◌then◌else◌, Result, ok, err,
}
use policy_project_managemen.Prelude.Text.{str_eq}
use policy_project_managemen.Projects.Status.{ProjectError, project_write_forbidden}
use policy_project_managemen.Projects.Rows.{User, Project}

-- The fields of `ProjectUpdateInput` other than the expected version.
pub data UpdateField : Type 0 where
  name deadline_on liaison_user_id member_user_ids : UpdateField
  submitted_on result_on progress_note result_note termination_note : UpdateField

-- `field in LIAISON_UPDATE_FIELDS`
unfoldable pub is_liaison_field : UpdateField → Bool
is_liaison_field submitted_on = true
is_liaison_field result_on = true
is_liaison_field progress_note = true
is_liaison_field result_note = true
is_liaison_field termination_note = true
is_liaison_field _ = false

pub record ProjectCapabilities : Type 0 where
  pub can_edit_project : Bool
  pub can_update_progress : Bool
  pub can_transition : Bool
  pub can_correct_status : Bool
  pub can_correct_primary_entity : Bool

-- `_has_owner_role`
unfoldable pub has_owner_role : User → Bool
has_owner_role actor = any (λ role. str_eq role "applicant_owner") actor.roles

abbrev capabilities : Bool → Bool → Bool → Bool → Bool → ProjectCapabilities
capabilities edit progress change correct entity = record {
  can_edit_project = edit;
  can_update_progress = progress;
  can_transition = change;
  can_correct_status = correct;
  can_correct_primary_entity = entity;
}

unfoldable pub capabilities_for : User → Project → ProjectCapabilities
capabilities_for actor project =
    if not actor.is_active
    then capabilities false false false false false
    else if has_owner_role actor
    then capabilities true true true true true
    else if actor.id == project.liaison_user_id
    then capabilities false true true true false
    else capabilities false false false false false

-- `assert_update_fields_allowed`
unfoldable pub assert_update_fields_allowed :
    Project → User → List UpdateField → Result ProjectError (Unit {0})
assert_update_fields_allowed project actor requested =
    if (capabilities_for actor project).can_edit_project
    then ok tt
    else if (capabilities_for actor project).can_update_progress && all is_liaison_field requested
    then ok tt
    else err project_write_forbidden
