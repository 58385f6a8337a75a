-- ===== src/Projects/Update/Tests.antt =====
-- The theorems on updates at a valid ledger.
use policy_project_managemen.Prelude.{◌≡◌, refl, true, false, some, [], ◌∷◌}
use policy_project_managemen.Prelude.Text.{has_text}
use policy_project_managemen.Projects.Permissions.{has_owner_role}
use policy_project_managemen.Projects.Validity.{After}
use policy_project_managemen.Projects.StatusChange.Effects.{IsNotRefused}
use policy_project_managemen.Projects.Samples.{owner, liaison, pilot, ledger, ledger-IsValid}
use policy_project_managemen.Projects.Update.{unset, given, ProjectUpdateInput, update_project}
use policy_project_managemen.Projects.Update.Effects.{update_project-IsNotRefused}
use policy_project_managemen.Projects.Update.Limits.{IsLimited, update_limits}

abbrev note_update : ProjectUpdateInput
note_update = record {
  expected_version = 1;
  name = unset;
  deadline_on = unset;
  liaison_user_id = unset;
  member_user_ids = unset;
  submitted_on = unset;
  result_on = unset;
  progress_note = given (some "on its way");
  result_note = unset;
  termination_note = unset;
}

abbrev owner_update : ProjectUpdateInput
owner_update = record note_update {
  name = given (some "Second pilot");
  member_user_ids = given (some (1 ∷ 2 ∷ []));
}

second_pilot_has_text : has_text "Second pilot" ≡ true
unfolding has_text
second_pilot_has_text = refl

update_project-IsNotRefused_example :
    IsNotRefused (update_project 1000 60 1 owner_update owner ledger)
update_project-IsNotRefused_example =
    update_project-IsNotRefused 1000 60 1 owner_update owner ledger ledger-IsValid
      second_pilot_has_text refl

no_owner : has_owner_role liaison ≡ false
unfolding has_owner_role
no_owner = refl

update_limits_example :
    After (IsLimited pilot) (update_project 1000 60 1 note_update liaison ledger)
update_limits_example = update_limits 1 note_update liaison ledger pilot refl 1000 60 no_owner
