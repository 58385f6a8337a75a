-- ===== src/Projects/StatusChange/Tests.antt =====
-- The theorems on status changes at a valid ledger.
use policy_project_managemen.Prelude.{◌≡◌, refl, none, some, List, [], ◌∷◌, map, Result, ok, err}
use policy_project_managemen.Projects.Events.{project_first_status_notification_event}
use policy_project_managemen.Projects.Status.{
  ProjectStatus, ProjectError, pending_application, submitted, terminated, ProjectTransitionInput,
  ProjectCorrectionInput,
}
use policy_project_managemen.Projects.Workflow.{apply_transition, apply_correction}
use policy_project_managemen.Projects.Rows.{Project, Ledger, row_is_accepted}
use policy_project_managemen.Projects.Validity.{After, ValidAfter}
use policy_project_managemen.Projects.StatusChange.{
  enqueue_first_status, transition, correct_status, persist_status_change, changed_project,
  persisted, pre_termination_status,
}
use policy_project_managemen.Projects.Permissions.{capabilities_for, has_owner_role}
use policy_project_managemen.Prelude.Text.{has_text}
use policy_project_managemen.Projects.StatusChange.Records.{transition-IsValid}
use policy_project_managemen.Projects.StatusChange.Effects.{
  IsNotRefused, Moves, IsFenced, transition-IsNotRefused, transition_effect, no_lost_update,
}
use policy_project_managemen.Projects.Samples.{owner, ledger, ledger-IsValid, moment}

abbrev submission : ProjectTransitionInput
submission = record {
  expected_version = 1;
  target_status = submitted;
  submitted_on = some 50;
  result_on = none;
  result_note = none;
  termination_note = none;
}

transition-IsValid_example : ValidAfter (transition moment 1 submission owner ledger)
transition-IsValid_example =
    transition-IsValid moment 1 owner ledger ledger-IsValid (λ o v. v) submission

abbrev termination : ProjectTransitionInput
termination = record submission {
  target_status = terminated;
  submitted_on = none;
  termination_note = some "withdrawn";
}

-- The ledger after a call, as before where it raises.
abbrev left : Ledger → Result ProjectError (Project × Ledger) → Ledger
left l (ok (p, l')) = l'
left l (err e) = l

abbrev terminated_ledger : Ledger
terminated_ledger = left ledger (transition moment 1 termination owner ledger)

-- The way back from the termination.
abbrev reopening : ProjectCorrectionInput
reopening = record {
  change = record termination {
    expected_version = 2;
    target_status = pending_application;
    termination_note = none;
  };
  reason = some "mistake";
}

abbrev statuses : Ledger → List ProjectStatus
statuses l = map (λ (p : Project). p.status) l.projects

reopened :
    statuses (left terminated_ledger (correct_status moment 1 reopening owner terminated_ledger))
    ≡ pending_application ∷ []
unfolding correct_status transition persist_status_change apply_correction apply_transition
    row_is_accepted capabilities_for has_owner_role has_text changed_project persisted
    pre_termination_status enqueue_first_status project_first_status_notification_event
reopened = refl

transition-IsNotRefused_example : IsNotRefused (transition moment 1 submission owner ledger)
transition-IsNotRefused_example =
    transition-IsNotRefused moment 1 submission owner ledger ledger-IsValid

transition_effect_example : Moves ledger 1 1 submitted (transition moment 1 submission owner ledger)
transition_effect_example = transition_effect moment 1 submission owner ledger

no_lost_update_example : After (IsFenced 1 1) (transition moment 1 submission owner ledger)
no_lost_update_example = no_lost_update moment 1 submission owner ledger
