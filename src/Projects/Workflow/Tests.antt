-- ===== src/Projects/Workflow/Tests.antt =====
-- The workflow's theorems at inputs that meet their hypotheses.
use policy_project_managemen.Prelude.{
  ℕ, ◌≡◌, ◌↔◌, refl, String, true, Option, none, some, succeeds, arith,
}
use policy_project_managemen.Projects.Status.{
  ProjectStatus, submitted, succeeded, terminated, ProjectTransitionInput, ProjectCorrectionInput,
}
use policy_project_managemen.Projects.Workflow.{StatusValues, apply_transition, apply_correction}
use policy_project_managemen.Projects.Workflow.Graph.{Permits, apply_transition-iff-Permits}
use policy_project_managemen.Projects.Workflow.Consistency.{
  Fits, Breaks, Undone, apply_transition-Fits, apply_correction-Fits, correction_violates_checks,
  correction_undoes_termination,
}

abbrev values : Option ℕ → Option String → StatusValues
values day note = record {
  submitted_on = day;
  result_on = none;
  result_note = none;
  termination_note = note;
}

abbrev to_status : ProjectStatus → Option ℕ → Option String → ProjectTransitionInput
to_status target day note = record {
  expected_version = 1;
  target_status = target;
  submitted_on = none;
  result_on = day;
  result_note = none;
  termination_note = note;
}

abbrev back_to : ProjectStatus → ProjectCorrectionInput
back_to target = record { change = to_status target none none; reason = some "by mistake" }

apply_transition-iff-Permits_example :
    (succeeds
        (apply_transition submitted (values (some 10) none) (to_status succeeded (some 12) none) 15)
      ≡ true)
    ↔ Permits submitted succeeded (values (some 10) none) (to_status succeeded (some 12) none) 15
apply_transition-iff-Permits_example =
    apply_transition-iff-Permits submitted (values (some 10) none)
      (to_status succeeded (some 12) none) 15

apply_transition-Fits_example :
    Fits
      (values (some 10) none)
      15
      (apply_transition submitted (values (some 10) none) (to_status succeeded (some 12) none) 15)
apply_transition-Fits_example =
    apply_transition-Fits submitted (values (some 10) none) (to_status succeeded (some 12) none) 15
      refl (omega arith)

apply_correction-Fits_example : Fits (values (some 10) (some "withdrawn")) 15 (
    apply_correction terminated
      (values (some 10) (some "withdrawn"))
      (some submitted)
      (back_to submitted)
      15)
apply_correction-Fits_example =
    apply_correction-Fits terminated (values (some 10) (some "withdrawn")) (some submitted)
      (back_to submitted) 15 refl (omega arith) (λ e. refl)

correction_violates_checks_example : Breaks (values none (some "withdrawn")) (
    apply_correction terminated
      (values none (some "withdrawn"))
      (some submitted)
      (back_to submitted)
      15)
correction_violates_checks_example =
    correction_violates_checks (values none (some "withdrawn")) (back_to submitted) 15 refl refl

correction_undoes_termination_example :
    Undone submitted (values (some 10) none) (back_to submitted) 20 (
      apply_transition submitted
        (values (some 10) none)
        (to_status terminated none (some "withdrawn"))
        15)
correction_undoes_termination_example =
    correction_undoes_termination submitted (values (some 10) none)
      (to_status terminated none (some "withdrawn")) (back_to submitted) 15 20 refl refl refl refl
      refl
