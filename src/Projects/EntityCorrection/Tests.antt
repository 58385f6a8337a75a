-- ===== src/Projects/EntityCorrection/Tests.antt =====
-- The theorems on entity corrections at a valid ledger.
use policy_project_managemen.Prelude.{none, some, [], ◌∷◌}
use policy_project_managemen.Projects.Rows.{Ledger}
use policy_project_managemen.Projects.Validity.{IsValid, After}
use policy_project_managemen.Projects.Samples.{owner, decision_for, ledger, ledger-IsValid}
use policy_project_managemen.Projects.EntityCorrection.{
  ProjectPrimaryEntityCorrectionInput, correct_primary_entity,
}
use policy_project_managemen.Projects.EntityCorrection.Effects.{
  IsCorrected, correct_primary_entity-IsCorrected,
}

-- The ledger after another entity was chosen for the policy of the project.
abbrev rechosen : Ledger
rechosen = record ledger {
  decisions = record (decision_for 3 7) { superseded_at = some 9 } ∷ decision_for 5 7 ∷ [];
}

rechosen-IsValid : IsValid rechosen
rechosen-IsValid = record {
  sound = ledger-IsValid.sound;
  distinct = ledger-IsValid.distinct;
  numbered = ledger-IsValid.numbered;
  outbox_valid = ledger-IsValid.outbox_valid;
}

abbrev request : ProjectPrimaryEntityCorrectionInput
request = record { expected_version = 1; primary_entity_decision_id = 5; reason = none }

correct_primary_entity-IsCorrected_example :
    After IsCorrected (correct_primary_entity 1 request owner rechosen)
correct_primary_entity-IsCorrected_example =
    correct_primary_entity-IsCorrected 1 request owner rechosen rechosen-IsValid
