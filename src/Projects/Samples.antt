-- ===== src/Projects/Samples.antt =====
-- A small valid ledger for tests: one policy, one project that waits for its application.
use policy_project_managemen.Prelude.{ℕ, refl, true, none, some, [], ◌∷◌, arith}
use policy_project_managemen.Notifications.Service.{alone}
use policy_project_managemen.Prelude.Text.{has_text}
use policy_project_managemen.Notifications.Service.History.{empty_outbox, empty_outbox-IsValid}
use policy_project_managemen.Projects.Status.{pending_application}
use policy_project_managemen.Projects.Rows.{
  User, Policy, recommend_apply, evaluation_confirmation, PrimaryEntityDecision, Project,
  ProjectStatusHistory, created, Ledger, row_is_accepted,
}
use policy_project_managemen.Projects.Validity.{IsSound, IsValid}
use policy_project_managemen.Projects.StatusChange.{Moment}

abbrev pub owner : User
owner = record { id = 1; display_name = "Owner"; is_active = true; roles = "applicant_owner" ∷ [] }

abbrev pub liaison : User
liaison = record { id = 2; display_name = "Li"; is_active = true; roles = "reader" ∷ [] }

abbrev pub pilot_created : ProjectStatusHistory
pilot_created = record {
  id = 1;
  action = created;
  previous_status = none;
  new_status = pending_application;
  actor_id = 1;
  actor_display_name = "Owner";
  reason = none;
  related_date = none;
  before_values = [];
  after_values = [];
  from_version = 0;
  to_version = 1;
  occurred_at = 5;
}

abbrev pub pilot : Project
pilot = record {
  id = 1;
  policy_id = 7;
  name = "Pilot";
  primary_entity_decision_id = 3;
  primary_entity_seed_code = "alpha";
  primary_entity_legal_name = "Alpha Ltd";
  applicant_owner_id = 1;
  applicant_owner_display_name = "Owner";
  liaison_user_id = 2;
  liaison_display_name = "Li";
  status = pending_application;
  deadline_on = some 90;
  submitted_on = none;
  result_on = none;
  progress_note = none;
  result_note = none;
  termination_note = none;
  creation_idempotency_key = "key-1";
  creation_request_fingerprint = "f";
  version = 1;
  created_by = 1;
  members = [];
  history = pilot_created ∷ [];
}

abbrev pub policy_numbered : ℕ → Policy
policy_numbered n = record {
  id = n;
  title = "Subsidy";
  document_number = none;
  published_on = none;
  deadline_on = some 90;
  current_version_id = some n;
  current_evaluation_batch_id = some n;
  current_conclusion = recommend_apply;
  conclusion_confirmed = true;
  current_conclusion_source = evaluation_confirmation;
  conclusion_confirmed_at = some 4;
}

abbrev pub decision_for : ℕ → ℕ → PrimaryEntityDecision
decision_for n policy = record {
  id = n;
  policy_id = policy;
  batch_id = policy;
  entity_seed_code = "alpha";
  entity_legal_name = "Alpha Ltd";
  selected_by = 1;
  reason = none;
  selected_at = 4;
  superseded_at = none;
}

abbrev pub ledger : Ledger
ledger = record {
  users = owner ∷ liaison ∷ [];
  policies = policy_numbered 7 ∷ policy_numbered 8 ∷ [];
  decisions = decision_for 3 7 ∷ decision_for 4 8 ∷ [];
  projects = pilot ∷ [];
  next_project_id = 2;
  next_history_id = 2;
  audits = [];
  outbox = empty_outbox;
}

pilot-IsSound : IsSound pilot
unfolding row_is_accepted has_text
pilot-IsSound = record { accepted = refl; chain = ground arith }

pub ledger-IsValid : IsValid ledger
ledger-IsValid = record {
  sound = (pilot-IsSound, tt);
  distinct = (tt, tt);
  numbered = (omega arith, tt);
  outbox_valid = empty_outbox-IsValid;
}

-- Nothing is committed meanwhile.
abbrev pub moment : Moment
moment = record { now = 1000; today = 60; others = alone }
