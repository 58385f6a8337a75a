-- ===== src/Evaluations/Samples.antt =====
-- Small tables for tests: a policy with an evaluation that waits for its confirmation, and a new one.
use policy_project_managemen.Prelude.{◌++◌, ℕ, String, none, some, List, [], ◌∷◌, true, false}
use policy_project_managemen.Evaluations.Writes.{result_row}
use policy_project_managemen.Notifications.Service.History.{empty_outbox}
use policy_project_managemen.Projects.Rows.{recommend_apply, watch, system_suggestion, Policy}
use policy_project_managemen.EvaluationRules.{RuleBook}
use policy_project_managemen.Evaluations.Snapshots.{EvaluationSnapshot}
use policy_project_managemen.Evaluations.Rows.{
  failed, EntityEvaluation, EvaluationStatus, pending, running, awaiting_confirmation, high,
  EntityEvaluationResult, EvaluationResult, BusinessEntity, EvaluationBatch, PolicyVersion,
  EvaluationConfirmationInput, EvaluationBook,
}

abbrev pub result_for : String → EntityEvaluationResult
result_for code = record {
  entity_seed_code = code;
  match_level = high;
  score = 90;
  hard_rule_results = [];
  weighted_rule_results = [];
  evidence = "Article 3" ∷ [];
  unmet_conditions = [];
  risks = [];
  recommended_action = "Apply";
}

abbrev pub recommendation : EvaluationResult
recommendation = record {
  summary = "Fits";
  key_conditions = [];
  conclusion = recommend_apply;
  entities =
      result_for "ENTITY-BEIJING" ∷ result_for "ENTITY-SUZHOU" ∷ result_for "ENTITY-SHENZHEN" ∷ [];
}

abbrev pub entity_named : String → BusinessEntity
entity_named code = record {
  seed_code = code;
  legal_name = "Ltd";
  document = "{}";
  verification_status = "verified";
}

abbrev pub no_rules : RuleBook
no_rules = record {
  rule_sets = [];
  versions = [];
  next_set_id = 1;
  next_version_id = 1;
  audits = [];
}

abbrev pub batch_in : ℕ → EvaluationStatus → EvaluationBatch
batch_in n status = record {
  id = n;
  policy_version_id = 5;
  rule_version_id = none;
  rule_snapshot = none;
  status = status;
  prompt_version = "v1";
  adapter_key = "mock";
  model_name = none;
  claim_token = some "token";
  profile_snapshot =
      entity_named "ENTITY-BEIJING"
      ∷ entity_named "ENTITY-SUZHOU"
      ∷ entity_named "ENTITY-SHENZHEN"
      ∷ [];
  summary = none;
  key_conditions = none;
  conclusion = none;
  raw_response = some recommendation;
  retry_count = 0;
  provider_request_id = none;
  input_tokens = none;
  output_tokens = none;
  cancelled_by = none;
  cancelled_at = none;
  cancel_reason = none;
  error_message = none;
  started_at = some 10;
  finished_at = none;
}

abbrev pub subsidy : Policy
subsidy = record {
  id = 7;
  title = "Subsidy";
  document_number = none;
  published_on = none;
  deadline_on = some 90;
  current_version_id = some 5;
  current_evaluation_batch_id = some 1;
  current_conclusion = watch;
  conclusion_confirmed = false;
  current_conclusion_source = system_suggestion;
  conclusion_confirmed_at = none;
}

abbrev pub version : PolicyVersion
version = record {
  id = 5;
  policy_id = 7;
  version_number = 1;
  title = "Subsidy";
  body_text = "Article 3";
  body_html = "<p>Article 3</p>";
  content_hash = "c";
  raw_snapshot_path = "raw";
  collected_at = 2;
}

abbrev pub book_with : List EvaluationBatch → EvaluationBook
book_with batches = record {
  business_entities = [];
  rules = no_rules;
  versions = version ∷ [];
  policies = subsidy ∷ [];
  batches = batches;
  entity_evaluations = [];
  confirmations = [];
  conclusion_decisions = [];
  decisions = [];
  next_batch_id = 3;
  next_conclusion_id = 1;
  next_decision_id = 1;
  audits = [];
  outbox = empty_outbox;
}

-- One batch waits for its confirmation, and another for a worker.
abbrev pub waiting_book : EvaluationBook
waiting_book = book_with (batch_in 1 awaiting_confirmation ∷ batch_in 2 pending ∷ [])

-- The worker with the token "token" has one batch.
abbrev pub running_book : EvaluationBook
running_book = book_with (batch_in 1 running ∷ batch_in 2 pending ∷ [])

abbrev pub payload : EvaluationConfirmationInput
payload = record {
  values = recommendation;
  change_reason = none;
  primary_entity_seed_code = some "ENTITY-BEIJING";
}

-- Two evaluations with the same results, and one before them that did not end.
abbrev evaluated_batch : ℕ → EvaluationBatch
evaluated_batch n = record (batch_in n awaiting_confirmation) { conclusion = some recommend_apply }

abbrev pub evaluated_sample : EvaluationBatch
evaluated_sample = evaluated_batch 2

abbrev rows_for : ℕ → List EntityEvaluation
rows_for n =
    result_row n (result_for "ENTITY-BEIJING")
    ∷ result_row n (result_for "ENTITY-SUZHOU")
    ∷ result_row n (result_for "ENTITY-SHENZHEN")
    ∷ []

abbrev pub evaluated_sample_book : EvaluationBook
evaluated_sample_book =
    record (book_with (batch_in 0 failed ∷ evaluated_batch 1 ∷ evaluated_sample ∷ [])) {
      entity_evaluations = rows_for 1 ++ rows_for 2;
    }

abbrev pub snapshot : EvaluationSnapshot
snapshot = record {
  batch_id = 2;
  conclusion = recommend_apply;
  high_match = true;
  threshold = 80;
  entity_match_levels =
      ("ENTITY-BEIJING", high) ∷ ("ENTITY-SHENZHEN", high) ∷ ("ENTITY-SUZHOU", high) ∷ [];
}
