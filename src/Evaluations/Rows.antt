-- ===== src/Evaluations/Rows.antt =====
-- The rows of the evaluations (backend/app/modules/evaluations/models.py), what the adapters and
-- the requests carry (contracts.py, schemas.py), and the tables that the service reads and writes.
use policy_project_managemen.Prelude.{
  ℕ, String, Bool, true, false, ◌&&◌, Option, List, [], ◌∷◌, any, all, map,
}
use policy_project_managemen.Prelude.Text.{str_eq}
use policy_project_managemen.Audit.{AuditEvent}
use policy_project_managemen.Notifications.Service.{Outbox}
use policy_project_managemen.EvaluationRules.{HardRule, WeightedRule, RuleStatus, RuleBook}
use policy_project_managemen.Projects.Rows.{
  Conclusion, ConclusionSource, Policy, PrimaryEntityDecision,
}

pub data EvaluationStatus : Type 0 where
  pending running succeeded awaiting_confirmation confirmed cancelled failed : EvaluationStatus

abbrev pub evaluation_status_eq : EvaluationStatus → EvaluationStatus → Bool
evaluation_status_eq pending pending = true
evaluation_status_eq running running = true
evaluation_status_eq succeeded succeeded = true
evaluation_status_eq awaiting_confirmation awaiting_confirmation = true
evaluation_status_eq confirmed confirmed = true
evaluation_status_eq cancelled cancelled = true
evaluation_status_eq failed failed = true
evaluation_status_eq _ _ = false

pub data MatchLevel : Type 0 where
  high medium low uncertain_level : MatchLevel

pub record HardRuleResult : Type 0 where
  pub rule_code : String
  pub passed : Option Bool
  pub hard_evidence : String

pub record WeightedRuleResult : Type 0 where
  pub rule_code : String
  pub rule_score : ℕ
  pub weighted_evidence : String

pub record EntityEvaluationResult : Type 0 where
  pub entity_seed_code : String
  pub match_level : MatchLevel
  pub score : ℕ
  pub hard_rule_results : List HardRuleResult
  pub weighted_rule_results : List WeightedRuleResult
  pub evidence : List String
  pub unmet_conditions : List String
  pub risks : List String
  pub recommended_action : String

-- `EvaluationResult`, also as the document `raw_response`, and the values of a confirmation
pub record EvaluationResult : Type 0 where
  pub summary : String
  pub key_conditions : List String
  pub conclusion : Conclusion
  pub entities : List EntityEvaluationResult

abbrev pub entity_codes : List String
entity_codes = "ENTITY-BEIJING" ∷ "ENTITY-SUZHOU" ∷ "ENTITY-SHENZHEN" ∷ []

abbrev pub three_long : List String → Bool
three_long (_ ∷ _ ∷ _ ∷ []) = true
three_long _ = false

-- `validate_entities`
unfoldable pub names_each_entity : List EntityEvaluationResult → Bool
names_each_entity entities =
    let codes = map (λ (e : EntityEvaluationResult). e.entity_seed_code) entities in
    three_long codes
    && all (λ code. any (str_eq code) entity_codes) codes
    && all (λ code. any (str_eq code) codes) entity_codes

pub record EvaluationProviderResult : Type 0 where
  pub result : EvaluationResult
  pub request_id : Option String
  pub input_tokens : Option ℕ
  pub output_tokens : Option ℕ
  pub retry_count : ℕ

pub record BusinessEntity : Type 0 where
  pub seed_code : String
  pub legal_name : String
  -- the document `data`, as a text
  pub document : String
  pub verification_status : String

pub record RuleSnapshot : Type 0 where
  pub id : ℕ
  pub rule_set_id : ℕ
  pub version_number : ℕ
  pub status : RuleStatus
  pub hard_rules : List HardRule
  pub weighted_rules : List WeightedRule
  pub prompt_version : String
  pub high_match_score_threshold : ℕ

pub record EvaluationBatch : Type 0 where
  pub id : ℕ
  pub policy_version_id : ℕ
  pub rule_version_id : Option ℕ
  pub rule_snapshot : Option RuleSnapshot
  pub status : EvaluationStatus
  pub prompt_version : String
  pub adapter_key : String
  pub model_name : Option String
  pub claim_token : Option String
  pub profile_snapshot : List BusinessEntity
  pub summary : Option String
  pub key_conditions : Option (List String)
  pub conclusion : Option Conclusion
  pub raw_response : Option EvaluationResult
  pub retry_count : ℕ
  pub provider_request_id : Option String
  pub input_tokens : Option ℕ
  pub output_tokens : Option ℕ
  pub cancelled_by : Option ℕ
  pub cancelled_at : Option ℕ
  pub cancel_reason : Option String
  pub error_message : Option String
  pub started_at : Option ℕ
  pub finished_at : Option ℕ

-- A row is the result for one entity of the batch.
pub record EntityEvaluation : Type 0 where
  pub batch_id : ℕ
  pub entity_seed_code : String
  pub match_level : MatchLevel
  pub evidence : List String
  pub unmet_conditions : List String
  pub risks : List String
  pub recommended_action : String
  pub score : Option ℕ
  pub hard_rule_results : Option (List HardRuleResult)
  pub weighted_rule_results : Option (List WeightedRuleResult)

pub record EvaluationConfirmation : Type 0 where
  pub batch_id : ℕ
  pub values : EvaluationResult
  pub change_reason : Option String
  pub primary_entity_seed_code : Option String
  pub confirmed_by : ℕ
  pub confirmed_at : ℕ

pub record PolicyConclusionDecision : Type 0 where
  pub id : ℕ
  pub policy_id : ℕ
  pub evaluation_batch_id : ℕ
  pub previous_conclusion : Conclusion
  pub conclusion : Conclusion
  pub source : ConclusionSource
  pub reason : Option String
  pub decided_by : ℕ
  pub decided_at : ℕ

pub record PolicyVersion : Type 0 where
  pub id : ℕ
  pub policy_id : ℕ
  pub version_number : ℕ
  pub title : String
  pub body_text : String
  pub body_html : String
  pub content_hash : String
  pub raw_snapshot_path : String
  pub collected_at : ℕ

pub record EvaluationConfirmationInput : Type 0 where
  pub values : EvaluationResult
  pub change_reason : Option String
  pub primary_entity_seed_code : Option String

pub record PrimaryEntityInput : Type 0 where
  pub entity_seed_code : String
  pub reason : Option String

-- The tables that the evaluation service reads and writes.
pub record EvaluationBook : Type 0 where
  pub business_entities : List BusinessEntity
  pub rules : RuleBook
  pub versions : List PolicyVersion
  pub policies : List Policy
  pub batches : List EvaluationBatch
  pub entity_evaluations : List EntityEvaluation
  pub confirmations : List EvaluationConfirmation
  pub conclusion_decisions : List PolicyConclusionDecision
  pub decisions : List PrimaryEntityDecision
  pub next_batch_id : ℕ
  pub next_conclusion_id : ℕ
  pub next_decision_id : ℕ
  pub audits : List AuditEvent
  pub outbox : Outbox

abbrev pub batch_key : EvaluationBatch → ℕ
batch_key b = b.id

abbrev pub version_key : PolicyVersion → ℕ
version_key v = v.id

-- The exceptions of the service; `value_error` and `integrity_error` are Python's and the
-- database's, `adapter_error` is any that an adapter raises.
pub data EvaluationError : Type 0 where
  evaluation_policy_not_found : EvaluationError
  evaluation_claim_lost : EvaluationError
  no_published_evaluation_rule : EvaluationError
  evaluation_batch_not_found : EvaluationError
  evaluation_cancellation_conflict : EvaluationError
  evaluation_not_awaiting_confirmation : EvaluationError
  confirmation_reason_required : EvaluationError
  confirmation_conflict : EvaluationError
  evaluation_not_confirmed : EvaluationError
  primary_entity_not_eligible : EvaluationError
  primary_entity_reason_required : EvaluationError
  policy_conclusion_reason_required : EvaluationError
  primary_entity_required_for_recommendation : EvaluationError
  value_error integrity_error adapter_error stop_iteration : EvaluationError
