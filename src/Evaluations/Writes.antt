-- ===== src/Evaluations/Writes.antt =====
-- What a worker writes to the tables: the results of the adapter, and a failure, in
-- `process_claimed` and `fail_claimed` of `EvaluationService`
-- (backend/app/modules/evaluations/service.py).
use policy_project_managemen.Prelude.{
  ℕ, String, Bool, true, false, not, ◌&&◌, Option, none, some, List, [], ◌∷◌, ◌++◌, Result, ok, err,
  ◌>>=◌, ◌>>◌, raise_if, or_raise, by_id, save, any, ltb, ◌==◌, if◌then◌else◌,
}
use policy_project_managemen.Prelude.Text.{str_eq}
use policy_project_managemen.Audit.{text, fields}
use policy_project_managemen.Notifications.Delivery.{NotificationEvent}
use policy_project_managemen.Notifications.Service.{Sessions, Outbox}
use policy_project_managemen.Notifications.Service as Notify
use policy_project_managemen.Projects.Rows.{
  Policy, policy_row_id, ConclusionSource, system_suggestion, Conclusion,
}
use policy_project_managemen.Evaluations.Rows.{
  running, awaiting_confirmation, failed, evaluation_status_eq, EntityEvaluationResult,
  EvaluationResult, names_each_entity, EvaluationProviderResult, BusinessEntity, RuleSnapshot,
  EvaluationBatch, EntityEvaluation, PolicyVersion, EvaluationBook, batch_key, version_key,
  EvaluationError, evaluation_claim_lost, value_error, integrity_error, adapter_error,
}
use policy_project_managemen.Evaluations.Events.{evaluation_notification_event}
use policy_project_managemen.Evaluations.Queue.{batch_audit, store_batch}

pub record EvaluationRequest : Type 0 where
  pub policy_version_id : ℕ
  pub title : String
  pub body_text : String
  pub profile_snapshot : List BusinessEntity
  pub rule_version_id : Option ℕ
  pub rule_snapshot : Option RuleSnapshot

-- How `adapter.evaluate` ends: with a result of a provider, with a bare result that is validated
-- then, or with an exception.
pub data AdapterEnd : Type 0 where
  provided : EvaluationProviderResult → AdapterEnd
  evaluated : EvaluationResult → AdapterEnd
  adapter_raised : AdapterEnd

unfoldable pub request_of : EvaluationBatch → PolicyVersion → EvaluationRequest
request_of batch version = record {
  policy_version_id = version.id;
  title = version.title;
  body_text = version.body_text;
  profile_snapshot = batch.profile_snapshot;
  rule_version_id = batch.rule_version_id;
  rule_snapshot = batch.rule_snapshot;
}

-- `result` and `provider_result`
unfoldable pub results_of :
    AdapterEnd → Result EvaluationError (EvaluationResult × Option EvaluationProviderResult)
results_of (provided p) = ok (p.result, some p)
results_of (evaluated result) =
    if names_each_entity result.entities then ok (result, none) else err value_error
results_of adapter_raised = err adapter_error

abbrev pub has_token : Option String → String → Bool
has_token none token = false
has_token (some t) token = str_eq t token

-- `status == "running" and claim_token == claim_token`
abbrev pub holds_claim : String → EvaluationBatch → Bool
holds_claim token batch =
    evaluation_status_eq batch.status running && has_token batch.claim_token token

-- The columns of a provider's result.
with_provider : Option EvaluationProviderResult → EvaluationBatch → EvaluationBatch
with_provider none batch = batch
with_provider (some p) batch = record batch {
  provider_request_id = p.request_id;
  input_tokens = p.input_tokens;
  output_tokens = p.output_tokens;
  retry_count = p.retry_count;
}

unfoldable pub evaluated_batch :
    ℕ → EvaluationResult → Option EvaluationProviderResult → EvaluationBatch → EvaluationBatch
unfolding with_provider
evaluated_batch now result provider batch = record (with_provider provider batch) {
  summary = some result.summary;
  key_conditions = some result.key_conditions;
  conclusion = some result.conclusion;
  raw_response = some result;
  status = awaiting_confirmation;
  finished_at = some now;
}

abbrev pub is_suggestion : ConclusionSource → Bool
is_suggestion system_suggestion = true
is_suggestion _ = false

-- `is None or < batch_id`
abbrev pub is_older : Option ℕ → ℕ → Bool
is_older none batch_id = true
is_older (some current) batch_id = ltb current batch_id

-- The projection of the policy takes a newer suggestion, unless a person has decided.
unfoldable pub suggested_policy : ℕ → Conclusion → Policy → Policy
suggested_policy batch_id conclusion policy =
    if is_older policy.current_evaluation_batch_id batch_id
    then if is_suggestion policy.current_conclusion_source
      then record policy {
        current_evaluation_batch_id = some batch_id;
        current_conclusion = conclusion;
        conclusion_confirmed = false;
        conclusion_confirmed_at = none;
      }
      else record policy { current_evaluation_batch_id = some batch_id }
    else policy

abbrev pub result_row : ℕ → EntityEvaluationResult → EntityEvaluation
result_row batch_id entity = record {
  batch_id = batch_id;
  entity_seed_code = entity.entity_seed_code;
  match_level = entity.match_level;
  evidence = entity.evidence;
  unmet_conditions = entity.unmet_conditions;
  risks = entity.risks;
  recommended_action = entity.recommended_action;
  score = some entity.score;
  hard_rule_results = some entity.hard_rule_results;
  weighted_rule_results = some entity.weighted_rule_results;
}

-- The unique constraint on the batch and the code.
abbrev pub is_row_of : ℕ → String → EntityEvaluation → Bool
is_row_of batch_id code row = row.batch_id == batch_id && str_eq row.entity_seed_code code

unfoldable pub add_results :
    ℕ
    → List EntityEvaluationResult
    → List EntityEvaluation
    → Result EvaluationError (List EntityEvaluation)
add_results batch_id [] rows = ok rows
add_results batch_id (e ∷ entities) rows =
    if any (is_row_of batch_id e.entity_seed_code) rows
    then err integrity_error
    else add_results batch_id entities (rows ++ result_row batch_id e ∷ [])

abbrev pub enqueue_event :
    Sessions → ℕ → Option NotificationEvent → EvaluationBook → Result EvaluationError EvaluationBook
enqueue_event others now none book = ok book
enqueue_event others now (some event) book =
    Notify.stored integrity_error (Notify.enqueue others event now book.outbox) >>= λ outbox.
    ok (record book { outbox = outbox })

-- The tables with the results, before the notification.
abbrev pub with_results :
    EvaluationBatch → Policy → List EntityEvaluation → EvaluationBook → EvaluationBook
with_results batch policy rows book = record book {
  batches = save batch_key batch book.batches;
  policies = save policy_row_id policy book.policies;
  entity_evaluations = rows;
}

-- The second transaction of `process_claimed`, under the lock of the batch.
unfoldable pub write_results :
    Sessions
    → ℕ
    → ℕ
    → ℕ
    → String
    → EvaluationResult
    → Option EvaluationProviderResult
    → EvaluationBook
    → Result EvaluationError (EvaluationBatch × EvaluationBook)
write_results others now batch_id version_id token result provider book = do
  batch ← or_raise (by_id batch_key batch_id book.batches) value_error
  version ← or_raise (by_id version_key version_id book.versions) value_error
  raise_if (not (holds_claim token batch)) evaluation_claim_lost
  policy ← or_raise (by_id policy_row_id version.policy_id book.policies) value_error
  rows ← add_results batch.id result.entities book.entity_evaluations
  event ← evaluation_notification_event (evaluated_batch now result provider batch) (
      with_results (evaluated_batch now result provider batch)
        (suggested_policy batch.id result.conclusion policy) rows book)
  written ← enqueue_event others now event (
      with_results (evaluated_batch now result provider batch)
        (suggested_policy batch.id result.conclusion policy) rows book)
  ok (evaluated_batch now result provider batch, written)

unfoldable pub failed_batch : ℕ → EvaluationBatch → EvaluationBatch
failed_batch now batch = record batch {
  status = failed;
  error_message = some "evaluation_processing_failed";
  finished_at = some now;
}

abbrev fail_written : ℕ → EvaluationBatch → EvaluationBook → EvaluationBatch × EvaluationBook
fail_written now batch book = (
  failed_batch now batch,
  store_batch (failed_batch now batch)
      (batch_audit "evaluation_failed" none batch.id none
        (fields (("error_code", text "evaluation_processing_failed") ∷ [])))
      book,
)

unfoldable pub fail_claimed :
    ℕ → ℕ → String → EvaluationBook → Result EvaluationError (EvaluationBatch × EvaluationBook)
fail_claimed now batch_id token book = do
  batch ← or_raise (by_id batch_key batch_id book.batches) value_error
  ok (if holds_claim token batch then fail_written now batch book else (batch, book))
