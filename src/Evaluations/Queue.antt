-- ===== src/Evaluations/Queue.antt =====
-- Evaluation batches before an adapter sees them: `enqueue`, `enqueue_for_policy`, `cancel` and
-- `claim_next` of `EvaluationService` (backend/app/modules/evaluations/service.py).
use policy_project_managemen.Prelude.{
  ℕ, ◌+◌, String, Bool, true, not, ◌&&◌, ◌||◌, Option, none, some, List, [], ◌∷◌, ◌++◌, map, Result,
  ok, err, ◌>>=◌, ◌>>◌, raise_if, or_raise, by_id, save, find, select, sort_by, leb, if◌then◌else◌,
}
use policy_project_managemen.Prelude.Text.{str_eq, is_nonempty, strip}
use policy_project_managemen.Audit.{AuditEvent, Changes, no_changes, list_eq, record_event}
use policy_project_managemen.EvaluationRules.{EvaluationRuleVersion, get_active_version}
use policy_project_managemen.Projects.Rows.{Policy, policy_row_id}
use policy_project_managemen.Evaluations.Rows.{
  EvaluationStatus, pending, running, cancelled, evaluation_status_eq, BusinessEntity, entity_codes,
  RuleSnapshot, EvaluationBatch, EvaluationBook, batch_key, EvaluationError,
  evaluation_policy_not_found, no_published_evaluation_rule, evaluation_batch_not_found,
  evaluation_cancellation_conflict, value_error,
}

-- `get_settings()`
pub record Settings : Type 0 where
  pub ai_adapter : String
  pub deepseek_model : String

abbrev of_code : List BusinessEntity → String → List BusinessEntity
of_code entities code = select (λ e. str_eq e.seed_code code) entities

-- The entities of the three codes, in the order of the codes.
unfoldable pub ordered_entities : List String → List BusinessEntity → List BusinessEntity
ordered_entities [] entities = []
ordered_entities (code ∷ codes) entities = of_code entities code ++ ordered_entities codes entities

abbrev pub seed_codes : List BusinessEntity → List String
seed_codes entities = map (λ (e : BusinessEntity). e.seed_code) entities

-- `rule_snapshot`
unfoldable pub rule_snapshot_of : EvaluationRuleVersion → RuleSnapshot
rule_snapshot_of rule_version = record {
  id = rule_version.id;
  rule_set_id = rule_version.rule_set_id;
  version_number = rule_version.version_number;
  status = rule_version.status;
  hard_rules = rule_version.hard_rules;
  weighted_rules = rule_version.weighted_rules;
  prompt_version = rule_version.prompt_version;
  high_match_score_threshold = rule_version.high_match_score_threshold;
}

unfoldable pub new_batch :
    Settings → ℕ → ℕ → EvaluationRuleVersion → List BusinessEntity → EvaluationBatch
unfolding rule_snapshot_of
new_batch settings id policy_version_id rule_version entities = record {
  id = id;
  policy_version_id = policy_version_id;
  rule_version_id = some rule_version.id;
  rule_snapshot = some (rule_snapshot_of rule_version);
  status = pending;
  prompt_version = rule_version.prompt_version;
  adapter_key = settings.ai_adapter;
  model_name = if str_eq settings.ai_adapter "mock" then none else some settings.deepseek_model;
  claim_token = none;
  profile_snapshot = entities;
  summary = none;
  key_conditions = none;
  conclusion = none;
  raw_response = none;
  retry_count = 0;
  provider_request_id = none;
  input_tokens = none;
  output_tokens = none;
  cancelled_by = none;
  cancelled_at = none;
  cancel_reason = none;
  error_message = none;
  started_at = none;
  finished_at = none;
}

abbrev pub batch_audit : String → Option ℕ → ℕ → Option String → Changes → AuditEvent
batch_audit action actor_id batch_id reason changes = record {
  action = action;
  actor_id = actor_id;
  object_type = "evaluation_batch";
  object_id = batch_id;
  reason = reason;
  changes = changes;
}

-- `EvaluationRuleService.get_active_version`, with its exception translated
abbrev pub active_rules : EvaluationBook → Result EvaluationError EvaluationRuleVersion
active_rules book = elim (get_active_version book.rules) [
  | ok rule_version ↦ ok rule_version
  | err e ↦ err no_published_evaluation_rule
]

abbrev pub with_batch :
    EvaluationBatch → Option ℕ → EvaluationBook → EvaluationBatch × EvaluationBook
with_batch batch actor_id book = (
  batch,
  record book {
    batches = book.batches ++ batch ∷ [];
    next_batch_id = book.next_batch_id + 1;
    audits =
        record_event (batch_audit "evaluation_started" actor_id batch.id none no_changes)
          book.audits;
  },
)

-- `[entity.seed_code for entity in entities] == list(ENTITY_ORDER)`
abbrev pub has_each_entity : EvaluationBook → Bool
has_each_entity book =
    list_eq (λ s t. str_eq s t) (seed_codes (ordered_entities entity_codes book.business_entities))
      entity_codes

unfoldable pub enqueue :
    Settings
    → ℕ
    → Option ℕ
    → EvaluationBook
    → Result EvaluationError (EvaluationBatch × EvaluationBook)
enqueue settings policy_version_id actor_id book = do
  raise_if (not (has_each_entity book)) value_error
  rule_version ← active_rules book
  ok (
      with_batch
        (new_batch settings book.next_batch_id policy_version_id rule_version
          (ordered_entities entity_codes book.business_entities))
        actor_id book)

abbrev pub current_version : Option Policy → Option ℕ
current_version none = none
current_version (some policy) = policy.current_version_id

unfoldable pub enqueue_for_policy :
    Settings
    → ℕ
    → Option ℕ
    → EvaluationBook
    → Result EvaluationError (EvaluationBatch × EvaluationBook)
enqueue_for_policy settings policy_id actor_id book = do
  policy_version_id ←
      or_raise (current_version (by_id policy_row_id policy_id book.policies))
        evaluation_policy_not_found
  enqueue settings policy_version_id actor_id book

-- `reason.strip() or None if reason else None`
unfoldable pub cancel_reason_of : Option String → Option String
cancel_reason_of none = none
cancel_reason_of (some reason) = if is_nonempty (strip reason) then some (strip reason) else none

unfoldable pub cancelled_batch : ℕ → Option String → ℕ → EvaluationBatch → EvaluationBatch
cancelled_batch now reason actor_id batch = record batch {
  status = cancelled;
  cancelled_by = some actor_id;
  cancelled_at = some now;
  cancel_reason = cancel_reason_of reason;
  finished_at = some now;
  claim_token = none;
}

-- A changed batch is flushed, and the change recorded.
abbrev pub store_batch : EvaluationBatch → AuditEvent → EvaluationBook → EvaluationBook
store_batch batch event book = record book {
  batches = save batch_key batch book.batches;
  audits = record_event event book.audits;
}

abbrev cancel_written :
    ℕ → Option String → ℕ → EvaluationBatch → EvaluationBook → EvaluationBatch × EvaluationBook
cancel_written now reason actor_id batch book = (
  cancelled_batch now reason actor_id batch,
  store_batch (cancelled_batch now reason actor_id batch)
      (batch_audit "evaluation_cancelled" (some actor_id) batch.id (cancel_reason_of reason)
        no_changes)
      book,
)

abbrev pub is_cancellable : EvaluationStatus → Bool
is_cancellable status = evaluation_status_eq status pending || evaluation_status_eq status running

unfoldable pub cancel :
    ℕ
    → ℕ
    → Option String
    → ℕ
    → EvaluationBook
    → Result EvaluationError (EvaluationBatch × EvaluationBook)
cancel now batch_id reason actor_id book = elim (by_id batch_key batch_id book.batches) [
  | none ↦ err evaluation_batch_not_found
  | some batch ↦
      if evaluation_status_eq batch.status cancelled
      then ok (batch, book)
      else if is_cancellable batch.status
      then ok (cancel_written now reason actor_id batch book)
      else err evaluation_cancellation_conflict
]

-- 15 minutes, in microseconds
abbrev pub stale_after : ℕ
stale_after = 900_000_000

-- `started_at IS NULL OR started_at <= stale_before`
abbrev pub is_stale : ℕ → Option ℕ → Bool
is_stale now none = true
is_stale now (some started) = leb (started + stale_after) now

-- The query of `claim_next`; the rows of `locked` are skipped.
unfoldable pub is_claimable : (ℕ → Bool) → ℕ → EvaluationBatch → Bool
is_claimable locked now batch =
    not (locked batch.id)
    && (evaluation_status_eq batch.status pending
        || evaluation_status_eq batch.status running && is_stale now batch.started_at)

unfoldable pub claimed : ℕ → String → EvaluationBatch → EvaluationBatch
claimed now token batch = record batch {
  status = running;
  started_at = some now;
  claim_token = some token;
}

-- `claim_next`; `token` is the new UUID.
unfoldable pub claim_next :
    (ℕ → Bool) → ℕ → String → EvaluationBook → Option EvaluationBatch × EvaluationBook
claim_next locked now token book =
    elim (find (is_claimable locked now) (sort_by (λ a b. leb a.id b.id) book.batches)) [
      | none ↦ (none, book)
      | some batch ↦ (
        some (claimed now token batch),
        record book { batches = save batch_key (claimed now token batch) book.batches },
      )
    ]
