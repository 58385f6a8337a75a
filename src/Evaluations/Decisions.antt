-- ===== src/Evaluations/Decisions.antt =====
-- What people decide on an evaluation: `confirm` of `EvaluationService` with what it calls
-- (backend/app/modules/evaluations/service.py).
use policy_project_managemen.Prelude.{
  ℕ, ◌+◌, String, Bool, true, false, not, ◌&&◌, Option, none, some, [], ◌∷◌, ◌++◌, Result, ok, err,
  ◌>>=◌, ◌>>◌, raise_if, or_raise, by_id, save, find, ◌==◌, if◌then◌else◌,
}
use policy_project_managemen.Prelude.Text.{str_eq, is_truthy}
use policy_project_managemen.Audit.{flag, fields, record_event}
use policy_project_managemen.Projects.Rows.{
  recommends, ConclusionSource, evaluation_confirmation, manual_override, Policy, policy_row_id,
  is_current_for,
}
use policy_project_managemen.Evaluations.Rows.{
  awaiting_confirmation, confirmed, evaluation_status_eq, EvaluationResult, EvaluationBatch,
  EvaluationConfirmation, PolicyConclusionDecision, EvaluationConfirmationInput, EvaluationBook,
  batch_key, version_key, EvaluationError, evaluation_batch_not_found,
  evaluation_not_awaiting_confirmation, confirmation_reason_required, confirmation_conflict,
  primary_entity_not_eligible, primary_entity_required_for_recommendation, value_error,
}
use policy_project_managemen.Evaluations.Values.{values_eq, normalized, stripped_reason}
use policy_project_managemen.Evaluations.Queue.{batch_audit}
use policy_project_managemen.Evaluations.Primaries.{names_entity, primary_choice, store_choice}

abbrev pub confirmation_of : ℕ → EvaluationConfirmation → Bool
confirmation_of batch_id c = c.batch_id == batch_id

abbrev opt_text_eq : Option String → Option String → Bool
opt_text_eq none none = true
opt_text_eq (some s) (some t) = str_eq s t
opt_text_eq _ _ = false

-- The primary entity of a repeated recommendation.
unfoldable pub same_primary :
    EvaluationConfirmation → Option String → Result EvaluationError (Unit {0})
same_primary existing none = err primary_entity_required_for_recommendation
same_primary existing (some code) =
    if not (names_entity code existing.values.entities)
    then err primary_entity_not_eligible
    else raise_if (not (opt_text_eq existing.primary_entity_seed_code (some code)))
        confirmation_conflict

-- The answer where a confirmation is there.
unfoldable pub confirm_again :
    EvaluationConfirmation
    → EvaluationConfirmationInput
    → EvaluationBook
    → Result EvaluationError (EvaluationConfirmation × EvaluationBook)
confirm_again existing payload book = do
  raise_if (not (values_eq (normalized existing.values) (normalized payload.values)))
      confirmation_conflict
  if recommends existing.values.conclusion
      then same_primary existing payload.primary_entity_seed_code
      else ok tt
  ok (existing, book)

-- `_append_conclusion_decision`: the decision, and the projection of the policy where it is asked for.
unfoldable pub append_conclusion_decision :
    PolicyConclusionDecision → EvaluationBook → EvaluationBook
append_conclusion_decision decision book = record book {
  conclusion_decisions = book.conclusion_decisions ++ decision ∷ [];
  next_conclusion_id = book.next_conclusion_id + 1;
}

unfoldable pub projected_policy : PolicyConclusionDecision → Policy → Policy
projected_policy decision policy = record policy {
  current_conclusion = decision.conclusion;
  conclusion_confirmed = true;
  current_conclusion_source = decision.source;
  conclusion_confirmed_at = some decision.decided_at;
}

abbrev pub is_override : ConclusionSource → Bool
is_override manual_override = true
is_override _ = false

unfoldable pub new_confirmation : ℕ → ℕ → ℕ → EvaluationConfirmationInput → EvaluationConfirmation
new_confirmation now batch_id actor_id payload = record {
  batch_id = batch_id;
  values = payload.values;
  change_reason = stripped_reason payload.change_reason;
  primary_entity_seed_code =
      if recommends payload.values.conclusion then payload.primary_entity_seed_code else none;
  confirmed_by = actor_id;
  confirmed_at = now;
}

abbrev pub confirmation_decision :
    ℕ → ℕ → EvaluationConfirmationInput → EvaluationResult → ℕ → ℕ → ℕ → PolicyConclusionDecision
confirmation_decision now id payload ai_values policy_id batch_id actor_id = record {
  id = id;
  policy_id = policy_id;
  evaluation_batch_id = batch_id;
  previous_conclusion = ai_values.conclusion;
  conclusion = payload.values.conclusion;
  source = evaluation_confirmation;
  reason = stripped_reason payload.change_reason;
  decided_by = actor_id;
  decided_at = now;
}

-- The policy that a confirmation leaves: the projection, unless a person overrode it, and the batch.
unfoldable pub confirmed_policy : PolicyConclusionDecision → Policy → Policy
confirmed_policy decision policy =
    record (if is_override policy.current_conclusion_source
      then policy
      else projected_policy decision policy) {
        current_evaluation_batch_id = some decision.evaluation_batch_id;
      }

unfoldable pub confirmed_batch : ℕ → EvaluationBatch → EvaluationBatch
confirmed_batch now batch = record batch { status = confirmed; finished_at = some now }

-- The rows of a confirmation other than the primary entity.
unfoldable pub with_confirmation :
    EvaluationConfirmation
    → PolicyConclusionDecision
    → EvaluationBatch
    → Policy
    → Bool
    → EvaluationBook
    → EvaluationBook
with_confirmation confirmation decision batch policy changed book =
    record (append_conclusion_decision decision book) {
      confirmations = book.confirmations ++ confirmation ∷ [];
      batches = save batch_key batch book.batches;
      policies = save policy_row_id policy book.policies;
      audits =
          record_event
            (batch_audit "evaluation_confirmed" (some confirmation.confirmed_by) batch.id
              confirmation.change_reason (fields (("ai_values_changed", flag changed) ∷ [])))
            book.audits;
    }

-- The confirmation of a batch that waits for it, with the values that the adapter gave.
unfoldable pub confirm_first :
    ℕ
    → EvaluationBatch
    → Policy
    → EvaluationResult
    → EvaluationConfirmationInput
    → ℕ
    → EvaluationBook
    → Result EvaluationError (EvaluationConfirmation × EvaluationBook)
confirm_first now batch policy ai_values payload actor_id book = do
  choice ← primary_choice payload batch (find (is_current_for policy.id) book.decisions)
  raise_if
      (not (values_eq (normalized payload.values) (normalized ai_values))
        && not (is_truthy (stripped_reason payload.change_reason)))
      confirmation_reason_required
  final ←
      store_choice now policy.id batch.id actor_id (stripped_reason payload.change_reason) choice (
        with_confirmation (new_confirmation now batch.id actor_id payload)
          (confirmation_decision now book.next_conclusion_id payload ai_values policy.id batch.id
            actor_id)
          (confirmed_batch now batch)
          (confirmed_policy
            (confirmation_decision now book.next_conclusion_id payload ai_values policy.id batch.id
              actor_id)
            policy)
          (not (values_eq (normalized payload.values) (normalized ai_values))) book)
  ok (new_confirmation now batch.id actor_id payload, final)

-- `batch.status != "awaiting_confirmation" or batch.raw_response is None`
abbrev pub awaited_values : EvaluationBatch → Option EvaluationResult
awaited_values batch =
    if evaluation_status_eq batch.status awaiting_confirmation then batch.raw_response else none

unfoldable pub confirm_batch :
    ℕ
    → EvaluationBatch
    → Policy
    → EvaluationConfirmationInput
    → ℕ
    → EvaluationBook
    → Result EvaluationError (EvaluationConfirmation × EvaluationBook)
confirm_batch now batch policy payload actor_id book =
    elim (find (confirmation_of batch.id) book.confirmations) [
      | some existing ↦ confirm_again existing payload book
      | none ↦ or_raise (awaited_values batch) evaluation_not_awaiting_confirmation >>= λ ai_values.
          confirm_first now batch policy ai_values payload actor_id book
    ]

unfoldable pub confirm :
    ℕ
    → ℕ
    → EvaluationConfirmationInput
    → ℕ
    → EvaluationBook
    → Result EvaluationError (EvaluationConfirmation × EvaluationBook)
confirm now batch_id payload actor_id book = do
  batch ← or_raise (by_id batch_key batch_id book.batches) evaluation_batch_not_found
  version ← or_raise (by_id version_key batch.policy_version_id book.versions) value_error
  policy ← or_raise (by_id policy_row_id version.policy_id book.policies) value_error
  confirm_batch now batch policy payload actor_id book
