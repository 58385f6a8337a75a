-- ===== src/Evaluations/Adjustments.antt =====
-- What people decide after a confirmation: `adjust_conclusion` and `select_primary_entity` of
-- `EvaluationService` (backend/app/modules/evaluations/service.py).
use policy_project_managemen.Prelude.{
  ℕ, String, Bool, not, ◌&&◌, Option, none, some, [], ◌∷◌, Result, ok, err, ◌>>=◌, ◌>>◌, raise_if,
  or_raise, is_none, by_id, save, find, if◌then◌else◌,
}
use policy_project_managemen.Prelude.Text.{str_eq, is_truthy, is_nonempty, strip}
use policy_project_managemen.Audit.{AuditEvent, number, text, fields, record_event}
use policy_project_managemen.Projects.Rows.{
  Conclusion, recommends, manual_override, Policy, policy_row_id, PrimaryEntityDecision,
  is_current_for,
}
use policy_project_managemen.Evaluations.Rows.{
  confirmed, evaluation_status_eq, BusinessEntity, EvaluationBatch, EvaluationConfirmation,
  PolicyConclusionDecision, PrimaryEntityInput, EvaluationBook, batch_key, EvaluationError,
  evaluation_policy_not_found, evaluation_not_confirmed, primary_entity_not_eligible,
  primary_entity_reason_required, policy_conclusion_reason_required,
  primary_entity_required_for_recommendation, stop_iteration,
}
use policy_project_managemen.Evaluations.Values.{stripped_reason}
use policy_project_managemen.Evaluations.Events.{conclusion_name}
use policy_project_managemen.Evaluations.Decisions.{
  confirmation_of, append_conclusion_decision, projected_policy,
}
use policy_project_managemen.Evaluations.Primaries.{names_entity, new_decision, replace_decision}

-- The batch of the policy, where it is confirmed.
abbrev confirmed_only : Option EvaluationBatch → Option EvaluationBatch
confirmed_only none = none
confirmed_only (some batch) =
    if evaluation_status_eq batch.status confirmed then some batch else none

abbrev pub batch_of_policy : Policy → EvaluationBook → Option EvaluationBatch
batch_of_policy policy book = elim policy.current_evaluation_batch_id [
  | none ↦ none
  | some n ↦ confirmed_only (by_id batch_key n book.batches)
]

-- The confirmed batch with its confirmation.
unfoldable pub confirmed_evaluation :
    Policy → EvaluationBook → Result EvaluationError (EvaluationBatch × EvaluationConfirmation)
confirmed_evaluation policy book = do
  batch ← or_raise (batch_of_policy policy book) evaluation_not_confirmed
  confirmation ←
      or_raise (find (confirmation_of batch.id) book.confirmations) evaluation_not_confirmed
  ok (batch, confirmation)

abbrev pub override_decision :
    ℕ → ℕ → Policy → ℕ → Conclusion → String → ℕ → PolicyConclusionDecision
override_decision now id policy batch_id conclusion reason actor_id = record {
  id = id;
  policy_id = policy.id;
  evaluation_batch_id = batch_id;
  previous_conclusion = policy.current_conclusion;
  conclusion = conclusion;
  source = manual_override;
  reason = some reason;
  decided_by = actor_id;
  decided_at = now;
}

abbrev override_audit : PolicyConclusionDecision → AuditEvent
override_audit decision = record {
  action = "policy_conclusion_changed";
  actor_id = some decision.decided_by;
  object_type = "policy_conclusion_decision";
  object_id = decision.id;
  reason = decision.reason;
  changes = fields (
      ("policy_id", number decision.policy_id)
      ∷ ("evaluation_batch_id", number decision.evaluation_batch_id)
      ∷ ("previous_conclusion", text (conclusion_name decision.previous_conclusion))
      ∷ ("conclusion", text (conclusion_name decision.conclusion))
      ∷ []);
}

-- The decision, the projection of the policy and the audit.
unfoldable pub store_override :
    PolicyConclusionDecision → Policy → EvaluationBook → PolicyConclusionDecision × EvaluationBook
unfolding conclusion_name
store_override decision policy book = (
  decision,
  record (append_conclusion_decision decision book) {
    policies = save policy_row_id (projected_policy decision policy) book.policies;
    audits = record_event (override_audit decision) book.audits;
  },
)

unfoldable pub adjust_conclusion :
    ℕ
    → ℕ
    → Conclusion
    → String
    → ℕ
    → EvaluationBook
    → Result EvaluationError (PolicyConclusionDecision × EvaluationBook)
adjust_conclusion now policy_id conclusion reason actor_id book = do
  policy ← or_raise (by_id policy_row_id policy_id book.policies) evaluation_policy_not_found
  raise_if (not (is_nonempty (strip reason))) policy_conclusion_reason_required
  evaluation ← confirmed_evaluation policy book
  raise_if (recommends conclusion && is_none (find (is_current_for policy_id) book.decisions))
      primary_entity_required_for_recommendation
  ok (
      store_override
        (override_decision now book.next_conclusion_id policy evaluation.0.id conclusion
          (strip reason) actor_id)
        policy book)

abbrev pub has_code : String → BusinessEntity → Bool
has_code code p = str_eq p.seed_code code

-- A new decision for the entity; `next` ends in a StopIteration where the snapshot lacks it.
unfoldable pub store_primary :
    ℕ
    → ℕ
    → EvaluationBatch
    → PrimaryEntityInput
    → Option PrimaryEntityDecision
    → ℕ
    → EvaluationBook
    → Result EvaluationError (PrimaryEntityDecision × EvaluationBook)
store_primary now policy_id batch payload current actor_id book = do
  profile ←
      or_raise (find (has_code payload.entity_seed_code) batch.profile_snapshot) stop_iteration
  final ←
      replace_decision
        (new_decision book.next_decision_id policy_id batch.id payload.entity_seed_code
          profile.legal_name actor_id (stripped_reason payload.reason) now)
        current book
  ok (
    new_decision book.next_decision_id policy_id batch.id payload.entity_seed_code
        profile.legal_name actor_id (stripped_reason payload.reason) now,
    final,
  )

-- The current decision stands where it names the entity; a change of it needs a reason.
unfoldable pub change_primary :
    ℕ
    → ℕ
    → EvaluationBatch
    → PrimaryEntityInput
    → Option PrimaryEntityDecision
    → ℕ
    → EvaluationBook
    → Result EvaluationError (PrimaryEntityDecision × EvaluationBook)
change_primary now policy_id batch payload none actor_id book =
    store_primary now policy_id batch payload none actor_id book
change_primary now policy_id batch payload (some current) actor_id book =
    if str_eq current.entity_seed_code payload.entity_seed_code
    then ok (current, book)
    else if not (is_truthy (stripped_reason payload.reason))
    then err primary_entity_reason_required
    else store_primary now policy_id batch payload (some current) actor_id book

unfoldable pub select_primary_entity :
    ℕ
    → ℕ
    → PrimaryEntityInput
    → ℕ
    → EvaluationBook
    → Result EvaluationError (PrimaryEntityDecision × EvaluationBook)
select_primary_entity now policy_id payload actor_id book = do
  policy ← or_raise (by_id policy_row_id policy_id book.policies) evaluation_policy_not_found
  evaluation ← confirmed_evaluation policy book
  raise_if (not (names_entity payload.entity_seed_code evaluation.1.values.entities))
      primary_entity_not_eligible
  change_primary now policy_id evaluation.0 payload (find (is_current_for policy_id) book.decisions)
      actor_id book
