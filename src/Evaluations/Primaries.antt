-- ===== src/Evaluations/Primaries.antt =====
-- The primary entity of a confirmation: how it is chosen and stored, in `confirm` of
-- `EvaluationService` (backend/app/modules/evaluations/service.py).
use policy_project_managemen.Prelude.{
  ℕ, ◌+◌, String, Bool, false, not, ◌&&◌, Option, none, some, List, [], ◌∷◌, ◌++◌, Result, ok, err,
  ◌>>=◌, ◌>>◌, raise_if, or_raise, is_some, find, any, update, if◌then◌else◌,
}
use policy_project_managemen.Prelude.Text.{str_eq, is_truthy}
use policy_project_managemen.Audit.{AuditEvent, number, text, fields, record_event}
use policy_project_managemen.Projects.Rows.{recommends, PrimaryEntityDecision, is_current_for}
use policy_project_managemen.Evaluations.Rows.{
  EntityEvaluationResult, BusinessEntity, EvaluationBatch, EvaluationConfirmationInput,
  EvaluationBook, EvaluationError, primary_entity_not_eligible, primary_entity_reason_required,
  primary_entity_required_for_recommendation, integrity_error,
}
use policy_project_managemen.Evaluations.Values.{stripped_reason}

-- `any(item["entity_seed_code"] == code for item in entities)`
abbrev pub names_entity : String → List EntityEvaluationResult → Bool
names_entity code = any (λ e. str_eq e.entity_seed_code code)

-- The entity that a recommendation names, and the current decision of the policy.
pub data Choice : Type 0 where
  unchosen : Choice
  chosen : BusinessEntity → Option PrimaryEntityDecision → Choice

abbrev pub is_other_entity : String → Option PrimaryEntityDecision → Bool
is_other_entity code none = false
is_other_entity code (some current) = not (str_eq current.entity_seed_code code)

-- An entity of the snapshot that the payload evaluates.
abbrev pub profile_of :
    String → List EntityEvaluationResult → List BusinessEntity → Option BusinessEntity
profile_of code entities = find (λ p. str_eq p.seed_code code && names_entity p.seed_code entities)

unfoldable pub choose_primary :
    String
    → EvaluationConfirmationInput
    → EvaluationBatch
    → Option PrimaryEntityDecision
    → Result EvaluationError Choice
choose_primary code payload batch current = do
  profile ←
      or_raise (profile_of code payload.values.entities batch.profile_snapshot)
        primary_entity_not_eligible
  raise_if (is_other_entity code current && not (is_truthy (stripped_reason payload.change_reason)))
      primary_entity_reason_required
  ok (chosen profile current)

unfoldable pub primary_choice :
    EvaluationConfirmationInput
    → EvaluationBatch
    → Option PrimaryEntityDecision
    → Result EvaluationError Choice
primary_choice payload batch current =
    if not (recommends payload.values.conclusion)
    then ok unchosen
    else or_raise payload.primary_entity_seed_code primary_entity_required_for_recommendation
      >>= λ code. choose_primary code payload batch current

-- The current decision of the policy is superseded.
abbrev pub superseded : ℕ → ℕ → List PrimaryEntityDecision → List PrimaryEntityDecision
superseded now policy_id =
    update (is_current_for policy_id) (λ d. record d { superseded_at = some now })

-- The insertion of a decision, which the unique index refuses beside a current one.
unfoldable pub add_decision :
    PrimaryEntityDecision
    → List PrimaryEntityDecision
    → Result EvaluationError (List PrimaryEntityDecision)
add_decision decision rows =
    if any (is_current_for decision.policy_id) rows
    then err integrity_error
    else ok (rows ++ decision ∷ [])

abbrev pub new_decision :
    ℕ → ℕ → ℕ → String → String → ℕ → Option String → ℕ → PrimaryEntityDecision
new_decision id policy_id batch_id code legal_name actor_id reason now = record {
  id = id;
  policy_id = policy_id;
  batch_id = batch_id;
  entity_seed_code = code;
  entity_legal_name = legal_name;
  selected_by = actor_id;
  reason = reason;
  selected_at = now;
  superseded_at = none;
}

abbrev pub primary_audit : String → ℕ → PrimaryEntityDecision → AuditEvent
primary_audit action actor_id decision = record {
  action = action;
  actor_id = some actor_id;
  object_type = "primary_entity_decision";
  object_id = decision.id;
  reason = decision.reason;
  changes = fields (
      ("policy_id", number decision.policy_id)
      ∷ ("entity_seed_code", text decision.entity_seed_code)
      ∷ []);
}

-- "primary_entity_selected", or "primary_entity_changed" where one was current
abbrev primary_action : Option PrimaryEntityDecision → String
primary_action none = "primary_entity_selected"
primary_action (some _) = "primary_entity_changed"

-- A new decision takes the place of the current one of its policy.
unfoldable pub replace_decision :
    PrimaryEntityDecision
    → Option PrimaryEntityDecision
    → EvaluationBook
    → Result EvaluationError EvaluationBook
replace_decision decision current book = do
  rows ← add_decision decision (
      if is_some current
      then superseded decision.selected_at decision.policy_id book.decisions
      else book.decisions)
  ok (record book {
    decisions = rows;
    next_decision_id = book.next_decision_id + 1;
    audits =
        record_event (primary_audit (primary_action current) decision.selected_by decision)
          book.audits;
  })

abbrev pub keeps_primary : String → Option PrimaryEntityDecision → Bool
keeps_primary code none = false
keeps_primary code (some current) = str_eq current.entity_seed_code code

-- The primary entity of a confirmation, where it is another than the current one.
unfoldable pub store_choice :
    ℕ → ℕ → ℕ → ℕ → Option String → Choice → EvaluationBook → Result EvaluationError EvaluationBook
store_choice now policy_id batch_id actor_id reason unchosen book = ok book
store_choice now policy_id batch_id actor_id reason (chosen profile current) book =
    if keeps_primary profile.seed_code current
    then ok book
    else replace_decision
        (new_decision book.next_decision_id policy_id batch_id profile.seed_code profile.legal_name
          actor_id reason now)
        current book
