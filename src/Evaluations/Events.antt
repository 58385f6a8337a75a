-- ===== src/Evaluations/Events.antt =====
-- The notification of an evaluation that changes the picture of its policy:
-- `evaluation_notification_event` and its helpers (backend/app/modules/notifications/events.py).

use policy_project_managemen.Prelude.{
  ℕ, String, Bool, true, false, not, ◌&&◌, ◌||◌, Option, none, some, List, [], ◌∷◌, Result, ok,
  ◌>>=◌, or_raise, by_id, any, all, if◌then◌else◌,
}
use policy_project_managemen.Prelude.Text.{decimal, str_eq}
use policy_project_managemen.Audit.{Value, null, text, number, flag, texts, levels}
use policy_project_managemen.Notifications.Delivery.{NotificationEvent}
use policy_project_managemen.Projects.Rows.{
  Conclusion, pending_confirmation, recommend_apply, watch, not_recommended, uncertain, Policy,
  policy_row_id,
}
use policy_project_managemen.Evaluations.Rows.{
  MatchLevel, high, medium, low, uncertain_level, EvaluationBatch, EvaluationBook, EvaluationError,
  value_error, version_key,
}
use policy_project_managemen.Evaluations.Values.{conclusion_eq, level_eq}
use Prim.Native.String.{◌++◌ as ◌+++◌}
use policy_project_managemen.Evaluations.Snapshots.{
  EvaluationSnapshot, evaluation_snapshot, previous_evaluation_snapshot,
}

-- `levels[subject]`
abbrev pub level_of : String → List (String × MatchLevel) → Option MatchLevel
level_of subject [] = none
level_of subject ((s, level) ∷ rest) =
    if str_eq s subject then some level else level_of subject rest

abbrev pub opt_level_eq : Option MatchLevel → Option MatchLevel → Bool
opt_level_eq none none = true
opt_level_eq (some a) (some b) = level_eq a b
opt_level_eq _ _ = false

-- `set(a) <= set(b)` of the subjects
abbrev pub subjects_within : List (String × MatchLevel) → List (String × MatchLevel) → Bool
subjects_within a b = all (λ p. any (λ q. str_eq q.0 p.0) b) a

abbrev pub same_subjects : List (String × MatchLevel) → List (String × MatchLevel) → Bool
same_subjects a b = subjects_within a b && subjects_within b a

-- `all(previous[subject] == current[subject] for subject in current)`
abbrev pub same_levels : List (String × MatchLevel) → List (String × MatchLevel) → Bool
same_levels previous current =
    all (λ p. opt_level_eq (level_of p.0 previous) (level_of p.0 current)) current

abbrev pub append_if : Bool → String → List String → List String
append_if true change rest = change ∷ rest
append_if false change rest = rest

abbrev pub bool_eq : Bool → Bool → Bool
bool_eq a b = a && b || not a && not b

unfoldable pub subject_changes :
    List (String × MatchLevel) → List (String × MatchLevel) → List String
subject_changes previous current =
    if not (same_subjects previous current)
    then "subject_set" ∷ []
    else append_if (not (same_levels previous current)) "entity_match_level" []

-- `_changed_fields`
unfoldable pub changed_fields : Option EvaluationSnapshot → EvaluationSnapshot → List String
unfolding subject_changes
changed_fields none current = "first_available" ∷ []
changed_fields (some previous) current =
    append_if (not (conclusion_eq previous.conclusion current.conclusion)) "conclusion" (
      append_if (not (bool_eq previous.high_match current.high_match)) "high_match"
        (subject_changes previous.entity_match_levels current.entity_match_levels))

unfoldable pub conclusion_name : Conclusion → String
conclusion_name pending_confirmation = "pending_confirmation"
conclusion_name recommend_apply = "recommend_apply"
conclusion_name watch = "watch"
conclusion_name not_recommended = "not_recommended"
conclusion_name uncertain = "uncertain"

level_name : MatchLevel → String
level_name high = "high"
level_name medium = "medium"
level_name low = "low"
level_name uncertain_level = "uncertain"

level_names : List (String × MatchLevel) → List (String × String)
unfolding level_name
level_names [] = []
level_names ((s, level) ∷ rest) = (s, level_name level) ∷ level_names rest

abbrev of_previous : (EvaluationSnapshot → Value) → Option EvaluationSnapshot → Value
of_previous f none = null
of_previous f (some previous) = f previous

display_type_of : Option EvaluationSnapshot → EvaluationSnapshot → String
display_type_of previous current =
    if current.high_match then "高匹配政策" else elim previous [ none ↦ "评估完成" | some _ ↦ "评估结果变更" ]

-- f"evaluation:{policy.id}:batch:{batch.id}:material_change"
unfoldable pub material_change_key : ℕ → ℕ → String
unfolding decimal
material_change_key policy_id batch_id =
    "evaluation:" +++ decimal policy_id +++ ":batch:" +++ decimal batch_id +++ ":material_change"

unfoldable pub material_change :
    Policy
    → EvaluationBatch
    → Option EvaluationSnapshot
    → EvaluationSnapshot
    → List String
    → NotificationEvent
unfolding decimal level_names display_type_of conclusion_name material_change_key
material_change policy batch previous current changed = record {
  event_key = material_change_key policy.id batch.id;
  event_type = "evaluation_material_change";
  display_type = display_type_of previous current;
  object_type = "policy";
  object_id = policy.id;
  object_name = policy.title;
  detail_path = "/policies/" +++ decimal policy.id;
  message_snapshot =
      ("batch_id", number batch.id)
      ∷ ("previous_batch_id", of_previous (λ p. number p.batch_id) previous)
      ∷ ("conclusion", text (conclusion_name current.conclusion))
      ∷ ("previous_conclusion", of_previous (λ p. text (conclusion_name p.conclusion)) previous)
      ∷ ("high_match", flag current.high_match)
      ∷ ("previous_high_match", of_previous (λ p. flag p.high_match) previous)
      ∷ ("high_match_score_threshold", number current.threshold)
      ∷ ("entity_match_levels", levels (level_names current.entity_match_levels))
      ∷ (
        "previous_entity_match_levels",
        of_previous (λ p. levels (level_names p.entity_match_levels)) previous,
      )
      ∷ ("changed_fields", texts changed)
      ∷ [];
}

-- `if not changed_fields: return None`
unfoldable pub event_of_changes :
    Policy
    → EvaluationBatch
    → Option EvaluationSnapshot
    → EvaluationSnapshot
    → List String
    → Option NotificationEvent
event_of_changes policy batch previous current [] = none
event_of_changes policy batch previous current (change ∷ changes) =
    some (material_change policy batch previous current (change ∷ changes))

unfoldable pub evaluation_notification_event :
    EvaluationBatch → EvaluationBook → Result EvaluationError (Option NotificationEvent)
evaluation_notification_event batch book =
    elim (evaluation_snapshot book.entity_evaluations batch) [
      | none ↦ ok none
      | some current ↦
          or_raise (by_id version_key batch.policy_version_id book.versions) value_error
          >>= λ version.
              or_raise (by_id policy_row_id version.policy_id book.policies) value_error
              >>= λ policy.
                  (let previous = previous_evaluation_snapshot batch policy.id book in
                    ok (
                      event_of_changes policy batch previous current
                        (changed_fields previous current)))
    ]
