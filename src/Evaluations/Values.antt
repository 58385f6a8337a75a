-- ===== src/Evaluations/Values.antt =====
-- Values of evaluations and confirmations, and when they are equal: `_confirmation_values` and
-- `_normalize_confirmation_values` (evaluations/service.py).
use policy_project_managemen.Prelude.{
  String, Bool, true, false, ◌&&◌, ◌||◌, not, Option, none, some, List, ◌==◌, sort_by,
}
use policy_project_managemen.Prelude.Text.{str_eq, text_leb, is_nonempty, strip}
use policy_project_managemen.Audit.{list_eq}
use policy_project_managemen.Projects.Rows.{
  Conclusion, pending_confirmation, recommend_apply, watch, not_recommended, uncertain,
}
use policy_project_managemen.Evaluations.Rows.{
  MatchLevel, high, medium, low, uncertain_level, HardRuleResult, WeightedRuleResult,
  EntityEvaluationResult, EvaluationResult,
}

abbrev pub conclusion_eq : Conclusion → Conclusion → Bool
conclusion_eq pending_confirmation pending_confirmation = true
conclusion_eq recommend_apply recommend_apply = true
conclusion_eq watch watch = true
conclusion_eq not_recommended not_recommended = true
conclusion_eq uncertain uncertain = true
conclusion_eq _ _ = false

abbrev pub level_eq : MatchLevel → MatchLevel → Bool
level_eq high high = true
level_eq medium medium = true
level_eq low low = true
level_eq uncertain_level uncertain_level = true
level_eq _ _ = false

abbrev bool_eq : Bool → Bool → Bool
bool_eq a b = a && b || not a && not b

abbrev pub passed_eq : Option Bool → Option Bool → Bool
passed_eq none none = true
passed_eq (some a) (some b) = bool_eq a b
passed_eq _ _ = false

abbrev pub hard_eq : HardRuleResult → HardRuleResult → Bool
hard_eq a b =
    str_eq a.rule_code b.rule_code
    && passed_eq a.passed b.passed
    && str_eq a.hard_evidence b.hard_evidence

abbrev pub weighted_eq : WeightedRuleResult → WeightedRuleResult → Bool
weighted_eq a b =
    str_eq a.rule_code b.rule_code
    && a.rule_score == b.rule_score
    && str_eq a.weighted_evidence b.weighted_evidence

abbrev pub texts_eq : List String → List String → Bool
texts_eq = list_eq (λ s t. str_eq s t)

unfoldable pub entity_eq : EntityEvaluationResult → EntityEvaluationResult → Bool
entity_eq a b =
    str_eq a.entity_seed_code b.entity_seed_code
    && level_eq a.match_level b.match_level
    && a.score == b.score
    && list_eq hard_eq a.hard_rule_results b.hard_rule_results
    && list_eq weighted_eq a.weighted_rule_results b.weighted_rule_results
    && texts_eq a.evidence b.evidence
    && texts_eq a.unmet_conditions b.unmet_conditions
    && texts_eq a.risks b.risks
    && str_eq a.recommended_action b.recommended_action

-- `==` of two dictionaries of values
unfoldable pub values_eq : EvaluationResult → EvaluationResult → Bool
values_eq a b =
    conclusion_eq a.conclusion b.conclusion
    && str_eq a.summary b.summary
    && texts_eq a.key_conditions b.key_conditions
    && list_eq entity_eq a.entities b.entities

abbrev pub code_leb : EntityEvaluationResult → EntityEvaluationResult → Bool
code_leb a b = text_leb a.entity_seed_code b.entity_seed_code

-- `_normalize_confirmation_values`
unfoldable pub normalized : EvaluationResult → EvaluationResult
normalized values = record values { entities = sort_by code_leb values.entities }

-- `reason.strip() if reason else None`
unfoldable pub stripped_reason : Option String → Option String
stripped_reason none = none
stripped_reason (some reason) = elim (is_nonempty reason) [
  | true ↦ some (strip reason)
  | false ↦ none
]
