-- ===== src/EvaluationRules/Tests.antt =====
-- The theorems on evaluation rules at concrete rules.
use policy_project_managemen.Prelude.{refl, arith, true, none, some, [], ◌∷◌, List}
use policy_project_managemen.EvaluationRules.{
  draft, published, EvaluationRuleDraftInput, EvaluationRuleVersion, WeightedRule, RuleBook,
  publish,
}
use policy_project_managemen.EvaluationRules.Published.{IsValid, AfterRule}
use policy_project_managemen.EvaluationRules.History.{
  Call, creating, updating, publishing, retiring, run, run_rules-IsValid,
}
use policy_project_managemen.EvaluationRules.Frozen.{IsKept, IsActive, run-keeps, publish_activates}

abbrev full_weight : WeightedRule
full_weight = record {
  rule = record { code = "FIT"; name = "Fit"; instruction = "Judge the fit"; enabled = true };
  weight = 100;
}

abbrev version_in_force : EvaluationRuleVersion
version_in_force = record {
  id = 1;
  rule_set_id = 1;
  version_number = 1;
  status = published;
  hard_rules = [];
  weighted_rules = full_weight ∷ [];
  prompt_version = "v1";
  high_match_score_threshold = 80;
  created_by = 1;
  published_by = some 1;
  published_at = some 10;
}

abbrev next_draft : EvaluationRuleVersion
next_draft = record version_in_force {
  id = 2;
  version_number = 2;
  status = draft;
  published_by = none;
  published_at = none;
}

abbrev book : RuleBook
book = record {
  rule_sets = record { id = 1; name = "Rules"; description = none; created_by = 1 } ∷ [];
  versions = version_in_force ∷ next_draft ∷ [];
  next_set_id = 2;
  next_version_id = 3;
  audits = [];
}

book-IsValid : IsValid book
book-IsValid = ground arith

abbrev payload : EvaluationRuleDraftInput
payload = record {
  name = "Rules";
  description = none;
  hard_rules = [];
  weighted_rules = full_weight ∷ [];
  prompt_version = "v2";
  high_match_score_threshold = 70;
}

abbrev calls : List Call
calls = creating (some 1) payload 1 ∷ publishing 50 2 1 ∷ updating 3 payload 1 ∷ retiring 2 1 ∷ []

run_rules-IsValid_example : IsValid (run calls book)
run_rules-IsValid_example = run_rules-IsValid calls book book-IsValid

run-keeps_example : IsKept 1 version_in_force (run calls book)
run-keeps_example = run-keeps calls 1 version_in_force book refl refl

publish_activates_example : AfterRule (IsActive 2) (publish 50 2 1 book)
publish_activates_example = publish_activates 50 2 1 book book-IsValid
