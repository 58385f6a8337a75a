-- ===== src/EvaluationRules.antt =====
-- The evaluation rules (`EvaluationRuleService` and its tables, backend/app/modules/
-- evaluation_rules/service.py, models.py and schemas.py). The input of a draft is as its validators
-- leave it, with a threshold between 0 and 100, so the check constraint on it is not written out.
-- A method that raises changes nothing, since each handler of router.py rolls back.
pub mod Published
pub mod History
pub mod Frozen
mod Tests
use policy_project_managemen.Prelude.{
  ℕ, ◌+◌, String, Bool, true, false, not, ◌&&◌, Option, none, some, List, [], ◌∷◌, ◌++◌, Result, ok,
  err, ◌>>=◌, ◌>>◌, raise_if, or_raise, by_id, save, find, any, update, if◌then◌else◌, ◌==◌, ltb,
}
use policy_project_managemen.Audit.{AuditEvent, no_changes, record_event}

pub data RuleStatus : Type 0 where
  draft published retired : RuleStatus

abbrev pub rule_status_eq : RuleStatus → RuleStatus → Bool
rule_status_eq draft draft = true
rule_status_eq published published = true
rule_status_eq retired retired = true
rule_status_eq _ _ = false

pub data RuleError : Type 0 where
  rule_not_found rule_immutable_error rule_validation_error rule_integrity_error : RuleError

pub record HardRule : Type 0 where
  pub code : String
  pub name : String
  pub instruction : String
  pub enabled : Bool

pub record WeightedRule : Type 0 where
  pub rule : HardRule
  pub open rule use *
  pub weight : ℕ

pub record EvaluationRuleDraftInput : Type 0 where
  pub name : String
  pub description : Option String
  pub hard_rules : List HardRule
  pub weighted_rules : List WeightedRule
  pub prompt_version : String
  pub high_match_score_threshold : ℕ

pub record EvaluationRuleSet : Type 0 where
  pub id : ℕ
  pub name : String
  pub description : Option String
  pub created_by : ℕ

pub record EvaluationRuleVersion : Type 0 where
  pub id : ℕ
  pub rule_set_id : ℕ
  pub version_number : ℕ
  pub status : RuleStatus
  pub hard_rules : List HardRule
  pub weighted_rules : List WeightedRule
  pub prompt_version : String
  pub high_match_score_threshold : ℕ
  pub created_by : ℕ
  pub published_by : Option ℕ
  pub published_at : Option ℕ

pub record RuleBook : Type 0 where
  pub rule_sets : List EvaluationRuleSet
  pub versions : List EvaluationRuleVersion
  pub next_set_id : ℕ
  pub next_version_id : ℕ
  pub audits : List AuditEvent

abbrev pub set_id : EvaluationRuleSet → ℕ
set_id s = s.id

abbrev pub version_id : EvaluationRuleVersion → ℕ
version_id v = v.id

abbrev recorded : String → ℕ → ℕ → List AuditEvent → List AuditEvent
recorded action actor_id version_id trail =
    record_event
      (record {
        action = action;
        actor_id = some actor_id;
        object_type = "evaluation_rule_version";
        object_id = version_id;
        reason = none;
        changes = no_changes;
      })
      trail

-- `max(version_number)` over the versions of the set, 0 without one
unfoldable pub latest_number : ℕ → List EvaluationRuleVersion → ℕ
latest_number n [] = 0
latest_number n (v ∷ rows) =
    let rest = latest_number n rows in
    if v.rule_set_id == n && ltb rest v.version_number then v.version_number else rest

-- The unique constraint on the set and the number.
abbrev pub has_number : ℕ → ℕ → EvaluationRuleVersion → Bool
has_number n number v = v.rule_set_id == n && v.version_number == number

unfoldable pub new_version : ℕ → ℕ → ℕ → EvaluationRuleDraftInput → ℕ → EvaluationRuleVersion
new_version id n number payload actor_id = record {
  id = id;
  rule_set_id = n;
  version_number = number;
  status = draft;
  hard_rules = payload.hard_rules;
  weighted_rules = payload.weighted_rules;
  prompt_version = payload.prompt_version;
  high_match_score_threshold = payload.high_match_score_threshold;
  created_by = actor_id;
  published_by = none;
  published_at = none;
}

-- The insertion of the version, and the audit.
unfoldable pub add_version :
    ℕ
    → ℕ
    → EvaluationRuleDraftInput
    → ℕ
    → RuleBook
    → Result RuleError (EvaluationRuleVersion × RuleBook)
add_version n number payload actor_id book =
    let v = new_version book.next_version_id n number payload actor_id in
    if any (has_number n number) book.versions
    then err rule_integrity_error
    else ok (
      v,
      record book {
        versions = book.versions ++ v ∷ [];
        next_version_id = book.next_version_id + 1;
        audits = recorded "evaluation_rule_draft_created" actor_id v.id book.audits;
      },
    )

abbrev pub with_new_set : EvaluationRuleDraftInput → ℕ → RuleBook → RuleBook
with_new_set payload actor_id book = record book {
  rule_sets =
      book.rule_sets
      ++ record {
        id = book.next_set_id;
        name = payload.name;
        description = payload.description;
        created_by = actor_id;
      }
        ∷ [];
  next_set_id = book.next_set_id + 1;
}

unfoldable pub create_draft :
    Option ℕ
    → EvaluationRuleDraftInput
    → ℕ
    → RuleBook
    → Result RuleError (EvaluationRuleVersion × RuleBook)
create_draft none payload actor_id book =
    add_version book.next_set_id 1 payload actor_id (with_new_set payload actor_id book)
create_draft (some n) payload actor_id book = do
  rule_set ← or_raise (by_id set_id n book.rule_sets) rule_not_found
  add_version rule_set.id (latest_number rule_set.id book.versions + 1) payload actor_id book

-- `_locked_version`
unfoldable pub locked_version : ℕ → RuleBook → Result RuleError EvaluationRuleVersion
locked_version n book = or_raise (by_id version_id n book.versions) rule_not_found

unfoldable pub updated_version :
    EvaluationRuleDraftInput → EvaluationRuleVersion → EvaluationRuleVersion
updated_version payload v = record v {
  hard_rules = payload.hard_rules;
  weighted_rules = payload.weighted_rules;
  prompt_version = payload.prompt_version;
  high_match_score_threshold = payload.high_match_score_threshold;
}

-- A changed version is flushed and the change recorded.
unfoldable pub stored_version : String → ℕ → EvaluationRuleVersion → RuleBook → RuleBook
stored_version action actor_id v book = record book {
  versions = save version_id v book.versions;
  audits = recorded action actor_id v.id book.audits;
}

unfoldable pub update_draft :
    ℕ
    → EvaluationRuleDraftInput
    → ℕ
    → RuleBook
    → Result RuleError (EvaluationRuleVersion × RuleBook)
update_draft n payload actor_id book = do
  version ← locked_version n book
  raise_if (not (rule_status_eq version.status draft)) rule_immutable_error
  rule_set ← or_raise (by_id set_id version.rule_set_id book.rule_sets) rule_not_found
  ok (
    updated_version payload version,
    stored_version "evaluation_rule_draft_updated" actor_id (updated_version payload version)
        (record book {
          rule_sets =
              save set_id
                (record rule_set { name = payload.name; description = payload.description })
                book.rule_sets;
        }),
  )

-- the sum of the weights of the enabled rules
unfoldable pub enabled_weight : List WeightedRule → ℕ
enabled_weight [] = 0
enabled_weight (r ∷ rules) = (if r.rule.enabled then r.weight else 0) + enabled_weight rules

abbrev pub is_published : EvaluationRuleVersion → Bool
is_published v = rule_status_eq v.status published

abbrev pub retired_version : EvaluationRuleVersion → EvaluationRuleVersion
retired_version v = record v { status = retired }

abbrev pub published_version : ℕ → ℕ → EvaluationRuleVersion → EvaluationRuleVersion
published_version actor_id now v = record v {
  status = published;
  published_by = some actor_id;
  published_at = some now;
}

-- Every version that is published is retired, in the order of the table.
abbrev pub retire_current : RuleBook → RuleBook
retire_current book = record book { versions = update is_published retired_version book.versions }

unfoldable pub publish : ℕ → ℕ → ℕ → RuleBook → Result RuleError (EvaluationRuleVersion × RuleBook)
publish now n actor_id book = do
  version ← locked_version n book
  raise_if (not (rule_status_eq version.status draft)) rule_immutable_error
  raise_if (not (enabled_weight version.weighted_rules == 100)) rule_validation_error
  ok (
    published_version actor_id now version,
    stored_version "evaluation_rule_published" actor_id (published_version actor_id now version)
        (retire_current book),
  )

unfoldable pub retire : ℕ → ℕ → RuleBook → Result RuleError (EvaluationRuleVersion × RuleBook)
retire n actor_id book = do
  version ← locked_version n book
  raise_if (not (rule_status_eq version.status published)) rule_immutable_error
  ok (
    retired_version version,
    stored_version "evaluation_rule_retired" actor_id (retired_version version) book,
  )

unfoldable pub get_active_version : RuleBook → Result RuleError EvaluationRuleVersion
get_active_version book = or_raise (find is_published book.versions) rule_not_found
