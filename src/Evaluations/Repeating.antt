-- ===== src/Evaluations/Repeating.antt =====
-- A confirmation that is sent again.
use policy_project_managemen.Prelude.{
  ℕ, ◌≡◌, ==_self, refl, Bool, true, false, Option, none, some, List, [], ◌∷◌, ◌++◌, Result, ok,
  find, String, arith, if◌then◌else◌,
}
use policy_project_managemen.Prelude.Text.{str_eq, eq_refl}
use policy_project_managemen.Audit.{list_eq}
use policy_project_managemen.Projects.Rows.{Conclusion, recommends}
use policy_project_managemen.Evaluations.Rows.{
  MatchLevel, HardRuleResult, WeightedRuleResult, EntityEvaluationResult, EvaluationResult,
  EvaluationConfirmation, EvaluationConfirmationInput, EvaluationBook, EvaluationError,
}
use policy_project_managemen.Evaluations.Values.{
  passed_eq, hard_eq, weighted_eq, texts_eq, conclusion_eq, level_eq, entity_eq, values_eq,
  normalized,
}
use policy_project_managemen.Evaluations.Decisions.{same_primary, confirm_again, new_confirmation}
use policy_project_managemen.Evaluations.Primaries.{names_entity}
use policy_project_managemen.Evaluations.Choosing.{names_in, IsNamed}

list_eq_self :
    {A : Type 0} (eq : A → A → Bool)
    → ((a : A) → eq a a ≡ true)
    → (xs : List A) → list_eq eq xs xs ≡ true
list_eq_self eq h [] = refl
list_eq_self eq h (x ∷ xs) = rw (h x, list_eq_self eq h xs) refl

conclusion_eq_self : (c : Conclusion) → conclusion_eq c c ≡ true
conclusion_eq_self c = ground arith

level_eq_self : (l : MatchLevel) → level_eq l l ≡ true
level_eq_self l = ground arith

passed_eq_self : (o : Option Bool) → passed_eq o o ≡ true
passed_eq_self none = refl
passed_eq_self (some b) = ground arith

hard_eq_self : (r : HardRuleResult) → hard_eq r r ≡ true
hard_eq_self r = rw (eq_refl r.rule_code, passed_eq_self r.passed, eq_refl r.hard_evidence) refl

weighted_eq_self : (r : WeightedRuleResult) → weighted_eq r r ≡ true
weighted_eq_self r =
    rw (eq_refl r.rule_code, ==_self r.rule_score, eq_refl r.weighted_evidence) refl

texts_eq_self : (ts : List String) → texts_eq ts ts ≡ true
texts_eq_self ts = list_eq_self (λ s t. str_eq s t) eq_refl ts

entity_eq_self : (e : EntityEvaluationResult) → entity_eq e e ≡ true
unfolding entity_eq
entity_eq_self e =
    rw
      (
        eq_refl e.entity_seed_code,
        level_eq_self e.match_level,
        ==_self e.score,
        list_eq_self hard_eq hard_eq_self e.hard_rule_results,
        list_eq_self weighted_eq weighted_eq_self e.weighted_rule_results,
        texts_eq_self e.evidence,
        texts_eq_self e.unmet_conditions,
        texts_eq_self e.risks,
        eq_refl e.recommended_action,
      )
      refl

values_eq_self : (v : EvaluationResult) → values_eq v v ≡ true
unfolding values_eq
values_eq_self v =
    rw
      (
        conclusion_eq_self v.conclusion,
        eq_refl v.summary,
        texts_eq_self v.key_conditions,
        list_eq_self entity_eq entity_eq_self v.entities,
      )
      refl

pub find_new :
    {A : Type 0} (p : A → Bool) (rows : List A) (a : A)
    → find p rows ≡ none
    → p a ≡ true
    → find p (rows ++ a ∷ []) ≡ some a
find_new p [] a h e = rw e refl
find_new p (x ∷ rows) a h e = ground (arith, find_new p rows a)

confirm_again-equal :
    (c : EvaluationConfirmation) (payload : EvaluationConfirmationInput) (book : EvaluationBook)
    → values_eq (normalized c.values) (normalized payload.values) ≡ true
    → (if recommends c.values.conclusion
        then same_primary c payload.primary_entity_seed_code
        else ok tt)
      ≡ ok tt
    → confirm_again c payload book ≡ ok (c, book)
unfolding confirm_again
confirm_again-equal c payload book h g = rw (h, g) refl

same_primary-equal :
    (c : EvaluationConfirmation) (code : String)
    → names_entity code c.values.entities ≡ true
    → c.primary_entity_seed_code ≡ some code
    → same_primary c (some code) ≡ ok tt
unfolding same_primary
same_primary-equal c code h e = rw (h, e, eq_refl code) refl

stored_primary :
    (now batch_id actor_id : ℕ) (payload : EvaluationConfirmationInput) (o : Option String)
    → payload.primary_entity_seed_code ≡ o
    → recommends payload.values.conclusion ≡ true
    → (new_confirmation now batch_id actor_id payload).primary_entity_seed_code ≡ o
unfolding new_confirmation
stored_primary now batch_id actor_id payload o e apply = rw apply e

if_ok :
    (b : Bool) (r : Result EvaluationError (Unit {0}))
    → (b ≡ true → r ≡ ok tt)
    → (if b then r else ok tt) ≡ ok tt
if_ok true r h = h refl
if_ok false r h = refl

named_again :
    (now batch_id actor_id : ℕ) (payload : EvaluationConfirmationInput) (o : Option String)
    → payload.primary_entity_seed_code ≡ o
    → recommends payload.values.conclusion ≡ true
    → names_in o payload.values.entities ≡ true
    → same_primary (new_confirmation now batch_id actor_id payload) o ≡ ok tt
unfolding new_confirmation
named_again now batch_id actor_id payload none e apply h = cc
named_again now batch_id actor_id payload (some code) e apply h =
    same_primary-equal (new_confirmation now batch_id actor_id payload) code h
      (stored_primary now batch_id actor_id payload (some code) e apply)

-- The confirmation that the first call stored is the answer to the second.
pub confirm_again-same :
    (now batch_id actor_id : ℕ) (payload : EvaluationConfirmationInput) (book : EvaluationBook)
    → IsNamed payload
    → confirm_again (new_confirmation now batch_id actor_id payload) payload book
      ≡ ok (new_confirmation now batch_id actor_id payload, book)
unfolding new_confirmation
confirm_again-same now batch_id actor_id payload book h =
    confirm_again-equal (new_confirmation now batch_id actor_id payload) payload book
      (values_eq_self (normalized payload.values))
      (if_ok (recommends payload.values.conclusion) _ λ apply.
        named_again now batch_id actor_id payload payload.primary_entity_seed_code refl apply
          (ground (arith, h, apply)))
