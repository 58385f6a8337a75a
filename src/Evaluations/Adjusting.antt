-- ===== src/Evaluations/Adjusting.antt =====
-- The decisions after a confirmation keep the entities, and leave the batches alone.
use policy_project_managemen.Prelude.{
  ℕ, ◌≡◌, refl, sym, subst, Bool, true, false, not, ◌&&◌, Option, none, some, List, Result, ok, err,
  raise_if, or_raise, is_none, by_id, save, find, find_holds, ==-eq, arith, All, All-save, has_id,
  Bool-cases, Option-cases, inl, inr, String, Ensures, Ensures-bind, Ensures-ok,
}
use policy_project_managemen.Prelude.Text.{is_nonempty, strip, is_truthy, str_eq}
use policy_project_managemen.Projects.Rows.{
  Conclusion, recommends, Policy, policy_row_id, PrimaryEntityDecision, is_current_for,
}
use policy_project_managemen.Evaluations.Rows.{
  EvaluationBatch, PolicyConclusionDecision, PrimaryEntityInput, EvaluationBook, EvaluationError,
  evaluation_policy_not_found, primary_entity_required_for_recommendation,
  primary_entity_not_eligible, policy_conclusion_reason_required, stop_iteration,
}
use policy_project_managemen.Evaluations.Values.{stripped_reason}
use policy_project_managemen.Evaluations.Decisions.{projected_policy, append_conclusion_decision}
use policy_project_managemen.Evaluations.Primaries.{names_entity, new_decision, replace_decision}
use policy_project_managemen.Evaluations.Adjustments.{
  confirmed_evaluation, override_decision, store_override, adjust_conclusion, store_primary,
  change_primary, select_primary_entity, has_code,
}
use policy_project_managemen.Evaluations.Secured.{
  IsSecured, HasEntities, IsReplaced, Replaces, replace_decision-Replaces,
}
use policy_project_managemen.Evaluations.Confirming.{All-Secured-Grows}
use policy_project_managemen.Evaluations.Secured.{HasEntitiesIn}
use policy_project_managemen.Evaluations.Machine.{unmoved, IsKept, Commits}

-- A policy of the tables is written back secured.
pub save-HasEntities :
    (p' : Policy) (policies : List Policy) (rows : List PrimaryEntityDecision)
    → HasEntities policies rows
    → IsSecured rows p'
    → HasEntities (save policy_row_id p' policies) rows
save-HasEntities p' policies rows h s = record {
  one_current = h.one_current;
  secured = All-save policy_row_id (IsSecured rows) p' policies s h.secured;
}

found_id :
    (n : ℕ) (policies : List Policy) (p : Policy)
    → by_id policy_row_id n policies ≡ some p
    → p.id ≡ n
found_id n policies p e = ==-eq p.id n (find_holds (has_id policy_row_id n) p policies e)

projected-IsSecured :
    (d : PolicyConclusionDecision) (p : Policy) (rows : List PrimaryEntityDecision)
    → (recommends d.conclusion && is_none (find (is_current_for p.id) rows)) ≡ false
    → IsSecured rows (projected_policy d p)
unfolding projected_policy
projected-IsSecured d p rows h = elim (Option-cases (find (is_current_for p.id) rows)) [
  | inl e ↦ ground (arith, e)
  | inr (c, e) ↦ ground (arith, e)
]

not_raised : (b : Bool) (e : EvaluationError) → raise_if b e ≡ ok tt → b ≡ false
not_raised b e h = ground arith

pub adjust_conclusion-Commits :
    (now policy_id : ℕ) (conclusion : Conclusion) (reason : String) (actor_id : ℕ)
    (book : EvaluationBook)
    → HasEntitiesIn book
    → Ensures
        (λ r. IsKept book r.1)
        (adjust_conclusion now policy_id conclusion reason actor_id book)
unfolding adjust_conclusion store_override append_conclusion_decision
adjust_conclusion-Commits now policy_id conclusion reason actor_id book h =
    let Kept = λ (r : PolicyConclusionDecision × EvaluationBook). IsKept book r.1 in
    Ensures-bind Kept
      (or_raise (by_id policy_row_id policy_id book.policies) evaluation_policy_not_found) _
      λ p e.
        Ensures-bind Kept
          (raise_if (not (is_nonempty (strip reason))) policy_conclusion_reason_required) _
          λ _ _. Ensures-bind Kept (confirmed_evaluation p book) _ λ evaluation _.
            Ensures-bind Kept
              (raise_if
                (recommends conclusion && is_none (find (is_current_for policy_id) book.decisions))
                primary_entity_required_for_recommendation)
              _
              λ u g. record {
                entities =
                    save-HasEntities
                      (projected_policy
                        (override_decision now book.next_conclusion_id p evaluation.0.id conclusion
                          (strip reason) actor_id)
                        p)
                      book.policies book.decisions h
                      (projected-IsSecured
                        (override_decision now book.next_conclusion_id p evaluation.0.id conclusion
                          (strip reason) actor_id)
                        p book.decisions
                        (subst
                          (λ k.
                            (recommends conclusion
                              && is_none (find (is_current_for k) book.decisions))
                            ≡ false)
                          (sym (found_id policy_id book.policies p (ground arith)))
                          (not_raised _ primary_entity_required_for_recommendation g)));
                move = unmoved refl refl;
              }

replaced-IsKept :
    (b : Bool) (n : ℕ) (book book' : EvaluationBook)
    → HasEntitiesIn book
    → IsReplaced b n book book'
    → IsKept book book'
replaced-IsKept b n book book' h i = record {
  entities = record {
    one_current = i.one;
    secured =
        subst (All (IsSecured book'.decisions)) (sym i.policies)
          (All-Secured-Grows book.decisions book'.decisions book.policies i.grows h.secured);
  };
  move = unmoved i.batches i.numbers;
}

replace-IsKept :
    (n : ℕ) (book : EvaluationBook) (r : Result EvaluationError EvaluationBook)
    → HasEntitiesIn book
    → Replaces true n book r
    → Ensures (IsKept book) r
replace-IsKept n book (ok book') h i = replaced-IsKept true n book book' h i
replace-IsKept n book (err e) h i = absurd i

store_primary-Commits :
    (now policy_id : ℕ) (batch : EvaluationBatch) (payload : PrimaryEntityInput) (actor_id : ℕ)
    (book : EvaluationBook)
    → HasEntitiesIn book
    → Ensures
        (λ r. IsKept book r.1)
        (store_primary now policy_id batch payload
          (find (is_current_for policy_id) book.decisions)
          actor_id
          book)
unfolding store_primary
store_primary-Commits now policy_id batch payload actor_id book h =
    let Kept = λ (r : PrimaryEntityDecision × EvaluationBook). IsKept book r.1 in
    Ensures-bind Kept
      (or_raise (find (has_code payload.entity_seed_code) batch.profile_snapshot) stop_iteration) _
      λ profile _.
        let d =
          new_decision book.next_decision_id policy_id batch.id payload.entity_seed_code
            profile.legal_name actor_id (stripped_reason payload.reason) now in
        Ensures-bind Kept (replace_decision d (find (is_current_for policy_id) book.decisions) book)
          _
          λ final f.
            Ensures-ok (IsKept book)
              (replace_decision d (find (is_current_for policy_id) book.decisions) book) final
              (replace-IsKept policy_id book _ h
                (replace_decision-Replaces d refl book h.one_current))
              f

change_primary-Commits :
    (now policy_id : ℕ) (batch : EvaluationBatch) (payload : PrimaryEntityInput) (actor_id : ℕ)
    (book : EvaluationBook)
    → HasEntitiesIn book
    → (current : Option PrimaryEntityDecision)
    → current ≡ find (is_current_for policy_id) book.decisions
    → Ensures
        (λ r. IsKept book r.1)
        (change_primary now policy_id batch payload current actor_id book)
unfolding change_primary
change_primary-Commits now policy_id batch payload actor_id book h none e =
    rw e (store_primary-Commits now policy_id batch payload actor_id book h)
change_primary-Commits now policy_id batch payload actor_id book h (some current) e =
    elim (Bool-cases (str_eq current.entity_seed_code payload.entity_seed_code)) [
      | inl same ↦ rw same (record { entities = h; move = unmoved refl refl })
      | inr other ↦ elim (Bool-cases (is_truthy (stripped_reason payload.reason))) [
        | inr blank ↦ rw (other, blank) tt
        | inl given ↦
            rw (other, given)
              (subst
                (λ o.
                  Ensures (λ r. IsKept book r.1)
                    (store_primary now policy_id batch payload o actor_id book))
                (sym e) (store_primary-Commits now policy_id batch payload actor_id book h))
      ]
    ]

pub select_primary_entity-Commits :
    (now policy_id : ℕ) (payload : PrimaryEntityInput) (actor_id : ℕ) (book : EvaluationBook)
    → HasEntitiesIn book
    → Commits book (select_primary_entity now policy_id payload actor_id book)
unfolding select_primary_entity
select_primary_entity-Commits now policy_id payload actor_id book h =
    let Kept = λ (r : PrimaryEntityDecision × EvaluationBook). IsKept book r.1 in
    Ensures-bind Kept
      (or_raise (by_id policy_row_id policy_id book.policies) evaluation_policy_not_found) _
      λ p _. Ensures-bind Kept (confirmed_evaluation p book) _ λ evaluation _.
        Ensures-bind Kept
          (raise_if (not (names_entity payload.entity_seed_code evaluation.1.values.entities))
            primary_entity_not_eligible)
          _
          λ _ _.
            change_primary-Commits now policy_id evaluation.0 payload actor_id book h
              (find (is_current_for policy_id) book.decisions) refl
