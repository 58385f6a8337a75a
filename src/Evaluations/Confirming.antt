-- ===== src/Evaluations/Confirming.antt =====
-- A confirmation keeps the confirmed recommendations with their entities, and moves its batch.
use policy_project_managemen.Prelude.{
  ℕ, ◌≡◌, Ensures-map, some, refl, sym, subst, Bool, true, not, ◌||◌, List, ok, raise_if, or_raise,
  by_id, find, if◌then◌else◌, arith, All, All-map, All-save, All-In, In, In-find, has_id,
  Bool-cases, Option-cases, inl, inr, Ensures-bind,
}
use policy_project_managemen.Projects.Rows.{
  recommends, Policy, policy_row_id, PrimaryEntityDecision,
}
use policy_project_managemen.Evaluations.Rows.{
  EvaluationResult, EvaluationBatch, EvaluationConfirmation, PolicyConclusionDecision,
  EvaluationConfirmationInput, EvaluationBook, batch_key, version_key, evaluation_batch_not_found,
  value_error, evaluation_not_awaiting_confirmation, confirmation_conflict,
}
use policy_project_managemen.Evaluations.Values.{values_eq, normalized}
use policy_project_managemen.Evaluations.Decisions.{
  projected_policy, confirmed_policy, is_override, confirmed_batch, with_confirmation,
  append_conclusion_decision, confirm_first, awaited_values, confirm_again, same_primary,
  confirm_batch, confirm, confirmation_of,
}
use policy_project_managemen.Evaluations.Secured.{has_current, IsSecured, Grows, IsSecured-Grows}
use policy_project_managemen.Evaluations.Rows.{confirmed}
use policy_project_managemen.Evaluations.Secured.{HasEntitiesIn}
use policy_project_managemen.Evaluations.Choosing.{
  IsStored, confirm_first-IsStored, decision_made, values_changed,
}
use policy_project_managemen.Evaluations.Machine.{
  Edge, approve, BatchMove, unmoved, moved, IsKept, Commits, is-awaiting, found_batch,
}

pub All-Secured-Grows :
    (rows rows' : List PrimaryEntityDecision) (policies : List Policy)
    → Grows rows rows'
    → All (IsSecured rows) policies
    → All (IsSecured rows') policies
All-Secured-Grows rows rows' policies g h =
    All-map (IsSecured rows) (IsSecured rows') policies (λ p s. IsSecured-Grows rows rows' p g s) h

-- The policy that a confirmation leaves is secured.
confirmed_policy-IsSecured :
    (d : PolicyConclusionDecision) (p : Policy) (rows rows' : List PrimaryEntityDecision) (b : Bool)
    → Grows rows rows'
    → IsSecured rows p
    → (not (recommends d.conclusion) || b) ≡ true
    → (not b || has_current p.id rows') ≡ true
    → IsSecured rows' (confirmed_policy d p)
unfolding confirmed_policy projected_policy
confirmed_policy-IsSecured d p rows rows' b g s r c =
    elim (Bool-cases (is_override p.current_conclusion_source)) [
      | inl o ↦ rw o (IsSecured-Grows rows rows' p g s)
      | inr o ↦ rw o (ground arith)
    ]

approve_edge :
    (now : ℕ) (b : EvaluationBatch) (values : EvaluationResult)
    → or_raise (awaited_values b) evaluation_not_awaiting_confirmation ≡ ok values
    → ((confirmed_batch now b).id ≡ b.id) × Edge b.status (confirmed_batch now b).status
unfolding confirmed_batch
approve_edge now b values e =
    (refl, subst (λ s. Edge s confirmed) (sym (is-awaiting b.status (ground arith))) approve)

module _ (now : ℕ) (batch : EvaluationBatch) (p : Policy) (d : PolicyConclusionDecision)
    (changed : Bool) (payload : EvaluationConfirmationInput) (actor_id : ℕ) (book : EvaluationBook)
    (h : HasEntitiesIn book) (r : EvaluationConfirmation × EvaluationBook)
    (i : IsStored now batch p d changed payload actor_id book r) where
  IsStored-HasEntities :
      d.conclusion ≡ payload.values.conclusion → In p book.policies → HasEntitiesIn r.1
  unfolding with_confirmation append_conclusion_decision
  IsStored-HasEntities same m = record {
    one_current = i.replaced.one;
    secured = subst (All (IsSecured r.1.decisions)) (sym i.replaced.policies) (
        All-save policy_row_id (IsSecured r.1.decisions) (confirmed_policy d p) book.policies
          (confirmed_policy-IsSecured d p book.decisions r.1.decisions i.chosen i.replaced.grows
            (All-In (IsSecured book.decisions) p book.policies h.secured m) (rw same i.secures)
            i.replaced.current)
          (All-Secured-Grows book.decisions r.1.decisions book.policies i.replaced.grows
            h.secured));
  }

  IsStored-BatchMove :
      (values : EvaluationResult)
      → by_id batch_key batch.id book.batches ≡ some batch
      → or_raise (awaited_values batch) evaluation_not_awaiting_confirmation ≡ ok values
      → BatchMove book r.1
  unfolding with_confirmation append_conclusion_decision
  IsStored-BatchMove values row awaited =
      let (same, edge) = approve_edge now batch values awaited in
      moved batch (confirmed_batch now batch) row same edge i.replaced.batches i.replaced.numbers

-- Every confirmation that returns keeps the tables, a first one or a repeated one.
confirm_batch-Commits :
    (now : ℕ) (batch : EvaluationBatch) (p : Policy) (payload : EvaluationConfirmationInput)
    (actor_id : ℕ) (book : EvaluationBook)
    → HasEntitiesIn book
    → In p book.policies
    → by_id batch_key batch.id book.batches ≡ some batch
    → Commits book (confirm_batch now batch p payload actor_id book)
unfolding confirm_batch confirm_again
confirm_batch-Commits now batch p payload actor_id book h m row =
    let Kept = λ (r : EvaluationConfirmation × EvaluationBook). IsKept book r.1 in
    elim (Option-cases (find (confirmation_of batch.id) book.confirmations)) [
      | inl e ↦
          rw (e, confirm_batch)
            (Ensures-bind Kept
              (or_raise (awaited_values batch) evaluation_not_awaiting_confirmation) _
              λ ai_values awaited.
                let d = decision_made now batch p ai_values payload actor_id book in
                let changed = values_changed now batch p ai_values payload actor_id book in
                Ensures-map (IsStored now batch p d changed payload actor_id book) Kept
                  (confirm_first now batch p ai_values payload actor_id book)
                  (λ r i. record {
                    entities =
                        IsStored-HasEntities now batch p d changed payload actor_id book h r i refl
                          m;
                    move =
                        IsStored-BatchMove now batch p d changed payload actor_id book h r i
                          ai_values row awaited;
                  })
                  (confirm_first-IsStored now batch p ai_values payload actor_id book h))
      | inr (existing, e) ↦
          rw (e, confirm_batch)
            (Ensures-bind Kept
              (raise_if (not (values_eq (normalized existing.values) (normalized payload.values)))
                confirmation_conflict)
              _
              λ _ _.
                Ensures-bind Kept
                  (if recommends existing.values.conclusion
                    then same_primary existing payload.primary_entity_seed_code
                    else ok tt)
                  _ (λ _ _. record { entities = h; move = unmoved refl refl }))
    ]

pub confirm-Commits :
    (now batch_id : ℕ) (payload : EvaluationConfirmationInput) (actor_id : ℕ)
    (book : EvaluationBook)
    → HasEntitiesIn book
    → Commits book (confirm now batch_id payload actor_id book)
unfolding confirm
confirm-Commits now batch_id payload actor_id book h =
    let Kept = λ (r : EvaluationConfirmation × EvaluationBook). IsKept book r.1 in
    Ensures-bind Kept (or_raise (by_id batch_key batch_id book.batches) evaluation_batch_not_found)
      _
      λ batch e.
        Ensures-bind Kept
          (or_raise (by_id version_key batch.policy_version_id book.versions) value_error) _
          λ version _.
            Ensures-bind Kept
              (or_raise (by_id policy_row_id version.policy_id book.policies) value_error) _
              λ p f.
                confirm_batch-Commits now batch p payload actor_id book h
                  (In-find (has_id policy_row_id version.policy_id) p book.policies (ground arith))
                  (found_batch batch_id book.batches batch (ground arith))
