-- ===== src/Evaluations/Idempotence.antt =====
-- `confirm` answers a repeated call with the confirmation that it stored.
use policy_project_managemen.Prelude.{
  ℕ, ◌≡◌, ◌∙◌, ==-eq, ==_self, find_holds, has_id, refl, sym, subst, Bool, not, none, some, [], ◌∷◌,
  ◌++◌, ok, raise_if, or_raise, Ensures, Ensures-bind, by_id, find, save, by_id-save_self,
  by_id-save_found, Option-cases, Bool-cases, inl, inr, arith, if◌then◌else◌,
}
use policy_project_managemen.Projects.Rows.{recommends, Policy, policy_row_id}
use policy_project_managemen.Evaluations.Rows.{
  EvaluationResult, EvaluationBatch, EvaluationConfirmation, PolicyConclusionDecision,
  PolicyVersion, EvaluationConfirmationInput, EvaluationBook, batch_key, version_key,
  evaluation_batch_not_found, value_error, evaluation_not_awaiting_confirmation,
  confirmation_conflict,
}
use policy_project_managemen.Evaluations.Values.{values_eq, normalized}
use policy_project_managemen.Evaluations.Decisions.{
  confirmation_of, same_primary, confirm_again, confirmed_batch, confirmed_policy, projected_policy,
  new_confirmation, with_confirmation, append_conclusion_decision, confirm_first, awaited_values,
  confirm_batch, confirm, is_override,
}
use policy_project_managemen.Evaluations.Reordering.{
  SameConfirmation, confirm_again-SameConfirmation,
}
use policy_project_managemen.Evaluations.Repeating.{find_new, confirm_again-same}
use policy_project_managemen.Evaluations.Choosing.{
  IsNamed, IsStored, confirm_first-IsStored, decision_made, values_changed,
}
use policy_project_managemen.Evaluations.Secured.{HasEntitiesIn}
use policy_project_managemen.Prelude.{Ensures-map}

-- The tables after a first confirmation, as far as a second one reads them.
pub record IsConfirmed (now actor_id : ℕ) (batch : EvaluationBatch) (p : Policy)
    (d : PolicyConclusionDecision) (payload : EvaluationConfirmationInput)
    (book book' : EvaluationBook) : Type 0 where
  pub named : IsNamed payload
  pub confirmations :
      book'.confirmations
      ≡ book.confirmations ++ new_confirmation now batch.id actor_id payload ∷ []
  pub batches : book'.batches ≡ save batch_key (confirmed_batch now batch) book.batches
  pub policies : book'.policies ≡ save policy_row_id (confirmed_policy d p) book.policies
  pub versions : book'.versions ≡ book.versions

IsStored-IsConfirmed :
    (now : ℕ) (batch : EvaluationBatch) (p : Policy) (d : PolicyConclusionDecision) (changed : Bool)
    (payload : EvaluationConfirmationInput) (actor_id : ℕ) (book : EvaluationBook)
    (r : EvaluationConfirmation × EvaluationBook)
    → IsStored now batch p d changed payload actor_id book r
    → IsConfirmed now actor_id batch p d payload book r.1
unfolding with_confirmation append_conclusion_decision
IsStored-IsConfirmed now batch p d changed payload actor_id book r i = record {
  named = i.named;
  confirmations = i.replaced.confirmations;
  batches = i.replaced.batches;
  policies = i.replaced.policies;
  versions = i.replaced.versions;
}

confirmed_fields :
    (now : ℕ) (batch : EvaluationBatch) (d : PolicyConclusionDecision) (p : Policy)
    → ((confirmed_batch now batch).id ≡ batch.id)
      × ((confirmed_batch now batch).policy_version_id ≡ batch.policy_version_id)
      × ((confirmed_policy d p).id ≡ p.id)
unfolding confirmed_batch confirmed_policy projected_policy
confirmed_fields now batch d p = elim (Bool-cases (is_override p.current_conclusion_source)) [
  | inl o ↦ rw o (refl, refl, refl)
  | inr o ↦ rw o (refl, refl, refl)
]

abbrev pub Repeats :
    ℕ → ℕ → ℕ → EvaluationConfirmationInput → EvaluationConfirmation × EvaluationBook → Type 0
Repeats now batch_id actor_id payload (c, book') =
    confirm now batch_id payload actor_id book' ≡ ok (c, book')

confirm-found :
    (now n : ℕ) (payload : EvaluationConfirmationInput) (actor_id : ℕ) (book : EvaluationBook)
    (batch : EvaluationBatch) (version : PolicyVersion) (p : Policy) (c : EvaluationConfirmation)
    → by_id batch_key n book.batches ≡ some batch
    → by_id version_key batch.policy_version_id book.versions ≡ some version
    → by_id policy_row_id version.policy_id book.policies ≡ some p
    → find (confirmation_of batch.id) book.confirmations ≡ some c
    → confirm now n payload actor_id book ≡ confirm_again c payload book
unfolding confirm confirm_batch
confirm-found now n payload actor_id book batch version p c e f g h =
    rw (e, f, g, h, confirm_batch) refl

module _ (now later : ℕ) (batch : EvaluationBatch) (version : PolicyVersion) (p : Policy)
    (actor_id actor_id' : ℕ) (payload repeated : EvaluationConfirmationInput)
    (s : SameConfirmation payload repeated) (d : PolicyConclusionDecision) (book : EvaluationBook)
    (row : by_id batch_key batch.id book.batches ≡ some batch)
    (version_row : by_id version_key batch.policy_version_id book.versions ≡ some version)
    (policy_row : by_id policy_row_id version.policy_id book.policies ≡ some p) where
  policy_again :
      by_id policy_row_id version.policy_id
        (save policy_row_id (confirmed_policy d p) book.policies)
      ≡ some (confirmed_policy d p)
  policy_again =
      by_id-save_found policy_row_id version.policy_id (confirmed_policy d p) p book.policies
        policy_row (confirmed_fields now batch d p).2

  IsConfirmed-Repeats :
      (book' : EvaluationBook)
      → find (confirmation_of batch.id) book.confirmations ≡ none
      → IsConfirmed now actor_id batch p d payload book book'
      → Repeats later batch.id actor_id' repeated
          (new_confirmation now batch.id actor_id payload, book')
  unfolding confirmed_batch new_confirmation
  IsConfirmed-Repeats book' none_yet i =
      confirm-found later batch.id repeated actor_id' book' (confirmed_batch now batch) version
        (confirmed_policy d p) (new_confirmation now batch.id actor_id payload)
        (rw i.batches
          (by_id-save_self batch_key (confirmed_batch now batch) batch book.batches row))
        (rw i.versions version_row) (rw i.policies policy_again)
        (rw i.confirmations (
          find_new (confirmation_of batch.id) book.confirmations
            (new_confirmation now batch.id actor_id payload) none_yet (==_self batch.id)))
      ∙ confirm_again-SameConfirmation (new_confirmation now batch.id actor_id payload) payload
          repeated book' s
      ∙ confirm_again-same now batch.id actor_id payload book' i.named

module _ (now later : ℕ) (payload repeated : EvaluationConfirmationInput)
    (s : SameConfirmation payload repeated) (actor_id actor_id' : ℕ) (book : EvaluationBook)
    (h : HasEntitiesIn book) where
  module _ (batch : EvaluationBatch) (version : PolicyVersion) (p : Policy)
      (row : by_id batch_key batch.id book.batches ≡ some batch)
      (version_row : by_id version_key batch.policy_version_id book.versions ≡ some version)
      (policy_row : by_id policy_row_id version.policy_id book.policies ≡ some p) where
    confirm_first-Repeats :
        (ai_values : EvaluationResult)
        → find (confirmation_of batch.id) book.confirmations ≡ none
        → Ensures
            (Repeats later batch.id actor_id' repeated)
            (confirm_first now batch p ai_values payload actor_id book)
    confirm_first-Repeats ai_values none_yet =
        let d = decision_made now batch p ai_values payload actor_id book in
        let changed = values_changed now batch p ai_values payload actor_id book in
        Ensures-map (IsStored now batch p d changed payload actor_id book)
          (Repeats later batch.id actor_id' repeated)
          (confirm_first now batch p ai_values payload actor_id book)
          (λ r i.
            subst (λ c. Repeats later batch.id actor_id' repeated (c, r.1)) (sym i.same)
              (IsConfirmed-Repeats now later batch version p actor_id actor_id' payload repeated s d
                book row version_row policy_row r.1 none_yet
                (IsStored-IsConfirmed now batch p d changed payload actor_id book r i)))
          (confirm_first-IsStored now batch p ai_values payload actor_id book h)

    found_again :
        (c : EvaluationConfirmation)
        → raise_if
            (not (values_eq (normalized c.values) (normalized payload.values)))
            confirmation_conflict
          ≡ ok tt
        → (if recommends c.values.conclusion
            then same_primary c payload.primary_entity_seed_code
            else ok tt)
          ≡ ok tt
        → confirm_again c payload book ≡ ok (c, book)
    unfolding confirm_again
    found_again c g g' = rw (g, g') refl

    confirm_again-Repeats :
        (c : EvaluationConfirmation)
        → find (confirmation_of batch.id) book.confirmations ≡ some c
        → Ensures (Repeats later batch.id actor_id' repeated) (confirm_again c payload book)
    unfolding confirm_again
    confirm_again-Repeats c there =
        let Again = Repeats later batch.id actor_id' repeated in
        Ensures-bind Again
          (raise_if (not (values_eq (normalized c.values) (normalized payload.values)))
            confirmation_conflict)
          _
          λ _ g.
            Ensures-bind Again
              (if recommends c.values.conclusion
                then same_primary c payload.primary_entity_seed_code
                else ok tt)
              _
              λ _ g'.
                confirm-found later batch.id repeated actor_id' book batch version p c row
                  version_row policy_row there
                ∙ confirm_again-SameConfirmation c payload repeated book s
                ∙ found_again c g g'

    confirm_batch-Repeats :
        Ensures
          (Repeats later batch.id actor_id' repeated)
          (confirm_batch now batch p payload actor_id book)
    unfolding confirm_batch
    confirm_batch-Repeats =
        elim (Option-cases (find (confirmation_of batch.id) book.confirmations)) [
          | inl e ↦
              rw (e, confirm_batch)
                (Ensures-bind (Repeats later batch.id actor_id' repeated)
                  (or_raise (awaited_values batch) evaluation_not_awaiting_confirmation) _
                  λ ai_values _. confirm_first-Repeats ai_values e)
          | inr (c, e) ↦ rw (e, confirm_batch) (confirm_again-Repeats c e)
        ]

  -- A confirmation that returned may be sent again, by anyone, with the entities in any order and
  -- any reason: the same confirmation comes back, and the tables stay.
  pub confirm-Repeats :
      (n : ℕ) → Ensures (Repeats later n actor_id' repeated) (confirm now n payload actor_id book)
  unfolding confirm
  confirm-Repeats n =
      let Again = Repeats later n actor_id' repeated in
      Ensures-bind Again (or_raise (by_id batch_key n book.batches) evaluation_batch_not_found) _
        λ batch e.
          Ensures-bind Again
            (or_raise (by_id version_key batch.policy_version_id book.versions) value_error) _
            λ version f.
              Ensures-bind Again
                (or_raise (by_id policy_row_id version.policy_id book.policies) value_error) _
                λ p g.
                  let same =
                    ==-eq batch.id n
                      (find_holds (has_id batch_key n) batch book.batches (ground arith)) in
                  subst
                    (λ k.
                      Ensures (Repeats later k actor_id' repeated)
                        (confirm_batch now batch p payload actor_id book))
                    same
                    (confirm_batch-Repeats batch version p
                      (subst (λ k. by_id batch_key k book.batches ≡ some batch) (sym same)
                        (ground (arith, e)))
                      (ground (arith, f)) (ground (arith, g)))
