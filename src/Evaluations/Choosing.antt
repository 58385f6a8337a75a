-- ===== src/Evaluations/Choosing.antt =====
-- The primary entity of a confirmation: what the choice of it ensures, and what the call stores.
use policy_project_managemen.Prelude.{
  ℕ, ◌≡◌, find_holds, refl, subst, Bool, true, false, not, ◌&&◌, ◌||◌, Option, none, some, List,
  Result, ok, raise_if, or_raise, Ensures, Ensures-bind, find, Bool-cases, inl, inr, String, arith,
}
use policy_project_managemen.Prelude.Text.{str_eq, eq_iff, is_truthy}
use policy_project_managemen.Projects.Rows.{recommends, PrimaryEntityDecision}
use policy_project_managemen.Evaluations.Rows.{
  EntityEvaluationResult, EvaluationResult, BusinessEntity, EvaluationBatch, EvaluationConfirmation,
  EvaluationConfirmationInput, EvaluationBook, EvaluationError,
  primary_entity_required_for_recommendation, primary_entity_not_eligible,
  primary_entity_reason_required,
}
use policy_project_managemen.Evaluations.Values.{values_eq, normalized, stripped_reason}
use policy_project_managemen.Evaluations.Decisions.{new_confirmation}
use policy_project_managemen.Evaluations.Primaries.{
  chosen, Choice, primary_choice, choose_primary, profile_of, is_other_entity, names_entity,
}
use policy_project_managemen.Prelude.{Distinct, Ensures-ok}
use policy_project_managemen.Projects.Rows.{Policy, is_current_for, PrimaryEntityDecision}
use policy_project_managemen.Evaluations.Rows.{
  BusinessEntity, PolicyConclusionDecision, confirmation_reason_required,
}
use policy_project_managemen.Evaluations.Decisions.{
  confirmed_batch, confirmed_policy, confirmation_decision, with_confirmation,
  append_conclusion_decision, confirm_first,
}
use policy_project_managemen.Evaluations.Primaries.{primary_choice, store_choice}
use policy_project_managemen.Evaluations.Secured.{
  CurrentApart, IsReplaced, Replaces, is_chosen, IsUpToDateChoice, HasEntitiesIn,
  store_choice-Replaces,
}

-- The payload names the primary entity among the entities that it evaluates.
abbrev pub names_in : Option String → List EntityEvaluationResult → Bool
names_in none entities = false
names_in (some code) entities = names_entity code entities

abbrev pub names_primary : EvaluationConfirmationInput → Bool
names_primary payload = names_in payload.primary_entity_seed_code payload.values.entities

abbrev pub IsNamed : EvaluationConfirmationInput → Type 0
IsNamed payload = (not (recommends payload.values.conclusion) || names_primary payload) ≡ true

profile_of-names_entity :
    (code : String) (entities : List EntityEvaluationResult) (snapshot : List BusinessEntity)
    (p : BusinessEntity)
    → profile_of code entities snapshot ≡ some p
    → names_entity code entities ≡ true
profile_of-names_entity code entities snapshot p e =
    let h =
      find_holds (λ p. str_eq p.seed_code code && names_entity p.seed_code entities) p snapshot e in
    subst (λ s. names_entity s entities ≡ true) ((eq_iff p.seed_code code).0 (ground (arith, h)))
      (ground (arith, h))

named_by :
    (code : String) (payload : EvaluationConfirmationInput)
    → payload.primary_entity_seed_code ≡ some code
    → names_entity code payload.values.entities ≡ true
    → names_primary payload ≡ true
named_by code payload e h = rw e h

-- A recommendation chooses an entity that it names, against the current decision.
pub record IsMade (payload : EvaluationConfirmationInput) (n : ℕ)
    (rows : List PrimaryEntityDecision) (c : Choice) : Type 0 where
  pub up_to_date : IsUpToDateChoice n rows c
  pub chosen : (not (recommends payload.values.conclusion) || is_chosen c) ≡ true
  pub named : IsNamed payload

module _ (payload : EvaluationConfirmationInput) (batch : EvaluationBatch) (n : ℕ)
    (rows : List PrimaryEntityDecision) where
  abbrev Made : Choice → Type 0
  Made = IsMade payload n rows

  chosen-IsMade :
      (code : String) (profile : BusinessEntity)
      → recommends payload.values.conclusion ≡ true
      → names_primary payload ≡ true
      → Made (chosen profile (find (is_current_for n) rows))
  chosen-IsMade code profile apply h = record {
    up_to_date = refl;
    chosen = rw apply refl;
    named = rw (apply, h) refl;
  }

  choose_primary-IsMade :
      (code : String)
      → recommends payload.values.conclusion ≡ true
      → payload.primary_entity_seed_code ≡ some code
      → Ensures Made (choose_primary code payload batch (find (is_current_for n) rows))
  unfolding choose_primary
  choose_primary-IsMade code apply e =
      Ensures-bind Made
        (or_raise (profile_of code payload.values.entities batch.profile_snapshot)
          primary_entity_not_eligible)
        _
        λ profile f.
          Ensures-bind Made
            (raise_if
              (is_other_entity code (find (is_current_for n) rows)
                && not (is_truthy (stripped_reason payload.change_reason)))
              primary_entity_reason_required)
            _
            (λ _ _. chosen-IsMade code profile apply (
              named_by code payload e (
                profile_of-names_entity code payload.values.entities batch.profile_snapshot profile
                  (ground (arith, f)))))

  primary_choice-IsMade : Ensures Made (primary_choice payload batch (find (is_current_for n) rows))
  unfolding primary_choice
  primary_choice-IsMade = elim (Bool-cases (recommends payload.values.conclusion)) [
    | inr other ↦
        rw other (record { up_to_date = tt; chosen = rw other refl; named = rw other refl })
    | inl apply ↦ rw apply (
        Ensures-bind Made
          (or_raise payload.primary_entity_seed_code primary_entity_required_for_recommendation) _
          λ code e. choose_primary-IsMade code apply (ground (arith, e)))
  ]

-- What a first confirmation stores: its rows, and then the primary entity that it chose.
pub record IsStored (now : ℕ) (batch : EvaluationBatch) (p : Policy) (d : PolicyConclusionDecision)
    (changed : Bool) (payload : EvaluationConfirmationInput) (actor_id : ℕ) (book : EvaluationBook)
    (r : EvaluationConfirmation × EvaluationBook) : Type 0 where
  pub chosen : Bool
  pub secures : (not (recommends payload.values.conclusion) || chosen) ≡ true
  pub named : IsNamed payload
  pub same : r.0 ≡ new_confirmation now batch.id actor_id payload
  pub replaced :
      IsReplaced chosen p.id
        (with_confirmation
          (new_confirmation now batch.id actor_id payload)
          d
          (confirmed_batch now batch)
          (confirmed_policy d p)
          changed
          book)
        r.1

Replaces-ok :
    (b : Bool) (n : ℕ) (book : EvaluationBook) (r : Result EvaluationError EvaluationBook)
    (final : EvaluationBook)
    → Replaces b n book r
    → r ≡ ok final
    → IsReplaced b n book final
Replaces-ok b n book r final i e = subst (Replaces b n book) e i

module _ (now : ℕ) (batch : EvaluationBatch) (p : Policy) (ai_values : EvaluationResult)
    (payload : EvaluationConfirmationInput) (actor_id : ℕ) (book : EvaluationBook) where
  abbrev pub values_changed : Bool
  values_changed = not (values_eq (normalized payload.values) (normalized ai_values))

  abbrev pub decision_made : PolicyConclusionDecision
  decision_made =
      confirmation_decision now book.next_conclusion_id payload ai_values p.id batch.id actor_id

  -- The rows of the confirmation leave the decisions on primary entities as they are.
  stored_choice-Replaces :
      (choice : Choice)
      → Distinct CurrentApart book.decisions
      → IsUpToDateChoice p.id book.decisions choice
      → let book' =
          with_confirmation
            (new_confirmation now batch.id actor_id payload)
            decision_made
            (confirmed_batch now batch)
            (confirmed_policy decision_made p)
            values_changed
            book in
        Replaces (is_chosen choice) p.id book' (
          store_choice now p.id batch.id actor_id
            (stripped_reason payload.change_reason)
            choice
            book')
  unfolding with_confirmation append_conclusion_decision
  stored_choice-Replaces choice one u =
      store_choice-Replaces now p.id batch.id actor_id (stripped_reason payload.change_reason)
        choice
        (with_confirmation (new_confirmation now batch.id actor_id payload) decision_made
          (confirmed_batch now batch) (confirmed_policy decision_made p) values_changed book)
        one u

  chosen-IsStored :
      (choice : Choice) (final : EvaluationBook)
      → IsMade payload p.id book.decisions choice
      → IsReplaced
          (is_chosen choice)
          p.id
          (with_confirmation
            (new_confirmation now batch.id actor_id payload)
            decision_made
            (confirmed_batch now batch)
            (confirmed_policy decision_made p)
            values_changed
            book)
          final
      → IsStored now batch p decision_made values_changed payload actor_id book
          (new_confirmation now batch.id actor_id payload, final)
  chosen-IsStored choice final made i = record {
    chosen = is_chosen choice;
    secures = made.chosen;
    named = made.named;
    same = refl;
    replaced = i;
  }

  pub confirm_first-IsStored :
      HasEntitiesIn book
      → Ensures
          (IsStored now batch p decision_made values_changed payload actor_id book)
          (confirm_first now batch p ai_values payload actor_id book)
  unfolding confirm_first
  confirm_first-IsStored h =
      let Stored = IsStored now batch p decision_made values_changed payload actor_id book in
      Ensures-bind Stored (primary_choice payload batch (find (is_current_for p.id) book.decisions))
        _
        λ choice e.
          let made =
            Ensures-ok (IsMade payload p.id book.decisions) _ choice
              (primary_choice-IsMade payload batch p.id book.decisions) e in
          Ensures-bind Stored
            (raise_if (values_changed && not (is_truthy (stripped_reason payload.change_reason)))
              confirmation_reason_required)
            _
            λ _ _. Ensures-bind Stored _ _ λ final f. chosen-IsStored choice final made (
              Replaces-ok (is_chosen choice) p.id _ _ final
                (stored_choice-Replaces choice h.one_current made.up_to_date) f)
