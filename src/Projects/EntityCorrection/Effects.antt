-- ===== src/Projects/EntityCorrection/Effects.antt =====
-- What a correction of the primary entity leaves.
use policy_project_managemen.Prelude.{
  ℕ, ◌+◌, ◌≡◌, refl, sym, not, Option, none, some, List, ok, raise_if, or_raise, arith, All-In, In,
  In-find, Bool-cases, inl, inr, by_id, has_id, find, find_holds, ==-eq, ◌==◌, String, subst,
}
use policy_project_managemen.Projects.Status.{lookup_error, project_write_forbidden}
use policy_project_managemen.Projects.Rows.{
  User, Policy, policy_row_id, PrimaryEntityDecision, decision_id, is_current_for, Project,
  project_id, Ledger, row_is_accepted,
}
use policy_project_managemen.Projects.Permissions.{capabilities_for}
use policy_project_managemen.Projects.Validity.{
  IsSound, IsValid, IsChain-mono, save-IsSound, save-Distinct, save-numbered, After, After-bind,
}
use policy_project_managemen.Projects.StatusChange.{locked_at_version}
use policy_project_managemen.Projects.StatusChange.Records.{locked_in}
use policy_project_managemen.Projects.StatusChange.Effects.{
  IsNotRefused, IsNotRefused-bind, locked-IsNotRefused, forbidden-IsNotRefused,
}
use policy_project_managemen.Projects.EntityCorrection.{
  ProjectPrimaryEntityCorrectionInput, current_target, with_entity, stored_entity, write_entity,
  correct_primary_entity,
}

entity_accepted :
    (target : PrimaryEntityDecision) (p : Project)
    → row_is_accepted (with_entity target p) ≡ row_is_accepted p
unfolding with_entity row_is_accepted
entity_accepted target p = refl

-- The decision of the project is the current one of its policy.
abbrev pub HasCurrentEntity : Project → Ledger → Type 0
HasCurrentEntity p l =
    (d : PrimaryEntityDecision) × (find (is_current_for p.policy_id) l.decisions ≡ some d)
    × (d.id ≡ p.primary_entity_decision_id)

-- What a correction leaves: valid tables, and the current entity in the project.
abbrev pub IsCorrected : Project → Ledger → Type 0
IsCorrected p l = IsValid l × HasCurrentEntity p l

module _ (l : Ledger) (v : IsValid l) (p : Project) (m : In p l.projects) where
  with_entity-IsSound : (target : PrimaryEntityDecision) → IsSound (with_entity target p)
  unfolding with_entity row_is_accepted
  with_entity-IsSound target =
      let s = All-In IsSound p l.projects v.sound m in
      record {
        accepted = s.accepted;
        chain = IsChain-mono p.status p.version (p.version + 1) p.history (omega arith) s.chain;
      }

  write-IsCorrected :
      (reason : Option String) (current target : PrimaryEntityDecision) (actor : User)
      → find (is_current_for p.policy_id) l.decisions ≡ some current
      → target.id ≡ current.id
      → After IsCorrected (write_entity reason target p actor l)
  unfolding write_entity stored_entity with_entity
  write-IsCorrected reason current target actor c same =
      elim (Bool-cases (p.primary_entity_decision_id == target.id)) [
        | inl done ↦
            rw done
              (v, (current, c, ground (arith, ==-eq p.primary_entity_decision_id target.id done)))
        | inr other ↦ elim (Bool-cases (row_is_accepted (with_entity target p))) [
          | inr refused ↦ rw (other, refused) tt
          | inl accepted ↦
              let changed = with_entity target p in
              let s = with_entity-IsSound target in
              rw (other, accepted)
                (
                  record {
                    sound = save-IsSound l v p changed m refl refl refl s;
                    distinct = save-Distinct l v p changed m refl refl refl s;
                    numbered = save-numbered l v p changed m refl refl refl s;
                    outbox_valid = v.outbox_valid;
                  },
                  (current, c, sym same),
                )
        ]
      ]

  write-IsNotRefused :
      (reason : Option String) (target : PrimaryEntityDecision) (actor : User)
      → IsNotRefused (write_entity reason target p actor l)
  unfolding write_entity
  write-IsNotRefused reason target actor =
      elim (Bool-cases (p.primary_entity_decision_id == target.id)) [
        | inl done ↦ rw done tt
        | inr other ↦
            rw (other, entity_accepted target p, (All-In IsSound p l.projects v.sound m).accepted)
              tt
      ]

target_current :
    (current target : Option PrimaryEntityDecision) (d : PrimaryEntityDecision)
    → current_target current target ≡ ok d
    → (c : PrimaryEntityDecision) × (current ≡ some c) × (d.id ≡ c.id)
unfolding current_target
target_current none target d e = cc
target_current (some c) none d e = cc
target_current (some c) (some t) d e = (c, refl, ground arith)

found_policy :
    (n : ℕ) (policies : List Policy) (q : Policy)
    → or_raise (by_id policy_row_id n policies) lookup_error ≡ ok q
    → q.id ≡ n
found_policy n policies q e =
    ==-eq q.id n (find_holds (has_id policy_row_id n) q policies (ground arith))

-- On a valid ledger a correction of the primary entity that returns keeps the ledger valid and
-- leaves the project with the decision that is the current one of its policy.
pub correct_primary_entity-IsCorrected :
    (n : ℕ) (payload : ProjectPrimaryEntityCorrectionInput) (actor : User) (l : Ledger)
    → IsValid l
    → After IsCorrected (correct_primary_entity n payload actor l)
unfolding correct_primary_entity
correct_primary_entity-IsCorrected n payload actor l v =
    After-bind IsCorrected (locked_at_version n payload.expected_version l) _ λ p e.
      After-bind IsCorrected
        (raise_if (not (capabilities_for actor p).can_correct_primary_entity)
          project_write_forbidden)
        _
        λ _ _.
          After-bind IsCorrected
            (or_raise (by_id policy_row_id p.policy_id l.policies) lookup_error) _
            λ policy f.
              After-bind IsCorrected
                (current_target (find (is_current_for policy.id) l.decisions)
                  (by_id decision_id payload.primary_entity_decision_id l.decisions))
                _
                λ target g.
                  let (current, found, same) = target_current _ _ target g in
                  write-IsCorrected l v p
                    (In-find (has_id project_id n) p l.projects
                      (locked_in n payload.expected_version l p e))
                    payload.reason current target actor
                    (subst (λ k. find (is_current_for k) l.decisions ≡ some current)
                      (found_policy p.policy_id l.policies policy f) found)
                    same

lookup-IsNotRefused : (o : Option Policy) → IsNotRefused (or_raise o lookup_error)
lookup-IsNotRefused o = ground arith

target-IsNotRefused :
    (current target : Option PrimaryEntityDecision) → IsNotRefused (current_target current target)
unfolding current_target
target-IsNotRefused current target = ground arith

-- On a valid ledger no correction of the primary entity ends in an IntegrityError.
correct_primary_entity-IsNotRefused :
    (n : ℕ) (payload : ProjectPrimaryEntityCorrectionInput) (actor : User) (l : Ledger)
    → IsValid l
    → IsNotRefused (correct_primary_entity n payload actor l)
unfolding correct_primary_entity
correct_primary_entity-IsNotRefused n payload actor l v =
    IsNotRefused-bind (locked_at_version n payload.expected_version l) _
      (locked-IsNotRefused n payload.expected_version l)
      λ p e.
        IsNotRefused-bind
          (raise_if (not (capabilities_for actor p).can_correct_primary_entity)
            project_write_forbidden)
          _ (forbidden-IsNotRefused _)
          λ _ _.
            IsNotRefused-bind (or_raise (by_id policy_row_id p.policy_id l.policies) lookup_error) _
              (lookup-IsNotRefused (by_id policy_row_id p.policy_id l.policies))
              λ policy f.
                IsNotRefused-bind
                  (current_target (find (is_current_for policy.id) l.decisions)
                    (by_id decision_id payload.primary_entity_decision_id l.decisions))
                  _ (target-IsNotRefused _ _)
                  λ target g.
                    write-IsNotRefused l v p
                      (In-find (has_id project_id n) p l.projects
                        (locked_in n payload.expected_version l p e))
                      payload.reason target actor
