-- ===== src/Projects/Update/Rules.antt =====
-- What an update of a project may change, and that the ledger stays valid.
use policy_project_managemen.Prelude.{
  ℕ, ◌+◌, ◌≡◌, true, Option, List, arith, All-In, In, In-find, Bool-cases, inl, inr, has_id,
}
use policy_project_managemen.Projects.Rows.{User, Project, project_id, Ledger, row_is_accepted}
use policy_project_managemen.Projects.Permissions.{assert_update_fields_allowed}
use policy_project_managemen.Projects.Validity.{
  IsSound, IsValid, IsChain-mono, save-IsSound, save-Distinct, save-numbered, ValidAfter,
  After-bind,
}
use policy_project_managemen.Projects.StatusChange.{locked_at_version}
use policy_project_managemen.Projects.StatusChange.Records.{locked_in}
use policy_project_managemen.Projects.Update.{
  ProjectUpdateInput, changed_keys, validate_update, members_in, liaison_in, with_liaison,
  with_members, with_fields, updated_project, stored_update, flush_update, update_project,
}

module _ (l : Ledger) (v : IsValid l) (p : Project) (m : In p l.projects) where
  module _ (now : ℕ) (c : ProjectUpdateInput) (members : Option (List User))
      (liaison : Option User) where
    abbrev changed : Project
    changed = updated_project now c members liaison p

    kept :
        (changed.id ≡ p.id)
        × (changed.policy_id ≡ p.policy_id)
        × (changed.creation_idempotency_key ≡ p.creation_idempotency_key)
        × (changed.history ≡ p.history)
        × (changed.status ≡ p.status)
        × (changed.version ≡ p.version + 1)
    unfolding updated_project with_liaison with_members with_fields
    kept = ground arith

    changed-IsSound : row_is_accepted changed ≡ true → IsSound changed
    changed-IsSound accepted =
        let s = All-In IsSound p l.projects v.sound m in
        let (_, _, _, history, status, version) = kept in
        record {
          accepted = accepted;
          chain =
              rw (history, status, version)
                (IsChain-mono p.status p.version (p.version + 1) p.history (omega arith) s.chain);
        }

    flush_update-IsValid : (actor : User) → ValidAfter (flush_update c p changed actor l)
    unfolding flush_update stored_update
    flush_update-IsValid actor = elim (Bool-cases (row_is_accepted changed)) [
      | inr refused ↦ rw refused tt
      | inl accepted ↦
          let (same, policy, key, _, _, _) = kept in
          let s = changed-IsSound accepted in
          rw accepted (record {
            sound = save-IsSound l v p changed m same policy key s;
            distinct = save-Distinct l v p changed m same policy key s;
            numbered = save-numbered l v p changed m same policy key s;
            outbox_valid = v.outbox_valid;
          })
    ]

-- An update that returns keeps the ledger valid.
pub update_project-IsValid :
    (now today n : ℕ) (changes : ProjectUpdateInput) (actor : User) (l : Ledger)
    → IsValid l
    → ValidAfter (update_project now today n changes actor l)
unfolding update_project
update_project-IsValid now today n changes actor l v =
    let Valid = λ (p : Project) (l : Ledger). IsValid l in
    After-bind Valid (locked_at_version n changes.expected_version l) _ λ p e.
      After-bind Valid (assert_update_fields_allowed p actor (changed_keys changes)) _ λ _ _.
        After-bind Valid (validate_update p changes today) _ λ _ _.
          After-bind Valid (members_in changes.member_user_ids l.users) _ λ members _.
            After-bind Valid (liaison_in changes.liaison_user_id l.users) _ λ liaison _.
              flush_update-IsValid l v p
                (In-find (has_id project_id n) p l.projects
                  (locked_in n changes.expected_version l p e))
                now changes members liaison actor
