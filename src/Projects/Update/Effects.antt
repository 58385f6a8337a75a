-- ===== src/Projects/Update/Effects.antt =====
-- What an update writes, and what it leaves.
use policy_project_managemen.Prelude.{
  ℕ, ◌≡◌, refl, true, false, ◌&&◌, Option, none, some, List, [], ◌∷◌, map, ok, arith, All-In,
  In-find, Bool-cases, inl, inr, by_id, has_id, any, find_holds, String, Option-cases,
}
use policy_project_managemen.Prelude.Text.{has_text}
use policy_project_managemen.Projects.Checks.{satisfies_checks}
use policy_project_managemen.Projects.Rows.{
  User, user_id, Project, project_id, member_id, Ledger, row_is_accepted, no_duplicates,
}
use policy_project_managemen.Projects.Permissions.{assert_update_fields_allowed, UpdateField}
use policy_project_managemen.Projects.Validity.{IsSound, IsValid}
use policy_project_managemen.Projects.StatusChange.{locked_at_version}
use policy_project_managemen.Projects.StatusChange.Records.{locked_in}
use policy_project_managemen.Projects.StatusChange.Effects.{
  IsNotRefused, IsNotRefused-bind, locked-IsNotRefused,
}
use policy_project_managemen.Projects.Update.{
  Field, unset, given, get_or, ProjectUpdateInput, changed_keys, validate_update, members_in,
  liaison_in, with_liaison, with_members, with_fields, updated_project, flush_update,
  update_project, selected_members, selected_liaison, found_people, present, is_unusable, member_of,
}

-- What the validators of the request ensure of a name, trimmed and of length at least 1, and of
-- the members, which are not repeated.
abbrev pub HasText : Field (Option String) → Type 0
HasText (given (some s)) = has_text s ≡ true
HasText _ = Unit

abbrev pub HasNoDuplicates : Field (Option (List ℕ)) → Type 0
HasNoDuplicates (given (some ids)) = no_duplicates ids ≡ true
HasNoDuplicates _ = Unit

-- What `_validate_update` lets through meets the constraints.
validated_checks :
    (p : Project) (c : ProjectUpdateInput) (today : ℕ)
    → validate_update p c today ≡ ok tt
    → satisfies_checks p.status
        (get_or c.submitted_on p.submitted_on)
        (get_or c.result_on p.result_on)
        (get_or c.termination_note p.termination_note)
      ≡ true
unfolding validate_update
validated_checks p c today h = ground arith

present_ids :
    (now : ℕ) (ids : List ℕ) (users : List User)
    → any is_unusable (found_people ids users) ≡ false
    → map member_id (map (member_of now) (present (found_people ids users))) ≡ ids
present_ids now [] users h = refl
present_ids now (n ∷ ids) users h = elim (Option-cases (by_id user_id n users)) [
  | inl e ↦ ground (arith, e)
  | inr (u, e) ↦
      ground (arith, e, find_holds (has_id user_id n) u users e, present_ids now ids users)
]

-- The members of the updated row are not repeated.
members_distinct :
    (now : ℕ) (f : Field (Option (List ℕ))) (users : List User) (members : Option (List User))
    (p : Project)
    → HasNoDuplicates f
    → members_in f users ≡ ok members
    → no_duplicates (map member_id p.members) ≡ true
    → no_duplicates (map member_id ((with_members now members p).members)) ≡ true
unfolding members_in selected_members with_members
members_distinct now unset users members p d e h = ground arith
members_distinct now (given none) users members p d e h = ground arith
members_distinct now (given (some ids)) users members p d e h =
    elim (Bool-cases (any is_unusable (found_people ids users))) [
      | inl refused ↦ ground (arith, refused)
      | inr usable ↦ ground (arith, usable, present_ids now ids users usable)
    ]

name_has_text :
    (c : ProjectUpdateInput) (p : Project)
    → HasText c.name
    → has_text p.name ≡ true
    → has_text ((with_fields c p).name) ≡ true
unfolding with_fields
name_has_text c p t h = ground arith

accepted_parts :
    (p : Project)
    → row_is_accepted p ≡ true
    → (has_text p.name ≡ true) × (no_duplicates (map member_id p.members) ≡ true)
unfolding row_is_accepted
accepted_parts p h = ground arith

updated_row :
    (now : ℕ) (c : ProjectUpdateInput) (members : Option (List User)) (liaison : Option User)
    (p : Project)
    → row_is_accepted (updated_project now c members liaison p) ≡ (
        has_text ((with_fields c p).name)
        && satisfies_checks p.status
            (get_or c.submitted_on p.submitted_on)
            (get_or c.result_on p.result_on)
            (get_or c.termination_note p.termination_note)
        && no_duplicates (map member_id ((with_members now members p).members)))
unfolding row_is_accepted updated_project with_members with_liaison with_fields
updated_row now c none none p = refl
updated_row now c none (some u) p = refl
updated_row now c (some us) none p = refl
updated_row now c (some us) (some u) p = refl

updated_accepted :
    (now today : ℕ) (c : ProjectUpdateInput) (users : List User) (members : Option (List User))
    (liaison : Option User) (p : Project)
    → HasText c.name
    → HasNoDuplicates c.member_user_ids
    → row_is_accepted p ≡ true
    → validate_update p c today ≡ ok tt
    → members_in c.member_user_ids users ≡ ok members
    → row_is_accepted (updated_project now c members liaison p) ≡ true
updated_accepted now today c users members liaison p t d h v m =
    let (named, distinct) = accepted_parts p h in
    rw
      (
        updated_row now c members liaison p,
        name_has_text c p t named,
        validated_checks p c today v,
        members_distinct now c.member_user_ids users members p d m distinct,
      )
      refl

allowed-IsNotRefused :
    (p : Project) (actor : User) (fields : List UpdateField)
    → IsNotRefused (assert_update_fields_allowed p actor fields)
unfolding assert_update_fields_allowed
allowed-IsNotRefused p actor fields = ground arith

validate-IsNotRefused :
    (p : Project) (c : ProjectUpdateInput) (today : ℕ) → IsNotRefused (validate_update p c today)
unfolding validate_update
validate-IsNotRefused p c today = ground arith

members-IsNotRefused :
    (f : Field (Option (List ℕ))) (users : List User) → IsNotRefused (members_in f users)
unfolding members_in selected_members
members-IsNotRefused f users = ground arith

liaison-IsNotRefused :
    (f : Field (Option ℕ)) (users : List User) → IsNotRefused (liaison_in f users)
unfolding liaison_in selected_liaison
liaison-IsNotRefused f users = ground arith

flush-IsNotRefused :
    (c : ProjectUpdateInput) (p p' : Project) (actor : User) (l : Ledger)
    → row_is_accepted p' ≡ true
    → IsNotRefused (flush_update c p p' actor l)
unfolding flush_update
flush-IsNotRefused c p p' actor l h = rw h tt

-- On a valid ledger no validated update ends in an IntegrityError: what `_validate_update` lets
-- through, with a name that is not blank and members that are not repeated, the database accepts.
pub update_project-IsNotRefused :
    (now today n : ℕ) (changes : ProjectUpdateInput) (actor : User) (l : Ledger)
    → IsValid l
    → HasText changes.name
    → HasNoDuplicates changes.member_user_ids
    → IsNotRefused (update_project now today n changes actor l)
unfolding update_project
update_project-IsNotRefused now today n changes actor l v t d =
    IsNotRefused-bind (locked_at_version n changes.expected_version l) _
      (locked-IsNotRefused n changes.expected_version l)
      λ p e.
        IsNotRefused-bind (assert_update_fields_allowed p actor (changed_keys changes)) _
          (allowed-IsNotRefused p actor (changed_keys changes))
          λ _ _.
            IsNotRefused-bind (validate_update p changes today) _
              (validate-IsNotRefused p changes today)
              λ _ f.
                IsNotRefused-bind (members_in changes.member_user_ids l.users) _
                  (members-IsNotRefused changes.member_user_ids l.users)
                  λ members g.
                    IsNotRefused-bind (liaison_in changes.liaison_user_id l.users) _
                      (liaison-IsNotRefused changes.liaison_user_id l.users)
                      λ liaison _.
                        flush-IsNotRefused changes p (updated_project now changes members liaison p)
                          actor l
                          (updated_accepted now today changes l.users members liaison p t d
                            ((All-In IsSound p l.projects v.sound (
                              In-find (has_id project_id n) p l.projects
                                (locked_in n changes.expected_version l p e))).accepted)
                            f g)
