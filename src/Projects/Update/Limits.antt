-- ===== src/Projects/Update/Limits.antt =====
-- What an update changes and what it cannot change.
use policy_project_managemen.Prelude.{
  ℕ, ◌+◌, ◌≡◌, refl, sym, ◌∙◌, true, false, Option, none, some, List, ok, arith, Bool-cases, inl,
  inr, by_id, by_id-save, save, all, ◌==◌, if◌then◌else◌, subst,
}
use policy_project_managemen.Projects.Rows.{User, Project, project_id, Ledger, row_is_accepted}
use policy_project_managemen.Projects.Permissions.{
  assert_update_fields_allowed, capabilities_for, has_owner_role, is_liaison_field, UpdateField,
}
use policy_project_managemen.Projects.Validity.{After, After-bind, After-map}
use policy_project_managemen.Projects.StatusChange.{locked_at_version}
use policy_project_managemen.Projects.StatusChange.Records.{locked_in}
use policy_project_managemen.Projects.StatusChange.Effects.{IsFenced, version_fences, locked-fields}
use policy_project_managemen.Projects.Update.{
  Field, unset, given, is_given, ProjectUpdateInput, changed_keys, validate_update, members_in,
  liaison_in, with_liaison, with_members, with_fields, updated_project, stored_update, flush_update,
  update_project, requested,
}

-- The project is written one version up, with its status, history, policy and entity as they were,
-- and all other rows and the outbox are as they were.
pub record IsUpdateOf (l : Ledger) (n expected : ℕ) (p p' : Project) (l' : Ledger) : Type 0 where
  pub version : p'.version ≡ expected + 1
  pub status : p'.status ≡ p.status
  pub history : p'.history ≡ p.history
  pub policy : p'.policy_id ≡ p.policy_id
  pub entity : p'.primary_entity_decision_id ≡ p.primary_entity_decision_id
  pub rows :
      (m : ℕ)
      → by_id project_id m l'.projects ≡ (if m == n then some p' else by_id project_id m l.projects)
  pub users : l'.users ≡ l.users
  pub outbox : l'.outbox ≡ l.outbox

updated-fields :
    (now : ℕ) (c : ProjectUpdateInput) (members : Option (List User)) (liaison : Option User)
    (p : Project)
    → let p' = updated_project now c members liaison p in
      (p'.id ≡ p.id)
      × (p'.version ≡ p.version + 1)
      × (p'.status ≡ p.status)
      × (p'.history ≡ p.history)
      × (p'.policy_id ≡ p.policy_id)
      × (p'.primary_entity_decision_id ≡ p.primary_entity_decision_id)
unfolding updated_project with_liaison with_members with_fields
updated-fields now c members liaison p = ground arith

-- What only an owner may change is as it was.
abbrev pub IsLimited : Project → Project → Ledger → Type 0
IsLimited p p' l' =
    (p'.name ≡ p.name)
    × (p'.deadline_on ≡ p.deadline_on)
    × (p'.liaison_user_id ≡ p.liaison_user_id)
    × (p'.members ≡ p.members)

owner_field_unset :
    {A : Type 0} (f : Field A) (field : UpdateField) (rest : List UpdateField)
    → is_liaison_field field ≡ false
    → all is_liaison_field (requested (is_given f) field rest) ≡ true
    → (f ≡ unset) × (all is_liaison_field rest ≡ true)
unfolding requested
owner_field_unset unset field rest h a = ground arith
owner_field_unset (given _) field rest h a = ground arith

only_liaison_fields :
    (p : Project) (actor : User) (fields : List UpdateField)
    → assert_update_fields_allowed p actor fields ≡ ok tt
    → has_owner_role actor ≡ false
    → all is_liaison_field fields ≡ true
unfolding assert_update_fields_allowed capabilities_for
only_liaison_fields p actor fields a o = ground arith

-- An update by an actor who is no owner sets none of the four fields of an owner.
owner_fields_unset :
    (p : Project) (actor : User) (c : ProjectUpdateInput)
    → assert_update_fields_allowed p actor (changed_keys c) ≡ ok tt
    → has_owner_role actor ≡ false
    → (c.name ≡ unset)
      × (c.deadline_on ≡ unset)
      × (c.liaison_user_id ≡ unset)
      × (c.member_user_ids ≡ unset)
unfolding changed_keys is_liaison_field
owner_fields_unset p actor c a o =
    let (name, rest) =
      owner_field_unset c.name UpdateField.name _ refl
        (only_liaison_fields p actor (changed_keys c) a o) in
    let (deadline, rest) = owner_field_unset c.deadline_on UpdateField.deadline_on _ refl rest in
    let (liaison, rest) =
      owner_field_unset c.liaison_user_id UpdateField.liaison_user_id _ refl rest in
    let (members, rest) =
      owner_field_unset c.member_user_ids UpdateField.member_user_ids _ refl rest in
    (name, deadline, liaison, members)

no_people :
    (users : List User) (c : ProjectUpdateInput) (members : Option (List User))
    (liaison : Option User)
    → c.member_user_ids ≡ unset
    → c.liaison_user_id ≡ unset
    → members_in c.member_user_ids users ≡ ok members
    → liaison_in c.liaison_user_id users ≡ ok liaison
    → (members ≡ none) × (liaison ≡ none)
unfolding members_in liaison_in
no_people users c members liaison em el m i = ground arith

limited_fields :
    (now : ℕ) (c : ProjectUpdateInput) (p : Project)
    → c.name ≡ unset
    → c.deadline_on ≡ unset
    → let p' = updated_project now c none none p in
      (p'.name ≡ p.name)
      × (p'.deadline_on ≡ p.deadline_on)
      × (p'.liaison_user_id ≡ p.liaison_user_id)
      × (p'.members ≡ p.members)
unfolding updated_project with_liaison with_members with_fields
limited_fields now c p en ed = ground arith

module _ (n : ℕ) (changes : ProjectUpdateInput) (actor : User) (l : Ledger) (p : Project)
    (row : by_id project_id n l.projects ≡ some p) where
  same_row : (q : Project) → locked_at_version n changes.expected_version l ≡ ok q → q ≡ p
  same_row q e = cc (row, locked_in n changes.expected_version l q e)

  saved_rows :
      (p' : Project)
      → p'.id ≡ n
      → (m : ℕ)
      → by_id project_id m (save project_id p' l.projects)
        ≡ (if m == n then some p' else by_id project_id m l.projects)
  saved_rows p' e m =
      subst
        (λ k.
          by_id project_id m (save project_id p' l.projects)
          ≡ (if m == k then some p' else by_id project_id m l.projects))
        e
        (by_id-save project_id m p' p l.projects
          (subst (λ k. by_id project_id k l.projects ≡ some p) (sym e) row))

  flush-IsUpdateOf :
      (now : ℕ) (members : Option (List User)) (liaison : Option User)
      → locked_at_version n changes.expected_version l ≡ ok p
      → After
          (IsUpdateOf l n changes.expected_version p)
          (flush_update changes p (updated_project now changes members liaison p) actor l)
  unfolding flush_update stored_update
  flush-IsUpdateOf now members liaison e =
      let changed = updated_project now changes members liaison p in
      let (same, next, status, history, policy, entity) =
        updated-fields now changes members liaison p in
      let (at_version, at_id) = locked-fields n changes.expected_version l p e in
      elim (Bool-cases (row_is_accepted changed)) [
        | inr refused ↦ rw refused tt
        | inl accepted ↦ rw accepted (record {
          version = omega arith;
          status = status;
          history = history;
          policy = policy;
          entity = entity;
          rows = saved_rows changed (same ∙ at_id);
          users = refl;
          outbox = refl;
        })
      ]

  -- An update that is made writes the project one version up, leaves its status, its history, its
  -- policy and its entity as they were, and touches no other project, no user and no notification.
  update_effect :
      (now today : ℕ)
      → After
          (IsUpdateOf l n changes.expected_version p)
          (update_project now today n changes actor l)
  unfolding update_project
  update_effect now today =
      let P = IsUpdateOf l n changes.expected_version p in
      After-bind P (locked_at_version n changes.expected_version l) _ λ q e.
        let s = same_row q e in
        After-bind P (assert_update_fields_allowed q actor (changed_keys changes)) _ λ _ _.
          After-bind P (validate_update q changes today) _ λ _ _.
            After-bind P (members_in changes.member_user_ids l.users) _ λ members _.
              After-bind P (liaison_in changes.liaison_user_id l.users) _ λ liaison _.
                subst
                  (λ r. After P (
                    flush_update changes r (updated_project now changes members liaison r) actor l))
                  (sym s)
                  (flush-IsUpdateOf now members liaison
                    (subst (λ r. locked_at_version n changes.expected_version l ≡ ok r) s e))

  -- A transition or a correction that was prepared from the version that an update replaced raises
  -- `ProjectVersionConflict`.
  update_fences :
      (now today : ℕ)
      → After (IsFenced n changes.expected_version) (update_project now today n changes actor l)
  update_fences now today =
      After-map (IsUpdateOf l n changes.expected_version p) (IsFenced n changes.expected_version)
        (update_project now today n changes actor l)
        (λ p' l' u.
          version_fences n changes.expected_version p' l' (ground (arith, u.rows n)) u.version)
        (update_effect now today)

  flush-IsLimited :
      (now : ℕ) (members : Option (List User)) (liaison : Option User)
      → assert_update_fields_allowed p actor (changed_keys changes) ≡ ok tt
      → has_owner_role actor ≡ false
      → members_in changes.member_user_ids l.users ≡ ok members
      → liaison_in changes.liaison_user_id l.users ≡ ok liaison
      → After
          (IsLimited p)
          (flush_update changes p (updated_project now changes members liaison p) actor l)
  unfolding flush_update
  flush-IsLimited now members liaison a o m i =
      let (name, deadline, no_liaison, no_members) = owner_fields_unset p actor changes a o in
      let (em, el) = no_people l.users changes members liaison no_members no_liaison m i in
      let limited = limited_fields now changes p name deadline in
      elim (Bool-cases (row_is_accepted (updated_project now changes members liaison p))) [
        | inr refused ↦ rw refused tt
        | inl accepted ↦ rw (accepted, em, el) limited
      ]

  -- An update by an actor without the role of an owner, the liaison's, leaves the name, the
  -- deadline, the liaison and the members of the project as they were.
  pub update_limits :
      (now today : ℕ)
      → has_owner_role actor ≡ false
      → After (IsLimited p) (update_project now today n changes actor l)
  unfolding update_project
  update_limits now today o =
      After-bind (IsLimited p) (locked_at_version n changes.expected_version l) _ λ q e.
        let s = same_row q e in
        After-bind (IsLimited p) (assert_update_fields_allowed q actor (changed_keys changes)) _
          λ u a. After-bind (IsLimited p) (validate_update q changes today) _ λ _ _.
            After-bind (IsLimited p) (members_in changes.member_user_ids l.users) _ λ members m.
              After-bind (IsLimited p) (liaison_in changes.liaison_user_id l.users) _ λ liaison i.
                subst
                  (λ r. After (IsLimited p) (
                    flush_update changes r (updated_project now changes members liaison r) actor l))
                  (sym s)
                  (flush-IsLimited now members liaison
                    (subst
                      (λ r. assert_update_fields_allowed r actor (changed_keys changes) ≡ ok tt) s
                      a)
                    o m i)
