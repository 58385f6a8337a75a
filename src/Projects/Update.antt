-- ===== src/Projects/Update.antt =====
-- The update of a project's fields: `ProjectUpdateInput` (backend/app/modules/projects/schemas.py)
-- and `ProjectService.update_project` with its helpers (projects/service.py).

pub mod Rules
pub mod Effects
pub mod Limits
mod Tests
use policy_project_managemen.Prelude.{
  ℕ, ◌+◌, String, Bool, true, false, not, ◌&&◌, ◌||◌, Option, none, some, List, [], ◌∷◌, ◌++◌, map,
  Result, ok, err, ◌>>=◌, ◌>>◌, raise_if, or_raise, is_none, ltb, by_id, save, find, any, all,
  select, if◌then◌else◌, ◌==◌, take,
}
use policy_project_managemen.Prelude.Text.{is_truthy, take_chars}
use policy_project_managemen.Audit.{
  Value, null, text, number, numbers, iso_date, value_eq, AuditEvent, before_after, record_event,
}
use policy_project_managemen.Projects.Status.{
  ProjectStatus, submitted, terminated, status_eq, status_in, result_statuses, ProjectError,
  project_liaison_required, project_user_inactive, project_field_validation_failed, integrity_error,
}
use policy_project_managemen.Projects.Checks.{dates_ordered}
use policy_project_managemen.Projects.Rows.{
  User, user_id, Project, project_id, ProjectMember, member_id, Ledger, row_is_accepted,
}
use policy_project_managemen.Projects.Permissions.{UpdateField, assert_update_fields_allowed}
use policy_project_managemen.Projects.StatusChange.{locked_at_version}
use policy_project_managemen.Projects.UpdateAudits.{record_update_audits}

-- A field of the request, which `model_dump(exclude_unset=True)` drops when it is unset.
pub data Field (A : Type 0) : Type 0 where
  unset : Field A
  given : A → Field A

module _ {A : Type 0} where
  -- `field in changes`
  abbrev pub is_given : Field A → Bool
  is_given unset = false
  is_given (given _) = true

  -- `changes.get(field, current)`
  abbrev pub get_or : Field A → A → A
  get_or unset current = current
  get_or (given a) current = a

  -- `field in changes and changes[field] is None`
  abbrev pub is_given_none : Field (Option A) → Bool
  is_given_none (given none) = true
  is_given_none _ = false

  abbrev pub get_unless_none : Field (Option A) → A → A
  get_unless_none (given (some a)) current = a
  get_unless_none _ current = current

pub record ProjectUpdateInput : Type 0 where
  pub expected_version : ℕ
  pub name : Field (Option String)
  pub deadline_on : Field (Option ℕ)
  pub liaison_user_id : Field (Option ℕ)
  pub member_user_ids : Field (Option (List ℕ))
  pub submitted_on : Field (Option ℕ)
  pub result_on : Field (Option ℕ)
  pub progress_note : Field (Option String)
  pub result_note : Field (Option String)
  pub termination_note : Field (Option String)

requested : Bool → UpdateField → List UpdateField → List UpdateField
requested true field rest = field ∷ rest
requested false field rest = rest

-- `set(changes)`, in the order of the schema
unfoldable pub changed_keys : ProjectUpdateInput → List UpdateField
unfolding requested
changed_keys c = requested (is_given c.name) UpdateField.name (
    requested (is_given c.deadline_on) UpdateField.deadline_on (
      requested (is_given c.liaison_user_id) UpdateField.liaison_user_id (
        requested (is_given c.member_user_ids) UpdateField.member_user_ids (
          requested (is_given c.submitted_on) UpdateField.submitted_on (
            requested (is_given c.result_on) UpdateField.result_on (
              requested (is_given c.progress_note) UpdateField.progress_note (
                requested (is_given c.result_note) UpdateField.result_note
                  (requested (is_given c.termination_note) UpdateField.termination_note []))))))))

-- `value is not None and value > today`
abbrev pub is_future : Option ℕ → ℕ → Bool
is_future none today = false
is_future (some day) today = ltb today day

-- `_validate_update`
unfoldable pub validate_update : Project → ProjectUpdateInput → ℕ → Result ProjectError (Unit {0})
validate_update project changes today =
    let submitted_on = get_or changes.submitted_on project.submitted_on in
    let result_on = get_or changes.result_on project.result_on in
    let termination_note = get_or changes.termination_note project.termination_note in
    let has_result = status_in project.status result_statuses in
    if is_given_none changes.name
    then err project_field_validation_failed
    else if is_given_none changes.liaison_user_id
    then err project_liaison_required
    else if (is_given changes.result_on || is_given changes.result_note) && not has_result
    then err project_field_validation_failed
    else if is_given changes.termination_note && not (status_eq project.status terminated)
    then err project_field_validation_failed
    else if status_in project.status (submitted ∷ result_statuses) && is_none submitted_on
    then err project_field_validation_failed
    else if is_future submitted_on today
    then err project_field_validation_failed
    else if is_future result_on today || not (dates_ordered submitted_on result_on)
    then err project_field_validation_failed
    else if has_result && is_none result_on
    then err project_field_validation_failed
    else if status_eq project.status terminated && not (is_truthy termination_note)
    then err project_field_validation_failed
    else ok tt

-- `[people.get(member_id) for member_id in ids]`
abbrev pub found_people : List ℕ → List User → List (Option User)
found_people ids users = map (λ n. by_id user_id n users) ids

-- `member is None or not member.is_active`
abbrev pub is_unusable : Option User → Bool
is_unusable none = true
is_unusable (some user) = not user.is_active

-- the id of the first member that is there and inactive
abbrev pub first_inactive : List (Option User) → Option ℕ
first_inactive [] = none
first_inactive (none ∷ people) = first_inactive people
first_inactive (some user ∷ people) = if user.is_active then first_inactive people else some user.id

-- `[member for member in members if member is not None]`
abbrev pub present : List (Option User) → List User
present [] = []
present (none ∷ people) = present people
present (some user ∷ people) = user ∷ present people

-- `_selected_members` of a list
unfoldable pub selected_members : List ℕ → List User → Result ProjectError (List User)
selected_members ids users =
    let members = found_people ids users in
    if any is_unusable members
    then err (project_user_inactive (first_inactive members))
    else ok (present members)

-- `_selected_liaison` of a number
unfoldable pub selected_liaison : ℕ → List User → Result ProjectError User
selected_liaison n users = elim (by_id user_id n users) [
  | none ↦ err project_liaison_required
  | some liaison ↦
      if liaison.is_active then ok liaison else err (project_user_inactive (some liaison.id))
]

-- The members of the request, where it names them.
unfoldable pub members_in :
    Field (Option (List ℕ)) → List User → Result ProjectError (Option (List User))
members_in unset users = ok none
members_in (given none) users = err project_field_validation_failed
members_in (given (some ids)) users = do members ← selected_members ids users; ok (some members)

-- The liaison of the request, where it names one.
unfoldable pub liaison_in : Field (Option ℕ) → List User → Result ProjectError (Option User)
liaison_in unset users = ok none
liaison_in (given none) users = err project_liaison_required
liaison_in (given (some n)) users = do liaison ← selected_liaison n users; ok (some liaison)

abbrev pub member_of : ℕ → User → ProjectMember
member_of now user = record {
  user_id = user.id;
  member_display_name = user.display_name;
  added_at = now;
}

-- `if liaison is not None: ...`
unfoldable pub with_liaison : Option User → Project → Project
with_liaison none p = p
with_liaison (some user) p = record p {
  liaison_user_id = user.id;
  liaison_display_name = user.display_name;
}

-- `if members is not None: ...`: the rows of the old members are deleted.
unfoldable pub with_members : ℕ → Option (List User) → Project → Project
with_members now none p = p
with_members now (some users) p = record p { members = map (member_of now) users }

-- `setattr` for each field that the request sets, other than the people. A name that is None was
-- refused before.
unfoldable pub with_fields : ProjectUpdateInput → Project → Project
with_fields c p = record p {
  name = get_unless_none c.name p.name;
  deadline_on = get_or c.deadline_on p.deadline_on;
  submitted_on = get_or c.submitted_on p.submitted_on;
  result_on = get_or c.result_on p.result_on;
  progress_note = get_or c.progress_note p.progress_note;
  result_note = get_or c.result_note p.result_note;
  termination_note = get_or c.termination_note p.termination_note;
}

-- The row that the update leaves.
unfoldable pub updated_project :
    ℕ → ProjectUpdateInput → Option (List User) → Option User → Project → Project
unfolding with_liaison with_members with_fields
updated_project now changes members liaison p =
    record (with_members now members (with_liaison liaison (with_fields changes p))) {
      version = p.version + 1;
    }

-- The tables after the flush and the audits.
unfoldable pub stored_update : ProjectUpdateInput → Project → Project → User → Ledger → Ledger
stored_update changes project changed actor ledger = record ledger {
  projects = save project_id changed ledger.projects;
  audits = record_update_audits (changed_keys changes) project changed actor ledger.audits;
}

-- The flush of the changed row, and what follows it.
unfoldable pub flush_update :
    ProjectUpdateInput → Project → Project → User → Ledger → Result ProjectError (Project × Ledger)
flush_update changes project changed actor ledger =
    if row_is_accepted changed
    then ok (changed, stored_update changes project changed actor ledger)
    else err integrity_error

unfoldable pub update_project :
    ℕ → ℕ → ℕ → ProjectUpdateInput → User → Ledger → Result ProjectError (Project × Ledger)
update_project now today n changes actor ledger = do
  project ← locked_at_version n changes.expected_version ledger
  assert_update_fields_allowed project actor (changed_keys changes)
  validate_update project changes today
  members ← members_in changes.member_user_ids ledger.users
  liaison ← liaison_in changes.liaison_user_id ledger.users
  flush_update changes project (updated_project now changes members liaison project) actor ledger
