-- ===== src/Projects/UpdateAudits.antt =====
-- The audit events of an update (`_audit_values`, `_bounded_audit_value` and
-- `_record_update_audits` of backend/app/modules/projects/service.py).
use policy_project_managemen.Prelude.{
  ℕ, String, Bool, true, false, not, ◌&&◌, Option, none, some, List, [], ◌∷◌, map, select, take,
}
use policy_project_managemen.Prelude.Text.{take_chars}
use policy_project_managemen.Audit.{
  Value, null, text, number, numbers, iso_date, value_eq, AuditEvent, before_after, record_event,
}
use policy_project_managemen.Projects.Rows.{User, Project, member_id}
use policy_project_managemen.Projects.Permissions.{UpdateField}

abbrev optional_date : Option ℕ → Value
optional_date none = null
optional_date (some day) = iso_date day

-- `_bounded_audit_value` of a text or None
abbrev bounded_text : Option String → Value
bounded_text none = null
bounded_text (some s) = text (take_chars 256 s)

-- `_audit_values`, one field of it
unfoldable pub audit_value : Project → UpdateField → Value
audit_value p UpdateField.name = bounded_text (some p.name)
audit_value p UpdateField.deadline_on = optional_date p.deadline_on
audit_value p UpdateField.liaison_user_id = number p.liaison_user_id
audit_value p UpdateField.member_user_ids = numbers (take 100 (map member_id p.members))
audit_value p UpdateField.submitted_on = optional_date p.submitted_on
audit_value p UpdateField.result_on = optional_date p.result_on
audit_value p UpdateField.progress_note = bounded_text p.progress_note
audit_value p UpdateField.result_note = bounded_text p.result_note
audit_value p UpdateField.termination_note = bounded_text p.termination_note

unfoldable pub field_key : UpdateField → String
field_key UpdateField.name = "name"
field_key UpdateField.deadline_on = "deadline_on"
field_key UpdateField.liaison_user_id = "liaison_user_id"
field_key UpdateField.member_user_ids = "member_user_ids"
field_key UpdateField.submitted_on = "submitted_on"
field_key UpdateField.result_on = "result_on"
field_key UpdateField.progress_note = "progress_note"
field_key UpdateField.result_note = "result_note"
field_key UpdateField.termination_note = "termination_note"

abbrev pub is_liaison_key : UpdateField → Bool
is_liaison_key UpdateField.liaison_user_id = true
is_liaison_key _ = false

abbrev pub is_members_key : UpdateField → Bool
is_members_key UpdateField.member_user_ids = true
is_members_key _ = false

abbrev pub is_plain_key : UpdateField → Bool
is_plain_key field = not (is_liaison_key field) && not (is_members_key field)

-- `{field: ... for field in fields}`, with `_audit_values` of the row
abbrev audit_values : Project → List UpdateField → List (String × Value)
audit_values p fields = map (λ field. (field_key field, audit_value p field)) fields

-- `record` in `_record_update_audits`: nothing without a changed field.
unfoldable pub record_group :
    String → List UpdateField → Project → Project → User → List AuditEvent → List AuditEvent
unfolding field_key audit_value
record_group action [] before after actor trail = trail
record_group action (field ∷ fields) before after actor trail =
    record_event
      (record {
        action = action;
        actor_id = some actor.id;
        object_type = "project";
        object_id = after.id;
        reason = none;
        changes =
            before_after (audit_values before (field ∷ fields))
              (audit_values after (field ∷ fields));
      })
      trail

-- `changed_fields`
unfoldable pub changed_fields : List UpdateField → Project → Project → List UpdateField
changed_fields fields before after =
    select (λ field. not (value_eq (audit_value after field) (audit_value before field))) fields

-- `_record_update_audits`
unfoldable pub record_update_audits :
    List UpdateField → Project → Project → User → List AuditEvent → List AuditEvent
record_update_audits fields before after actor trail =
    let changed = changed_fields fields before after in
    record_group "project_members_changed" (select is_members_key changed) before after actor (
      record_group "project_liaison_changed" (select is_liaison_key changed) before after actor
        (record_group "project_updated" (select is_plain_key changed) before after actor trail))
