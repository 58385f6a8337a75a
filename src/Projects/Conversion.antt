-- ===== src/Projects/Conversion.antt =====
-- The conversion of a policy into a project: `ProjectCreateInput` (projects/schemas.py), and
-- `_creation_fingerprint`, `ProjectService.convert_policy` and `_resolve_creation_race`
-- (projects/service.py) in backend/app/modules.
pub mod Keeps
pub mod Unordered
pub mod Replay
mod Tests
use policy_project_managemen.Prelude.{
  ℕ, ◌+◌, String, Bool, true, false, not, ◌&&◌, ◌||◌, Option, none, some, List, [], ◌∷◌, ◌++◌, map,
  Result, ok, err, ◌>>=◌, ◌>>◌, raise_if, or_raise, by_id, find, any, if◌then◌else◌, ◌==◌, leb,
  sort_by,
}
use policy_project_managemen.Prelude.Text.{str_eq}
use policy_project_managemen.Audit.{Value, number, text, fields, AuditEvent, record_event}
use policy_project_managemen.Notifications.Service.{stored, reread, Outbox, enqueue}
use policy_project_managemen.Projects.Status.{
  delivery_integrity_error, pending_application, ProjectError, policy_not_convertible,
  policy_already_converted, primary_entity_missing, project_liaison_required, project_user_inactive,
  project_write_forbidden, idempotency_key_reused, integrity_error,
}
use policy_project_managemen.Projects.Rows.{
  User, user_id, Policy, policy_row_id, recommends, PrimaryEntityDecision, is_current_for, Project,
  ProjectStatusHistory, created, Ledger, row_is_accepted,
}
use policy_project_managemen.Projects.Permissions.{has_owner_role}
use policy_project_managemen.Projects.Events.{project_created_notification_event}
use policy_project_managemen.Projects.StatusChange.{Moment}
use policy_project_managemen.Projects.Update.{found_people, is_unusable, present, member_of}

pub record ProjectCreateInput : Type 0 where
  pub name : Option String
  pub liaison_user_id : ℕ
  pub member_user_ids : List ℕ
  pub deadline_on : Option ℕ

-- The document that `_creation_fingerprint` prints and digests.
pub record CreationRequest : Type 0 where
  pub policy_id : ℕ
  pub name : String
  pub deadline_on : Option ℕ
  pub liaison_user_id : ℕ
  pub member_user_ids : List ℕ

abbrev or_else : {A : Type 0} → Option A → A → A
or_else none b = b
or_else (some a) b = a

abbrev or_option : {A : Type 0} → Option A → Option A → Option A
or_option none b = b
or_option (some a) b = some a

-- `effective_name`, `effective_deadline_on` and the sorted members
unfoldable pub creation_request : Policy → ProjectCreateInput → CreationRequest
creation_request policy payload = record {
  policy_id = policy.id;
  name = or_else payload.name policy.title;
  deadline_on = or_option payload.deadline_on policy.deadline_on;
  liaison_user_id = payload.liaison_user_id;
  member_user_ids = sort_by leb payload.member_user_ids;
}

abbrev pub has_creation_key : String → Project → Bool
has_creation_key key p = str_eq p.creation_idempotency_key key

abbrev pub is_of_policy : ℕ → Project → Bool
is_of_policy policy_id p = p.policy_id == policy_id

-- The answer for a key that is in use.
unfoldable pub replay : Project → String → Ledger → Result ProjectError (Project × Ledger)
replay existing fingerprint ledger =
    if str_eq existing.creation_request_fingerprint fingerprint
    then ok (existing, ledger)
    else err idempotency_key_reused

unfoldable pub creation_entry : User → ℕ → ℕ → ProjectStatusHistory
creation_entry actor now history_id = record {
  id = history_id;
  action = created;
  previous_status = none;
  new_status = pending_application;
  actor_id = actor.id;
  actor_display_name = actor.display_name;
  reason = none;
  related_date = none;
  before_values = [];
  after_values = ("status", text "pending_application") ∷ [];
  from_version = 0;
  to_version = 1;
  occurred_at = now;
}

-- The rows of the project, of its members and of its first history entry.
unfoldable pub new_project :
    CreationRequest
    → String
    → String
    → PrimaryEntityDecision
    → User
    → List User
    → User
    → ℕ
    → Ledger
    → Project
unfolding creation_entry
new_project request key fingerprint primary liaison members actor now ledger = record {
  id = ledger.next_project_id;
  policy_id = request.policy_id;
  name = request.name;
  primary_entity_decision_id = primary.id;
  primary_entity_seed_code = primary.entity_seed_code;
  primary_entity_legal_name = primary.entity_legal_name;
  applicant_owner_id = actor.id;
  applicant_owner_display_name = actor.display_name;
  liaison_user_id = liaison.id;
  liaison_display_name = liaison.display_name;
  status = pending_application;
  deadline_on = request.deadline_on;
  submitted_on = none;
  result_on = none;
  progress_note = none;
  result_note = none;
  termination_note = none;
  creation_idempotency_key = key;
  creation_request_fingerprint = fingerprint;
  version = 1;
  created_by = actor.id;
  members = map (member_of now) members;
  history = creation_entry actor now ledger.next_history_id ∷ [];
}

-- The unique constraints on the policy and on the key.
abbrev pub clashes : Project → Project → Bool
clashes p q =
    q.policy_id == p.policy_id || str_eq q.creation_idempotency_key p.creation_idempotency_key

-- The nested transaction: the rows go in, or none does.
unfoldable pub insert_project : Project → Ledger → Result ProjectError Ledger
insert_project p ledger =
    if row_is_accepted p && not (any (clashes p) ledger.projects)
    then ok (record ledger {
      projects = ledger.projects ++ p ∷ [];
      next_project_id = ledger.next_project_id + 1;
      next_history_id = ledger.next_history_id + 1;
    })
    else err integrity_error

-- The two audit events, and the outbox that the notification leaves.
unfoldable pub announced : Outbox → Project → User → Ledger → Ledger
announced outbox p actor ledger = record ledger {
  audits =
      record_event
        (record {
          action = "policy_converted_to_project";
          actor_id = some actor.id;
          object_type = "policy";
          object_id = p.policy_id;
          reason = none;
          changes = fields (("project_id", number p.id) ∷ []);
        })
        (record_event
          (record {
            action = "project_created";
            actor_id = some actor.id;
            object_type = "project";
            object_id = p.id;
            reason = none;
            changes = fields (("policy_id", number p.policy_id) ∷ []);
          })
          ledger.audits);
  outbox = outbox;
}

-- `_resolve_creation_race`, whose queries read the tables `seen`
unfoldable pub resolve_creation_race :
    ℕ → String → String → Ledger → Ledger → Result ProjectError (Project × Ledger)
resolve_creation_race policy_id key fingerprint seen ledger =
    elim (find (has_creation_key key) seen.projects) [
      | some existing ↦ replay existing fingerprint ledger
      | none ↦ elim (find (is_of_policy policy_id) seen.projects) [
        | some existing ↦ err (policy_already_converted (some existing.id))
        | none ↦ err (policy_already_converted none)
      ]
    ]

-- What follows the insertion: `except IntegrityError`, or the rest of the method.
unfoldable pub after_creation :
    Moment
    → Project
    → User
    → Ledger
    → Ledger
    → Result ProjectError Ledger
    → Result ProjectError (Project × Ledger)
after_creation at p actor seen ledger (ok inserted) =
    stored delivery_integrity_error
      (enqueue at.others (project_created_notification_event p) at.now inserted.outbox)
    >>= λ outbox. ok (p, announced outbox p actor inserted)
after_creation at p actor seen ledger (err e) =
    resolve_creation_race p.policy_id p.creation_idempotency_key p.creation_request_fingerprint seen
      ledger

-- The members of the request, who are all there and active.
unfoldable pub created_members : List ℕ → List User → Result ProjectError (List User)
created_members ids users =
    let members = found_people ids users in
    if any is_unusable members then err (project_user_inactive none) else ok (present members)

unfoldable pub created_liaison : ℕ → List User → Result ProjectError User
created_liaison n users = elim (by_id user_id n users) [
  | none ↦ err project_liaison_required
  | some liaison ↦
      if liaison.is_active then ok liaison else err (project_user_inactive (some liaison.id))
]

-- `if existing_project is not None: ...`
abbrev pub refuse_converted : Option Project → Result ProjectError (Unit {0})
refuse_converted none = ok tt
refuse_converted (some existing) = err (policy_already_converted (some existing.id))

-- `snapshot` is what the queries before the insertion read.
abbrev pub store_project :
    Moment → Ledger → Ledger → Project → User → Result ProjectError (Project × Ledger)
store_project at snapshot ledger p actor =
    after_creation at p actor (reread at.others.isolation snapshot ledger) ledger
      (insert_project p ledger)

-- The conversion under a key that is not in use. `others` is what other sessions commit between
-- the queries and the insertion.
unfoldable pub create_project :
    Moment
    → (Ledger → Ledger)
    → Policy
    → CreationRequest
    → ProjectCreateInput
    → String
    → String
    → User
    → Ledger
    → Result ProjectError (Project × Ledger)
create_project at others policy request payload key fingerprint actor ledger = do
  raise_if (not policy.conclusion_confirmed || not (recommends policy.current_conclusion))
      policy_not_convertible
  primary ← or_raise (find (is_current_for policy.id) ledger.decisions) primary_entity_missing
  refuse_converted (find (is_of_policy policy.id) ledger.projects)
  liaison ← created_liaison payload.liaison_user_id ledger.users
  members ← created_members payload.member_user_ids ledger.users
  store_project at ledger (others ledger)
      (new_project request key fingerprint primary liaison members actor at.now (others ledger))
      actor

-- `if existing_key is not None: ...`, with what follows it
unfoldable pub replay_or_create :
    (CreationRequest → String)
    → Moment
    → (Ledger → Ledger)
    → Policy
    → CreationRequest
    → ProjectCreateInput
    → String
    → User
    → Ledger
    → Result ProjectError (Project × Ledger)
replay_or_create digest at others policy request payload key actor ledger =
    elim (find (has_creation_key key) ledger.projects) [
      | some existing ↦ replay existing (digest request) ledger
      | none ↦ create_project at others policy request payload key (digest request) actor ledger
    ]

-- `digest` is the SHA-256 of the JSON text of the request.
unfoldable pub convert_policy :
    (CreationRequest → String)
    → Moment
    → (Ledger → Ledger)
    → ℕ
    → ProjectCreateInput
    → String
    → User
    → Ledger
    → Result ProjectError (Project × Ledger)
convert_policy digest at others policy_id payload key actor ledger = do
  policy ← or_raise (by_id policy_row_id policy_id ledger.policies) policy_not_convertible
  raise_if (not (actor.is_active && has_owner_role actor)) project_write_forbidden
  replay_or_create digest at others policy (creation_request policy payload) payload key actor
      ledger
