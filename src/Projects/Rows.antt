-- ===== src/Projects/Rows.antt =====
-- The rows of the project ledger (models.py in backend/app/modules/projects, auth, policies and
-- evaluations). The rows of `project_members` and `project_status_history` of a project are its
-- lists `members`, in the order of their ids, and `history`, the newest first.
use policy_project_managemen.Prelude.{
  ℕ, String, Bool, true, false, not, ◌&&◌, Option, List, [], ◌∷◌, map, ◌==◌, any, is_none,
}
use policy_project_managemen.Prelude.Text.{has_text}
use policy_project_managemen.Audit.{Value, AuditEvent}
use policy_project_managemen.Notifications.Service.{Outbox}
use policy_project_managemen.Projects.Status.{ProjectStatus}
use policy_project_managemen.Projects.Checks.{satisfies_checks}

pub record User : Type 0 where
  pub id : ℕ
  pub display_name : String
  pub is_active : Bool
  pub roles : List String

pub data Conclusion : Type 0 where
  pending_confirmation recommend_apply watch not_recommended uncertain : Conclusion

abbrev pub recommends : Conclusion → Bool
recommends recommend_apply = true
recommends _ = false

pub data ConclusionSource : Type 0 where
  system_suggestion evaluation_confirmation manual_override : ConclusionSource

pub record Policy : Type 0 where
  pub id : ℕ
  pub title : String
  pub document_number : Option String
  pub published_on : Option ℕ
  pub deadline_on : Option ℕ
  pub current_version_id : Option ℕ
  pub current_evaluation_batch_id : Option ℕ
  pub current_conclusion : Conclusion
  pub conclusion_confirmed : Bool
  pub current_conclusion_source : ConclusionSource
  pub conclusion_confirmed_at : Option ℕ

pub record PrimaryEntityDecision : Type 0 where
  pub id : ℕ
  pub policy_id : ℕ
  pub batch_id : ℕ
  pub entity_seed_code : String
  pub entity_legal_name : String
  pub selected_by : ℕ
  pub reason : Option String
  pub selected_at : ℕ
  pub superseded_at : Option ℕ

-- `current_policy_id == policy_id`, where the computed column is NULL once superseded
abbrev pub is_current_for : ℕ → PrimaryEntityDecision → Bool
is_current_for policy_id d = is_none d.superseded_at && d.policy_id == policy_id

pub record ProjectMember : Type 0 where
  pub user_id : ℕ
  pub member_display_name : String
  pub added_at : ℕ

pub data HistoryAction : Type 0 where
  created transitioned corrected : HistoryAction

pub record ProjectStatusHistory : Type 0 where
  pub id : ℕ
  pub action : HistoryAction
  pub previous_status : Option ProjectStatus
  pub new_status : ProjectStatus
  pub actor_id : ℕ
  pub actor_display_name : String
  pub reason : Option String
  pub related_date : Option ℕ
  pub before_values : List (String × Value)
  pub after_values : List (String × Value)
  pub from_version : ℕ
  pub to_version : ℕ
  pub occurred_at : ℕ

pub record Project : Type 0 where
  pub id : ℕ
  pub policy_id : ℕ
  pub name : String
  pub primary_entity_decision_id : ℕ
  pub primary_entity_seed_code : String
  pub primary_entity_legal_name : String
  pub applicant_owner_id : ℕ
  pub applicant_owner_display_name : String
  pub liaison_user_id : ℕ
  pub liaison_display_name : String
  pub status : ProjectStatus
  pub deadline_on : Option ℕ
  pub submitted_on : Option ℕ
  pub result_on : Option ℕ
  pub progress_note : Option String
  pub result_note : Option String
  pub termination_note : Option String
  pub creation_idempotency_key : String
  pub creation_request_fingerprint : String
  pub version : ℕ
  pub created_by : ℕ
  pub members : List ProjectMember
  pub history : List ProjectStatusHistory

abbrev pub no_duplicates : List ℕ → Bool
no_duplicates [] = true
no_duplicates (n ∷ ns) = not (any (λ m. m == n) ns) && no_duplicates ns

abbrev pub member_id : ProjectMember → ℕ
member_id m = m.user_id

-- What the database refuses of a single project at a flush: the check constraints, and a user
-- who is a member twice.
unfoldable pub row_is_accepted : Project → Bool
row_is_accepted p =
    has_text p.name
    && satisfies_checks p.status p.submitted_on p.result_on p.termination_note
    && no_duplicates (map member_id p.members)

-- The tables that the project service reads and writes.
pub record Ledger : Type 0 where
  pub users : List User
  pub policies : List Policy
  pub decisions : List PrimaryEntityDecision
  pub projects : List Project
  pub next_project_id : ℕ
  pub next_history_id : ℕ
  pub audits : List AuditEvent
  pub outbox : Outbox

abbrev pub project_id : Project → ℕ
project_id p = p.id

abbrev pub policy_row_id : Policy → ℕ
policy_row_id p = p.id

abbrev pub user_id : User → ℕ
user_id u = u.id

abbrev pub decision_id : PrimaryEntityDecision → ℕ
decision_id d = d.id
