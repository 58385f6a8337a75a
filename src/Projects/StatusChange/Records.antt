-- ===== src/Projects/StatusChange/Records.antt =====
-- Status changes keep the ledger valid: every row within its constraints, every history an
-- unbroken chain of changes that the workflow allows.
use policy_project_managemen.Prelude.{
  ℕ, ◌≡◌, refl, List, String, true, Option, none, some, ok, err, raise_if, arith, All-In, In,
  In-find, Option-cases, Bool-cases, inl, inr, by_id, has_id, subst,
}
use policy_project_managemen.Notifications.Service.{enqueue, Outbox}
use policy_project_managemen.Notifications.Service.Validity as OutboxValidity
use policy_project_managemen.Projects.Status.{
  delivery_integrity_error, ProjectStatus, ProjectTransitionInput,
}
use policy_project_managemen.Projects.Workflow.{
  StatusValues, WorkflowResult, Outcome, apply_transition,
}
use policy_project_managemen.Projects.Rows.{
  User, Project, ProjectStatusHistory, HistoryAction, transitioned, Ledger, project_id,
  row_is_accepted,
}
use policy_project_managemen.Projects.Events.{project_first_status_notification_event}
use policy_project_managemen.Projects.Validity.{
  IsLegal, IsSound, IsValid, IsChain-cons, save-IsSound, save-Distinct, save-numbered, ValidAfter,
  After-bind,
}
use policy_project_managemen.Projects.StatusChange.{
  Moment, status_values, written_project, status_entry, changed_project, enqueue_first_status,
  persisted, persist_status_change, locked_at_version, transition,
}

-- A transition that is computed is an edge of the workflow.
abbrev LegalAfter : HistoryAction → ProjectStatus → List ProjectStatusHistory → Outcome → Type 0
LegalAfter action s past (ok r) = IsLegal action (some s) r.new_status past
LegalAfter action s past (err e) = Unit

apply_transition-legal :
    (s : ProjectStatus) (v : StatusValues) (p : ProjectTransitionInput) (today : ℕ)
    (past : List ProjectStatusHistory)
    → LegalAfter transitioned s past (apply_transition s v p today)
unfolding apply_transition
apply_transition-legal s v p today past = ground arith

enqueue_first_status-IsValid :
    (at : Moment) (p : Project) (o o' : Outbox)
    → OutboxValidity.IsValid o
    → ((q : Outbox) → OutboxValidity.IsValid q → OutboxValidity.IsValid (at.others.commits q))
    → enqueue_first_status at p o ≡ ok o'
    → OutboxValidity.IsValid o'
unfolding enqueue_first_status
enqueue_first_status-IsValid at p o o' v keep done =
    elim (Option-cases (project_first_status_notification_event p p.status)) [
      | inl e ↦ subst OutboxValidity.IsValid (ground (arith, e, done)) v
      | inr (event, e) ↦
          subst OutboxValidity.IsValid
            (OutboxValidity.stored-left delivery_integrity_error (enqueue at.others event at.now o)
              o' (ground (arith, e, done)))
            (OutboxValidity.enqueue-IsValid at.others event at.now o v keep)
    ]

module _ (at : Moment) (actor : User) (l : Ledger) (v : IsValid l)
    (keep : (q : Outbox)
      → OutboxValidity.IsValid q
      → OutboxValidity.IsValid (at.others.commits q)) where
  module _ (p : Project) (m : In p l.projects) (r : WorkflowResult) (action : HistoryAction)
      (reason : Option String) (legal : IsLegal action (some p.status) r.new_status p.history) where
    changed-IsSound :
        row_is_accepted (changed_project actor r action reason at.now l.next_history_id p) ≡ true
        → IsSound (changed_project actor r action reason at.now l.next_history_id p)
    unfolding changed_project written_project status_entry
    changed-IsSound accepted = record {
      accepted = accepted;
      chain =
          IsChain-cons (status_entry actor r action reason at.now l.next_history_id p) p.status
            p.version p.history (All-In IsSound p l.projects v.sound m).chain refl refl
            (refl, refl, omega arith, legal);
    }

    persisted-IsValid :
        (outbox : Outbox)
        → OutboxValidity.IsValid outbox
        → row_is_accepted (changed_project actor r action reason at.now l.next_history_id p) ≡ true
        → IsValid (
            persisted outbox p
              (changed_project actor r action reason at.now l.next_history_id p)
              actor
              action
              reason
              l)
    unfolding persisted changed_project written_project
    persisted-IsValid outbox outbox_valid accepted =
        let changed = changed_project actor r action reason at.now l.next_history_id p in
        let s = changed-IsSound accepted in
        record {
          sound = save-IsSound l v p changed m refl refl refl s;
          distinct = save-Distinct l v p changed m refl refl refl s;
          numbered = save-numbered l v p changed m refl refl refl s;
          outbox_valid = outbox_valid;
        }

    persist-IsValid : ValidAfter (persist_status_change at p actor r action reason l)
    unfolding persist_status_change
    persist-IsValid =
        let changed = changed_project actor r action reason at.now l.next_history_id p in
        elim (Bool-cases (row_is_accepted changed)) [
          | inr refused ↦ rw refused tt
          | inl accepted ↦ rw accepted (
              After-bind (λ p l. IsValid l) (enqueue_first_status at changed l.outbox) _
                λ outbox e.
                  persisted-IsValid outbox
                    (enqueue_first_status-IsValid at changed l.outbox outbox v.outbox_valid keep e)
                    accepted)
        ]

LegalAfter-ok :
    (action : HistoryAction) (s : ProjectStatus) (past : List ProjectStatusHistory) (o : Outcome)
    (r : WorkflowResult)
    → LegalAfter action s past o
    → o ≡ ok r
    → IsLegal action (some s) r.new_status past
LegalAfter-ok action s past o r h e = subst (LegalAfter action s past) e h

pub locked_in :
    (n expected : ℕ) (l : Ledger) (p : Project)
    → locked_at_version n expected l ≡ ok p
    → by_id project_id n l.projects ≡ some p
unfolding locked_at_version
locked_in n expected l p e = ground arith

module _ (at : Moment) (n : ℕ) (actor : User) (l : Ledger) (v : IsValid l)
    (keep : (q : Outbox)
      → OutboxValidity.IsValid q
      → OutboxValidity.IsValid (at.others.commits q)) where
  pub locked_row :
      (expected : ℕ) (p : Project) → locked_at_version n expected l ≡ ok p → In p l.projects
  locked_row expected p e = In-find (has_id project_id n) p l.projects (locked_in n expected l p e)

  -- A transition that returns keeps the ledger valid: the row meets the constraints, the history goes on
  -- unbroken by an edge of the workflow, and the outbox stays valid.
  pub transition-IsValid :
      (payload : ProjectTransitionInput) → ValidAfter (transition at n payload actor l)
  unfolding transition
  transition-IsValid payload =
      After-bind (λ p l. IsValid l) (locked_at_version n payload.expected_version l) _
        λ p e.
          After-bind (λ p l. IsValid l) (raise_if _ _) _
            λ _ _.
              After-bind (λ p l. IsValid l)
                (apply_transition p.status (status_values p) payload at.today) _
                λ r f.
                  persist-IsValid at actor l v keep p (locked_row payload.expected_version p e) r
                    transitioned none
                    (LegalAfter-ok transitioned p.status p.history _ r
                      (apply_transition-legal p.status (status_values p) payload at.today p.history)
                      f)
