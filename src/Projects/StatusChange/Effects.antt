-- ===== src/Projects/StatusChange/Effects.antt =====
-- What a status change does when it is made, and why it may not be made.
use policy_project_managemen.Prelude.{
  Option-cases, ℕ, ◌+◌, ◌≡◌, ◌≢◌, refl, sym, ◌∙◌, String, Bool, true, Option, none, some, Result,
  ok, err, ◌>>=◌, raise_if, arith, All-In, In-find, Bool-cases, inl, inr, by_id, has_id, save,
  by_id-save, ◌==◌, if◌then◌else◌, subst, length, length-append, find_holds,
}
use policy_project_managemen.Projects.Events.{project_first_status_notification_event}
use policy_project_managemen.Notifications.Delivery.{NotificationDelivery}
use policy_project_managemen.Notifications.Service.{Outbox, enqueue, stored, NotificationError}
use policy_project_managemen.Audit.{record_event}
use policy_project_managemen.Projects.Status.{
  delivery_integrity_error, ProjectStatus, ProjectError, integrity_error, project_version_conflict,
  project_write_forbidden, ProjectTransitionInput, ProjectCorrectionInput,
}
use policy_project_managemen.Projects.Workflow.{
  StatusValues, WorkflowResult, Outcome, apply_transition,
}
use policy_project_managemen.Projects.Workflow.Graph.{Arrives, apply_transition_outcome}
use policy_project_managemen.Projects.Workflow.Consistency.{
  row_checks, MeetsChecks, apply_transition-MeetsChecks,
}
use policy_project_managemen.Projects.Rows.{
  User, Project, HistoryAction, transitioned, Ledger, project_id, row_is_accepted,
}
use policy_project_managemen.Projects.StatusChange.Records.{locked_in}
use policy_project_managemen.Projects.Validity.{IsSound, IsValid, After, After-bind, After-map}
use policy_project_managemen.Projects.StatusChange.{
  enqueue_first_status, Moment, status_values, written_project, changed_project, persisted,
  persist_status_change, locked_at_version, transition, correct_status,
}

-- The call did not end in an IntegrityError of the tables of the projects.
abbrev pub IsNotRefused : {A : Type 0} → Result ProjectError A → Type 0
IsNotRefused (ok a) = Unit
IsNotRefused (err e) = e ≢ integrity_error

pub IsNotRefused-bind :
    {A B : Type 0} (m : Result ProjectError A) (f : A → Result ProjectError B)
    → IsNotRefused m
    → ((a : A) → m ≡ ok a → IsNotRefused (f a))
    → IsNotRefused (m >>= f)
IsNotRefused-bind (ok a) f h k = k a refl
IsNotRefused-bind (err e) f h k = h

pub locked-IsNotRefused :
    (n expected : ℕ) (l : Ledger) → IsNotRefused (locked_at_version n expected l)
unfolding locked_at_version
locked-IsNotRefused n expected l = ground arith

pub forbidden-IsNotRefused : (b : Bool) → IsNotRefused (raise_if b project_write_forbidden)
forbidden-IsNotRefused b = ground arith

invalid-IsNotRefused : (v : StatusValues) (o : Outcome) → MeetsChecks v o → IsNotRefused o
invalid-IsNotRefused v o h = ground arith

-- The row that a computed transition leaves is accepted.
transition_accepted :
    (actor : User) (r : WorkflowResult) (now history_id today : ℕ) (p : Project)
    (payload : ProjectTransitionInput)
    → row_is_accepted p ≡ true
    → apply_transition p.status (status_values p) payload today ≡ ok r
    → row_is_accepted (changed_project actor r transitioned none now history_id p) ≡ true
unfolding row_is_accepted changed_project written_project
transition_accepted actor r now history_id today p payload h e =
    ground (arith, apply_transition-MeetsChecks p.status (status_values p) payload today)

first_status-IsNotRefused :
    (at : Moment) (p : Project) (o : Outbox) → IsNotRefused (enqueue_first_status at p o)
unfolding enqueue_first_status
first_status-IsNotRefused at p o =
    elim (Option-cases (project_first_status_notification_event p p.status)) [
      | inl e ↦ rw (e, enqueue_first_status) tt
      | inr (event, e) ↦ rw (e, enqueue_first_status) (recorded (enqueue at.others event at.now o))
    ]
  where
    recorded :
        (call : Result NotificationError NotificationDelivery × Outbox)
        → IsNotRefused (stored delivery_integrity_error call)
    recorded (ok d, o) = tt
    recorded (err e, o) = λ q. cc

persist-IsNotRefused :
    (at : Moment) (p : Project) (actor : User) (r : WorkflowResult) (l : Ledger)
    → row_is_accepted (changed_project actor r transitioned none at.now l.next_history_id p) ≡ true
    → IsNotRefused (persist_status_change at p actor r transitioned none l)
unfolding persist_status_change
persist-IsNotRefused at p actor r l h = rw h (
    IsNotRefused-bind
      (enqueue_first_status at
        (changed_project actor r transitioned none at.now l.next_history_id p) l.outbox)
      _ (first_status-IsNotRefused at _ l.outbox) λ outbox _. tt)

transition_meets :
    (p : Project) (payload : ProjectTransitionInput) (today : ℕ)
    → IsSound p
    → MeetsChecks (status_values p) (apply_transition p.status (status_values p) payload today)
transition_meets p payload today s =
    apply_transition-MeetsChecks p.status (status_values p) payload today
      (sound_checks p s.accepted)
  where
    sound_checks :
        (p : Project) → row_is_accepted p ≡ true → row_checks p.status (status_values p) ≡ true
    sound_checks p h = unfold row_is_accepted in ground arith

-- On a valid ledger the database accepts every row that a transition of the workflow writes:
-- `transition` never ends in an IntegrityError of the tables of the projects.
pub transition-IsNotRefused :
    (at : Moment) (n : ℕ) (payload : ProjectTransitionInput) (actor : User) (l : Ledger)
    → IsValid l
    → IsNotRefused (transition at n payload actor l)
unfolding transition
transition-IsNotRefused at n payload actor l v =
    IsNotRefused-bind (locked_at_version n payload.expected_version l) _
      (locked-IsNotRefused n payload.expected_version l)
      λ p e. IsNotRefused-bind (raise_if _ _) _ (forbidden-IsNotRefused _) λ _ _.
        let sound = All-In IsSound p l.projects v.sound (
          In-find (has_id project_id n) p l.projects
            (locked_in n payload.expected_version l p e)) in
        IsNotRefused-bind (apply_transition p.status (status_values p) payload at.today) _
          (invalid-IsNotRefused (status_values p) _ (transition_meets p payload at.today sound))
          λ r f. persist-IsNotRefused at p actor r l (
            transition_accepted actor r at.now l.next_history_id at.today p payload sound.accepted
              f)

-- The row at the id is the one that the method returns, at the next version, and all other rows,
-- the users and the policies are as they were.
pub record IsChangeOf (l : Ledger) (n expected : ℕ) (p' : Project) (l' : Ledger) : Type 0 where
  pub version : p'.version ≡ expected + 1
  pub rows :
      (m : ℕ)
      → by_id project_id m l'.projects ≡ (if m == n then some p' else by_id project_id m l.projects)
  pub audited : length l'.audits ≡ length l.audits + 1
  pub users : l'.users ≡ l.users
  pub policies : l'.policies ≡ l.policies

changed-fields :
    (actor : User) (r : WorkflowResult) (action : HistoryAction) (reason : Option String)
    (now history_id : ℕ) (p : Project)
    → let p' = changed_project actor r action reason now history_id p in
      (p'.id ≡ p.id) × (p'.version ≡ p.version + 1) × (p'.status ≡ r.new_status)
unfolding changed_project written_project
changed-fields actor r action reason now history_id p = (refl, refl, refl)

pub locked-fields :
    (n expected : ℕ) (l : Ledger) (p : Project)
    → locked_at_version n expected l ≡ ok p
    → (p.version ≡ expected) × (p.id ≡ n)
unfolding locked_at_version
locked-fields n expected l p e =
    ground (arith, find_holds (has_id project_id n) p l.projects (locked_in n expected l p e))

persisted-IsChangeOf :
    (outbox : Outbox) (n expected : ℕ) (p p' : Project) (actor : User) (action : HistoryAction)
    (reason : Option String) (l : Ledger)
    → locked_at_version n expected l ≡ ok p
    → p'.id ≡ p.id
    → p'.version ≡ p.version + 1
    → IsChangeOf l n expected p' (persisted outbox p p' actor action reason l)
unfolding persisted record_event
persisted-IsChangeOf outbox n expected p p' actor action reason l e same next =
    let (at_version, at_id) = locked-fields n expected l p e in
    let row = locked_in n expected l p e in
    record {
      version = omega arith;
      rows = λ m.
          subst
            (λ k.
              by_id project_id m (save project_id p' l.projects)
              ≡ (if m == k then some p' else by_id project_id m l.projects))
            (same ∙ at_id)
            (by_id-save project_id m p' p l.projects
              (subst (λ k. by_id project_id k l.projects ≡ some p) (sym (same ∙ at_id)) row));
      audited = omega (arith, length-append {0});
      users = refl;
      policies = refl;
    }

persist-IsChangeOf :
    (at : Moment) (n expected : ℕ) (p : Project) (actor : User) (r : WorkflowResult)
    (action : HistoryAction) (reason : Option String) (l : Ledger)
    → locked_at_version n expected l ≡ ok p
    → After
        (λ p' l'. IsChangeOf l n expected p' l' × (p'.status ≡ r.new_status))
        (persist_status_change at p actor r action reason l)
unfolding persist_status_change
persist-IsChangeOf at n expected p actor r action reason l e =
    let changed = changed_project actor r action reason at.now l.next_history_id p in
    let (same, next, status) = changed-fields actor r action reason at.now l.next_history_id p in
    elim (Bool-cases (row_is_accepted changed)) [
      | inr refused ↦ rw refused tt
      | inl accepted ↦ rw accepted (
          After-bind (λ p' l'. IsChangeOf l n expected p' l' × (p'.status ≡ r.new_status))
            (enqueue_first_status at changed l.outbox) _
            λ outbox _. (
              persisted-IsChangeOf outbox n expected p changed actor action reason l e same next,
              status,
            ))
    ]

arrives :
    (t : ProjectStatus) (o : Outcome) (r : WorkflowResult)
    → Arrives t o
    → o ≡ ok r
    → r.new_status ≡ t
arrives t o r h e = subst (Arrives t) e h

-- The method has written the project with the status, one version up.
abbrev pub Moves : Ledger → ℕ → ℕ → ProjectStatus → Result ProjectError (Project × Ledger) → Type 0
Moves l n expected s = After (λ p' l'. IsChangeOf l n expected p' l' × (p'.status ≡ s))

-- A transition that is made writes the project with the status that was asked for and one version
-- up, records one audit event, and changes no other project, user or policy.
pub transition_effect :
    (at : Moment) (n : ℕ) (payload : ProjectTransitionInput) (actor : User) (l : Ledger)
    → Moves l n payload.expected_version payload.target_status (transition at n payload actor l)
unfolding transition
transition_effect at n payload actor l =
    let Made = λ (p' : Project) (l' : Ledger).
      IsChangeOf l n payload.expected_version p' l' × (p'.status ≡ payload.target_status) in
    After-bind Made (locked_at_version n payload.expected_version l) _ λ p e.
      After-bind Made (raise_if _ _) _ λ _ _.
        After-bind Made (apply_transition p.status (status_values p) payload at.today) _ λ r f.
          After-map
            (λ p' l'. IsChangeOf l n payload.expected_version p' l' × (p'.status ≡ r.new_status))
            Made _
            (λ p' l' h. (
              h.0,
              h.1
                  ∙ arrives payload.target_status _ r
                      (apply_transition_outcome p.status (status_values p) payload at.today) f,
            ))
            (persist-IsChangeOf at n payload.expected_version p actor r transitioned none l e)

-- A method that reads the project at another version raises the conflict.
locked_conflict :
    (n expected version : ℕ) (l : Ledger) (p : Project)
    → by_id project_id n l.projects ≡ some p
    → p.version ≡ version
    → expected ≢ version
    → locked_at_version n expected l ≡ err (project_version_conflict version)
unfolding locked_at_version
locked_conflict n expected version l p row e other = ground arith

-- Every further status change under the version `expected` is refused with the version in place.
abbrev pub IsFenced : ℕ → ℕ → Project → Ledger → Type 0
IsFenced n expected p' l' =
    ((at : Moment) (q : ProjectTransitionInput) (actor : User)
      → transition at n (record q { expected_version = expected }) actor l'
        ≡ err (project_version_conflict p'.version))
    × ((at : Moment) (q : ProjectCorrectionInput) (actor : User)
        → correct_status at n
            (record q { change = record (q.change) { expected_version = expected } }) actor l'
          ≡ err (project_version_conflict p'.version))

pub version_fences :
    (n expected : ℕ) (p' : Project) (l' : Ledger)
    → by_id project_id n l'.projects ≡ some p'
    → p'.version ≡ expected + 1
    → IsFenced n expected p' l'
unfolding transition correct_status
version_fences n expected p' l' row next =
    let fence = locked_conflict n expected p'.version l' p' row refl (λ q. absurd (omega arith)) in
    (λ at q actor. rw fence refl, λ at q actor. rw fence refl)

change_fences :
    (l : Ledger) (n expected : ℕ) (p' : Project) (l' : Ledger)
    → IsChangeOf l n expected p' l'
    → IsFenced n expected p' l'
change_fences l n expected p' l' c =
    version_fences n expected p' l' (ground (arith, c.rows n)) c.version

-- Of two status changes that were prepared from the same version only one is made: once a
-- transition has been, every transition and every correction under that version raises
-- `ProjectVersionConflict` with the version that the first one left.
pub no_lost_update :
    (at : Moment) (n : ℕ) (payload : ProjectTransitionInput) (actor : User) (l : Ledger)
    → After (IsFenced n payload.expected_version) (transition at n payload actor l)
no_lost_update at n payload actor l =
    After-map
      (λ p' l'. IsChangeOf l n payload.expected_version p' l' × (p'.status ≡ payload.target_status))
      (IsFenced n payload.expected_version) (transition at n payload actor l)
      (λ p' l' h. change_fences l n payload.expected_version p' l' h.0)
      (transition_effect at n payload actor l)
