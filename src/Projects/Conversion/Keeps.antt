-- ===== src/Projects/Conversion/Keeps.antt =====
-- A conversion keeps the ledger valid.
use policy_project_managemen.Prelude.{
  subst, ℕ, ◌+◌, ◌≡◌, ◌<◌, refl, sym, subst, true, false, not, ◌&&◌, ◌||◌, List, [], ◌∷◌, Result,
  ok, err, raise_if, or_raise, arith, All, All-append, All-map, any, find, by_id, Bool-cases, inl,
  inr, Option-cases, String, Distinct-append_one,
}
use policy_project_managemen.Prelude.Text.{str_eq, eq_refl}
use policy_project_managemen.Notifications.Service.{enqueue, stored, reread, Outbox}
use policy_project_managemen.Notifications.Service.Validity as OutboxValidity
use policy_project_managemen.Projects.Status.{
  delivery_integrity_error, ProjectError, policy_not_convertible, primary_entity_missing,
  project_write_forbidden,
}
use policy_project_managemen.Projects.Rows.{
  User, Policy, policy_row_id, is_current_for, Project, Ledger, row_is_accepted,
  PrimaryEntityDecision, recommends,
}
use policy_project_managemen.Projects.Permissions.{has_owner_role}
use policy_project_managemen.Projects.Events.{project_created_notification_event}
use policy_project_managemen.Projects.Validity.{
  IsSound, IsValid, IsChain, Apart, ValidAfter, After-bind,
}
use policy_project_managemen.Projects.StatusChange.{Moment}
use policy_project_managemen.Projects.Conversion.{
  ProjectCreateInput, CreationRequest, creation_request, has_creation_key, is_of_policy, replay,
  new_project, creation_entry, clashes, insert_project, announced, resolve_creation_race,
  after_creation, created_members, created_liaison, create_project, replay_or_create,
  refuse_converted, convert_policy,
}

unclashed-Apart :
    (p : Project) (rows : List Project)
    → any (clashes p) rows ≡ false
    → All (λ q. q.id < p.id) rows
    → All (λ q. Apart q p) rows
unclashed-Apart p [] c n = tt
unclashed-Apart p (q ∷ rows) c n =
    (row_apart q p (ground arith) n.0, unclashed-Apart p rows (ground arith) n.1)
  where
    row_apart : (q p : Project) → clashes p q ≡ false → q.id < p.id → Apart q p
    row_apart q p c lt = (
      λ e. omega arith,
      λ e. ground arith,
      λ e. ground (
        arith,
        subst (λ k. str_eq k p.creation_idempotency_key ≡ true) (sym e)
            (eq_refl p.creation_idempotency_key),
      ),
    )

insert-numbered :
    (n : ℕ) (rows : List Project) → All (λ q. q.id < n) rows → All (λ q. q.id < n + 1) rows
insert-numbered n rows h = All-map (λ q. q.id < n) (λ q. q.id < n + 1) rows (λ q lt. omega arith) h

-- A row at its creation: its history is the one entry.
abbrev IsNew : Project → ℕ → Type 0
IsNew p n = (p.id ≡ n) × IsChain p.status p.version p.history

new_project-IsNew :
    (request : CreationRequest) (key fingerprint : String) (primary : PrimaryEntityDecision)
    (liaison : User) (members : List User) (actor : User) (now : ℕ) (l : Ledger)
    → IsNew
        (new_project request key fingerprint primary liaison members actor now l)
        l.next_project_id
unfolding new_project creation_entry
new_project-IsNew request key fingerprint primary liaison members actor now l = (refl, ground arith)

module _ (at : Moment) (actor : User)
    (keep : (q : Outbox)
      → OutboxValidity.IsValid q
      → OutboxValidity.IsValid (at.others.commits q)) where
  announced-IsValid :
      (p : Project) (l : Ledger) (outbox : Outbox)
      → IsValid l
      → stored delivery_integrity_error
          (enqueue at.others (project_created_notification_event p) at.now l.outbox)
        ≡ ok outbox
      → IsValid (announced outbox p actor l)
  unfolding announced
  announced-IsValid p l outbox v e = record {
    sound = v.sound;
    distinct = v.distinct;
    numbered = v.numbered;
    outbox_valid =
        subst OutboxValidity.IsValid
          (OutboxValidity.stored-left delivery_integrity_error
            (enqueue at.others (project_created_notification_event p) at.now l.outbox) outbox e)
          (OutboxValidity.enqueue-IsValid at.others (project_created_notification_event p) at.now
            l.outbox v.outbox_valid keep);
  }

  abbrev InsertedValid : Result ProjectError Ledger → Type 0
  InsertedValid (ok l) = IsValid l
  InsertedValid (err e) = Unit

  insert-IsValid :
      (p : Project) (l : Ledger)
      → IsValid l
      → IsNew p l.next_project_id
      → InsertedValid (insert_project p l)
  unfolding insert_project
  insert-IsValid p l v (at_id, chain) = elim (Bool-cases (row_is_accepted p)) [
    | inr refused ↦ rw refused tt
    | inl accepted ↦ elim (Bool-cases (any (clashes p) l.projects)) [
      | inl clash ↦ rw (accepted, clash) tt
      | inr free ↦
          rw (accepted, free)
            (record {
              sound =
                  All-append IsSound l.projects (p ∷ []) v.sound
                    (record { accepted = accepted; chain = chain }, tt);
              distinct =
                  Distinct-append_one Apart l.projects p v.distinct
                    (unclashed-Apart p l.projects free (rw at_id v.numbered));
              numbered =
                  All-append (λ q. q.id < l.next_project_id + 1) l.projects (p ∷ [])
                    (insert-numbered l.next_project_id l.projects v.numbered) (omega arith, tt);
              outbox_valid = v.outbox_valid;
            })
    ]
  ]

  replay-IsValid :
      (existing : Project) (fingerprint : String) (l : Ledger)
      → IsValid l
      → ValidAfter (replay existing fingerprint l)
  unfolding replay
  replay-IsValid existing fingerprint l v =
      elim (Bool-cases (str_eq existing.creation_request_fingerprint fingerprint)) [
        | inl same ↦ rw same v
        | inr other ↦ rw other tt
      ]

  race-IsValid :
      (policy_id : ℕ) (key fingerprint : String) (seen l : Ledger)
      → IsValid l
      → ValidAfter (resolve_creation_race policy_id key fingerprint seen l)
  unfolding resolve_creation_race
  race-IsValid policy_id key fingerprint seen l v =
      elim (Option-cases (find (has_creation_key key) seen.projects)) [
        | inr (existing, e) ↦
            rw (e, resolve_creation_race) (replay-IsValid existing fingerprint l v)
        | inl e ↦ elim (Option-cases (find (is_of_policy policy_id) seen.projects)) [
          | inl f ↦ rw (e, f, resolve_creation_race) tt
          | inr (existing, f) ↦ rw (e, f, resolve_creation_race) tt
        ]
      ]

  store-IsValid :
      (p : Project) (seen l : Ledger) (r : Result ProjectError Ledger)
      → IsValid l
      → InsertedValid r
      → ValidAfter (after_creation at p actor seen l r)
  unfolding after_creation
  store-IsValid p seen l (ok inserted) v i =
      After-bind (λ p l. IsValid l)
        (stored delivery_integrity_error
          (enqueue at.others (project_created_notification_event p) at.now inserted.outbox))
        _ λ outbox e. announced-IsValid p inserted outbox i e
  store-IsValid p seen l (err e) v i =
      race-IsValid p.policy_id p.creation_idempotency_key p.creation_request_fingerprint seen l v

  module _ (others : Ledger → Ledger)
      (others_keep : (l : Ledger) → IsValid l → IsValid (others l)) where
    create-IsValid :
        (policy : Policy) (request : CreationRequest) (payload : ProjectCreateInput)
        (key fingerprint : String) (l : Ledger)
        → IsValid l
        → ValidAfter (create_project at others policy request payload key fingerprint actor l)
    unfolding create_project
    create-IsValid policy request payload key fingerprint l v =
        let Valid = λ (p : Project) (l : Ledger). IsValid l in
        After-bind Valid
          (raise_if (not policy.conclusion_confirmed || not (recommends policy.current_conclusion))
            policy_not_convertible)
          _
          λ _ _.
            After-bind Valid
              (or_raise (find (is_current_for policy.id) l.decisions) primary_entity_missing) _
              λ primary _.
                After-bind Valid (refuse_converted (find (is_of_policy policy.id) l.projects)) _
                  λ _ _.
                    After-bind Valid (created_liaison payload.liaison_user_id l.users) _
                      λ liaison _.
                        After-bind Valid (created_members payload.member_user_ids l.users) _
                          λ members _.
                            let now = others l in
                            let p =
                              new_project request key fingerprint primary liaison members actor
                                at.now now in
                            store-IsValid p (reread at.others.isolation l now) now
                              (insert_project p now) (others_keep l v)
                              (insert-IsValid p now (others_keep l v) (
                                new_project-IsNew request key fingerprint primary liaison members
                                  actor at.now now))

    replay_or_create-IsValid :
        (digest : CreationRequest → String) (policy : Policy) (request : CreationRequest)
        (payload : ProjectCreateInput) (key : String) (l : Ledger)
        → IsValid l
        → ValidAfter (replay_or_create digest at others policy request payload key actor l)
    unfolding replay_or_create
    replay_or_create-IsValid digest policy request payload key l v =
        elim (Option-cases (find (has_creation_key key) l.projects)) [
          | inr (existing, e) ↦
              rw (e, replay_or_create) (replay-IsValid existing (digest request) l v)
          | inl e ↦
              rw (e, replay_or_create)
                (create-IsValid policy request payload key (digest request) l v)
        ]

    -- A conversion keeps the ledger valid, whatever valid changes other sessions commit between
    -- its queries and its insertion: no two projects have one policy or one key, and the new
    -- project starts with an entry of its creation.
    pub convert_policy-IsValid :
        (digest : CreationRequest → String) (n : ℕ) (payload : ProjectCreateInput) (key : String)
        (l : Ledger)
        → IsValid l
        → ValidAfter (convert_policy digest at others n payload key actor l)
    unfolding convert_policy
    convert_policy-IsValid digest n payload key l v =
        let Valid = λ (p : Project) (l : Ledger). IsValid l in
        After-bind Valid (or_raise (by_id policy_row_id n l.policies) policy_not_convertible) _
          λ policy _.
            After-bind Valid
              (raise_if (not (actor.is_active && has_owner_role actor)) project_write_forbidden) _
              λ _ _.
                replay_or_create-IsValid digest policy (creation_request policy payload) payload key
                  l v
