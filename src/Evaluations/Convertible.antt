-- ===== src/Evaluations/Convertible.antt =====
-- The evaluation and the conversion together: what is recommended there finds its entity here.
use policy_project_managemen.Prelude.{
  ℕ, ◌≡◌, ◌≢◌, true, not, ◌&&◌, ◌||◌, Option, none, some, List, Result, ok, err, raise_if, or_raise,
  Raises, Raises-bind, Raises-raise_if, Raises-or_raise, by_id, find, any, is_some, Option-cases,
  Bool-cases, inl, inr, String, In-find, All-In, has_id, arith,
}
use policy_project_managemen.Projects.Events.{project_created_notification_event}
use policy_project_managemen.Notifications.Delivery.{NotificationDelivery}
use policy_project_managemen.Notifications.Service.{
  enqueue, stored, reread, NotificationError, Outbox,
}
use policy_project_managemen.Prelude.Text.{str_eq}
use policy_project_managemen.Projects.Rows.{
  recommends, Policy, policy_row_id, PrimaryEntityDecision, is_current_for, Project, User, user_id,
  Ledger,
}
use policy_project_managemen.Projects.Status.{
  delivery_integrity_error, ProjectError, policy_not_convertible, primary_entity_missing,
  project_write_forbidden,
}
use policy_project_managemen.Projects.Permissions.{has_owner_role}
use policy_project_managemen.Projects.Update.{found_people, is_unusable}
use policy_project_managemen.Projects.StatusChange.{Moment}
use policy_project_managemen.Projects.Conversion.{
  ProjectCreateInput, CreationRequest, creation_request, has_creation_key, is_of_policy, replay,
  new_project, insert_project, resolve_creation_race, after_creation, created_members,
  created_liaison, create_project, replay_or_create, refuse_converted, convert_policy,
}
use policy_project_managemen.Evaluations.Rows.{EvaluationBook}
use policy_project_managemen.Evaluations.Secured.{IsSecured, HasEntities, has_current}
use policy_project_managemen.Evaluations.Transactions.{Steps, IsValid}
use policy_project_managemen.Evaluations.Runs.{Steps-IsValid}

-- The call does not fail for want of an entity.
abbrev pub HasEntity : {A : Type 0} → Result ProjectError A → Type 0
HasEntity r = Raises (λ e. e ≢ primary_entity_missing) r

abbrev OtherError : ProjectError → Type 0
OtherError e = e ≢ primary_entity_missing

replay-HasEntity :
    (p : Project) (fingerprint : String) (l : Ledger) → HasEntity (replay p fingerprint l)
unfolding replay
replay-HasEntity p fingerprint l =
    elim (Bool-cases (str_eq p.creation_request_fingerprint fingerprint)) [
      | inl e ↦ rw e tt
      | inr e ↦ rw e λ q. cc
    ]

race-HasEntity :
    (n : ℕ) (key fingerprint : String) (seen l : Ledger)
    → HasEntity (resolve_creation_race n key fingerprint seen l)
unfolding resolve_creation_race
race-HasEntity n key fingerprint seen l =
    elim (Option-cases (find (has_creation_key key) seen.projects)) [
      | inr (p, e) ↦ rw (e, resolve_creation_race) (replay-HasEntity p fingerprint l)
      | inl e ↦ elim (Option-cases (find (is_of_policy n) seen.projects)) [
        | inr (p, f) ↦ rw (e, f, resolve_creation_race) λ q. cc
        | inl f ↦ rw (e, f, resolve_creation_race) λ q. cc
      ]
    ]

stored-HasEntity :
    (call : Result NotificationError NotificationDelivery × Outbox)
    → HasEntity (stored delivery_integrity_error call)
stored-HasEntity (ok d, o) = tt
stored-HasEntity (err e, o) = λ q. cc

store-HasEntity :
    (at : Moment) (p : Project) (actor : User) (seen l : Ledger) (r : Result ProjectError Ledger)
    → HasEntity (after_creation at p actor seen l r)
unfolding after_creation
store-HasEntity at p actor seen l (ok inserted) =
    let call = enqueue at.others (project_created_notification_event p) at.now inserted.outbox in
    Raises-bind OtherError (stored delivery_integrity_error call) _ (stored-HasEntity call)
      λ outbox _. tt
store-HasEntity at p actor seen l (err e) =
    race-HasEntity p.policy_id p.creation_idempotency_key p.creation_request_fingerprint seen l

liaison-HasEntity : (n : ℕ) (users : List User) → HasEntity (created_liaison n users)
unfolding created_liaison
liaison-HasEntity n users = elim (Option-cases (by_id user_id n users)) [
  | inl e ↦ rw (e, created_liaison) λ q. cc
  | inr (u, e) ↦ elim (Bool-cases u.is_active) [
    | inl f ↦ rw (e, f, created_liaison) tt
    | inr f ↦ rw (e, f, created_liaison) λ q. cc
  ]
]

members-HasEntity : (ids : List ℕ) (users : List User) → HasEntity (created_members ids users)
unfolding created_members
members-HasEntity ids users = elim (Bool-cases (any is_unusable (found_people ids users))) [
  | inl e ↦ rw e λ q. cc
  | inr e ↦ rw e tt
]

converted-HasEntity : (o : Option Project) → HasEntity (refuse_converted o)
converted-HasEntity none = tt
converted-HasEntity (some p) = λ q. cc

-- A policy that passes the first guard has its entity.
convertible-has_current :
    (p : Policy) (rows : List PrimaryEntityDecision)
    → IsSecured rows p
    → raise_if
        (not p.conclusion_confirmed || not (recommends p.current_conclusion))
        policy_not_convertible
      ≡ ok tt
    → has_current p.id rows ≡ true
convertible-has_current p rows s h = ground arith

found-HasEntity :
    (o : Option PrimaryEntityDecision)
    → is_some o ≡ true
    → HasEntity (or_raise o primary_entity_missing)
found-HasEntity none h = cc
found-HasEntity (some d) h = tt

module _ (at : Moment) (others : Ledger → Ledger) (actor : User) where
  create-HasEntity :
      (policy : Policy) (request : CreationRequest) (payload : ProjectCreateInput)
      (key fingerprint : String) (l : Ledger)
      → IsSecured l.decisions policy
      → HasEntity (create_project at others policy request payload key fingerprint actor l)
  unfolding create_project
  create-HasEntity policy request payload key fingerprint l s =
      Raises-bind OtherError
        (raise_if (not policy.conclusion_confirmed || not (recommends policy.current_conclusion))
          policy_not_convertible)
        _ (Raises-raise_if OtherError _ policy_not_convertible (λ q. cc))
        λ _ g.
          Raises-bind OtherError
            (or_raise (find (is_current_for policy.id) l.decisions) primary_entity_missing) _
            (found-HasEntity (find (is_current_for policy.id) l.decisions)
              (convertible-has_current policy l.decisions s g))
            λ primary _.
              Raises-bind OtherError (refuse_converted (find (is_of_policy policy.id) l.projects)) _
                (converted-HasEntity (find (is_of_policy policy.id) l.projects))
                λ _ _.
                  Raises-bind OtherError (created_liaison payload.liaison_user_id l.users) _
                    (liaison-HasEntity payload.liaison_user_id l.users)
                    λ liaison _.
                      Raises-bind OtherError (created_members payload.member_user_ids l.users) _
                        (members-HasEntity payload.member_user_ids l.users)
                        λ members _.
                          let p =
                            new_project request key fingerprint primary liaison members actor at.now
                              (others l) in
                          store-HasEntity at p actor (reread at.others.isolation l (others l))
                            (others l) (insert_project p (others l))

  replay_or_create-HasEntity :
      (digest : CreationRequest → String) (policy : Policy) (request : CreationRequest)
      (payload : ProjectCreateInput) (key : String) (l : Ledger)
      → IsSecured l.decisions policy
      → HasEntity (replay_or_create digest at others policy request payload key actor l)
  unfolding replay_or_create
  replay_or_create-HasEntity digest policy request payload key l s =
      elim (Option-cases (find (has_creation_key key) l.projects)) [
        | inr (p, e) ↦ rw (e, replay_or_create) (replay-HasEntity p (digest request) l)
        | inl e ↦
            rw (e, replay_or_create)
              (create-HasEntity policy request payload key (digest request) l s)
      ]

  -- Where every confirmed recommendation has its entity, no conversion misses one.
  convert_policy-HasEntity :
      (digest : CreationRequest → String) (n : ℕ) (payload : ProjectCreateInput) (key : String)
      (l : Ledger)
      → HasEntities l.policies l.decisions
      → HasEntity (convert_policy digest at others n payload key actor l)
  unfolding convert_policy
  convert_policy-HasEntity digest n payload key l h =
      Raises-bind OtherError (or_raise (by_id policy_row_id n l.policies) policy_not_convertible) _
        (Raises-or_raise OtherError _ policy_not_convertible (λ q. cc))
        λ policy e.
          Raises-bind OtherError
            (raise_if (not (actor.is_active && has_owner_role actor)) project_write_forbidden) _
            (Raises-raise_if OtherError _ project_write_forbidden (λ q. cc))
            λ _ _.
              replay_or_create-HasEntity digest policy (creation_request policy payload) payload key
                l
                (All-In (IsSecured l.decisions) policy l.policies h.secured
                  (In-find (has_id policy_row_id n) policy l.policies (ground arith)))

  -- After any run of the evaluation service, a conversion on its tables of policies and decisions
  -- never raises `primary_entity_missing`.
  pub convert_after_evaluation :
      (digest : CreationRequest → String) (n : ℕ) (payload : ProjectCreateInput) (key : String)
      (l : Ledger) (book final : EvaluationBook)
      → IsValid book
      → Steps book final
      → l.policies ≡ final.policies
      → l.decisions ≡ final.decisions
      → HasEntity (convert_policy digest at others n payload key actor l)
  convert_after_evaluation digest n payload key l book final v steps p d =
      convert_policy-HasEntity digest n payload key l
        (rw (p, d) (Steps-IsValid book final v steps).entities)
