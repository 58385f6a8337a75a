-- ===== src/Projects/Conversion/Replay.antt =====
-- A conversion that is asked for again under its key.
use policy_project_managemen.Prelude.{
  none, ℕ, ◌≡◌, subst, refl, true, false, not, ◌&&◌, ◌||◌, some, List, [], ◌∷◌, ◌++◌, ok, raise_if,
  or_raise, arith, any, find, by_id, Bool-cases, inl, inr, Option-cases, String,
}
use policy_project_managemen.Projects.Events.{project_created_notification_event}
use policy_project_managemen.Notifications.Service.{
  enqueue, stored, reread, Isolation, read_committed, repeatable_read,
}
use policy_project_managemen.Prelude.Text.{str_eq, eq_refl}
use policy_project_managemen.Projects.Status.{
  delivery_integrity_error, policy_not_convertible, primary_entity_missing, project_write_forbidden,
}
use policy_project_managemen.Projects.Rows.{
  User, Policy, policy_row_id, is_current_for, Project, Ledger, row_is_accepted, recommends,
}
use policy_project_managemen.Projects.Permissions.{has_owner_role}
use policy_project_managemen.Projects.Validity.{After, After-bind, After-map}
use policy_project_managemen.Projects.StatusChange.{Moment}
use policy_project_managemen.Projects.Conversion.Unordered.{
  SameRequest, creation_request-SameRequest,
}
use policy_project_managemen.Projects.Conversion.{
  ProjectCreateInput, CreationRequest, creation_request, has_creation_key, is_of_policy, replay,
  new_project, clashes, insert_project, announced, resolve_creation_race, after_creation,
  created_members, created_liaison, create_project, convert_policy, replay_or_create,
  refuse_converted,
}

-- The project is the one that holds the key, with the fingerprint of the request, and the row of
-- the policy is as it was.
abbrev IsHeld : Ledger → ℕ → String → String → Project → Ledger → Type 0
IsHeld l n key fingerprint p' l' =
    (find (has_creation_key key) l'.projects ≡ some p')
    × (str_eq p'.creation_request_fingerprint fingerprint ≡ true)
    × (by_id policy_row_id n l'.policies ≡ by_id policy_row_id n l.policies)

find-append_unclashed :
    (p : Project) (rows : List Project)
    → any (clashes p) rows ≡ false
    → find (has_creation_key p.creation_idempotency_key) (rows ++ p ∷ []) ≡ some p
find-append_unclashed p [] c = ground (arith, eq_refl p.creation_idempotency_key)
find-append_unclashed p (q ∷ rows) c = ground (arith, find-append_unclashed p rows)

module _ (l : Ledger) (n : ℕ) where
  replay-IsHeld :
      (existing : Project) (key fingerprint : String) (now : Ledger)
      → find (has_creation_key key) now.projects ≡ some existing
      → by_id policy_row_id n now.policies ≡ by_id policy_row_id n l.policies
      → After (IsHeld l n key fingerprint) (replay existing fingerprint now)
  unfolding replay
  replay-IsHeld existing key fingerprint now e h =
      elim (Bool-cases (str_eq existing.creation_request_fingerprint fingerprint)) [
        | inl same ↦ rw same (e, same, h)
        | inr other ↦ rw other tt
      ]

  -- The queries of the race see the tables there are, or the snapshot, which lacks the key.
  race-IsHeld :
      (isolation : Isolation) (policy_id : ℕ) (key fingerprint : String) (now : Ledger)
      → find (has_creation_key key) l.projects ≡ none
      → by_id policy_row_id n now.policies ≡ by_id policy_row_id n l.policies
      → After
          (IsHeld l n key fingerprint)
          (resolve_creation_race policy_id key fingerprint (reread isolation l now) now)
  unfolding resolve_creation_race
  race-IsHeld repeatable_read policy_id key fingerprint now free h =
      elim (Option-cases (find (is_of_policy policy_id) l.projects)) [
        | inl f ↦ rw (free, f, resolve_creation_race) tt
        | inr (existing, f) ↦ rw (free, f, resolve_creation_race) tt
      ]
  race-IsHeld read_committed policy_id key fingerprint now free h =
      elim (Option-cases (find (has_creation_key key) now.projects)) [
        | inr (existing, e) ↦
            rw (e, resolve_creation_race) (replay-IsHeld existing key fingerprint now e h)
        | inl e ↦ elim (Option-cases (find (is_of_policy policy_id) now.projects)) [
          | inl f ↦ rw (e, f, resolve_creation_race) tt
          | inr (existing, f) ↦ rw (e, f, resolve_creation_race) tt
        ]
      ]

  store-IsHeld :
      (at : Moment) (actor : User) (p : Project) (now : Ledger)
      → find (has_creation_key p.creation_idempotency_key) l.projects ≡ none
      → by_id policy_row_id n now.policies ≡ by_id policy_row_id n l.policies
      → After
          (IsHeld l n p.creation_idempotency_key p.creation_request_fingerprint)
          (after_creation at p actor (reread at.others.isolation l now) now (insert_project p now))
  unfolding after_creation insert_project announced
  store-IsHeld at actor p now unused h =
      let race =
        race-IsHeld at.others.isolation p.policy_id p.creation_idempotency_key
          p.creation_request_fingerprint now unused h in
      elim (Bool-cases (row_is_accepted p)) [
        | inr refused ↦ rw refused race
        | inl accepted ↦ elim (Bool-cases (any (clashes p) now.projects)) [
          | inl clash ↦ rw (accepted, clash) race
          | inr free ↦
              rw (accepted, free)
                (After-bind (IsHeld l n p.creation_idempotency_key p.creation_request_fingerprint)
                  (stored delivery_integrity_error
                    (enqueue at.others (project_created_notification_event p) at.now now.outbox))
                  _
                  λ outbox _. (
                    find-append_unclashed p now.projects free,
                    eq_refl p.creation_request_fingerprint,
                    h,
                  ))
        ]
      ]

  module _ (at : Moment) (others : Ledger → Ledger) (actor : User)
      (row_locked : by_id policy_row_id n (others l).policies
        ≡ by_id policy_row_id n l.policies) where
    create-IsHeld :
        (policy : Policy) (request : CreationRequest) (payload : ProjectCreateInput)
        (key fingerprint : String)
        → find (has_creation_key key) l.projects ≡ none
        → After
            (IsHeld l n key fingerprint)
            (create_project at others policy request payload key fingerprint actor l)
    unfolding create_project new_project
    create-IsHeld policy request payload key fingerprint unused =
        let Held = IsHeld l n key fingerprint in
        After-bind Held
          (raise_if (not policy.conclusion_confirmed || not (recommends policy.current_conclusion))
            policy_not_convertible)
          _
          λ _ _.
            After-bind Held
              (or_raise (find (is_current_for policy.id) l.decisions) primary_entity_missing) _
              λ primary _.
                After-bind Held (refuse_converted (find (is_of_policy policy.id) l.projects)) _
                  λ _ _.
                    After-bind Held (created_liaison payload.liaison_user_id l.users) _ λ liaison _.
                      After-bind Held (created_members payload.member_user_ids l.users) _
                        λ members _.
                          store-IsHeld at actor
                            (new_project request key fingerprint primary liaison members actor
                              at.now (others l))
                            (others l) unused row_locked

    replay_or_create-IsHeld :
        (digest : CreationRequest → String) (policy : Policy) (request : CreationRequest)
        (payload : ProjectCreateInput) (key : String)
        → After
            (IsHeld l n key (digest request))
            (replay_or_create digest at others policy request payload key actor l)
    unfolding replay_or_create
    replay_or_create-IsHeld digest policy request payload key =
        elim (Option-cases (find (has_creation_key key) l.projects)) [
          | inr (existing, e) ↦
              rw (e, replay_or_create) (replay-IsHeld existing key (digest request) l e refl)
          | inl e ↦
              rw (e, replay_or_create) (create-IsHeld policy request payload key (digest request) e)
        ]

    again :
        (digest : CreationRequest → String) (at' : Moment) (others' : Ledger → Ledger)
        (policy : Policy) (payload repeated : ProjectCreateInput) (key : String) (p' : Project)
        (l' : Ledger)
        → SameRequest payload repeated
        → or_raise (by_id policy_row_id n l.policies) policy_not_convertible ≡ ok policy
        → raise_if (not (actor.is_active && has_owner_role actor)) project_write_forbidden ≡ ok tt
        → IsHeld l n key (digest (creation_request policy payload)) p' l'
        → convert_policy digest at' others' n repeated key actor l' ≡ ok (p', l')
    unfolding convert_policy replay_or_create replay
    again digest at' others' policy payload repeated key p' l' s e g (held, same, row) =
        let request = creation_request-SameRequest policy payload repeated s in
        let held_same =
          subst (λ r. str_eq p'.creation_request_fingerprint (digest r) ≡ true) request same in
        rw (row, e, g, replay_or_create, held, held_same) refl

    -- A conversion that returned a project returns the same project when it is asked for again
    -- with the same key and request, the members in any order, and changes nothing then: whatever
    -- other sessions committed meanwhile, as long as the row of the policy, which the conversion
    -- locks, is as it was.
    pub convert_policy_idempotent :
        (digest : CreationRequest → String) (at' : Moment) (others' : Ledger → Ledger)
        (payload repeated : ProjectCreateInput) (key : String)
        → SameRequest payload repeated
        → After
            (λ p' l'. convert_policy digest at' others' n repeated key actor l' ≡ ok (p', l'))
            (convert_policy digest at others n payload key actor l)
    unfolding convert_policy
    convert_policy_idempotent digest at' others' payload repeated key s =
        let Same = λ (p' : Project) (l' : Ledger).
          convert_policy digest at' others' n repeated key actor l' ≡ ok (p', l') in
        After-bind Same (or_raise (by_id policy_row_id n l.policies) policy_not_convertible) _
          λ policy e.
            After-bind Same
              (raise_if (not (actor.is_active && has_owner_role actor)) project_write_forbidden) _
              λ u g.
                After-map (IsHeld l n key (digest (creation_request policy payload))) Same
                  (replay_or_create digest at others policy (creation_request policy payload)
                    payload key actor l)
                  (λ p' l'. again digest at' others' policy payload repeated key p' l' s e g)
                  (replay_or_create-IsHeld digest policy (creation_request policy payload) payload
                    key)
