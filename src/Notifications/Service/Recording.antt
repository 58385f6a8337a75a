-- ===== src/Notifications/Service/Recording.antt =====
-- Recording an event: one delivery for each event key.
use policy_project_managemen.Prelude.{
  sym, subst, ℕ, ◌≡◌, refl, is_some, String, Bool, true, none, some, List, [], ◌∷◌, ◌++◌, Result,
  ok, err, arith, find, Option-cases, inl, inr,
}
use policy_project_managemen.Prelude.Text.{eq_refl}
use policy_project_managemen.Notifications.Delivery.{NotificationEvent, NotificationDelivery}
use policy_project_managemen.Notifications.Service.{
  Sessions, NotificationError, integrity_error, Isolation, read_committed, repeatable_read, Outbox,
  reread, stored, has_key, new_delivery, insert_delivery, after_insert, enqueue,
}

find-append_one :
    (p : NotificationDelivery → Bool) (rows : List NotificationDelivery) (d : NotificationDelivery)
    → find p rows ≡ none
    → p d ≡ true
    → find p (rows ++ d ∷ []) ≡ some d
find-append_one p [] d h k = rw k
find-append_one p (x ∷ rows) d h k = ground (arith, find-append_one p rows d)

-- How the recording of the key ends: with the delivery that the table holds for it, or with the
-- IntegrityError where another session recorded the key after this one looked for it, and the
-- isolation level hides its row.
abbrev pub Recorded :
    Sessions → String → Outbox → Result NotificationError NotificationDelivery × Outbox → Type 0
Recorded others key before (ok d, o) = find (has_key key) o.deliveries ≡ some d
Recorded others key before (err e, o) =
    (e ≡ integrity_error)
    × (others.isolation ≡ repeatable_read)
    × (find (has_key key) before.deliveries ≡ none)
    × (is_some (find (has_key key) (others.commits before).deliveries) ≡ true)

module _ (others : Sessions) (event : NotificationEvent) (now : ℕ) (o : Outbox)
    (free : find (has_key event.event_key) o.deliveries ≡ none) where
  after_insert-Recorded :
      (d : NotificationDelivery) (isolation : Isolation)
      → others.isolation ≡ isolation
      → find (has_key event.event_key) (others.commits o).deliveries ≡ some d
      → Recorded others event.event_key o (
          after_insert event now
            (reread isolation o (others.commits o))
            (others.commits o)
            (err integrity_error))
  unfolding after_insert
  after_insert-Recorded d read_committed level row = rw (row, after_insert) row
  after_insert-Recorded d repeatable_read level row =
      rw (free, after_insert) (refl, level, free, rw row refl)

  inserted-Recorded : Recorded others event.event_key o (
      after_insert event now
        (reread others.isolation o (others.commits o))
        (others.commits o)
        (insert_delivery event now (others.commits o)))
  unfolding insert_delivery after_insert
  inserted-Recorded =
      let q : Outbox = others.commits o in
      elim (Option-cases (find (has_key event.event_key) q.deliveries)) [
        | inr (d, f) ↦ rw (f, insert_delivery) (after_insert-Recorded d others.isolation refl f)
        | inl f ↦
            rw (f, insert_delivery)
              (find-append_one (has_key event.event_key) q.deliveries
                (new_delivery event now q.next_id) f (eq_refl event.event_key))
      ]

-- `enqueue` returns the delivery in the table for the event's key. It ends in an IntegrityError
-- only under repeatable reads, where another session commits the key between its first query, which
-- found none, and its insertion.
pub enqueue-Recorded :
    (others : Sessions) (event : NotificationEvent) (now : ℕ) (o : Outbox)
    → Recorded others event.event_key o (enqueue others event now o)
unfolding enqueue
enqueue-Recorded others event now o =
    elim (Option-cases (find (has_key event.event_key) o.deliveries)) [
      | inr (d, e) ↦ rw (e, enqueue) e
      | inl e ↦ rw (e, enqueue) (inserted-Recorded others event now o e)
    ]

-- A caller goes on where no other session commits the key.
pub stored-Recorded {ℓ} :
    {E : Type ℓ} (e : E) (others : Sessions) (event : NotificationEvent) (now : ℕ) (o : Outbox)
    → find (has_key event.event_key) (others.commits o).deliveries
      ≡ find (has_key event.event_key) o.deliveries
    → (o' : Outbox) × (stored e (enqueue others event now o) ≡ ok o')
      × (is_some (find (has_key event.event_key) o'.deliveries) ≡ true)
stored-Recorded e others event now o quiet =
    went_on (enqueue others event now o) (enqueue-Recorded others event now o)
  where
    went_on :
        (call : Result NotificationError NotificationDelivery × Outbox)
        → Recorded others event.event_key o call
        → (o' : Outbox) × (stored e call ≡ ok o')
          × (is_some (find (has_key event.event_key) o'.deliveries) ≡ true)
    went_on (ok d, o') h = (o', refl, rw h refl)
    went_on (err x, o') (_, _, missing, taken) = cc (missing, quiet, taken)

-- Under repeatable reads the second query of `enqueue` does not see the delivery that made the
-- insertion fail, and the call raises.
pub enqueue_race_raises :
    (commits : Outbox → Outbox) (event : NotificationEvent) (now : ℕ) (o : Outbox)
    → find (has_key event.event_key) o.deliveries ≡ none
    → is_some (find (has_key event.event_key) (commits o).deliveries) ≡ true
    → (enqueue (record { isolation = repeatable_read; commits = commits }) event now o).0
      ≡ err integrity_error
unfolding enqueue insert_delivery after_insert
enqueue_race_raises commits event now o free taken =
    rw (free, enqueue) (rw (taken, insert_delivery) (rw (free, after_insert) refl))

-- Recording a second event with the key of one that was recorded returns the same delivery and
-- changes nothing.
enqueue_again :
    (others others' : Sessions) (event event' : NotificationEvent) (now later : ℕ) (o o' : Outbox)
    (d : NotificationDelivery)
    → event'.event_key ≡ event.event_key
    → enqueue others event now o ≡ (ok d, o')
    → enqueue others' event' later o' ≡ (ok d, o')
unfolding enqueue
enqueue_again others others' event event' now later o o' d same returned =
    let row =
      subst (Recorded others event.event_key o) returned (enqueue-Recorded others event now o) in
    rw (subst (λ key. find (has_key key) o'.deliveries ≡ some d) (sym same) row, enqueue) refl
