-- ===== src/SourceHealth/Once.antt =====
-- A task that is reported again.
use policy_project_managemen.Prelude.{
  ◌>>=◌, ℕ, ◌≡◌, refl, true, Option, none, some, List, [], ◌∷◌, ◌++◌, Result, ok, err, opt_eq,
  by_id, by_id-save_self, has_id, save, find_holds, ==-eq, ==_self, ◌==◌, arith, Bool-cases,
  Option-cases, inl, inr, subst, sym, ◌∙◌,
}
use policy_project_managemen.Notifications.Delivery.{NotificationDelivery}
use policy_project_managemen.Notifications.Service.{
  stored, enqueue, NotificationError, Outbox, Sessions, Outbox,
}
use policy_project_managemen.SourceHealth.{
  integrity_error, is_finished, HealthError, PolicySource, CollectionTask, SourceHealthState,
  HealthBook, source_key, state_key, source_failure_notification_event, state_or_new, put_state,
  counted, notified, count_task, record_source_task_outcome,
}
use policy_project_managemen.SourceHealth.Episodes.{counted-fields}

by_id-append_state :
    (n : ℕ) (s : SourceHealthState) (rows : List SourceHealthState)
    → by_id state_key n rows ≡ none
    → s.source_id ≡ n
    → by_id state_key n (rows ++ s ∷ []) ≡ some s
by_id-append_state n s [] h e = ground arith
by_id-append_state n s (x ∷ rows) h e = ground (arith, by_id-append_state n s rows)

state_id :
    (n : ℕ) (rows : List SourceHealthState)
    → (state_or_new n (by_id state_key n rows)).source_id ≡ n
state_id n rows = elim (Option-cases (by_id state_key n rows)) [
  | inl e ↦ rw e refl
  | inr (s, e) ↦ rw e (==-eq s.source_id n (find_holds (has_id state_key n) s rows e))
]

by_id-put_state :
    (n : ℕ) (s : SourceHealthState) (rows : List SourceHealthState)
    → s.source_id ≡ n
    → by_id state_key n (put_state (by_id state_key n rows) s rows) ≡ some s
by_id-put_state n s rows e = elim (Option-cases (by_id state_key n rows)) [
  | inl f ↦ rw f (by_id-append_state n s rows f e)
  | inr (o, f) ↦ rw f (
      subst (λ k. by_id state_key k (save state_key s rows) ≡ some s) e
        (by_id-save_self state_key s o rows
          (subst (λ k. by_id state_key k rows ≡ some o) (sym e) f)))
]

-- The tables that a call left say that the task was counted.
abbrev HasCounted : CollectionTask → HealthBook → Result HealthError HealthBook → Type 0
HasCounted t book (ok book') =
    (book'.sources ≡ book.sources)
    × ((s : SourceHealthState) × (by_id state_key t.source_id book'.states ≡ some s)
        × (s.last_processed_task_id ≡ some t.id))
HasCounted t book (err e) = Unit

notified-HasCounted :
    (others : Sessions) (now : ℕ) (source : PolicySource) (t : CollectionTask)
    (s : SourceHealthState) (book : HealthBook)
    → by_id state_key t.source_id book.states ≡ some s
    → s.last_processed_task_id ≡ some t.id
    → HasCounted t book (notified others now source t s book)
unfolding notified
notified-HasCounted others now source t s book row done =
    elim (Bool-cases (s.consecutive_failure_count == 3)) [
      | inr other ↦ rw other (refl, (s, row, done))
      | inl third ↦ elim (Option-cases (source_failure_notification_event source s t)) [
        | inl e ↦ rw (third, e) tt
        | inr (event, e) ↦ rw (third, e) (recorded (enqueue others event now book.outbox))
      ]
    ]
  where
    recorded :
        (call : Result NotificationError NotificationDelivery × Outbox)
        → HasCounted t book
            (stored integrity_error call >>= λ outbox. ok (record book { outbox = outbox }))
    recorded (ok d, o) = (refl, (s, row, done))
    recorded (err e, o) = tt

processed_id : (o : Option ℕ) (n : ℕ) → opt_eq o n ≡ true → o ≡ some n
processed_id o n h = ground arith

counted_before :
    (n id : ℕ) (rows : List SourceHealthState)
    → opt_eq ((state_or_new n (by_id state_key n rows)).last_processed_task_id) id ≡ true
    → (s : SourceHealthState) × (by_id state_key n rows ≡ some s)
      × (s.last_processed_task_id ≡ some id)
counted_before n id rows h = elim (Option-cases (by_id state_key n rows)) [
  | inl e ↦ ground (arith, e)
  | inr (s, e) ↦ (s, e, processed_id s.last_processed_task_id id (ground (arith, e)))
]

count-HasCounted :
    (others : Sessions) (now : ℕ) (source : PolicySource) (t : CollectionTask) (book : HealthBook)
    → HasCounted t book
        (count_task others now source t (by_id state_key t.source_id book.states) book)
unfolding count_task
count-HasCounted others now source t book =
    let s = state_or_new t.source_id (by_id state_key t.source_id book.states) in
    elim (Bool-cases (opt_eq s.last_processed_task_id t.id)) [
      | inl done ↦ rw done (refl, counted_before t.source_id t.id book.states done)
      | inr fresh ↦
          let (processed, same) = counted-fields t s in
          rw fresh (
            notified-HasCounted others now source t (counted t s) _
              (by_id-put_state t.source_id (counted t s) book.states
                (same ∙ state_id t.source_id book.states))
              processed)
    ]

-- Reporting the task again to the tables that a call left changes nothing.
abbrev pub IsSettled : Sessions → ℕ → CollectionTask → Result HealthError HealthBook → Type 0
IsSettled others now t (ok book') = record_source_task_outcome others now t book' ≡ ok book'
IsSettled others now t (err e) = Unit

settles :
    (others : Sessions) (now : ℕ) (t : CollectionTask) (source : PolicySource) (book : HealthBook)
    (r : Result HealthError HealthBook)
    → by_id source_key t.source_id book.sources ≡ some source
    → is_finished t.status ≡ true
    → HasCounted t book r
    → IsSettled others now t r
unfolding record_source_task_outcome count_task
settles others now t source book (ok book') row finished (same, (s, state, processed)) =
    rw (finished, same, row, state, processed, ==_self t.id) refl
settles others now t source book (err e) row finished h = tt

-- A task that is reported again changes nothing, neither the counter nor the outbox, whatever was
-- committed to the outbox meanwhile.
pub outcome_counted_once :
    (others others' : Sessions) (now now' : ℕ) (t : CollectionTask) (book : HealthBook)
    → IsSettled others' now' t (record_source_task_outcome others now t book)
unfolding record_source_task_outcome
outcome_counted_once others others' now now' t book = elim (Bool-cases (is_finished t.status)) [
  | inr going ↦ rw going (rw (going, record_source_task_outcome) refl)
  | inl finished ↦ elim (Option-cases (by_id source_key t.source_id book.sources)) [
    | inl e ↦ rw (finished, e) tt
    | inr (source, e) ↦
        rw (finished, e)
          (settles others' now' t source book
            (count_task others now source t (by_id state_key t.source_id book.states) book) e
            finished (count-HasCounted others now source t book))
  ]
]
