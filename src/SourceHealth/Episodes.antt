-- ===== src/SourceHealth/Episodes.antt =====
-- Failure episodes: a task counts once, and the third failure in a row is notified.
use policy_project_managemen.Prelude.{
  ◌>>=◌, ℕ, ◌≡◌, inl, inr, refl, true, not, Option, none, some, List, [], ◌∷◌, Result, ok, err,
  opt_eq, is_some, by_id, has_id, ◌==◌, arith, All, All-append, All-save, All-find, Bool-cases,
  Option-cases,
}
use policy_project_managemen.Notifications.Delivery.{NotificationDelivery, NotificationEvent}
use policy_project_managemen.Notifications.Service.{
  stored, enqueue, NotificationError, Outbox, Sessions, Outbox,
}
use policy_project_managemen.SourceHealth.{
  integrity_error, is_finished, HealthError, PolicySource, CollectionTask, SourceHealthState,
  HealthBook, source_key, state_key, source_failure_notification_event, state_or_new, put_state,
  counted, notified, count_task, record_source_task_outcome,
}

-- An episode has a starting task exactly while there are failures.
abbrev pub HasEpisode : SourceHealthState → Type 0
HasEpisode s = is_some s.episode_started_task_id ≡ not (s.consecutive_failure_count == 0)

counted-HasEpisode :
    (t : CollectionTask) (s : SourceHealthState) → HasEpisode s → HasEpisode (counted t s)
unfolding counted
counted-HasEpisode t s h = ground arith

pub counted-fields :
    (t : CollectionTask) (s : SourceHealthState)
    → ((counted t s).last_processed_task_id ≡ some t.id) × ((counted t s).source_id ≡ s.source_id)
unfolding counted
counted-fields t s = ground arith

pub event_there :
    (source : PolicySource) (s : SourceHealthState) (t : CollectionTask)
    → is_some s.episode_started_task_id ≡ true
    → (e : NotificationEvent) × (source_failure_notification_event source s t ≡ some e)
unfolding source_failure_notification_event
event_there source s t h = elim (Option-cases s.episode_started_task_id) [
  | inl e ↦ ground arith
  | inr (started, e) ↦ rw e (_, refl)
]

-- Every episode that the method leaves has its starting task. It raises the IntegrityError of the
-- notification at most.
abbrev pub IsCounted : Result HealthError HealthBook → Type 0
IsCounted (ok book) = All HasEpisode book.states
IsCounted (err e) = e ≡ integrity_error

notified-IsCounted :
    (others : Sessions) (now : ℕ) (source : PolicySource) (t : CollectionTask)
    (s : SourceHealthState) (book : HealthBook)
    → HasEpisode s
    → All HasEpisode book.states
    → IsCounted (notified others now source t s book)
unfolding notified
notified-IsCounted others now source t s book h hs =
    elim (Bool-cases (s.consecutive_failure_count == 3)) [
      | inr other ↦ rw other hs
      | inl third ↦
          let (event, e) = event_there source s t (ground arith) in
          rw (third, e) (recorded (enqueue others event now book.outbox))
    ]
  where
    recorded :
        (call : Result NotificationError NotificationDelivery × Outbox)
        → IsCounted (stored integrity_error call >>= λ outbox. ok (record book { outbox = outbox }))
    recorded (ok d, o) = hs
    recorded (err e, o) = refl

put-HasEpisode :
    (old : Option SourceHealthState) (s : SourceHealthState) (rows : List SourceHealthState)
    → HasEpisode s
    → All HasEpisode rows
    → All HasEpisode (put_state old s rows)
put-HasEpisode none s rows h hs = All-append HasEpisode rows (s ∷ []) hs (h, tt)
put-HasEpisode (some o) s rows h hs = All-save state_key HasEpisode s rows h hs

state-HasEpisode :
    (n : ℕ) (rows : List SourceHealthState)
    → All HasEpisode rows
    → HasEpisode (state_or_new n (by_id state_key n rows))
state-HasEpisode n rows h = elim (Option-cases (by_id state_key n rows)) [
  | inl e ↦ rw e refl
  | inr (s, e) ↦ rw e (All-find HasEpisode (has_id state_key n) rows h e).0
]

count-IsCounted :
    (others : Sessions) (now : ℕ) (source : PolicySource) (t : CollectionTask)
    (old : Option SourceHealthState) (book : HealthBook)
    → HasEpisode (state_or_new t.source_id old)
    → All HasEpisode book.states
    → IsCounted (count_task others now source t old book)
unfolding count_task
count-IsCounted others now source t old book h hs =
    let s = state_or_new t.source_id old in
    elim (Bool-cases (opt_eq s.last_processed_task_id t.id)) [
      | inl done ↦ rw done hs
      | inr fresh ↦ rw fresh (
          notified-IsCounted others now source t (counted t s) _ (counted-HasEpisode t s h)
            (put-HasEpisode old (counted t s) book.states (counted-HasEpisode t s h) hs))
    ]

-- Where every episode has its starting task and the source is in the table, the outcome of a task
-- is recorded, and every episode still has its starting task, or the call raises the IntegrityError
-- of the notification.
record_outcome-IsCounted :
    (others : Sessions) (now : ℕ) (t : CollectionTask) (book : HealthBook) (source : PolicySource)
    → by_id source_key t.source_id book.sources ≡ some source
    → All HasEpisode book.states
    → IsCounted (record_source_task_outcome others now t book)
unfolding record_source_task_outcome
record_outcome-IsCounted others now t book source row h = elim (Bool-cases (is_finished t.status)) [
  | inr going ↦ rw going h
  | inl finished ↦
      rw (finished, row)
        (count-IsCounted others now source t (by_id state_key t.source_id book.states) book
          (state-HasEpisode t.source_id book.states h) h)
]
