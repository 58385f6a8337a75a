-- ===== src/SourceHealth/Third.antt =====
-- The third failure in a row.
use policy_project_managemen.Prelude.{
  subst, String, ℕ, ◌≡◌, refl, sym, true, false, some, Result, ok, err, opt_eq, is_some, by_id,
  find, arith,
}
use policy_project_managemen.Notifications.Delivery.{NotificationEvent}
use policy_project_managemen.Notifications.Service.{Sessions, has_key}
use policy_project_managemen.Notifications.Service.Recording.{stored-Recorded}
use policy_project_managemen.SourceHealth.{
  integrity_error, is_finished, is_success, HealthError, PolicySource, CollectionTask,
  SourceHealthState, HealthBook, source_key, state_key, source_failure_notification_event, counted,
  notified, count_task, record_source_task_outcome, episode_key,
}

-- The call returned, and the outbox holds a delivery for the key.
abbrev pub IsNotified : String → Result HealthError HealthBook → Type 0
IsNotified key (ok book) = is_some (find (has_key key) book.outbox.deliveries) ≡ true
IsNotified key (err e) = ⊥

third-counted :
    (t : CollectionTask) (s : SourceHealthState)
    → is_success t.status ≡ false
    → s.consecutive_failure_count ≡ 2
    → ((counted t s).consecutive_failure_count ≡ 3)
      × ((counted t s).episode_started_task_id ≡ s.episode_started_task_id)
unfolding counted
third-counted t s f two = ground arith

event-started :
    (source : PolicySource) (s : SourceHealthState) (t : CollectionTask) (started : ℕ)
    → s.episode_started_task_id ≡ some started
    → (e : NotificationEvent) × (source_failure_notification_event source s t ≡ some e)
      × (e.event_key ≡ episode_key source.id started)
unfolding source_failure_notification_event episode_key
event-started source s t started h = rw h (_, refl, refl)

-- No other session commits a delivery for the key meanwhile.
abbrev pub IsQuiet : Sessions → String → HealthBook → Type 0
IsQuiet others key book =
    find (has_key key) (others.commits book.outbox).deliveries
    ≡ find (has_key key) book.outbox.deliveries

notified_third :
    (others : Sessions) (now : ℕ) (source : PolicySource) (t : CollectionTask)
    (s : SourceHealthState) (started : ℕ) (book : HealthBook)
    → s.consecutive_failure_count ≡ 3
    → s.episode_started_task_id ≡ some started
    → IsQuiet others (episode_key source.id started) book
    → IsNotified (episode_key source.id started) (notified others now source t s book)
unfolding notified source_failure_notification_event
notified_third others now source t s started book three h quiet =
    let (event, e, key) = event-started source s t started h in
    let (outbox, done, there) =
      stored-Recorded integrity_error others event now book.outbox
        (subst (λ k. IsQuiet others k book) (sym key) quiet) in
    rw (three, e, done) (subst (λ k. is_some (find (has_key k) outbox.deliveries) ≡ true) key there)

-- A finished task that did not succeed, is not counted yet and meets a source with two failures in
-- a row leaves a delivery for the episode in the outbox, under the key of the task that started it,
-- where no other session commits a delivery under that key meanwhile, the source being locked.
pub third_failure-IsNotified :
    (others : Sessions) (now : ℕ) (t : CollectionTask) (book : HealthBook) (source : PolicySource)
    (s : SourceHealthState) (started : ℕ)
    → by_id source_key t.source_id book.sources ≡ some source
    → by_id state_key t.source_id book.states ≡ some s
    → is_finished t.status ≡ true
    → is_success t.status ≡ false
    → opt_eq s.last_processed_task_id t.id ≡ false
    → s.consecutive_failure_count ≡ 2
    → s.episode_started_task_id ≡ some started
    → IsQuiet others (episode_key source.id started) book
    → IsNotified (episode_key source.id started) (record_source_task_outcome others now t book)
unfolding record_source_task_outcome count_task
third_failure-IsNotified others now t book source s started row state finished failure fresh two h
      quiet =
    let (three, episode) = third-counted t s failure two in
    rw (finished, row, state, fresh)
      (notified_third others now source t (counted t s) started _ three (rw episode h) quiet)
