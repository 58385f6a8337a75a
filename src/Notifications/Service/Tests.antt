-- ===== src/Notifications/Service/Tests.antt =====
-- The service at work on one event, and its theorems at inputs that meet their hypotheses.
use policy_project_managemen.Prelude.{
  Result, err, Option, ℕ, ◌≡◌, ◌≢◌, ◌↔◌, refl, String, Bool, false, none, some, List, [], ◌∷◌, ok,
  arith, All, In, inl, map,
}
use policy_project_managemen.Notifications.Service.Claimable.{CanBeClaimed}
use policy_project_managemen.Audit.{text}
use policy_project_managemen.Prelude.Text.{eq_iff}
use policy_project_managemen.Notifications.Delivery.{
  NotificationEvent, NotificationDelivery, DeliveryResult, DeliveryOutcome, retryable_failure,
  claim, succeed, apply_failure, has_current_attempt, finish_attempt, next_delay,
}
use policy_project_managemen.Notifications.Service.{
  Isolation, read_committed, repeatable_read, Sessions, NotificationError, integrity_error, Outbox,
  enqueue, claim_next, complete_claimed, fail_claimed, is_claimable, new_delivery, first_of_order,
}
use policy_project_managemen.Notifications.Service.Validity.{IsValid}
use policy_project_managemen.Notifications.Service.Claims.{
  claim_next-none_iff, claim_exclusive, late_report_ignored,
}
use policy_project_managemen.Notifications.Service.History.{
  Call, record_event, retry, take, complete, fail, run, perform, empty_outbox, run-IsValid,
  empty_outbox-IsValid, IsBounded, run-IsBounded, delivered_once,
}
use policy_project_managemen.Notifications.Service.Recording.{Recorded, enqueue-Recorded}

abbrev event_named : String → NotificationEvent
event_named key = record {
  event_key = key;
  event_type = "project_created";
  display_type = "政策转项目";
  object_type = "project";
  object_id = 1;
  object_name = "Pilot";
  detail_path = "/projects/1";
  message_snapshot = ("liaison_display_name", text "Li") ∷ [];
}

abbrev unlocked : ℕ → Bool
unlocked n = false

abbrev result : DeliveryOutcome → DeliveryResult
result o = record {
  outcome = o;
  error_code = none;
  failure_summary = none;
  http_status = some 200;
  provider_error_code = none;
}

-- Two events, the second one twice.
abbrev recording : List (Call × ℕ)
recording =
    (record_event (event_named "project:1:created"), 10)
    ∷ (record_event (event_named "project:2:created"), 20)
    ∷ (record_event (event_named "project:2:created"), 30)
    ∷ []

abbrev two_events : Outbox
two_events = run recording empty_outbox

abbrev first_delivery : NotificationDelivery
first_delivery = new_delivery (event_named "project:1:created") 10 1

abbrev second_delivery : NotificationDelivery
second_delivery = new_delivery (event_named "project:2:created") 20 2

two_events_rows :
    two_events ≡ record { deliveries = first_delivery ∷ second_delivery ∷ []; next_id = 3 }
unfolding run perform enqueue
two_events_rows = refl

abbrev claimed_once : List (Call × ℕ)
claimed_once =
    (record_event (event_named "project:1:created"), 10) ∷ (take unlocked "token-a", 40) ∷ []

-- The attempts of a delivery that fails once and is delivered on its second attempt, with the
-- report of the first token ignored.
retried_once :
    map
      (λ d. d.attempt_count)
      (run
        ((record_event (event_named "project:1:created"), 10)
          ∷ (take unlocked "token-a", 40)
          ∷ (fail 1 "token-a" (result retryable_failure), 50)
          ∷ (take unlocked "token-b", 60)
          ∷ (take unlocked "token-c", 60000050)
          ∷ (complete 1 "token-a" (result DeliveryOutcome.succeeded), 60000060)
          ∷ (complete 1 "token-c" (result DeliveryOutcome.succeeded), 60000070)
          ∷ [])
        empty_outbox).deliveries
    ≡ 2 ∷ []
unfolding run perform enqueue claim_next fail_claimed complete_claimed claim succeed apply_failure
    has_current_attempt finish_attempt first_of_order is_claimable next_delay
retried_once = refl

run-IsValid_example : IsValid two_events
run-IsValid_example = run-IsValid recording empty_outbox empty_outbox-IsValid

run-IsBounded_example : All IsBounded two_events.deliveries
run-IsBounded_example = run-IsBounded recording

-- Another session records the same key in between.
abbrev racing : Isolation → Sessions
racing isolation = record {
  isolation = isolation;
  commits = run ((record_event (event_named "project:3:created"), 39) ∷ []);
}

abbrev returned : Result NotificationError NotificationDelivery → Option ℕ
returned (ok d) = some d.id
returned (err e) = none

-- Then the other session's delivery is returned, or the call raises.
raced_ids :
    (returned (enqueue (racing read_committed) (event_named "project:3:created") 40 two_events).0
      ≡ some 3)
    × ((enqueue (racing repeatable_read) (event_named "project:3:created") 40 two_events).0
        ≡ err integrity_error)
unfolding run perform enqueue
raced_ids = (refl, refl)

enqueue-Recorded_example :
    Recorded
      (racing repeatable_read)
      "project:3:created"
      two_events
      (enqueue (racing repeatable_read) (event_named "project:3:created") 40 two_events)
enqueue-Recorded_example =
    enqueue-Recorded (racing repeatable_read) (event_named "project:3:created") 40 two_events

claim_next-none_iff_example :
    ((claim_next unlocked 40 "token-a" two_events).0 ≡ none)
    ↔ All (λ d. ¬ CanBeClaimed unlocked 40 d) two_events.deliveries
claim_next-none_iff_example = claim_next-none_iff unlocked 40 "token-a" two_events

claim_exclusive_example :
    (claim 50 "token-b" second_delivery).id ≢ (claim 40 "token-a" first_delivery).id
unfolding run perform enqueue claim_next first_of_order is_claimable claim
claim_exclusive_example =
    claim_exclusive unlocked unlocked 40 50 "token-a" "token-b" two_events
      (claim 40 "token-a" first_delivery) (claim 50 "token-b" second_delivery) run-IsValid_sample
      refl refl
  where
    run-IsValid_sample : IsValid two_events
    run-IsValid_sample = run-IsValid recording empty_outbox empty_outbox-IsValid

abbrev claimed : NotificationDelivery
claimed = claim 40 "token-a" first_delivery

late_report_ignored_example :
    complete_claimed 1 "token-z"
      (result DeliveryOutcome.succeeded)
      60
      (run claimed_once empty_outbox)
    ≡ (ok false, run claimed_once empty_outbox)
unfolding run perform enqueue claim_next first_of_order is_claimable claim
late_report_ignored_example =
    late_report_ignored "token-z" 60 (result DeliveryOutcome.succeeded)
      (run claimed_once empty_outbox) claimed
      (run-IsValid claimed_once empty_outbox empty_outbox-IsValid) (inl refl)
      (λ e. ground (arith, eq_iff "token-a" "token-z"))

abbrev delivered : List (Call × ℕ)
delivered =
    (record_event (event_named "project:1:created"), 10)
    ∷ (take unlocked "token-a", 40)
    ∷ (complete 1 "token-a" (result DeliveryOutcome.succeeded), 60)
    ∷ []

delivered_once_example :
    In
      (succeed 60 (result DeliveryOutcome.succeeded) claimed)
      (run
        ((retry 1 3, 70) ∷ (take unlocked "token-b", 80) ∷ [])
        (run delivered empty_outbox)).deliveries
unfolding run perform enqueue claim_next first_of_order is_claimable claim complete_claimed succeed
    has_current_attempt finish_attempt
delivered_once_example =
    delivered_once ((retry 1 3, 70) ∷ (take unlocked "token-b", 80) ∷ [])
      (run delivered empty_outbox) (succeed 60 (result DeliveryOutcome.succeeded) claimed)
      (run-IsValid delivered empty_outbox empty_outbox-IsValid) (inl refl) refl
