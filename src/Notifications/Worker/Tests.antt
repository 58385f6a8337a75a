-- ===== src/Notifications/Worker/Tests.antt =====
-- The theorems on the worker's rounds at inputs that meet their hypotheses.
use policy_project_managemen.Prelude.{ℕ, Bool, false, List, [], ◌∷◌}
use policy_project_managemen.Audit.{text}
use policy_project_managemen.Notifications.Delivery.{NotificationEvent, NotificationDelivery, claim}
use policy_project_managemen.Notifications.Service.{new_delivery}
use policy_project_managemen.Notifications.Service.Validity.{IsSafe}
use policy_project_managemen.Notifications.Service.History.{
  Call, record_event, take, run, empty_outbox, run-IsValid, empty_outbox-IsValid,
}
use policy_project_managemen.Notifications.Worker.{raised, run_once}
use policy_project_managemen.Notifications.Worker.Rounds.{run_once-IsSafe}

abbrev event : NotificationEvent
event = record {
  event_key = "project:1:created";
  event_type = "project_created";
  display_type = "政策转项目";
  object_type = "project";
  object_id = 1;
  object_name = "Pilot";
  detail_path = "/projects/1";
  message_snapshot = ("liaison_display_name", text "Li") ∷ [];
}

abbrev unlocked : ℕ → Bool
unlocked n = false

abbrev one_event : List (Call × ℕ)
one_event = (record_event event, 10) ∷ []

abbrev one_claim : List (Call × ℕ)
one_claim = (record_event event, 10) ∷ (take unlocked "token-a", 40) ∷ []

run_once-IsSafe_example :
    IsSafe (run_once unlocked "token-a" (λ d. raised) (λ q. q) 40 50 (run one_event empty_outbox))
run_once-IsSafe_example =
    run_once-IsSafe (λ d. raised) (λ q. q) (λ q v. v) unlocked "token-a" 40 50
      (run one_event empty_outbox) (run-IsValid one_event empty_outbox empty_outbox-IsValid)

abbrev claimed : NotificationDelivery
claimed = claim 40 "token-a" (new_delivery event 10 1)
