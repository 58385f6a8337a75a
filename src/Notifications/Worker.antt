-- ===== src/Notifications/Worker.antt =====
-- One round of the notification worker (`run_once` of backend/workers/notifier.py). The factories
-- that `run_once` takes are the argument `send`; `others` is what other sessions commit while the
-- message is on its way.
pub mod Rounds
mod Tests
use policy_project_managemen.Prelude.{
  ℕ, String, Bool, true, false, Option, none, some, Result, ok, err, if◌then◌else◌,
}
use policy_project_managemen.Notifications.Delivery.{
  NotificationDelivery, DeliveryResult, uncertain, permanent_failure, is_succeeded,
}
use policy_project_managemen.Notifications.Service.{
  NotificationError, runtime_error, Outbox, claim_next, complete_claimed, fail_claimed,
  recover_stale_claims,
}

-- How the adapter and the message ended: with a result, with a `WeComConfigurationError` of a code
-- and a summary, or with another exception.
pub data SendEnd : Type 0 where
  returned : DeliveryResult → SendEnd
  configuration_error : String → String → SendEnd
  raised : SendEnd

unfoldable pub result_of : SendEnd → DeliveryResult
result_of (returned r) = r
result_of (configuration_error code summary) = record {
  outcome = permanent_failure;
  error_code = some code;
  failure_summary = some summary;
  http_status = none;
  provider_error_code = none;
}
result_of raised = record {
  outcome = uncertain;
  error_code = some "wecom_delivery_unknown";
  failure_summary = some "发送结果无法确认，将按计划重试。";
  http_status = none;
  provider_error_code = none;
}

-- The second session: the result is reported under the claim's token.
unfoldable pub report :
    ℕ → String → DeliveryResult → ℕ → Outbox → Result NotificationError Bool × Outbox
report n token r now o =
    if is_succeeded r.outcome
    then complete_claimed n token r now o
    else fail_claimed n token r now o

-- `return True` after the report, unless it raises
answered : Result NotificationError Bool × Outbox → Result NotificationError Bool × Outbox
answered (ok _, o) = (ok true, o)
answered (err e, o) = (err e, o)

pub deliver :
    (NotificationDelivery → SendEnd)
    → (Outbox → Outbox)
    → ℕ
    → Option NotificationDelivery × Outbox
    → Result NotificationError Bool × Outbox
unfolding answered report result_of
deliver send others completed_at (none, o) = (ok false, o)
deliver send others completed_at (some d, o) = elim d.claim_token [
  | none ↦ (err runtime_error, o)
  | some token ↦ answered (report d.id token (result_of (send d)) completed_at (others o))
]

recovered :
    (Outbox → Option NotificationDelivery × Outbox)
    → (Option NotificationDelivery × Outbox → Result NotificationError Bool × Outbox)
    → Result NotificationError ℕ × Outbox
    → Result NotificationError Bool × Outbox
recovered next rest (ok _, o) = rest (next o)
recovered next rest (err e, o) = (err e, o)

pub run_once :
    (ℕ → Bool)
    → String
    → (NotificationDelivery → SendEnd)
    → (Outbox → Outbox)
    → ℕ
    → ℕ
    → Outbox
    → Result NotificationError Bool × Outbox
unfolding deliver recovered
run_once locked token send others claimed_at completed_at o =
    recovered (claim_next locked claimed_at token) (deliver send others completed_at)
      (recover_stale_claims locked claimed_at o)
