-- ===== src/Notifications/Delivery.antt =====
-- A notification delivery with its attempts, and what one claim, one result and one manual retry
-- do to it (models.py, adapters/base.py and service.py in backend/app/modules/notifications).
-- A time is a number of microseconds. The rows of `notification_attempts` that belong to a
-- delivery are its list `attempts`, the newest first.
pub mod Attempts
pub mod Lifecycle
use policy_project_managemen.Prelude.{
  ℕ, ◌+◌, ◌*◌, String, Bool, true, false, not, ◌&&◌, ◌||◌, Option, none, some, List, [], ◌∷◌,
  Result, ok, err, arith, ltb, leb, ◌==◌, if◌then◌else◌, is_none, is_some, find, update,
}
use policy_project_managemen.Audit.{Value}

pub data DeliveryStatus : Type 0 where
  pending sending retry_wait succeeded failed : DeliveryStatus

pub data TriggerType : Type 0 where
  initial automatic_retry manual_retry : TriggerType

pub data DeliveryOutcome : Type 0 where
  succeeded retryable_failure permanent_failure uncertain : DeliveryOutcome

abbrev pub delivery_status_eq : DeliveryStatus → DeliveryStatus → Bool
delivery_status_eq pending pending = true
delivery_status_eq sending sending = true
delivery_status_eq retry_wait retry_wait = true
delivery_status_eq DeliveryStatus.succeeded DeliveryStatus.succeeded = true
delivery_status_eq failed failed = true
delivery_status_eq _ _ = false

abbrev pub is_succeeded : DeliveryOutcome → Bool
is_succeeded DeliveryOutcome.succeeded = true
is_succeeded _ = false

-- `NotificationEvent` of events.py
pub record NotificationEvent : Type 0 where
  pub event_key : String
  pub event_type : String
  pub display_type : String
  pub object_type : String
  pub object_id : ℕ
  pub object_name : String
  pub detail_path : String
  pub message_snapshot : List (String × Value)

pub record DeliveryResult : Type 0 where
  pub outcome : DeliveryOutcome
  pub error_code : Option String
  pub failure_summary : Option String
  pub http_status : Option ℕ
  pub provider_error_code : Option String

pub record NotificationAttempt : Type 0 where
  pub attempt_number : ℕ
  pub trigger_type : TriggerType
  pub started_at : ℕ
  pub finished_at : Option ℕ
  pub result : Option DeliveryOutcome
  pub http_status : Option ℕ
  pub provider_error_code : Option String
  pub failure_summary : Option String

pub record NotificationDelivery : Type 0 where
  pub id : ℕ
  pub event_key : String
  pub event_type : String
  pub display_type : String
  pub object_type : String
  pub object_id : ℕ
  pub object_name_snapshot : String
  pub detail_path : String
  pub message_snapshot : List (String × Value)
  pub triggered_at : ℕ
  pub created_at : ℕ
  pub status : DeliveryStatus
  pub attempt_count : ℕ
  pub send_round : ℕ
  pub round_attempt_count : ℕ
  pub next_attempt_at : Option ℕ
  pub sent_at : Option ℕ
  pub last_error_code : Option String
  pub last_failure_summary : Option String
  pub claim_token : Option String
  pub claimed_at : Option ℕ
  pub version : ℕ
  pub attempts : List NotificationAttempt

abbrev pub seconds : ℕ → ℕ
seconds n = n * 1000000

-- `RETRY_DELAYS_SECONDS[n]`; the tuple has four entries.
unfoldable pub retry_delay_seconds : ℕ → Option ℕ
retry_delay_seconds n =
    if n == 0
    then some 0
    else if n == 1
    then some 60
    else if n == 2
    then some 300
    else if n == 3
    then some 1800
    else none

-- `CLAIM_TIMEOUT`, five minutes
abbrev pub claim_timeout : ℕ
claim_timeout = 300000000

-- `trigger_type` of the attempt that a claim adds
unfoldable pub trigger_for : NotificationDelivery → TriggerType
trigger_for d =
    if ltb 1 d.send_round && d.round_attempt_count == 0
    then manual_retry
    else if d.round_attempt_count == 0
    then initial
    else automatic_retry

-- What `claim_next` does to the delivery that it chose.
unfoldable pub claim : ℕ → String → NotificationDelivery → NotificationDelivery
unfolding trigger_for
claim now token d = record d {
  attempt_count = d.attempt_count + 1;
  round_attempt_count = d.round_attempt_count + 1;
  status = sending;
  claim_token = some token;
  claimed_at = some now;
  next_attempt_at = none;
  version = d.version + 1;
  attempts =
      record {
        attempt_number = d.attempt_count + 1;
        trigger_type = trigger_for d;
        started_at = now;
        finished_at = none;
        result = none;
        http_status = none;
        provider_error_code = none;
        failure_summary = none;
      }
      ∷ d.attempts;
}

abbrev pub has_number : ℕ → NotificationAttempt → Bool
has_number n a = a.attempt_number == n

-- Whether `_current_attempt` returns; it raises RuntimeError otherwise.
unfoldable pub has_current_attempt : NotificationDelivery → Bool
has_current_attempt d = elim (find (has_number d.attempt_count) d.attempts) [
  | none ↦ false
  | some a ↦ is_none a.result
]

-- The writes to the attempt with the number `n`; a success leaves `failure_summary` alone.
abbrev pub finish : ℕ → DeliveryResult → NotificationAttempt → NotificationAttempt
finish now r a = record a {
  finished_at = some now;
  result = some r.outcome;
  http_status = r.http_status;
  provider_error_code = r.provider_error_code;
  failure_summary = if is_succeeded r.outcome then a.failure_summary else r.failure_summary;
}

unfoldable pub finish_attempt :
    ℕ → DeliveryResult → ℕ → List NotificationAttempt → List NotificationAttempt
finish_attempt now r n = update (has_number n) (finish now r)

-- What `complete_claimed` does to a delivery whose claim matches.
unfoldable pub succeed : ℕ → DeliveryResult → NotificationDelivery → NotificationDelivery
succeed now r d = record d {
  attempts = finish_attempt now r d.attempt_count d.attempts;
  status = DeliveryStatus.succeeded;
  sent_at = if is_none d.sent_at then some now else d.sent_at;
  next_attempt_at = none;
  last_error_code = none;
  last_failure_summary = none;
  claim_token = none;
  claimed_at = none;
  version = d.version + 1;
}

abbrev pub is_retryable : DeliveryOutcome → Bool
is_retryable retryable_failure = true
is_retryable uncertain = true
is_retryable _ = false

-- The delay before the next attempt, if there is to be one.
unfoldable pub next_delay : NotificationDelivery → DeliveryResult → Option ℕ
unfolding retry_delay_seconds
next_delay d r =
    if is_retryable r.outcome && ltb d.round_attempt_count 4
    then retry_delay_seconds d.round_attempt_count
    else none

-- `_apply_failure`
unfoldable pub apply_failure : ℕ → DeliveryResult → NotificationDelivery → NotificationDelivery
unfolding next_delay
apply_failure now r d = record d {
  attempts = finish_attempt now r d.attempt_count d.attempts;
  last_error_code = r.error_code;
  last_failure_summary = r.failure_summary;
  status = elim (next_delay d r) [ none ↦ failed | some delay ↦ retry_wait ];
  next_attempt_at = elim (next_delay d r) [ none ↦ none | some delay ↦ some (now + seconds delay) ];
  claim_token = none;
  claimed_at = none;
  version = d.version + 1;
}

-- What `retry_failed` does to a delivery that it accepts.
unfoldable pub restart : NotificationDelivery → NotificationDelivery
restart d = record d {
  status = pending;
  send_round = d.send_round + 1;
  round_attempt_count = 0;
  next_attempt_at = none;
  claim_token = none;
  claimed_at = none;
  version = d.version + 1;
}
