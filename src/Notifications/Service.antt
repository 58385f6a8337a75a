-- ===== src/Notifications/Service.antt =====
-- `NotificationService` over the table of deliveries (backend/app/modules/notifications/service.py).
-- A method takes the table at its start and gives back its result and the table that it leaves;
-- `now` and `token` are the clock and the uuid that the method reads.
pub mod Validity
pub mod Claimable
pub mod Claims
pub mod History
pub mod Recording
mod Tests
use policy_project_managemen.Prelude.{
  ℕ, ◌+◌, String, Bool, true, false, not, ◌&&◌, ◌||◌, Option, none, some, List, [], ◌∷◌, ◌++◌,
  Result, ok, err, ltb, leb, ◌==◌, if◌then◌else◌, is_none, is_some, find, select, sort_by, length,
  by_id, save,
}
use policy_project_managemen.Prelude.Text.{str_eq}
use policy_project_managemen.Notifications.Delivery.{
  DeliveryStatus, pending, sending, retry_wait, failed, delivery_status_eq, is_succeeded,
  NotificationEvent, NotificationDelivery, DeliveryResult, uncertain, claim_timeout, claim,
  has_current_attempt, succeed, apply_failure, restart,
}

pub data NotificationError : Type 0 where
  notification_not_found notification_version_conflict notification_retry_not_allowed :
      NotificationError
  value_error runtime_error integrity_error : NotificationError

-- The table `notification_deliveries`; the database numbers the rows in order.
pub record Outbox : Type 0 where
  pub deliveries : List NotificationDelivery
  pub next_id : ℕ

abbrev pub delivery_id : NotificationDelivery → ℕ
delivery_id d = d.id

abbrev pub has_key : String → NotificationDelivery → Bool
has_key key d = str_eq d.event_key key

abbrev pub new_delivery : NotificationEvent → ℕ → ℕ → NotificationDelivery
new_delivery event now new_id = record {
  id = new_id;
  event_key = event.event_key;
  event_type = event.event_type;
  display_type = event.display_type;
  object_type = event.object_type;
  object_id = event.object_id;
  object_name_snapshot = event.object_name;
  detail_path = event.detail_path;
  message_snapshot = event.message_snapshot;
  triggered_at = now;
  created_at = now;
  status = pending;
  attempt_count = 0;
  send_round = 1;
  round_attempt_count = 0;
  next_attempt_at = none;
  sent_at = none;
  last_error_code = none;
  last_failure_summary = none;
  claim_token = none;
  claimed_at = none;
  version = 1;
  attempts = [];
}

-- `db.add` and `db.flush` under the unique constraint on `event_key`
insert_delivery : NotificationEvent → ℕ → Outbox → Result NotificationError Outbox
insert_delivery event now o =
    if is_some (find (has_key event.event_key) o.deliveries)
    then err integrity_error
    else ok (record {
      deliveries = o.deliveries ++ new_delivery event now o.next_id ∷ [];
      next_id = o.next_id + 1;
    })

-- What a plain select reads in a transaction after others committed: their rows too, or, by
-- default on MySQL, those of the snapshot that its first query took.
pub data Isolation : Type 0 where
  read_committed repeatable_read : Isolation

abbrev pub reread {ℓ} : {A : Type ℓ} → Isolation → A → A → A
reread read_committed snapshot current = current
reread repeatable_read snapshot current = snapshot

-- The isolation level of the database, and what other sessions commit to the table between the
-- first query of `enqueue` and its flush.
pub record Sessions : Type 0 where
  pub isolation : Isolation
  pub commits : Outbox → Outbox

-- No other session commits.
abbrev pub alone : Sessions
alone = record { isolation = repeatable_read; commits = λ o. o }

-- The end of `enqueue`: the new delivery, or after an IntegrityError the one that the second query
-- sees, or else the error again.
after_insert :
    NotificationEvent
    → ℕ
    → Outbox
    → Outbox
    → Result NotificationError Outbox
    → Result NotificationError NotificationDelivery × Outbox
after_insert event now seen o (ok o') = (ok (new_delivery event now o.next_id), o')
after_insert event now seen o (err e) = elim (find (has_key event.event_key) seen.deliveries) [
  | none ↦ (err e, o)
  | some d ↦ (ok d, o)
]

unfoldable pub enqueue :
    Sessions
    → NotificationEvent
    → ℕ
    → Outbox
    → Result NotificationError NotificationDelivery × Outbox
unfolding insert_delivery after_insert
enqueue others event now o = elim (find (has_key event.event_key) o.deliveries) [
  | some existing ↦ (ok existing, o)
  | none ↦
      after_insert event now (reread others.isolation o (others.commits o)) (others.commits o)
        (insert_delivery event now (others.commits o))
]

-- The table that a caller goes on with, which lets an IntegrityError through.
abbrev pub stored {ℓ} :
    {E : Type ℓ} → E → Result NotificationError NotificationDelivery × Outbox → Result E Outbox
stored e (ok d, o) = ok o
stored e (err x, o) = err e

-- `retry_failed`, with the version before the change beside the delivery
pub retry_failed : ℕ → ℕ → Outbox → Result NotificationError (NotificationDelivery × ℕ) × Outbox
retry_failed notification_id expected_version o =
    elim (by_id delivery_id notification_id o.deliveries) [
      | none ↦ (err notification_not_found, o)
      | some d ↦
          if not (d.version == expected_version)
          then (err notification_version_conflict, o)
          else if not (delivery_status_eq d.status failed) || is_some d.sent_at
          then (err notification_retry_not_allowed, o)
          else (
            ok (restart d, d.version),
            record o { deliveries = save delivery_id (restart d) o.deliveries },
          )
    ]

-- `next_attempt_at <= now`, which a NULL does not pass
abbrev pub due : Option ℕ → ℕ → Bool
due none now = false
due (some time) now = leb time now

-- The query of `claim_next`; the rows of `locked` are skipped.
unfoldable pub is_claimable : (ℕ → Bool) → ℕ → NotificationDelivery → Bool
is_claimable locked now d =
    not (locked d.id)
    && is_none d.sent_at
    && (delivery_status_eq d.status pending
        || delivery_status_eq d.status retry_wait && due d.next_attempt_at now)

-- The lesser of two keys first, then the rest of the order.
abbrev pub then_by : ℕ → ℕ → Bool → Bool
then_by a b rest = if ltb a b then true else if ltb b a then false else rest

-- A nullable column orders with NULL first.
abbrev pub null_first : Option ℕ → ℕ
null_first none = 0
null_first (some t) = t + 1

-- `ORDER BY next_attempt_at, created_at, id`
unfoldable pub precedes : NotificationDelivery → NotificationDelivery → Bool
precedes d e =
    then_by (null_first d.next_attempt_at) (null_first e.next_attempt_at)
      (then_by d.created_at e.created_at (leb d.id e.id))

-- `ORDER BY ... LIMIT 1` over the rows of a query
choose : NotificationDelivery → Option NotificationDelivery → NotificationDelivery
choose d none = d
choose d (some e) = if precedes d e then d else e

unfoldable pub first_of_order :
    (NotificationDelivery → Bool) → List NotificationDelivery → Option NotificationDelivery
unfolding choose precedes
first_of_order p [] = none
first_of_order p (d ∷ rows) =
    let rest = first_of_order p rows in if p d then some (choose d rest) else rest

unfoldable pub claim_next : (ℕ → Bool) → ℕ → String → Outbox → Option NotificationDelivery × Outbox
claim_next locked now token o = elim (first_of_order (is_claimable locked now) o.deliveries) [
  | none ↦ (none, o)
  | some d ↦ (
    some (claim now token d),
    record o { deliveries = save delivery_id (claim now token d) o.deliveries },
  )
]

abbrev pub has_token : Option String → String → Bool
has_token none token = false
has_token (some t) token = str_eq t token

-- The query of `_matching_claim`
abbrev pub is_matching_claim : ℕ → String → NotificationDelivery → Bool
is_matching_claim n token d =
    d.id == n
    && delivery_status_eq d.status sending
    && has_token d.claim_token token
    && is_none d.sent_at

-- A result is written to the delivery whose claim matches; RuntimeError if it has no open attempt.
unfoldable pub write_result :
    (NotificationDelivery → NotificationDelivery)
    → ℕ
    → String
    → Outbox
    → Result NotificationError Bool × Outbox
write_result change n token o = elim (find (is_matching_claim n token) o.deliveries) [
  | none ↦ (ok false, o)
  | some d ↦
      if has_current_attempt d
      then (ok true, record o { deliveries = save delivery_id (change d) o.deliveries })
      else (err runtime_error, o)
]

unfoldable pub complete_claimed :
    ℕ → String → DeliveryResult → ℕ → Outbox → Result NotificationError Bool × Outbox
unfolding write_result
complete_claimed n token r now o =
    if not (is_succeeded r.outcome)
    then (err value_error, o)
    else write_result (succeed now r) n token o

unfoldable pub fail_claimed :
    ℕ → String → DeliveryResult → ℕ → Outbox → Result NotificationError Bool × Outbox
unfolding write_result
fail_claimed n token r now o =
    if is_succeeded r.outcome
    then (err value_error, o)
    else write_result (apply_failure now r) n token o

-- The query of `recover_stale_claims`: `claimed_at <= now - CLAIM_TIMEOUT`
unfoldable pub is_stale : (ℕ → Bool) → ℕ → NotificationDelivery → Bool
is_stale locked now d =
    not (locked d.id)
    && delivery_status_eq d.status sending
    && (elim d.claimed_at [ none ↦ false | some t ↦ leb (t + claim_timeout) now ])

abbrev pub stale_result : DeliveryResult
stale_result = record {
  outcome = uncertain;
  error_code = some "wecom_result_uncertain";
  failure_summary = some "上次发送结果无法确认，将按计划重试。";
  http_status = none;
  provider_error_code = none;
}

-- The loop of `recover_stale_claims`, over the stale rows in turn; a RuntimeError undoes it all.
recover_each :
    ℕ
    → List NotificationDelivery
    → List NotificationDelivery
    → Result NotificationError (List NotificationDelivery)
recover_each now [] table = ok table
recover_each now (d ∷ stale) table =
    let rest = recover_each now stale (save delivery_id (apply_failure now stale_result d) table) in
    if has_current_attempt d then rest else err runtime_error

-- `ORDER BY claimed_at, id`
abbrev pub claimed_before : NotificationDelivery → NotificationDelivery → Bool
claimed_before d e = then_by (null_first d.claimed_at) (null_first e.claimed_at) (leb d.id e.id)

recovered_table :
    ℕ
    → Outbox
    → Result NotificationError (List NotificationDelivery)
    → Result NotificationError ℕ × Outbox
recovered_table count o (ok table) = (ok count, record o { deliveries = table })
recovered_table count o (err e) = (err e, o)

pub recover_stale_claims : (ℕ → Bool) → ℕ → Outbox → Result NotificationError ℕ × Outbox
unfolding recover_each recovered_table
recover_stale_claims locked now o =
    let stale = sort_by claimed_before (select (is_stale locked now) o.deliveries) in
    recovered_table (length stale) o (recover_each now stale o.deliveries)
