-- ===== src/Notifications/Worker/Rounds.antt =====
-- A round of the worker always ends, and settles what it claimed.
use policy_project_managemen.Prelude.{
  ℕ, ◌≡◌, ◌≢◌, refl, String, Bool, true, Option, none, some, List, Result, ok, err, arith, by_id,
  by_id-In, In, In-find, In-same_id, All-In, find, find_holds, save, by_id-save_self, ==_self, [],
  ◌∷◌, ap, ◌∙◌, Bool-cases, Option-cases, inl, inr, if◌then◌else◌,
}
use policy_project_managemen.Notifications.Delivery.{
  NotificationDelivery, DeliveryResult, sending, is_succeeded, succeed, apply_failure,
}
use policy_project_managemen.Notifications.Service.{
  NotificationError, Outbox, delivery_id, claim_next, complete_claimed, fail_claimed,
  recover_stale_claims, is_matching_claim, write_result,
}
use policy_project_managemen.Notifications.Service.Validity.{
  Apart, apart_id, IsValid, IsSafe, claim_next-IsValid, complete_claimed-IsSafe,
  fail_claimed-IsSafe, recover_stale_claims-IsSafe,
}
use policy_project_managemen.Notifications.Service.Claims.{claimed_row, matching_parts}
use policy_project_managemen.Notifications.Delivery.Lifecycle.{
  IsConsistent, has_current_attempt-sending,
}
use policy_project_managemen.Prelude.Text.{eq_refl}
use policy_project_managemen.Notifications.Worker.{
  SendEnd, result_of, report, answered, deliver, recovered, run_once,
}

report-IsSafe :
    (n : ℕ) (token : String) (r : DeliveryResult) (now : ℕ) (o : Outbox)
    → IsValid o
    → IsSafe (report n token r now o)
unfolding report
report-IsSafe n token r now o v = elim (Bool-cases (is_succeeded r.outcome)) [
  | inl good ↦ rw good (complete_claimed-IsSafe n token r now o v good)
  | inr bad ↦ rw bad (fail_claimed-IsSafe n token r now o v bad)
]

answered-IsSafe :
    (call : Result NotificationError Bool × Outbox) → IsSafe call → IsSafe (answered call)
unfolding answered
answered-IsSafe (ok b, o) h = h
answered-IsSafe (err e, o) h = h

module _ (send : NotificationDelivery → SendEnd) (others : Outbox → Outbox)
    (keep : (q : Outbox) → IsValid q → IsValid (others q)) where
  deliver-IsSafe :
      (now : ℕ) (token : String) (d : NotificationDelivery) (o : Outbox)
      → d.claim_token ≡ some token
      → IsValid o
      → IsSafe (deliver send others now (some d, o))
  unfolding deliver
  deliver-IsSafe now token d o e v =
      rw (e, deliver)
        (answered-IsSafe (report d.id token (result_of (send d)) now (others o))
          (report-IsSafe d.id token (result_of (send d)) now (others o) (keep o v)))

  claimed-IsSafe :
      (now : ℕ) (token : String) (claimed : Option NotificationDelivery × Outbox)
      → ((d : NotificationDelivery) → claimed.0 ≡ some d → d.claim_token ≡ some token)
      → IsValid claimed.1
      → IsSafe (deliver send others now claimed)
  unfolding deliver
  claimed-IsSafe now token (none, o) h v = (refl, v)
  claimed-IsSafe now token (some d, o) h v = deliver-IsSafe now token d o (h d refl) v

  next-IsSafe :
      (locked : ℕ → Bool) (token : String) (claimed_at completed_at : ℕ) (o : Outbox)
      → IsValid o
      → IsSafe (deliver send others completed_at (claim_next locked claimed_at token o))
  next-IsSafe locked token claimed_at completed_at o v =
      claimed-IsSafe completed_at token (claim_next locked claimed_at token o)
        (λ d e. (claimed_row locked claimed_at token o d v e).2)
        (claim_next-IsValid locked claimed_at token o v)

  recovered-IsSafe :
      (locked : ℕ → Bool) (token : String) (claimed_at completed_at : ℕ)
      (call : Result NotificationError ℕ × Outbox)
      → IsSafe call
      → IsSafe
          (recovered (claim_next locked claimed_at token) (deliver send others completed_at) call)
  unfolding recovered
  recovered-IsSafe locked token claimed_at completed_at (ok n, o) h =
      next-IsSafe locked token claimed_at completed_at o h.1
  recovered-IsSafe locked token claimed_at completed_at (err e, o) h = cc

  -- On a valid table a round returns, whatever the adapter does and whatever valid table other
  -- sessions leave meanwhile, and the table is valid after it.
  pub run_once-IsSafe :
      (locked : ℕ → Bool) (token : String) (claimed_at completed_at : ℕ) (o : Outbox)
      → IsValid o
      → IsSafe (run_once locked token send others claimed_at completed_at o)
  unfolding run_once
  run_once-IsSafe locked token claimed_at completed_at o v =
      recovered-IsSafe locked token claimed_at completed_at
        (recover_stale_claims locked claimed_at o)
        (recover_stale_claims-IsSafe locked claimed_at o v)

find_passing :
    (p : NotificationDelivery → Bool) (d : NotificationDelivery) (rows : List NotificationDelivery)
    → In d rows
    → p d ≡ true
    → find p rows ≢ none
find_passing p d [] m h = absurd m
find_passing p d (x ∷ rows) (inl e) h = ground arith
find_passing p d (x ∷ rows) (inr m) h = ground (arith, find_passing p d rows m h)

-- A row whose claim is under the token is the row that the claim's query finds.
matching_found :
    (token : String) (o : Outbox) (d : NotificationDelivery)
    → IsValid o
    → In d o.deliveries
    → is_matching_claim d.id token d ≡ true
    → find (is_matching_claim d.id token) o.deliveries ≡ some d
matching_found token o d v m h =
    let p : NotificationDelivery → Bool = is_matching_claim d.id token in
    elim (Option-cases (find p o.deliveries)) [
      | inl e ↦ absurd (find_passing p d o.deliveries m h e)
      | inr (x, e) ↦
          e
          ∙ ap some (
              In-same_id delivery_id Apart apart_id x d o.deliveries v.distinct
                (In-find p x o.deliveries e) m
                (matching_parts d.id token x (find_holds p x o.deliveries e)).0)
    ]

-- What a result makes of a claimed delivery.
abbrev pub settled : ℕ → DeliveryResult → NotificationDelivery → NotificationDelivery
settled now r d = if is_succeeded r.outcome then succeed now r d else apply_failure now r d

claimed_matches :
    (token : String) (d : NotificationDelivery)
    → IsConsistent d
    → d.status ≡ sending
    → d.claim_token ≡ some token
    → is_matching_claim d.id token d ≡ true
claimed_matches token d c is_sending held = ground (arith, c.at_status, ==_self d.id, eq_refl token)

report_settles :
    (token : String) (r : DeliveryResult) (now : ℕ) (o : Outbox) (d : NotificationDelivery)
    → IsValid o
    → In d o.deliveries
    → d.status ≡ sending
    → d.claim_token ≡ some token
    → by_id delivery_id d.id (report d.id token r now o).1.deliveries ≡ some (settled now r d)
unfolding report complete_claimed fail_claimed succeed apply_failure
report_settles token r now o d v m is_sending held =
    let c = All-In IsConsistent d o.deliveries v.consistent m in
    let found = matching_found token o d v m (claimed_matches token d c is_sending held) in
    let current = has_current_attempt-sending d c is_sending in
    let row = by_id-In delivery_id Apart apart_id d o.deliveries v.distinct m in
    elim (Bool-cases (is_succeeded r.outcome)) [
      | inl good ↦ rw good (rw (found, write_result) (rw current (written_success now r d o row)))
      | inr bad ↦ rw bad (rw (found, write_result) (rw current (written_failure now r d o row)))
    ]
  where
    written_success :
        (now : ℕ) (r : DeliveryResult) (d : NotificationDelivery) (o : Outbox)
        → by_id delivery_id d.id o.deliveries ≡ some d
        → by_id delivery_id d.id (save delivery_id (succeed now r d) o.deliveries)
          ≡ some (succeed now r d)
    written_success now r d o row = by_id-save_self delivery_id (succeed now r d) d o.deliveries row

    written_failure :
        (now : ℕ) (r : DeliveryResult) (d : NotificationDelivery) (o : Outbox)
        → by_id delivery_id d.id o.deliveries ≡ some d
        → by_id delivery_id d.id (save delivery_id (apply_failure now r d) o.deliveries)
          ≡ some (apply_failure now r d)
    written_failure now r d o row =
        by_id-save_self delivery_id (apply_failure now r d) d o.deliveries row

answered-state : (call : Result NotificationError Bool × Outbox) → (answered call).1 ≡ call.1
unfolding answered
answered-state (ok b, o) = refl
answered-state (err e, o) = refl

-- If the claimed row is still in place when the result comes, the round leaves the delivery as the
-- result asks: delivered, waiting for its next attempt, or failed, and in no case being sent.
deliver_settles :
    (send : NotificationDelivery → SendEnd) (others : Outbox → Outbox) (now : ℕ) (token : String)
    (d : NotificationDelivery) (o : Outbox)
    → d.claim_token ≡ some token
    → d.status ≡ sending
    → IsValid (others o)
    → In d (others o).deliveries
    → by_id delivery_id d.id (deliver send others now (some d, o)).1.deliveries
      ≡ some (settled now (result_of (send d)) d)
unfolding deliver
deliver_settles send others now token d o held is_sending v m = simp held (
    rw (answered-state (report d.id token (result_of (send d)) now (others o)))
      (report_settles token (result_of (send d)) now (others o) d v m is_sending held))
