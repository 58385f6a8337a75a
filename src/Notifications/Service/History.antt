-- ===== src/Notifications/Service/History.antt =====
-- Histories: what holds of the table after any sequence of calls, whoever makes them.
use policy_project_managemen.Prelude.{
  ℕ, ◌*◌, ◌≤◌, ◌≡◌, ◌≢◌, refl, sym, ◌∙◌, ap, String, Bool, true, List, [], ◌∷◌, arith, All, All-map,
  All-select, All-sort_by, In, In-find, In-append, In-same_id, In-save_ne, find, by_id, save,
  select, sort_by, length, Option-cases, Bool-cases, inl, inr, find_holds, ◌==◌, All-In_self,
}
use policy_project_managemen.Notifications.Delivery.{
  DeliveryStatus, NotificationEvent, NotificationDelivery, DeliveryResult, is_succeeded, claim,
  succeed, apply_failure, restart, has_current_attempt,
}
use policy_project_managemen.Notifications.Delivery.Attempts.{successes, length-IsNumbered}
use policy_project_managemen.Notifications.Delivery.Lifecycle.{IsConsistent}
use policy_project_managemen.Notifications.Service.{
  alone, Outbox, delivery_id, has_key, insert_delivery, enqueue, retry_failed, is_claimable,
  first_of_order, claim_next, is_matching_claim, write_result, complete_claimed, fail_claimed,
  is_stale, stale_result, recover_each, recovered_table, recover_stale_claims, claimed_before,
}
use policy_project_managemen.Notifications.Service.Validity.{
  Apart, IsValid, apart_id, first_of_order-In, claimable_status, matching_status, stale_status,
  enqueue-IsValid, retry_failed-IsValid, claim_next-IsValid, complete_claimed-IsSafe,
  fail_claimed-IsSafe, recover_stale_claims-IsSafe,
}

-- One call of the service, by a request handler or a worker, at a time of its own.
pub data Call : Type 0 where
  record_event : NotificationEvent → Call
  retry : ℕ → ℕ → Call
  take : (ℕ → Bool) → String → Call
  complete : ℕ → String → DeliveryResult → Call
  fail : ℕ → String → DeliveryResult → Call
  recover : (ℕ → Bool) → Call

unfoldable pub perform : Call → ℕ → Outbox → Outbox
perform (record_event event) now o = (enqueue alone event now o).1
perform (retry n expected) now o = (retry_failed n expected o).1
perform (take locked token) now o = (claim_next locked now token o).1
perform (complete n token r) now o = (complete_claimed n token r now o).1
perform (fail n token r) now o = (fail_claimed n token r now o).1
perform (recover locked) now o = (recover_stale_claims locked now o).1

-- The calls in turn, each with its time.
unfoldable pub run : List (Call × ℕ) → Outbox → Outbox
run [] o = o
run ((call, now) ∷ calls) o = run calls (perform call now o)

abbrev pub empty_outbox : Outbox
empty_outbox = record { deliveries = []; next_id = 1 }

complete_claimed-IsValid :
    (n : ℕ) (token : String) (r : DeliveryResult) (now : ℕ) (o : Outbox)
    → IsValid o
    → IsValid (complete_claimed n token r now o).1
unfolding complete_claimed
complete_claimed-IsValid n token r now o v = elim (Bool-cases (is_succeeded r.outcome)) [
  | inl good ↦ (complete_claimed-IsSafe n token r now o v good).1
  | inr bad ↦ rw (bad, complete_claimed) v
]

fail_claimed-IsValid :
    (n : ℕ) (token : String) (r : DeliveryResult) (now : ℕ) (o : Outbox)
    → IsValid o
    → IsValid (fail_claimed n token r now o).1
unfolding fail_claimed
fail_claimed-IsValid n token r now o v = elim (Bool-cases (is_succeeded r.outcome)) [
  | inl good ↦ rw (good, fail_claimed) v
  | inr bad ↦ (fail_claimed-IsSafe n token r now o v bad).1
]

perform-IsValid : (call : Call) (now : ℕ) (o : Outbox) → IsValid o → IsValid (perform call now o)
unfolding perform
perform-IsValid (record_event event) now o v = enqueue-IsValid alone event now o v (λ q w. w)
perform-IsValid (retry n expected) now o v = retry_failed-IsValid n expected o v
perform-IsValid (take locked token) now o v = claim_next-IsValid locked now token o v
perform-IsValid (complete n token r) now o v = complete_claimed-IsValid n token r now o v
perform-IsValid (fail n token r) now o v = fail_claimed-IsValid n token r now o v
perform-IsValid (recover locked) now o v = (recover_stale_claims-IsSafe locked now o v).1

-- Any sequence of calls leaves a valid table valid.
pub run-IsValid : (calls : List (Call × ℕ)) (o : Outbox) → IsValid o → IsValid (run calls o)
unfolding run
run-IsValid [] o v = v
run-IsValid ((call, now) ∷ calls) o v =
    run-IsValid calls (perform call now o) (perform-IsValid call now o v)

pub empty_outbox-IsValid : IsValid empty_outbox
empty_outbox-IsValid = record { consistent = tt; distinct = tt; numbered = tt }

-- What a reader of the table can rely on for each delivery.
abbrev pub IsBounded : NotificationDelivery → Type 0
IsBounded d =
    (d.attempt_count ≤ 4 * d.send_round)
    × (length d.attempts ≡ d.attempt_count)
    × (successes d.attempts ≤ 1)

successes_at : (d : NotificationDelivery) (c : IsConsistent d) → successes d.attempts ≤ 1
successes_at d c = ground (arith, c.at_status)

IsConsistent-IsBounded : (d : NotificationDelivery) → IsConsistent d → IsBounded d
IsConsistent-IsBounded d c =
    ground (arith, c.at_status, length-IsNumbered d.attempt_count d.attempts c.numbered)

-- After any calls from the empty table, every delivery has at most four attempts for each of its
-- rounds, its attempts are as many as it counts, and at most one of them succeeded.
pub run-IsBounded : (calls : List (Call × ℕ)) → All IsBounded (run calls empty_outbox).deliveries
run-IsBounded calls =
    All-map IsConsistent IsBounded (run calls empty_outbox).deliveries IsConsistent-IsBounded
      (run-IsValid calls empty_outbox empty_outbox-IsValid).consistent

-- A delivered row `d` of a valid table outlives the write of any row that is not delivered.
module _ (o : Outbox) (v : IsValid o) (d : NotificationDelivery) (m : In d o.deliveries)
    (sent : d.status ≡ DeliveryStatus.succeeded) where
  other_row :
      (x : NotificationDelivery)
      → In x o.deliveries
      → x.status ≢ DeliveryStatus.succeeded
      → d.id ≢ x.id
  other_row x mx h e = h (
      ap (λ y. y.status)
        (sym (In-same_id delivery_id Apart apart_id d x o.deliveries v.distinct m mx e))
      ∙ sent)

  outlives :
      (x x' : NotificationDelivery)
      → In x o.deliveries
      → x.status ≢ DeliveryStatus.succeeded
      → x'.id ≡ x.id
      → In d (save delivery_id x' o.deliveries)
  outlives x x' mx h e = In-save_ne delivery_id x' d o.deliveries (λ p. other_row x mx h (p ∙ e)) m

  enqueue-keeps :
      (event : NotificationEvent) (now : ℕ) → In d (enqueue alone event now o).1.deliveries
  unfolding enqueue
  enqueue-keeps event now = elim (Option-cases (find (has_key event.event_key) o.deliveries)) [
    | inr (x, e) ↦ rw (e, enqueue) m
    | inl e ↦ rw (e, enqueue) (rw (e, insert_delivery) (In-append d o.deliveries _ m))
  ]

  retry_failed-keeps : (n expected : ℕ) → In d (retry_failed n expected o).1.deliveries
  unfolding retry_failed restart
  retry_failed-keeps n expected = elim (Option-cases (by_id delivery_id n o.deliveries)) [
    | inl e ↦ rw (e, retry_failed) m
    | inr (x, e) ↦
        rw (e, retry_failed)
          (ground (arith, m, outlives x (restart x) (In-find (λ y. y.id == n) x o.deliveries e)))
  ]

  claim_next-keeps :
      (locked : ℕ → Bool) (now : ℕ) (token : String)
      → In d (claim_next locked now token o).1.deliveries
  unfolding claim_next claim
  claim_next-keeps locked now token =
      elim (Option-cases (first_of_order (is_claimable locked now) o.deliveries)) [
        | inl e ↦ rw (e, claim_next) m
        | inr (x, e) ↦
            let (mx, can) = first_of_order-In (is_claimable locked now) x o.deliveries e in
            rw (e, claim_next)
              (outlives x (claim now token x) mx (ground (arith, claimable_status locked now x can))
                refl)
      ]

  write_result-keeps :
      (change : NotificationDelivery → NotificationDelivery) (n : ℕ) (token : String)
      → ((x : NotificationDelivery) → (change x).id ≡ x.id)
      → In d (write_result change n token o).1.deliveries
  unfolding write_result
  write_result-keeps change n token same =
      elim (Option-cases (find (is_matching_claim n token) o.deliveries)) [
        | inl e ↦ rw (e, write_result) m
        | inr (x, e) ↦
            let p : NotificationDelivery → Bool = is_matching_claim n token in
            let kept =
              outlives x (change x) (In-find p x o.deliveries e)
                (λ q. cc (q, matching_status n token x (find_holds p x o.deliveries e))) (same x) in
            rw (e, write_result) (ground (arith, m, kept))
      ]

recover_each-keeps :
    (now : ℕ) (d : NotificationDelivery) (stale table : List NotificationDelivery) (count : ℕ)
    (start : Outbox)
    → In d table
    → In d start.deliveries
    → All (λ e. d.id ≢ e.id) stale
    → In d (recovered_table count start (recover_each now stale table)).1.deliveries
unfolding recover_each recovered_table apply_failure
recover_each-keeps now d [] table count start m ms h = m
recover_each-keeps now d (e ∷ stale) table count start m ms h =
    elim (Bool-cases (has_current_attempt e)) [
      | inl current ↦ rw current (
          recover_each-keeps now d stale (save delivery_id (apply_failure now stale_result e) table)
            count start (In-save_ne delivery_id (apply_failure now stale_result e) d table h.0 m) ms
            h.1)
      | inr missing ↦ rw missing ms
    ]

module _ (o : Outbox) (v : IsValid o) (d : NotificationDelivery) (m : In d o.deliveries)
    (sent : d.status ≡ DeliveryStatus.succeeded) where
  recover-keeps :
      (locked : ℕ → Bool) (now : ℕ) → In d (recover_stale_claims locked now o).1.deliveries
  unfolding recover_stale_claims
  recover-keeps locked now =
      let rows : List NotificationDelivery = select (is_stale locked now) o.deliveries in
      recover_each-keeps now d (sort_by claimed_before rows) o.deliveries
        (length (sort_by claimed_before rows)) o m m
        (All-sort_by (λ e. d.id ≢ e.id) claimed_before rows
          (All-map (λ e. In e o.deliveries × (is_stale locked now e ≡ true)) (λ e. d.id ≢ e.id) rows
            (λ e h. other_row o v d m sent e h.0 (λ q. cc (q, stale_status locked now e h.1)))
            (All-select (λ e. In e o.deliveries) (is_stale locked now) o.deliveries
              (All-In_self o.deliveries))))

  complete-keeps :
      (n : ℕ) (token : String) (r : DeliveryResult) (now : ℕ)
      → In d (complete_claimed n token r now o).1.deliveries
  unfolding complete_claimed succeed
  complete-keeps n token r now =
      ground (arith, m, write_result-keeps o v d m sent (succeed now r) n token (λ x. refl))

  fail-keeps :
      (n : ℕ) (token : String) (r : DeliveryResult) (now : ℕ)
      → In d (fail_claimed n token r now o).1.deliveries
  unfolding fail_claimed apply_failure
  fail-keeps n token r now =
      ground (arith, m, write_result-keeps o v d m sent (apply_failure now r) n token (λ x. refl))

  perform-keeps : (call : Call) (now : ℕ) → In d (perform call now o).deliveries
  unfolding perform
  perform-keeps (record_event event) now = enqueue-keeps o v d m sent event now
  perform-keeps (retry n expected) now = retry_failed-keeps o v d m sent n expected
  perform-keeps (take locked token) now = claim_next-keeps o v d m sent locked now token
  perform-keeps (complete n token r) now = complete-keeps n token r now
  perform-keeps (fail n token r) now = fail-keeps n token r now
  perform-keeps (recover locked) now = recover-keeps locked now

-- A delivery that succeeded stays in the table as it is, whatever is called afterwards: it is
-- never claimed again, retried or reported on.
pub delivered_once :
    (calls : List (Call × ℕ)) (o : Outbox) (d : NotificationDelivery)
    → IsValid o
    → In d o.deliveries
    → d.status ≡ DeliveryStatus.succeeded
    → In d (run calls o).deliveries
unfolding run
delivered_once [] o d v m sent = m
delivered_once ((call, now) ∷ calls) o d v m sent =
    delivered_once calls (perform call now o) d (perform-IsValid call now o v)
      (perform-keeps o v d m sent call now) sent
