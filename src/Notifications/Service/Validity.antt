-- ===== src/Notifications/Service/Validity.antt =====
-- The table of deliveries stays valid under every method of the service, and none of them meets
-- an attempt that is not as it should be.
use policy_project_managemen.Prelude.{
  ok, err, ℕ, ◌+◌, ◌<◌, ◌≡◌, ◌≢◌, ◌⊎◌, inl, inr, refl, sym, String, Bool, true, false, none, some,
  List, [], ◌∷◌, ◌++◌, Result, succeeds, arith, All, All-append, All-map, All-and, find-none,
  find_holds, All-save, All-select, All-sort_by, In, In-find, All-In, All-In_self, In-save_ne,
  Distinct, Distinct-save, Distinct-append_one, Distinct-select, Distinct-sort_by, find, select,
  sort_by, by_id, save, Option-cases, ◌==◌, subst, length,
}
use policy_project_managemen.Prelude.Text.{eq_iff}
use policy_project_managemen.Notifications.Delivery.{
  pending, sending, retry_wait, failed, NotificationEvent, NotificationDelivery, DeliveryResult,
  is_succeeded, claim, succeed, apply_failure, restart, has_current_attempt,
}
use policy_project_managemen.Notifications.Delivery.Lifecycle.{
  IsConsistent, claim-IsConsistent, succeed-IsConsistent, apply_failure-IsConsistent,
  restart-IsConsistent, has_current_attempt-sending,
}
use policy_project_managemen.Notifications.Service.{
  Sessions, NotificationError, Outbox, delivery_id, has_key, new_delivery, insert_delivery,
  after_insert, reread, stored, integrity_error, enqueue, retry_failed, is_claimable,
  first_of_order, claim_next, is_matching_claim, complete_claimed, fail_claimed, write_result,
  is_stale, stale_result, recover_each, recovered_table, recover_stale_claims, claimed_before,
}

-- Two rows have different ids and, under the unique constraint, different event keys.
abbrev pub Apart : NotificationDelivery → NotificationDelivery → Type 0
Apart d e = (d.id ≢ e.id) × (d.event_key ≢ e.event_key)

pub record IsValid (o : Outbox) : Type 0 where
  pub consistent : All IsConsistent o.deliveries
  pub distinct : Distinct Apart o.deliveries
  pub numbered : All (λ d. d.id < o.next_id) o.deliveries

pub apart_id : (d e : NotificationDelivery) → Apart d e → d.id ≢ e.id
apart_id d e a = a.0

Apart-symm : (d e : NotificationDelivery) → Apart d e → Apart e d
Apart-symm d e a = (λ p. a.0 (sym p), λ p. a.1 (sym p))

-- Writing back a changed row of the table keeps it valid.
save-IsValid :
    (o : Outbox) (d d' : NotificationDelivery)
    → IsValid o
    → In d o.deliveries
    → d'.id ≡ d.id
    → d'.event_key ≡ d.event_key
    → IsConsistent d'
    → IsValid (record o { deliveries = save delivery_id d' o.deliveries })
save-IsValid o d d' v m ei ek c = record {
  consistent = All-save delivery_id IsConsistent d' o.deliveries c v.consistent;
  distinct =
      Distinct-save delivery_id Apart apart_id d' d ei (λ x a. ground arith) (λ x a. ground arith)
        o.deliveries m v.distinct;
  numbered =
      All-save delivery_id (λ x. x.id < o.next_id) d' o.deliveries
        (rw ei (All-In (λ x. x.id < o.next_id) d o.deliveries v.numbered m)) v.numbered;
}

pub claimable_status :
    (locked : ℕ → Bool) (now : ℕ) (d : NotificationDelivery)
    → is_claimable locked now d ≡ true
    → (d.status ≡ pending) ⊎ (d.status ≡ retry_wait)
unfolding is_claimable
claimable_status locked now d h = ground arith

pub first_of_order-In :
    (p : NotificationDelivery → Bool) (d : NotificationDelivery) (rows : List NotificationDelivery)
    → first_of_order p rows ≡ some d
    → In d rows × (p d ≡ true)
unfolding first_of_order
first_of_order-In p d [] h = cc
first_of_order-In p d (x ∷ rows) h = ground (arith, first_of_order-In p d rows)

fresh-Apart :
    (event : NotificationEvent) (now : ℕ) (o : Outbox)
    → IsValid o
    → find (has_key event.event_key) o.deliveries ≡ none
    → All (λ d. Apart d (new_delivery event now o.next_id)) o.deliveries
fresh-Apart event now o v missing =
    All-map (λ d. (d.id < o.next_id) × (has_key event.event_key d ≡ false))
      (λ d. Apart d (new_delivery event now o.next_id)) o.deliveries
      (λ d h. (λ e. omega arith, λ e. ground (arith, eq_iff d.event_key event.event_key)))
      (All-and (λ d. d.id < o.next_id) (λ d. has_key event.event_key d ≡ false) o.deliveries
        v.numbered (find-none (has_key event.event_key) o.deliveries missing))

-- An insertion of a new key keeps the table valid.
insert_delivery-IsValid :
    (event : NotificationEvent) (now : ℕ) (o : Outbox)
    → IsValid o
    → find (has_key event.event_key) o.deliveries ≡ none
    → IsValid (record {
      deliveries = o.deliveries ++ new_delivery event now o.next_id ∷ [];
      next_id = o.next_id + 1;
    })
insert_delivery-IsValid event now o v missing = record {
  consistent =
      All-append IsConsistent o.deliveries (new_delivery event now o.next_id ∷ []) v.consistent
        (ground arith, tt);
  distinct =
      Distinct-append_one Apart o.deliveries (new_delivery event now o.next_id) v.distinct
        (fresh-Apart event now o v missing);
  numbered =
      All-append (λ d. d.id < o.next_id + 1) o.deliveries (new_delivery event now o.next_id ∷ [])
        (All-map (λ d. d.id < o.next_id) (λ d. d.id < o.next_id + 1) o.deliveries
          (λ d h. omega arith) v.numbered)
        (omega arith, tt);
}

-- The row `d` of a valid table, changed in one of the four ways.
module _ (o : Outbox) (v : IsValid o) (d : NotificationDelivery) (m : In d o.deliveries) where
  row-IsConsistent : IsConsistent d
  row-IsConsistent = All-In IsConsistent d o.deliveries v.consistent m

  restart-IsValid :
      d.status ≡ failed
      → IsValid (record o { deliveries = save delivery_id (restart d) o.deliveries })
  unfolding restart
  restart-IsValid e =
      save-IsValid o d (restart d) v m refl refl (restart-IsConsistent d row-IsConsistent e)

  claim-IsValid :
      (now : ℕ) (token : String)
      → (d.status ≡ pending) ⊎ (d.status ≡ retry_wait)
      → IsValid (record o { deliveries = save delivery_id (claim now token d) o.deliveries })
  unfolding claim
  claim-IsValid now token e =
      save-IsValid o d (claim now token d) v m refl refl
        (claim-IsConsistent d row-IsConsistent now token e)

  succeed-IsValid :
      (now : ℕ) (r : DeliveryResult)
      → d.status ≡ sending
      → is_succeeded r.outcome ≡ true
      → IsValid (record o { deliveries = save delivery_id (succeed now r d) o.deliveries })
  unfolding succeed
  succeed-IsValid now r e good =
      save-IsValid o d (succeed now r d) v m refl refl
        (succeed-IsConsistent d row-IsConsistent now r e good)

  apply_failure-IsValid :
      (now : ℕ) (r : DeliveryResult)
      → d.status ≡ sending
      → is_succeeded r.outcome ≡ false
      → IsValid (record o { deliveries = save delivery_id (apply_failure now r d) o.deliveries })
  unfolding apply_failure
  apply_failure-IsValid now r e bad =
      save-IsValid o d (apply_failure now r d) v m refl refl
        (apply_failure-IsConsistent d row-IsConsistent now r e bad)

  has_current_attempt_row : d.status ≡ sending → has_current_attempt d ≡ true
  has_current_attempt_row e = has_current_attempt-sending d row-IsConsistent e

-- Recording an event keeps the table valid, whatever valid table other sessions leave before the
-- insertion.
pub enqueue-IsValid :
    (others : Sessions) (event : NotificationEvent) (now : ℕ) (o : Outbox)
    → IsValid o
    → ((q : Outbox) → IsValid q → IsValid (others.commits q))
    → IsValid (enqueue others event now o).1
unfolding enqueue
enqueue-IsValid others event now o v keep =
    elim (Option-cases (find (has_key event.event_key) o.deliveries)) [
      | inr (d, e) ↦ rw (e, enqueue) v
      | inl e ↦ elim (Option-cases (find (has_key event.event_key) (others.commits o).deliveries)) [
        | inr (d, f) ↦
            rw (e, enqueue)
              (rw (f, insert_delivery)
                (refused (reread others.isolation o (others.commits o)) (others.commits o)
                  (keep o v)))
        | inl f ↦
            rw (e, enqueue)
              (rw (f, insert_delivery)
                (insert_delivery-IsValid event now (others.commits o) (keep o v) f))
      ]
    ]
  where
    refused :
        (seen q : Outbox)
        → IsValid q
        → IsValid (after_insert event now seen q (err integrity_error)).1
    refused seen q w = elim (Option-cases (find (has_key event.event_key) seen.deliveries)) [
      | inl e ↦ rw (e, after_insert) w
      | inr (d, e) ↦ rw (e, after_insert) w
    ]

-- Where a caller goes on, it does with the table that the call left.
pub stored-left {ℓ} :
    {E : Type ℓ} (e : E) (call : Result NotificationError NotificationDelivery × Outbox)
    (o : Outbox)
    → stored e call ≡ ok o
    → call.1 ≡ o
stored-left e (ok d, q) o h = cc
stored-left e (err x, q) o h = cc

-- A manual retry keeps the table valid.
pub retry_failed-IsValid :
    (n expected : ℕ) (o : Outbox) → IsValid o → IsValid (retry_failed n expected o).1
unfolding retry_failed
retry_failed-IsValid n expected o v = elim (Option-cases (by_id delivery_id n o.deliveries)) [
  | inl e ↦ rw (e, retry_failed) v
  | inr (d, e) ↦
      rw (e, retry_failed)
        (ground (arith, restart-IsValid o v d (In-find (λ x. x.id == n) d o.deliveries e)))
]

-- A claim keeps the table valid.
pub claim_next-IsValid :
    (locked : ℕ → Bool) (now : ℕ) (token : String) (o : Outbox)
    → IsValid o
    → IsValid (claim_next locked now token o).1
unfolding claim_next
claim_next-IsValid locked now token o v =
    elim (Option-cases (first_of_order (is_claimable locked now) o.deliveries)) [
      | inl e ↦ rw (e, claim_next) v
      | inr (d, e) ↦
          rw (e, claim_next)
            (claim-IsValid o v d (first_of_order-In (is_claimable locked now) d o.deliveries e).0
              now token
              (claimable_status locked now d
                (first_of_order-In (is_claimable locked now) d o.deliveries e).1))
    ]

-- A call has returned without raising, and the table that it leaves is valid.
abbrev pub IsSafe : {A : Type 0} → Result NotificationError A × Outbox → Type 0
IsSafe call = (succeeds call.0 ≡ true) × IsValid call.1

pub matching_status :
    (n : ℕ) (token : String) (d : NotificationDelivery)
    → is_matching_claim n token d ≡ true
    → d.status ≡ sending
matching_status n token d h = ground arith

write_result-IsSafe :
    (change : NotificationDelivery → NotificationDelivery) (n : ℕ) (token : String) (o : Outbox)
    → IsValid o
    → ((d : NotificationDelivery)
        → In d o.deliveries
        → d.status ≡ sending
        → IsValid (record o { deliveries = save delivery_id (change d) o.deliveries }))
    → IsSafe (write_result change n token o)
unfolding write_result
write_result-IsSafe change n token o v keep =
    elim (Option-cases (find (is_matching_claim n token) o.deliveries)) [
      | inl e ↦ rw (e, write_result) (refl, v)
      | inr (d, e) ↦
          let m : In d o.deliveries = In-find (is_matching_claim n token) d o.deliveries e in
          let is_sending : d.status ≡ sending =
            matching_status n token d (find_holds (is_matching_claim n token) d o.deliveries e) in
          rw (e, write_result)
            (rw (has_current_attempt_row o v d m is_sending) (refl, keep d m is_sending))
    ]

-- On a valid table the report of a success returns, whatever the claim, and leaves it valid.
pub complete_claimed-IsSafe :
    (n : ℕ) (token : String) (r : DeliveryResult) (now : ℕ) (o : Outbox)
    → IsValid o
    → is_succeeded r.outcome ≡ true
    → IsSafe (complete_claimed n token r now o)
unfolding complete_claimed
complete_claimed-IsSafe n token r now o v good = rw good (
    write_result-IsSafe (succeed now r) n token o v (λ d m e. succeed-IsValid o v d m now r e good))

-- The same of the report of a failure.
pub fail_claimed-IsSafe :
    (n : ℕ) (token : String) (r : DeliveryResult) (now : ℕ) (o : Outbox)
    → IsValid o
    → is_succeeded r.outcome ≡ false
    → IsSafe (fail_claimed n token r now o)
unfolding fail_claimed
fail_claimed-IsSafe n token r now o v bad = rw bad (
    write_result-IsSafe (apply_failure now r) n token o v
      (λ d m e. apply_failure-IsValid o v d m now r e bad))

-- The rows that are still to be recovered: rows of the table, apart, each being sent.
abbrev IsPendingRecovery : List NotificationDelivery → List NotificationDelivery → Type 0
IsPendingRecovery stale table =
    Distinct Apart stale × All (λ d. In d table × (d.status ≡ sending)) stale

pub stale_status :
    (locked : ℕ → Bool) (now : ℕ) (d : NotificationDelivery)
    → is_stale locked now d ≡ true
    → d.status ≡ sending
unfolding is_stale
stale_status locked now d h = ground arith

-- The write to one row leaves the other rows of the loop where they are.
still_pending :
    (now : ℕ) (d : NotificationDelivery) (stale table : List NotificationDelivery)
    → All (Apart d) stale
    → All (λ e. In e table × (e.status ≡ sending)) stale
    → All
        (λ e.
          In e (save delivery_id (apply_failure now stale_result d) table) × (e.status ≡ sending))
        stale
unfolding apply_failure
still_pending now d stale table apart h =
    All-map (λ e. Apart d e × (In e table × (e.status ≡ sending)))
      (λ e. In e (save delivery_id (apply_failure now stale_result d) table) × (e.status ≡ sending))
      stale
      (λ e k. (
        In-save_ne delivery_id (apply_failure now stale_result d) e table (λ p. k.0.0 (sym p))
            k.1.0,
        k.1.1,
      ))
      (All-and (Apart d) (λ e. In e table × (e.status ≡ sending)) stale apart h)

recover_each-IsSafe :
    (now : ℕ) (stale : List NotificationDelivery) (o : Outbox) (count : ℕ) (start : Outbox)
    → IsValid o
    → IsPendingRecovery stale o.deliveries
    → o.next_id ≡ start.next_id
    → IsSafe (recovered_table count start (recover_each now stale o.deliveries))
unfolding recover_each recovered_table
recover_each-IsSafe now [] o count start v h e =
    (refl, subst (λ n. IsValid (record { deliveries = o.deliveries; next_id = n })) e v)
recover_each-IsSafe now (d ∷ stale) o count start v h e =
    let ((m, is_sending), later) = h.1 in
    rw (has_current_attempt_row o v d m is_sending) (
      recover_each-IsSafe now stale
        (record o { deliveries = save delivery_id (apply_failure now stale_result d) o.deliveries })
        count start (apply_failure-IsValid o v d m now stale_result is_sending refl)
        (h.0.1, still_pending now d stale o.deliveries h.0.0 later) e)

-- Recovery returns on a valid table, never with a RuntimeError, and leaves it valid.
pub recover_stale_claims-IsSafe :
    (locked : ℕ → Bool) (now : ℕ) (o : Outbox)
    → IsValid o
    → IsSafe (recover_stale_claims locked now o)
unfolding recover_stale_claims
recover_stale_claims-IsSafe locked now o v =
    let rows : List NotificationDelivery = select (is_stale locked now) o.deliveries in
    recover_each-IsSafe now (sort_by claimed_before rows) o (length (sort_by claimed_before rows)) o
      v
      (
        Distinct-sort_by Apart Apart-symm claimed_before rows
            (Distinct-select Apart (is_stale locked now) o.deliveries v.distinct),
        All-sort_by (λ d. In d o.deliveries × (d.status ≡ sending)) claimed_before rows
            (All-map (λ d. In d o.deliveries × (is_stale locked now d ≡ true))
              (λ d. In d o.deliveries × (d.status ≡ sending)) rows
              (λ d h. (h.0, stale_status locked now d h.1))
              (All-select (λ d. In d o.deliveries) (is_stale locked now) o.deliveries
                (All-In_self o.deliveries))),
      )
      refl
