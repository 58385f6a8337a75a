-- ===== src/Evaluations/Machine.antt =====
-- The status of a batch as an abstract machine, and what each operation does to the batches.
use policy_project_managemen.Prelude.{
  ℕ, ◌+◌, ◌≡◌, refl, sym, subst, true, not, Option, some, List, [], ◌∷◌, ◌++◌, Result, raise_if,
  or_raise, by_id, has_id, save, find_holds, ==-eq, arith, Bool-cases, Option-cases, inl, inr,
  String, Ensures, Ensures-bind,
}
use policy_project_managemen.Projects.Rows.{policy_row_id}
use policy_project_managemen.Evaluations.Rows.{
  EvaluationStatus, pending, running, awaiting_confirmation, confirmed, cancelled, failed,
  evaluation_status_eq, EvaluationBatch, EvaluationBook, batch_key, EvaluationError, value_error,
  evaluation_policy_not_found,
}
use policy_project_managemen.Evaluations.Secured.{HasEntitiesIn}
use policy_project_managemen.Evaluations.Queue.{
  Settings, enqueue, enqueue_for_policy, new_batch, active_rules, has_each_entity, current_version,
  cancel, cancelled_batch, is_cancellable,
}
use policy_project_managemen.Evaluations.Writes.{holds_claim, fail_claimed, failed_batch}

-- The edges of the machine.
pub data Edge : EvaluationStatus → EvaluationStatus → Type 0 where
  claim : Edge pending running
  reclaim : Edge running running
  withdraw : Edge pending cancelled
  stop : Edge running cancelled
  evaluate : Edge running awaiting_confirmation
  fail : Edge running failed
  approve : Edge awaiting_confirmation confirmed

-- What an operation does to the batches: nothing, a new pending one, or one edge of one batch.
pub data BatchMove : EvaluationBook → EvaluationBook → Type 0 where
  unmoved :
      {book book' : EvaluationBook}
      → book'.batches ≡ book.batches
      → book'.next_batch_id ≡ book.next_batch_id
      → BatchMove book book'
  added :
      {book book' : EvaluationBook} (b : EvaluationBatch)
      → b.status ≡ pending
      → b.id ≡ book.next_batch_id
      → book'.batches ≡ book.batches ++ b ∷ []
      → book'.next_batch_id ≡ book.next_batch_id + 1
      → BatchMove book book'
  moved :
      {book book' : EvaluationBook} (b b' : EvaluationBatch)
      → by_id batch_key b.id book.batches ≡ some b
      → b'.id ≡ b.id
      → Edge b.status b'.status
      → book'.batches ≡ save batch_key b' book.batches
      → book'.next_batch_id ≡ book.next_batch_id
      → BatchMove book book'

-- What a transaction that commits leaves.
pub record IsKept (book book' : EvaluationBook) : Type 0 where
  pub entities : HasEntitiesIn book'
  pub move : BatchMove book book'

abbrev pub Commits {ℓ} :
    {A : Type ℓ} → EvaluationBook → Result EvaluationError (A × EvaluationBook) → Type 0
Commits book = Ensures (λ r. IsKept book r.1)

pub is-pending : (s : EvaluationStatus) → evaluation_status_eq s pending ≡ true → s ≡ pending
is-pending s h = ground arith

pub is-running : (s : EvaluationStatus) → evaluation_status_eq s running ≡ true → s ≡ running
is-running s h = ground arith

pub is-awaiting :
    (s : EvaluationStatus)
    → evaluation_status_eq s awaiting_confirmation ≡ true
    → s ≡ awaiting_confirmation
is-awaiting s h = ground arith

pub found_batch :
    (n : ℕ) (rows : List EvaluationBatch) (b : EvaluationBatch)
    → by_id batch_key n rows ≡ some b
    → by_id batch_key b.id rows ≡ some b
found_batch n rows b e =
    subst (λ k. by_id batch_key k rows ≡ some b)
      (sym (==-eq b.id n (find_holds (has_id batch_key n) b rows e))) e

pub enqueue-Commits :
    (settings : Settings) (version_id : ℕ) (actor_id : Option ℕ) (book : EvaluationBook)
    → HasEntitiesIn book
    → Commits book (enqueue settings version_id actor_id book)
unfolding enqueue new_batch
enqueue-Commits settings version_id actor_id book h =
    let Kept = λ (r : EvaluationBatch × EvaluationBook). IsKept book r.1 in
    Ensures-bind Kept (raise_if (not (has_each_entity book)) value_error) _ λ _ _.
      Ensures-bind Kept (active_rules book) _
        λ rule_version _. record { entities = h; move = added _ refl refl refl refl }

pub enqueue_for_policy-Commits :
    (settings : Settings) (policy_id : ℕ) (actor_id : Option ℕ) (book : EvaluationBook)
    → HasEntitiesIn book
    → Commits book (enqueue_for_policy settings policy_id actor_id book)
unfolding enqueue_for_policy
enqueue_for_policy-Commits settings policy_id actor_id book h =
    let Kept = λ (r : EvaluationBatch × EvaluationBook). IsKept book r.1 in
    Ensures-bind Kept
      (or_raise (current_version (by_id policy_row_id policy_id book.policies))
        evaluation_policy_not_found)
      _ λ version_id _. enqueue-Commits settings version_id actor_id book h

cancel_edge : (s : EvaluationStatus) → is_cancellable s ≡ true → Edge s cancelled
cancel_edge pending h = withdraw
cancel_edge running h = stop
cancel_edge _ h = cc

pub cancelled-fields :
    (now : ℕ) (reason : Option String) (actor_id : ℕ) (b : EvaluationBatch)
    → ((cancelled_batch now reason actor_id b).id ≡ b.id)
      × ((cancelled_batch now reason actor_id b).status ≡ cancelled)
unfolding cancelled_batch
cancelled-fields now reason actor_id b = (refl, refl)

pub cancel-Commits :
    (now batch_id : ℕ) (reason : Option String) (actor_id : ℕ) (book : EvaluationBook)
    → HasEntitiesIn book
    → Commits book (cancel now batch_id reason actor_id book)
unfolding cancel
cancel-Commits now batch_id reason actor_id book h =
    elim (Option-cases (by_id batch_key batch_id book.batches)) [
      | inl e ↦ rw (e, cancel) tt
      | inr (b, e) ↦ elim (Bool-cases (evaluation_status_eq b.status cancelled)) [
        | inl done ↦ rw (e, cancel, done) (record { entities = h; move = unmoved refl refl })
        | inr other ↦ elim (Bool-cases (is_cancellable b.status)) [
          | inr late ↦ rw (e, cancel, other, late) tt
          | inl open_one ↦
              let (same, status) = cancelled-fields now reason actor_id b in
              rw (e, cancel, other, open_one)
                (record {
                  entities = h;
                  move =
                      moved b (cancelled_batch now reason actor_id b)
                        (found_batch batch_id book.batches b e) same
                        (subst (Edge b.status) (sym status) (cancel_edge b.status open_one)) refl
                        refl;
                })
        ]
      ]
    ]

failed-fields :
    (now : ℕ) (b : EvaluationBatch)
    → ((failed_batch now b).id ≡ b.id) × ((failed_batch now b).status ≡ failed)
unfolding failed_batch
failed-fields now b = (refl, refl)

pub held_running :
    (token : String) (b : EvaluationBatch) → holds_claim token b ≡ true → b.status ≡ running
held_running token b h = is-running b.status (ground arith)

pub fail_claimed-Commits :
    (now batch_id : ℕ) (token : String) (book : EvaluationBook)
    → HasEntitiesIn book
    → Commits book (fail_claimed now batch_id token book)
unfolding fail_claimed
fail_claimed-Commits now batch_id token book h =
    Ensures-bind (λ (r : EvaluationBatch × EvaluationBook). IsKept book r.1)
      (or_raise (by_id batch_key batch_id book.batches) value_error) _
      λ b e. elim (Bool-cases (holds_claim token b)) [
        | inr lost ↦ rw lost (record { entities = h; move = unmoved refl refl })
        | inl held ↦
            let (same, status) = failed-fields now b in
            rw held (record {
              entities = h;
              move =
                  moved b (failed_batch now b) (found_batch batch_id book.batches b (ground arith))
                    same
                    (subst (λ s. Edge s (failed_batch now b).status)
                      (sym (held_running token b held)) (subst (Edge running) (sym status) fail))
                    refl refl;
            })
      ]
