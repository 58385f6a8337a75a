-- ===== src/Evaluations/Cancelling.antt =====
-- A cancellation against the worker that has the batch.
use policy_project_managemen.Prelude.{
  ℕ, ◌≡◌, refl, true, false, Option, some, Ensures, Ensures-map, by_id, by_id-save_found,
  Option-cases, Bool-cases, inl, inr, String, arith,
}
use policy_project_managemen.Notifications.Service.{Sessions}
use policy_project_managemen.Evaluations.Rows.{
  EvaluationStatus, cancelled, evaluation_status_eq, EvaluationResult, EvaluationProviderResult,
  EvaluationBatch, EvaluationBook, batch_key,
}
use policy_project_managemen.Evaluations.Queue.{cancel, cancelled_batch, is_cancellable}
use policy_project_managemen.Evaluations.Writes.{holds_claim, write_results}
use policy_project_managemen.Evaluations.Machine.{cancelled-fields}
use policy_project_managemen.Evaluations.LostClaims.{HasRaised, write_results-HasRaised}

-- The batch is cancelled in the tables.
abbrev IsCancelledIn : ℕ → EvaluationBatch × EvaluationBook → Type 0
IsCancelledIn n (b, book) = (by_id batch_key n book.batches ≡ some b) × (b.status ≡ cancelled)

is-cancelled : (s : EvaluationStatus) → evaluation_status_eq s cancelled ≡ true → s ≡ cancelled
is-cancelled s h = ground arith

cancel-IsCancelledIn :
    (now n : ℕ) (reason : Option String) (actor_id : ℕ) (book : EvaluationBook)
    → Ensures (IsCancelledIn n) (cancel now n reason actor_id book)
unfolding cancel
cancel-IsCancelledIn now n reason actor_id book =
    elim (Option-cases (by_id batch_key n book.batches)) [
      | inl e ↦ rw (e, cancel) tt
      | inr (b, e) ↦ elim (Bool-cases (evaluation_status_eq b.status cancelled)) [
        | inl done ↦ rw (e, cancel, done) (e, is-cancelled b.status done)
        | inr other ↦ elim (Bool-cases (is_cancellable b.status)) [
          | inr late ↦ rw (e, cancel, other, late) tt
          | inl open_one ↦
              let (same, status) = cancelled-fields now reason actor_id b in
              rw (e, cancel, other, open_one)
                (
                  by_id-save_found batch_key n (cancelled_batch now reason actor_id b) b
                      book.batches e same,
                  status,
                )
        ]
      ]
    ]

unheld : (token : String) (b : EvaluationBatch) → b.status ≡ cancelled → holds_claim token b ≡ false
unheld token b e = rw e refl

-- After a cancellation the results of the adapter are refused, under every token.
pub cancel-refuses_results :
    (now n : ℕ) (reason : Option String) (actor_id : ℕ) (book : EvaluationBook) (others : Sessions)
    (later version_id : ℕ) (token : String) (result : EvaluationResult)
    (provider : Option EvaluationProviderResult)
    → Ensures
        (λ r. HasRaised (write_results others later n version_id token result provider r.1))
        (cancel now n reason actor_id book)
cancel-refuses_results now n reason actor_id book others later version_id token result provider =
    Ensures-map (IsCancelledIn n)
      (λ r. HasRaised (write_results others later n version_id token result provider r.1))
      (cancel now n reason actor_id book)
      (λ r c.
        write_results-HasRaised others later n version_id token result provider r.1 r.0 c.0
          (unheld token r.0 c.1))
      (cancel-IsCancelledIn now n reason actor_id book)
