-- ===== src/Evaluations/Processing.antt =====
-- The work of an adapter on a claimed batch, in the order of its transactions: `process_claimed`
-- and `run_next` of `EvaluationService` (backend/app/modules/evaluations/service.py), and
-- `run_once` of the worker (backend/workers/evaluator.py).
use policy_project_managemen.Prelude.{
  ℕ, String, Bool, true, false, not, Option, none, some, Result, ok, err, ◌>>=◌, or_raise, by_id,
  if◌then◌else◌,
}
use policy_project_managemen.Notifications.Service.{Sessions}
use policy_project_managemen.Evaluations.Rows.{
  EvaluationBatch, PolicyVersion, EvaluationBook, batch_key, version_key, EvaluationError,
  evaluation_claim_lost, value_error,
}
use policy_project_managemen.Evaluations.Queue.{claim_next}
use policy_project_managemen.Evaluations.Writes.{
  EvaluationRequest, AdapterEnd, request_of, results_of, holds_claim, write_results, fail_claimed,
}

-- What other sessions commit after the claim, while the adapter works, and before a failure is
-- written.
pub record Meanwhile : Type 0 where
  pub after_claim : EvaluationBook → EvaluationBook
  pub during : EvaluationBook → EvaluationBook
  pub before_failure : EvaluationBook → EvaluationBook
  pub outbox_others : Sessions

-- The `try` ends: with the results, with the claim lost, or with another exception.
unfoldable pub after_writing :
    Meanwhile
    → ℕ
    → ℕ
    → String
    → EvaluationBook
    → Result EvaluationError (EvaluationBatch × EvaluationBook)
    → Result EvaluationError (EvaluationBatch × EvaluationBook)
after_writing m now batch_id token book (ok written) = ok written
after_writing m now batch_id token book (err evaluation_claim_lost) = do
  batch ← or_raise (by_id batch_key batch_id book.batches) value_error
  ok (batch, book)
after_writing m now batch_id token book (err _) =
    fail_claimed now batch_id token (m.before_failure book)

-- The adapter is called, and its result written to the tables as they are then.
unfoldable pub evaluate_version :
    Meanwhile
    → (EvaluationRequest → AdapterEnd)
    → ℕ
    → EvaluationBatch
    → String
    → PolicyVersion
    → EvaluationBook
    → Result EvaluationError (EvaluationBatch × EvaluationBook)
evaluate_version m adapter now batch token version book =
    results_of (adapter (request_of batch version)) >>= λ r.
    write_results m.outbox_others now batch.id batch.policy_version_id token r.0 r.1 book

unfoldable pub process_claimed :
    Meanwhile
    → (EvaluationRequest → AdapterEnd)
    → ℕ
    → ℕ
    → String
    → EvaluationBook
    → Result EvaluationError (EvaluationBatch × EvaluationBook)
process_claimed m adapter now batch_id token book =
    or_raise (by_id batch_key batch_id book.batches) value_error >>= λ batch.
    if not (holds_claim token batch)
    then ok (batch, book)
    else after_writing m now batch_id token (m.during book) (
        or_raise (by_id version_key batch.policy_version_id book.versions) value_error
        >>= λ version. evaluate_version m adapter now batch token version (m.during book))

-- `run_once` of the worker, which says whether there was a batch. The factory may raise.
pub record Factory : Type 0 where
  pub adapter_for : String → Option String → Option (EvaluationRequest → AdapterEnd)

unfoldable pub run_adapter :
    Meanwhile
    → Option (EvaluationRequest → AdapterEnd)
    → ℕ
    → ℕ
    → String
    → EvaluationBook
    → Result EvaluationError (EvaluationBatch × EvaluationBook)
run_adapter m none now batch_id token book = fail_claimed now batch_id token (m.before_failure book)
run_adapter m (some adapter) now batch_id token book =
    process_claimed m adapter now batch_id token book

unfoldable pub run_claimed :
    Meanwhile
    → Factory
    → ℕ
    → String
    → Option EvaluationBatch × EvaluationBook
    → Result EvaluationError (Bool × EvaluationBook)
run_claimed m factory now token (none, book) = ok (false, book)
run_claimed m factory now token (some batch, book) =
    run_adapter m (factory.adapter_for batch.adapter_key batch.model_name) now batch.id token
      (m.after_claim book)
    >>= λ r. ok (true, r.1)

unfoldable pub run_once :
    (ℕ → Bool)
    → String
    → Meanwhile
    → Factory
    → ℕ
    → ℕ
    → EvaluationBook
    → Result EvaluationError (Bool × EvaluationBook)
run_once locked token m factory claimed_at finished_at book =
    run_claimed m factory finished_at token (claim_next locked claimed_at token book)

-- `run_next`, with the adapter given
unfoldable pub process_next :
    Meanwhile
    → (EvaluationRequest → AdapterEnd)
    → ℕ
    → String
    → Option EvaluationBatch × EvaluationBook
    → Result EvaluationError (Option EvaluationBatch × EvaluationBook)
process_next m adapter now token (none, book) = ok (none, book)
process_next m adapter now token (some batch, book) =
    process_claimed m adapter now batch.id token (m.after_claim book) >>= λ r. ok (some r.0, r.1)

unfoldable pub run_next :
    (ℕ → Bool)
    → String
    → Meanwhile
    → (EvaluationRequest → AdapterEnd)
    → ℕ
    → ℕ
    → EvaluationBook
    → Result EvaluationError (Option EvaluationBatch × EvaluationBook)
run_next locked token m adapter claimed_at finished_at book =
    process_next m adapter finished_at token (claim_next locked claimed_at token book)
