-- ===== src/Evaluations/Settling.antt =====
-- What becomes of a claimed batch.
use policy_project_managemen.Prelude.{
  ℕ, ◌≡◌, ==-eq, find_holds, has_id, refl, sym, subst, false, not, Option, none, some, List, [],
  ◌∷◌, ◌++◌, Result, ok, err, ◌>>=◌, raise_if, or_raise, Raises, Raises-bind, Ends, Ends-bind,
  Raises-or_raise, by_id, any, Option-cases, Bool-cases, inl, inr, String, arith,
}
use policy_project_managemen.Notifications.Service as Notify
use policy_project_managemen.Notifications.Delivery.{NotificationEvent, NotificationDelivery}
use policy_project_managemen.Notifications.Service.{Outbox, Sessions, Outbox}
use policy_project_managemen.Projects.Rows.{policy_row_id}
use policy_project_managemen.Evaluations.Rows.{
  integrity_error, EntityEvaluationResult, EvaluationResult, EvaluationProviderResult,
  EvaluationBatch, EntityEvaluation, EvaluationBook, PolicyVersion, batch_key, version_key,
  EvaluationError, evaluation_claim_lost, value_error, names_each_entity,
}
use policy_project_managemen.Evaluations.Events.{evaluation_notification_event}
use policy_project_managemen.Evaluations.Snapshots.{evaluation_snapshot}
use policy_project_managemen.Evaluations.Processing.{
  Meanwhile, after_writing, evaluate_version, process_claimed,
}
use policy_project_managemen.Evaluations.Writes.{
  enqueue_event, EvaluationRequest, AdapterEnd, provided, evaluated, adapter_raised, request_of,
  results_of, holds_claim, evaluated_batch, suggested_policy, is_row_of, result_row, add_results,
  with_results, write_results, failed_batch, fail_claimed,
}

-- The call returns, with a batch that the token no longer holds.
abbrev pub Settles : String → Result EvaluationError (EvaluationBatch × EvaluationBook) → Type 0
Settles token (ok (batch, book)) = holds_claim token batch ≡ false
Settles token (err e) = ⊥

failed-unheld :
    (now : ℕ) (token : String) (b : EvaluationBatch)
    → holds_claim token (failed_batch now b) ≡ false
unfolding failed_batch
failed-unheld now token b = refl

evaluated-unheld :
    (now : ℕ) (token : String) (result : EvaluationResult)
    (provider : Option EvaluationProviderResult) (b : EvaluationBatch)
    → holds_claim token (evaluated_batch now result provider b) ≡ false
unfolding evaluated_batch
evaluated-unheld now token result none b = refl
evaluated-unheld now token result (some p) b = refl

fail_claimed-Settles :
    (now n : ℕ) (token : String) (book : EvaluationBook) (b : EvaluationBatch)
    → by_id batch_key n book.batches ≡ some b
    → Settles token (fail_claimed now n token book)
unfolding fail_claimed
fail_claimed-Settles now n token book b e = elim (Bool-cases (holds_claim token b)) [
  | inl held ↦ rw (e, held) (failed-unheld now token b)
  | inr lost ↦ rw (e, lost) lost
]

-- The exception for a lost claim comes where the claim is lost.
abbrev LostRightly : ℕ → String → EvaluationBook → EvaluationError → Type 0
LostRightly n token book e =
    e ≡ evaluation_claim_lost
    → (b : EvaluationBatch) → by_id batch_key n book.batches ≡ some b
    → holds_claim token b ≡ false

add_results-LostRightly :
    (n : ℕ) (token : String) (book : EvaluationBook) (batch_id : ℕ)
    (entities : List EntityEvaluationResult) (rows : List EntityEvaluation)
    → Raises (LostRightly n token book) (add_results batch_id entities rows)
unfolding add_results
add_results-LostRightly n token book batch_id [] rows = tt
add_results-LostRightly n token book batch_id (x ∷ entities) rows =
    elim (Bool-cases (any (is_row_of batch_id x.entity_seed_code) rows)) [
      | inl e ↦ rw (e, add_results) λ q. cc
      | inr e ↦
          rw (e, add_results)
            (add_results-LostRightly n token book batch_id entities
              (rows ++ result_row batch_id x ∷ []))
    ]

results_of-LostRightly :
    (n : ℕ) (token : String) (book : EvaluationBook) (end : AdapterEnd)
    → Raises (LostRightly n token book) (results_of end)
unfolding results_of
results_of-LostRightly n token book (provided p) = tt
results_of-LostRightly n token book adapter_raised = λ q. cc
results_of-LostRightly n token book (evaluated r) =
    elim (Bool-cases (names_each_entity r.entities)) [ inl e ↦ rw e tt | inr e ↦ rw e λ q. cc ]

event-LostRightly :
    (n : ℕ) (token : String) (book : EvaluationBook) (batch : EvaluationBatch)
    (book' : EvaluationBook)
    → Raises (LostRightly n token book) (evaluation_notification_event batch book')
unfolding evaluation_notification_event
event-LostRightly n token book batch book' =
    let Lost = LostRightly n token book in
    elim (Option-cases (evaluation_snapshot book'.entity_evaluations batch)) [
      | inl e ↦ rw (e, evaluation_notification_event) tt
      | inr (current, e) ↦
          rw (e, evaluation_notification_event)
            (Raises-bind Lost
              (or_raise (by_id version_key batch.policy_version_id book'.versions) value_error) _
              (Raises-or_raise Lost _ value_error (λ q. cc))
              λ version _.
                Raises-bind Lost
                  (or_raise (by_id policy_row_id version.policy_id book'.policies) value_error) _
                  (Raises-or_raise Lost _ value_error (λ q. cc)) λ policy _. tt)
    ]

lost-LostRightly :
    (n : ℕ) (token : String) (book : EvaluationBook) (batch : EvaluationBatch)
    → or_raise (by_id batch_key n book.batches) value_error ≡ ok batch
    → Raises
        (LostRightly n token book)
        (raise_if (not (holds_claim token batch)) evaluation_claim_lost)
lost-LostRightly n token book batch e = elim (Bool-cases (holds_claim token batch)) [
  | inl held ↦ rw held tt
  | inr lost ↦ rw lost λ q b f. ground (arith, f, e)
]

-- The claim is given up by the answer, or the exception says that it is lost.
abbrev Ended :
    ℕ → String → EvaluationBook → Result EvaluationError (EvaluationBatch × EvaluationBook) → Type 0
Ended n token book =
    Ends (λ (r : EvaluationBatch × EvaluationBook). holds_claim token r.0 ≡ false)
      (LostRightly n token book)

Ended-bind :
    {A : Type 0} (n : ℕ) (token : String) (book : EvaluationBook) (m : Result EvaluationError A)
    (f : A → Result EvaluationError (EvaluationBatch × EvaluationBook))
    → Raises (LostRightly n token book) m
    → ((a : A) → m ≡ ok a → Ended n token book (f a))
    → Ended n token book (m >>= f)
Ended-bind n token book m f h g =
    Ends-bind (λ (r : EvaluationBatch × EvaluationBook). holds_claim token r.0 ≡ false)
      (LostRightly n token book) m f h g

enqueue_event-LostRightly :
    (n : ℕ) (token : String) (book : EvaluationBook) (others : Sessions) (now : ℕ)
    (event : Option NotificationEvent) (written : EvaluationBook)
    → Raises (LostRightly n token book) (enqueue_event others now event written)
enqueue_event-LostRightly n token book others now none written = tt
enqueue_event-LostRightly n token book others now (some event) written =
    Raises-bind (LostRightly n token book) (Notify.stored integrity_error call) _ (raised call)
      λ outbox _. tt
  where
    call : Result Notify.NotificationError NotificationDelivery × Outbox
    call = Notify.enqueue others event now written.outbox

    raised :
        (r : Result Notify.NotificationError NotificationDelivery × Outbox)
        → Raises (LostRightly n token book) (Notify.stored integrity_error r)
    raised (ok d, o) = tt
    raised (err e, o) = λ q. cc

write_results-Ended :
    (others : Sessions) (now n version_id : ℕ) (token : String) (result : EvaluationResult)
    (provider : Option EvaluationProviderResult) (book : EvaluationBook)
    → Ended n token book (write_results others now n version_id token result provider book)
unfolding write_results
write_results-Ended others now n version_id token result provider book =
    let Lost = LostRightly n token book in
    Ended-bind n token book (or_raise (by_id batch_key n book.batches) value_error) _
      (Raises-or_raise Lost _ value_error (λ q. cc))
      λ batch e.
        Ended-bind n token book (or_raise (by_id version_key version_id book.versions) value_error)
          _ (Raises-or_raise Lost _ value_error (λ q. cc))
          λ version _.
            Ended-bind n token book (raise_if (not (holds_claim token batch)) evaluation_claim_lost)
              _ (lost-LostRightly n token book batch e)
              λ _ _.
                Ended-bind n token book
                  (or_raise (by_id policy_row_id version.policy_id book.policies) value_error) _
                  (Raises-or_raise Lost _ value_error (λ q. cc))
                  λ p _.
                    Ended-bind n token book
                      (add_results batch.id result.entities book.entity_evaluations) _
                      (add_results-LostRightly n token book batch.id result.entities
                        book.entity_evaluations)
                      λ rows _.
                        Ended-bind n token book _ _
                          (event-LostRightly n token book
                            (evaluated_batch now result provider batch)
                            (with_results (evaluated_batch now result provider batch)
                              (suggested_policy batch.id result.conclusion p) rows book))
                          λ event _.
                            Ended-bind n token book (enqueue_event others now event _) _
                              (enqueue_event-LostRightly n token book others now event _)
                              λ written _. evaluated-unheld now token result provider batch

-- The end of the `try`, whatever it was.
after_writing-Settles :
    (m : Meanwhile) (now n : ℕ) (token : String) (book : EvaluationBook)
    (r : Result EvaluationError (EvaluationBatch × EvaluationBook)) (b b' : EvaluationBatch)
    → by_id batch_key n book.batches ≡ some b
    → by_id batch_key n (m.before_failure book).batches ≡ some b'
    → Ended n token book r
    → Settles token (after_writing m now n token book r)
unfolding after_writing
after_writing-Settles m now n token book (ok written) b b' e e' s = s
after_writing-Settles m now n token book (err evaluation_claim_lost) b b' e e' s = rw e (s refl b e)
after_writing-Settles m now n token book (err _) b b' e e' s =
    fail_claimed-Settles now n token (m.before_failure book) b' e'

module _ (m : Meanwhile) (adapter : EvaluationRequest → AdapterEnd) (now : ℕ) (token : String) where
  evaluate_version-Settles :
      (batch : EvaluationBatch) (version : Option PolicyVersion) (book : EvaluationBook)
      (b b' : EvaluationBatch)
      → by_id batch_key batch.id book.batches ≡ some b
      → by_id batch_key batch.id (m.before_failure book).batches ≡ some b'
      → Settles token (
          after_writing m now batch.id token book (
            or_raise version value_error >>= λ version.
            evaluate_version m adapter now batch token version book))
  unfolding evaluate_version
  evaluate_version-Settles batch version book b b' e e' =
      let Lost = LostRightly batch.id token book in
      after_writing-Settles m now batch.id token book _ b b' e e' (
        Ended-bind batch.id token book (or_raise version value_error) _
          (Raises-or_raise Lost version value_error (λ q. cc))
          λ version _.
            Ended-bind batch.id token book (results_of (adapter (request_of batch version))) _
              (results_of-LostRightly batch.id token book (adapter (request_of batch version)))
              λ r _.
                write_results-Ended m.outbox_others now batch.id batch.policy_version_id token r.0
                  r.1 book)

  -- Whatever the adapter does and others commit meanwhile, `process_claimed` returns, and leaves
  -- the batch out of its claim.
  pub process_claimed-Settles :
      (n : ℕ) (book : EvaluationBook) (b b' b'' : EvaluationBatch)
      → by_id batch_key n book.batches ≡ some b
      → by_id batch_key n (m.during book).batches ≡ some b'
      → by_id batch_key n (m.before_failure (m.during book)).batches ≡ some b''
      → Settles token (process_claimed m adapter now n token book)
  unfolding process_claimed
  process_claimed-Settles n book b b' b'' e e' e'' = elim (Bool-cases (holds_claim token b)) [
    | inr lost ↦ rw (e, lost) lost
    | inl held ↦
        let same = ==-eq b.id n (find_holds (has_id batch_key n) b book.batches e) in
        rw (e, held)
          (subst
            (λ k. Settles token (
              after_writing m now k token (m.during book) (
                or_raise (by_id version_key b.policy_version_id book.versions) value_error
                >>= λ version. evaluate_version m adapter now b token version (m.during book))))
            same
            (evaluate_version-Settles b (by_id version_key b.policy_version_id book.versions)
              (m.during book) b' b''
              (subst (λ k. by_id batch_key k (m.during book).batches ≡ some b') (sym same) e')
              (subst (λ k. by_id batch_key k (m.before_failure (m.during book)).batches ≡ some b'')
                (sym same) e'')))
  ]
