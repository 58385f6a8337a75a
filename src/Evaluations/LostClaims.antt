-- ===== src/Evaluations/LostClaims.antt =====
-- A worker that lost its claim.
use policy_project_managemen.Prelude.{
  ℕ, ◌≡◌, ◌⊎◌, ==-eq, find_holds, has_id, refl, sym, subst, true, false, Option, some, Result, ok,
  err, ◌>>=◌, or_raise, Ensures, by_id, inl, inr, String,
}
use policy_project_managemen.Notifications.Service.{Sessions}
use policy_project_managemen.Evaluations.Rows.{
  EvaluationResult, EvaluationProviderResult, EvaluationBatch, EvaluationBook, batch_key,
  version_key, EvaluationError, evaluation_claim_lost, value_error,
}
use policy_project_managemen.Evaluations.Processing.{
  Meanwhile, after_writing, evaluate_version, process_claimed,
}
use policy_project_managemen.Evaluations.Writes.{
  EvaluationRequest, AdapterEnd, request_of, results_of, holds_claim, write_results, fail_claimed,
}

-- The call raises.
abbrev pub HasRaised : {A : Type 0} → Result EvaluationError A → Type 0
HasRaised (ok a) = ⊥
HasRaised (err e) = Unit

-- The tables that a call leaves are those that others committed.
abbrev pub LeavesTables :
    EvaluationBook
    → EvaluationBook
    → Result EvaluationError (EvaluationBatch × EvaluationBook)
    → Type 0
LeavesTables book1 book2 = Ensures (λ r. (r.1 ≡ book1) ⊎ (r.1 ≡ book2))

HasRaised-bind :
    {A B : Type 0} (r : Result EvaluationError A) (f : A → Result EvaluationError B)
    → ((a : A) → HasRaised (f a))
    → HasRaised (r >>= f)
HasRaised-bind (ok a) f h = h a
HasRaised-bind (err e) f h = tt

pub write_results-HasRaised :
    (others : Sessions) (now n version_id : ℕ) (token : String) (result : EvaluationResult)
    (provider : Option EvaluationProviderResult) (book : EvaluationBook) (b : EvaluationBatch)
    → by_id batch_key n book.batches ≡ some b
    → holds_claim token b ≡ false
    → HasRaised (write_results others now n version_id token result provider book)
unfolding write_results
write_results-HasRaised others now n version_id token result provider book b e lost = rw e (
    HasRaised-bind (or_raise (by_id version_key version_id book.versions) value_error) _
      λ version. rw lost tt)

fail_claimed-lost :
    (now n : ℕ) (token : String) (book : EvaluationBook) (b : EvaluationBatch)
    → by_id batch_key n book.batches ≡ some b
    → holds_claim token b ≡ false
    → Ensures (λ r. r.1 ≡ book) (fail_claimed now n token book)
unfolding fail_claimed
fail_claimed-lost now n token book b e lost = rw (e, lost) refl

module _ (m : Meanwhile) (now : ℕ) (token : String) where
  after_writing-lost :
      (n : ℕ) (book : EvaluationBook)
      (r : Result EvaluationError (EvaluationBatch × EvaluationBook)) (b b' : EvaluationBatch)
      → by_id batch_key n book.batches ≡ some b
      → by_id batch_key n (m.before_failure book).batches ≡ some b'
      → holds_claim token b' ≡ false
      → HasRaised r
      → LeavesTables book (m.before_failure book) (after_writing m now n token book r)
  unfolding after_writing fail_claimed
  after_writing-lost n book (ok written) b b' e e' lost h = absurd h
  after_writing-lost n book (err evaluation_claim_lost) b b' e e' lost h = rw e (inl refl)
  after_writing-lost n book (err _) b b' e e' lost h = rw (e', lost) (inr refl)

  -- A claim that is lost while the adapter works is not used: the tables stay as others left them.
  pub process_claimed-lost :
      (adapter : EvaluationRequest → AdapterEnd) (n : ℕ) (book : EvaluationBook)
      (b b' b'' : EvaluationBatch)
      → by_id batch_key n book.batches ≡ some b
      → holds_claim token b ≡ true
      → by_id batch_key n (m.during book).batches ≡ some b'
      → holds_claim token b' ≡ false
      → by_id batch_key n (m.before_failure (m.during book)).batches ≡ some b''
      → holds_claim token b'' ≡ false
      → LeavesTables
          (m.during book)
          (m.before_failure (m.during book))
          (process_claimed m adapter now n token book)
  unfolding process_claimed evaluate_version
  process_claimed-lost adapter n book b b' b'' e held e' lost' e'' lost'' =
      let same = ==-eq b.id n (find_holds (has_id batch_key n) b book.batches e) in
      rw (e, held)
        (after_writing-lost n (m.during book) _ b' b'' e' e'' lost'' (
          HasRaised-bind
            (or_raise (by_id version_key b.policy_version_id book.versions) value_error) _
            λ version. HasRaised-bind (results_of (adapter (request_of b version))) _ λ r.
              write_results-HasRaised m.outbox_others now b.id b.policy_version_id token r.0 r.1
                (m.during book) b'
                (subst (λ k. by_id batch_key k (m.during book).batches ≡ some b') (sym same) e')
                lost'))
