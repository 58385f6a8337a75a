-- ===== src/Evaluations/Transactions.antt =====
-- The service as a transition system: each transaction is a step of the tables, in any order.
use policy_project_managemen.Prelude.{ℕ, ◌≡◌, Bool, Option, ok, String}
use policy_project_managemen.Notifications.Service.{Sessions}
use policy_project_managemen.Projects.Rows.{Conclusion, PrimaryEntityDecision}
use policy_project_managemen.Evaluations.Rows.{
  EvaluationBatch, EvaluationBook, EvaluationConfirmation, EvaluationConfirmationInput,
  EvaluationResult, EvaluationProviderResult, PolicyConclusionDecision, PrimaryEntityInput,
}
use policy_project_managemen.Evaluations.Queue.{
  Settings, enqueue, enqueue_for_policy, cancel, claim_next,
}
use policy_project_managemen.Evaluations.Writes.{fail_claimed, write_results}
use policy_project_managemen.Evaluations.Decisions.{confirm}
use policy_project_managemen.Evaluations.Adjustments.{adjust_conclusion, select_primary_entity}
use policy_project_managemen.Evaluations.Secured.{HasEntitiesIn}
use policy_project_managemen.Evaluations.Views.{IsNumbered}

-- The tables: each confirmed recommendation with its entity, and batches with numbers of their own.
pub record IsValid (book : EvaluationBook) : Type 0 where
  pub entities : HasEntitiesIn book
  pub numbers : IsNumbered book

-- A transaction that commits.
pub data Step : EvaluationBook → EvaluationBook → Type 0 where
  enqueued :
      {book book' : EvaluationBook} (settings : Settings) (version_id : ℕ) (actor_id : Option ℕ)
      (b : EvaluationBatch)
      → enqueue settings version_id actor_id book ≡ ok (b, book')
      → Step book book'
  enqueued_for_policy :
      {book book' : EvaluationBook} (settings : Settings) (policy_id : ℕ) (actor_id : Option ℕ)
      (b : EvaluationBatch)
      → enqueue_for_policy settings policy_id actor_id book ≡ ok (b, book')
      → Step book book'
  withdrawn :
      {book book' : EvaluationBook} (now batch_id : ℕ) (reason : Option String) (actor_id : ℕ)
      (b : EvaluationBatch)
      → cancel now batch_id reason actor_id book ≡ ok (b, book')
      → Step book book'
  taken :
      {book book' : EvaluationBook} (locked : ℕ → Bool) (now : ℕ) (token : String)
      (b : Option EvaluationBatch)
      → claim_next locked now token book ≡ (b, book')
      → Step book book'
  written :
      {book book' : EvaluationBook} (others : Sessions) (now batch_id version_id : ℕ)
      (token : String) (result : EvaluationResult) (provider : Option EvaluationProviderResult)
      (b : EvaluationBatch)
      → write_results others now batch_id version_id token result provider book ≡ ok (b, book')
      → Step book book'
  given_up :
      {book book' : EvaluationBook} (now batch_id : ℕ) (token : String) (b : EvaluationBatch)
      → fail_claimed now batch_id token book ≡ ok (b, book')
      → Step book book'
  approved :
      {book book' : EvaluationBook} (now batch_id : ℕ) (payload : EvaluationConfirmationInput)
      (actor_id : ℕ) (c : EvaluationConfirmation)
      → confirm now batch_id payload actor_id book ≡ ok (c, book')
      → Step book book'
  adjusted :
      {book book' : EvaluationBook} (now policy_id : ℕ) (conclusion : Conclusion) (reason : String)
      (actor_id : ℕ) (d : PolicyConclusionDecision)
      → adjust_conclusion now policy_id conclusion reason actor_id book ≡ ok (d, book')
      → Step book book'
  selected :
      {book book' : EvaluationBook} (now policy_id : ℕ) (payload : PrimaryEntityInput)
      (actor_id : ℕ) (d : PrimaryEntityDecision)
      → select_primary_entity now policy_id payload actor_id book ≡ ok (d, book')
      → Step book book'

-- Transactions, one after the other.
pub data Steps : EvaluationBook → EvaluationBook → Type 0 where
  finished : {book : EvaluationBook} → Steps book book
  then_one :
      {book middle final : EvaluationBook}
      → Steps book middle
      → Step middle final
      → Steps book final
