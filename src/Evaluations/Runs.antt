-- ===== src/Evaluations/Runs.antt =====
-- Runs of transactions: what each of them does to the tables.
use policy_project_managemen.Prelude.{◌≡◌, subst, Result, ok, Ensures, Ensures-ok}
use policy_project_managemen.Evaluations.Rows.{EvaluationBook, EvaluationError}
use policy_project_managemen.Evaluations.Views.{
  status_of, MachineStep, BatchMove-refines, BatchMove-IsNumbered,
}
use policy_project_managemen.Evaluations.Machine.{
  IsKept, enqueue-Commits, enqueue_for_policy-Commits, cancel-Commits, fail_claimed-Commits,
}
use policy_project_managemen.Evaluations.Confirming.{confirm-Commits}
use policy_project_managemen.Evaluations.Adjusting.{
  adjust_conclusion-Commits, select_primary_entity-Commits,
}
use policy_project_managemen.Evaluations.Writing.{claim_next-IsKept, write_results-Commits}
use policy_project_managemen.Evaluations.Transactions.{
  Step, enqueued, enqueued_for_policy, withdrawn, taken, written, given_up, approved, adjusted,
  selected, Steps, finished, then_one, IsValid,
}

-- What the answer of a call ensures, of the tables after it.
answered :
    {A : Type 0} (P : EvaluationBook → Type 0) (r : Result EvaluationError (A × EvaluationBook))
    (a : A) (book' : EvaluationBook)
    → Ensures (λ (x : A × EvaluationBook). P x.1) r
    → r ≡ ok (a, book')
    → P book'
answered P r a book' h e = Ensures-ok (λ x. P x.1) r (a, book') h e

pub Step-IsKept : (book book' : EvaluationBook) → IsValid book → Step book book' → IsKept book book'
Step-IsKept book book' v (enqueued settings version_id actor_id b e) =
    answered (IsKept book) _ b book' (enqueue-Commits settings version_id actor_id book v.entities)
      e
Step-IsKept book book' v (enqueued_for_policy settings policy_id actor_id b e) =
    answered (IsKept book) _ b book'
      (enqueue_for_policy-Commits settings policy_id actor_id book v.entities) e
Step-IsKept book book' v (withdrawn now batch_id reason actor_id b e) =
    answered (IsKept book) _ b book' (cancel-Commits now batch_id reason actor_id book v.entities) e
Step-IsKept book book' v (taken locked now token b e) =
    subst (λ r. IsKept book r.1) e
      (claim_next-IsKept locked now token book v.entities v.numbers.distinct)
Step-IsKept book book' v (written others now batch_id version_id token result provider b e) =
    answered (IsKept book) _ b book'
      (write_results-Commits others now batch_id version_id token result provider book v.entities) e
Step-IsKept book book' v (given_up now batch_id token b e) =
    answered (IsKept book) _ b book' (fail_claimed-Commits now batch_id token book v.entities) e
Step-IsKept book book' v (approved now batch_id payload actor_id c e) =
    answered (IsKept book) _ c book' (confirm-Commits now batch_id payload actor_id book v.entities)
      e
Step-IsKept book book' v (adjusted now policy_id conclusion reason actor_id d e) =
    answered (IsKept book) _ d book'
      (adjust_conclusion-Commits now policy_id conclusion reason actor_id book v.entities) e
Step-IsKept book book' v (selected now policy_id payload actor_id d e) =
    answered (IsKept book) _ d book'
      (select_primary_entity-Commits now policy_id payload actor_id book v.entities) e

pub Step-IsValid : (book book' : EvaluationBook) → IsValid book → Step book book' → IsValid book'
Step-IsValid book book' v s = record {
  entities = (Step-IsKept book book' v s).entities;
  numbers = BatchMove-IsNumbered book book' v.numbers (Step-IsKept book book' v s).move;
}

pub Steps-IsValid : (book final : EvaluationBook) → IsValid book → Steps book final → IsValid final
Steps-IsValid book final v finished = v
Steps-IsValid book final v (then_one {middle = middle} before s) =
    Step-IsValid middle final (Steps-IsValid book middle v before) s

-- A commit of the service is a step of the abstract machine.
pub Step-refines :
    (book book' : EvaluationBook)
    → IsValid book
    → Step book book'
    → MachineStep (status_of book) (status_of book')
Step-refines book book' v s =
    BatchMove-refines book book' v.numbers (Step-IsKept book book' v s).move
