-- ===== src/Evaluations/Tests.antt =====
-- The theorems on evaluations at small tables.
use policy_project_managemen.Prelude.{
  List, ◌≡◌, ◌↔◌, refl, false, some, none, [], Ensures, Result, ok, err, arith,
}
use policy_project_managemen.Evaluations.Shown.{evaluation_snapshot-Shows}
use policy_project_managemen.Notifications.Service.{alone}
use policy_project_managemen.Prelude.Text.{text_leb}
use policy_project_managemen.Projects.Rows.{Ledger}
use policy_project_managemen.Projects.Conversion.{ProjectCreateInput, convert_policy}
use policy_project_managemen.Projects.Samples.{owner, ledger, moment}
use policy_project_managemen.Evaluations.Rows.{
  EntityEvaluation, confirmed, running, EvaluationBatch, EvaluationBook, EvaluationError,
  EvaluationConfirmation,
}
use policy_project_managemen.Evaluations.Values.{values_eq, entity_eq, normalized, stripped_reason}
use policy_project_managemen.Evaluations.Events.{
  changed_fields, subject_changes, event_of_changes, evaluation_notification_event,
}
use policy_project_managemen.Evaluations.Snapshots.{
  previous_evaluation_snapshot, candidates, first_snapshot, snapshot_of, rows_of_batch,
  high_match_threshold, evaluation_snapshot,
}
use policy_project_managemen.Evaluations.Queue.{cancel, cancelled_batch, claim_next}
use policy_project_managemen.Evaluations.Processing.{Meanwhile, process_claimed}
use policy_project_managemen.Evaluations.Writes.{evaluated, write_results}
use policy_project_managemen.Evaluations.Decisions.{
  confirm, confirm_batch, confirm_first, with_confirmation, append_conclusion_decision,
  new_confirmation, confirmed_batch, confirmed_policy, projected_policy,
}
use policy_project_managemen.Evaluations.Primaries.{
  primary_choice, choose_primary, store_choice, replace_decision, add_decision,
}
use policy_project_managemen.Evaluations.Samples.{
  recommendation, waiting_book, running_book, evaluated_sample, evaluated_sample_book, snapshot,
  payload, batch_in, subsidy, version,
}
use policy_project_managemen.Evaluations.Views.{MachineStep, status_of}
use policy_project_managemen.Evaluations.Transactions.{
  Steps, finished, then_one, approved, taken, IsValid,
}
use policy_project_managemen.Evaluations.Runs.{Steps-IsValid, Step-refines}
use policy_project_managemen.Evaluations.Finality.{Steps-final, Steps-was_awaiting, WasAwaiting}
use policy_project_managemen.Evaluations.Convertible.{HasEntity, convert_after_evaluation}
use policy_project_managemen.Evaluations.Settling.{Settles, process_claimed-Settles}
use policy_project_managemen.Evaluations.LostClaims.{LeavesTables, process_claimed-lost, HasRaised}
use policy_project_managemen.Evaluations.Cancelling.{cancel-refuses_results}
use mathlib.Core.List.{Permᴰ, ◌∷◌}
use policy_project_managemen.Evaluations.Reordering.{SameConfirmation}
use policy_project_managemen.Evaluations.Samples.{result_for}
use policy_project_managemen.Evaluations.Rows.{EvaluationConfirmationInput}
use policy_project_managemen.Evaluations.Idempotence.{Repeats, confirm-Repeats}
use policy_project_managemen.Evaluations.Changes.{IsRepeated, evaluation_notification_event_iff}

waiting_book-IsValid : IsValid waiting_book
waiting_book-IsValid = record {
  entities = record { one_current = tt; secured = (refl, tt) };
  numbers = record {
    distinct = ((ground arith, tt), (tt, tt));
    numbered = (ground arith, (ground arith, tt));
  };
}

abbrev answer_of : Result EvaluationError (EvaluationConfirmation × EvaluationBook) → EvaluationBook
answer_of (ok r) = r.1
answer_of (err e) = waiting_book

-- The tables after the confirmation.
abbrev confirmed_book : EvaluationBook
confirmed_book = answer_of (confirm 20 1 payload 9 waiting_book)

confirmed_run :
    confirm 20 1 payload 9 waiting_book ≡ ok (new_confirmation 20 1 9 payload, confirmed_book)
unfolding confirm confirm_batch confirm_first primary_choice choose_primary store_choice
    replace_decision add_decision with_confirmation append_conclusion_decision new_confirmation
    confirmed_batch confirmed_policy projected_policy values_eq entity_eq normalized stripped_reason
    text_leb
confirmed_run = refl

abbrev run : Steps waiting_book confirmed_book
run = then_one finished (approved 20 1 payload 9 (new_confirmation 20 1 9 payload) confirmed_run)

confirmed_status : status_of confirmed_book 1 ≡ some confirmed
unfolding confirm confirm_batch confirm_first primary_choice choose_primary store_choice
    replace_decision add_decision with_confirmation append_conclusion_decision new_confirmation
    confirmed_batch confirmed_policy projected_policy values_eq entity_eq normalized stripped_reason
    text_leb
confirmed_status = refl

Steps-IsValid_example : IsValid confirmed_book
Steps-IsValid_example = Steps-IsValid waiting_book confirmed_book waiting_book-IsValid run

Step-refines_example : MachineStep (status_of waiting_book) (status_of confirmed_book)
Step-refines_example =
    Step-refines waiting_book confirmed_book waiting_book-IsValid
      (approved 20 1 payload 9 (new_confirmation 20 1 9 payload) confirmed_run)

Steps-was_awaiting_example : WasAwaiting waiting_book confirmed_book 1
Steps-was_awaiting_example =
    Steps-was_awaiting waiting_book confirmed_book 1 waiting_book-IsValid run (λ e. ground arith)
      confirmed_status

-- The other batch is claimed after the confirmation.
abbrev later_book : EvaluationBook
later_book = (claim_next (λ n. false) 30 "other" confirmed_book).1

abbrev later_run : Steps confirmed_book later_book
later_run =
    then_one finished
      (taken (λ n. false) 30 "other" (claim_next (λ n. false) 30 "other" confirmed_book).0 refl)

Steps-final_example : status_of later_book 1 ≡ some confirmed
Steps-final_example =
    Steps-final confirmed_book later_book 1 confirmed
      (Steps-IsValid waiting_book confirmed_book waiting_book-IsValid run) later_run refl
      confirmed_status

abbrev create_input : ProjectCreateInput
create_input = record { name = none; liaison_user_id = 2; member_user_ids = []; deadline_on = none }

abbrev confirmed_ledger : Ledger
confirmed_ledger = record ledger {
  policies = confirmed_book.policies;
  decisions = confirmed_book.decisions;
}

convert_after_evaluation_example :
    HasEntity
      (convert_policy (λ r. "digest") moment (λ l. l) 7 create_input "key" owner confirmed_ledger)
convert_after_evaluation_example =
    convert_after_evaluation moment (λ l. l) owner (λ r. "digest") 7 create_input "key"
      confirmed_ledger waiting_book confirmed_book waiting_book-IsValid run refl refl

abbrev undisturbed : Meanwhile
undisturbed = record {
  after_claim = λ book. book;
  during = λ book. book;
  before_failure = λ book. book;
  outbox_others = alone;
}

process_claimed-Settles_example :
    Settles "token"
      (process_claimed undisturbed (λ r. evaluated recommendation) 20 1 "token" running_book)
process_claimed-Settles_example =
    process_claimed-Settles undisturbed (λ r. evaluated recommendation) 20 "token" 1 running_book
      (batch_in 1 running) (batch_in 1 running) (batch_in 1 running) refl refl refl

abbrev book_of :
    EvaluationBook → Result EvaluationError (EvaluationBatch × EvaluationBook) → EvaluationBook
book_of book (ok r) = r.1
book_of book (err e) = book

-- The batch is cancelled while the adapter works.
abbrev cancelled_during : Meanwhile
cancelled_during = record {
  after_claim = λ book. book;
  during = λ book. book_of book (cancel 15 1 none 9 book);
  before_failure = λ book. book;
  outbox_others = alone;
}

process_claimed-lost_example :
    LeavesTables
      (cancelled_during.during running_book)
      (cancelled_during.during running_book)
      (process_claimed cancelled_during (λ r. evaluated recommendation) 20 1 "token" running_book)
unfolding cancel cancelled_batch
process_claimed-lost_example =
    process_claimed-lost cancelled_during 20 "token" (λ r. evaluated recommendation) 1 running_book
      (batch_in 1 running) (cancelled_batch 15 none 9 (batch_in 1 running))
      (cancelled_batch 15 none 9 (batch_in 1 running)) refl refl refl refl refl refl

cancel-refuses_results_example :
    Ensures
      (λ r. HasRaised (write_results alone 20 1 5 "token" recommendation none r.1))
      (cancel 15 1 none 9 running_book)
cancel-refuses_results_example =
    cancel-refuses_results 15 1 none 9 running_book alone 20 5 "token" recommendation none

-- The same confirmation, with two entities the other way round and a reason.
abbrev repeated : EvaluationConfirmationInput
repeated = record payload {
  values = record recommendation {
    entities =
        result_for "ENTITY-SUZHOU"
        ∷ result_for "ENTITY-BEIJING"
        ∷ result_for "ENTITY-SHENZHEN"
        ∷ [];
  };
  change_reason = some "Again";
}

repeated-SameConfirmation : SameConfirmation payload repeated
repeated-SameConfirmation = record {
  conclusion = refl;
  summary = refl;
  key_conditions = refl;
  entities = Permᴰ.swap refl refl;
  distinct = ((λ e. cc, (λ e. cc, tt)), ((λ e. cc, tt), (tt, tt)));
  primary_entity_seed_code = refl;
}

confirm-Repeats_example : Ensures (Repeats 40 1 8 repeated) (confirm 20 1 payload 9 waiting_book)
confirm-Repeats_example =
    confirm-Repeats 20 40 payload repeated repeated-SameConfirmation 9 8 waiting_book
      waiting_book-IsValid.entities 1

abbrev sample_rows : List EntityEvaluation
sample_rows = evaluated_sample_book.entity_evaluations

-- The evaluation before it says the same, so that there is nothing to notify.
repeated_silent : evaluation_notification_event evaluated_sample evaluated_sample_book ≡ ok none
unfolding evaluation_notification_event evaluation_snapshot snapshot_of rows_of_batch
    high_match_threshold text_leb previous_evaluation_snapshot candidates first_snapshot
    changed_fields subject_changes event_of_changes
repeated_silent = refl

evaluation_notification_event_iff_example :
    (evaluation_notification_event evaluated_sample evaluated_sample_book ≡ ok none)
    ↔ IsRepeated evaluated_sample 7 snapshot evaluated_sample_book
unfolding evaluation_snapshot snapshot_of rows_of_batch high_match_threshold text_leb
evaluation_notification_event_iff_example =
    evaluation_notification_event_iff evaluated_sample subsidy snapshot evaluated_sample_book
      version ((omega arith, (omega arith, tt)), ((omega arith, tt), (tt, tt)))
      (evaluation_snapshot-Shows sample_rows evaluated_sample snapshot refl) refl refl
