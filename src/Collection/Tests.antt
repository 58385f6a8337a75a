-- ===== src/Collection/Tests.antt =====
-- The theorem on collection tasks at one source.
use policy_project_managemen.Prelude.{
  ℕ, List, map, select, ◌≡◌, refl, true, false, some, [], ◌∷◌, Result, ok, err,
}
use policy_project_managemen.Notifications.Service.{read_committed, repeatable_read, alone}
use policy_project_managemen.Notifications.Service.History.{empty_outbox}
use policy_project_managemen.SourceHealth.{
  ready, PolicySource, CollectionTask, record_source_task_outcome, counted, count_task, notified,
}
use policy_project_managemen.Collection.{
  is_active_of, collection_already_running, CollectionBook, CollectionError, assert_collectable,
  create, new_task, claim_task, started, finish_from_items, finish_task, finished_task, count_items,
  outcome_of,
}
use policy_project_managemen.Collection.Exclusive.{
  IsExclusive, nothing, then_step, created, claimed, ended, run-IsExclusive,
}

abbrev gazette : PolicySource
gazette = record {
  id = 4;
  name = "Gazette";
  adapter_key = some "gdii";
  adapter_status = ready;
  is_enabled = true;
}

abbrev empty_book : CollectionBook
empty_book = record {
  tasks = [];
  items = [];
  next_task_id = 1;
  health = record { sources = gazette ∷ []; states = []; outbox = empty_outbox };
}

empty_book-IsExclusive : IsExclusive empty_book
empty_book-IsExclusive = record { distinct = tt; numbered = tt }

abbrev book_of : Result CollectionError (CollectionTask × CollectionBook) → CollectionBook
book_of (ok r) = r.1
book_of (err e) = empty_book

abbrev created_book : CollectionBook
created_book = book_of (create repeatable_read empty_book 10 4 "manual" (some 1) empty_book)

abbrev claimed_book : CollectionBook
claimed_book = (claim_task (λ n. false) 20 created_book).1

abbrev ended_book : CollectionBook
ended_book = book_of (finish_from_items alone 30 1 1 claimed_book)

created_run :
    create repeatable_read empty_book 10 4 "manual" (some 1) empty_book
    ≡ ok (new_task 10 1 4 "manual" (some 1), created_book)
unfolding create assert_collectable new_task
created_run = refl

abbrev active_ids : CollectionBook → List ℕ
active_ids book = map (λ t. t.id) (select (is_active_of 4) book.tasks)

-- A second creation whose transaction started before the first one committed: under repeatable
-- reads both tasks are there, otherwise the second is refused.
second_creation :
    (active_ids (book_of (create repeatable_read empty_book 11 4 "manual" (some 2) created_book))
      ≡ 1 ∷ 2 ∷ [])
    × (create read_committed empty_book 11 4 "manual" (some 2) created_book
        ≡ err collection_already_running)
unfolding create assert_collectable new_task
second_creation = (refl, refl)

ended_run :
    finish_from_items alone 30 1 1 claimed_book
    ≡ ok (finished_task 30 1 [] (started 20 (new_task 10 1 4 "manual" (some 1))), ended_book)
unfolding create assert_collectable new_task claim_task started finish_from_items finish_task
    finished_task count_items outcome_of record_source_task_outcome count_task counted notified
ended_run = refl

run-IsExclusive_example : IsExclusive ended_book
run-IsExclusive_example = run-IsExclusive empty_book ended_book empty_book-IsExclusive (
    then_step
      (then_step
        (then_step nothing (
          created repeatable_read empty_book 10 4 "manual" (some 1)
            (new_task 10 1 4 "manual" (some 1)) refl created_run))
        (claimed (λ n. false) 20 (claim_task (λ n. false) 20 created_book).0 refl))
      (ended alone 30 1 1 (finished_task 30 1 [] (started 20 (new_task 10 1 4 "manual" (some 1))))
        ended_run))
