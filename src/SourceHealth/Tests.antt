-- ===== src/SourceHealth/Tests.antt =====
-- The theorems on source health at a source with two failures in a row.
use policy_project_managemen.Prelude.{refl, true, none, some, [], ◌∷◌}
use policy_project_managemen.Notifications.Service.{alone}
use policy_project_managemen.Notifications.Service.History.{empty_outbox}
use policy_project_managemen.SourceHealth.{
  failed, ready, PolicySource, CollectionTask, SourceHealthState, HealthBook, episode_key,
  record_source_task_outcome,
}
use policy_project_managemen.SourceHealth.Once.{IsSettled, outcome_counted_once}
use policy_project_managemen.SourceHealth.Third.{IsNotified, third_failure-IsNotified}

abbrev gazette : PolicySource
gazette = record {
  id = 4;
  name = "Gazette";
  adapter_key = some "gdii";
  adapter_status = ready;
  is_enabled = true;
}

abbrev failing : SourceHealthState
failing = record {
  source_id = 4;
  consecutive_failure_count = 2;
  episode_started_task_id = some 10;
  last_processed_task_id = some 11;
}

abbrev third_task : CollectionTask
third_task = record {
  id = 12;
  source_id = 4;
  trigger_type = "manual";
  status = failed;
  requested_by = none;
  created_at = 70;
  started_at = some 80;
  finished_at = some 90;
  discovered_count = 1;
  succeeded_count = 0;
  failed_count = 1;
  error_message = none;
}

abbrev book : HealthBook
book = record { sources = gazette ∷ []; states = failing ∷ []; outbox = empty_outbox }

outcome_counted_once_example :
    IsSettled alone 200 third_task (record_source_task_outcome alone 100 third_task book)
outcome_counted_once_example = outcome_counted_once alone alone 100 200 third_task book

third_failure-IsNotified_example :
    IsNotified (episode_key 4 10) (record_source_task_outcome alone 100 third_task book)
third_failure-IsNotified_example =
    third_failure-IsNotified alone 100 third_task book gazette failing 10 refl refl refl refl refl
      refl refl refl
