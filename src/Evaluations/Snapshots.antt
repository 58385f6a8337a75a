-- ===== src/Evaluations/Snapshots.antt =====
-- What an evaluation is compared by: `_evaluation_snapshot` and
-- `_previous_evaluation_snapshot` (backend/app/modules/notifications/events.py).
use policy_project_managemen.Prelude.{
  ℕ, String, Bool, true, false, ◌&&◌, ◌||◌, Option, none, some, List, [], ◌∷◌, map, by_id, any,
  select, sort_by, ltb, leb, ◌==◌, if◌then◌else◌,
}
use policy_project_managemen.Prelude.Text.{text_leb}
use policy_project_managemen.Projects.Rows.{Conclusion}
use policy_project_managemen.Evaluations.Rows.{
  EvaluationStatus, awaiting_confirmation, confirmed, evaluation_status_eq, MatchLevel,
  EvaluationBatch, EntityEvaluation, PolicyVersion, EvaluationBook, version_key,
}

pub record EvaluationSnapshot : Type 0 where
  pub batch_id : ℕ
  pub conclusion : Conclusion
  pub high_match : Bool
  pub threshold : ℕ
  -- by the seed code
  pub entity_match_levels : List (String × MatchLevel)

-- `_high_match_threshold`
unfoldable pub high_match_threshold : EvaluationBatch → ℕ
high_match_threshold batch = elim batch.rule_snapshot [
  | none ↦ 80
  | some snapshot ↦
      if leb snapshot.high_match_score_threshold 100
      then snapshot.high_match_score_threshold
      else 80
]

-- `status in AVAILABLE_EVALUATION_STATUSES`
abbrev pub is_available : EvaluationStatus → Bool
is_available status =
    evaluation_status_eq status awaiting_confirmation || evaluation_status_eq status confirmed

abbrev pub row_leb : EntityEvaluation → EntityEvaluation → Bool
row_leb a b = text_leb a.entity_seed_code b.entity_seed_code

-- The rows of the batch, by their seed code.
unfoldable pub rows_of_batch : ℕ → List EntityEvaluation → List EntityEvaluation
rows_of_batch n rows = sort_by row_leb (select (λ row. row.batch_id == n) rows)

-- `len(entities) == 3`
abbrev pub three_rows : List EntityEvaluation → Bool
three_rows (_ ∷ _ ∷ _ ∷ []) = true
three_rows _ = false

-- `entity.score is not None and entity.score >= threshold`
abbrev pub reaches : ℕ → Option ℕ → Bool
reaches threshold none = false
reaches threshold (some score) = leb threshold score

unfoldable pub snapshot_of :
    EvaluationBatch → Conclusion → List EntityEvaluation → Option EvaluationSnapshot
snapshot_of batch conclusion entities =
    if three_rows entities
    then some (record {
      batch_id = batch.id;
      conclusion = conclusion;
      high_match = any (λ row. reaches (high_match_threshold batch) row.score) entities;
      threshold = high_match_threshold batch;
      entity_match_levels = map (λ row. (row.entity_seed_code, row.match_level)) entities;
    })
    else none

-- `_evaluation_snapshot`
unfoldable pub evaluation_snapshot :
    List EntityEvaluation → EvaluationBatch → Option EvaluationSnapshot
unfolding snapshot_of
evaluation_snapshot rows batch = elim batch.conclusion [
  | none ↦ none
  | some conclusion ↦
      if is_available batch.status
      then snapshot_of batch conclusion (rows_of_batch batch.id rows)
      else none
]

abbrev pub version_policy : ℕ → List PolicyVersion → Option ℕ
version_policy n versions = elim (by_id version_key n versions) [
  | none ↦ none
  | some v ↦ some v.policy_id
]

abbrev pub opt_is : Option ℕ → ℕ → Bool
opt_is none n = false
opt_is (some m) n = m == n

-- `EvaluationBatch.id < batch.id` and the rest of the query, in descending order of the ids
unfoldable pub candidates : EvaluationBatch → ℕ → EvaluationBook → List EvaluationBatch
candidates batch policy_id book =
    sort_by (λ a b. leb b.id a.id)
      (select
        (λ b.
          opt_is (version_policy b.policy_version_id book.versions) policy_id
          && ltb b.id batch.id
          && is_available b.status)
        book.batches)

unfoldable pub first_snapshot :
    List EntityEvaluation → List EvaluationBatch → Option EvaluationSnapshot
first_snapshot rows [] = none
first_snapshot rows (b ∷ batches) =
    let rest = first_snapshot rows batches in
    elim (evaluation_snapshot rows b) [ none ↦ rest | some snapshot ↦ some snapshot ]

-- `_previous_evaluation_snapshot`
unfoldable pub previous_evaluation_snapshot :
    EvaluationBatch → ℕ → EvaluationBook → Option EvaluationSnapshot
previous_evaluation_snapshot batch policy_id book =
    first_snapshot book.entity_evaluations (candidates batch policy_id book)
