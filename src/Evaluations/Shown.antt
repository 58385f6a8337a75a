-- ===== src/Evaluations/Shown.antt =====
-- What an evaluation shows: the answer of `_evaluation_snapshot` in terms of the rows.
use policy_project_managemen.Prelude.{
  ℕ, ◌≡◌, ◌↔◌, ◌⊎◌, ◌≤◌, refl, sym, ap, subst, ◌∙◌, inl, inr, Bool, true, false, Option, none, some,
  List, [], ◌∷◌, map, any, select, insert_by, sort_by, leb, ◌==◌, ==-eq, ==_self, arith, All-In,
  All-In_self, All-select, All-sort_by, In, Option-cases, Bool-cases,
}
use policy_project_managemen.Projects.Rows.{Conclusion}
use policy_project_managemen.Evaluations.Rows.{
  EvaluationStatus, awaiting_confirmation, confirmed, EvaluationBatch, EntityEvaluation,
}
use policy_project_managemen.Evaluations.Snapshots.{
  EvaluationSnapshot, high_match_threshold, is_available, reaches, rows_of_batch, row_leb,
  three_rows, snapshot_of, evaluation_snapshot,
}

module _ {A : Type 0} where
  pub In-select :
      (p : A → Bool) (a : A) (rows : List A) → p a ≡ true → In a rows → In a (select p rows)
  In-select p a [] h m = absurd m
  In-select p a (x ∷ rows) h (inl e) = rw (subst (λ y. p y ≡ true) (sym e) h) (inl e)
  In-select p a (x ∷ rows) h (inr m) = elim (Bool-cases (p x)) [
    | inl k ↦ rw k (inr (In-select p a rows h m))
    | inr k ↦ rw k (In-select p a rows h m)
  ]

  In-insert_by :
      (le : A → A → Bool) (a x : A) (rows : List A) → In a (x ∷ rows) → In a (insert_by le x rows)
  In-insert_by le a x [] m = m
  In-insert_by le a x (y ∷ rows) m = elim (Bool-cases (le x y)) [
    | inl k ↦ rw k m
    | inr k ↦ rw k (elim m [
      | inl e ↦ inr (In-insert_by le a x rows (inl e))
      | inr (inl e) ↦ inl e
      | inr (inr m) ↦ inr (In-insert_by le a x rows (inr m))
    ])
  ]

  pub In-sort_by : (le : A → A → Bool) (a : A) (rows : List A) → In a rows → In a (sort_by le rows)
  In-sort_by le a [] m = m
  In-sort_by le a (x ∷ rows) (inl e) = In-insert_by le a x (sort_by le rows) (inl e)
  In-sort_by le a (x ∷ rows) (inr m) =
      In-insert_by le a x (sort_by le rows) (inr (In-sort_by le a rows m))

  any-In : (p : A → Bool) (a : A) (rows : List A) → p a ≡ true → In a rows → any p rows ≡ true
  any-In p a [] h m = absurd m
  any-In p a (x ∷ rows) h (inl e) = rw (subst (λ y. p y ≡ true) (sym e) h) refl
  any-In p a (x ∷ rows) h (inr m) = ground (arith, any-In p a rows h m)

  In-any : (p : A → Bool) (rows : List A) → any p rows ≡ true → (a : A) × In a rows × (p a ≡ true)
  In-any p [] h = cc
  In-any p (x ∷ rows) h = elim (Bool-cases (p x)) [
    | inl k ↦ (x, inl refl, k)
    | inr k ↦ let (a, m, e) = In-any p rows (ground (arith, h, k)) in (a, inr m, e)
  ]

-- One of the rows of the batch has a score that reaches the threshold.
pub record HasHighScore (rows : List EntityEvaluation) (batch : EvaluationBatch) : Type 0 where
  pub row : EntityEvaluation
  pub stored : In row rows
  pub of_batch : row.batch_id ≡ batch.id
  pub score : ℕ
  pub scored : row.score ≡ some score
  pub reached : high_match_threshold batch ≤ score

-- What an evaluation that is available shows: its conclusion, whether one of its three entities
-- matches highly, and their levels.
pub record Shows (rows : List EntityEvaluation) (batch : EvaluationBatch) (s : EvaluationSnapshot)
    : Type 0 where
  pub available : (batch.status ≡ awaiting_confirmation) ⊎ (batch.status ≡ confirmed)
  pub concluded : batch.conclusion ≡ some s.conclusion
  pub complete : three_rows (rows_of_batch batch.id rows) ≡ true
  pub of_batch : s.batch_id ≡ batch.id
  pub threshold : s.threshold ≡ high_match_threshold batch
  pub high : (s.high_match ≡ true) ↔ HasHighScore rows batch
  pub levels :
      s.entity_match_levels
      ≡ map (λ row. (row.entity_seed_code, row.match_level)) (rows_of_batch batch.id rows)

abbrev high_row : EvaluationBatch → EntityEvaluation → Bool
high_row batch row = reaches (high_match_threshold batch) row.score

row_there :
    (rows : List EntityEvaluation) (n : ℕ) (row : EntityEvaluation)
    → In row (rows_of_batch n rows)
    → In row rows × (row.batch_id ≡ n)
unfolding rows_of_batch
row_there rows n row m =
    let there = λ (a : EntityEvaluation). In a rows × ((a.batch_id == n) ≡ true) in
    let (stored, same) =
      All-In there row (rows_of_batch n rows)
        (All-sort_by there row_leb (select (λ a. a.batch_id == n) rows)
          (All-select (λ a. In a rows) (λ a. a.batch_id == n) rows (All-In_self rows)))
        m in
    (stored, ==-eq row.batch_id n same)

reaches-parts :
    (threshold : ℕ) (score : Option ℕ)
    → reaches threshold score ≡ true
    → (n : ℕ) × (score ≡ some n) × (threshold ≤ n)
reaches-parts threshold none h = cc
reaches-parts threshold (some n) h = (n, refl, ground arith)

high-HasHighScore :
    (rows : List EntityEvaluation) (batch : EvaluationBatch)
    → any (high_row batch) (rows_of_batch batch.id rows) ≡ true
    → HasHighScore rows batch
high-HasHighScore rows batch h =
    let (row, m, high) = In-any (high_row batch) (rows_of_batch batch.id rows) h in
    let (stored, same) = row_there rows batch.id row m in
    let (score, scored, reached) = reaches-parts (high_match_threshold batch) row.score high in
    record {
      row = row;
      stored = stored;
      of_batch = same;
      score = score;
      scored = scored;
      reached = reached;
    }

HasHighScore-high :
    (rows : List EntityEvaluation) (batch : EvaluationBatch)
    → HasHighScore rows batch
    → any (high_row batch) (rows_of_batch batch.id rows) ≡ true
unfolding rows_of_batch
HasHighScore-high rows batch h =
    any-In (high_row batch) h.row (rows_of_batch batch.id rows)
      (rw h.scored (leb_true (high_match_threshold batch) h.score h.reached))
      (In-sort_by row_leb h.row (select (λ a. a.batch_id == batch.id) rows) (
        In-select (λ a. a.batch_id == batch.id) h.row rows
          (subst (λ n. (n == batch.id) ≡ true) (sym h.of_batch) (==_self batch.id)) h.stored))
  where
    leb_true : (m n : ℕ) → m ≤ n → leb m n ≡ true
    leb_true m n le = ground arith

available_parts :
    (s : EvaluationStatus) → is_available s ≡ true → (s ≡ awaiting_confirmation) ⊎ (s ≡ confirmed)
available_parts s h = ground arith

abbrev shown : List EntityEvaluation → EvaluationBatch → Conclusion → EvaluationSnapshot
shown rows batch conclusion = record {
  batch_id = batch.id;
  conclusion = conclusion;
  high_match = any (high_row batch) (rows_of_batch batch.id rows);
  threshold = high_match_threshold batch;
  entity_match_levels =
      map (λ row. (row.entity_seed_code, row.match_level)) (rows_of_batch batch.id rows);
}

module _ (rows : List EntityEvaluation) (batch : EvaluationBatch) where
  snapshot-shown :
      (conclusion : Conclusion)
      → batch.conclusion ≡ some conclusion
      → is_available batch.status ≡ true
      → three_rows (rows_of_batch batch.id rows) ≡ true
      → evaluation_snapshot rows batch ≡ some (shown rows batch conclusion)
  unfolding evaluation_snapshot snapshot_of high_match_threshold
  snapshot-shown conclusion concluded available complete =
      rw (concluded, available, complete, evaluation_snapshot) refl

  snapshot-missing : batch.conclusion ≡ none → evaluation_snapshot rows batch ≡ none
  unfolding evaluation_snapshot
  snapshot-missing e = rw (e, evaluation_snapshot) refl

  snapshot-unavailable :
      (conclusion : Conclusion)
      → batch.conclusion ≡ some conclusion
      → is_available batch.status ≡ false
      → evaluation_snapshot rows batch ≡ none
  unfolding evaluation_snapshot
  snapshot-unavailable conclusion concluded e = rw (concluded, e, evaluation_snapshot) refl

  snapshot-incomplete :
      (conclusion : Conclusion)
      → batch.conclusion ≡ some conclusion
      → is_available batch.status ≡ true
      → three_rows (rows_of_batch batch.id rows) ≡ false
      → evaluation_snapshot rows batch ≡ none
  unfolding evaluation_snapshot snapshot_of
  snapshot-incomplete conclusion concluded available e =
      rw (concluded, available, e, evaluation_snapshot) refl

  shown-Shows :
      (conclusion : Conclusion)
      → batch.conclusion ≡ some conclusion
      → is_available batch.status ≡ true
      → three_rows (rows_of_batch batch.id rows) ≡ true
      → Shows rows batch (shown rows batch conclusion)
  shown-Shows conclusion concluded available complete = record {
    available = available_parts batch.status available;
    concluded = concluded;
    complete = complete;
    of_batch = refl;
    threshold = refl;
    high = (high-HasHighScore rows batch, HasHighScore-high rows batch);
    levels = refl;
  }

  -- `_evaluation_snapshot` answers with what the evaluation shows.
  pub evaluation_snapshot-Shows :
      (s : EvaluationSnapshot) → evaluation_snapshot rows batch ≡ some s → Shows rows batch s
  evaluation_snapshot-Shows s e = elim (Option-cases batch.conclusion) [
    | inl missing ↦ cc (e, snapshot-missing missing)
    | inr (c, concluded) ↦ elim (Bool-cases (is_available batch.status)) [
      | inr other ↦ cc (e, snapshot-unavailable c concluded other)
      | inl available ↦ elim (Bool-cases (three_rows (rows_of_batch batch.id rows))) [
        | inr other ↦ cc (e, snapshot-incomplete c concluded available other)
        | inl complete ↦
            subst (Shows rows batch)
              (some_inj (sym (snapshot-shown c concluded available complete) ∙ e))
              (shown-Shows c concluded available complete)
      ]
    ]
  ]
    where
      some_inj : {a b : EvaluationSnapshot} → some a ≡ some b → a ≡ b
      some_inj h = cc

  same_shown : (s : EvaluationSnapshot) → Shows rows batch s → shown rows batch s.conclusion ≡ s
  same_shown s h = cc (
    sym h.of_batch,
    sym h.threshold,
    sym h.levels,
    same_high (any (high_row batch) (rows_of_batch batch.id rows)) s.high_match
        (λ k. h.high.1 (high-HasHighScore rows batch k))
        (λ k. HasHighScore-high rows batch (h.high.0 k)),
  )
    where
      same_high : (a b : Bool) → (a ≡ true → b ≡ true) → (b ≡ true → a ≡ true) → a ≡ b
      same_high true b f g = sym (f refl)
      same_high false true f g = g refl
      same_high false false f g = refl

  pub Shows-evaluation_snapshot :
      (s : EvaluationSnapshot) → Shows rows batch s → evaluation_snapshot rows batch ≡ some s
  Shows-evaluation_snapshot s h =
      snapshot-shown s.conclusion h.concluded (is_one batch.status h.available) h.complete
      ∙ ap some (same_shown s h)
    where
      is_one :
          (t : EvaluationStatus)
          → (t ≡ awaiting_confirmation) ⊎ (t ≡ confirmed)
          → is_available t ≡ true
      is_one t h = ground arith
