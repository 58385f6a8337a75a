-- ===== src/Evaluations/Latest.antt =====
-- The first of a list of evaluations in descending order that shows something.
use policy_project_managemen.Prelude.{
  ◌≡◌, ◌⊎◌, ◌≤◌, refl, inl, inr, Bool, none, some, List, [], ◌∷◌, insert_by, sort_by, leb, arith,
  All, All-map, All-insert_by, In, Option-cases, Bool-cases,
}
use policy_project_managemen.Evaluations.Rows.{EvaluationBatch, EntityEvaluation}
use policy_project_managemen.Evaluations.Snapshots.{
  EvaluationSnapshot, evaluation_snapshot, first_snapshot,
}

abbrev pub later_first : EvaluationBatch → EvaluationBatch → Bool
later_first a b = leb b.id a.id

-- Each row before those with lower ids.
abbrev pub IsDescending : List EvaluationBatch → Type 0
IsDescending [] = Unit
IsDescending (b ∷ rows) = All (λ c. c.id ≤ b.id) rows × IsDescending rows

insert_by-IsDescending :
    (b : EvaluationBatch) (rows : List EvaluationBatch)
    → IsDescending rows
    → IsDescending (insert_by later_first b rows)
insert_by-IsDescending b [] h = (tt, tt)
insert_by-IsDescending b (c ∷ rows) h = elim (Bool-cases (later_first b c)) [
  | inl k ↦
      let le : c.id ≤ b.id = ground arith in
      rw k (
        (
          le,
          All-map (λ (d : EvaluationBatch). d.id ≤ c.id) (λ d. d.id ≤ b.id) rows
              (λ d m. omega (arith, le, m)) h.0,
        ),
        h,
      )
  | inr k ↦ rw k (
    All-insert_by (λ (d : EvaluationBatch). d.id ≤ c.id) later_first b rows (ground arith) h.0,
    insert_by-IsDescending b rows h.1,
  )
]

pub sort_by-IsDescending : (rows : List EvaluationBatch) → IsDescending (sort_by later_first rows)
sort_by-IsDescending [] = tt
sort_by-IsDescending (b ∷ rows) =
    insert_by-IsDescending b (sort_by later_first rows) (sort_by-IsDescending rows)

module _ (rows : List EntityEvaluation) where
  -- The first of the list that shows something, and those that show something are not later.
  pub record IsFirst (batches : List EvaluationBatch) (s : EvaluationSnapshot) : Type 0 where
    pub batch : EvaluationBatch
    pub listed : In batch batches
    pub found : evaluation_snapshot rows batch ≡ some s
    pub last : All (λ b. (b.id ≤ batch.id) ⊎ (evaluation_snapshot rows b ≡ none)) batches

  pub first_snapshot-IsFirst :
      (batches : List EvaluationBatch) (s : EvaluationSnapshot)
      → IsDescending batches
      → first_snapshot rows batches ≡ some s
      → IsFirst batches s
  unfolding first_snapshot
  first_snapshot-IsFirst [] s d e = cc
  first_snapshot-IsFirst (b ∷ batches) s d e = elim (Option-cases (evaluation_snapshot rows b)) [
    | inr (t, k) ↦ record {
      batch = b;
      listed = inl refl;
      found = ground (arith, e, k);
      last = (
        inl (omega arith),
        All-map (λ (c : EvaluationBatch). c.id ≤ b.id) _ batches (λ c m. inl m) d.0,
      );
    }
    | inl k ↦
        let rest = first_snapshot-IsFirst batches s d.1 (ground (arith, e, k)) in
        record {
          batch = rest.batch;
          listed = inr rest.listed;
          found = rest.found;
          last = (inr k, rest.last);
        }
  ]

  pub first_snapshot-none :
      (batches : List EvaluationBatch)
      → first_snapshot rows batches ≡ none
      → All (λ b. evaluation_snapshot rows b ≡ none) batches
  unfolding first_snapshot
  first_snapshot-none [] e = tt
  first_snapshot-none (b ∷ batches) e = elim (Option-cases (evaluation_snapshot rows b)) [
    | inr (t, k) ↦ cc (e, k)
    | inl k ↦ (k, first_snapshot-none batches (ground (arith, e, k)))
  ]
