-- ===== src/Evaluations/Previous.antt =====
-- Which evaluation is the one before another: the answer of `_previous_evaluation_snapshot` in terms
-- of the rows.
use policy_project_managemen.Prelude.{
  and_parts, ℕ, ◌≡◌, ◌⊎◌, ◌≤◌, ◌<◌, sym, subst, ◌∙◌, inl, inr, Bool, true, ◌&&◌, Option, none, some,
  List, by_id, select, leb, ltb, ==-eq, ==_self, arith, All, All-map, All-In, All-In_self,
  All-select, All-sort_by, In, In-same_id, Distinct, Option-cases, Bool-cases,
}
use policy_project_managemen.Evaluations.Rows.{
  EvaluationStatus, awaiting_confirmation, confirmed, EvaluationBatch, PolicyVersion,
  EvaluationBook, batch_key, version_key,
}
use policy_project_managemen.Evaluations.Snapshots.{
  EvaluationSnapshot, is_available, evaluation_snapshot, version_policy, opt_is, candidates,
  previous_evaluation_snapshot,
}
use policy_project_managemen.Evaluations.Writing.{BatchApart}
use policy_project_managemen.Evaluations.Shown.{
  Shows, In-select, In-sort_by, evaluation_snapshot-Shows, Shows-evaluation_snapshot,
}
use policy_project_managemen.Evaluations.Latest.{
  IsDescending, IsFirst, first_snapshot-IsFirst, first_snapshot-none, later_first,
  sort_by-IsDescending,
}

-- The batch evaluates a version of the policy and comes before the other batch.
pub record IsEarlier (batch : EvaluationBatch) (policy_id : ℕ) (book : EvaluationBook)
    (b : EvaluationBatch) : Type 0 where
  pub stored : In b book.batches
  pub version : PolicyVersion
  pub versioned : by_id version_key b.policy_version_id book.versions ≡ some version
  pub of_policy : version.policy_id ≡ policy_id
  pub before : b.id < batch.id

-- An earlier evaluation that is available, with what it shows.
pub record IsCandidate (batch : EvaluationBatch) (policy_id : ℕ) (book : EvaluationBook)
    (b : EvaluationBatch) : Type 0 where
  pub earlier : IsEarlier batch policy_id book b
  pub snapshot : EvaluationSnapshot
  pub shows : Shows book.entity_evaluations b snapshot

-- The latest of the earlier evaluations that are available.
pub record IsPrevious (batch : EvaluationBatch) (policy_id : ℕ) (book : EvaluationBook)
    (s : EvaluationSnapshot) : Type 0 where
  pub before : EvaluationBatch
  pub earlier : IsEarlier batch policy_id book before
  pub shows : Shows book.entity_evaluations before s
  pub latest : All (λ b. (b.id ≤ before.id) ⊎ ¬ IsCandidate batch policy_id book b) book.batches

abbrev passes : EvaluationBatch → ℕ → EvaluationBook → EvaluationBatch → Bool
passes batch policy_id book b =
    opt_is (version_policy b.policy_version_id book.versions) policy_id
    && ltb b.id batch.id
    && is_available b.status

module _ (batch : EvaluationBatch) (policy_id : ℕ) (book : EvaluationBook) where
  passes-IsEarlier :
      (b : EvaluationBatch)
      → In b book.batches
      → passes batch policy_id book b ≡ true
      → IsEarlier batch policy_id book b
  passes-IsEarlier b m h =
      let (both, _) = and_parts _ (is_available b.status) h in
      let (of_policy, before) = and_parts _ (ltb b.id batch.id) both in
      elim (Option-cases (by_id version_key b.policy_version_id book.versions)) [
        | inl e ↦ absurd (ground (arith, of_policy, e))
        | inr (v, e) ↦ record {
          stored = m;
          version = v;
          versioned = e;
          of_policy = ==-eq v.policy_id policy_id (ground (arith, of_policy, e));
          before = ground (arith, before);
        }
      ]

  IsEarlier-passes :
      (b : EvaluationBatch) (s : EvaluationSnapshot)
      → IsEarlier batch policy_id book b
      → Shows book.entity_evaluations b s
      → passes batch policy_id book b ≡ true
  IsEarlier-passes b s e h =
      all_three _ (ltb b.id batch.id) (is_available b.status)
        (owned (version_policy b.policy_version_id book.versions) e.version.policy_id
          (policy_of b.policy_version_id book.versions e.version e.versioned) e.of_policy)
        (less b.id batch.id e.before) (is_one b.status h.available)
    where
      policy_of :
          (n : ℕ) (versions : List PolicyVersion) (v : PolicyVersion)
          → by_id version_key n versions ≡ some v
          → version_policy n versions ≡ some v.policy_id
      policy_of n versions v e = ground (arith, e)

      owned : (o : Option ℕ) (n : ℕ) → o ≡ some n → n ≡ policy_id → opt_is o policy_id ≡ true
      owned o n e same = rw (e, same) (==_self policy_id)

      less : (m n : ℕ) → m < n → ltb m n ≡ true
      less m n lt = ground arith

      is_one :
          (t : EvaluationStatus)
          → (t ≡ awaiting_confirmation) ⊎ (t ≡ confirmed)
          → is_available t ≡ true
      is_one t h = ground arith

      all_three : (a b c : Bool) → a ≡ true → b ≡ true → c ≡ true → a && b && c ≡ true
      all_three a b c h k l = ground arith

  IsEarlier-candidates :
      (b : EvaluationBatch) (s : EvaluationSnapshot)
      → IsEarlier batch policy_id book b
      → Shows book.entity_evaluations b s
      → In b (candidates batch policy_id book)
  unfolding candidates
  IsEarlier-candidates b s e h =
      In-sort_by later_first b (select (passes batch policy_id book) book.batches)
        (In-select (passes batch policy_id book) b book.batches (IsEarlier-passes b s e h) e.stored)

  candidates-IsEarlier :
      All (λ b. IsEarlier batch policy_id book b) (candidates batch policy_id book)
  unfolding candidates
  candidates-IsEarlier =
      All-sort_by (IsEarlier batch policy_id book) later_first
        (select (passes batch policy_id book) book.batches)
        (All-map (λ b. In b book.batches × (passes batch policy_id book b ≡ true))
          (IsEarlier batch policy_id book) (select (passes batch policy_id book) book.batches)
          (λ b h. passes-IsEarlier b h.0 h.1)
          (All-select (λ b. In b book.batches) (passes batch policy_id book) book.batches
            (All-In_self book.batches)))

  candidates-IsDescending : IsDescending (candidates batch policy_id book)
  unfolding candidates
  candidates-IsDescending = sort_by-IsDescending (select (passes batch policy_id book) book.batches)

  -- The answer is what the latest of the earlier evaluations that are available shows.
  pub previous_evaluation_snapshot-IsPrevious :
      (s : EvaluationSnapshot)
      → previous_evaluation_snapshot batch policy_id book ≡ some s
      → IsPrevious batch policy_id book s
  unfolding previous_evaluation_snapshot
  previous_evaluation_snapshot-IsPrevious s e =
      let rows = book.entity_evaluations in
      let first =
        first_snapshot-IsFirst rows (candidates batch policy_id book) s candidates-IsDescending e in
      record {
        before = first.batch;
        earlier =
            All-In (IsEarlier batch policy_id book) first.batch (candidates batch policy_id book)
              candidates-IsEarlier first.listed;
        shows = evaluation_snapshot-Shows rows first.batch s first.found;
        latest =
            All-map (λ b. In b book.batches) _ book.batches (λ b m. not_later first b)
              (All-In_self book.batches);
      }
    where
      not_later :
          (first : IsFirst book.entity_evaluations (candidates batch policy_id book) s)
          (b : EvaluationBatch)
          → (b.id ≤ first.batch.id) ⊎ ¬ IsCandidate batch policy_id book b
      not_later first b = elim (Bool-cases (leb b.id first.batch.id)) [
        | inl le ↦ inl (ground arith)
        | inr more ↦ inr (λ c.
            elim (All-In
              (λ b.
                (b.id ≤ first.batch.id) ⊎ (evaluation_snapshot book.entity_evaluations b ≡ none))
              b (candidates batch policy_id book) first.last
              (IsEarlier-candidates b c.snapshot c.earlier c.shows)) [
                | inl le ↦ absurd (ground (arith, more, le))
                | inr e ↦
                    cc (e, Shows-evaluation_snapshot book.entity_evaluations b c.snapshot c.shows)
              ])
      ]

  -- Where the ids are distinct, there is one such answer.
  pub IsPrevious-previous_evaluation_snapshot :
      (s : EvaluationSnapshot)
      → Distinct BatchApart book.batches
      → IsPrevious batch policy_id book s
      → previous_evaluation_snapshot batch policy_id book ≡ some s
  IsPrevious-previous_evaluation_snapshot s d p =
      let rows = book.entity_evaluations in
      let shown = Shows-evaluation_snapshot rows p.before s p.shows in
      elim (Option-cases (previous_evaluation_snapshot batch policy_id book)) [
        | inl e ↦ cc (shown, nothing e)
        | inr (t, e) ↦
            let q = previous_evaluation_snapshot-IsPrevious t e in
            let same : p.before ≡ q.before =
              In-same_id batch_key BatchApart (λ x y a. a) p.before q.before book.batches d
                p.earlier.stored q.earlier.stored
                (order p.before.id q.before.id (bounded q p.before s p.earlier p.shows)
                  (bounded p q.before t q.earlier q.shows)) in
            let shown' = Shows-evaluation_snapshot rows q.before t q.shows in
            e ∙ sym shown' ∙ subst (λ b. evaluation_snapshot rows b ≡ some s) same shown
      ]
    where
      order : (m n : ℕ) → m ≤ n → n ≤ m → m ≡ n
      order m n h k = omega arith

      nothing :
          previous_evaluation_snapshot batch policy_id book ≡ none
          → evaluation_snapshot book.entity_evaluations p.before ≡ none
      nothing e =
          All-In (λ b. evaluation_snapshot book.entity_evaluations b ≡ none) p.before
            (candidates batch policy_id book)
            (first_snapshot-none book.entity_evaluations (candidates batch policy_id book)
              (unfold previous_evaluation_snapshot in e))
            (IsEarlier-candidates p.before s p.earlier p.shows)

      bounded :
          {s' : EvaluationSnapshot} (q : IsPrevious batch policy_id book s') (b : EvaluationBatch)
          (t : EvaluationSnapshot)
          → IsEarlier batch policy_id book b
          → Shows book.entity_evaluations b t
          → b.id ≤ q.before.id
      bounded q b t e h =
          elim (All-In (λ b. (b.id ≤ q.before.id) ⊎ ¬ IsCandidate batch policy_id book b) b
            book.batches q.latest e.stored) [
              | inl le ↦ le
              | inr other ↦ absurd (other (record { earlier = e; snapshot = t; shows = h }))
            ]
