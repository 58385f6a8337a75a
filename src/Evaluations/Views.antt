-- ===== src/Evaluations/Views.antt =====
-- The status of each batch as the state of an abstract machine, which the tables refine.
use policy_project_managemen.Prelude.{
  ℕ, ◌+◌, ◌<◌, ◌≡◌, ◌≢◌, ◌∙◌, refl, sym, subst, Option, none, some, List, [], ◌∷◌, ◌++◌, by_id,
  arith, All, All-map, All-append, All-save, All-In, In-find, has_id, Distinct, Distinct-append_one,
  Distinct-save, by_id-save_self, by_id-save_ne,
}
use policy_project_managemen.Evaluations.Rows.{
  EvaluationStatus, pending, EvaluationBatch, EvaluationBook, batch_key,
}
use policy_project_managemen.Evaluations.Machine.{Edge, BatchMove, unmoved, added, moved}
use policy_project_managemen.Evaluations.Writing.{BatchApart}

-- The status of the batch of a number, where there is one.
abbrev pub View : Type 0
View = ℕ → Option EvaluationStatus

abbrev status_of_row : Option EvaluationBatch → Option EvaluationStatus
status_of_row none = none
status_of_row (some b) = some b.status

abbrev pub status_of : EvaluationBook → View
status_of book n = status_of_row (by_id batch_key n book.batches)

-- The rest of the batches is as it was.
abbrev pub OthersSame : ℕ → View → View → Type 0
OthersSame n v v' = (q : ℕ) → q ≢ n → v' q ≡ v q

-- A step of the machine: none, a new batch that is pending, or one edge of one batch.
pub data MachineStep : View → View → Type 0 where
  idle : {v v' : View} → ((n : ℕ) → v' n ≡ v n) → MachineStep v v'
  opened :
      {v v' : View} (n : ℕ)
      → v n ≡ none
      → v' n ≡ some pending
      → OthersSame n v v'
      → MachineStep v v'
  passed :
      {v v' : View} (n : ℕ) (s s' : EvaluationStatus)
      → v n ≡ some s
      → Edge s s'
      → v' n ≡ some s'
      → OthersSame n v v'
      → MachineStep v v'

by_id-unused :
    (n : ℕ) (rows : List EvaluationBatch) → All (λ b. b.id < n) rows → by_id batch_key n rows ≡ none
by_id-unused n [] h = refl
by_id-unused n (b ∷ rows) h = ground (arith, by_id-unused n rows h.1, h.0)

by_id-added :
    (n : ℕ) (rows : List EvaluationBatch) (b : EvaluationBatch)
    → by_id batch_key n rows ≡ none
    → b.id ≡ n
    → by_id batch_key n (rows ++ b ∷ []) ≡ some b
by_id-added n [] b h e = ground arith
by_id-added n (x ∷ rows) b h e = ground (arith, by_id-added n rows b)

by_id-added_other :
    (q : ℕ) (rows : List EvaluationBatch) (b : EvaluationBatch)
    → q ≢ b.id
    → by_id batch_key q (rows ++ b ∷ []) ≡ by_id batch_key q rows
by_id-added_other q [] b h = ground arith
by_id-added_other q (x ∷ rows) b h = ground (arith, by_id-added_other q rows b h)

pub record IsNumbered (book : EvaluationBook) : Type 0 where
  pub distinct : Distinct BatchApart book.batches
  pub numbered : All (λ b. b.id < book.next_batch_id) book.batches

row_of_moved :
    (book : EvaluationBook) (b b' : EvaluationBatch)
    → by_id batch_key b.id book.batches ≡ some b
    → b'.id ≡ b.id
    → by_id batch_key b'.id book.batches ≡ some b
row_of_moved book b b' row same =
    subst (λ k. by_id batch_key k book.batches ≡ some b) (sym same) row

-- A move of the tables is a step of the machine.
pub BatchMove-refines :
    (book book' : EvaluationBook)
    → IsNumbered book
    → BatchMove book book'
    → MachineStep (status_of book) (status_of book')
BatchMove-refines book book' h (unmoved same numbers) = idle λ n. rw same refl
BatchMove-refines book book' h (added b is_new number rows numbers) =
    let unused =
      subst (λ k. by_id batch_key k book.batches ≡ none) (sym number)
        (by_id-unused book.next_batch_id book.batches h.numbered) in
    opened b.id (rw unused refl)
      (rw (rows, by_id-added b.id book.batches b unused refl, is_new) refl)
      (λ q ne. rw (rows, by_id-added_other q book.batches b ne) refl)
BatchMove-refines book book' h (moved b b' row same edge rows numbers) =
    let found = by_id-save_self batch_key b' b book.batches (row_of_moved book b b' row same) in
    passed b.id b.status b'.status (rw row refl) edge
      (subst (λ k. status_of book' k ≡ some b'.status) same (rw (rows, found) refl))
      (λ q ne. rw (rows, by_id-save_ne batch_key q b' book.batches (λ e. ne (e ∙ same))) refl)

apart_new :
    (n : ℕ) (rows : List EvaluationBatch) (b : EvaluationBatch)
    → All (λ x. x.id < n) rows
    → b.id ≡ n
    → All (λ x. BatchApart x b) rows
apart_new n [] b h e = tt
apart_new n (x ∷ rows) b h e = (ground (arith, h.0, e), apart_new n rows b h.1 e)

below-grows :
    (n : ℕ) (rows : List EvaluationBatch) → All (λ x. x.id < n) rows → All (λ x. x.id < n + 1) rows
below-grows n rows h = All-map (λ x. x.id < n) (λ x. x.id < n + 1) rows (λ x l. omega arith) h

pub BatchMove-IsNumbered :
    (book book' : EvaluationBook) → IsNumbered book → BatchMove book book' → IsNumbered book'
BatchMove-IsNumbered book book' h (unmoved same numbers) = record {
  distinct = rw same h.distinct;
  numbered = rw (same, numbers) h.numbered;
}
BatchMove-IsNumbered book book' h (added b is_new number rows numbers) = record {
  distinct = rw rows (
      Distinct-append_one BatchApart book.batches b h.distinct
        (apart_new book.next_batch_id book.batches b h.numbered number));
  numbered =
      rw (rows, numbers)
        (All-append (λ x. x.id < book.next_batch_id + 1) book.batches (b ∷ [])
          (below-grows book.next_batch_id book.batches h.numbered) (omega (arith, number), tt));
}
BatchMove-IsNumbered book book' h (moved b b' row same edge rows numbers) =
    let found = In-find (has_id batch_key b.id) b book.batches row in
    record {
      distinct = rw rows (
          Distinct-save batch_key BatchApart (λ x y a. a) b' b same (λ x a e. a (e ∙ same))
            (λ x a e. a (sym same ∙ e)) book.batches found h.distinct);
      numbered =
          rw (rows, numbers)
            (All-save batch_key (λ x. x.id < book.next_batch_id) b' book.batches
              (subst (λ k. k < book.next_batch_id) (sym same)
                (All-In (λ x. x.id < book.next_batch_id) b book.batches h.numbered found))
              h.numbered);
    }
