-- ===== src/Evaluations/Writing.antt =====
-- What a worker does to its batch: the claim, and the writing of the results.
use policy_project_managemen.Prelude.{
  ℕ, ◌≡◌, refl, sym, subst, Bool, true, not, Option, none, some, List, ok, raise_if, or_raise,
  by_id, save, find, arith, All-In, In-find, has_id, Bool-cases, Option-cases, inl, inr, String,
  Ensures, Ensures-bind,
}
use policy_project_managemen.Notifications.Service.{Sessions, Outbox}
use policy_project_managemen.Notifications.Service as Notify
use policy_project_managemen.Notifications.Delivery.{NotificationEvent}
use policy_project_managemen.Projects.Rows.{
  Conclusion, Policy, policy_row_id, PrimaryEntityDecision,
}
use policy_project_managemen.Evaluations.Rows.{
  integrity_error, awaiting_confirmation, EvaluationResult, EvaluationProviderResult,
  EvaluationBatch, EvaluationBook, batch_key, version_key, EvaluationError, evaluation_claim_lost,
  value_error,
}
use policy_project_managemen.Evaluations.Events.{evaluation_notification_event}
use policy_project_managemen.Evaluations.Writes.{
  write_results, suggested_policy, add_results, evaluated_batch, holds_claim, with_results,
  enqueue_event, is_older, is_suggestion,
}
use policy_project_managemen.Evaluations.Secured.{IsSecured}
use policy_project_managemen.Prelude.{
  Ensures-map, All-find, All-sort_by, All-In_self, Distinct, In, by_id-In, sort_by, leb, ◌≢◌,
}
use policy_project_managemen.Evaluations.Rows.{running, pending, evaluation_status_eq}
use policy_project_managemen.Evaluations.Secured.{HasEntitiesIn}
use policy_project_managemen.Evaluations.Queue.{claim_next, claimed, is_claimable}
use policy_project_managemen.Evaluations.Adjusting.{save-HasEntities}
use policy_project_managemen.Evaluations.Machine.{
  Edge, claim, reclaim, evaluate, unmoved, moved, IsKept, Commits, is-pending, is-running,
  found_batch, held_running,
}

abbrev pub BatchApart : EvaluationBatch → EvaluationBatch → Type 0
BatchApart a b = a.id ≢ b.id

claim_edge :
    (locked : ℕ → Bool) (now : ℕ) (b : EvaluationBatch)
    → is_claimable locked now b ≡ true
    → Edge b.status running
unfolding is_claimable
claim_edge locked now b h = elim (Bool-cases (evaluation_status_eq b.status pending)) [
  | inl e ↦ subst (λ s. Edge s running) (sym (is-pending b.status e)) claim
  | inr e ↦ subst (λ s. Edge s running) (sym (is-running b.status (ground arith))) reclaim
]

claimed-fields :
    (now : ℕ) (token : String) (b : EvaluationBatch)
    → ((claimed now token b).id ≡ b.id) × ((claimed now token b).status ≡ running)
unfolding claimed
claimed-fields now token b = (refl, refl)

abbrev by_number : EvaluationBatch → EvaluationBatch → Bool
by_number a b = leb a.id b.id

claimable_row :
    (locked : ℕ → Bool) (now : ℕ) (rows : List EvaluationBatch) (b : EvaluationBatch)
    → Distinct BatchApart rows
    → find (is_claimable locked now) (sort_by by_number rows) ≡ some b
    → (by_id batch_key b.id rows ≡ some b) × Edge b.status running
claimable_row locked now rows b d e =
    let (here, claimable) =
      All-find (λ a. In a rows) (is_claimable locked now) (sort_by by_number rows)
        (All-sort_by (λ a. In a rows) by_number rows (All-In_self rows)) e in
    (by_id-In batch_key BatchApart (λ x y a. a) b rows d here, claim_edge locked now b claimable)

pub claim_next-IsKept :
    (locked : ℕ → Bool) (now : ℕ) (token : String) (book : EvaluationBook)
    → HasEntitiesIn book
    → Distinct BatchApart book.batches
    → IsKept book (claim_next locked now token book).1
unfolding claim_next
claim_next-IsKept locked now token book h d =
    elim (Option-cases (find (is_claimable locked now) (sort_by by_number book.batches))) [
      | inl e ↦ rw (e, claim_next) (record { entities = h; move = unmoved refl refl })
      | inr (b, e) ↦
          let (row, edge) = claimable_row locked now book.batches b d e in
          let (same, status) = claimed-fields now token b in
          rw (e, claim_next)
            (record {
              entities = h;
              move =
                  moved b (claimed now token b) row same (subst (Edge b.status) (sym status) edge)
                    refl refl;
            })
    ]

suggested-IsSecured :
    (batch_id : ℕ) (conclusion : Conclusion) (p : Policy) (rows : List PrimaryEntityDecision)
    → IsSecured rows p
    → IsSecured rows (suggested_policy batch_id conclusion p)
unfolding suggested_policy
suggested-IsSecured batch_id conclusion p rows s =
    elim (Bool-cases (is_older p.current_evaluation_batch_id batch_id)) [
      | inr newer ↦ rw newer s
      | inl older ↦ elim (Bool-cases (is_suggestion p.current_conclusion_source)) [
        | inl open_one ↦ rw (older, open_one) refl
        | inr decided ↦ rw (older, decided) s
      ]
    ]

-- The notification changes the outbox only.
abbrev SameTables : EvaluationBook → EvaluationBook → Type 0
SameTables book book' =
    (book'.policies ≡ book.policies)
    × (book'.decisions ≡ book.decisions)
    × (book'.batches ≡ book.batches)
    × (book'.next_batch_id ≡ book.next_batch_id)

enqueue_event-tables :
    (others : Sessions) (now : ℕ) (event : Option NotificationEvent) (book : EvaluationBook)
    → Ensures (SameTables book) (enqueue_event others now event book)
enqueue_event-tables others now none book = (refl, refl, refl, refl)
enqueue_event-tables others now (some event) book =
    Ensures-bind (SameTables book)
      (Notify.stored integrity_error (Notify.enqueue others event now book.outbox)) _
      λ outbox _. (refl, refl, refl, refl)

-- What writing the results leaves: the row of the batch, and the row of its policy.
pub record IsWritten (batch_id : ℕ) (token : String) (book : EvaluationBook)
    (r : EvaluationBatch × EvaluationBook) : Type 0 where
  pub before : EvaluationBatch
  pub found : by_id batch_key batch_id book.batches ≡ some before
  pub held : holds_claim token before ≡ true
  pub written : (r.0.id ≡ before.id) × (r.0.status ≡ awaiting_confirmation)
  pub batches : r.1.batches ≡ save batch_key r.0 book.batches
  pub numbers : r.1.next_batch_id ≡ book.next_batch_id
  pub entities : HasEntitiesIn r.1

evaluated-fields :
    (now : ℕ) (result : EvaluationResult) (provider : Option EvaluationProviderResult)
    (batch : EvaluationBatch)
    → ((evaluated_batch now result provider batch).id ≡ batch.id)
      × ((evaluated_batch now result provider batch).status ≡ awaiting_confirmation)
unfolding evaluated_batch
evaluated-fields now result none batch = (refl, refl)
evaluated-fields now result (some p) batch = (refl, refl)

guard-passed : (b : Bool) (e : EvaluationError) → raise_if (not b) e ≡ ok tt → b ≡ true
guard-passed b e h = ground arith

pub write_results-IsWritten :
    (others : Sessions) (now batch_id version_id : ℕ) (token : String) (result : EvaluationResult)
    (provider : Option EvaluationProviderResult) (book : EvaluationBook)
    → HasEntitiesIn book
    → Ensures
        (IsWritten batch_id token book)
        (write_results others now batch_id version_id token result provider book)
unfolding write_results
write_results-IsWritten others now batch_id version_id token result provider book h =
    let Written = IsWritten batch_id token book in
    Ensures-bind Written (or_raise (by_id batch_key batch_id book.batches) value_error) _ λ batch e.
      Ensures-bind Written (or_raise (by_id version_key version_id book.versions) value_error) _
        λ version _.
          Ensures-bind Written (raise_if (not (holds_claim token batch)) evaluation_claim_lost) _
            λ u g.
              Ensures-bind Written
                (or_raise (by_id policy_row_id version.policy_id book.policies) value_error) _
                λ p f.
                  Ensures-bind Written
                    (add_results batch.id result.entities book.entity_evaluations) _
                    λ rows _.
                      let batch' = evaluated_batch now result provider batch in
                      let p' = suggested_policy batch.id result.conclusion p in
                      let written = with_results batch' p' rows book in
                      Ensures-bind Written (evaluation_notification_event batch' written) _
                        λ event _.
                          Ensures-bind Written (enqueue_event others now event written) _
                            λ book' done.
                              let (policies, decisions, batches, numbers) =
                                subst (Ensures (SameTables written)) done
                                  (enqueue_event-tables others now event written) in
                              record {
                                before = batch;
                                found = ground arith;
                                held =
                                    guard-passed (holds_claim token batch) evaluation_claim_lost g;
                                written = evaluated-fields now result provider batch;
                                batches = batches;
                                numbers = numbers;
                                entities =
                                    rw (policies, decisions)
                                      (save-HasEntities p' book.policies book.decisions h (
                                        suggested-IsSecured batch.id result.conclusion p
                                          book.decisions
                                          (All-In (IsSecured book.decisions) p book.policies
                                            h.secured
                                            (In-find (has_id policy_row_id version.policy_id) p
                                              book.policies (ground arith)))));
                              }

pub write_results-Commits :
    (others : Sessions) (now batch_id version_id : ℕ) (token : String) (result : EvaluationResult)
    (provider : Option EvaluationProviderResult) (book : EvaluationBook)
    → HasEntitiesIn book
    → Commits book (write_results others now batch_id version_id token result provider book)
write_results-Commits others now batch_id version_id token result provider book h =
    Ensures-map (IsWritten batch_id token book) (λ r. IsKept book r.1)
      (write_results others now batch_id version_id token result provider book)
      (λ r w. record {
        entities = w.entities;
        move =
            moved w.before r.0 (found_batch batch_id book.batches w.before w.found) (w.written.0)
              (subst (λ s. Edge s r.0.status) (sym (held_running token w.before w.held))
                (subst (Edge running) (sym (w.written.1)) evaluate))
              w.batches w.numbers;
      })
      (write_results-IsWritten others now batch_id version_id token result provider book h)
