-- ===== src/Evaluations/Finality.antt =====
-- Runs of the abstract machine: which ends are final, and what comes before a confirmation.
use policy_project_managemen.Prelude.{
  ℕ, ◌≡◌, ◌≢◌, ◌∙◌, refl, sym, subst, Bool, true, false, Option, none, some, ◌==◌, ==-eq, arith,
  Bool-cases, inl, inr, ◌⊎◌,
}
use mathlib.Core.Option.{some-injective}
use mathlib.Core.Path.{ap}
use policy_project_managemen.Evaluations.Rows.{
  EvaluationStatus, pending, awaiting_confirmation, confirmed, cancelled, failed, EvaluationBook,
}
use policy_project_managemen.Evaluations.Machine.{
  Edge, claim, reclaim, withdraw, stop, evaluate, fail, approve,
}
use policy_project_managemen.Evaluations.Views.{View, status_of, MachineStep, idle, opened, passed}
use policy_project_managemen.Evaluations.Transactions.{Step, Steps, finished, then_one, IsValid}
use policy_project_managemen.Evaluations.Runs.{Steps-IsValid, Step-refines}

-- The states without an edge out of them.
abbrev pub is_final : EvaluationStatus → Bool
is_final confirmed = true
is_final cancelled = true
is_final failed = true
is_final _ = false

Edge-is_final : {s s' : EvaluationStatus} → Edge s s' → is_final s ≡ false
Edge-is_final claim = refl
Edge-is_final reclaim = refl
Edge-is_final withdraw = refl
Edge-is_final stop = refl
Edge-is_final evaluate = refl
Edge-is_final fail = refl
Edge-is_final approve = refl

-- The one edge to a confirmation.
to_confirmed : {s s' : EvaluationStatus} → Edge s s' → s' ≡ confirmed → s ≡ awaiting_confirmation
to_confirmed claim h = cc
to_confirmed reclaim h = cc
to_confirmed withdraw h = cc
to_confirmed stop h = cc
to_confirmed evaluate h = cc
to_confirmed fail h = cc
to_confirmed approve h = refl

-- What a step of the machine does to one batch.
pub data OneStep : Option EvaluationStatus → Option EvaluationStatus → Type 0 where
  same : {o o' : Option EvaluationStatus} → o' ≡ o → OneStep o o'
  created : {o o' : Option EvaluationStatus} → o ≡ none → o' ≡ some pending → OneStep o o'
  moved_on :
      {o o' : Option EvaluationStatus} (s s' : EvaluationStatus)
      → o ≡ some s
      → o' ≡ some s'
      → Edge s s'
      → OneStep o o'

pub one_batch : (v v' : View) (n : ℕ) → MachineStep v v' → OneStep (v n) (v' n)
one_batch v v' n (idle h) = same (h n)
one_batch v v' n (opened m before after others) = elim (Bool-cases (n == m)) [
  | inl e ↦ subst (λ k. OneStep (v k) (v' k)) (sym (==-eq n m e)) (created before after)
  | inr e ↦ same (others n λ q. ground (arith, q))
]
one_batch v v' n (passed m s s' before edge after others) = elim (Bool-cases (n == m)) [
  | inl e ↦ subst (λ k. OneStep (v k) (v' k)) (sym (==-eq n m e)) (moved_on s s' before after edge)
  | inr e ↦ same (others n λ q. ground (arith, q))
]

OneStep-final :
    (o o' : Option EvaluationStatus) (s : EvaluationStatus)
    → is_final s ≡ true
    → o ≡ some s
    → OneStep o o'
    → o' ≡ some s
OneStep-final o o' s f h (same e) = e ∙ h
OneStep-final o o' s f h (created e e') = cc
OneStep-final o o' s f h (moved_on t t' e e' edge) = cc (Edge-is_final edge)

-- Only an evaluated batch is confirmed.
OneStep-confirmed :
    (o o' : Option EvaluationStatus)
    → OneStep o o'
    → o' ≡ some confirmed
    → (o ≡ some confirmed) ⊎ (o ≡ some awaiting_confirmation)
OneStep-confirmed o o' (same e) h = inl (sym e ∙ h)
OneStep-confirmed o o' (created e e') h = cc
OneStep-confirmed o o' (moved_on s s' e e' edge) h =
    inr (e ∙ ap some (to_confirmed edge (some-injective s' confirmed (sym e' ∙ h))))

-- A batch that is confirmed, cancelled or failed stays so.
pub Steps-final :
    (book final : EvaluationBook) (n : ℕ) (s : EvaluationStatus)
    → IsValid book
    → Steps book final
    → is_final s ≡ true
    → status_of book n ≡ some s
    → status_of final n ≡ some s
Steps-final book final n s v finished f h = h
Steps-final book final n s v (then_one {middle = middle} before step) f h =
    OneStep-final (status_of middle n) (status_of final n) s f
      (Steps-final book middle n s v before f h)
      (one_batch (status_of middle) (status_of final) n
        (Step-refines middle final (Steps-IsValid book middle v before) step))

-- Tables between two others where the batch waits for its confirmation.
pub record WasAwaiting (book final : EvaluationBook) (n : ℕ) : Type 0 where
  pub middle : EvaluationBook
  pub before : Steps book middle
  pub after : Steps middle final
  pub awaiting : status_of middle n ≡ some awaiting_confirmation

later :
    (book middle final : EvaluationBook) (n : ℕ)
    → Step middle final
    → WasAwaiting book middle n
    → WasAwaiting book final n
later book middle final n step w = record {
  middle = w.middle;
  before = w.before;
  after = then_one w.after step;
  awaiting = w.awaiting;
}

-- A batch that became confirmed has waited for its confirmation before.
pub Steps-was_awaiting :
    (book final : EvaluationBook) (n : ℕ)
    → IsValid book
    → Steps book final
    → status_of book n ≢ some confirmed
    → status_of final n ≡ some confirmed
    → WasAwaiting book final n
Steps-was_awaiting book final n v finished not_yet h = absurd (not_yet h)
Steps-was_awaiting book final n v (then_one {middle = middle} before step) not_yet h =
    elim (OneStep-confirmed (status_of middle n) (status_of final n)
      (one_batch (status_of middle) (status_of final) n
        (Step-refines middle final (Steps-IsValid book middle v before) step))
      h) [
        | inl already ↦
            later book middle final n step
              (Steps-was_awaiting book middle n v before not_yet already)
        | inr awaiting ↦ record {
          middle = middle;
          before = before;
          after = then_one finished step;
          awaiting = awaiting;
        }
      ]
