-- ===== src/Evaluations/Secured.antt =====
-- Current decisions on the primary entity: at most one for a policy, and one for each policy whose
-- confirmed conclusion recommends an application.
use policy_project_managemen.Prelude.{
  ℕ, ◌≡◌, ◌≢◌, refl, sym, subst, Bool, true, false, not, ◌&&◌, ◌||◌, Option, none, some, List, [],
  ◌∷◌, ◌++◌, Result, ok, err, is_none, is_some, find, any, ◌==◌, ==-eq, if◌then◌else◌, arith, All,
  Distinct, Distinct-append_one, Distinct-update, Bool-cases, Option-cases, inl, inr, String,
}
use policy_project_managemen.Projects.Rows.{
  recommends, Policy, PrimaryEntityDecision, is_current_for,
}
use policy_project_managemen.Evaluations.Rows.{EvaluationBook, EvaluationError}
use policy_project_managemen.Evaluations.Primaries.{
  Choice, unchosen, chosen, superseded, add_decision, replace_decision, keeps_primary, store_choice,
  new_decision,
}

-- Not both current for one policy.
abbrev pub CurrentApart : PrimaryEntityDecision → PrimaryEntityDecision → Type 0
CurrentApart d e =
    is_none d.superseded_at && is_none e.superseded_at && d.policy_id == e.policy_id ≡ false

abbrev pub has_current : ℕ → List PrimaryEntityDecision → Bool
has_current policy_id rows = is_some (find (is_current_for policy_id) rows)

-- A confirmed recommendation has its entity.
abbrev pub IsSecured : List PrimaryEntityDecision → Policy → Type 0
IsSecured rows p =
    (not (p.conclusion_confirmed && recommends p.current_conclusion) || has_current p.id rows)
    ≡ true

pub record HasEntities (policies : List Policy) (rows : List PrimaryEntityDecision) : Type 0 where
  pub one_current : Distinct CurrentApart rows
  pub secured : All (IsSecured rows) policies

-- The tables of a book.
abbrev pub HasEntitiesIn : EvaluationBook → Type 0
HasEntitiesIn book = HasEntities book.policies book.decisions

superseded-other :
    (now n q : ℕ) (rows : List PrimaryEntityDecision)
    → q ≢ n
    → has_current q (superseded now n rows) ≡ has_current q rows
superseded-other now n q [] h = refl
superseded-other now n q (d ∷ rows) h = ground (arith, superseded-other now n q rows h)

superseded-none :
    (now n : ℕ) (rows : List PrimaryEntityDecision)
    → any (is_current_for n) (superseded now n rows) ≡ false
superseded-none now n [] = refl
superseded-none now n (d ∷ rows) = ground (arith, superseded-none now n rows)

has_current-append :
    (q : ℕ) (rows more : List PrimaryEntityDecision)
    → has_current q rows ≡ true
    → has_current q (rows ++ more) ≡ true
has_current-append q [] more h = cc
has_current-append q (d ∷ rows) more h = ground (arith, has_current-append q rows more)

has_current-new :
    (rows : List PrimaryEntityDecision) (d : PrimaryEntityDecision)
    → d.superseded_at ≡ none
    → has_current d.policy_id (rows ++ d ∷ []) ≡ true
has_current-new [] d h = ground arith
has_current-new (x ∷ rows) d h = ground (arith, has_current-new rows d h)

none_current :
    (n : ℕ) (rows : List PrimaryEntityDecision)
    → find (is_current_for n) rows ≡ none
    → any (is_current_for n) rows ≡ false
none_current n [] h = refl
none_current n (d ∷ rows) h = ground (arith, none_current n rows)

-- The rows before the new decision.
abbrev pub freed :
    ℕ → ℕ → Option PrimaryEntityDecision → List PrimaryEntityDecision → List PrimaryEntityDecision
freed now n current rows = if is_some current then superseded now n rows else rows

freed-none :
    (now n : ℕ) (rows : List PrimaryEntityDecision)
    → any (is_current_for n) (freed now n (find (is_current_for n) rows) rows) ≡ false
freed-none now n rows = elim (Option-cases (find (is_current_for n) rows)) [
  | inl e ↦ rw e (none_current n rows e)
  | inr (d, e) ↦ rw e (superseded-none now n rows)
]

freed-other :
    (now n q : ℕ) (current : Option PrimaryEntityDecision) (rows : List PrimaryEntityDecision)
    → q ≢ n
    → has_current q (freed now n current rows) ≡ has_current q rows
freed-other now n q none rows h = refl
freed-other now n q (some d) rows h = superseded-other now n q rows h

freed-Distinct :
    (now n : ℕ) (current : Option PrimaryEntityDecision) (rows : List PrimaryEntityDecision)
    → Distinct CurrentApart rows
    → Distinct CurrentApart (freed now n current rows)
freed-Distinct now n none rows h = h
freed-Distinct now n (some d) rows h =
    Distinct-update CurrentApart (is_current_for n) (λ d. record d { superseded_at = some now })
      (λ x y a. refl) (λ x y a. ground arith) rows h

unclaimed-apart :
    (d : PrimaryEntityDecision) (rows : List PrimaryEntityDecision)
    → any (is_current_for d.policy_id) rows ≡ false
    → All (λ x. CurrentApart x d) rows
unclaimed-apart d [] h = tt
unclaimed-apart d (x ∷ rows) h = (ground arith, unclaimed-apart d rows (ground arith))

-- Whoever has a current decision keeps having one.
abbrev pub Grows : List PrimaryEntityDecision → List PrimaryEntityDecision → Type 0
Grows rows rows' = (q : ℕ) → has_current q rows ≡ true → has_current q rows' ≡ true

pub IsSecured-Grows :
    (rows rows' : List PrimaryEntityDecision) (p : Policy)
    → Grows rows rows'
    → IsSecured rows p
    → IsSecured rows' p
IsSecured-Grows rows rows' p g s = elim (Bool-cases (has_current p.id rows)) [
  | inl e ↦ ground (arith, g p.id e)
  | inr e ↦ ground arith
]

-- What the replacement of a decision leaves, or a choice that keeps it; with a current decision of
-- the policy if `b`.
pub record IsReplaced (b : Bool) (n : ℕ) (book book' : EvaluationBook) : Type 0 where
  pub one : Distinct CurrentApart book'.decisions
  pub grows : Grows book.decisions book'.decisions
  pub current : (not b || has_current n book'.decisions) ≡ true
  pub policies : book'.policies ≡ book.policies
  pub batches : book'.batches ≡ book.batches
  pub numbers : book'.next_batch_id ≡ book.next_batch_id
  pub versions : book'.versions ≡ book.versions
  pub confirmations : book'.confirmations ≡ book.confirmations
  pub outbox : book'.outbox ≡ book.outbox

-- The call returns such a book.
abbrev pub Replaces : Bool → ℕ → EvaluationBook → Result EvaluationError EvaluationBook → Type 0
Replaces b n book (ok book') = IsReplaced b n book book'
Replaces b n book (err e) = ⊥

module _ (d : PrimaryEntityDecision) (is_new : d.superseded_at ≡ none) (book : EvaluationBook)
    (one : Distinct CurrentApart book.decisions) where
  new_rows : List PrimaryEntityDecision
  new_rows =
      freed d.selected_at d.policy_id (find (is_current_for d.policy_id) book.decisions)
        book.decisions

  Grows-new : Grows book.decisions (new_rows ++ d ∷ [])
  unfolding new_rows
  Grows-new q h = elim (Bool-cases (q == d.policy_id)) [
    | inl e ↦
        subst (λ k. has_current k (new_rows ++ d ∷ []) ≡ true) (sym (==-eq q d.policy_id e))
          (has_current-new new_rows d is_new)
    | inr e ↦ has_current-append q new_rows (d ∷ []) (
        rw
          (freed-other d.selected_at d.policy_id q
            (find (is_current_for d.policy_id) book.decisions) book.decisions
            λ f. ground (arith, f))
          h)
  ]

  pub replace_decision-Replaces :
      Replaces true d.policy_id book
        (replace_decision d (find (is_current_for d.policy_id) book.decisions) book)
  unfolding replace_decision add_decision new_rows
  replace_decision-Replaces =
      let free = freed-none d.selected_at d.policy_id book.decisions in
      rw free (record {
        one =
            Distinct-append_one CurrentApart new_rows d
              (freed-Distinct d.selected_at d.policy_id
                (find (is_current_for d.policy_id) book.decisions) book.decisions one)
              (unclaimed-apart d new_rows free);
        grows = Grows-new;
        current = has_current-new new_rows d is_new;
        policies = refl;
        batches = refl;
        numbers = refl;
        versions = refl;
        confirmations = refl;
        outbox = refl;
      })

abbrev pub is_chosen : Choice → Bool
is_chosen unchosen = false
is_chosen (chosen _ _) = true

-- The choice was made against the current decision of the policy.
abbrev pub IsUpToDateChoice : ℕ → List PrimaryEntityDecision → Choice → Type 0
IsUpToDateChoice n rows unchosen = Unit
IsUpToDateChoice n rows (chosen profile current) = current ≡ find (is_current_for n) rows

kept-IsReplaced :
    (b : Bool) (n : ℕ) (book : EvaluationBook)
    → Distinct CurrentApart book.decisions
    → (not b || has_current n book.decisions) ≡ true
    → IsReplaced b n book book
kept-IsReplaced b n book one c = record {
  one = one;
  grows = λ q h. h;
  current = c;
  policies = refl;
  batches = refl;
  numbers = refl;
  versions = refl;
  confirmations = refl;
  outbox = refl;
}

keeps_current :
    (code : String) (current : Option PrimaryEntityDecision)
    → keeps_primary code current ≡ true
    → is_some current ≡ true
keeps_current code none h = cc
keeps_current code (some d) h = refl

-- A choice is always stored: the unique index never refuses it.
pub store_choice-Replaces :
    (now n batch_id actor_id : ℕ) (reason : Option String) (c : Choice) (book : EvaluationBook)
    → Distinct CurrentApart book.decisions
    → IsUpToDateChoice n book.decisions c
    → Replaces (is_chosen c) n book (store_choice now n batch_id actor_id reason c book)
unfolding store_choice
store_choice-Replaces now n batch_id actor_id reason unchosen book one u =
    kept-IsReplaced false n book one refl
store_choice-Replaces now n batch_id actor_id reason (chosen profile current) book one u =
    elim (Bool-cases (keeps_primary profile.seed_code current)) [
      | inl kept ↦ rw kept (
          kept-IsReplaced true n book one
            (subst (λ o. is_some o ≡ true) u (keeps_current profile.seed_code current kept)))
      | inr other ↦
          rw (other, u)
            (replace_decision-Replaces
              (new_decision book.next_decision_id n batch_id profile.seed_code profile.legal_name
                actor_id reason now)
              refl book one)
    ]
