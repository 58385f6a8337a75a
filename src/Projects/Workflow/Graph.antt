-- ===== src/Projects/Workflow/Graph.antt =====
-- Which status changes the workflow makes: `apply_transition` against a table of edges.
use policy_project_managemen.Prelude.{
  ℕ, ◌≤◌, ◌≡◌, true, Option, none, some, ok, err, arith, succeeds, refl, ◌↔◌,
}
use policy_project_managemen.Prelude.Text.{is_truthy}
use policy_project_managemen.Projects.Status.{
  ProjectStatus, pending_application, submitted, succeeded, rejected, terminated,
  ProjectTransitionInput, project_transition_invalid,
}
use policy_project_managemen.Projects.Workflow.{StatusValues, Outcome, apply_transition}

-- A day that the payload gives and that is not after today.
abbrev IsPast : Option ℕ → ℕ → Type 0
IsPast none today = ⊥
IsPast (some day) today = day ≤ today

-- A result's day, which lies between the submission and today.
abbrev IsResultDay : Option ℕ → Option ℕ → ℕ → Type 0
IsResultDay (some day) (some submitted_day) today = (submitted_day ≤ day) × (day ≤ today)
IsResultDay _ _ today = ⊥

-- What a change from one status to another asks of the stored values and the payload.
abbrev pub Permits :
    ProjectStatus → ProjectStatus → StatusValues → ProjectTransitionInput → ℕ → Type 0
Permits pending_application submitted v p today = IsPast p.submitted_on today
Permits submitted succeeded v p today = IsResultDay p.result_on v.submitted_on today
Permits submitted rejected v p today = IsResultDay p.result_on v.submitted_on today
Permits pending_application terminated v p today = is_truthy p.termination_note ≡ true
Permits submitted terminated v p today = is_truthy p.termination_note ≡ true
Permits _ _ v p today = ⊥

-- The outcome is the target status or `ProjectTransitionInvalid`.
abbrev pub Arrives : ProjectStatus → Outcome → Type 0
Arrives t (ok r) = r.new_status ≡ t
Arrives t (err e) = e ≡ project_transition_invalid

accept :
    (s : ProjectStatus) (v : StatusValues) (p : ProjectTransitionInput) (today : ℕ)
    (t : ProjectStatus)
    → p.target_status ≡ t
    → Permits s t v p today
    → succeeds (apply_transition s v p today) ≡ true
unfolding apply_transition
accept pending_application v p today submitted e h = ground arith
accept _ v p today _ e h = ground arith

permitted :
    (s : ProjectStatus) (v : StatusValues) (p : ProjectTransitionInput) (today : ℕ)
    (t : ProjectStatus)
    → p.target_status ≡ t
    → succeeds (apply_transition s v p today) ≡ true
    → Permits s t v p today
unfolding apply_transition
permitted pending_application v p today submitted e h = ground arith
permitted _ v p today _ e h = ground arith

-- A transition is made exactly when its edge is in the table and its dates or note are as the edge
-- asks.
pub apply_transition-iff-Permits :
    (s : ProjectStatus) (v : StatusValues) (p : ProjectTransitionInput) (today : ℕ)
    → (succeeds (apply_transition s v p today) ≡ true) ↔ Permits s p.target_status v p today
apply_transition-iff-Permits s v p today =
    (permitted s v p today p.target_status refl, accept s v p today p.target_status refl)

-- A transition that is made arrives at the status that was asked for, and every one that is not
-- made raises `ProjectTransitionInvalid`.
pub apply_transition_outcome :
    (s : ProjectStatus) (v : StatusValues) (p : ProjectTransitionInput) (today : ℕ)
    → Arrives p.target_status (apply_transition s v p today)
unfolding apply_transition
apply_transition_outcome s v p today = ground arith
