-- ===== src/Projects/Workflow/Consistency.antt =====
-- Status changes against the check constraints of the table: a change that the workflow computes
-- can be written, with the one exception that `correction_violates_checks` shows.
use policy_project_managemen.Prelude.{
  ℕ, ◌≤◌, ◌≡◌, refl, Bool, true, false, Option, none, some, ok, err, arith, is_some,
}
use policy_project_managemen.Projects.Checks.{satisfies_checks}
use policy_project_managemen.Projects.Status.{
  ProjectStatus, pending_application, submitted, terminated, project_transition_invalid,
  ProjectTransitionInput, ProjectCorrectionInput,
}
use policy_project_managemen.Projects.Workflow.{
  StatusValues, StatusChange, Outcome, apply_transition, apply_correction,
}

-- `for field, value in result.values.items(): setattr(project, field, value)`
abbrev pub changed_submitted_on : Option ℕ → StatusChange → Option ℕ
changed_submitted_on old c = elim c.submitted_on [ none ↦ old | some day ↦ some day ]

abbrev pub assign : StatusValues → StatusChange → StatusValues
assign v c = record {
  submitted_on = changed_submitted_on v.submitted_on c;
  result_on = c.result_on;
  result_note = c.result_note;
  termination_note = c.termination_note;
}

abbrev pub row_checks : ProjectStatus → StatusValues → Bool
row_checks s v = satisfies_checks s v.submitted_on v.result_on v.termination_note

-- No date of the row lies in the future.
abbrev pub NotAfter : Option ℕ → ℕ → Type 0
NotAfter none today = Unit
NotAfter (some day) today = day ≤ today

abbrev pub IsUpToDate : StatusValues → ℕ → Type 0
IsUpToDate v today = NotAfter v.submitted_on today × NotAfter v.result_on today

-- If the change is made, the row that it leaves meets the constraints and holds no future date.
abbrev pub Fits : StatusValues → ℕ → Outcome → Type 0
Fits v today (ok r) =
    (row_checks r.new_status (assign v r.values) ≡ true) × IsUpToDate (assign v r.values) today
Fits v today (err e) = Unit

abbrev pub MeetsChecks : StatusValues → Outcome → Type 0
MeetsChecks v (ok r) = row_checks r.new_status (assign v r.values) ≡ true
MeetsChecks v (err e) = e ≡ project_transition_invalid

pub apply_transition-MeetsChecks :
    (s : ProjectStatus) (v : StatusValues) (p : ProjectTransitionInput) (today : ℕ)
    → row_checks s v ≡ true
    → MeetsChecks v (apply_transition s v p today)
unfolding apply_transition
apply_transition-MeetsChecks pending_application v p today h = ground arith
apply_transition-MeetsChecks _ v p today h = ground arith

-- From a row that meets the constraints and holds no future date, a transition that is made leaves
-- such a row.
pub apply_transition-Fits :
    (s : ProjectStatus) (v : StatusValues) (p : ProjectTransitionInput) (today : ℕ)
    → row_checks s v ≡ true
    → IsUpToDate v today
    → Fits v today (apply_transition s v p today)
unfolding apply_transition
apply_transition-Fits pending_application v p today h u = ground arith
apply_transition-Fits _ v p today h u = ground arith

-- The status before a termination: pending, or submitted with the date still in the row.
abbrev pub CanReturn : Option ProjectStatus → StatusValues → Type 0
CanReturn none v = Unit
CanReturn (some pending_application) v = Unit
CanReturn (some submitted) v = is_some v.submitted_on ≡ true
CanReturn (some _) v = ⊥

-- From a row that meets the constraints and holds no future date, a correction that is made leaves
-- such a row, provided that the status before a termination was pending, or submitted with the
-- submission date still in the row.
pub apply_correction-Fits :
    (s : ProjectStatus) (v : StatusValues) (before : Option ProjectStatus)
    (p : ProjectCorrectionInput) (today : ℕ)
    → row_checks s v ≡ true
    → IsUpToDate v today
    → (s ≡ terminated → CanReturn before v)
    → Fits v today (apply_correction s v before p today)
unfolding apply_correction
apply_correction-Fits terminated v none p today h u c = ground arith
apply_correction-Fits terminated v (some pending_application) p today h u c = ground arith
apply_correction-Fits terminated v (some _) p today h u c = ground (arith, c refl)
apply_correction-Fits _ v before p today h u c = ground arith

-- The change is made, and the row that it leaves breaks the constraints.
abbrev pub Breaks : StatusValues → Outcome → Type 0
Breaks v (ok r) = row_checks r.new_status (assign v r.values) ≡ false
Breaks v (err e) = ⊥

-- Without that proviso it fails: for every terminated row with no submission date whose status
-- before the termination was `submitted`, the correction back to `submitted` is accepted and
-- yields a row that the constraints refuse.
pub correction_violates_checks :
    (v : StatusValues) (p : ProjectCorrectionInput) (today : ℕ)
    → v.submitted_on ≡ none
    → p.target_status ≡ submitted
    → Breaks v (apply_correction terminated v (some submitted) p today)
unfolding apply_correction
correction_violates_checks v p today h t = ground arith

-- After the first change the correction `q` leads back to the status and the columns at the start.
abbrev Back : ProjectStatus → StatusValues → StatusValues → Outcome → Type 0
Back s v w (ok r) = (r.new_status ≡ s) × (assign w r.values ≡ v)
Back s v w (err e) = ⊥

abbrev pub Undone : ProjectStatus → StatusValues → ProjectCorrectionInput → ℕ → Outcome → Type 0
Undone s v q later (ok r) =
    Back s v (assign v r.values)
      (apply_correction r.new_status (assign v r.values) (some s) q later)
Undone s v q later (err e) = Unit

-- From a row with no result and no notes, a termination that is made and then corrected back gives
-- the status and all the columns that a status change writes as they were.
pub correction_undoes_termination :
    (s : ProjectStatus) (v : StatusValues) (p : ProjectTransitionInput) (q : ProjectCorrectionInput)
    (today later : ℕ)
    → p.target_status ≡ terminated
    → q.target_status ≡ s
    → v.result_on ≡ none
    → v.result_note ≡ none
    → v.termination_note ≡ none
    → Undone s v q later (apply_transition s v p today)
unfolding apply_transition apply_correction
correction_undoes_termination pending_application v p q today later e t a b c = ground arith
correction_undoes_termination _ v p q today later e t a b c = ground arith
