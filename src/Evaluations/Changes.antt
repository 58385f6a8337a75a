-- ===== src/Evaluations/Changes.antt =====
-- When an evaluation is worth a notification: the change against the one before it.
use policy_project_managemen.Prelude.{
  Distinct, ℕ, ◌≡◌, ap, ◌↔◌, ◌∙◌, refl, sym, subst, Bool, true, false, not, Option, none, some,
  List, [], ◌∷◌, any, all, is_some, by_id, Result, ok, Option-cases, Bool-cases, inl, inr, String,
  arith, if◌then◌else◌,
}
use policy_project_managemen.Evaluations.Writing.{BatchApart}
use policy_project_managemen.Evaluations.Previous.{
  IsPrevious, previous_evaluation_snapshot-IsPrevious, IsPrevious-previous_evaluation_snapshot,
}
use policy_project_managemen.Evaluations.Shown.{Shows, Shows-evaluation_snapshot}
use policy_project_managemen.Prelude.Text.{str_eq, eq_refl, eq_iff}
use policy_project_managemen.Projects.Rows.{Conclusion, Policy, policy_row_id}
use policy_project_managemen.Notifications.Delivery.{NotificationEvent}
use policy_project_managemen.Evaluations.Rows.{
  MatchLevel, EvaluationBatch, EvaluationBook, EvaluationError, PolicyVersion, version_key,
}
use policy_project_managemen.Evaluations.Values.{conclusion_eq, level_eq}
use policy_project_managemen.Evaluations.Events.{
  level_of, opt_level_eq, same_subjects, same_levels, subject_changes, append_if, bool_eq,
  changed_fields, event_of_changes, evaluation_notification_event,
}
use policy_project_managemen.Evaluations.Snapshots.{
  EvaluationSnapshot, previous_evaluation_snapshot,
}

abbrev Levels : Type 0
Levels = List (String × MatchLevel)

abbrev knows : String → Levels → Bool
knows s rows = any (λ q. str_eq q.0 s) rows

knows-level_of : (s : String) (rows : Levels) → is_some (level_of s rows) ≡ knows s rows
knows-level_of s [] = refl
knows-level_of s ((t, l) ∷ rows) = elim (Bool-cases (str_eq t s)) [
  | inl e ↦ rw e refl
  | inr e ↦ rw e (knows-level_of s rows)
]

-- A test of the subjects holds of all rows where it holds of the known subjects.
all-knows :
    (g : String → Bool) (rows : Levels) (s : String)
    → all (λ p. g p.0) rows ≡ true
    → knows s rows ≡ true
    → g s ≡ true
all-knows g [] s h k = cc
all-knows g ((t, l) ∷ rows) s h k = elim (Bool-cases (str_eq t s)) [
  | inl e ↦ subst (λ u. g u ≡ true) ((eq_iff t s).0 e) (ground arith)
  | inr e ↦ all-knows g rows s (ground arith) (ground (arith, e, k))
]

knows-all :
    (g : String → Bool) (rows : Levels)
    → ((s : String) → knows s rows ≡ true → g s ≡ true)
    → all (λ p. g p.0) rows ≡ true
knows-all g [] h = refl
knows-all g ((t, l) ∷ rows) h =
    rw (h t (rw (eq_refl t) refl)) (knows-all g rows λ s k. h s (ground (arith, k)))

opt_level_eq_sound : (a b : Option MatchLevel) → opt_level_eq a b ≡ true → a ≡ b
opt_level_eq_sound none none h = refl
opt_level_eq_sound (some a) (some b) h = ap some (level_sound a b h)
  where
    level_sound : (a b : MatchLevel) → level_eq a b ≡ true → a ≡ b
    level_sound a b h = ground arith
opt_level_eq_sound none (some b) h = cc
opt_level_eq_sound (some a) none h = cc

opt_level_eq_self : (a : Option MatchLevel) → opt_level_eq a a ≡ true
opt_level_eq_self none = refl
opt_level_eq_self (some a) = ground arith

-- The same level for each subject, none where the subject is unknown.
abbrev pub SameLevels : List (String × MatchLevel) → List (String × MatchLevel) → Type 0
SameLevels previous current = (s : String) → level_of s previous ≡ level_of s current

SameLevels-knows : (a b : Levels) → SameLevels a b → (s : String) → knows s a ≡ knows s b
SameLevels-knows a b h s = sym (knows-level_of s a) ∙ ap is_some (h s) ∙ knows-level_of s b

SameLevels-unchanged : (a b : Levels) → SameLevels a b → subject_changes a b ≡ []
unfolding subject_changes
SameLevels-unchanged a b h =
    rw
      (
        knows-all (λ s. knows s b) a (λ s k. sym (SameLevels-knows a b h s) ∙ k),
        knows-all (λ s. knows s a) b (λ s k. SameLevels-knows a b h s ∙ k),
        knows-all (λ s. opt_level_eq (level_of s a) (level_of s b)) b
            (λ s _. rw (h s) (opt_level_eq_self (level_of s b))),
      )
      refl

unknown-level_of : (s : String) (rows : Levels) → knows s rows ≡ false → level_of s rows ≡ none
unknown-level_of s rows k = elim (Option-cases (level_of s rows)) [
  | inl e ↦ e
  | inr (l, e) ↦ cc (knows-level_of s rows, ap is_some e)
]

unchanged-SameLevels :
    (a b : Levels) → same_subjects a b ≡ true → same_levels a b ≡ true → SameLevels a b
unchanged-SameLevels a b subjects levels s = elim (Bool-cases (knows s b)) [
  | inl k ↦
      opt_level_eq_sound (level_of s a) (level_of s b)
        (all-knows (λ s. opt_level_eq (level_of s a) (level_of s b)) b s levels k)
  | inr k ↦ elim (Bool-cases (knows s a)) [
    | inr k' ↦ unknown-level_of s a k' ∙ sym (unknown-level_of s b k)
    | inl k' ↦ cc (all-knows (λ s. knows s b) a s (ground (arith, subjects)) k', k)
  ]
]

append_if-empty :
    (b : Bool) (change : String) (rest : List String)
    → append_if (not b) change rest ≡ []
    → (b ≡ true) × (rest ≡ [])
append_if-empty true change rest h = (refl, h)
append_if-empty false change rest h = cc

both_tests :
    (b b' : Bool) (change change' : String)
    → (if not b then change ∷ [] else append_if (not b') change' []) ≡ []
    → (b ≡ true) × (b' ≡ true)
both_tests true true change change' h = (refl, refl)
both_tests true false change change' h = cc
both_tests false b' change change' h = cc

subject_changes-empty : (a b : Levels) → subject_changes a b ≡ [] → SameLevels a b
unfolding subject_changes
subject_changes-empty a b h =
    let (subjects, levels) = both_tests (same_subjects a b) (same_levels a b) _ _ h in
    unchanged-SameLevels a b subjects levels

conclusion_eq_sound : (a b : Conclusion) → conclusion_eq a b ≡ true → a ≡ b
conclusion_eq_sound a b h = ground arith

bool_eq_sound : (a b : Bool) → bool_eq a b ≡ true → a ≡ b
bool_eq_sound a b h = ground arith

conclusion_eq_self : (c : Conclusion) → conclusion_eq c c ≡ true
conclusion_eq_self c = ground arith

bool_eq_self : (b : Bool) → bool_eq b b ≡ true
bool_eq_self b = ground arith

-- What two evaluations are compared by.
pub record IsSameOutcome (previous current : EvaluationSnapshot) : Type 0 where
  pub conclusion : previous.conclusion ≡ current.conclusion
  pub high_match : previous.high_match ≡ current.high_match
  pub levels : SameLevels previous.entity_match_levels current.entity_match_levels

changes-IsSameOutcome :
    (p c : EvaluationSnapshot) → changed_fields (some p) c ≡ [] → IsSameOutcome p c
unfolding changed_fields
changes-IsSameOutcome p c h =
    let (conclusion, rest) = append_if-empty (conclusion_eq p.conclusion c.conclusion) _ _ h in
    let (high_match, rest') = append_if-empty (bool_eq p.high_match c.high_match) _ _ rest in
    record {
      conclusion = conclusion_eq_sound p.conclusion c.conclusion conclusion;
      high_match = bool_eq_sound p.high_match c.high_match high_match;
      levels = subject_changes-empty p.entity_match_levels c.entity_match_levels rest';
    }

IsSameOutcome-changes :
    (p c : EvaluationSnapshot) → IsSameOutcome p c → changed_fields (some p) c ≡ []
unfolding changed_fields
IsSameOutcome-changes p c same =
    rw
      (
        same.conclusion,
        conclusion_eq_self c.conclusion,
        same.high_match,
        bool_eq_self c.high_match,
        SameLevels-unchanged p.entity_match_levels c.entity_match_levels same.levels,
      )
      refl

-- No change is reported just where both say the same.
pub changed_fields_iff :
    (previous current : EvaluationSnapshot)
    → (changed_fields (some previous) current ≡ []) ↔ IsSameOutcome previous current
changed_fields_iff previous current =
    (changes-IsSameOutcome previous current, IsSameOutcome-changes previous current)

-- The evaluation before it, the latest of the policy that is available, shows the same.
pub record IsRepeated (batch : EvaluationBatch) (policy_id : ℕ) (current : EvaluationSnapshot)
    (book : EvaluationBook) : Type 0 where
  pub snapshot : EvaluationSnapshot
  pub previous : IsPrevious batch policy_id book snapshot
  pub same : IsSameOutcome snapshot current

event_of_changes-none :
    (policy : Policy) (batch : EvaluationBatch) (previous : Option EvaluationSnapshot)
    (current : EvaluationSnapshot) (changes : List String)
    → event_of_changes policy batch previous current changes ≡ none
    → changes ≡ []
unfolding event_of_changes
event_of_changes-none policy batch previous current [] h = refl
event_of_changes-none policy batch previous current (x ∷ changes) h = cc

answered_none :
    (r : Result EvaluationError (Option NotificationEvent)) (o : Option NotificationEvent)
    → r ≡ ok o
    → r ≡ ok none
    → o ≡ none
answered_none r o e h = cc

module _ (batch : EvaluationBatch) (policy : Policy) (current : EvaluationSnapshot)
    (book : EvaluationBook) where
  abbrev event_now : Option EvaluationSnapshot → Option NotificationEvent
  event_now previous =
      event_of_changes policy batch previous current (changed_fields previous current)

  silent-IsRepeated :
      (previous : Option EvaluationSnapshot)
      → previous_evaluation_snapshot batch policy.id book ≡ previous
      → event_now previous ≡ none
      → IsRepeated batch policy.id current book
  unfolding changed_fields event_of_changes
  silent-IsRepeated none e h = cc
  silent-IsRepeated (some p) e h = record {
    snapshot = p;
    previous = previous_evaluation_snapshot-IsPrevious batch policy.id book p e;
    same =
        changes-IsSameOutcome p current
          (event_of_changes-none policy batch (some p) current (changed_fields (some p) current) h);
  }

  IsRepeated-silent :
      Distinct BatchApart book.batches
      → IsRepeated batch policy.id current book
      → event_now (previous_evaluation_snapshot batch policy.id book) ≡ none
  unfolding event_of_changes
  IsRepeated-silent d r =
      rw
        (
          IsPrevious-previous_evaluation_snapshot batch policy.id book r.snapshot d r.previous,
          IsSameOutcome-changes r.snapshot current r.same,
        )
        refl

  event_found :
      (version : PolicyVersion)
      → Shows book.entity_evaluations batch current
      → by_id version_key batch.policy_version_id book.versions ≡ some version
      → by_id policy_row_id version.policy_id book.policies ≡ some policy
      → evaluation_notification_event batch book
        ≡ ok (event_now (previous_evaluation_snapshot batch policy.id book))
  unfolding evaluation_notification_event
  event_found version e f g =
      rw
        (
          Shows-evaluation_snapshot book.entity_evaluations batch current e,
          f,
          g,
          evaluation_notification_event,
        )
        refl

  -- Where the ids of the batches are distinct, an evaluation that shows something is not notified
  -- just where the evaluation before it, the latest available one of the policy with a lower id,
  -- shows the same conclusion, the same high match and the same level for every entity.
  pub evaluation_notification_event_iff :
      (version : PolicyVersion)
      → Distinct BatchApart book.batches
      → Shows book.entity_evaluations batch current
      → by_id version_key batch.policy_version_id book.versions ≡ some version
      → by_id policy_row_id version.policy_id book.policies ≡ some policy
      → (evaluation_notification_event batch book ≡ ok none)
        ↔ IsRepeated batch policy.id current book
  evaluation_notification_event_iff version d e f g =
      let previous = previous_evaluation_snapshot batch policy.id book in
      let found = event_found version e f g in
      (
        λ h. silent-IsRepeated previous refl (answered_none _ (event_now previous) found h),
        λ r. found ∙ ap ok (IsRepeated-silent d r),
      )
