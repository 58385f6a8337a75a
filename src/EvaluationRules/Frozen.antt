-- ===== src/EvaluationRules/Frozen.antt =====
-- A version that was published is not changed again, and the one that is published is the active
-- one.
use policy_project_managemen.Prelude.{
  String, ℕ, ◌+◌, ◌≤◌, ◌≡◌, ◌≢◌, ◌⊎◌, inl, inr, refl, sym, ◌∙◌, true, false, not, none, some, List,
  [], ◌∷◌, ◌++◌, Result, ok, err, raise_if, or_raise, by_id, by_id-save, by_id-save_self,
  by_id-save_ne, has_id, save, find, find_holds, update, any, if◌then◌else◌, ◌==◌, ==-eq, arith, In,
  In-find, Bool-cases, subst,
}
use policy_project_managemen.EvaluationRules.{
  draft, published, rule_status_eq, RuleError, EvaluationRuleDraftInput, EvaluationRuleVersion,
  RuleBook, set_id, version_id, latest_number, has_number, add_version, with_new_set, create_draft,
  locked_version, updated_version, stored_version, update_draft, enabled_weight, is_published,
  retired_version, published_version, retire_current, publish, retire, get_active_version,
  rule_not_found, rule_immutable_error, rule_validation_error,
}
use policy_project_managemen.EvaluationRules.Published.{
  published_count, IsValid, AfterRule, AfterRule-bind, locked_version_in, guard-holds,
  publish-IsValid,
}
use policy_project_managemen.EvaluationRules.History.{
  Call, creating, updating, publishing, retiring, answer, left, run,
}

-- The row of the key `m` is the version, or the version retired.
abbrev pub IsKept : ℕ → EvaluationRuleVersion → RuleBook → Type 0
IsKept m v book =
    (by_id version_id m book.versions ≡ some v)
    ⊎ (by_id version_id m book.versions ≡ some (retired_version v))

by_id-append :
    (m : ℕ) (v w : EvaluationRuleVersion) (rows : List EvaluationRuleVersion)
    → by_id version_id m rows ≡ some v
    → by_id version_id m (rows ++ w ∷ []) ≡ some v
by_id-append m v w [] h = cc
by_id-append m v w (x ∷ rows) h = ground (arith, by_id-append m v w rows)

by_id-retire_current :
    (m : ℕ) (v : EvaluationRuleVersion) (rows : List EvaluationRuleVersion)
    → by_id version_id m rows ≡ some v
    → by_id version_id m (update is_published retired_version rows)
      ≡ some (if is_published v then retired_version v else v)
by_id-retire_current m v [] h = cc
by_id-retire_current m v (x ∷ rows) h = ground (arith, by_id-retire_current m v rows)

add_version-keeps :
    (m : ℕ) (v : EvaluationRuleVersion) (book : RuleBook)
    → by_id version_id m book.versions ≡ some v
    → (n number : ℕ) (payload : EvaluationRuleDraftInput) (actor_id : ℕ)
    → AfterRule (λ _ book'. IsKept m v book') (add_version n number payload actor_id book)
unfolding add_version
add_version-keeps m v book row n number payload actor_id =
    elim (Bool-cases (any (has_number n number) book.versions)) [
      | inl clash ↦ rw clash tt
      | inr free ↦ rw free (inl (by_id-append m v _ book.versions row))
    ]

-- A version that is not a draft is in the table under the key `m`.
module _ (m : ℕ) (v : EvaluationRuleVersion) (book : RuleBook)
    (row : by_id version_id m book.versions ≡ some v)
    (final : rule_status_eq v.status draft ≡ false) where
  draft_elsewhere :
      (n : ℕ) (w : EvaluationRuleVersion)
      → locked_version n book ≡ ok w
      → rule_status_eq w.status draft ≡ true
      → m ≢ w.id
  draft_elsewhere n w e is_draft q = ground (
    arith,
    locked_version_in n book w e,
    find_holds (has_id version_id n) w book.versions (locked_version_in n book w e),
  )

  stored-keeps :
      (action : String) (actor_id : ℕ) (a : EvaluationRuleVersion) (now : RuleBook)
      → m ≢ a.id
      → IsKept m v now
      → IsKept m v (stored_version action actor_id a now)
  unfolding stored_version
  stored-keeps action actor_id a now other (inl e) =
      inl (by_id-save_ne version_id m a now.versions other ∙ e)
  stored-keeps action actor_id a now other (inr e) =
      inr (by_id-save_ne version_id m a now.versions other ∙ e)

  retire_current-keeps : IsKept m v (retire_current book)
  retire_current-keeps = elim (Bool-cases (is_published v)) [
    | inl e ↦ inr (ground (arith, by_id-retire_current m v book.versions row))
    | inr e ↦ inl (ground (arith, by_id-retire_current m v book.versions row))
  ]

  retired-keeps :
      (action : String) (actor_id n : ℕ) (w : EvaluationRuleVersion)
      → locked_version n book ≡ ok w
      → IsKept m v (stored_version action actor_id (retired_version w) book)
  unfolding stored_version
  retired-keeps action actor_id n w e =
      let found = locked_version_in n book w e in
      let at_id = ==-eq w.id n (find_holds (has_id version_id n) w book.versions found) in
      let here = subst (λ k. by_id version_id k book.versions ≡ some w) (sym at_id) found in
      let saved = by_id-save version_id m (retired_version w) w book.versions here in
      elim (Bool-cases (m == w.id)) [
        | inl same ↦ inr (ground (arith, saved, same_version w here (==-eq m w.id same)))
        | inr other ↦ inl (ground (arith, saved))
      ]
    where
      same_version :
          (w : EvaluationRuleVersion)
          → by_id version_id w.id book.versions ≡ some w
          → m ≡ w.id
          → w ≡ v
      same_version w here q =
          let there : by_id version_id m book.versions ≡ some w =
            subst (λ k. by_id version_id k book.versions ≡ some w) (sym q) here in
          cc (there, row)

  answer-keeps : (c : Call) → AfterRule (λ _ book'. IsKept m v book') (answer c book)
  unfolding create_draft update_draft publish retire updated_version
  answer-keeps (creating none payload actor_id) =
      add_version-keeps m v (with_new_set payload actor_id book) row book.next_set_id 1 payload
        actor_id
  answer-keeps (creating (some n) payload actor_id) =
      AfterRule-bind (λ _ book'. IsKept m v book')
        (or_raise (by_id set_id n book.rule_sets) rule_not_found) _
        λ s e.
          add_version-keeps m v book row s.id (latest_number s.id book.versions + 1) payload
            actor_id
  answer-keeps (updating n payload actor_id) =
      let Kept = λ (w : EvaluationRuleVersion) (book' : RuleBook). IsKept m v book' in
      AfterRule-bind Kept (locked_version n book) _ λ version e.
        AfterRule-bind Kept
          (raise_if (not (rule_status_eq version.status draft)) rule_immutable_error) _
          λ u g.
            AfterRule-bind Kept
              (or_raise (by_id set_id version.rule_set_id book.rule_sets) rule_not_found) _
              λ s f.
                stored-keeps "evaluation_rule_draft_updated" actor_id
                  (updated_version payload version) _
                  (draft_elsewhere n version e
                    (guard-holds (rule_status_eq version.status draft) rule_immutable_error g))
                  (inl row)
  answer-keeps (publishing now n actor_id) =
      let Kept = λ (w : EvaluationRuleVersion) (book' : RuleBook). IsKept m v book' in
      AfterRule-bind Kept (locked_version n book) _ λ version e.
        AfterRule-bind Kept
          (raise_if (not (rule_status_eq version.status draft)) rule_immutable_error) _
          λ u g.
            AfterRule-bind Kept
              (raise_if (not (enabled_weight version.weighted_rules == 100)) rule_validation_error)
              _
              λ _ _.
                stored-keeps "evaluation_rule_published" actor_id
                  (published_version actor_id now version) (retire_current book)
                  (draft_elsewhere n version e
                    (guard-holds (rule_status_eq version.status draft) rule_immutable_error g))
                  retire_current-keeps
  answer-keeps (retiring n actor_id) =
      let Kept = λ (w : EvaluationRuleVersion) (book' : RuleBook). IsKept m v book' in
      AfterRule-bind Kept (locked_version n book) _ λ version e.
        AfterRule-bind Kept
          (raise_if (not (rule_status_eq version.status published)) rule_immutable_error) _
          λ _ _. retired-keeps "evaluation_rule_retired" actor_id n version e

left-keeps :
    (m : ℕ) (v : EvaluationRuleVersion) (book : RuleBook)
    (r : Result RuleError (EvaluationRuleVersion × RuleBook))
    → IsKept m v book
    → AfterRule (λ _ book'. IsKept m v book') r
    → IsKept m v (left book r)
left-keeps m v book (ok (w, book')) k h = h
left-keeps m v book (err e) k h = k

IsKept-retired :
    (m : ℕ) (v : EvaluationRuleVersion) (book : RuleBook)
    → IsKept m (retired_version v) book
    → IsKept m v book
IsKept-retired m v book (inl e) = inr e
IsKept-retired m v book (inr e) = inr e

-- A version of the table that is not a draft stays as it is, but that it may be retired, under
-- every later sequence of calls.
pub run-keeps :
    (calls : List Call) (m : ℕ) (v : EvaluationRuleVersion) (book : RuleBook)
    → rule_status_eq v.status draft ≡ false
    → by_id version_id m book.versions ≡ some v
    → IsKept m v (run calls book)
run-keeps [] m v book final row = inl row
run-keeps (c ∷ calls) m v book final row =
    elim (left-keeps m v book (answer c book) (inl row) (answer-keeps m v book row final c)) [
      | inl e ↦ run-keeps calls m v (left book (answer c book)) final e
      | inr e ↦
          IsKept-retired m v (run calls (left book (answer c book)))
            (run-keeps calls m (retired_version v) (left book (answer c book)) refl e)
    ]

published_weighs :
    (v : EvaluationRuleVersion) (rows : List EvaluationRuleVersion)
    → In v rows
    → is_published v ≡ true
    → 1 ≤ published_count rows
published_weighs v [] m p = absurd m
published_weighs v (x ∷ rows) (inl first) p = ground arith
published_weighs v (x ∷ rows) (inr m) p = ground (arith, published_weighs v rows m p)

-- The only published version is the one that the query finds.
find-published :
    (v : EvaluationRuleVersion) (rows : List EvaluationRuleVersion)
    → In v rows
    → is_published v ≡ true
    → published_count rows ≤ 1
    → find is_published rows ≡ some v
find-published v [] m p one = absurd m
find-published v (x ∷ rows) (inl first) p one = ground arith
find-published v (x ∷ rows) (inr m) p one =
    ground (arith, published_weighs v rows m p, find-published v rows m p)

-- The version that a publication returns is written, published and in force.
abbrev pub IsActive : ℕ → EvaluationRuleVersion → RuleBook → Type 0
IsActive n v book =
    (v.id ≡ n) × (enabled_weight v.weighted_rules ≡ 100) × (get_active_version book ≡ ok v)

stored_active :
    (action : String) (actor_id : ℕ) (a b : EvaluationRuleVersion) (now : RuleBook)
    → by_id version_id a.id now.versions ≡ some b
    → is_published a ≡ true
    → IsValid (stored_version action actor_id a now)
    → get_active_version (stored_version action actor_id a now) ≡ ok a
unfolding stored_version get_active_version
stored_active action actor_id a b now here p v =
    rw
      (find-published a (save version_id a now.versions)
        (In-find (has_id version_id a.id) a (save version_id a now.versions)
          (by_id-save_self version_id a b now.versions here))
        p v.one_published)
      refl

AfterRule-mp :
    (P Q : EvaluationRuleVersion → RuleBook → Type 0)
    (r : Result RuleError (EvaluationRuleVersion × RuleBook))
    → AfterRule P r
    → AfterRule (λ v book. P v book → Q v book) r
    → AfterRule Q r
AfterRule-mp P Q (ok (v, book)) p q = q p
AfterRule-mp P Q (err e) p q = tt

publish-IsActive :
    (now n actor_id : ℕ) (book : RuleBook)
    → AfterRule (λ w book'. IsValid book' → IsActive n w book') (publish now n actor_id book)
unfolding publish
publish-IsActive now n actor_id book =
    let Active =
      λ (w : EvaluationRuleVersion) (book' : RuleBook). IsValid book' → IsActive n w book' in
    AfterRule-bind Active (locked_version n book) _ λ version e.
      AfterRule-bind Active
        (raise_if (not (rule_status_eq version.status draft)) rule_immutable_error) _
        λ _ _.
          AfterRule-bind Active
            (raise_if (not (enabled_weight version.weighted_rules == 100)) rule_validation_error) _
            λ _ g valid.
              let found = locked_version_in n book version e in
              let at_id =
                ==-eq version.id n (find_holds (has_id version_id n) version book.versions found) in
              let here =
                subst (λ k. by_id version_id k book.versions ≡ some version) (sym at_id) found in
              (
                at_id,
                ==-eq (enabled_weight version.weighted_rules) 100 (
                    guard-holds (enabled_weight version.weighted_rules == 100) rule_validation_error
                      g),
                stored_active "evaluation_rule_published" actor_id
                    (published_version actor_id now version) _ (retire_current book)
                    (by_id-retire_current version.id version book.versions here) refl valid,
              )

-- After a publication on valid rules the active version is the one that was published, whatever
-- was in force before, and the weights of its enabled rules make 100.
pub publish_activates :
    (now n actor_id : ℕ) (book : RuleBook)
    → IsValid book
    → AfterRule (IsActive n) (publish now n actor_id book)
publish_activates now n actor_id book v =
    AfterRule-mp (λ w book'. IsValid book') (IsActive n) (publish now n actor_id book)
      (publish-IsValid now n actor_id book v) (publish-IsActive now n actor_id book)
