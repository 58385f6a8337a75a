-- ===== src/EvaluationRules/Published.antt =====
-- At most one version of the evaluation rules is in force.
use policy_project_managemen.Prelude.{
  String, ℕ, ◌+◌, ◌≤◌, ◌<◌, ◌≡◌, ◌≢◌, ◌⊎◌, inl, inr, refl, sym, ap, ◌∙◌, Bool, true, false, not,
  some, List, [], ◌∷◌, ◌++◌, Result, ok, err, ◌>>=◌, raise_if, by_id, has_id, save, update,
  if◌then◌else◌, ◌==◌, arith, All, All-save, All-update, All-In, In, In-find, In-update, Distinct,
  Distinct-save, Distinct-update, save-Apart,
}
use policy_project_managemen.EvaluationRules.{
  draft, rule_status_eq, RuleError, EvaluationRuleVersion, RuleBook, version_id, locked_version,
  stored_version, enabled_weight, is_published, retired_version, published_version, retire_current,
  publish, rule_immutable_error, rule_validation_error,
}

-- The primary key, and the unique constraint on the set and the number.
abbrev pub ApartVersions : EvaluationRuleVersion → EvaluationRuleVersion → Type 0
ApartVersions v w =
    (v.id ≢ w.id) × ((v.rule_set_id ≢ w.rule_set_id) ⊎ (v.version_number ≢ w.version_number))

abbrev pub published_weight : EvaluationRuleVersion → ℕ
published_weight v = if is_published v then 1 else 0

-- how many versions are published
abbrev pub published_count : List EvaluationRuleVersion → ℕ
published_count [] = 0
published_count (v ∷ rows) = published_weight v + published_count rows

pub record IsValid (book : RuleBook) : Type 0 where
  pub distinct : Distinct ApartVersions book.versions
  pub numbered : All (λ v. v.id < book.next_version_id) book.versions
  pub owned : All (λ v. v.rule_set_id < book.next_set_id) book.versions
  pub set_numbered : All (λ s. s.id < book.next_set_id) book.rule_sets
  pub one_published : published_count book.versions ≤ 1

ApartVersions-id : (v w : EvaluationRuleVersion) → ApartVersions v w → v.id ≢ w.id
ApartVersions-id v w a = a.0

-- One row is replaced by a row of the same key.
count-save :
    (a b : EvaluationRuleVersion) (rows : List EvaluationRuleVersion)
    → a.id ≡ b.id
    → Distinct ApartVersions rows
    → In b rows
    → published_count (save version_id a rows) + published_weight b
      ≡ published_count rows + published_weight a
count-save a b [] e d m = absurd m
count-save a b (x ∷ rows) e d (inl first) =
    rw
      (
        here first,
        save-Apart version_id ApartVersions ApartVersions-id x a rows (same_id first) d.0,
      )
      (omega (arith, ap published_weight first))
  where
    same_id : x ≡ b → x.id ≡ a.id
    same_id f = ap version_id f ∙ sym e

    here : x ≡ b → version_id x == version_id a ≡ true
    here f = ground (arith, same_id f)
count-save a b (x ∷ rows) e d (inr m) =
    rw (other (All-In (ApartVersions x) b rows d.0 m)) (omega (arith, count-save a b rows e d.1 m))
  where
    other : ApartVersions x b → version_id x == version_id a ≡ false
    other f = ground (arith, f.0)

count-update :
    (rows : List EvaluationRuleVersion)
    → published_count (update is_published retired_version rows) ≡ 0
count-update [] = refl
count-update (v ∷ rows) = ground (arith, count-update rows)

pub count-append :
    (rows : List EvaluationRuleVersion) (v : EvaluationRuleVersion)
    → published_count (rows ++ v ∷ []) ≡ published_count rows + published_weight v
count-append [] v = omega arith
count-append (x ∷ rows) v = omega (arith, count-append rows v)

-- What holds of the version that a method returns and of the tables that it leaves.
abbrev pub AfterRule :
    (EvaluationRuleVersion → RuleBook → Type 0)
    → Result RuleError (EvaluationRuleVersion × RuleBook)
    → Type 0
AfterRule P (ok (v, book)) = P v book
AfterRule P (err e) = Unit

abbrev pub ValidAfterRule : Result RuleError (EvaluationRuleVersion × RuleBook) → Type 0
ValidAfterRule = AfterRule (λ v book. IsValid book)

pub AfterRule-bind {ℓ} :
    {A : Type ℓ} (P : EvaluationRuleVersion → RuleBook → Type 0) (m : Result RuleError A)
    (f : A → Result RuleError (EvaluationRuleVersion × RuleBook))
    → ((a : A) → m ≡ ok a → AfterRule P (f a))
    → AfterRule P (m >>= f)
AfterRule-bind P (ok a) f h = h a refl
AfterRule-bind P (err e) f h = tt

pub locked_version_in :
    (n : ℕ) (book : RuleBook) (v : EvaluationRuleVersion)
    → locked_version n book ≡ ok v
    → by_id version_id n book.versions ≡ some v
unfolding locked_version
locked_version_in n book v e = ground arith

-- A version of a valid book is written back with its key, set and number.
module _ (book : RuleBook) (valid : IsValid book) (a b : EvaluationRuleVersion)
    (m : In b book.versions) (same_id : a.id ≡ b.id) (same_set : a.rule_set_id ≡ b.rule_set_id)
    (same_number : a.version_number ≡ b.version_number) where
  pub stored_version-IsValid :
      (action : String) (actor_id : ℕ)
      → published_count book.versions + published_weight a ≤ 1 + published_weight b
      → IsValid (stored_version action actor_id a book)
  unfolding stored_version
  stored_version-IsValid action actor_id weight = record {
    distinct =
        Distinct-save version_id ApartVersions ApartVersions-id a b same_id
          (λ x h. rw (same_id, same_set, same_number) h)
          (λ x h. rw (same_id, same_set, same_number) h) book.versions m valid.distinct;
    numbered =
        All-save version_id (λ v. v.id < book.next_version_id) a book.versions
          (rw same_id (All-In (λ v. v.id < book.next_version_id) b book.versions valid.numbered m))
          valid.numbered;
    owned =
        All-save version_id (λ v. v.rule_set_id < book.next_set_id) a book.versions
          (rw same_set
            (All-In (λ v. v.rule_set_id < book.next_set_id) b book.versions valid.owned m))
          valid.owned;
    set_numbered = valid.set_numbered;
    one_published = omega (arith, count-save a b book.versions same_id valid.distinct m);
  }

retire_current-IsValid : (book : RuleBook) → IsValid book → IsValid (retire_current book)
retire_current-IsValid book v = record {
  distinct =
      Distinct-update ApartVersions is_published retired_version (λ x y h. h) (λ x y h. h)
        book.versions v.distinct;
  numbered =
      All-update (λ v. v.id < book.next_version_id) is_published retired_version book.versions
        (λ a h _. h) v.numbered;
  owned =
      All-update (λ v. v.rule_set_id < book.next_set_id) is_published retired_version book.versions
        (λ a h _. h) v.owned;
  set_numbered = v.set_numbered;
  one_published = omega (arith, count-update book.versions);
}

pub locked_row :
    (n : ℕ) (book : RuleBook) (v : EvaluationRuleVersion)
    → locked_version n book ≡ ok v
    → In v book.versions
locked_row n book v e = In-find (has_id version_id n) v book.versions (locked_version_in n book v e)

pub unpublished :
    (v : EvaluationRuleVersion) → rule_status_eq v.status draft ≡ true → is_published v ≡ false
unpublished v h = ground arith

-- A method goes on past its test of the status only with that status.
pub guard-holds : (b : Bool) (e : RuleError) → raise_if (not b) e ≡ ok tt → b ≡ true
guard-holds b e h = ground arith

-- Publishing a version keeps at most one version published, with the keys and numbers distinct.
pub publish-IsValid :
    (now n actor_id : ℕ) (book : RuleBook)
    → IsValid book
    → ValidAfterRule (publish now n actor_id book)
unfolding publish
publish-IsValid now n actor_id book v =
    let Valid = λ (v : EvaluationRuleVersion) (book : RuleBook). IsValid book in
    AfterRule-bind Valid (locked_version n book) _ λ version e.
      AfterRule-bind Valid
        (raise_if (not (rule_status_eq version.status draft)) rule_immutable_error) _
        λ u g.
          AfterRule-bind Valid
            (raise_if (not (enabled_weight version.weighted_rules == 100)) rule_validation_error) _
            λ _ _.
              let is_draft =
                guard-holds (rule_status_eq version.status draft) rule_immutable_error g in
              stored_version-IsValid (retire_current book) (retire_current-IsValid book v)
                (published_version actor_id now version) version
                (In-update is_published retired_version version book.versions
                  (unpublished version is_draft) (locked_row n book version e))
                refl refl refl "evaluation_rule_published" actor_id
                (omega (arith, count-update book.versions))
