-- ===== src/EvaluationRules/History.antt =====
-- Drafts are numbered without a clash, and every sequence of calls keeps the rules valid.
use policy_project_managemen.Prelude.{
  ℕ, ◌+◌, ◌<◌, ◌≡◌, inl, inr, refl, false, not, Option, none, some, List, [], ◌∷◌, Result, ok, err,
  raise_if, or_raise, by_id, has_id, save, any, ◌==◌, arith, All, All-map, All-append, All-save,
  All-In, In-find, Distinct-append_one, Bool-cases, Option-cases,
}
use policy_project_managemen.EvaluationRules.{
  draft, published, rule_status_eq, RuleError, EvaluationRuleDraftInput, EvaluationRuleVersion,
  RuleBook, set_id, latest_number, has_number, new_version, add_version, with_new_set, create_draft,
  locked_version, updated_version, update_draft, retired_version, publish, retire, rule_not_found,
  rule_immutable_error,
}
use policy_project_managemen.EvaluationRules.Published.{
  ApartVersions, IsValid, ValidAfterRule, AfterRule-bind, count-append, locked_row,
  stored_version-IsValid, publish-IsValid,
}

number_above_latest :
    (n k : ℕ) (rows : List EvaluationRuleVersion)
    → latest_number n rows < k
    → any (has_number n k) rows ≡ false
unfolding latest_number
number_above_latest n k [] h = refl
number_above_latest n k (v ∷ rows) h = ground (arith, number_above_latest n k rows)

number_of_new_set :
    (n k : ℕ) (rows : List EvaluationRuleVersion)
    → All (λ v. v.rule_set_id < n) rows
    → any (has_number n k) rows ≡ false
number_of_new_set n k [] h = refl
number_of_new_set n k (v ∷ rows) h = ground (arith, number_of_new_set n k rows h.1)

row-Apart :
    (v w : EvaluationRuleVersion)
    → has_number w.rule_set_id w.version_number v ≡ false
    → v.id < w.id
    → ApartVersions v w
row-Apart v w f lt = (
  λ e. omega arith,
  elim (Bool-cases (v.rule_set_id == w.rule_set_id)) [
    | inl e ↦ inr (λ q. ground arith)
    | inr e ↦ inl (λ q. ground arith)
  ],
)

free-Apart :
    (w : EvaluationRuleVersion) (rows : List EvaluationRuleVersion)
    → any (has_number w.rule_set_id w.version_number) rows ≡ false
    → All (λ v. v.id < w.id) rows
    → All (λ v. ApartVersions v w) rows
free-Apart w [] f h = tt
free-Apart w (v ∷ rows) f h =
    (row-Apart v w (ground arith) h.0, free-Apart w rows (ground arith) h.1)

-- The call returned.
abbrev pub Returns : Result RuleError (EvaluationRuleVersion × RuleBook) → Type 0
Returns (ok r) = Unit
Returns (err e) = e ≡ rule_not_found

new-fields :
    (id n number : ℕ) (payload : EvaluationRuleDraftInput) (actor_id : ℕ)
    → let v = new_version id n number payload actor_id in
      (v.id ≡ id) × (v.rule_set_id ≡ n) × (v.version_number ≡ number) × (v.status ≡ draft)
unfolding new_version
new-fields id n number payload actor_id = (refl, refl, refl, refl)

module _ (n number : ℕ) (payload : EvaluationRuleDraftInput) (actor_id : ℕ) (book : RuleBook)
    (free : any (has_number n number) book.versions ≡ false) where
  add_version-Returns : Returns (add_version n number payload actor_id book)
  unfolding add_version
  add_version-Returns = rw free tt

  add_version-IsValid :
      IsValid book
      → n < book.next_set_id
      → ValidAfterRule (add_version n number payload actor_id book)
  unfolding add_version new_version
  add_version-IsValid v known =
      let w = new_version book.next_version_id n number payload actor_id in
      rw free (record {
        distinct =
            Distinct-append_one ApartVersions book.versions w v.distinct
              (free-Apart w book.versions free v.numbered);
        numbered =
            All-append (λ v. v.id < book.next_version_id + 1) book.versions (w ∷ [])
              (All-map (λ v. v.id < book.next_version_id) (λ v. v.id < book.next_version_id + 1)
                book.versions (λ a lt. omega arith) v.numbered)
              (omega arith, tt);
        owned =
            All-append (λ v. v.rule_set_id < book.next_set_id) book.versions (w ∷ []) v.owned
              (known, tt);
        set_numbered = v.set_numbered;
        one_published = omega (arith, count-append book.versions w, v.one_published);
      })

with_new_set-IsValid :
    (payload : EvaluationRuleDraftInput) (actor_id : ℕ) (book : RuleBook)
    → IsValid book
    → IsValid (with_new_set payload actor_id book)
with_new_set-IsValid payload actor_id book v = record {
  distinct = v.distinct;
  numbered = v.numbered;
  owned =
      All-map (λ v. v.rule_set_id < book.next_set_id) (λ v. v.rule_set_id < book.next_set_id + 1)
        book.versions (λ a lt. omega arith) v.owned;
  set_numbered =
      All-append (λ s. s.id < book.next_set_id + 1) book.rule_sets _
        (All-map (λ s. s.id < book.next_set_id) (λ s. s.id < book.next_set_id + 1) book.rule_sets
          (λ a lt. omega arith) v.set_numbered)
        (omega arith, tt);
  one_published = v.one_published;
}

-- On valid rules the creation of a draft never ends in an IntegrityError: its number, one above
-- the latest of its set, is free. It returns, or the set is not there.
create_draft-Returns :
    (rule_set_id : Option ℕ) (payload : EvaluationRuleDraftInput) (actor_id : ℕ) (book : RuleBook)
    → IsValid book
    → Returns (create_draft rule_set_id payload actor_id book)
unfolding create_draft
create_draft-Returns none payload actor_id book v =
    add_version-Returns book.next_set_id 1 payload actor_id (with_new_set payload actor_id book)
      (number_of_new_set book.next_set_id 1 book.versions v.owned)
create_draft-Returns (some n) payload actor_id book v =
    elim (Option-cases (by_id set_id n book.rule_sets)) [
      | inl e ↦ rw e refl
      | inr (s, e) ↦ rw e (
          add_version-Returns s.id (latest_number s.id book.versions + 1) payload actor_id book (
            number_above_latest s.id (latest_number s.id book.versions + 1) book.versions
              (omega arith)))
    ]

create_draft-IsValid :
    (rule_set_id : Option ℕ) (payload : EvaluationRuleDraftInput) (actor_id : ℕ) (book : RuleBook)
    → IsValid book
    → ValidAfterRule (create_draft rule_set_id payload actor_id book)
unfolding create_draft
create_draft-IsValid none payload actor_id book v =
    add_version-IsValid book.next_set_id 1 payload actor_id (with_new_set payload actor_id book)
      (number_of_new_set book.next_set_id 1 book.versions v.owned)
      (with_new_set-IsValid payload actor_id book v) (omega arith)
create_draft-IsValid (some n) payload actor_id book v =
    AfterRule-bind (λ v book. IsValid book)
      (or_raise (by_id set_id n book.rule_sets) rule_not_found) _
      λ s e.
        let number = latest_number s.id book.versions + 1 in
        add_version-IsValid s.id number payload actor_id book
          (number_above_latest s.id number book.versions (omega arith)) v
          (All-In (λ s. s.id < book.next_set_id) s book.rule_sets v.set_numbered
            (In-find (has_id set_id n) s book.rule_sets (ground arith)))

update_draft-IsValid :
    (n : ℕ) (payload : EvaluationRuleDraftInput) (actor_id : ℕ) (book : RuleBook)
    → IsValid book
    → ValidAfterRule (update_draft n payload actor_id book)
unfolding update_draft updated_version
update_draft-IsValid n payload actor_id book v =
    let Valid = λ (v : EvaluationRuleVersion) (book : RuleBook). IsValid book in
    AfterRule-bind Valid (locked_version n book) _ λ version e.
      AfterRule-bind Valid
        (raise_if (not (rule_status_eq version.status draft)) rule_immutable_error) _
        λ u g.
          AfterRule-bind Valid
            (or_raise (by_id set_id version.rule_set_id book.rule_sets) rule_not_found) _
            λ s f.
              let named = record s { name = payload.name; description = payload.description } in
              stored_version-IsValid (record book { rule_sets = save set_id named book.rule_sets })
                (record {
                  distinct = v.distinct;
                  numbered = v.numbered;
                  owned = v.owned;
                  one_published = v.one_published;
                  set_numbered =
                      All-save set_id (λ s. s.id < book.next_set_id) named book.rule_sets
                        (All-In (λ s. s.id < book.next_set_id) s book.rule_sets v.set_numbered
                          (In-find (has_id set_id version.rule_set_id) s book.rule_sets
                            (ground arith)))
                        v.set_numbered;
                })
                (updated_version payload version) version (locked_row n book version e) refl refl
                refl "evaluation_rule_draft_updated" actor_id (omega (arith, v.one_published))

retire-IsValid :
    (n actor_id : ℕ) (book : RuleBook) → IsValid book → ValidAfterRule (retire n actor_id book)
unfolding retire
retire-IsValid n actor_id book v =
    let Valid = λ (v : EvaluationRuleVersion) (book : RuleBook). IsValid book in
    AfterRule-bind Valid (locked_version n book) _ λ version e.
      AfterRule-bind Valid
        (raise_if (not (rule_status_eq version.status published)) rule_immutable_error) _
        λ _ _.
          stored_version-IsValid book v (retired_version version) version
            (locked_row n book version e) refl refl refl "evaluation_rule_retired" actor_id
            (omega (arith, v.one_published))

-- A call of the service that changes its tables.
pub data Call : Type 0 where
  creating : Option ℕ → EvaluationRuleDraftInput → ℕ → Call
  updating : ℕ → EvaluationRuleDraftInput → ℕ → Call
  publishing : ℕ → ℕ → ℕ → Call
  retiring : ℕ → ℕ → Call

abbrev pub answer : Call → RuleBook → Result RuleError (EvaluationRuleVersion × RuleBook)
answer (creating rule_set_id payload actor_id) = create_draft rule_set_id payload actor_id
answer (updating n payload actor_id) = update_draft n payload actor_id
answer (publishing now n actor_id) = publish now n actor_id
answer (retiring n actor_id) = retire n actor_id

-- The tables after a call, which are as before when it raises.
abbrev pub left : RuleBook → Result RuleError (EvaluationRuleVersion × RuleBook) → RuleBook
left book (ok (v, book')) = book'
left book (err e) = book

abbrev pub run : List Call → RuleBook → RuleBook
run [] book = book
run (c ∷ calls) book = run calls (left book (answer c book))

answer-IsValid : (c : Call) (book : RuleBook) → IsValid book → ValidAfterRule (answer c book)
answer-IsValid (creating rule_set_id payload actor_id) book v =
    create_draft-IsValid rule_set_id payload actor_id book v
answer-IsValid (updating n payload actor_id) book v = update_draft-IsValid n payload actor_id book v
answer-IsValid (publishing now n actor_id) book v = publish-IsValid now n actor_id book v
answer-IsValid (retiring n actor_id) book v = retire-IsValid n actor_id book v

left-IsValid :
    (book : RuleBook) (r : Result RuleError (EvaluationRuleVersion × RuleBook))
    → IsValid book
    → ValidAfterRule r
    → IsValid (left book r)
left-IsValid book (ok (w, book')) v h = h
left-IsValid book (err e) v h = v

-- From valid rules every sequence of calls, those that raise included, leads to valid rules: at
-- most one version is published, and the keys and the numbers of a set are distinct.
pub run_rules-IsValid :
    (calls : List Call) (book : RuleBook) → IsValid book → IsValid (run calls book)
run_rules-IsValid [] book v = v
run_rules-IsValid (c ∷ calls) book v =
    run_rules-IsValid calls (left book (answer c book))
      (left-IsValid book (answer c book) v (answer-IsValid c book v))
